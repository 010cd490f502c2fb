-- ===== src/Util/Hex/RoundTrip.antt =====
-- What `string_to_bytes` makes of the string that `bytes_to_string` wrote.
use csae.Prelude.{
  ℕ, zero, suc, ◌+◌, ◌-◌, ◌*◌, ◌/◌, ◌%◌, ◌≤◌, ◌<◌, ◌≡◌, refl, ap, ◌∙◌, false, some, List, [], ◌∷◌,
  ◌++◌, append_assoc, arith, length, length-append, replicate, length-replicate, All, All-append,
  le→leb, lt→ltb, ◌==◌, ok, bind,
}
use native.Mathlib.Nat.{add-zero, zero-add}
use csae.Memory.Word.{IsByte}
use csae.Memory.Write.{put_front, splice}
use csae.Memory.Write.Laws.{length-splice, splice-splice, put_front-nil, put_front-prefix}
use csae.Util.Hex.{
  hex_digit, hex_byte, strcat, put_hex, bytes_to_string, hex_char_to_val, is_space, scan,
  string_to_bytes,
}

-- The digits of some bytes.
unfoldable pub digits : List ℕ → List ℕ
digits [] = []
digits (b ∷ bs) = hex_byte b ++ digits bs

pub length-digits : (bs : List ℕ) → length (digits bs) ≡ 2 * length bs
unfolding digits
length-digits [] = refl
length-digits (b ∷ bs) = omega (arith, length-digits bs)

-- A string without a NUL inside.
abbrev pub NoNul : List ℕ → Type 0
NoNul = All (λ c. 0 < c)

pub strcat-put_front :
    (h s str : List ℕ)
    → NoNul h
    → 0 < length s
    → length h + length s + 1 ≤ length str
    → strcat (put_front (h ++ (0 ∷ [])) str) s ≡ ok (put_front (h ++ (s ++ (0 ∷ []))) str)
unfolding strcat put_front
strcat-put_front [] (c ∷ s) [] n p h = absurd (omega arith)
strcat-put_front [] [] str n p h = absurd (omega arith)
strcat-put_front [] (c ∷ s) (x ∷ str) n p h =
    rw (le→leb (length (c ∷ s)) (length str) (omega arith))
strcat-put_front (a ∷ rest) s [] n p h = absurd (omega arith)
strcat-put_front (zero ∷ rest) s (x ∷ str) n p h = absurd (omega (arith, n.0))
strcat-put_front (suc a ∷ rest) s (x ∷ str) n p h =
    rw (strcat-put_front rest s str n.1 p (omega arith))

hex_digit_lem :
    (n : ℕ)
    → n < 16
    → (hex_char_to_val (hex_digit n) ≡ some n)
      × (is_space (hex_digit n) ≡ false)
      × ((hex_digit n == 0) ≡ false)
hex_digit_lem n h = (ground arith, ground arith, ground arith)

pub hex_digit-positive : (n : ℕ) → 0 < hex_digit n
hex_digit-positive n = ground arith

pub digits-NoNul : (bs : List ℕ) → NoNul (digits bs)
unfolding digits
digits-NoNul [] = tt
digits-NoNul (b ∷ bs) =
    (hex_digit-positive (b / 16), (hex_digit-positive (b % 16), digits-NoNul bs))

-- The loop behind `h`, which has no NUL.
put_hex-put_front :
    (bs post h str : List ℕ)
    → NoNul h
    → length h + 2 * length bs + 1 ≤ length str
    → put_hex (length bs) (bs ++ post) (put_front (h ++ (0 ∷ [])) str)
      ≡ ok (put_front (h ++ (digits bs ++ (0 ∷ []))) str)
unfolding put_hex digits
put_hex-put_front [] post h str n room = refl
put_hex-put_front (b ∷ bs) post h str n room =
    rw (strcat-put_front h (hex_byte b) str n (omega arith) (omega arith)) (
      rw (append_assoc h (hex_byte b) (0 ∷ []), append_assoc h (hex_byte b) (digits bs ++ (0 ∷ [])))
        at
        (put_hex-put_front bs post (h ++ hex_byte b) str
          (All-append _ h (hex_byte b) n
            (hex_digit-positive (b / 16), (hex_digit-positive (b % 16), tt)))
          (rw length-append (omega arith))))

scan-nul : (post out : List ℕ) (size count : ℕ) → scan size count out (0 ∷ post) ≡ ok (out, count)
unfolding scan
scan-nul [] out size count = refl
scan-nul (d ∷ post) out size count = refl

-- Two digits give their byte.
scan-hex_byte :
    (b : ℕ) (str out : List ℕ) (size count : ℕ)
    → b < 256
    → count < size
    → scan size count out (hex_byte b ++ str)
      ≡ scan size (count + 1) (splice count (b ∷ []) out) str
unfolding scan
scan-hex_byte b str out size count h room =
    let (hi, hi_char, hi_set) = hex_digit_lem (b / 16) (omega arith) in
    let (lo, lo_char, lo_set) = hex_digit_lem (b % 16) (omega arith) in
    let byte : ((b / 16) * 16 + b % 16) % 256 ≡ b = omega arith in
    rw (hi_set, hi_char, hi, lo_set, lo, lt→ltb count size room) (rw byte)

-- The scan over the digits of `bs`, with room for them.
scan-digits :
    (bs post out : List ℕ) (size count : ℕ)
    → All IsByte bs
    → count + length bs ≤ size
    → size ≤ length out
    → scan size count out (digits bs ++ (0 ∷ post)) ≡ ok (splice count bs out, count + length bs)
unfolding scan digits
scan-digits [] post out size count all h room =
    rw (scan-nul post out size count, put_front-nil count out, add-zero)
scan-digits (b ∷ bs) post out size count all h room =
    let len : count + 1 + length bs ≡ count + length (b ∷ bs) = omega arith in
    let next = splice count (b ∷ []) out in
    let same : length next ≡ length out = length-splice count (b ∷ []) out (omega arith) in
    scan-hex_byte b (digits bs ++ (0 ∷ post)) out size count all.0 (omega arith)
    ∙ scan-digits bs post next size (count + 1) all.1 (omega arith) (omega arith)
    ∙ rw (splice-splice count (b ∷ []) bs out (omega arith), len)

pub bytes_to_string-digits :
    (bs post str : List ℕ)
    → 2 * length bs + 1 ≤ length str
    → bytes_to_string (some (bs ++ post)) (length bs) (some str)
      ≡ ok (put_front (digits bs ++ (0 ∷ [])) str)
unfolding bytes_to_string put_front
bytes_to_string-digits bs post [] room = absurd (omega arith)
bytes_to_string-digits bs post (x ∷ str) room =
    put_hex-put_front bs post [] (x ∷ str) tt (omega arith)

-- Bytes over zeros leave the zeros behind them.
put_front-zeros :
    (bs out : List ℕ) (size n : ℕ)
    → size ≡ length bs + n
    → put_front bs (put_front (replicate size 0) out) ≡ put_front (bs ++ replicate n 0) out
unfolding put_front
put_front-zeros [] out size n e = let same : size ≡ n = omega arith in rw same
put_front-zeros (b ∷ bs) out zero n e = absurd (omega arith)
put_front-zeros (b ∷ bs) [] (suc size) n e = refl
put_front-zeros (b ∷ bs) (x ∷ out) (suc size) n e =
    ap (◌∷◌ b) (put_front-zeros bs out size n (omega arith))

-- The bytes that `bytes_to_string` turns to digits, in a string that has room for two digits each
-- and a NUL, are what `string_to_bytes` reads from that string into a buffer of `size` bytes that
-- has room for them: it writes them and zeros up to `size`, and returns their number.
pub string_to_bytes-bytes_to_string :
    (bs post str out : List ℕ) (size : ℕ)
    → All IsByte bs
    → 2 * length bs + 1 ≤ length str
    → 0 < size
    → length bs ≤ size
    → size ≤ length out
    → bind
        (bytes_to_string (some (bs ++ post)) (length bs) (some str))
        (λ s. string_to_bytes (some s) (some out) size)
      ≡ ok (some (splice 0 (bs ++ replicate (size - length bs) 0) out), length bs)
unfolding string_to_bytes splice
string_to_bytes-bytes_to_string bs post str out size all room some_room le fits =
    let digits_fit : length (digits bs ++ (0 ∷ [])) ≤ length str =
      rw (length-append, length-digits) room in
    let (rest, e) = put_front-prefix (digits bs ++ (0 ∷ [])) str digits_fit in
    let set : (size == 0) ≡ false = ground arith in
    let zeros = splice 0 (replicate size 0) out in
    let same : length zeros ≡ length out =
      length-splice 0 (replicate size 0) out (rw length-replicate (omega arith)) in
    rw
      (bytes_to_string-digits bs post str room, set, le→leb size (length out) fits, e, append_assoc)
      (rw (scan-digits bs rest zeros size 0 all (omega arith) (omega arith))
        (rw (put_front-zeros bs out size (size - length bs) (omega arith), zero-add)))
