-- ===== src/Util/PrintBuffer/Fits.antt =====
-- The array of `print_buffer` is long enough.
use csae.Prelude.{
  ℕ, zero, suc, ◌+◌, ◌*◌, ◌%◌, ◌/◌, ◌^◌, ◌≤◌, ◌<◌, ◌≡◌, refl, true, inl, inr, some, List, [], ◌∷◌,
  ◌++◌, All-append, append_assoc, length-append, arith, length, ltb, lt→ltb, Bool-cases, ok,
}
use csae.Memory.Write.{put_front}
use csae.Util.Hex.RoundTrip.{NoNul, strcat-put_front, hex_digit-positive}
use csae.Message.Print.{utf8, numeral, decimal, read_string}
use csae.Message.Print.Digits.{length-numeral, length-decimal}
use csae.Util.PrintBuffer.{spaced_byte, put_spaced, opening, log_line, print_buffer}

-- Two digits and a space for each byte.
unfoldable pub spaced : List ℕ → List ℕ
spaced [] = []
spaced (b ∷ bs) = spaced_byte b ++ spaced bs

length-spaced : (bs : List ℕ) → length (spaced bs) ≡ 3 * length bs
unfolding spaced
length-spaced [] = refl
length-spaced (b ∷ bs) = omega (arith, length-spaced bs)

spaced_byte-NoNul : (b : ℕ) → NoNul (spaced_byte b)
spaced_byte-NoNul b =
    (hex_digit-positive (b / 16), (hex_digit-positive (b % 16), (omega arith, tt)))

spaced-NoNul : (bs : List ℕ) → NoNul (spaced bs)
unfolding spaced
spaced-NoNul [] = tt
spaced-NoNul (b ∷ bs) =
    All-append _ (spaced_byte b) (spaced bs) (spaced_byte-NoNul b) (spaced-NoNul bs)

-- The loop behind `h`, which has no NUL.
put_spaced-put_front :
    (bs post h str : List ℕ)
    → NoNul h
    → length h + 3 * length bs + 1 ≤ length str
    → put_spaced (length bs) (bs ++ post) (put_front (h ++ (0 ∷ [])) str)
      ≡ ok (put_front ((h ++ spaced bs) ++ (0 ∷ [])) str)
unfolding put_spaced spaced
put_spaced-put_front [] post h str n room = rw append_assoc refl
put_spaced-put_front (b ∷ bs) post h str n room =
    rw (strcat-put_front h (spaced_byte b) str n (omega arith) (omega arith)) (
      rw (append_assoc h (spaced_byte b) (0 ∷ []), append_assoc h (spaced_byte b) (spaced bs)) at
        (put_spaced-put_front bs post (h ++ spaced_byte b) str
          (All-append _ h (spaced_byte b) n (spaced_byte-NoNul b))
          (rw length-append (omega arith))))

numeral-NoNul : (base fuel n : ℕ) → NoNul (numeral base fuel n)
unfolding numeral
numeral-NoNul base zero n = tt
numeral-NoNul base (suc fuel) n = elim (Bool-cases (ltb n base)) [
  | inl small ↦ rw small (hex_digit-positive (n % base), tt)
  | inr big ↦ rw big (
      All-append _ (numeral base fuel (n / base)) _ (numeral-NoNul base fuel (n / base))
        (hex_digit-positive (n % base), tt))
]

opening-NoNul : (prefix : List ℕ) (id size : ℕ) → NoNul prefix → NoNul (opening prefix id size)
unfolding opening decimal
opening-NoNul prefix id size h =
    let close = All-append _ (decimal size) (utf8 "): ") (numeral-NoNul 10 20 size) (omega arith) in
    let comma = All-append _ (utf8 ",") (decimal size ++ utf8 "): ") (omega arith) close in
    let number = All-append _ (numeral 16 16 id) _ (numeral-NoNul 16 16 id) comma in
    All-append _ prefix _ h (All-append _ (utf8 "(0x") _ (omega arith) number)

length-opening :
    (prefix : List ℕ) (id size : ℕ) → length (opening prefix id size) ≤ length prefix + 43
unfolding opening decimal
length-opening prefix id size =
    let close = decimal size ++ utf8 "): " in
    let comma = utf8 "," ++ close in
    let number = numeral 16 16 id ++ comma in
    omega (
      arith,
      length-append prefix (utf8 "(0x" ++ number),
      length-append (utf8 "(0x") number,
      length-append (numeral 16 16 id) comma,
      length-append (decimal size) (utf8 "): "),
      length-numeral 16 16 id,
      length-decimal size,
    )

read_string-put_front :
    (h str : List ℕ)
    → NoNul h
    → length h < length str
    → read_string (put_front (h ++ (0 ∷ [])) str) ≡ ok h
unfolding read_string put_front
read_string-put_front h [] n room = absurd (omega arith)
read_string-put_front [] (x ∷ str) n room = refl
read_string-put_front (zero ∷ h) (x ∷ str) n room = absurd (omega (arith, n.0))
read_string-put_front (suc c ∷ h) (x ∷ str) n room =
    rw (read_string-put_front h str n.1 (omega arith))

-- With _UDEBUG, `print_buffer` stays within its array, whatever the id is, for a prefix of less than
-- 2^32 characters and a size below 2^32 that the buffer has, and logs the prefix, the id, the size, and
-- two digits and a space for each of the bytes.
pub print_buffer-fits :
    (stack : ℕ → List ℕ)
    → ((n : ℕ) → length (stack n) ≡ n)
    → (prefix : List ℕ) (id : ℕ) (bs post : List ℕ) → NoNul prefix
    → length prefix < 2 ^ 32
    → length bs < 2 ^ 32
    → print_buffer true stack prefix id (some (bs ++ post)) (length bs)
      ≡ ok (some ((opening prefix id (length bs) ++ spaced bs) ++ (10 ∷ [])))
unfolding print_buffer log_line
print_buffer-fits stack room prefix id bs post h p few =
    let size = length bs in
    let str = stack ((4 * size + length prefix + 100) % 2 ^ 64) in
    let long : length str ≡ 4 * size + length prefix + 100 =
      omega (arith, room ((4 * size + length prefix + 100) % 2 ^ 64)) in
    let o = opening prefix id size in
    let bound = length-opening prefix id size in
    let quiet = opening-NoNul prefix id size h in
    let shown = All-append _ o (spaced bs) quiet (spaced-NoNul bs) in
    let count : length (o ++ spaced bs) ≡ length o + 3 * size = rw (length-append, length-spaced) in
    let text = (o ++ spaced bs) ++ (10 ∷ []) in
    let long_text : length text ≡ length o + 3 * size + 1 =
      omega (arith, length-append (o ++ spaced bs) (10 ∷ []), count) in
    let all = All-append _ (o ++ spaced bs) (10 ∷ []) shown (omega arith, tt) in
    let read =
      rw (append_assoc (o ++ spaced bs) (10 ∷ []) (0 ∷ [])) at
        (read_string-put_front text str all (omega (arith, long, bound, long_text))) in
    rw (
      lt→ltb (length o) (length str) (omega (arith, long, bound)),
      put_spaced-put_front bs post o str quiet (omega (arith, long, bound)),
      strcat-put_front (o ++ spaced bs) (10 ∷ []) str shown (omega arith)
          (omega (arith, long, bound, count)),
      read,
    )
