-- ===== src/Util/Bcd/Pack.antt =====
-- What `string_to_bcd` makes of a string of digits.
use csae.Prelude.{
  ℕ, zero, suc, ◌+◌, ◌-◌, ◌*◌, ◌/◌, ◌%◌, ◌^◌, ◌≤◌, ◌<◌, ◌≡◌, refl, ap, true, false, some, List, [],
  ◌∷◌, ◌++◌, append_assoc, map, arith, length, length-append, replicate, length-replicate,
  replicate-append, drop, take-append, All-append, sym, All, Bool-cases, inl, inr, le→leb, lt→leb,
  leb, ◌==◌, ok, Bool, ◌&&◌, if◌then◌else◌,
}
use native.Mathlib.Decide.{dec_lt}
use Prim.Native.Nat.{bit_or}
use native.Mathlib.Nat.{zero-add, add-zero, mul-one}
use csae.Util.Bcd.{
  nibble_index, nibble_shift, as_int, or_byte, put_digits, string_to_bcd, atoi, strlen,
}
use csae.Memory.Write.{splice, put_front}
use csae.Memory.Write.Laws.{put_front-drop}
use mathlib.Core.Option
use native.Mathlib.Decide.{dec_le}

-- Two digits in a byte, the first in the high half.
abbrev pub pack : List ℕ → List ℕ
pack [] = []
pack (hi ∷ []) = (hi * 16) ∷ []
pack (hi ∷ lo ∷ ds) = (hi * 16 + lo) ∷ pack ds

abbrev pub IsDigit : ℕ → Type 0
IsDigit d = d < 10

-- The two halves of a byte do not overlap: all values, checked.
abbrev Disjoint : ℕ → ℕ → Type 0
Disjoint hi lo = (bit_or (hi * 16) lo ≡ hi * 16 + lo) × (bit_or lo (hi * 16) ≡ hi * 16 + lo)

abbrev is_disjoint : ℕ → ℕ → Bool
is_disjoint hi lo = (bit_or (hi * 16) lo == hi * 16 + lo) && (bit_or lo (hi * 16) == hi * 16 + lo)

check_low : ℕ → ℕ → Bool
check_low hi zero = true
check_low hi (suc lo) = is_disjoint hi lo && check_low hi lo

check_both : ℕ → Bool
check_both zero = true
check_both (suc hi) = check_low hi 10 && check_both hi

check_low_sound : (hi n lo : ℕ) → check_low hi n ≡ true → lo < n → Disjoint hi lo
unfolding check_low
check_low_sound hi zero lo h lt = absurd (omega arith)
check_low_sound hi (suc n) lo h lt = elim (dec_lt lo n) [
  | yes below ↦ check_low_sound hi n lo (ground arith) below
  | no last ↦ let e : lo ≡ n = omega arith in rw e (ground arith)
]

check_both_sound : (n hi lo : ℕ) → check_both n ≡ true → hi < n → lo < 10 → Disjoint hi lo
unfolding check_both
check_both_sound zero hi lo h lt k = absurd (omega arith)
check_both_sound (suc n) hi lo h lt k = elim (dec_lt hi n) [
  | yes below ↦ check_both_sound n hi lo (ground arith) below k
  | no last ↦ let e : hi ≡ n = omega arith in rw e (check_low_sound n 10 lo (ground arith) k)
]

halves-Disjoint : (hi lo : ℕ) → hi < 10 → lo < 10 → Disjoint hi lo
unfolding check_both check_low
halves-Disjoint hi lo h k = check_both_sound 10 hi lo refl h k

-- How far a digit is shifted: by four in the high half.
abbrev pub weight : ℕ → ℕ
weight position = if position % 2 == 0 then 16 else 1

-- A digit that is put in the place of a 0.
or_byte-pack :
    (xs ys rest : List ℕ) (d : ℕ)
    → All IsDigit (xs ++ ys)
    → IsDigit d
    → or_byte (length xs / 2) (d * weight (length xs)) (pack (xs ++ (0 ∷ ys)) ++ rest)
      ≡ ok (pack (xs ++ (d ∷ ys)) ++ rest)
unfolding or_byte
or_byte-pack [] [] rest d h k =
    let e : bit_or 0 (d * 16) % 256 ≡ d * 16 =
      rw ((halves-Disjoint d 0 k (omega arith)).1) (omega arith) in
    ap (λ b. ok (b ∷ rest)) e
or_byte-pack [] (y ∷ ys) rest d h k =
    let e : bit_or (0 + y) (d * 16) % 256 ≡ d * 16 + y =
      rw (zero-add, (halves-Disjoint d y k h.0).1) (omega (arith, h.0)) in
    ap (λ b. ok (b ∷ (pack ys ++ rest))) e
or_byte-pack (x ∷ []) ys rest d h k =
    let e : bit_or (x * 16 + 0) (d * 1) % 256 ≡ x * 16 + d =
      rw (add-zero, mul-one, (halves-Disjoint x d h.0 k).0) (omega (arith, h.0)) in
    ap (λ b. ok (b ∷ (pack ys ++ rest))) e
or_byte-pack (x ∷ y ∷ xs) ys rest d h k =
    let half : suc (suc (length xs)) / 2 ≡ suc (length xs / 2) = omega arith in
    let parity : suc (suc (length xs)) % 2 ≡ length xs % 2 = omega arith in
    rw (half, parity) (rw (or_byte-pack xs ys rest d h.1.1 k))

-- The byte of a digit.
abbrev pub IsChar : ℕ → Type 0
IsChar c = (48 ≤ c) × (c < 58)

abbrev pub digit : ℕ → ℕ
digit c = c - 48

-- Behind a digit atoi stops at once.
abbrev pub Stops : List ℕ → Type 0
Stops [] = ⊥
Stops (c ∷ s) = (leb 48 c && leb c 57) ≡ false

atoi-digit : (c : ℕ) (s : List ℕ) → IsChar c → Stops s → atoi (c ∷ s) ≡ ok (digit c)
unfolding atoi
atoi-digit c [] h k = absurd k
atoi-digit c (x ∷ s) h k = ground arith

-- The places in the high halves are those that are shifted.
nibble_shift-weight :
    (p size len i : ℕ) → p + len ≡ 2 * size + i → 2 ^ nibble_shift len i ≡ weight p
nibble_shift-weight p size len i e = elim (Bool-cases (p % 2 == 0)) [
  | inl even ↦ let four : nibble_shift len i ≡ 4 = ground arith in rw (even, four)
  | inr odd ↦ let none : nibble_shift len i ≡ 0 = ground arith in rw (odd, none)
]

zeros-All : (n : ℕ) → All IsDigit (replicate n 0)
zeros-All zero = tt
zeros-All (suc n) = (omega arith, zeros-All n)

-- The loop over the characters `str`, behind those that gave the digits `xs`.
put_digits-pack :
    (behind : ℕ → List ℕ) (size len i : ℕ) (xs str rest : List ℕ)
    → ((n : ℕ) → Stops (behind n))
    → All IsDigit xs
    → All IsChar str
    → size < 2 ^ 31
    → len ≤ 2 * size
    → length xs + length str ≡ 2 * size
    → i + length str ≡ len
    → put_digits behind size len i str (pack (xs ++ replicate (length str) 0) ++ rest)
      ≡ ok (pack (xs ++ map digit str) ++ rest)
unfolding put_digits
put_digits-pack behind size len i xs [] rest stops hx hs lt room e at = refl
put_digits-pack behind size len i xs (c ∷ str) rest stops hx hs lt room e place =
    let index : nibble_index size len i ≡ length xs = omega arith in
    let shift = nibble_shift-weight (length xs) size len i (omega arith) in
    let inside : leb size (as_int (length xs / 2)) ≡ false = ground arith in
    let small : leb (2 ^ 31) (digit c * weight (length xs)) ≡ false = ground (arith, hs.0) in
    rw
      (
        atoi-digit c (behind i) hs.0 (stops i),
        index,
        shift,
        inside,
        small,
        or_byte-pack xs (replicate (length str) 0) rest (digit c)
            (All-append IsDigit xs _ hx (zeros-All (length str))) (omega (arith, hs.0)),
      )
      (rw
        (
          append_assoc xs (digit c ∷ []) (replicate (length str) 0),
          append_assoc xs (digit c ∷ []) (map digit str),
        )
        at
        (put_digits-pack behind size len (i + 1) (xs ++ (digit c ∷ [])) str rest stops
          (All-append IsDigit xs (digit c ∷ []) hx (omega (arith, hs.0), tt)) hs.1 lt room
          (rw length-append (omega arith)) (omega arith)))

pack-zeros : (n : ℕ) → pack (replicate (n + n) 0) ≡ replicate n 0
pack-zeros zero = refl
pack-zeros (suc n) =
    let two : suc n + suc n ≡ suc (suc (n + n)) = omega arith in rw two (ap (◌∷◌ 0) (pack-zeros n))

-- What the buffer holds at first, as digits.
zeros-pack :
    (size len : ℕ)
    → len ≤ 2 * size
    → replicate size 0 ≡ pack (replicate (2 * size - len) 0 ++ replicate len 0)
zeros-pack size len h =
    let all : 2 * size - len + len ≡ size + size = omega arith in
    rw (replicate-append {A = ℕ} (2 * size - len) len 0, all) (sym (pack-zeros size))

strlen_lem : (str post : List ℕ) → All IsChar str → strlen (str ++ (0 ∷ post)) ≡ some (length str)
strlen_lem [] post h = refl
strlen_lem (zero ∷ str) post h = absurd (omega (arith, h.0))
strlen_lem (suc c ∷ str) post h = ap (Option.map suc) (strlen_lem str post h.1)

-- The first character of a string that is too long ends the loop.
put_digits-too_long :
    (behind : ℕ → List ℕ) (size len : ℕ) (str bcd : List ℕ)
    → ((n : ℕ) → Stops (behind n))
    → All IsChar str
    → size < 2 ^ 31
    → 2 * size < len
    → len < 2 ^ 32
    → put_digits behind size len 0 str bcd ≡ ok bcd
unfolding put_digits
put_digits-too_long behind size len [] bcd stops hs lt long few = refl
put_digits-too_long behind size len (c ∷ str) bcd stops hs lt long few =
    let outside : leb size (as_int (nibble_index size len 0 / 2)) ≡ true = ground arith in
    rw (atoi-digit c (behind 0) hs.0 (stops 0), outside)

-- For a string of less than 2^32 decimal digits, a buffer with room for `size` bytes and below 2^31,
-- and memory that no digit follows each character in, `string_to_bcd` returns, and leaves the
-- digits in the `size` bytes, two in each, behind zeros that fill them, or zeros only if they do
-- not fit; the rest of the buffer stays.
pub string_to_bcd-pack :
    (behind : ℕ → List ℕ) (str post bcd : List ℕ) (size : ℕ)
    → ((n : ℕ) → Stops (behind n))
    → All IsChar str
    → length str < 2 ^ 32
    → size < 2 ^ 31
    → size ≤ length bcd
    → string_to_bcd behind (some (str ++ (0 ∷ post))) (some bcd) size
      ≡ ok (
          (if leb (length str) (2 * size)
            then pack (replicate (2 * size - length str) 0 ++ map digit str)
            else replicate size 0)
          ++ drop size bcd)
unfolding string_to_bcd splice
string_to_bcd-pack behind str post bcd size stops hs few lt room =
    let cleared : put_front (replicate size 0) bcd ≡ replicate size 0 ++ drop size bcd =
      rw length-replicate at (put_front-drop (replicate size 0) bcd (rw length-replicate room)) in
    rw (strlen_lem str post hs, string_to_bcd, le→leb size (length bcd) room, take-append, cleared)
      (elim (dec_le (length str) (2 * size)) [
        | yes fits ↦
            rw (le→leb (length str) (2 * size) fits, zeros-pack size (length str) fits)
              (put_digits-pack behind size (length str) 0 (replicate (2 * size - length str) 0) str
                (drop size bcd) stops (zeros-All (2 * size - length str)) hs lt fits
                (rw length-replicate (omega arith)) (omega arith))
        | no long ↦ rw (lt→leb (length str) (2 * size) (omega arith)) (
            put_digits-too_long behind size (length str) str (replicate size 0 ++ drop size bcd)
              stops hs lt (omega arith) few)
      ])
