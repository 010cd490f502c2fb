-- ===== src/Message/Print/Digits.antt =====
-- What the digits of a number say: their value, and how many there are.
use csae.Prelude.{
  ℕ, zero, suc, ◌+◌, ◌-◌, ◌*◌, ◌/◌, ◌%◌, ◌^◌, ◌≤◌, ◌<◌, ◌≡◌, refl, ap, ◌∙◌, none, some, List, [],
  ◌∷◌, ◌++◌, reverse, map, arith, length, length-append, length-replicate, replicate, ltb, inl, inr,
  Bool-cases, ltb→lt, lt→ltb, true, false, All,
}
use mathlib.Core.List.{reverse-append, reverse-reverse}
use csae.Memory.Word.{IsByte, bound, of_le, word_bytes, le_bytes, le_bytes-bswap, of_le-le_bytes}
use csae.Util.Hex.{hex_digit, hex_byte, hex_char_to_val}
use csae.Util.Hex.RoundTrip.{digits}
use csae.Message.Print.{numeral, decimal, hex}

-- The value of a digit, 0 for another character.
abbrev digit_value : ℕ → ℕ
digit_value c = elim (hex_char_to_val c) [ none ↦ 0 | some v ↦ v ]

-- The number that digits spell behind digits that spell `acc`.
unfoldable pub value : ℕ → ℕ → List ℕ → ℕ
value base acc [] = acc
value base acc (c ∷ s) = value base (acc * base + digit_value c) s

-- The number whose bytes these are, highest first.
unfoldable pub of_be : List ℕ → ℕ
unfolding of_le
of_be bs = of_le (reverse bs)

digit_value-hex_digit : (n : ℕ) → n < 16 → digit_value (hex_digit n) ≡ n
digit_value-hex_digit n h = ground arith

value-append :
    (base acc : ℕ) (s t : List ℕ) → value base acc (s ++ t) ≡ value base (value base acc s) t
unfolding value
value-append base acc [] t = refl
value-append base acc (c ∷ s) t = value-append base (acc * base + digit_value c) s t

value-zeros : (base k : ℕ) (s : List ℕ) → value base 0 (replicate k 48 ++ s) ≡ value base 0 s
unfolding value
value-zeros base zero s = refl
value-zeros base (suc k) s =
    let none_yet : 0 * base + 0 ≡ 0 = omega arith in
    ap (λ acc. value base acc (replicate k 48 ++ s)) none_yet ∙ value-zeros base k s

-- The last digit of a number behind the others.
value-last :
    (base n : ℕ) (s : List ℕ)
    → n % base < 16
    → value base 0 s ≡ n / base
    → n / base * base + n % base ≡ n
    → value base 0 (s ++ (hex_digit (n % base) ∷ [])) ≡ n
unfolding value
value-last base n s lt e parts =
    rw (value-append base 0 s (hex_digit (n % base) ∷ []), e, digit_value-hex_digit (n % base) lt)
      parts

-- What `fuel` digits can spell.
limit : ℕ → ℕ → ℕ
limit base zero = 1
limit base (suc fuel) = base * limit base fuel

numeral_10 : (fuel n : ℕ) → n < limit 10 (suc fuel) → value 10 0 (numeral 10 (suc fuel) n) ≡ n
unfolding numeral limit value
numeral_10 zero n h =
    let small : ltb n 10 ≡ true = lt→ltb n 10 (omega arith) in
    rw small (value-last 10 n [] (omega arith) (omega arith) (omega arith))
numeral_10 (suc fuel) n h =
    let high : n / 10 < limit 10 (suc fuel) = omega arith in
    let rest = numeral_10 fuel (n / 10) high in
    elim (Bool-cases (ltb n 10)) [
      | inl small ↦
          rw small
            (value-last 10 n [] (omega arith) (omega (arith, ltb→lt n 10 small)) (omega arith))
      | inr big ↦
          rw big (value-last 10 n (numeral 10 (suc fuel) (n / 10)) (omega arith) rest (omega arith))
    ]

numeral_16 : (fuel n : ℕ) → n < limit 16 (suc fuel) → value 16 0 (numeral 16 (suc fuel) n) ≡ n
unfolding numeral limit value
numeral_16 zero n h =
    let small : ltb n 16 ≡ true = lt→ltb n 16 (omega arith) in
    rw small (value-last 16 n [] (omega arith) (omega arith) (omega arith))
numeral_16 (suc fuel) n h =
    let high : n / 16 < limit 16 (suc fuel) = omega arith in
    let rest = numeral_16 fuel (n / 16) high in
    elim (Bool-cases (ltb n 16)) [
      | inl small ↦
          rw small
            (value-last 16 n [] (omega arith) (omega (arith, ltb→lt n 16 small)) (omega arith))
      | inr big ↦
          rw big (value-last 16 n (numeral 16 (suc fuel) (n / 16)) (omega arith) rest (omega arith))
    ]

-- A numeral has at most as many digits as its fuel.
pub length-numeral : (base fuel n : ℕ) → length (numeral base fuel n) ≤ fuel
unfolding numeral
length-numeral base zero n = omega arith
length-numeral base (suc fuel) n = elim (Bool-cases (ltb n base)) [
  | inl small ↦ rw small (omega arith)
  | inr big ↦ rw (big, length-append) (omega (arith, length-numeral base fuel (n / base)))
]

pub value-decimal : (n : ℕ) → n < 2 ^ 64 → value 10 0 (decimal n) ≡ n
unfolding decimal limit
value-decimal n h = numeral_10 19 n (omega arith)

pub value-hex : (w n : ℕ) → n < 2 ^ 64 → value 16 0 (hex w n) ≡ n
unfolding hex limit
value-hex w n h =
    value-zeros 16 (w - length (numeral 16 16 n)) (numeral 16 16 n) ∙ numeral_16 15 n (omega arith)

pub length-decimal : (n : ℕ) → length (decimal n) ≤ 20
unfolding decimal
length-decimal n = length-numeral 10 20 n

pub length-hex : (w n : ℕ) → w ≤ 16 → length (hex w n) ≤ 16
unfolding hex
length-hex w n h = rw (length-append, length-replicate) (omega (arith, length-numeral 16 16 n))

-- The big-endian bytes of a number.
pub of_be-word_bytes : (w v : ℕ) → v < bound w → of_be (word_bytes true w v) ≡ v
unfolding of_be word_bytes
of_be-word_bytes w v h = rw (le_bytes-bswap w v, reverse-reverse) (of_le-le_bytes w v h)

pub of_be-byte : (v : ℕ) → v < 256 → of_be (word_bytes false 1 v) ≡ v
unfolding of_be word_bytes le_bytes of_le
of_be-byte v h = omega arith

-- The two digits of a byte in the other order.
abbrev pub swap_nibbles : ℕ → ℕ
swap_nibbles b = b % 16 * 16 + b / 16

reversed_value :
    (bs : List ℕ) → All IsByte bs → value 16 0 (reverse (digits bs)) ≡ of_le (map swap_nibbles bs)
unfolding digits value of_le
reversed_value [] h = refl
reversed_value (b ∷ bs) h =
    let low = digit_value-hex_digit (b % 16) (omega arith) in
    let high = digit_value-hex_digit (b / 16) (omega (arith, h.0)) in
    rw
      (
        reverse-append (hex_byte b) (digits bs),
        value-append 16 0 (reverse (digits bs)) (reverse (hex_byte b)),
        reversed_value bs h.1,
        low,
        high,
      )
      (omega arith)

-- Digits backwards spell the bytes backwards, with the two digits of each exchanged.
pub value-reverse :
    (bs : List ℕ)
    → All IsByte bs
    → value 16 0 (reverse (digits bs)) ≡ of_be (reverse (map swap_nibbles bs))
unfolding of_be
value-reverse bs h = rw reverse-reverse (reversed_value bs h)
