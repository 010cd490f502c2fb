-- ===== src/Util/Hex.antt =====
-- src/util/converter.c: bytes to a string of hexadecimal digits, and back.
pub mod RoundTrip
pub mod Overflow
use csae.Prelude.{
  ℕ, zero, suc, ◌+◌, ◌-◌, ◌*◌, ◌/◌, ◌%◌, Bool, ◌&&◌, ◌||◌, Option, none, some, List, [], ◌∷◌, ◌++◌,
  length, replicate, ◌==◌, ltb, leb, if◌then◌else◌, Run, ok, fault, bind,
}
use csae.Memory.Write.{put_front, splice}
use csae.Memory.Buffer.{Buffer}

-- The digits of "%X".
abbrev pub hex_digit : ℕ → ℕ
hex_digit n = if ltb n 10 then 48 + n else 55 + n

-- sprintf(s, "%02X", b).
abbrev pub hex_byte : ℕ → List ℕ
hex_byte b = hex_digit (b / 16) ∷ hex_digit (b % 16) ∷ []

-- strcat(dst, src): behind the NUL of `dst`, with a NUL of its own.
unfoldable pub strcat : List ℕ → List ℕ → Run (List ℕ)
unfolding put_front
strcat [] src = fault
strcat (zero ∷ dst) src =
    if leb (length src) (length dst) then ok (put_front (src ++ (0 ∷ [])) (0 ∷ dst)) else fault
strcat (suc c ∷ dst) src = bind (strcat dst src) (λ d. ok (suc c ∷ d))

-- The loop over `n` more bytes.
unfoldable pub put_hex : ℕ → List ℕ → List ℕ → Run (List ℕ)
unfolding strcat
put_hex zero bytes str = ok str
put_hex (suc n) [] str = fault
put_hex (suc n) (b ∷ bytes) str = bind (strcat str (hex_byte b)) (λ d. put_hex n bytes d)

-- A null pointer or a size of 0 is logged, and the function goes on.
unfoldable pub bytes_to_string : Buffer → ℕ → Buffer → Run (List ℕ)
unfolding put_hex
bytes_to_string bytes size none = fault
bytes_to_string bytes size (some []) = fault
bytes_to_string none zero (some (x ∷ str)) = ok (0 ∷ str)
bytes_to_string none (suc n) (some (x ∷ str)) = fault
bytes_to_string (some bytes) size (some (x ∷ str)) = put_hex size bytes (0 ∷ str)

-- `none` is the result -1.
abbrev pub hex_char_to_val : ℕ → Option ℕ
hex_char_to_val c =
    if leb 48 c && leb c 57
    then some (c - 48)
    else if leb 97 c && leb c 102
    then some (c - 97 + 10)
    else if leb 65 c && leb c 70
    then some (c - 65 + 10)
    else none

-- isspace(c) in the C locale.
abbrev pub is_space : ℕ → Bool
is_space c = c == 32 || leb 9 c && leb c 13

-- The loop, at a character of the string; `count` bytes of `out` are written. After white space the
-- code goes on to the next character with the same tests. (hi << 4) | lo is a sum, as lo < 16.
unfoldable pub scan : ℕ → ℕ → List ℕ → List ℕ → Run (List ℕ × ℕ)
unfolding splice
scan size count out [] = fault
scan size count out (c ∷ []) =
    if c == 0
    then ok (out, count)
    else if is_space c
    then fault
    else elim (hex_char_to_val c) [ none ↦ ok (out, count) | some hi ↦ fault ]
scan size count out (c ∷ d ∷ str) =
    let skipped = scan size count out (d ∷ str) in
    let rest : ℕ → Run (List ℕ × ℕ) =
      λ byte. scan size (count + 1) (splice count (byte ∷ []) out) str in
    if c == 0 then ok (out, count) else if is_space c then skipped else elim (hex_char_to_val c) [
      | none ↦ ok (out, count)
      | some hi ↦ if d == 0 then ok (out, count) else elim (hex_char_to_val d) [
        | none ↦ ok (out, count)
        | some lo ↦ if ltb count size then rest ((hi * 16 + lo) % 256) else ok (out, count)
      ]
    ]

unfoldable pub string_to_bytes : Buffer → Buffer → ℕ → Run (Buffer × ℕ)
unfolding scan splice
string_to_bytes none bytes size = ok (bytes, 0)
string_to_bytes (some str) none size = ok (none, 0)
string_to_bytes (some str) (some bytes) size =
    if size == 0
    then ok (some bytes, 0)
    else if leb size (length bytes)
    then bind (scan size 0 (splice 0 (replicate size 0) bytes) str) (λ p. ok (some p.0, p.1))
    else fault
