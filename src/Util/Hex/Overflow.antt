-- ===== src/Util/Hex/Overflow.antt =====
-- `bytes_to_string` into a string that is too short for its digits.
use csae.Prelude.{
  ℕ, zero, suc, ◌+◌, ◌*◌, ◌/◌, ◌%◌, ◌≤◌, ◌<◌, ◌≡◌, some, List, [], ◌∷◌, ◌++◌, append_assoc, arith,
  length, length-append, All-append, lt→leb, fault,
}
use native.Mathlib.Decide.{dec_le}
use csae.Memory.Write.{put_front}
use csae.Util.Hex.{hex_byte, strcat, put_hex, bytes_to_string}
use csae.Util.Hex.RoundTrip.{NoNul, strcat-put_front, hex_digit-positive}

strcat-overflow :
    (h s str : List ℕ)
    → NoNul h
    → length h + 1 ≤ length str
    → length str < length h + length s + 1
    → strcat (put_front (h ++ (0 ∷ [])) str) s ≡ fault
unfolding strcat put_front
strcat-overflow [] s [] n p h = absurd (omega arith)
strcat-overflow [] s (x ∷ str) n p h = rw (lt→leb (length s) (length str) (omega arith))
strcat-overflow (a ∷ rest) s [] n p h = absurd (omega arith)
strcat-overflow (zero ∷ rest) s (x ∷ str) n p h = absurd (omega (arith, n.0))
strcat-overflow (suc a ∷ rest) s (x ∷ str) n p h =
    rw (strcat-overflow rest s str n.1 (omega arith) (omega arith))

put_hex-overflow :
    (bs post h str : List ℕ)
    → NoNul h
    → length h + 1 ≤ length str
    → length str < length h + 2 * length bs + 1
    → put_hex (length bs) (bs ++ post) (put_front (h ++ (0 ∷ [])) str) ≡ fault
unfolding put_hex
put_hex-overflow [] post h str n room short = absurd (omega arith)
put_hex-overflow (b ∷ bs) post h str n room short = elim (dec_le (length h + 3) (length str)) [
  | yes fits ↦ rw (strcat-put_front h (hex_byte b) str n (omega arith) (omega arith)) (
      rw (append_assoc h (hex_byte b) (0 ∷ [])) at (
        put_hex-overflow bs post (h ++ hex_byte b) str
          (All-append _ h (hex_byte b) n
            (hex_digit-positive (b / 16), (hex_digit-positive (b % 16), tt)))
          (rw length-append (omega arith)) (rw length-append (omega arith))))
  | no over ↦ rw (strcat-overflow h (hex_byte b) str n room (omega arith))
]

-- More digits and a NUL than the string has room for are written past its end.
pub bytes_to_string-overflow :
    (bs post str : List ℕ)
    → 0 < length str
    → length str < 2 * length bs + 1
    → bytes_to_string (some (bs ++ post)) (length bs) (some str) ≡ fault
unfolding bytes_to_string put_front
bytes_to_string-overflow bs post [] p short = absurd (omega arith)
bytes_to_string-overflow bs post (x ∷ str) p short =
    put_hex-overflow bs post [] (x ∷ str) tt (omega arith) (omega arith)
