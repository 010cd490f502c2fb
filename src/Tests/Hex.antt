-- ===== src/Tests/Hex.antt =====
-- Hexadecimal strings.
use csae.Prelude.{ℕ, ◌-◌, ◌≡◌, refl, some, List, [], ◌∷◌, ◌++◌, arith, replicate, ok, fault, bind}
use csae.Memory.Write.{splice, put_front}
use csae.Util.Hex.{bytes_to_string, strcat, put_hex, string_to_bytes, scan}
use csae.Util.Hex.RoundTrip.{string_to_bytes-bytes_to_string}

abbrev three : List ℕ
three = 0x00 ∷ 0x9f ∷ 0xf2 ∷ []

string_to_bytes-bytes_to_string_example :
    bind
      (bytes_to_string (some (three ++ (7 ∷ []))) 3 (some (replicate 10 0xcd)))
      (λ s. string_to_bytes (some s) (some (replicate 6 0xcd)) 5)
    ≡ ok (some (splice 0 (three ++ replicate (5 - 3) 0) (replicate 6 0xcd)), 3)
string_to_bytes-bytes_to_string_example =
    string_to_bytes-bytes_to_string three (7 ∷ []) (replicate 10 0xcd) (replicate 6 0xcd) 5
      (omega arith, (omega arith, (omega arith, tt))) (omega arith) (omega arith) (omega arith)
      (omega arith)

-- " 9f g": white space, a byte, and a character that is no digit.
string_to_bytes_stops :
    string_to_bytes (some (32 ∷ 57 ∷ 102 ∷ 32 ∷ 103 ∷ 0 ∷ [])) (some (1 ∷ 2 ∷ [])) 2
    ≡ ok (some (0x9f ∷ 0 ∷ []), 1)
unfolding string_to_bytes scan splice put_front
string_to_bytes_stops = refl

-- A string of 6 digits does not fit 6 bytes.
bytes_to_string_overflow : bytes_to_string (some three) 3 (some (replicate 6 0)) ≡ fault
unfolding bytes_to_string put_hex strcat put_front
bytes_to_string_overflow = refl
