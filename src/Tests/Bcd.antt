-- ===== src/Tests/Bcd.antt =====
-- Binary coded decimals at concrete inputs.
use csae.Prelude.{
  ℕ, ◌+◌, ◌*◌, ◌-◌, ◌≡◌, refl, some, [], ◌∷◌, ◌++◌, map, arith, ok, replicate, drop, leb,
  if◌then◌else◌,
}
use csae.Message.Print.{utf8}
use csae.Util.Calendar.{days_of_years, days_of_months, epoch_days}
use csae.Util.Bcd.{bcd_time_to_utc_milliseconds, string_to_bcd, atoi, or_byte}
use csae.Util.Bcd.Time.{to_bcd, bcd_time-epoch_days}
use csae.Util.Bcd.Pack.{pack, digit, string_to_bcd-pack}

-- The leap day of 2024, half past ten.
bcd_time-epoch_days_example :
    (t : ℕ) × (bcd_time_to_utc_milliseconds
        (some (map to_bcd (24 ∷ 2 ∷ 29 ∷ 10 ∷ 30 ∷ 5 ∷ []) ++ []))
        6
      ≡ ok t)
    × (t + 8 * 3600000 ≡ (((epoch_days 2024 2 29 * 24 + 10) * 60 + 30) * 60 + 5) * 1000)
unfolding epoch_days days_of_years days_of_months
bcd_time-epoch_days_example =
    bcd_time-epoch_days 24 2 29 10 30 5 [] 6 (omega arith)
      (record {
        from_january = omega arith;
        to_december = omega arith;
        from_first = omega arith;
        to_last = omega arith;
      })
      (omega arith) (omega arith) (omega arith) (omega arith)

bcd_time_value :
    bcd_time_to_utc_milliseconds (some (0x24 ∷ 0x02 ∷ 0x29 ∷ 0x10 ∷ 0x30 ∷ 0x05 ∷ [])) 6
    ≡ ok 1709173805000
unfolding bcd_time_to_utc_milliseconds
bcd_time_value = refl

-- "12345" into three bytes of four, with a NUL behind each character.
string_to_bcd-pack_example :
    string_to_bcd (λ i. 0 ∷ []) (some (utf8 "12345" ++ (0 ∷ []))) (some (9 ∷ 9 ∷ 9 ∷ 9 ∷ [])) 3
    ≡ ok (
        (if leb 5 (2 * 3)
          then pack (replicate (2 * 3 - 5) 0 ++ map digit (utf8 "12345"))
          else replicate 3 0)
        ++ drop 3 (9 ∷ 9 ∷ 9 ∷ 9 ∷ []))
string_to_bcd-pack_example =
    string_to_bcd-pack (λ i. 0 ∷ []) (utf8 "12345") [] (9 ∷ 9 ∷ 9 ∷ 9 ∷ []) 3 (λ n. refl)
      (
        (omega arith, omega arith),
        (
          (omega arith, omega arith),
          (
            (omega arith, omega arith),
            ((omega arith, omega arith), ((omega arith, omega arith), tt)),
          ),
        ),
      )
      (omega arith) (omega arith) (omega arith)

string_to_bcd_value :
    string_to_bcd (λ i. 0 ∷ []) (some (utf8 "12345" ++ (0 ∷ []))) (some (9 ∷ 9 ∷ 9 ∷ 9 ∷ [])) 3
    ≡ ok (0x01 ∷ 0x23 ∷ 0x45 ∷ 9 ∷ [])
unfolding string_to_bcd atoi or_byte
string_to_bcd_value = refl

-- A digit behind the character that is read becomes a part of the number: two digits, shifted by
-- four bits, spill over the half byte.
string_to_bcd_behind :
    string_to_bcd (λ i. 50 ∷ 0 ∷ []) (some (49 ∷ 49 ∷ 0 ∷ [])) (some (0 ∷ [])) 1 ≡ ok (0xcc ∷ [])
unfolding string_to_bcd atoi or_byte
string_to_bcd_behind = refl
