-- ===== src/Util/Bcd/Time.antt =====
-- The time of `bcd_time_to_utc_milliseconds` against the calendar.
use native.Mathlib.Decide.{dec_le}
use native.Mathlib.Nat.{add_comm}
use csae.Prelude.{
  ℕ, ◌+◌, ◌-◌, ◌*◌, ◌/◌, ◌%◌, ◌≤◌, ◌<◌, ◌≡◌, some, map, List, [], ◌∷◌, ◌++◌, arith, le→ltb, lt→ltb,
  le→leb, lt→leb, leb, Bool, true, false, ok, ltb,
}
use csae.Util.Calendar.{
  is_leap, days_of_years, epoch_days, IsDate, days_of_years_lem, days_of_months_lem, months_before,
}
use csae.Util.Bcd.{of_bcd, days_since_1970, utc_milliseconds, bcd_time_to_utc_milliseconds}

-- The day count in January and February, which belong to the year before.
january :
    (leap : Bool) (year month day : ℕ)
    → 1970 ≤ year
    → year < 2200
    → 1 ≤ month
    → month ≤ 2
    → 1 ≤ day
    → day ≤ 366
    → days_since_1970 year month day
      ≡ days_of_years (year - 1970) + months_before leap month + (day - 1)
unfolding days_since_1970
january leap year month day from to p q d d' =
    let early : leb month 2 ≡ true = le→leb month 2 q in
    let not_late : ltb 2 month ≡ false = le→ltb 2 month q in
    rw (early, not_late) (omega (arith, days_of_years_lem (year - 1970)))

-- From March on.
march :
    (year month day : ℕ)
    → 1970 ≤ year
    → year < 2200
    → 3 ≤ month
    → month ≤ 12
    → 1 ≤ day
    → day ≤ 366
    → days_since_1970 year month day
      ≡ days_of_years (year - 1970) + months_before (is_leap year) month + (day - 1)
unfolding days_since_1970
march year month day from to p q d d' =
    let not_early : leb month 2 ≡ false = lt→leb month 2 (omega arith) in
    let late : ltb 2 month ≡ true = lt→ltb 2 month (omega arith) in
    rw (not_early, late) (ground (arith, days_of_years_lem (year - 1970)))

day_bound : {year month day : ℕ} → IsDate year month day → day ≤ 31
day_bound {year} {month} {day} v =
    let here = days_of_months_lem (is_leap year) month v.from_january (omega arith) in
    let next = days_of_months_lem (is_leap year) (month + 1) (omega arith) (omega arith) in
    ground (arith, here, next)

-- The day count is that of the calendar.
days_since_1970-epoch_days :
    (year month day : ℕ)
    → 1970 ≤ year
    → year < 2200
    → IsDate year month day
    → days_since_1970 year month day ≡ epoch_days year month day
unfolding epoch_days
days_since_1970-epoch_days year month day from to v =
    let leap = is_leap year in
    let here = days_of_months_lem leap month v.from_january (omega arith) in
    let few : day ≤ 366 = omega (arith, day_bound v) in
    rw here (elim (dec_le month 2) [
      | yes early ↦ january leap year month day from to v.from_january early v.from_first few
      | no late ↦ march year month day from to (omega arith) v.to_december v.from_first few
    ])

-- The days before the year 2000 are some.
late : (year month day : ℕ) → 1 ≤ epoch_days (2000 + year) month day
unfolding epoch_days
late year month day =
    let years : 2000 + year - 1970 ≡ 30 + year = omega arith in
    rw years (omega (arith, days_of_years_lem (30 + year)))

-- A number below 100 as a binary coded decimal.
abbrev pub to_bcd : ℕ → ℕ
to_bcd n = n / 10 * 16 + n % 10

-- For every date of the years 2000 to 2099 and a time of two-digit numbers, given as six binary
-- coded decimals in a buffer of at least six bytes, `bcd_time_to_utc_milliseconds` returns the
-- milliseconds from the start of 1970 to that time, eight hours less.
pub bcd_time-epoch_days :
    (year month day hour min sec : ℕ) (rest : List ℕ) (size : ℕ)
    → year < 100
    → IsDate (2000 + year) month day
    → hour < 100
    → min < 100
    → sec < 100
    → 6 ≤ size
    → (t : ℕ) × (bcd_time_to_utc_milliseconds
          (some (map to_bcd (year ∷ month ∷ day ∷ hour ∷ min ∷ sec ∷ []) ++ rest))
          size
        ≡ ok t)
      × (t + 8 * 3600000
          ≡ (((epoch_days (2000 + year) month day * 24 + hour) * 60 + min) * 60 + sec) * 1000)
unfolding bcd_time_to_utc_milliseconds utc_milliseconds
bcd_time-epoch_days year month day hour min sec rest size y v h m s n =
    let digits : (k : ℕ) → k < 100 → of_bcd (to_bcd k + 0) ≡ k = λ k lt. omega arith in
    let days = days_since_1970-epoch_days (2000 + year) month day (omega arith) (omega arith) v in
    (
      utc_milliseconds (2000 + year) month day hour min sec,
      rw (
        le→ltb size 6 n,
        digits year y,
        digits month (omega arith),
        digits day (omega (arith, day_bound v)),
        digits hour h,
        digits min m,
        digits sec s,
        add_comm year 2000,
      ),
      rw days (omega (arith, late year month day)),
    )
