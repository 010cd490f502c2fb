-- ===== src/Util/Calendar.antt =====
-- The Gregorian calendar from 1970 on, by counting: what src/util/converter.c is measured by.
use native.Mathlib.Decide.{dec_le}
use csae.Prelude.{
  ℕ, zero, suc, ◌+◌, ◌-◌, ◌*◌, ◌/◌, ◌%◌, ◌≤◌, ◌≡◌, refl, Bool, true, false, not, ◌&&◌, ◌||◌, List,
  [], ◌∷◌, take, arith, ◌==◌, leb, if◌then◌else◌,
}

abbrev pub is_leap : ℕ → Bool
is_leap year = year % 4 == 0 && (not (year % 100 == 0) || year % 400 == 0)

-- The days from 1970-01-01 to the first of January of the year 1970 + n.
unfoldable pub days_of_years : ℕ → ℕ
days_of_years zero = 0
days_of_years (suc n) = days_of_years n + (if is_leap (1970 + n) then 366 else 365)

abbrev pub month_lengths : Bool → List ℕ
month_lengths leap =
    31 ∷ (if leap then 29 else 28) ∷ 31 ∷ 30 ∷ 31 ∷ 30 ∷ 31 ∷ 31 ∷ 30 ∷ 31 ∷ 30 ∷ 31 ∷ []

abbrev total : List ℕ → ℕ
total [] = 0
total (n ∷ ns) = n + total ns

-- The days of the months before `month`, which counts from 1.
unfoldable pub days_of_months : Bool → ℕ → ℕ
days_of_months leap month = total (take (month - 1) (month_lengths leap))

-- The days from 1970-01-01 to a date of the year 1970 or a later one.
unfoldable pub epoch_days : ℕ → ℕ → ℕ → ℕ
unfolding days_of_years days_of_months
epoch_days year month day =
    days_of_years (year - 1970) + days_of_months (is_leap year) month + (day - 1)

-- A date of the calendar.
pub record IsDate (year month day : ℕ) : Type 0 where
  pub from_january : 1 ≤ month
  pub to_december : month ≤ 12
  pub from_first : 1 ≤ day
  pub to_last :
      day + days_of_months (is_leap year) month ≤ days_of_months (is_leap year) (month + 1)

pub days_of_years_lem :
    (n : ℕ) → days_of_years n + 477 + (1969 + n) / 100 ≡ 365 * n + (1969 + n) / 4 + (1969 + n) / 400
unfolding days_of_years
days_of_years_lem zero = refl
days_of_years_lem (suc n) = ground (arith, days_of_years_lem n)

-- The months before March, and from March on.
abbrev pub months_before : Bool → ℕ → ℕ
months_before leap month =
    if leb month 2
    then 31 * (month - 1)
    else (153 * (month - 3) + 2) / 5 + (if leap then 60 else 59)

agrees : Bool → ℕ → Bool
agrees leap zero = true
agrees leap (suc n) = (days_of_months leap (suc n) == months_before leap (suc n)) && agrees leap n

of_beq : {a b : ℕ} → (a == b) ≡ true → a ≡ b
of_beq h = ground arith

agrees_sound :
    (leap : Bool) (n month : ℕ)
    → agrees leap n ≡ true
    → 1 ≤ month
    → month ≤ n
    → days_of_months leap month ≡ months_before leap month
unfolding agrees
agrees_sound leap zero month h p q = absurd (omega arith)
agrees_sound leap (suc n) month h p q = elim (dec_le month n) [
  | yes le ↦ agrees_sound leap n month (ground arith) p le
  | no gt ↦
      let e : month ≡ suc n = omega arith in
      let same : (days_of_months leap (suc n) == months_before leap (suc n)) ≡ true =
        ground arith in
      rw e (of_beq same)
]

pub days_of_months_lem :
    (leap : Bool) (month : ℕ)
    → 1 ≤ month
    → month ≤ 13
    → days_of_months leap month ≡ months_before leap month
unfolding agrees days_of_months
days_of_months_lem true month p q = agrees_sound true 13 month refl p q
days_of_months_lem false month p q = agrees_sound false 13 month refl p q
