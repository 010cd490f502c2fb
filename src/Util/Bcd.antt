-- ===== src/Util/Bcd.antt =====
-- src/util/converter.c: binary coded decimals, two digits in a byte.
pub mod Time
pub mod Pack
use Prim.Native.Nat.{bit_or}
use mathlib.Core.Option
use csae.Memory.Write.{splice}
use csae.Util.Hex.{is_space}
use csae.Prelude.{
  zero, suc, Option, [], ◌∷◌, ◌&&◌, ◌==◌, length, take, replicate, ℕ, ◌+◌, ◌-◌, ◌*◌, ◌/◌, ◌%◌, ◌^◌,
  ◌≤◌, none, some, List, ltb, leb, if◌then◌else◌, Run, ok, fault, bind,
}
use csae.Memory.Buffer.{Buffer}
use csae.Memory.Read.{get_byte}

-- (b >> 4) * 10 + (b & 0x0F).
abbrev pub of_bcd : ℕ → ℕ
of_bcd b = b / 16 * 10 + b % 16

-- `doy`: m counts from March, and the sum is converted from int to unsigned.
abbrev pub day_of_year : ℕ → ℕ → ℕ
day_of_year month day =
    ((153 * (if ltb 2 month then month - 3 else month + 9) + 2) / 5 + day + 2 ^ 32 - 1) % 2 ^ 32

-- `days`. The year is 1999 at least, so `y`, `era` and the sums before the subtractions have no
-- sign; unsigned sums wrap around.
unfoldable pub days_since_1970 : ℕ → ℕ → ℕ → ℕ
days_since_1970 year month day =
    let y = if leb month 2 then year - 1 else year in
    let era = y / 400 in
    let yoe = y - era * 400 in
    let doe = (yoe * 365 + yoe / 4 + 2 ^ 32 - yoe / 100 + day_of_year month day) % 2 ^ 32 in
    era * 146097 + doe - 719468

-- The milliseconds, from the six fields.
unfoldable pub utc_milliseconds : ℕ → ℕ → ℕ → ℕ → ℕ → ℕ → ℕ
unfolding days_since_1970
utc_milliseconds year month day hour min sec =
    let total_seconds_bj = days_since_1970 year month day * 86400 + hour * 3600 + min * 60 + sec in
    (total_seconds_bj - 8 * 3600) * 1000

unfoldable pub bcd_time_to_utc_milliseconds : Buffer → ℕ → Run ℕ
unfolding utc_milliseconds get_byte
bcd_time_to_utc_milliseconds none size = ok 0
bcd_time_to_utc_milliseconds (some bcd) size =
    if ltb size 6
    then ok 0
    else bind (get_byte bcd 0) λ year. bind (get_byte bcd 1) λ month. bind (get_byte bcd 2) λ day.
      bind (get_byte bcd 3) λ hour. bind (get_byte bcd 4) λ min. bind (get_byte bcd 5) λ sec. ok (
        utc_milliseconds (of_bcd year.0 + 2000) (of_bcd month.0) (of_bcd day.0) (of_bcd hour.0)
          (of_bcd min.0) (of_bcd sec.0))

-- strlen: the characters before the NUL.
abbrev pub strlen : List ℕ → Option ℕ
strlen [] = none
strlen (zero ∷ s) = some 0
strlen (suc c ∷ s) = Option.map suc (strlen s)

-- The digits that a number begins with, behind digits that spell `acc`. A memory that ends before
-- another character, and a number that is no int, are faults.
abbrev pub atoi_digits : ℕ → List ℕ → Run ℕ
atoi_digits acc [] = fault
atoi_digits acc (c ∷ s) =
    let rest = atoi_digits (acc * 10 + (c - 48)) s in
    if leb 48 c && leb c 57 then rest else if ltb acc (2 ^ 31) then ok acc else fault

-- What follows a minus is negative, and its shift undefined, unless it is 0.
abbrev pub not_negative : Run ℕ → Run ℕ
not_negative r = bind r (λ v. if v == 0 then ok 0 else fault)

-- atoi, at a pointer to memory with these bytes.
unfoldable pub atoi : List ℕ → Run ℕ
atoi [] = fault
atoi (c ∷ s) =
    let rest = atoi s in
    if is_space c
    then rest
    else if c == 43
    then atoi_digits 0 s
    else if c == 45
    then not_negative (atoi_digits 0 s)
    else atoi_digits 0 (c ∷ s)

-- `2 * _size - len + i` in size_t.
abbrev pub nibble_index : ℕ → ℕ → ℕ → ℕ
nibble_index size len i = (2 * (size % 2 ^ 63) + 2 ^ 64 - len + i) % 2 ^ 64

-- `4 * ((is_even ? i + 1 : i) % 2)`.
abbrev pub nibble_shift : ℕ → ℕ → ℕ
nibble_shift len i = 4 * ((if len % 2 == 0 then i + 1 else i) % 2)

-- An index as the int `j`, and that as a size_t again.
abbrev pub as_int : ℕ → ℕ
as_int n = let low = n % 2 ^ 32 in if ltb low (2 ^ 31) then low else low + 2 ^ 64 - 2 ^ 32

-- buf[index] |= value << shift, in a byte.
unfoldable pub or_byte : ℕ → ℕ → List ℕ → Run (List ℕ)
or_byte index value [] = fault
or_byte zero value (b ∷ buf) = ok ((bit_or b value % 256) ∷ buf)
or_byte (suc index) value (b ∷ buf) = bind (or_byte index value buf) (λ rest. ok (b ∷ rest))

-- The loop at character `i`. `&c` is read as a string, so that what follows `c` in memory counts:
-- `behind i` are those bytes. A value that the shift takes out of int is a fault.
unfoldable pub put_digits : (ℕ → List ℕ) → ℕ → ℕ → ℕ → List ℕ → List ℕ → Run (List ℕ)
put_digits behind size len i [] bcd = ok bcd
put_digits behind size len i (c ∷ str) bcd = bind (atoi (c ∷ behind i)) λ value.
    let index = nibble_index size len i / 2 in
    let shifted = value * 2 ^ nibble_shift len i in
    let rest : List ℕ → Run (List ℕ) = λ b. put_digits behind size len (i + 1) str b in
    if leb size (as_int index)
    then ok bcd
    else if leb (2 ^ 31) shifted
    then fault
    else bind (or_byte index shifted bcd) rest

-- A null `_bcd` is logged, and cleared all the same.
unfoldable pub string_to_bcd : (ℕ → List ℕ) → Buffer → Buffer → ℕ → Run (List ℕ)
unfolding put_digits splice
string_to_bcd behind str none size = fault
string_to_bcd behind none (some bcd) size = fault
string_to_bcd behind (some str) (some bcd) size = elim (strlen str) [
  | none ↦ fault
  | some len ↦
      if leb size (length bcd)
      then put_digits behind size len 0 (take len str) (splice 0 (replicate size 0) bcd)
      else fault
]
