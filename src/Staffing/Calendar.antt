-- ===== src/Staffing/Calendar.antt =====
-- Python's dates as `_month_window` of api/app/routers/staffing.py uses them: a date is its ordinal, which is
-- 1 on the first day of year 1, and a month is its number, which is 0 in January of year 1.
use cpde_web.Prelude.{
  ℕ, zero, suc, ◌+◌, ◌/◌, ◌%◌, ◌≤◌, ◌<◌, ◌≡◌, Bool, true, false, ◌&&◌, ◌||◌, not, ◌==◌, ltb, arith,
  if◌then◌else◌, Bool-cases, inl, inr,
}

abbrev pub year_of : ℕ → ℕ
year_of month = month / 12 + 1

abbrev is_leap : ℕ → Bool
is_leap year = year % 4 == 0 && (not (year % 100 == 0) || year % 400 == 0)

-- The month of the year counts from 0.
unfoldable pub month_length : (leap : Bool) → (m : ℕ) → ℕ
month_length leap m =
    if m == 1
    then (if leap then 29 else 28)
    else if m == 3 || (m == 5 || (m == 8 || m == 10))
    then 30
    else 31

-- The first day of a month.
unfoldable pub month_start : ℕ → ℕ
unfolding month_length
month_start zero = 1
month_start (suc k) = month_start k + month_length (is_leap (year_of k)) (k % 12)

-- The month of a date, by a search from a month that is not after it.
unfoldable pub month_from : (fuel : ℕ) → (month date : ℕ) → ℕ
unfolding month_start
month_from zero month date = month
month_from (suc fuel) month date =
    let later = month_from fuel (suc month) date in
    if ltb date (month_start (suc month)) then month else later

unfoldable pub month_of : (date : ℕ) → ℕ
unfolding month_from
month_of date = month_from date 0 date

pub month_length-pos : (leap : Bool) (m : ℕ) → 1 ≤ month_length leap m
unfolding month_length
month_length-pos true m = ground arith
month_length-pos false m = ground arith

pub month_start_step : (k : ℕ) → month_start k < month_start (suc k)
unfolding month_start
month_start_step k = omega (arith, month_length-pos (is_leap (year_of k)) (k % 12))

pub month_start_grows : (k : ℕ) → suc k ≤ month_start k
unfolding month_start
month_start_grows zero = omega arith
month_start_grows (suc k) =
    omega (arith, month_start_grows k, month_length-pos (is_leap (year_of k)) (k % 12))

pub month_start_skip : (n k j : ℕ) → j ≡ n + k → n + month_start k ≤ month_start j
month_start_skip zero k j e = let same : j ≡ k = omega arith in rw same (omega arith)
month_start_skip (suc n) k j e =
    omega (arith, month_start_skip n (suc k) j (omega arith), month_start_step k)

from_before : (fuel k date : ℕ) → month_start k ≤ date → month_start (month_from fuel k date) ≤ date
unfolding month_from
from_before zero k date h = h
from_before (suc fuel) k date h = elim (Bool-cases (ltb date (month_start (suc k)))) [
  | inl stop ↦ rw stop h
  | inr on ↦ rw on (from_before fuel (suc k) date (ground arith))
]

from_after :
    (fuel k j date : ℕ)
    → j ≡ fuel + k
    → date < month_start (suc j)
    → date < month_start (suc (month_from fuel k date))
unfolding month_from
from_after zero k j date e h = let same : k ≡ j = omega arith in rw same h
from_after (suc fuel) k j date e h = elim (Bool-cases (ltb date (month_start (suc k)))) [
  | inl stop ↦ rw stop (ground arith)
  | inr on ↦ rw on (from_after fuel (suc k) j date (omega arith) h)
]

-- A date is in its month.
pub month_of-contains :
    (date : ℕ)
    → 1 ≤ date
    → (month_start (month_of date) ≤ date) × (date < month_start (suc (month_of date)))
unfolding month_of
month_of-contains date h = (
  from_before date 0 date h,
  from_after date 0 date date (omega arith) (omega (arith, month_start_grows (suc date))),
)
