-- ===== src/Subscriptions/Calendar.antt =====
-- The language's `Date`, in UTC, as api/src/subscriptions/subscription-terms.ts uses it: the fields
-- of an instant, the milliseconds since 1970 and the way back. Instants before 1970 do not occur.
use royalvibe_cosmetic.Common.{
  ℕ, zero, suc, ◌+◌, ◌-◌, ◌*◌, ◌%◌, ◌≤◌, ◌<◌, ◌≡◌, Bool, not, ◌&&◌, ◌||◌, ◌==◌, if◌then◌else◌,
  arith, ◌⊎◌, inl, inr,
}

-- `month` counts from 0 and `day` from 1, as in the language; `time` is the millisecond of the day.
pub record Date : Type 0 where
  pub year : ℕ
  pub month : ℕ
  pub day : ℕ
  pub time : ℕ

abbrev pub ms_per_day : ℕ
ms_per_day = 86400000

unfoldable pub is_leap : ℕ → Bool
is_leap y = y % 4 == 0 && (not (y % 100 == 0) || y % 400 == 0)

-- The last day of a month: `new Date(Date.UTC(year, month + 1, 0)).getUTCDate()`.
unfoldable pub last_day : ℕ → ℕ → ℕ
unfolding is_leap
last_day y m =
    if m == 1
    then (if is_leap y then 29 else 28)
    else if m == 3 || (m == 5 || (m == 8 || m == 10))
    then 30
    else 31

-- The days of a year before a month.
unfoldable pub days_before_month : ℕ → ℕ → ℕ
days_before_month y zero = 0
days_before_month y (suc m) = days_before_month y m + last_day y m

abbrev pub year_length : ℕ → ℕ
year_length y = days_before_month y 12

-- The days of the first `k` years after `base`.
unfoldable pub days_of_years : ℕ → ℕ → ℕ
days_of_years base zero = 0
days_of_years base (suc k) = days_of_years base k + year_length (base + k)

abbrev pub days_of_date : Date → ℕ
days_of_date d = days_of_years 1970 (d.year - 1970) + days_before_month d.year d.month + (d.day - 1)

-- `d.getTime()`
unfoldable pub get_time : Date → ℕ
get_time d = days_of_date d * ms_per_day + d.time

-- A date that the language can show: its fields are in range.
pub record IsValid (d : Date) : Type 0 where
  pub since_1970 : 1970 ≤ d.year
  pub month_in_range : d.month < 12
  pub day_from_one : 1 ≤ d.day
  pub day_in_month : d.day ≤ last_day d.year d.month
  pub time_in_day : d.time < ms_per_day

pub last_day_bounds : (y m : ℕ) → (28 ≤ last_day y m) × (last_day y m ≤ 31)
unfolding last_day
last_day_bounds y m = ground arith

-- Later months of a year start later by at least the month in between.
pub days_before_month_mono :
    (y m n : ℕ) → m < n → days_before_month y m + last_day y m ≤ days_before_month y n
unfolding days_before_month
days_before_month_mono y m zero h = absurd (omega arith)
days_before_month_mono y m (suc n) h =
    let earlier : (m < n) ⊎ (m ≡ n) = grind arith in
    elim earlier [
      | inl lt ↦ omega (arith, days_before_month_mono y m n lt)
      | inr eq ↦ rw eq (omega arith)
    ]

pub days_of_years_mono :
    (base k l : ℕ) → k < l → days_of_years base k + year_length (base + k) ≤ days_of_years base l
unfolding days_of_years
days_of_years_mono base k zero h = absurd (omega arith)
days_of_years_mono base k (suc l) h =
    let earlier : (k < l) ⊎ (k ≡ l) = grind arith in
    elim earlier [
      | inl lt ↦ omega (arith, days_of_years_mono base k l lt)
      | inr eq ↦ rw eq (omega arith)
    ]
