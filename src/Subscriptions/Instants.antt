-- ===== src/Subscriptions/Instants.antt =====
-- `new Date(ms)`, the way from an instant to its fields, and `computeTrialEndsAt` of
-- api/src/subscriptions/subscription-terms.ts.
use native.Mathlib.Numerals.{unary_clauses}
use royalvibe_cosmetic.Common.{
  ℕ, zero, suc, ◌+◌, ◌-◌, ◌*◌, ◌/◌, ◌%◌, ◌≡◌, refl, ap, ◌∙◌, ltb, if◌then◌else◌, arith, Bool-cases,
  inl, inr,
}
use royalvibe_cosmetic.Subscriptions.Calendar.{
  Date, IsValid, ms_per_day, last_day, days_before_month, year_length, days_of_years, days_of_date,
  get_time, last_day_bounds,
}

-- The same time of the following day.
abbrev next_day : Date → Date
next_day d =
    if ltb d.day (last_day d.year d.month)
    then record d { day = d.day + 1 }
    else if ltb d.month 11
    then record d { month = d.month + 1; day = 1 }
    else record { year = d.year + 1; month = 0; day = 1; time = d.time }

abbrev add_days : ℕ → Date → Date
add_days zero d = d
add_days (suc n) d = next_day (add_days n d)

-- `new Date(ms)`
unfoldable pub from_time : ℕ → Date
from_time ms =
    add_days (ms / ms_per_day) (record { year = 1970; month = 0; day = 1; time = ms % ms_per_day })

abbrev pub trial_duration_ms : ℕ
trial_duration_ms = 7 * 24 * 60 * 60 * 1000

unfoldable pub compute_trial_ends_at : Date → Date
unfolding from_time
compute_trial_ends_at starts_at = from_time (get_time starts_at + trial_duration_ms)

abbrev IsNextDay : Date → Date → Type 0
IsNextDay d e = IsValid e × (days_of_date e ≡ days_of_date d + 1) × (e.time ≡ d.time)

days_before_next_month :
    (y m : ℕ) → days_before_month y (m + 1) ≡ days_before_month y m + last_day y m
unfolding days_before_month
days_before_next_month y m = simp unary_clauses refl

days_before_january : (y : ℕ) → days_before_month y 0 ≡ 0
unfolding days_before_month
days_before_january y = refl

days_of_next_year :
    (base k : ℕ) → days_of_years base (k + 1) ≡ days_of_years base k + year_length (base + k)
unfolding days_of_years
days_of_next_year base k = simp unary_clauses refl

-- The days up to the end of December are those of the year.
next_year :
    (d : Date)
    → IsValid d
    → d.month ≡ 11
    → days_of_years 1970 (d.year + 1 - 1970)
      ≡ days_of_years 1970 (d.year - 1970)
        + (days_before_month d.year d.month + last_day d.year d.month)
next_year d v december =
    let years : d.year + 1 - 1970 ≡ (d.year - 1970) + 1 = omega (arith, v) in
    let year : 1970 + (d.year - 1970) ≡ d.year = omega (arith, v) in
    let months : year_length d.year ≡ days_before_month d.year 11 + last_day d.year 11 =
      days_before_next_month d.year 11 in
    ap (days_of_years 1970) years
    ∙ days_of_next_year 1970 (d.year - 1970)
    ∙ rw (year, december) (ap (λ n. days_of_years 1970 (d.year - 1970) + n) months)

next_day-IsNextDay : (d : Date) → IsValid d → IsNextDay d (next_day d)
next_day-IsNextDay d v = elim (Bool-cases (ltb d.day (last_day d.year d.month))) [
  | inl within ↦ rw within (
    record {
      since_1970 = v.since_1970;
      month_in_range = v.month_in_range;
      day_from_one = omega arith;
      day_in_month = ground arith;
      time_in_day = v.time_in_day;
    },
    omega (arith, v),
    refl,
  )
  | inr ends ↦
      let last : d.day ≡ last_day d.year d.month = ground arith in
      elim (Bool-cases (ltb d.month 11)) [
        | inl month_ends ↦
            rw (ends, month_ends)
              (
                record {
                  since_1970 = v.since_1970;
                  month_in_range = ground arith;
                  day_from_one = omega arith;
                  day_in_month = omega (arith, last_day_bounds d.year (d.month + 1));
                  time_in_day = v.time_in_day;
                },
                omega (arith, v, days_before_next_month d.year d.month, last),
                refl,
              )
        | inr year_ends ↦
            rw (ends, year_ends)
              (
                record {
                  since_1970 = omega (arith, v);
                  month_in_range = omega arith;
                  day_from_one = omega arith;
                  day_in_month = omega (arith, last_day_bounds (d.year + 1) 0);
                  time_in_day = v.time_in_day;
                },
                omega (
                  arith,
                  v,
                  next_year d v (ground arith),
                  days_before_january (d.year + 1),
                  last,
                ),
                refl,
              )
      ]
]

add_days-IsValid :
    (n : ℕ) (d : Date)
    → IsValid d
    → IsValid (add_days n d)
      × (days_of_date (add_days n d) ≡ days_of_date d + n)
      × ((add_days n d).time ≡ d.time)
add_days-IsValid zero d v = (v, omega arith, refl)
add_days-IsValid (suc n) d v =
    let (valid, days, time) = add_days-IsValid n d v in
    let (valid', days', time') = next_day-IsNextDay (add_days n d) valid in
    (valid', omega (arith, days, days'), time' ∙ time)

epoch_days : days_of_years 1970 0 + days_before_month 1970 0 ≡ 0
unfolding days_of_years days_before_month
epoch_days = refl

-- Every instant is the instant of its fields, and these are in range.
pub get_time-from_time : (ms : ℕ) → IsValid (from_time ms) × (get_time (from_time ms) ≡ ms)
unfolding from_time get_time
get_time-from_time ms =
    let epoch : Date = record { year = 1970; month = 0; day = 1; time = ms % ms_per_day } in
    let first : IsValid epoch = record {
      since_1970 = omega arith;
      month_in_range = omega arith;
      day_from_one = omega arith;
      day_in_month = omega (arith, last_day_bounds 1970 0);
      time_in_day = omega arith;
    } in
    let (valid, days, time) = add_days-IsValid (ms / ms_per_day) epoch first in
    (valid, omega (arith, days, time, epoch_days))

pub compute_trial_ends_at-exact :
    (d : Date)
    → IsValid (compute_trial_ends_at d)
      × (get_time (compute_trial_ends_at d) ≡ get_time d + trial_duration_ms)
unfolding compute_trial_ends_at
compute_trial_ends_at-exact d = get_time-from_time (get_time d + trial_duration_ms)
