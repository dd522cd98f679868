-- ===== src/Subscriptions/Months.antt =====
-- `addUtcMonthsClamped` and `computeSubscriptionEndsAt` of
-- api/src/subscriptions/subscription-terms.ts, and what they promise of the calendar.
use royalvibe_cosmetic.Common.{
  ℕ, ◌+◌, ◌-◌, ◌*◌, ◌/◌, ◌%◌, ◌≤◌, ◌<◌, ◌≡◌, refl, ap, subst, min, arith, ◌⊎◌, inl, inr,
}
use royalvibe_cosmetic.Subscriptions.Calendar.{
  Date, IsValid, last_day, days_before_month, year_length, days_of_years, days_of_date, get_time,
  last_day_bounds, days_before_month_mono, days_of_years_mono,
}

-- Instants are not before 1970, so `floor` and the double `% 12` are the plain ones.
unfoldable pub add_utc_months_clamped : Date → ℕ → Date
add_utc_months_clamped start months =
    let month_index = start.month + months in
    let year = start.year + month_index / 12 in
    let month = month_index % 12 in
    record {
      year = year;
      month = month;
      day = min start.day (last_day year month);
      time = start.time;
    }

pub data SubscriptionTerm : Type 0 where
  monthly quarterly semiannual annual : SubscriptionTerm

unfoldable pub term_months : SubscriptionTerm → ℕ
term_months monthly = 1
term_months quarterly = 3
term_months semiannual = 6
term_months annual = 12

pub term_months-positive : (term : SubscriptionTerm) → 1 ≤ term_months term
unfolding term_months
term_months-positive monthly = omega arith
term_months-positive quarterly = omega arith
term_months-positive semiannual = omega arith
term_months-positive annual = omega arith

unfoldable pub compute_subscription_ends_at : Date → SubscriptionTerm → Date
unfolding add_utc_months_clamped term_months
compute_subscription_ends_at starts_at term = add_utc_months_clamped starts_at (term_months term)

-- Months counted from year 0.
abbrev pub month_number : Date → ℕ
month_number d = d.year * 12 + d.month

-- The target month is exactly `months` later, the day is the start's or the last of that month, the
-- time of day is kept, and the result is a date of the calendar.
pub add_utc_months_clamped_lem :
    (d : Date) (months : ℕ)
    → IsValid d
    → IsValid (add_utc_months_clamped d months)
      × (month_number (add_utc_months_clamped d months) ≡ month_number d + months)
      × ((add_utc_months_clamped d months).day
          ≡ min d.day (
              last_day
                (add_utc_months_clamped d months).year
                (add_utc_months_clamped d months).month))
      × ((add_utc_months_clamped d months).time ≡ d.time)
unfolding add_utc_months_clamped
add_utc_months_clamped_lem d months v =
    let index = d.month + months in
    let long = last_day_bounds (d.year + index / 12) (index % 12) in
    (
      record {
        since_1970 = omega (arith, v);
        month_in_range = omega arith;
        day_from_one = omega (arith, v, long);
        day_in_month = omega arith;
        time_in_day = v.time_in_day;
      },
      omega arith,
      refl,
      refl,
    )

-- The days before a month lie within its year.
day_of_year_bound :
    (d : Date) → IsValid d → days_before_month d.year d.month + (d.day - 1) < year_length d.year
day_of_year_bound d v = omega (arith, days_before_month_mono d.year d.month 12 v.month_in_range, v)

-- A date of a later month is a later instant.
get_time_of_month_number :
    (a b : Date) → IsValid a → IsValid b → month_number a < month_number b → get_time a < get_time b
unfolding get_time
get_time_of_month_number a b v w h =
    let years : 1970 + (a.year - 1970) ≡ a.year = omega (arith, v) in
    let earlier : (a.year < b.year) ⊎ (a.year ≡ b.year) = grind (arith, v, w) in
    let days : days_of_date a < days_of_date b = elim earlier [
      | inl lt ↦
          let mono = days_of_years_mono 1970 (a.year - 1970) (b.year - 1970) (omega (arith, v)) in
          let mine : days_of_years 1970 (a.year - 1970) + year_length a.year
              ≤ days_of_years 1970 (b.year - 1970) =
            subst
              (λ y.
                days_of_years 1970 (a.year - 1970) + year_length y
                ≤ days_of_years 1970 (b.year - 1970))
              years mono in
          omega (arith, day_of_year_bound a v, mine)
      | inr eq ↦
          let months : days_before_month a.year a.month + last_day a.year a.month
              ≤ days_before_month b.year b.month =
            subst
              (λ y.
                days_before_month a.year a.month + last_day a.year a.month
                ≤ days_before_month y b.month)
              eq (days_before_month_mono a.year a.month b.month (omega arith)) in
          let years_eq : days_of_years 1970 (a.year - 1970) ≡ days_of_years 1970 (b.year - 1970) =
            ap (λ y. days_of_years 1970 (y - 1970)) eq in
          omega (arith, v, w, months, years_eq)
    ] in
    omega (arith, v, w, days)

-- A subscription ends at a date of the calendar, after it starts, whatever its term and the length of the months.
pub compute_subscription_ends_at-later :
    (starts_at : Date) (term : SubscriptionTerm)
    → IsValid starts_at
    → IsValid (compute_subscription_ends_at starts_at term)
      × (get_time starts_at < get_time (compute_subscription_ends_at starts_at term))
unfolding compute_subscription_ends_at
compute_subscription_ends_at-later d term v =
    let (valid, later, day, time) = add_utc_months_clamped_lem d (term_months term) v in
    (
      valid,
      get_time_of_month_number d (add_utc_months_clamped d (term_months term)) v valid
          (omega (arith, later, term_months-positive term)),
    )
