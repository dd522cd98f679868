-- ===== src/Subscriptions/Tests.antt =====
-- Runs of the model of api/src/subscriptions, and each theorem at an input that meets its hypotheses.
use royalvibe_cosmetic.Common.{
  ℕ, ◌+◌, ◌≤◌, ◌<◌, ◌≡◌, refl, String, true, false, ◌&&◌, none, some, [], ◌∷◌, any, total, min,
  arith,
}
use royalvibe_cosmetic.Subscriptions.Calendar.{Date, get_time, IsValid, last_day, is_leap}
use royalvibe_cosmetic.Subscriptions.Months.{
  add_utc_months_clamped, add_utc_months_clamped_lem, month_number, monthly, annual, term_months,
  compute_subscription_ends_at, compute_subscription_ends_at-later,
}
use royalvibe_cosmetic.Subscriptions.Instants.{trial_duration_ms}
use royalvibe_cosmetic.Subscriptions.State.{
  Snapshot, trial, subscription, app, compute_subscription_state, state_of_sorted, continuous_end,
  to_subscription_access_view, is_app, covers,
}
use royalvibe_cosmetic.Subscriptions.Coverage.{
  compute_subscription_state-coverage, to_subscription_access_view-application_access,
}
use royalvibe_cosmetic.Subscriptions.Requests.{
  GrantInput, ok, err, validate, strict_object_id, bounded_text, subscription_term,
  grantable_source,
}
use royalvibe_cosmetic.Subscriptions.Grants.{
  SubscriptionPeriod, Ledger, GrantedView, Turn, commits, grant_subscription_in_session,
  grant_subscription, grant_trial, end_time, trial_period, apply_grant, answer, apply_new_grant,
  granted_period, create, greatest, compute_renewal_starts_at,
}
use royalvibe_cosmetic.Subscriptions.Chain.{IsChained, Follows, count_of, covering}
use royalvibe_cosmetic.Subscriptions.State.{PeriodKind}
use royalvibe_cosmetic.Subscriptions.Renewal.{
  IsGrant, AreSound, grant_subscription_in_session-IsGrant, grant_subscription-IsChained,
  grant_subscription-exclusive,
}
use royalvibe_cosmetic.Subscriptions.Replay.{
  grant_subscription_in_session-idempotent, grant_trial-first,
}

-- The last day of January of a leap year.
abbrev january_31 : Date
january_31 = record { year = 1972; month = 0; day = 31; time = 5 }

january_31-IsValid : IsValid january_31
unfolding last_day
january_31-IsValid = record {
  since_1970 = omega arith;
  month_in_range = omega arith;
  day_from_one = omega arith;
  day_in_month = omega arith;
  time_in_day = omega arith;
}

february :
    add_utc_months_clamped january_31 1 ≡ record { year = 1972; month = 1; day = 29; time = 5 }
unfolding add_utc_months_clamped last_day is_leap
february = refl

add_utc_months_clamped_lem_example :
    IsValid (add_utc_months_clamped january_31 1)
    × (month_number (add_utc_months_clamped january_31 1) ≡ month_number january_31 + 1)
    × ((add_utc_months_clamped january_31 1).day
        ≡ min 31 (
            last_day
              (add_utc_months_clamped january_31 1).year
              (add_utc_months_clamped january_31 1).month))
    × ((add_utc_months_clamped january_31 1).time ≡ 5)
add_utc_months_clamped_lem_example = add_utc_months_clamped_lem january_31 1 january_31-IsValid

compute_subscription_ends_at-later_example :
    IsValid (compute_subscription_ends_at january_31 annual)
    × (get_time january_31 < get_time (compute_subscription_ends_at january_31 annual))
compute_subscription_ends_at-later_example =
    compute_subscription_ends_at-later january_31 annual january_31-IsValid

abbrev week : Snapshot
week = record { sequence = 1; kind = trial; term = none; starts_at = 0; ends_at = 10 }

abbrev month : Snapshot
month = record {
  sequence = 2;
  kind = subscription;
  term = some monthly;
  starts_at = 10;
  ends_at = 40;
}

to_subscription_access_view-application_access_example :
    (to_subscription_access_view (month ∷ week ∷ []) 10 true app).application_access
    ≡ (is_app app && any (covers 10) (month ∷ week ∷ []))
to_subscription_access_view-application_access_example =
    to_subscription_access_view-application_access (month ∷ week ∷ []) 10 true app

compute_subscription_state-coverage_example :
    (5 < 40) × ((t : ℕ) → 5 ≤ t → t < 40 → any (covers t) (month ∷ week ∷ []) ≡ true)
unfolding compute_subscription_state state_of_sorted continuous_end
compute_subscription_state-coverage_example =
    compute_subscription_state-coverage (month ∷ week ∷ []) 5 40 refl refl

abbrev org : String
org = "aaaaaaaaaaaaaaaaaaaaaaaa"

abbrev input : GrantInput
input = record {
  organization_id = org;
  term = "monthly";
  source = "manual";
  source_reference = " invoice 7 ";
  granted_by = "ops";
}

abbrev unsubscribed : Ledger
unsubscribed = record { periods = []; organizations = org ∷ [] }

validates :
    validate input
    ≡ some (record {
      organization_id = org;
      term = monthly;
      source = royalvibe_cosmetic.Subscriptions.Requests.manual;
      source_reference = "invoice 7";
      granted_by = "ops";
    })
unfolding validate strict_object_id bounded_text subscription_term grantable_source
validates = refl

abbrev first_month : SubscriptionPeriod
first_month = record {
  id = "p1";
  organization_id = org;
  sequence = 1;
  kind = subscription;
  term = some monthly;
  starts_at = january_31;
  ends_at = record { year = 1972; month = 1; day = 29; time = 5 };
  source = royalvibe_cosmetic.Subscriptions.Requests.manual;
  source_reference = "invoice 7";
  granted_by = "ops";
  previous_period_id = none;
}

abbrev subscribed : Ledger
subscribed = record { periods = first_month ∷ []; organizations = org ∷ [] }

abbrev view : GrantedView
view = record { period = first_month; replayed = false }

grants :
    grant_subscription_in_session true january_31 "p1" input unsubscribed ≡ ok (subscribed, view)
unfolding grant_subscription_in_session apply_grant answer apply_new_grant granted_period create
    greatest compute_renewal_starts_at validate strict_object_id bounded_text subscription_term
    grantable_source compute_subscription_ends_at add_utc_months_clamped term_months last_day
    is_leap
grants = refl

grant_subscription_in_session-IsGrant_example :
    IsGrant january_31 unsubscribed subscribed first_month false
grant_subscription_in_session-IsGrant_example =
    grant_subscription_in_session-IsGrant january_31 "p1" input unsubscribed subscribed view
      january_31-IsValid tt grants

grant_subscription_in_session-idempotent_example :
    grant_subscription_in_session true january_31 "p2" input subscribed
    ≡ ok (subscribed, record { period = first_month; replayed = true })
grant_subscription_in_session-idempotent_example =
    grant_subscription_in_session-idempotent january_31 january_31 "p1" "p2" input unsubscribed
      subscribed view grants

abbrev turns : ℕ → Turn Ledger
turns n = record { before = λ w. w; monotonic = n; now = january_31; id = "p1"; report = commits }

turns-AreSound : AreSound turns
turns-AreSound = record { others = λ n w h. h; clock = λ n. january_31-IsValid }

grant_subscription-IsChained_example :
    IsChained (grant_subscription input turns unsubscribed).0.periods
grant_subscription-IsChained_example =
    grant_subscription-IsChained input turns unsubscribed turns-AreSound tt

grant_subscription-exclusive_example :
    total (covering org 70000000000) (grant_subscription input turns unsubscribed).0.periods ≤ 1
grant_subscription-exclusive_example =
    grant_subscription-exclusive input turns unsubscribed org 70000000000 turns-AreSound tt

trial_grants :
    grant_trial january_31 "p0" org unsubscribed
    ≡ ok (record unsubscribed { periods = trial_period january_31 "p0" org ∷ [] })
unfolding grant_trial create
trial_grants = refl

grant_trial-first_example :
    (p : SubscriptionPeriod) × (trial_period january_31 "p0" org ∷ [] ≡ p ∷ [])
    × Follows p []
    × (count_of org (trial_period january_31 "p0" org ∷ []) ≡ 1)
    × (p.organization_id ≡ org)
    × (p.kind ≡ PeriodKind.trial)
    × (p.starts_at ≡ january_31)
    × (end_time p ≡ get_time p.starts_at + trial_duration_ms)
grant_trial-first_example =
    grant_trial-first january_31 "p0" org unsubscribed
      (record unsubscribed { periods = trial_period january_31 "p0" org ∷ [] }) trial_grants
