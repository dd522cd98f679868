-- ===== src/Subscriptions/State.antt =====
-- `computeSubscriptionState` of api/src/subscriptions/subscription-terms.ts and the decision that
-- api/src/subscriptions/subscription-access.ts draws from it. Instants are seen by `getTime()`.
use royalvibe_cosmetic.Common.{
  ℕ, Bool, true, false, ◌&&◌, ◌||◌, Option, none, some, List, [], ◌∷◌, max, ltb, leb, ◌==◌,
  if◌then◌else◌, filter, find,
}
use royalvibe_cosmetic.Subscriptions.Months.{SubscriptionTerm}

pub data PeriodKind : Type 0 where
  trial subscription : PeriodKind

pub record Snapshot : Type 0 where
  pub sequence : ℕ
  pub kind : PeriodKind
  pub term : Option SubscriptionTerm
  pub starts_at : ℕ
  pub ends_at : ℕ

pub data StateName : Type 0 where
  nothing active expired scheduled : StateName

pub record StateView : Type 0 where
  pub state : StateName
  pub current_period : Option Snapshot
  pub coverage_ends_at : Option ℕ
  pub next_period_starts_at : Option ℕ

abbrev pub covers : ℕ → Snapshot → Bool
covers now p = leb p.starts_at now && ltb now p.ends_at

-- One turn of the loop.
abbrev pub extend : Snapshot → ℕ → ℕ
extend p end = if leb p.starts_at end && ltb end p.ends_at then p.ends_at else end

unfoldable pub continuous_end : List Snapshot → ℕ → ℕ
continuous_end [] end = end
continuous_end (p ∷ sorted) end = continuous_end sorted (extend p end)

-- The comparison of `sort`: `before a b` lets `a` stand before `b`.
abbrev pub by_start : Snapshot → Snapshot → Bool
by_start a b =
    ltb a.starts_at b.starts_at || (a.starts_at == b.starts_at && leb a.sequence b.sequence)

abbrev pub by_sequence : Snapshot → Snapshot → Bool
by_sequence a b = leb b.sequence a.sequence

abbrev pub place : (Snapshot → Snapshot → Bool) → Snapshot → List Snapshot → List Snapshot
place before p [] = p ∷ []
place before p (q ∷ qs) = if before p q then p ∷ q ∷ qs else q ∷ place before p qs

-- The language's stable `sort`.
abbrev pub sort : (Snapshot → Snapshot → Bool) → List Snapshot → List Snapshot
sort before [] = []
sort before (p ∷ ps) = place before p (sort before ps)

abbrev pub first : List Snapshot → Option Snapshot
first [] = none
first (p ∷ _) = some p

-- `Math.max(...ends)`
abbrev pub latest_end : List Snapshot → ℕ
latest_end [] = 0
latest_end (p ∷ ps) = max p.ends_at (latest_end ps)

abbrev pub starts_after : ℕ → Snapshot → Bool
starts_after now p = ltb now p.starts_at

-- Without a current period.
unfoldable pub state_without_current : List Snapshot → Option Snapshot → StateView
state_without_current sorted (some p) = record {
  state = scheduled;
  current_period = none;
  coverage_ends_at = some (continuous_end sorted p.ends_at);
  next_period_starts_at = some p.starts_at;
}
state_without_current sorted none = record {
  state = expired;
  current_period = none;
  coverage_ends_at = some (latest_end sorted);
  next_period_starts_at = none;
}

unfoldable pub state_of_sorted : List Snapshot → ℕ → StateView
state_of_sorted sorted now = elim (first (sort by_sequence (filter (covers now) sorted))) [
  | some p ↦ record {
    state = active;
    current_period = some p;
    coverage_ends_at = some (continuous_end sorted p.ends_at);
    next_period_starts_at = none;
  }
  | none ↦ state_without_current sorted (find (starts_after now) sorted)
]

unfoldable pub compute_subscription_state : List Snapshot → ℕ → StateView
compute_subscription_state [] now = record {
  state = nothing;
  current_period = none;
  coverage_ends_at = none;
  next_period_starts_at = none;
}
compute_subscription_state (p ∷ ps) now = state_of_sorted (sort by_start (p ∷ ps)) now

-- `applicationAccess` and `canRenew` of `toSubscriptionAccessView`, and `active` of
-- `getAccessDecision`.
pub data AccessScope : Type 0 where
  app subscription_limited : AccessScope

abbrev pub is_active : StateName → Bool
is_active active = true
is_active _ = false

abbrev pub is_app : AccessScope → Bool
is_app app = true
is_app subscription_limited = false

pub record AccessView : Type 0 where
  pub subscription_state : StateName
  pub application_access : Bool
  pub coverage_ends_at : Option ℕ
  pub checked_at : ℕ
  pub can_renew : Bool

unfoldable pub to_subscription_access_view : List Snapshot → ℕ → Bool → AccessScope → AccessView
to_subscription_access_view periods checked_at is_owner scope =
    let view = compute_subscription_state periods checked_at in
    record {
      subscription_state = view.state;
      application_access = is_app scope && is_active view.state;
      coverage_ends_at = view.coverage_ends_at;
      checked_at = checked_at;
      can_renew = is_owner;
    }
