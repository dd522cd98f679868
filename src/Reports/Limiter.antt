-- ===== src/Reports/Limiter.antt =====
-- `ReportGenerationLimiter` of api/src/reports/report-generation-limiter.ts.
use Prim.Native.String.{◌++◌}
use royalvibe_cosmetic.Common.{
  ℕ, ◌+◌, ◌-◌, ◌*◌, ◌/◌, String, Bool, true, false, ◌||◌, not, Option, none, some, [], or_else,
  filter, leb, ltb, if◌then◌else◌, max,
}
use royalvibe_cosmetic.Common.Dict.{Dict, lookup, insert, erase}

pub record Limits : Type 0 where
  pub window_ms : ℕ
  pub max_per_window : ℕ
  pub max_active_global : ℕ
  pub max_active_per_organization : ℕ
  pub busy_retry_after_seconds : ℕ

abbrev pub report_generation_limits : Limits
report_generation_limits = record {
  window_ms = 10 * 60000;
  max_per_window = 20;
  max_active_global = 3;
  max_active_per_organization = 2;
  busy_retry_after_seconds = 10;
}

pub record Window : Type 0 where
  pub started_at : ℕ
  pub count : ℕ

pub record Limiter : Type 0 where
  pub windows : Dict Window
  pub active_by_organization : Dict ℕ
  pub active_total : ℕ

abbrev pub idle : Limiter
idle = record { windows = []; active_by_organization = []; active_total = 0 }

-- The closure `release`: its organization, and whether it was called.
pub record Ticket : Type 0 where
  pub organization_id : String
  pub released : Bool

pub data Decision : Type 0 where
  admitted : Ticket → Decision
  rate_limited busy : ℕ → Decision

unfoldable pub prune : Limits → ℕ → Limiter → Limiter
prune limits now s = record s {
  windows =
      filter (λ (entry : String × Window). ltb now (entry.1.started_at + limits.window_ms))
        s.windows;
}

abbrev pub active_of : String → Limiter → ℕ
active_of org s = or_else (lookup org s.active_by_organization) 0

abbrev bumped : ℕ → Option Window → Window
bumped now none = record { started_at = now; count = 1 }
bumped now (some window) = record window { count = window.count + 1 }

-- The quota is not used up, or its window is new.
abbrev pub within_quota : Limits → Option Window → Bool
within_quota limits none = true
within_quota limits (some window) = ltb window.count limits.max_per_window

abbrev pub seconds_left : Limits → ℕ → Option Window → ℕ
seconds_left limits now none = 1
seconds_left limits now (some window) =
    max 1 ((window.started_at + limits.window_ms - now + 999) / 1000)

-- After the expired windows are gone.
unfoldable pub acquire_pruned : Limits → ℕ → String → String → Limiter → Limiter × Decision
acquire_pruned limits now user_id org s =
    let key = user_id ++ (":" ++ org) in
    let window = lookup key s.windows in
    if not (within_quota limits window)
    then (s, rate_limited (seconds_left limits now window))
    else if leb limits.max_active_global s.active_total
        || leb limits.max_active_per_organization (active_of org s)
    then (s, busy limits.busy_retry_after_seconds)
    else (
      record {
        windows = insert key (bumped now window) s.windows;
        active_by_organization = insert org (active_of org s + 1) s.active_by_organization;
        active_total = s.active_total + 1;
      },
      admitted (record { organization_id = org; released = false }),
    )

unfoldable pub acquire : Limits → ℕ → String → String → Limiter → Limiter × Decision
unfolding prune acquire_pruned
acquire limits now user_id org s = acquire_pruned limits now user_id org (prune limits now s)

-- Only a ticket that is not released yet changes the counters, and one is counted for it.
unfoldable pub release_ticket : Ticket → Limiter → Limiter × Ticket
release_ticket ticket s =
    if ticket.released
    then (s, ticket)
    else (let left = or_else (lookup ticket.organization_id s.active_by_organization) 1 - 1 in
        (
          record s {
            active_total = s.active_total - 1;
            active_by_organization =
                if ltb 0 left
                then insert ticket.organization_id left s.active_by_organization
                else erase ticket.organization_id s.active_by_organization;
          },
          record ticket { released = true },
        ))
