-- ===== src/Reports/Tests.antt =====
-- Runs of the limiter of api/src/reports, and its theorem after some of them.
use royalvibe_cosmetic.Common.{◌≡◌, refl, false, [], ◌∷◌}
use royalvibe_cosmetic.Common.Dict.{lookup, insert}
use royalvibe_cosmetic.Reports.Limiter.{
  Limiter, Ticket, admitted, busy, idle, report_generation_limits, acquire, acquire_pruned, prune,
}
use royalvibe_cosmetic.Reports.Bounds.{IsBounded, start, next, admits, Reach-IsBounded}

abbrev ticket : Ticket
ticket = record { organization_id = "o"; released = false }

abbrev one : Limiter
one = record {
  windows = ("u:o", record { started_at = 0; count = 1 }) ∷ [];
  active_by_organization = ("o", 1) ∷ [];
  active_total = 1;
}

abbrev two : Limiter
two = record {
  windows = ("u:o", record { started_at = 0; count = 2 }) ∷ [];
  active_by_organization = ("o", 2) ∷ [];
  active_total = 2;
}

first_admitted : acquire report_generation_limits 0 "u" "o" idle ≡ (one, admitted ticket)
unfolding acquire acquire_pruned prune lookup insert
first_admitted = refl

second_admitted : acquire report_generation_limits 5 "u" "o" one ≡ (two, admitted ticket)
unfolding acquire acquire_pruned prune lookup insert
second_admitted = refl

third_refused : acquire report_generation_limits 6 "u" "o" two ≡ (two, busy 10)
unfolding acquire acquire_pruned prune lookup insert
third_refused = refl

Reach-IsBounded_example : IsBounded report_generation_limits ("o" ∷ "o" ∷ []) two
Reach-IsBounded_example = Reach-IsBounded report_generation_limits ("o" ∷ "o" ∷ []) two (
    next (next start (admits 0 "u" "o" ticket first_admitted))
      (admits 5 "u" "o" ticket second_admitted))
