-- ===== src/Offline/OutboxTests.antt =====
-- Runs of the outbox and of its synchronization at concrete inputs.
use royalvibe_cosmetic.Common.{
  ◌≤◌, ℕ, ◌≡◌, ◌<◌, refl, sym, ◌∙◌, String, true, false, none, some, List, [], ◌∷◌, All, map,
  length, arith,
}
use royalvibe_cosmetic.Offline.Policy.{
  outbox_max_unfinalized_per_partition, Outcome, success, http, classify_sale_sync_outcome,
  is_pending_expired, compute_retry_delay_ms, OutboxStatus, syncing,
}
use royalvibe_cosmetic.Offline.Outbox.{
  JsNumber, whole, OutboxOperation, Outbox, Identity, find_operation, verified_partition,
  get_meta_in, get_partition_ops, with_tx, put_operation, put_meta, add_operation,
}
use royalvibe_cosmetic.Offline.Transactions.{
  expired_error, prepare_partition, count_sendable, update_operation, get_head_pending,
}
use royalvibe_cosmetic.Offline.Enqueue.{
  count_unfinalized, EnqueueParams, EnqueueResult, enqueue_offline_sale, new_operation,
}
use royalvibe_cosmetic.Offline.Actions.{try_acquire_lease}
use royalvibe_cosmetic.Offline.Numbering.{IsNumbered}
use royalvibe_cosmetic.Offline.Invariant.{Separates}
use royalvibe_cosmetic.Offline.Trace.{Reach, here, next, enqueuing, Reach-IsNumbered}
use royalvibe_cosmetic.Offline.Sync.{process_partition}
use royalvibe_cosmetic.Offline.Decisions.{
  CapturedSession, stopped, StopReason, Round, belongs_to_session,
}
use royalvibe_cosmetic.Offline.SyncSteps.{AreSteps}
use royalvibe_cosmetic.Offline.Sending.{IsProper, process_partition-IsProper}
use royalvibe_cosmetic.Offline.Turns.{IsQuiet, quiet-AreSteps}
use royalvibe_cosmetic.Offline.TurnEnds.{IsOver}
use royalvibe_cosmetic.Offline.Limit.{enqueue_offline_sale-IsLimited}
use royalvibe_cosmetic.Offline.Termination.{process_partition-IsOver}
use royalvibe_cosmetic.Subscriptions.Requests.{strict_object_id}

abbrev user : Identity
user = record { user_id = "u1"; organization_id = "o1" }

abbrev IsAnna : String → Type 0
IsAnna u = u ≡ "u1"

only-IsAnna : Separates IsAnna
only-IsAnna u v a b first second same = first ∙ sym second

abbrev params : EnqueueParams
params = record {
  session = user;
  payload = record {
    product_id = "65A000000000000000000001";
    quantity = whole 2;
    sale_price = whole 1500;
    buyer_name = none;
    buyer_contact = none;
  };
  display = record { product_name = "Soap"; unit_price_hint = whole 1500 };
  replaces = none;
}

abbrev empty : Outbox
empty = record { operations = []; metas = [] }

empty-IsNumbered : IsNumbered IsAnna empty
empty-IsNumbered = record { ordered = tt; below = tt; keyed = tt }

abbrev with_sale : String → ℕ → Outbox → Outbox
with_sale id now o = (enqueue_offline_sale true true (some user) params id now o).1

abbrev one : Outbox
one = with_sale "a" 100 empty

abbrev two : Outbox
two = with_sale "b" 200 one

abbrev seqs : Outbox → List ℕ
seqs o = map (λ op. op.seq) o.operations

numbers : seqs two ≡ 1 ∷ 2 ∷ []
unfolding enqueue_offline_sale strict_object_id verified_partition with_tx get_partition_ops
    add_operation get_meta_in put_meta
numbers = refl

refuses_fraction :
    (enqueue_offline_sale true true
      (some user)
      (record params { payload = record params.payload { quantity = JsNumber.fraction 1 2 } })
      "a"
      100
      empty).0
    ≡ EnqueueResult.invalid
unfolding enqueue_offline_sale strict_object_id
refuses_fraction = refl

other_tab_waits :
    (try_acquire_lease "u1:o1" "tab2" 150 30000
      (try_acquire_lease "u1:o1" "tab1" 100 30000 two).1).0
    ≡ false
unfolding try_acquire_lease get_meta_in enqueue_offline_sale strict_object_id verified_partition
    with_tx get_partition_ops add_operation put_meta
other_tab_waits = refl

two-Reach : Reach IsAnna empty two
two-Reach =
    next (next here (enqueuing true true (some user) params "a" 100 refl refl))
      (enqueuing true true (some user) params "b" 200 refl refl)

two-IsNumbered : IsNumbered IsAnna two
two-IsNumbered = Reach-IsNumbered IsAnna only-IsAnna empty two-Reach empty-IsNumbered

Reach-IsNumbered_example : IsNumbered IsAnna two
Reach-IsNumbered_example = Reach-IsNumbered IsAnna only-IsAnna empty two-Reach empty-IsNumbered

abbrev first_sale : OutboxOperation
first_sale = new_operation "u1:o1" params "a" 100 1

abbrev prepared_later : Outbox
prepared_later = prepare_partition "u1:o1" 2000000000 two

abbrev session : CapturedSession
session = record { token = "t"; user_id = "u1"; organization_id = "o1"; partition_key = "u1:o1" }

abbrev round : Outcome → Round
round outcome = record {
  token = some "t";
  aborted = false;
  before_head = λ o. o;
  now = 300;
  before_sending = λ o. o;
  token_at_sending = some "t";
  aborted_at_sending = false;
  before_answer = λ o. o;
  outcome = outcome;
  answered_at = 400;
  random = 500;
  before_block = λ o. o;
  token_after = some "t";
}

round-IsQuiet : (outcome : Outcome) → IsQuiet (round outcome)
round-IsQuiet outcome = record {
  head = λ o. refl;
  sending = λ o. refl;
  answer = λ o. refl;
  block = λ o. refl;
}

abbrev rounds : List Round
rounds = round (success "s1") ∷ round (success "s2") ∷ round (success "s3") ∷ []

all-IsQuiet : All IsQuiet rounds
all-IsQuiet = (round-IsQuiet _, (round-IsQuiet _, (round-IsQuiet _, tt)))

all_steps : All (AreSteps IsAnna) rounds
all_steps = (
  quiet-AreSteps IsAnna (round-IsQuiet _),
  (quiet-AreSteps IsAnna (round-IsQuiet _), (quiet-AreSteps IsAnna (round-IsQuiet _), tt)),
)

abbrev no_text : ℕ → String
no_text n = ""

-- Both sales are sent, in order, and nothing waits.
sends_both :
    map
      (λ x. x.operation.client_operation_id)
      (process_partition no_text session "f" (λ n o. o) 250 rounds two).sent
    ≡ "a" ∷ "b" ∷ []
unfolding process_partition enqueue_offline_sale get_meta_in strict_object_id verified_partition
    with_tx get_partition_ops add_operation put_meta get_head_pending prepare_partition
    is_pending_expired belongs_to_session classify_sale_sync_outcome update_operation find_operation
    put_operation
sends_both = refl

-- The server fails: the pass stops, and the first sale waits for two seconds.
backs_off :
    (process_partition no_text session "f"
      (λ n o. o)
      250
      (round (http 503 none none) ∷ [])
      two).result
    ≡ stopped StopReason.error (some 2400)
unfolding process_partition enqueue_offline_sale get_meta_in strict_object_id verified_partition
    with_tx get_partition_ops add_operation put_meta get_head_pending prepare_partition
    is_pending_expired belongs_to_session classify_sale_sync_outcome compute_retry_delay_ms
backs_off = refl

process_partition-IsProper_example :
    All (IsProper session) (process_partition no_text session "f" (λ n o. o) 250 rounds two).sent
process_partition-IsProper_example =
    process_partition-IsProper no_text session "f" IsAnna only-IsAnna (λ n o. o) 250 rounds two
      (λ n o. here) all_steps two-IsNumbered

few : count_sendable "u1:o1" two < length rounds
unfolding count_sendable enqueue_offline_sale get_partition_ops strict_object_id verified_partition
    with_tx add_operation get_meta_in put_meta
few = omega arith

process_partition-IsOver_example :
    IsOver no_text session "f" (process_partition no_text session "f" (λ n o. o) 250 rounds two)
process_partition-IsOver_example =
    process_partition-IsOver no_text session "f" IsAnna only-IsAnna (λ n o. o) 250 rounds two
      (λ n o. refl) all-IsQuiet two-IsNumbered few

room : count_unfinalized none (get_partition_ops "u1:o1" one) ≤ outbox_max_unfinalized_per_partition
unfolding enqueue_offline_sale get_partition_ops strict_object_id verified_partition with_tx
    add_operation get_meta_in put_meta count_unfinalized
room = omega arith

enqueue_offline_sale-IsLimited_example :
    count_unfinalized none
      (get_partition_ops "u1:o1" (enqueue_offline_sale true true (some user) params "b" 200 one).1)
    ≤ outbox_max_unfinalized_per_partition
enqueue_offline_sale-IsLimited_example =
    enqueue_offline_sale-IsLimited IsAnna "u1:o1" true true (some user) params "b" 200 one
      (Reach-IsNumbered IsAnna only-IsAnna empty
        (next here (enqueuing true true (some user) params "a" 100 refl refl)) empty-IsNumbered)
      room

-- The browser was closed while the sale was being sent, so no attempt was counted.
abbrev interrupted : OutboxOperation
interrupted = record first_sale { status = syncing }

-- The sale as the next pass prepares it, weeks later.
abbrev given_up : OutboxOperation
given_up = record first_sale {
  status = OutboxStatus.conflict;
  last_error = some expired_error;
  updated_at = 2000000000;
}
