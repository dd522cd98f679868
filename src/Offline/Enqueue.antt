-- ===== src/Offline/Enqueue.antt =====
-- The addition of a sale: enqueueOfflineSale of web/src/lib/offline-sales-outbox-db.ts.
use royalvibe_cosmetic.Common.{
  ℕ, ◌+◌, String, Bool, true, false, ◌&&◌, not, Option, none, some, List, filter, find, length, leb,
  str_eq, if◌then◌else◌, is_some,
}
use royalvibe_cosmetic.Subscriptions.Requests.{chars, units, strict_object_id}
use royalvibe_cosmetic.Payments.Initiation.{lower_case}
use royalvibe_cosmetic.Offline.Policy.{
  pending, abandoned, unfinalized, allowed_operation_actions, outbox_max_unfinalized_per_partition,
}
use royalvibe_cosmetic.Offline.Outbox.{
  JsNumber, whole, fraction, SaleEntry, SaleDisplay, OutboxOperation, Outbox, Identity,
  outbox_schema_version, policy_view, get_partition_ops, put_operation, add_operation, put_meta,
  get_meta_in, with_tx, verified_partition,
}

abbrev pub is_quantity : JsNumber → Bool
is_quantity (whole n) = leb 1 n
is_quantity _ = false

abbrev pub is_price : JsNumber → Bool
is_price (whole n) = true
is_price (fraction n d) = true
is_price _ = false

abbrev pub is_text : Option String → Bool
is_text none = true
is_text (some text) = leb (units (chars text)) 100

unfoldable pub is_valid_payload : SaleEntry → Bool
is_valid_payload p =
    is_some (strict_object_id p.product_id)
    && (is_quantity p.quantity
        && (is_price p.sale_price && (is_text p.buyer_name && is_text p.buyer_contact)))

pub data EnqueueResult : Type 0 where
  queued : String → EnqueueResult
  identity invalid limit unavailable not_replaceable : EnqueueResult

pub record EnqueueParams : Type 0 where
  pub session : Identity
  pub payload : SaleEntry
  pub display : SaleDisplay
  pub replaces : Option String

unfoldable pub new_operation : String → EnqueueParams → String → ℕ → ℕ → OutboxOperation
new_operation key params id now seq = record {
  schema_version = outbox_schema_version;
  client_operation_id = id;
  partition_key = key;
  user_id = params.session.user_id;
  organization_id = params.session.organization_id;
  seq = seq;
  payload = record {
    entry = record params.payload { product_id = lower_case params.payload.product_id };
    occurred_at = now;
  };
  display = params.display;
  status = pending;
  attempts = 0;
  next_attempt_at = now;
  last_error = none;
  sale_id = none;
  created_at = now;
  updated_at = now;
}

abbrev pub is_operation : String → OutboxOperation → Bool
is_operation id op = str_eq op.client_operation_id id

-- The operation that a correction replaces; an empty identifier is none.
unfoldable pub find_replaced : Option String → List OutboxOperation → Option OutboxOperation
find_replaced none ops = none
find_replaced (some id) ops = if str_eq id "" then none else find (is_operation id) ops

abbrev pub may_replace : Option String → Option OutboxOperation → Bool
may_replace none _ = true
may_replace (some id) none = str_eq id ""
may_replace (some _) (some replaced) = (allowed_operation_actions (policy_view replaced)).edit

-- `op !== replaced`
abbrev pub is_other : Option OutboxOperation → OutboxOperation → Bool
is_other none op = true
is_other (some replaced) op = not (str_eq op.client_operation_id replaced.client_operation_id)

unfoldable pub count_unfinalized : Option OutboxOperation → List OutboxOperation → ℕ
count_unfinalized replaced ops =
    length (filter (λ op. unfinalized op.status && is_other replaced op) ops)

abbrev pub abandon : ℕ → OutboxOperation → OutboxOperation
abandon now op = record op { status = abandoned; updated_at = now }

abbrev pub put_replaced : ℕ → Option OutboxOperation → List OutboxOperation → List OutboxOperation
put_replaced now none ops = ops
put_replaced now (some replaced) ops = put_operation (abandon now replaced) ops

unfoldable pub enqueue_tx :
    String → EnqueueParams → String → ℕ → Outbox → Option (EnqueueResult × Outbox)
unfolding find_replaced count_unfinalized new_operation
enqueue_tx key params id now o =
    let ops = get_partition_ops key o in
    let replaced = find_replaced params.replaces ops in
    let meta = get_meta_in key o.metas in
    let added = add_operation (new_operation key params id now meta.next_seq) o.operations in
    if not (may_replace params.replaces replaced)
    then some (not_replaceable, o)
    else if leb outbox_max_unfinalized_per_partition (count_unfinalized replaced ops)
    then some (limit, o)
    else elim added [
      | none ↦ none
      | some stored ↦ some (
        queued id,
        record {
          operations = put_replaced now replaced stored;
          metas = put_meta (record meta { next_seq = meta.next_seq + 1 }) o.metas;
        },
      )
    ]

-- `available` is that of the browser's stores; `id` is the random identifier.
unfoldable pub enqueue_offline_sale :
    Bool → Bool → Option Identity → EnqueueParams → String → ℕ → Outbox → EnqueueResult × Outbox
unfolding enqueue_tx is_valid_payload
enqueue_offline_sale available commits verified params id now o =
    if not available
    then (unavailable, o)
    else if not (is_valid_payload params.payload)
    then (invalid, o)
    else elim (verified_partition verified params.session) [
      | none ↦ (identity, o)
      | some key ↦ with_tx commits unavailable (enqueue_tx key params id now) o
    ]
