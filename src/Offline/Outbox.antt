-- ===== src/Offline/Outbox.antt =====
-- The object stores of the offline sales and the accesses to one record:
-- web/src/lib/offline-sales-outbox-db.ts.
use Prim.Native.String
use royalvibe_cosmetic.Common.{
  ℕ, String, Bool, ◌&&◌, ◌||◌, Option, none, some, List, [], ◌∷◌, filter, any, ltb, ◌==◌, str_eq,
  if◌then◌else◌,
}
use royalvibe_cosmetic.Offline.Policy.{OutboxStatus, LastError, Operation}

-- The numbers of the language that a form can give.
pub data JsNumber : Type 0 where
  whole : ℕ → JsNumber
  fraction : ℕ → ℕ → JsNumber
  below_zero not_finite : JsNumber

pub record SaleEntry : Type 0 where
  pub product_id : String
  pub quantity : JsNumber
  pub sale_price : JsNumber
  pub buyer_name : Option String
  pub buyer_contact : Option String

pub record OutboxSalePayload : Type 0 where
  pub entry : SaleEntry
  pub occurred_at : ℕ

pub record SaleDisplay : Type 0 where
  pub product_name : String
  pub unit_price_hint : JsNumber

pub record OutboxOperation : Type 0 where
  pub schema_version : ℕ
  pub client_operation_id : String
  pub partition_key : String
  pub user_id : String
  pub organization_id : String
  pub seq : ℕ
  pub payload : OutboxSalePayload
  pub display : SaleDisplay
  pub status : OutboxStatus
  pub attempts : ℕ
  pub next_attempt_at : ℕ
  pub last_error : Option LastError
  pub sale_id : Option String
  pub created_at : ℕ
  pub updated_at : ℕ

pub data BlockReason : Type 0 where
  access_denied corruption subscription : BlockReason

pub record Lease : Type 0 where
  pub owner : String
  pub expires_at : ℕ

pub record Blocked : Type 0 where
  pub reason : BlockReason
  pub token_fingerprint : Option String
  pub at : ℕ

pub record OutboxPartitionMeta : Type 0 where
  pub partition_key : String
  pub next_seq : ℕ
  pub lease : Option Lease
  pub blocked : Option Blocked

-- The two stores, the operations in the order of the index by partition and sequence number.
pub record Outbox : Type 0 where
  pub operations : List OutboxOperation
  pub metas : List OutboxPartitionMeta

abbrev pub outbox_schema_version : ℕ
outbox_schema_version = 1

unfoldable pub partition_key_of : String → String → String
partition_key_of user_id organization_id = String.◌++◌ (String.◌++◌ user_id ":") organization_id

abbrev pub whole_part : JsNumber → ℕ
whole_part (whole n) = n
whole_part _ = 0

-- What `allowedOperationActions` reads.
abbrev pub policy_view : OutboxOperation → Operation
policy_view op = record {
  status = op.status;
  attempts = op.attempts;
  last_error = op.last_error;
  updated_at = op.updated_at;
  product_id = op.payload.entry.product_id;
  quantity = whole_part op.payload.entry.quantity;
}

unfoldable pub get_partition_ops : String → Outbox → List OutboxOperation
get_partition_ops key o = filter (λ op. str_eq op.partition_key key) o.operations

-- `objectStore(OPS).get(id)`
unfoldable pub find_operation : String → List OutboxOperation → Option OutboxOperation
find_operation id [] = none
find_operation id (op ∷ ops) =
    if str_eq op.client_operation_id id then some op else find_operation id ops

-- `objectStore(OPS).put(op)` of an operation that is stored
unfoldable pub put_operation : OutboxOperation → List OutboxOperation → List OutboxOperation
put_operation op [] = []
put_operation op (x ∷ ops) =
    if str_eq x.client_operation_id op.client_operation_id
    then op ∷ ops
    else x ∷ put_operation op ops

-- Before the first operation of the partition with a higher number.
unfoldable pub insert_operation : OutboxOperation → List OutboxOperation → List OutboxOperation
insert_operation op [] = op ∷ []
insert_operation op (x ∷ ops) =
    if str_eq x.partition_key op.partition_key && ltb op.seq x.seq
    then op ∷ x ∷ ops
    else x ∷ insert_operation op ops

-- The two keys that are unique: the identifier, and the partition with the number.
abbrev pub same_key : OutboxOperation → OutboxOperation → Bool
same_key op x =
    str_eq x.client_operation_id op.client_operation_id
    || (str_eq x.partition_key op.partition_key && x.seq == op.seq)

-- `objectStore(OPS).add(op)`, which fails on a key that is taken
unfoldable pub add_operation :
    OutboxOperation → List OutboxOperation → Option (List OutboxOperation)
unfolding insert_operation
add_operation op ops = if any (same_key op) ops then none else some (insert_operation op ops)

unfoldable pub find_meta : String → List OutboxPartitionMeta → Option OutboxPartitionMeta
find_meta key [] = none
find_meta key (m ∷ ms) = if str_eq m.partition_key key then some m else find_meta key ms

-- `objectStore(META).put(meta)`
unfoldable pub put_meta : OutboxPartitionMeta → List OutboxPartitionMeta → List OutboxPartitionMeta
put_meta meta [] = meta ∷ []
put_meta meta (m ∷ ms) =
    if str_eq m.partition_key meta.partition_key then meta ∷ ms else m ∷ put_meta meta ms

abbrev pub first_meta : String → OutboxPartitionMeta
first_meta key = record { partition_key = key; next_seq = 1; lease = none; blocked = none }

unfoldable pub get_meta_in : String → List OutboxPartitionMeta → OutboxPartitionMeta
unfolding find_meta
get_meta_in key ms = elim (find_meta key ms) [ none ↦ first_meta key | some m ↦ m ]

-- `withTx`: a body that throws, or a transaction that does not commit, leaves the stores.
unfoldable pub with_tx {ℓ} :
    {A : Type ℓ} → Bool → A → (Outbox → Option (A × Outbox)) → Outbox → A × Outbox
with_tx commits failed body o =
    if commits then elim (body o) [ none ↦ (failed, o) | some done ↦ done ] else (failed, o)

-- What `readVerifiedIdentity` answers for the token.
pub record Identity : Type 0 where
  pub user_id : String
  pub organization_id : String

unfoldable pub verified_partition : Option Identity → Identity → Option String
unfolding partition_key_of
verified_partition none params = none
verified_partition (some identity) params =
    if str_eq identity.user_id params.user_id
      && str_eq identity.organization_id params.organization_id
    then some (partition_key_of params.user_id params.organization_id)
    else none
