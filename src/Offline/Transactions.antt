-- ===== src/Offline/Transactions.antt =====
-- The transactions on the outbox: web/src/lib/offline-sales-outbox-db.ts.
use royalvibe_cosmetic.Common.{
  ℕ, String, Bool, true, false, ◌&&◌, Option, none, some, List, [], ◌∷◌, filter, find, length,
  str_eq, if◌then◌else◌, or_else,
}
use royalvibe_cosmetic.Offline.Policy.{
  OutboxStatus, pending, syncing, LastError, business, is_pending_expired, is_synced_purgeable,
}
use royalvibe_cosmetic.Offline.Outbox.{
  OutboxOperation, Blocked, Outbox, get_partition_ops, find_operation, put_operation, put_meta,
  get_meta_in,
}

unfoldable pub count_sendable : String → Outbox → ℕ
count_sendable key o = length (
    filter (λ op. elim op.status [ pending ↦ true | syncing ↦ true | _ ↦ false ])
      (get_partition_ops key o))

-- What the preparation writes under the key of one operation; none when it deletes it.
unfoldable pub resume : OutboxOperation → OutboxOperation
resume op = elim op.status [ syncing ↦ record op { status = pending } | _ ↦ op ]

abbrev pub is_pending : OutboxStatus → Bool
is_pending pending = true
is_pending _ = false

abbrev pub is_syncing : OutboxStatus → Bool
is_syncing syncing = true
is_syncing _ = false

abbrev pub is_synced : OutboxStatus → Bool
is_synced OutboxStatus.synced = true
is_synced _ = false

abbrev pub expired_error : LastError
expired_error = record { kind = business; code = some "EXPIRED"; http_status = none }

unfoldable pub prepare_operation : ℕ → OutboxOperation → Option OutboxOperation
unfolding resume
prepare_operation now op =
    if is_synced op.status && is_synced_purgeable op.updated_at now
    then none
    else if is_pending (resume op).status && is_pending_expired op.created_at now
    then some (record (resume op) {
      status = OutboxStatus.conflict;
      last_error = some expired_error;
      updated_at = now;
    })
    else if is_syncing op.status
    then some (record (resume op) { updated_at = now })
    else some op

-- Each operation of the partition is rewritten or deleted under its own key.
unfoldable pub prepare_operations : String → ℕ → List OutboxOperation → List OutboxOperation
unfolding prepare_operation
prepare_operations key now [] = []
prepare_operations key now (op ∷ ops) =
    let rest = prepare_operations key now ops in
    if str_eq op.partition_key key
    then elim (prepare_operation now op) [ none ↦ rest | some next ↦ next ∷ rest ]
    else op ∷ rest

unfoldable pub prepare_partition : String → ℕ → Outbox → Outbox
unfolding prepare_operations
prepare_partition key now o = record o { operations = prepare_operations key now o.operations }

unfoldable pub get_head_pending : String → Outbox → Option OutboxOperation
get_head_pending key o = find (λ op. is_pending op.status) (get_partition_ops key o)

-- `Partial`: an absent field keeps the value; `last_error` may also be cleared.
pub record Patch : Type 0 where
  pub status : Option OutboxStatus
  pub attempts : Option ℕ
  pub next_attempt_at : Option ℕ
  pub last_error : Option (Option LastError)
  pub sale_id : Option String

abbrev pub keep : OutboxStatus → Patch
keep status = record {
  status = some status;
  attempts = none;
  next_attempt_at = none;
  last_error = none;
  sale_id = none;
}

abbrev pub patched : Patch → ℕ → OutboxOperation → OutboxOperation
patched patch now op = record op {
  status = or_else patch.status op.status;
  attempts = or_else patch.attempts op.attempts;
  next_attempt_at = or_else patch.next_attempt_at op.next_attempt_at;
  last_error = or_else patch.last_error op.last_error;
  sale_id = elim patch.sale_id [ none ↦ op.sale_id | some id ↦ some id ];
  updated_at = now;
}

unfoldable pub update_operation : String → String → Patch → ℕ → Outbox → Bool × Outbox
update_operation id key patch now o = elim (find_operation id o.operations) [
  | none ↦ (false, o)
  | some op ↦
      if str_eq op.partition_key key
      then (true, record o { operations = put_operation (patched patch now op) o.operations })
      else (false, o)
]

unfoldable pub set_partition_blocked : String → Option Blocked → Outbox → Outbox
set_partition_blocked key blocked o = record o {
  metas = put_meta (record (get_meta_in key o.metas) { blocked = blocked }) o.metas;
}
