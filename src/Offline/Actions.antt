-- ===== src/Offline/Actions.antt =====
-- The actions of the user on a partition, its block and its lease:
-- web/src/lib/offline-sales-outbox-db.ts.
use royalvibe_cosmetic.Common.{
  ℕ, ◌+◌, String, Bool, true, false, ◌&&◌, not, Option, none, some, List, map, filter, any, ltb,
  str_eq, if◌then◌else◌,
}
use royalvibe_cosmetic.Offline.Policy.{
  pending, abandoned, AllowedActions, allowed_operation_actions,
}
use royalvibe_cosmetic.Offline.Outbox.{
  OutboxOperation, BlockReason, corruption, subscription, Blocked, Lease, Outbox, Identity,
  policy_view, find_operation, put_operation, put_meta, get_meta_in, with_tx, verified_partition,
}
use royalvibe_cosmetic.Offline.Transactions.{is_pending}

abbrev pub reason_of : Option Blocked → Option BlockReason
reason_of none = none
reason_of (some blocked) = some blocked.reason

abbrev pub is_subscription : Option BlockReason → Bool
is_subscription (some subscription) = true
is_subscription _ = false

abbrev pub is_corruption_block : Option BlockReason → Bool
is_corruption_block (some corruption) = true
is_corruption_block _ = false

abbrev pub unblock : String → Outbox → Outbox
unblock key o = record o {
  metas = put_meta (record (get_meta_in key o.metas) { blocked = none }) o.metas;
}

unfoldable pub clear_block_tx : String → Outbox → Bool × Outbox
clear_block_tx key o =
    if is_subscription (reason_of (get_meta_in key o.metas).blocked)
    then (true, unblock key o)
    else (false, o)

-- `outboxDatabaseMayExist` is the second test.
unfoldable pub clear_subscription_block :
    Bool → Bool → Bool → Option Identity → Identity → Outbox → Bool × Outbox
unfolding clear_block_tx
clear_subscription_block available may_exist commits verified params o =
    if not available then (false, o) else elim (verified_partition verified params) [
      | none ↦ (false, o)
      | some key ↦
          if not may_exist
          then (false, o)
          else with_tx commits false (λ o. some (clear_block_tx key o)) o
    ]

-- Another tab holds the lease.
abbrev pub held_by_other : Option Lease → String → ℕ → Bool
held_by_other none owner now = false
held_by_other (some lease) owner now = not (str_eq lease.owner owner) && ltb now lease.expires_at

unfoldable pub try_acquire_lease : String → String → ℕ → ℕ → Outbox → Bool × Outbox
try_acquire_lease key owner now duration_ms o =
    let meta = get_meta_in key o.metas in
    if held_by_other meta.lease owner now then (false, o) else (
      true,
      record o {
        metas =
            put_meta
              (record meta {
                lease = some (record { owner = owner; expires_at = now + duration_ms });
              })
              o.metas;
      },
    )

abbrev pub owned_by : Option Lease → String → Bool
owned_by none owner = false
owned_by (some lease) owner = str_eq lease.owner owner

unfoldable pub release_lease : String → String → Outbox → Outbox
release_lease key owner o =
    let meta = get_meta_in key o.metas in
    if owned_by meta.lease owner
    then record o { metas = put_meta (record meta { lease = none }) o.metas }
    else o

pub data OperationAction : Type 0 where
  sync_now retry abandon remove_corrupted : OperationAction

abbrev pub allows : OperationAction → AllowedActions → Bool
allows sync_now allowed = allowed.sync_now
allows retry allowed = allowed.retry
allows abandon allowed = allowed.abandon
allows remove_corrupted allowed = allowed.remove_corrupted

unfoldable pub acted : OperationAction → ℕ → OutboxOperation → OutboxOperation
acted sync_now now op = record op { next_attempt_at = now; updated_at = now }
acted retry now op = record op {
  status = pending;
  attempts = 0;
  next_attempt_at = now;
  last_error = none;
  updated_at = now;
}
acted abandon now op = record op { status = abandoned; updated_at = now }
acted remove_corrupted now op = record op { status = abandoned; updated_at = now }

abbrev pub removes_corrupted : OperationAction → Bool
removes_corrupted remove_corrupted = true
removes_corrupted _ = false

-- The block that the removal of a corrupted operation lifts.
unfoldable pub lift_corruption : OperationAction → String → Outbox → Outbox
lift_corruption action key o =
    if removes_corrupted action && is_corruption_block (reason_of (get_meta_in key o.metas).blocked)
    then unblock key o
    else o

unfoldable pub action_tx : String → String → OperationAction → ℕ → Outbox → Bool × Outbox
unfolding acted lift_corruption
action_tx key id action now o = elim (find_operation id o.operations) [
  | none ↦ (false, o)
  | some op ↦
      if str_eq op.partition_key key && allows action (allowed_operation_actions (policy_view op))
      then (
        true,
        record (lift_corruption action key o) {
          operations = put_operation (acted action now op) o.operations;
        },
      )
      else (false, o)
]

unfoldable pub apply_operation_action :
    Bool → Option Identity → Identity → String → OperationAction → ℕ → Outbox → Bool × Outbox
unfolding action_tx
apply_operation_action commits verified params id action now o =
    elim (verified_partition verified params) [
      | none ↦ (false, o)
      | some key ↦ with_tx commits false (λ o. some (action_tx key id action now o)) o
    ]

-- The user has an operation in the partition.
unfoldable pub uses_partition : String → List OutboxOperation → String → Bool
uses_partition user_id ops key =
    any (λ op. str_eq op.user_id user_id && str_eq op.partition_key key) ops

unfoldable pub delete_user_tx : String → Outbox → Bool × Outbox
unfolding uses_partition
delete_user_tx user_id o = (
  true,
  record {
    operations = filter (λ op. not (str_eq op.user_id user_id)) o.operations;
    metas = filter (λ m. not (uses_partition user_id o.operations m.partition_key)) o.metas;
  },
)

-- A deletion that takes longer than its limit may commit, and answers false.
unfoldable pub delete_user_operations : Bool → Bool → Bool → String → Outbox → Bool × Outbox
unfolding delete_user_tx
delete_user_operations available commits timely user_id o =
    let r = with_tx commits false (λ o. some (delete_user_tx user_id o)) o in
    if not available then (false, o) else (r.0 && timely, r.1)

unfoldable pub expedite : String → ℕ → OutboxOperation → OutboxOperation
expedite key now op =
    if str_eq op.partition_key key && (is_pending op.status && ltb now op.next_attempt_at)
    then record op { next_attempt_at = now; updated_at = now }
    else op

unfoldable pub expedite_tx : String → ℕ → Outbox → Bool × Outbox
unfolding expedite
expedite_tx key now o = (true, record o { operations = map (expedite key now) o.operations })

unfoldable pub expedite_partition : Bool → Option Identity → Identity → ℕ → Outbox → Bool × Outbox
unfolding expedite_tx
expedite_partition commits verified params now o = elim (verified_partition verified params) [
  | none ↦ (false, o)
  | some key ↦ with_tx commits false (λ o. some (expedite_tx key now o)) o
]
