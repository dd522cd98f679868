-- ===== src/Offline/Measure.antt =====
-- How the transactions of a pass change the number of operations to send.
use royalvibe_cosmetic.Common.{
  ℕ, ◌≡◌, ◌≤◌, ◌+◌, refl, ap, subst, ◌∙◌, String, Bool, true, false, ◌&&◌, some, List, [], ◌∷◌,
  Option-cases, inl, inr, filter, length, total, arith, str_eq, eq_iff, if◌then◌else◌,
}
use royalvibe_cosmetic.Offline.Policy.{OutboxStatus, pending, syncing}
use royalvibe_cosmetic.Offline.Outbox.{
  OutboxOperation, Outbox, find_operation, put_operation, get_partition_ops,
}
use royalvibe_cosmetic.Offline.Transactions.{
  count_sendable, prepare_operation, prepare_operations, prepare_partition, resume, Patch, patched,
  update_operation,
}
use royalvibe_cosmetic.Offline.Effects.{find_operation-id}

abbrev pub is_sendable : OutboxStatus → Bool
is_sendable pending = true
is_sendable syncing = true
is_sendable _ = false

-- What one operation counts for in a partition.
unfoldable pub weight : String → OutboxOperation → ℕ
weight key op = if str_eq op.partition_key key && is_sendable op.status then 1 else 0

filter-total :
    (key : String) (ops : List OutboxOperation)
    → length (
        filter
          (λ op. elim op.status [ pending ↦ true | syncing ↦ true | _ ↦ false ])
          (filter (λ op. str_eq op.partition_key key) ops))
      ≡ total (weight key) ops
unfolding weight
filter-total key [] = refl
filter-total key (x ∷ xs) = let rest = filter-total key xs in ground (arith, rest)

pub count_sendable-total :
    (key : String) (o : Outbox) → count_sendable key o ≡ total (weight key) o.operations
unfolding count_sendable get_partition_ops
count_sendable-total key o = filter-total key o.operations

pub total-put_operation :
    (f : OutboxOperation → ℕ) (q p : OutboxOperation) (ops : List OutboxOperation)
    → find_operation q.client_operation_id ops ≡ some p
    → total f (put_operation q ops) + f p ≡ total f ops + f q
unfolding find_operation put_operation
total-put_operation f q p [] h = cc
total-put_operation f q p (x ∷ ops) h =
    let later = total-put_operation f q p ops in ground (arith, later)

pub find-put_operation :
    (q p : OutboxOperation) (ops : List OutboxOperation)
    → find_operation q.client_operation_id ops ≡ some p
    → find_operation q.client_operation_id (put_operation q ops) ≡ some q
unfolding find_operation put_operation
find-put_operation q p [] h = cc
find-put_operation q p (x ∷ ops) h =
    let later = find-put_operation q p ops in
    ground (arith, later, eq_iff q.client_operation_id q.client_operation_id)

-- A patch of an operation that is stored: the store, and what it then counts.
pub update_operation-found :
    (id key : String) (patch : Patch) (now : ℕ) (o : Outbox) (p : OutboxOperation)
    → find_operation id o.operations ≡ some p
    → p.partition_key ≡ key
    → (total (weight key) (update_operation id key patch now o).1.operations + weight key p
        ≡ total (weight key) o.operations + weight key (patched patch now p))
      × (find_operation id (update_operation id key patch now o).1.operations
          ≡ some (patched patch now p))
unfolding update_operation
update_operation-found id key patch now o p found mine =
    let q = patched patch now p in
    let named : q.client_operation_id ≡ id = find_operation-id id o.operations p found in
    let stored : find_operation q.client_operation_id o.operations ≡ some p =
      ap (λ x. find_operation x o.operations) named ∙ found in
    let here : str_eq p.partition_key key ≡ true = ground (arith, eq_iff p.partition_key key) in
    rw (update_operation, found, here)
      (
        total-put_operation (weight key) q p o.operations stored,
        subst (λ x. find_operation x (put_operation q o.operations) ≡ some q) named
            (find-put_operation q p o.operations stored),
      )

prepare_operation-weight :
    (key : String) (now : ℕ) (op next : OutboxOperation)
    → prepare_operation now op ≡ some next
    → weight key next ≤ weight key op
unfolding prepare_operation resume weight
prepare_operation-weight key now op next h = ground arith

prepare_operations-total :
    (key : String) (now : ℕ) (ops : List OutboxOperation)
    → total (weight key) (prepare_operations key now ops) ≤ total (weight key) ops
unfolding prepare_operations
prepare_operations-total key now [] = omega arith
prepare_operations-total key now (x ∷ xs) =
    let rest = prepare_operations-total key now xs in
    elim (Option-cases (prepare_operation now x)) [
      | inl deleted ↦ ground (arith, rest)
      | inr (next, stays) ↦
          let less = prepare_operation-weight key now x next stays in ground (arith, rest, less)
    ]

pub prepare_partition-total :
    (key : String) (now : ℕ) (o : Outbox)
    → total (weight key) (prepare_partition key now o).operations ≤ total (weight key) o.operations
unfolding prepare_partition
prepare_partition-total key now o = prepare_operations-total key now o.operations
