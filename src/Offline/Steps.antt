-- ===== src/Offline/Steps.antt =====
-- Every transaction of web/src/lib/offline-sales-outbox-db.ts has one of the effects.
use royalvibe_cosmetic.Common.{
  ℕ, ◌+◌, ◌≡◌, refl, inl, inr, ap, ◌∙◌, String, Bool, true, false, Option, none, some, List, [],
  ◌∷◌, arith, str_eq, eq_iff, Bool-cases, Option-cases, if◌then◌else◌,
}
use royalvibe_cosmetic.Offline.Outbox.{
  OutboxOperation, OutboxPartitionMeta, Outbox, Blocked, find_operation, find_meta, put_meta,
  get_meta_in, with_tx,
}
use royalvibe_cosmetic.Offline.Transactions.{
  prepare_operation, prepare_operations, prepare_partition, resume, Patch, patched,
  update_operation, set_partition_blocked,
}
use royalvibe_cosmetic.Offline.Actions.{try_acquire_lease, release_lease, held_by_other, owned_by}
use royalvibe_cosmetic.Offline.Effects.{
  SameSale, SameSale-refl, Rewrites, finished, kept, lost, IsSynced, next_seq, Rewrites-refl,
  Rewrites-put, find_operation-id, find_meta-put_meta,
}
use royalvibe_cosmetic.Offline.Numbering.{Effect, written}

pub get_meta_in-partition_key :
    (key : String) (ms : List OutboxPartitionMeta) → (get_meta_in key ms).partition_key ≡ key
unfolding get_meta_in find_meta
get_meta_in-partition_key key [] = refl
get_meta_in-partition_key key (m ∷ ms) =
    let rest = get_meta_in-partition_key key ms in
    elim (Bool-cases (str_eq m.partition_key key)) [
      | inl this ↦ ground (arith, eq_iff m.partition_key key)
      | inr other ↦ ground (arith, rest)
    ]

pub get_meta_in-put_meta :
    (key : String) (m : OutboxPartitionMeta) (ms : List OutboxPartitionMeta)
    → get_meta_in key (put_meta m ms)
      ≡ (if str_eq m.partition_key key then m else get_meta_in key ms)
unfolding get_meta_in
get_meta_in-put_meta key m ms =
    let found = find_meta-put_meta key m ms in
    elim (Bool-cases (str_eq m.partition_key key)) [
      | inl this ↦ rw (get_meta_in, found, this) refl
      | inr other ↦ rw (get_meta_in, found, other) refl
    ]

-- A write of the partition's own record.
module _ (key : String) (m : OutboxPartitionMeta) (o : Outbox) where
  pub put_meta-next_seq :
      m.partition_key ≡ key
      → m.next_seq ≡ next_seq key o
      → (k : String) (ops : List OutboxOperation)
      → next_seq k (record { operations = ops; metas = put_meta m o.metas }) ≡ next_seq k o
  unfolding next_seq
  put_meta-next_seq same seq k ops =
      let found = get_meta_in-put_meta k m o.metas in
      elim (Bool-cases (str_eq m.partition_key k)) [
        | inl this ↦
            let one : key ≡ k = ground (arith, eq_iff m.partition_key k) in
            rw (next_seq, found, this) (seq ∙ ap (λ x. (get_meta_in x o.metas).next_seq) one)
        | inr other ↦ rw (next_seq, found, other) refl
      ]

prepare_operation-lost :
    (now : ℕ) (op : OutboxOperation) → prepare_operation now op ≡ none → IsSynced op
unfolding prepare_operation
prepare_operation-lost now op h = ground arith

prepare_operation-SameSale :
    (now : ℕ) (op next : OutboxOperation) → prepare_operation now op ≡ some next → SameSale op next
unfolding prepare_operation resume
prepare_operation-SameSale now op next h = ground arith

module _ (IsUser : String → Type 0) where
  pub Effect-skip : (o : Outbox) → Effect IsUser o o
  Effect-skip o = written (Rewrites-refl IsSynced o.operations) (λ key. refl)

  pub with_tx-Effect {ℓ} :
      {A : Type ℓ} (commits : Bool) (failed : A) (body : Outbox → Option (A × Outbox)) (o : Outbox)
      → ((r : A × Outbox) → body o ≡ some r → Effect IsUser o r.1)
      → Effect IsUser o (with_tx commits failed body o).1
  unfolding with_tx
  with_tx-Effect true failed body o each = elim (Option-cases (body o)) [
    | inl stops ↦ rw stops (Effect-skip o)
    | inr (r, goes) ↦ rw goes (each r goes)
  ]
  with_tx-Effect false failed body o each = Effect-skip o

  -- The record of a partition is rewritten, its counter kept.
  pub put_meta-Effect :
      (key : String) (m : OutboxPartitionMeta) (o : Outbox)
      → m.partition_key ≡ key
      → m.next_seq ≡ next_seq key o
      → Effect IsUser o (record o { metas = put_meta m o.metas })
  put_meta-Effect key m o same seq =
      written (Rewrites-refl IsSynced o.operations)
        (λ k. put_meta-next_seq key m o same seq k o.operations)

  pub set_partition_blocked-Effect :
      (key : String) (blocked : Option Blocked) (o : Outbox)
      → Effect IsUser o (set_partition_blocked key blocked o)
  unfolding set_partition_blocked next_seq
  set_partition_blocked-Effect key blocked o =
      put_meta-Effect key (record (get_meta_in key o.metas) { blocked = blocked }) o
        (get_meta_in-partition_key key o.metas) refl

  pub try_acquire_lease-Effect :
      (key owner : String) (now duration_ms : ℕ) (o : Outbox)
      → Effect IsUser o (try_acquire_lease key owner now duration_ms o).1
  unfolding try_acquire_lease next_seq
  try_acquire_lease-Effect key owner now duration_ms o =
      elim (Bool-cases (held_by_other (get_meta_in key o.metas).lease owner now)) [
        | inl held ↦ rw (try_acquire_lease, held) (Effect-skip o)
        | inr free ↦
            rw (try_acquire_lease, free)
              (put_meta-Effect key
                (record (get_meta_in key o.metas) {
                  lease = some (record { owner = owner; expires_at = now + duration_ms });
                })
                o (get_meta_in-partition_key key o.metas) refl)
      ]

  pub release_lease-Effect :
      (key owner : String) (o : Outbox) → Effect IsUser o (release_lease key owner o)
  unfolding release_lease next_seq
  release_lease-Effect key owner o =
      elim (Bool-cases (owned_by (get_meta_in key o.metas).lease owner)) [
        | inl mine ↦
            rw (release_lease, mine)
              (put_meta-Effect key (record (get_meta_in key o.metas) { lease = none }) o
                (get_meta_in-partition_key key o.metas) refl)
        | inr other ↦ rw (release_lease, other) (Effect-skip o)
      ]

  pub update_operation-Effect :
      (id key : String) (patch : Patch) (now : ℕ) (o : Outbox)
      → Effect IsUser o (update_operation id key patch now o).1
  unfolding update_operation next_seq
  update_operation-Effect id key patch now o =
      elim (Option-cases (find_operation id o.operations)) [
        | inl no_operation ↦ rw (update_operation, no_operation) (Effect-skip o)
        | inr (op, found) ↦ elim (Bool-cases (str_eq op.partition_key key)) [
          | inl mine ↦
              let same = find_operation-id id o.operations op found in
              rw (update_operation, found, mine)
                (written
                  (Rewrites-put IsSynced (patched patch now op) op o.operations
                    (ap (λ x. find_operation x o.operations) same ∙ found) (ground arith))
                  (λ k. refl))
          | inr other ↦ rw (update_operation, found, other) (Effect-skip o)
        ]
      ]

  prepare_operations-Rewrites :
      (key : String) (now : ℕ) (ops : List OutboxOperation)
      → Rewrites IsSynced ops (prepare_operations key now ops)
  unfolding prepare_operations
  prepare_operations-Rewrites key now [] = finished
  prepare_operations-Rewrites key now (op ∷ ops) =
      let rest = prepare_operations-Rewrites key now ops in
      elim (Bool-cases (str_eq op.partition_key key)) [
        | inl mine ↦ elim (Option-cases (prepare_operation now op)) [
          | inl deleted ↦
              rw (prepare_operations, mine, deleted)
                (lost (prepare_operation-lost now op deleted) rest)
          | inr (next, stays) ↦
              rw (prepare_operations, mine, stays)
                (kept (prepare_operation-SameSale now op next stays) rest)
        ]
        | inr other ↦ rw (prepare_operations, other) (kept (SameSale-refl op) rest)
      ]

  pub prepare_partition-Effect :
      (key : String) (now : ℕ) (o : Outbox) → Effect IsUser o (prepare_partition key now o)
  unfolding prepare_partition next_seq
  prepare_partition-Effect key now o =
      written (prepare_operations-Rewrites key now o.operations) (λ k. refl)
