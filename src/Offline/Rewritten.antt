-- ===== src/Offline/Rewritten.antt =====
-- The operations that the accesses of web/src/lib/offline-sales-outbox-db.ts rewrite, delete and find.
use royalvibe_cosmetic.Common.{
  ℕ, ◌≡◌, ◌≢◌, refl, inl, inr, ap, ◌∙◌, String, Bool, false, ◌&&◌, not, none, some, List, [], ◌∷◌,
  map, filter, find, arith, str_eq, ltb, eq_iff, All, Bool-cases,
}
use royalvibe_cosmetic.Offline.Outbox.{
  OutboxOperation, OutboxPartitionMeta, Outbox, find_operation, find_meta, get_meta_in,
}
use royalvibe_cosmetic.Offline.Transactions.{is_pending}
use royalvibe_cosmetic.Offline.Actions.{
  OperationAction, acted, lift_corruption, expedite, unblock, reason_of, removes_corrupted,
  is_corruption_block,
}
use royalvibe_cosmetic.Offline.Effects.{
  SameSale, SameSale-refl, Rewrites, finished, kept, lost, IsSynced, next_seq,
}
use royalvibe_cosmetic.Offline.Numbering.{Precedes, IsOrdered, All-find}
use royalvibe_cosmetic.Offline.Steps.{get_meta_in-partition_key, put_meta-next_seq}

pub acted-SameSale :
    (action : OperationAction) (now : ℕ) (op : OutboxOperation) → SameSale op (acted action now op)
unfolding acted
acted-SameSale OperationAction.sync_now now op = ground arith
acted-SameSale OperationAction.retry now op = ground arith
acted-SameSale OperationAction.abandon now op = ground arith
acted-SameSale OperationAction.remove_corrupted now op = ground arith

unblock-next_seq : (key k : String) (o : Outbox) → next_seq k (unblock key o) ≡ next_seq k o
unfolding next_seq
unblock-next_seq key k o =
    put_meta-next_seq key (record (get_meta_in key o.metas) { blocked = none }) o
      (get_meta_in-partition_key key o.metas) refl k o.operations

pub lift_corruption-next_seq :
    (action : OperationAction) (key k : String) (o : Outbox)
    → next_seq k (lift_corruption action key o) ≡ next_seq k o
unfolding lift_corruption
lift_corruption-next_seq action key k o =
    elim (Bool-cases (
      removes_corrupted action
      && is_corruption_block (reason_of (get_meta_in key o.metas).blocked))) [
        | inl lifts ↦ rw (lift_corruption, lifts) (unblock-next_seq key k o)
        | inr other ↦ rw (lift_corruption, other) refl
      ]

pub expedite-SameSale :
    (key : String) (now : ℕ) (op : OutboxOperation) → SameSale op (expedite key now op)
unfolding expedite
expedite-SameSale key now op =
    elim (Bool-cases
      (str_eq op.partition_key key && (is_pending op.status && ltb now op.next_attempt_at))) [
        | inl due ↦ rw (expedite, due) (ground arith)
        | inr other ↦ rw (expedite, other) (SameSale-refl op)
      ]

pub map-Rewrites :
    (f : OutboxOperation → OutboxOperation) (ops : List OutboxOperation)
    → ((op : OutboxOperation) → SameSale op (f op))
    → Rewrites IsSynced ops (map f ops)
map-Rewrites f [] same = finished
map-Rewrites f (op ∷ ops) same = kept (same op) (map-Rewrites f ops same)

pub filter-Rewrites :
    (u : String) (ops : List OutboxOperation)
    → Rewrites (λ op. op.user_id ≡ u) ops (filter (λ op. not (str_eq op.user_id u)) ops)
filter-Rewrites u [] = finished
filter-Rewrites u (op ∷ ops) = elim (Bool-cases (str_eq op.user_id u)) [
  | inl theirs ↦ rw theirs (lost (ground (arith, eq_iff op.user_id u)) (filter-Rewrites u ops))
  | inr other ↦ rw other (kept (SameSale-refl op) (filter-Rewrites u ops))
]

pub filter-other :
    (u : String) (ops : List OutboxOperation)
    → All (λ op. op.user_id ≢ u) (filter (λ op. not (str_eq op.user_id u)) ops)
filter-other u [] = tt
filter-other u (op ∷ ops) = elim (Bool-cases (str_eq op.user_id u)) [
  | inl theirs ↦ rw theirs (filter-other u ops)
  | inr other ↦ rw other ((λ e. ground (arith, eq_iff op.user_id u)), filter-other u ops)
]

pub get_meta_in-filter :
    (erased_key : String → Bool) (key : String) (ms : List OutboxPartitionMeta)
    → erased_key key ≡ false
    → get_meta_in key (filter (λ m. not (erased_key m.partition_key)) ms) ≡ get_meta_in key ms
unfolding get_meta_in find_meta
get_meta_in-filter erased_key key [] h = refl
get_meta_in-filter erased_key key (m ∷ ms) h =
    let rest = get_meta_in-filter erased_key key ms h in
    elim (Bool-cases (str_eq m.partition_key key)) [
      | inl this ↦
          let same : m.partition_key ≡ key = ground (arith, eq_iff m.partition_key key) in
          let stays : erased_key m.partition_key ≡ false = ap erased_key same ∙ h in
          rw stays (ground arith)
      | inr other ↦ elim (Bool-cases (erased_key m.partition_key)) [
        | inl gone ↦ rw gone (ground (arith, rest))
        | inr stays ↦ rw stays (ground (arith, rest))
      ]
    ]

-- In a store whose identifiers are distinct, a search in the partition finds what the store holds.
pub partition-find :
    (key : String) (test : OutboxOperation → Bool) (ops : List OutboxOperation)
    (p : OutboxOperation)
    → IsOrdered ops
    → find test (filter (λ op. str_eq op.partition_key key) ops) ≡ some p
    → find_operation p.client_operation_id ops ≡ some p
unfolding find_operation
partition-find key test [] p ordered h = cc
partition-find key test (x ∷ xs) p (first, ordered) h =
    elim (Bool-cases (str_eq x.partition_key key && test x)) [
      | inl this ↦
          let same : x ≡ p = ground arith in
          ground (arith, eq_iff x.client_operation_id p.client_operation_id)
      | inr other ↦
          let later = partition-find key test xs p ordered (ground arith) in
          let apart = (All-find (Precedes x) p.client_operation_id xs p later first).0.distinct in
          ground (arith, later, apart, eq_iff x.client_operation_id p.client_operation_id)
    ]
