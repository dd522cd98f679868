-- ===== src/Offline/Effects.antt =====
-- What one transaction may do to the two object stores of the outbox.
use royalvibe_cosmetic.Common.{
  ℕ, ◌≡◌, ◌≢◌, refl, ◌⊎◌, inl, inr, String, some, List, [], ◌∷◌, arith, str_eq, eq_iff, All,
  Bool-cases, if◌then◌else◌,
}
use royalvibe_cosmetic.Offline.Policy.{OutboxStatus}
use royalvibe_cosmetic.Offline.Outbox.{
  OutboxOperation, OutboxPartitionMeta, Outbox, find_operation, put_operation, insert_operation,
  find_meta, put_meta, get_meta_in,
}

-- What is frozen when the sale is recorded.
pub record SameSale (p q : OutboxOperation) : Type 0 where
  pub same_schema : q.schema_version ≡ p.schema_version
  pub same_id : q.client_operation_id ≡ p.client_operation_id
  pub same_partition : q.partition_key ≡ p.partition_key
  pub same_user : q.user_id ≡ p.user_id
  pub same_organization : q.organization_id ≡ p.organization_id
  pub same_seq : q.seq ≡ p.seq
  pub same_payload : q.payload ≡ p.payload
  pub same_display : q.display ≡ p.display
  pub same_created : q.created_at ≡ p.created_at

pub SameSale-refl : (p : OutboxOperation) → SameSale p p
SameSale-refl p = ground arith

pub SameSale-trans : {p q r : OutboxOperation} → SameSale p q → SameSale q r → SameSale p r
SameSale-trans h k = ground arith

-- Every operation is rewritten under its key or lost, and an operation that is lost satisfies `Lost`.
pub data Rewrites (Lost : OutboxOperation → Type 0)
    : List OutboxOperation → List OutboxOperation → Type 0 where
  finished : Rewrites Lost [] []
  kept :
      {x y : OutboxOperation} {xs ys : List OutboxOperation}
      → SameSale x y
      → Rewrites Lost xs ys
      → Rewrites Lost (x ∷ xs) (y ∷ ys)
  lost :
      {x : OutboxOperation} {xs ys : List OutboxOperation}
      → Lost x
      → Rewrites Lost xs ys
      → Rewrites Lost (x ∷ xs) ys

abbrev pub IsSynced : OutboxOperation → Type 0
IsSynced op = op.status ≡ OutboxStatus.synced

unfoldable pub next_seq : String → Outbox → ℕ
next_seq key o = (get_meta_in key o.metas).next_seq

module _ (Lost : OutboxOperation → Type 0) where
  pub Rewrites-refl : (ops : List OutboxOperation) → Rewrites Lost ops ops
  Rewrites-refl [] = finished
  Rewrites-refl (op ∷ ops) = kept (SameSale-refl op) (Rewrites-refl ops)

  pub Rewrites-put :
      (q p : OutboxOperation) (ops : List OutboxOperation)
      → find_operation q.client_operation_id ops ≡ some p
      → SameSale p q
      → Rewrites Lost ops (put_operation q ops)
  unfolding put_operation find_operation
  Rewrites-put q p [] h same = finished
  Rewrites-put q p (x ∷ ops) h same =
      elim (Bool-cases (str_eq x.client_operation_id q.client_operation_id)) [
        | inl this ↦
            let here : x ≡ p = ground arith in rw this (kept (ground arith) (Rewrites-refl ops))
        | inr other ↦ rw other (kept (SameSale-refl x) (Rewrites-put q p ops (ground arith) same))
      ]

  module _ {κ} (P : OutboxOperation → Type κ) where
    -- What depends on the frozen part alone.
    pub All-Rewrites :
        ((x y : OutboxOperation) → SameSale x y → P x → P y)
        → {xs ys : List OutboxOperation} → Rewrites Lost xs ys
        → All P xs
        → All P ys
    All-Rewrites step finished all = tt
    All-Rewrites step (kept {x} {y} same rest) (a, all) =
        (step x y same a, All-Rewrites step rest all)
    All-Rewrites step (lost gone rest) (a, all) = All-Rewrites step rest all

  -- An operation that is found is still found, with the same sale, or it was lost.
  pub find-Rewrites :
      (id : String) {xs ys : List OutboxOperation} (p : OutboxOperation)
      → Rewrites Lost xs ys
      → find_operation id xs ≡ some p
      → (Lost p) ⊎ ((q : OutboxOperation) × (find_operation id ys ≡ some q) × SameSale p q)
  unfolding find_operation
  find-Rewrites id p finished h = cc
  find-Rewrites id p (kept {x} {y} same rest) h =
      elim (Bool-cases (str_eq x.client_operation_id id)) [
        | inl this ↦ let here : x ≡ p = ground arith in inr (y, ground arith, rw (← here) same)
        | inr other ↦ elim (find-Rewrites id p rest (ground arith)) [
          | inl gone ↦ inl gone
          | inr (q, found, still) ↦ inr (q, ground arith, still)
        ]
      ]
  find-Rewrites id p (lost {x} gone rest) h = elim (Bool-cases (str_eq x.client_operation_id id)) [
    | inl this ↦ let here : x ≡ p = ground arith in inl (rw (← here) gone)
    | inr other ↦ find-Rewrites id p rest (ground arith)
  ]

pub find_operation-id :
    (id : String) (ops : List OutboxOperation) (p : OutboxOperation)
    → find_operation id ops ≡ some p
    → p.client_operation_id ≡ id
unfolding find_operation
find_operation-id id [] p h = cc
find_operation-id id (x ∷ ops) p h =
    ground (arith, eq_iff x.client_operation_id id, find_operation-id id ops p)

pub find-insert :
    (id : String) (op : OutboxOperation) (ops : List OutboxOperation) (p : OutboxOperation)
    → find_operation id ops ≡ some p
    → op.client_operation_id ≢ id
    → find_operation id (insert_operation op ops) ≡ some p
unfolding find_operation insert_operation
find-insert id op [] p h other = cc
find-insert id op (x ∷ ops) p h other =
    let later = find-insert id op ops p in ground (arith, later, eq_iff op.client_operation_id id)

pub find_meta-put_meta :
    (key : String) (m : OutboxPartitionMeta) (ms : List OutboxPartitionMeta)
    → find_meta key (put_meta m ms)
      ≡ (if str_eq m.partition_key key then some m else find_meta key ms)
unfolding find_meta put_meta
find_meta-put_meta key m [] = refl
find_meta-put_meta key m (x ∷ ms) =
    let later = find_meta-put_meta key m ms in
    ground (
      arith,
      later,
      eq_iff x.partition_key m.partition_key,
      eq_iff x.partition_key key,
      eq_iff m.partition_key key,
    )
