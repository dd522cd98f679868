-- ===== src/Offline/Numbering.antt =====
-- The identifiers and the sequence numbers of the outbox, and what an effect does to them.
use royalvibe_cosmetic.Common.{
  ◌+◌, ◌<◌, ◌≡◌, ◌≢◌, inl, inr, String, false, ◌&&◌, some, List, [], ◌∷◌, any, arith, str_eq, ltb,
  eq_iff, All, All-imp, Bool-cases, if◌then◌else◌,
}
use royalvibe_cosmetic.Offline.Outbox.{
  OutboxOperation, Outbox, find_operation, insert_operation, same_key, partition_key_of,
}
use royalvibe_cosmetic.Offline.Actions.{uses_partition}
use royalvibe_cosmetic.Offline.Effects.{
  SameSale, Rewrites, finished, kept, lost, IsSynced, next_seq, All-Rewrites, SameSale-refl,
}

-- Different identifiers, and in one partition a lower number.
pub record Precedes (x y : OutboxOperation) : Type 0 where
  pub distinct : y.client_operation_id ≢ x.client_operation_id
  pub in_order : y.partition_key ≡ x.partition_key → x.seq < y.seq

abbrev pub IsOrdered : List OutboxOperation → Type 0
IsOrdered [] = Unit
IsOrdered (x ∷ xs) = All (Precedes x) xs × IsOrdered xs

-- An operation is fresh: no other has its identifier, and those of its partition have lower numbers.
abbrev pub IsBefore : OutboxOperation → OutboxOperation → Type 0
IsBefore op x = Precedes x op

module _ {κ} (P : OutboxOperation → Type κ) where
  pub All-insert :
      (op : OutboxOperation) (xs : List OutboxOperation)
      → P op
      → All P xs
      → All P (insert_operation op xs)
  unfolding insert_operation
  All-insert op [] p all = (p, tt)
  All-insert op (x ∷ xs) p (a, all) =
      elim (Bool-cases (str_eq x.partition_key op.partition_key && ltb op.seq x.seq)) [
        | inl here ↦ rw here (p, (a, all))
        | inr later ↦ rw later (a, All-insert op xs p all)
      ]

  pub All-find :
      (id : String) (xs : List OutboxOperation) (p : OutboxOperation)
      → find_operation id xs ≡ some p
      → All P xs
      → P p × (p.client_operation_id ≡ id)
  unfolding find_operation
  All-find id [] p h all = cc
  All-find id (x ∷ xs) p h (a, all) = elim (Bool-cases (str_eq x.client_operation_id id)) [
    | inl this ↦
        let same : x ≡ p = ground arith in
        (rw (← same) a, ground (arith, eq_iff x.client_operation_id id))
    | inr other ↦ All-find id xs p (ground arith) all
  ]

pub IsOrdered-insert :
    (op : OutboxOperation) (xs : List OutboxOperation)
    → All (IsBefore op) xs
    → IsOrdered xs
    → IsOrdered (insert_operation op xs)
unfolding insert_operation
IsOrdered-insert op [] all h = (tt, tt)
IsOrdered-insert op (x ∷ xs) (a, all) (first, h) =
    let no : (str_eq x.partition_key op.partition_key && ltb op.seq x.seq) ≡ false = ground (
      arith,
      eq_iff x.partition_key op.partition_key,
      eq_iff op.partition_key x.partition_key,
      a.in_order,
    ) in
    rw no (All-insert (Precedes x) op xs a first, IsOrdered-insert op xs all h)

module _ (Lost : OutboxOperation → Type 0) where
  Precedes-SameSale :
      (x x' y y' : OutboxOperation) → SameSale x x' → SameSale y y' → Precedes x y → Precedes x' y'
  Precedes-SameSale x x' y y' h k p = record {
    distinct = λ e. p.distinct (ground arith);
    in_order = λ e. let less = p.in_order (ground arith) in ground (arith, less);
  }

  pub IsOrdered-Rewrites :
      {xs ys : List OutboxOperation} → Rewrites Lost xs ys → IsOrdered xs → IsOrdered ys
  IsOrdered-Rewrites finished h = tt
  IsOrdered-Rewrites (kept {x = x} {y = x'} same rest) (first, h) = (
    All-Rewrites Lost (Precedes x')
        (λ y y' s p. Precedes-SameSale x' x' y y' (SameSale-refl x') s p) rest
        (All-imp (λ y p. Precedes-SameSale x x' y y same (SameSale-refl y) p) _ first),
    IsOrdered-Rewrites rest h,
  )
  IsOrdered-Rewrites (lost gone rest) (first, h) = IsOrdered-Rewrites rest h

pub same_key-any :
    (op : OutboxOperation) (xs : List OutboxOperation)
    → any (same_key op) xs ≡ false
    → All (λ x. op.client_operation_id ≢ x.client_operation_id) xs
same_key-any op [] h = tt
same_key-any op (x ∷ xs) h = (
  λ e. ground (arith, eq_iff x.client_operation_id op.client_operation_id),
  same_key-any op xs (ground arith),
)

-- `IsUser` holds of the identifiers of users.
module _ (IsUser : String → Type 0) where
  pub record IsKeyed (op : OutboxOperation) : Type 0 where
    pub of_user : IsUser op.user_id
    pub has_key : op.partition_key ≡ partition_key_of op.user_id op.organization_id

  pub record IsNumbered (o : Outbox) : Type 0 where
    pub ordered : IsOrdered o.operations
    pub below : All (λ x. x.seq < next_seq x.partition_key o) o.operations
    pub keyed : All IsKeyed o.operations

  -- What one transaction does.
  pub data Effect (o o' : Outbox) : Type 0 where
    written :
        Rewrites IsSynced o.operations o'.operations
        → ((key : String) → next_seq key o' ≡ next_seq key o)
        → Effect o o'
    added :
        (op : OutboxOperation)
        → IsKeyed op
        → any (same_key op) o.operations ≡ false
        → op.seq ≡ next_seq op.partition_key o
        → Rewrites IsSynced (insert_operation op o.operations) o'.operations
        → ((key : String)
            → next_seq key o'
              ≡ (if str_eq op.partition_key key then next_seq key o + 1 else next_seq key o))
        → Effect o o'
    erased :
        (user_id : String)
        → Rewrites (λ op. op.user_id ≡ user_id) o.operations o'.operations
        → All (λ op. op.user_id ≢ user_id) o'.operations
        → ((key : String)
            → uses_partition user_id o.operations key ≡ false
            → next_seq key o' ≡ next_seq key o)
        → Effect o o'
