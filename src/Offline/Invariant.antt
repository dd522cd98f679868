-- ===== src/Offline/Invariant.antt =====
-- The numbering of the outbox is kept by every effect, and what becomes of one operation.
use royalvibe_cosmetic.Common.{
  ◌<◌, ◌≡◌, ◌≢◌, refl, sym, subst, inl, inr, ◌∙◌, String, false, ◌&&◌, some, List, [], ◌∷◌, arith,
  str_eq, eq_iff, All, All-imp, Bool-cases,
}
use royalvibe_cosmetic.Offline.Outbox.{OutboxOperation, Outbox, find_operation, partition_key_of}
use royalvibe_cosmetic.Offline.Actions.{uses_partition}
use royalvibe_cosmetic.Offline.Effects.{
  SameSale, IsSynced, next_seq, All-Rewrites, find-Rewrites, find-insert,
}
use royalvibe_cosmetic.Offline.Numbering.{
  IsBefore, All-insert, All-find, IsOrdered-insert, IsOrdered-Rewrites, same_key-any, IsKeyed,
  IsNumbered, Effect, written, added, erased,
}

module _ {κ ι} (P : OutboxOperation → Type κ) (Q : OutboxOperation → Type ι) where
  All-both : (xs : List OutboxOperation) → All P xs → All Q xs → All (λ x. P x × Q x) xs
  All-both [] h k = tt
  All-both (x ∷ xs) (p, h) (q, k) = ((p, q), All-both xs h k)

-- The part of a partition's key before the organization names the user.
abbrev pub Separates : (String → Type 0) → Type 0
Separates IsUser =
    (u v a b : String) → IsUser u → IsUser v → partition_key_of u a ≡ partition_key_of v b → u ≡ v

module _ (IsUser : String → Type 0) (separates : Separates IsUser) where
  unused :
      (u : String) (y : OutboxOperation) (xs : List OutboxOperation)
      → IsKeyed IsUser y
      → y.user_id ≢ u
      → All (IsKeyed IsUser) xs
      → uses_partition u xs y.partition_key ≡ false
  unfolding uses_partition
  unused u y [] k other all = refl
  unused u y (x ∷ xs) k other (a, all) =
      elim (Bool-cases (str_eq x.user_id u && str_eq x.partition_key y.partition_key)) [
        | inl both ↦
            let same : x.partition_key ≡ y.partition_key =
              ground (arith, eq_iff x.partition_key y.partition_key) in
            let user : x.user_id ≡ u = ground (arith, eq_iff x.user_id u) in
            let one : x.user_id ≡ y.user_id =
              separates x.user_id y.user_id x.organization_id y.organization_id a.of_user k.of_user
                (sym a.has_key ∙ same ∙ k.has_key) in
            absurd (other (sym one ∙ user))
        | inr differs ↦ rw differs (unused u y xs k other all)
      ]

  IsKeyed-SameSale : (x y : OutboxOperation) → SameSale x y → IsKeyed IsUser x → IsKeyed IsUser y
  IsKeyed-SameSale x y s k = record {
    of_user = rw s.same_user k.of_user;
    has_key = rw (s.same_partition, s.same_user, s.same_organization) k.has_key;
  }

  -- The bound on the numbers, for a rewriting that keeps the counters.
  below-SameSale :
      (o : Outbox) (x y : OutboxOperation)
      → SameSale x y
      → x.seq < next_seq x.partition_key o
      → y.seq < next_seq y.partition_key o
  below-SameSale o x y s h = rw (s.same_partition, s.same_seq) h

  is_before :
      (o : Outbox) (op x : OutboxOperation)
      → op.seq ≡ next_seq op.partition_key o
      → (x.seq < next_seq x.partition_key o) × (op.client_operation_id ≢ x.client_operation_id)
      → IsBefore op x
  is_before o op x number (less, other) = record {
    distinct = other;
    in_order = λ e. rw number (subst (λ k. x.seq < next_seq k o) (sym e) less);
  }

  pub Effect-IsNumbered :
      (o o' : Outbox) → Effect IsUser o o' → IsNumbered IsUser o → IsNumbered IsUser o'
  Effect-IsNumbered o o' (written r same) n = record {
    ordered = IsOrdered-Rewrites IsSynced r n.ordered;
    below =
        All-imp (λ x h. rw (same x.partition_key) h) _
          (All-Rewrites IsSynced _ (below-SameSale o) r n.below);
    keyed = All-Rewrites IsSynced (IsKeyed IsUser) IsKeyed-SameSale r n.keyed;
  }
  Effect-IsNumbered o o' (added op k fresh number r counted) n =
      let others = All-both _ _ o.operations n.below (same_key-any op o.operations fresh) in
      let before : All (IsBefore op) o.operations =
        All-imp (λ x h. is_before o op x number h) _ others in
      record {
        ordered = IsOrdered-Rewrites IsSynced r (IsOrdered-insert op o.operations before n.ordered);
        below = All-Rewrites IsSynced _ (below-SameSale o') r (
            All-insert (λ x. x.seq < next_seq x.partition_key o') op o.operations
              (rw (counted op.partition_key)
                (ground (arith, eq_iff op.partition_key op.partition_key)))
              (All-imp (λ x h. rw (counted x.partition_key) (ground arith)) _ n.below));
        keyed =
            All-Rewrites IsSynced (IsKeyed IsUser) IsKeyed-SameSale r
              (All-insert (IsKeyed IsUser) op o.operations k n.keyed);
      }
  Effect-IsNumbered o o' (erased u r others same) n =
      let Lost : OutboxOperation → Type 0 = (λ op. op.user_id ≡ u) in
      let Other : OutboxOperation → Type 0 = (λ op. op.user_id ≢ u) in
      let Below : OutboxOperation → Type 0 = (λ x. x.seq < next_seq x.partition_key o) in
      let Rest : OutboxOperation → Type 0 = (λ x. Other x × Below x) in
      let keyed = All-Rewrites Lost (IsKeyed IsUser) IsKeyed-SameSale r n.keyed in
      let below = All-Rewrites Lost Below (below-SameSale o) r n.below in
      record {
        ordered = IsOrdered-Rewrites Lost r n.ordered;
        below =
            All-imp {P = λ x. IsKeyed IsUser x × Rest x}
              (λ x h. rw (same x.partition_key (unused u x o.operations h.0 h.1.0 n.keyed)) h.1.1) _
              (All-both (IsKeyed IsUser) Rest o'.operations keyed
                (All-both Other Below o'.operations others below));
        keyed = keyed;
      }

  -- What becomes of an operation: it is there with the same sale, or it was recorded, or erased.
  pub data Fate (p : OutboxOperation) (o' : Outbox) : Type 0 where
    there :
        (q : OutboxOperation)
        → find_operation p.client_operation_id o'.operations ≡ some q
        → SameSale p q
        → Fate p o'
    recorded : IsSynced p → Fate p o'
    user_erased : All (λ op. op.user_id ≢ p.user_id) o'.operations → Fate p o'

  pub Effect-Fate :
      (o o' : Outbox) (p : OutboxOperation)
      → Effect IsUser o o'
      → find_operation p.client_operation_id o.operations ≡ some p
      → Fate p o'
  Effect-Fate o o' p (written r same) h =
      elim (find-Rewrites IsSynced p.client_operation_id p r h) [
        | inl done ↦ recorded done
        | inr (q, found, still) ↦ there q found still
      ]
  Effect-Fate o o' p (added op k fresh number r counted) h =
      let other =
        All-find (λ x. op.client_operation_id ≢ x.client_operation_id) p.client_operation_id
          o.operations p h (same_key-any op o.operations fresh) in
      let found = find-insert p.client_operation_id op o.operations p h other.0 in
      elim (find-Rewrites IsSynced p.client_operation_id p r found) [
        | inl done ↦ recorded done
        | inr (q, found, still) ↦ there q found still
      ]
  Effect-Fate o o' p (erased u r others same) h =
      elim (find-Rewrites (λ op. op.user_id ≡ u) p.client_operation_id p r h) [
        | inl user ↦ user_erased (rw user others)
        | inr (q, found, still) ↦ there q found still
      ]
