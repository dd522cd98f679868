-- ===== src/Offline/EnqueueSteps.antt =====
-- The addition of a sale has one of the effects: enqueueOfflineSale of web/src/lib/offline-sales-outbox-db.ts.
use royalvibe_cosmetic.Common.{
  ℕ, ◌+◌, ◌≡◌, ◌≢◌, refl, subst, inl, inr, ap, String, Bool, true, false, Option, none, some, List,
  any, arith, str_eq, leb, eq_iff, Bool-cases, Option-cases, if◌then◌else◌,
}
use royalvibe_cosmetic.Offline.Policy.{outbox_max_unfinalized_per_partition}
use royalvibe_cosmetic.Offline.Outbox.{
  OutboxOperation, Outbox, Identity, find_operation, insert_operation, add_operation, same_key,
  partition_key_of, put_meta, get_meta_in, verified_partition, get_partition_ops,
}
use royalvibe_cosmetic.Offline.Enqueue.{
  EnqueueParams, EnqueueResult, enqueue_tx, enqueue_offline_sale, new_operation, find_replaced,
  may_replace, count_unfinalized, put_replaced, abandon, is_valid_payload, is_operation,
}
use royalvibe_cosmetic.Offline.Effects.{
  Rewrites, IsSynced, next_seq, Rewrites-refl, Rewrites-put, find-insert,
}
use royalvibe_cosmetic.Offline.Numbering.{
  IsOrdered, All-find, IsNumbered, Effect, added, same_key-any,
}
use royalvibe_cosmetic.Offline.Steps.{
  get_meta_in-partition_key, get_meta_in-put_meta, Effect-skip, with_tx-Effect,
}
use royalvibe_cosmetic.Offline.Rewritten.{partition-find}
use royalvibe_cosmetic.Offline.UserSteps.{verified_partition-key}

module _ (IsUser : String → Type 0) where
  replaced-find :
      (key : String) (replaces : Option String) (o : Outbox) (p : OutboxOperation)
      → IsOrdered o.operations
      → find_replaced replaces (get_partition_ops key o) ≡ some p
      → find_operation p.client_operation_id o.operations ≡ some p
  unfolding find_replaced get_partition_ops
  replaced-find key none o p ordered h = cc
  replaced-find key (some id) o p ordered h = elim (Bool-cases (str_eq id "")) [
    | inl no_id ↦ ground arith
    | inr given ↦ partition-find key (is_operation id) o.operations p ordered (ground arith)
  ]

  -- The operation that is replaced is another one, and is rewritten.
  put_replaced-Rewrites :
      (now : ℕ) (replaced : Option OutboxOperation) (op : OutboxOperation)
      (ops : List OutboxOperation)
      → ((p : OutboxOperation)
          → replaced ≡ some p
          → find_operation p.client_operation_id ops ≡ some p)
      → any (same_key op) ops ≡ false
      → Rewrites IsSynced
          (insert_operation op ops)
          (put_replaced now replaced (insert_operation op ops))
  put_replaced-Rewrites now none op ops found fresh = Rewrites-refl IsSynced _
  put_replaced-Rewrites now (some p) op ops found fresh =
      let here = found p refl in
      let apart =
        All-find (λ x. op.client_operation_id ≢ x.client_operation_id) p.client_operation_id ops p
          here (same_key-any op ops fresh) in
      Rewrites-put IsSynced (abandon now p) p (insert_operation op ops)
        (find-insert p.client_operation_id op ops p here apart.0) (ground arith)

  -- The counter of the partition advances by one, and no other does.
  put_meta-counted :
      (key k : String) (o : Outbox) (ops : List OutboxOperation)
      → next_seq k (record {
        operations = ops;
        metas =
            put_meta (record (get_meta_in key o.metas) { next_seq = next_seq key o + 1 }) o.metas;
      })
        ≡ (if str_eq key k then next_seq k o + 1 else next_seq k o)
  unfolding next_seq
  put_meta-counted key k o ops =
      let m = (record (get_meta_in key o.metas) { next_seq = next_seq key o + 1 }) in
      let found = get_meta_in-put_meta k m o.metas in
      let named = get_meta_in-partition_key key o.metas in
      elim (Bool-cases (str_eq key k)) [
        | inl this ↦
            let same : key ≡ k = ground (arith, eq_iff key k) in
            rw (next_seq, found, named, this) (ap (λ x. (get_meta_in x o.metas).next_seq + 1) same)
        | inr other ↦ rw (next_seq, found, named, other) refl
      ]

  -- The sale is added, and the one that it replaces is abandoned.
  added-Effect :
      (key : String) (params : EnqueueParams) (id : String) (now : ℕ) (o : Outbox)
      → IsNumbered IsUser o
      → IsUser params.session.user_id
      → key ≡ partition_key_of params.session.user_id params.session.organization_id
      → any (same_key (new_operation key params id now (next_seq key o))) o.operations ≡ false
      → Effect IsUser o (record {
        operations =
            put_replaced now
              (find_replaced params.replaces (get_partition_ops key o))
              (insert_operation (new_operation key params id now (next_seq key o)) o.operations);
        metas =
            put_meta (record (get_meta_in key o.metas) { next_seq = next_seq key o + 1 }) o.metas;
      })
  unfolding new_operation
  added-Effect key params id now o n user named fresh =
      let op = new_operation key params id now (next_seq key o) in
      let replaced = find_replaced params.replaces (get_partition_ops key o) in
      added op (record { of_user = user; has_key = named }) fresh refl
        (put_replaced-Rewrites now replaced op o.operations
          (λ p h. replaced-find key params.replaces o p n.ordered h) fresh)
        (λ k. put_meta-counted key k o _)

  enqueue_tx-Effect :
      (key : String) (params : EnqueueParams) (id : String) (now : ℕ) (o : Outbox)
      (r : EnqueueResult × Outbox)
      → IsNumbered IsUser o
      → IsUser params.session.user_id
      → key ≡ partition_key_of params.session.user_id params.session.organization_id
      → enqueue_tx key params id now o ≡ some r
      → Effect IsUser o r.1
  unfolding enqueue_tx add_operation next_seq
  enqueue_tx-Effect key params id now o r n user named h =
      let ops = get_partition_ops key o in
      let replaced = find_replaced params.replaces ops in
      let op = new_operation key params id now (next_seq key o) in
      elim (Bool-cases (may_replace params.replaces replaced)) [
        | inr refused ↦
            let same : o ≡ r.1 = ground arith in
            subst (λ x. Effect IsUser o x) same (Effect-skip IsUser o)
        | inl allowed ↦
            elim (Bool-cases
              (leb outbox_max_unfinalized_per_partition (count_unfinalized replaced ops))) [
                | inl full ↦
                    let same : o ≡ r.1 = ground arith in
                    subst (λ x. Effect IsUser o x) same (Effect-skip IsUser o)
                | inr room ↦ elim (Bool-cases (any (same_key op) o.operations)) [
                  | inl taken ↦ ground arith
                  | inr fresh ↦
                      let same : (record {
                        operations = put_replaced now replaced (insert_operation op o.operations);
                        metas =
                            put_meta
                              (record (get_meta_in key o.metas) { next_seq = next_seq key o + 1 })
                              o.metas;
                      })
                          ≡ r.1 =
                        ground arith in
                      subst (λ x. Effect IsUser o x) same
                        (added-Effect key params id now o n user named fresh)
                ]
              ]
      ]

  pub enqueue_offline_sale-Effect :
      (available commits : Bool) (verified : Option Identity) (params : EnqueueParams) (id : String)
      (now : ℕ) (o : Outbox)
      → IsNumbered IsUser o
      → IsUser params.session.user_id
      → Effect IsUser o (enqueue_offline_sale available commits verified params id now o).1
  unfolding enqueue_offline_sale
  enqueue_offline_sale-Effect false commits verified params id now o n user = Effect-skip IsUser o
  enqueue_offline_sale-Effect true commits verified params id now o n user =
      elim (Bool-cases (is_valid_payload params.payload)) [
        | inr bad ↦ rw (enqueue_offline_sale, bad) (Effect-skip IsUser o)
        | inl good ↦ elim (Option-cases (verified_partition verified params.session)) [
          | inl nobody ↦ rw (enqueue_offline_sale, good, nobody) (Effect-skip IsUser o)
          | inr (key, known) ↦
              rw (enqueue_offline_sale, good, known)
                (with_tx-Effect IsUser commits EnqueueResult.unavailable
                  (enqueue_tx key params id now) o
                  (λ r h.
                    enqueue_tx-Effect key params id now o r n user
                      (verified_partition-key verified params.session key known) h))
        ]
      ]
