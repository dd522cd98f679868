-- ===== src/Offline/UserSteps.antt =====
-- What the user does to the outbox has one of the effects: web/src/lib/offline-sales-outbox-db.ts.
use royalvibe_cosmetic.Common.{
  ℕ, ◌≡◌, refl, inl, inr, ap, ◌∙◌, String, Bool, true, false, ◌&&◌, Option, none, some, arith,
  str_eq, Bool-cases, Option-cases,
}
use royalvibe_cosmetic.Offline.Policy.{allowed_operation_actions}
use royalvibe_cosmetic.Offline.Outbox.{
  Outbox, Identity, find_operation, partition_key_of, get_meta_in, with_tx, verified_partition,
  policy_view,
}
use royalvibe_cosmetic.Offline.Actions.{
  OperationAction, allows, clear_block_tx, clear_subscription_block, acted, action_tx,
  apply_operation_action, uses_partition, delete_user_tx, delete_user_operations, expedite,
  expedite_tx, expedite_partition, is_subscription, reason_of,
}
use royalvibe_cosmetic.Offline.Effects.{IsSynced, next_seq, Rewrites-put, find_operation-id}
use royalvibe_cosmetic.Offline.Numbering.{Effect, written, erased}
use royalvibe_cosmetic.Offline.Steps.{get_meta_in-partition_key, Effect-skip, put_meta-Effect}
use royalvibe_cosmetic.Offline.Rewritten.{
  acted-SameSale, lift_corruption-next_seq, expedite-SameSale, map-Rewrites, filter-Rewrites,
  filter-other, get_meta_in-filter,
}

pub verified_partition-key :
    (verified : Option Identity) (params : Identity) (key : String)
    → verified_partition verified params ≡ some key
    → key ≡ partition_key_of params.user_id params.organization_id
unfolding verified_partition
verified_partition-key none params key h = cc
verified_partition-key (some identity) params key h = ground arith

module _ (IsUser : String → Type 0) where
  clear_block_tx-Effect : (key : String) (o : Outbox) → Effect IsUser o (clear_block_tx key o).1
  unfolding clear_block_tx next_seq
  clear_block_tx-Effect key o =
      elim (Bool-cases (is_subscription (reason_of (get_meta_in key o.metas).blocked))) [
        | inl commercial ↦
            rw (clear_block_tx, commercial)
              (put_meta-Effect IsUser key (record (get_meta_in key o.metas) { blocked = none }) o
                (get_meta_in-partition_key key o.metas) refl)
        | inr other ↦ rw (clear_block_tx, other) (Effect-skip IsUser o)
      ]

  -- A transaction of one partition whose body does not throw.
  whole_tx-Effect :
      (commits : Bool) (body : Outbox → Bool × Outbox) (o : Outbox)
      → Effect IsUser o (body o).1
      → Effect IsUser o (with_tx commits false (λ o. some (body o)) o).1
  unfolding with_tx
  whole_tx-Effect true body o e = e
  whole_tx-Effect false body o e = Effect-skip IsUser o

  pub clear_subscription_block-Effect :
      (available may_exist commits : Bool) (verified : Option Identity) (params : Identity)
      (o : Outbox)
      → Effect IsUser o (clear_subscription_block available may_exist commits verified params o).1
  unfolding clear_subscription_block
  clear_subscription_block-Effect false may_exist commits verified params o = Effect-skip IsUser o
  clear_subscription_block-Effect true false commits verified params o =
      elim (Option-cases (verified_partition verified params)) [
        | inl nobody ↦ rw (clear_subscription_block, nobody) (Effect-skip IsUser o)
        | inr (key, known) ↦ rw (clear_subscription_block, known) (Effect-skip IsUser o)
      ]
  clear_subscription_block-Effect true true commits verified params o =
      elim (Option-cases (verified_partition verified params)) [
        | inl nobody ↦ rw (clear_subscription_block, nobody) (Effect-skip IsUser o)
        | inr (key, known) ↦
            rw (clear_subscription_block, known)
              (whole_tx-Effect commits (clear_block_tx key) o (clear_block_tx-Effect key o))
      ]

  action_tx-Effect :
      (key id : String) (action : OperationAction) (now : ℕ) (o : Outbox)
      → Effect IsUser o (action_tx key id action now o).1
  unfolding action_tx next_seq
  action_tx-Effect key id action now o = elim (Option-cases (find_operation id o.operations)) [
    | inl missing ↦ rw (action_tx, missing) (Effect-skip IsUser o)
    | inr (op, found) ↦
        elim (Bool-cases (
          str_eq op.partition_key key
          && allows action (allowed_operation_actions (policy_view op)))) [
            | inl allowed ↦
                let same = find_operation-id id o.operations op found in
                let still = acted-SameSale action now op in
                rw (action_tx, found, allowed)
                  (written
                    (Rewrites-put IsSynced (acted action now op) op o.operations
                      (ap (λ x. find_operation x o.operations) (still.same_id ∙ same) ∙ found)
                      still)
                    (λ k. lift_corruption-next_seq action key k o))
            | inr refused ↦ rw (action_tx, found, refused) (Effect-skip IsUser o)
          ]
  ]

  pub apply_operation_action-Effect :
      (commits : Bool) (verified : Option Identity) (params : Identity) (id : String)
      (action : OperationAction) (now : ℕ) (o : Outbox)
      → Effect IsUser o (apply_operation_action commits verified params id action now o).1
  unfolding apply_operation_action
  apply_operation_action-Effect commits verified params id action now o =
      elim (Option-cases (verified_partition verified params)) [
        | inl nobody ↦ rw (apply_operation_action, nobody) (Effect-skip IsUser o)
        | inr (key, known) ↦
            rw (apply_operation_action, known)
              (whole_tx-Effect commits (action_tx key id action now) o
                (action_tx-Effect key id action now o))
      ]

  pub expedite_partition-Effect :
      (commits : Bool) (verified : Option Identity) (params : Identity) (now : ℕ) (o : Outbox)
      → Effect IsUser o (expedite_partition commits verified params now o).1
  unfolding expedite_partition expedite_tx next_seq
  expedite_partition-Effect commits verified params now o =
      elim (Option-cases (verified_partition verified params)) [
        | inl nobody ↦ rw (expedite_partition, nobody) (Effect-skip IsUser o)
        | inr (key, known) ↦
            rw (expedite_partition, known)
              (whole_tx-Effect commits (expedite_tx key now) o (
                written (map-Rewrites (expedite key now) o.operations (expedite-SameSale key now))
                  (λ k. refl)))
      ]

  pub delete_user_operations-Effect :
      (available commits timely : Bool) (user_id : String) (o : Outbox)
      → Effect IsUser o (delete_user_operations available commits timely user_id o).1
  unfolding delete_user_operations delete_user_tx next_seq
  delete_user_operations-Effect false commits timely user_id o = Effect-skip IsUser o
  delete_user_operations-Effect true commits timely user_id o =
      whole_tx-Effect commits (delete_user_tx user_id) o (
        erased user_id (filter-Rewrites user_id o.operations) (filter-other user_id o.operations)
          (λ key unused.
            ap (λ m. m.next_seq)
              (get_meta_in-filter (uses_partition user_id o.operations) key o.metas unused)))
