-- ===== src/Offline/Trace.antt =====
-- The transactions of web/src/lib/offline-sales-outbox-db.ts as a step relation, in any order and of
-- any tab, and what every sequence of them keeps.
use royalvibe_cosmetic.Common.{ℕ, ◌≡◌, ◌≢◌, subst, String, Bool, Option, some, All}
use royalvibe_cosmetic.Offline.Policy.{OutboxStatus}
use royalvibe_cosmetic.Offline.Outbox.{OutboxOperation, Outbox, Blocked, Identity, find_operation}
use royalvibe_cosmetic.Offline.Transactions.{
  prepare_partition, Patch, update_operation, set_partition_blocked,
}
use royalvibe_cosmetic.Offline.Enqueue.{EnqueueParams, enqueue_offline_sale}
use royalvibe_cosmetic.Offline.Actions.{
  OperationAction, clear_subscription_block, try_acquire_lease, release_lease,
  apply_operation_action, delete_user_operations, expedite_partition,
}
use royalvibe_cosmetic.Offline.Effects.{SameSale}
use royalvibe_cosmetic.Offline.Numbering.{IsNumbered, Effect}
use royalvibe_cosmetic.Offline.Invariant.{Separates, Effect-IsNumbered}
use royalvibe_cosmetic.Offline.Steps.{
  set_partition_blocked-Effect, try_acquire_lease-Effect, release_lease-Effect,
  update_operation-Effect, prepare_partition-Effect,
}
use royalvibe_cosmetic.Offline.UserSteps.{
  clear_subscription_block-Effect, apply_operation_action-Effect, expedite_partition-Effect,
  delete_user_operations-Effect,
}
use royalvibe_cosmetic.Offline.EnqueueSteps.{enqueue_offline_sale-Effect}

module _ (IsUser : String → Type 0) where
  pub data Step (o o' : Outbox) : Type 0 where
    enqueuing :
        (available commits : Bool) (verified : Option Identity) (params : EnqueueParams)
        (id : String) (now : ℕ)
        → IsUser params.session.user_id
        → (enqueue_offline_sale available commits verified params id now o).1 ≡ o'
        → Step o o'
    preparing : (key : String) (now : ℕ) → prepare_partition key now o ≡ o' → Step o o'
    updating :
        (id key : String) (patch : Patch) (now : ℕ)
        → (update_operation id key patch now o).1 ≡ o'
        → Step o o'
    blocking :
        (key : String) (blocked : Option Blocked)
        → set_partition_blocked key blocked o ≡ o'
        → Step o o'
    clearing :
        (available may_exist commits : Bool) (verified : Option Identity) (params : Identity)
        → (clear_subscription_block available may_exist commits verified params o).1 ≡ o'
        → Step o o'
    acquiring :
        (key owner : String) (now duration_ms : ℕ)
        → (try_acquire_lease key owner now duration_ms o).1 ≡ o'
        → Step o o'
    releasing : (key owner : String) → release_lease key owner o ≡ o' → Step o o'
    acting :
        (commits : Bool) (verified : Option Identity) (params : Identity) (id : String)
        (action : OperationAction) (now : ℕ)
        → (apply_operation_action commits verified params id action now o).1 ≡ o'
        → Step o o'
    expediting :
        (commits : Bool) (verified : Option Identity) (params : Identity) (now : ℕ)
        → (expedite_partition commits verified params now o).1 ≡ o'
        → Step o o'
    erasing :
        (available commits timely : Bool) (user_id : String)
        → (delete_user_operations available commits timely user_id o).1 ≡ o'
        → Step o o'

  pub data Reach (o : Outbox) : Outbox → Type 0 where
    here : Reach o o
    next : {o1 o2 : Outbox} → Reach o o1 → Step o1 o2 → Reach o o2

  pub Reach-trans : {o1 o2 o3 : Outbox} → Reach o1 o2 → Reach o2 o3 → Reach o1 o3
  Reach-trans r here = r
  Reach-trans r (next s step) = next (Reach-trans r s) step

  pub Step-Effect : (o o' : Outbox) → Step o o' → IsNumbered IsUser o → Effect IsUser o o'
  Step-Effect o o' (enqueuing available commits verified params id now user e) n =
      subst (Effect IsUser o) e
        (enqueue_offline_sale-Effect IsUser available commits verified params id now o n user)
  Step-Effect o o' (preparing key now e) n =
      subst (Effect IsUser o) e (prepare_partition-Effect IsUser key now o)
  Step-Effect o o' (updating id key patch now e) n =
      subst (Effect IsUser o) e (update_operation-Effect IsUser id key patch now o)
  Step-Effect o o' (blocking key blocked e) n =
      subst (Effect IsUser o) e (set_partition_blocked-Effect IsUser key blocked o)
  Step-Effect o o' (clearing available may_exist commits verified params e) n =
      subst (Effect IsUser o) e
        (clear_subscription_block-Effect IsUser available may_exist commits verified params o)
  Step-Effect o o' (acquiring key owner now duration_ms e) n =
      subst (Effect IsUser o) e (try_acquire_lease-Effect IsUser key owner now duration_ms o)
  Step-Effect o o' (releasing key owner e) n =
      subst (Effect IsUser o) e (release_lease-Effect IsUser key owner o)
  Step-Effect o o' (acting commits verified params id action now e) n =
      subst (Effect IsUser o) e
        (apply_operation_action-Effect IsUser commits verified params id action now o)
  Step-Effect o o' (expediting commits verified params now e) n =
      subst (Effect IsUser o) e (expedite_partition-Effect IsUser commits verified params now o)
  Step-Effect o o' (erasing available commits timely user_id e) n =
      subst (Effect IsUser o) e
        (delete_user_operations-Effect IsUser available commits timely user_id o)

  -- Some store on the way recorded the operation as synchronized, or had nothing of its user.
  pub data Settled (p : OutboxOperation) (o : Outbox) : Type 0 where
    sent :
        (m : Outbox) (q : OutboxOperation)
        → Reach o m
        → find_operation p.client_operation_id m.operations ≡ some q
        → SameSale p q
        → q.status ≡ OutboxStatus.synced
        → Settled p o
    user_left :
        (m : Outbox) → Reach o m → All (λ op. op.user_id ≢ p.user_id) m.operations → Settled p o

module _ (IsUser : String → Type 0) (separates : Separates IsUser) where
  -- From an outbox in this order, as the empty one is, and whatever transactions of whatever tabs run:
  -- the identifiers in the outbox are distinct, the sequence numbers of a partition increase strictly
  -- in the order of its index and stay below the next one to be given, and every operation lies in
  -- the partition of its user and organization. The key of a partition determines the user, as it
  -- does for the identifiers that the server gives.
  pub Reach-IsNumbered :
      (o : Outbox) {o' : Outbox} → Reach IsUser o o' → IsNumbered IsUser o → IsNumbered IsUser o'
  Reach-IsNumbered o here n = n
  Reach-IsNumbered o {o'} (next {o1} r step) n =
      let before = Reach-IsNumbered o r n in
      Effect-IsNumbered IsUser separates o1 o' (Step-Effect IsUser o1 o' step before) before
