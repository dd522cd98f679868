-- ===== src/Offline/Limit.antt =====
-- The limit of a partition: enqueueOfflineSale of web/src/lib/offline-sales-outbox-db.ts.
use royalvibe_cosmetic.Common.{
  ℕ, ◌≡◌, ◌≢◌, ◌≤◌, ◌<◌, ◌+◌, refl, sym, subst, String, Bool, true, false, ◌&&◌, Option, none, some,
  List, [], ◌∷◌, Bool-cases, Option-cases, inl, inr, filter, find, any, total, arith, str_eq,
  eq_iff, leb, if◌then◌else◌,
}
use royalvibe_cosmetic.Offline.Policy.{
  unfinalized, allowed_operation_actions, outbox_max_unfinalized_per_partition,
}
use royalvibe_cosmetic.Offline.Outbox.{
  OutboxOperation, Outbox, Identity, find_operation, insert_operation, add_operation, same_key,
  get_partition_ops, get_meta_in, policy_view, with_tx, verified_partition,
}
use royalvibe_cosmetic.Offline.Enqueue.{
  EnqueueParams, EnqueueResult, new_operation, find_replaced, may_replace, is_operation,
  count_unfinalized, abandon, put_replaced, enqueue_tx, enqueue_offline_sale, is_valid_payload,
}
use royalvibe_cosmetic.Offline.Effects.{find-insert}
use royalvibe_cosmetic.Offline.Numbering.{All-find, IsOrdered, IsNumbered, same_key-any}
use royalvibe_cosmetic.Offline.Rewritten.{partition-find}
use royalvibe_cosmetic.Offline.Measure.{total-put_operation}

-- What one operation counts for in a partition.
unfoldable burden : String → OutboxOperation → ℕ
burden key op = if str_eq op.partition_key key && unfinalized op.status then 1 else 0

abbrev load : String → List OutboxOperation → ℕ
load key ops = count_unfinalized none (filter (λ op. str_eq op.partition_key key) ops)

load-total : (key : String) (ops : List OutboxOperation) → load key ops ≡ total (burden key) ops
unfolding count_unfinalized burden
load-total key [] = refl
load-total key (x ∷ xs) = let rest = load-total key xs in ground (arith, rest)

total-insert_operation :
    (f : OutboxOperation → ℕ) (op : OutboxOperation) (ops : List OutboxOperation)
    → total f (insert_operation op ops) ≡ total f ops + f op
unfolding insert_operation
total-insert_operation f op [] = omega arith
total-insert_operation f op (x ∷ ops) =
    let rest = total-insert_operation f op ops in ground (arith, rest)

-- What may be corrected is in conflict, which counts.
edit_counts :
    (p : OutboxOperation)
    → (allowed_operation_actions (policy_view p)).edit ≡ true
    → unfinalized p.status ≡ true
unfolding allowed_operation_actions
edit_counts p h = ground arith

find-partition :
    (key : String) (test : OutboxOperation → Bool) (ops : List OutboxOperation)
    (p : OutboxOperation)
    → find test (filter (λ op. str_eq op.partition_key key) ops) ≡ some p
    → p.partition_key ≡ key
find-partition key test [] p h = cc
find-partition key test (x ∷ xs) p h =
    let rest = find-partition key test xs p in ground (arith, rest, eq_iff x.partition_key key)

-- The operation that is replaced was stored in the partition and counted there.
record IsReplaced (key : String) (ops : List OutboxOperation) (p : OutboxOperation) : Type 0 where
  stored : find_operation p.client_operation_id ops ≡ some p
  in_partition : p.partition_key ≡ key
  counts : unfinalized p.status ≡ true

find_replaced-IsReplaced :
    (key : String) (replaces : Option String) (ops : List OutboxOperation) (p : OutboxOperation)
    → IsOrdered ops
    → find_replaced replaces (filter (λ op. str_eq op.partition_key key) ops) ≡ some p
    → may_replace replaces (some p) ≡ true
    → IsReplaced key ops p
unfolding find_replaced
find_replaced-IsReplaced key none ops p ordered h may = cc
find_replaced-IsReplaced key (some id) ops p ordered h may = elim (Bool-cases (str_eq id "")) [
  | inl no_id ↦ ground arith
  | inr given ↦
      let found : find (is_operation id) (filter (λ op. str_eq op.partition_key key) ops) ≡ some p =
        ground arith in
      record {
        stored = partition-find key (is_operation id) ops p ordered found;
        in_partition = find-partition key (is_operation id) ops p found;
        counts = edit_counts p may;
      }
]

-- The addition of an operation, and the abandon of the one that it replaces.
added-total :
    (k : String) (now : ℕ) (op : OutboxOperation) (replaced : Option OutboxOperation)
    (ops : List OutboxOperation)
    → any (same_key op) ops ≡ false
    → ((p : OutboxOperation) → replaced ≡ some p → IsReplaced op.partition_key ops p)
    → (replaced ≡ none
        → op.partition_key ≡ k
        → total (burden k) ops < outbox_max_unfinalized_per_partition)
    → total (burden k) ops ≤ outbox_max_unfinalized_per_partition
    → total (burden k) (put_replaced now replaced (insert_operation op ops))
      ≤ outbox_max_unfinalized_per_partition
unfolding burden
added-total k now op none ops fresh was room below =
    let grown = total-insert_operation (burden k) op ops in
    ground (arith, grown, room refl, below, eq_iff op.partition_key k)
added-total k now op (some p) ops fresh was room below =
    let r = was p refl in
    let apart =
      All-find (λ x. op.client_operation_id ≢ x.client_operation_id) p.client_operation_id ops p
        r.stored (same_key-any op ops fresh) in
    let still = find-insert p.client_operation_id op ops p r.stored apart.0 in
    let grown = total-insert_operation (burden k) op ops in
    let less = total-put_operation (burden k) (abandon now p) p (insert_operation op ops) still in
    ground (
      arith,
      grown,
      less,
      below,
      r.in_partition,
      r.counts,
      eq_iff op.partition_key k,
      eq_iff p.partition_key k,
    )

abbrev IsLimited : String → Outbox → Type 0
IsLimited k o = total (burden k) o.operations ≤ outbox_max_unfinalized_per_partition

-- The test of the limit.
room_left :
    (key k : String) (o : Outbox) (replaced : Option OutboxOperation)
    → replaced ≡ none
    → key ≡ k
    → leb outbox_max_unfinalized_per_partition
        (count_unfinalized replaced (get_partition_ops key o))
      ≡ false
    → total (burden k) o.operations < outbox_max_unfinalized_per_partition
unfolding get_partition_ops
room_left key k o replaced no_one same room =
    let fits : leb outbox_max_unfinalized_per_partition (load k o.operations) ≡ false =
      subst
        (λ x.
          leb outbox_max_unfinalized_per_partition
            (count_unfinalized none (filter (λ op. str_eq op.partition_key x) o.operations))
          ≡ false)
        same
        (subst
          (λ x.
            leb outbox_max_unfinalized_per_partition
              (count_unfinalized x (filter (λ op. str_eq op.partition_key key) o.operations))
            ≡ false)
          no_one room) in
    ground (arith, fits, load-total k o.operations)

enqueue_tx-IsLimited :
    (key k : String) (params : EnqueueParams) (id : String) (now : ℕ) (o : Outbox)
    (r : EnqueueResult × Outbox)
    → IsOrdered o.operations
    → IsLimited k o
    → enqueue_tx key params id now o ≡ some r
    → IsLimited k r.1
unfolding enqueue_tx add_operation get_partition_ops
enqueue_tx-IsLimited key k params id now o r ordered below h =
    let ops = get_partition_ops key o in
    let replaced = find_replaced params.replaces ops in
    let op = new_operation key params id now (get_meta_in key o.metas).next_seq in
    let stays = (λ (same : o ≡ r.1). subst (IsLimited k) same below) in
    elim (Bool-cases (may_replace params.replaces replaced)) [
      | inr refused ↦ stays (ground arith)
      | inl allowed ↦
          elim (Bool-cases
            (leb outbox_max_unfinalized_per_partition (count_unfinalized replaced ops))) [
              | inl full ↦ stays (ground arith)
              | inr room ↦ elim (Bool-cases (any (same_key op) o.operations)) [
                | inl taken ↦ ground arith
                | inr fresh ↦
                    let same : put_replaced now replaced (insert_operation op o.operations)
                        ≡ r.1.operations =
                      ground arith in
                    subst (λ x. total (burden k) x ≤ outbox_max_unfinalized_per_partition) same
                      (added-total k now op replaced o.operations fresh
                        (λ p e.
                          find_replaced-IsReplaced key params.replaces o.operations p ordered e
                            (subst (λ x. may_replace params.replaces x ≡ true) e allowed))
                        (λ e at_key. room_left key k o replaced e at_key room) below)
              ]
            ]
    ]

committed-IsLimited :
    (commits : Bool) (body : Outbox → Option (EnqueueResult × Outbox)) (k : String) (o : Outbox)
    → IsLimited k o
    → ((r : EnqueueResult × Outbox) → body o ≡ some r → IsLimited k r.1)
    → IsLimited k (with_tx commits EnqueueResult.unavailable body o).1
unfolding with_tx
committed-IsLimited true body k o below each = elim (Option-cases (body o)) [
  | inl stops ↦ rw stops below
  | inr (r, goes) ↦ rw goes (each r goes)
]
committed-IsLimited false body k o below each = below

enqueue-IsLimited :
    (k : String) (available commits : Bool) (verified : Option Identity) (params : EnqueueParams)
    (id : String) (now : ℕ) (o : Outbox)
    → IsOrdered o.operations
    → IsLimited k o
    → IsLimited k (enqueue_offline_sale available commits verified params id now o).1
unfolding enqueue_offline_sale with_tx
enqueue-IsLimited k false commits verified params id now o ordered below = below
enqueue-IsLimited k true commits verified params id now o ordered below =
    elim (Bool-cases (is_valid_payload params.payload)) [
      | inr bad ↦ rw (enqueue_offline_sale, bad) below
      | inl good ↦ elim (Option-cases (verified_partition verified params.session)) [
        | inl nobody ↦ rw (enqueue_offline_sale, good, nobody) below
        | inr (key, known) ↦
            rw (enqueue_offline_sale, good, known)
              (committed-IsLimited commits (enqueue_tx key params id now) k o below
                (λ r h. enqueue_tx-IsLimited key k params id now o r ordered below h))
      ]
    ]

-- To an outbox in order, an addition takes no partition above the limit of 200 operations that are not
-- finalized, whatever its outcome and whether it corrects a sale or not.
pub enqueue_offline_sale-IsLimited :
    (IsUser : String → Type 0) (k : String) (available commits : Bool) (verified : Option Identity)
    (params : EnqueueParams) (id : String) (now : ℕ) (o : Outbox)
    → IsNumbered IsUser o
    → count_unfinalized none (get_partition_ops k o) ≤ outbox_max_unfinalized_per_partition
    → count_unfinalized none
        (get_partition_ops k (enqueue_offline_sale available commits verified params id now o).1)
      ≤ outbox_max_unfinalized_per_partition
unfolding get_partition_ops
enqueue_offline_sale-IsLimited IsUser k available commits verified params id now o n below =
    let o' = (enqueue_offline_sale available commits verified params id now o).1 in
    let before =
      subst (λ x. x ≤ outbox_max_unfinalized_per_partition) (load-total k o.operations) below in
    subst (λ x. x ≤ outbox_max_unfinalized_per_partition) (sym (load-total k o'.operations))
      (enqueue-IsLimited k available commits verified params id now o n.ordered before)
