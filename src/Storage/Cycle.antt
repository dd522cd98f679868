-- ===== src/Storage/Cycle.antt =====
-- The cycle of an upload in api/src/storage-quota/storage-quota.service.ts. Each definition is one
-- transaction, or the composition of those that the service makes; `now` is the clock's answer.
use royalvibe_cosmetic.Common.{
  ℕ, ◌+◌, String, Bool, true, false, not, ◌&&◌, Option, none, some, ◌∷◌, str_eq, leb, if◌then◌else◌,
  or_else,
}
use royalvibe_cosmetic.Common.Int.{pos, neg, ◌+ℤ◌, pos_part, neg_part}
use royalvibe_cosmetic.Common.Dict.{lookup, insert}
use royalvibe_cosmetic.Storage.Model.{
  State, reserved, uploaded, attached, deleting, upload, is_reserved, is_uploaded, is_attached,
  state_eq, StoredObject, StagedObject, StoredObjectRef, Usage, zero_usage, add_usage, World,
  Config, duplicate_key, interrupted, Result, ok, err, lease_from_now, prefix_for_kind,
  is_referenced, same_storage, Cleanup, deleted, delete_stored_object, stored_object_id,
}
use royalvibe_cosmetic.Storage.Registry.{find_object, update_object, erase_object, any_state}

-- A missing counter reads as zero.
abbrev pub usage_of : String → World → Usage
usage_of org w = or_else (lookup org w.usages) zero_usage

-- `updateOne({ _id: org }, { $setOnInsert: zeroUsage() }, { upsert: true })`
unfoldable pub ensure_usage : String → World → World
ensure_usage org w = elim (lookup org w.usages) [
  | none ↦ record w { usages = insert org zero_usage w.usages }
  | some _ ↦ w
]

-- `updateOne({ _id: org }, { $inc: d })`: without a counter nothing is written.
unfoldable pub inc_usage : String → Usage → World → World
inc_usage org d w = elim (lookup org w.usages) [
  | none ↦ w
  | some u ↦ record w { usages = insert org (add_usage u d) w.usages }
]

-- The four increments of the service.
abbrev pub reserve_inc : ℕ → Usage
reserve_inc b = record zero_usage { reserved_bytes = pos b; reserved_objects = pos 1 }

abbrev pub store_inc : ℕ → Usage
store_inc b = record {
  stored_bytes = pos b;
  stored_objects = pos 1;
  reserved_bytes = neg b;
  reserved_objects = neg 1;
}

abbrev pub count_inc : ℕ → Usage
count_inc b = record zero_usage { stored_bytes = pos b; stored_objects = pos 1 }

abbrev pub release_inc : State → ℕ → Usage
release_inc expected b =
    if is_reserved expected
    then record zero_usage { reserved_bytes = neg b; reserved_objects = neg 1 }
    else record zero_usage { stored_bytes = neg b; stored_objects = neg 1 }

-- `objects.create`: the `_id` is unique.
unfoldable pub create_object : StoredObject → World → Result World
create_object e w = elim (find_object e.id any_state w.objects) [
  | none ↦ ok (record w { objects = e ∷ w.objects })
  | some _ ↦ err duplicate_key
]

abbrev pub set_state : State → Option ℕ → StoredObject → StoredObject
set_state s lease e = record e { state = s; lease_until = lease }

abbrev pub reserved_entry : StagedObject → ℕ → StoredObject
reserved_entry staged lease = record {
  id = staged.id;
  organization_id = staged.organization_id;
  storage = staged.storage;
  key = staged.key;
  kind = staged.kind;
  bytes = staged.bytes;
  state = reserved;
  lease_until = some lease;
  attempts = 0;
  source = upload;
}

-- `stored + reserved + bytes ≤ quota`
abbrev pub fits : Config → Usage → ℕ → Bool
fits c u b =
    let sum = u.stored_bytes +ℤ u.reserved_bytes +ℤ pos b in
    leb (pos_part sum) (c.quota_bytes + neg_part sum)

-- The transaction of `reserve`: the guarded increment, then the entry. A duplicate `_id` undoes it.
unfoldable pub reserve_tx : Config → ℕ → StagedObject → World → Result (World × Bool)
reserve_tx c now staged w =
    if c.enforce && not (fits c (usage_of staged.organization_id w) staged.bytes)
    then ok (w, false)
    else elim (create_object (reserved_entry staged (lease_from_now c now))
        (inc_usage staged.organization_id (reserve_inc staged.bytes) w)) [
          | ok w' ↦ ok (w', true)
          | err e ↦ err e
        ]

unfoldable pub reserve : Config → ℕ → StagedObject → World → Result (World × Bool)
unfolding reserve_tx
reserve c now staged w = reserve_tx c now staged (ensure_usage staged.organization_id w)

unfoldable pub mark_uploaded : Config → ℕ → StagedObject → World → World × Bool
mark_uploaded c now staged w = elim (find_object staged.id is_reserved w.objects) [
  | none ↦ (w, false)
  | some _ ↦ (
    inc_usage staged.organization_id (store_inc staged.bytes) (record w {
      objects =
          update_object staged.id is_reserved (set_state uploaded (some (lease_from_now c now)))
            w.objects;
    }),
    true,
  )
]

-- The write of `abandonReservation`; the deletion that follows changes no counter.
unfoldable pub abandon_reservation : Config → ℕ → StagedObject → World → World
abandon_reservation c now staged w = record w {
  objects =
      update_object staged.id is_reserved
        (λ e. record e { lease_until = some (lease_from_now c now) }) w.objects;
}

unfoldable pub attach : StagedObject → World → Result World
attach staged w = elim (find_object staged.id is_uploaded w.objects) [
  | none ↦ err interrupted
  | some _ ↦ ok (record w {
    objects = update_object staged.id is_uploaded (set_state attached none) w.objects;
  })
]

-- The filter of `detach` also compares the organization, which stays the test's argument here.
unfoldable pub detach : Config → ℕ → String → Option StoredObjectRef → World → World
detach c now org none w = w
detach c now org (some ref) w =
    let id = stored_object_id (or_else ref.storage "") ref.key in
    if same_storage c.storage ref.storage
    then elim (find_object id is_attached w.objects) [
      | none ↦ w
      | some e ↦
          if str_eq e.organization_id org
          then record w {
            objects =
                update_object id is_attached (set_state deleting (some (lease_from_now c now)))
                  w.objects;
          }
          else w
    ]
    else w

unfoldable pub release : String → State → World → World × Bool
release id expected w = elim (find_object id (state_eq expected) w.objects) [
  | none ↦ (w, false)
  | some e ↦ (
    inc_usage e.organization_id (release_inc expected e.bytes)
        (record w { objects = erase_object id (state_eq expected) w.objects }),
    true,
  )
]

-- After the deletion: the release, if it is confirmed and the database takes it.
unfoldable pub settle : String → Bool → Cleanup → World → World
settle id available deleted w = if available then (release id deleting w).0 else w
settle id available _ w = w

-- `sent`: the storage accepted the deletion; `available`: the release reached the database.
unfoldable pub delete_detached :
    Config → Option StoredObjectRef → String → Bool → Bool → World → World × Cleanup
unfolding settle
delete_detached c none prefix sent available w = (w, delete_stored_object c none prefix sent)
delete_detached c (some ref) prefix sent available w =
    let cleanup = delete_stored_object c (some ref) prefix sent in
    (settle (stored_object_id (or_else ref.storage "") ref.key) available cleanup w, cleanup)

pub data Decision : Type 0 where
  kept delete skip : Decision

-- The transaction of `discard`.
unfoldable pub discard_tx : Config → ℕ → StagedObject → World → World × Decision
discard_tx c now staged w =
    if is_referenced w staged.kind staged.organization_id staged.key
    then (
      record w {
        objects = update_object staged.id is_uploaded (set_state attached none) w.objects;
      },
      kept,
    )
    else elim (find_object staged.id is_uploaded w.objects) [
      | none ↦ (w, skip)
      | some _ ↦ (
        record w {
          objects =
              update_object staged.id is_uploaded (set_state deleting (some (lease_from_now c now)))
                w.objects;
        },
        delete,
      )
    ]

-- What `discard` does after its transaction.
unfoldable pub discard_after : Config → StagedObject → Bool → Bool → Decision → World → World
discard_after c staged sent available delete w =
    (delete_detached c (some (record { key = staged.key; storage = some staged.storage }))
      (prefix_for_kind staged.kind staged.organization_id) sent available w).0
discard_after c staged sent available _ w = w

unfoldable pub discard : Config → ℕ → StagedObject → Bool → Bool → World → World
unfolding discard_tx discard_after
discard c now staged sent available w =
    let (w', decision) = discard_tx c now staged w in
    discard_after c staged sent available decision w'
