-- ===== src/Storage/CycleConsistency.antt =====
-- Every transaction of the upload cycle in api/src/storage-quota/storage-quota.service.ts keeps the
-- counters equal to the sums over the registry.
use royalvibe_cosmetic.Common.{
  ℕ, ◌≡◌, ◌≢◌, refl, String, Bool, true, not, ◌&&◌, Option, none, some, ◌∷◌, str_eq, or_else, arith,
  Bool-cases, Option-cases, inl, inr,
}
use royalvibe_cosmetic.Common.Dict.{lookup}
use royalvibe_cosmetic.Storage.Model.{
  State, reserved, uploaded, attached, deleting, is_reserved, is_uploaded, is_attached, is_deleting,
  state_eq, StoredObject, StagedObject, StoredObjectRef, World, Config, ok, Cleanup, deleted,
  delete_stored_object, stored_object_id, same_storage, is_referenced, lease_from_now,
}
use royalvibe_cosmetic.Storage.Registry.{
  find_object, update_object, erase_object, find_object_sound, any_state,
}
use royalvibe_cosmetic.Storage.Cycle.{
  usage_of, inc_usage, reserve_inc, release_inc, reserve, set_state, reserved_entry, delete, fits,
  create_object, mark_uploaded, abandon_reservation, attach, detach, release, delete_detached,
  discard_tx, Decision, discard_after, discard, settle, reserve_tx,
}
use royalvibe_cosmetic.Storage.Accounting.{IsConsistent}
use royalvibe_cosmetic.Storage.Preserve.{
  erase-IsConsistent_stored, erase-IsConsistent_reserved, store-IsConsistent, update-IsConsistent,
  if-IsConsistent, ensure_usage-IsConsistent, inc_usage-objects, objects-inc_usage,
  cons-IsConsistent_reserved, lookup-ensure_usage,
}

-- Releasing an entry, in whichever state it is expected, takes its bytes and its object out of the
-- counter that held them; a release that finds nothing changes nothing.
pub release-IsConsistent :
    (id : String) (expected : State) {w : World}
    → IsConsistent w
    → IsConsistent (release id expected w).0
unfolding release
release-IsConsistent id expected {w} c =
    elim (Option-cases (find_object id (state_eq expected) w.objects)) [
      | inl missing ↦ rw (missing, release) c
      | inr (e, found) ↦
          rw (found, release)
            (by_state expected e found
              (find_object_sound id (state_eq expected) w.objects e found).1)
    ]
  where
    by_state :
        (s : State) (e : StoredObject)
        → find_object id (state_eq s) w.objects ≡ some e
        → state_eq s e.state ≡ true
        → IsConsistent (
            inc_usage e.organization_id
              (release_inc s e.bytes)
              (record w { objects = erase_object id (state_eq s) w.objects }))
    by_state reserved e found t = erase-IsConsistent_reserved id is_reserved c e found t
    by_state uploaded e found t = erase-IsConsistent_stored id is_uploaded c e found (ground arith)
    by_state attached e found t = erase-IsConsistent_stored id is_attached c e found (ground arith)
    by_state deleting e found t = erase-IsConsistent_stored id is_deleting c e found (ground arith)

-- The reserved entry of a staged file is the one that its own reservation wrote.
abbrev pub IsGenuine : StagedObject → World → Type 0
IsGenuine staged w =
    (e : StoredObject)
    → find_object staged.id is_reserved w.objects ≡ some e
    → (e.organization_id ≡ staged.organization_id) × (e.bytes ≡ staged.bytes)

pub mark_uploaded-IsConsistent :
    (c : Config) (now : ℕ) (staged : StagedObject) {w : World}
    → IsConsistent w
    → IsGenuine staged w
    → IsConsistent (mark_uploaded c now staged w).0
unfolding mark_uploaded
mark_uploaded-IsConsistent c now staged {w} h g =
    elim (Option-cases (find_object staged.id is_reserved w.objects)) [
      | inl missing ↦ rw (missing, mark_uploaded) h
      | inr (e, found) ↦
          rw (found, mark_uploaded, ← (g e found).0, ← (g e found).1)
            (store-IsConsistent staged.id is_reserved h e found _
              (find_object_sound staged.id is_reserved w.objects e found).1 refl refl refl)
    ]

pub abandon_reservation-IsConsistent :
    (c : Config) (now : ℕ) (staged : StagedObject) {w : World}
    → IsConsistent w
    → IsConsistent (abandon_reservation c now staged w)
unfolding abandon_reservation
abandon_reservation-IsConsistent c now staged h =
    update-IsConsistent staged.id is_reserved _ h (λ e r. (refl, refl, refl))

pub attach-IsConsistent :
    (staged : StagedObject) {w w' : World}
    → IsConsistent w
    → attach staged w ≡ ok w'
    → IsConsistent w'
unfolding attach
attach-IsConsistent staged {w} {w'} h e =
    elim (Option-cases (find_object staged.id is_uploaded w.objects)) [
      | inl missing ↦ ground arith
      | inr (x, found) ↦
          let same : record w {
            objects = update_object staged.id is_uploaded (set_state attached none) w.objects;
          }
              ≡ w' =
            ground arith in
          rw (← same) (update-IsConsistent staged.id is_uploaded _ h (λ x u. ground arith))
    ]

pub detach-IsConsistent :
    (c : Config) (now : ℕ) (org : String) (ref : Option StoredObjectRef) {w : World}
    → IsConsistent w
    → IsConsistent (detach c now org ref w)
unfolding detach
detach-IsConsistent c now org none h = h
detach-IsConsistent c now org (some ref) {w} h =
    if-IsConsistent (same_storage c.storage ref.storage)
      (elim (Option-cases (find_object id is_attached w.objects)) [
        | inl missing ↦ rw missing h
        | inr (e, found) ↦ rw found (
            if-IsConsistent (str_eq e.organization_id org)
              (update-IsConsistent id is_attached _ h (λ x a. ground arith)) h)
      ])
      h
  where
    id : String
    id = stored_object_id (or_else ref.storage "") ref.key

pub settle-IsConsistent :
    (id : String) (available : Bool) (cleanup : Cleanup) {w : World}
    → IsConsistent w
    → IsConsistent (settle id available cleanup w)
unfolding settle
settle-IsConsistent id available deleted h =
    if-IsConsistent available (release-IsConsistent id deleting h) h
settle-IsConsistent id available _ h = h

pub delete_detached-IsConsistent :
    (c : Config) (ref : Option StoredObjectRef) (prefix : String) (sent available : Bool)
    {w : World}
    → IsConsistent w
    → IsConsistent (delete_detached c ref prefix sent available w).0
unfolding delete_detached
delete_detached-IsConsistent c none prefix sent available h = h
delete_detached-IsConsistent c (some ref) prefix sent available h =
    settle-IsConsistent _ available (delete_stored_object c (some ref) prefix sent) h

discard_tx-IsConsistent :
    (c : Config) (now : ℕ) (staged : StagedObject) {w : World}
    → IsConsistent w
    → IsConsistent (discard_tx c now staged w).0
unfolding discard_tx
discard_tx-IsConsistent c now staged {w} h =
    elim (Bool-cases (is_referenced w staged.kind staged.organization_id staged.key)) [
      | inl used ↦
          rw (used, discard_tx)
            (update-IsConsistent staged.id is_uploaded _ h (λ x u. ground arith))
      | inr free ↦ elim (Option-cases (find_object staged.id is_uploaded w.objects)) [
        | inl missing ↦ rw (free, missing, discard_tx) h
        | inr (e, found) ↦
            rw (free, found, discard_tx)
              (update-IsConsistent staged.id is_uploaded _ h (λ x u. ground arith))
      ]
    ]

discard_after-IsConsistent :
    (c : Config) (staged : StagedObject) (sent available : Bool) (d : Decision) {w : World}
    → IsConsistent w
    → IsConsistent (discard_after c staged sent available d w)
unfolding discard_after
discard_after-IsConsistent c staged sent available delete h =
    delete_detached-IsConsistent c _ _ sent available h
discard_after-IsConsistent c staged sent available _ h = h

pub discard-IsConsistent :
    (c : Config) (now : ℕ) (staged : StagedObject) (sent available : Bool) {w : World}
    → IsConsistent w
    → IsConsistent (discard c now staged sent available w)
unfolding discard
discard-IsConsistent c now staged sent available {w} h =
    discard_after-IsConsistent c staged sent available (discard_tx c now staged w).1
      (discard_tx-IsConsistent c now staged h)

-- With the counter in place, a reservation that is granted keeps the agreement.
reserve_tx-IsConsistent :
    (c : Config) (now : ℕ) (staged : StagedObject) {w w' : World} {done : Bool}
    → IsConsistent w
    → lookup staged.organization_id w.usages ≢ none
    → reserve_tx c now staged w ≡ ok (w', done)
    → IsConsistent w'
unfolding reserve_tx create_object inc_usage
reserve_tx-IsConsistent c now staged {w} {w'} h present e =
    let entry = reserved_entry staged (lease_from_now c now) in
    let w1 = inc_usage staged.organization_id (reserve_inc staged.bytes) w in
    elim (Bool-cases (c.enforce && not (fits c (usage_of staged.organization_id w) staged.bytes))) [
      | inl refused ↦ let same : w ≡ w' = ground arith in rw (← same) h
      | inr allowed ↦ elim (Option-cases (find_object staged.id any_state w1.objects)) [
        | inr (x, taken) ↦ ground arith
        | inl fresh ↦
            let same : record w1 { objects = entry ∷ w1.objects } ≡ w' = ground arith in
            rw (← same, inc_usage-objects, objects-inc_usage)
              (cons-IsConsistent_reserved entry h present refl)
      ]
    ]

pub reserve-IsConsistent :
    (c : Config) (now : ℕ) (staged : StagedObject) {w w' : World} {done : Bool}
    → IsConsistent w
    → reserve c now staged w ≡ ok (w', done)
    → IsConsistent w'
unfolding reserve
reserve-IsConsistent c now staged {w} h e =
    reserve_tx-IsConsistent c now staged (ensure_usage-IsConsistent staged.organization_id h)
      (lookup-ensure_usage staged.organization_id w) e
