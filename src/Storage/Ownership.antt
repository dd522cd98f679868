-- ===== src/Storage/Ownership.antt =====
-- Each transaction of api/src/storage-quota/storage-quota.service.ts leaves the reserved entries to
-- the files that reserved them.
use royalvibe_cosmetic.Common.{
  ℕ, ◌≡◌, refl, String, Bool, true, false, ◌&&◌, Option, none, some, List, [], ◌∷◌, str_eq,
  if◌then◌else◌, or_else, arith, Bool-cases, Option-cases, inl, inr, All,
}
use royalvibe_cosmetic.Storage.Model.{
  State, uploaded, attached, deleting, is_reserved, is_uploaded, is_attached, state_eq,
  StoredObject, StagedObject, StoredObjectRef, Usage, World, Config, ok, Cleanup, deleted,
  delete_stored_object, stored_object_id, same_storage, is_referenced, lease_from_now,
}
use royalvibe_cosmetic.Storage.Registry.{find_object, update_object, erase_object}
use royalvibe_cosmetic.Storage.Cycle.{
  ensure_usage, inc_usage, release_inc, store_inc, mark_uploaded, abandon_reservation, attach,
  detach, release, settle, delete_detached, discard_tx, set_state,
}
use royalvibe_cosmetic.Storage.Recovery.{postpone, recovered, recover_tx}
use royalvibe_cosmetic.Storage.Reconcile.{recompute, detach_orphan}
use royalvibe_cosmetic.Storage.Preserve.{objects-inc_usage, objects-ensure_usage}
use royalvibe_cosmetic.Storage.Recount.{objects-recompute}

-- `issued` gives the file that an identifier was generated for: a key is generated once.
module _ (issued : String → StagedObject) where
  abbrev pub IsOwned : StoredObject → Type 0
  IsOwned e =
      is_reserved e.state ≡ true
      → (e.organization_id ≡ (issued e.id).organization_id) × (e.bytes ≡ (issued e.id).bytes)

  pub record AllOwned (w : World) : Type 0 where
    pub entries : All IsOwned w.objects

  update-IsOwned :
      (id : String) (test : State → Bool) (f : StoredObject → StoredObject) (es : List StoredObject)
      → ((e : StoredObject) → IsOwned e → IsOwned (f e))
      → All IsOwned es
      → All IsOwned (update_object id test f es)
  unfolding update_object
  update-IsOwned id test f [] tame h = tt
  update-IsOwned id test f (e ∷ es) tame (o, h) =
      elim (Bool-cases (str_eq e.id id && test e.state)) [
        | inl here ↦ rw here (tame e o, h)
        | inr away ↦ rw away (o, update-IsOwned id test f es tame h)
      ]

  erase-IsOwned :
      (id : String) (test : State → Bool) (es : List StoredObject)
      → All IsOwned es
      → All IsOwned (erase_object id test es)
  unfolding erase_object
  erase-IsOwned id test [] h = tt
  erase-IsOwned id test (e ∷ es) (o, h) = elim (Bool-cases (str_eq e.id id && test e.state)) [
    | inl here ↦ rw here h
    | inr away ↦ rw away (o, erase-IsOwned id test es h)
  ]

  pub find-IsOwned :
      (id : String) (test : State → Bool) (es : List StoredObject) (e : StoredObject)
      → All IsOwned es
      → find_object id test es ≡ some e
      → IsOwned e
  unfolding find_object
  find-IsOwned id test [] e h found = cc
  find-IsOwned id test (x ∷ es) e (o, h) found =
      elim (Bool-cases (str_eq x.id id && test x.state)) [
        | inl here ↦ let same : x ≡ e = ground arith in rw (← same) o
        | inr away ↦ find-IsOwned id test es e h (ground arith)
      ]

  -- The entry stops being reserved.
  set_state-IsOwned :
      (s : State) (lease : Option ℕ)
      → is_reserved s ≡ false
      → (e : StoredObject) → IsOwned e
      → IsOwned (set_state s lease e)
  set_state-IsOwned s lease stored e o r = cc

  recovered-IsOwned :
      (c : Config) (now : ℕ) (referenced : Bool) (e : StoredObject)
      → IsOwned e
      → IsOwned (recovered c now referenced e)
  recovered-IsOwned c now referenced e o r = ground arith

  module _ {w : World} (h : AllOwned w) where
    pub ensure_usage-AllOwned : (o : String) → AllOwned (ensure_usage o w)
    ensure_usage-AllOwned o = record { entries = rw (objects-ensure_usage o w) h.entries }

    pub inc_usage-AllOwned : (o : String) (d : Usage) → AllOwned (inc_usage o d w)
    inc_usage-AllOwned o d = record { entries = rw (objects-inc_usage o d w) h.entries }

    pub recompute-AllOwned : (o : String) → AllOwned (recompute o true w).0
    recompute-AllOwned o = record { entries = rw (objects-recompute o w) h.entries }

    pub abandon_reservation-AllOwned :
        (c : Config) (now : ℕ) (staged : StagedObject)
        → AllOwned (abandon_reservation c now staged w)
    unfolding abandon_reservation
    abandon_reservation-AllOwned c now staged = record {
      entries = update-IsOwned staged.id is_reserved _ w.objects (λ e o. o) h.entries;
    }

    pub postpone-AllOwned :
        (c : Config) (now : ℕ) (entry : StoredObject) → AllOwned (postpone c now entry w)
    unfolding postpone
    postpone-AllOwned c now entry = record {
      entries = update-IsOwned entry.id _ _ w.objects (λ e o. o) h.entries;
    }

    pub detach_orphan-AllOwned :
        (now : ℕ) (entry : StoredObject) → AllOwned (detach_orphan now entry w).0
    unfolding detach_orphan
    detach_orphan-AllOwned now entry =
        elim (Option-cases (find_object entry.id is_attached w.objects)) [
          | inl missing ↦ rw (missing, detach_orphan) h
          | inr (e, found) ↦
              elim (Bool-cases (is_referenced w entry.kind entry.organization_id entry.key)) [
                | inl used ↦ rw (found, used, detach_orphan) h
                | inr free ↦
                    rw (found, free, detach_orphan)
                      (record {
                        entries =
                            update-IsOwned entry.id is_attached _ w.objects
                              (set_state-IsOwned deleting (some now) refl) h.entries;
                      })
              ]
        ]

    pub mark_uploaded-AllOwned :
        (c : Config) (now : ℕ) (staged : StagedObject) → AllOwned (mark_uploaded c now staged w).0
    unfolding mark_uploaded
    mark_uploaded-AllOwned c now staged =
        elim (Option-cases (find_object staged.id is_reserved w.objects)) [
          | inl missing ↦ rw (missing, mark_uploaded) h
          | inr (e, found) ↦
              rw (found, mark_uploaded)
                (record {
                  entries =
                      rw (objects-inc_usage staged.organization_id (store_inc staged.bytes) _) (
                        update-IsOwned staged.id is_reserved _ w.objects
                          (set_state-IsOwned uploaded (some (lease_from_now c now)) refl)
                          h.entries);
                })
        ]

    pub release-AllOwned : (id : String) (expected : State) → AllOwned (release id expected w).0
    unfolding release
    release-AllOwned id expected =
        elim (Option-cases (find_object id (state_eq expected) w.objects)) [
          | inl missing ↦ rw (missing, release) h
          | inr (e, found) ↦
              rw (found, release)
                (record {
                  entries =
                      rw (objects-inc_usage e.organization_id (release_inc expected e.bytes) _)
                        (erase-IsOwned id (state_eq expected) w.objects h.entries);
                })
        ]

    pub attach-AllOwned :
        (staged : StagedObject) {w' : World} → attach staged w ≡ ok w' → AllOwned w'
    unfolding attach
    attach-AllOwned staged {w'} e =
        elim (Option-cases (find_object staged.id is_uploaded w.objects)) [
          | inl missing ↦ ground arith
          | inr (x, found) ↦
              let same : record w {
                objects = update_object staged.id is_uploaded (set_state attached none) w.objects;
              }
                  ≡ w' =
                ground arith in
              rw (← same) (record {
                entries =
                    update-IsOwned staged.id is_uploaded _ w.objects
                      (set_state-IsOwned attached none refl) h.entries;
              })
        ]

    pub if-AllOwned : (b : Bool) {w' : World} → AllOwned w' → AllOwned (if b then w' else w)
    if-AllOwned true k = k
    if-AllOwned false k = h

    pub detach-AllOwned :
        (c : Config) (now : ℕ) (org : String) (ref : Option StoredObjectRef)
        → AllOwned (detach c now org ref w)
    unfolding detach
    detach-AllOwned c now org none = h
    detach-AllOwned c now org (some ref) =
        if-AllOwned (same_storage c.storage ref.storage)
          (elim (Option-cases (find_object id is_attached w.objects)) [
            | inl missing ↦ rw missing h
            | inr (e, found) ↦ rw found (
                if-AllOwned (str_eq e.organization_id org) (record {
                  entries =
                      update-IsOwned id is_attached _ w.objects
                        (set_state-IsOwned deleting (some (lease_from_now c now)) refl) h.entries;
                }))
          ])
      where
        id : String
        id = stored_object_id (or_else ref.storage "") ref.key

    pub settle-AllOwned :
        (id : String) (available : Bool) (cleanup : Cleanup)
        → AllOwned (settle id available cleanup w)
    unfolding settle
    settle-AllOwned id available deleted = if-AllOwned available (release-AllOwned id deleting)
    settle-AllOwned id available _ = h

    pub delete_detached-AllOwned :
        (c : Config) (ref : Option StoredObjectRef) (prefix : String) (sent available : Bool)
        → AllOwned (delete_detached c ref prefix sent available w).0
    unfolding delete_detached
    delete_detached-AllOwned c none prefix sent available = h
    delete_detached-AllOwned c (some ref) prefix sent available =
        settle-AllOwned _ available (delete_stored_object c (some ref) prefix sent)

    pub discard_tx-AllOwned :
        (c : Config) (now : ℕ) (staged : StagedObject) → AllOwned (discard_tx c now staged w).0
    unfolding discard_tx
    discard_tx-AllOwned c now staged =
        elim (Bool-cases (is_referenced w staged.kind staged.organization_id staged.key)) [
          | inl used ↦
              rw (used, discard_tx)
                (record {
                  entries =
                      update-IsOwned staged.id is_uploaded _ w.objects
                        (set_state-IsOwned attached none refl) h.entries;
                })
          | inr free ↦ elim (Option-cases (find_object staged.id is_uploaded w.objects)) [
            | inl missing ↦ rw (free, missing, discard_tx) h
            | inr (e, found) ↦
                rw (free, found, discard_tx)
                  (record {
                    entries =
                        update-IsOwned staged.id is_uploaded _ w.objects
                          (set_state-IsOwned deleting (some (lease_from_now c now)) refl) h.entries;
                  })
          ]
        ]

    pub recover_tx-AllOwned :
        (c : Config) (now : ℕ) (entry : StoredObject) → AllOwned (recover_tx c now entry w).0
    unfolding recover_tx
    recover_tx-AllOwned c now entry =
        elim (Option-cases (find_object entry.id (state_eq entry.state) w.objects)) [
          | inl missing ↦ rw (missing, recover_tx) h
          | inr (e, found) ↦
              let referenced = is_referenced w e.kind entry.organization_id e.key in
              let k =
                update-IsOwned entry.id (state_eq entry.state) (recovered c now referenced)
                  w.objects (recovered-IsOwned c now referenced) h.entries in
              elim (Bool-cases (is_reserved e.state)) [
                | inl r ↦
                    rw (found, recover_tx)
                      (rw r (record {
                        entries = rw (objects-inc_usage e.organization_id (store_inc e.bytes) _) k;
                      }))
                | inr r ↦ rw (found, recover_tx) (rw r (record { entries = k }))
              ]
        ]
