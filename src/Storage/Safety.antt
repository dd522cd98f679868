-- ===== src/Storage/Safety.antt =====
-- When a recovery of api/src/storage-quota/storage-quota.service.ts releases the bytes of an entry, and
-- when the deletion of a detached file does.
use royalvibe_cosmetic.Common.{
  ℕ, ◌≡◌, refl, String, Bool, true, false, ◌&&◌, Option, some, or_else, arith, Bool-cases,
  Option-cases, inl, inr,
}
use royalvibe_cosmetic.Storage.Model.{
  state_eq, StoredObject, StoredObjectRef, World, Config, Cleanup, deleted, delete_stored_object,
  prefix_for_kind, is_referenced, same_storage,
}
use royalvibe_cosmetic.Storage.Registry.{find_object}
use royalvibe_cosmetic.Storage.Cycle.{Decision, kept, delete, skip, settle, delete_detached}
use royalvibe_cosmetic.Storage.Recovery.{
  Attempt, RecoveryOutcome, released, retry, recover_tx, recover_after, recover_decided,
  recover_entry, recover_one,
}

delete_stored_object_confirmed :
    (c : Config) (ref : StoredObjectRef) (prefix : String) (sent : Bool)
    → delete_stored_object c (some ref) prefix sent ≡ deleted
    → (same_storage c.storage ref.storage ≡ true) × (sent ≡ true)
unfolding delete_stored_object
delete_stored_object_confirmed c ref prefix sent h = ground arith

recover_after_released :
    (c : Config) (now : ℕ) (a : Attempt) (entry : StoredObject) (cleanup : Cleanup) (w : World)
    → (recover_after c now a entry cleanup w).1 ≡ some released
    → (cleanup ≡ deleted) × (a.available ≡ true)
unfolding recover_after
recover_after_released c now a entry deleted w h = ground arith
recover_after_released c now a entry _ w h = ground arith

recover_decided_released :
    (c : Config) (now : ℕ) (a : Attempt) (entry : StoredObject) (d : Decision) (w : World)
    → (recover_decided c now a entry d w).1 ≡ some released
    → (d ≡ delete)
      × (same_storage c.storage (some entry.storage) ≡ true)
      × (a.sent ≡ true)
      × (a.available ≡ true)
unfolding recover_decided
recover_decided_released c now a entry kept w h = ground arith
recover_decided_released c now a entry skip w h = ground arith
recover_decided_released c now a entry delete w h =
    let ref : StoredObjectRef = record { key = entry.key; storage = some entry.storage } in
    let cleanup =
      delete_stored_object c (some ref) (prefix_for_kind entry.kind entry.organization_id) a.sent in
    let (confirmed, up) = recover_after_released c now a entry cleanup w h in
    let (here, sent) =
      delete_stored_object_confirmed c ref (prefix_for_kind entry.kind entry.organization_id) a.sent
        confirmed in
    (refl, here, sent, up)

recover_tx_delete :
    (c : Config) (now : ℕ) (entry : StoredObject) (w : World)
    → (recover_tx c now entry w).1 ≡ delete
    → (e : StoredObject) × (find_object entry.id (state_eq entry.state) w.objects ≡ some e)
      × (is_referenced w e.kind entry.organization_id e.key ≡ false)
unfolding recover_tx
recover_tx_delete c now entry w h =
    elim (Option-cases (find_object entry.id (state_eq entry.state) w.objects)) [
      | inl missing ↦ ground arith
      | inr (e, found) ↦ (e, found, ground arith)
    ]

or_else_released : (o : Option RecoveryOutcome) → or_else o retry ≡ released → o ≡ some released
or_else_released o h = ground arith

-- The deletion of a detached file changes the registry and the counters only when the storage confirmed
-- it and the file is of the current storage.
pub delete_detached_unconfirmed :
    (c : Config) (ref : StoredObjectRef) (prefix : String) (sent available : Bool) (w : World)
    → (same_storage c.storage ref.storage && sent) ≡ false
    → (delete_detached c (some ref) prefix sent available w).0 ≡ w
unfolding delete_detached delete_stored_object settle
delete_detached_unconfirmed c ref prefix sent available w h = ground arith

-- A recovery releases the bytes of an entry only if the entry was in the registry in the state that
-- was read, no document referred to its file, the file is of the current storage, and the storage
-- confirmed its deletion.
pub recover_one-released :
    (c : Config) (now : ℕ) (a : Attempt) (entry : StoredObject) (w : World)
    → (recover_one c now a entry w).1 ≡ released
    → ((e : StoredObject) × (find_object entry.id (state_eq entry.state) w.objects ≡ some e)
        × (is_referenced w e.kind entry.organization_id e.key ≡ false))
      × (same_storage c.storage (some entry.storage) ≡ true)
      × (a.sent ≡ true)
unfolding recover_one
recover_one-released c now a entry w h =
    let answered : (recover_entry c now a entry w).1 ≡ some released =
      or_else_released (recover_entry c now a entry w).1 h in
    elim (Bool-cases a.begun) [
      | inr down ↦ ground arith
      | inl up ↦
          let decided : (recover_decided c now a entry (recover_tx c now entry w).1
                (recover_tx c now entry w).0).1
              ≡ some released =
            rw (up, recover_entry) at answered in
          let (d, here, sent, available) =
            recover_decided_released c now a entry (recover_tx c now entry w).1
              (recover_tx c now entry w).0 decided in
          (recover_tx_delete c now entry w d, here, sent)
    ]
