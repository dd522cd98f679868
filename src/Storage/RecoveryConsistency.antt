-- ===== src/Storage/RecoveryConsistency.antt =====
-- The recovery and the whole upload of api/src/storage-quota/storage-quota.service.ts keep the
-- counters equal to the sums over the registry, whatever the database and the storage answer.
use royalvibe_cosmetic.Common.{
  ℕ, ◌≡◌, refl, sym, ◌∙◌, String, Bool, true, false, Option, some, List, [], ◌∷◌, arith, Bool-cases,
  Option-cases, inl, inr,
}
use royalvibe_cosmetic.Storage.Model.{
  State, reserved, uploaded, attached, deleting, is_reserved, state_eq, StoredObject, World, Config,
  Cleanup, deleted, delete_stored_object, prefix_for_kind, is_referenced,
}
use royalvibe_cosmetic.Storage.Registry.{find_object, find_object_sound}
use royalvibe_cosmetic.Storage.Cycle.{Decision, kept, delete, skip}
use royalvibe_cosmetic.Storage.Recovery.{
  Attempt, RecoveryReport, postpone, recovered, recover_tx, recover_after, recover_decided,
  recover_entry, recover_one, count_outcome, recover_loop, due_entries, recover,
}
use royalvibe_cosmetic.Storage.Accounting.{IsConsistent, IsQuiet}
use royalvibe_cosmetic.Storage.Preserve.{store-IsConsistent, update-IsConsistent, if-IsConsistent}
use royalvibe_cosmetic.Storage.CycleConsistency.{release-IsConsistent}

postpone-IsConsistent :
    (c : Config) (now : ℕ) (entry : StoredObject) {w : World}
    → IsConsistent w
    → IsConsistent (postpone c now entry w)
unfolding postpone
postpone-IsConsistent c now entry h = update-IsConsistent entry.id _ _ h (λ e t. (refl, refl, refl))

recovered_lem :
    (c : Config) (now : ℕ) (referenced : Bool) (e : StoredObject)
    → ((recovered c now referenced e).organization_id ≡ e.organization_id)
      × ((recovered c now referenced e).bytes ≡ e.bytes)
      × (is_reserved (recovered c now referenced e).state ≡ false)
recovered_lem c now referenced e = ground arith

recovered-IsQuiet :
    (c : Config) (now : ℕ) (referenced : Bool) (e : StoredObject)
    → is_reserved e.state ≡ false
    → IsQuiet (recovered c now referenced) e
recovered-IsQuiet c now referenced e h =
    let (o, b, s) = recovered_lem c now referenced e in (o, b, s ∙ sym h)

state_eq-is_reserved :
    (s a b : State) → state_eq s a ≡ true → state_eq s b ≡ true → is_reserved a ≡ is_reserved b
state_eq-is_reserved reserved a b h k = ground arith
state_eq-is_reserved uploaded a b h k = ground arith
state_eq-is_reserved attached a b h k = ground arith
state_eq-is_reserved deleting a b h k = ground arith

recover_tx-IsConsistent :
    (c : Config) (now : ℕ) (entry : StoredObject) {w : World}
    → IsConsistent w
    → IsConsistent (recover_tx c now entry w).0
unfolding recover_tx
recover_tx-IsConsistent c now entry {w} h =
    elim (Option-cases (find_object entry.id (state_eq entry.state) w.objects)) [
      | inl missing ↦ rw (missing, recover_tx) h
      | inr (e, found) ↦
          let referenced = is_referenced w e.kind entry.organization_id e.key in
          let (o, b, s) = recovered_lem c now referenced e in
          let still_stored =
            λ (x : StoredObject) (same : is_reserved e.state ≡ is_reserved x.state)
                (stored : is_reserved e.state ≡ false).
              recovered-IsQuiet c now referenced x (sym same ∙ stored) in
          elim (Bool-cases (is_reserved e.state)) [
            | inl r ↦
                rw (found, recover_tx)
                  (rw r (
                    store-IsConsistent entry.id (state_eq entry.state) h e found
                      (recovered c now referenced) r s o b))
            | inr r ↦
                rw (found, recover_tx)
                  (rw r (
                    update-IsConsistent entry.id (state_eq entry.state) (recovered c now referenced)
                      h
                      (λ x t.
                        still_stored x
                          (state_eq-is_reserved entry.state e.state x.state
                            (find_object_sound entry.id (state_eq entry.state) w.objects e found).1
                            t)
                          r)))
          ]
    ]

recover_after-IsConsistent :
    (c : Config) (now : ℕ) (a : Attempt) (entry : StoredObject) (cleanup : Cleanup) {w : World}
    → IsConsistent w
    → IsConsistent (recover_after c now a entry cleanup w).0
unfolding recover_after
recover_after-IsConsistent c now a entry deleted h = elim (Bool-cases a.available) [
  | inl yes' ↦ rw yes' (release-IsConsistent entry.id deleting h)
  | inr no' ↦ rw no' h
]
recover_after-IsConsistent c now a entry _ h = elim (Bool-cases a.postponed) [
  | inl yes' ↦ rw yes' (postpone-IsConsistent c now entry h)
  | inr no' ↦ rw no' h
]

recover_decided-IsConsistent :
    (c : Config) (now : ℕ) (a : Attempt) (entry : StoredObject) (d : Decision) {w : World}
    → IsConsistent w
    → IsConsistent (recover_decided c now a entry d w).0
unfolding recover_decided
recover_decided-IsConsistent c now a entry kept h = h
recover_decided-IsConsistent c now a entry skip h = h
recover_decided-IsConsistent c now a entry delete h =
    recover_after-IsConsistent c now a entry
      (delete_stored_object c (some (record { key = entry.key; storage = some entry.storage }))
        (prefix_for_kind entry.kind entry.organization_id) a.sent)
      h

recover_entry-IsConsistent :
    (c : Config) (now : ℕ) (a : Attempt) (entry : StoredObject) {w : World}
    → IsConsistent w
    → IsConsistent (recover_entry c now a entry w).0
unfolding recover_entry
recover_entry-IsConsistent c now a entry {w} h = elim (Bool-cases a.begun) [
  | inl yes' ↦ rw yes' (
      recover_decided-IsConsistent c now a entry (recover_tx c now entry w).1
        (recover_tx-IsConsistent c now entry h))
  | inr no' ↦ rw no' h
]

-- One round of the recovery, faults included.
pub recover_one-IsConsistent :
    (c : Config) (now : ℕ) (a : Attempt) (entry : StoredObject) {w : World}
    → IsConsistent w
    → IsConsistent (recover_one c now a entry w).0
unfolding recover_one
recover_one-IsConsistent c now a entry {w} h =
    let k = recover_entry-IsConsistent c now a entry h in
    elim (Option-cases (recover_entry c now a entry w).1) [
      | inl thrown ↦
          rw (thrown, recover_one)
            (if-IsConsistent a.postponed_again (postpone-IsConsistent c now entry k) k)
      | inr (o, done) ↦ rw (done, recover_one) k
    ]

recover_loop-IsConsistent :
    (c : Config) (now : ℕ) (attempts : StoredObject → Attempt) (entries : List StoredObject)
    (r : RecoveryReport) {w : World}
    → IsConsistent w
    → IsConsistent (recover_loop c now attempts entries r w).0
unfolding recover_loop
recover_loop-IsConsistent c now attempts [] r h = h
recover_loop-IsConsistent c now attempts (entry ∷ entries) r {w} h =
    recover_loop-IsConsistent c now attempts entries
      (count_outcome (recover_one c now (attempts entry) entry w).1 r)
      (recover_one-IsConsistent c now (attempts entry) entry h)

-- A recovery keeps every counter at the sums over the registry, whatever fails in any of its rounds:
-- a transaction, a deletion of a file, a release or a postponement.
pub recover-IsConsistent :
    (c : Config) (now : ℕ) (attempts : StoredObject → Attempt) (org : Option String) (limit : ℕ)
    {w : World}
    → IsConsistent w
    → IsConsistent (recover c now attempts org limit w).0
unfolding recover
recover-IsConsistent c now attempts org limit {w} h =
    recover_loop-IsConsistent c now attempts (due_entries now org limit w) _ h
