-- ===== src/Storage/OwnershipRecovery.antt =====
-- Discarding a file and recovering an entry, as api/src/storage-quota/storage-quota.service.ts composes
-- them of transactions: the reserved entries stay with the files that reserved them.
use royalvibe_cosmetic.Common.{ℕ, String, Bool, some, Bool-cases, Option-cases, inl, inr}
use royalvibe_cosmetic.Storage.Model.{
  deleting, StoredObject, StagedObject, World, Config, Cleanup, deleted, delete_stored_object,
  prefix_for_kind,
}
use royalvibe_cosmetic.Storage.Cycle.{
  discard_tx, discard_after, discard, Decision, kept, delete, skip,
}
use royalvibe_cosmetic.Storage.Recovery.{
  Attempt, recover_tx, recover_after, recover_decided, recover_entry, recover_one,
}
use royalvibe_cosmetic.Storage.Ownership.{
  AllOwned, delete_detached-AllOwned, discard_tx-AllOwned, release-AllOwned, postpone-AllOwned,
  recover_tx-AllOwned, if-AllOwned,
}

module _ (issued : String → StagedObject) where
  discard_after-AllOwned :
      (c : Config) (staged : StagedObject) (sent available : Bool) (d : Decision) {w : World}
      → AllOwned issued w
      → AllOwned issued (discard_after c staged sent available d w)
  unfolding discard_after
  discard_after-AllOwned c staged sent available delete h =
      delete_detached-AllOwned issued h c _ _ sent available
  discard_after-AllOwned c staged sent available _ h = h

  pub discard-AllOwned :
      (c : Config) (now : ℕ) (staged : StagedObject) (sent available : Bool) {w : World}
      → AllOwned issued w
      → AllOwned issued (discard c now staged sent available w)
  unfolding discard
  discard-AllOwned c now staged sent available {w} h =
      discard_after-AllOwned c staged sent available (discard_tx c now staged w).1
        (discard_tx-AllOwned issued h c now staged)

  recover_after-AllOwned :
      (c : Config) (now : ℕ) (a : Attempt) (entry : StoredObject) (cleanup : Cleanup) {w : World}
      → AllOwned issued w
      → AllOwned issued (recover_after c now a entry cleanup w).0
  unfolding recover_after
  recover_after-AllOwned c now a entry deleted h = elim (Bool-cases a.available) [
    | inl up ↦ rw up (release-AllOwned issued h entry.id deleting)
    | inr down ↦ rw down h
  ]
  recover_after-AllOwned c now a entry _ h = elim (Bool-cases a.postponed) [
    | inl up ↦ rw up (postpone-AllOwned issued h c now entry)
    | inr down ↦ rw down h
  ]

  recover_decided-AllOwned :
      (c : Config) (now : ℕ) (a : Attempt) (entry : StoredObject) (d : Decision) {w : World}
      → AllOwned issued w
      → AllOwned issued (recover_decided c now a entry d w).0
  unfolding recover_decided
  recover_decided-AllOwned c now a entry kept h = h
  recover_decided-AllOwned c now a entry skip h = h
  recover_decided-AllOwned c now a entry delete h =
      recover_after-AllOwned c now a entry
        (delete_stored_object c (some (record { key = entry.key; storage = some entry.storage }))
          (prefix_for_kind entry.kind entry.organization_id) a.sent)
        h

  pub recover_one-AllOwned :
      (c : Config) (now : ℕ) (a : Attempt) (entry : StoredObject) {w : World}
      → AllOwned issued w
      → AllOwned issued (recover_one c now a entry w).0
  unfolding recover_one
  recover_one-AllOwned c now a entry {w} h =
      let k : AllOwned issued (recover_entry c now a entry w).0 = elim (Bool-cases a.begun) [
        | inl up ↦ rw up (
            recover_decided-AllOwned c now a entry (recover_tx c now entry w).1
              (recover_tx-AllOwned issued h c now entry))
        | inr down ↦ rw down h
      ] in
      elim (Option-cases (recover_entry c now a entry w).1) [
        | inl thrown ↦
            rw (thrown, recover_one)
              (if-AllOwned issued k a.postponed_again (postpone-AllOwned issued k c now entry))
        | inr (o, done) ↦ rw (done, recover_one) k
      ]
