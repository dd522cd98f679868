-- ===== src/Storage/Trace.antt =====
-- Every sequence of the transactions of api/src/storage-quota/storage-quota.service.ts, of any
-- requests and in any order, with the documents changing in between.
use royalvibe_cosmetic.Common.{
  ℕ, ◌≡◌, sym, ap, ◌∙◌, String, Bool, true, Option, some, List, arith, Bool-cases, Option-cases,
  inl, inr,
}
use royalvibe_cosmetic.Storage.Model.{
  Kind, is_reserved, StoredObject, StagedObject, StoredObjectRef, Document, World, Config, ok,
  lock_reference, stored_object_id,
}
use royalvibe_cosmetic.Storage.Registry.{find_object, find_object_sound, any_state}
use royalvibe_cosmetic.Storage.Cycle.{
  ensure_usage, count_inc, reserve, mark_uploaded, abandon_reservation, attach, detach,
  delete_detached, discard,
}
use royalvibe_cosmetic.Storage.Recovery.{Attempt, recover_one}
use royalvibe_cosmetic.Storage.Reconcile.{
  ListedObject, recompute, count_existing, count_untracked, detach_orphan,
}
use royalvibe_cosmetic.Storage.Accounting.{IsConsistent}
use royalvibe_cosmetic.Storage.Preserve.{objects-inc_usage}
use royalvibe_cosmetic.Storage.CycleConsistency.{
  mark_uploaded-IsConsistent, abandon_reservation-IsConsistent, attach-IsConsistent,
  detach-IsConsistent, delete_detached-IsConsistent, discard-IsConsistent, reserve-IsConsistent,
}
use royalvibe_cosmetic.Storage.RecoveryConsistency.{recover_one-IsConsistent}
use royalvibe_cosmetic.Storage.Upload.{reserve_tx_cases}
use royalvibe_cosmetic.Storage.ReconcileConsistency.{
  recompute-IsConsistent, detach_orphan-IsConsistent, count_untracked-IsConsistent,
  count_existing-IsConsistent, lock_reference_lem,
}
use royalvibe_cosmetic.Storage.Ownership.{
  AllOwned, find-IsOwned, mark_uploaded-AllOwned, abandon_reservation-AllOwned, attach-AllOwned,
  detach-AllOwned, delete_detached-AllOwned, recompute-AllOwned, detach_orphan-AllOwned,
  ensure_usage-AllOwned,
}
use royalvibe_cosmetic.Storage.OwnershipRecovery.{discard-AllOwned, recover_one-AllOwned}

-- `issued` gives the file that an identifier was generated for: a key is generated once, so the
-- requests that reserve or mark an identifier are those of one file.
module _ (c : Config) (issued : String → StagedObject) where
  pub data Step : World → World → Type 0 where
    reserving :
        (now : ℕ) (staged : StagedObject) {w w' : World} {done : Bool}
        → issued staged.id ≡ staged
        → reserve c now staged w ≡ ok (w', done)
        → Step w w'
    marking :
        (now : ℕ) (staged : StagedObject) {w w' : World}
        → issued staged.id ≡ staged
        → w' ≡ (mark_uploaded c now staged w).0
        → Step w w'
    abandoning :
        (now : ℕ) (staged : StagedObject) {w w' : World}
        → w' ≡ abandon_reservation c now staged w
        → Step w w'
    attaching : (staged : StagedObject) {w w' : World} → attach staged w ≡ ok w' → Step w w'
    detaching :
        (now : ℕ) (org : String) (ref : Option StoredObjectRef) {w w' : World}
        → w' ≡ detach c now org ref w
        → Step w w'
    deleting_detached :
        (ref : Option StoredObjectRef) (prefix : String) (sent available : Bool) {w w' : World}
        → w' ≡ (delete_detached c ref prefix sent available w).0
        → Step w w'
    discarding :
        (now : ℕ) (staged : StagedObject) (sent available : Bool) {w w' : World}
        → w' ≡ discard c now staged sent available w
        → Step w w'
    recovering :
        (now : ℕ) (a : Attempt) (entry : StoredObject) {w w' : World}
        → w' ≡ (recover_one c now a entry w).0
        → Step w w'
    recounting : (org : String) {w w' : World} → w' ≡ (recompute org true w).0 → Step w w'
    counting_existing :
        (org : String) (kind : Kind) (key storage : String) (bytes : ℕ) {w w' : World}
        → w' ≡ (count_existing org kind key storage bytes w).0
        → Step w w'
    counting_untracked :
        (now : ℕ) (org : String) (kind : Kind) (storage : String) (object : ListedObject)
        {w w' : World}
        → w' ≡ (count_untracked c now org kind storage object w).0
        → Step w w'
    detaching_orphan :
        (now : ℕ) (entry : StoredObject) {w w' : World}
        → w' ≡ (detach_orphan now entry w).0
        → Step w w'
    writing :
        (products organizations : List Document) {w w' : World}
        → w' ≡ record w { products = products; organizations = organizations }
        → Step w w'

  pub data Reach (w : World) : World → Type 0 where
    here : Reach w w
    next : {v u : World} → Reach w v → Step v u → Reach w u

  AllOwned-IsGenuine :
      (staged : StagedObject) {w : World}
      → issued staged.id ≡ staged
      → AllOwned issued w
      → (e : StoredObject) → find_object staged.id is_reserved w.objects ≡ some e
      → (e.organization_id ≡ staged.organization_id) × (e.bytes ≡ staged.bytes)
  AllOwned-IsGenuine staged {w} own h e found =
      let (same, r) = find_object_sound staged.id is_reserved w.objects e found in
      let (o, b) = find-IsOwned issued staged.id is_reserved w.objects e h.entries found r in
      let mine : issued e.id ≡ staged = ap issued same ∙ own in
      (o ∙ ap (λ s. s.organization_id) mine, b ∙ ap (λ s. s.bytes) mine)

  Step-IsConsistent :
      {w w' : World} → Step w w' → IsConsistent w → AllOwned issued w → IsConsistent w'
  Step-IsConsistent (reserving now staged own e) h o = reserve-IsConsistent c now staged h e
  Step-IsConsistent (marking now staged own e) h o =
      rw e (mark_uploaded-IsConsistent c now staged h (AllOwned-IsGenuine staged own o))
  Step-IsConsistent (abandoning now staged e) h o =
      rw e (abandon_reservation-IsConsistent c now staged h)
  Step-IsConsistent (attaching staged e) h o = attach-IsConsistent staged h e
  Step-IsConsistent (detaching now org ref e) h o = rw e (detach-IsConsistent c now org ref h)
  Step-IsConsistent (deleting_detached ref prefix sent available e) h o =
      rw e (delete_detached-IsConsistent c ref prefix sent available h)
  Step-IsConsistent (discarding now staged sent available e) h o =
      rw e (discard-IsConsistent c now staged sent available h)
  Step-IsConsistent (recovering now a entry e) h o = rw e (recover_one-IsConsistent c now a entry h)
  Step-IsConsistent (recounting org e) h o = rw e (recompute-IsConsistent org h)
  Step-IsConsistent (counting_existing org kind key storage bytes e) h o =
      rw e (count_existing-IsConsistent org kind key storage bytes h)
  Step-IsConsistent (counting_untracked now org kind storage object e) h o =
      rw e (count_untracked-IsConsistent c now org kind storage object h)
  Step-IsConsistent (detaching_orphan now entry e) h o =
      rw e (detach_orphan-IsConsistent now entry h)
  Step-IsConsistent (writing products organizations e) h o = rw e (record { counts = h.counts })

  reserve-AllOwned :
      (now : ℕ) (staged : StagedObject) {w w' : World} {done : Bool}
      → issued staged.id ≡ staged
      → reserve c now staged w ≡ ok (w', done)
      → AllOwned issued w
      → AllOwned issued w'
  unfolding reserve
  reserve-AllOwned now staged {w} {w'} {done} own e h =
      let k = ensure_usage-AllOwned issued h staged.organization_id in
      let (guard, granted, refused) =
        reserve_tx_cases c now staged {w = ensure_usage staged.organization_id w} e in
      elim (Bool-cases done) [
        | inl taken ↦ record {
          entries = rw ((granted taken).1) (
            (λ r. (ap (λ s. s.organization_id) (sym own), ap (λ s. s.bytes) (sym own))),
            k.entries,
          );
        }
        | inr refusal ↦ rw (refused refusal) k
      ]

  count_existing-AllOwned :
      (org : String) (kind : Kind) (key storage : String) (bytes : ℕ) {w : World}
      → AllOwned issued w
      → AllOwned issued (count_existing org kind key storage bytes w).0
  unfolding count_existing
  count_existing-AllOwned org kind key storage bytes {w} h =
      let w0 = ensure_usage org w in
      let k = ensure_usage-AllOwned issued h org in
      let (o, u) = lock_reference_lem w0 kind org key in
      let (w1, referenced) = lock_reference w0 kind org key in
      elim (Bool-cases referenced) [
        | inr free ↦ rw (free, count_existing) k
        | inl used ↦
            elim (Option-cases (find_object (stored_object_id storage key) any_state w1.objects)) [
              | inr (e, found) ↦
                  rw (used, found, count_existing) (record { entries = rw o k.entries })
              | inl missing ↦
                  rw (used, missing, count_existing)
                    (record {
                      entries =
                          rw (objects-inc_usage org (count_inc bytes) _)
                            ((λ r. cc), (rw o k.entries));
                    })
            ]
      ]

  count_untracked-AllOwned :
      (now : ℕ) (org : String) (kind : Kind) (storage : String) (object : ListedObject) {w : World}
      → AllOwned issued w
      → AllOwned issued (count_untracked c now org kind storage object w).0
  unfolding count_untracked
  count_untracked-AllOwned now org kind storage object {w} h =
      let w0 = ensure_usage org w in
      let k = ensure_usage-AllOwned issued h org in
      let (o, u) = lock_reference_lem w0 kind org object.key in
      elim (Option-cases (find_object (stored_object_id storage object.key) any_state w0.objects)) [
        | inr (e, found) ↦ rw (found, count_untracked) k
        | inl missing ↦
            rw (missing, count_untracked)
              (record {
                entries =
                    rw (objects-inc_usage org (count_inc object.bytes) _)
                      ((λ r. ground arith), (rw o k.entries));
              })
      ]

  Step-AllOwned : {w w' : World} → Step w w' → AllOwned issued w → AllOwned issued w'
  Step-AllOwned (reserving now staged own e) h = reserve-AllOwned now staged own e h
  Step-AllOwned (marking now staged own e) h = rw e (mark_uploaded-AllOwned issued h c now staged)
  Step-AllOwned (abandoning now staged e) h =
      rw e (abandon_reservation-AllOwned issued h c now staged)
  Step-AllOwned (attaching staged e) h = attach-AllOwned issued h staged e
  Step-AllOwned (detaching now org ref e) h = rw e (detach-AllOwned issued h c now org ref)
  Step-AllOwned (deleting_detached ref prefix sent available e) h =
      rw e (delete_detached-AllOwned issued h c ref prefix sent available)
  Step-AllOwned (discarding now staged sent available e) h =
      rw e (discard-AllOwned issued c now staged sent available h)
  Step-AllOwned (recovering now a entry e) h = rw e (recover_one-AllOwned issued c now a entry h)
  Step-AllOwned (recounting org e) h = rw e (recompute-AllOwned issued h org)
  Step-AllOwned (counting_existing org kind key storage bytes e) h =
      rw e (count_existing-AllOwned org kind key storage bytes h)
  Step-AllOwned (counting_untracked now org kind storage object e) h =
      rw e (count_untracked-AllOwned now org kind storage object h)
  Step-AllOwned (detaching_orphan now entry e) h = rw e (detach_orphan-AllOwned issued h now entry)
  Step-AllOwned (writing products organizations e) h = rw e (record { entries = h.entries })

  -- From a world in order, whatever transactions commit, in any order, every organization's counter
  -- equals the sums over the registry, and the reserved entries stay those of the files that
  -- reserved them.
  pub Reach-IsConsistent :
      {w w' : World}
      → IsConsistent w
      → AllOwned issued w
      → Reach w w'
      → IsConsistent w' × AllOwned issued w'
  Reach-IsConsistent h o here = (h, o)
  Reach-IsConsistent h o (next r s) =
      let (k, q) = Reach-IsConsistent h o r in (Step-IsConsistent s k q, Step-AllOwned s q)
