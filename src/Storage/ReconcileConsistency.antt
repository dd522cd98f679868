-- ===== src/Storage/ReconcileConsistency.antt =====
-- The recount, the inventory and the orphans of api/src/storage-quota/storage-quota.service.ts keep
-- the counters equal to the sums over the registry.
use royalvibe_cosmetic.Common.{
  ℕ, ◌≡◌, refl, String, true, str_eq, arith, eq_iff, Bool-cases, Option-cases, inl, inr,
}
use royalvibe_cosmetic.Storage.Model.{
  Kind, is_attached, StoredObject, World, Config, lock_reference, stored_object_id, is_referenced,
}
use royalvibe_cosmetic.Storage.Registry.{find_object, any_state}
use royalvibe_cosmetic.Storage.Cycle.{ensure_usage}
use royalvibe_cosmetic.Storage.Reconcile.{
  ListedObject, recompute, count_existing, count_untracked, untracked_entry, existing_entry,
  detach_orphan,
}
use royalvibe_cosmetic.Storage.Accounting.{IsConsistent}
use royalvibe_cosmetic.Storage.Preserve.{
  ensure_usage-IsConsistent, update-IsConsistent, cons-IsConsistent_stored, lookup-ensure_usage,
}
use royalvibe_cosmetic.Storage.Recount.{recompute-Matches}

pub recompute-IsConsistent :
    (org : String) {w : World} → IsConsistent w → IsConsistent (recompute org true w).0
recompute-IsConsistent org {w} h = record {
  counts = λ o. elim (Bool-cases (str_eq o org)) [
    | inl same ↦ rw ((eq_iff o org).0 same, (recompute-Matches org w).1) (recompute-Matches org w).0
    | inr other ↦
        rw
          (
            (recompute-Matches org w).2 o (λ e. ground (arith, eq_iff o org)),
            (recompute-Matches org w).1,
          )
          (h.counts o)
  ];
}

pub detach_orphan-IsConsistent :
    (now : ℕ) (entry : StoredObject) {w : World}
    → IsConsistent w
    → IsConsistent (detach_orphan now entry w).0
unfolding detach_orphan
detach_orphan-IsConsistent now entry {w} h =
    elim (Option-cases (find_object entry.id is_attached w.objects)) [
      | inl missing ↦ rw (missing, detach_orphan) h
      | inr (e, found) ↦
          elim (Bool-cases (is_referenced w entry.kind entry.organization_id entry.key)) [
            | inl used ↦ rw (found, used, detach_orphan) h
            | inr free ↦
                rw (found, free, detach_orphan)
                  (update-IsConsistent entry.id is_attached _ h (λ x a. ground arith))
          ]
    ]

-- A locked reference changes only the versions of documents.
pub lock_reference_lem :
    (w : World) (kind : Kind) (org key : String)
    → ((lock_reference w kind org key).0.objects ≡ w.objects)
      × ((lock_reference w kind org key).0.usages ≡ w.usages)
unfolding lock_reference
lock_reference_lem w kind org key = ground arith

-- Two worlds with one registry and the same counters.
same-IsConsistent :
    {v w : World} → v.objects ≡ w.objects → v.usages ≡ w.usages → IsConsistent w → IsConsistent v
same-IsConsistent {v} {w} o u h = record { counts = λ org. rw (o, u) (h.counts org) }

pub count_untracked-IsConsistent :
    (c : Config) (now : ℕ) (org : String) (kind : Kind) (storage : String) (object : ListedObject)
    {w : World}
    → IsConsistent w
    → IsConsistent (count_untracked c now org kind storage object w).0
unfolding count_untracked
count_untracked-IsConsistent c now org kind storage object {w} h =
    let w0 = ensure_usage org w in
    let h0 = ensure_usage-IsConsistent org h in
    let (o, u) = lock_reference_lem w0 kind org object.key in
    let (w1, referenced) = lock_reference w0 kind org object.key in
    elim (Option-cases (find_object (stored_object_id storage object.key) any_state w0.objects)) [
      | inr (e, found) ↦ rw (found, count_untracked) h0
      | inl missing ↦
          rw (missing, count_untracked)
            (cons-IsConsistent_stored (untracked_entry c now org kind storage object referenced)
              (same-IsConsistent o u h0) (rw u (lookup-ensure_usage org w)) (ground arith))
    ]

pub count_existing-IsConsistent :
    (org : String) (kind : Kind) (key storage : String) (bytes : ℕ) {w : World}
    → IsConsistent w
    → IsConsistent (count_existing org kind key storage bytes w).0
unfolding count_existing
count_existing-IsConsistent org kind key storage bytes {w} h =
    let w0 = ensure_usage org w in
    let h0 = ensure_usage-IsConsistent org h in
    let (o, u) = lock_reference_lem w0 kind org key in
    let (w1, referenced) = lock_reference w0 kind org key in
    elim (Bool-cases referenced) [
      | inr free ↦ rw (free, count_existing) h0
      | inl used ↦
          elim (Option-cases (find_object (stored_object_id storage key) any_state w1.objects)) [
            | inr (e, found) ↦ rw (used, found, count_existing) (same-IsConsistent o u h0)
            | inl missing ↦
                rw (used, missing, count_existing)
                  (cons-IsConsistent_stored (existing_entry org kind key storage bytes)
                    (same-IsConsistent o u h0) (rw u (lookup-ensure_usage org w)) refl)
          ]
    ]
