-- ===== src/Storage/Upload.antt =====
-- The whole upload of api/src/storage-quota/storage-quota.service.ts: what `reserve` decides, and
-- what `store` leaves behind while other requests commit.
use royalvibe_cosmetic.Common.{
  ℕ, ◌+◌, ◌≡◌, refl, ◌∙◌, String, Bool, true, false, not, ◌&&◌, none, some, List, ◌∷◌, leb, ltb,
  total, arith, eq_refl, Bool-cases, Option-cases, is_some, inl, inr,
}
use royalvibe_cosmetic.Common.Int.{◌+ℤ◌}
use royalvibe_cosmetic.Storage.Model.{
  StoredObject, StagedObject, Usage, World, Config, Result, ok, err, lease_from_now,
}
use royalvibe_cosmetic.Storage.Registry.{find_object, any_state}
use royalvibe_cosmetic.Storage.Cycle.{
  usage_of, ensure_usage, inc_usage, reserve_inc, create_object, reserved_entry, fits, reserve_tx,
  reserve,
}
use royalvibe_cosmetic.Storage.Recovery.{
  Attempt, recover, conclude, or_reject, reserve_or_reject, send, store,
}
use royalvibe_cosmetic.Storage.Accounting.{
  IsConsistent, Matches, stored_bytes_in, reserved_bytes_in,
}
use royalvibe_cosmetic.Storage.Preserve.{
  ensure_usage-IsConsistent, objects-ensure_usage, objects-inc_usage,
}
use royalvibe_cosmetic.Storage.CycleConsistency.{
  IsGenuine, mark_uploaded-IsConsistent, abandon_reservation-IsConsistent, reserve-IsConsistent,
}
use royalvibe_cosmetic.Storage.RecoveryConsistency.{recover-IsConsistent}

-- The bytes that an organization occupies, stored or reserved, by the registry.
abbrev pub occupied : String → World → ℕ
occupied org w = total (stored_bytes_in org) w.objects + total (reserved_bytes_in org) w.objects

fits_lem :
    (c : Config) (org : String) (u : Usage) (es : List StoredObject) (b : ℕ)
    → Matches u org es
    → fits c u b
      ≡ leb (total (stored_bytes_in org) es + total (reserved_bytes_in org) es + b) c.quota_bytes
unfolding ◌+ℤ◌
fits_lem c org u es b m = rw (m.stored_bytes, m.reserved_bytes) (ground arith)

-- What a granted and a refused reservation have in common with the guard.
pub reserve_tx_cases :
    (c : Config) (now : ℕ) (staged : StagedObject) {w w' : World} {done : Bool}
    → reserve_tx c now staged w ≡ ok (w', done)
    → ((c.enforce && not (fits c (usage_of staged.organization_id w) staged.bytes)) ≡ not done)
      × ((done ≡ true)
          → (find_object staged.id any_state w.objects ≡ none)
            × (w'.objects ≡ reserved_entry staged (lease_from_now c now) ∷ w.objects))
      × ((done ≡ false) → w' ≡ w)
unfolding reserve_tx create_object
reserve_tx_cases c now staged {w} {w'} {done} e =
    let w1 = inc_usage staged.organization_id (reserve_inc staged.bytes) w in
    let unmoved = objects-inc_usage staged.organization_id (reserve_inc staged.bytes) w in
    elim (Bool-cases (c.enforce && not (fits c (usage_of staged.organization_id w) staged.bytes))) [
      | inl refused ↦ ground arith
      | inr allowed ↦ elim (Option-cases (find_object staged.id any_state w1.objects)) [
        | inr (x, taken) ↦ ground arith
        | inl fresh ↦ ground (arith, unmoved)
      ]
    ]

decided : (enforce fit done : Bool) → enforce ≡ true → (enforce && not fit) ≡ not done → done ≡ fit
decided enforce fit done e h = ground arith

-- In `enforce` mode a reservation is granted exactly when the bytes stored, the bytes reserved and
-- the bytes asked for fit the quota, all counted over the registry.
pub reserve_decides :
    (c : Config) (now : ℕ) (staged : StagedObject) {w w' : World} {done : Bool}
    → c.enforce ≡ true
    → IsConsistent w
    → reserve c now staged w ≡ ok (w', done)
    → done ≡ leb (occupied staged.organization_id w + staged.bytes) c.quota_bytes
unfolding reserve
reserve_decides c now staged {w} {w'} {done} enforce h e =
    let o = staged.organization_id in
    let w1 = ensure_usage o w in
    let (guard, granted, refused) = reserve_tx_cases c now staged {w = w1} e in
    let fit =
      fits_lem c o (usage_of o w1) w1.objects staged.bytes
        ((ensure_usage-IsConsistent o h).counts o) in
    let same = objects-ensure_usage o w in
    decided c.enforce (fits c (usage_of o w1) staged.bytes) done enforce guard ∙ (rw same at fit)

-- A granted reservation is the only entry of its file, and its own.
reserve-IsGenuine :
    (c : Config) (now : ℕ) (staged : StagedObject) (w : World) {w' : World}
    → reserve c now staged w ≡ ok (w', true)
    → IsGenuine staged w'
unfolding reserve find_object
reserve-IsGenuine c now staged w {w'} e x found =
    let (guard, granted, refused) =
      reserve_tx_cases c now staged {w = ensure_usage staged.organization_id w} e in
    let (fresh, added) = granted refl in
    let first = rw added at found in ground (arith, eq_refl staged.id, first)

-- Reservation and, if it is refused, recovery and one more try.
module _ (c : Config) (now : ℕ) (attempts : StoredObject → Attempt) (staged : StagedObject) where
  -- An answer of `reserve` whose world, if it has one, is in order.
  record IsSound (r : Result (World × Bool)) : Type 0 where
    consistent : (w : World) (done : Bool) → r ≡ ok (w, done) → IsConsistent w
    genuine : (w : World) → r ≡ ok (w, true) → IsGenuine staged w

  reserve-IsSound : {w : World} → IsConsistent w → IsSound (reserve c now staged w)
  reserve-IsSound {w} h = record {
    consistent = λ w' done e. reserve-IsConsistent c now staged h e;
    genuine = λ w' e. reserve-IsGenuine c now staged w e;
  }

  -- The world is in order, and after a granted reservation the entry is the file's own.
  record IsSettled (s : World × Result (Unit {0})) : Type 0 where
    consistent : IsConsistent s.0
    genuine : s.1 ≡ ok tt → IsGenuine staged s.0

  conclude-IsSettled :
      {w : World} (r : Result (World × Bool))
      → IsConsistent w
      → IsSound r
      → IsSettled (conclude staged.organization_id w r)
  unfolding conclude
  conclude-IsSettled (err e) h s = record {
    consistent = ensure_usage-IsConsistent staged.organization_id h;
    genuine = λ x. cc;
  }
  conclude-IsSettled (ok (w', true)) h s = record {
    consistent = s.consistent w' true refl;
    genuine = λ _. s.genuine w' refl;
  }
  conclude-IsSettled (ok (w', false)) h s = record {
    consistent = s.consistent w' false refl;
    genuine = λ x. cc;
  }

  or_reject-IsSettled :
      {w : World} (r : Result (World × Bool))
      → IsConsistent w
      → IsSound r
      → IsSettled (or_reject c now attempts staged w r)
  unfolding or_reject
  or_reject-IsSettled (ok (w', false)) h s =
      let (w'', report) = recover c now attempts (some staged.organization_id) 50 w' in
      let k =
        recover-IsConsistent c now attempts (some staged.organization_id) 50
          (s.consistent w' false refl) in
      elim (Bool-cases (ltb 0 report.released)) [
        | inl some_released ↦
            rw some_released (conclude-IsSettled (reserve c now staged w'') k (reserve-IsSound k))
        | inr none_released ↦ rw none_released (record { consistent = k; genuine = λ x. cc })
      ]
  or_reject-IsSettled (ok (w', true)) h s = conclude-IsSettled (ok (w', true)) h s
  or_reject-IsSettled (err e) h s = conclude-IsSettled (err e) h s

  reserve_or_reject-IsSettled :
      {w : World} → IsConsistent w → IsSettled (reserve_or_reject c now attempts staged w)
  unfolding reserve_or_reject
  reserve_or_reject-IsSettled {w} h =
      or_reject-IsSettled (reserve c now staged w) h (reserve-IsSound h)

  -- What the requests that commit while the file is sent leave alone.
  abbrev pub Respects : (World → World) → Type 0
  Respects during =
      (v : World)
      → IsConsistent v
      → IsGenuine staged v
      → IsConsistent (during v) × IsGenuine staged (during v)

  send-IsConsistent :
      (arrived : Bool) (during : World → World) {w : World} (r : Result (Unit {0}))
      → Respects during
      → IsConsistent w
      → (r ≡ ok tt → IsGenuine staged w)
      → IsConsistent (send c now arrived during staged w r).0
  unfolding send
  send-IsConsistent arrived during (err e) keep h g = h
  send-IsConsistent arrived during {w} (ok tt) keep h g =
      let (k, own) = keep w h (g refl) in
      elim (Bool-cases arrived) [
        | inl sent ↦ rw sent (mark_uploaded-IsConsistent c now staged k own)
        | inr lost ↦ rw lost (abandon_reservation-IsConsistent c now staged k)
      ]

  -- Whatever other requests commit while the file is sent, as long as they keep the agreement and
  -- leave the reservation its own, `store` keeps the agreement, on every outcome.
  pub store-IsConsistent :
      (arrived : Bool) (during : World → World) {w : World}
      → Respects during
      → IsConsistent w
      → IsConsistent (store c now attempts arrived during staged w).0
  unfolding store
  store-IsConsistent arrived during {w} keep h =
      let settled = reserve_or_reject-IsSettled h in
      elim (Bool-cases (is_some c.storage)) [
        | inl there ↦ rw there (
            send-IsConsistent arrived during (reserve_or_reject c now attempts staged w).1 keep
              settled.consistent settled.genuine)
        | inr missing ↦ rw missing h
      ]
