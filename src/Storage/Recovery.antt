-- ===== src/Storage/Recovery.antt =====
-- `recover`, `recoverEntry`, `postpone`, `reserveOrReject` and `store` of
-- api/src/storage-quota/storage-quota.service.ts. What the database and the storage answer to one
-- attempt is an argument.
use royalvibe_cosmetic.Common.{
  ℕ, zero, suc, ◌+◌, ◌*◌, min, String, Bool, true, false, not, ◌&&◌, Option, none, some, List, [],
  ◌∷◌, str_eq, ltb, leb, if◌then◌else◌, or_else, is_some, filter, length,
}
use royalvibe_cosmetic.Storage.Model.{
  State, attached, deleting, is_reserved, is_attached, state_eq, StoredObject, StagedObject, World,
  Config, quota_exceeded, interrupted, not_configured, upload_failed, Result, ok, err,
  lease_from_now, prefix_for_kind, is_referenced, Cleanup, deleted, delete_stored_object,
}
use royalvibe_cosmetic.Storage.Registry.{find_object, update_object}
use royalvibe_cosmetic.Storage.Cycle.{
  ensure_usage, inc_usage, store_inc, set_state, release, Decision, kept, delete, skip, reserve,
  mark_uploaded, abandon_reservation,
}

pub data RecoveryOutcome : Type 0 where
  released reattached retry skipped : RecoveryOutcome

-- What one attempt meets: whether its first transaction is taken, whether the storage accepts the
-- deletion, whether the release is taken, whether a postponement is written, and whether the
-- postponement of the error handler is.
pub record Attempt : Type 0 where
  pub begun : Bool
  pub sent : Bool
  pub available : Bool
  pub postponed : Bool
  pub postponed_again : Bool

abbrev pub max_retry_delay_ms : ℕ
max_retry_delay_ms = 6 * 3600 * 1000

unfoldable pub postpone : Config → ℕ → StoredObject → World → World
postpone c now entry w =
    let delay = min (c.reservation_ttl_seconds * 1000 * (entry.attempts + 1)) max_retry_delay_ms in
    record w {
      objects =
          update_object entry.id (λ s. not (is_attached s))
            (λ e. record e { lease_until = some (now + delay); attempts = e.attempts + 1 })
            w.objects;
    }

-- The state that the entry takes in the transaction of `recoverEntry`.
abbrev pub next_state : Bool → State
next_state referenced = if referenced then attached else deleting

abbrev pub recovered : Config → ℕ → Bool → StoredObject → StoredObject
recovered c now referenced e =
    if state_eq (next_state referenced) e.state
    then e
    else set_state (next_state referenced)
        (if referenced then none else some (lease_from_now c now)) e

unfoldable pub recover_tx : Config → ℕ → StoredObject → World → World × Decision
recover_tx c now entry w = elim (find_object entry.id (state_eq entry.state) w.objects) [
  | none ↦ (w, skip)
  | some current ↦
      let referenced = is_referenced w current.kind entry.organization_id current.key in
      let written = record w {
        objects =
            update_object entry.id (state_eq entry.state) (recovered c now referenced) w.objects;
      } in
      (
        if is_reserved current.state
            then inc_usage current.organization_id (store_inc current.bytes) written
            else written,
        if referenced then kept else delete,
      )
]

-- After the transaction; `none` is a thrown error.
unfoldable pub recover_after :
    Config → ℕ → Attempt → StoredObject → Cleanup → World → World × Option RecoveryOutcome
recover_after c now a entry deleted w =
    if a.available
    then (let (w', done) = release entry.id deleting w in
        (w', some (if done then released else skipped)))
    else (w, none)
recover_after c now a entry _ w =
    if a.postponed then (postpone c now entry w, some retry) else (w, none)

unfoldable pub recover_decided :
    Config → ℕ → Attempt → StoredObject → Decision → World → World × Option RecoveryOutcome
unfolding recover_after
recover_decided c now a entry kept w = (w, some reattached)
recover_decided c now a entry skip w = (w, some skipped)
recover_decided c now a entry delete w =
    recover_after c now a entry
      (delete_stored_object c (some (record { key = entry.key; storage = some entry.storage }))
        (prefix_for_kind entry.kind entry.organization_id) a.sent)
      w

unfoldable pub recover_entry :
    Config → ℕ → Attempt → StoredObject → World → World × Option RecoveryOutcome
unfolding recover_tx recover_decided
recover_entry c now a entry w =
    if a.begun
    then (let (w', decision) = recover_tx c now entry w in
        recover_decided c now a entry decision w')
    else (w, none)

-- The body of the loop of `recover`, its error handler included.
unfoldable pub recover_one : Config → ℕ → Attempt → StoredObject → World → World × RecoveryOutcome
unfolding recover_entry
recover_one c now a entry w =
    let (w', outcome) = recover_entry c now a entry w in
    (
      elim outcome [
        | some o ↦ w'
        | none ↦ if a.postponed_again then postpone c now entry w' else w'
      ],
      or_else outcome retry,
    )

pub record RecoveryReport : Type 0 where
  pub examined : ℕ
  pub released : ℕ
  pub attached : ℕ
  pub retry : ℕ
  pub skipped : ℕ

-- `report[outcome] += 1`
unfoldable pub count_outcome : RecoveryOutcome → RecoveryReport → RecoveryReport
count_outcome released r = record r { released = r.released + 1 }
count_outcome reattached r = record r { attached = r.attached + 1 }
count_outcome retry r = record r { retry = r.retry + 1 }
count_outcome skipped r = record r { skipped = r.skipped + 1 }

module _ (c : Config) (now : ℕ) (attempts : StoredObject → Attempt) where
  unfoldable pub recover_loop : List StoredObject → RecoveryReport → World → World × RecoveryReport
  unfolding recover_one count_outcome
  recover_loop [] r w = (w, r)
  recover_loop (entry ∷ entries) r w =
      let (w', outcome) = recover_one c now (attempts entry) entry w in
      recover_loop entries (count_outcome outcome r) w'

-- `state ∈ {reserved, uploaded, deleting}`, `leaseUntil ≤ now`, and the organization if one is given.
unfoldable pub is_due : ℕ → Option String → StoredObject → Bool
is_due now org e =
    not (is_attached e.state)
    && elim e.lease_until [ none ↦ false | some t ↦ leb t now ]
    && elim org [ none ↦ true | some o ↦ str_eq e.organization_id o ]

-- `.sort({ leaseUntil: 1 })`
by_lease : StoredObject → List StoredObject → List StoredObject
by_lease e [] = e ∷ []
by_lease e (x ∷ xs) =
    if leb (or_else e.lease_until 0) (or_else x.lease_until 0)
    then e ∷ x ∷ xs
    else x ∷ by_lease e xs

sort_by_lease : List StoredObject → List StoredObject
unfolding by_lease
sort_by_lease [] = []
sort_by_lease (e ∷ es) = by_lease e (sort_by_lease es)

first : ℕ → List StoredObject → List StoredObject
first zero es = []
first (suc n) [] = []
first (suc n) (e ∷ es) = e ∷ first n es

unfoldable pub due_entries : ℕ → Option String → ℕ → World → List StoredObject
unfolding is_due sort_by_lease first
due_entries now org limit w = first limit (sort_by_lease (filter (is_due now org) w.objects))

unfoldable pub recover :
    Config → ℕ → (StoredObject → Attempt) → Option String → ℕ → World → World × RecoveryReport
unfolding due_entries recover_loop
recover c now attempts org limit w =
    let entries = due_entries now org limit w in
    recover_loop c now attempts entries
      (record { examined = length entries; released = 0; attached = 0; retry = 0; skipped = 0 }) w

-- What a reservation's answer leaves. After a thrown error the counter that was created stays.
unfoldable pub conclude : String → World → Result (World × Bool) → World × Result (Unit {0})
conclude org w (err e) = (ensure_usage org w, err e)
conclude org w (ok (w', true)) = (w', ok tt)
conclude org w (ok (w', false)) = (w', err quota_exceeded)

-- A refused reservation is tried once more, if a recovery of the organization released something.
unfoldable pub or_reject :
    Config
    → ℕ
    → (StoredObject → Attempt)
    → StagedObject
    → World
    → Result (World × Bool)
    → World × Result (Unit {0})
unfolding reserve recover conclude
or_reject c now attempts staged w (ok (w', false)) =
    let (w'', report) = recover c now attempts (some staged.organization_id) 50 w' in
    if ltb 0 report.released
    then conclude staged.organization_id w'' (reserve c now staged w'')
    else (w'', err quota_exceeded)
or_reject c now attempts staged w answer = conclude staged.organization_id w answer

unfoldable pub reserve_or_reject :
    Config → ℕ → (StoredObject → Attempt) → StagedObject → World → World × Result (Unit {0})
unfolding reserve or_reject
reserve_or_reject c now attempts staged w =
    or_reject c now attempts staged w (reserve c now staged w)

-- `during` is what other requests commit while the file is sent; `arrived` is whether it was.
unfoldable pub send :
    Config
    → ℕ
    → Bool
    → (World → World)
    → StagedObject
    → World
    → Result (Unit {0})
    → World × Result StagedObject
send c now arrived during staged w (err e) = (w, err e)
send c now arrived during staged w (ok _) =
    if arrived
    then (let (w', marked) = mark_uploaded c now staged (during w) in
        (w', if marked then ok staged else err interrupted))
    else (abandon_reservation c now staged (during w), err upload_failed)

unfoldable pub store :
    Config
    → ℕ
    → (StoredObject → Attempt)
    → Bool
    → (World → World)
    → StagedObject
    → World
    → World × Result StagedObject
unfolding reserve_or_reject send
store c now attempts arrived during staged w =
    if is_some c.storage
    then (let (w', reservation) = reserve_or_reject c now attempts staged w in
        send c now arrived during staged w' reservation)
    else (w, err not_configured)
