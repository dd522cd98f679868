-- ===== src/Subscriptions/Renewal.antt =====
-- What the grants of api/src/subscriptions/subscriptions.service.ts do to the chain of periods, on
-- every outcome.
use royalvibe_cosmetic.Common.{
  total, ℕ, zero, suc, ◌≤◌, ◌≡◌, refl, subst, String, Bool, true, false, ◌&&◌, not, Option, none,
  ◌∷◌, any, find, is_some, ◌==◌, str_eq, if◌then◌else◌, Bool-cases, Option-cases, ◌⊎◌, inl, inr,
}
use royalvibe_cosmetic.Subscriptions.Calendar.{Date, get_time, IsValid}
use royalvibe_cosmetic.Subscriptions.Requests.{
  GrantError, duplicate_reference, duplicate_sequence, duplicate_trial, Result, ok, err,
  ValidatedGrantRequest, GrantInput, validate,
}
use royalvibe_cosmetic.Subscriptions.Grants.{
  SubscriptionPeriod, Ledger, is_trial, of_org, granted_period, create, by_reference, same_request,
  apply_new_grant, apply_grant, answer, grant_subscription_in_session, GrantedView, Turn, Report,
  commits, expires, collides, attempt, attempts_loop, run_in_grant_transaction, grant_subscription,
  work_of, is_retryable, out_of_time, max_grant_attempts,
}
use royalvibe_cosmetic.Subscriptions.Chain.{
  IsChained-exclusive, covering, Follows, IsChained, granted_period-Follows,
}

pub Result-cases {ℓ} :
    {A : Type ℓ} (r : Result A) → ((e : GrantError) × (r ≡ err e)) ⊎ ((a : A) × (r ≡ ok a))
Result-cases (ok a) = inr (a, refl)
Result-cases (err e) = inl (e, refl)

-- A guard that refuses leaves the two outcomes of what follows it.
abbrev Outcome {ℓ} : {A : Type ℓ} → Result A → Result A → Type ℓ
Outcome r good = ((e : GrantError) × (r ≡ err e)) ⊎ (r ≡ good)

refuses {ℓ} :
    {A : Type ℓ} (b : Bool) (d : GrantError) {r good : Result A}
    → Outcome r good
    → Outcome (if b then err d else r) good
refuses true d o = inl (d, refl)
refuses false d o = o

pub create-adds :
    (p : SubscriptionPeriod) (w : Ledger)
    → Outcome (create p w) (ok (record w { periods = p ∷ w.periods }))
unfolding create
create-adds p w =
    refuses (any (by_reference p.source p.source_reference) w.periods) duplicate_reference (
      refuses (any (λ q. of_org p.organization_id q && q.sequence == p.sequence) w.periods)
        duplicate_sequence
        (refuses
          (is_trial p.kind && any (λ q. of_org p.organization_id q && is_trial q.kind) w.periods)
          duplicate_trial (inr refl)))

-- What a grant may do to the ledger: leave it alone, or add the one period that follows.
pub data IsGrant (now : Date) (w : Ledger) : Ledger → SubscriptionPeriod → Bool → Type 0 where
  replays : (p : SubscriptionPeriod) → IsGrant now w w p true
  extends :
      (p : SubscriptionPeriod)
      → Follows p w.periods
      → get_time now ≤ get_time p.starts_at
      → IsGrant now w (record w { periods = p ∷ w.periods }) p false

abbrev Grants : Date → Ledger → Result (Ledger × SubscriptionPeriod × Bool) → Type 0
Grants now w (err e) = Unit
Grants now w (ok (w', p, replayed)) = IsGrant now w w' p replayed

apply_new_grant-Grants :
    (now : Date) (id : String) (request : ValidatedGrantRequest) (w : Ledger)
    → IsValid now
    → IsChained w.periods
    → Grants now w (apply_new_grant now id request w)
unfolding apply_new_grant
apply_new_grant-Grants now id request w v h =
    let period = granted_period now id request w.periods in
    let (follows, from_now) = granted_period-Follows now id request w.periods v h in
    elim (Bool-cases (any (λ org. str_eq org request.organization_id) w.organizations)) [
      | inl known ↦ elim (create-adds period w) [
        | inl (e, refused) ↦ rw (known, refused) tt
        | inr created ↦ rw (known, created) (extends period follows from_now)
      ]
      | inr unknown ↦ rw unknown tt
    ]

apply_grant-Grants :
    (now : Date) (id : String) (request : ValidatedGrantRequest) (w : Ledger)
    → IsValid now
    → IsChained w.periods
    → Grants now w (apply_grant now id request w)
unfolding apply_grant
apply_grant-Grants now id request w v h =
    elim (Option-cases (find (by_reference request.source request.source_reference) w.periods)) [
      | inr (p, found) ↦ rw (found, apply_grant) (replays p)
      | inl missing ↦ rw (missing, apply_grant) (apply_new_grant-Grants now id request w v h)
    ]

-- The same of the caller's answer.
abbrev Answers : Date → Ledger → Result (Ledger × GrantedView) → Type 0
Answers now w (err e) = Unit
Answers now w (ok (w', view)) = IsGrant now w w' view.period view.replayed

answer-Answers :
    (now : Date) (w : Ledger) (request : ValidatedGrantRequest)
    (r : Result (Ledger × SubscriptionPeriod × Bool))
    → Grants now w r
    → Answers now w (answer request r)
unfolding answer
answer-Answers now w request (err e) g = tt
answer-Answers now w request (ok (w', p, replayed)) g =
    elim (Bool-cases (replayed && not (same_request p request))) [
      | inl conflict ↦ rw (conflict, answer) tt
      | inr fine ↦ rw (fine, answer) g
    ]

grant-Answers :
    (now : Date) (id : String) (input : GrantInput) (w : Ledger)
    → IsValid now
    → IsChained w.periods
    → Answers now w (grant_subscription_in_session true now id input w)
unfolding grant_subscription_in_session
grant-Answers now id input w v h = elim (Option-cases (validate input)) [
  | inl invalid ↦ rw (invalid, grant_subscription_in_session) tt
  | inr (request, valid) ↦
      rw (valid, grant_subscription_in_session)
        (answer-Answers now w request (apply_grant now id request w)
          (apply_grant-Grants now id request w v h))
]

-- A grant that answers either replays an earlier one and writes nothing, or adds exactly one period:
-- it takes the organization's next rank, starts neither before now nor before any of its periods
-- ends, and ends later than it starts.
pub grant_subscription_in_session-IsGrant :
    (now : Date) (id : String) (input : GrantInput) (w w' : Ledger) (view : GrantedView)
    → IsValid now
    → IsChained w.periods
    → grant_subscription_in_session true now id input w ≡ ok (w', view)
    → IsGrant now w w' view.period view.replayed
grant_subscription_in_session-IsGrant now id input w w' view v h e =
    subst (Answers now w) e (grant-Answers now id input w v h)

IsGrant-IsChained :
    {now : Date} {w w' : Ledger} {p : SubscriptionPeriod} {replayed : Bool}
    → IsGrant now w w' p replayed
    → IsChained w.periods
    → IsChained w'.periods
IsGrant-IsChained (replays p) h = h
IsGrant-IsChained (extends p follows from_now) h = (follows, h)

-- Every outcome of an attempt leaves a chain where it writes.
abbrev Keeps {ℓ} : {T : Type ℓ} → Result (Ledger × T) → Type 0
Keeps (err e) = Unit
Keeps (ok (w, _)) = IsChained w.periods

attempt-Keeps {ℓ} :
    {T : Type ℓ} (report : Report) (r : Result (Ledger × T)) → Keeps r → Keeps (attempt report r)
attempt-Keeps expires r k = tt
attempt-Keeps (collides e) r k = tt
attempt-Keeps commits r k = k

Answers-Keeps :
    (now : Date) (w : Ledger) (r : Result (Ledger × GrantedView))
    → Answers now w r
    → IsChained w.periods
    → Keeps r
Answers-Keeps now w (err e) a h = tt
Answers-Keeps now w (ok (w', view)) a h = IsGrant-IsChained a h

-- What other requests commit between two attempts keeps the chains, and the clock shows dates.
pub record AreSound (turns : ℕ → Turn Ledger) : Type 0 where
  pub others : (n : ℕ) (w : Ledger) → IsChained w.periods → IsChained ((turns n).before w).periods
  pub clock : (n : ℕ) → IsValid (turns n).now

work_of-Keeps :
    (input : GrantInput) (turn : Turn Ledger) (w : Ledger)
    → IsValid turn.now
    → IsChained w.periods
    → Keeps (work_of input turn w)
unfolding work_of
work_of-Keeps input turn w v h =
    Answers-Keeps turn.now w (grant_subscription_in_session true turn.now turn.id input w)
      (grant-Answers turn.now turn.id input w v h) h

attempts_loop-IsChained :
    (input : GrantInput) (deadline : Option ℕ) (turns : ℕ → Turn Ledger) (n : ℕ) (w : Ledger)
    → AreSound turns
    → IsChained w.periods
    → IsChained (attempts_loop (work_of input) deadline turns n w).0.periods
unfolding attempts_loop
attempts_loop-IsChained input deadline turns zero w s h = h
attempts_loop-IsChained input deadline turns (suc n) w s h =
    let turn = turns n in
    let k = s.others n w h in
    let result = attempt turn.report (work_of input turn (turn.before w)) in
    let kept : Keeps result =
      attempt-Keeps turn.report (work_of input turn (turn.before w))
        (work_of-Keeps input turn (turn.before w) (s.clock n) k) in
    elim (Bool-cases (out_of_time deadline turn.monotonic)) [
      | inl late ↦ rw (late, attempts_loop) k
      | inr in_time ↦ elim (Result-cases result) [
        | inr ((w', view), done) ↦ rw (in_time, done, attempts_loop) (subst Keeps done kept)
        | inl (e, failed) ↦ elim (Bool-cases (is_retryable e)) [
          | inl again ↦
              rw (in_time, failed, again, attempts_loop)
                (attempts_loop-IsChained input deadline turns n (turn.before w) s k)
          | inr gives_up ↦ rw (in_time, failed, gives_up, attempts_loop) k
        ]
      ]
    ]

-- Whatever other requests commit between the attempts, and however each attempt ends, a grant leaves
-- a chain of periods: no two periods of an organization overlap and their ranks have no gap.
pub grant_subscription-IsChained :
    (input : GrantInput) (turns : ℕ → Turn Ledger) (w : Ledger)
    → AreSound turns
    → IsChained w.periods
    → IsChained (grant_subscription input turns w).0.periods
unfolding grant_subscription run_in_grant_transaction
grant_subscription-IsChained input turns w s h =
    let request = record input { source = "manual" } in
    elim (Bool-cases (is_some (validate request))) [
      | inl valid ↦ rw valid (attempts_loop-IsChained request none turns max_grant_attempts w s h)
      | inr invalid ↦ rw invalid h
    ]

-- Whatever other requests commit between the attempts, and however each attempt ends, at most one period
-- of an organization covers any instant after a grant: no granted time is spent twice. The periods that
-- are there, and those that the others leave, are a chain.
pub grant_subscription-exclusive :
    (input : GrantInput) (turns : ℕ → Turn Ledger) (w : Ledger) (org : String) (t : ℕ)
    → AreSound turns
    → IsChained w.periods
    → total (covering org t) (grant_subscription input turns w).0.periods ≤ 1
grant_subscription-exclusive input turns w org t s h =
    IsChained-exclusive org t (grant_subscription input turns w).0.periods
      (grant_subscription-IsChained input turns w s h)
