-- ===== src/Subscriptions/Replay.antt =====
-- The idempotence of the grants of api/src/subscriptions/subscriptions.service.ts on
-- `{ source, sourceReference }`, and the trial as the first link of a chain.
use royalvibe_cosmetic.Common.{
  ℕ, ◌+◌, ◌≤◌, ◌≡◌, refl, sym, subst, ◌∙◌, String, Bool, true, false, ◌&&◌, not, none, some, List,
  [], ◌∷◌, any, find, str_eq, arith, eq_refl, Bool-cases, Option-cases, inl, inr, All,
}
use royalvibe_cosmetic.Subscriptions.Calendar.{Date, get_time}
use royalvibe_cosmetic.Subscriptions.Months.{
  SubscriptionTerm, monthly, quarterly, semiannual, annual,
}
use royalvibe_cosmetic.Subscriptions.State.{PeriodKind}
use royalvibe_cosmetic.Subscriptions.Instants.{trial_duration_ms, compute_trial_ends_at-exact}
use royalvibe_cosmetic.Subscriptions.Requests.{
  SubscriptionSource, trial, manual, payment, invalid_input, Result, ok, err, ValidatedGrantRequest,
  GrantInput, validate,
}
use royalvibe_cosmetic.Subscriptions.Grants.{
  SubscriptionPeriod, Ledger, of_org, granted_period, grant_trial, trial_period, end_time,
  by_reference, same_request, source_eq, term_eq, apply_new_grant, apply_grant, answer,
  grant_subscription_in_session, GrantedView,
}
use royalvibe_cosmetic.Subscriptions.Chain.{Follows, count_of}
use royalvibe_cosmetic.Subscriptions.Renewal.{create-adds}

pub source_eq_refl : (s : SubscriptionSource) → source_eq s s ≡ true
source_eq_refl trial = refl
source_eq_refl manual = refl
source_eq_refl payment = refl

term_eq_refl : (t : SubscriptionTerm) → term_eq t t ≡ true
term_eq_refl monthly = refl
term_eq_refl quarterly = refl
term_eq_refl semiannual = refl
term_eq_refl annual = refl

-- The ledger holds the period under the request's reference, and a new period is the request's.
abbrev pub Settled : ValidatedGrantRequest → Result (Ledger × SubscriptionPeriod × Bool) → Type 0
Settled request (err e) = Unit
Settled request (ok (w, p, replayed)) =
    (find (by_reference request.source request.source_reference) w.periods ≡ some p)
    × (replayed ≡ false → same_request p request ≡ true)

apply_new_grant-Settled :
    (now : Date) (id : String) (request : ValidatedGrantRequest) (w : Ledger)
    → Settled request (apply_new_grant now id request w)
unfolding apply_new_grant granted_period same_request
apply_new_grant-Settled now id request w =
    elim (Bool-cases (any (λ org. str_eq org request.organization_id) w.organizations)) [
      | inl known ↦ elim (create-adds (granted_period now id request w.periods) w) [
        | inl (e, refused) ↦ rw (known, refused) tt
        | inr created ↦
            rw (known, created)
              (
                rw (source_eq_refl request.source, eq_refl request.source_reference) refl,
                λ fresh. rw (eq_refl request.organization_id, term_eq_refl request.term) refl,
              )
      ]
      | inr unknown ↦ rw unknown tt
    ]

pub apply_grant-Settled :
    (now : Date) (id : String) (request : ValidatedGrantRequest) (w : Ledger)
    → Settled request (apply_grant now id request w)
unfolding apply_grant
apply_grant-Settled now id request w =
    elim (Option-cases (find (by_reference request.source request.source_reference) w.periods)) [
      | inr (p, found) ↦ rw (found, apply_grant) (found, λ fresh. absurd (ground arith))
      | inl missing ↦ rw (missing, apply_grant) (apply_new_grant-Settled now id request w)
    ]

-- An answer is given again by whoever asks for it again.
abbrev Repeats : ValidatedGrantRequest → Result (Ledger × GrantedView) → Type 0
Repeats request (err e) = Unit
Repeats request (ok (w, view)) =
    (now : Date) (id : String)
    → answer request (apply_grant now id request w)
      ≡ ok (w, record { period = view.period; replayed = true })

answer-Repeats :
    (request : ValidatedGrantRequest) (r : Result (Ledger × SubscriptionPeriod × Bool))
    → Settled request r
    → Repeats request (answer request r)
unfolding answer apply_grant
answer-Repeats request (err e) s = tt
answer-Repeats request (ok (w, p, replayed)) (found, fresh) =
    elim (Bool-cases (replayed && not (same_request p request))) [
      | inl conflict ↦ rw (conflict, answer) tt
      | inr fine ↦
          let same : same_request p request ≡ true = ground (arith, fresh) in
          rw (fine, answer) (λ now id. rw (found, apply_grant) (rw same refl))
    ]

grant-Repeats :
    (now : Date) (id : String) (input : GrantInput) (request : ValidatedGrantRequest) (w : Ledger)
    → validate input ≡ some request
    → Repeats request (grant_subscription_in_session true now id input w)
unfolding grant_subscription_in_session
grant-Repeats now id input request w valid =
    rw (valid, grant_subscription_in_session)
      (answer-Repeats request (apply_grant now id request w) (apply_grant-Settled now id request w))

grant-invalid :
    (now : Date) (id : String) (input : GrantInput) (w : Ledger)
    → validate input ≡ none
    → grant_subscription_in_session true now id input w ≡ err invalid_input
unfolding grant_subscription_in_session
grant-invalid now id input w invalid = rw (invalid, grant_subscription_in_session) refl

-- A request that was answered is answered again with the same period, at any later time and under
-- any fresh identifier, and the second answer writes nothing: a reference is never granted twice.
pub grant_subscription_in_session-idempotent :
    (now later : Date) (id fresh_id : String) (input : GrantInput) (w w' : Ledger)
    (view : GrantedView)
    → grant_subscription_in_session true now id input w ≡ ok (w', view)
    → grant_subscription_in_session true later fresh_id input w'
      ≡ ok (w', record { period = view.period; replayed = true })
unfolding grant_subscription_in_session
grant_subscription_in_session-idempotent now later id fresh_id input w w' view e =
    elim (Option-cases (validate input)) [
      | inl invalid ↦
          let clash : err invalid_input ≡ ok (w', view) =
            sym (grant-invalid now id input w invalid) ∙ e in
          absurd cc
      | inr (request, valid) ↦
          let again : Repeats request (ok (w', view)) =
            subst (Repeats request) e (grant-Repeats now id input request w valid) in
          rw (valid, grant_subscription_in_session) (again later fresh_id)
    ]

any-count_of :
    (org : String) (ps : List SubscriptionPeriod)
    → any (of_org org) ps ≡ false
    → count_of org ps ≡ 0
any-count_of org [] h = refl
any-count_of org (p ∷ ps) h = let rest = any-count_of org ps in ground arith

any-after :
    (org : String) (t : ℕ) (ps : List SubscriptionPeriod)
    → any (of_org org) ps ≡ false
    → All (λ q. of_org org q ≡ true → end_time q ≤ t) ps
any-after org t [] h = tt
any-after org t (p ∷ ps) h = (λ mine. absurd (ground arith), any-after org t ps (ground arith))

trial_period-Follows :
    (now : Date) (id org : String) (ps : List SubscriptionPeriod)
    → any (of_org org) ps ≡ false
    → Follows (trial_period now id org) ps
unfolding trial_period
trial_period-Follows now id org ps first =
    let (valid, exact) = compute_trial_ends_at-exact now in
    record {
      rank = rw (any-count_of org ps first) refl;
      after = any-after org (get_time now) ps first;
      lasts = omega (arith, exact);
      end_valid = valid;
    }

abbrev Begins : Ledger → String → Date → Result Ledger → Type 0
Begins w org now (err e) = Unit
Begins w org now (ok w') =
    (p : SubscriptionPeriod) × (w'.periods ≡ p ∷ w.periods)
    × Follows p w.periods
    × (count_of org w'.periods ≡ 1)
    × (p.organization_id ≡ org)
    × (p.kind ≡ PeriodKind.trial)
    × (p.starts_at ≡ now)
    × (end_time p ≡ get_time p.starts_at + trial_duration_ms)

grant_trial-Begins :
    (now : Date) (id org : String) (w : Ledger) → Begins w org now (grant_trial now id org w)
unfolding grant_trial trial_period
grant_trial-Begins now id org w = elim (Bool-cases (any (of_org org) w.periods)) [
  | inl there ↦ rw (there, grant_trial) tt
  | inr first ↦ elim (create-adds (trial_period now id org) w) [
    | inl (e, refused) ↦ rw (first, refused, grant_trial) tt
    | inr created ↦
        rw (first, created, grant_trial)
          (
            trial_period now id org,
            refl,
            trial_period-Follows now id org w.periods first,
            rw (eq_refl org, any-count_of org w.periods first) refl,
            refl,
            refl,
            refl,
            (compute_trial_ends_at-exact now).1,
          )
  ]
]

-- A trial that is granted adds one period, of kind trial and of the organization asked for, to a ledger
-- that has none of that organization: it follows the periods there, so that its rank is 1, and it starts
-- now and ends exactly seven days later.
pub grant_trial-first :
    (now : Date) (id org : String) (w w' : Ledger)
    → grant_trial now id org w ≡ ok w'
    → (p : SubscriptionPeriod) × (w'.periods ≡ p ∷ w.periods)
      × Follows p w.periods
      × (count_of org w'.periods ≡ 1)
      × (p.organization_id ≡ org)
      × (p.kind ≡ PeriodKind.trial)
      × (p.starts_at ≡ now)
      × (end_time p ≡ get_time p.starts_at + trial_duration_ms)
grant_trial-first now id org w w' e = subst (Begins w org now) e (grant_trial-Begins now id org w)
