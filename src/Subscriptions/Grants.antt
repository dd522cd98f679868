-- ===== src/Subscriptions/Grants.antt =====
-- `SubscriptionsService` of api/src/subscriptions/subscriptions.service.ts: the trial, a grant in the
-- caller's transaction, and the bounded repetition of a transaction.
use Prim.Native.String.{◌++◌}
use royalvibe_cosmetic.Common.{
  ℕ, zero, suc, ◌+◌, String, Bool, true, false, ◌&&◌, not, Option, none, some, List, [], ◌∷◌, any,
  find, is_some, ltb, ◌==◌, str_eq, if◌then◌else◌,
}
use royalvibe_cosmetic.Subscriptions.Calendar.{Date, get_time}
use royalvibe_cosmetic.Subscriptions.Months.{
  SubscriptionTerm, monthly, quarterly, semiannual, annual, compute_subscription_ends_at,
}
use royalvibe_cosmetic.Subscriptions.Instants.{compute_trial_ends_at}
use royalvibe_cosmetic.Subscriptions.State.{PeriodKind, trial, subscription}
use royalvibe_cosmetic.Subscriptions.Requests.{
  SubscriptionSource, manual, payment, GrantError, invalid_input, organization_not_found,
  reference_conflict, trial_already_granted, grant_contention, grant_timeout, transaction_required,
  invalid_budget, duplicate_reference, duplicate_sequence, duplicate_trial, Result, ok, err,
  GrantInput, ValidatedGrantRequest, validate,
}

pub record SubscriptionPeriod : Type 0 where
  pub id : String
  pub organization_id : String
  pub sequence : ℕ
  pub kind : PeriodKind
  pub term : Option SubscriptionTerm
  pub starts_at : Date
  pub ends_at : Date
  pub source : SubscriptionSource
  pub source_reference : String
  pub granted_by : String
  pub previous_period_id : Option String

-- The collection of periods, the newest first, and the identifiers of the organizations.
pub record Ledger : Type 0 where
  pub periods : List SubscriptionPeriod
  pub organizations : List String

abbrev pub of_org : String → SubscriptionPeriod → Bool
of_org org p = str_eq p.organization_id org

abbrev pub source_eq : SubscriptionSource → SubscriptionSource → Bool
source_eq SubscriptionSource.trial SubscriptionSource.trial = true
source_eq manual manual = true
source_eq payment payment = true
source_eq _ _ = false

abbrev pub is_trial : PeriodKind → Bool
is_trial trial = true
is_trial subscription = false

abbrev pub term_eq : SubscriptionTerm → SubscriptionTerm → Bool
term_eq monthly monthly = true
term_eq quarterly quarterly = true
term_eq semiannual semiannual = true
term_eq annual annual = true
term_eq _ _ = false

abbrev pub by_reference : SubscriptionSource → String → SubscriptionPeriod → Bool
by_reference source reference p = source_eq p.source source && str_eq p.source_reference reference

-- `create`, under the three unique indexes.
unfoldable pub create : SubscriptionPeriod → Ledger → Result Ledger
create p w =
    if any (by_reference p.source p.source_reference) w.periods
    then err duplicate_reference
    else if any (λ q. of_org p.organization_id q && q.sequence == p.sequence) w.periods
    then err duplicate_sequence
    else if is_trial p.kind && any (λ q. of_org p.organization_id q && is_trial q.kind) w.periods
    then err duplicate_trial
    else ok (record w { periods = p ∷ w.periods })

unfoldable pub trial_source_reference : String → String
trial_source_reference organization_id = "trial:" ++ organization_id

unfoldable pub trial_period : Date → String → String → SubscriptionPeriod
unfolding trial_source_reference
trial_period now id org = record {
  id = id;
  organization_id = org;
  sequence = 1;
  kind = trial;
  term = none;
  starts_at = now;
  ends_at = compute_trial_ends_at now;
  source = SubscriptionSource.trial;
  source_reference = trial_source_reference org;
  granted_by = "system";
  previous_period_id = none;
}

unfoldable pub grant_trial : Date → String → String → Ledger → Result Ledger
unfolding create trial_period
grant_trial now id org w =
    if any (of_org org) w.periods
    then err trial_already_granted
    else create (trial_period now id org) w

-- The document that a descending sort on a number of the period puts first.
unfoldable pub greatest :
    (SubscriptionPeriod → ℕ) → String → List SubscriptionPeriod → Option SubscriptionPeriod
greatest rank org [] = none
greatest rank org (p ∷ ps) = elim (greatest rank org ps) [
  | none ↦ if of_org org p then some p else none
  | some q ↦ if of_org org p && ltb (rank q) (rank p) then some p else some q
]

abbrev pub rank_of : (SubscriptionPeriod → ℕ) → Option SubscriptionPeriod → ℕ
rank_of rank none = 0
rank_of rank (some p) = rank p

abbrev pub end_time : SubscriptionPeriod → ℕ
end_time p = get_time p.ends_at

abbrev pub ends_at_of : Option SubscriptionPeriod → Option Date
ends_at_of none = none
ends_at_of (some p) = some p.ends_at

abbrev id_of : Option SubscriptionPeriod → Option String
id_of none = none
id_of (some p) = some p.id

unfoldable pub compute_renewal_starts_at : Date → Option Date → Date
compute_renewal_starts_at now none = now
compute_renewal_starts_at now (some end) = if ltb (get_time now) (get_time end) then end else now

-- The period that a new grant creates.
unfoldable pub granted_period :
    Date → String → ValidatedGrantRequest → List SubscriptionPeriod → SubscriptionPeriod
unfolding greatest compute_renewal_starts_at
granted_period now id request ps =
    let last = greatest SubscriptionPeriod.sequence request.organization_id ps in
    let latest_end = greatest end_time request.organization_id ps in
    let starts_at = compute_renewal_starts_at now (ends_at_of latest_end) in
    record {
      id = id;
      organization_id = request.organization_id;
      sequence = rank_of SubscriptionPeriod.sequence last + 1;
      kind = subscription;
      term = some request.term;
      starts_at = starts_at;
      ends_at = compute_subscription_ends_at starts_at request.term;
      source = request.source;
      source_reference = request.source_reference;
      granted_by = request.granted_by;
      previous_period_id = id_of last;
    }

-- Without a period of that reference.
unfoldable pub apply_new_grant :
    Date → String → ValidatedGrantRequest → Ledger → Result (Ledger × SubscriptionPeriod × Bool)
unfolding granted_period create
apply_new_grant now id request w =
    if any (λ org. str_eq org request.organization_id) w.organizations
    then (let period = granted_period now id request w.periods in
        elim (create period w) [ ok w' ↦ ok (w', period, false) | err e ↦ err e ])
    else err organization_not_found

unfoldable pub apply_grant :
    Date → String → ValidatedGrantRequest → Ledger → Result (Ledger × SubscriptionPeriod × Bool)
unfolding apply_new_grant
apply_grant now id request w =
    elim (find (by_reference request.source request.source_reference) w.periods) [
      | some existing ↦ ok (w, existing, true)
      | none ↦ apply_new_grant now id request w
    ]

unfoldable pub same_request : SubscriptionPeriod → ValidatedGrantRequest → Bool
same_request period request =
    str_eq period.organization_id request.organization_id
    && (not (is_trial period.kind)
        && elim period.term [ none ↦ false | some t ↦ term_eq t request.term ])

-- `toGrantedView`: the period, and whether it was there already.
pub record GrantedView : Type 0 where
  pub period : SubscriptionPeriod
  pub replayed : Bool

-- `assertSameRequest` on a replay, then the view.
unfoldable pub answer :
    ValidatedGrantRequest
    → Result (Ledger × SubscriptionPeriod × Bool)
    → Result (Ledger × GrantedView)
unfolding same_request
answer request (err e) = err e
answer request (ok (w, period, replayed)) =
    if replayed && not (same_request period request)
    then err reference_conflict
    else ok (w, record { period = period; replayed = replayed })

unfoldable pub grant_subscription_in_session :
    Bool → Date → String → GrantInput → Ledger → Result (Ledger × GrantedView)
unfolding apply_grant answer
grant_subscription_in_session false now id input w = err transaction_required
grant_subscription_in_session true now id input w = elim (validate input) [
  | none ↦ err invalid_input
  | some request ↦ answer request (apply_grant now id request w)
]

-- What the driver reports of one transaction.
pub data Report : Type 0 where
  commits expires : Report
  collides : GrantError → Report

-- One attempt: what others committed before it, the two clocks, the fresh identifier, and the
-- driver's report on it.
pub record Turn (State : Type 0) : Type 0 where
  pub before : State → State
  pub monotonic : ℕ
  pub now : Date
  pub id : String
  pub report : Report

abbrev pub is_retryable : GrantError → Bool
is_retryable duplicate_reference = true
is_retryable duplicate_sequence = true
is_retryable _ = false

abbrev pub max_grant_attempts : ℕ
max_grant_attempts = 5

-- The transaction as the caller sees it: a write that fails undoes it.
abbrev pub attempt {ℓ} :
    {State : Type 0} {T : Type ℓ} → Report → Result (State × T) → Result (State × T)
attempt expires _ = err grant_timeout
attempt (collides e) _ = err e
attempt commits r = r

-- `floor(deadline - monotonic()) < 1`
abbrev pub out_of_time : Option ℕ → ℕ → Bool
out_of_time none _ = false
out_of_time (some deadline) t = ltb deadline (t + 1)

-- The loop, with the attempts left and the turn of each.
unfoldable pub attempts_loop {ℓ} :
    {State : Type 0} {T : Type ℓ}
    → (Turn State → State → Result (State × T))
    → Option ℕ
    → (ℕ → Turn State)
    → ℕ
    → State
    → State × Result T
attempts_loop work deadline turns zero w = (w, err grant_contention)
attempts_loop work deadline turns (suc n) w =
    let turn = turns n in
    let w' = turn.before w in
    elim (out_of_time deadline turn.monotonic) [
      | true ↦ (w', err grant_timeout)
      | false ↦ elim (attempt turn.report (work turn w')) [
        | ok (w'', value) ↦ (w'', ok value)
        | err e ↦ elim (is_retryable e) [
          | true ↦ attempts_loop work deadline turns n w'
          | false ↦ (w', err e)
        ]
      ]
    ]

-- The budget, if one is given, counts from the first reading of the monotonic clock.
unfoldable pub run_in_grant_transaction {ℓ} :
    {State : Type 0} {T : Type ℓ}
    → (Turn State → State → Result (State × T))
    → ℕ
    → Option ℕ
    → (ℕ → Turn State)
    → State
    → State × Result T
unfolding attempts_loop
run_in_grant_transaction work started none turns w =
    attempts_loop work none turns max_grant_attempts w
run_in_grant_transaction work started (some budget) turns w =
    if budget == 0
    then (w, err invalid_budget)
    else attempts_loop work (some (started + budget)) turns max_grant_attempts w

unfoldable pub work_of : GrantInput → Turn Ledger → Ledger → Result (Ledger × GrantedView)
unfolding grant_subscription_in_session
work_of input turn w = grant_subscription_in_session true turn.now turn.id input w

unfoldable pub grant_subscription :
    GrantInput → (ℕ → Turn Ledger) → Ledger → Ledger × Result GrantedView
unfolding run_in_grant_transaction work_of
grant_subscription input turns w =
    let request = record input { source = "manual" } in
    if is_some (validate request)
    then run_in_grant_transaction (work_of request) 0 none turns w
    else (w, err invalid_input)
