-- ===== src/Subscriptions/Growth.antt =====
-- What an answered grant of api/src/subscriptions/subscriptions.service.ts leaves in the ledger, and that
-- no later period hides it.
use royalvibe_cosmetic.Common.{
  ◌≡◌, subst, String, Bool, true, false, some, List, [], ◌∷◌, any, find, arith, eq_iff, Bool-cases,
  Option-cases, ◌⊎◌, inl, inr,
}
use royalvibe_cosmetic.Subscriptions.Calendar.{Date}
use royalvibe_cosmetic.Subscriptions.Requests.{
  SubscriptionSource, ok, ValidatedGrantRequest, GrantInput, validate,
}
use royalvibe_cosmetic.Subscriptions.Grants.{
  SubscriptionPeriod, Ledger, GrantedView, source_eq, by_reference, same_request, create,
  granted_period, apply_new_grant, apply_grant, answer, grant_subscription_in_session,
}
use royalvibe_cosmetic.Subscriptions.Renewal.{Result-cases, create-adds}
use royalvibe_cosmetic.Subscriptions.Replay.{Settled, apply_grant-Settled, source_eq_refl}

pub create-periods :
    (p : SubscriptionPeriod) (w w' : Ledger) → create p w ≡ ok w' → w'.periods ≡ p ∷ w.periods
create-periods p w w' e = elim (create-adds p w) [
  | inl (error, refusal) ↦ absurd (ground arith)
  | inr created ↦ ground arith
]

-- The new period has none of the references that are there.
create-fresh :
    (p : SubscriptionPeriod) (w w' : Ledger)
    → create p w ≡ ok w'
    → any (by_reference p.source p.source_reference) w.periods ≡ false
unfolding create
create-fresh p w w' e = ground arith

source_eq-eq : (s t : SubscriptionSource) → source_eq s t ≡ true → s ≡ t
source_eq-eq s t h = ground arith

find-any :
    (source : SubscriptionSource) (reference : String) (p : SubscriptionPeriod)
    (ps : List SubscriptionPeriod) (q : SubscriptionPeriod)
    → find (by_reference source reference) ps ≡ some q
    → by_reference source reference p ≡ true
    → any (by_reference p.source p.source_reference) ps ≡ true
find-any source reference p [] q h b = cc
find-any source reference p (x ∷ ps) q h b = ground (
  arith,
  source_eq-eq x.source source,
  source_eq-eq p.source source,
  source_eq_refl source,
  eq_iff x.source_reference reference,
  eq_iff p.source_reference reference,
  eq_iff x.source_reference p.source_reference,
  find-any source reference p ps q,
)

pub create-find :
    (source : SubscriptionSource) (reference : String) (p q : SubscriptionPeriod) (w w' : Ledger)
    → create p w ≡ ok w'
    → find (by_reference source reference) w.periods ≡ some q
    → find (by_reference source reference) w'.periods ≡ some q
create-find source reference p q w w' e found =
    elim (Bool-cases (by_reference source reference p)) [
      | inl clash ↦
          let there : any (by_reference p.source p.source_reference) w.periods ≡ true =
            find-any source reference p w.periods q found clash in
          let fresh = create-fresh p w w' e in absurd (ground arith)
      | inr other ↦ rw (create-periods p w w' e) (rw other found)
    ]

-- What an answer says of the ledger after it.
pub record Answered (input : GrantInput) (w w' : Ledger) (view : GrantedView) : Type 0 where
  pub request : ValidatedGrantRequest
  pub valid : validate input ≡ some request
  pub found :
      find (by_reference request.source request.source_reference) w'.periods ≡ some view.period
  pub agrees : same_request view.period request ≡ true
  pub grown : (w' ≡ w) ⊎ (create view.period w ≡ ok w')

apply_grant-grown :
    (now : Date) (id : String) (request : ValidatedGrantRequest) (w w' : Ledger)
    (p : SubscriptionPeriod) (replayed : Bool)
    → apply_grant now id request w ≡ ok (w', p, replayed)
    → (w' ≡ w) ⊎ (create p w ≡ ok w')
unfolding apply_grant apply_new_grant
apply_grant-grown now id request w w' p replayed e =
    elim (Option-cases (find (by_reference request.source request.source_reference) w.periods)) [
      | inr (q, found) ↦ inl (ground arith)
      | inl missing ↦ elim (Result-cases (create (granted_period now id request w.periods) w)) [
        | inl (error, refusal) ↦ absurd (ground arith)
        | inr (w1, created) ↦
            let same_w : w1 ≡ w' = ground arith in
            let same_p : granted_period now id request w.periods ≡ p = ground arith in
            inr (rw (← same_w, ← same_p) created)
      ]
    ]

pub grant_subscription_in_session-Answered :
    (now : Date) (id : String) (input : GrantInput) (w w' : Ledger) (view : GrantedView)
    → grant_subscription_in_session true now id input w ≡ ok (w', view)
    → Answered input w w' view
unfolding grant_subscription_in_session answer
grant_subscription_in_session-Answered now id input w w' view e =
    elim (Option-cases (validate input)) [
      | inl invalid ↦ absurd (ground arith)
      | inr (request, valid) ↦ elim (Result-cases (apply_grant now id request w)) [
        | inl (error, refusal) ↦ absurd (ground arith)
        | inr ((w1, p, replayed), done) ↦
            let (found, fresh) =
              subst (Settled request) done (apply_grant-Settled now id request w) in
            let same_w : w1 ≡ w' = ground arith in
            let same_p : p ≡ view.period = ground arith in
            let agrees : same_request p request ≡ true = ground (arith, fresh) in
            let grown = apply_grant-grown now id request w w1 p replayed done in
            rw (← same_w, ← same_p)
              (record {
                request = request;
                valid = valid;
                found = found;
                agrees = agrees;
                grown = grown;
              })
      ]
    ]
