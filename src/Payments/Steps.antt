-- ===== src/Payments/Steps.antt =====
-- Each write of api/src/subscriptions/payments/subscription-payments.service.ts has one of the effects.
use Prim.Native.String.{◌++◌}
use royalvibe_cosmetic.Common.{
  ℕ, ◌≡◌, refl, sym, subst, ◌∙◌, String, Bool, true, false, ◌&&◌, ◌||◌, not, none, some, List, [],
  ◌∷◌, any, is_some, str_eq, if◌then◌else◌, arith, eq_iff, Bool-cases, Option-cases, inl, inr,
}
use royalvibe_cosmetic.Subscriptions.Calendar.{Date, get_time}
use royalvibe_cosmetic.Subscriptions.Requests as Grant
use royalvibe_cosmetic.Subscriptions.Requests.{SubscriptionSource}
use royalvibe_cosmetic.Subscriptions.Grants.{grant_subscription_in_session}
use royalvibe_cosmetic.Subscriptions.Renewal.{Result-cases}
use royalvibe_cosmetic.Payments.Model.{
  SubscriptionPaymentStatus, succeeded, SubscriptionPayment, World, ProviderPaymentStatus,
  is_succeeded, is_finalizable, is_initiating,
}
use royalvibe_cosmetic.Payments.Requests.{payment_grant_input, concordant, fits_reference}
use royalvibe_cosmetic.Payments.Registry.{
  find_payment, put_payment, is_open_of, is_operation, inserted, insert_payment, Update, matched,
  update_payment, adopt_reference, is_taken,
}
use royalvibe_cosmetic.Payments.Writes.{
  transition, mark_review, mark_unreachable, mark_uncertain, mark_rejected, mark_checked,
  as_pending, as_failed, adopt_pending, adopt_failure, note_late_failure, FinalizeOutcome,
  finalize_tx, grant_and_mark_succeeded, payment_succeeded_in_session,
}
use royalvibe_cosmetic.Payments.Service.{is_unanswered}
use royalvibe_cosmetic.Payments.Trace.{
  IsNew, Step, reserving, not_sent, lost_answer, refused, waiting, failing, failing_late, reviewing,
  checking, confirming, granting, pushing,
}
use royalvibe_cosmetic.Payments.Lists.{find_payment_id}
use royalvibe_cosmetic.Payments.Effects.{Change, Effect, same, changes, adds, pays, grows}

abbrev Updates : World → Update → Type 0
Updates w (matched w') = Effect w w'
Updates w _ = Unit

-- `updateOne` by a change.
module _ (id : String) (test : SubscriptionPayment → Bool)
    (f : SubscriptionPayment → SubscriptionPayment) (w : World)
    (change : (p : SubscriptionPayment) → test p ≡ true → Change p (f p)) where
  written :
      (p : SubscriptionPayment)
      → find_payment id w.payments ≡ some p
      → test p ≡ true
      → Effect w (record w { payments = put_payment (f p) w.payments })
  written p found ok =
      let c = change p ok in
      changes p (f p)
        (subst (λ k. find_payment k w.payments ≡ some p)
          (sym (c.moves.terms.same_id ∙ find_payment_id id w.payments p found)) found)
        c refl refl

  update_payment-Updates : Updates w (update_payment id test f w)
  unfolding update_payment
  update_payment-Updates = elim (Option-cases (find_payment id w.payments)) [
    | inl missing ↦ rw (missing, update_payment) tt
    | inr (p, found) ↦ elim (Bool-cases (test p)) [
      | inl passes ↦ rw (found, passes, update_payment) (written p found passes)
      | inr fails ↦ rw (found, fails, update_payment) tt
    ]
  ]

-- What follows an update that may not have matched.
applied-Effect :
    {w : World} (u : Update) → Updates w u → Effect w (elim u [ matched w' ↦ w' | _ ↦ w ])
applied-Effect (matched w') e = e
applied-Effect _ e = same refl refl

module _ (w : World) (id : String) where
  transition-Effect :
      (from : SubscriptionPaymentStatus → Bool) (f : SubscriptionPayment → SubscriptionPayment)
      → ((p : SubscriptionPayment) → from p.status ≡ true → Change p (f p))
      → Effect w (transition id from f w).0
  unfolding transition
  transition-Effect from f change =
      shut (update_payment id (λ p. from p.status) f w)
        (update_payment-Updates id (λ p. from p.status) f w change)
    where
      shut :
          (u : Update)
          → Updates w u
          → Effect w (elim u as (λ _. World × Bool) [ matched w' ↦ (w', true) | _ ↦ (w, false) ]).0
      shut (matched w') e = e
      shut _ e = same refl refl

  mark_review-Effect : Effect w (mark_review id w).0
  unfolding mark_review
  mark_review-Effect = transition-Effect is_finalizable _ (λ p h. ground arith)

  mark_unreachable-Effect : (now : ℕ) → Effect w (mark_unreachable now id w).0
  unfolding mark_unreachable
  mark_unreachable-Effect now = transition-Effect is_initiating _ (λ p h. ground arith)

  mark_uncertain-Effect : Effect w (mark_uncertain id w).0
  unfolding mark_uncertain
  mark_uncertain-Effect = transition-Effect is_initiating _ (λ p h. ground arith)

  mark_rejected-Effect : (now : ℕ) → Effect w (mark_rejected now id w).0
  unfolding mark_rejected
  mark_rejected-Effect now = transition-Effect is_initiating _ (λ p h. ground arith)

  mark_checked-Effect : (now : ℕ) → Effect w (mark_checked now id w)
  unfolding mark_checked
  mark_checked-Effect now =
      applied-Effect (update_payment id (λ p. true) _ w)
        (update_payment-Updates id (λ p. true) _ w (λ p h. ground arith))

  note_late_failure-Effect : Effect w (note_late_failure id w)
  unfolding note_late_failure
  note_late_failure-Effect = applied-Effect (update_payment id _ _ w) (
      update_payment-Updates id (λ p. is_succeeded p.status && not (is_some p.incident_code)) _ w
        (λ p h. ground arith))

  adopt_reference-Updates :
      (reference : String) (test : SubscriptionPayment → Bool)
      (f : SubscriptionPayment → SubscriptionPayment)
      → ((p : SubscriptionPayment)
          → test p ≡ true
          → Change p (record (f p) { provider_reference = some reference }))
      → Updates w (adopt_reference id reference test f w)
  unfolding adopt_reference
  adopt_reference-Updates reference test f change =
      elim (Option-cases (find_payment id w.payments)) [
        | inl missing ↦ rw (missing, adopt_reference) tt
        | inr (p, found) ↦ elim (Bool-cases (test p)) [
          | inr fails ↦ rw (found, fails, adopt_reference) tt
          | inl passes ↦ elim (Bool-cases (is_taken p reference w.payments)) [
            | inl taken ↦ rw (found, passes, taken, adopt_reference) tt
            | inr free ↦
                rw (found, passes, free, adopt_reference)
                  (written id test (λ p. record (f p) { provider_reference = some reference }) w
                    change p found passes)
          ]
        ]
      ]

  adopt_pending-Updates :
      (now : ℕ) (reference : String) (from : SubscriptionPaymentStatus → Bool)
      → ((s : SubscriptionPaymentStatus) → from s ≡ true → is_unanswered s ≡ true)
      → Updates w (adopt_pending now id reference from w)
  unfolding adopt_pending
  adopt_pending-Updates now reference from only =
      adopt_reference-Updates reference _ (as_pending now) (λ p h.
        let u : is_unanswered p.status ≡ true = only p.status (ground arith) in
        let fits : fits_reference p.provider_reference reference ≡ true = ground arith in
        record {
          moves = record {
            terms = ground arith;
            edge = ground arith;
            period = λ _ e. e;
            reference = λ r e. ground (arith, eq_iff reference r);
            never_reopened = λ e. e;
          };
          well_formed = λ v. ground arith;
          same_success = ground arith;
          same_period = refl;
        })

  adopt_failure-Updates :
      (now : ℕ) (reference : String) → Updates w (adopt_failure now id reference w)
  unfolding adopt_failure
  adopt_failure-Updates now reference = adopt_reference-Updates reference _ (as_failed now) (λ p h.
      record {
        moves = record {
          terms = ground arith;
          edge = ground arith;
          period = λ _ e. e;
          reference = λ r e. ground (arith, eq_iff reference r);
          never_reopened = λ e. cc;
        };
        well_formed = λ v. ground arith;
        same_success = ground arith;
        same_period = refl;
      })

-- A document whose identifier is new is not found.
find_payment-unused :
    (id : String) (test : SubscriptionPayment → Bool) (ps : List SubscriptionPayment)
    → any (λ q. str_eq q.id id || test q) ps ≡ false
    → find_payment id ps ≡ none
unfolding find_payment
find_payment-unused id test [] h = refl
find_payment-unused id test (x ∷ ps) h = ground (arith, find_payment-unused id test ps)

insert_payment-Effect :
    (p : SubscriptionPayment) (w w' : World)
    → IsNew p
    → insert_payment p w ≡ inserted w'
    → Effect w w'
unfolding insert_payment
insert_payment-Effect p w w' new done =
    let no_open : any (is_open_of p.organization_id) w.payments ≡ false = ground arith in
    let unused : any (λ q. str_eq q.id p.id || str_eq q.merchant_reference p.merchant_reference)
          w.payments
        ≡ false =
      ground arith in
    let unknown : any (is_operation p.organization_id p.client_operation_id) w.payments ≡ false =
      ground arith in
    adds p new unknown (find_payment-unused p.id _ w.payments unused) no_open (ground arith)
      (ground arith)

-- The grant of a payment that was found finalizable and concordant.
grant_and_mark_succeeded-Effect :
    (now : Date) (period_id id : String) (p : SubscriptionPayment)
    (verified : ProviderPaymentStatus) (w w' : World) (period : String)
    → find_payment id w.payments ≡ some p
    → is_finalizable p.status ≡ true
    → concordant p verified ≡ true
    → grant_and_mark_succeeded now period_id p verified w ≡ Grant.ok (w', period)
    → Effect w w'
unfolding grant_and_mark_succeeded
grant_and_mark_succeeded-Effect now period_id id p verified w w' period found finalizable agreed e =
    elim (Result-cases
      (grant_subscription_in_session true now period_id (payment_grant_input p) w.ledger)) [
        | inl (error, refusal) ↦ absurd (ground arith)
        | inr ((ledger', view), done) ↦
            let no_period : is_some p.period_id ≡ false = ground arith in
            let untaken : is_taken p verified.provider_reference w.payments ≡ false =
              ground arith in
            let q : SubscriptionPayment = record p {
              status = succeeded;
              is_open = false;
              period_id = some view.period.id;
              provider_reference = some verified.provider_reference;
              confirmed_at = some (get_time now);
            } in
            let payments : w'.payments ≡ put_payment q w.payments = ground arith in
            let ledger : ledger' ≡ w'.ledger = ground arith in
            pays p q now period_id view verified
              (subst (λ k. find_payment k w.payments ≡ some p)
                (sym (find_payment_id id w.payments p found)) found)
              (record {
                terms = ground arith;
                was_finalizable = finalizable;
                had_no_period = ground arith;
                agreed = agreed;
                is_success = refl;
                is_shut = refl;
                has_period = refl;
                has_reference = refl;
              })
              payments (rw (← ledger) done)
      ]

Effect-jobs :
    {w w' : World} (jobs : List String) → Effect w w' → Effect w (record w' { jobs = jobs })
Effect-jobs jobs (same a b) = same a b
Effect-jobs jobs (changes p q a b c d) = changes p q a b c d
Effect-jobs jobs (adds p a b c d e f) = adds p a b c d e f
Effect-jobs jobs (pays p q now period_id view status a b c d) =
    pays p q now period_id view status a b c d
Effect-jobs jobs (grows p a b c) = grows p a b c

payment_succeeded_in_session-Effect :
    (id : String) {w w' : World} → Effect w w' → Effect w (payment_succeeded_in_session id w')
unfolding payment_succeeded_in_session
payment_succeeded_in_session-Effect id {w} {w'} e =
    either (w'.push_active && not (any (λ k. str_eq k key) w'.jobs))
  where
    key : String
    key = "payment-succeeded:" ++ id

    either : (b : Bool) → Effect w (if b then record w' { jobs = key ∷ w'.jobs } else w')
    either true = Effect-jobs (key ∷ w'.jobs) e
    either false = e

finalize_tx-Effect :
    (now : Date) (period_id id : String) (verified : ProviderPaymentStatus) (w w' : World)
    (o : FinalizeOutcome)
    → finalize_tx now period_id id verified w ≡ Grant.ok (w', o)
    → Effect w w'
unfolding finalize_tx
finalize_tx-Effect now period_id id verified w w' o e =
    elim (Option-cases (find_payment id w.payments)) [
      | inl missing ↦ absurd (ground arith)
      | inr (p, found) ↦
          elim (Bool-cases
            (not (is_succeeded p.status) && (is_finalizable p.status && concordant p verified))) [
              | inr stays ↦ same (ground arith) (ground arith)
              | inl confirmed ↦
                  elim (Result-cases (grant_and_mark_succeeded now period_id p verified w)) [
                    | inl (error, refusal) ↦ absurd (ground arith)
                    | inr ((w1, period), done) ↦
                        let w_same : payment_succeeded_in_session id w1 ≡ w' = ground arith in
                        rw (← w_same) (
                          payment_succeeded_in_session-Effect id (
                            grant_and_mark_succeeded-Effect now period_id id p verified w w1 period
                              found (ground arith) (ground arith) done))
                  ]
            ]
    ]

pub Step-Effect : {w w' : World} → Step w w' → Effect w w'
Step-Effect (reserving p {w} {w'} new done) = insert_payment-Effect p w w' new done
Step-Effect (not_sent now id {w} e) = rw e (mark_unreachable-Effect w id now)
Step-Effect (lost_answer id {w} e) = rw e (mark_uncertain-Effect w id)
Step-Effect (refused now id {w} e) = rw e (mark_rejected-Effect w id now)
Step-Effect (waiting now id reference from {w} only e) =
    subst (Updates w) e (adopt_pending-Updates w id now reference from only)
Step-Effect (failing now id reference {w} e) =
    subst (Updates w) e (adopt_failure-Updates w id now reference)
Step-Effect (failing_late id {w} e) = rw e (note_late_failure-Effect w id)
Step-Effect (reviewing id {w} e) = rw e (mark_review-Effect w id)
Step-Effect (checking now id {w} e) = rw e (mark_checked-Effect w id now)
Step-Effect (confirming now period_id id verified {w} {w'} {o} e) =
    finalize_tx-Effect now period_id id verified w w' o e
Step-Effect (granting p no_payment e) = grows p no_payment refl e
Step-Effect (pushing jobs) = same refl refl
