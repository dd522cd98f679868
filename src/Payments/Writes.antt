-- ===== src/Payments/Writes.antt =====
-- The writes of `SubscriptionPaymentsService` in
-- api/src/subscriptions/payments/subscription-payments.service.ts: each is one write of one document,
-- or the one transaction of a confirmation.
use Prim.Native.String.{◌++◌}
use royalvibe_cosmetic.Common.{
  ℕ, String, Bool, true, false, ◌&&◌, not, none, some, ◌∷◌, any, is_some, str_eq, if◌then◌else◌,
}
use royalvibe_cosmetic.Subscriptions.Calendar.{Date, get_time}
use royalvibe_cosmetic.Subscriptions.Requests.{GrantError, duplicate_provider_reference, failure}
use royalvibe_cosmetic.Subscriptions.Grants.{grant_subscription_in_session}
use royalvibe_cosmetic.Subscriptions.Requests as Grant
use royalvibe_cosmetic.Payments.Model.{
  SubscriptionPaymentStatus, SubscriptionPaymentIncident, SubscriptionPayment, World,
  ProviderPaymentStatus, is_open_status, is_finalizable, is_initiating, is_succeeded,
}
use royalvibe_cosmetic.Payments.Requests.{payment_grant_input, concordant, fits_reference}
use royalvibe_cosmetic.Payments.Registry.{
  find_payment, put_payment, Update, matched, update_payment, adopt_reference, is_taken,
}

-- `transition`: the world, and whether the status was one of those.
unfoldable pub transition :
    String
    → (SubscriptionPaymentStatus → Bool)
    → (SubscriptionPayment → SubscriptionPayment)
    → World
    → World × Bool
unfolding update_payment
transition id from set w = elim (update_payment id (λ p. from p.status) set w) [
  | matched w' ↦ (w', true)
  | _ ↦ (w, false)
]

unfoldable pub mark_review : String → World → World × Bool
unfolding transition
mark_review id w =
    transition id is_finalizable
      (λ p. record p {
        status = SubscriptionPaymentStatus.review;
        incident_code = some SubscriptionPaymentIncident.provider_mismatch;
      })
      w

-- The request certainly did not leave.
unfoldable pub mark_unreachable : ℕ → String → World → World × Bool
unfolding transition
mark_unreachable now id w =
    transition id is_initiating
      (λ p. record p {
        status = SubscriptionPaymentStatus.failed;
        is_open = false;
        failed_at = some now;
        incident_code = some SubscriptionPaymentIncident.provider_unavailable;
      })
      w

-- The outcome of the initiation is unknown.
unfoldable pub mark_uncertain : String → World → World × Bool
unfolding transition
mark_uncertain id w =
    transition id is_initiating
      (λ p. record p {
        status = SubscriptionPaymentStatus.uncertain;
        incident_code = some SubscriptionPaymentIncident.initiation_uncertain;
      })
      w

unfoldable pub mark_rejected : ℕ → String → World → World × Bool
unfolding transition
mark_rejected now id w =
    transition id is_initiating
      (λ p. record p {
        status = SubscriptionPaymentStatus.failed;
        is_open = false;
        failed_at = some now;
        incident_code = some SubscriptionPaymentIncident.initiation_rejected;
      })
      w

-- The date of the last look at the provider.
unfoldable pub mark_checked : ℕ → String → World → World
unfolding update_payment
mark_checked now id w =
    elim (update_payment id (λ p. true) (λ p. record p { last_checked_at = some now }) w) [
      | matched w' ↦ w'
      | _ ↦ w
    ]

abbrev pub as_pending : ℕ → SubscriptionPayment → SubscriptionPayment
as_pending now p = record p {
  status = SubscriptionPaymentStatus.pending;
  initiated_at = some now;
  incident_code = none;
}

-- The first write of `recordPending`.
unfoldable pub adopt_pending :
    ℕ → String → String → (SubscriptionPaymentStatus → Bool) → World → Update
unfolding adopt_reference
adopt_pending now id reference from w =
    adopt_reference id reference
      (λ p. from p.status && fits_reference p.provider_reference reference) (as_pending now) w

abbrev pub as_failed : ℕ → SubscriptionPayment → SubscriptionPayment
as_failed now p = record p {
  status = SubscriptionPaymentStatus.failed;
  is_open = false;
  failed_at = some now;
}

-- The first write of `recordFailure`.
unfoldable pub adopt_failure : ℕ → String → String → World → Update
unfolding adopt_reference
adopt_failure now id reference w =
    adopt_reference id reference
      (λ p. is_open_status p.status && fits_reference p.provider_reference reference)
      (as_failed now) w

-- Its second write: a refusal after the success is only noted.
unfoldable pub note_late_failure : String → World → World
unfolding update_payment
note_late_failure id w =
    elim (update_payment id (λ p. is_succeeded p.status && not (is_some p.incident_code))
      (λ p. record p {
        incident_code = some SubscriptionPaymentIncident.late_failure_after_success;
      })
      w) [ matched w' ↦ w' | _ ↦ w ]

-- `grantAndMarkSucceededInSession`: the period, then the payment as it was read in the session.
unfoldable pub grant_and_mark_succeeded :
    Date
    → String
    → SubscriptionPayment
    → ProviderPaymentStatus
    → World
    → Grant.Result (World × String)
unfolding put_payment
grant_and_mark_succeeded now period_id current verified w =
    elim (grant_subscription_in_session true now period_id (payment_grant_input current) w.ledger) [
      | Grant.err e ↦ Grant.err e
      | Grant.ok (ledger', view) ↦
          if is_some current.period_id
          then Grant.err failure
          else if is_taken current verified.provider_reference w.payments
          then Grant.err duplicate_provider_reference
          else Grant.ok (
            record w {
              ledger = ledger';
              payments =
                  put_payment
                    (record current {
                      status = SubscriptionPaymentStatus.succeeded;
                      is_open = false;
                      period_id = some view.period.id;
                      provider_reference = some verified.provider_reference;
                      confirmed_at = some (get_time now);
                    })
                    w.payments;
            },
            view.period.id,
          )
    ]

-- `paymentSucceededInSession`: one job for a payment, if the module is active.
unfoldable pub payment_succeeded_in_session : String → World → World
payment_succeeded_in_session id w =
    let key = "payment-succeeded:" ++ id in
    if w.push_active && not (any (λ k. str_eq k key) w.jobs)
    then record w { jobs = key ∷ w.jobs }
    else w

pub data FinalizeOutcome : Type 0 where
  granted replayed not_finalizable mismatch : FinalizeOutcome

-- The transaction of `finalize`.
unfoldable pub finalize_tx :
    Date → String → String → ProviderPaymentStatus → World → Grant.Result (World × FinalizeOutcome)
unfolding find_payment grant_and_mark_succeeded payment_succeeded_in_session
finalize_tx now period_id id verified w = elim (find_payment id w.payments) [
  | none ↦ Grant.err failure
  | some current ↦
      if is_succeeded current.status
      then Grant.ok (w, replayed)
      else if not (is_finalizable current.status)
      then Grant.ok (w, not_finalizable)
      else if not (concordant current verified)
      then Grant.ok (w, mismatch)
      else elim (grant_and_mark_succeeded now period_id current verified w) [
        | Grant.err e ↦ Grant.err e
        | Grant.ok (w', period) ↦ Grant.ok (payment_succeeded_in_session id w', granted)
      ]
]
