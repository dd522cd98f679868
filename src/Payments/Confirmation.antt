-- ===== src/Payments/Confirmation.antt =====
-- When `finalize` and `confirmPayment` of
-- api/src/subscriptions/payments/subscription-payments.service.ts grant a period, and that they do.
use royalvibe_cosmetic.Common.{
  ◌≡◌, sym, ap, ◌∙◌, String, true, false, none, some, arith, Option-cases, inl, inr,
}
use royalvibe_cosmetic.Subscriptions.Calendar.{Date, get_time}
use royalvibe_cosmetic.Subscriptions.Requests as Grant
use royalvibe_cosmetic.Subscriptions.Grants.{GrantedView, grant_subscription_in_session}
use royalvibe_cosmetic.Subscriptions.Renewal.{Result-cases}
use royalvibe_cosmetic.Payments.Model.{
  succeeded, SubscriptionPayment, World, ProviderPaymentStatus, is_finalizable,
}
use royalvibe_cosmetic.Payments.Requests.{payment_grant_input}
use royalvibe_cosmetic.Payments.Registry.{find_payment, put_payment, is_taken}
use royalvibe_cosmetic.Payments.Writes.{
  granted, finalize_tx, grant_and_mark_succeeded, payment_succeeded_in_session,
}
use royalvibe_cosmetic.Payments.Concordance.{Agrees, concordant-Agrees}

-- The payment after its success.
abbrev pub paid_payment :
    Date → SubscriptionPayment → ProviderPaymentStatus → GrantedView → SubscriptionPayment
paid_payment now p verified view = record p {
  status = succeeded;
  is_open = false;
  period_id = some view.period.id;
  provider_reference = some verified.provider_reference;
  confirmed_at = some (get_time now);
}

-- What a confirmation that grants has found and has written.
pub record Paid (now : Date) (period_id id : String) (verified : ProviderPaymentStatus)
    (w w' : World) : Type 0 where
  pub payment : SubscriptionPayment
  pub view : GrantedView
  pub found : find_payment id w.payments ≡ some payment
  pub was_finalizable : is_finalizable payment.status ≡ true
  pub agrees : Agrees payment verified
  pub unpaid : payment.period_id ≡ none
  pub unused : is_taken payment verified.provider_reference w.payments ≡ false
  pub period :
      grant_subscription_in_session true now period_id (payment_grant_input payment) w.ledger
      ≡ Grant.ok (w'.ledger, view)
  pub marked : w'.payments ≡ put_payment (paid_payment now payment verified view) w.payments

pub payment_succeeded_in_session-others :
    (id : String) (w : World)
    → ((payment_succeeded_in_session id w).payments ≡ w.payments)
      × ((payment_succeeded_in_session id w).ledger ≡ w.ledger)
unfolding payment_succeeded_in_session
payment_succeeded_in_session-others id w = ground arith

-- A period is granted only for a payment that is neither succeeded nor in review, that has no period
-- yet, and whose frozen merchant reference, amount, currency and known reference are all those that the
-- provider answered, under a reference that pays for no other payment of the provider; and the grant
-- and the success of that one payment are written together.
pub finalize_tx-Paid :
    (now : Date) (period_id id : String) (verified : ProviderPaymentStatus) (w w' : World)
    → finalize_tx now period_id id verified w ≡ Grant.ok (w', granted)
    → Paid now period_id id verified w w'
unfolding finalize_tx grant_and_mark_succeeded
finalize_tx-Paid now period_id id verified w w' e =
    elim (Option-cases (find_payment id w.payments)) [
      | inl missing ↦ absurd (ground arith)
      | inr (p, found) ↦
          elim (Result-cases
            (grant_subscription_in_session true now period_id (payment_grant_input p) w.ledger)) [
              | inl (error, refusal) ↦ absurd (ground arith)
              | inr ((ledger', view), done) ↦
                  let untaken : is_taken p verified.provider_reference w.payments ≡ false =
                    ground arith in
                  let w1 : World = record w {
                    ledger = ledger';
                    payments = put_payment (paid_payment now p verified view) w.payments;
                  } in
                  let same_w : payment_succeeded_in_session id w1 ≡ w' = ground arith in
                  let (payments, ledger) = payment_succeeded_in_session-others id w1 in
                  record {
                    payment = p;
                    view = view;
                    found = found;
                    was_finalizable = ground arith;
                    agrees = concordant-Agrees p verified (ground arith);
                    unpaid = ground arith;
                    unused = untaken;
                    period =
                        done ∙ ap (λ l. Grant.ok (l, view)) (sym ledger ∙ ap World.ledger same_w);
                    marked = sym (ap World.payments same_w) ∙ payments;
                  }
            ]
    ]
