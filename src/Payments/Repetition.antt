-- ===== src/Payments/Repetition.antt =====
-- A request for a payment that was answered is answered again by the payment that it made:
-- `createPayment` of api/src/subscriptions/payments/subscription-payments.service.ts, called twice.
use royalvibe_cosmetic.Common.{◌≡◌, ap, String, true, some, find, arith, Option-cases, inl, inr}
use royalvibe_cosmetic.Subscriptions.Months.{SubscriptionTerm}
use royalvibe_cosmetic.Payments.Model.{SubscriptionPayment, World, PaymentProvider, Initiation, ok}
use royalvibe_cosmetic.Payments.Requests.{
  SubscriptionPrice, get_subscription_price, normalize_payer_phone,
}
use royalvibe_cosmetic.Payments.Registry.{is_operation}
use royalvibe_cosmetic.Payments.Trace.{Reach}
use royalvibe_cosmetic.Payments.Service.{Meanwhile, to_view}
use royalvibe_cosmetic.Payments.Initiation.{
  CreatePayment, Created, new_payment, create_payment, lower_case,
}
use royalvibe_cosmetic.Payments.Handlers.{AreSteps}
use royalvibe_cosmetic.Payments.Replay.{Remembered, Reach-Remembered}
use royalvibe_cosmetic.Payments.Recall.{
  replay-Remembers, Remembers-replay, create_unseen-Remembered,
}

-- Both calls, once the term and the phone are known.
module _ (digest : String → SubscriptionTerm → String → String) (request : CreatePayment)
    (price : SubscriptionPrice) (phone : String)
    (priced : get_subscription_price request.term ≡ some price)
    (valid : normalize_payer_phone request.payer_phone ≡ some phone) where
  abbrev IsKnown : String → World → Type 0
  IsKnown id w =
      Remembered request.organization_id (lower_case request.client_operation_id) request.user_id
        (digest request.user_id price.term phone) id w.payments

  create_payment-IsKnown :
      (m : Meanwhile) (s : AreSteps m) (provider : PaymentProvider) (id : String)
      (initiation : Initiation) (w : World) (c : Created)
      → (create_payment provider digest m id initiation request w).1 ≡ ok c
      → IsKnown c.payment.payment_id (create_payment provider digest m id initiation request w).0
  unfolding create_payment new_payment
  create_payment-IsKnown m s provider id initiation w c made =
      let fingerprint = digest request.user_id price.term phone in
      let p = new_payment provider (m.clock 2) id request fingerprint price phone in
      let w0 = m.others 0 w in
      elim (Option-cases
        (find (is_operation p.organization_id p.client_operation_id) w0.payments)) [
          | inr (existing, found) ↦
              rw (priced, valid, found, create_payment)
                (
                  existing,
                  found,
                  replay-Remembers p.organization_id p.client_operation_id request.user_id
                      fingerprint existing c (rw (priced, valid, found, create_payment) at made),
                )
          | inl fresh ↦
              rw (priced, valid, fresh, create_payment)
                (create_unseen-Remembered m s provider p initiation w0 c
                  (rw (priced, valid, fresh, create_payment) at made))
        ]

  IsKnown-create_payment :
      (m : Meanwhile) (s : AreSteps m) (provider : PaymentProvider) (id seen : String)
      (initiation : Initiation) (w : World)
      → IsKnown seen w
      → (p : SubscriptionPayment) × (find
            (is_operation request.organization_id (lower_case request.client_operation_id))
            (m.others 0 w).payments
          ≡ some p)
        × (create_payment provider digest m id initiation request w
            ≡ (m.others 0 w, ok (record { payment = to_view p; replayed = true })))
        × (p.id ≡ seen)
  unfolding create_payment new_payment
  IsKnown-create_payment m s provider id seen initiation w known =
      let fingerprint = digest request.user_id price.term phone in
      let (p, found, h) = Reach-Remembered _ _ _ _ _ (s.reach 0 w) known in
      (
        p,
        found,
        rw (priced, valid, found, create_payment)
            (ap (λ r. (m.others 0 w, r))
              (Remembers-replay request.organization_id (lower_case request.client_operation_id)
                request.user_id fingerprint seen p h)),
        h.same_id,
      )

-- A request that was answered with a payment is answered again with that payment, as it stands by then,
-- and marked as a repetition: it writes nothing and asks the provider nothing, whatever ran in between
-- (the payment may have failed or been paid), even when another payment is open or the provider is
-- unavailable.
pub create_payment-idempotent :
    (first second : Meanwhile) (first_steps : AreSteps first) (second_steps : AreSteps second)
    (provider later_provider : PaymentProvider)
    (digest : String → SubscriptionTerm → String → String) (id later_id : String)
    (initiation answer : Initiation) (request : CreatePayment) (w between : World) (c : Created)
    → (create_payment provider digest first id initiation request w).1 ≡ ok c
    → Reach (create_payment provider digest first id initiation request w).0 between
    → (p : SubscriptionPayment) × (find
          (is_operation request.organization_id (lower_case request.client_operation_id))
          (second.others 0 between).payments
        ≡ some p)
      × (create_payment later_provider digest second later_id answer request between
          ≡ (second.others 0 between, ok (record { payment = to_view p; replayed = true })))
      × (p.id ≡ c.payment.payment_id)
unfolding create_payment
create_payment-idempotent first second first_steps second_steps provider later_provider digest id
      later_id initiation answer request w between c made since =
    elim (Option-cases (get_subscription_price request.term)) [
      | inl unknown ↦ absurd (ground (arith, rw (unknown, create_payment) at made))
      | inr (price, priced) ↦ elim (Option-cases (normalize_payer_phone request.payer_phone)) [
        | inl invalid ↦ absurd (ground (arith, rw (priced, invalid, create_payment) at made))
        | inr (phone, valid) ↦
            IsKnown-create_payment digest request price phone priced valid second second_steps
              later_provider later_id c.payment.payment_id answer between
              (Reach-Remembered _ _ _ _ _ since (
                create_payment-IsKnown digest request price phone priced valid first first_steps
                  provider id initiation w c made))
      ]
    ]
