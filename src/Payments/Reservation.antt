-- ===== src/Payments/Reservation.antt =====
-- `createPayment` of api/src/subscriptions/payments/subscription-payments.service.ts is a sequence of
-- steps.
use royalvibe_cosmetic.Common.{
  ℕ, ◌≡◌, refl, sym, subst, String, Bool, any, find, arith, Bool-cases, Option-cases, ◌⊎◌, inl, inr,
}
use royalvibe_cosmetic.Subscriptions.Months.{SubscriptionTerm}
use royalvibe_cosmetic.Payments.Model.{
  SubscriptionPayment, World, PaymentProvider, Initiation, accepted, rejected, unreachable, lost,
  Result, ok, err, is_initiating,
}
use royalvibe_cosmetic.Payments.Requests.{
  SubscriptionPrice, get_subscription_price, normalize_payer_phone,
}
use royalvibe_cosmetic.Payments.Registry.{
  is_operation, is_open_of, Insertion, inserted, duplicate_operation, duplicate_open,
  duplicate_other, insert_payment,
}
use royalvibe_cosmetic.Payments.Writes.{mark_uncertain, mark_rejected}
use royalvibe_cosmetic.Payments.Service.{
  Meanwhile, record_pending, answer_view, succeed, SubscriptionPaymentView,
}
use royalvibe_cosmetic.Payments.Initiation.{
  CreatePayment, as_created, initiate_reserved, new_payment, reserve_and_initiate, create_unseen,
  create_payment,
}
use royalvibe_cosmetic.Payments.Trace.{
  IsNew, Reach, here, next, Reach-trans, reserving, not_sent, lost_answer, refused,
}
use royalvibe_cosmetic.Payments.Handlers.{AreSteps, answer_view-world, after, record_pending-Reach}

pub as_created-world : (r : World × Result SubscriptionPaymentView) → (as_created r).0 ≡ r.0
as_created-world (w, ok view) = refl
as_created-world (w, err e) = refl

new_payment-IsNew :
    (provider : PaymentProvider) (now : ℕ) (id : String) (request : CreatePayment)
    (fingerprint : String) (price : SubscriptionPrice) (phone : String)
    → IsNew (new_payment provider now id request fingerprint price phone)
unfolding new_payment
new_payment-IsNew provider now id request fingerprint price phone = record {
  is_initiating = refl;
  is_reserved = refl;
  has_no_period = refl;
  has_no_reference = refl;
}

pub Insertion-cases :
    (i : Insertion)
    → ((w : World) × (i ≡ inserted w))
      ⊎ ((i ≡ duplicate_operation) ⊎ ((i ≡ duplicate_open) ⊎ (i ≡ duplicate_other)))
Insertion-cases (inserted w) = inl (w, refl)
Insertion-cases duplicate_operation = inr (inl refl)
Insertion-cases duplicate_open = inr (inr (inl refl))
Insertion-cases duplicate_other = inr (inr (inr refl))

module _ (m : Meanwhile) (s : AreSteps m) where
  viewed-Reach :
      (id : String) (w : World) (r : World × Bool)
      → Reach w r.0
      → Reach w (as_created (answer_view m id (succeed r))).0
  viewed-Reach id w r reached =
      subst (Reach w) (sym (as_created-world (answer_view m id (succeed r))))
        (answer_view-world m id w (succeed r) s reached)

  pub initiate_reserved-Reach :
      (id : String) (initiation : Initiation) (w : World)
      → Reach w (initiate_reserved m id initiation w).0
  unfolding initiate_reserved
  initiate_reserved-Reach id unreachable w = after m s 4 (not_sent (m.clock 4) id refl)
  initiate_reserved-Reach id lost w =
      viewed-Reach id w (mark_uncertain id (m.others 4 w)) (after m s 4 (lost_answer id refl))
  initiate_reserved-Reach id rejected w =
      viewed-Reach id w (mark_rejected (m.clock 4) id (m.others 4 w))
        (after m s 4 (refused (m.clock 4) id refl))
  initiate_reserved-Reach id (accepted reference) w =
      viewed-Reach id w (record_pending m id reference is_initiating w)
        (record_pending-Reach m s id reference is_initiating w (λ t h. ground arith))

  reserve_and_initiate-Reach :
      (p : SubscriptionPayment) (initiation : Initiation) (w : World)
      → IsNew p
      → Reach w (reserve_and_initiate m p initiation w).0
  unfolding reserve_and_initiate
  reserve_and_initiate-Reach p initiation w new = elim (Insertion-cases (insert_payment p w)) [
    | inl (w', done) ↦
        rw (done, reserve_and_initiate)
          (Reach-trans (next here (reserving p new done))
            (initiate_reserved-Reach p.id initiation w'))
    | inr (inl taken) ↦
        let w' = m.others 3 w in
        elim (Option-cases
          (find (is_operation p.organization_id p.client_operation_id) w'.payments)) [
            | inl missing ↦ rw (taken, missing, reserve_and_initiate) (s.reach 3 w)
            | inr (winner, found) ↦ rw (taken, found, reserve_and_initiate) (s.reach 3 w)
          ]
    | inr (inr (inl busy)) ↦ rw (busy, reserve_and_initiate) (s.reach 3 w)
    | inr (inr (inr other)) ↦ rw (other, reserve_and_initiate) here
  ]

  create_unseen-Reach :
      (provider : PaymentProvider) (p : SubscriptionPayment) (initiation : Initiation) (w : World)
      → IsNew p
      → Reach w (create_unseen provider m p initiation w).0
  unfolding create_unseen
  create_unseen-Reach provider p initiation w new = elim (Bool-cases provider.available) [
    | inr absent ↦ rw (absent, create_unseen) here
    | inl there ↦
        let w1 = m.others 1 w in
        elim (Bool-cases (any (is_open_of p.organization_id) w1.payments)) [
          | inl busy ↦ rw (there, busy, create_unseen) (s.reach 1 w)
          | inr free ↦
              rw (there, free, create_unseen)
                (Reach-trans (Reach-trans (s.reach 1 w) (s.reach 2 w1))
                  (reserve_and_initiate-Reach p initiation (m.others 2 w1) new))
        ]
  ]

  -- Whatever others commit, a request for a payment is a sequence of the steps, on every outcome.
  pub create_payment-Reach :
      (provider : PaymentProvider) (digest : String → SubscriptionTerm → String → String)
      (id : String) (initiation : Initiation) (request : CreatePayment) (w : World)
      → Reach w (create_payment provider digest m id initiation request w).0
  unfolding create_payment
  create_payment-Reach provider digest id initiation request w =
      elim (Option-cases (get_subscription_price request.term)) [
        | inl unknown ↦ rw (unknown, create_payment) here
        | inr (price, priced) ↦ elim (Option-cases (normalize_payer_phone request.payer_phone)) [
          | inl invalid ↦ rw (priced, invalid, create_payment) here
          | inr (phone, valid) ↦
              let p =
                new_payment provider (m.clock 2) id request
                  (digest request.user_id price.term phone) price phone in
              let w0 = m.others 0 w in
              elim (Option-cases
                (find (is_operation p.organization_id p.client_operation_id) w0.payments)) [
                  | inr (existing, found) ↦ rw (priced, valid, found, create_payment) (s.reach 0 w)
                  | inl fresh ↦
                      rw (priced, valid, fresh, create_payment)
                        (Reach-trans (s.reach 0 w) (
                          create_unseen-Reach provider p initiation w0
                            (new_payment-IsNew provider (m.clock 2) id request _ price phone)))
                ]
        ]
      ]
