-- ===== src/Payments/Recall.antt =====
-- A request for a payment that is answered leaves the payment under its operation: `createPayment` of
-- api/src/subscriptions/payments/subscription-payments.service.ts.
use royalvibe_cosmetic.Common.{
  ◌≡◌, refl, sym, subst, String, Bool, true, ◌∷◌, any, find, arith, eq_iff, Bool-cases,
  Option-cases, inl, inr,
}
use royalvibe_cosmetic.Payments.Model.{
  SubscriptionPayment, World, PaymentProvider, Initiation, accepted, rejected, unreachable, lost,
  Result, ok, err, is_initiating,
}
use royalvibe_cosmetic.Payments.Registry.{
  find_payment, is_open_of, is_operation, inserted, insert_payment,
}
use royalvibe_cosmetic.Payments.Writes.{mark_uncertain, mark_rejected}
use royalvibe_cosmetic.Payments.Lists.{find_payment_id}
use royalvibe_cosmetic.Payments.Service.{
  Meanwhile, SubscriptionPaymentView, answer_view, view_by_id, to_view, record_pending, succeed,
}
use royalvibe_cosmetic.Payments.Initiation.{
  Created, as_created, initiate_reserved, reserve_and_initiate, create_unseen, replay,
}
use royalvibe_cosmetic.Payments.Handlers.{AreSteps}
use royalvibe_cosmetic.Payments.Reservation.{Insertion-cases, initiate_reserved-Reach}
use royalvibe_cosmetic.Payments.Replay.{Remembers, Remembered, Reach-Remembered}

pub replay-Remembers :
    (org key user fingerprint : String) (p : SubscriptionPayment) (c : Created)
    → replay p user fingerprint ≡ ok c
    → Remembers org key user fingerprint c.payment.payment_id p
unfolding replay to_view
replay-Remembers org key user fingerprint p c h = record {
  same_requester = ground (arith, eq_iff p.requested_by user);
  same_fingerprint = ground (arith, eq_iff p.request_fingerprint fingerprint);
  same_id = ground arith;
}

pub Remembers-replay :
    (org key user fingerprint id : String) (p : SubscriptionPayment)
    → Remembers org key user fingerprint id p
    → replay p user fingerprint ≡ ok (record { payment = to_view p; replayed = true })
unfolding replay
Remembers-replay org key user fingerprint id p h = ground (
  arith,
  eq_iff p.requested_by user,
  eq_iff p.request_fingerprint fingerprint,
  h.same_requester,
  h.same_fingerprint,
)

view_by_id_id :
    (id : String) (w : World) (view : SubscriptionPaymentView)
    → view_by_id id w ≡ ok view
    → view.payment_id ≡ id
unfolding view_by_id to_view
view_by_id_id id w view h = elim (Option-cases (find_payment id w.payments)) [
  | inl missing ↦ absurd (ground arith)
  | inr (p, found) ↦ let named = find_payment_id id w.payments p found in ground arith
]

viewed_id :
    (m : Meanwhile) (id : String) (r : World × Bool) (c : Created)
    → (as_created (answer_view m id (succeed r))).1 ≡ ok c
    → c.payment.payment_id ≡ id
unfolding answer_view
viewed_id m id (w, done) c h = by_view (view_by_id id (m.others 7 w)) refl h
  where
    by_view :
        (r : Result SubscriptionPaymentView)
        → view_by_id id (m.others 7 w) ≡ r
        → (as_created (m.others 7 w, r)).1 ≡ ok c
        → c.payment.payment_id ≡ id
    by_view (ok view) e k = let named = view_by_id_id id (m.others 7 w) view e in ground arith
    by_view (err e) _ k = absurd (ground arith)

initiate_reserved_id :
    (m : Meanwhile) (id : String) (initiation : Initiation) (w : World) (c : Created)
    → (initiate_reserved m id initiation w).1 ≡ ok c
    → c.payment.payment_id ≡ id
unfolding initiate_reserved
initiate_reserved_id m id unreachable w c h = absurd (ground arith)
initiate_reserved_id m id lost w c h = viewed_id m id (mark_uncertain id (m.others 4 w)) c h
initiate_reserved_id m id rejected w c h =
    viewed_id m id (mark_rejected (m.clock 4) id (m.others 4 w)) c h
initiate_reserved_id m id (accepted reference) w c h =
    viewed_id m id (record_pending m id reference is_initiating w) c h

-- The payment that `create` writes is the first of its operation.
inserted-Remembered :
    (p : SubscriptionPayment) (w w' : World)
    → insert_payment p w ≡ inserted w'
    → Remembered p.organization_id p.client_operation_id p.requested_by p.request_fingerprint p.id
        w'.payments
unfolding insert_payment
inserted-Remembered p w w' done =
    let made : w'.payments ≡ p ∷ w.payments = ground arith in
    let mine : is_operation p.organization_id p.client_operation_id p ≡ true = ground (
      arith,
      eq_iff p.organization_id p.organization_id,
      eq_iff p.client_operation_id p.client_operation_id,
    ) in
    (
      p,
      rw (made, mine) refl,
      record { same_requester = refl; same_fingerprint = refl; same_id = refl },
    )

module _ (m : Meanwhile) (s : AreSteps m) where
  reserve_and_initiate-Remembered :
      (p : SubscriptionPayment) (initiation : Initiation) (w : World) (c : Created)
      → (reserve_and_initiate m p initiation w).1 ≡ ok c
      → Remembered p.organization_id p.client_operation_id p.requested_by p.request_fingerprint
          c.payment.payment_id
          (reserve_and_initiate m p initiation w).0.payments
  unfolding reserve_and_initiate
  reserve_and_initiate-Remembered p initiation w c made =
      elim (Insertion-cases (insert_payment p w)) [
        | inl (w', done) ↦
            rw (done, reserve_and_initiate)
              (subst
                (λ i.
                  Remembered p.organization_id p.client_operation_id p.requested_by
                    p.request_fingerprint i (initiate_reserved m p.id initiation w').0.payments)
                (sym (
                  initiate_reserved_id m p.id initiation w' c
                    (rw (done, reserve_and_initiate) at made)))
                (Reach-Remembered _ _ _ _ _ (initiate_reserved-Reach m s p.id initiation w')
                  (inserted-Remembered p w w' done)))
        | inr (inl taken) ↦
            let w' = m.others 3 w in
            elim (Option-cases
              (find (is_operation p.organization_id p.client_operation_id) w'.payments)) [
                | inl missing ↦
                    absurd (ground (arith, rw (taken, missing, reserve_and_initiate) at made))
                | inr (winner, found) ↦
                    rw (taken, found, reserve_and_initiate)
                      (
                        winner,
                        found,
                        replay-Remembers p.organization_id p.client_operation_id p.requested_by
                            p.request_fingerprint winner c
                            (rw (taken, found, reserve_and_initiate) at made),
                      )
              ]
        | inr (inr (inl busy)) ↦ absurd (ground (arith, rw (busy, reserve_and_initiate) at made))
        | inr (inr (inr other)) ↦ absurd (ground (arith, rw (other, reserve_and_initiate) at made))
      ]

  pub create_unseen-Remembered :
      (provider : PaymentProvider) (p : SubscriptionPayment) (initiation : Initiation) (w : World)
      (c : Created)
      → (create_unseen provider m p initiation w).1 ≡ ok c
      → Remembered p.organization_id p.client_operation_id p.requested_by p.request_fingerprint
          c.payment.payment_id
          (create_unseen provider m p initiation w).0.payments
  unfolding create_unseen
  create_unseen-Remembered provider p initiation w c made = elim (Bool-cases provider.available) [
    | inr absent ↦ absurd (ground (arith, rw (absent, create_unseen) at made))
    | inl there ↦
        let w1 = m.others 1 w in
        elim (Bool-cases (any (is_open_of p.organization_id) w1.payments)) [
          | inl busy ↦ absurd (ground (arith, rw (there, busy, create_unseen) at made))
          | inr free ↦
              rw (there, free, create_unseen)
                (reserve_and_initiate-Remembered p initiation (m.others 2 w1) c
                  (rw (there, free, create_unseen) at made))
        ]
  ]
