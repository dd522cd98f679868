-- ===== src/Payments/Rest.antt =====
-- The writes of api/src/subscriptions/payments/subscription-payments.service.ts that close no payment:
-- an organization that has an open one has one afterwards, and the ledger is as it was.
use royalvibe_cosmetic.Common.{
  ℕ, ◌≡◌, refl, ap, subst, ◌∙◌, String, Bool, true, some, List, [], ◌∷◌, any, arith, Bool-cases,
  Option-cases, inl, inr,
}
use royalvibe_cosmetic.Payments.Model.{
  SubscriptionPaymentStatus, SubscriptionPayment, World, is_initiating, is_finalizable, Result, ok,
  err,
}
use royalvibe_cosmetic.Payments.Registry.{
  find_payment, put_payment, is_open_of, matched, is_taken, update_payment, adopt_reference,
}
use royalvibe_cosmetic.Payments.Writes.{
  transition, mark_review, mark_uncertain, mark_checked, as_pending, adopt_pending,
  note_late_failure,
}
use royalvibe_cosmetic.Payments.Service.{Meanwhile, record_pending, answer_view, is_other_reference}
use royalvibe_cosmetic.Payments.Lists.{find_payment_id}
use royalvibe_cosmetic.Payments.Handlers.{Update-cases}

abbrev pub IsOpenIn : String → World → Type 0
IsOpenIn org w = any (is_open_of org) w.payments ≡ true

-- The ledger stays, and an organization that has an open payment keeps one.
pub record Rests (org : String) (w w' : World) : Type 0 where
  pub same_ledger : w'.ledger ≡ w.ledger
  pub keeps_open : IsOpenIn org w → IsOpenIn org w'

pub Rests-refl : {org : String} (w : World) → Rests org w w
Rests-refl w = record { same_ledger = refl; keeps_open = λ h. h }

pub Rests-trans : {org : String} {w v u : World} → Rests org w v → Rests org v u → Rests org w u
Rests-trans a b = record {
  same_ledger = b.same_ledger ∙ a.same_ledger;
  keeps_open = λ h. b.keeps_open (a.keeps_open h);
}

-- A change of a payment that is none of its identity, organization and opening.
pub record KeepsPlace (p q : SubscriptionPayment) : Type 0 where
  pub same_id : q.id ≡ p.id
  pub same_organization : q.organization_id ≡ p.organization_id
  pub same_open : q.is_open ≡ p.is_open

any-put_payment :
    (org : String) (q p : SubscriptionPayment) (ps : List SubscriptionPayment)
    → find_payment q.id ps ≡ some p
    → q.organization_id ≡ p.organization_id
    → q.is_open ≡ p.is_open
    → any (is_open_of org) (put_payment q ps) ≡ any (is_open_of org) ps
unfolding find_payment put_payment
any-put_payment org q p [] h o e = cc
any-put_payment org q p (x ∷ ps) h o e =
    let rest = any-put_payment org q p ps in ground (arith, rest, o, e)

put-Rests :
    (org : String) (q p : SubscriptionPayment) (id : String) (w : World)
    → find_payment id w.payments ≡ some p
    → p.id ≡ id
    → KeepsPlace p q
    → Rests org w (record w { payments = put_payment q w.payments })
put-Rests org q p id w found named same = record {
  same_ledger = refl;
  keeps_open = λ h.
      any-put_payment org q p w.payments
        (ap (λ x. find_payment x w.payments) (same.same_id ∙ named) ∙ found) same.same_organization
        same.same_open
      ∙ h;
}

module _ (org id : String) (test : SubscriptionPayment → Bool)
    (f : SubscriptionPayment → SubscriptionPayment)
    (same : (p : SubscriptionPayment) → KeepsPlace p (f p)) where
  update_payment-Rests : (w w' : World) → update_payment id test f w ≡ matched w' → Rests org w w'
  unfolding update_payment
  update_payment-Rests w w' h = elim (Option-cases (find_payment id w.payments)) [
    | inl missing ↦ ground arith
    | inr (p, found) ↦ elim (Bool-cases (test p)) [
      | inr refused ↦ ground arith
      | inl passes ↦
          let made : record w { payments = put_payment (f p) w.payments } ≡ w' = ground arith in
          subst (Rests org w) made
            (put-Rests org (f p) p id w found (find_payment_id id w.payments p found) (same p))
    ]
  ]

  adopt_reference-Rests :
      (reference : String) (w w' : World)
      → adopt_reference id reference test f w ≡ matched w'
      → Rests org w w'
  unfolding adopt_reference
  adopt_reference-Rests reference w w' h = elim (Option-cases (find_payment id w.payments)) [
    | inl missing ↦ ground arith
    | inr (p, found) ↦ elim (Bool-cases (test p)) [
      | inr refused ↦ ground arith
      | inl passes ↦ elim (Bool-cases (is_taken p reference w.payments)) [
        | inl taken ↦ ground arith
        | inr free ↦
            let q = (record (f p) { provider_reference = some reference }) in
            let made : record w { payments = put_payment q w.payments } ≡ w' = ground arith in
            let s = same p in
            subst (Rests org w) made (
              put-Rests org q p id w found (find_payment_id id w.payments p found) (record {
                same_id = s.same_id;
                same_organization = s.same_organization;
                same_open = s.same_open;
              }))
      ]
    ]
  ]

  -- A write that may find nothing to do.
  updated-Rests :
      (w : World)
      → Rests org w (elim (update_payment id test f w) as (λ _. World) [ matched w' ↦ w' | _ ↦ w ])
  updated-Rests w = elim (Update-cases (update_payment id test f w)) [
    | inl (w', done) ↦ rw done (update_payment-Rests w w' done)
    | inr (inl missed) ↦ rw missed (Rests-refl w)
    | inr (inr taken) ↦ rw taken (Rests-refl w)
  ]

transition-Rests :
    (org id : String) (from : SubscriptionPaymentStatus → Bool)
    (f : SubscriptionPayment → SubscriptionPayment)
    (same : (p : SubscriptionPayment) → KeepsPlace p (f p)) (w : World)
    → Rests org w (transition id from f w).0
unfolding transition
transition-Rests org id from f same w =
    elim (Update-cases (update_payment id (λ p. from p.status) f w)) [
      | inl (w', done) ↦
          rw (transition, done) (update_payment-Rests org id (λ p. from p.status) f same w w' done)
      | inr (inl missed) ↦ rw (transition, missed) (Rests-refl w)
      | inr (inr taken) ↦ rw (transition, taken) (Rests-refl w)
    ]

place :
    {p q : SubscriptionPayment}
    → q.id ≡ p.id
    → q.organization_id ≡ p.organization_id
    → q.is_open ≡ p.is_open
    → KeepsPlace p q
place a b c = record { same_id = a; same_organization = b; same_open = c }

module _ (org id : String) (w : World) where
  pub mark_review-Rests : Rests org w (mark_review id w).0
  unfolding mark_review
  mark_review-Rests = transition-Rests org id is_finalizable _ (λ p. place refl refl refl) w

  pub mark_uncertain-Rests : Rests org w (mark_uncertain id w).0
  unfolding mark_uncertain
  mark_uncertain-Rests = transition-Rests org id is_initiating _ (λ p. place refl refl refl) w

  pub mark_checked-Rests : (now : ℕ) → Rests org w (mark_checked now id w)
  unfolding mark_checked
  mark_checked-Rests now =
      updated-Rests org id (λ p. true) (λ p. record p { last_checked_at = some now })
        (λ p. record { same_id = refl; same_organization = refl; same_open = refl }) w

  pub note_late_failure-Rests : Rests org w (note_late_failure id w)
  unfolding note_late_failure
  note_late_failure-Rests = updated-Rests org id _ _ (λ p. place refl refl refl) w

  pub adopt_pending-Rests :
      (now : ℕ) (reference : String) (from : SubscriptionPaymentStatus → Bool) (w' : World)
      → adopt_pending now id reference from w ≡ matched w'
      → Rests org w w'
  unfolding adopt_pending
  adopt_pending-Rests now reference from w' h =
      adopt_reference-Rests org id _ (as_pending now) (λ p. place refl refl refl) reference w w' h

-- What others commit closes no payment of the organization and grants nothing.
pub record AreResting (org : String) (m : Meanwhile) : Type 0 where
  pub rests : (n : ℕ) (w : World) → Rests org w (m.others n w)

module _ (org : String) (m : Meanwhile) (s : AreResting org m) where
  pub record_pending-Rests :
      (id reference : String) (from : SubscriptionPaymentStatus → Bool) (w : World)
      → Rests org w (record_pending m id reference from w).0
  unfolding record_pending
  record_pending-Rests id reference from w =
      let w1 = m.others 4 w in
      let w2 = m.others 5 w1 in
      let to_w2 = Rests-trans (s.rests 4 w) (s.rests 5 w1) in
      elim (Update-cases (adopt_pending (m.clock 4) id reference from w1)) [
        | inl (w', done) ↦
            rw (done, record_pending)
              (Rests-trans (s.rests 4 w)
                (adopt_pending-Rests org id w1 (m.clock 4) reference from w' done))
        | inr (inr taken) ↦
            rw (taken, record_pending) (Rests-trans to_w2 (mark_review-Rests org id w2))
        | inr (inl missed) ↦ elim (Option-cases (find_payment id w2.payments)) [
          | inl missing ↦ rw (missed, missing, record_pending) to_w2
          | inr (p, found) ↦ elim (Bool-cases (is_other_reference p.provider_reference reference)) [
            | inl other ↦
                rw (missed, found, other, record_pending)
                  (Rests-trans (Rests-trans to_w2 (s.rests 6 w2))
                    (mark_review-Rests org id (m.others 6 w2)))
            | inr same ↦ rw (missed, found, same, record_pending) to_w2
          ]
        ]
      ]

  pub answer_view-Rests {ℓ} :
      {A : Type ℓ} (id : String) (w : World) (r : World × Result A)
      → Rests org w r.0
      → Rests org w (answer_view m id r).0
  unfolding answer_view
  answer_view-Rests id w (w1, ok a) r = Rests-trans r (s.rests 7 w1)
  answer_view-Rests id w (w1, err e) r = r
