-- ===== src/Payments/Outcomes.antt =====
-- What the provider's answer lets a confirmation change: `confirmPayment` of
-- api/src/subscriptions/payments/subscription-payments.service.ts.
use royalvibe_cosmetic.Common.{
  ℕ, ◌≡◌, refl, ◌∙◌, String, true, false, ◌||◌, not, none, some, str_eq, Bool-cases, arith,
  Option-cases, inl, inr,
}
use royalvibe_cosmetic.Subscriptions.Grants.{Turn}
use royalvibe_cosmetic.Payments.Model.{
  SubscriptionPaymentStatus, SubscriptionPayment, World, ProviderPaymentState,
  ProviderPaymentStatus, PaymentStatusLookup, PaymentProvider, StatusAnswer, no_answer, answered,
  Result, ok, err, is_succeeded, status_eq,
}
use royalvibe_cosmetic.Payments.Requests.{concordant}
use royalvibe_cosmetic.Payments.Registry.{find_payment, adopt_reference, matched}
use royalvibe_cosmetic.Payments.Writes.{mark_review, mark_checked, adopt_failure}
use royalvibe_cosmetic.Payments.Handlers.{Update-cases}
use royalvibe_cosmetic.Payments.Service.{
  Meanwhile, record_failure, answer_view, succeed, apply_status, after_answer, confirm_payment,
  lookup_for, is_unanswered, record_pending, finalize, SubscriptionPaymentView,
}
use royalvibe_cosmetic.Payments.Rest.{
  Rests, Rests-trans, mark_review-Rests, mark_checked-Rests, note_late_failure-Rests, AreResting,
  record_pending-Rests, answer_view-Rests,
}

-- The provider answered with the state and with the frozen values of the payment, which was read when
-- it was neither succeeded nor in review.
pub record Decided (provider : PaymentProvider) (fetch_status : PaymentStatusLookup → StatusAnswer)
    (id : String) (seen : World) (state : ProviderPaymentState) : Type 0 where
  pub payment : SubscriptionPayment
  pub lookup : PaymentStatusLookup
  pub status : ProviderPaymentStatus
  pub was_read : find_payment id seen.payments ≡ some payment
  pub was_waiting :
      (is_succeeded payment.status || status_eq payment.status SubscriptionPaymentStatus.review)
      ≡ false
  pub was_asked : lookup_for provider payment ≡ some lookup
  pub has_answered : fetch_status lookup ≡ answered (some status)
  pub has_state : status.state ≡ state
  pub has_agreed : concordant payment status ≡ true

-- A confirmation of `w` that ends in `w'`.
pub data Follows (org : String) (Said : ProviderPaymentState → Type 0) (w w' : World) : Type 0 where
  idle : Rests org w w' → Follows org Said w w'
  refused : Said ProviderPaymentState.failed → w'.ledger ≡ w.ledger → Follows org Said w w'
  paid : Said ProviderPaymentState.succeeded → Follows org Said w w'

module _ (org : String) (m : Meanwhile) (s : AreResting org m) where
  adopt_failure-ledger :
      (now : ℕ) (id reference : String) (w w' : World)
      → adopt_failure now id reference w ≡ matched w'
      → w'.ledger ≡ w.ledger
  unfolding adopt_failure adopt_reference
  adopt_failure-ledger now id reference w w' h = ground arith

  record_failure-ledger :
      (id reference : String) (w : World) → (record_failure m id reference w).0.ledger ≡ w.ledger
  unfolding record_failure
  record_failure-ledger id reference w =
      let w1 = m.others 4 w in
      let to_w1 = (s.rests 4 w).same_ledger in
      elim (Update-cases (adopt_failure (m.clock 4) id reference w1)) [
        | inl (w', done) ↦
            rw (record_failure, done)
              (adopt_failure-ledger (m.clock 4) id reference w1 w' done ∙ to_w1)
        | inr (inr taken) ↦ rw (record_failure, taken) to_w1
        | inr (inl missed) ↦
            rw (record_failure, missed)
              ((note_late_failure-Rests org id (m.others 5 w1)).same_ledger
                ∙ (s.rests 5 w1).same_ledger
                ∙ to_w1)
      ]

  answer_view-ledger {ℓ} :
      {A : Type ℓ} (id : String) (r : World × Result A) → (answer_view m id r).0.ledger ≡ r.0.ledger
  unfolding answer_view
  answer_view-ledger id (w, ok a) = (s.rests 7 w).same_ledger
  answer_view-ledger id (w, err e) = refl

  module _ (started : ℕ) (turns : ℕ → Turn World) where
    apply_status-Follows :
        (Said : ProviderPaymentState → Type 0) (id : String) (status : ProviderPaymentStatus)
        (w0 w : World)
        → Rests org w0 w
        → Said status.state
        → Follows org Said w0 (apply_status m started turns id status w).0
    unfolding apply_status
    apply_status-Follows Said id status w0 w before said = by_state status.state said
      where
        by_state :
            (state : ProviderPaymentState)
            → Said state
            → Follows org Said w0
                (elim state as (λ _. World × Result SubscriptionPaymentView) [
                  | ProviderPaymentState.pending ↦
                      answer_view m id
                        (succeed (record_pending m id status.provider_reference is_unanswered w))
                  | ProviderPaymentState.failed ↦
                      answer_view m id (record_failure m id status.provider_reference w)
                  | ProviderPaymentState.succeeded ↦
                      answer_view m id (finalize m started turns id status w)
                ]).0
        by_state ProviderPaymentState.pending said = idle (
            Rests-trans before (
              answer_view-Rests org m s id w
                (succeed (record_pending m id status.provider_reference is_unanswered w))
                (record_pending-Rests org m s id status.provider_reference is_unanswered w)))
        by_state ProviderPaymentState.failed said = refused said (
            answer_view-ledger id (record_failure m id status.provider_reference w)
            ∙ record_failure-ledger id status.provider_reference w
            ∙ before.same_ledger)
        by_state ProviderPaymentState.succeeded said = paid said

    after_answer-Follows :
        (Said : ProviderPaymentState → Type 0) (payment : SubscriptionPayment)
        (answer : StatusAnswer) (w0 w : World)
        → Rests org w0 w
        → ((status : ProviderPaymentStatus)
            → answer ≡ answered (some status)
            → concordant payment status ≡ true
            → Said status.state)
        → Follows org Said w0 (after_answer m started turns payment answer w).0
    unfolding after_answer
    after_answer-Follows Said payment no_answer w0 w before says = idle before
    after_answer-Follows Said payment (answered none) w0 w before says = idle (
        Rests-trans before (
          answer_view-Rests org m s payment.id w
            (succeed (mark_checked (m.clock 1) payment.id w, false))
            (mark_checked-Rests org payment.id w (m.clock 1))))
    after_answer-Follows Said payment (answered (some status)) w0 w before says =
        let w2 = mark_checked (m.clock 1) payment.id w in
        let checked = Rests-trans before (mark_checked-Rests org payment.id w (m.clock 1)) in
        elim (Bool-cases (concordant payment status)) [
          | inl agreed ↦
              rw (agreed, after_answer)
                (apply_status-Follows Said payment.id status w0 w2 checked
                  (says status refl agreed))
          | inr differs ↦
              rw (differs, after_answer)
                (idle (
                  answer_view-Rests org m s payment.id w0
                    (succeed (mark_review payment.id (m.others 2 w2)))
                    (Rests-trans (Rests-trans checked (s.rests 2 w2))
                      (mark_review-Rests org payment.id (m.others 2 w2)))))
        ]

    -- A confirmation changes the ledger only if the provider answered a success of the frozen values of
    -- a payment that waited, and leaves an organization without an open payment only if the provider
    -- answered a success or a failure of them; whatever the others commit that neither grants nor closes.
    pub confirm_payment-Follows :
        (provider : PaymentProvider) (fetch_status : PaymentStatusLookup → StatusAnswer)
        (id : String) (w : World)
        → Follows org
            (Decided provider fetch_status id (m.others 0 w))
            w
            (confirm_payment provider fetch_status m started turns id w).0
    unfolding confirm_payment after_answer
    confirm_payment-Follows provider fetch_status id w =
        let w0 = m.others 0 w in
        let to_w0 = s.rests 0 w in
        elim (Option-cases (find_payment id w0.payments)) [
          | inl missing ↦ rw (missing, confirm_payment) (idle to_w0)
          | inr (p, found) ↦
              elim (Bool-cases
                (is_succeeded p.status || status_eq p.status SubscriptionPaymentStatus.review)) [
                  | inl final ↦ rw (found, final, confirm_payment) (idle to_w0)
                  | inr waits ↦
                      elim (Bool-cases
                        (not provider.available || not (str_eq p.provider provider.name))) [
                          | inl absent ↦ rw (found, waits, absent, confirm_payment) (idle to_w0)
                          | inr there ↦ elim (Option-cases (lookup_for provider p)) [
                            | inl no_lookup ↦
                                rw (found, waits, there, no_lookup, confirm_payment) (idle to_w0)
                            | inr (lookup, known) ↦
                                rw (found, waits, there, known, confirm_payment)
                                  (after_answer-Follows (Decided provider fetch_status id w0) p
                                    (fetch_status lookup) w (m.others 1 w0)
                                    (Rests-trans to_w0 (s.rests 1 w0))
                                    (λ status e agreed. record {
                                      payment = p;
                                      lookup = lookup;
                                      status = status;
                                      was_read = found;
                                      was_waiting = waits;
                                      was_asked = known;
                                      has_answered = e;
                                      has_state = refl;
                                      has_agreed = agreed;
                                    }))
                          ]
                        ]
                ]
        ]
