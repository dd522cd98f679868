-- ===== src/Payments/Handlers.antt =====
-- The calls of api/src/subscriptions/payments/subscription-payments.service.ts are sequences of steps,
-- whatever others commit between their accesses to the database.
use royalvibe_cosmetic.Common.{
  ℕ, zero, suc, ◌+◌, ◌≡◌, refl, sym, subst, String, Bool, true, false, ◌||◌, not, Option, none,
  some, str_eq, Bool-cases, Option-cases, ◌⊎◌, inl, inr,
}
use royalvibe_cosmetic.Subscriptions.Requests as Grant
use royalvibe_cosmetic.Subscriptions.Requests.{GrantError}
use royalvibe_cosmetic.Subscriptions.Grants.{
  Turn, Report, commits, expires, collides, attempt, attempts_loop, run_in_grant_transaction,
  is_retryable, out_of_time, max_grant_attempts,
}
use royalvibe_cosmetic.Subscriptions.Renewal.{Result-cases}
use royalvibe_cosmetic.Payments.Model.{
  SubscriptionPaymentStatus, SubscriptionPayment, World, ProviderPaymentState,
  ProviderPaymentStatus, PaymentStatusLookup, PaymentProvider, StatusAnswer, no_answer, answered,
  Result, ok, err, is_succeeded, status_eq,
}
use royalvibe_cosmetic.Payments.Requests.{concordant}
use royalvibe_cosmetic.Payments.Registry.{
  find_payment, Update, matched, unmatched, duplicate_reference,
}
use royalvibe_cosmetic.Payments.Writes.{
  mark_review, mark_checked, adopt_pending, adopt_failure, FinalizeOutcome, mismatch,
}
use royalvibe_cosmetic.Payments.Service.{
  Meanwhile, record_pending, record_failure, after_review, after_transaction, finalize_work,
  finalize, is_unanswered, is_other_reference, answer_view, succeed, apply_status, after_answer,
  confirm_payment, lookup_for, SubscriptionPaymentView, payment_confirmation_budget_ms,
}
use royalvibe_cosmetic.Payments.Trace.{
  Step, Reach, here, next, Reach-trans, waiting, failing, failing_late, reviewing, checking,
  confirming,
}

-- What others commit are steps too.
pub record AreSteps (m : Meanwhile) : Type 0 where
  pub reach : (n : ℕ) (w : World) → Reach w (m.others n w)

pub record TurnsAreSteps (turns : ℕ → Turn World) : Type 0 where
  pub reach : (n : ℕ) (w : World) → Reach w ((turns n).before w)

pub Update-cases :
    (u : Update) → ((w : World) × (u ≡ matched w)) ⊎ ((u ≡ unmatched) ⊎ (u ≡ duplicate_reference))
Update-cases (matched w) = inl (w, refl)
Update-cases unmatched = inr (inl refl)
Update-cases duplicate_reference = inr (inr refl)

pub answer_view-world {ℓ} :
    {A : Type ℓ} (m : Meanwhile) (id : String) (w : World) (r : World × Result A)
    → AreSteps m
    → Reach w r.0
    → Reach w (answer_view m id r).0
unfolding answer_view
answer_view-world m id w (w1, ok a) s r = Reach-trans r (s.reach 7 w1)
answer_view-world m id w (w1, err e) s r = r

module _ (m : Meanwhile) (s : AreSteps m) where
  -- Others commit, and then one write is made.
  pub after : (n : ℕ) {w w' : World} → Step (m.others n w) w' → Reach w w'
  after n {w} st = next (s.reach n w) st

  pub record_pending-Reach :
      (id reference : String) (from : SubscriptionPaymentStatus → Bool) (w : World)
      → ((t : SubscriptionPaymentStatus) → from t ≡ true → is_unanswered t ≡ true)
      → Reach w (record_pending m id reference from w).0
  unfolding record_pending
  record_pending-Reach id reference from w only =
      let w1 = m.others 4 w in
      let w2 = m.others 5 w1 in
      let to_w2 = Reach-trans (s.reach 4 w) (s.reach 5 w1) in
      elim (Update-cases (adopt_pending (m.clock 4) id reference from w1)) [
        | inl (w', done) ↦
            rw (done, record_pending) (after 4 (waiting (m.clock 4) id reference from only done))
        | inr (inr taken) ↦ rw (taken, record_pending) (next to_w2 (reviewing id refl))
        | inr (inl missed) ↦ elim (Option-cases (find_payment id w2.payments)) [
          | inl missing ↦ rw (missed, missing, record_pending) to_w2
          | inr (p, found) ↦ elim (Bool-cases (is_other_reference p.provider_reference reference)) [
            | inl other ↦
                rw (missed, found, other, record_pending)
                  (next (Reach-trans to_w2 (s.reach 6 w2)) (reviewing id refl))
            | inr same ↦ rw (missed, found, same, record_pending) to_w2
          ]
        ]
      ]

  record_failure-Reach :
      (id reference : String) (w : World) → Reach w (record_failure m id reference w).0
  unfolding record_failure
  record_failure-Reach id reference w =
      let w1 = m.others 4 w in
      elim (Update-cases (adopt_failure (m.clock 4) id reference w1)) [
        | inl (w', done) ↦
            rw (done, record_failure) (after 4 (failing (m.clock 4) id reference done))
        | inr (inr taken) ↦ rw (taken, record_failure) (s.reach 4 w)
        | inr (inl missed) ↦
            rw (missed, record_failure)
              (next (Reach-trans (s.reach 4 w) (s.reach 5 w1)) (failing_late id refl))
      ]

committed :
    (id : String) (verified : ProviderPaymentStatus) (report : Report) (turn : Turn World)
    (v v' : World) (o : FinalizeOutcome)
    → attempt report (finalize_work id verified turn v) ≡ Grant.ok (v', o)
    → Step v v'
unfolding finalize_work
committed id verified commits turn v v' o done = confirming turn.now turn.id id verified done
committed id verified expires turn v v' o done = cc
committed id verified (collides e) turn v v' o done = cc

-- The transaction, repeated.
attempts_loop-Reach :
    (id : String) (verified : ProviderPaymentStatus) (deadline : Option ℕ) (turns : ℕ → Turn World)
    (n : ℕ) (w : World)
    → TurnsAreSteps turns
    → Reach w (attempts_loop (finalize_work id verified) deadline turns n w).0
unfolding attempts_loop
attempts_loop-Reach id verified deadline turns zero w s = here
attempts_loop-Reach id verified deadline turns (suc n) w s =
    let turn = turns n in
    let w' = turn.before w in
    let to_w' = s.reach n w in
    elim (Bool-cases (out_of_time deadline turn.monotonic)) [
      | inl late ↦ rw (late, attempts_loop) to_w'
      | inr in_time ↦
          elim (Result-cases (attempt turn.report (finalize_work id verified turn w'))) [
            | inr ((w'', o), done) ↦
                rw (in_time, done, attempts_loop)
                  (next to_w' (committed id verified turn.report turn w' w'' o done))
            | inl (e, failure) ↦ elim (Bool-cases (is_retryable e)) [
              | inl again ↦
                  rw (in_time, failure, again, attempts_loop)
                    (Reach-trans to_w' (attempts_loop-Reach id verified deadline turns n w' s))
              | inr gives_up ↦ rw (in_time, failure, gives_up, attempts_loop) to_w'
            ]
          ]
    ]

module _ (m : Meanwhile) (s : AreSteps m) where
  after_review-world : (r : World × Bool) → (after_review r).0 ≡ r.0
  after_review-world (w, true) = refl
  after_review-world (w, false) = refl

  reviewed-Reach :
      (id : String) (w : World) → Reach w (after_review (mark_review id (m.others 5 w))).0
  reviewed-Reach id w =
      subst (Reach w) (sym (after_review-world (mark_review id (m.others 5 w))))
        (next (s.reach 5 w) (reviewing id refl))

  after_transaction-Reach :
      (id : String) (w : World) (r : Grant.Result FinalizeOutcome)
      → Reach w (after_transaction m id w r).0
  unfolding after_transaction
  after_transaction-Reach id w (Grant.ok mismatch) = reviewed-Reach id w
  after_transaction-Reach id w (Grant.ok _) = here
  after_transaction-Reach id w (Grant.err GrantError.duplicate_provider_reference) =
      reviewed-Reach id w
  after_transaction-Reach id w (Grant.err _) = here

  module _ (started : ℕ) (turns : ℕ → Turn World) (t : TurnsAreSteps turns) where
    finalize-Reach :
        (id : String) (verified : ProviderPaymentStatus) (w : World)
        → Reach w (finalize m started turns id verified w).0
    unfolding finalize run_in_grant_transaction
    finalize-Reach id verified w =
        let loop =
          attempts_loop (finalize_work id verified)
            (some (started + payment_confirmation_budget_ms)) turns max_grant_attempts w in
        Reach-trans
          (attempts_loop-Reach id verified (some (started + payment_confirmation_budget_ms)) turns
            max_grant_attempts w t)
          (after_transaction-Reach id loop.0 loop.1)

    apply_status-Reach :
        (id : String) (status : ProviderPaymentStatus) (w : World)
        → Reach w (apply_status m started turns id status w).0
    unfolding apply_status
    apply_status-Reach id status w = by_state status.state
      where
        by_state :
            (state : ProviderPaymentState)
            → Reach w
                (elim state as (λ _. World × Result SubscriptionPaymentView) [
                  | ProviderPaymentState.pending ↦
                      answer_view m id
                        (succeed (record_pending m id status.provider_reference is_unanswered w))
                  | ProviderPaymentState.failed ↦
                      answer_view m id (record_failure m id status.provider_reference w)
                  | ProviderPaymentState.succeeded ↦
                      answer_view m id (finalize m started turns id status w)
                ]).0
        by_state ProviderPaymentState.pending =
            answer_view-world m id w
              (succeed (record_pending m id status.provider_reference is_unanswered w)) s
              (record_pending-Reach m s id status.provider_reference is_unanswered w (λ _ h. h))
        by_state ProviderPaymentState.failed =
            answer_view-world m id w (record_failure m id status.provider_reference w) s
              (record_failure-Reach m s id status.provider_reference w)
        by_state ProviderPaymentState.succeeded =
            answer_view-world m id w (finalize m started turns id status w) s
              (finalize-Reach id status w)

    after_answer-Reach :
        (payment : SubscriptionPayment) (answer : StatusAnswer) (w : World)
        → Reach w (after_answer m started turns payment answer w).0
    unfolding after_answer
    after_answer-Reach payment no_answer w = here
    after_answer-Reach payment (answered none) w =
        answer_view-world m payment.id w (succeed (mark_checked (m.clock 1) payment.id w, false)) s
          (next here (checking (m.clock 1) payment.id refl))
    after_answer-Reach payment (answered (some status)) w =
        let w2 = mark_checked (m.clock 1) payment.id w in
        let checked : Reach w w2 = next here (checking (m.clock 1) payment.id refl) in
        elim (Bool-cases (concordant payment status)) [
          | inl agreed ↦
              rw (agreed, after_answer)
                (Reach-trans checked (apply_status-Reach payment.id status w2))
          | inr disagreed ↦
              rw (disagreed, after_answer)
                (answer_view-world m payment.id w (succeed (mark_review payment.id (m.others 2 w2)))
                  s (next (Reach-trans checked (s.reach 2 w2)) (reviewing payment.id refl)))
        ]

    -- Whatever others commit, a confirmation is a sequence of the steps, whatever the provider answers.
    pub confirm_payment-Reach :
        (provider : PaymentProvider) (fetch_status : PaymentStatusLookup → StatusAnswer)
        (id : String) (w : World)
        → Reach w (confirm_payment provider fetch_status m started turns id w).0
    unfolding confirm_payment
    confirm_payment-Reach provider fetch_status id w =
        let w0 = m.others 0 w in
        elim (Option-cases (find_payment id w0.payments)) [
          | inl missing ↦ rw (missing, confirm_payment) (s.reach 0 w)
          | inr (p, found) ↦
              elim (Bool-cases
                (is_succeeded p.status || status_eq p.status SubscriptionPaymentStatus.review)) [
                  | inl final ↦ rw (found, final, confirm_payment) (s.reach 0 w)
                  | inr waits ↦
                      elim (Bool-cases
                        (not provider.available || not (str_eq p.provider provider.name))) [
                          | inl absent ↦ rw (found, waits, absent, confirm_payment) (s.reach 0 w)
                          | inr there ↦ elim (Option-cases (lookup_for provider p)) [
                            | inl no_lookup ↦
                                rw (found, waits, there, no_lookup, confirm_payment) (s.reach 0 w)
                            | inr (lookup, known) ↦
                                rw (found, waits, there, known, confirm_payment)
                                  (Reach-trans (Reach-trans (s.reach 0 w) (s.reach 1 w0))
                                    (after_answer-Reach p (fetch_status lookup) (m.others 1 w0)))
                          ]
                        ]
                ]
        ]
