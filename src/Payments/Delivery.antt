-- ===== src/Payments/Delivery.antt =====
-- A payment that the provider confirms is delivered by `confirmPayment` of
-- api/src/subscriptions/payments/subscription-payments.service.ts.
use royalvibe_cosmetic.Common.{
  ℕ, ◌+◌, ◌≤◌, ◌≡◌, refl, sym, ap, subst, ◌∙◌, String, Bool, true, false, ◌&&◌, ◌||◌, not, none,
  some, List, [], ◌∷◌, any, str_eq, arith, eq_iff, eq_refl, Bool-cases, inl, inr,
}
use royalvibe_cosmetic.Subscriptions.Calendar.{Date}
use royalvibe_cosmetic.Subscriptions.Requests as Grant
use royalvibe_cosmetic.Subscriptions.Grants.{
  Ledger, GrantedView, grant_subscription_in_session, Turn, commits, attempts_loop,
  run_in_grant_transaction, out_of_time,
}
use royalvibe_cosmetic.Payments.Model.{
  SubscriptionPaymentStatus, SubscriptionPayment, World, ProviderPaymentState,
  ProviderPaymentStatus, PaymentStatusLookup, PaymentProvider, StatusAnswer, answered, ok,
  is_succeeded, is_finalizable, status_eq,
}
use royalvibe_cosmetic.Payments.Requests.{payment_grant_input}
use royalvibe_cosmetic.Payments.Registry.{find_payment, put_payment, is_taken, is_reference}
use royalvibe_cosmetic.Payments.Writes.{
  granted, finalize_tx, grant_and_mark_succeeded, payment_succeeded_in_session, mark_checked,
}
use royalvibe_cosmetic.Payments.Concordance.{Agrees, Agrees-concordant}
use royalvibe_cosmetic.Payments.Lists.{find_payment-put_payment}
use royalvibe_cosmetic.Payments.Service.{
  Meanwhile, confirm_payment, after_answer, apply_status, finalize, finalize_work, answer_view,
  view_by_id, to_view, lookup_for, payment_confirmation_budget_ms,
}
use royalvibe_cosmetic.Payments.Confirmation.{paid_payment, payment_succeeded_in_session-others}

-- No other request commits meanwhile.
abbrev pub alone : (ℕ → ℕ) → Meanwhile
alone clock = record { others = λ n w. w; clock = clock }

abbrev pub alone_turn : ℕ → Date → String → ℕ → Turn World
alone_turn monotonic now period_id n = record {
  before = λ w. w;
  monotonic = monotonic;
  now = now;
  id = period_id;
  report = commits;
}

-- The payment as the confirmation finds it in the transaction.
abbrev pub checked_payment : ℕ → SubscriptionPayment → SubscriptionPayment
checked_payment now p = record p { last_checked_at = some now }

find_payment-mark_checked :
    (now : ℕ) (id : String) (w : World) (p : SubscriptionPayment)
    → find_payment id w.payments ≡ some p
    → mark_checked now id w ≡ record w { payments = put_payment (checked_payment now p) w.payments }
unfolding mark_checked
find_payment-mark_checked now id w p found = rw (found, mark_checked) refl

paid_world :
    Date
    → String
    → ProviderPaymentStatus
    → World
    → SubscriptionPayment
    → Ledger
    → GrantedView
    → World
paid_world now id verified w p ledger' view = payment_succeeded_in_session id (record w {
  ledger = ledger';
  payments = put_payment (paid_payment now p verified view) w.payments;
})

-- The transaction on a payment that may be paid.
module _ (now : Date) (period_id id : String) (verified : ProviderPaymentStatus) (w : World)
    (p : SubscriptionPayment) (ledger' : Ledger) (view : GrantedView)
    (found : find_payment id w.payments ≡ some p) (waits : is_finalizable p.status ≡ true)
    (agrees : Agrees p verified) (unpaid : p.period_id ≡ none)
    (unused : is_taken p verified.provider_reference w.payments ≡ false)
    (grants : grant_subscription_in_session true now period_id (payment_grant_input p) w.ledger
      ≡ Grant.ok (ledger', view)) where
  finalize_tx-pays :
      finalize_tx now period_id id verified w
      ≡ Grant.ok ((paid_world now id verified w p ledger' view), granted)
  unfolding finalize_tx grant_and_mark_succeeded paid_world
  finalize_tx-pays =
      let not_paid : is_succeeded p.status ≡ false = ground arith in
      rw (found, not_paid, waits, Agrees-concordant p verified agrees, grants, finalize_tx)
        (rw (unpaid, unused, finalize_tx) refl)

  transaction-pays :
      (started monotonic : ℕ)
      → monotonic + 1 ≤ started + payment_confirmation_budget_ms
      → run_in_grant_transaction
          (finalize_work id verified)
          started
          (some payment_confirmation_budget_ms)
          (alone_turn monotonic now period_id)
          w
        ≡ ((paid_world now id verified w p ledger' view), Grant.ok granted)
  unfolding run_in_grant_transaction attempts_loop finalize_work
  transaction-pays started monotonic in_time =
      let early : out_of_time (some (started + payment_confirmation_budget_ms)) monotonic ≡ false =
        ground arith in
      rw (early, attempts_loop) (rw (finalize_tx-pays, attempts_loop) refl)

  paid_world-found :
      (p.id ≡ id)
      → find_payment id (paid_world now id verified w p ledger' view).payments
        ≡ some (paid_payment now p verified view)
  unfolding paid_world
  paid_world-found same =
      rw
        ((payment_succeeded_in_session-others id (record w {
          ledger = ledger';
          payments = put_payment (paid_payment now p verified view) w.payments;
        })).0)
        (rw
          (find_payment-put_payment (paid_payment now p verified view) p id w.payments
            (subst (λ k. find_payment k w.payments ≡ some p) (sym same) found))
          (rw same (rw (eq_refl id) refl)))

  paid_world-ledger : (paid_world now id verified w p ledger' view).ledger ≡ ledger'
  unfolding paid_world
  paid_world-ledger =
      (payment_succeeded_in_session-others id (record w {
        ledger = ledger';
        payments = put_payment (paid_payment now p verified view) w.payments;
      })).1

-- A write of one payment leaves a test that fails on every version of it.
any-put_payment :
    (f : SubscriptionPayment → Bool) (q : SubscriptionPayment) (ps : List SubscriptionPayment)
    → ((x : SubscriptionPayment) → x.id ≡ q.id → f x ≡ false)
    → any f (put_payment q ps) ≡ any f ps
unfolding put_payment
any-put_payment f q [] fails = refl
any-put_payment f q (x ∷ ps) fails = elim (Bool-cases (str_eq x.id q.id)) [
  | inl this ↦ rw (this, fails q refl, fails x ((eq_iff x.id q.id).0 this)) refl
  | inr other ↦ rw (other, any-put_payment f q ps fails) refl
]

is_taken-put_payment :
    (now : ℕ) (p : SubscriptionPayment) (reference : String) (ps : List SubscriptionPayment)
    → is_taken (checked_payment now p) reference (put_payment (checked_payment now p) ps)
      ≡ is_taken p reference ps
is_taken-put_payment now p reference ps =
    any-put_payment (λ q. is_reference p.provider reference q && not (str_eq q.id p.id))
      (checked_payment now p) ps (λ x e. rw e (rw (eq_refl p.id) (ground arith)))

-- A payment that waits and whose provider answers a success of the frozen values gets its period in the
-- one call: with nobody committing meanwhile, the confirmation answers the paid payment, stores it with
-- the period's identifier and the provider's reference, and leaves the ledger that the grant answers.
pub confirm_payment-pays :
    (provider : PaymentProvider) (fetch_status : PaymentStatusLookup → StatusAnswer) (clock : ℕ → ℕ)
    (started monotonic : ℕ) (now : Date) (period_id : String) (w : World) (p : SubscriptionPayment)
    (lookup : PaymentStatusLookup) (verified : ProviderPaymentStatus) (ledger' : Ledger)
    (view : GrantedView)
    → find_payment p.id w.payments ≡ some p
    → is_finalizable p.status ≡ true
    → p.period_id ≡ none
    → (provider.available ≡ true) × (p.provider ≡ provider.name)
    → lookup_for provider p ≡ some lookup
    → fetch_status lookup ≡ answered (some verified)
    → verified.state ≡ ProviderPaymentState.succeeded
    → Agrees p verified
    → is_taken p verified.provider_reference w.payments ≡ false
    → grant_subscription_in_session true now period_id (payment_grant_input p) w.ledger
      ≡ Grant.ok (ledger', view)
    → monotonic + 1 ≤ started + payment_confirmation_budget_ms
    → let paid = paid_payment now (checked_payment (clock 1) p) verified view in
      let r =
        confirm_payment provider fetch_status
          (alone clock)
          started
          (alone_turn monotonic now period_id)
          p.id
          w in
      (r.1 ≡ ok (to_view paid))
      × (find_payment p.id r.0.payments ≡ some paid)
      × (r.0.ledger ≡ ledger')
unfolding confirm_payment after_answer apply_status finalize payment_grant_input paid_world
confirm_payment-pays provider fetch_status clock started monotonic now period_id w p lookup verified
      ledger' view found waits unpaid (available, named) looked answers state agrees unused grants
      in_time =
    let p' = checked_payment (clock 1) p in
    let wc : World = record w { payments = put_payment p' w.payments } in
    let found' : find_payment p.id wc.payments ≡ some p' =
      rw (find_payment-put_payment p' p p.id w.payments found) (rw (eq_refl p.id) refl) in
    let agrees' : Agrees p' verified = record {
      same_merchant_reference = agrees.same_merchant_reference;
      same_amount = agrees.same_amount;
      same_currency = agrees.same_currency;
      has_reference = agrees.has_reference;
      same_reference = agrees.same_reference;
    } in
    let unused' : is_taken p' verified.provider_reference wc.payments ≡ false =
      is_taken-put_payment (clock 1) p verified.provider_reference w.payments ∙ unused in
    let pw = paid_world now p.id verified wc p' ledger' view in
    let stored =
      paid_world-found now period_id p.id verified wc p' ledger' view found' waits agrees' unpaid
        unused' grants refl in
    let kept =
      paid_world-ledger now period_id p.id verified wc p' ledger' view found' waits agrees' unpaid
        unused' grants in
    let transaction =
      transaction-pays now period_id p.id verified wc p' ledger' view found' waits agrees' unpaid
        unused' grants started monotonic in_time in
    let waiting : (is_succeeded p.status || status_eq p.status SubscriptionPaymentStatus.review)
        ≡ false =
      ground arith in
    let reachable : (not provider.available || not (str_eq p.provider provider.name)) ≡ false =
      rw (available, named, eq_refl provider.name) refl in
    let m = alone clock in
    let turns = alone_turn monotonic now period_id in
    let asked : confirm_payment provider fetch_status m started turns p.id w
        ≡ after_answer m started turns p (answered (some verified)) w =
      rw (found, waiting, reachable, looked, answers, confirm_payment) refl in
    let checked : after_answer m started turns p (answered (some verified)) w
        ≡ apply_status m started turns p.id verified wc =
      rw (Agrees-concordant p verified agrees, after_answer)
        (ap (apply_status m started turns p.id verified)
          (find_payment-mark_checked (clock 1) p.id w p found)) in
    let applied : apply_status m started turns p.id verified wc
        ≡ (pw, ok (to_view (paid_payment now p' verified view))) =
      rw (state, apply_status)
        (rw (transaction, finalize) (rw (stored, answer_view, view_by_id) refl)) in
    rw (asked ∙ checked ∙ applied) (refl, stored, kept)
