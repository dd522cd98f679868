-- ===== src/Payments/Service.antt =====
-- `SubscriptionPaymentsService` of
-- api/src/subscriptions/payments/subscription-payments.service.ts: a request for a payment, its
-- initiation, and its confirmation. What other requests commit before each access to the database is
-- an argument, and so are the provider's answers. The signals to the screens, sent after the writes,
-- are left out.
use royalvibe_cosmetic.Common.{
  ℕ, String, Bool, true, false, ◌||◌, not, Option, none, some, str_eq, if◌then◌else◌,
}
use royalvibe_cosmetic.Subscriptions.Months.{SubscriptionTerm}
use royalvibe_cosmetic.Subscriptions.Requests as Grant
use royalvibe_cosmetic.Subscriptions.Requests.{
  GrantError, grant_timeout, grant_contention, duplicate_provider_reference, chars, lower_hex,
}
use royalvibe_cosmetic.Subscriptions.Grants.{Turn, run_in_grant_transaction}
use royalvibe_cosmetic.Payments.Model.{
  SubscriptionPaymentStatus, SubscriptionPayment, World, ProviderPaymentState,
  ProviderPaymentStatus, PaymentStatusLookup, by_provider, by_merchant, PaymentProvider,
  StatusAnswer, no_answer, answered, payment_service_unavailable, payment_status_unavailable,
  payment_confirmation_pending, payment_not_found, internal_error, Result, ok, err, is_succeeded,
  status_eq,
}
use royalvibe_cosmetic.Payments.Requests.{concordant}
use royalvibe_cosmetic.Payments.Registry.{find_payment, matched, unmatched, duplicate_reference}
use royalvibe_cosmetic.Payments.Writes.{
  mark_review, mark_checked, adopt_pending, adopt_failure, note_late_failure, FinalizeOutcome,
  granted, mismatch, finalize_tx,
}

pub record SubscriptionPaymentView : Type 0 where
  pub payment_id : String
  pub reference : String
  pub status : SubscriptionPaymentStatus
  pub term : SubscriptionTerm
  pub amount : ℕ
  pub currency : String
  pub payer_phone_masked : String
  pub created_at : ℕ
  pub initiated_at : Option ℕ
  pub confirmed_at : Option ℕ
  pub failed_at : Option ℕ

unfoldable pub to_view : SubscriptionPayment → SubscriptionPaymentView
to_view p = record {
  payment_id = p.id;
  reference = p.merchant_reference;
  status = p.status;
  term = p.term;
  amount = p.amount;
  currency = p.currency;
  payer_phone_masked = p.payer_phone_masked;
  created_at = p.created_at;
  initiated_at = p.initiated_at;
  confirmed_at = p.confirmed_at;
  failed_at = p.failed_at;
}

unfoldable pub view_by_id : String → World → Result SubscriptionPaymentView
unfolding find_payment to_view
view_by_id id w = elim (find_payment id w.payments) [
  | none ↦ err payment_not_found
  | some p ↦ ok (to_view p)
]

-- Around one call: what others commit before its n-th access to the database, and the clock then.
pub record Meanwhile : Type 0 where
  pub others : ℕ → World → World
  pub clock : ℕ → ℕ

abbrev pub is_other_reference : Option String → String → Bool
is_other_reference none reference = false
is_other_reference (some known) reference = not (str_eq known reference)

unfoldable pub record_pending :
    Meanwhile → String → String → (SubscriptionPaymentStatus → Bool) → World → World × Bool
unfolding adopt_pending mark_review find_payment
record_pending m id reference from w =
    let w1 = m.others 4 w in
    let w2 = m.others 5 w1 in
    elim (adopt_pending (m.clock 4) id reference from w1) [
      | matched w' ↦ (w', true)
      | duplicate_reference ↦ mark_review id w2
      | unmatched ↦ elim (find_payment id w2.payments) [
        | none ↦ (w2, false)
        | some p ↦
            if is_other_reference p.provider_reference reference
            then mark_review id (m.others 6 w2)
            else (w2, false)
      ]
    ]

unfoldable pub record_failure : Meanwhile → String → String → World → World × Result Bool
unfolding adopt_failure note_late_failure
record_failure m id reference w =
    let w1 = m.others 4 w in
    elim (adopt_failure (m.clock 4) id reference w1) [
      | matched w' ↦ (w', ok true)
      | duplicate_reference ↦ (w1, err internal_error)
      | unmatched ↦ (note_late_failure id (m.others 5 w1), ok false)
    ]

abbrev pub payment_confirmation_budget_ms : ℕ
payment_confirmation_budget_ms = 30000

pub data FinalizeResult : Type 0 where
  was_granted in_review unchanged : FinalizeResult

abbrev pub after_review : World × Bool → World × Result FinalizeResult
after_review (w, true) = (w, ok in_review)
after_review (w, false) = (w, ok unchanged)

-- What `finalize` makes of the transaction's outcome.
unfoldable pub after_transaction :
    Meanwhile → String → World → Grant.Result FinalizeOutcome → World × Result FinalizeResult
unfolding mark_review
after_transaction m id w (Grant.ok granted) = (w, ok was_granted)
after_transaction m id w (Grant.ok mismatch) = after_review (mark_review id (m.others 5 w))
after_transaction m id w (Grant.ok _) = (w, ok unchanged)
after_transaction m id w (Grant.err grant_timeout) = (w, err payment_confirmation_pending)
after_transaction m id w (Grant.err grant_contention) = (w, err payment_confirmation_pending)
after_transaction m id w (Grant.err duplicate_provider_reference) =
    after_review (mark_review id (m.others 5 w))
after_transaction m id w (Grant.err _) = (w, err internal_error)

unfoldable pub finalize_work :
    String → ProviderPaymentStatus → Turn World → World → Grant.Result (World × FinalizeOutcome)
unfolding finalize_tx
finalize_work id verified turn w = finalize_tx turn.now turn.id id verified w

unfoldable pub finalize :
    Meanwhile
    → ℕ
    → (ℕ → Turn World)
    → String
    → ProviderPaymentStatus
    → World
    → World × Result FinalizeResult
unfolding run_in_grant_transaction finalize_work after_transaction
finalize m started turns id verified w =
    let (w', outcome) =
      run_in_grant_transaction (finalize_work id verified) started
        (some payment_confirmation_budget_ms) turns w in
    after_transaction m id w' outcome

abbrev pub lookup_by_merchant : PaymentProvider → SubscriptionPayment → Option PaymentStatusLookup
lookup_by_merchant provider p =
    if provider.supports_merchant_reference_lookup
    then some (by_merchant p.merchant_reference)
    else none

-- An empty reference counts as none.
unfoldable pub lookup_for : PaymentProvider → SubscriptionPayment → Option PaymentStatusLookup
lookup_for provider p = elim p.provider_reference [
  | some reference ↦
      if str_eq reference "" then lookup_by_merchant provider p else some (by_provider reference)
  | none ↦ lookup_by_merchant provider p
]

-- Waiting for an answer that names the collection.
abbrev pub is_unanswered : SubscriptionPaymentStatus → Bool
is_unanswered SubscriptionPaymentStatus.initiating = true
is_unanswered SubscriptionPaymentStatus.uncertain = true
is_unanswered _ = false

-- The view that the call answers with, unless it failed before.
unfoldable pub answer_view {ℓ} :
    {A : Type ℓ} → Meanwhile → String → World × Result A → World × Result SubscriptionPaymentView
unfolding view_by_id
answer_view m id (w, err e) = (w, err e)
answer_view m id (w, ok _) = let w' = m.others 7 w in (w', view_by_id id w')

abbrev pub succeed {ℓ} : {A : Type ℓ} → World × A → World × Result A
succeed (w, a) = (w, ok a)

-- What a state that concords makes of the payment.
unfoldable pub apply_status :
    Meanwhile
    → ℕ
    → (ℕ → Turn World)
    → String
    → ProviderPaymentStatus
    → World
    → World × Result SubscriptionPaymentView
unfolding record_pending record_failure finalize answer_view
apply_status m started turns id status w = elim status.state [
  | ProviderPaymentState.pending ↦
      answer_view m id (succeed (record_pending m id status.provider_reference is_unanswered w))
  | ProviderPaymentState.failed ↦ answer_view m id (record_failure m id status.provider_reference w)
  | ProviderPaymentState.succeeded ↦ answer_view m id (finalize m started turns id status w)
]

-- From the provider's answer on. `payment` is what was read before.
unfoldable pub after_answer :
    Meanwhile
    → ℕ
    → (ℕ → Turn World)
    → SubscriptionPayment
    → StatusAnswer
    → World
    → World × Result SubscriptionPaymentView
unfolding mark_checked apply_status mark_review answer_view view_by_id
after_answer m started turns payment no_answer w = (w, err payment_status_unavailable)
after_answer m started turns payment (answered none) w =
    answer_view m payment.id (succeed (mark_checked (m.clock 1) payment.id w, false))
after_answer m started turns payment (answered (some status)) w =
    let w2 = mark_checked (m.clock 1) payment.id w in
    if concordant payment status
    then apply_status m started turns payment.id status w2
    else answer_view m payment.id (succeed (mark_review payment.id (m.others 2 w2)))

unfoldable pub confirm_payment :
    PaymentProvider
    → (PaymentStatusLookup → StatusAnswer)
    → Meanwhile
    → ℕ
    → (ℕ → Turn World)
    → String
    → World
    → World × Result SubscriptionPaymentView
unfolding find_payment to_view lookup_for after_answer
confirm_payment provider fetch_status m started turns id w =
    let w0 = m.others 0 w in
    elim (find_payment id w0.payments) [
      | none ↦ (w0, err payment_not_found)
      | some payment ↦
          if is_succeeded payment.status
            || status_eq payment.status SubscriptionPaymentStatus.review
          then (w0, ok (to_view payment))
          else if not provider.available || not (str_eq payment.provider provider.name)
          then (w0, err payment_service_unavailable)
          else elim (lookup_for provider payment) [
            | none ↦ (w0, ok (to_view payment))
            | some lookup ↦
                after_answer m started turns payment (fetch_status lookup) (m.others 1 w0)
          ]
    ]
