-- ===== src/Payments/Tests.antt =====
-- Runs of the model of api/src/subscriptions/payments, and each theorem at an input that meets its
-- hypotheses.
use royalvibe_cosmetic.Common.{
  ℕ, ◌≡◌, refl, sym, subst, find, String, true, false, none, some, [], ◌∷◌, arith, eq_iff,
}
use royalvibe_cosmetic.Subscriptions.Calendar.{Date, last_day}
use royalvibe_cosmetic.Subscriptions.Months.{
  SubscriptionTerm, monthly, compute_subscription_ends_at,
}
use royalvibe_cosmetic.Subscriptions.State.{subscription}
use royalvibe_cosmetic.Subscriptions.Requests as Grant
use royalvibe_cosmetic.Subscriptions.Requests.{
  GrantInput, validate, strict_object_id, bounded_text, subscription_term, grantable_source,
}
use royalvibe_cosmetic.Subscriptions.Grants.{
  SubscriptionPeriod, Ledger, GrantedView, grant_subscription_in_session, apply_grant,
}
use royalvibe_cosmetic.Payments.Model.{
  SubscriptionPaymentStatus, SubscriptionPayment, World, ProviderPaymentState,
  ProviderPaymentStatus, by_provider, PaymentProvider, accepted, lost, unreachable, answered, ok,
}
use royalvibe_cosmetic.Payments.Requests.{
  normalize_payer_phone, mask_payer_phone, payment_grant_input, concordant,
}
use royalvibe_cosmetic.Payments.Phones.{normalize_payer_phone-canonical}
use royalvibe_cosmetic.Payments.Initiation.{CreatePayment, Created, create_payment, lower_case}
use royalvibe_cosmetic.Payments.Service.{confirm_payment}
use royalvibe_cosmetic.Payments.Delivery.{alone, alone_turn, checked_payment, confirm_payment-pays}
use royalvibe_cosmetic.Payments.Confirmation.{Paid, paid_payment, finalize_tx-Paid}
use royalvibe_cosmetic.Payments.Concordance.{Agrees}
use royalvibe_cosmetic.Payments.Writes.{finalize_tx, granted}
use royalvibe_cosmetic.Payments.Service.{to_view, lookup_for}
use royalvibe_cosmetic.Payments.Registry.{find_payment, is_operation}
use royalvibe_cosmetic.Payments.Trace.{Reach, here}
use royalvibe_cosmetic.Payments.Soundness.{IsSound}
use royalvibe_cosmetic.Payments.Invariant.{Reach-IsSound}
use royalvibe_cosmetic.Payments.Handlers.{AreSteps, TurnsAreSteps, confirm_payment-Reach}
use royalvibe_cosmetic.Payments.Reservation.{create_payment-Reach}
use royalvibe_cosmetic.Payments.Rest.{Rests-refl, AreResting}
use royalvibe_cosmetic.Payments.Outcomes.{Decided, Follows, confirm_payment-Follows}
use royalvibe_cosmetic.Payments.Repetition.{create_payment-idempotent}

spaced : normalize_payer_phone "+237 6 12-34-56-78" ≡ some "237612345678"
unfolding normalize_payer_phone
spaced = refl

masked : mask_payer_phone "237612345678" ≡ "+237 6•• ••• •78"
unfolding mask_payer_phone
masked = refl

normalize_payer_phone-canonical_example : normalize_payer_phone "237612345678" ≡ some "237612345678"
normalize_payer_phone-canonical_example =
    normalize_payer_phone-canonical "+237 6 12-34-56-78" "237612345678" spaced

abbrev organization : String
organization = "0123456789abcdef01234567"

abbrev payment_id : String
payment_id = "00000000000000000000000a"

abbrev empty : World
empty = record {
  payments = [];
  ledger = record { periods = []; organizations = organization ∷ [] };
  jobs = [];
  push_active = true;
}

abbrev campay : PaymentProvider
campay = record { name = "campay"; available = true; supports_merchant_reference_lookup = false }

abbrev request : CreatePayment
request = record {
  organization_id = organization;
  user_id = "u";
  term = "monthly";
  payer_phone = "+237 6 12-34-56-78";
  client_operation_id = "AB";
}

abbrev clock : ℕ → ℕ
clock n = n

-- The world after the request: the payment waits.
abbrev waiting_payment : SubscriptionPayment
waiting_payment = record {
  id = payment_id;
  organization_id = organization;
  requested_by = "u";
  client_operation_id = "ab";
  request_fingerprint = "u:f";
  term = monthly;
  amount = 3000;
  currency = "XAF";
  pricing_version = 1;
  provider = "campay";
  merchant_reference = "SM00000000000000000000000A";
  provider_reference = some "r1";
  status = SubscriptionPaymentStatus.pending;
  is_open = true;
  payer_phone_masked = "+237 6•• ••• •78";
  period_id = none;
  incident_code = none;
  created_at = 2;
  initiated_at = some 4;
  confirmed_at = none;
  failed_at = none;
  last_checked_at = none;
}

abbrev waiting : World
waiting = record empty { payments = waiting_payment ∷ [] }

created :
    (create_payment campay
      (λ u t p. "u:f")
      (alone clock)
      payment_id
      (accepted "r1")
      request
      empty).0
    ≡ waiting
unfolding create_payment normalize_payer_phone mask_payer_phone subscription_term
created = refl

abbrev now : Date
now = record { year = 1972; month = 0; day = 31; time = 5 }

abbrev bought : SubscriptionPeriod
bought = record {
  id = "s1";
  organization_id = organization;
  sequence = 1;
  kind = subscription;
  term = some monthly;
  starts_at = now;
  ends_at = record { year = 1972; month = 1; day = 29; time = 5 };
  source = Grant.SubscriptionSource.payment;
  source_reference = "payment:00000000000000000000000a";
  granted_by = "payment:campay";
  previous_period_id = none;
}

abbrev ledger_after : Ledger
ledger_after = record { periods = bought ∷ []; organizations = organization ∷ [] }

abbrev view : GrantedView
view = record { period = bought; replayed = false }

grants :
    grant_subscription_in_session true now "s1" (payment_grant_input waiting_payment) waiting.ledger
    ≡ Grant.ok (ledger_after, view)
unfolding grant_subscription_in_session apply_grant validate payment_grant_input strict_object_id
    bounded_text subscription_term grantable_source compute_subscription_ends_at last_day
grants = refl

abbrev status : ProviderPaymentStatus
status = record {
  state = ProviderPaymentState.succeeded;
  provider_reference = "r1";
  merchant_reference = some "SM00000000000000000000000A";
  amount = some 3000;
  currency = some "XAF";
}

status-Agrees : Agrees waiting_payment status
status-Agrees = record {
  same_merchant_reference = refl;
  same_amount = refl;
  same_currency = refl;
  has_reference = λ e. ground (arith, eq_iff "r1" "");
  same_reference = λ r e. cc;
}

confirm_payment-pays_example :
    let paid = paid_payment now (checked_payment 1 waiting_payment) status view in
    let r =
      confirm_payment campay
        (λ l. answered (some status))
        (alone clock)
        0
        (alone_turn 0 now "s1")
        payment_id
        waiting in
    (r.1 ≡ ok (to_view paid))
    × (find_payment payment_id r.0.payments ≡ some paid)
    × (r.0.ledger ≡ ledger_after)
unfolding find_payment lookup_for
confirm_payment-pays_example =
    confirm_payment-pays campay (λ l. answered (some status)) clock 0 0 now "s1" waiting
      waiting_payment (by_provider "r1") status ledger_after view refl refl refl (refl, refl) refl
      refl refl status-Agrees refl grants (omega arith)

alone-AreSteps : AreSteps (alone clock)
alone-AreSteps = record { reach = λ n w. here }

alone_turn-TurnsAreSteps : TurnsAreSteps (alone_turn 0 now "s1")
alone_turn-TurnsAreSteps = record { reach = λ n w. here }

abbrev digest : String → SubscriptionTerm → String → String
digest user term phone = "u:f"

created-Reach :
    Reach empty
      (create_payment campay digest (alone clock) payment_id (accepted "r1") request empty).0
created-Reach =
    create_payment-Reach (alone clock) alone-AreSteps campay digest payment_id (accepted "r1")
      request empty

confirmed-Reach :
    Reach waiting
      (confirm_payment campay
        (λ l. answered (some status))
        (alone clock)
        0
        (alone_turn 0 now "s1")
        payment_id
        waiting).0
confirmed-Reach =
    confirm_payment-Reach (alone clock) alone-AreSteps 0 (alone_turn 0 now "s1")
      alone_turn-TurnsAreSteps campay (λ l. answered (some status)) payment_id waiting

empty-IsSound : IsSound empty
empty-IsSound = record {
  well_formed = tt;
  one_open = λ org. omega arith;
  granted = tt;
  backed = tt;
}

Reach-IsSound_example :
    IsSound (create_payment campay digest (alone clock) payment_id (accepted "r1") request empty).0
Reach-IsSound_example = Reach-IsSound created-Reach empty-IsSound

abbrev paid : World
paid = record {
  payments = paid_payment now waiting_payment status view ∷ [];
  ledger = ledger_after;
  jobs = "payment-succeeded:00000000000000000000000a" ∷ [];
  push_active = true;
}

finalizes : finalize_tx now "s1" payment_id status waiting ≡ Grant.ok (paid, granted)
unfolding finalize_tx concordant grant_subscription_in_session apply_grant validate
    payment_grant_input strict_object_id bounded_text subscription_term grantable_source
    compute_subscription_ends_at last_day
finalizes = refl

finalize_tx-Paid_example : Paid now "s1" payment_id status waiting paid
finalize_tx-Paid_example = finalize_tx-Paid now "s1" payment_id status waiting paid finalizes

alone-AreResting : AreResting organization (alone clock)
alone-AreResting = record { rests = λ n w. Rests-refl w }

abbrev refusal : ProviderPaymentStatus
refusal = record status { state = ProviderPaymentState.failed }

confirm_payment-Follows_example :
    Follows organization
      (Decided campay (λ l. answered (some refusal)) payment_id waiting)
      waiting
      (confirm_payment campay
        (λ l. answered (some refusal))
        (alone clock)
        0
        (alone_turn 0 now "s1")
        payment_id
        waiting).0
confirm_payment-Follows_example =
    confirm_payment-Follows organization (alone clock) alone-AreResting 0 (alone_turn 0 now "s1")
      campay (λ l. answered (some refusal)) payment_id waiting

-- The answer of the initiation was lost.
abbrev after_loss : World
after_loss = (create_payment campay digest (alone clock) payment_id lost request empty).0

-- Another member asks for a year, from another phone.
abbrev later : CreatePayment
later = record {
  organization_id = organization;
  user_id = "v";
  term = "annual";
  payer_phone = "699999999";
  client_operation_id = "cd";
}

abbrev answer : Created
answer = record { payment = to_view waiting_payment; replayed = false }

answers :
    (create_payment campay digest (alone clock) payment_id (accepted "r1") request empty).1
    ≡ ok answer
unfolding create_payment normalize_payer_phone mask_payer_phone subscription_term to_view
answers = refl

-- The payment was confirmed in between, and the provider is unavailable when the request is repeated.
abbrev after_confirmation : World
after_confirmation =
    (confirm_payment campay (λ l. answered (some status)) (alone clock) 0 (alone_turn 0 now "s1")
      payment_id waiting).0

confirmed_since :
    Reach
      (create_payment campay digest (alone clock) payment_id (accepted "r1") request empty).0
      after_confirmation
confirmed_since = subst (λ v. Reach v after_confirmation) (sym created) confirmed-Reach

create_payment-idempotent_example :
    (p : SubscriptionPayment) × (find
        (is_operation organization (lower_case "AB"))
        after_confirmation.payments
      ≡ some p)
    × (create_payment
          (record campay { available = false })
          digest
          (alone clock)
          "other"
          unreachable
          request
          after_confirmation
        ≡ (after_confirmation, ok (record { payment = to_view p; replayed = true })))
    × (p.id ≡ answer.payment.payment_id)
create_payment-idempotent_example =
    create_payment-idempotent (alone clock) (alone clock) alone-AreSteps alone-AreSteps campay
      (record campay { available = false }) digest payment_id "other" (accepted "r1") unreachable
      request empty after_confirmation answer answers confirmed_since
