-- ===== src/Payments/Model.antt =====
-- The documents of `subscription_payments` and what a payment provider answers:
-- api/src/subscriptions/payments/schemas/subscription-payment.schema.ts, payment-provider.ts and
-- payment-errors.ts.
use royalvibe_cosmetic.Common.{ℕ, String, Bool, true, false, Option, List}
use royalvibe_cosmetic.Subscriptions.Months.{SubscriptionTerm}
use royalvibe_cosmetic.Subscriptions.Grants.{Ledger}

pub data SubscriptionPaymentStatus : Type 0 where
  initiating pending uncertain review succeeded failed : SubscriptionPaymentStatus

pub data SubscriptionPaymentIncident : Type 0 where
  initiation_rejected initiation_uncertain provider_unavailable : SubscriptionPaymentIncident
  provider_mismatch late_failure_after_success : SubscriptionPaymentIncident

-- `open` is `is_open` here; instants count milliseconds. The date of the last update, which no code
-- reads, is left out.
pub record SubscriptionPayment : Type 0 where
  pub id : String
  pub organization_id : String
  pub requested_by : String
  pub client_operation_id : String
  pub request_fingerprint : String
  pub term : SubscriptionTerm
  pub amount : ℕ
  pub currency : String
  pub pricing_version : ℕ
  pub provider : String
  pub merchant_reference : String
  pub provider_reference : Option String
  pub status : SubscriptionPaymentStatus
  pub is_open : Bool
  pub payer_phone_masked : String
  pub period_id : Option String
  pub incident_code : Option SubscriptionPaymentIncident
  pub created_at : ℕ
  pub initiated_at : Option ℕ
  pub confirmed_at : Option ℕ
  pub failed_at : Option ℕ
  pub last_checked_at : Option ℕ

-- `OPEN_PAYMENT_STATUSES`
abbrev pub is_open_status : SubscriptionPaymentStatus → Bool
is_open_status initiating = true
is_open_status pending = true
is_open_status uncertain = true
is_open_status _ = false

-- `FINALIZABLE_STATUSES`
abbrev pub is_finalizable : SubscriptionPaymentStatus → Bool
is_finalizable failed = true
is_finalizable s = is_open_status s

abbrev pub is_initiating : SubscriptionPaymentStatus → Bool
is_initiating initiating = true
is_initiating _ = false

abbrev pub is_succeeded : SubscriptionPaymentStatus → Bool
is_succeeded succeeded = true
is_succeeded _ = false

abbrev pub status_eq : SubscriptionPaymentStatus → SubscriptionPaymentStatus → Bool
status_eq initiating initiating = true
status_eq pending pending = true
status_eq uncertain uncertain = true
status_eq review review = true
status_eq succeeded succeeded = true
status_eq failed failed = true
status_eq _ _ = false

-- The collections that a payment touches, the newest document first; of a push job, its key. Whether
-- the module of the push jobs is active is `push_active`.
pub record World : Type 0 where
  pub payments : List SubscriptionPayment
  pub ledger : Ledger
  pub jobs : List String
  pub push_active : Bool

pub data ProviderPaymentState : Type 0 where
  pending succeeded failed : ProviderPaymentState

-- What the provider says of a collection. An amount that is no natural number, and a currency that
-- is no text, are `none`.
pub record ProviderPaymentStatus : Type 0 where
  pub state : ProviderPaymentState
  pub provider_reference : String
  pub merchant_reference : Option String
  pub amount : Option ℕ
  pub currency : Option String

pub data PaymentStatusLookup : Type 0 where
  by_provider by_merchant : String → PaymentStatusLookup

-- What the code reads of a provider besides its two calls.
pub record PaymentProvider : Type 0 where
  pub name : String
  pub available : Bool
  pub supports_merchant_reference_lookup : Bool

-- The outcome of `initiate`: an answer, an error that no request left, or any other error.
pub data Initiation : Type 0 where
  accepted : String → Initiation
  rejected unreachable lost : Initiation

-- The outcome of `fetchStatus`: an error, or an answer that may be `null`.
pub data StatusAnswer : Type 0 where
  no_answer : StatusAnswer
  answered : Option ProviderPaymentStatus → StatusAnswer

pub data PaymentError : Type 0 where
  unknown_subscription_term invalid_payer_phone payment_operation_conflict : PaymentError
  payment_service_unavailable payment_status_unavailable : PaymentError
  payment_confirmation_pending payment_not_found internal_error : PaymentError
  payment_already_pending : String → PaymentError

pub data Result {ℓ} (A : Type ℓ) : Type ℓ where
  ok : A → Result A
  err : PaymentError → Result A
