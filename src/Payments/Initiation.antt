-- ===== src/Payments/Initiation.antt =====
-- `createPayment`, its initiation, and the reading of one payment in
-- api/src/subscriptions/payments/subscription-payments.service.ts.
use text.Mathlib.TextBridge.{of_list}
use royalvibe_cosmetic.Common.{
  ℕ, String, Bool, true, false, ◌&&◌, none, some, any, find, map, str_eq, if◌then◌else◌,
}
use royalvibe_cosmetic.Subscriptions.Months.{SubscriptionTerm}
use royalvibe_cosmetic.Subscriptions.Requests.{chars, lower_hex, strict_object_id}
use royalvibe_cosmetic.Payments.Model.{
  SubscriptionPaymentStatus, SubscriptionPayment, World, PaymentProvider, Initiation, accepted,
  rejected, unreachable, lost, unknown_subscription_term, invalid_payer_phone,
  payment_operation_conflict, payment_service_unavailable, payment_not_found, internal_error,
  payment_already_pending, Result, ok, err, is_initiating,
}
use royalvibe_cosmetic.Payments.Requests.{
  SubscriptionPrice, get_subscription_price, normalize_payer_phone, mask_payer_phone,
  merchant_reference_for,
}
use royalvibe_cosmetic.Payments.Registry.{
  find_payment, is_operation, is_open_of, inserted, duplicate_operation, duplicate_open,
  duplicate_other, insert_payment,
}
use royalvibe_cosmetic.Payments.Writes.{mark_unreachable, mark_uncertain, mark_rejected}
use royalvibe_cosmetic.Payments.Service.{
  SubscriptionPaymentView, to_view, view_by_id, Meanwhile, record_pending, answer_view, succeed,
}

-- The context of the request and its body.
pub record CreatePayment : Type 0 where
  pub organization_id : String
  pub user_id : String
  pub term : String
  pub payer_phone : String
  pub client_operation_id : String

pub record Created : Type 0 where
  pub payment : SubscriptionPaymentView
  pub replayed : Bool

unfoldable pub replay : SubscriptionPayment → String → String → Result Created
unfolding to_view
replay existing requested_by fingerprint =
    if str_eq existing.requested_by requested_by && str_eq existing.request_fingerprint fingerprint
    then ok (record { payment = to_view existing; replayed = true })
    else err payment_operation_conflict

abbrev pub as_created : World × Result SubscriptionPaymentView → World × Result Created
as_created (w, ok view) = (w, ok (record { payment = view; replayed = false }))
as_created (w, err e) = (w, err e)

-- The one call to the provider is made; this is what follows it.
unfoldable pub initiate_reserved : Meanwhile → String → Initiation → World → World × Result Created
unfolding mark_unreachable mark_uncertain mark_rejected record_pending answer_view view_by_id
initiate_reserved m id unreachable w =
    ((mark_unreachable (m.clock 4) id (m.others 4 w)).0, err payment_service_unavailable)
initiate_reserved m id lost w =
    as_created (answer_view m id (succeed (mark_uncertain id (m.others 4 w))))
initiate_reserved m id rejected w =
    as_created (answer_view m id (succeed (mark_rejected (m.clock 4) id (m.others 4 w))))
initiate_reserved m id (accepted reference) w =
    as_created (answer_view m id (succeed (record_pending m id reference is_initiating w)))

-- `toLowerCase` on an identifier in hexadecimal digits.
abbrev pub lower_case : String → String
lower_case value = of_list (map lower_hex (chars value))

unfoldable pub new_payment :
    PaymentProvider
    → ℕ
    → String
    → CreatePayment
    → String
    → SubscriptionPrice
    → String
    → SubscriptionPayment
unfolding mask_payer_phone merchant_reference_for
new_payment provider now id request fingerprint price phone = record {
  id = id;
  organization_id = request.organization_id;
  requested_by = request.user_id;
  client_operation_id = lower_case request.client_operation_id;
  request_fingerprint = fingerprint;
  term = price.term;
  amount = price.amount;
  currency = price.currency;
  pricing_version = price.pricing_version;
  provider = provider.name;
  merchant_reference = merchant_reference_for id;
  provider_reference = none;
  status = SubscriptionPaymentStatus.initiating;
  is_open = true;
  payer_phone_masked = mask_payer_phone phone;
  period_id = none;
  incident_code = none;
  created_at = now;
  initiated_at = none;
  confirmed_at = none;
  failed_at = none;
  last_checked_at = none;
}

abbrev pub id_of_open : String → World → String
id_of_open org w = elim (find (is_open_of org) w.payments) [ none ↦ "" | some p ↦ p.id ]

-- The insertion reserves the right to initiate, or tells which request has it.
unfoldable pub reserve_and_initiate :
    Meanwhile → SubscriptionPayment → Initiation → World → World × Result Created
unfolding insert_payment initiate_reserved replay
reserve_and_initiate m p initiation w = elim (insert_payment p w) [
  | inserted w' ↦ initiate_reserved m p.id initiation w'
  | duplicate_operation ↦
      let w' = m.others 3 w in
      elim (find (is_operation p.organization_id p.client_operation_id) w'.payments) [
        | some winner ↦ (w', replay winner p.requested_by p.request_fingerprint)
        | none ↦ (w', err internal_error)
      ]
  | duplicate_open ↦
      let w' = m.others 3 w in (w', err (payment_already_pending (id_of_open p.organization_id w')))
  | duplicate_other ↦ (w, err internal_error)
]

-- A payment that may be reserved: `p` is the document that `create` would write.
unfoldable pub create_unseen :
    PaymentProvider → Meanwhile → SubscriptionPayment → Initiation → World → World × Result Created
unfolding reserve_and_initiate
create_unseen provider m p initiation w =
    if provider.available
    then (let w1 = m.others 1 w in
        if any (is_open_of p.organization_id) w1.payments
        then (w1, err (payment_already_pending (id_of_open p.organization_id w1)))
        else reserve_and_initiate m p initiation (m.others 2 w1))
    else (w, err payment_service_unavailable)

-- `digest` is `computePaymentRequestFingerprint`, of the requester, the term and the phone; `id` is the
-- fresh identifier, `initiation` the provider's answer.
unfoldable pub create_payment :
    PaymentProvider
    → (String → SubscriptionTerm → String → String)
    → Meanwhile
    → String
    → Initiation
    → CreatePayment
    → World
    → World × Result Created
unfolding get_subscription_price normalize_payer_phone new_payment create_unseen replay
create_payment provider digest m id initiation request w =
    elim (get_subscription_price request.term) [
      | none ↦ (w, err unknown_subscription_term)
      | some price ↦ elim (normalize_payer_phone request.payer_phone) [
        | none ↦ (w, err invalid_payer_phone)
        | some phone ↦
            let fingerprint = digest request.user_id price.term phone in
            let p = new_payment provider (m.clock 2) id request fingerprint price phone in
            let w0 = m.others 0 w in
            elim (find (is_operation p.organization_id p.client_operation_id) w0.payments) [
              | some existing ↦ (w0, replay existing request.user_id fingerprint)
              | none ↦ create_unseen provider m p initiation w0
            ]
      ]
    ]

-- `findScoped`, and the view of what it finds.
unfoldable pub get_payment : String → String → World → Result SubscriptionPaymentView
unfolding find_payment to_view
get_payment org payment_id w = elim (strict_object_id payment_id) [
  | none ↦ err payment_not_found
  | some id ↦ elim (find_payment id w.payments) [
    | none ↦ err payment_not_found
    | some p ↦ if str_eq p.organization_id org then ok (to_view p) else err payment_not_found
  ]
]
