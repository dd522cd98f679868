-- ===== src/Payments/Machine.antt =====
-- The state machine of the payments: the table of
-- docs/architecture/phase-1-14d2b-subscription-payments.md (section 3), and the two edges that the
-- writes of api/src/subscriptions/payments/subscription-payments.service.ts have besides. The
-- reconciliation of an operator, which leaves a review, is not among these writes.
use royalvibe_cosmetic.Common.{◌≡◌, String, Bool, true, false, ◌||◌, some, arith}
use royalvibe_cosmetic.Payments.Model.{
  SubscriptionPaymentStatus, initiating, pending, uncertain, review, succeeded, failed,
  SubscriptionPayment, status_eq,
}

-- The column of the exits.
abbrev pub documented : SubscriptionPaymentStatus → SubscriptionPaymentStatus → Bool
documented initiating pending = true
documented initiating failed = true
documented initiating uncertain = true
documented initiating review = true
documented pending succeeded = true
documented pending failed = true
documented pending review = true
documented uncertain pending = true
documented uncertain succeeded = true
documented uncertain failed = true
documented uncertain review = true
documented failed succeeded = true
documented _ _ = false

-- `FINALIZABLE_STATUSES` admits a payment that is still being initiated to the success, and one that
-- failed to the review.
abbrev pub departs : SubscriptionPaymentStatus → SubscriptionPaymentStatus → Bool
departs initiating succeeded = true
departs failed review = true
departs _ _ = false

abbrev pub may_become : SubscriptionPaymentStatus → SubscriptionPaymentStatus → Bool
may_become s t = status_eq s t || (documented s t || departs s t)

-- The values that are frozen when the payment is created.
pub record SameTerms (p q : SubscriptionPayment) : Type 0 where
  pub same_id : q.id ≡ p.id
  pub same_organization : q.organization_id ≡ p.organization_id
  pub same_requester : q.requested_by ≡ p.requested_by
  pub same_operation : q.client_operation_id ≡ p.client_operation_id
  pub same_fingerprint : q.request_fingerprint ≡ p.request_fingerprint
  pub same_term : q.term ≡ p.term
  pub same_amount : q.amount ≡ p.amount
  pub same_currency : q.currency ≡ p.currency
  pub same_provider : q.provider ≡ p.provider
  pub same_merchant_reference : q.merchant_reference ≡ p.merchant_reference

pub record Moves (p q : SubscriptionPayment) : Type 0 where
  pub terms : SameTerms p q
  pub edge : may_become p.status q.status ≡ true
  pub period : (id : String) → p.period_id ≡ some id → q.period_id ≡ some id
  pub reference : (r : String) → p.provider_reference ≡ some r → q.provider_reference ≡ some r
  pub never_reopened : q.is_open ≡ true → p.is_open ≡ true

may_become_refl : (s : SubscriptionPaymentStatus) → may_become s s ≡ true
may_become_refl s = ground arith

may_become_trans :
    (s t u : SubscriptionPaymentStatus)
    → may_become s t ≡ true
    → may_become t u ≡ true
    → may_become s u ≡ true
may_become_trans s t u h k = ground arith

pub Moves-refl : (p : SubscriptionPayment) → Moves p p
Moves-refl p = record {
  terms = ground arith;
  edge = may_become_refl p.status;
  period = λ id e. e;
  reference = λ r e. e;
  never_reopened = λ e. e;
}

SameTerms-trans : {p q r : SubscriptionPayment} → SameTerms p q → SameTerms q r → SameTerms p r
SameTerms-trans h k = ground arith

pub Moves-trans : {p q r : SubscriptionPayment} → Moves p q → Moves q r → Moves p r
Moves-trans {p} {q} {r} h k = record {
  terms = SameTerms-trans h.terms k.terms;
  edge = may_become_trans p.status q.status r.status h.edge k.edge;
  period = λ id e. k.period id (h.period id e);
  reference = λ x e. k.reference x (h.reference x e);
  never_reopened = λ e. h.never_reopened (k.never_reopened e);
}
