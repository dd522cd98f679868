-- ===== src/Payments/Concordance.antt =====
-- What the concordance of api/src/subscriptions/payments/payment-concordance.ts promises.
use royalvibe_cosmetic.Common.{
  ℕ, ◌≡◌, ◌≢◌, ap, String, true, false, Option, none, some, str_eq, arith, eq_iff, eq_refl,
  Option-cases, inl, inr,
}
use royalvibe_cosmetic.Payments.Model.{SubscriptionPayment, ProviderPaymentStatus}
use royalvibe_cosmetic.Payments.Requests.{is_text, is_amount, fits_reference, concordant}

-- `PaymentConcordance`: the values read are the frozen ones.
pub record Agrees (payment : SubscriptionPayment) (status : ProviderPaymentStatus) : Type 0 where
  pub same_merchant_reference : status.merchant_reference ≡ some payment.merchant_reference
  pub same_amount : status.amount ≡ some payment.amount
  pub same_currency : status.currency ≡ some payment.currency
  pub has_reference : status.provider_reference ≢ ""
  pub same_reference :
      (reference : String)
      → payment.provider_reference ≡ some reference
      → status.provider_reference ≡ reference

is_text-eq : (o : Option String) (t : String) → is_text o t ≡ true → o ≡ some t
is_text-eq none t h = cc
is_text-eq (some s) t h = ap some ((eq_iff s t).0 h)

is_amount-eq : (o : Option ℕ) (n : ℕ) → is_amount o n ≡ true → o ≡ some n
is_amount-eq none n h = cc
is_amount-eq (some m) n h = ground arith

-- The provider's answer is accepted only where each value is the frozen one.
pub concordant-Agrees :
    (payment : SubscriptionPayment) (status : ProviderPaymentStatus)
    → concordant payment status ≡ true
    → Agrees payment status
unfolding concordant
concordant-Agrees payment status h = record {
  same_merchant_reference = is_text-eq _ _ parts.0;
  same_amount = is_amount-eq _ _ parts.1;
  same_currency = is_text-eq _ _ parts.2;
  has_reference = λ e. ground (arith, eq_iff status.provider_reference "");
  same_reference = λ r e. ground (arith, eq_iff status.provider_reference r);
}
  where
    parts :
        (is_text status.merchant_reference payment.merchant_reference ≡ true)
        × (is_amount status.amount payment.amount ≡ true)
        × (is_text status.currency payment.currency ≡ true)
        × (str_eq status.provider_reference "" ≡ false)
        × (fits_reference payment.provider_reference status.provider_reference ≡ true)
    parts = ground arith

-- The converse: an answer of the frozen values is never taken for another.
pub Agrees-concordant :
    (payment : SubscriptionPayment) (status : ProviderPaymentStatus)
    → Agrees payment status
    → concordant payment status ≡ true
unfolding concordant
Agrees-concordant payment status a = elim (Option-cases payment.provider_reference) [
  | inl unknown ↦
      rw (a.same_merchant_reference, a.same_amount, a.same_currency, unknown)
        (ground (
          arith,
          eq_iff status.provider_reference "",
          eq_refl payment.merchant_reference,
          eq_refl payment.currency,
          a.has_reference,
        ))
  | inr (r, known) ↦
      rw (a.same_merchant_reference, a.same_amount, a.same_currency, known)
        (ground (
          arith,
          eq_iff status.provider_reference "",
          eq_iff status.provider_reference r,
          eq_refl payment.merchant_reference,
          eq_refl payment.currency,
          a.has_reference,
          a.same_reference r known,
        ))
]
