-- ===== src/Payments/Requests.antt =====
-- The rules of a payment request without input or output: api/src/subscriptions/subscription-pricing.ts
-- and payments/payment-request.ts and payment-concordance.ts.
use Prim.Native.Char.{Char, code}
use Prim.Native.String.{◌++◌}
use text.Mathlib.TextBridge.{of_list}
use royalvibe_cosmetic.Common.{
  ℕ, String, Bool, true, false, ◌&&◌, ◌||◌, not, Option, none, some, List, [], ◌∷◌, map, all,
  length, leb, ◌==◌, str_eq, if◌then◌else◌,
}
use royalvibe_cosmetic.Subscriptions.Months.{
  SubscriptionTerm, monthly, quarterly, semiannual, annual, term_months,
}
use royalvibe_cosmetic.Subscriptions.Requests.{
  GrantInput, subscription_term, chars, trim_start, trim_end, is_space, between, units,
}
use royalvibe_cosmetic.Payments.Model.{SubscriptionPayment, ProviderPaymentStatus}

abbrev pub subscription_pricing_version : ℕ
subscription_pricing_version = 1

abbrev pub payment_currency : String
payment_currency = "XAF"

unfoldable pub subscription_prices_xaf : SubscriptionTerm → ℕ
subscription_prices_xaf monthly = 3000
subscription_prices_xaf quarterly = 8500
subscription_prices_xaf semiannual = 16000
subscription_prices_xaf annual = 30000

pub record SubscriptionPrice : Type 0 where
  pub term : SubscriptionTerm
  pub months : ℕ
  pub amount : ℕ
  pub currency : String
  pub pricing_version : ℕ

unfoldable pub get_subscription_price : String → Option SubscriptionPrice
unfolding subscription_prices_xaf term_months
get_subscription_price value = elim (subscription_term value) [
  | none ↦ none
  | some term ↦ some (record {
    term = term;
    months = term_months term;
    amount = subscription_prices_xaf term;
    currency = payment_currency;
    pricing_version = subscription_pricing_version;
  })
]

-- `SEPARATORS`
abbrev pub is_separator : Char → Bool
is_separator c = is_space c || (between 40 41 (code c) || between 45 46 (code c))

abbrev pub remove_separators : List Char → List Char
remove_separators [] = []
remove_separators (c ∷ cs) =
    if is_separator c then remove_separators cs else c ∷ remove_separators cs

abbrev pub is_digit : Char → Bool
is_digit c = between 48 57 (code c)

-- A leading `00` is dropped.
abbrev pub drop_zeros : List Char → List Char
drop_zeros (c ∷ d ∷ cs) = if code c == 48 && code d == 48 then cs else c ∷ d ∷ cs
drop_zeros cs = cs

-- A leading `+`, else a leading `00`, is dropped.
abbrev pub drop_international : List Char → List Char
drop_international [] = []
drop_international (c ∷ cs) = if code c == 43 then cs else drop_zeros (c ∷ cs)

-- A leading 237 before nine other characters is dropped.
abbrev pub drop_country : List Char → List Char
drop_country (a ∷ b ∷ c ∷ cs) =
    if length cs == 9 && (code a == 50 && (code b == 51 && code c == 55))
    then cs
    else a ∷ b ∷ c ∷ cs
drop_country cs = cs

-- `NATIONAL_MOBILE`
abbrev pub is_national_mobile : List Char → Bool
is_national_mobile [] = false
is_national_mobile (c ∷ cs) = code c == 54 && (length cs == 8 && all is_digit cs)

abbrev pub payer_phone_input_max_length : ℕ
payer_phone_input_max_length = 32

unfoldable pub normalize_payer_phone : String → Option String
normalize_payer_phone value =
    let digits = drop_international (remove_separators (trim_end (trim_start (chars value)))) in
    let national = drop_country digits in
    if leb (units (chars value)) payer_phone_input_max_length
      && (leb 1 (length digits) && (all is_digit digits && is_national_mobile national))
    then some (of_list ("2" ∷ "3" ∷ "7" ∷ national))
    else none

-- `national[0]`
abbrev pub first_of : List Char → String
first_of [] = "undefined"
first_of (c ∷ cs) = of_list (c ∷ [])

-- `slice(-2)`
abbrev pub last_two : List Char → List Char
last_two (c ∷ d ∷ e ∷ cs) = last_two (d ∷ e ∷ cs)
last_two cs = cs

-- `slice(3)`
abbrev pub after_country : List Char → List Char
after_country (a ∷ b ∷ c ∷ cs) = cs
after_country _ = []

unfoldable pub mask_payer_phone : String → String
mask_payer_phone normalized =
    let national = after_country (chars normalized) in
    "+237 " ++ (first_of national ++ ("•• ••• •" ++ of_list (last_two national)))

-- `toUpperCase` on the digits of an identifier.
abbrev pub upper_hex : Char → Char
upper_hex c =
    if code c == 97
    then "A"
    else if code c == 98
    then "B"
    else if code c == 99
    then "C"
    else if code c == 100
    then "D"
    else if code c == 101
    then "E"
    else if code c == 102
    then "F"
    else c

unfoldable pub merchant_reference_for : String → String
merchant_reference_for payment_id = "SM" ++ of_list (map upper_hex (chars payment_id))

unfoldable pub payment_grant_reference : String → String
payment_grant_reference payment_id = "payment:" ++ payment_id

abbrev pub term_text : SubscriptionTerm → String
term_text monthly = "monthly"
term_text quarterly = "quarterly"
term_text semiannual = "semiannual"
term_text annual = "annual"

-- The request for the period of a payment.
unfoldable pub payment_grant_input : SubscriptionPayment → GrantInput
unfolding payment_grant_reference
payment_grant_input p = record {
  organization_id = p.organization_id;
  term = term_text p.term;
  source = "payment";
  source_reference = payment_grant_reference p.id;
  granted_by = "payment:" ++ p.provider;
}

pub data ConcordanceField : Type 0 where
  merchant_reference provider_reference amount currency : ConcordanceField

-- `value === frozen`, for a value that may be missing.
abbrev pub is_text : Option String → String → Bool
is_text none frozen = false
is_text (some value) frozen = str_eq value frozen

abbrev pub is_amount : Option ℕ → ℕ → Bool
is_amount none frozen = false
is_amount (some value) frozen = value == frozen

-- The reference is the expected one, if one is.
abbrev pub fits_reference : Option String → String → Bool
fits_reference none reference = true
fits_reference (some expected) reference = str_eq reference expected

abbrev pub push_if : Bool → ConcordanceField → List ConcordanceField → List ConcordanceField
push_if mismatch field fields = if mismatch then field ∷ fields else fields

unfoldable pub payment_concordance_mismatches :
    SubscriptionPayment → ProviderPaymentStatus → Option String → List ConcordanceField
payment_concordance_mismatches payment status expected =
    push_if (not (is_text status.merchant_reference payment.merchant_reference)) merchant_reference
      (push_if
        (str_eq status.provider_reference ""
          || not (fits_reference expected status.provider_reference))
        provider_reference
        (push_if (not (is_amount status.amount payment.amount)) amount
          (push_if (not (is_text status.currency payment.currency)) currency [])))

unfoldable pub concordant : SubscriptionPayment → ProviderPaymentStatus → Bool
unfolding payment_concordance_mismatches
concordant payment status =
    length (payment_concordance_mismatches payment status payment.provider_reference) == 0
