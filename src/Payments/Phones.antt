-- ===== src/Payments/Phones.antt =====
-- The canonical phone number of api/src/subscriptions/payments/payment-request.ts.
use Prim.Native.Char.{Char, code}
use text.Mathlib.TextBridge.{of_list}
use royalvibe_cosmetic.Common.{
  ◌≡◌, refl, ap, subst, String, true, false, some, List, [], ◌∷◌, all, length, ltb, arith,
  Bool-cases, inl, inr,
}
use royalvibe_cosmetic.Subscriptions.Requests.{chars, trim_start, trim_end, is_space, units}
use royalvibe_cosmetic.Payments.Requests.{
  is_separator, remove_separators, is_digit, drop_international, drop_country, is_national_mobile,
  normalize_payer_phone,
}

chars-of_list : (cs : List Char) → chars (of_list cs) ≡ cs
chars-of_list [] = refl
chars-of_list (c ∷ cs) = ap (λ ds. c ∷ ds) (chars-of_list cs)

-- A digit is no separator, and takes one unit.
digit_is_plain :
    (c : Char)
    → is_digit c ≡ true
    → (is_separator c ≡ false) × (is_space c ≡ false) × (ltb (code c) 65536 ≡ true)
digit_is_plain c h = ground arith

remove_separators-digits : (cs : List Char) → all is_digit cs ≡ true → remove_separators cs ≡ cs
remove_separators-digits [] h = refl
remove_separators-digits (c ∷ cs) h = ground (arith, digit_is_plain c, remove_separators-digits cs)

trim_end-digits : (cs : List Char) → all is_digit cs ≡ true → trim_end cs ≡ cs
trim_end-digits [] h = refl
trim_end-digits (c ∷ cs) h = ground (arith, digit_is_plain c, trim_end-digits cs)

units-digits : (cs : List Char) → all is_digit cs ≡ true → units cs ≡ length cs
units-digits [] h = refl
units-digits (c ∷ cs) h = ground (arith, digit_is_plain c, units-digits cs)

-- The nine digits of a national number after their country.
international-normal :
    (national : List Char)
    → is_national_mobile national ≡ true
    → normalize_payer_phone (of_list ("2" ∷ "3" ∷ "7" ∷ national))
      ≡ some (of_list ("2" ∷ "3" ∷ "7" ∷ national))
unfolding normalize_payer_phone
international-normal [] h = cc
international-normal (c ∷ cs) h =
    let digits : all is_digit (c ∷ cs) ≡ true = ground arith in
    let size : length cs ≡ 8 = ground arith in
    rw (chars-of_list cs) (
      rw (trim_end-digits (c ∷ cs) digits) (
        rw (remove_separators-digits (c ∷ cs) digits)
          (rw (units-digits (c ∷ cs) digits) rw size (rw digits (rw h refl)))))

-- A canonical number is its own canonical form.
pub normalize_payer_phone-canonical :
    (value phone : String)
    → normalize_payer_phone value ≡ some phone
    → normalize_payer_phone phone ≡ some phone
unfolding normalize_payer_phone
normalize_payer_phone-canonical value phone h =
    let digits = drop_international (remove_separators (trim_end (trim_start (chars value)))) in
    let national = drop_country digits in
    elim (Bool-cases (is_national_mobile national)) [
      | inl mobile ↦
          let same : of_list ("2" ∷ "3" ∷ "7" ∷ national) ≡ phone = ground arith in
          subst (λ p. normalize_payer_phone p ≡ some p) same (international-normal national mobile)
      | inr other ↦ ground arith
    ]
