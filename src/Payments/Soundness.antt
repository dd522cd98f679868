-- ===== src/Payments/Soundness.antt =====
-- The agreement of `subscription_payments` with the ledger of the periods, which every step of
-- api/src/subscriptions/payments keeps: a payment that succeeded has its period, a period bought by a
-- payment has its payment, and an organization has at most one open payment.
use royalvibe_cosmetic.Common.{
  ℕ, ◌≤◌, ◌≡◌, refl, ap, subst, ◌∙◌, String, true, false, none, some, List, [], ◌∷◌, any, find,
  str_eq, if◌then◌else◌, total, All, arith, eq_iff, eq_refl, Bool-cases, inl, inr,
}
use royalvibe_cosmetic.Subscriptions.Requests as Grant
use royalvibe_cosmetic.Subscriptions.Requests.{SubscriptionSource, ValidatedGrantRequest, validate}
use royalvibe_cosmetic.Subscriptions.Grants.{
  SubscriptionPeriod, Ledger, by_reference, same_request, create,
}
use royalvibe_cosmetic.Subscriptions.Growth.{create-find}
use royalvibe_cosmetic.Payments.Model.{SubscriptionPayment, World, is_succeeded}
use royalvibe_cosmetic.Payments.Requests.{payment_grant_input}
use royalvibe_cosmetic.Payments.Registry.{find_payment, put_payment, is_open_of}
use royalvibe_cosmetic.Payments.Lists.{find_payment-put_payment, total-put_payment}
use royalvibe_cosmetic.Payments.Machine.{SameTerms}
use royalvibe_cosmetic.Payments.Effects.{IsWellFormed}

-- The period that the payment bought is in the ledger, under its reference and of its term.
pub record HasPeriod (w : Ledger) (p : SubscriptionPayment) : Type 0 where
  pub request : ValidatedGrantRequest
  pub period : SubscriptionPeriod
  pub valid : validate (payment_grant_input p) ≡ some request
  pub found : find (by_reference request.source request.source_reference) w.periods ≡ some period
  pub agrees : same_request period request ≡ true
  pub marked : p.period_id ≡ some period.id

abbrev pub IsGranted : Ledger → SubscriptionPayment → Type 0
IsGranted w p = is_succeeded p.status ≡ true → HasPeriod w p

-- A period bought by a payment has a payment that succeeded and names it.
pub record HasPayment (ps : List SubscriptionPayment) (q : SubscriptionPeriod) : Type 0 where
  pub buyer : SubscriptionPayment
  pub found : find_payment buyer.id ps ≡ some buyer
  pub is_success : is_succeeded buyer.status ≡ true
  pub marked : buyer.period_id ≡ some q.id

abbrev pub IsBacked : List SubscriptionPayment → SubscriptionPeriod → Type 0
IsBacked ps q = q.source ≡ SubscriptionSource.payment → HasPayment ps q

abbrev pub open_of : String → SubscriptionPayment → ℕ
open_of org p = if is_open_of org p then 1 else 0

pub record IsSound (w : World) : Type 0 where
  pub well_formed : All IsWellFormed w.payments
  pub one_open : (org : String) → total (open_of org) w.payments ≤ 1
  pub granted : All (IsGranted w.ledger) w.payments
  pub backed : All (IsBacked w.payments) w.ledger.periods

pub create-HasPeriod :
    (q : SubscriptionPeriod) (w w' : Ledger) (p : SubscriptionPayment)
    → create q w ≡ Grant.ok w'
    → HasPeriod w p
    → HasPeriod w' p
create-HasPeriod q w w' p e h = record {
  request = h.request;
  period = h.period;
  valid = h.valid;
  found = create-find h.request.source h.request.source_reference q h.period w w' e h.found;
  agrees = h.agrees;
  marked = h.marked;
}

pub SameTerms-input :
    {p q : SubscriptionPayment} → SameTerms p q → payment_grant_input q ≡ payment_grant_input p
unfolding payment_grant_input
SameTerms-input t = cc

-- A payment that keeps its success keeps its period.
pub SameTerms-HasPeriod :
    {w : Ledger} {p q : SubscriptionPayment}
    → SameTerms p q
    → q.period_id ≡ p.period_id
    → HasPeriod w p
    → HasPeriod w q
SameTerms-HasPeriod t e h = record {
  request = h.request;
  period = h.period;
  valid = ap validate (SameTerms-input t) ∙ h.valid;
  found = h.found;
  agrees = h.agrees;
  marked = e ∙ h.marked;
}

pub put_payment-HasPayment :
    (ps : List SubscriptionPayment) (old q : SubscriptionPayment) (period : SubscriptionPeriod)
    → find_payment q.id ps ≡ some old
    → (is_succeeded old.status ≡ true
        → (is_succeeded q.status ≡ true) × (q.period_id ≡ old.period_id))
    → HasPayment ps period
    → HasPayment (put_payment q ps) period
put_payment-HasPayment ps old q period there keeps h = elim (Bool-cases (str_eq q.id h.buyer.id)) [
  | inl this ↦
      let known : q.id ≡ h.buyer.id = (eq_iff q.id h.buyer.id).0 this in
      let bought : h.buyer ≡ old =
        ground (arith, subst (λ k. find_payment k ps ≡ some old) known there, h.found) in
      let (success, same_period) =
        keeps (subst (λ b. is_succeeded b.status ≡ true) bought h.is_success) in
      record {
        buyer = q;
        found = rw (find_payment-put_payment q old q.id ps there) (rw (eq_refl q.id) refl);
        is_success = success;
        marked = same_period ∙ subst (λ b. b.period_id ≡ some period.id) bought h.marked;
      }
  | inr other ↦ record {
    buyer = h.buyer;
    found = rw (find_payment-put_payment q old h.buyer.id ps there) (rw other h.found);
    is_success = h.is_success;
    marked = h.marked;
  }
]

pub put_payment-one_open :
    (ps : List SubscriptionPayment) (old q : SubscriptionPayment) (org : String)
    → find_payment q.id ps ≡ some old
    → q.organization_id ≡ old.organization_id
    → (q.is_open ≡ true → old.is_open ≡ true)
    → total (open_of org) ps ≤ 1
    → total (open_of org) (put_payment q ps) ≤ 1
put_payment-one_open ps old q org there same_org kept h =
    let less : open_of org q ≤ open_of org old = ground arith in
    omega (arith, total-put_payment q old (open_of org) ps there)

total-none :
    (org : String) (ps : List SubscriptionPayment)
    → any (is_open_of org) ps ≡ false
    → total (open_of org) ps ≡ 0
total-none org [] h = refl
total-none org (x ∷ ps) h = ground (arith, total-none org ps)

pub new-one_open :
    (p : SubscriptionPayment) (ps : List SubscriptionPayment) (org : String)
    → any (is_open_of p.organization_id) ps ≡ false
    → total (open_of org) ps ≤ 1
    → total (open_of org) (p ∷ ps) ≤ 1
new-one_open p ps org none_open h = elim (Bool-cases (str_eq p.organization_id org)) [
  | inl this ↦
      let free : any (is_open_of org) ps ≡ false =
        subst (λ o. any (is_open_of o) ps ≡ false) ((eq_iff p.organization_id org).0 this)
          none_open in
      ground (arith, total-none org ps free)
  | inr other ↦ rw other (omega arith)
]

pub new-HasPayment :
    (p : SubscriptionPayment) (ps : List SubscriptionPayment) (period : SubscriptionPeriod)
    → find_payment p.id ps ≡ none
    → HasPayment ps period
    → HasPayment (p ∷ ps) period
unfolding find_payment
new-HasPayment p ps period unused h = elim (Bool-cases (str_eq p.id h.buyer.id)) [
  | inl this ↦
      let missing : find_payment h.buyer.id ps ≡ none =
        subst (λ k. find_payment k ps ≡ none) ((eq_iff p.id h.buyer.id).0 this) unused in
      absurd (ground (arith, h.found))
  | inr other ↦ record {
    buyer = h.buyer;
    found = rw other h.found;
    is_success = h.is_success;
    marked = h.marked;
  }
]
