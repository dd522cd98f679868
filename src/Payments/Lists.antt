-- ===== src/Payments/Lists.antt =====
-- What the queries on `subscription_payments` find after a write of one document.
use royalvibe_cosmetic.Common.{
  ℕ, ◌+◌, ◌≡◌, String, some, List, [], ◌∷◌, str_eq, if◌then◌else◌, arith, eq_iff, All, total,
  Bool-cases, inl, inr,
}
use royalvibe_cosmetic.Payments.Model.{SubscriptionPayment}
use royalvibe_cosmetic.Payments.Registry.{find_payment, put_payment}

pub find_payment_id :
    (id : String) (ps : List SubscriptionPayment) (p : SubscriptionPayment)
    → find_payment id ps ≡ some p
    → p.id ≡ id
unfolding find_payment
find_payment_id id [] p h = cc
find_payment_id id (x ∷ ps) p h = ground (arith, eq_iff x.id id, find_payment_id id ps p)

module _ (q p : SubscriptionPayment) where
  -- The document is there: the one that is read afterwards is the new one.
  pub find_payment-put_payment :
      (id : String) (ps : List SubscriptionPayment)
      → find_payment q.id ps ≡ some p
      → find_payment id (put_payment q ps) ≡ (if str_eq q.id id then some q else find_payment id ps)
  unfolding find_payment put_payment
  find_payment-put_payment id [] h = cc
  find_payment-put_payment id (x ∷ ps) h =
      let later = find_payment-put_payment id ps in
      ground (arith, eq_iff x.id q.id, eq_iff x.id id, eq_iff q.id id, later)

  pub total-put_payment :
      (f : SubscriptionPayment → ℕ) (ps : List SubscriptionPayment)
      → find_payment q.id ps ≡ some p
      → total f (put_payment q ps) + f p ≡ total f ps + f q
  unfolding find_payment put_payment
  total-put_payment f [] h = cc
  total-put_payment f (x ∷ ps) h = let later = total-put_payment f ps in ground (arith, later)

module _ {κ} (P : SubscriptionPayment → Type κ) where
  pub All-find_payment :
      (id : String) (ps : List SubscriptionPayment) (p : SubscriptionPayment)
      → find_payment id ps ≡ some p
      → All P ps
      → P p
  unfolding find_payment
  All-find_payment id [] p h all = cc
  All-find_payment id (x ∷ ps) p h (a, all) = elim (Bool-cases (str_eq x.id id)) [
    | inl this ↦ let same : x ≡ p = ground arith in rw (← same) a
    | inr other ↦ All-find_payment id ps p (ground arith) all
  ]

  pub All-put_payment :
      (q : SubscriptionPayment) (ps : List SubscriptionPayment)
      → P q
      → All P ps
      → All P (put_payment q ps)
  unfolding put_payment
  All-put_payment q [] a all = tt
  All-put_payment q (x ∷ ps) a (b, all) = elim (Bool-cases (str_eq x.id q.id)) [
    | inl this ↦ rw this (a, all)
    | inr other ↦ rw other (b, All-put_payment q ps a all)
  ]
