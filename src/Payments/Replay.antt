-- ===== src/Payments/Replay.antt =====
-- The payments that api/src/subscriptions/payments/subscription-payments.service.ts finds by organization
-- and operation: what `createPayment` compares of the first one stays, whatever is written.
use royalvibe_cosmetic.Common.{
  ◌≡◌, subst, ◌∙◌, String, Bool, true, false, some, List, [], ◌∷◌, any, find, str_eq, arith, eq_iff,
  Bool-cases, ◌⊎◌, inl, inr,
}
use royalvibe_cosmetic.Payments.Model.{SubscriptionPayment, World}
use royalvibe_cosmetic.Payments.Registry.{find_payment, put_payment, is_operation}
use royalvibe_cosmetic.Payments.Machine.{SameTerms}
use royalvibe_cosmetic.Payments.Effects.{Effect, same, changes, adds, pays, grows}
use royalvibe_cosmetic.Payments.Steps.{Step-Effect}
use royalvibe_cosmetic.Payments.Trace.{Reach, here, next}

-- What a repetition must find: the payment that the operation made, with what decides between a replay
-- and a conflict.
pub record Remembers (org key user fingerprint id : String) (p : SubscriptionPayment) : Type 0 where
  pub same_requester : p.requested_by ≡ user
  pub same_fingerprint : p.request_fingerprint ≡ fingerprint
  pub same_id : p.id ≡ id

module _ (org key user fingerprint id : String) where
  abbrev pub Remembered : List SubscriptionPayment → Type 0
  Remembered ps =
      (p : SubscriptionPayment) × (find (is_operation org key) ps ≡ some p)
      × Remembers org key user fingerprint id p

  Remembers-SameTerms :
      {p q : SubscriptionPayment}
      → SameTerms p q
      → Remembers org key user fingerprint id p
      → Remembers org key user fingerprint id q
  Remembers-SameTerms t h = record {
    same_requester = t.same_requester ∙ h.same_requester;
    same_fingerprint = t.same_fingerprint ∙ h.same_fingerprint;
    same_id = t.same_id ∙ h.same_id;
  }

  is_operation-SameTerms :
      {p q : SubscriptionPayment} → SameTerms p q → is_operation org key q ≡ is_operation org key p
  is_operation-SameTerms t = ground (arith, t.same_organization, t.same_operation)

  -- The first payment of the operation stays the first, and the write leaves it or is the write of it.
  find-put_payment :
      (q old p : SubscriptionPayment) (ps : List SubscriptionPayment)
      → find_payment q.id ps ≡ some old
      → is_operation org key q ≡ is_operation org key old
      → find (is_operation org key) ps ≡ some p
      → (find (is_operation org key) (put_payment q ps) ≡ some p)
        ⊎ ((p ≡ old) × (find (is_operation org key) (put_payment q ps) ≡ some q))
  unfolding find_payment put_payment
  find-put_payment q old p [] there e found = cc
  find-put_payment q old p (x ∷ ps) there e found = elim (Bool-cases (str_eq x.id q.id)) [
    | inl this ↦ elim (Bool-cases (is_operation org key x)) [
      | inl mine ↦ inr (ground arith, ground arith)
      | inr other ↦ inl (ground arith)
    ]
    | inr not_this ↦ elim (Bool-cases (is_operation org key x)) [
      | inl mine ↦ inl (ground arith)
      | inr other ↦
          rw (not_this, other) (find-put_payment q old p ps (ground arith) e (rw other at found))
    ]
  ]

  put_payment-Remembered :
      (q old : SubscriptionPayment) (ps : List SubscriptionPayment)
      → find_payment q.id ps ≡ some old
      → SameTerms old q
      → Remembered ps
      → Remembered (put_payment q ps)
  put_payment-Remembered q old ps there t (p, found, h) =
      elim (find-put_payment q old p ps there (is_operation-SameTerms t) found) [
        | inl stays ↦ (p, stays, h)
        | inr (this, becomes) ↦ (
          q,
          becomes,
          Remembers-SameTerms t (subst (Remembers org key user fingerprint id) this h),
        )
      ]

  any_of_found :
      (f : SubscriptionPayment → Bool) (ps : List SubscriptionPayment) (p : SubscriptionPayment)
      → find f ps ≡ some p
      → any f ps ≡ true
  any_of_found f [] p h = cc
  any_of_found f (x ∷ ps) p h = let later = any_of_found f ps p in ground arith

  adds-Remembered :
      (new : SubscriptionPayment) (ps : List SubscriptionPayment)
      → any (is_operation new.organization_id new.client_operation_id) ps ≡ false
      → Remembered ps
      → Remembered (new ∷ ps)
  adds-Remembered new ps unknown (p, found, h) = elim (Bool-cases (is_operation org key new)) [
    | inr other ↦ (p, rw other found, h)
    | inl mine ↦ absurd (
        ground (
          arith,
          eq_iff new.organization_id org,
          eq_iff new.client_operation_id key,
          any_of_found (is_operation org key) ps p found,
        ))
  ]

  Effect-Remembered : {w w' : World} → Effect w w' → Remembered w.payments → Remembered w'.payments
  Effect-Remembered (same e _) h = rw e h
  Effect-Remembered {w} (changes old q there change e _) h =
      rw e (put_payment-Remembered q old w.payments there change.moves.terms h)
  Effect-Remembered {w} (pays old q now period_id view status there success e _) h =
      rw e (put_payment-Remembered q old w.payments there success.terms h)
  Effect-Remembered (grows _ _ e _) h = rw e h
  Effect-Remembered {w} (adds new _ unknown _ _ e _) h =
      rw e (adds-Remembered new w.payments unknown h)

  pub Reach-Remembered :
      {w w' : World} → Reach w w' → Remembered w.payments → Remembered w'.payments
  Reach-Remembered here h = h
  Reach-Remembered (next r st) h = Effect-Remembered (Step-Effect st) (Reach-Remembered r h)
