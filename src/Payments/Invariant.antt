-- ===== src/Payments/Invariant.antt =====
-- Every step of api/src/subscriptions/payments keeps the payments and the ledger in agreement.
use royalvibe_cosmetic.Common.{
  ◌≡◌, ◌≢◌, refl, sym, ap, subst, ◌∙◌, false, none, some, ◌∷◌, any, All, All-imp, arith, eq_refl,
  inl, inr,
}
use royalvibe_cosmetic.Subscriptions.Requests as Grant
use royalvibe_cosmetic.Subscriptions.Requests.{SubscriptionSource, ValidatedGrantRequest, validate}
use royalvibe_cosmetic.Subscriptions.Grants.{SubscriptionPeriod, GrantedView, create}
use royalvibe_cosmetic.Subscriptions.Growth.{
  Answered, create-periods, grant_subscription_in_session-Answered,
}
use royalvibe_cosmetic.Payments.Model.{SubscriptionPayment, World, ProviderPaymentStatus}
use royalvibe_cosmetic.Payments.Requests.{payment_grant_input}
use royalvibe_cosmetic.Payments.Registry.{find_payment, put_payment, is_open_of}
use royalvibe_cosmetic.Payments.Trace.{IsNew, Step, Reach, here, next}
use royalvibe_cosmetic.Payments.Lists.{find_payment-put_payment, All-find_payment, All-put_payment}
use royalvibe_cosmetic.Payments.Effects.{
  IsWellFormed, Change, Success, same, changes, adds, pays, grows,
}
use royalvibe_cosmetic.Payments.Steps.{Step-Effect}
use royalvibe_cosmetic.Payments.Soundness.{
  HasPeriod, IsGranted, IsBacked, IsSound, create-HasPeriod, SameTerms-HasPeriod,
  put_payment-HasPayment, put_payment-one_open, new-one_open, new-HasPayment, SameTerms-input,
}

module _ (w w' : World) (h : IsSound w) where
  same-IsSound : w'.payments ≡ w.payments → w'.ledger ≡ w.ledger → IsSound w'
  same-IsSound a b = record {
    well_formed = rw a h.well_formed;
    one_open = λ org. rw a (h.one_open org);
    granted = rw (a, b) h.granted;
    backed = rw (a, b) h.backed;
  }

  changes-IsSound :
      (p q : SubscriptionPayment)
      → find_payment q.id w.payments ≡ some p
      → Change p q
      → w'.payments ≡ put_payment q w.payments
      → w'.ledger ≡ w.ledger
      → IsSound w'
  changes-IsSound p q there c a b = record {
    well_formed = rw a (
        All-put_payment IsWellFormed q w.payments
          (c.well_formed (All-find_payment IsWellFormed q.id w.payments p there h.well_formed))
          h.well_formed);
    one_open = λ org. rw a (
        put_payment-one_open w.payments p q org there c.moves.terms.same_organization
          c.moves.never_reopened (h.one_open org));
    granted =
        rw (a, b)
          (All-put_payment (IsGranted w.ledger) q w.payments
            (λ e. SameTerms-HasPeriod c.moves.terms c.same_period (
              All-find_payment (IsGranted w.ledger) q.id w.payments p there h.granted
                (sym c.same_success ∙ e)))
            h.granted);
    backed =
        rw (a, b)
          (All-imp
            (λ period backed bought.
              put_payment-HasPayment w.payments p q period there
                (λ e. (c.same_success ∙ e, c.same_period)) (backed bought))
            w.ledger.periods h.backed);
  }

  adds-IsSound :
      (p : SubscriptionPayment)
      → IsNew p
      → find_payment p.id w.payments ≡ none
      → any (is_open_of p.organization_id) w.payments ≡ false
      → w'.payments ≡ p ∷ w.payments
      → w'.ledger ≡ w.ledger
      → IsSound w'
  adds-IsSound p new unused no_open a b = record {
    well_formed = rw a (ground (arith, new), h.well_formed);
    one_open = λ org. rw a (new-one_open p w.payments org no_open (h.one_open org));
    granted =
        subst (λ l. All (IsGranted l) w'.payments) (sym b)
          (rw a (λ e. absurd (ground (arith, new)), h.granted));
    backed =
        rw (a, b)
          (All-imp
            (λ period backed bought. new-HasPayment p w.payments period unused (backed bought))
            w.ledger.periods h.backed);
  }

  grows-IsSound :
      (p : SubscriptionPeriod)
      → p.source ≢ SubscriptionSource.payment
      → w'.payments ≡ w.payments
      → create p w.ledger ≡ Grant.ok w'.ledger
      → IsSound w'
  grows-IsSound p other a e = record {
    well_formed = rw a h.well_formed;
    one_open = λ org. rw a (h.one_open org);
    granted =
        rw a
          (All-imp (λ x g s. create-HasPeriod p w.ledger w'.ledger x e (g s)) w.payments h.granted);
    backed =
        rw (a, create-periods p w.ledger w'.ledger e) (λ bought. absurd (other bought), h.backed);
  }

  module _ (p q : SubscriptionPayment) (view : GrantedView) (status : ProviderPaymentStatus)
      (there : find_payment q.id w.payments ≡ some p) (s : Success p q view status)
      (answered : Answered (payment_grant_input p) w.ledger w'.ledger view)
      (a : w'.payments ≡ put_payment q w.payments) where
    paid-HasPeriod : HasPeriod w'.ledger q
    paid-HasPeriod = record {
      request = answered.request;
      period = view.period;
      valid = ap validate (SameTerms-input s.terms) ∙ answered.valid;
      found = answered.found;
      agrees = answered.agrees;
      marked = s.has_period;
    }

    paid-IsGranted : All (IsGranted w'.ledger) w'.payments
    paid-IsGranted =
        rw a (All-put_payment (IsGranted w'.ledger) q w.payments (λ _. paid-HasPeriod) older)
      where
        older : All (IsGranted w'.ledger) w.payments
        older = elim answered.grown [
          | inl e ↦ subst (λ l. All (IsGranted l) w.payments) (sym e) h.granted
          | inr e ↦
              All-imp
                (λ x g success. create-HasPeriod view.period w.ledger w'.ledger x e (g success))
                w.payments h.granted
        ]

    paid-IsBacked : All (IsBacked w'.payments) w'.ledger.periods
    paid-IsBacked = elim answered.grown [
      | inl e ↦ subst (λ l. All (IsBacked w'.payments) l.periods) (sym e) older
      | inr e ↦
          subst (All (IsBacked w'.payments)) (sym (create-periods view.period w.ledger w'.ledger e))
            (newest, older)
    ]
      where
        older : All (IsBacked w'.payments) w.ledger.periods
        older = rw a (
            All-imp
              (λ period backed bought.
                put_payment-HasPayment w.payments p q period there
                  (λ e. absurd (ground (arith, s.was_finalizable))) (backed bought))
              w.ledger.periods h.backed)

        newest : IsBacked w'.payments view.period
        newest bought = record {
          buyer = q;
          found =
              rw a
                (rw (find_payment-put_payment q p q.id w.payments there) (rw (eq_refl q.id) refl));
          is_success = rw s.is_success refl;
          marked = s.has_period;
        }

    pays-IsSound : IsSound w'
    pays-IsSound = record {
      well_formed =
          rw a (All-put_payment IsWellFormed q w.payments paid-IsWellFormed h.well_formed);
      one_open = λ org. rw a (
          put_payment-one_open w.payments p q org there s.terms.same_organization
            (λ e. absurd (ground (arith, s.is_shut))) (h.one_open org));
      granted = paid-IsGranted;
      backed = paid-IsBacked;
    }
      where
        paid-IsWellFormed : IsWellFormed q
        paid-IsWellFormed = record {
          open_while = λ e. ground (arith, s.is_success);
          closed_when = λ e. s.is_shut;
          paid = rw (s.is_success, s.has_period) refl;
          known = λ e. rw s.has_reference refl;
        }

pub Step-IsSound : {w w' : World} → Step w w' → IsSound w → IsSound w'
Step-IsSound {w} {w'} st h = elim (Step-Effect st) [
  | same a b ↦ same-IsSound w w' h a b
  | changes p q there c a b ↦ changes-IsSound w w' h p q there c a b
  | adds p new _ unused no_open a b ↦ adds-IsSound w w' h p new unused no_open a b
  | grows p other a e ↦ grows-IsSound w w' h p other a e
  | pays p q now period_id view status there s a e ↦
      pays-IsSound w w' h p q view status there s
        (grant_subscription_in_session-Answered now period_id (payment_grant_input p) w.ledger
          w'.ledger view e)
        a
]

-- Whatever requests run and in whatever order their writes interleave, the payments and the ledger
-- agree: a payment is open while it is initiating, pending or uncertain and closed once it succeeded or
-- failed; it succeeded exactly when it names a period, and that period stands in the ledger under the
-- payment's own reference, for its organization and term; every period that a payment bought has the
-- payment that succeeded and names it; and an organization never has two open payments.
pub Reach-IsSound : {w w' : World} → Reach w w' → IsSound w → IsSound w'
Reach-IsSound here h = h
Reach-IsSound (next r st) h = Step-IsSound st (Reach-IsSound r h)
