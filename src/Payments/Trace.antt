-- ===== src/Payments/Trace.antt =====
-- What happens to the payments of api/src/subscriptions/payments, as a step relation: each step is one
-- write of the database or one committed transaction, in any order and of any request.
use royalvibe_cosmetic.Common.{ℕ, ◌≡◌, ◌≢◌, String, Bool, true, none, List}
use royalvibe_cosmetic.Subscriptions.Calendar.{Date}
use royalvibe_cosmetic.Subscriptions.Requests as Grant
use royalvibe_cosmetic.Subscriptions.Requests.{SubscriptionSource}
use royalvibe_cosmetic.Subscriptions.Grants.{SubscriptionPeriod, Ledger, create}
use royalvibe_cosmetic.Payments.Model.{
  SubscriptionPaymentStatus, SubscriptionPayment, World, ProviderPaymentStatus,
}
use royalvibe_cosmetic.Payments.Registry.{inserted, insert_payment, matched}
use royalvibe_cosmetic.Payments.Writes.{
  mark_review, mark_unreachable, mark_uncertain, mark_rejected, mark_checked, adopt_pending,
  adopt_failure, note_late_failure, FinalizeOutcome, finalize_tx,
}
use royalvibe_cosmetic.Payments.Service.{is_unanswered}

-- A payment as `create` writes it.
pub record IsNew (p : SubscriptionPayment) : Type 0 where
  pub is_initiating : p.status ≡ SubscriptionPaymentStatus.initiating
  pub is_reserved : p.is_open ≡ true
  pub has_no_period : p.period_id ≡ none
  pub has_no_reference : p.provider_reference ≡ none

pub data Step : World → World → Type 0 where
  reserving :
      (p : SubscriptionPayment) {w w' : World}
      → IsNew p
      → insert_payment p w ≡ inserted w'
      → Step w w'
  not_sent : (now : ℕ) (id : String) {w w' : World} → w' ≡ (mark_unreachable now id w).0 → Step w w'
  lost_answer : (id : String) {w w' : World} → w' ≡ (mark_uncertain id w).0 → Step w w'
  refused : (now : ℕ) (id : String) {w w' : World} → w' ≡ (mark_rejected now id w).0 → Step w w'
  waiting :
      (now : ℕ) (id reference : String) (from : SubscriptionPaymentStatus → Bool) {w w' : World}
      → ((s : SubscriptionPaymentStatus) → from s ≡ true → is_unanswered s ≡ true)
      → adopt_pending now id reference from w ≡ matched w'
      → Step w w'
  failing :
      (now : ℕ) (id reference : String) {w w' : World}
      → adopt_failure now id reference w ≡ matched w'
      → Step w w'
  failing_late : (id : String) {w w' : World} → w' ≡ note_late_failure id w → Step w w'
  reviewing : (id : String) {w w' : World} → w' ≡ (mark_review id w).0 → Step w w'
  checking : (now : ℕ) (id : String) {w w' : World} → w' ≡ mark_checked now id w → Step w w'
  confirming :
      (now : Date) (period_id id : String) (verified : ProviderPaymentStatus) {w w' : World}
      {o : FinalizeOutcome}
      → finalize_tx now period_id id verified w ≡ Grant.ok (w', o)
      → Step w w'
  -- A trial or a manual grant, and the jobs of others.
  granting :
      (p : SubscriptionPeriod) {w : World} {ledger' : Ledger}
      → p.source ≢ SubscriptionSource.payment
      → create p w.ledger ≡ Grant.ok ledger'
      → Step w (record w { ledger = ledger' })
  pushing : (jobs : List String) {w : World} → Step w (record w { jobs = jobs })

pub data Reach (w : World) : World → Type 0 where
  here : Reach w w
  next : {v u : World} → Reach w v → Step v u → Reach w u

pub Reach-trans : {w v u : World} → Reach w v → Reach v u → Reach w u
Reach-trans r here = r
Reach-trans r (next s st) = next (Reach-trans r s) st
