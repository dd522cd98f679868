-- ===== src/Payments/Effects.antt =====
-- What a write of api/src/subscriptions/payments/subscription-payments.service.ts may do to the payments
-- and to the ledger of the periods.
use royalvibe_cosmetic.Common.{◌≡◌, ◌≢◌, String, Bool, true, false, none, some, ◌∷◌, any, is_some}
use royalvibe_cosmetic.Subscriptions.Calendar.{Date}
use royalvibe_cosmetic.Subscriptions.Requests as Grant
use royalvibe_cosmetic.Subscriptions.Requests.{SubscriptionSource}
use royalvibe_cosmetic.Subscriptions.Grants.{
  SubscriptionPeriod, GrantedView, create, grant_subscription_in_session,
}
use royalvibe_cosmetic.Payments.Model.{
  SubscriptionPaymentStatus, pending, succeeded, failed, SubscriptionPayment, World,
  ProviderPaymentStatus, is_open_status, is_succeeded, is_finalizable,
}
use royalvibe_cosmetic.Payments.Requests.{payment_grant_input, concordant}
use royalvibe_cosmetic.Payments.Registry.{find_payment, put_payment, is_open_of, is_operation}
use royalvibe_cosmetic.Payments.Trace.{IsNew}
use royalvibe_cosmetic.Payments.Machine.{Moves, SameTerms}

abbrev pub is_closed : SubscriptionPaymentStatus → Bool
is_closed succeeded = true
is_closed failed = true
is_closed _ = false

abbrev pub needs_reference : SubscriptionPaymentStatus → Bool
needs_reference pending = true
needs_reference succeeded = true
needs_reference _ = false

pub record IsWellFormed (p : SubscriptionPayment) : Type 0 where
  pub open_while : is_open_status p.status ≡ true → p.is_open ≡ true
  pub closed_when : is_closed p.status ≡ true → p.is_open ≡ false
  pub paid : is_succeeded p.status ≡ is_some p.period_id
  pub known : needs_reference p.status ≡ true → is_some p.provider_reference ≡ true

-- A write that is no success.
pub record Change (p q : SubscriptionPayment) : Type 0 where
  pub moves : Moves p q
  pub well_formed : IsWellFormed p → IsWellFormed q
  pub same_success : is_succeeded q.status ≡ is_succeeded p.status
  pub same_period : q.period_id ≡ p.period_id

-- The success of `p`: the period is the one that the ledger answers with.
pub record Success (p q : SubscriptionPayment) (view : GrantedView) (status : ProviderPaymentStatus)
    : Type 0 where
  pub terms : SameTerms p q
  pub was_finalizable : is_finalizable p.status ≡ true
  pub had_no_period : p.period_id ≡ none
  pub agreed : concordant p status ≡ true
  pub is_success : q.status ≡ succeeded
  pub is_shut : q.is_open ≡ false
  pub has_period : q.period_id ≡ some view.period.id
  pub has_reference : q.provider_reference ≡ some status.provider_reference

pub data Effect (w w' : World) : Type 0 where
  same : w'.payments ≡ w.payments → w'.ledger ≡ w.ledger → Effect w w'
  changes :
      (p q : SubscriptionPayment)
      → find_payment q.id w.payments ≡ some p
      → Change p q
      → w'.payments ≡ put_payment q w.payments
      → w'.ledger ≡ w.ledger
      → Effect w w'
  adds :
      (p : SubscriptionPayment)
      → IsNew p
      → any (is_operation p.organization_id p.client_operation_id) w.payments ≡ false
      → find_payment p.id w.payments ≡ none
      → any (is_open_of p.organization_id) w.payments ≡ false
      → w'.payments ≡ p ∷ w.payments
      → w'.ledger ≡ w.ledger
      → Effect w w'
  pays :
      (p q : SubscriptionPayment) (now : Date) (period_id : String) (view : GrantedView)
      (status : ProviderPaymentStatus)
      → find_payment q.id w.payments ≡ some p
      → Success p q view status
      → w'.payments ≡ put_payment q w.payments
      → grant_subscription_in_session true now period_id (payment_grant_input p) w.ledger
        ≡ Grant.ok (w'.ledger, view)
      → Effect w w'
  grows :
      (p : SubscriptionPeriod)
      → p.source ≢ SubscriptionSource.payment
      → w'.payments ≡ w.payments
      → create p w.ledger ≡ Grant.ok w'.ledger
      → Effect w w'
