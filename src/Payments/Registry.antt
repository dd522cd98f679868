-- ===== src/Payments/Registry.antt =====
-- The queries on `subscription_payments` and the writes of one document, under the unique indexes of
-- api/src/subscriptions/payments/subscription-payment-indexes.ts.
use royalvibe_cosmetic.Common.{
  String, Bool, false, ◌&&◌, ◌||◌, not, Option, none, some, List, [], ◌∷◌, any, str_eq,
  if◌then◌else◌,
}
use royalvibe_cosmetic.Payments.Model.{SubscriptionPayment, World}

-- `findById`
unfoldable pub find_payment : String → List SubscriptionPayment → Option SubscriptionPayment
find_payment id [] = none
find_payment id (p ∷ ps) = if str_eq p.id id then some p else find_payment id ps

-- The document of the identifier is replaced.
unfoldable pub put_payment :
    SubscriptionPayment → List SubscriptionPayment → List SubscriptionPayment
put_payment q [] = []
put_payment q (p ∷ ps) = if str_eq p.id q.id then q ∷ ps else p ∷ put_payment q ps

abbrev pub is_operation : String → String → SubscriptionPayment → Bool
is_operation org key p = str_eq p.organization_id org && str_eq p.client_operation_id key

abbrev pub is_open_of : String → SubscriptionPayment → Bool
is_open_of org p = str_eq p.organization_id org && p.is_open

abbrev pub has_reference : Option String → String → Bool
has_reference none reference = false
has_reference (some r) reference = str_eq r reference

abbrev pub is_reference : String → String → SubscriptionPayment → Bool
is_reference provider reference p =
    str_eq p.provider provider && has_reference p.provider_reference reference

-- The index that an insertion would break, or the collection with the new document.
pub data Insertion : Type 0 where
  inserted : World → Insertion
  duplicate_operation duplicate_open duplicate_other : Insertion

-- `create`: a new document has no reference of the provider yet.
unfoldable pub insert_payment : SubscriptionPayment → World → Insertion
insert_payment p w =
    if any (is_operation p.organization_id p.client_operation_id) w.payments
    then duplicate_operation
    else if p.is_open && any (is_open_of p.organization_id) w.payments
    then duplicate_open
    else if any (λ q. str_eq q.id p.id || str_eq q.merchant_reference p.merchant_reference)
        w.payments
    then duplicate_other
    else inserted (record w { payments = p ∷ w.payments })

-- What `updateOne` reports.
pub data Update : Type 0 where
  matched : World → Update
  unmatched duplicate_reference : Update

-- `updateOne({ _id: id, … }, …)` where no key of an index is written.
unfoldable pub update_payment :
    String
    → (SubscriptionPayment → Bool)
    → (SubscriptionPayment → SubscriptionPayment)
    → World
    → Update
unfolding find_payment put_payment
update_payment id test f w = elim (find_payment id w.payments) [
  | none ↦ unmatched
  | some p ↦
      if test p then matched (record w { payments = put_payment (f p) w.payments }) else unmatched
]

-- Another payment of the same provider has the reference.
abbrev pub is_taken : SubscriptionPayment → String → List SubscriptionPayment → Bool
is_taken p reference ps =
    any (λ q. is_reference p.provider reference q && not (str_eq q.id p.id)) ps

-- The same where the reference of the provider is written.
unfoldable pub adopt_reference :
    String
    → String
    → (SubscriptionPayment → Bool)
    → (SubscriptionPayment → SubscriptionPayment)
    → World
    → Update
unfolding find_payment put_payment
adopt_reference id reference test f w = elim (find_payment id w.payments) [
  | none ↦ unmatched
  | some p ↦
      if test p
      then (if is_taken p reference w.payments
          then duplicate_reference
          else matched (record w {
            payments =
                put_payment (record (f p) { provider_reference = some reference }) w.payments;
          }))
      else unmatched
]
