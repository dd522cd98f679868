-- ===== src/Sales/Service.antt =====
-- `SalesService` of api/src/sales/sales.service.ts: create with its replay. A
-- transaction is a function that answers the new collections or an error; an error leaves the old.
use Prim.Native.String.{◌++◌}
use royalvibe_cosmetic.Common.{
  ℕ, ◌+◌, ◌*◌, String, Bool, true, false, ◌||◌, not, Option, none, some, ◌∷◌, is_some, ltb, str_eq,
  if◌then◌else◌,
}
use royalvibe_cosmetic.Sales.Model.{
  Product, Sale, SaleOperation, sold, sale_created, Shop, SaleError, subscription_inactive,
  sale_date_out_of_range, idempotency_key_conflict, idempotency_key_reused, already_applied,
  duplicate_operation, Result, ok, err, find_sale, find_operation, StockAdjustment, decrement_stock,
}
use royalvibe_cosmetic.Sales.Effects.{log, add_event, record_stock_thresholds}

-- `occurred_at`: absent, or a date that may be invalid.
pub record NormalizedSaleInput : Type 0 where
  pub product_id : String
  pub quantity : ℕ
  pub sale_price : ℕ
  pub buyer_name : Option String
  pub buyer_contact : Option String
  pub occurred_at : Option (Option ℕ)

pub record Idempotency : Type 0 where
  pub client_operation_id : String
  pub request_hash : String

abbrev pub max_past_ms : ℕ
max_past_ms = 14 * 24 * 60 * 60 * 1000

abbrev pub max_future_ms : ℕ
max_future_ms = 5 * 60 * 1000

-- `resolveOccurredAt`
unfoldable pub resolve_occurred_at : Option (Option ℕ) → ℕ → Result ℕ
resolve_occurred_at none now = ok now
resolve_occurred_at (some none) now = err sale_date_out_of_range
resolve_occurred_at (some (some value)) now =
    if ltb (value + max_past_ms) now || ltb (now + max_future_ms) value
    then err sale_date_out_of_range
    else ok value

-- The identifiers of one call: `saleId`, and the one that the database gives without a key.
pub record FreshIds : Type 0 where
  pub sale_id : String
  pub default_id : String

abbrev pub document_id : FreshIds → Option Idempotency → String
document_id ids none = ids.default_id
document_id ids (some _) = ids.sale_id

-- Step 0: the trace, under its unique index.
unfoldable pub trace_operation : String → String → String → Option Idempotency → Shop → Result Shop
trace_operation org seller_id sale_id none w = ok w
trace_operation org seller_id sale_id (some key) w =
    if is_some (find_operation org key.client_operation_id w.operations)
    then err duplicate_operation
    else ok (record w {
      operations =
          record {
            organization_id = org;
            client_operation_id = key.client_operation_id;
            seller_id = seller_id;
            sale_id = sale_id;
            request_hash = key.request_hash;
          }
          ∷ w.operations;
    })

-- Steps 1 to 3, on the product after its stock was taken.
unfoldable pub record_sale :
    Bool
    → String
    → FreshIds
    → String
    → NormalizedSaleInput
    → String
    → ℕ
    → Product
    → Shop
    → Shop × Sale
unfolding record_stock_thresholds
record_sale push org ids id input seller_id occurred_at product w =
    let stock : StockAdjustment = record {
      initial_quantity = product.initial_quantity;
      remaining_before = product.remaining_quantity + input.quantity;
      remaining_after = product.remaining_quantity;
    } in
    let w1 = record_stock_thresholds push org input.product_id stock ("sale:" ++ ids.sale_id) w in
    let sale : Sale = record {
      id = id;
      organization_id = org;
      product_id = input.product_id;
      quantity = input.quantity;
      sale_price = input.sale_price;
      seller_id = seller_id;
      product_name = product.name;
      occurred_at = occurred_at;
      buyer_name = input.buyer_name;
      buyer_contact = input.buyer_contact;
    } in
    let w2 = record w1 { sales = sale ∷ w1.sales } in
    let w3 = log org input.product_id sold seller_id id w2 in
    (
      record w3 {
        events =
            add_event org input.product_id id (if push then some sale_created else none) w3.events;
      },
      sale,
    )

-- What follows the trace: the stock, then the sale.
unfoldable pub sell :
    Bool
    → String
    → FreshIds
    → String
    → NormalizedSaleInput
    → String
    → ℕ
    → Shop
    → Result (Shop × Sale)
unfolding record_sale
sell push org ids id input seller_id occurred_at w =
    elim (decrement_stock org input.product_id input.quantity w) [
      | err e ↦ err e
      | ok (w', product) ↦ ok (record_sale push org ids id input seller_id occurred_at product w')
    ]

unfoldable pub create_fresh :
    Bool
    → String
    → FreshIds
    → NormalizedSaleInput
    → String
    → ℕ
    → Option Idempotency
    → Shop
    → Result (Shop × Sale)
unfolding trace_operation sell
create_fresh push org ids input seller_id occurred_at key w =
    elim (trace_operation org seller_id ids.sale_id key w) [
      | err e ↦ err e
      | ok w' ↦ sell push org ids (document_id ids key) input seller_id occurred_at w'
    ]

abbrev sale_or_gone : Option Sale → String → Result Sale
sale_or_gone none org = err already_applied
sale_or_gone (some s) org = if str_eq s.organization_id org then ok s else err already_applied

unfoldable pub replay : String → SaleOperation → String → String → Shop → Result Sale
replay org operation seller_id request_hash w =
    if not (str_eq operation.seller_id seller_id)
    then err idempotency_key_conflict
    else if not (str_eq operation.request_hash request_hash)
    then err idempotency_key_reused
    else sale_or_gone (find_sale operation.sale_id w.sales) org

-- What a request leaves behind, and its answer.
abbrev pub commit : Shop → Result (Shop × Sale) → Shop × Result Sale
commit w (err e) = (w, err e)
commit w (ok (w', sale)) = (w', ok sale)

abbrev pub is_duplicate : SaleError → Bool
is_duplicate duplicate_operation = true
is_duplicate _ = false

-- Another request committed the same key first: its sale is answered.
unfoldable pub after_fresh :
    String → String → String → String → Shop → Result (Shop × Sale) → Shop × Result Sale
unfolding replay
after_fresh org seller_id key request_hash w (ok (w', sale)) = (w', ok sale)
after_fresh org seller_id key request_hash w (err e) =
    if is_duplicate e
    then elim (find_operation org key w.operations) [
      | none ↦ (w, err e)
      | some winner ↦ (w, replay org winner seller_id request_hash w)
    ]
    else (w, err e)

-- A request as the service receives it.
pub record CreateCall : Type 0 where
  pub push : Bool
  pub new_writes_allowed : Bool
  pub organization_id : String
  pub ids : FreshIds
  pub input : NormalizedSaleInput
  pub client_operation_id : Option String
  pub seller_id : String
  pub now : ℕ

-- The digest comes from a library: it is any function of the normalized input. `during`: what
-- other requests commit between the search for the key and the transaction.
module _ (request_hash : NormalizedSaleInput → String) where
  -- With a key that is not applied yet.
  unfoldable pub create_keyed : (Shop → Shop) → CreateCall → String → Shop → Shop × Result Sale
  unfolding resolve_occurred_at create_fresh after_fresh
  create_keyed during call key w = elim (resolve_occurred_at call.input.occurred_at call.now) [
    | err e ↦ (w, err e)
    | ok occurred_at ↦
        let org = call.organization_id in
        let w' = during w in
        let trace : Idempotency = record {
          client_operation_id = key;
          request_hash = request_hash call.input;
        } in
        after_fresh org call.seller_id key trace.request_hash w' (
          create_fresh call.push org call.ids call.input call.seller_id occurred_at (some trace) w')
  ]

  unfoldable pub create_unkeyed : (Shop → Shop) → CreateCall → Shop → Shop × Result Sale
  unfolding resolve_occurred_at create_fresh
  create_unkeyed during call w = elim (resolve_occurred_at call.input.occurred_at call.now) [
    | err e ↦ (w, err e)
    | ok occurred_at ↦ commit (during w) (
        create_fresh call.push call.organization_id call.ids call.input call.seller_id occurred_at
          none (during w))
  ]

  unfoldable pub create : (Shop → Shop) → CreateCall → Shop → Shop × Result Sale
  unfolding create_keyed create_unkeyed replay
  create during call w = elim call.client_operation_id [
    | none ↦
        if call.new_writes_allowed
        then create_unkeyed during call w
        else (w, err subscription_inactive)
    | some key ↦ elim (find_operation call.organization_id key w.operations) [
      | some applied ↦
          (w, replay call.organization_id applied call.seller_id (request_hash call.input) w)
      | none ↦
          if call.new_writes_allowed
          then create_keyed during call key w
          else (w, err subscription_inactive)
    ]
  ]
