-- ===== src/Sales/Model.antt =====
-- The documents that api/src/sales reads and writes, the stock operations of
-- api/src/products/products.service.ts and the thresholds of api/src/push/stock-thresholds.ts.
use royalvibe_cosmetic.Common.{
  ℕ, ◌+◌, ◌-◌, ◌*◌, String, Bool, ◌&&◌, not, Option, none, some, List, [], ◌∷◌, leb, ltb, str_eq,
  if◌then◌else◌,
}
use royalvibe_cosmetic.Common.Int.{ℤ, pos_part, neg_part}

pub record Product : Type 0 where
  pub id : String
  pub organization_id : String
  pub name : String
  pub initial_quantity : ℕ
  pub remaining_quantity : ℕ
  pub trashed : Bool

-- Prices are whole here: the code only compares and copies them.
pub record Sale : Type 0 where
  pub id : String
  pub organization_id : String
  pub product_id : String
  pub quantity : ℕ
  pub sale_price : ℕ
  pub seller_id : String
  pub product_name : String
  pub occurred_at : ℕ
  pub buyer_name : Option String
  pub buyer_contact : Option String

pub record SaleOperation : Type 0 where
  pub organization_id : String
  pub client_operation_id : String
  pub seller_id : String
  pub sale_id : String
  pub request_hash : String

pub data AuditAction : Type 0 where
  sold sale_updated sale_cancelled : AuditAction

pub record AuditEntry : Type 0 where
  pub organization_id : String
  pub product_id : String
  pub action : AuditAction
  pub actor_id : String
  pub sale_id : String

pub data PushCategory : Type 0 where
  stock_depleted stock_low sale_created : PushCategory

pub record PushEvent : Type 0 where
  pub category : PushCategory
  pub organization_id : String
  pub product_id : String
  pub trigger : String

-- The collections that a sale touches, the newest document first.
pub record Shop : Type 0 where
  pub products : List Product
  pub sales : List Sale
  pub operations : List SaleOperation
  pub audits : List AuditEntry
  pub events : List PushEvent

pub data SaleError : Type 0 where
  product_not_found sale_not_found subscription_inactive sale_date_out_of_range : SaleError
  idempotency_key_conflict idempotency_key_reused already_applied duplicate_operation : SaleError
  insufficient_stock : ℕ → SaleError

pub data Result {ℓ} (A : Type ℓ) : Type ℓ where
  ok : A → Result A
  err : SaleError → Result A

-- A document by its `_id`; the other conditions of a filter are tested on it.
unfoldable pub find_product : String → List Product → Option Product
find_product id [] = none
find_product id (p ∷ ps) = if str_eq p.id id then some p else find_product id ps

unfoldable pub put_product : Product → List Product → List Product
put_product q [] = []
put_product q (p ∷ ps) = if str_eq p.id q.id then q ∷ ps else p ∷ put_product q ps

unfoldable pub find_sale : String → List Sale → Option Sale
find_sale id [] = none
find_sale id (s ∷ ss) = if str_eq s.id id then some s else find_sale id ss

unfoldable pub put_sale : Sale → List Sale → List Sale
put_sale t [] = []
put_sale t (s ∷ ss) = if str_eq s.id t.id then t ∷ ss else s ∷ put_sale t ss

unfoldable pub erase_sale : String → List Sale → List Sale
erase_sale id [] = []
erase_sale id (s ∷ ss) = if str_eq s.id id then ss else s ∷ erase_sale id ss

unfoldable pub find_operation : String → String → List SaleOperation → Option SaleOperation
find_operation org key [] = none
find_operation org key (o ∷ os) =
    if str_eq o.organization_id org && str_eq o.client_operation_id key
    then some o
    else find_operation org key os

pub record StockAdjustment : Type 0 where
  pub initial_quantity : ℕ
  pub remaining_before : ℕ
  pub remaining_after : ℕ

-- The rest of the filter of `decrementStock`, and what it answers when nothing matched.
unfoldable pub decrement_found : String → ℕ → Product → Shop → Result (Shop × Product)
decrement_found org quantity p w =
    if str_eq p.organization_id org && not p.trashed
    then (if leb quantity p.remaining_quantity
        then (let q = record p { remaining_quantity = p.remaining_quantity - quantity } in
            ok (record w { products = put_product q w.products }, q))
        else err (insufficient_stock p.remaining_quantity))
    else err product_not_found

unfoldable pub decrement_stock : String → String → ℕ → Shop → Result (Shop × Product)
unfolding find_product decrement_found
decrement_stock org id quantity w = elim (find_product id w.products) [
  | none ↦ err product_not_found
  | some p ↦ decrement_found org quantity p w
]

unfoldable pub adjust_found : String → ℤ → Product → Shop → Result (Shop × Option StockAdjustment)
adjust_found org delta p w =
    if str_eq p.organization_id org
    then (if ltb (p.remaining_quantity + pos_part delta) (neg_part delta)
        then err (insufficient_stock p.remaining_quantity)
        else (let after = p.remaining_quantity + pos_part delta - neg_part delta in
            ok (
              record w {
                products = put_product (record p { remaining_quantity = after }) w.products;
              },
              some (record {
                initial_quantity = p.initial_quantity;
                remaining_before = p.remaining_quantity;
                remaining_after = after;
              }),
            )))
    else ok (w, none)

unfoldable pub adjust_stock : String → String → ℤ → Shop → Result (Shop × Option StockAdjustment)
unfolding find_product adjust_found
adjust_stock org id delta w = elim (find_product id w.products) [
  | none ↦ ok (w, none)
  | some p ↦ adjust_found org delta p w
]

-- `consumed = initial - remaining` may be negative; then the threshold is not reached.
unfoldable pub stock_low_reached : ℕ → ℕ → Bool
stock_low_reached initial remaining =
    ltb 0 initial && leb (4 * initial + 5 * remaining) (5 * initial)

unfoldable pub stock_low_crossed : ℕ → ℕ → ℕ → ℕ → Bool
unfolding stock_low_reached
stock_low_crossed initial_before remaining_before initial_after remaining_after =
    not (stock_low_reached initial_before remaining_before)
    && stock_low_reached initial_after remaining_after
