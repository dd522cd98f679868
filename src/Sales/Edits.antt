-- ===== src/Sales/Edits.antt =====
-- `update` and `remove` of api/src/sales/sales.service.ts, each one transaction.
use Prim.Native.String.{◌++◌}
use royalvibe_cosmetic.Common.{
  ℕ, String, Bool, true, ◌&&◌, Option, none, some, or_else, ◌==◌, str_eq, if◌then◌else◌,
}
use royalvibe_cosmetic.Common.Int.{pos, sub_ℕ}
use royalvibe_cosmetic.Sales.Model.{
  Sale, sale_updated, sale_cancelled, Shop, sale_not_found, Result, ok, err, find_sale, put_sale,
  erase_sale, StockAdjustment, adjust_stock,
}
use royalvibe_cosmetic.Sales.Effects.{log, record_stock_thresholds}

-- The filter of `update` and `remove` besides the `_id`.
abbrev pub in_scope : String → Option String → Sale → Bool
in_scope org scope s =
    str_eq s.organization_id org
    && elim scope [ none ↦ true | some seller ↦ str_eq s.seller_id seller ]

abbrev pub scoped_sale : String → Option String → Option Sale → Option Sale
scoped_sale org scope none = none
scoped_sale org scope (some s) = if in_scope org scope s then some s else none

unfoldable pub thresholds_of : Bool → String → Sale → String → Option StockAdjustment → Shop → Shop
thresholds_of push org s operation_id none w = w
thresholds_of push org s operation_id (some stock) w =
    record_stock_thresholds push org s.product_id stock ("sale-update:" ++ operation_id) w

-- The change of quantity, if there is one.
unfoldable pub change_quantity :
    Bool → String → String → Option ℕ → Sale → Shop → Result (Shop × Sale)
unfolding adjust_stock
change_quantity push org operation_id none s w = ok (w, s)
change_quantity push org operation_id (some quantity) s w =
    if quantity == s.quantity
    then ok (w, s)
    else elim (adjust_stock org s.product_id (sub_ℕ s.quantity quantity) w) [
      | err e ↦ err e
      | ok (w', adjustment) ↦
          ok (thresholds_of push org s operation_id adjustment w', record s { quantity = quantity })
    ]

unfoldable pub update :
    Bool
    → String
    → String
    → String
    → Option ℕ
    → Option ℕ
    → String
    → Option String
    → Shop
    → Result (Shop × Sale)
unfolding change_quantity
update push org id operation_id quantity sale_price actor_id scope w =
    elim (scoped_sale org scope (find_sale id w.sales)) [
      | none ↦ err sale_not_found
      | some s ↦ elim (change_quantity push org operation_id quantity s w) [
        | err e ↦ err e
        | ok (w', t) ↦
            let saved = record t { sale_price = or_else sale_price t.sale_price } in
            let w2 = record w' { sales = put_sale saved w'.sales } in
            ok (log org s.product_id sale_updated actor_id id w2, saved)
      ]
    ]

unfoldable pub remove : String → String → String → Option String → Shop → Result (Shop × Sale)
remove org id actor_id scope w = elim (scoped_sale org scope (find_sale id w.sales)) [
  | none ↦ err sale_not_found
  | some s ↦ elim (adjust_stock org s.product_id (pos s.quantity) w) [
    | err e ↦ err e
    | ok (w', _) ↦
        let w2 = record w' { sales = erase_sale id w'.sales } in
        ok (log org s.product_id sale_cancelled actor_id id w2, s)
  ]
]
