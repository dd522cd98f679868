-- ===== src/Sales/Changes.antt =====
-- `update` and `remove` of api/src/sales/sales.service.ts, on every outcome, keep the balance of every
-- product.
use royalvibe_cosmetic.Common.{
  ℕ, ◌≡◌, refl, sym, ap, subst, ◌∙◌, String, Bool, true, Option, none, some, or_else, ◌==◌, str_eq,
  arith, eq_iff, Bool-cases, ◌⊎◌, inl, inr, All,
}
use royalvibe_cosmetic.Common.Int.{pos, sub_ℕ}
use royalvibe_cosmetic.Sales.Model.{
  Sale, Shop, Result, ok, err, find_sale, put_sale, erase_sale, StockAdjustment, adjust_stock,
}
use royalvibe_cosmetic.Sales.Effects.{record_stock_thresholds}
use royalvibe_cosmetic.Sales.Service.{commit}
use royalvibe_cosmetic.Sales.Edits.{
  in_scope, scoped_sale, thresholds_of, change_quantity, update, remove,
}
use royalvibe_cosmetic.Sales.Stock.{
  Balanced, quantity_of, total-erase_sale, total-put_sale, All-find_sale, All-erase_sale,
  All-put_sale, find_sale-id,
}
use royalvibe_cosmetic.Sales.Adjustment.{Adjusts, adjust_stock-Adjusts}
use royalvibe_cosmetic.Sales.Balance.{Result-cases, IsBalanced, Keeps, commit-IsBalanced}

thresholds_of-documents :
    (push : Bool) (o : String) (s : Sale) (operation_id : String) (a : Option StockAdjustment)
    (w : Shop)
    → ((thresholds_of push o s operation_id a w).products ≡ w.products)
      × ((thresholds_of push o s operation_id a w).sales ≡ w.sales)
unfolding thresholds_of record_stock_thresholds
thresholds_of-documents push o s operation_id none w = (refl, refl)
thresholds_of-documents push o s operation_id (some stock) w = (refl, refl)

module _ (org pid : String) (n : ℕ) where
  -- What the operations make of a sale that they found: its organization is the caller's.
  in_scope-owner :
      (o : String) (scope : Option String) (s : Sale) (w : Shop)
      → in_scope o scope s ≡ true
      → find_sale s.id w.sales ≡ some s
      → IsBalanced org pid n w
      → str_eq s.product_id pid ≡ true
      → o ≡ org
  in_scope-owner o scope s w mine found b same =
      let here : s.organization_id ≡ o = ground (arith, eq_iff s.organization_id o) in
      sym here
      ∙ All-find_sale (λ t. str_eq t.product_id pid ≡ true → t.organization_id ≡ org) s.id w.sales s
          b.owned found same

  scoped_sale-cases :
      (o : String) (scope : Option String) (found : Option Sale)
      → (scoped_sale o scope found ≡ none)
        ⊎ ((s : Sale) × (found ≡ some s)
            × (scoped_sale o scope found ≡ some s)
            × (in_scope o scope s ≡ true))
  scoped_sale-cases o scope none = inl refl
  scoped_sale-cases o scope (some s) = elim (Bool-cases (in_scope o scope s)) [
    | inl mine ↦ inr (s, refl, rw mine refl, mine)
    | inr foreign ↦ inl (rw foreign refl)
  ]

  sub_ℕ_zero : (q : ℕ) → sub_ℕ q 0 ≡ pos q
  sub_ℕ_zero q = ground arith

  remove-Keeps :
      (o id actor : String) (scope : Option String) (w : Shop)
      → IsBalanced org pid n w
      → Keeps org pid n (remove o id actor scope w)
  unfolding remove
  remove-Keeps o id actor scope w b = elim (scoped_sale-cases o scope (find_sale id w.sales)) [
    | inl absent ↦ rw (absent, remove) tt
    | inr (s, found, scoped, mine) ↦
        let same_id = find_sale-id id w.sales s found in
        let there : find_sale s.id w.sales ≡ some s =
          ap (λ i. find_sale i w.sales) same_id ∙ found in
        let rest = erase_sale id w.sales in
        let owned =
          All-erase_sale (λ t. str_eq t.product_id pid ≡ true → t.organization_id ≡ org) id w.sales
            b.owned in
        let sums = total-erase_sale (quantity_of pid) id w.sales s found in
        let effect =
          adjust_stock-Adjusts org pid n o s.product_id 0 s.quantity w rest
            (in_scope-owner o scope s w mine there b) b owned (ground (arith, sums)) in
        let effect' =
          subst (λ d. Adjusts org pid n w rest (adjust_stock o s.product_id d w))
            (sub_ℕ_zero s.quantity) effect in
        elim (Result-cases (adjust_stock o s.product_id (pos s.quantity) w)) [
          | inl (e, refused) ↦ rw (scoped, refused, remove) tt
          | inr ((w', a), done) ↦
              let (sales_same, balanced) = subst (Adjusts org pid n w rest) done effect' in
              rw (scoped, done, remove) (rw sales_same balanced)
        ]
  ]

  -- The stock of a change of quantity is balanced with the sale that `update` is about to save.
  abbrev Changed : Result (Shop × Sale) → Type 0
  Changed (err e) = Unit
  Changed (ok (w', t)) =
      (price : ℕ)
      → Balanced org pid n w'.products (put_sale (record t { sale_price = price }) w'.sales)

  module _ (o : String) (scope : Option String) (s : Sale) (w : Shop)
      (mine : in_scope o scope s ≡ true) (there : find_sale s.id w.sales ≡ some s)
      (b : IsBalanced org pid n w) where
    saved-owned :
        (t : Sale)
        → t.product_id ≡ s.product_id
        → t.organization_id ≡ s.organization_id
        → All (λ t. str_eq t.product_id pid ≡ true → t.organization_id ≡ org) (put_sale t w.sales)
    saved-owned t same_product same_org =
        All-put_sale (λ t. str_eq t.product_id pid ≡ true → t.organization_id ≡ org) t w.sales
          (λ h.
            same_org
            ∙ All-find_sale (λ t. str_eq t.product_id pid ≡ true → t.organization_id ≡ org) s.id
                w.sales s b.owned there (subst (λ p. str_eq p pid ≡ true) same_product h))
          b.owned

    saved_alone :
        (price : ℕ)
        → Balanced org pid n w.products (put_sale (record s { sale_price = price }) w.sales)
    saved_alone price =
        let t = record s { sale_price = price } in
        let sums = total-put_sale (quantity_of pid) t w.sales s there in
        record {
          product = b.product;
          found = b.found;
          owner = b.owner;
          owned = saved-owned t refl refl;
          sum = ground (arith, sums, b.sum);
        }

    change_quantity-Changed :
        (push : Bool) (operation_id : String) (quantity : Option ℕ)
        → Changed (change_quantity push o operation_id quantity s w)
    unfolding change_quantity
    change_quantity-Changed push operation_id none = saved_alone
    change_quantity-Changed push operation_id (some q) = elim (Bool-cases (q == s.quantity)) [
      | inl unchanged ↦ rw (unchanged, change_quantity) saved_alone
      | inr differs ↦ elim (Result-cases (adjust_stock o s.product_id (sub_ℕ s.quantity q) w)) [
        | inl (e, refused) ↦ rw (differs, refused, change_quantity) tt
        | inr ((w', a), done) ↦
            rw (differs, done, change_quantity)
              (λ price.
                let t = record s { quantity = q; sale_price = price } in
                let sums = total-put_sale (quantity_of pid) t w.sales s there in
                let effect =
                  adjust_stock-Adjusts org pid n o s.product_id q s.quantity w (put_sale t w.sales)
                    (in_scope-owner o scope s w mine there b) b (saved-owned t refl refl)
                    (ground (arith, sums)) in
                let (sales_same, balanced) =
                  subst (Adjusts org pid n w (put_sale t w.sales)) done effect in
                let (p, q) = thresholds_of-documents push o s operation_id a w' in
                rw (p, q, sales_same) balanced)
      ]
    ]

  update-Keeps :
      (push : Bool) (o id operation_id : String) (quantity sale_price : Option ℕ) (actor : String)
      (scope : Option String) (w : Shop)
      → IsBalanced org pid n w
      → Keeps org pid n (update push o id operation_id quantity sale_price actor scope w)
  unfolding update
  update-Keeps push o id operation_id quantity sale_price actor scope w b =
      elim (scoped_sale-cases o scope (find_sale id w.sales)) [
        | inl absent ↦ rw (absent, update) tt
        | inr (s, found, scoped, mine) ↦
            let there : find_sale s.id w.sales ≡ some s =
              ap (λ i. find_sale i w.sales) (find_sale-id id w.sales s found) ∙ found in
            let effect =
              change_quantity-Changed o scope s w mine there b push operation_id quantity in
            elim (Result-cases (change_quantity push o operation_id quantity s w)) [
              | inl (e, refused) ↦ rw (scoped, refused, update) tt
              | inr ((w', t), done) ↦
                  rw (scoped, done, update)
                    (subst Changed done effect (or_else sale_price t.sale_price))
            ]
      ]

  -- Changing a sale keeps the balance of every product, whatever it changes and whether it succeeds:
  -- more pieces sold are pieces taken, fewer are pieces given back.
  pub update-IsBalanced :
      (push : Bool) (o id operation_id : String) (quantity sale_price : Option ℕ) (actor : String)
      (scope : Option String) (w : Shop)
      → IsBalanced org pid n w
      → IsBalanced org pid n
          (commit w (update push o id operation_id quantity sale_price actor scope w)).0
  update-IsBalanced push o id operation_id quantity sale_price actor scope w b =
      commit-IsBalanced org pid n w
        (update push o id operation_id quantity sale_price actor scope w) b
        (update-Keeps push o id operation_id quantity sale_price actor scope w b)

  -- Cancelling a sale keeps the balance of every product, whether it succeeds or not: the pieces of
  -- the sale that goes come back to the stock.
  pub remove-IsBalanced :
      (o id actor : String) (scope : Option String) (w : Shop)
      → IsBalanced org pid n w
      → IsBalanced org pid n (commit w (remove o id actor scope w)).0
  remove-IsBalanced o id actor scope w b =
      commit-IsBalanced org pid n w (remove o id actor scope w) b
        (remove-Keeps o id actor scope w b)
