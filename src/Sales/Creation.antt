-- ===== src/Sales/Creation.antt =====
-- `create` of api/src/sales/sales.service.ts, on every outcome, keeps the balance of every product.
use royalvibe_cosmetic.Common.{
  ℕ, ◌≡◌, sym, ap, subst, String, Bool, true, Option, none, some, ◌∷◌, is_some, str_eq, arith,
  Bool-cases, Option-cases, inl, inr, All, total,
}
use royalvibe_cosmetic.Sales.Model.{Sale, Shop, Result, ok, err, find_operation, decrement_stock}
use royalvibe_cosmetic.Sales.Effects.{record_stock_thresholds}
use royalvibe_cosmetic.Sales.Service.{
  NormalizedSaleInput, Idempotency, FreshIds, CreateCall, document_id, trace_operation, record_sale,
  sell, create_fresh, resolve_occurred_at, after_fresh, is_duplicate, create_keyed, create_unkeyed,
  create,
}
use royalvibe_cosmetic.Sales.Stock.{Moved-Balanced, Moved-owner, quantity_of}
use royalvibe_cosmetic.Sales.Adjustment.{Takes, decrement_stock-Takes}
use royalvibe_cosmetic.Sales.Balance.{Result-cases, IsBalanced, Keeps, commit-IsBalanced}

module _ (org pid : String) (n : ℕ) where
  abbrev Traced : Result Shop → Type 0
  Traced (err e) = Unit
  Traced (ok w) = IsBalanced org pid n w

  -- A sale that its stock was taken for.
  sell-Keeps :
      (push : Bool) (o : String) (ids : FreshIds) (id : String) (input : NormalizedSaleInput)
      (seller : String) (at : ℕ) (w : Shop)
      → IsBalanced org pid n w
      → Keeps org pid n (sell push o ids id input seller at w)
  unfolding sell record_sale record_stock_thresholds
  sell-Keeps push o ids id input seller at w b =
      let effect = decrement_stock-Takes o input.product_id input.quantity w in
      elim (Result-cases (decrement_stock o input.product_id input.quantity w)) [
        | inl (e, refused) ↦ rw (refused, sell) tt
        | inr ((w', p), done) ↦
            let (sales_same, moved) =
              subst (Takes o input.product_id input.quantity 0 w) done effect in
            rw (done, sell)
              (let owner : str_eq input.product_id pid ≡ true → o ≡ org =
                  λ same. Moved-owner pid input.product_id input.quantity 0 w.sales moved b same in
                let owned =
                  subst (All (λ s. str_eq s.product_id pid ≡ true → s.organization_id ≡ org))
                    (sym sales_same) b.owned in
                Moved-Balanced pid input.product_id input.quantity 0 w.sales
                  ((record_sale push o ids id input seller at p w').1 ∷ w'.sales) moved b
                  (owner, owned)
                  (let same = ap (total (quantity_of pid)) sales_same in ground (arith, same)))
      ]

  trace_operation-Keeps :
      (o seller id : String) (key : Option Idempotency) (w : Shop)
      → IsBalanced org pid n w
      → Traced (trace_operation o seller id key w)
  unfolding trace_operation
  trace_operation-Keeps o seller id none w b = b
  trace_operation-Keeps o seller id (some key) w b =
      elim (Bool-cases (is_some (find_operation o key.client_operation_id w.operations))) [
        | inl there ↦ rw (there, trace_operation) tt
        | inr fresh ↦ rw (fresh, trace_operation) b
      ]

  create_fresh-Keeps :
      (push : Bool) (o : String) (ids : FreshIds) (input : NormalizedSaleInput) (seller : String)
      (at : ℕ) (key : Option Idempotency) (w : Shop)
      → IsBalanced org pid n w
      → Keeps org pid n (create_fresh push o ids input seller at key w)
  unfolding create_fresh
  create_fresh-Keeps push o ids input seller at key w b =
      let traced = trace_operation-Keeps o seller ids.sale_id key w b in
      elim (Result-cases (trace_operation o seller ids.sale_id key w)) [
        | inl (e, refused) ↦ rw (refused, create_fresh) tt
        | inr (w', done) ↦
            rw (done, create_fresh)
              (sell-Keeps push o ids (document_id ids key) input seller at w'
                (subst Traced done traced))
      ]

  after_fresh-IsBalanced :
      (o seller key hash : String) (w : Shop) (r : Result (Shop × Sale))
      → IsBalanced org pid n w
      → Keeps org pid n r
      → IsBalanced org pid n (after_fresh o seller key hash w r).0
  unfolding after_fresh
  after_fresh-IsBalanced o seller key hash w (ok (w', s)) b k = k
  after_fresh-IsBalanced o seller key hash w (err e) b k = elim (Bool-cases (is_duplicate e)) [
    | inr other ↦ rw other b
    | inl duplicate ↦ elim (Option-cases (find_operation o key w.operations)) [
      | inl missing ↦ rw (duplicate, missing, after_fresh) b
      | inr (winner, found) ↦ rw (duplicate, found, after_fresh) b
    ]
  ]

  module _ (request_hash : NormalizedSaleInput → String) (during : Shop → Shop)
      (keep : (v : Shop) → IsBalanced org pid n v → IsBalanced org pid n (during v))
      (call : CreateCall) (w : Shop) (b : IsBalanced org pid n w) where
    create_keyed-IsBalanced :
        (key : String) → IsBalanced org pid n (create_keyed request_hash during call key w).0
    unfolding create_keyed
    create_keyed-IsBalanced key =
        elim (Result-cases (resolve_occurred_at call.input.occurred_at call.now)) [
          | inl (e, refused) ↦ rw (refused, create_keyed) b
          | inr (at, dated) ↦
              let k = keep w b in
              let trace : Idempotency = record {
                client_operation_id = key;
                request_hash = request_hash call.input;
              } in
              rw (dated, create_keyed)
                (after_fresh-IsBalanced call.organization_id call.seller_id key
                  (request_hash call.input) (during w)
                  (create_fresh call.push call.organization_id call.ids call.input call.seller_id at
                    (some trace) (during w))
                  k
                  (create_fresh-Keeps call.push call.organization_id call.ids call.input
                    call.seller_id at (some trace) (during w) k))
        ]

    create_unkeyed-IsBalanced : IsBalanced org pid n (create_unkeyed request_hash during call w).0
    unfolding create_unkeyed
    create_unkeyed-IsBalanced =
        elim (Result-cases (resolve_occurred_at call.input.occurred_at call.now)) [
          | inl (e, refused) ↦ rw (refused, create_unkeyed) b
          | inr (at, dated) ↦
              let k = keep w b in
              rw (dated, create_unkeyed)
                (commit-IsBalanced org pid n (during w)
                  (create_fresh call.push call.organization_id call.ids call.input call.seller_id at
                    none (during w))
                  k
                  (create_fresh-Keeps call.push call.organization_id call.ids call.input
                    call.seller_id at none (during w) k))
        ]

    -- A request for a sale keeps the balance of every product, on every outcome and whatever other
    -- requests commit meanwhile, as long as they keep it: no sale without its pieces taken, and no
    -- pieces taken without a sale.
    pub create-IsBalanced : IsBalanced org pid n (create request_hash during call w).0
    unfolding create
    create-IsBalanced = elim (Option-cases call.client_operation_id) [
      | inl unkeyed ↦ elim (Bool-cases call.new_writes_allowed) [
        | inl allowed ↦ rw (unkeyed, allowed, create) create_unkeyed-IsBalanced
        | inr inactive ↦ rw (unkeyed, inactive, create) b
      ]
      | inr (key, keyed) ↦
          elim (Option-cases (find_operation call.organization_id key w.operations)) [
            | inr (applied, found) ↦ rw (keyed, found, create) b
            | inl unknown ↦ elim (Bool-cases call.new_writes_allowed) [
              | inl allowed ↦ rw (keyed, unknown, allowed, create) (create_keyed-IsBalanced key)
              | inr inactive ↦ rw (keyed, unknown, inactive, create) b
            ]
          ]
    ]
