-- ===== src/Sales/Replay.antt =====
-- The idempotence of `create` of api/src/sales/sales.service.ts on the client's operation, and what an
-- inactive subscription still allows.
use royalvibe_cosmetic.Common.{
  ℕ, ◌≡◌, refl, ap, subst, ◌∙◌, String, Bool, false, ◌&&◌, not, some, List, ◌∷◌, is_some, leb,
  str_eq, eq_refl, Bool-cases, Option-cases, inl, inr,
}
use royalvibe_cosmetic.Sales.Model.{
  Product, Sale, Shop, SaleOperation, Result, ok, err, find_sale, find_operation, find_product,
  decrement_found, decrement_stock,
}
use royalvibe_cosmetic.Sales.Effects.{record_stock_thresholds}
use royalvibe_cosmetic.Sales.Service.{
  NormalizedSaleInput, Idempotency, FreshIds, CreateCall, trace_operation, record_sale, sell,
  create_fresh, resolve_occurred_at, replay, after_fresh, is_duplicate, create_keyed, create,
}
use royalvibe_cosmetic.Sales.Balance.{Result-cases}

-- A request that has its answer recorded: the operation is there, and its replay is the answer.
abbrev Recorded : String → String → String → String → Shop × Result Sale → Type 0
Recorded org key seller hash (w, err e) = Unit
Recorded org key seller hash (w, ok sale) =
    (o : SaleOperation) × (find_operation org key w.operations ≡ some o)
    × (replay org o seller hash w ≡ ok sale)

replayed-Recorded :
    (org key seller hash : String) (o : SaleOperation) (w : Shop) (r : Result Sale)
    → find_operation org key w.operations ≡ some o
    → replay org o seller hash w ≡ r
    → Recorded org key seller hash (w, r)
replayed-Recorded org key seller hash o w (err e) found same = tt
replayed-Recorded org key seller hash o w (ok sale) found same = (o, found, same)

-- A new sale is recorded under the key that was traced with it.
abbrev Fresh : String → String → String → String → Result (Shop × Sale) → Type 0
Fresh org key seller hash (err e) = Unit
Fresh org key seller hash (ok (w, sale)) = Recorded org key seller hash (w, ok sale)

abbrev SameOperations : Shop → Result (Shop × Product) → Type 0
SameOperations w (err e) = Unit
SameOperations w (ok (w', _)) = w'.operations ≡ w.operations

decrement_found-SameOperations :
    (org : String) (quantity : ℕ) (p : Product) (w : Shop)
    → SameOperations w (decrement_found org quantity p w)
unfolding decrement_found
decrement_found-SameOperations org quantity p w =
    elim (Bool-cases (str_eq p.organization_id org && not p.trashed)) [
      | inr foreign ↦ rw (foreign, decrement_found) tt
      | inl active ↦ elim (Bool-cases (leb quantity p.remaining_quantity)) [
        | inr short ↦ rw (active, short, decrement_found) tt
        | inl enough ↦ rw (active, enough, decrement_found) refl
      ]
    ]

decrement_stock-SameOperations :
    (org id : String) (quantity : ℕ) (w : Shop)
    → SameOperations w (decrement_stock org id quantity w)
unfolding decrement_stock
decrement_stock-SameOperations org id quantity w =
    elim (Option-cases (find_product id w.products)) [
      | inl absent ↦ rw (absent, decrement_stock) tt
      | inr (p, found) ↦
          rw (found, decrement_stock) (decrement_found-SameOperations org quantity p w)
    ]

module _ (org key seller hash : String) where
  abbrev traced : String → SaleOperation
  traced sale_id = record {
    organization_id = org;
    client_operation_id = key;
    seller_id = seller;
    sale_id = sale_id;
    request_hash = hash;
  }

  find_operation-traced :
      (sale_id : String) (os : List SaleOperation)
      → find_operation org key (traced sale_id ∷ os) ≡ some (traced sale_id)
  unfolding find_operation
  find_operation-traced sale_id os = rw (eq_refl org, eq_refl key) refl

  replay-traced :
      (s : Sale) (w : Shop) (ss : List Sale)
      → w.sales ≡ s ∷ ss
      → s.organization_id ≡ org
      → replay org (traced s.id) seller hash w ≡ ok s
  unfolding replay find_sale
  replay-traced s w ss head mine =
      rw (eq_refl seller, eq_refl hash, head, eq_refl s.id, mine, eq_refl org) refl

  sell-Fresh :
      (push : Bool) (ids : FreshIds) (input : NormalizedSaleInput) (at : ℕ) (w : Shop)
      → Fresh org key seller hash (
          sell push org ids ids.sale_id input seller at
            (record w { operations = traced ids.sale_id ∷ w.operations }))
  unfolding sell record_sale record_stock_thresholds
  sell-Fresh push ids input at w =
      let w1 = record w { operations = traced ids.sale_id ∷ w.operations } in
      elim (Result-cases (decrement_stock org input.product_id input.quantity w1)) [
        | inl (e, refused) ↦ rw (refused, sell) tt
        | inr ((w', p), done) ↦
            let same =
              subst (SameOperations w1) done
                (decrement_stock-SameOperations org input.product_id input.quantity w1) in
            let (w2, s) = record_sale push org ids ids.sale_id input seller at p w' in
            rw (done, sell)
              (
                traced ids.sale_id,
                ap (find_operation org key) same ∙ find_operation-traced ids.sale_id w.operations,
                replay-traced s w2 w'.sales refl refl,
              )
      ]

  create_fresh-Fresh :
      (push : Bool) (ids : FreshIds) (input : NormalizedSaleInput) (at : ℕ) (w : Shop)
      → Fresh org key seller hash (
          create_fresh push org ids input seller at
            (some (record { client_operation_id = key; request_hash = hash }))
            w)
  unfolding create_fresh trace_operation
  create_fresh-Fresh push ids input at w =
      elim (Bool-cases (is_some (find_operation org key w.operations))) [
        | inl there ↦ rw (there, create_fresh) tt
        | inr absent ↦ rw (absent, create_fresh) (sell-Fresh push ids input at w)
      ]

  after_fresh-Recorded :
      (w : Shop) (r : Result (Shop × Sale))
      → Fresh org key seller hash r
      → Recorded org key seller hash (after_fresh org seller key hash w r)
  unfolding after_fresh
  after_fresh-Recorded w (ok (w', s)) fresh = fresh
  after_fresh-Recorded w (err e) fresh = elim (Bool-cases (is_duplicate e)) [
    | inr other ↦ rw other tt
    | inl duplicate ↦ elim (Option-cases (find_operation org key w.operations)) [
      | inl missing ↦ rw (duplicate, missing, after_fresh) tt
      | inr (winner, found) ↦
          rw (duplicate, found, after_fresh)
            (replayed-Recorded org key seller hash winner w (replay org winner seller hash w) found
              refl)
    ]
  ]

module _ (request_hash : NormalizedSaleInput → String) where
  create_keyed-Recorded :
      (during : Shop → Shop) (call : CreateCall) (key : String) (w : Shop)
      → Recorded call.organization_id key call.seller_id
          (request_hash call.input)
          (create_keyed request_hash during call key w)
  unfolding create_keyed
  create_keyed-Recorded during call key w =
      let org = call.organization_id in
      let hash = request_hash call.input in
      elim (Result-cases (resolve_occurred_at call.input.occurred_at call.now)) [
        | inl (e, refused) ↦ rw (refused, create_keyed) tt
        | inr (at, dated) ↦
            let trace : Idempotency = record { client_operation_id = key; request_hash = hash } in
            rw (dated, create_keyed)
              (after_fresh-Recorded org key call.seller_id hash (during w)
                (create_fresh call.push org call.ids call.input call.seller_id at (some trace)
                  (during w))
                (create_fresh-Fresh org key call.seller_id hash call.push call.ids call.input at
                  (during w)))
      ]

  create-Recorded :
      (during : Shop → Shop) (call : CreateCall) (key : String) (w : Shop)
      → call.client_operation_id ≡ some key
      → Recorded call.organization_id key call.seller_id
          (request_hash call.input)
          (create request_hash during call w)
  unfolding create
  create-Recorded during call key w keyed =
      let org = call.organization_id in
      let hash = request_hash call.input in
      elim (Option-cases (find_operation org key w.operations)) [
        | inr (o, found) ↦
            rw (keyed, found, create)
              (replayed-Recorded org key call.seller_id hash o w
                (replay org o call.seller_id hash w) found refl)
        | inl unknown ↦ elim (Bool-cases call.new_writes_allowed) [
          | inr inactive ↦ rw (keyed, unknown, inactive, create) tt
          | inl allowed ↦
              rw (keyed, unknown, allowed, create) (create_keyed-Recorded during call key w)
        ]
      ]

  -- A keyed sale that was answered is answered again with the same sale and without a write, at any
  -- later time, under any fresh identifiers, whatever commits meanwhile, and even when the
  -- subscription is no longer active.
  pub create-idempotent :
      (during later : Shop → Shop) (call : CreateCall) (key : String) (w w' : Shop) (sale : Sale)
      (ids : FreshIds) (now : ℕ) (allowed : Bool)
      → call.client_operation_id ≡ some key
      → create request_hash during call w ≡ (w', ok sale)
      → create request_hash later
          (record call { ids = ids; now = now; new_writes_allowed = allowed })
          w'
        ≡ (w', ok sale)
  unfolding create
  create-idempotent during later call key w w' sale ids now allowed keyed done =
      let (o, found, same) : Recorded call.organization_id key call.seller_id
          (request_hash call.input) (w', ok sale) =
        subst (Recorded call.organization_id key call.seller_id (request_hash call.input)) done
          (create-Recorded during call key w keyed) in
      rw (keyed, found, create) (ap (λ r. (w', r)) same)

  -- Without the right to new writes, as with an inactive subscription, a request writes nothing, on
  -- every outcome.
  pub create-inactive :
      (during : Shop → Shop) (call : CreateCall) (w : Shop)
      → call.new_writes_allowed ≡ false
      → (create request_hash during call w).0 ≡ w
  unfolding create
  create-inactive during call w inactive = elim (Option-cases call.client_operation_id) [
    | inl unkeyed ↦ rw (unkeyed, inactive, create) refl
    | inr (key, keyed) ↦
        elim (Option-cases (find_operation call.organization_id key w.operations)) [
          | inr (o, found) ↦ rw (keyed, found, create) refl
          | inl unknown ↦ rw (keyed, unknown, inactive, create) refl
        ]
  ]
