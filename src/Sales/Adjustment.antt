-- ===== src/Sales/Adjustment.antt =====
-- What decrementStock and adjustStock of api/src/products/products.service.ts do to the balance.
use royalvibe_cosmetic.Common.{
  ℕ, ◌+◌, ◌-◌, ◌≡◌, refl, sym, ap, ◌∙◌, String, true, false, ◌&&◌, not, Option, none, some, List,
  leb, ltb, str_eq, if◌then◌else◌, arith, eq_iff, Bool-cases, Option-cases, inl, inr, All, total,
}
use royalvibe_cosmetic.Common.Int.{ℤ, sub_ℕ, pos_part, neg_part}
use royalvibe_cosmetic.Sales.Model.{
  Product, Sale, Shop, Result, ok, err, find_product, StockAdjustment, decrement_stock,
  decrement_found, adjust_stock, adjust_found,
}
use royalvibe_cosmetic.Sales.Stock.{Balanced, Moved, Moved-Balanced, quantity_of, find_product-id}

-- What an operation on the stock did, where it answered.
abbrev pub Takes {ℓ} : {T : Type ℓ} → String → String → ℕ → ℕ → Shop → Result (Shop × T) → Type 0
Takes org id out into w (err e) = Unit
Takes org id out into w (ok (w', _)) =
    (w'.sales ≡ w.sales) × Moved org id out into w.products w'.products

decrement_found-Takes :
    (org id : String) (quantity : ℕ) (p : Product) (w : Shop)
    → find_product id w.products ≡ some p
    → Takes org id quantity 0 w (decrement_found org quantity p w)
unfolding decrement_found
decrement_found-Takes org id quantity p w found =
    elim (Bool-cases (str_eq p.organization_id org && not p.trashed)) [
      | inr foreign ↦ rw (foreign, decrement_found) tt
      | inl active ↦ elim (Bool-cases (leb quantity p.remaining_quantity)) [
        | inr short ↦ rw (active, short, decrement_found) tt
        | inl enough ↦
            let mine : p.organization_id ≡ org = ground (arith, eq_iff p.organization_id org) in
            rw (active, enough, decrement_found)
              (
                refl,
                record {
                  before = p;
                  after = record p { remaining_quantity = p.remaining_quantity - quantity };
                  found = found;
                  same_id = find_product-id id w.products p found;
                  owner_before = mine;
                  owner_after = mine;
                  moved = ground arith;
                  put = refl;
                },
              )
      ]
    ]

pub decrement_stock-Takes :
    (org id : String) (quantity : ℕ) (w : Shop)
    → Takes org id quantity 0 w (decrement_stock org id quantity w)
unfolding decrement_stock
decrement_stock-Takes org id quantity w = elim (Option-cases (find_product id w.products)) [
  | inl absent ↦ rw (absent, decrement_stock) tt
  | inr (p, found) ↦ rw (found, decrement_stock) (decrement_found-Takes org id quantity p w found)
]

adjust_found-Takes :
    (org id : String) (out into : ℕ) (p : Product) (w : Shop)
    → find_product id w.products ≡ some p
    → p.organization_id ≡ org
    → Takes org id out into w (adjust_found org (sub_ℕ into out) p w)
unfolding adjust_found
adjust_found-Takes org id out into p w found mine =
    let delta = sub_ℕ into out in
    let same : str_eq p.organization_id org ≡ true = ground (arith, eq_iff p.organization_id org) in
    elim (Bool-cases (ltb (p.remaining_quantity + pos_part delta) (neg_part delta))) [
      | inl short ↦ rw (same, short, adjust_found) tt
      | inr enough ↦
          rw (same, enough, adjust_found)
            (
              refl,
              record {
                before = p;
                after = record p {
                  remaining_quantity = p.remaining_quantity + pos_part delta - neg_part delta;
                };
                found = found;
                same_id = find_product-id id w.products p found;
                owner_before = mine;
                owner_after = mine;
                moved = ground arith;
                put = refl;
              },
            )
    ]

pub adjust_stock-Takes :
    (org id : String) (out into : ℕ) (w : Shop) (p : Product)
    → find_product id w.products ≡ some p
    → p.organization_id ≡ org
    → Takes org id out into w (adjust_stock org id (sub_ℕ into out) w)
unfolding adjust_stock
adjust_stock-Takes org id out into w p found mine =
    rw (found, adjust_stock) (adjust_found-Takes org id out into p w found mine)

adjust_found-foreign :
    (org : String) (delta : ℤ) (p : Product) (w : Shop)
    → str_eq p.organization_id org ≡ false
    → adjust_found org delta p w ≡ ok (w, none)
unfolding adjust_found
adjust_found-foreign org delta p w foreign = rw (foreign, adjust_found) refl

-- A change of the sales that moved nothing of this product.
unmoved-Balanced :
    {org : String} (pid : String) {n : ℕ} (id : String) (out into : ℕ) {ps : List Product}
    (ss ss' : List Sale)
    → Balanced org pid n ps ss
    → str_eq id pid ≡ false
    → All (λ s. str_eq s.product_id pid ≡ true → s.organization_id ≡ org) ss'
    → total (quantity_of pid) ss' + (if str_eq id pid then into else 0)
      ≡ total (quantity_of pid) ss + (if str_eq id pid then out else 0)
    → Balanced org pid n ps ss'
unmoved-Balanced pid id out into ss ss' b other owned sums = record {
  product = b.product;
  found = b.found;
  owner = b.owner;
  owned = owned;
  sum = ground (arith, sums, b.sum);
}

-- A product of another organization is another product.
foreign-other :
    {org : String} (pid : String) {n : ℕ} (o id : String) (p : Product) {ps : List Product}
    (ss : List Sale)
    → Balanced org pid n ps ss
    → find_product id ps ≡ some p
    → (str_eq id pid ≡ true → o ≡ org)
    → str_eq p.organization_id o ≡ false
    → str_eq id pid ≡ false
foreign-other pid o id p ss b found mine foreign = elim (Bool-cases (str_eq id pid)) [
  | inr other ↦ other
  | inl same ↦
      let held : p ≡ b.product = ground (arith, eq_iff id pid, found, b.found) in
      let owner : p.organization_id ≡ o =
        ap Product.organization_id held ∙ b.owner ∙ sym (mine same) in
      absurd (ground (arith, eq_iff p.organization_id o))
]

module _ (org pid : String) (n : ℕ) where
  -- Where the adjustment answers, the sales it found stand beside the new stock in balance.
  abbrev pub Adjusts : Shop → List Sale → Result (Shop × Option StockAdjustment) → Type 0
  Adjusts w ss' (err e) = Unit
  Adjusts w ss' (ok (w', _)) = (w'.sales ≡ w.sales) × Balanced org pid n w'.products ss'

  Takes-Adjusts :
      (o id : String) (out into : ℕ) (w : Shop) (ss' : List Sale)
      (r : Result (Shop × Option StockAdjustment))
      → Balanced org pid n w.products w.sales
      → All (λ s. str_eq s.product_id pid ≡ true → s.organization_id ≡ org) ss'
      → total (quantity_of pid) ss' + (if str_eq id pid then into else 0)
        ≡ total (quantity_of pid) w.sales + (if str_eq id pid then out else 0)
      → Takes o id out into w r
      → Adjusts w ss' r
  Takes-Adjusts o id out into w ss' (err e) b owned sums t = tt
  Takes-Adjusts o id out into w ss' (ok (w', a)) b owned sums (sales_same, moved) =
      (sales_same, Moved-Balanced pid id out into w.sales ss' moved b owned sums)

  pub adjust_stock-Adjusts :
      (o id : String) (out into : ℕ) (w : Shop) (ss' : List Sale)
      → (str_eq id pid ≡ true → o ≡ org)
      → Balanced org pid n w.products w.sales
      → All (λ s. str_eq s.product_id pid ≡ true → s.organization_id ≡ org) ss'
      → total (quantity_of pid) ss' + (if str_eq id pid then into else 0)
        ≡ total (quantity_of pid) w.sales + (if str_eq id pid then out else 0)
      → Adjusts w ss' (adjust_stock o id (sub_ℕ into out) w)
  unfolding adjust_stock
  adjust_stock-Adjusts o id out into w ss' mine b owned sums =
      elim (Option-cases (find_product id w.products)) [
        | inl absent ↦
            let other : str_eq id pid ≡ false = ground (arith, eq_iff id pid, b.found) in
            rw (absent, adjust_stock)
              (refl, unmoved-Balanced pid id out into w.sales ss' b other owned sums)
        | inr (p, found) ↦ elim (Bool-cases (str_eq p.organization_id o)) [
          | inl same ↦
              Takes-Adjusts o id out into w ss' (adjust_stock o id (sub_ℕ into out) w) b owned sums
                (adjust_stock-Takes o id out into w p found
                  (ground (arith, eq_iff p.organization_id o)))
          | inr foreign ↦
              let other : str_eq id pid ≡ false =
                foreign-other pid o id p w.sales b found mine foreign in
              rw (found, adjust_found-foreign o (sub_ℕ into out) p w foreign, adjust_stock)
                (refl, unmoved-Balanced pid id out into w.sales ss' b other owned sums)
        ]
      ]
