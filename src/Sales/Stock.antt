-- ===== src/Sales/Stock.antt =====
-- The conservation of stock by the operations of api/src/sales/sales.service.ts: what a product has
-- left and what its sales hold add up to the same number.
use royalvibe_cosmetic.Common.{
  ℕ, ◌+◌, ◌≡◌, refl, sym, ap, subst, ◌∙◌, String, true, false, Option, none, some, List, [], ◌∷◌,
  str_eq, if◌then◌else◌, arith, eq_iff, Bool-cases, inl, inr, All, total,
}
use royalvibe_cosmetic.Sales.Model.{
  Product, Sale, find_product, put_product, find_sale, put_sale, erase_sale,
}

abbrev pub quantity_of : String → Sale → ℕ
quantity_of pid s = if str_eq s.product_id pid then s.quantity else 0

abbrev pub left_of : Option Product → ℕ
left_of none = 0
left_of (some p) = p.remaining_quantity

-- A product is there, for one organization, its sales are that organization's, and the stock that is
-- left and the quantities sold make `n`.
pub record Balanced (org pid : String) (n : ℕ) (products : List Product) (sales : List Sale)
    : Type 0 where
  pub product : Product
  pub found : find_product pid products ≡ some product
  pub owner : product.organization_id ≡ org
  pub owned : All (λ s. str_eq s.product_id pid ≡ true → s.organization_id ≡ org) sales
  pub sum : product.remaining_quantity + total (quantity_of pid) sales ≡ n

pub find_product-id :
    (id : String) (ps : List Product) (p : Product) → find_product id ps ≡ some p → p.id ≡ id
unfolding find_product
find_product-id id [] p h = absurd (ground arith)
find_product-id id (q ∷ ps) p h = elim (Bool-cases (str_eq q.id id)) [
  | inl here ↦ ground (arith, eq_iff q.id id)
  | inr away ↦ find_product-id id ps p (ground arith)
]

pub find-put_product :
    (id : String) (q p : Product) (ps : List Product)
    → find_product id ps ≡ some p
    → find_product id (put_product q ps) ≡ (if str_eq q.id id then some q else some p)
unfolding find_product put_product
find-put_product id q p [] h = absurd (ground arith)
find-put_product id q p (r ∷ ps) h =
    let rest = find-put_product id q p ps in
    ground (arith, eq_iff q.id id, eq_iff r.id q.id, eq_iff r.id id)

pub find_sale-id : (id : String) (ss : List Sale) (s : Sale) → find_sale id ss ≡ some s → s.id ≡ id
unfolding find_sale
find_sale-id id [] p h = absurd (ground arith)
find_sale-id id (q ∷ ps) p h = elim (Bool-cases (str_eq q.id id)) [
  | inl here ↦ ground (arith, eq_iff q.id id)
  | inr away ↦ find_sale-id id ps p (ground arith)
]

pub total-erase_sale :
    (w : Sale → ℕ) (id : String) (ss : List Sale) (s : Sale)
    → find_sale id ss ≡ some s
    → total w ss ≡ w s + total w (erase_sale id ss)
unfolding find_sale erase_sale
total-erase_sale w id [] s h = absurd (ground arith)
total-erase_sale w id (t ∷ ss) s h = elim (Bool-cases (str_eq t.id id)) [
  | inl here ↦ let same : w t ≡ w s = ground arith in rw here (omega (arith, same))
  | inr away ↦ rw away (omega (arith, total-erase_sale w id ss s (ground arith)))
]

pub total-put_sale :
    (w : Sale → ℕ) (t : Sale) (ss : List Sale) (s : Sale)
    → find_sale t.id ss ≡ some s
    → total w (put_sale t ss) + w s ≡ w t + total w ss
unfolding find_sale put_sale
total-put_sale w t [] s h = absurd (ground arith)
total-put_sale w t (r ∷ ss) s h = elim (Bool-cases (str_eq r.id t.id)) [
  | inl here ↦ let same : w r ≡ w s = ground arith in rw here (omega (arith, same))
  | inr away ↦ rw away (omega (arith, total-put_sale w t ss s (ground arith)))
]

pub All-find_sale :
    (P : Sale → Type 0) (id : String) (ss : List Sale) (s : Sale)
    → All P ss
    → find_sale id ss ≡ some s
    → P s
unfolding find_sale
All-find_sale P id [] s a h = absurd (ground arith)
All-find_sale P id (t ∷ ss) s (p, a) h = elim (Bool-cases (str_eq t.id id)) [
  | inl here ↦ let same : t ≡ s = ground arith in subst P same p
  | inr away ↦ All-find_sale P id ss s a (ground arith)
]

pub All-erase_sale :
    (P : Sale → Type 0) (id : String) (ss : List Sale) → All P ss → All P (erase_sale id ss)
unfolding erase_sale
All-erase_sale P id [] a = tt
All-erase_sale P id (t ∷ ss) (p, a) = elim (Bool-cases (str_eq t.id id)) [
  | inl here ↦ rw here a
  | inr away ↦ rw away (p, All-erase_sale P id ss a)
]

pub All-put_sale :
    (P : Sale → Type 0) (t : Sale) (ss : List Sale) → P t → All P ss → All P (put_sale t ss)
unfolding put_sale
All-put_sale P t [] q a = tt
All-put_sale P t (r ∷ ss) q (p, a) = elim (Bool-cases (str_eq r.id t.id)) [
  | inl here ↦ rw here (q, a)
  | inr away ↦ rw away (p, All-put_sale P t ss q a)
]

-- One product of the organization is replaced: `out` pieces left it and `into` came back.
pub record Moved (org id : String) (out into : ℕ) (ps ps' : List Product) : Type 0 where
  pub before : Product
  pub after : Product
  pub found : find_product id ps ≡ some before
  pub same_id : after.id ≡ id
  pub owner_before : before.organization_id ≡ org
  pub owner_after : after.organization_id ≡ org
  pub moved : after.remaining_quantity + out ≡ before.remaining_quantity + into
  pub put : ps' ≡ put_product after ps

-- The collections after a change of a product and of the sales, when the sales changed by what moved.
pub Moved-Balanced :
    {org seller_org : String} (pid : String) {n : ℕ} (id : String) (out into : ℕ)
    {ps ps' : List Product} (ss ss' : List Sale)
    → Moved seller_org id out into ps ps'
    → Balanced org pid n ps ss
    → All (λ s. str_eq s.product_id pid ≡ true → s.organization_id ≡ org) ss'
    → total (quantity_of pid) ss' + (if str_eq id pid then into else 0)
      ≡ total (quantity_of pid) ss + (if str_eq id pid then out else 0)
    → Balanced org pid n ps' ss'
Moved-Balanced pid id out into ss ss' m b owned sums =
    let here = find-put_product pid m.after b.product _ b.found in
    elim (Bool-cases (str_eq id pid)) [
      | inl same ↦
          let held : m.before ≡ b.product = ground (arith, eq_iff id pid, m.found, b.found) in
          let hit : str_eq m.after.id pid ≡ true =
            ground (arith, eq_iff id pid, eq_iff m.after.id pid, m.same_id) in
          record {
            product = m.after;
            found = rw m.put (here ∙ rw hit refl);
            owner = m.owner_after ∙ sym m.owner_before ∙ ap Product.organization_id held ∙ b.owner;
            owned = owned;
            sum =
                let left = ap Product.remaining_quantity held in
                ground (arith, sums, m.moved, b.sum);
          }
      | inr other ↦
          let miss : str_eq m.after.id pid ≡ false =
            ground (arith, eq_iff id pid, eq_iff m.after.id pid, m.same_id) in
          record {
            product = b.product;
            found = rw m.put (here ∙ rw miss refl);
            owner = b.owner;
            owned = owned;
            sum = ground (arith, sums, b.sum);
          }
    ]

pub Moved-owner :
    {org seller_org : String} (pid : String) {n : ℕ} (id : String) (out into : ℕ)
    {ps ps' : List Product} (ss : List Sale)
    → Moved seller_org id out into ps ps'
    → Balanced org pid n ps ss
    → str_eq id pid ≡ true
    → seller_org ≡ org
Moved-owner pid id out into ss m b same =
    let held : m.before ≡ b.product = ground (arith, eq_iff id pid, m.found, b.found) in
    sym m.owner_before ∙ ap Product.organization_id held ∙ b.owner
