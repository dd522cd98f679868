-- ===== src/Sales/Balance.antt =====
-- The balance of a product: what it has left and what its sales hold, as the operations of
-- api/src/sales/sales.service.ts leave it.
use royalvibe_cosmetic.Common.{ℕ, ◌≡◌, refl, String, ◌⊎◌, inl, inr}
use royalvibe_cosmetic.Sales.Model.{Sale, Shop, SaleError, Result, ok, err}
use royalvibe_cosmetic.Sales.Service.{commit}
use royalvibe_cosmetic.Sales.Stock.{Balanced}

pub Result-cases {ℓ} :
    {A : Type ℓ} (r : Result A) → ((e : SaleError) × (r ≡ err e)) ⊎ ((a : A) × (r ≡ ok a))
Result-cases (ok a) = inr (a, refl)
Result-cases (err e) = inl (e, refl)

module _ (org pid : String) (n : ℕ) where
  abbrev pub IsBalanced : Shop → Type 0
  IsBalanced w = Balanced org pid n w.products w.sales

  abbrev pub Keeps {ℓ} : {T : Type ℓ} → Result (Shop × T) → Type 0
  Keeps (err e) = Unit
  Keeps (ok (w, _)) = IsBalanced w

  pub commit-IsBalanced :
      (w : Shop) (r : Result (Shop × Sale)) → IsBalanced w → Keeps r → IsBalanced (commit w r).0
  commit-IsBalanced w (err e) b k = b
  commit-IsBalanced w (ok (w', s)) b k = k
