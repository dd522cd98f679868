-- ===== src/Sales/Tests.antt =====
-- Runs of the model of api/src/sales, and each theorem at an input that meets its hypotheses.
use royalvibe_cosmetic.Common.{◌≡◌, refl, String, true, false, none, some, [], ◌∷◌}
use royalvibe_cosmetic.Sales.Model.{
  Product, Sale, Shop, Result, ok, err, find_product, put_product, find_sale, put_sale, erase_sale,
  find_operation, decrement_stock, decrement_found, adjust_stock, adjust_found, insufficient_stock,
  stock_low_crossed, stock_low_reached, stock_depleted,
}
use royalvibe_cosmetic.Sales.Effects.{record_stock_thresholds, threshold_event}
use royalvibe_cosmetic.Sales.Service.{
  NormalizedSaleInput, CreateCall, commit, create, create_keyed, create_fresh, trace_operation,
  sell, record_sale, resolve_occurred_at, after_fresh,
}
use royalvibe_cosmetic.Sales.Edits.{update, remove}
use royalvibe_cosmetic.Sales.Balance.{IsBalanced}
use royalvibe_cosmetic.Sales.Creation.{create-IsBalanced}
use royalvibe_cosmetic.Sales.Changes.{update-IsBalanced, remove-IsBalanced}
use royalvibe_cosmetic.Sales.Replay.{create-idempotent, create-inactive}

abbrev cream : Product
cream = record {
  id = "p";
  organization_id = "o";
  name = "cream";
  initial_quantity = 10;
  remaining_quantity = 10;
  trashed = false;
}

abbrev shop : Shop
shop = record { products = cream ∷ []; sales = []; operations = []; audits = []; events = [] }

shop-IsBalanced : IsBalanced "o" "p" 10 shop
unfolding find_product
shop-IsBalanced = record { product = cream; found = refl; owner = refl; owned = tt; sum = refl }

abbrev digest : NormalizedSaleInput → String
digest input = input.product_id

abbrev call : CreateCall
call = record {
  push = true;
  new_writes_allowed = true;
  organization_id = "o";
  ids = record { sale_id = "s"; default_id = "d" };
  input = record {
    product_id = "p";
    quantity = 10;
    sale_price = 5;
    buyer_name = none;
    buyer_contact = none;
    occurred_at = none;
  };
  client_operation_id = some "k";
  seller_id = "u";
  now = 7;
}

abbrev quiet : Shop → Shop
quiet w = w

abbrev sale : Sale
sale = record {
  id = "s";
  organization_id = "o";
  product_id = "p";
  quantity = 10;
  sale_price = 5;
  seller_id = "u";
  product_name = "cream";
  occurred_at = 7;
  buyer_name = none;
  buyer_contact = none;
}

abbrev sold_out : Shop
sold_out = record {
  products = record cream { remaining_quantity = 0 } ∷ [];
  sales = sale ∷ [];
  operations =
      record {
        organization_id = "o";
        client_operation_id = "k";
        seller_id = "u";
        sale_id = "s";
        request_hash = "p";
      }
      ∷ [];
  audits =
      record {
        organization_id = "o";
        product_id = "p";
        action = royalvibe_cosmetic.Sales.Model.sold;
        actor_id = "u";
        sale_id = "s";
      }
      ∷ [];
  events =
      record {
        category = royalvibe_cosmetic.Sales.Model.sale_created;
        organization_id = "o";
        product_id = "p";
        trigger = "s";
      }
      ∷ record {
        category = stock_depleted;
        organization_id = "o";
        product_id = "p";
        trigger = "sale:s";
      }
      ∷ [];
}

sells : create digest quiet call shop ≡ (sold_out, ok sale)
unfolding create create_keyed create_fresh trace_operation sell record_sale record_stock_thresholds
    threshold_event resolve_occurred_at after_fresh decrement_stock decrement_found find_product
    put_product find_operation stock_low_crossed stock_low_reached
sells = refl

create-IsBalanced_example : IsBalanced "o" "p" 10 (create digest quiet call shop).0
create-IsBalanced_example =
    create-IsBalanced "o" "p" 10 digest quiet (λ v b. b) call shop shop-IsBalanced

sold_out-IsBalanced : IsBalanced "o" "p" 10 sold_out
unfolding find_product
sold_out-IsBalanced = record {
  product = record cream { remaining_quantity = 0 };
  found = refl;
  owner = refl;
  owned = (λ h. refl, tt);
  sum = refl;
}

update-IsBalanced_example :
    IsBalanced "o" "p" 10
      (commit sold_out (update true "o" "s" "x" (some 4) none "u" none sold_out)).0
update-IsBalanced_example =
    update-IsBalanced "o" "p" 10 true "o" "s" "x" (some 4) none "u" none sold_out
      sold_out-IsBalanced

remove-IsBalanced_example :
    IsBalanced "o" "p" 10 (commit sold_out (remove "o" "s" "u" none sold_out)).0
remove-IsBalanced_example =
    remove-IsBalanced "o" "p" 10 "o" "s" "u" none sold_out sold_out-IsBalanced

create-idempotent_example :
    create digest quiet
      (record call {
        ids = record { sale_id = "t"; default_id = "e" };
        now = 9;
        new_writes_allowed = false;
      })
      sold_out
    ≡ (sold_out, ok sale)
create-idempotent_example =
    create-idempotent digest quiet quiet call "k" shop sold_out sale
      (record { sale_id = "t"; default_id = "e" }) 9 false refl sells

create-inactive_example :
    (create digest quiet (record call { new_writes_allowed = false }) shop).0 ≡ shop
create-inactive_example =
    create-inactive digest quiet (record call { new_writes_allowed = false }) shop refl
