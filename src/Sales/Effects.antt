-- ===== src/Sales/Effects.antt =====
-- What a sale leaves besides itself, in api/src/sales/sales.service.ts: the audit entry and the push
-- event of a stock threshold.
use royalvibe_cosmetic.Common.{
  String, Bool, ◌&&◌, Option, none, some, List, ◌∷◌, ltb, ◌==◌, if◌then◌else◌,
}
use royalvibe_cosmetic.Sales.Model.{
  AuditAction, PushCategory, stock_depleted, stock_low, PushEvent, Shop, StockAdjustment,
  stock_low_crossed,
}

abbrev pub log : String → String → AuditAction → String → String → Shop → Shop
log org product_id action actor_id sale_id w = record w {
  audits =
      record {
        organization_id = org;
        product_id = product_id;
        action = action;
        actor_id = actor_id;
        sale_id = sale_id;
      }
      ∷ w.audits;
}

-- At most one event: the stock is used up, or it fell to the threshold.
unfoldable pub threshold_event : StockAdjustment → Option PushCategory
threshold_event stock =
    if ltb 0 stock.remaining_before && stock.remaining_after == 0
    then some stock_depleted
    else if ltb 0 stock.remaining_after
        && stock_low_crossed stock.initial_quantity stock.remaining_before stock.initial_quantity
            stock.remaining_after
    then some stock_low
    else none

abbrev pub add_event :
    String → String → String → Option PushCategory → List PushEvent → List PushEvent
add_event org product_id trigger none events = events
add_event org product_id trigger (some category) events =
    record {
      category = category;
      organization_id = org;
      product_id = product_id;
      trigger = trigger;
    }
    ∷ events

-- `push`: the module of the push events is there.
unfoldable pub record_stock_thresholds :
    Bool → String → String → StockAdjustment → String → Shop → Shop
unfolding threshold_event
record_stock_thresholds push org product_id stock trigger w = record w {
  events = add_event org product_id trigger (if push then threshold_event stock else none) w.events;
}
