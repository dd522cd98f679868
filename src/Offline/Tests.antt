-- ===== src/Offline/Tests.antt =====
-- Runs of the model of web/src/lib/offline-sales-policy.ts, and each theorem at an input that meets
-- its hypotheses.
use royalvibe_cosmetic.Common.{◌≤◌, ◌≡◌, refl, true, none, some, arith}
use royalvibe_cosmetic.Offline.Policy.{
  business, LastError, classify_http, business_code, conflict_actions, compute_retry_delay_ms,
  compute_backoff_ms, clamp_delay,
}
use royalvibe_cosmetic.Offline.Safety.{classify_http-edit, compute_retry_delay_ms-bounds}

abbrev shortage : LastError
shortage = record { kind = business; code = some "INSUFFICIENT_STOCK"; http_status = some 400 }

classify_http-edit_example : (conflict_actions 3 (some shortage)).edit ≡ true
unfolding classify_http business_code
classify_http-edit_example =
    classify_http-edit (λ _. "HTTP") 400 (some "INSUFFICIENT_STOCK") none 3 shortage refl
      (omega arith) refl refl

-- The second repetition waits twice as long as the first.
second_delay : compute_retry_delay_ms 2 none 500 ≡ 4000
unfolding compute_retry_delay_ms compute_backoff_ms clamp_delay
second_delay = refl

compute_retry_delay_ms-bounds_example :
    (2000 ≤ compute_retry_delay_ms 30 (some 60000) 500)
    × (compute_retry_delay_ms 30 (some 60000) 500 ≤ 300000)
    × (60000 ≤ compute_retry_delay_ms 30 (some 60000) 500)
compute_retry_delay_ms-bounds_example = compute_retry_delay_ms-bounds 30 500 (some 60000)
