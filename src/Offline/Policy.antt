-- ===== src/Offline/Policy.antt =====
-- The pure policy of the offline sales: web/src/lib/offline-sales-policy.ts.
use royalvibe_cosmetic.Common.{
  ℕ, ◌+◌, ◌-◌, ◌*◌, ◌/◌, ◌^◌, String, Bool, true, false, ◌&&◌, ◌||◌, Option, none, some, List,
  filter, total, or_else, leb, ltb, ◌==◌, str_eq, if◌then◌else◌, min, max,
}

pub data OutboxStatus : Type 0 where
  pending syncing synced conflict abandoned : OutboxStatus

pub data ErrorKind : Type 0 where
  network server business auth corruption : ErrorKind

pub record LastError : Type 0 where
  pub kind : ErrorKind
  pub code : Option String
  pub http_status : Option ℕ

pub data Outcome : Type 0 where
  success : String → Outcome
  network aborted : Outcome
  http : ℕ → Option String → Option ℕ → Outcome

pub data Decision : Type 0 where
  synced : Option String → Decision
  conflict conflict_block stop_auth stop_block : LastError → Decision
  retry : LastError → Option ℕ → Decision
  aborted : Decision

abbrev pub unfinalized : OutboxStatus → Bool
unfinalized pending = true
unfinalized syncing = true
unfinalized OutboxStatus.conflict = true
unfinalized _ = false

abbrev pub code_is : String → Option String → Bool
code_is text none = false
code_is text (some code) = str_eq code text

abbrev error_of : ErrorKind → ℕ → Option String → LastError
error_of kind status code = record { kind = kind; code = code; http_status = some status }

-- `code ?? (status === 400 ? "VALIDATION_FAILED" : …)`; the digits of a status are any text.
unfoldable pub business_code : (ℕ → String) → ℕ → Option String → String
business_code http_code status code =
    or_else code (if status == 400 then "VALIDATION_FAILED" else http_code status)

unfoldable pub classify_http : (ℕ → String) → ℕ → Option String → Option ℕ → Decision
unfolding business_code
classify_http http_code status code retry_after =
    if leb 200 status && ltb status 300
    then synced none
    else if status == 401
    then stop_auth (error_of auth 401 none)
    else if status == 403
    then stop_block (error_of auth 403 (if code_is "" code then none else code))
    else if status == 409 && code_is "SALE_OPERATION_ALREADY_APPLIED" code
    then synced code
    else if status == 409
        && (code_is "IDEMPOTENCY_KEY_REUSED" code || code_is "IDEMPOTENCY_KEY_CONFLICT" code)
    then conflict_block (error_of corruption 409 code)
    else if status == 429 || leb 500 status
    then retry (error_of server status none) retry_after
    else conflict (error_of business status (some (business_code http_code status code)))

unfoldable pub classify_sale_sync_outcome : (ℕ → String) → Outcome → Decision
unfolding classify_http
classify_sale_sync_outcome http_code (success _) = synced none
classify_sale_sync_outcome http_code Outcome.aborted = Decision.aborted
classify_sale_sync_outcome http_code Outcome.network =
    retry (record { kind = network; code = none; http_status = none }) none
classify_sale_sync_outcome http_code (http status code retry_after) =
    classify_http http_code status code retry_after

abbrev pub backoff_min_ms : ℕ
backoff_min_ms = 2000

abbrev pub backoff_max_ms : ℕ
backoff_max_ms = 300000

-- `Math.round` of `num / den` within the two bounds, which are whole.
unfoldable pub clamp_delay : ℕ → ℕ → ℕ
clamp_delay num den = min backoff_max_ms (max backoff_min_ms ((2 * num + den) / (2 * den)))

-- `random()` is given in thousandths: the factor is (2000 + random) / 2500, from 0.8 to 1.2.
unfoldable pub compute_backoff_ms : ℕ → ℕ → ℕ
unfolding clamp_delay
compute_backoff_ms attempts random =
    let exponent = min (attempts - 1) 20 in
    let base = min backoff_max_ms (backoff_min_ms * 2 ^ exponent) in
    clamp_delay (base * (2000 + random)) 2500

unfoldable pub compute_retry_delay_ms : ℕ → Option ℕ → ℕ → ℕ
unfolding compute_backoff_ms clamp_delay
compute_retry_delay_ms attempts retry_after random =
    clamp_delay (max (compute_backoff_ms attempts random) (or_else retry_after 0)) 1

abbrev pub pending_max_age_ms : ℕ
pending_max_age_ms = 14 * 24 * 60 * 60 * 1000

unfoldable pub is_pending_expired : ℕ → ℕ → Bool
is_pending_expired created_at now = ltb (created_at + pending_max_age_ms) now

abbrev pub synced_retention_ms : ℕ
synced_retention_ms = 7 * 24 * 60 * 60 * 1000

unfoldable pub is_synced_purgeable : ℕ → ℕ → Bool
is_synced_purgeable synced_at now = ltb (synced_at + synced_retention_ms) now

abbrev pub outbox_max_server_attempts : ℕ
outbox_max_server_attempts = 8

abbrev pub outbox_max_unfinalized_per_partition : ℕ
outbox_max_unfinalized_per_partition = 200

-- A sale that waits in the outbox, as the policy sees it.
pub record Operation : Type 0 where
  pub status : OutboxStatus
  pub attempts : ℕ
  pub last_error : Option LastError
  pub updated_at : ℕ
  pub product_id : String
  pub quantity : ℕ

pub record AllowedActions : Type 0 where
  pub sync_now : Bool
  pub edit : Bool
  pub retry : Bool
  pub abandon : Bool
  pub remove_corrupted : Bool
  pub may_be_recorded : Bool

abbrev pub no_action : AllowedActions
no_action = record {
  sync_now = false;
  edit = false;
  retry = false;
  abandon = false;
  remove_corrupted = false;
  may_be_recorded = false;
}

unfoldable pub is_definitive : Option String → Bool
is_definitive code =
    code_is "INSUFFICIENT_STOCK" code
    || (code_is "SALE_DATE_OUT_OF_RANGE" code
        || (code_is "PRODUCT_NOT_FOUND" code || code_is "VALIDATION_FAILED" code))

abbrev pub refused : Option ℕ → Bool
refused none = false
refused (some status) = leb 400 status && ltb status 500

abbrev pub is_corruption : ErrorKind → Bool
is_corruption corruption = true
is_corruption _ = false

abbrev pub is_business : ErrorKind → Bool
is_business business = true
is_business _ = false

-- The actions of a conflict, by its error and its attempts.
unfoldable pub conflict_actions : ℕ → Option LastError → AllowedActions
unfolding is_definitive
conflict_actions attempts none = record no_action {
  abandon = true;
  may_be_recorded = ltb 0 attempts;
}
conflict_actions attempts (some error) =
    if is_corruption error.kind
    then record no_action { remove_corrupted = true; may_be_recorded = true }
    else if code_is "SERVER_UNAVAILABLE" error.code
    then record no_action { retry = true; abandon = true; may_be_recorded = true }
    else if code_is "EXPIRED" error.code
    then (if attempts == 0
        then record no_action { edit = true; abandon = true }
        else record no_action { abandon = true; may_be_recorded = true })
    else if is_business error.kind && (is_definitive error.code || refused error.http_status)
    then record no_action { edit = true; abandon = true }
    else record no_action { abandon = true; may_be_recorded = ltb 0 attempts }

unfoldable pub allowed_operation_actions : Operation → AllowedActions
unfolding conflict_actions
allowed_operation_actions op = elim op.status [
  | pending ↦ record no_action { sync_now = true }
  | OutboxStatus.conflict ↦ conflict_actions op.attempts op.last_error
  | _ ↦ no_action
]

abbrev code_of : Option LastError → Option String
code_of none = none
code_of (some error) = error.code

abbrev loaded_before : Option ℕ → ℕ → Bool
loaded_before none updated_at = true
loaded_before (some loaded_at) updated_at = ltb loaded_at updated_at

unfoldable pub reserves_stock : Option ℕ → Operation → Bool
unfolding allowed_operation_actions
reserves_stock loaded_at op = elim op.status [
  | pending ↦ true
  | syncing ↦ true
  | OutboxStatus.conflict ↦ (allowed_operation_actions op).may_be_recorded
  | OutboxStatus.synced ↦
      if code_is "SALE_OPERATION_ALREADY_APPLIED" (code_of op.last_error)
      then false
      else loaded_before loaded_at op.updated_at
  | abandoned ↦ false
]

pub record IndicativeStock : Type 0 where
  pub value : ℕ
  pub reserved : ℕ

unfoldable pub compute_indicative_stock : ℕ → List Operation → String → Option ℕ → IndicativeStock
unfolding reserves_stock
compute_indicative_stock remaining operations product_id loaded_at =
    let reserved =
      total (λ op. op.quantity)
        (filter (λ op. str_eq op.product_id product_id && reserves_stock loaded_at op)
          operations) in
    record { value = remaining - reserved; reserved = reserved }
