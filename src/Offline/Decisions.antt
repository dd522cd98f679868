-- ===== src/Offline/Decisions.antt =====
-- What an answer of the server makes of a sale of the outbox: web/src/lib/offline-sales-sync.ts.
use royalvibe_cosmetic.Common.{
  ℕ, ◌+◌, String, Bool, true, false, ◌&&◌, ◌||◌, not, Option, none, some, leb, ◌==◌, str_eq,
  if◌then◌else◌,
}
use royalvibe_cosmetic.Offline.Policy.{
  OutboxStatus, pending, LastError, ErrorKind, business, server, Outcome, success, Decision, synced,
  code_is, compute_retry_delay_ms, outbox_max_server_attempts,
}
use royalvibe_cosmetic.Offline.Outbox.{
  OutboxOperation, BlockReason, Blocked, Outbox, outbox_schema_version,
}
use royalvibe_cosmetic.Offline.Transactions.{Patch, keep}

pub record CapturedSession : Type 0 where
  pub token : String
  pub user_id : String
  pub organization_id : String
  pub partition_key : String

pub data StopReason : Type 0 where
  aborted token_changed auth access_denied subscription corruption lease_lost error : StopReason

pub data SyncPassResult : Type 0 where
  blocked : SyncPassResult
  completed : Option ℕ → SyncPassResult
  stopped : StopReason → Option ℕ → SyncPassResult
  -- The rounds given to the loop are used up; the code has no such result.
  unfinished : SyncPassResult

-- What the browser, the server and the other tabs do during one turn of the loop, in its order.
pub record Round : Type 0 where
  pub token : Option String
  pub aborted : Bool
  pub before_head : Outbox → Outbox
  pub now : ℕ
  pub before_sending : Outbox → Outbox
  pub token_at_sending : Option String
  pub aborted_at_sending : Bool
  pub before_answer : Outbox → Outbox
  pub outcome : Outcome
  pub answered_at : ℕ
  pub random : ℕ
  pub before_block : Outbox → Outbox
  pub token_after : Option String

abbrev pub is_token : String → Option String → Bool
is_token token none = false
is_token token (some current) = str_eq current token

unfoldable pub session_guard : String → Option String → Bool → Option StopReason
session_guard token current is_aborted =
    if not (is_token token current)
    then some token_changed
    else if is_aborted
    then some StopReason.aborted
    else none

unfoldable pub belongs_to_session : OutboxOperation → CapturedSession → Bool
belongs_to_session op s =
    op.schema_version == outbox_schema_version
    && (str_eq op.partition_key s.partition_key
        && (str_eq op.user_id s.user_id && str_eq op.organization_id s.organization_id))

unfoldable pub is_commercial_refusal_code : Option String → Bool
is_commercial_refusal_code code =
    code_is "SUBSCRIPTION_INACTIVE" code || code_is "SUBSCRIPTION_ACCESS_LIMITED" code

abbrev pub sale_id_of : Outcome → Option String
sale_id_of (success id) = some id
sale_id_of _ = none

abbrev pub is_server : ErrorKind → Bool
is_server server = true
is_server _ = false

-- The error that accompanies a sale that was recorded before.
abbrev pub recorded_error : Option String → Option LastError
recorded_error none = none
recorded_error (some code) =
    if str_eq code ""
    then none
    else some (record { kind = business; code = some code; http_status = some 409 })

abbrev pub with_error : OutboxStatus → LastError → Patch
with_error status failure = record (keep status) { last_error = some (some failure) }

abbrev pub non_zero : Option ℕ → Option ℕ
non_zero none = none
non_zero (some status) = if status == 0 then none else some status

-- What is written of the operation, the block that follows, and the end of the pass.
pub record Verdict : Type 0 where
  pub patch : Patch
  pub block : Option Blocked
  pub ends : Option SyncPassResult

abbrev pub verdict : Patch → Option SyncPassResult → Verdict
verdict patch ends = record { patch = patch; block = none; ends = ends }

-- After eight errors of the server the sale waits for the user, else the pass stops for a while.
unfoldable pub retry_verdict : ℕ → ℕ → ℕ → LastError → Option ℕ → Verdict
retry_verdict attempts now random failure retry_after =
    let due = now + compute_retry_delay_ms attempts retry_after random in
    if is_server failure.kind && leb outbox_max_server_attempts attempts
    then verdict
        (record (keep OutboxStatus.conflict) {
          attempts = some attempts;
          last_error = some (
              some (record {
                kind = server;
                code = some "SERVER_UNAVAILABLE";
                http_status = non_zero failure.http_status;
              }));
        })
        none
    else verdict
        (record (keep pending) {
          attempts = some attempts;
          next_attempt_at = some due;
          last_error = some (some failure);
        })
        (some (stopped error (some due)))

-- The cases of `applyDecision`
unfoldable pub decide : CapturedSession → OutboxOperation → Round → String → Decision → Verdict
unfolding retry_verdict is_commercial_refusal_code
decide s op r fingerprint (synced code) =
    verdict
      (record (keep OutboxStatus.synced) {
        last_error = some (recorded_error code);
        sale_id = sale_id_of r.outcome;
      })
      none
decide s op r fingerprint (Decision.conflict failure) =
    verdict (with_error OutboxStatus.conflict failure) none
decide s op r fingerprint (Decision.conflict_block failure) = record {
  patch = with_error OutboxStatus.conflict failure;
  block =
      some
        (record { reason = BlockReason.corruption; token_fingerprint = none; at = r.answered_at });
  ends = some (stopped StopReason.corruption none);
}
decide s op r fingerprint (Decision.retry failure retry_after) =
    retry_verdict (op.attempts + 1) r.answered_at r.random failure retry_after
decide s op r fingerprint (Decision.stop_auth failure) =
    verdict (with_error pending failure) (some (stopped StopReason.auth none))
decide s op r fingerprint (Decision.stop_block failure) =
    let commercial = is_commercial_refusal_code failure.code in
    record {
      patch = with_error pending failure;
      block = some (record {
        reason = if commercial then BlockReason.subscription else BlockReason.access_denied;
        token_fingerprint = some fingerprint;
        at = r.answered_at;
      });
      ends =
          some (
            stopped (if commercial then StopReason.subscription else StopReason.access_denied)
              none);
    }
decide s op r fingerprint Decision.aborted = verdict (keep pending) (
    some
      (stopped (if is_token s.token r.token_after then StopReason.aborted else token_changed) none))
