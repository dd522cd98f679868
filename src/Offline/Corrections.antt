-- ===== src/Offline/Corrections.antt =====
-- How a sale of the outbox comes to be one that may be corrected: the changes that
-- web/src/lib/offline-sales-outbox-db.ts and offline-sales-sync.ts make to an operation, and the actions
-- of offline-sales-policy.ts.
use royalvibe_cosmetic.Common.{
  ℕ, ◌≡◌, String, Bool, true, false, ◌&&◌, ◌||◌, not, some, leb, ltb, ◌==◌, ◌⊎◌,
}
use royalvibe_cosmetic.Offline.Policy.{
  OutboxStatus, pending, syncing, Outcome, http, Decision, conflict, conflict_block, code_is,
  allowed_operation_actions, classify_sale_sync_outcome, is_pending_expired, is_corruption,
}
use royalvibe_cosmetic.Offline.Outbox.{OutboxOperation, policy_view}
use royalvibe_cosmetic.Offline.Transactions.{keep, patched, prepare_operation}
use royalvibe_cosmetic.Offline.Actions.{OperationAction, allows, acted, expedite}
use royalvibe_cosmetic.Offline.Decisions.{CapturedSession, Round, decide}
use royalvibe_cosmetic.Offline.Sync.{mismatch_patch}

abbrev pub may_edit : OutboxOperation → Bool
may_edit op = (allowed_operation_actions (policy_view op)).edit

-- The server answered that it did not record the sale under this key: no success, no error of its
-- own, no refusal of the session, and none of the answers on a key that it knows.
abbrev pub is_refusal : Outcome → Bool
is_refusal (http status code retry_after) =
    not (leb 200 status && ltb status 300)
    && (not (leb 500 status || (status == 429 || (status == 401 || status == 403)))
        && not (
            status == 409
            && (code_is "SALE_OPERATION_ALREADY_APPLIED" code
                || (code_is "IDEMPOTENCY_KEY_REUSED" code
                    || code_is "IDEMPOTENCY_KEY_CONFLICT" code))))
is_refusal _ = false

-- What the client makes of one operation, without a deletion.
pub data Change (op : OutboxOperation) : OutboxOperation → Type 0 where
  -- The operation is marked, sent, and the answer applied.
  answered :
      (http_code : ℕ → String) (s : CapturedSession) (r : Round) (fingerprint : String)
      {next : OutboxOperation}
      → patched
          (decide s op r fingerprint (classify_sale_sync_outcome http_code r.outcome)).patch
          r.answered_at
          (patched (keep syncing) r.now op)
        ≡ next
      → Change op next
  -- The mark, or its withdrawal.
  marked :
      (status : OutboxStatus) (now : ℕ) {next : OutboxOperation}
      → (status ≡ syncing) ⊎ (status ≡ pending)
      → patched (keep status) now op ≡ next
      → Change op next
  quarantined :
      (now : ℕ) {next : OutboxOperation} → patched mismatch_patch now op ≡ next → Change op next
  prepared :
      (now : ℕ) {next : OutboxOperation} → prepare_operation now op ≡ some next → Change op next
  chosen :
      (action : OperationAction) (now : ℕ) {next : OutboxOperation}
      → allows action (allowed_operation_actions (policy_view op)) ≡ true
      → acted action now op ≡ next
      → Change op next
  hastened :
      (key : String) (now : ℕ) {next : OutboxOperation}
      → expedite key now op ≡ next
      → Change op next

-- Why the operation may be corrected from then on.
abbrev pub Justified : {op next : OutboxOperation} → Change op next → Type 0
Justified {op} (answered http_code s r fingerprint e) = is_refusal r.outcome ≡ true
Justified {op} (prepared now e) = (op.attempts ≡ 0) × (is_pending_expired op.created_at now ≡ true)
Justified _ = ⊥

-- What the classification says of a decision that may be a conflict.
abbrev IsConflict : Decision → Bool → Type 0
IsConflict (conflict error) refusal = refusal ≡ true
IsConflict (conflict_block error) refusal = is_corruption error.kind ≡ true
IsConflict _ refusal = Unit

module _ (s : CapturedSession) (op : OutboxOperation) (r : Round) (fingerprint : String) where
  abbrev after : Decision → OutboxOperation
  after d =
      patched (decide s op r fingerprint d).patch r.answered_at (patched (keep syncing) r.now op)
