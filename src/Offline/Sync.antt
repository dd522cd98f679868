-- ===== src/Offline/Sync.antt =====
-- A pass of the synchronization over one partition: web/src/lib/offline-sales-sync.ts.
use royalvibe_cosmetic.Common.{
  ℕ, String, Bool, true, false, not, Option, none, some, List, [], ◌∷◌, ltb, str_eq, if◌then◌else◌,
}
use royalvibe_cosmetic.Offline.Policy.{
  OutboxStatus, pending, syncing, ErrorKind, classify_sale_sync_outcome,
}
use royalvibe_cosmetic.Offline.Outbox.{OutboxOperation, BlockReason, Blocked, Outbox, get_meta_in}
use royalvibe_cosmetic.Offline.Transactions.{
  prepare_partition, get_head_pending, Patch, keep, update_operation, set_partition_blocked,
}
use royalvibe_cosmetic.Offline.Decisions.{
  CapturedSession, Round, StopReason, SyncPassResult, belongs_to_session, blocked, completed,
  decide, session_guard, stopped, unfinished, with_error,
}

abbrev pub block_after : String → (Outbox → Outbox) → Option Blocked → Outbox → Outbox
block_after key others none o = o
block_after key others (some block) o = set_partition_blocked key (some block) (others o)

unfoldable pub apply_decision :
    (ℕ → String)
    → CapturedSession
    → OutboxOperation
    → Round
    → String
    → Outbox
    → Option SyncPassResult × Outbox
unfolding decide
apply_decision http_code s op r fingerprint o =
    let v = decide s op r fingerprint (classify_sale_sync_outcome http_code r.outcome) in
    let updated = update_operation op.client_operation_id s.partition_key v.patch r.answered_at o in
    (v.ends, block_after s.partition_key r.before_block v.block updated.1)

-- A request to the server: the operation, the token that it bears and the one that was current
-- then, and the store in which the operation was the head.
pub record Sending : Type 0 where
  pub operation : OutboxOperation
  pub token : String
  pub current_token : Option String
  pub at : ℕ
  pub outbox : Outbox

pub record Turned : Type 0 where
  pub ends : Option SyncPassResult
  pub outbox : Outbox
  pub sent : Option Sending

abbrev pub turned : Option SyncPassResult → Outbox → Turned
turned ends o = record { ends = ends; outbox = o; sent = none }

abbrev pub mismatch_patch : Patch
mismatch_patch =
    with_error OutboxStatus.conflict
      (record { kind = ErrorKind.corruption; code = some "PARTITION_MISMATCH"; http_status = none })

-- An operation of another session stops the partition.
unfoldable pub quarantine : CapturedSession → OutboxOperation → Round → Outbox → Outbox
quarantine s op r o =
    set_partition_blocked s.partition_key
      (some (record { reason = BlockReason.corruption; token_fingerprint = none; at = r.now }))
      (r.before_block
        (update_operation op.client_operation_id op.partition_key mismatch_patch r.now o).1)

-- The head is marked, the session checked again, and the request made.
unfoldable pub send :
    (ℕ → String) → CapturedSession → String → Round → OutboxOperation → Outbox → Turned
unfolding apply_decision session_guard
send http_code s fingerprint r op o =
    let marked =
      (update_operation op.client_operation_id s.partition_key (keep syncing) r.now
        (r.before_sending o)).1 in
    elim (session_guard s.token r.token_at_sending r.aborted_at_sending) [
      | some reason ↦
          turned (some (stopped reason none))
            (update_operation op.client_operation_id s.partition_key (keep pending) r.answered_at
              (r.before_answer marked)).1
      | none ↦
          let answer = apply_decision http_code s op r fingerprint (r.before_answer marked) in
          record {
            ends = answer.0;
            outbox = answer.1;
            sent = some (record {
              operation = op;
              token = s.token;
              current_token = r.token_at_sending;
              at = r.now;
              outbox = o;
            });
          }
    ]

-- One turn of the loop of `processPartition`
unfoldable pub turn : (ℕ → String) → CapturedSession → String → Round → Outbox → Turned
unfolding send quarantine session_guard
turn http_code s fingerprint r o0 =
    let o = r.before_head o0 in
    elim (session_guard s.token r.token r.aborted) [
      | some reason ↦ turned (some (stopped reason none)) o0
      | none ↦ elim (get_head_pending s.partition_key o) [
        | none ↦ turned (some (completed none)) o
        | some op ↦
            if not (belongs_to_session op s)
            then turned (some (stopped StopReason.corruption none)) (quarantine s op r o)
            else if ltb r.now op.next_attempt_at
            then turned (some (completed (some op.next_attempt_at))) o
            else send http_code s fingerprint r op o
      ]
    ]

pub record Pass : Type 0 where
  pub result : SyncPassResult
  pub outbox : Outbox
  pub sent : List Sending

abbrev pub log : Option Sending → List Sending → List Sending
log none sent = sent
log (some sending) sent = sending ∷ sent

unfoldable pub process_loop : (ℕ → String) → CapturedSession → String → List Round → Outbox → Pass
unfolding turn
process_loop http_code s fingerprint [] o = record { result = unfinished; outbox = o; sent = [] }
process_loop http_code s fingerprint (r ∷ rs) o =
    let t = turn http_code s fingerprint r o in
    let rest = process_loop http_code s fingerprint rs t.outbox in
    elim t.ends [
      | some result ↦ record { result = result; outbox = t.outbox; sent = log t.sent [] }
      | none ↦ record rest { sent = log t.sent rest.sent }
    ]

abbrev pub is_fingerprint : String → Option String → Bool
is_fingerprint fingerprint none = false
is_fingerprint fingerprint (some other) = str_eq other fingerprint

-- The blocks that a new session does not lift
unfoldable pub stays_blocked : String → Blocked → Bool
stays_blocked fingerprint b = elim b.reason [
  | BlockReason.access_denied ↦ is_fingerprint fingerprint b.token_fingerprint
  | _ ↦ true
]

-- `before` is what the other tabs do before each of the accesses that precede the loop.
unfoldable pub process_partition :
    (ℕ → String) → CapturedSession → String → (ℕ → Outbox → Outbox) → ℕ → List Round → Outbox → Pass
unfolding process_loop stays_blocked
process_partition http_code s fingerprint before now rounds o0 =
    let o = before 0 o0 in
    let continue_from = (λ (o' : Outbox).
      process_loop http_code s fingerprint rounds
        (prepare_partition s.partition_key now (before 2 o'))) in
    elim (get_meta_in s.partition_key o.metas).blocked [
      | none ↦ continue_from o
      | some b ↦
          if stays_blocked fingerprint b
          then record { result = blocked; outbox = o; sent = [] }
          else continue_from (set_partition_blocked s.partition_key none (before 1 o))
    ]
