-- ===== src/Offline/Turns.antt =====
-- One turn of the loop of web/src/lib/offline-sales-sync.ts when the other tabs leave the outbox alone.
use royalvibe_cosmetic.Common.{
  ℕ, ◌≡◌, ◌+◌, refl, sym, ap, subst, ◌∙◌, String, Bool, true, false, ◌&&◌, none, some, List, [],
  ◌∷◌, Bool-cases, Option-cases, inl, inr, filter, find, total, arith, str_eq, eq_iff, ltb, leb,
  or_else,
}
use royalvibe_cosmetic.Offline.Policy.{
  OutboxStatus, syncing, Decision, synced, classify_sale_sync_outcome, outbox_max_server_attempts,
}
use royalvibe_cosmetic.Offline.Outbox.{OutboxOperation, Outbox, find_operation, get_partition_ops}
use royalvibe_cosmetic.Offline.Transactions.{
  get_head_pending, is_pending, keep, patched, update_operation,
}
use royalvibe_cosmetic.Offline.Numbering.{IsOrdered}
use royalvibe_cosmetic.Offline.Rewritten.{partition-find}
use royalvibe_cosmetic.Offline.Trace.{Reach, here}
use royalvibe_cosmetic.Offline.Sync.{apply_decision, send, turn}
use royalvibe_cosmetic.Offline.Decisions.{
  CapturedSession, SyncPassResult, stopped, Round, Verdict, decide, retry_verdict, is_server,
  session_guard, belongs_to_session,
}
use royalvibe_cosmetic.Offline.SyncSteps.{AreSteps}
use royalvibe_cosmetic.Offline.Measure.{is_sendable, weight, update_operation-found}

-- The other tabs commit nothing during the turn.
pub record IsQuiet (r : Round) : Type 0 where
  pub head : (o : Outbox) → r.before_head o ≡ o
  pub sending : (o : Outbox) → r.before_sending o ≡ o
  pub answer : (o : Outbox) → r.before_answer o ≡ o
  pub block : (o : Outbox) → r.before_block o ≡ o

-- A decision after which the loop goes on finishes the operation, and blocks nothing.
pub record GoesOn (v : Verdict) : Type 0 where
  pub no_block : v.block ≡ none
  pub leaves : (status : OutboxStatus) → is_sendable (or_else v.patch.status status) ≡ false

decide-GoesOn :
    (s : CapturedSession) (op : OutboxOperation) (r : Round) (fingerprint : String) (d : Decision)
    → (decide s op r fingerprint d).ends ≡ none
    → GoesOn (decide s op r fingerprint d)
unfolding decide retry_verdict
decide-GoesOn s op r fingerprint (synced code) h = record { no_block = refl; leaves = λ t. refl }
decide-GoesOn s op r fingerprint (Decision.conflict failure) h = record {
  no_block = refl;
  leaves = λ t. refl;
}
decide-GoesOn s op r fingerprint (Decision.conflict_block failure) h = cc
decide-GoesOn s op r fingerprint (Decision.retry failure retry_after) h =
    elim (Bool-cases (is_server failure.kind && leb outbox_max_server_attempts (op.attempts + 1))) [
      | inl last ↦ rw last (record { no_block = refl; leaves = λ t. refl })
      | inr again ↦ ground arith
    ]
decide-GoesOn s op r fingerprint (Decision.stop_auth failure) h = cc
decide-GoesOn s op r fingerprint (Decision.stop_block failure) h = cc
decide-GoesOn s op r fingerprint Decision.aborted h = cc

abbrev pub is_stopped : SyncPassResult → Bool
is_stopped (stopped reason due) = true
is_stopped _ = false

pub decide-stops :
    (s : CapturedSession) (op : OutboxOperation) (r : Round) (fingerprint : String) (d : Decision)
    (result : SyncPassResult)
    → (decide s op r fingerprint d).ends ≡ some result
    → is_stopped result ≡ true
unfolding decide retry_verdict
decide-stops s op r fingerprint (synced code) result h = cc
decide-stops s op r fingerprint (Decision.conflict failure) result h = cc
decide-stops s op r fingerprint (Decision.conflict_block failure) result h = ground arith
decide-stops s op r fingerprint (Decision.retry failure retry_after) result h = ground arith
decide-stops s op r fingerprint (Decision.stop_auth failure) result h = ground arith
decide-stops s op r fingerprint (Decision.stop_block failure) result h = ground arith
decide-stops s op r fingerprint Decision.aborted result h = ground arith

-- The head of a partition is in it, and waits.
find-head :
    (key : String) (ops : List OutboxOperation) (op : OutboxOperation)
    → find (λ op. is_pending op.status) (filter (λ op. str_eq op.partition_key key) ops) ≡ some op
    → (op.partition_key ≡ key) × (is_pending op.status ≡ true)
find-head key [] op h = cc
find-head key (x ∷ xs) op h =
    elim (Bool-cases (str_eq x.partition_key key && is_pending x.status)) [
      | inl this ↦
          let same : x ≡ op = ground arith in
          (ground (arith, same, eq_iff x.partition_key key), ground (arith, same))
      | inr other ↦ find-head key xs op (ground arith)
    ]

pub absurd-ends {ℓ} : {A : Type ℓ} {result : SyncPassResult} → some result ≡ none → A
absurd-ends h = cc

-- To commit nothing is to commit no transaction.
pub quiet-AreSteps : (IsUser : String → Type 0) {r : Round} → IsQuiet r → AreSteps IsUser r
quiet-AreSteps IsUser quiet = record {
  head = λ o. subst (Reach IsUser o) (sym (quiet.head o)) here;
  sending = λ o. subst (Reach IsUser o) (sym (quiet.sending o)) here;
  answer = λ o. subst (Reach IsUser o) (sym (quiet.answer o)) here;
  block = λ o. subst (Reach IsUser o) (sym (quiet.block o)) here;
}

module _ (http_code : ℕ → String) (s : CapturedSession) (fingerprint : String) where
  abbrev pub weigh : Outbox → ℕ
  weigh o = total (weight s.partition_key) o.operations

  -- An operation in the course of its sending.
  apply_decision-weigh :
      (op p : OutboxOperation) (r : Round) (o : Outbox)
      → find_operation op.client_operation_id o.operations ≡ some p
      → p.partition_key ≡ s.partition_key
      → is_sendable p.status ≡ true
      → (apply_decision http_code s op r fingerprint o).0 ≡ none
      → weigh (apply_decision http_code s op r fingerprint o).1 + 1 ≡ weigh o
  unfolding apply_decision weight
  apply_decision-weigh op p r o found mine live h =
      let d = classify_sale_sync_outcome http_code r.outcome in
      let v = decide s op r fingerprint d in
      let on = decide-GoesOn s op r fingerprint d h in
      let written =
        update_operation-found op.client_operation_id s.partition_key v.patch r.answered_at o p
          found mine in
      let less = written.0 in
      let gone = on.leaves p.status in
      rw (apply_decision, on.no_block)
        (ground (arith, less, gone, eq_iff p.partition_key s.partition_key))

  send-weigh :
      (r : Round) (op : OutboxOperation) (o : Outbox)
      → IsQuiet r
      → find_operation op.client_operation_id o.operations ≡ some op
      → op.partition_key ≡ s.partition_key
      → is_pending op.status ≡ true
      → (send http_code s fingerprint r op o).ends ≡ none
      → weigh (send http_code s fingerprint r op o).outbox + 1 ≡ weigh o
  unfolding send weight apply_decision
  send-weigh r op o quiet found mine waits h =
      let id = op.client_operation_id in
      let marked = (update_operation id s.partition_key (keep syncing) r.now o).1 in
      let written =
        update_operation-found id s.partition_key (keep syncing) r.now o op found mine in
      let unchanged : r.before_answer
            (update_operation id s.partition_key (keep syncing) r.now (r.before_sending o)).1
          ≡ marked =
        quiet.answer _
        ∙ ap (λ x. (update_operation id s.partition_key (keep syncing) r.now x).1)
            (quiet.sending o) in
      elim (Option-cases (session_guard s.token r.token_at_sending r.aborted_at_sending)) [
        | inr (reason, late) ↦ ground arith
        | inl goes ↦
            let ends = (rw (send, goes) at h) in
            let less =
              apply_decision-weigh op (patched (keep syncing) r.now op) r marked written.1 mine refl
                ends in
            rw (send, goes, unchanged) (ground (arith, less, written.0))
      ]

  pub turn-weigh :
      (r : Round) (o : Outbox)
      → IsQuiet r
      → IsOrdered o.operations
      → (turn http_code s fingerprint r o).ends ≡ none
      → weigh (turn http_code s fingerprint r o).outbox + 1 ≡ weigh o
  unfolding turn get_head_pending get_partition_ops
  turn-weigh r o0 quiet ordered h =
      let o = r.before_head o0 in
      elim (Option-cases (session_guard s.token r.token r.aborted)) [
        | inr (reason, stops) ↦ absurd-ends (rw (turn, stops) at h)
        | inl goes ↦ elim (Option-cases (get_head_pending s.partition_key o)) [
          | inl empty ↦ absurd-ends (rw (turn, goes, empty) at h)
          | inr (op, first) ↦ elim (Bool-cases (belongs_to_session op s)) [
            | inr stranger ↦ absurd-ends (rw (turn, goes, first, stranger) at h)
            | inl mine ↦ elim (Bool-cases (ltb r.now op.next_attempt_at)) [
              | inl early ↦ absurd-ends (rw (turn, goes, first, mine, early) at h)
              | inr due ↦
                  let ends = (rw (turn, goes, first, mine, due) at h) in
                  let found =
                    partition-find s.partition_key (λ op. is_pending op.status) o.operations op
                      (subst (λ x. IsOrdered x.operations) (sym (quiet.head o0)) ordered) first in
                  let head = find-head s.partition_key o.operations op first in
                  rw (turn, goes, first, mine, due)
                    (send-weigh r op o quiet found head.0 head.1 ends ∙ ap weigh (quiet.head o0))
            ]
          ]
        ]
      ]
