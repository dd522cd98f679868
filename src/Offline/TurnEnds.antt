-- ===== src/Offline/TurnEnds.antt =====
-- How a turn of the loop of web/src/lib/offline-sales-sync.ts ends a pass.
use royalvibe_cosmetic.Common.{
  ℕ, ◌≡◌, ◌≢◌, String, true, none, some, List, Bool-cases, Option-cases, inl, inr, arith, ltb,
}
use royalvibe_cosmetic.Offline.Policy.{classify_sale_sync_outcome}
use royalvibe_cosmetic.Offline.Outbox.{OutboxOperation, Outbox, get_partition_ops}
use royalvibe_cosmetic.Offline.Transactions.{get_head_pending}
use royalvibe_cosmetic.Offline.Sync.{apply_decision, send, turn, Sending, Pass}
use royalvibe_cosmetic.Offline.Decisions.{
  CapturedSession, SyncPassResult, completed, unfinished, Round, session_guard, belongs_to_session,
}
use royalvibe_cosmetic.Offline.Turns.{decide-stops, is_stopped}

module _ (http_code : ℕ → String) (s : CapturedSession) (fingerprint : String) where
  -- What the end of the loop says of the outbox.
  pub record IsOver (p : Pass) : Type 0 where
    pub ends : p.result ≢ unfinished
    pub is_drained : p.result ≡ completed none → get_head_pending s.partition_key p.outbox ≡ none

  stopped-IsOver :
      (result : SyncPassResult) (o : Outbox) (sent : List Sending)
      → is_stopped result ≡ true
      → IsOver (record { result = result; outbox = o; sent = sent })
  stopped-IsOver result o sent h = record {
    ends = λ x. ground (arith, h, x);
    is_drained = λ x. ground (arith, h, x);
  }

  send-stops :
      (r : Round) (op : OutboxOperation) (o : Outbox) (result : SyncPassResult)
      → (send http_code s fingerprint r op o).ends ≡ some result
      → is_stopped result ≡ true
  unfolding send apply_decision
  send-stops r op o result h =
      elim (Option-cases (session_guard s.token r.token_at_sending r.aborted_at_sending)) [
        | inr (reason, late) ↦ ground (arith, rw (send, late) at h)
        | inl goes ↦
            decide-stops s op r fingerprint (classify_sale_sync_outcome http_code r.outcome) result
              (rw (send, goes) at h)
      ]

  pub turn-IsOver :
      (r : Round) (o : Outbox) (result : SyncPassResult)
      → (turn http_code s fingerprint r o).ends ≡ some result
      → (sent : List Sending)
      → IsOver (record {
        result = result;
        outbox = (turn http_code s fingerprint r o).outbox;
        sent = sent;
      })
  unfolding turn get_head_pending get_partition_ops
  turn-IsOver r o0 result h sent =
      let o = r.before_head o0 in
      elim (Option-cases (session_guard s.token r.token r.aborted)) [
        | inr (reason, stops) ↦ stopped-IsOver result _ sent (ground (arith, rw (turn, stops) at h))
        | inl goes ↦ elim (Option-cases (get_head_pending s.partition_key o)) [
          | inl empty ↦
              let e = (rw (turn, goes, empty) at h) in
              rw (turn, goes, empty)
                (record { ends = λ x. ground (arith, e); is_drained = λ x. empty })
          | inr (op, first) ↦ elim (Bool-cases (belongs_to_session op s)) [
            | inr stranger ↦
                stopped-IsOver result _ sent (ground (arith, rw (turn, goes, first, stranger) at h))
            | inl mine ↦ elim (Bool-cases (ltb r.now op.next_attempt_at)) [
              | inl early ↦
                  let e = (rw (turn, goes, first, mine, early) at h) in
                  record { ends = λ x. ground (arith, e); is_drained = λ x. ground (arith, e) }
              | inr due ↦
                  stopped-IsOver result _ sent
                    (send-stops r op o result (rw (turn, goes, first, mine, due) at h))
            ]
          ]
        ]
      ]
