-- ===== src/Offline/SyncSteps.antt =====
-- A pass of web/src/lib/offline-sales-sync.ts is a sequence of transactions, whatever the other tabs
-- commit between its own.
use royalvibe_cosmetic.Common.{
  ℕ, refl, String, Option, none, some, List, [], ◌∷◌, Bool-cases, Option-cases, inl, inr, ltb, All,
}
use royalvibe_cosmetic.Offline.Outbox.{OutboxOperation, Outbox, Blocked, get_meta_in}
use royalvibe_cosmetic.Offline.Policy.{pending, syncing}
use royalvibe_cosmetic.Offline.Transactions.{
  prepare_partition, get_head_pending, keep, update_operation,
}
use royalvibe_cosmetic.Offline.Trace.{Reach, here, next, Reach-trans, preparing, updating, blocking}
use royalvibe_cosmetic.Offline.Sync.{
  block_after, apply_decision, quarantine, send, turn, process_loop, process_partition,
  stays_blocked, mismatch_patch,
}
use royalvibe_cosmetic.Offline.Decisions.{CapturedSession, Round, session_guard, belongs_to_session}

module _ (IsUser : String → Type 0) where
  pub record AreSteps (r : Round) : Type 0 where
    pub head : (o : Outbox) → Reach IsUser o (r.before_head o)
    pub sending : (o : Outbox) → Reach IsUser o (r.before_sending o)
    pub answer : (o : Outbox) → Reach IsUser o (r.before_answer o)
    pub block : (o : Outbox) → Reach IsUser o (r.before_block o)

  update_operation-Reach :
      (id key : String) (patch : _) (now : ℕ) {o o1 : Outbox}
      → Reach IsUser o o1
      → Reach IsUser o (update_operation id key patch now o1).1
  update_operation-Reach id key patch now reach = next reach (updating id key patch now refl)

  module _ (http_code : ℕ → String) (s : CapturedSession) (fingerprint : String) (r : Round)
      (steps : AreSteps r) where
    quarantine-Reach : (op : OutboxOperation) (o : Outbox) → Reach IsUser o (quarantine s op r o)
    unfolding quarantine
    quarantine-Reach op o =
        next
          (Reach-trans IsUser
            (update_operation-Reach op.client_operation_id op.partition_key mismatch_patch r.now
              here)
            (steps.block _))
          (blocking s.partition_key _ refl)

    block_after-Reach :
        (b : Option Blocked) {o o1 : Outbox}
        → Reach IsUser o o1
        → Reach IsUser o (block_after s.partition_key r.before_block b o1)
    block_after-Reach none reach = reach
    block_after-Reach (some b) reach =
        next (Reach-trans IsUser reach (steps.block _)) (blocking s.partition_key _ refl)

    apply_decision-Reach :
        (op : OutboxOperation) {o o1 : Outbox}
        → Reach IsUser o o1
        → Reach IsUser o (apply_decision http_code s op r fingerprint o1).1
    unfolding apply_decision
    apply_decision-Reach op reach =
        block_after-Reach _
          (update_operation-Reach op.client_operation_id s.partition_key _ _ reach)

    -- The mark, then what the others do until the answer.
    marked-Reach :
        (op : OutboxOperation) (o : Outbox)
        → Reach IsUser o (
            r.before_answer
              (update_operation op.client_operation_id s.partition_key
                (keep syncing)
                r.now
                (r.before_sending o)).1)
    marked-Reach op o =
        Reach-trans IsUser
          (update_operation-Reach op.client_operation_id s.partition_key (keep syncing) r.now
            (steps.sending o))
          (steps.answer _)

    send-Reach :
        (op : OutboxOperation) (o : Outbox)
        → Reach IsUser o (send http_code s fingerprint r op o).outbox
    unfolding send
    send-Reach op o =
        elim (Option-cases (session_guard s.token r.token_at_sending r.aborted_at_sending)) [
          | inr (reason, late) ↦
              rw (send, late)
                (update_operation-Reach op.client_operation_id s.partition_key (keep pending)
                  r.answered_at (marked-Reach op o))
          | inl goes ↦ rw (send, goes) (apply_decision-Reach op (marked-Reach op o))
        ]

    pub turn-Reach : (o : Outbox) → Reach IsUser o (turn http_code s fingerprint r o).outbox
    unfolding turn
    turn-Reach o0 =
        let o = r.before_head o0 in
        elim (Option-cases (session_guard s.token r.token r.aborted)) [
          | inr (reason, stops) ↦ rw (turn, stops) here
          | inl goes ↦ elim (Option-cases (get_head_pending s.partition_key o)) [
            | inl empty ↦ rw (turn, goes, empty) (steps.head o0)
            | inr (op, first) ↦ elim (Bool-cases (belongs_to_session op s)) [
              | inr stranger ↦
                  rw (turn, goes, first, stranger)
                    (Reach-trans IsUser (steps.head o0) (quarantine-Reach op o))
              | inl mine ↦ elim (Bool-cases (ltb r.now op.next_attempt_at)) [
                | inl early ↦ rw (turn, goes, first, mine, early) (steps.head o0)
                | inr due ↦
                    rw (turn, goes, first, mine, due)
                      (Reach-trans IsUser (steps.head o0) (send-Reach op o))
              ]
            ]
          ]
        ]

  module _ (http_code : ℕ → String) (s : CapturedSession) (fingerprint : String) where
    pub process_loop-Reach :
        (rounds : List Round) (o : Outbox)
        → All AreSteps rounds
        → Reach IsUser o (process_loop http_code s fingerprint rounds o).outbox
    unfolding process_loop
    process_loop-Reach [] o steps = here
    process_loop-Reach (r ∷ rs) o (first, steps) =
        let t = turn http_code s fingerprint r o in
        let one = turn-Reach http_code s fingerprint r first o in
        elim (Option-cases t.ends) [
          | inr (result, ends) ↦ rw (process_loop, ends) one
          | inl goes ↦
              rw (process_loop, goes)
                (Reach-trans IsUser one (process_loop-Reach rs t.outbox steps))
        ]

    module _ (before : ℕ → Outbox → Outbox)
        (others : (n : ℕ) (o : Outbox) → Reach IsUser o (before n o)) (now : ℕ) where
      -- The partition is prepared before the loop.
      pub prepared :
          {o o1 : Outbox}
          → Reach IsUser o o1
          → Reach IsUser o (prepare_partition s.partition_key now (before 2 o1))
      prepared reach =
          next (Reach-trans IsUser reach (others 2 _)) (preparing s.partition_key now refl)

      pub process_partition-Reach :
          (rounds : List Round) (o : Outbox)
          → All AreSteps rounds
          → Reach IsUser o (process_partition http_code s fingerprint before now rounds o).outbox
      unfolding process_partition
      process_partition-Reach rounds o0 steps =
          elim (Option-cases (get_meta_in s.partition_key (before 0 o0).metas).blocked) [
            | inl free ↦
                rw (process_partition, free)
                  (Reach-trans IsUser (prepared (others 0 o0)) (process_loop-Reach rounds _ steps))
            | inr (b, held) ↦ elim (Bool-cases (stays_blocked fingerprint b)) [
              | inl stays ↦ rw (process_partition, held, stays) (others 0 o0)
              | inr lifts ↦
                  rw (process_partition, held, lifts)
                    (Reach-trans IsUser
                      (prepared (
                        next (Reach-trans IsUser (others 0 o0) (others 1 _))
                          (blocking s.partition_key none refl)))
                      (process_loop-Reach rounds _ steps))
            ]
          ]
