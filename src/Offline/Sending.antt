-- ===== src/Offline/Sending.antt =====
-- What a pass of web/src/lib/offline-sales-sync.ts sends to the server.
use royalvibe_cosmetic.Common.{
  ℕ, ◌≡◌, ◌<◌, ◌≤◌, refl, sym, ◌∙◌, subst, String, Bool, true, false, ◌&&◌, Option, none, some,
  List, [], ◌∷◌, Bool-cases, Option-cases, inl, inr, ltb, All, All-imp, filter, find, arith, str_eq,
  eq_iff,
}
use royalvibe_cosmetic.Offline.Outbox.{OutboxOperation, Outbox, get_meta_in, get_partition_ops}
use royalvibe_cosmetic.Offline.Transactions.{prepare_partition, get_head_pending, is_pending}
use royalvibe_cosmetic.Offline.Numbering.{IsOrdered, IsNumbered}
use royalvibe_cosmetic.Offline.Invariant.{Separates}
use royalvibe_cosmetic.Offline.Trace.{Reach, next, Reach-trans, Reach-IsNumbered, blocking}
use royalvibe_cosmetic.Offline.Sync.{
  Sending, send, turn, process_loop, process_partition, log, stays_blocked,
}
use royalvibe_cosmetic.Offline.Decisions.{CapturedSession, Round, session_guard, belongs_to_session}
use royalvibe_cosmetic.Offline.SyncSteps.{AreSteps, turn-Reach, prepared}

-- No operation of the partition with a lower number waits.
abbrev pub IsFirst : String → OutboxOperation → List OutboxOperation → Type 0
IsFirst key op ops =
    All (λ y. y.partition_key ≡ key → y.seq < op.seq → is_pending y.status ≡ false) ops

pub record IsProper (s : CapturedSession) (x : Sending) : Type 0 where
  pub same_partition : x.operation.partition_key ≡ s.partition_key
  pub same_user : x.operation.user_id ≡ s.user_id
  pub same_organization : x.operation.organization_id ≡ s.organization_id
  pub bears_token : x.token ≡ s.token
  pub token_is_current : x.current_token ≡ some s.token
  pub is_due : x.operation.next_attempt_at ≤ x.at
  pub is_head : get_head_pending s.partition_key x.outbox ≡ some x.operation
  pub is_first : IsFirst s.partition_key x.operation x.outbox.operations

head-IsFirst :
    (key : String) (ops : List OutboxOperation) (op : OutboxOperation)
    → IsOrdered ops
    → find (λ op. is_pending op.status) (filter (λ op. str_eq op.partition_key key) ops) ≡ some op
    → IsFirst key op ops
head-IsFirst key [] op ordered h = tt
head-IsFirst key (x ∷ xs) op (first, ordered) h =
    elim (Bool-cases (str_eq x.partition_key key && is_pending x.status)) [
      | inl this ↦
          let same : x ≡ op = ground arith in
          let at_key : x.partition_key ≡ key = ground (arith, eq_iff x.partition_key key) in
          (
            λ e less. ground (arith, same, less),
            All-imp
                (λ y p e less.
                  let above = p.in_order (e ∙ sym at_key) in ground (arith, same, less, above))
                xs first,
          )
      | inr other ↦ (
        λ e less. ground (arith, eq_iff x.partition_key key),
        head-IsFirst key xs op ordered (ground arith),
      )
    ]

session_guard-token :
    (token : String) (current : Option String) (is_aborted : Bool)
    → session_guard token current is_aborted ≡ none
    → current ≡ some token
unfolding session_guard
session_guard-token token none is_aborted h = cc
session_guard-token token (some current) is_aborted h = ground (arith, eq_iff current token)

head-IsProper :
    {s : CapturedSession} (r : Round) {o : Outbox} (op : OutboxOperation)
    → IsOrdered o.operations
    → get_head_pending s.partition_key o ≡ some op
    → belongs_to_session op s ≡ true
    → ltb r.now op.next_attempt_at ≡ false
    → session_guard s.token r.token_at_sending r.aborted_at_sending ≡ none
    → IsProper s (record {
      operation = op;
      token = s.token;
      current_token = r.token_at_sending;
      at = r.now;
      outbox = o;
    })
unfolding get_head_pending get_partition_ops belongs_to_session
head-IsProper {s} r {o} op ordered first mine due current = record {
  same_partition = ground (arith, eq_iff op.partition_key s.partition_key);
  same_user = ground (arith, eq_iff op.user_id s.user_id);
  same_organization = ground (arith, eq_iff op.organization_id s.organization_id);
  bears_token = refl;
  token_is_current = session_guard-token s.token r.token_at_sending r.aborted_at_sending current;
  is_due = ground arith;
  is_head = first;
  is_first = head-IsFirst s.partition_key o.operations op ordered first;
}

module _ (http_code : ℕ → String) (s : CapturedSession) (fingerprint : String) where
  turn-IsProper :
      (r : Round) (o : Outbox) (x : Sending)
      → IsOrdered (r.before_head o).operations
      → (turn http_code s fingerprint r o).sent ≡ some x
      → IsProper s x
  unfolding turn send session_guard belongs_to_session
  turn-IsProper r o0 x ordered h =
      let o = r.before_head o0 in
      elim (Option-cases (session_guard s.token r.token r.aborted)) [
        | inr (reason, stops) ↦ ground arith
        | inl goes ↦ elim (Option-cases (get_head_pending s.partition_key o)) [
          | inl empty ↦ ground arith
          | inr (op, first) ↦ elim (Bool-cases (belongs_to_session op s)) [
            | inr stranger ↦ ground arith
            | inl mine ↦ elim (Bool-cases (ltb r.now op.next_attempt_at)) [
              | inl early ↦ ground arith
              | inr due ↦
                  elim (Option-cases
                    (session_guard s.token r.token_at_sending r.aborted_at_sending)) [
                      | inr (reason, late) ↦ ground arith
                      | inl current ↦
                          let same : (record {
                            operation = op;
                            token = s.token;
                            current_token = r.token_at_sending;
                            at = r.now;
                            outbox = o;
                          })
                              ≡ x =
                            ground arith in
                          subst (IsProper s) same
                            (head-IsProper r op ordered first mine due current)
                    ]
            ]
          ]
        ]
      ]

  log-IsProper :
      (sent : Option Sending) (rest : List Sending)
      → ((x : Sending) → sent ≡ some x → IsProper s x)
      → All (IsProper s) rest
      → All (IsProper s) (log sent rest)
  log-IsProper none rest each all = all
  log-IsProper (some x) rest each all = (each x refl, all)

  module _ (IsUser : String → Type 0) (separates : Separates IsUser) where
    process_loop-IsProper :
        (rounds : List Round) (o : Outbox)
        → All (AreSteps IsUser) rounds
        → IsNumbered IsUser o
        → All (IsProper s) (process_loop http_code s fingerprint rounds o).sent
    unfolding process_loop
    process_loop-IsProper [] o steps n = tt
    process_loop-IsProper (r ∷ rs) o (first, steps) n =
        let t = turn http_code s fingerprint r o in
        let read = Reach-IsNumbered IsUser separates o (first.head o) n in
        let each = (λ (x : Sending) (h : t.sent ≡ some x). turn-IsProper r o x read.ordered h) in
        elim (Option-cases t.ends) [
          | inr (result, ends) ↦ rw (process_loop, ends) (log-IsProper t.sent [] each tt)
          | inl goes ↦
              rw (process_loop, goes)
                (log-IsProper t.sent _ each (
                  process_loop-IsProper rs t.outbox steps (
                    Reach-IsNumbered IsUser separates o
                      (turn-Reach IsUser http_code s fingerprint r first o) n)))
        ]

    -- From an outbox in order, whatever the server answers and whatever transactions the other tabs
    -- commit, every sale that a pass sends is one of the session's user, organization and partition,
    -- bears the session's token, which is the current one when it is sent, has waited for its delay,
    -- and is the first of its partition: no operation with a lower number waits.
    pub process_partition-IsProper :
        (before : ℕ → Outbox → Outbox) (now : ℕ) (rounds : List Round) (o : Outbox)
        → ((n : ℕ) (o : Outbox) → Reach IsUser o (before n o))
        → All (AreSteps IsUser) rounds
        → IsNumbered IsUser o
        → All (IsProper s) (process_partition http_code s fingerprint before now rounds o).sent
    unfolding process_partition
    process_partition-IsProper before now rounds o0 others steps n =
        let ready = (λ (o1 : Outbox) (reach : Reach IsUser o0 o1).
          process_loop-IsProper rounds (prepare_partition s.partition_key now (before 2 o1)) steps (
            Reach-IsNumbered IsUser separates o0
              (prepared IsUser http_code s fingerprint before others now reach) n)) in
        elim (Option-cases (get_meta_in s.partition_key (before 0 o0).metas).blocked) [
          | inl free ↦ rw (process_partition, free) (ready _ (others 0 o0))
          | inr (b, held) ↦ elim (Bool-cases (stays_blocked fingerprint b)) [
            | inl stays ↦ rw (process_partition, held, stays) tt
            | inr lifts ↦
                rw (process_partition, held, lifts)
                  (ready _ (
                    next (Reach-trans IsUser (others 0 o0) (others 1 _))
                      (blocking s.partition_key none refl)))
          ]
        ]
