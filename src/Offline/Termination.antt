-- ===== src/Offline/Termination.antt =====
-- The loop of web/src/lib/offline-sales-sync.ts ends when the other tabs leave the outbox alone.
use royalvibe_cosmetic.Common.{
  ℕ, ◌≡◌, ◌<◌, refl, sym, ap, subst, ◌∙◌, String, none, List, [], ◌∷◌, Bool-cases, Option-cases,
  inl, inr, length, arith, All,
}
use royalvibe_cosmetic.Offline.Outbox.{Outbox, get_meta_in}
use royalvibe_cosmetic.Offline.Transactions.{
  prepare_partition, count_sendable, set_partition_blocked,
}
use royalvibe_cosmetic.Offline.Numbering.{IsNumbered}
use royalvibe_cosmetic.Offline.Invariant.{Separates}
use royalvibe_cosmetic.Offline.Trace.{Reach, here, next, Reach-trans, Reach-IsNumbered, blocking}
use royalvibe_cosmetic.Offline.Sync.{turn, process_loop, process_partition, stays_blocked}
use royalvibe_cosmetic.Offline.Decisions.{CapturedSession, Round}
use royalvibe_cosmetic.Offline.SyncSteps.{turn-Reach, prepared}
use royalvibe_cosmetic.Offline.Measure.{count_sendable-total, prepare_partition-total}
use royalvibe_cosmetic.Offline.Turns.{IsQuiet, quiet-AreSteps, weigh, turn-weigh}
use royalvibe_cosmetic.Offline.TurnEnds.{IsOver, turn-IsOver}

module _ (http_code : ℕ → String) (s : CapturedSession) (fingerprint : String)
    (IsUser : String → Type 0) (separates : Separates IsUser) where
  process_loop-IsOver :
      (rounds : List Round) (o : Outbox)
      → All IsQuiet rounds
      → IsNumbered IsUser o
      → weigh http_code s fingerprint o < length rounds
      → IsOver http_code s fingerprint (process_loop http_code s fingerprint rounds o)
  unfolding process_loop
  process_loop-IsOver [] o quiet n enough = ground arith
  process_loop-IsOver (r ∷ rs) o (first, quiet) n enough =
      let t = turn http_code s fingerprint r o in
      elim (Option-cases t.ends) [
        | inr (result, ends) ↦
            rw (process_loop, ends) (turn-IsOver http_code s fingerprint r o result ends _)
        | inl goes ↦
            let less = turn-weigh http_code s fingerprint r o first n.ordered goes in
            let rest =
              process_loop-IsOver rs t.outbox quiet
                (Reach-IsNumbered IsUser separates o
                  (turn-Reach IsUser http_code s fingerprint r (quiet-AreSteps IsUser first) o) n)
                (ground (arith, less, enough)) in
            rw (process_loop, goes) (record { ends = rest.ends; is_drained = rest.is_drained })
      ]

  abbrev weigh_here : Outbox → ℕ
  weigh_here = weigh http_code s fingerprint

  -- The preparation adds nothing to send.
  bound :
      (before : ℕ → Outbox → Outbox) (now given : ℕ) (o o1 : Outbox)
      → before 2 o1 ≡ o1
      → weigh_here o1 ≡ weigh_here o
      → count_sendable s.partition_key o < given
      → weigh_here (prepare_partition s.partition_key now (before 2 o1)) < given
  bound before now given o o1 quiet same enough =
      let counted = count_sendable-total s.partition_key o in
      let less = prepare_partition-total s.partition_key now (before 2 o1) in
      let still : weigh_here (before 2 o1) ≡ weigh_here o = ap weigh_here quiet ∙ same in
      omega (arith, counted, less, still, enough)

  -- From an outbox in order, when the other tabs commit nothing, a pass ends within as many turns of
  -- the loop as there are operations to send in the partition, and one more; and if it ends as
  -- completed with nothing to wait for, no operation of the partition waits.
  pub process_partition-IsOver :
      (before : ℕ → Outbox → Outbox) (now : ℕ) (rounds : List Round) (o : Outbox)
      → ((n : ℕ) (o : Outbox) → before n o ≡ o)
      → All IsQuiet rounds
      → IsNumbered IsUser o
      → count_sendable s.partition_key o < length rounds
      → IsOver http_code s fingerprint
          (process_partition http_code s fingerprint before now rounds o)
  unfolding process_partition set_partition_blocked
  process_partition-IsOver before now rounds o0 quiet all n enough =
      let others = (λ (k : ℕ) (o : Outbox). subst (Reach IsUser o) (sym (quiet k o)) here) in
      let ready =
        (λ (o1 : Outbox) (reach : Reach IsUser o0 o1) (same : weigh_here o1 ≡ weigh_here o0).
          process_loop-IsOver rounds (prepare_partition s.partition_key now (before 2 o1)) all
            (Reach-IsNumbered IsUser separates o0
              (prepared IsUser http_code s fingerprint before others now reach) n)
            (bound before now (length rounds) o0 o1 (quiet 2 o1) same enough)) in
      elim (Option-cases (get_meta_in s.partition_key (before 0 o0).metas).blocked) [
        | inl free ↦
            rw (process_partition, free) (ready _ (others 0 o0) (ap weigh_here (quiet 0 o0)))
        | inr (b, held) ↦ elim (Bool-cases (stays_blocked fingerprint b)) [
          | inl stays ↦
              rw (process_partition, held, stays) (record { ends = λ e. cc; is_drained = λ e. cc })
          | inr lifts ↦
              rw (process_partition, held, lifts)
                (ready _
                  (next (Reach-trans IsUser (others 0 o0) (others 1 _))
                    (blocking s.partition_key none refl))
                  (ap weigh_here (quiet 1 (before 0 o0) ∙ quiet 0 o0)))
        ]
      ]
