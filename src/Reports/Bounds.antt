-- ===== src/Reports/Bounds.antt =====
-- The bounds that api/src/reports/report-generation-limiter.ts keeps on simultaneous generations.
use Prim.Native.String.{◌++◌}
use royalvibe_cosmetic.Common.{
  ℕ, ◌+◌, ◌-◌, ◌≤◌, ◌≡◌, refl, ◌∙◌, String, true, false, ◌||◌, not, List, [], ◌∷◌, or_else, length,
  leb, ltb, str_eq, if◌then◌else◌, arith, eq_iff, Bool-cases, Option-cases, inl, inr, total, subst,
}
use royalvibe_cosmetic.Common.Dict.{Dict, lookup, insert, erase, lookup-insert, lookup-erase}
use royalvibe_cosmetic.Reports.Limiter.{
  Limits, Limiter, Ticket, Decision, admitted, rate_limited, busy, idle, active_of, prune, acquire,
  acquire_pruned, release_ticket, within_quota,
}

abbrev pub counts : String → String → ℕ
counts org held = if str_eq held org then 1 else 0

-- How many generations of an organization run.
abbrev pub running : String → List String → ℕ
running org held = total (counts org) held

-- The counters are those of the generations that run, and these are within the limits.
pub record IsBounded (limits : Limits) (held : List String) (s : Limiter) : Type 0 where
  pub all_counted : s.active_total ≡ length held
  pub each_counted : (org : String) → active_of org s ≡ running org held
  pub global : length held ≤ limits.max_active_global
  pub per_organization : (org : String) → running org held ≤ limits.max_active_per_organization

-- One generation of an organization ends.
unfoldable pub without : String → List String → List String
without org [] = []
without org (o ∷ held) = if str_eq o org then held else o ∷ without org held

abbrev BoundedAfter : Limits → List String → String → Limiter × Decision → Type 0
BoundedAfter limits held org (s, admitted ticket) =
    IsBounded limits (org ∷ held) s × (ticket.organization_id ≡ org) × (ticket.released ≡ false)
BoundedAfter limits held org (s, _) = IsBounded limits held s

active_insert :
    (org read : String) (n : ℕ) (active : Dict ℕ)
    → or_else (lookup read (insert org n active)) 0
      ≡ (if str_eq org read then n else or_else (lookup read active) 0)
active_insert org read n active =
    let e = lookup-insert org read n active in
    elim (Bool-cases (str_eq org read)) [
      | inl same ↦ rw (e, same) refl
      | inr other ↦ rw (e, other) refl
    ]

active_erase :
    (org read : String) (active : Dict ℕ)
    → or_else (lookup read (erase org active)) 0
      ≡ (if str_eq org read then 0 else or_else (lookup read active) 0)
active_erase org read active =
    let e = lookup-erase org read active in
    elim (Bool-cases (str_eq org read)) [
      | inl same ↦ rw (e, same) refl
      | inr other ↦ rw (e, other) refl
    ]

acquire_pruned-Bounded :
    (limits : Limits) (now : ℕ) (user_id org : String) (held : List String) (s : Limiter)
    → IsBounded limits held s
    → BoundedAfter limits held org (acquire_pruned limits now user_id org s)
unfolding acquire_pruned
acquire_pruned-Bounded limits now user_id org held s b =
    elim (Bool-cases (not (within_quota limits (lookup (user_id ++ (":" ++ org)) s.windows)))) [
      | inl used ↦ rw (used, acquire_pruned) b
      | inr within ↦
          elim (Bool-cases (
            leb limits.max_active_global s.active_total
            || leb limits.max_active_per_organization (active_of org s))) [
              | inl full ↦ rw (within, full, acquire_pruned) b
              | inr free ↦
                  rw (within, free, acquire_pruned)
                    (
                      record {
                        all_counted = omega (arith, b.all_counted);
                        each_counted = λ o.
                            active_insert org o (active_of org s + 1) s.active_by_organization
                            ∙ (let mine = b.each_counted org in
                                let theirs = b.each_counted o in
                                ground (arith, eq_iff org o, mine, theirs));
                        global = ground (arith, b.all_counted);
                        per_organization = λ o.
                            let mine = b.each_counted org in
                            let bound = b.per_organization o in
                            ground (arith, eq_iff org o, mine, bound);
                      },
                      refl,
                      refl,
                    )
            ]
    ]

length-without :
    (org : String) (held : List String)
    → 1 ≤ running org held
    → length (without org held) + 1 ≡ length held
unfolding without
length-without org [] h = absurd (omega arith)
length-without org (o ∷ held) h = elim (Bool-cases (str_eq o org)) [
  | inl here ↦ rw here (omega arith)
  | inr away ↦ rw away (let rest = length-without org held (ground arith) in omega (arith, rest))
]

running-without :
    (org other : String) (held : List String)
    → 1 ≤ running org held
    → running other (without org held) + counts other org ≡ running other held
unfolding without
running-without org other [] h = absurd (omega arith)
running-without org other (o ∷ held) h = elim (Bool-cases (str_eq o org)) [
  | inl here ↦ rw here (ground (arith, eq_iff o org))
  | inr away ↦
      rw away (let rest = running-without org other held (ground arith) in omega (arith, rest))
]

release_ticket-Bounded :
    (limits : Limits) (held : List String) (s : Limiter) (ticket : Ticket)
    → ticket.released ≡ false
    → 1 ≤ running ticket.organization_id held
    → IsBounded limits held s
    → IsBounded limits (without ticket.organization_id held) (release_ticket ticket s).0
unfolding release_ticket
release_ticket-Bounded limits held s ticket fresh runs b =
    let org = ticket.organization_id in
    let mine = b.each_counted org in
    let shorter = length-without org held runs in
    elim (Option-cases (lookup org s.active_by_organization)) [
      | inl missing ↦ absurd (ground (arith, mine, missing))
      | inr (n, found) ↦
          let counted : n ≡ running org held = ground (arith, mine, found) in
          elim (Bool-cases (ltb 0 (n - 1))) [
            | inl more ↦
                rw (fresh, found, more, release_ticket)
                  (record {
                    all_counted = omega (arith, b.all_counted, shorter);
                    each_counted = λ o.
                        active_insert org o (n - 1) s.active_by_organization
                        ∙ (let less = running-without org o held runs in
                            let theirs = b.each_counted o in
                            ground (arith, eq_iff org o, counted, less, theirs));
                    global = omega (arith, b.global, shorter);
                    per_organization =
                        λ o. omega (arith, b.per_organization o, running-without org o held runs);
                  })
            | inr last ↦
                rw (fresh, found, last, release_ticket)
                  (record {
                    all_counted = omega (arith, b.all_counted, shorter);
                    each_counted = λ o.
                        active_erase org o s.active_by_organization
                        ∙ (let less = running-without org o held runs in
                            let theirs = b.each_counted o in
                            ground (arith, eq_iff org o, counted, less, theirs));
                    global = omega (arith, b.global, shorter);
                    per_organization =
                        λ o. omega (arith, b.per_organization o, running-without org o held runs);
                  })
          ]
    ]

-- The steps of the limiter, with the organizations of the generations that run. Every answer of
-- `acquire` is followed, and every call of a `release`, a second one included.
pub data Step (limits : Limits) : List String → Limiter → List String → Limiter → Type 0 where
  admits :
      {held : List String} {s s' : Limiter} (now : ℕ) (user_id org : String) (ticket : Ticket)
      → acquire limits now user_id org s ≡ (s', admitted ticket)
      → Step limits held s (org ∷ held) s'
  refuses_quota :
      {held : List String} {s s' : Limiter} (now : ℕ) (user_id org : String) (wait : ℕ)
      → acquire limits now user_id org s ≡ (s', rate_limited wait)
      → Step limits held s held s'
  refuses_busy :
      {held : List String} {s s' : Limiter} (now : ℕ) (user_id org : String) (wait : ℕ)
      → acquire limits now user_id org s ≡ (s', busy wait)
      → Step limits held s held s'
  releases :
      {held : List String} {s : Limiter} (ticket : Ticket)
      → ticket.released ≡ false
      → 1 ≤ running ticket.organization_id held
      → Step limits held s (without ticket.organization_id held) (release_ticket ticket s).0
  releases_again :
      {held : List String} {s : Limiter} (ticket : Ticket)
      → ticket.released ≡ true
      → Step limits held s held (release_ticket ticket s).0

pub data Reach (limits : Limits) : List String → Limiter → Type 0 where
  start : Reach limits [] idle
  next :
      {held held' : List String} {s s' : Limiter}
      → Reach limits held s
      → Step limits held s held' s'
      → Reach limits held' s'

acquire-Bounded :
    (limits : Limits) (now : ℕ) (user_id org : String) (held : List String) (s : Limiter)
    → IsBounded limits held s
    → BoundedAfter limits held org (acquire limits now user_id org s)
unfolding acquire prune
acquire-Bounded limits now user_id org held s b =
    acquire_pruned-Bounded limits now user_id org held (prune limits now s) (record {
      all_counted = b.all_counted;
      each_counted = b.each_counted;
      global = b.global;
      per_organization = b.per_organization;
    })

Step-IsBounded :
    {limits : Limits} {held held' : List String} {s s' : Limiter}
    → Step limits held s held' s'
    → IsBounded limits held s
    → IsBounded limits held' s'
unfolding release_ticket
Step-IsBounded {limits} {held} {held'} {s} (admits now user_id org ticket e) b =
    (subst (BoundedAfter limits held org) e (acquire-Bounded limits now user_id org held s b)).0
Step-IsBounded {limits} {held} {held'} {s} (refuses_quota now user_id org wait e) b =
    subst (BoundedAfter limits held org) e (acquire-Bounded limits now user_id org held s b)
Step-IsBounded {limits} {held} {held'} {s} (refuses_busy now user_id org wait e) b =
    subst (BoundedAfter limits held org) e (acquire-Bounded limits now user_id org held s b)
Step-IsBounded {limits} {held} {held'} {s} (releases ticket fresh runs) b =
    release_ticket-Bounded limits held s ticket fresh runs b
Step-IsBounded {limits} {held} {held'} {s} (releases_again ticket done) b =
    rw (done, release_ticket) b

-- From a limiter at rest, after any requests and releases in any order, the counters are those of the
-- generations that run, at most `max_active_global` run, and at most `max_active_per_organization` of
-- each organization.
pub Reach-IsBounded :
    (limits : Limits) (held : List String) (s : Limiter)
    → Reach limits held s
    → IsBounded limits held s
unfolding lookup
Reach-IsBounded limits held s start = record {
  all_counted = refl;
  each_counted = λ org. refl;
  global = omega arith;
  per_organization = λ org. omega arith;
}
Reach-IsBounded limits held s (next {held = before} {s = s0} r step) =
    Step-IsBounded step (Reach-IsBounded limits before s0 r)
