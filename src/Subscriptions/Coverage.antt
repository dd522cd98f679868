-- ===== src/Subscriptions/Coverage.antt =====
-- What `computeSubscriptionState` says of an instant: access exactly inside a period, and a coverage
-- end up to which no instant is left uncovered.
use royalvibe_cosmetic.Common.{
  ℕ, ◌≤◌, ◌<◌, ◌≡◌, refl, sym, ◌∙◌, ap, Bool, true, false, ◌&&◌, ◌||◌, Option, none, some, List, [],
  ◌∷◌, ltb, leb, filter, find, any, arith, Bool-cases, ◌⊎◌, inl, inr,
}
use royalvibe_cosmetic.Subscriptions.State.{
  Snapshot, StateView, active, covers, extend, continuous_end, by_start, by_sequence, sort, place,
  first, state_without_current, state_of_sorted, compute_subscription_state,
  to_subscription_access_view, AccessScope, is_app, is_active, starts_after,
}

-- Sorting and filtering change no test on the elements.
any-place :
    (f : Snapshot → Bool) (b : Snapshot → Snapshot → Bool) (p : Snapshot) (ps : List Snapshot)
    → any f (place b p ps) ≡ any f (p ∷ ps)
any-place f b p [] = refl
any-place f b p (q ∷ qs) = ground (arith, any-place f b p qs)

any-sort :
    (f : Snapshot → Bool) (b : Snapshot → Snapshot → Bool) (ps : List Snapshot)
    → any f (sort b ps) ≡ any f ps
any-sort f b [] = refl
any-sort f b (p ∷ ps) = any-place f b p (sort b ps) ∙ ap (λ t. f p || t) (any-sort f b ps)

first-place :
    (b : Snapshot → Snapshot → Bool) (p : Snapshot) (ps : List Snapshot)
    → (first (place b p ps) ≡ some p)
      ⊎ ((q : Snapshot) × (first (place b p ps) ≡ some q) × (first ps ≡ some q))
first-place b p [] = inl refl
first-place b p (q ∷ qs) = elim (Bool-cases (b p q)) [
  | inl before ↦ rw before (inl refl)
  | inr after ↦ rw after (inr (q, refl, refl))
]

-- Every test that `p` passes is passed by an element.
abbrev IsAmong : Snapshot → List Snapshot → Type 0
IsAmong p ps = (g : Snapshot → Bool) → g p ≡ true → any g ps ≡ true

-- What a search by a test finds: nothing when no element passes, else one that does.
abbrev Finds : (Snapshot → Bool) → List Snapshot → Option Snapshot → Type 0
Finds f ps o =
    ((o ≡ none) × (any f ps ≡ false))
    ⊎ ((p : Snapshot) × (o ≡ some p) × (f p ≡ true) × IsAmong p ps)

first-Finds :
    (f : Snapshot → Bool) (b : Snapshot → Snapshot → Bool) (ps : List Snapshot)
    → Finds f ps (first (sort b (filter f ps)))
first-Finds f b [] = inl (refl, refl)
first-Finds f b (p ∷ ps) = elim (Bool-cases (f p)) [
  | inl holds ↦ elim (first-place b p (sort b (filter f ps))) [
    | inl here ↦ inr (p, ground arith, holds, λ g h. ground arith)
    | inr (q, here, there) ↦ elim (first-Finds f b ps) [
      | inl (nothing_there, _) ↦ absurd (ground arith)
      | inr (r, found, passes, among) ↦
          inr (r, ground arith, passes, λ g h. let there = among g h in ground arith)
    ]
  ]
  | inr fails ↦ elim (first-Finds f b ps) [
    | inl (nothing_there, none_holds) ↦ inl (ground arith, ground arith)
    | inr (r, found, passes, among) ↦
        inr (r, ground arith, passes, λ g h. let there = among g h in ground arith)
  ]
]

find-Finds : (f : Snapshot → Bool) (ps : List Snapshot) → Finds f ps (find f ps)
find-Finds f [] = inl (refl, refl)
find-Finds f (p ∷ ps) = elim (Bool-cases (f p)) [
  | inl holds ↦ inr (p, ground arith, holds, λ g h. ground arith)
  | inr fails ↦ elim (find-Finds f ps) [
    | inl (missing, none_holds) ↦ inl (ground arith, ground arith)
    | inr (r, found, passes, among) ↦
        inr (r, ground arith, passes, λ g h. let there = among g h in ground arith)
  ]
]

-- A test that every passing element satisfies elsewhere.
any-covers :
    (t : ℕ) (p : Snapshot) (ps : List Snapshot)
    → p.starts_at ≤ t
    → t < p.ends_at
    → any (covers t) (p ∷ ps) ≡ true
any-covers t p ps h k = ground arith

extend-reaches :
    (p : Snapshot) (end t : ℕ)
    → end ≤ t
    → (extend p end ≤ t) ⊎ ((p.starts_at ≤ t) × (t < p.ends_at))
extend-reaches p end t h = elim (Bool-cases (leb p.starts_at end && ltb end p.ends_at)) [
  | inl joins ↦ elim (Bool-cases (leb p.ends_at t)) [
    | inl past ↦ inl (ground arith)
    | inr within ↦ inr (ground arith, ground arith)
  ]
  | inr apart ↦ inl (rw apart h)
]

extend-grows : (p : Snapshot) (end : ℕ) → end ≤ extend p end
extend-grows p end = ground arith

-- The continuous end only grows, and no instant is skipped on the way.
continuous_end-covered :
    (sorted : List Snapshot) (end t : ℕ)
    → end ≤ t
    → t < continuous_end sorted end
    → any (covers t) sorted ≡ true
unfolding continuous_end
continuous_end-covered [] end t h k = absurd (omega arith)
continuous_end-covered (p ∷ ps) end t h k = elim (extend-reaches p end t h) [
  | inl later ↦ let rest = continuous_end-covered ps (extend p end) t later k in ground arith
  | inr (from, to) ↦ any-covers t p ps from to
]

continuous_end-grows : (sorted : List Snapshot) (end : ℕ) → end ≤ continuous_end sorted end
unfolding continuous_end
continuous_end-grows [] end = omega arith
continuous_end-grows (p ∷ ps) end =
    omega (arith, extend-grows p end, continuous_end-grows ps (extend p end))

-- The two ways out of the search for the current period.
data Decided (sorted : List Snapshot) (now : ℕ) : StateView → Type 0 where
  current :
      (p : Snapshot)
      → covers now p ≡ true
      → IsAmong p sorted
      → Decided sorted now (record {
        state = active;
        current_period = some p;
        coverage_ends_at = some (continuous_end sorted p.ends_at);
        next_period_starts_at = none;
      })
  no_current :
      any (covers now) sorted ≡ false
      → Decided sorted now (state_without_current sorted (find (starts_after now) sorted))

state_of_sorted-Decided :
    (sorted : List Snapshot) (now : ℕ) → Decided sorted now (state_of_sorted sorted now)
unfolding state_of_sorted
state_of_sorted-Decided sorted now = elim (first-Finds (covers now) by_sequence sorted) [
  | inl (absent, uncovered) ↦ rw (absent, state_of_sorted) (no_current uncovered)
  | inr (p, found, holds, among) ↦ rw (found, state_of_sorted) (current p holds among)
]

without_current-inactive :
    (sorted : List Snapshot) (o : Option Snapshot)
    → is_active (state_without_current sorted o).state ≡ false
unfolding state_without_current
without_current-inactive sorted none = refl
without_current-inactive sorted (some p) = refl

Decided-active :
    {sorted : List Snapshot} {now : ℕ} {view : StateView}
    → Decided sorted now view
    → is_active view.state ≡ any (covers now) sorted
Decided-active {sorted} {now} (current p holds among) = sym (among (covers now) holds)
Decided-active {sorted} {now} (no_current uncovered) =
    without_current-inactive sorted (find (starts_after now) sorted) ∙ sym uncovered

-- The state is active exactly inside a period.
compute_subscription_state-active :
    (periods : List Snapshot) (now : ℕ)
    → is_active (compute_subscription_state periods now).state ≡ any (covers now) periods
unfolding compute_subscription_state
compute_subscription_state-active [] now = refl
compute_subscription_state-active (p ∷ ps) now =
    Decided-active (state_of_sorted-Decided (sort by_start (p ∷ ps)) now)
    ∙ any-sort (covers now) by_start (p ∷ ps)

-- A request has access to the application exactly when its token is an application token and one of
-- the organization's periods covers the instant.
pub to_subscription_access_view-application_access :
    (periods : List Snapshot) (now : ℕ) (is_owner : Bool) (scope : AccessScope)
    → (to_subscription_access_view periods now is_owner scope).application_access
      ≡ (is_app scope && any (covers now) periods)
unfolding to_subscription_access_view
to_subscription_access_view-application_access periods now is_owner scope =
    ap (λ a. is_app scope && a) (compute_subscription_state-active periods now)

Decided-coverage :
    {sorted : List Snapshot} {now : ℕ} {view : StateView} (end : ℕ)
    → Decided sorted now view
    → is_active view.state ≡ true
    → view.coverage_ends_at ≡ some end
    → (now < end) × ((t : ℕ) → now ≤ t → t < end → any (covers t) sorted ≡ true)
Decided-coverage {sorted} {now} end (current p holds among) _ e =
    let same : continuous_end sorted p.ends_at ≡ end = ground arith in
    let grows = continuous_end-grows sorted p.ends_at in
    let within_now : now < p.ends_at = ground arith in
    let from_now : p.starts_at ≤ now = ground arith in
    (
      omega (arith, grows, within_now, same),
      λ t from to. elim (Bool-cases (ltb t p.ends_at)) [
        | inl within ↦ among (covers t) (ground (arith, from_now))
        | inr past ↦ continuous_end-covered sorted p.ends_at t (ground arith) (ground arith)
      ],
    )
Decided-coverage {sorted} {now} end (no_current uncovered) h e =
    absurd (ground (arith, without_current-inactive sorted (find (starts_after now) sorted)))

-- While a subscription is active, the coverage end it announces is later than now, and every instant
-- from now to it lies in some period: renewals that are already granted leave no gap.
pub compute_subscription_state-coverage :
    (periods : List Snapshot) (now end : ℕ)
    → (compute_subscription_state periods now).state ≡ active
    → (compute_subscription_state periods now).coverage_ends_at ≡ some end
    → (now < end) × ((t : ℕ) → now ≤ t → t < end → any (covers t) periods ≡ true)
unfolding compute_subscription_state
compute_subscription_state-coverage [] now end h e = absurd (ground arith)
compute_subscription_state-coverage (p ∷ ps) now end h e =
    let (later, covered) =
      Decided-coverage end (state_of_sorted-Decided (sort by_start (p ∷ ps)) now) (ap is_active h)
        e in
    (later, λ t from to. sym (any-sort (covers t) by_start (p ∷ ps)) ∙ covered t from to)
