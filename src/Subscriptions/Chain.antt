-- ===== src/Subscriptions/Chain.antt =====
-- The chain of periods that the grants of api/src/subscriptions/subscriptions.service.ts build.
use royalvibe_cosmetic.Common.{
  ℕ, ◌+◌, ◌≤◌, ◌<◌, ◌≡◌, refl, ap, subst, String, true, ◌&&◌, Option, none, some, List, [], ◌∷◌,
  leb, ltb, if◌then◌else◌, arith, eq_iff, Bool-cases, Option-cases, ◌⊎◌, inl, inr, All, All-imp,
  total,
}
use royalvibe_cosmetic.Subscriptions.Calendar.{Date, get_time, IsValid}
use royalvibe_cosmetic.Subscriptions.Months.{compute_subscription_ends_at-later}
use royalvibe_cosmetic.Subscriptions.Requests.{ValidatedGrantRequest}
use royalvibe_cosmetic.Subscriptions.Grants.{
  SubscriptionPeriod, of_org, greatest, rank_of, end_time, ends_at_of, granted_period,
  compute_renewal_starts_at,
}

abbrev pub sequence_of : SubscriptionPeriod → ℕ
sequence_of p = p.sequence

abbrev pub counts_org : String → SubscriptionPeriod → ℕ
counts_org org p = if of_org org p then 1 else 0

-- How many periods an organization has.
abbrev pub count_of : String → List SubscriptionPeriod → ℕ
count_of org ps = total (counts_org org) ps

-- A period that takes the next rank of its organization, starts when every earlier one has ended,
-- and ends after it starts.
pub record Follows (p : SubscriptionPeriod) (ps : List SubscriptionPeriod) : Type 0 where
  pub rank : p.sequence ≡ count_of p.organization_id ps + 1
  pub after : All (λ q. of_org p.organization_id q ≡ true → end_time q ≤ get_time p.starts_at) ps
  pub lasts : get_time p.starts_at < end_time p
  pub end_valid : IsValid p.ends_at

abbrev pub IsChained : List SubscriptionPeriod → Type 0
IsChained [] = Unit
IsChained (p ∷ ps) = Follows p ps × IsChained ps

count_of_same_org :
    (org : String) (p : SubscriptionPeriod) (ps : List SubscriptionPeriod)
    → of_org org p ≡ true
    → count_of p.organization_id ps ≡ count_of org ps
count_of_same_org org p ps h =
    ap (λ o. count_of o ps) (ground (arith, eq_iff p.organization_id org))

-- One step of the search for the greatest rank.
greatest-step :
    (rank : SubscriptionPeriod → ℕ) (org : String) (p : SubscriptionPeriod)
    (ps : List SubscriptionPeriod)
    → rank_of rank (greatest rank org (p ∷ ps)) ≡ (
        if of_org org p && ltb (rank_of rank (greatest rank org ps)) (rank p)
        then rank p
        else rank_of rank (greatest rank org ps))
unfolding greatest
greatest-step rank org p ps = elim (Option-cases (greatest rank org ps)) [
  | inl e ↦ ground (arith)
  | inr (q, e) ↦ ground (arith)
]

-- The greatest rank is at least every rank of the organization.
greatest-bounds :
    (rank : SubscriptionPeriod → ℕ) (org : String) (top : ℕ) (ps : List SubscriptionPeriod)
    → rank_of rank (greatest rank org ps) ≤ top
    → All (λ q. of_org org q ≡ true → rank q ≤ top) ps
greatest-bounds rank org top [] h = tt
greatest-bounds rank org top (p ∷ ps) h =
    let step = greatest-step rank org p ps in
    (λ mine. ground arith, greatest-bounds rank org top ps (ground arith))

-- On a chain, the greatest rank is the number of periods.
greatest-sequence :
    (org : String) (ps : List SubscriptionPeriod)
    → IsChained ps
    → rank_of sequence_of (greatest sequence_of org ps) ≡ count_of org ps
unfolding greatest
greatest-sequence org [] h = refl
greatest-sequence org (p ∷ ps) (f, h) =
    let step = greatest-step sequence_of org p ps in
    let rest = greatest-sequence org ps h in
    elim (Bool-cases (of_org org p)) [
      | inl mine ↦ let rank = f.rank in let same = count_of_same_org org p ps mine in ground arith
      | inr other ↦ ground arith
    ]

greatest-choice :
    (rank : SubscriptionPeriod → ℕ) (org : String) (p : SubscriptionPeriod)
    (ps : List SubscriptionPeriod)
    → (greatest rank org (p ∷ ps) ≡ some p) ⊎ (greatest rank org (p ∷ ps) ≡ greatest rank org ps)
unfolding greatest
greatest-choice rank org p ps = elim (Option-cases (greatest rank org ps)) [
  | inl e ↦ elim (Bool-cases (of_org org p)) [
    | inl mine ↦ inl (ground arith)
    | inr other ↦ inr (ground arith)
  ]
  | inr (q, e) ↦ elim (Bool-cases (of_org org p && ltb (rank q) (rank p))) [
    | inl mine ↦ inl (rw (e, mine) refl)
    | inr other ↦ inr (rw (e, other) refl)
  ]
]

-- The end of the chosen period, if there is one.
abbrev EndIsValid : Option SubscriptionPeriod → Type 0
EndIsValid none = Unit
EndIsValid (some q) = IsValid q.ends_at

greatest-EndIsValid :
    (rank : SubscriptionPeriod → ℕ) (org : String) (ps : List SubscriptionPeriod)
    → IsChained ps
    → EndIsValid (greatest rank org ps)
unfolding greatest
greatest-EndIsValid rank org [] h = tt
greatest-EndIsValid rank org (p ∷ ps) (f, h) = elim (greatest-choice rank org p ps) [
  | inl here ↦ rw here f.end_valid
  | inr there ↦ rw there (greatest-EndIsValid rank org ps h)
]

-- A renewal starts neither before now nor before the coverage ends.
compute_renewal_starts_at-bounds :
    (now : Date) (o : Option SubscriptionPeriod)
    → IsValid now
    → EndIsValid o
    → IsValid (compute_renewal_starts_at now (ends_at_of o))
      × (get_time now ≤ get_time (compute_renewal_starts_at now (ends_at_of o)))
      × (rank_of end_time o ≤ get_time (compute_renewal_starts_at now (ends_at_of o)))
unfolding compute_renewal_starts_at
compute_renewal_starts_at-bounds now none v e = (v, omega arith, omega arith)
compute_renewal_starts_at-bounds now (some q) v e =
    elim (Bool-cases (ltb (get_time now) (end_time q))) [
      | inl later ↦ rw later (e, ground arith, omega arith)
      | inr past ↦ rw past (v, omega arith, ground arith)
    ]

-- The period of a new grant follows the ones that are there, and does not start before now.
pub granted_period-Follows :
    (now : Date) (id : String) (request : ValidatedGrantRequest) (ps : List SubscriptionPeriod)
    → IsValid now
    → IsChained ps
    → Follows (granted_period now id request ps) ps
      × (get_time now ≤ get_time (granted_period now id request ps).starts_at)
unfolding granted_period
granted_period-Follows now id request ps v h =
    let org = request.organization_id in
    let latest = greatest end_time org ps in
    let (valid, from_now, from_end) =
      compute_renewal_starts_at-bounds now latest v (greatest-EndIsValid end_time org ps h) in
    let starts_at = compute_renewal_starts_at now (ends_at_of latest) in
    (
      record {
        rank = omega (arith, greatest-sequence org ps h);
        after = greatest-bounds end_time org (get_time starts_at) ps from_end;
        lasts = (compute_subscription_ends_at-later starts_at request.term valid).1;
        end_valid = (compute_subscription_ends_at-later starts_at request.term valid).0;
      },
      from_now,
    )

-- The periods of an organization that cover an instant.
abbrev pub covering : String → ℕ → SubscriptionPeriod → ℕ
covering org t p =
    if of_org org p && (leb (get_time p.starts_at) t && ltb t (end_time p)) then 1 else 0

covering-ended :
    (org : String) (t : ℕ) (ps : List SubscriptionPeriod)
    → All (λ q. of_org org q ≡ true → end_time q ≤ t) ps
    → total (covering org t) ps ≡ 0
covering-ended org t [] h = refl
covering-ended org t (p ∷ ps) (e, h) =
    let rest = covering-ended org t ps h in
    elim (Bool-cases (of_org org p)) [
      | inl mine ↦ let ended = e mine in ground arith
      | inr other ↦ ground arith
    ]

-- On a chain, at most one period of an organization covers an instant.
pub IsChained-exclusive :
    (org : String) (t : ℕ) (ps : List SubscriptionPeriod)
    → IsChained ps
    → total (covering org t) ps ≤ 1
IsChained-exclusive org t [] h = omega arith
IsChained-exclusive org t (p ∷ ps) (f, h) =
    let rest = IsChained-exclusive org t ps h in
    elim (Bool-cases (of_org org p && (leb (get_time p.starts_at) t && ltb t (end_time p)))) [
      | inl here ↦
          let mine : of_org org p ≡ true = ground arith in
          let same : p.organization_id ≡ org = ground (arith, eq_iff p.organization_id org) in
          let started : get_time p.starts_at ≤ t = ground arith in
          let ended : total (covering p.organization_id t) ps ≡ 0 =
            covering-ended p.organization_id t ps
              (All-imp (λ q h m. omega (arith, h m, started)) ps f.after) in
          let none_else : total (covering org t) ps ≡ 0 =
            subst (λ o. total (covering o t) ps ≡ 0) same ended in
          rw here (omega (arith, none_else))
      | inr away ↦ rw away (omega (arith, rest))
    ]
