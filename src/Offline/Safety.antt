-- ===== src/Offline/Safety.antt =====
-- The actions and the delays of web/src/lib/offline-sales-policy.ts.
use royalvibe_cosmetic.Common.{
  ℕ, ◌≤◌, ◌≡◌, refl, sym, ap, subst, ◌∙◌, String, Bool, true, false, ◌&&◌, ◌||◌, Option, none, some,
  or_else, leb, ltb, ◌==◌, if◌then◌else◌, min, max, arith,
}
use royalvibe_cosmetic.Offline.Policy.{
  OutboxStatus, pending, syncing, abandoned, LastError, Decision, conflict, classify_http, code_is,
  clamp_delay, compute_backoff_ms, compute_retry_delay_ms, AllowedActions, Operation,
  conflict_actions, allowed_operation_actions, reserves_stock, is_corruption, is_business, refused,
}

conflict_actions-edit :
    (attempts : ℕ) (error : Option LastError)
    → (conflict_actions attempts error).edit ≡ true
    → (conflict_actions attempts error).may_be_recorded ≡ false
unfolding conflict_actions
conflict_actions-edit attempts none h = absurd (ground arith)
conflict_actions-edit attempts (some error) h = ground arith

edit_by_status :
    (status : OutboxStatus) (loaded_at : Option ℕ) (op : Operation)
    → op.status ≡ status
    → (allowed_operation_actions op).edit ≡ true
    → ((allowed_operation_actions op).may_be_recorded ≡ false)
      × (reserves_stock loaded_at op ≡ false)
unfolding allowed_operation_actions reserves_stock
edit_by_status pending loaded_at op e h = absurd (cc)
edit_by_status syncing loaded_at op e h = absurd (cc)
edit_by_status OutboxStatus.synced loaded_at op e h = absurd (cc)
edit_by_status abandoned loaded_at op e h = absurd (cc)
edit_by_status OutboxStatus.conflict loaded_at op e h =
    let actions : allowed_operation_actions op ≡ conflict_actions op.attempts op.last_error =
      rw (e, allowed_operation_actions) refl in
    let stock : reserves_stock loaded_at op
        ≡ (conflict_actions op.attempts op.last_error).may_be_recorded =
      rw (e, reserves_stock) (ap AllowedActions.may_be_recorded actions) in
    let unrecorded : (conflict_actions op.attempts op.last_error).may_be_recorded ≡ false =
      conflict_actions-edit op.attempts op.last_error (sym (ap AllowedActions.edit actions) ∙ h) in
    (ap AllowedActions.may_be_recorded actions ∙ unrecorded, stock ∙ unrecorded)

-- The actions never offer a correction together with the warning that the sale may be recorded, and
-- hold no stock for an operation that may be corrected.
pub allowed_operation_actions-edit :
    (loaded_at : Option ℕ) (op : Operation)
    → (allowed_operation_actions op).edit ≡ true
    → ((allowed_operation_actions op).may_be_recorded ≡ false)
      × (reserves_stock loaded_at op ≡ false)
allowed_operation_actions-edit loaded_at op h = edit_by_status op.status loaded_at op refl h

-- What a conflict says of the answer that it comes from.
abbrev Refuses : ℕ → Decision → Type 0
Refuses status (conflict error) =
    (is_corruption error.kind ≡ false)
    × (is_business error.kind ≡ true)
    × (error.http_status ≡ some status)
    × (ltb status 500 ≡ true)
Refuses status _ = Unit

skips :
    (status : ℕ) (b : Bool) (d r : Decision)
    → Refuses status d
    → (b ≡ false → Refuses status r)
    → Refuses status (if b then d else r)
skips status true d r k rest = k
skips status false d r k rest = rest refl

classify_http-Refuses :
    (http_code : ℕ → String) (status : ℕ) (code : Option String) (retry_after : Option ℕ)
    → Refuses status (classify_http http_code status code retry_after)
unfolding classify_http
classify_http-Refuses http_code status code retry_after =
    skips status (leb 200 status && ltb status 300) _ _ tt (λ _.
      skips status (status == 401) _ _ tt (λ _. skips status (status == 403) _ _ tt (λ _.
        skips status (status == 409 && code_is "SALE_OPERATION_ALREADY_APPLIED" code) _ _ tt (λ _.
          skips status
            (status == 409
              && (code_is "IDEMPOTENCY_KEY_REUSED" code || code_is "IDEMPOTENCY_KEY_CONFLICT" code))
            _ _ tt
            (λ _.
              skips status (status == 429 || leb 500 status) _ _ tt
                (λ final. (refl, refl, refl, ground arith)))))))

-- A refusal of the server between 400 and 499 that ends in a conflict may be corrected, whatever the
-- attempts, unless it carries one of the two codes that the client keeps for itself.
pub classify_http-edit :
    (http_code : ℕ → String) (status : ℕ) (code : Option String) (retry_after : Option ℕ)
    (attempts : ℕ) (error : LastError)
    → classify_http http_code status code retry_after ≡ conflict error
    → 400 ≤ status
    → code_is "SERVER_UNAVAILABLE" error.code ≡ false
    → code_is "EXPIRED" error.code ≡ false
    → (conflict_actions attempts (some error)).edit ≡ true
unfolding conflict_actions
classify_http-edit http_code status code retry_after attempts error e h unavailable expired =
    let (kind, is_business_kind, status_kept, below) =
      subst (Refuses status) e (classify_http-Refuses http_code status code retry_after) in
    let refused_there : refused error.http_status ≡ true = rw status_kept (ground arith) in
    rw (kind, unavailable, expired, is_business_kind, refused_there, conflict_actions)
      (ground arith)

clamp_whole :
    (n : ℕ)
    → (2000 ≤ clamp_delay n 1) × (clamp_delay n 1 ≤ 300000) × (min n 300000 ≤ clamp_delay n 1)
unfolding clamp_delay
clamp_whole n = (omega arith, omega arith, omega arith)

-- A repetition waits between two seconds and five minutes, and not less than the server asked for, up
-- to the five minutes.
pub compute_retry_delay_ms-bounds :
    (attempts random : ℕ) (retry_after : Option ℕ)
    → (2000 ≤ compute_retry_delay_ms attempts retry_after random)
      × (compute_retry_delay_ms attempts retry_after random ≤ 300000)
      × (min (or_else retry_after 0) 300000 ≤ compute_retry_delay_ms attempts retry_after random)
unfolding compute_retry_delay_ms
compute_retry_delay_ms-bounds attempts random retry_after =
    let backoff = compute_backoff_ms attempts random in
    let asked = or_else retry_after 0 in
    let (low, high, enough) = clamp_whole (max backoff asked) in
    let more : min asked 300000 ≤ min (max backoff asked) 300000 = omega arith in
    (low, high, omega (arith, more, enough))
