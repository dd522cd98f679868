-- ===== src/Storage/Recount.antt =====
-- `recompute` of api/src/storage-quota/storage-quota.service.ts rebuilds a counter from the registry,
-- whatever it said before.
use royalvibe_cosmetic.Common.{
  ℕ, ◌+◌, ◌≡◌, ◌≢◌, ◌↔◌, String, Bool, true, false, List, [], ◌∷◌, str_eq, if◌then◌else◌, total,
  arith, eq_iff, eq_refl, Bool-cases, inl, inr,
}
use royalvibe_cosmetic.Common.Int.{ℤ, pos, negsuc}
use royalvibe_cosmetic.Common.Dict.{insert, lookup-insert}
use royalvibe_cosmetic.Storage.Model.{
  State, reserved, uploaded, attached, deleting, is_reserved, state_eq, StoredObject, Usage, World,
}
use royalvibe_cosmetic.Storage.Cycle.{usage_of, ensure_usage}
use royalvibe_cosmetic.Storage.Reconcile.{
  Row, add_to_rows, aggregate, Sums, add_row, add_rows, expected_usage, int_eq, same_usage,
  recompute,
}
use royalvibe_cosmetic.Storage.Accounting.{
  Matches, reserved_bytes_in, reserved_objects_in, stored_bytes_in, stored_objects_in,
}
use royalvibe_cosmetic.Storage.Preserve.{usage_of-ensure_usage, objects-ensure_usage}

-- What a row brings to each of the four sums.
abbrev row_reserved_bytes : Row → ℕ
row_reserved_bytes r = if is_reserved r.state then r.bytes else 0

abbrev row_reserved_objects : Row → ℕ
row_reserved_objects r = if is_reserved r.state then r.count else 0

abbrev row_stored_bytes : Row → ℕ
row_stored_bytes r = if is_reserved r.state then 0 else r.bytes

abbrev row_stored_objects : Row → ℕ
row_stored_objects r = if is_reserved r.state then 0 else r.count

-- The loop adds up what the rows bring.
add_rows_lem :
    (rs : List Row) (s : Sums)
    → ((add_rows rs s).stored_bytes ≡ s.stored_bytes + total row_stored_bytes rs)
      × ((add_rows rs s).stored_objects ≡ s.stored_objects + total row_stored_objects rs)
      × ((add_rows rs s).reserved_bytes ≡ s.reserved_bytes + total row_reserved_bytes rs)
      × ((add_rows rs s).reserved_objects ≡ s.reserved_objects + total row_reserved_objects rs)
unfolding add_rows
add_rows_lem [] s = omega arith
add_rows_lem (r ∷ rs) s = ground (arith, add_rows_lem rs (add_row r s))

state_eq_sound : (s t : State) → state_eq s t ≡ true → is_reserved s ≡ is_reserved t
state_eq_sound reserved t h = ground arith
state_eq_sound uploaded t h = ground arith
state_eq_sound attached t h = ground arith
state_eq_sound deleting t h = ground arith

-- An entry brings to the rows what it weighs, wherever it is put.
add_to_rows_lem :
    (e : StoredObject) (rs : List Row)
    → (total row_stored_bytes (add_to_rows e rs)
        ≡ total row_stored_bytes rs + (if is_reserved e.state then 0 else e.bytes))
      × (total row_stored_objects (add_to_rows e rs)
          ≡ total row_stored_objects rs + (if is_reserved e.state then 0 else 1))
      × (total row_reserved_bytes (add_to_rows e rs)
          ≡ total row_reserved_bytes rs + (if is_reserved e.state then e.bytes else 0))
      × (total row_reserved_objects (add_to_rows e rs)
          ≡ total row_reserved_objects rs + (if is_reserved e.state then 1 else 0))
unfolding add_to_rows
add_to_rows_lem e [] = ground arith
add_to_rows_lem e (r ∷ rs) = ground (arith, state_eq_sound r.state e.state, add_to_rows_lem e rs)

aggregate_lem :
    (org : String) (es : List StoredObject)
    → (total row_stored_bytes (aggregate org es) ≡ total (stored_bytes_in org) es)
      × (total row_stored_objects (aggregate org es) ≡ total (stored_objects_in org) es)
      × (total row_reserved_bytes (aggregate org es) ≡ total (reserved_bytes_in org) es)
      × (total row_reserved_objects (aggregate org es) ≡ total (reserved_objects_in org) es)
unfolding aggregate
aggregate_lem org [] = ground arith
aggregate_lem org (e ∷ es) =
    ground (arith, add_to_rows_lem e (aggregate org es), aggregate_lem org es)

expected_usage-Matches :
    (org : String) (es : List StoredObject) → Matches (expected_usage org es) org es
unfolding expected_usage
expected_usage-Matches org es = ground (
  arith,
  aggregate_lem org es,
  add_rows_lem (aggregate org es)
      (record { stored_bytes = 0; stored_objects = 0; reserved_bytes = 0; reserved_objects = 0 }),
)

int_eq_refl : (z : ℤ) → int_eq z z ≡ true
int_eq_refl (pos n) = ground arith
int_eq_refl (negsuc n) = ground arith

int_eq_sound : (y z : ℤ) → int_eq y z ≡ true → y ≡ z
int_eq_sound y z h = ground arith

same_usage_refl : (u : Usage) → same_usage u u ≡ true
same_usage_refl u = ground (
  arith,
  int_eq_refl u.stored_bytes,
  int_eq_refl u.stored_objects,
  int_eq_refl u.reserved_bytes,
  int_eq_refl u.reserved_objects,
)

same_usage_sound : (u v : Usage) → same_usage u v ≡ true → u ≡ v
same_usage_sound u v h = ground (
  arith,
  int_eq_sound u.stored_bytes v.stored_bytes,
  int_eq_sound u.stored_objects v.stored_objects,
  int_eq_sound u.reserved_bytes v.reserved_bytes,
  int_eq_sound u.reserved_objects v.reserved_objects,
)

Matches-unique :
    {u v : Usage} {org : String} {es : List StoredObject}
    → Matches u org es
    → Matches v org es
    → u ≡ v
Matches-unique m n = ground arith

usage_of-insert :
    (o org : String) (u : Usage) (w : World)
    → usage_of org (record w { usages = insert o u w.usages })
      ≡ (if str_eq o org then u else usage_of org w)
usage_of-insert o org u w = ground (arith, lookup-insert o org u w.usages)

-- The agreement test, at the registry and the counter of one world.
agrees : String → World → Bool
agrees org w = same_usage (expected_usage org w.objects) (usage_of org w)

agrees_iff :
    (org : String) (w : World) → (agrees org w ≡ true) ↔ Matches (usage_of org w) org w.objects
unfolding agrees
agrees_iff org w = (
  λ e.
      rw (← same_usage_sound (expected_usage org w.objects) (usage_of org w) e)
        (expected_usage-Matches org w.objects),
  λ m.
      rw (Matches-unique m (expected_usage-Matches org w.objects))
        (same_usage_refl (expected_usage org w.objects)),
)

agrees-ensure_usage : (org : String) (w : World) → agrees org (ensure_usage org w) ≡ agrees org w
unfolding agrees
agrees-ensure_usage org w = rw (usage_of-ensure_usage org org w, objects-ensure_usage org w)

-- `recompute` reports agreement exactly when the counter holds the sums over the registry.
pub recompute-consistent_iff :
    (org : String) (apply : Bool) (w : World)
    → ((recompute org apply w).1 ≡ true) ↔ Matches (usage_of org w) org w.objects
unfolding recompute agrees
recompute-consistent_iff org true w = rw (agrees-ensure_usage org w) (agrees_iff org w)
recompute-consistent_iff org false w = agrees_iff org w

usage_of-recompute :
    (org : String) (w : World)
    → usage_of org (recompute org true w).0 ≡ expected_usage org w.objects
unfolding recompute agrees
usage_of-recompute org w =
    let w1 = ensure_usage org w in
    let expected = expected_usage org w1.objects in
    elim (Bool-cases (agrees org w1)) [
      | inl same ↦
          ground
            (arith, same_usage_sound expected (usage_of org w1) same, objects-ensure_usage org w)
      | inr other ↦
          ground
            (arith, usage_of-insert org org expected w1, eq_refl org, objects-ensure_usage org w)
    ]

pub objects-recompute : (org : String) (w : World) → (recompute org true w).0.objects ≡ w.objects
unfolding recompute
objects-recompute org w = ground (arith, objects-ensure_usage org w)

usage_of-recompute_ne :
    (org : String) (w : World) (o : String)
    → o ≢ org
    → usage_of o (recompute org true w).0 ≡ usage_of o w
unfolding recompute
usage_of-recompute_ne org w o ne =
    let w1 = ensure_usage org w in
    ground (
      arith,
      usage_of-insert org o (expected_usage org w1.objects) w1,
      usage_of-ensure_usage org o w,
      eq_iff org o,
    )

-- Whatever the counter said, it holds the sums over the registry after `recompute` with `apply`;
-- the registry and the other counters are as they were.
pub recompute-Matches :
    (org : String) (w : World)
    → Matches (usage_of org (recompute org true w).0) org w.objects
      × ((recompute org true w).0.objects ≡ w.objects)
      × ((o : String) → o ≢ org → usage_of o (recompute org true w).0 ≡ usage_of o w)
recompute-Matches org w = (
  rw (usage_of-recompute org w) (expected_usage-Matches org w.objects),
  objects-recompute org w,
  usage_of-recompute_ne org w,
)
