-- ===== src/Storage/Reconcile.antt =====
-- `recompute`, `countExisting`, `countUntracked`, the transaction of `reconcileOrphans` and `usage`
-- of api/src/storage-quota/storage-quota.service.ts.
use royalvibe_cosmetic.Common.{
  ℕ, ◌+◌, ◌-◌, ◌*◌, max, String, Bool, true, false, not, ◌&&◌, Option, none, some, List, [], ◌∷◌,
  str_eq, ◌==◌, if◌then◌else◌, or_else,
}
use royalvibe_cosmetic.Common.Int.{ℤ, pos, negsuc, pos_part}
use royalvibe_cosmetic.Common.Dict.{insert}
use royalvibe_cosmetic.Storage.Model.{
  Kind, State, attached, deleting, initialization, reconciliation, is_reserved, is_attached,
  state_eq, StoredObject, Usage, World, Config, stored_object_id, is_referenced, lock_reference,
}
use royalvibe_cosmetic.Storage.Registry.{find_object, update_object, any_state}
use royalvibe_cosmetic.Storage.Cycle.{usage_of, ensure_usage, inc_usage, count_inc, set_state}

-- One row of the aggregation: `{ _id: state, bytes, count }`.
pub record Row : Type 0 where
  pub state : State
  pub bytes : ℕ
  pub count : ℕ

unfoldable pub add_to_rows : StoredObject → List Row → List Row
add_to_rows e [] = record { state = e.state; bytes = e.bytes; count = 1 } ∷ []
add_to_rows e (r ∷ rs) =
    if state_eq r.state e.state
    then record r { bytes = r.bytes + e.bytes; count = r.count + 1 } ∷ rs
    else r ∷ add_to_rows e rs

-- `$match` by organization, then `$group` by state.
unfoldable pub aggregate : String → List StoredObject → List Row
unfolding add_to_rows
aggregate org [] = []
aggregate org (e ∷ es) =
    if str_eq e.organization_id org then add_to_rows e (aggregate org es) else aggregate org es

-- The four sums, which are never negative.
pub record Sums : Type 0 where
  pub stored_bytes : ℕ
  pub stored_objects : ℕ
  pub reserved_bytes : ℕ
  pub reserved_objects : ℕ

-- The loop over the rows.
unfoldable pub add_row : Row → Sums → Sums
add_row r s =
    if is_reserved r.state
    then record s {
      reserved_bytes = s.reserved_bytes + r.bytes;
      reserved_objects = s.reserved_objects + r.count;
    }
    else record s {
      stored_bytes = s.stored_bytes + r.bytes;
      stored_objects = s.stored_objects + r.count;
    }

unfoldable pub add_rows : List Row → Sums → Sums
unfolding add_row
add_rows [] s = s
add_rows (r ∷ rs) s = add_rows rs (add_row r s)

unfoldable pub expected_usage : String → List StoredObject → Usage
unfolding add_rows aggregate
expected_usage org es =
    let s =
      add_rows (aggregate org es) (record {
        stored_bytes = 0;
        stored_objects = 0;
        reserved_bytes = 0;
        reserved_objects = 0;
      }) in
    record {
      stored_bytes = pos s.stored_bytes;
      stored_objects = pos s.stored_objects;
      reserved_bytes = pos s.reserved_bytes;
      reserved_objects = pos s.reserved_objects;
    }

abbrev pub int_eq : ℤ → ℤ → Bool
int_eq (pos a) (pos b) = a == b
int_eq (negsuc a) (negsuc b) = a == b
int_eq _ _ = false

abbrev pub same_usage : Usage → Usage → Bool
same_usage u v =
    int_eq u.stored_bytes v.stored_bytes
    && int_eq u.stored_objects v.stored_objects
    && int_eq u.reserved_bytes v.reserved_bytes
    && int_eq u.reserved_objects v.reserved_objects

-- The counter set to what the registry says, and whether it stood there already.
unfoldable pub recompute : String → Bool → World → World × Bool
recompute org apply w =
    let w1 = if apply then ensure_usage org w else w in
    let expected = expected_usage org w1.objects in
    let consistent = same_usage expected (usage_of org w1) in
    (
      if apply && not consistent then record w1 { usages = insert org expected w1.usages } else w1,
      consistent,
    )

pub data Counted : Type 0 where
  counted already_tracked reference_changed : Counted

abbrev pub existing_entry : String → Kind → String → String → ℕ → StoredObject
existing_entry org kind key storage bytes = record {
  id = stored_object_id storage key;
  organization_id = org;
  storage = storage;
  key = key;
  kind = kind;
  bytes = bytes;
  state = attached;
  lease_until = none;
  attempts = 0;
  source = initialization;
}

-- A file that a document already refers to, of a size that the storage reports.
unfoldable pub count_existing : String → Kind → String → String → ℕ → World → World × Counted
count_existing org kind key storage bytes w =
    let id = stored_object_id storage key in
    let (w1, referenced) = lock_reference (ensure_usage org w) kind org key in
    if referenced
    then elim (find_object id any_state w1.objects) [
      | some _ ↦ (w1, already_tracked)
      | none ↦ (
        inc_usage org (count_inc bytes)
            (record w1 { objects = existing_entry org kind key storage bytes ∷ w1.objects }),
        counted,
      )
    ]
    else (ensure_usage org w, reference_changed)

pub record ListedObject : Type 0 where
  pub key : String
  pub bytes : ℕ
  pub last_modified : Option ℕ

pub data Untracked : Type 0 where
  tracked untracked_referenced untracked_unreferenced : Untracked

abbrev pub untracked_entry :
    Config → ℕ → String → Kind → String → ListedObject → Bool → StoredObject
untracked_entry c now org kind storage object referenced = record {
  id = stored_object_id storage object.key;
  organization_id = org;
  storage = storage;
  key = object.key;
  kind = kind;
  bytes = object.bytes;
  state = if referenced then attached else deleting;
  lease_until =
      if referenced
      then none
      else some (max now (or_else object.last_modified now + c.reservation_ttl_seconds * 1000));
  attempts = 0;
  source = reconciliation;
}

-- A file that the storage lists and the registry does not know.
unfoldable pub count_untracked :
    Config → ℕ → String → Kind → String → ListedObject → World → World × Untracked
count_untracked c now org kind storage object w =
    let w0 = ensure_usage org w in
    elim (find_object (stored_object_id storage object.key) any_state w0.objects) [
      | some _ ↦ (w0, tracked)
      | none ↦
          let (w1, referenced) = lock_reference w0 kind org object.key in
          (
            inc_usage org (count_inc object.bytes) (record w1 {
              objects = untracked_entry c now org kind storage object referenced ∷ w1.objects;
            }),
            if referenced then untracked_referenced else untracked_unreferenced,
          )
    ]

-- The transaction of `reconcileOrphans` for an entry whose reference was not found.
unfoldable pub detach_orphan : ℕ → StoredObject → World → World × Bool
detach_orphan now entry w = elim (find_object entry.id is_attached w.objects) [
  | none ↦ (w, false)
  | some _ ↦ if is_referenced w entry.kind entry.organization_id entry.key then (w, false) else (
    record w {
      objects = update_object entry.id is_attached (set_state deleting (some now)) w.objects;
    },
    true,
  )
]

pub record StorageUsageView : Type 0 where
  pub limit_bytes : ℕ
  pub used_bytes : ℕ
  pub stored_objects : ℕ
  pub reserved_bytes : ℕ
  pub pending_uploads : ℕ
  pub available_bytes : ℕ
  pub enforced : Bool

-- `Math.max(0, z)` is the positive part.
unfoldable pub usage : Config → String → World → StorageUsageView
usage c org w =
    let u = usage_of org w in
    record {
      limit_bytes = c.quota_bytes;
      used_bytes = pos_part u.stored_bytes;
      stored_objects = pos_part u.stored_objects;
      reserved_bytes = pos_part u.reserved_bytes;
      pending_uploads = pos_part u.reserved_objects;
      available_bytes = c.quota_bytes - pos_part u.stored_bytes - pos_part u.reserved_bytes;
      enforced = c.enforce;
    }
