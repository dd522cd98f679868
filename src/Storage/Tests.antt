-- ===== src/Storage/Tests.antt =====
-- Runs of the model of api/src/storage-quota, and each theorem at an input that meets its
-- hypotheses.
use royalvibe_cosmetic.Common.{
  str_eq, ◌+◌, ◌≡◌, ◌≢◌, ◌↔◌, refl, String, true, false, none, some, [], ◌∷◌, leb,
}
use royalvibe_cosmetic.Common.Int.{pos, ◌+ℤ◌}
use royalvibe_cosmetic.Common.Dict.{lookup, insert}
use royalvibe_cosmetic.Storage.Model.{
  product_image, reserved, upload, StoredObject, StagedObject, World, Config, ok, err,
  quota_exceeded, delete_stored_object, lease_from_now, is_referenced, prefix_for_kind,
  same_storage, state_eq,
}
use royalvibe_cosmetic.Storage.Registry.{find_object, update_object, erase_object}
use royalvibe_cosmetic.Storage.Cycle.{
  usage_of, ensure_usage, inc_usage, create_object, reserve, mark_uploaded, release,
}
use royalvibe_cosmetic.Storage.Recovery.{
  Attempt, released, recover_one, recover_loop, recover, store, due_entries, is_due, postpone,
}
use royalvibe_cosmetic.Storage.Reconcile.{recompute}
use royalvibe_cosmetic.Storage.Accounting.{Matches, IsConsistent}
use royalvibe_cosmetic.Storage.Upload.{occupied, reserve_decides, store-IsConsistent}
use royalvibe_cosmetic.Storage.Recount.{recompute-Matches, recompute-consistent_iff}
use royalvibe_cosmetic.Storage.CycleConsistency.{reserve-IsConsistent}
use royalvibe_cosmetic.Storage.RecoveryConsistency.{recover-IsConsistent}
use royalvibe_cosmetic.Storage.Ownership.{AllOwned}
use royalvibe_cosmetic.Storage.Trace.{reserving, here, next, Reach-IsConsistent}
use royalvibe_cosmetic.Storage.Safety.{recover_one-released}

abbrev config : Config
config = record {
  quota_bytes = 100;
  enforce = true;
  reservation_ttl_seconds = 60;
  storage = some "s3";
}

abbrev empty : World
empty = record { objects = []; usages = []; products = []; organizations = [] }

abbrev photo : StagedObject
photo = record {
  id = "s3::organizations/o/products/a.png";
  key = "organizations/o/products/a.png";
  storage = "s3";
  organization_id = "o";
  kind = product_image;
  bytes = 60;
}

abbrev attempt : StoredObject → Attempt
attempt e = record {
  begun = true;
  sent = true;
  available = true;
  postponed = true;
  postponed_again = true;
}

empty-IsConsistent : IsConsistent empty
unfolding lookup
empty-IsConsistent = record {
  counts = λ org. record {
    stored_bytes = refl;
    stored_objects = refl;
    reserved_bytes = refl;
    reserved_objects = refl;
  };
}

-- An upload that arrives is counted as stored.
stores : usage_of "o" (store config 0 attempt true (λ w. w) photo empty).0 ≡ record {
  stored_bytes = pos 60;
  stored_objects = pos 1;
  reserved_bytes = pos 0;
  reserved_objects = pos 0;
}
unfolding store mark_uploaded reserve ensure_usage inc_usage create_object find_object update_object
    lookup insert ◌+ℤ◌
stores = refl

abbrev granted : World
granted = record empty {
  objects =
      record {
        id = photo.id;
        organization_id = "o";
        storage = "s3";
        key = photo.key;
        kind = product_image;
        bytes = 60;
        state = reserved;
        lease_until = some 60000;
        attempts = 0;
        source = upload;
      }
      ∷ [];
  usages =
      (
        "o",
        record {
          stored_bytes = pos 0;
          stored_objects = pos 0;
          reserved_bytes = pos 60;
          reserved_objects = pos 1;
        },
      )
      ∷ [];
}

reserves : reserve config 0 photo empty ≡ ok (granted, true)
unfolding reserve ensure_usage inc_usage create_object find_object lookup insert ◌+ℤ◌ lease_from_now
reserves = refl

-- A second upload of the same size does not fit the quota of 100 bytes.
refuses :
    (store config 1 attempt true (λ w. w) (record photo { id = "b" }) granted).1
    ≡ err quota_exceeded
unfolding store reserve ensure_usage inc_usage create_object find_object update_object lookup insert
    ◌+ℤ◌ due_entries is_due recover recover_loop
refuses = refl

reserve_decides_example : true ≡ leb (occupied "o" empty + 60) 100
reserve_decides_example = reserve_decides config 0 photo refl empty-IsConsistent reserves

store-IsConsistent_example : IsConsistent (store config 0 attempt true (λ w. w) photo empty).0
store-IsConsistent_example =
    store-IsConsistent config 0 attempt photo true (λ w. w) (λ v h g. (h, g)) empty-IsConsistent

abbrev small : StagedObject
small = record photo {
  id = "s3::organizations/o/products/b.png";
  key = "organizations/o/products/b.png";
  bytes = 30;
}

-- Two reservations of the same organization.
abbrev both : World
both = record granted {
  objects =
      record {
        id = small.id;
        organization_id = "o";
        storage = "s3";
        key = small.key;
        kind = product_image;
        bytes = 30;
        state = reserved;
        lease_until = some 60000;
        attempts = 0;
        source = upload;
      }
      ∷ granted.objects;
  usages =
      (
        "o",
        record {
          stored_bytes = pos 0;
          stored_objects = pos 0;
          reserved_bytes = pos 90;
          reserved_objects = pos 2;
        },
      )
      ∷ [];
}

reserves_both : reserve config 0 small granted ≡ ok (both, true)
unfolding reserve ensure_usage inc_usage create_object find_object lookup insert ◌+ℤ◌ lease_from_now
reserves_both = refl

-- The storage deletes the file of the second, and the database is lost before its release.
abbrev one_fails : StoredObject → Attempt
one_fails e = record (attempt e) { available = str_eq e.id photo.id }

-- Of two entries that are due, one is released and one is left for a later round.
one_of_two :
    (recover config 60000 one_fails none 100 both).1
    ≡ record { examined = 2; released = 1; attached = 0; retry = 1; skipped = 0 }
unfolding recover recover_loop release find_object update_object erase_object is_referenced
    inc_usage lookup insert ◌+ℤ◌ delete_stored_object prefix_for_kind due_entries is_due postpone
one_of_two = refl

recover-IsConsistent_example : IsConsistent (recover config 60000 one_fails none 100 both).0
recover-IsConsistent_example = recover-IsConsistent config 60000 one_fails none 100 (
    reserve-IsConsistent config 0 small
      (reserve-IsConsistent config 0 photo empty-IsConsistent reserves) reserves_both)

recompute-Matches_example :
    Matches
      (usage_of "o" (recompute "o" true (record granted { usages = [] })).0)
      "o"
      granted.objects
    × ((recompute "o" true (record granted { usages = [] })).0.objects ≡ granted.objects)
    × ((o : String)
        → o ≢ "o"
        → usage_of o (recompute "o" true (record granted { usages = [] })).0
          ≡ usage_of o (record granted { usages = [] }))
recompute-Matches_example = recompute-Matches "o" (record granted { usages = [] })

recompute-consistent_iff_example :
    ((recompute "o" false granted).1 ≡ true) ↔ Matches (usage_of "o" granted) "o" granted.objects
recompute-consistent_iff_example = recompute-consistent_iff "o" false granted

Reach-IsConsistent_example : IsConsistent granted × AllOwned (λ id. photo) granted
Reach-IsConsistent_example =
    Reach-IsConsistent config (λ id. photo) empty-IsConsistent (record { entries = tt })
      (next here (reserving 0 photo refl reserves))

abbrev expired : StoredObject
expired = record {
  id = photo.id;
  organization_id = "o";
  storage = "s3";
  key = photo.key;
  kind = product_image;
  bytes = 60;
  state = reserved;
  lease_until = some 60000;
  attempts = 0;
  source = upload;
}

recovers : (recover_one config 60000 (attempt expired) expired granted).1 ≡ released
unfolding recover_one release find_object update_object erase_object is_referenced inc_usage lookup
    insert ◌+ℤ◌ delete_stored_object prefix_for_kind
recovers = refl

recover_one-released_example :
    ((e : StoredObject) × (find_object photo.id (state_eq reserved) granted.objects ≡ some e)
      × (is_referenced granted e.kind "o" e.key ≡ false))
    × (same_storage config.storage (some "s3") ≡ true)
    × (true ≡ true)
recover_one-released_example =
    recover_one-released config 60000 (attempt expired) expired granted recovers
