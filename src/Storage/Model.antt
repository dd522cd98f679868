-- ===== src/Storage/Model.antt =====
-- The data of api/src/storage-quota: the registry `storage_objects`, the counters
-- `storage_usages`, the documents that refer to a file, and the storage's answers.
use Prim.Native.String
use Prim.Native.Char.{code}
use Prim.Native.String.{len}
use text.Mathlib.Text
use royalvibe_cosmetic.Common.{
  ℕ, ◌+◌, ◌*◌, String, Bool, true, false, ◌&&◌, Option, none, some, List, str_eq, ltb, ◌==◌,
  if◌then◌else◌, any, map,
}
use royalvibe_cosmetic.Common.Int.{ℤ, pos, ◌+ℤ◌}
use royalvibe_cosmetic.Common.Dict.{Dict}

pub data Kind : Type 0 where
  product_image logo : Kind

pub data State : Type 0 where
  reserved uploaded attached deleting : State

pub data Source : Type 0 where
  upload initialization reconciliation : Source

abbrev pub is_reserved : State → Bool
is_reserved reserved = true
is_reserved _ = false

abbrev pub is_uploaded : State → Bool
is_uploaded uploaded = true
is_uploaded _ = false

abbrev pub is_attached : State → Bool
is_attached attached = true
is_attached _ = false

abbrev pub is_deleting : State → Bool
is_deleting deleting = true
is_deleting _ = false

-- `state: expected` in a filter.
abbrev pub state_eq : State → State → Bool
state_eq reserved = is_reserved
state_eq uploaded = is_uploaded
state_eq attached = is_attached
state_eq deleting = is_deleting

pub record StoredObject : Type 0 where
  pub id : String
  pub organization_id : String
  pub storage : String
  pub key : String
  pub kind : Kind
  pub bytes : ℕ
  pub state : State
  pub lease_until : Option ℕ
  pub attempts : ℕ
  pub source : Source

unfoldable pub stored_object_id : String → String → String
stored_object_id storage key = String.◌++◌ (String.◌++◌ storage "::") key

pub record StagedObject : Type 0 where
  pub id : String
  pub key : String
  pub storage : String
  pub organization_id : String
  pub kind : Kind
  pub bytes : ℕ

pub record StoredObjectRef : Type 0 where
  pub key : String
  pub storage : Option String

-- One counter document; `$inc` may take a field below zero.
pub record Usage : Type 0 where
  pub stored_bytes : ℤ
  pub stored_objects : ℤ
  pub reserved_bytes : ℤ
  pub reserved_objects : ℤ

abbrev pub zero_usage : Usage
zero_usage = record {
  stored_bytes = pos 0;
  stored_objects = pos 0;
  reserved_bytes = pos 0;
  reserved_objects = pos 0;
}

-- `{ $inc: d }`
abbrev pub add_usage : Usage → Usage → Usage
add_usage u d = record {
  stored_bytes = u.stored_bytes +ℤ d.stored_bytes;
  stored_objects = u.stored_objects +ℤ d.stored_objects;
  reserved_bytes = u.reserved_bytes +ℤ d.reserved_bytes;
  reserved_objects = u.reserved_objects +ℤ d.reserved_objects;
}

-- A product's photo or an organization's logo, as its document names it.
pub record Document : Type 0 where
  pub organization_id : String
  pub key : String
  pub version : ℕ

pub record World : Type 0 where
  pub objects : List StoredObject
  pub usages : Dict Usage
  pub products : List Document
  pub organizations : List Document

pub record Config : Type 0 where
  pub quota_bytes : ℕ
  pub enforce : Bool
  pub reservation_ttl_seconds : ℕ
  pub storage : Option String

pub data Error : Type 0 where
  quota_exceeded interrupted duplicate_key not_configured upload_failed : Error

pub data Result {ℓ} (A : Type ℓ) : Type ℓ where
  ok : A → Result A
  err : Error → Result A

unfoldable pub lease_from_now : Config → ℕ → ℕ
lease_from_now c now = now + c.reservation_ttl_seconds * 1000

unfoldable pub prefix_for_kind : Kind → String → String
prefix_for_kind logo org = String.◌++◌ (String.◌++◌ "organizations/" org) "/branding"
prefix_for_kind product_image org = String.◌++◌ (String.◌++◌ "organizations/" org) "/products"

abbrev refers : String → String → Document → Bool
refers org key d = str_eq d.organization_id org && str_eq d.key key

unfoldable pub is_referenced : World → Kind → String → String → Bool
is_referenced w logo org key = any (refers org key) w.organizations
is_referenced w product_image org key = any (refers org key) w.products

abbrev touch : String → String → Document → Document
touch org key d = if refers org key d then record d { version = d.version + 1 } else d

-- The documents that refer to the file are written; the answer is whether there was one.
unfoldable pub lock_reference : World → Kind → String → String → World × Bool
lock_reference w logo org key =
    (record w { organizations = map (touch org key) w.organizations }, is_referenced w logo org key)
lock_reference w product_image org key =
    (record w { products = map (touch org key) w.products }, is_referenced w product_image org key)

-- The service has a storage, and it is that of the reference.
abbrev pub same_storage : Option String → Option String → Bool
same_storage (some s) (some r) = str_eq r s
same_storage _ _ = false

pub data Cleanup : Type 0 where
  deleted retained failed not_needed : Cleanup

-- `s.endsWith('/')`, over the characters.
ends_from : Bool → String → Bool
ends_from last String.[] = last
ends_from last (String.◌∷◌ c s) = ends_from (code c == b'/') s

within_prefix : String → String → Bool
unfolding ends_from
within_prefix key prefix =
    let bounded = if ends_from false prefix then prefix else String.◌++◌ prefix "/" in
    Text.starts_with key bounded && ltb (len bounded) (len key)

-- `sent` is whether the storage accepted the deletion.
unfoldable pub delete_stored_object : Config → Option StoredObjectRef → String → Bool → Cleanup
unfolding within_prefix
delete_stored_object c none prefix sent = not_needed
delete_stored_object c (some ref) prefix sent =
    if same_storage c.storage ref.storage && within_prefix ref.key prefix
    then (if sent then deleted else failed)
    else retained
