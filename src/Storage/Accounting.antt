-- ===== src/Storage/Accounting.antt =====
-- When the counters of api/src/storage-quota agree with the registry, and what each kind of write
-- to the registry does to that agreement, for one organization.
use royalvibe_cosmetic.Common.{
  ℕ, ◌+◌, ◌≡◌, String, Bool, true, false, not, ◌&&◌, some, List, ◌∷◌, str_eq, if◌then◌else◌, total,
  arith, Bool-cases, inl, inr,
}
use royalvibe_cosmetic.Common.Int.{pos, inc_pos, dec_pos}
use royalvibe_cosmetic.Storage.Model.{
  State, reserved, deleting, is_reserved, StoredObject, Usage, add_usage, World,
}
use royalvibe_cosmetic.Storage.Registry.{
  find_object, update_object, erase_object, total-update_object, total-erase_object,
}
use royalvibe_cosmetic.Storage.Cycle.{usage_of, reserve_inc, store_inc, count_inc, release_inc}

-- What an entry weighs in the counters of an organization.
abbrev pub reserved_bytes_in : String → StoredObject → ℕ
reserved_bytes_in org e = if str_eq e.organization_id org && is_reserved e.state then e.bytes else 0

abbrev pub reserved_objects_in : String → StoredObject → ℕ
reserved_objects_in org e = if str_eq e.organization_id org && is_reserved e.state then 1 else 0

abbrev pub stored_bytes_in : String → StoredObject → ℕ
stored_bytes_in org e =
    if str_eq e.organization_id org && not (is_reserved e.state) then e.bytes else 0

abbrev pub stored_objects_in : String → StoredObject → ℕ
stored_objects_in org e = if str_eq e.organization_id org && not (is_reserved e.state) then 1 else 0

-- The counter holds exactly the sums over the organization's entries.
pub record Matches (u : Usage) (org : String) (es : List StoredObject) : Type 0 where
  pub stored_bytes : u.stored_bytes ≡ pos (total (stored_bytes_in org) es)
  pub stored_objects : u.stored_objects ≡ pos (total (stored_objects_in org) es)
  pub reserved_bytes : u.reserved_bytes ≡ pos (total (reserved_bytes_in org) es)
  pub reserved_objects : u.reserved_objects ≡ pos (total (reserved_objects_in org) es)

-- Every organization's counter, a missing one read as zero, agrees with the registry.
pub record IsConsistent (w : World) : Type 0 where
  pub counts : (org : String) → Matches (usage_of org w) org w.objects

-- A change that keeps an entry's organization, size and class keeps every sum.
abbrev pub IsQuiet : (StoredObject → StoredObject) → StoredObject → Type 0
IsQuiet f e =
    ((f e).organization_id ≡ e.organization_id)
    × ((f e).bytes ≡ e.bytes)
    × (is_reserved (f e).state ≡ is_reserved e.state)

-- The four increments, when the sums move with them.
module _ {u : Usage} {org : String} (es es' : List StoredObject) (m : Matches u org es)
    (b : ℕ) where
  Matches-store_inc :
      total (stored_bytes_in org) es + b ≡ total (stored_bytes_in org) es'
      → total (stored_objects_in org) es + 1 ≡ total (stored_objects_in org) es'
      → total (reserved_bytes_in org) es' + b ≡ total (reserved_bytes_in org) es
      → total (reserved_objects_in org) es' + 1 ≡ total (reserved_objects_in org) es
      → Matches (add_usage u (store_inc b)) org es'
  Matches-store_inc sb so rb ro = record {
    stored_bytes = inc_pos _ _ _ b m.stored_bytes sb;
    stored_objects = inc_pos _ _ _ 1 m.stored_objects so;
    reserved_bytes = dec_pos _ _ _ b m.reserved_bytes rb;
    reserved_objects = dec_pos _ _ _ 1 m.reserved_objects ro;
  }

  Matches-count_inc :
      total (stored_bytes_in org) es + b ≡ total (stored_bytes_in org) es'
      → total (stored_objects_in org) es + 1 ≡ total (stored_objects_in org) es'
      → total (reserved_bytes_in org) es + 0 ≡ total (reserved_bytes_in org) es'
      → total (reserved_objects_in org) es + 0 ≡ total (reserved_objects_in org) es'
      → Matches (add_usage u (count_inc b)) org es'
  Matches-count_inc sb so rb ro = record {
    stored_bytes = inc_pos _ _ _ b m.stored_bytes sb;
    stored_objects = inc_pos _ _ _ 1 m.stored_objects so;
    reserved_bytes = inc_pos _ _ _ 0 m.reserved_bytes rb;
    reserved_objects = inc_pos _ _ _ 0 m.reserved_objects ro;
  }

  Matches-reserve_inc :
      total (stored_bytes_in org) es + 0 ≡ total (stored_bytes_in org) es'
      → total (stored_objects_in org) es + 0 ≡ total (stored_objects_in org) es'
      → total (reserved_bytes_in org) es + b ≡ total (reserved_bytes_in org) es'
      → total (reserved_objects_in org) es + 1 ≡ total (reserved_objects_in org) es'
      → Matches (add_usage u (reserve_inc b)) org es'
  Matches-reserve_inc sb so rb ro = record {
    stored_bytes = inc_pos _ _ _ 0 m.stored_bytes sb;
    stored_objects = inc_pos _ _ _ 0 m.stored_objects so;
    reserved_bytes = inc_pos _ _ _ b m.reserved_bytes rb;
    reserved_objects = inc_pos _ _ _ 1 m.reserved_objects ro;
  }

  Matches-release_reserved :
      total (stored_bytes_in org) es + 0 ≡ total (stored_bytes_in org) es'
      → total (stored_objects_in org) es + 0 ≡ total (stored_objects_in org) es'
      → total (reserved_bytes_in org) es' + b ≡ total (reserved_bytes_in org) es
      → total (reserved_objects_in org) es' + 1 ≡ total (reserved_objects_in org) es
      → Matches (add_usage u (release_inc reserved b)) org es'
  Matches-release_reserved sb so rb ro = record {
    stored_bytes = inc_pos _ _ _ 0 m.stored_bytes sb;
    stored_objects = inc_pos _ _ _ 0 m.stored_objects so;
    reserved_bytes = dec_pos _ _ _ b m.reserved_bytes rb;
    reserved_objects = dec_pos _ _ _ 1 m.reserved_objects ro;
  }

  Matches-release_stored :
      total (stored_bytes_in org) es' + b ≡ total (stored_bytes_in org) es
      → total (stored_objects_in org) es' + 1 ≡ total (stored_objects_in org) es
      → total (reserved_bytes_in org) es + 0 ≡ total (reserved_bytes_in org) es'
      → total (reserved_objects_in org) es + 0 ≡ total (reserved_objects_in org) es'
      → Matches (add_usage u (release_inc deleting b)) org es'
  Matches-release_stored sb so rb ro = record {
    stored_bytes = dec_pos _ _ _ b m.stored_bytes sb;
    stored_objects = dec_pos _ _ _ 1 m.stored_objects so;
    reserved_bytes = inc_pos _ _ _ 0 m.reserved_bytes rb;
    reserved_objects = inc_pos _ _ _ 0 m.reserved_objects ro;
  }

module _ (org : String) {u : Usage} {es : List StoredObject} (m : Matches u org es) where
  module _ (id : String) (test : State → Bool) (e : StoredObject)
      (found : find_object id test es ≡ some e) where
    pub update-Matches_quiet :
        (f : StoredObject → StoredObject) → IsQuiet f e → Matches u org (update_object id test f es)
    update-Matches_quiet f q = ground (
      arith,
      total-update_object id test (stored_bytes_in org) f es e found,
      total-update_object id test (stored_objects_in org) f es e found,
      total-update_object id test (reserved_bytes_in org) f es e found,
      total-update_object id test (reserved_objects_in org) f es e found,
    )

    pub update-Matches_store :
        (f : StoredObject → StoredObject)
        → is_reserved e.state ≡ true
        → is_reserved (f e).state ≡ false
        → (f e).organization_id ≡ e.organization_id
        → (f e).bytes ≡ e.bytes
        → Matches
            (if str_eq e.organization_id org then add_usage u (store_inc e.bytes) else u)
            org
            (update_object id test f es)
    update-Matches_store f r s o b =
        let sb = total-update_object id test (stored_bytes_in org) f es e found in
        let so = total-update_object id test (stored_objects_in org) f es e found in
        let rb = total-update_object id test (reserved_bytes_in org) f es e found in
        let ro = total-update_object id test (reserved_objects_in org) f es e found in
        elim (Bool-cases (str_eq e.organization_id org)) [
          | inl here ↦ rw here (
              Matches-store_inc es _ m e.bytes (ground arith) (ground arith) (ground arith)
                (ground arith))
          | inr away ↦ rw away (ground arith)
        ]

    pub erase-Matches_stored :
        is_reserved e.state ≡ false
        → Matches
            (if str_eq e.organization_id org then add_usage u (release_inc deleting e.bytes) else u)
            org
            (erase_object id test es)
    erase-Matches_stored s =
        let sb = total-erase_object id test (stored_bytes_in org) es e found in
        let so = total-erase_object id test (stored_objects_in org) es e found in
        let rb = total-erase_object id test (reserved_bytes_in org) es e found in
        let ro = total-erase_object id test (reserved_objects_in org) es e found in
        elim (Bool-cases (str_eq e.organization_id org)) [
          | inl here ↦ rw here (
              Matches-release_stored es _ m e.bytes (ground arith) (ground arith) (ground arith)
                (ground arith))
          | inr away ↦ rw away (ground arith)
        ]

    pub erase-Matches_reserved :
        is_reserved e.state ≡ true
        → Matches
            (if str_eq e.organization_id org then add_usage u (release_inc reserved e.bytes) else u)
            org
            (erase_object id test es)
    erase-Matches_reserved s =
        let sb = total-erase_object id test (stored_bytes_in org) es e found in
        let so = total-erase_object id test (stored_objects_in org) es e found in
        let rb = total-erase_object id test (reserved_bytes_in org) es e found in
        let ro = total-erase_object id test (reserved_objects_in org) es e found in
        elim (Bool-cases (str_eq e.organization_id org)) [
          | inl here ↦ rw here (
              Matches-release_reserved es _ m e.bytes (ground arith) (ground arith) (ground arith)
                (ground arith))
          | inr away ↦ rw away (ground arith)
        ]

  pub cons-Matches_reserved :
      (e : StoredObject)
      → is_reserved e.state ≡ true
      → Matches
          (if str_eq e.organization_id org then add_usage u (reserve_inc e.bytes) else u)
          org
          (e ∷ es)
  cons-Matches_reserved e r = elim (Bool-cases (str_eq e.organization_id org)) [
    | inl here ↦ rw here (
        Matches-reserve_inc es _ m e.bytes (ground arith) (ground arith) (ground arith)
          (ground arith))
    | inr away ↦ rw away (ground arith)
  ]

  pub cons-Matches_stored :
      (e : StoredObject)
      → is_reserved e.state ≡ false
      → Matches
          (if str_eq e.organization_id org then add_usage u (count_inc e.bytes) else u)
          org
          (e ∷ es)
  cons-Matches_stored e r = elim (Bool-cases (str_eq e.organization_id org)) [
    | inl here ↦ rw here (
        Matches-count_inc es _ m e.bytes (ground arith) (ground arith) (ground arith)
          (ground arith))
    | inr away ↦ rw away (ground arith)
  ]
