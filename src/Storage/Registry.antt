-- ===== src/Storage/Registry.antt =====
-- The queries on `storage_objects`: one entry is found, changed or removed by its `_id` and state.
use royalvibe_cosmetic.Common.{
  ℕ, ◌+◌, ◌≤◌, ◌≡◌, refl, String, Bool, true, ◌&&◌, Option, none, some, List, [], ◌∷◌, str_eq,
  if◌then◌else◌, total, arith, eq_iff,
}
use royalvibe_cosmetic.Storage.Model.{StoredObject, State}

-- `findOne({ _id: id, state: … })`
unfoldable pub find_object : String → (State → Bool) → List StoredObject → Option StoredObject
find_object id test [] = none
find_object id test (e ∷ es) =
    if str_eq e.id id && test e.state then some e else find_object id test es

-- `updateOne({ _id: id, state: … }, …)`
unfoldable pub update_object :
    String → (State → Bool) → (StoredObject → StoredObject) → List StoredObject → List StoredObject
update_object id test f [] = []
update_object id test f (e ∷ es) =
    if str_eq e.id id && test e.state then f e ∷ es else e ∷ update_object id test f es

-- `findOneAndDelete({ _id: id, state: … })`
unfoldable pub erase_object : String → (State → Bool) → List StoredObject → List StoredObject
erase_object id test [] = []
erase_object id test (e ∷ es) =
    if str_eq e.id id && test e.state then es else e ∷ erase_object id test es

abbrev pub any_state : State → Bool
any_state s = true

module _ (id : String) (test : State → Bool) where
  pub find_object_sound :
      (es : List StoredObject) (e : StoredObject)
      → find_object id test es ≡ some e
      → (e.id ≡ id) × (test e.state ≡ true)
  unfolding find_object
  find_object_sound [] e h = ground arith
  find_object_sound (x ∷ es) e h = ground (arith, eq_iff x.id id, find_object_sound es e)

  pub update_object_of_none :
      (f : StoredObject → StoredObject) (es : List StoredObject)
      → find_object id test es ≡ none
      → update_object id test f es ≡ es
  unfolding find_object update_object
  update_object_of_none f [] h = refl
  update_object_of_none f (x ∷ es) h = ground (arith, update_object_of_none f es)

  -- A measure of the registry changes by the measure of the one entry that changes.
  pub total-update_object :
      (w : StoredObject → ℕ) (f : StoredObject → StoredObject) (es : List StoredObject)
      (e : StoredObject)
      → find_object id test es ≡ some e
      → total w (update_object id test f es) + w e ≡ total w es + w (f e)
  unfolding find_object update_object
  total-update_object w f [] e h = ground arith
  total-update_object w f (x ∷ es) e h = ground (arith, total-update_object w f es e)

  pub total-erase_object :
      (w : StoredObject → ℕ) (es : List StoredObject) (e : StoredObject)
      → find_object id test es ≡ some e
      → total w (erase_object id test es) + w e ≡ total w es
  unfolding find_object erase_object
  total-erase_object w [] e h = ground arith
  total-erase_object w (x ∷ es) e h = ground (arith, total-erase_object w es e)

  pub le-total_of_find :
      (w : StoredObject → ℕ) (es : List StoredObject) (e : StoredObject)
      → find_object id test es ≡ some e
      → w e ≤ total w es
  unfolding find_object
  le-total_of_find w [] e h = ground arith
  le-total_of_find w (x ∷ es) e h = ground (arith, le-total_of_find w es e)
