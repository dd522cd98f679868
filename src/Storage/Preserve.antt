-- ===== src/Storage/Preserve.antt =====
-- How a write to the registry and the increment beside it keep the counters of
-- api/src/storage-quota equal to the sums over the registry.
use royalvibe_cosmetic.Common.{
  ◌≡◌, ◌≢◌, refl, String, Bool, true, false, none, some, List, ◌∷◌, str_eq, if◌then◌else◌, arith,
  eq_iff, eq_refl, Option-cases, inl, inr,
}
use royalvibe_cosmetic.Common.Dict.{lookup, lookup-insert}
use royalvibe_cosmetic.Storage.Model.{
  State, reserved, deleting, is_reserved, StoredObject, Usage, zero_usage, add_usage, World,
}
use royalvibe_cosmetic.Storage.Registry.{
  find_object, update_object, erase_object, find_object_sound, update_object_of_none,
  le-total_of_find,
}
use royalvibe_cosmetic.Storage.Cycle.{
  usage_of, ensure_usage, inc_usage, reserve_inc, store_inc, count_inc, release_inc,
}
use royalvibe_cosmetic.Storage.Accounting.{
  Matches, IsConsistent, IsQuiet, stored_objects_in, reserved_objects_in, update-Matches_quiet,
  update-Matches_store, erase-Matches_stored, erase-Matches_reserved, cons-Matches_reserved,
  cons-Matches_stored,
}

-- Creating a counter at zero changes no reading.
pub usage_of-ensure_usage :
    (o org : String) (w : World) → usage_of org (ensure_usage o w) ≡ usage_of org w
unfolding ensure_usage
usage_of-ensure_usage o org w = elim (Option-cases (lookup o w.usages)) [
  | inl missing ↦ ground (arith, lookup-insert o org zero_usage w.usages, eq_iff o org)
  | inr (u, found) ↦ ground arith
]

pub objects-ensure_usage : (o : String) (w : World) → (ensure_usage o w).objects ≡ w.objects
unfolding ensure_usage
objects-ensure_usage o w = ground arith

pub objects-inc_usage : (o : String) (d : Usage) (w : World) → (inc_usage o d w).objects ≡ w.objects
unfolding inc_usage
objects-inc_usage o d w = ground arith

-- An increment reaches an existing counter, and no other.
pub usage_of-inc_usage :
    (o org : String) (d : Usage) (w : World)
    → lookup o w.usages ≢ none
    → usage_of org (inc_usage o d w)
      ≡ (if str_eq o org then add_usage (usage_of org w) d else usage_of org w)
unfolding inc_usage
usage_of-inc_usage o org d w present = elim (Option-cases (lookup o w.usages)) [
  | inl missing ↦ absurd (present missing)
  | inr (u, found) ↦ ground (arith, lookup-insert o org (add_usage u d) w.usages, eq_iff o org)
]

-- An entry in the registry has its organization's counter.
pub counter_present :
    {w : World} (id : String) (test : State → Bool) (e : StoredObject)
    → IsConsistent w
    → find_object id test w.objects ≡ some e
    → lookup e.organization_id w.usages ≢ none
counter_present {w} id test e c found missing =
    let m = c.counts e.organization_id in
    let s = le-total_of_find id test (stored_objects_in e.organization_id) w.objects e found in
    let r = le-total_of_find id test (reserved_objects_in e.organization_id) w.objects e found in
    ground (arith, eq_refl e.organization_id, m.stored_objects, m.reserved_objects)

-- One write to the registry and the increment that goes with it.
pub inc-IsConsistent :
    (o : String) (d : Usage) (w : World) (es : List StoredObject)
    → lookup o w.usages ≢ none
    → ((org : String)
        → Matches (if str_eq o org then add_usage (usage_of org w) d else usage_of org w) org es)
    → IsConsistent (inc_usage o d (record w { objects = es }))
inc-IsConsistent o d w es present h = record {
  counts = λ org.
      rw
        (
          usage_of-inc_usage o org d (record w { objects = es }) present,
          objects-inc_usage o d (record w { objects = es }),
        )
        (h org);
}

pub ensure_usage-IsConsistent :
    (o : String) {w : World} → IsConsistent w → IsConsistent (ensure_usage o w)
ensure_usage-IsConsistent o {w} c = record {
  counts = λ org. rw (usage_of-ensure_usage o org w, objects-ensure_usage o w) (c.counts org);
}

-- A change of the first match that keeps its organization, size and class.
pub update-IsConsistent :
    (id : String) (test : State → Bool) (f : StoredObject → StoredObject) {w : World}
    → IsConsistent w
    → ((e : StoredObject) → test e.state ≡ true → IsQuiet f e)
    → IsConsistent (record w { objects = update_object id test f w.objects })
update-IsConsistent id test f {w} c q = record {
  counts = λ org. elim (Option-cases (find_object id test w.objects)) [
    | inl missing ↦ rw (update_object_of_none id test f w.objects missing) (c.counts org)
    | inr (e, found) ↦
        update-Matches_quiet org (c.counts org) id test e found f
          (q e (find_object_sound id test w.objects e found).1)
  ];
}

module _ (id : String) (test : State → Bool) {w : World} (c : IsConsistent w) (e : StoredObject)
    (found : find_object id test w.objects ≡ some e) where
  pub erase-IsConsistent_stored :
      is_reserved e.state ≡ false
      → IsConsistent (
          inc_usage e.organization_id
            (release_inc deleting e.bytes)
            (record w { objects = erase_object id test w.objects }))
  erase-IsConsistent_stored s =
      inc-IsConsistent e.organization_id (release_inc deleting e.bytes) w _
        (counter_present id test e c found)
        (λ org. erase-Matches_stored org (c.counts org) id test e found s)

  pub erase-IsConsistent_reserved :
      is_reserved e.state ≡ true
      → IsConsistent (
          inc_usage e.organization_id
            (release_inc reserved e.bytes)
            (record w { objects = erase_object id test w.objects }))
  erase-IsConsistent_reserved r =
      inc-IsConsistent e.organization_id (release_inc reserved e.bytes) w _
        (counter_present id test e c found)
        (λ org. erase-Matches_reserved org (c.counts org) id test e found r)

  -- A reserved entry becomes a stored one, whatever its new state.
  pub store-IsConsistent :
      (f : StoredObject → StoredObject)
      → is_reserved e.state ≡ true
      → is_reserved (f e).state ≡ false
      → (f e).organization_id ≡ e.organization_id
      → (f e).bytes ≡ e.bytes
      → IsConsistent (
          inc_usage e.organization_id
            (store_inc e.bytes)
            (record w { objects = update_object id test f w.objects }))
  store-IsConsistent f r s o b =
      inc-IsConsistent e.organization_id (store_inc e.bytes) w _ (counter_present id test e c found)
        (λ org. update-Matches_store org (c.counts org) id test e found f r s o b)

pub if-IsConsistent :
    (b : Bool) {w w' : World}
    → IsConsistent w
    → IsConsistent w'
    → IsConsistent (if b then w else w')
if-IsConsistent true h k = h
if-IsConsistent false h k = k

-- A new entry and its increment.
module _ (e : StoredObject) {w : World} (c : IsConsistent w)
    (present : lookup e.organization_id w.usages ≢ none) where
  pub cons-IsConsistent_reserved :
      is_reserved e.state ≡ true
      → IsConsistent
          (inc_usage e.organization_id (reserve_inc e.bytes) (record w { objects = e ∷ w.objects }))
  cons-IsConsistent_reserved r =
      inc-IsConsistent e.organization_id (reserve_inc e.bytes) w _ present
        (λ org. cons-Matches_reserved org (c.counts org) e r)

  pub cons-IsConsistent_stored :
      is_reserved e.state ≡ false
      → IsConsistent
          (inc_usage e.organization_id (count_inc e.bytes) (record w { objects = e ∷ w.objects }))
  cons-IsConsistent_stored r =
      inc-IsConsistent e.organization_id (count_inc e.bytes) w _ present
        (λ org. cons-Matches_stored org (c.counts org) e r)

-- After `ensure_usage` the counter is there.
pub lookup-ensure_usage : (o : String) (w : World) → lookup o (ensure_usage o w).usages ≢ none
unfolding ensure_usage
lookup-ensure_usage o w = elim (Option-cases (lookup o w.usages)) [
  | inl missing ↦ ground (arith, lookup-insert o o zero_usage w.usages, eq_refl o)
  | inr (u, found) ↦ ground arith
]

-- The order of the two writes of a transaction does not matter.
pub inc_usage-objects :
    (o : String) (d : Usage) (w : World) (es : List StoredObject)
    → record (inc_usage o d w) { objects = es } ≡ inc_usage o d (record w { objects = es })
unfolding inc_usage
inc_usage-objects o d w es = elim (Option-cases (lookup o w.usages)) [
  | inl missing ↦ rw (missing, inc_usage) refl
  | inr (u, found) ↦ rw (found, inc_usage) refl
]
