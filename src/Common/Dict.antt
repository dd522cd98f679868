-- ===== src/Common/Dict.antt =====
-- A collection keyed by a text: `findById`, `updateOne` by `_id`, `deleteOne`.
use Prim.Native.String.{String}
use mathlib.Core.Path.{◌≡◌, refl}
use mathlib.Core.Option.{Option, none, some}
use mathlib.Core.List.{List, [], ◌∷◌}
use native.Mathlib.Omega.{arith}
use text.Mathlib.TextEquality.{eq_iff}
use royalvibe_cosmetic.Common.Tests.{str_eq, if◌then◌else◌}

abbrev pub Dict {ℓ} : Type ℓ → Type ℓ
Dict Value = List (String × Value)

unfoldable pub lookup {ℓ} : {Value : Type ℓ} → String → Dict Value → Option Value
lookup key [] = none
lookup key (entry ∷ rest) = if str_eq entry.0 key then some entry.1 else lookup key rest

-- The document of the key is replaced, or added after the others.
unfoldable pub insert {ℓ} : {Value : Type ℓ} → String → Value → Dict Value → Dict Value
insert key value [] = (key, value) ∷ []
insert key value (entry ∷ rest) =
    if str_eq entry.0 key then (key, value) ∷ rest else entry ∷ insert key value rest

pub lookup-insert {ℓ} :
    {Value : Type ℓ} (written read : String) (value : Value) (dict : Dict Value)
    → lookup read (insert written value dict)
      ≡ (if str_eq written read then some value else lookup read dict)
unfolding lookup insert
lookup-insert written read value [] = refl
lookup-insert written read value (entry ∷ rest) =
    let later = lookup-insert written read value rest in
    ground (arith, later, eq_iff entry.0 written, eq_iff entry.0 read, eq_iff written read)

-- `map.delete(key)`; a key stands once.
unfoldable pub erase {ℓ} : {Value : Type ℓ} → String → Dict Value → Dict Value
erase key [] = []
erase key (entry ∷ rest) = if str_eq entry.0 key then erase key rest else entry ∷ erase key rest

pub lookup-erase {ℓ} :
    {Value : Type ℓ} (erased read : String) (dict : Dict Value)
    → lookup read (erase erased dict) ≡ (if str_eq erased read then none else lookup read dict)
unfolding lookup erase
lookup-erase erased read [] = ground arith
lookup-erase erased read (entry ∷ rest) =
    let later = lookup-erase erased read rest in
    ground (arith, later, eq_iff entry.0 erased, eq_iff entry.0 read, eq_iff erased read)
