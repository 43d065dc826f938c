-- ===== src/Base/Maps.antt =====
-- Go's `map[K]V` as an association list with one entry for each key.
use mathlib.Core.Path.{◌≡◌, refl}
use mathlib.Core.List.{List, [], ◌∷◌}
use mathlib.Core.Option.{Option, none, some}
use native.Mathlib.Omega.{arith}
use dankmail.Base.Tests.{if◌then◌else◌, Comparable, ◌==◌, ==-self}

module _ {ℓ κ} {K : Type ℓ} {V : Type κ} ⦃c : Comparable K⦄ where
  unfoldable pub lookup : K → List (K × V) → Option V
  lookup key [] = none
  lookup key (entry ∷ rest) =
      let later = lookup key rest in if entry.0 == key then some entry.1 else later

  -- An assignment replaces the entry of its key, or adds one at the end.
  unfoldable pub insert : K → V → List (K × V) → List (K × V)
  insert key value [] = (key, value) ∷ []
  insert key value (entry ∷ rest) =
      let later = insert key value rest in
      if entry.0 == key then (key, value) ∷ rest else entry ∷ later

  pub lookup-insert :
      (key other : K) (value : V) (entries : List (K × V))
      → lookup other (insert key value entries)
        ≡ (if key == other then some value else lookup other entries)
  unfolding lookup insert
  lookup-insert key other value [] = refl
  lookup-insert key other value (entry ∷ rest) =
      let step = lookup-insert key other value rest in
      ground (arith, step, c.agrees key other, c.agrees entry.0 key, c.agrees entry.0 other)

  pub lookup-insert_self :
      (key : K) (value : V) (entries : List (K × V))
      → lookup key (insert key value entries) ≡ some value
  lookup-insert_self key value entries = rw (lookup-insert key key value entries, ==-self key)

  -- Go's `delete`.
  unfoldable pub remove : K → List (K × V) → List (K × V)
  remove key [] = []
  remove key (entry ∷ rest) =
      let later = remove key rest in if entry.0 == key then later else entry ∷ later

  pub lookup-remove :
      (key other : K) (entries : List (K × V))
      → lookup other (remove key entries) ≡ (if key == other then none else lookup other entries)
  unfolding lookup remove
  lookup-remove key other [] = ground arith
  lookup-remove key other (entry ∷ rest) =
      let step = lookup-remove key other rest in
      ground (arith, step, c.agrees key other, c.agrees entry.0 key, c.agrees entry.0 other)

  unfoldable pub keys : List (K × V) → List K
  keys [] = []
  keys (entry ∷ rest) = entry.0 ∷ keys rest

  unfoldable pub values : List (K × V) → List V
  values [] = []
  values (entry ∷ rest) = entry.1 ∷ values rest
