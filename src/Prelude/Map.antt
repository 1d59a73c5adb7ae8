-- ===== src/Prelude/Map.antt =====
-- Go's `map[string]V` as an association list: a lookup, a write and `delete`.
use Prim.Native.String.{String}
use mathlib.Core.Path.{◌≡◌, refl}
use mathlib.Core.List.{List, [], ◌∷◌}
use mathlib.Core.Option.{Option, none, some}
use native.Mathlib.Omega.{arith}
use text.Mathlib.Text.{◌==◌}
use text.Mathlib.TextEquality.{eq_iff}
use open_sync_crdt.Prelude.Tests.{if◌then◌else◌}

abbrev pub Map {ℓ} : Type ℓ → Type ℓ
Map V = List (String × V)

module _ {ℓ} {V : Type ℓ} where
  -- `m[key]`
  unfoldable pub lookup : String → Map V → Option V
  lookup key [] = none
  lookup key ((other, value) ∷ rest) = if other == key then some value else lookup key rest

  -- `m[key] = value`
  unfoldable pub insert : String → V → Map V → Map V
  insert key value [] = (key, value) ∷ []
  insert key value ((other, old) ∷ rest) =
      if other == key then (key, value) ∷ rest else (other, old) ∷ insert key value rest

  -- `delete(m, key)`
  unfoldable pub erase : String → Map V → Map V
  erase key [] = []
  erase key ((other, value) ∷ rest) =
      let kept = erase key rest in if other == key then kept else (other, value) ∷ kept

  unfoldable pub keys : Map V → List String
  keys [] = []
  keys ((key, value) ∷ rest) = key ∷ keys rest

  pub lookup-insert :
      (key wanted : String) (value : V) (entries : Map V)
      → lookup wanted (insert key value entries)
        ≡ (if key == wanted then some value else lookup wanted entries)
  unfolding lookup insert
  lookup-insert key wanted value [] = refl
  lookup-insert key wanted value ((other, old) ∷ rest) = ground (
    arith,
    eq_iff other key,
    eq_iff other wanted,
    eq_iff key wanted,
    lookup-insert key wanted value rest,
  )

  pub lookup-erase :
      (key wanted : String) (entries : Map V)
      → lookup wanted (erase key entries) ≡ (if key == wanted then none else lookup wanted entries)
  unfolding lookup erase
  lookup-erase key wanted [] = ground arith
  lookup-erase key wanted ((other, old) ∷ rest) = ground (
    arith,
    eq_iff other key,
    eq_iff other wanted,
    eq_iff key wanted,
    lookup-erase key wanted rest,
  )

pub ruleset map_laws = (lookup-insert, lookup-erase)
