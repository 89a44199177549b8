-- ===== src/Prelude/Dict.antt =====
-- A Go map with string keys, as an association list whose order is never observed. A map that may
-- be `nil` is an `Option` of one.
use Prim.Native.String.{String}
use mathlib.Core.Path.{◌≡◌, refl}
use mathlib.Core.Option.{Option, none, some}
use mathlib.Core.List.{List, [], ◌∷◌}
use native.Mathlib.Omega.{arith}
use text.Mathlib.Text.{◌==◌}
use text.Mathlib.TextEquality.{eq_iff}
use projection.Prelude.Tests.{if◌then◌else◌}

abbrev pub Dict {ℓ} : Type ℓ → Type ℓ
Dict V = List (String × V)

module _ {ℓ} {V : Type ℓ} where
  -- `v, ok := m[k]`
  unfoldable pub lookup : String → Dict V → Option V
  lookup k [] = none
  lookup k ((j, v) ∷ m) = if j == k then some v else lookup k m

  -- `m[k] = v`
  unfoldable pub insert : String → V → Dict V → Dict V
  insert k v [] = (k, v) ∷ []
  insert k v ((j, w) ∷ m) = if j == k then (k, v) ∷ m else (j, w) ∷ insert k v m

  -- `delete(m, k)`
  unfoldable pub erase : String → Dict V → Dict V
  erase k [] = []
  erase k ((j, w) ∷ m) = let rest = erase k m in if j == k then rest else (j, w) ∷ rest

  -- `for _, k := range ks { delete(m, k) }`
  unfoldable pub erase_all : List String → Dict V → Dict V
  erase_all [] m = m
  erase_all (k ∷ ks) m = erase_all ks (erase k m)

  -- `for k, v := range from { m[k] = v }`. The keys of `from` differ, so the order of the range
  -- does not matter; here the first entries are written last.
  unfoldable pub merge : Dict V → Dict V → Dict V
  merge [] m = m
  merge ((k, v) ∷ from) m = insert k v (merge from m)

  abbrev pub or_else : Option V → Option V → Option V
  or_else none other = other
  or_else (some v) other = some v

  pub lookup-insert :
      (j k : String) (v : V) (m : Dict V)
      → lookup j (insert k v m) ≡ (if k == j then some v else lookup j m)
  unfolding lookup insert
  lookup-insert j k v [] = refl
  lookup-insert j k v ((i, w) ∷ m) =
      ground (arith, eq_iff k j, eq_iff i k, eq_iff i j, lookup-insert j k v m)

  pub lookup-erase :
      (j k : String) (m : Dict V) → lookup j (erase k m) ≡ (if k == j then none else lookup j m)
  unfolding lookup erase
  lookup-erase j k [] = ground arith
  lookup-erase j k ((i, w) ∷ m) =
      ground (arith, eq_iff k j, eq_iff i k, eq_iff i j, lookup-erase j k m)

  -- What the source of a merge holds wins over what was there.
  pub lookup-merge :
      (j : String) (from m : Dict V)
      → lookup j (merge from m) ≡ or_else (lookup j from) (lookup j m)
  unfolding lookup merge
  lookup-merge j [] m = refl
  lookup-merge j ((k, v) ∷ from) m =
      ground (arith, lookup-insert j k v (merge from m), lookup-merge j from m)

pub ruleset dict_laws = (lookup-insert, lookup-erase, lookup-merge)

-- `m[k]` on a map of strings that may be nil: a missing key reads as the empty text.
unfoldable pub index : Option (Dict String) → String → String
unfolding lookup
index none k = ""
index (some m) k = elim (lookup k m) [ none ↦ "" | some v ↦ v ]
