-- ===== src/Prelude/Map.antt =====
-- `HashMap<String, V>` as an association list. The order of its entries stands for the unspecified
-- order in which the map is iterated.
use Prim.Native.Nat.{◌+◌, ◌≤◌, ◌<◌}
use Prim.Native.String.{String}
use mathlib.Core.Path.{◌≡◌, refl}
use mathlib.Core.Bool.{Bool, true}
use mathlib.Core.Option.{Option, none, some}
use mathlib.Core.List.{List, [], ◌∷◌}
use native.Mathlib.Omega.{arith}
use mathlib.Core.Logic.{inl, inr}
use wakezilla.Prelude.Tests.{Bool-cases, if◌then◌else◌, is_some}
use wakezilla.Prelude.Lists.{length}
use wakezilla.Prelude.Text.{str_eq, eq_iff}

abbrev pub HashMap {ℓ} : Type ℓ → Type ℓ
HashMap V = List (String × V)

module _ {ℓ} {V : Type ℓ} where
  unfoldable pub lookup : String → HashMap V → Option V
  lookup key [] = none
  lookup key ((found, value) ∷ entries) =
      if str_eq found key then some value else lookup key entries

  unfoldable pub insert : String → V → HashMap V → HashMap V
  insert key value [] = (key, value) ∷ []
  insert key value ((found, old) ∷ entries) =
      if str_eq found key then (key, value) ∷ entries else (found, old) ∷ insert key value entries

  -- HashMap::retain
  unfoldable pub retain : (String → V → Bool) → HashMap V → HashMap V
  retain p [] = []
  retain p ((j, v) ∷ m) = let rest = retain p m in if p j v then (j, v) ∷ rest else rest

  unfoldable pub remove : String → HashMap V → HashMap V
  remove k [] = []
  remove k ((j, v) ∷ m) = let rest = remove k m in if str_eq j k then rest else (j, v) ∷ rest

  -- What is found after an insertion: the new value at its key, and the old ones elsewhere.
  pub lookup-insert :
      (key asked : String) (value : V) (entries : HashMap V)
      → lookup asked (insert key value entries)
        ≡ (if str_eq key asked then some value else lookup asked entries)
  unfolding insert lookup
  lookup-insert key asked value [] = refl
  lookup-insert key asked value ((found, old) ∷ entries) = ground (
    arith,
    lookup-insert key asked value entries,
    eq_iff found asked,
    eq_iff found key,
    eq_iff key asked,
  )

  pub lookup-remove :
      (key asked : String) (entries : HashMap V)
      → lookup asked (remove key entries)
        ≡ (if str_eq key asked then none else lookup asked entries)
  unfolding remove lookup
  lookup-remove key asked [] = ground arith
  lookup-remove key asked ((found, old) ∷ entries) = ground (
    arith,
    lookup-remove key asked entries,
    eq_iff found asked,
    eq_iff found key,
    eq_iff key asked,
  )

  pub length-remove_le : (k : String) (m : HashMap V) → length (remove k m) ≤ length m
  unfolding remove
  length-remove_le k [] = omega arith
  length-remove_le k ((i, w) ∷ m) = ground (arith, length-remove_le k m)

  -- Removing a key that is present makes room.
  pub length-remove-lt :
      (k : String) (m : HashMap V) → is_some (lookup k m) ≡ true → length (remove k m) < length m
  unfolding lookup remove
  length-remove-lt k [] h = ground arith
  length-remove-lt k ((i, w) ∷ m) h = ground (arith, length-remove_le k m, length-remove-lt k m)

  pub length-insert_le : (k : String) (v : V) (m : HashMap V) → length (insert k v m) ≤ length m + 1
  unfolding insert
  length-insert_le k v [] = omega arith
  length-insert_le k v ((i, w) ∷ m) = ground (arith, length-insert_le k v m)

  pub length-retain_le : (p : String → V → Bool) (m : HashMap V) → length (retain p m) ≤ length m
  unfolding retain
  length-retain_le p [] = omega arith
  length-retain_le p ((i, w) ∷ m) = ground (arith, length-retain_le p m)

  -- An entry that the test keeps is still found.
  pub lookup-retain :
      (p : String → V → Bool) (k : String) (v : V) (m : HashMap V)
      → lookup k m ≡ some v
      → p k v ≡ true
      → lookup k (retain p m) ≡ some v
  unfolding lookup retain
  lookup-retain p k v [] h t = cc
  lookup-retain p k v ((i, w) ∷ m) h t = ground (arith, eq_iff i k, lookup-retain p k v m)

  -- No key has two entries.
  abbrev pub HasUniqueKeys : HashMap V → Type ℓ
  HasUniqueKeys [] = Unit
  HasUniqueKeys ((j, v) ∷ m) = (lookup j m ≡ none) × HasUniqueKeys m

  pub insert-HasUniqueKeys :
      (k : String) (v : V) (m : HashMap V) → HasUniqueKeys m → HasUniqueKeys (insert k v m)
  unfolding insert
  insert-HasUniqueKeys k v [] h = (unfold lookup in refl, tt)
  insert-HasUniqueKeys k v ((i, w) ∷ m) h = elim (Bool-cases (str_eq i k)) [
    | inl same ↦ let e : i ≡ k = (eq_iff i k).0 same in rw same (rw e at h.0, h.1)
    | inr other ↦ rw other (
      rw (lookup-insert k i v m) (ground (arith, eq_iff k i, eq_iff i k, h.0)),
      insert-HasUniqueKeys k v m h.1,
    )
  ]

  pub remove-HasUniqueKeys :
      (k : String) (m : HashMap V) → HasUniqueKeys m → HasUniqueKeys (remove k m)
  unfolding remove
  remove-HasUniqueKeys k [] h = tt
  remove-HasUniqueKeys k ((i, w) ∷ m) h = elim (Bool-cases (str_eq i k)) [
    | inl same ↦ rw same (remove-HasUniqueKeys k m h.1)
    | inr other ↦
        rw other (rw (lookup-remove k i m) (ground (arith, h.0)), remove-HasUniqueKeys k m h.1)
  ]

pub ruleset map_laws = (lookup-insert, lookup-remove)
