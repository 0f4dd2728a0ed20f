-- ===== src/Base/Dict.antt =====
-- Go's `map[string]V` as an association list: an assignment replaces the entry in place or adds
-- one at the end, so a map that starts empty keeps its keys distinct.
use Prim.Native.String.{String}
use Prim.Native.Nat.{suc, ◌≤◌}
use mathlib.Core.Path.{◌≡◌, refl, subst, ap}
use mathlib.Core.Logic.{inl, inr}
use mathlib.Core.Option.{Option, none, some}
use mathlib.Core.Option as Option
use mathlib.Core.List.{List, [], ◌∷◌}
use native.Mathlib.Omega.{arith}
use text.Mathlib.Text.{◌==◌}
use text.Mathlib.TextEquality.{eq_iff}
use code_intelegence.Base.Lists.{length}
use code_intelegence.Base.Tests.{if◌then◌else◌, Bool-cases}

module _ {ℓ} {V : Type ℓ} where
  -- m[key], with the comma-ok form's answer
  unfoldable pub lookup : String → List (String × V) → Option V
  lookup key [] = none
  lookup key ((name, value) ∷ rest) = if name == key then some value else lookup key rest

  -- delete(m, key)
  unfoldable pub delete : String → List (String × V) → List (String × V)
  delete key [] = []
  delete key ((name, value) ∷ m) =
      let rest = delete key m in if name == key then rest else (name, value) ∷ rest

  -- m[key] = new
  unfoldable pub insert : String → V → List (String × V) → List (String × V)
  insert key new [] = (key, new) ∷ []
  insert key new ((name, old) ∷ rest) =
      if name == key then (key, new) ∷ rest else (name, old) ∷ insert key new rest

  -- A loop over the map that changes each value.
  unfoldable pub map_values : (V → V) → List (String × V) → List (String × V)
  map_values f [] = []
  map_values f ((k, v) ∷ m) = (k, f v) ∷ map_values f m

  pub lookup-map_values :
      (f : V → V) (k : String) (m : List (String × V))
      → lookup k (map_values f m) ≡ Option.map f (lookup k m)
  unfolding lookup map_values
  lookup-map_values f k [] = refl
  lookup-map_values f k ((j, v) ∷ m) = ground (arith, lookup-map_values f k m)

  pub length-map_values : (f : V → V) (m : List (String × V)) → length (map_values f m) ≡ length m
  unfolding map_values
  length-map_values f [] = refl
  length-map_values f ((j, v) ∷ m) = ap suc (length-map_values f m)

  pub length-insert_le :
      (k : String) (v : V) (m : List (String × V)) → length (insert k v m) ≤ suc (length m)
  unfolding insert
  length-insert_le k v [] = omega arith
  length-insert_le k v ((j, w) ∷ m) = ground (arith, length-insert_le k v m)

  pub length-insert_present :
      (k : String) (v old : V) (m : List (String × V))
      → lookup k m ≡ some old
      → length (insert k v m) ≡ length m
  unfolding insert lookup
  length-insert_present k v old [] h = cc
  length-insert_present k v old ((j, w) ∷ m) h = ground (arith, length-insert_present k v old m)

  pub length-delete_le : (k : String) (m : List (String × V)) → length (delete k m) ≤ length m
  unfolding delete
  length-delete_le k [] = omega arith
  length-delete_le k ((j, w) ∷ m) = ground (arith, length-delete_le k m)

  pub lookup-delete :
      (k j : String) (m : List (String × V))
      → lookup j (delete k m) ≡ (if k == j then none else lookup j m)
  unfolding lookup delete
  lookup-delete k j [] = ground arith
  lookup-delete k j ((i, w) ∷ m) =
      ground (arith, eq_iff k j, eq_iff i k, eq_iff i j, lookup-delete k j m)

  pub lookup-insert :
      (key other : String) (new : V) (rest : List (String × V))
      → lookup other (insert key new rest) ≡ (if key == other then some new else lookup other rest)
  unfolding insert lookup
  lookup-insert key other new [] = ground arith
  lookup-insert key other new ((name, old) ∷ rest) = ground (
    arith,
    lookup-insert key other new rest,
    eq_iff name other,
    eq_iff name key,
    eq_iff key other,
  )

-- P holds of every value.
abbrev pub Each {ℓ} : {V : Type ℓ} → (V → Type 0) → List (String × V) → Type 0
Each P [] = Unit
Each P ((k, v) ∷ m) = P v × Each P m

module _ {ℓ} {V : Type ℓ} (P : V → Type 0) where
  pub Each-insert :
      (k : String) (v : V) (m : List (String × V)) → P v → Each P m → Each P (insert k v m)
  unfolding insert
  Each-insert k v [] p h = (p, tt)
  Each-insert k v ((j, w) ∷ m) p h = elim (Bool-cases (j == k)) [
    | inl e ↦ rw e (p, h.1)
    | inr e ↦ rw e (h.0, Each-insert k v m p h.1)
  ]

  pub Each-lookup :
      (k : String) (v : V) (m : List (String × V)) → lookup k m ≡ some v → Each P m → P v
  unfolding lookup
  Each-lookup k v [] e h = cc
  Each-lookup k v ((j, w) ∷ m) e h = elim (Bool-cases (j == k)) [
    | inl y ↦ let same : w ≡ v = ground arith in subst P same h.0
    | inr n ↦ Each-lookup k v m (rw n at e) h.1
  ]

  pub Each-delete : (k : String) (m : List (String × V)) → Each P m → Each P (delete k m)
  unfolding delete
  Each-delete k [] h = h
  Each-delete k ((j, w) ∷ m) h = elim (Bool-cases (j == k)) [
    | inl e ↦ rw e (Each-delete k m h.1)
    | inr e ↦ rw e (h.0, Each-delete k m h.1)
  ]

  pub Each-map_values :
      (f : V → V) (m : List (String × V))
      → ((v : V) → P v → P (f v))
      → Each P m
      → Each P (map_values f m)
  unfolding map_values
  Each-map_values f [] step h = h
  Each-map_values f ((j, v) ∷ m) step h = (step v h.0, Each-map_values f m step h.1)
