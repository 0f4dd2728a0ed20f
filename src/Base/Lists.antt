-- ===== src/Base/Lists.antt =====
-- Lists measured by native numbers, under the library's names, and predicates by recursion.
use Prim.Native.Nat.{ℕ, zero, suc, ◌+◌, ◌≤◌}
use Prim.Native.String.{String}
use mathlib.Core.Path.{◌≡◌, refl, ap}
use mathlib.Core.Bool.{Bool, false, ◌||◌}
use mathlib.Core.List.{List, [], ◌∷◌, ◌++◌}
use native.Mathlib.Omega.{arith}
use text.Mathlib.Text.{◌==◌}

module _ {ℓ} {A : Type ℓ} where
  abbrev pub length : List A → ℕ
  length [] = 0
  length (x ∷ xs) = suc (length xs)

  pub length-append : (xs ys : List A) → length (xs ++ ys) ≡ length xs + length ys
  length-append [] ys = omega arith
  length-append (x ∷ xs) ys = omega (arith, length-append xs ys)

module _ {ℓ} {A : Type ℓ} where
  -- s[:n]
  unfoldable pub take : ℕ → List A → List A
  take zero s = []
  take (suc n) [] = []
  take (suc n) (b ∷ s) = b ∷ take n s

  -- s[n:]
  unfoldable pub drop : ℕ → List A → List A
  drop zero s = s
  drop (suc n) [] = []
  drop (suc n) (b ∷ s) = drop n s

  pub take-append-drop : (n : ℕ) (s : List A) → take n s ++ drop n s ≡ s
  unfolding take drop
  take-append-drop zero s = refl
  take-append-drop (suc n) [] = refl
  take-append-drop (suc n) (b ∷ s) = ap (λ t. b ∷ t) (take-append-drop n s)

  pub length-take : (n : ℕ) (s : List A) → n ≤ length s → length (take n s) ≡ n
  unfolding take
  length-take zero s h = refl
  length-take (suc n) [] h = absurd (omega arith)
  length-take (suc n) (b ∷ s) h = omega (arith, length-take n s (omega arith))

  pub length-drop : (n : ℕ) (s : List A) → n ≤ length s → n + length (drop n s) ≡ length s
  unfolding drop
  length-drop zero s h = omega arith
  length-drop (suc n) [] h = absurd (omega arith)
  length-drop (suc n) (b ∷ s) h = omega (arith, length-drop n s (omega arith))

  pub length-drop_le : (n : ℕ) (s : List A) → length (drop n s) ≤ length s
  unfolding drop
  length-drop_le zero s = omega arith
  length-drop_le (suc n) [] = omega arith
  length-drop_le (suc n) (b ∷ s) = omega (arith, length-drop_le n s)

-- P holds of every element.
abbrev pub All {ℓ κ} : {A : Type ℓ} → (A → Type κ) → List A → Type κ
All P [] = Unit
All P (x ∷ xs) = P x × All P xs

-- Membership of a text, as a `map[string]struct{}` lookup.
abbrev pub contains : String → List String → Bool
contains k [] = false
contains k (x ∷ xs) = x == k || contains k xs
