-- ===== src/Prelude/Lists.antt =====
-- Python's `set`, `len` and `dict` on lists.
use Prim.Native.Nat.{ℕ, suc, ◌+◌, ◌≤◌}
use mathlib.Core.Path.{◌≡◌, refl}
use mathlib.Core.Bool.{Bool, true, false, ◌&&◌, ◌||◌}
use mathlib.Core.List.{List, [], ◌∷◌, ◌++◌}
use native.Mathlib.Omega.{arith}
use campus_hub.Prelude.Equality.{Eq, contains, if◌then◌else◌}

module _ {ℓ} {A : Type ℓ} where
  abbrev pub length : List A → ℕ
  length [] = 0
  length (x ∷ xs) = suc (length xs)

  abbrev pub All {κ} : (A → Type κ) → List A → Type κ
  All P [] = Unit
  All P (x ∷ xs) = P x × All P xs

  -- `all(...)` and `any(...)` over a list.
  abbrev pub all : (A → Bool) → List A → Bool
  all p [] = true
  all p (x ∷ xs) = p x && all p xs

  abbrev pub any : (A → Bool) → List A → Bool
  any p [] = false
  any p (x ∷ xs) = p x || any p xs

  pub length-append : (xs ys : List A) → length (xs ++ ys) ≡ length xs + length ys
  length-append [] ys = omega arith
  length-append (x ∷ xs) ys = omega (arith, length-append xs ys)

module _ {ℓ} {A : Type ℓ} ⦃e : Eq A⦄ where
  -- `len(set(xs))` is the length of this list.
  unfoldable pub distinct : List A → List A
  distinct [] = []
  distinct (x ∷ xs) = let rest = distinct xs in if contains xs x then rest else x ∷ rest

  -- `set(xs) <= set(ys)`
  abbrev pub subset : List A → List A → Bool
  subset [] ys = true
  subset (x ∷ xs) ys = contains ys x && subset xs ys

  -- `set(xs) == set(ys)`
  abbrev pub same_set : List A → List A → Bool
  same_set xs ys = subset xs ys && subset ys xs

  -- No element stands twice.
  abbrev pub Distinct : List A → Type 0
  Distinct [] = Unit
  Distinct (x ∷ xs) = (contains xs x ≡ false) × Distinct xs

  pub length-distinct : (xs : List A) → length (distinct xs) ≤ length xs
  unfolding distinct
  length-distinct [] = omega arith
  length-distinct (x ∷ xs) = ground (arith, length-distinct xs)

  pub Distinct_of_length : (xs : List A) → length (distinct xs) ≡ length xs → Distinct xs
  unfolding distinct
  Distinct_of_length [] h = tt
  Distinct_of_length (x ∷ xs) h = ground (arith, Distinct_of_length xs, length-distinct xs)

  pub length-distinct_of_Distinct : (xs : List A) → Distinct xs → length (distinct xs) ≡ length xs
  unfolding distinct
  length-distinct_of_Distinct [] h = refl
  length-distinct_of_Distinct (x ∷ xs) h = ground (arith, length-distinct_of_Distinct xs h.1)
