-- ===== src/Prelude/Sets.antt =====
-- Lists read as sets: inclusion, and what distinctness says about lengths.
use campus_hub.Prelude.Equality.{Eq, ◌==◌, contains, if◌then◌else◌}
use campus_hub.Prelude.Lists.{
  length, distinct, subset, same_set, Distinct, length-distinct, Distinct_of_length,
}
use Prim.Native.Nat.{suc, ◌≤◌}
use mathlib.Core.Path.{◌≡◌, refl}
use mathlib.Core.Bool.{true, false, ◌||◌}
use mathlib.Core.List.{List, [], ◌∷◌, ◌++◌, map}
use native.Mathlib.Omega.{arith}

module _ {ℓ} {A : Type ℓ} ⦃e : Eq A⦄ where
  pub contains_of_subset :
      (xs ys : List A) (a : A) → subset xs ys ≡ true → contains xs a ≡ true → contains ys a ≡ true
  contains_of_subset [] ys a h m = ground arith
  contains_of_subset (x ∷ xs) ys a h m = ground (arith, contains_of_subset xs ys a)

  pub subset_of_contains :
      (xs ys : List A)
      → ((a : A) → contains xs a ≡ true → contains ys a ≡ true)
      → subset xs ys ≡ true
  subset_of_contains [] ys h = refl
  subset_of_contains (x ∷ xs) ys h =
      ground (arith, h x, subset_of_contains xs ys (λ a m. h a (ground arith)))

  pub subset_refl : (xs : List A) → subset xs xs ≡ true
  subset_refl xs = subset_of_contains xs xs (λ a m. m)

  pub contains-distinct : (xs : List A) (a : A) → contains (distinct xs) a ≡ contains xs a
  unfolding distinct
  contains-distinct [] a = refl
  contains-distinct (x ∷ xs) a = ground (arith, contains-distinct xs a)

  -- `xs` without its first `a`
  remove : A → List A → List A
  remove a [] = []
  remove a (x ∷ xs) = if a == x then xs else x ∷ remove a xs

  length-remove :
      (a : A) (xs : List A) → contains xs a ≡ true → suc (length (remove a xs)) ≡ length xs
  unfolding remove
  length-remove a [] m = ground arith
  length-remove a (x ∷ xs) m = ground (arith, length-remove a xs)

  contains-remove_ne :
      (a b : A) (xs : List A) → (a == b) ≡ false → contains (remove a xs) b ≡ contains xs b
  unfolding remove
  contains-remove_ne a b [] h = refl
  contains-remove_ne a b (x ∷ xs) h = ground (arith, contains-remove_ne a b xs)

  ne_of_fresh :
      (xs : List A) (x a : A) → contains xs x ≡ false → contains xs a ≡ true → (x == a) ≡ false
  ne_of_fresh xs x a f m = ground arith

  -- A list without repetitions is no longer than a list that includes it.
  pub length-le_of_subset :
      (xs ys : List A) → Distinct xs → subset xs ys ≡ true → length xs ≤ length ys
  length-le_of_subset [] ys d h = omega arith
  length-le_of_subset (x ∷ xs) ys (fresh, d) h =
      let inside : contains ys x ≡ true = ground arith in
      let rest : subset xs (remove x ys) ≡ true = subset_of_contains xs (remove x ys) λ a m.
        ground (
          arith,
          contains-remove_ne x a ys (ne_of_fresh xs x a fresh m),
          contains_of_subset xs ys a (ground arith) m,
        ) in
      omega (arith, length-le_of_subset xs (remove x ys) d rest, length-remove x ys inside)

  -- If a list is as long as a set that it lists, it lists each element once.
  pub Distinct_of_same_set :
      (xs ys : List A) → Distinct ys → length xs ≡ length ys → same_set xs ys ≡ true → Distinct xs
  Distinct_of_same_set xs ys d n h =
      let back : subset ys (distinct xs) ≡ true = subset_of_contains ys (distinct xs) λ a m.
        ground (arith, contains-distinct xs a, contains_of_subset ys xs a (ground arith) m) in
      Distinct_of_length xs
        (omega (arith, length-le_of_subset ys (distinct xs) d back, length-distinct xs))

  -- Two listings of one set without repetitions are equally long.
  pub length-eq_of_same_set :
      (xs ys : List A) → Distinct xs → Distinct ys → same_set xs ys ≡ true → length xs ≡ length ys
  length-eq_of_same_set xs ys c d h = omega (
    arith,
    length-le_of_subset xs ys c (ground arith),
    length-le_of_subset ys xs d (ground arith),
  )

  pub contains-append :
      (xs ys : List A) (a : A) → contains (xs ++ ys) a ≡ (contains xs a || contains ys a)
  contains-append [] ys a = refl
  contains-append (x ∷ xs) ys a = ground (arith, contains-append xs ys a)

  pub Distinct-append_one :
      (xs : List A) (a : A) → Distinct xs → contains xs a ≡ false → Distinct (xs ++ (a ∷ []))
  Distinct-append_one [] a u h = (refl, tt)
  Distinct-append_one (x ∷ xs) a (fresh, u) h =
      (ground (arith, contains-append xs (a ∷ []) x), Distinct-append_one xs a u (ground arith))

  pub contains_of_same_set :
      (xs ys : List A) (a : A) → same_set xs ys ≡ true → contains xs a ≡ contains ys a
  contains_of_same_set xs ys a h =
      ground (arith, contains_of_subset xs ys a, contains_of_subset ys xs a)

module _ {ℓ κ} {A : Type ℓ} {B : Type κ} ⦃e : Eq A⦄ ⦃f : Eq B⦄ where
  pub contains-map :
      (g : A → B)
      → ((x y : A) → g x ≡ g y → x ≡ y)
      → (xs : List A) (a : A) → contains (map g xs) (g a) ≡ contains xs a
  contains-map g inj [] a = refl
  contains-map g inj (x ∷ xs) a = ground (arith, contains-map g inj xs a, inj a x)
