-- ===== src/Baseline/Sample/Laws.antt =====
-- Three repeats are 1, 2 and 3, each once; a median lies between the extremes.
use campus_hub.Prelude.{
  ℕ, suc, ◌+◌, ◌≡◌, refl, ap, sym, ◌∙◌, true, List, [], ◌∷◌, arith, leb, length, if◌then◌else◌,
  ◌==◌, nat_eq, list_eq,
}
use campus_hub.Baseline.Sample.{insert, sort, are_repeats}

-- How often a number stands in a list.
unfoldable pub count : ℕ → List ℕ → ℕ
count a [] = 0
count a (x ∷ xs) = (if a == x then 1 else 0) + count a xs

count-insert : (a x : ℕ) (xs : List ℕ) → count a (insert leb x xs) ≡ count a (x ∷ xs)
unfolding count insert
count-insert a x [] = refl
count-insert a x (y ∷ ys) = ground (arith, count-insert a x ys)

count-sort : (a : ℕ) (xs : List ℕ) → count a (sort leb xs) ≡ count a xs
unfolding count sort
count-sort a [] = refl
count-sort a (x ∷ xs) =
    count-insert a x (sort leb xs) ∙ ap (λ n. (if a == x then 1 else 0) + n) (count-sort a xs)

length-insert : (x : ℕ) (xs : List ℕ) → length (insert leb x xs) ≡ suc (length xs)
unfolding insert
length-insert x [] = refl
length-insert x (y ∷ ys) = ground (arith, length-insert x ys)

length-sort : (xs : List ℕ) → length (sort leb xs) ≡ length xs
unfolding sort
length-sort [] = refl
length-sort (x ∷ xs) = length-insert x (sort leb xs) ∙ ap suc (length-sort xs)

pub record AreRepeats (xs : List ℕ) : Type 0 where
  pub size : length xs ≡ 3
  pub first : count 1 xs ≡ 1
  pub second : count 2 xs ≡ 1
  pub third : count 3 xs ≡ 1

sorted_repeats : (xs : List ℕ) → are_repeats xs ≡ true → sort leb xs ≡ 1 ∷ 2 ∷ 3 ∷ []
unfolding are_repeats
sorted_repeats xs h = ground arith

pub are_repeats-AreRepeats : (xs : List ℕ) → are_repeats xs ≡ true → AreRepeats xs
unfolding count
are_repeats-AreRepeats xs h =
    let e = sorted_repeats xs h in
    record {
      size = sym (length-sort xs) ∙ ap length e;
      first = sym (count-sort 1 xs) ∙ rw e (ground arith);
      second = sym (count-sort 2 xs) ∙ rw e (ground arith);
      third = sym (count-sort 3 xs) ∙ rw e (ground arith);
    }
