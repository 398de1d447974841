-- ===== src/Baseline/Sample.antt =====
-- `sorted`, `statistics.median`, `min` and `max` as the two `aggregate` functions use them.
pub mod Laws
pub mod Extremes
use campus_hub.Prelude.{
  ℕ, zero, suc, ◌/◌, ◌%◌, Bool, true, false, ◌&&◌, List, [], ◌∷◌, Option, none, some, leb, length,
  if◌then◌else◌, ◌==◌, nat_eq, list_eq,
}
use campus_hub.Py.{Result, ok, err, value_error, ◌>>=◌, traverse, Number, num_lt, num_le, num}
use campus_hub.Baseline.Metric.{number}

module _ {A : Type 0} (before : A → A → Bool) where
  unfoldable pub insert : A → List A → List A
  insert a [] = a ∷ []
  insert a (x ∷ xs) = if before a x then a ∷ x ∷ xs else x ∷ insert a xs

  -- `sorted(xs)`, for an order without ties among the values.
  unfoldable pub sort : List A → List A
  unfolding insert
  sort [] = []
  sort (x ∷ xs) = insert x (sort xs)

-- `sorted(repeats) == [1, 2, 3]`
unfoldable pub are_repeats : List ℕ → Bool
unfolding sort
are_repeats repeats = sort leb repeats == (1 ∷ 2 ∷ 3 ∷ [])

unfoldable pub get_elem? : List Number → ℕ → Option Number
get_elem? [] i = none
get_elem? (x ∷ xs) zero = some x
get_elem? (x ∷ xs) (suc i) = get_elem? xs i

abbrev middle : Option Number → Result Number
middle none = err (value_error "no median for empty data")
middle (some x) = ok x

-- The middle one of a sample of odd size; `aggregate` makes samples of three.
unfoldable pub median : List Number → Result Number
unfolding sort get_elem?
median xs = middle (get_elem? (sort num_le xs) (length xs / 2))

unfoldable pub min_of : Number → List Number → Number
min_of best [] = best
min_of best (x ∷ xs) = min_of (if num_lt x best then x else best) xs

unfoldable pub max_of : Number → List Number → Number
max_of best [] = best
max_of best (x ∷ xs) = max_of (if num_lt best x then x else best) xs

pub record Spread : Type 0 where
  pub median : Number
  pub min : Number
  pub max : Number

extremes : Number → List Number → Result Spread
extremes m [] = err (value_error "min() arg is an empty sequence")
extremes m (x ∷ xs) = ok (record { median = m; min = min_of x xs; max = max_of x xs })

-- `{"median": median(values), "min": min(values), "max": max(values)}`
unfoldable pub spread_of : List Number → Result Spread
unfolding median min_of max_of extremes
spread_of values = do m ← median values; extremes m values

-- `{"median": median([number(v) for v in sample]), "min": min(sample), "max": max(sample)}`
unfoldable pub spread : List Number → Result Spread
unfolding median min_of max_of extremes
spread sample = do
  values ← traverse (λ v. number (num v)) sample
  m ← median values
  extremes m sample
