-- ===== src/Baseline/Sample/Extremes.antt =====
-- A published median lies between the published minimum and maximum.
use mathlib.Core.Path.{subst}
use campus_hub.Prelude.{
  ℕ, zero, suc, ◌/◌, ◌≡◌, refl, true, false, List, [], ◌∷◌, arith, length, if◌then◌else◌,
  Bool-cases, inl, inr, All,
}
use campus_hub.Py.{
  ok, traverse, Number, num_lt, num_le, num, Post, returns, raises, Post-bind, Post-self, Post-map,
  Post-ok,
}
use campus_hub.Baseline.Metric.{number}
use campus_hub.Baseline.Metric.Laws.{
  IsMetric, num_le_trans, num_le-total, num_le_refl, number-IsMetric,
}
use campus_hub.Baseline.Sample.{
  insert, sort, get_elem?, middle, median, min_of, max_of, Spread, extremes, spread, spread_of,
}

All-both :
    (P Q : Number → Type 0) (xs : List Number) → All P xs → All Q xs → All (λ x. P x × Q x) xs
All-both P Q [] h k = tt
All-both P Q (x ∷ xs) (p, h) (q, k) = ((p, q), All-both P Q xs h k)

not_lt : {x y : Number} → IsMetric x → IsMetric y → num_lt x y ≡ false → num_le y x ≡ true
unfolding num_lt
not_lt p q h = ground (arith, num_le-total p q)

lt_le : (x y : Number) → num_lt x y ≡ true → num_le x y ≡ true
unfolding num_lt
lt_le x y h = ground arith

smaller :
    (x best : Number)
    → IsMetric x
    → IsMetric best
    → let n = if num_lt x best then x else best in
      IsMetric n × (num_le n best ≡ true) × (num_le n x ≡ true)
smaller x best q p = elim (Bool-cases (num_lt x best)) [
  | inl less ↦ rw less (q, lt_le x best less, num_le_refl q)
  | inr more ↦ rw more (p, num_le_refl p, not_lt q p more)
]

larger :
    (x best : Number)
    → IsMetric x
    → IsMetric best
    → let n = if num_lt best x then x else best in
      IsMetric n × (num_le best n ≡ true) × (num_le x n ≡ true)
larger x best q p = elim (Bool-cases (num_lt best x)) [
  | inl less ↦ rw less (q, lt_le best x less, num_le_refl q)
  | inr more ↦ rw more (p, num_le_refl p, not_lt p q more)
]

AtLeast : Number → Number → Type 0
AtLeast m x = num_le m x ≡ true

min_of_lower :
    (best : Number) (xs : List Number)
    → IsMetric best
    → All IsMetric xs
    → IsMetric (min_of best xs) × AtLeast (min_of best xs) best × All (AtLeast (min_of best xs)) xs
unfolding min_of AtLeast
min_of_lower best [] p h = (p, num_le_refl p, tt)
min_of_lower best (x ∷ xs) p (q, h) =
    let (r, a, b) = smaller x best q p in
    let (m, low, rest) = min_of_lower (if num_lt x best then x else best) xs r h in
    (m, num_le_trans m r p low a, (num_le_trans m r q low b, rest))

AtMost : Number → Number → Type 0
AtMost m x = num_le x m ≡ true

max_of_upper :
    (best : Number) (xs : List Number)
    → IsMetric best
    → All IsMetric xs
    → IsMetric (max_of best xs) × AtMost (max_of best xs) best × All (AtMost (max_of best xs)) xs
unfolding max_of AtMost
max_of_upper best [] p h = (p, num_le_refl p, tt)
max_of_upper best (x ∷ xs) p (q, h) =
    let (r, a, b) = larger x best q p in
    let (m, high, rest) = max_of_upper (if num_lt best x then x else best) xs r h in
    (m, num_le_trans p r m a high, (num_le_trans q r m b high, rest))

All-insert :
    (P : Number → Type 0) (x : Number) (xs : List Number)
    → P x
    → All P xs
    → All P (insert num_le x xs)
unfolding insert
All-insert P x [] p h = (p, tt)
All-insert P x (y ∷ ys) p (q, h) = elim (Bool-cases (num_le x y)) [
  | inl e ↦ rw e (p, (q, h))
  | inr e ↦ rw e (q, All-insert P x ys p h)
]

All-sort : (P : Number → Type 0) (xs : List Number) → All P xs → All P (sort num_le xs)
unfolding sort
All-sort P [] h = tt
All-sort P (x ∷ xs) (p, h) = All-insert P x (sort num_le xs) p (All-sort P xs h)

All-get_elem? :
    (P : Number → Type 0) (xs : List Number) (i : ℕ) → All P xs → Post P (middle (get_elem? xs i))
unfolding get_elem?
All-get_elem? P [] i h = raises
All-get_elem? P (x ∷ xs) zero (p, h) = returns p
All-get_elem? P (x ∷ xs) (suc i) (p, h) = All-get_elem? P xs i h

median_of : (P : Number → Type 0) (xs : List Number) → All P xs → Post P (median xs)
unfolding median
median_of P xs h = All-get_elem? P (sort num_le xs) (length xs / 2) (All-sort P xs h)

number_same : (x y : Number) → number (num x) ≡ ok y → y ≡ x
unfolding number
number_same x y h = ground arith

number_num : (x y : Number) → number (num x) ≡ ok y → (y ≡ x) × IsMetric x
number_num x y h =
    let same = number_same x y h in
    (same, subst IsMetric same (Post-ok (number-IsMetric (num x)) h))

numbers-IsMetric :
    (xs : List Number)
    → Post (λ ys. (ys ≡ xs) × All IsMetric xs) (traverse (λ v. number (num v)) xs)
unfolding traverse
numbers-IsMetric [] = returns (refl, tt)
numbers-IsMetric (x ∷ xs) =
    Post-bind (Post-map (Post-self (number (num x))) (number_num x))
      λ y (same, p). Post-bind (numbers-IsMetric xs) λ ys (e, h). returns (ground arith, (p, h))

pub record IsSpread (s : Spread) : Type 0 where
  pub low : num_le s.min s.median ≡ true
  pub high : num_le s.median s.max ≡ true

extremes_around :
    (x : Number) (xs : List Number)
    → All IsMetric (x ∷ xs)
    → (m : Number) → AtLeast (min_of x xs) m × AtMost (max_of x xs) m
    → Post IsSpread (extremes m (x ∷ xs))
unfolding AtLeast AtMost extremes
extremes_around x xs h m (a, b) = returns (record { low = a; high = b })

pub spread_of-IsSpread : (xs : List Number) → All IsMetric xs → Post IsSpread (spread_of xs)
unfolding spread_of extremes
spread_of-IsSpread [] h = Post-bind (Post-self (median [])) λ m _. raises
spread_of-IsSpread (x ∷ xs) (p, h) =
    let (_, low, lows) = min_of_lower x xs p h in
    let (_, high, highs) = max_of_upper x xs p h in
    Post-bind
      (median_of _ (x ∷ xs) (
        All-both (AtLeast (min_of x xs)) (AtMost (max_of x xs)) (x ∷ xs) (low, lows) (high, highs)))
      λ m ab. extremes_around x xs (p, h) m ab

-- A spread that is reported has its median between its minimum and its maximum.
pub spread-IsSpread : (sample : List Number) → Post IsSpread (spread sample)
unfolding spread spread_of
spread-IsSpread sample =
    Post-bind (numbers-IsMetric sample)
      λ values (same, metrics). rw same (spread_of-IsSpread sample metrics)
