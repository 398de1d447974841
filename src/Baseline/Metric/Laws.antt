-- ===== src/Baseline/Metric/Laws.antt =====
-- What a metric that passed the gates is: a number in order with the others of its series.
use native.Mathlib.Nat.{mul-le-mul_right, le_of_mul-le-mul_right, one-le-pow}
use mathlib.Core.Path.{subst}
use campus_hub.Prelude.{ℕ, ◌*◌, ◌^◌, ◌≤◌, ◌<◌, ◌≡◌, true, arith, String, ◌⊎◌, inl, inr}
use campus_hub.Py.{
  ok, Post, returns, Post-bind, Post-require, Post-self, Post-map, get, Number, int, float,
  infinite, nan, num_le, num_lt, pos, negsuc, pos_part, Json, null, bool, num, str, arr, obj,
}
use campus_hub.Baseline.Metric.{number, metric_values, Timing, in_order, timing_values, quantile}

-- A finite number that is not negative, as a numerator over a power of two.
pub data IsMetric : Number → Type 0 where
  whole : (n : ℕ) → IsMetric (int (pos n))
  dyadic : (m k : ℕ) → IsMetric (float (pos m) k)

number-IsMetric_ok : (j : Json) (x : Number) → number j ≡ ok x → IsMetric x
unfolding number num_lt
number-IsMetric_ok (num (int (pos n))) x h =
    let e : int (pos n) ≡ x = ground arith in subst IsMetric e (whole n)
number-IsMetric_ok (num (int (negsuc n))) x h = absurd (ground arith)
number-IsMetric_ok (num (float (pos m) k)) x h =
    let e : float (pos m) k ≡ x = ground arith in subst IsMetric e (dyadic m k)
number-IsMetric_ok (num (float (negsuc m) k)) x h = absurd (ground arith)
number-IsMetric_ok (num (infinite neg)) x h = absurd (ground arith)
number-IsMetric_ok (num nan) x h = absurd (ground arith)
number-IsMetric_ok null x h = absurd (ground arith)
number-IsMetric_ok (bool b) x h = absurd (ground arith)
number-IsMetric_ok (str s) x h = absurd (ground arith)
number-IsMetric_ok (arr js) x h = absurd (ground arith)
number-IsMetric_ok (obj fs) x h = absurd (ground arith)

pub number-IsMetric : (j : Json) → Post IsMetric (number j)
number-IsMetric j = Post-map (Post-self (number j)) (number-IsMetric_ok j)

abbrev numerator : Number → ℕ
numerator (int z) = pos_part z
numerator (float z k) = pos_part z
numerator (infinite neg) = 0
numerator nan = 0

abbrev exponent : Number → ℕ
exponent (int z) = 0
exponent (float z k) = k
exponent (infinite neg) = 0
exponent nan = 0

-- x ≤ y with the denominators multiplied out.
Below : Number → Number → Type 0
Below x y = numerator x * 2 ^ exponent y ≤ numerator y * 2 ^ exponent x

Below-of_num_le : {x y : Number} → IsMetric x → IsMetric y → num_le x y ≡ true → Below x y
unfolding num_le Below
Below-of_num_le (whole n) (whole m) h = ground arith
Below-of_num_le (whole n) (dyadic m k) h = ground arith
Below-of_num_le (dyadic m k) (whole n) h = ground arith
Below-of_num_le (dyadic m k) (dyadic n j) h = ground arith

num_le_of_Below : {x y : Number} → IsMetric x → IsMetric y → Below x y → num_le x y ≡ true
unfolding num_le Below
num_le_of_Below (whole n) (whole m) h = ground arith
num_le_of_Below (whole n) (dyadic m k) h = ground arith
num_le_of_Below (dyadic m k) (whole n) h = ground arith
num_le_of_Below (dyadic m k) (dyadic n j) h = ground arith

cross_trans : (a b c p q r : ℕ) → 0 < q → a * q ≤ b * p → b * r ≤ c * q → a * r ≤ c * p
cross_trans a b c p q r h f g =
    le_of_mul-le-mul_right {k = q} (grind (arith, mul-le-mul_right r f, mul-le-mul_right p g)) h

pub num_le_trans :
    {x y z : Number}
    → IsMetric x
    → IsMetric y
    → IsMetric z
    → num_le x y ≡ true
    → num_le y z ≡ true
    → num_le x z ≡ true
unfolding Below
num_le_trans {x} {y} {z} p q r f g = num_le_of_Below p r (
    cross_trans _ _ _ _ _ _ (one-le-pow (exponent y) 2 (omega arith)) (Below-of_num_le p q f)
      (Below-of_num_le q r g))

quantile-IsMetric : (s : Json) (name key : String) → Post IsMetric (quantile s name key)
unfolding quantile
quantile-IsMetric s name key =
    Post-bind (Post-self (metric_values s name))
      λ values _. Post-bind (Post-self (get values key)) λ value _. number-IsMetric value

-- The quantiles ascend from the minimum to the maximum, and the average is between these.
pub record IsOrdered (t : Timing) : Type 0 where
  pub min_med : num_le t.min t.med ≡ true
  pub med_p90 : num_le t.med t.p90 ≡ true
  pub p90_p95 : num_le t.p90 t.p95 ≡ true
  pub p95_p99 : num_le t.p95 t.p99 ≡ true
  pub p99_max : num_le t.p99 t.max ≡ true
  pub min_max : num_le t.min t.max ≡ true
  pub lowest : num_le t.min t.avg ≡ true
  pub highest : num_le t.avg t.max ≡ true

pub record IsSeries (t : Timing) : Type 0 where
  pub avg : IsMetric t.avg
  pub min : IsMetric t.min
  pub med : IsMetric t.med
  pub max : IsMetric t.max
  pub p90 : IsMetric t.p90
  pub p95 : IsMetric t.p95
  pub p99 : IsMetric t.p99

IsOrdered-of_in_order : (t : Timing) → IsSeries t → in_order t ≡ true → IsOrdered t
IsOrdered-of_in_order t s h =
    let a : num_le t.min t.med ≡ true = ground arith in
    let b : num_le t.med t.p90 ≡ true = ground arith in
    let c : num_le t.p90 t.p95 ≡ true = ground arith in
    let d : num_le t.p95 t.p99 ≡ true = ground arith in
    let e : num_le t.p99 t.max ≡ true = ground arith in
    let ac : num_le t.med t.p95 ≡ true = num_le_trans s.med s.p90 s.p95 b c in
    let de : num_le t.p95 t.max ≡ true = num_le_trans s.p95 s.p99 s.max d e in
    let ace : num_le t.med t.max ≡ true = num_le_trans s.med s.p95 s.max ac de in
    record {
      min_med = a;
      med_p90 = b;
      p90_p95 = c;
      p95_p99 = d;
      p99_max = e;
      min_max = num_le_trans s.min s.med s.max a ace;
      lowest = ground arith;
      highest = ground arith;
    }

pub timing_values-IsOrdered :
    (s : Json) (name : String) → Post (λ t. IsSeries t × IsOrdered t) (timing_values s name)
unfolding timing_values
timing_values-IsOrdered s name = Post-bind (quantile-IsMetric s name "avg") λ avg a.
    Post-bind (quantile-IsMetric s name "min") λ min b.
      Post-bind (quantile-IsMetric s name "med") λ med c.
        Post-bind (quantile-IsMetric s name "max") λ max d.
          Post-bind (quantile-IsMetric s name "p(90)") λ p90 e.
            Post-bind (quantile-IsMetric s name "p(95)") λ p95 f.
              Post-bind (quantile-IsMetric s name "p(99)") λ p99 g. Post-require _ λ ordered.
                let s : IsSeries _ = record {
                  avg = a;
                  min = b;
                  med = c;
                  max = d;
                  p90 = e;
                  p95 = f;
                  p99 = g;
                } in
                returns (s, IsOrdered-of_in_order _ s ordered)

le_cases : (a b : ℕ) → (a ≤ b) ⊎ (b ≤ a)
le_cases a b = grind arith

pub num_le-total :
    {x y : Number} → IsMetric x → IsMetric y → (num_le x y ≡ true) ⊎ (num_le y x ≡ true)
unfolding Below
num_le-total {x} {y} p q =
    elim (le_cases (numerator x * 2 ^ exponent y) (numerator y * 2 ^ exponent x)) [
      | inl h ↦ inl (num_le_of_Below p q h)
      | inr h ↦ inr (num_le_of_Below q p h)
    ]

pub num_le_refl : {x : Number} → IsMetric x → num_le x x ≡ true
num_le_refl p = elim (num_le-total p p) [ inl h ↦ h | inr h ↦ h ]
