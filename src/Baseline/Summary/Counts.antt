-- ===== src/Baseline/Summary/Counts.antt =====
-- Numbers that are counts, and the product of a count with the checks for each request.
use native.Mathlib.Nat.{one-le-pow, le_of_mul-le-mul_right}
use campus_hub.Prelude.{
  ℕ, ◌*◌, ◌^◌, ◌/◌, ◌≤◌, ◌<◌, ◌≡◌, refl, true, false, arith, nat_eq, inl, inr, Bool-cases, ap, sym,
  ◌∙◌,
}
use campus_hub.Py.{
  ok, Number, nat, int, float, infinite, nan, num_le, scale, times, rounded, is_beyond, num_eq,
  to_int, ℤ, pos,
}
use campus_hub.Py.Rounding.Exact.{rounded_exact}
use campus_hub.Baseline.Metric.Laws.{IsMetric, whole, dyadic}

-- The number is `n`.
abbrev pub Counts : ℕ → Number → Type 0
Counts n x = num_eq x (nat n) ≡ true

-- What equals its integral part is a count.
pub whole_of : {x : Number} (z : ℤ) → IsMetric x → to_int x ≡ ok z → (n : ℕ) × (z ≡ pos n)
unfolding to_int
whole_of z (whole n) h = (n, ground arith)
whole_of z (dyadic m k) h = (m / 2 ^ k, ground arith)

cancel : (a b q : ℕ) → 0 < q → a * q ≡ b * q → a ≡ b
cancel a b q h e =
    let f : a * q ≤ b * q = omega (arith, e) in
    let g : b * q ≤ a * q = omega (arith, e) in
    omega (arith, le_of_mul-le-mul_right {k = q} f h, le_of_mul-le-mul_right {k = q} g h)

Counts-whole : (n a : ℕ) → Counts n (int (pos a)) → a ≡ n
unfolding num_eq num_le
Counts-whole n a h = ground arith

Counts-dyadic : (n m k : ℕ) → Counts n (float (pos m) k) → m ≡ n * 2 ^ k
unfolding num_eq num_le
Counts-dyadic n m k h = ground arith

-- The product with a count as it would be without rounding.
abbrev exactly : ℕ → Number → Number
exactly n (int z) = int (scale z n)
exactly n (float z k) = float (scale z n) k
exactly n (infinite neg) = infinite neg
exactly n nan = nan

regrouped : (c q per : ℕ) → c * q * per ≡ per * c * q
regrouped c q per = grind arith

rounded-count :
    (per c m k : ℕ) → per * c < 2 ^ 53 → Counts c (float (pos m) k) → rounded (m * per) ≡ m * per
rounded-count per c m k small hc =
    let e : m * per ≡ per * c * 2 ^ k =
      ap (λ n. n * per) (Counts-dyadic c m k hc) ∙ regrouped c (2 ^ k) per in
    ap rounded e ∙ rounded_exact (per * c) k small ∙ sym e

no_metric_infinite : {x : Number} → IsMetric x → num_eq x (infinite false) ≡ false
unfolding num_eq num_le
no_metric_infinite (whole n) = refl
no_metric_infinite (dyadic m k) = refl

-- Below 2 ^ 53 nothing is rounded.
pub exactly_of_times :
    {x y : Number} (per c : ℕ)
    → IsMetric x
    → IsMetric y
    → Counts c y
    → per * c < 2 ^ 53
    → num_eq x (times per y) ≡ true
    → num_eq x (exactly per y) ≡ true
exactly_of_times per c p (whole b) hc small e = e
exactly_of_times {x} per c p (dyadic m k) hc small e =
    elim (Bool-cases (is_beyond (rounded (m * per)) k)) [
      | inl b ↦ absurd (
          let f : num_eq x (infinite false) ≡ true = rw b at e in
          let g = no_metric_infinite p in ground arith)
      | inr b ↦ let f = rw b at e in rw (rounded-count per c m k small hc) at f
    ]

-- The passes are so many per request.
pub product :
    {x y : Number} (per p c : ℕ)
    → IsMetric x
    → IsMetric y
    → Counts p x
    → Counts c y
    → num_eq x (exactly per y) ≡ true
    → p ≡ per * c
unfolding num_eq num_le
product per p c (whole a) (whole b) hp hc e =
    let u : a ≡ b * per = ground arith in grind (arith, u, Counts-whole p a hp, Counts-whole c b hc)
product per p c (whole a) (dyadic b j) hp hc e =
    let u : a * 2 ^ j ≡ b * per = ground arith in
    cancel p (per * c) (2 ^ j) (one-le-pow j 2 (omega arith))
      (let v = rw (Counts-whole p a hp, Counts-dyadic c b j hc) at u in grind (arith, v))
product per p c (dyadic a k) (whole b) hp hc e =
    let u : a ≡ b * per * 2 ^ k = ground arith in
    cancel p (per * c) (2 ^ k) (one-le-pow k 2 (omega arith))
      (let v = rw (Counts-dyadic p a k hp, Counts-whole c b hc) at u in grind (arith, v))
product per p c (dyadic a k) (dyadic b j) hp hc e =
    let u : a * 2 ^ j ≡ b * per * 2 ^ k = ground arith in
    cancel p (per * c) (2 ^ j) (one-le-pow j 2 (omega arith)) (
      cancel (p * 2 ^ j) (per * c * 2 ^ j) (2 ^ k) (one-le-pow k 2 (omega arith))
        (let v = rw (Counts-dyadic p a k hp, Counts-dyadic c b j hc) at u in grind (arith, v)))

pub positive_count :
    (n : ℕ) (x : Number) → IsMetric x → Counts n x → num_le x (nat 0) ≡ false → 0 < n
unfolding num_eq num_le
positive_count n x (whole a) c h = grind (arith, Counts-whole n a c)
positive_count n x (dyadic m k) c h = ground (arith, Counts-dyadic n m k c)
