-- ===== src/Py/Rounding/Exact.antt =====
-- A whole number below 2 ^ 53 is not rounded, whatever the denominator that it stands over.
use native.Mathlib.Nat.{mul-div_cancel, mul-mod_left, one-le-pow, pow-succ', pow-zero, mul-one}
use campus_hub.Prelude.{
  ℕ, zero, suc, ◌+◌, ◌-◌, ◌*◌, ◌/◌, ◌^◌, ◌≤◌, ◌<◌, ◌≡◌, refl, ap, sym, ◌∙◌, ltb, nat_eq, arith,
  Bool-cases, inl, inr,
}
use campus_hub.Py.Rounding.{excess, round_to, rounded}

regrouped : (c p : ℕ) → c * (2 * p) ≡ c * p * 2
regrouped c p = grind arith

doubled : (c k : ℕ) → c * 2 ^ suc k ≡ c * 2 ^ k * 2
doubled c k = ap (λ n. c * n) (pow-succ' 2 k) ∙ regrouped c (2 ^ k)

half_double : (c k : ℕ) → c * 2 ^ suc k / 2 ≡ c * 2 ^ k
half_double c k = ap (λ n. n / 2) (doubled c k) ∙ mul-div_cancel (c * 2 ^ k) (omega arith)

excess-le : (fuel c k : ℕ) → c < 2 ^ 53 → excess fuel (c * 2 ^ k) ≤ k
unfolding excess
excess-le zero c k h = omega arith
excess-le (suc fuel) c zero h = ground (arith, h)
excess-le (suc fuel) c (suc k) h =
    let shorter = excess-le fuel c k h in
    elim (Bool-cases (ltb (c * 2 ^ suc k) (2 ^ 53))) [
      | inl b ↦ rw (b, excess) (omega arith)
      | inr b ↦ rw (b, half_double c k, excess) (omega (arith, shorter))
    ]

round_to-multiple : (e c : ℕ) → round_to e (c * 2 ^ e) ≡ c * 2 ^ e
unfolding round_to
round_to-multiple zero c = refl
round_to-multiple (suc e) c =
    let positive = one-le-pow e 2 (omega arith) in
    let q = mul-div_cancel c (one-le-pow (suc e) 2 (omega arith)) in
    let r = mul-mod_left c (2 ^ suc e) in rw (q, r) (ground (arith, positive))

split_power : (c d e : ℕ) → c * 2 ^ (d + e) ≡ c * 2 ^ d * 2 ^ e
split_power c d zero = rw (pow-zero, mul-one) (ap (λ n. c * 2 ^ n) (omega arith))
split_power c d (suc e) =
    let shifted : d + suc e ≡ suc (d + e) = omega arith in
    ap (λ n. c * 2 ^ n) shifted
    ∙ doubled c (d + e)
    ∙ ap (λ n. n * 2) (split_power c d e)
    ∙ sym (doubled (c * 2 ^ d) e)

pub rounded_exact : (c k : ℕ) → c < 2 ^ 53 → rounded (c * 2 ^ k) ≡ c * 2 ^ k
unfolding rounded
rounded_exact c k h =
    let e = excess (c * 2 ^ k) (c * 2 ^ k) in
    let within : e ≤ k = excess-le (c * 2 ^ k) c k h in
    let parts : c * 2 ^ k ≡ c * 2 ^ (k - e) * 2 ^ e =
      ap (λ n. c * 2 ^ n) (omega arith) ∙ split_power c (k - e) e in
    ap (round_to e) parts ∙ round_to-multiple e (c * 2 ^ (k - e)) ∙ sym parts
