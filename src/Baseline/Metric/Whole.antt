-- ===== src/Baseline/Metric/Whole.antt =====
-- Counts: which numbers `integer` takes for a whole number.
use native.Mathlib.Nat.{mul-div_cancel, one-le-pow, mul-le-mul_right}
use campus_hub.Prelude.{ℕ, ◌*◌, ◌^◌, ◌≤◌, ◌≡◌, arith, false, refl}
use campus_hub.Py.{ok, ◌>>=◌, exceeds_float, ℤ, nat, float, num_lt, num_eq, pos, to_int, num}
use campus_hub.Baseline.Metric.{number, integer}

-- A whole number given as an int is taken if it is not below the minimum.
pub integer-nat : (n m : ℕ) → exceeds_float (nat n) ≡ false → m ≤ n → integer (num (nat n)) m ≡ ok n
unfolding integer number num_lt num_eq to_int ◌>>=◌
integer-nat n m small h = ground arith

pub nat-integer : (n m s : ℕ) → integer (num (nat n)) m ≡ ok s → (s ≡ n) × (m ≤ n)
unfolding integer number num_lt num_eq to_int ◌>>=◌
nat-integer n m s h = ground arith

-- A whole number given as a float is taken for the same number: n * 2 ^ k / 2 ^ k.
not_beyond_float : (z : ℤ) (k : ℕ) → exceeds_float (float z k) ≡ false
unfolding exceeds_float
not_beyond_float z k = refl

pub integer_float : (n k m : ℕ) → m ≤ n → integer (num (float (pos (n * 2 ^ k)) k)) m ≡ ok n
unfolding integer number num_lt num_eq to_int ◌>>=◌
integer_float n k m h = ground (
  arith,
  not_beyond_float (pos (n * 2 ^ k)) k,
  mul-div_cancel n (one-le-pow k 2 (omega arith)),
  mul-le-mul_right (2 ^ k) h,
)
