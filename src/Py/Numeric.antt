-- ===== src/Py/Numeric.antt =====
-- `int` and `float`. A finite float is the dyadic rational that it stands for, `float m k` being
-- m / 2^k. The scripts compare floats and truncate them, which Python does exactly, also between
-- an int and a float; the one product with a float is in Py/Rounding.antt.
use campus_hub.Prelude.{ℕ, suc, ◌-◌, leb, ◌/◌, ◌^◌, Bool, true, false, ◌&&◌, not}
use campus_hub.Py.Raise.{value_error, overflow_error, Result, ok, err}
use campus_hub.Py.Integer.{ℤ, pos, negsuc, leb_ℤ, scale, negate}

pub data Number : Type 0 where
  int : ℤ → Number
  float : ℤ → ℕ → Number
  -- the argument says whether it is the negative one
  infinite : Bool → Number
  nan : Number

abbrev pub nat : ℕ → Number
nat n = int (pos n)

-- An int that would round to 2 ^ 1024 is no float: `math.isfinite` raises OverflowError.
unfoldable pub exceeds_float : Number → Bool
exceeds_float (int (pos n)) = leb (2 ^ 1024 - 2 ^ 970) n
exceeds_float (int (negsuc n)) = leb (2 ^ 1024 - 2 ^ 970) (suc n)
exceeds_float (float m k) = false
exceeds_float (infinite neg) = false
exceeds_float nan = false

-- `math.isfinite`
abbrev pub is_finite : Number → Bool
is_finite (int z) = true
is_finite (float m k) = true
is_finite (infinite neg) = false
is_finite nan = false

-- m / 2^k <= b
abbrev pub frac_le : ℤ → ℕ → Number → Bool
frac_le m k (int b) = leb_ℤ m (scale b (2 ^ k))
frac_le m k (float b j) = leb_ℤ (scale m (2 ^ j)) (scale b (2 ^ k))
frac_le m k (infinite neg) = not neg
frac_le m k nan = false

abbrev pub is_nan : Number → Bool
is_nan nan = true
is_nan (int z) = false
is_nan (float m k) = false
is_nan (infinite neg) = false

abbrev pub is_plus_infinite : Number → Bool
is_plus_infinite (infinite neg) = not neg
is_plus_infinite (int z) = false
is_plus_infinite (float m k) = false
is_plus_infinite nan = false

-- `a <= b`, false where one is nan.
unfoldable pub num_le : Number → Number → Bool
num_le (int a) b = frac_le a 0 b
num_le (float m k) b = frac_le m k b
num_le (infinite true) b = not (is_nan b)
num_le (infinite false) b = is_plus_infinite b
num_le nan b = false

-- `a == b`
unfoldable pub num_eq : Number → Number → Bool
unfolding num_le
num_eq a b = num_le a b && num_le b a

-- `a < b`
unfoldable pub num_lt : Number → Number → Bool
unfolding num_le
num_lt a b = num_le a b && not (num_le b a)

-- The integral part of m / 2^k, towards zero.
abbrev pub truncate : ℤ → ℕ → ℤ
truncate (pos m) k = pos (m / 2 ^ k)
truncate (negsuc m) k = negate (suc m / 2 ^ k)

-- `int(x)`
unfoldable pub to_int : Number → Result ℤ
to_int (int z) = ok z
to_int (float m k) = ok (truncate m k)
to_int (infinite neg) = err overflow_error
to_int nan = err (value_error "cannot convert float NaN to integer")
