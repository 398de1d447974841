-- ===== src/Py/Rounding.antt =====
-- How Python rounds the product of an int and a float: to 53 bits, and halves to the even one.
pub mod Exact
use campus_hub.Prelude.{
  ℕ, zero, suc, ◌+◌, ◌-◌, ◌*◌, ◌/◌, ◌%◌, ◌^◌, Bool, true, false, ◌&&◌, ◌||◌, leb, ltb, ◌==◌, nat_eq,
  if◌then◌else◌,
}
use campus_hub.Py.Integer.{ℤ, pos, negsuc, negate, scale}
use campus_hub.Py.Numeric.{Number, int, float, infinite, nan}

-- By how many bits a number is longer than 53; it has no more bits than its value.
unfoldable pub excess : ℕ → ℕ → ℕ
excess zero m = 0
excess (suc fuel) m = elim (ltb m (2 ^ 53)) [ true ↦ 0 | false ↦ suc (excess fuel (m / 2)) ]

-- The multiple of 2 ^ e next to a number.
unfoldable pub round_to : ℕ → ℕ → ℕ
round_to zero m = m
round_to (suc e) m =
    let q = m / 2 ^ suc e in
    let r = m % 2 ^ suc e in
    if ltb (2 ^ e) r || (r == 2 ^ e && q % 2 == 1) then (q + 1) * 2 ^ suc e else q * 2 ^ suc e

unfoldable pub rounded : ℕ → ℕ
rounded m = round_to (excess m m) m

-- The limit of floats, as a numerator over 2 ^ k.
unfoldable pub is_beyond : ℕ → ℕ → Bool
is_beyond m k = leb (2 ^ 1024 * 2 ^ k) m

-- `n * x` for a small n.
abbrev pub times : ℕ → Number → Number
times n (int z) = int (scale z n)
times n (float (pos m) k) =
    if is_beyond (rounded (m * n)) k then infinite false else float (pos (rounded (m * n))) k
times n (float (negsuc m) k) =
    if is_beyond (rounded (suc m * n)) k
    then infinite true
    else float (negate (rounded (suc m * n))) k
times n (infinite neg) = infinite neg
times n nan = nan
