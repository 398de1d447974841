-- ===== src/FlashSale/Ids/Digits.antt =====
-- Decimal texts without leading zeros stand for different numbers if they differ.
use mathlib.Core.Path.{ap₂}
use text.Mathlib.TextEquality.{Char-path}
use campus_hub.Prelude.{
  ℕ, ◌+◌, ◌-◌, ◌*◌, ◌≤◌, ◌<◌, ◌≡◌, refl, true, List, [], ◌∷◌, String, arith, length, all,
}
use campus_hub.Py.{codes, is_digit, decimal_from, is_positive_numeral}

-- A numeral that is longer, or as long from a larger start, stands for a larger number.
pub decimal_from-lt :
    (s t : List ℕ) (n m : ℕ)
    → all is_digit s ≡ true
    → all is_digit t ≡ true
    → length s ≤ length t
    → n < m
    → decimal_from n s < decimal_from m t
unfolding decimal_from
decimal_from-lt [] [] n m ds dt l h = h
decimal_from-lt (d ∷ s) [] n m ds dt l h = absurd (omega arith)
decimal_from-lt [] (e ∷ t) n m ds dt l h =
    decimal_from-lt [] t n (m * 10 + (e - b'0')) ds (ground arith) (omega arith) (omega arith)
decimal_from-lt (d ∷ s) (e ∷ t) n m ds dt l h =
    decimal_from-lt s t (n * 10 + (d - b'0')) (m * 10 + (e - b'0')) (ground arith) (ground arith)
      (omega arith) (ground arith)

decimal_from-injective :
    (s t : List ℕ) (n m : ℕ)
    → all is_digit s ≡ true
    → all is_digit t ≡ true
    → length s ≡ length t
    → decimal_from n s ≡ decimal_from m t
    → (n ≡ m) × (s ≡ t)
unfolding decimal_from
decimal_from-injective [] [] n m ds dt l h = (h, refl)
decimal_from-injective [] (e ∷ t) n m ds dt l h = absurd (omega arith)
decimal_from-injective (d ∷ s) [] n m ds dt l h = absurd (omega arith)
decimal_from-injective (d ∷ s) (e ∷ t) n m ds dt l h =
    let (heads, tails) =
      decimal_from-injective s t (n * 10 + (d - b'0')) (m * 10 + (e - b'0')) (ground arith)
        (ground arith) (omega arith) h in
    (ground arith, ap₂ ◌∷◌ (ground arith) tails)

-- A longer numeral without leading zeros stands for a larger number.
shorter_lt :
    (s t : List ℕ) (n m : ℕ)
    → all is_digit s ≡ true
    → all is_digit t ≡ true
    → n ≤ 9
    → 1 ≤ m
    → length s < length t
    → decimal_from n s < decimal_from m t
unfolding decimal_from
shorter_lt s [] n m ds dt a b l = absurd (omega arith)
shorter_lt s (e ∷ t) n m ds dt a b l =
    decimal_from-lt s t n (m * 10 + (e - b'0')) ds (ground arith) (omega arith) (omega arith)

pub decimal-injective :
    (s t : List ℕ)
    → is_positive_numeral s ≡ true
    → is_positive_numeral t ≡ true
    → decimal_from 0 s ≡ decimal_from 0 t
    → s ≡ t
unfolding decimal_from is_positive_numeral
decimal-injective [] t ds dt h = absurd (ground arith)
decimal-injective (c ∷ s) [] ds dt h = absurd (ground arith)
decimal-injective (c ∷ s) (e ∷ t) ds dt h =
    let l : length s ≡ length t = ground (
      arith,
      shorter_lt s t (0 * 10 + (c - b'0')) (0 * 10 + (e - b'0')),
      shorter_lt t s (0 * 10 + (e - b'0')) (0 * 10 + (c - b'0')),
    ) in
    let (heads, tails) =
      decimal_from-injective s t (0 * 10 + (c - b'0')) (0 * 10 + (e - b'0')) (ground arith)
        (ground arith) l h in
    ap₂ ◌∷◌ (ground arith) tails

-- A numeral of twenty digits or more is larger than 2 ^ 63.
pub length-le_of_decimal :
    (s : List ℕ)
    → is_positive_numeral s ≡ true
    → decimal_from 0 s ≤ 9223372036854775807
    → length s ≤ 19
unfolding decimal_from is_positive_numeral
length-le_of_decimal [] ds h = omega arith
length-le_of_decimal (c ∷ s) ds h =
    ground (arith, decimal_from-lt (codes "9999999999999999999") s 0 (0 * 10 + (c - b'0')) refl)

pub codes-injective : (s t : String) → codes s ≡ codes t → s ≡ t
codes-injective String.[] String.[] h = refl
codes-injective String.[] (String.◌∷◌ d t) h = cc
codes-injective (String.◌∷◌ c s) String.[] h = cc
codes-injective (String.◌∷◌ c s) (String.◌∷◌ d t) h =
    ap₂ String.◌∷◌ (Char-path c d (ground arith)) (codes-injective s t (ground arith))
