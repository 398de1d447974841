-- ===== src/Py/Text/Show.antt =====
-- `str(n)` is a canonical numeral, and `int(str(n))` is `n`.
use Prim.Native.Char.{code}
use text.Mathlib.TextLemmas.{nil-append, cons-append}
use campus_hub.Prelude.{
  ℕ, zero, suc, ◌+◌, ◌-◌, ◌*◌, ◌/◌, ◌%◌, ◌<◌, ◌^◌, ◌≤◌, length, length-append, ◌≡◌, refl, ap, true,
  List, [], ◌∷◌, ◌++◌, String, ◌<>◌, ltb, arith, all, Bool-cases, inl, inr,
}
use campus_hub.Py.Text.{codes, is_digit, decimal_from, is_positive_numeral, digit, show_from, show}

pub codes-append : (s t : String) → codes (s <> t) ≡ codes s ++ codes t
codes-append String.[] t = rw (nil-append t)
codes-append (String.◌∷◌ c s) t = rw (cons-append c s t) (ap (λ r. code c ∷ r) (codes-append s t))

decimal_from-append :
    (n : ℕ) (s t : List ℕ) → decimal_from n (s ++ t) ≡ decimal_from (decimal_from n s) t
unfolding decimal_from
decimal_from-append n [] t = refl
decimal_from-append n (c ∷ s) t = decimal_from-append (n * 10 + (c - b'0')) s t

all-append :
    (s t : List ℕ) → all is_digit s ≡ true → all is_digit t ≡ true → all is_digit (s ++ t) ≡ true
all-append [] t ds dt = dt
all-append (c ∷ s) t ds dt = ground (arith, all-append s t)

is_positive_numeral-append :
    (s t : List ℕ)
    → is_positive_numeral s ≡ true
    → all is_digit t ≡ true
    → is_positive_numeral (s ++ t) ≡ true
unfolding is_positive_numeral
is_positive_numeral-append [] t ds dt = absurd (ground arith)
is_positive_numeral-append (c ∷ s) t ds dt = ground (arith, all-append s t)

codes-digit : (n : ℕ) → n < 10 → codes (digit n) ≡ (b'0' + n) ∷ []
codes-digit zero h = refl
codes-digit (suc zero) h = refl
codes-digit (suc (suc zero)) h = refl
codes-digit (suc (suc (suc zero))) h = refl
codes-digit (suc (suc (suc (suc zero)))) h = refl
codes-digit (suc (suc (suc (suc (suc zero))))) h = refl
codes-digit (suc (suc (suc (suc (suc (suc zero)))))) h = refl
codes-digit (suc (suc (suc (suc (suc (suc (suc zero))))))) h = refl
codes-digit (suc (suc (suc (suc (suc (suc (suc (suc zero)))))))) h = refl
codes-digit (suc (suc (suc (suc (suc (suc (suc (suc (suc zero))))))))) h = refl
codes-digit (suc (suc (suc (suc (suc (suc (suc (suc (suc (suc n)))))))))) h = absurd (omega arith)

decimal-show_from : (fuel n : ℕ) → n < fuel → decimal_from 0 (codes (show_from fuel n)) ≡ n
unfolding show_from decimal_from
decimal-show_from zero n h = absurd (omega arith)
decimal-show_from (suc fuel) n h = elim (Bool-cases (ltb n 10)) [
  | inl small ↦ rw (small, codes-digit n (ground arith)) (omega arith)
  | inr large ↦
      rw
        (
          large,
          codes-append,
          codes-digit (n % 10) (omega arith),
          decimal_from-append,
          decimal-show_from fuel (n / 10) (ground arith),
        )
        (omega arith)
]

show_from-positive :
    (fuel n : ℕ) → n < fuel → 0 < n → is_positive_numeral (codes (show_from fuel n)) ≡ true
unfolding show_from
show_from-positive zero n h p = absurd (omega arith)
show_from-positive (suc fuel) n h p = elim (Bool-cases (ltb n 10)) [
  | inl small ↦
      rw (small, codes-digit n (ground arith)) (unfold is_positive_numeral in ground arith)
  | inr large ↦
      rw (large, codes-append, codes-digit (n % 10) (omega arith))
        (is_positive_numeral-append (codes (show_from fuel (n / 10))) ((b'0' + n % 10) ∷ [])
          (show_from-positive fuel (n / 10) (ground arith) (ground arith)) (ground arith))
]

pub decimal-show : (n : ℕ) → decimal_from 0 (codes (show n)) ≡ n
unfolding show
decimal-show n = decimal-show_from (suc n) n (omega arith)

pub show-positive : (n : ℕ) → 0 < n → is_positive_numeral (codes (show n)) ≡ true
unfolding show
show-positive n h = show_from-positive (suc n) n (omega arith) h

show_from-length :
    (k fuel n : ℕ) → n < fuel → n < 10 ^ suc k → length (codes (show_from fuel n)) ≤ suc k
unfolding show_from
show_from-length k zero n h b = absurd (omega arith)
show_from-length zero (suc fuel) n h b =
    let small : ltb n 10 ≡ true = ground arith in
    rw (small, codes-digit n (ground arith)) (omega arith)
show_from-length (suc k) (suc fuel) n h b = elim (Bool-cases (ltb n 10)) [
  | inl small ↦ rw (small, codes-digit n (ground arith)) (omega arith)
  | inr large ↦
      let rest = show_from-length k fuel (n / 10) (ground arith) (omega arith) in
      rw (large, codes-append, codes-digit (n % 10) (omega arith), length-append) (omega arith)
]

-- A number below a power of ten has no more digits than the power.
pub length-show : (k n : ℕ) → n < 10 ^ suc k → length (codes (show n)) ≤ suc k
unfolding show
length-show k n b = show_from-length k (suc n) n (omega arith) b

pub decimal-append :
    (s : List ℕ) (n : ℕ) → decimal_from 0 s ≡ 0 → decimal_from 0 (s ++ codes (show n)) ≡ n
decimal-append s n h = rw (decimal_from-append 0 s (codes (show n)), h) (decimal-show n)
