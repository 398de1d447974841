-- ===== src/FlashSale/Ids/Lossless.antt =====
-- An accepted identity and the number that it stands for determine each other.
use mathlib.Core.Path.{subst}
use campus_hub.Prelude.{ℕ, ◌≤◌, ◌<◌, ◌≡◌, ap, sym, ◌∙◌, true, String, arith, ◌↔◌}
use campus_hub.Py.{
  ok, Json, null, bool, num, str, arr, obj, codes, decimal, is_positive_numeral, show,
}
use campus_hub.Py.Text.Show.{decimal-show, show-positive}
use campus_hub.FlashSale.Ids.{max_long, is_long_numeral, positive_id}
use campus_hub.FlashSale.Ids.Digits.{decimal-injective, length-le_of_decimal, codes-injective}

-- A text that `positive_id` accepts.
pub record IsId (s : String) : Type 0 where
  pub canonical : is_positive_numeral (codes s) ≡ true
  pub in_range : decimal s ≤ max_long

pub positive_id-IsId : (j : Json) (s : String) → positive_id j ≡ ok s → (j ≡ str s) × IsId s
unfolding positive_id is_long_numeral
positive_id-IsId (str t) s h =
    let e : t ≡ s = ground arith in
    (ap str e, subst IsId e (record { canonical = ground arith; in_range = ground arith }))
positive_id-IsId null s h = absurd (ground arith)
positive_id-IsId (bool b) s h = absurd (ground arith)
positive_id-IsId (num x) s h = absurd (ground arith)
positive_id-IsId (arr js) s h = absurd (ground arith)
positive_id-IsId (obj fs) s h = absurd (ground arith)

pub positive_id_of_IsId : (s : String) → IsId s → positive_id (str s) ≡ ok s
unfolding positive_id is_long_numeral
positive_id_of_IsId s h = ground (arith, length-le_of_decimal (codes s) h.canonical h.in_range)

-- `positive_id` returns a text exactly when it was given that text and it is a decimal numeral
-- without leading zeros of a number from 1 to 2 ^ 63 - 1: the bound on its length rejects no more.
pub positive_id_exact : (j : Json) (s : String) → (positive_id j ≡ ok s) ↔ ((j ≡ str s) × IsId s)
positive_id_exact j s = (positive_id-IsId j s, λ (e, h). rw e (positive_id_of_IsId s h))

-- Two accepted identities that stand for the same number are the same text.
pub positive_id-lossless :
    (j k : Json) (s t : String)
    → positive_id j ≡ ok s
    → positive_id k ≡ ok t
    → decimal s ≡ decimal t
    → j ≡ k
positive_id-lossless j k s t p q e =
    let (js, hs) = positive_id-IsId j s p in
    let (kt, ht) = positive_id-IsId k t q in
    js
    ∙ ap str
        (codes-injective s t (decimal-injective (codes s) (codes t) hs.canonical ht.canonical e))
    ∙ sym kt

-- The decimal text of every positive 64-bit Java Long is accepted unchanged, and stands for it.
pub positive_id-show :
    (n : ℕ)
    → 0 < n
    → n ≤ max_long
    → (positive_id (str (show n)) ≡ ok (show n)) × (decimal (show n) ≡ n)
positive_id-show n p h = (
  positive_id_of_IsId (show n)
      (record { canonical = show-positive n p; in_range = rw (decimal-show n) h }),
  decimal-show n,
)
