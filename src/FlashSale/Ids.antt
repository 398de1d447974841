-- ===== src/FlashSale/Ids.antt =====
-- `COHORTS`, `cli_integer` and `positive_id`. An identity stays the text that it came as.
pub mod Digits
pub mod Lossless
use campus_hub.Prelude.{
  ℕ, zero, ◌+◌, ◌-◌, ◌^◌, Bool, true, false, ◌&&◌, ◌||◌, List, [], ◌∷◌, String, leb, ltb, length,
  all, not, if◌then◌else◌, contains, ◌==◌, nat_eq,
}
use campus_hub.Py.{
  Result, ok, err, value_error, ◌>>=◌, ◌>>◌, require, Json, str, codes, is_digit,
  is_positive_numeral, decimal,
}

abbrev pub cohorts : List ℕ
cohorts = 20 ∷ 200 ∷ []

-- `actors not in (10, *COHORTS)`; callers pass an int.
unfoldable pub is_cohort : ℕ → Bool
is_cohort actors = contains (10 ∷ cohorts) actors

-- `0|[1-9][0-9]*`
unfoldable pub is_canonical : List ℕ → Bool
is_canonical (c ∷ []) = c == b'0' || is_positive_numeral (c ∷ [])
is_canonical s = is_positive_numeral s

unfoldable pub cli_integer : String → ℕ → Result ℕ
cli_integer value minimum = do
  require (is_canonical (codes value)) (value_error "expected canonical nonnegative CLI integer")
  let result = decimal value
  require (not (ltb result minimum)) (value_error "CLI integer below minimum")
  ok result

abbrev pub max_long : ℕ
max_long = 2 ^ 63 - 1

-- `[1-9][0-9]{0,18}`
unfoldable pub is_long_numeral : List ℕ → Bool
is_long_numeral s = is_positive_numeral s && leb (length s) 19

unfoldable pub positive_id : Json → Result String
positive_id (str value) =
    if is_long_numeral (codes value) && not (ltb max_long (decimal value))
    then ok value
    else err (value_error "expected lossless positive Java Long string")
positive_id _ = err (value_error "expected lossless positive Java Long string")
