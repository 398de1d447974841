-- ===== src/Tests/Ids.antt =====
-- Identities.
use campus_hub.Prelude.{◌≡◌, refl, ◌↔◌, arith, nat_eq}
use campus_hub.Py.{
  ok, err, value_error, str, num, nat, decimal, show, is_positive_numeral, decimal_from, ◌>>=◌,
}
use campus_hub.FlashSale.Ids.{positive_id, cli_integer, is_long_numeral, is_canonical}
use campus_hub.FlashSale.Ids.Lossless.{
  IsId, positive_id_exact, positive_id-lossless, positive_id-show,
}

largest : positive_id (str "9223372036854775807") ≡ ok "9223372036854775807"
unfolding positive_id is_long_numeral is_positive_numeral decimal_from
largest = refl

too_large :
    positive_id (str "9223372036854775808")
    ≡ err (value_error "expected lossless positive Java Long string")
unfolding positive_id is_long_numeral is_positive_numeral decimal_from
too_large = refl

leading_zero :
    positive_id (str "01") ≡ err (value_error "expected lossless positive Java Long string")
unfolding positive_id is_long_numeral is_positive_numeral decimal_from
leading_zero = refl

not_a_text :
    positive_id (num (nat 1)) ≡ err (value_error "expected lossless positive Java Long string")
unfolding positive_id is_long_numeral is_positive_numeral decimal_from
not_a_text = refl

cli_zero : cli_integer "0" 0 ≡ ok 0
unfolding cli_integer is_canonical is_positive_numeral decimal_from ◌>>=◌ nat_eq
cli_zero = refl

cli_padded : cli_integer "01" 0 ≡ err (value_error "expected canonical nonnegative CLI integer")
unfolding cli_integer is_canonical is_positive_numeral decimal_from ◌>>=◌ nat_eq
cli_padded = refl

positive_id_exact_example :
    (positive_id (str "123") ≡ ok "123") ↔ ((str "123" ≡ str "123") × IsId "123")
positive_id_exact_example = positive_id_exact (str "123") "123"

accepted : positive_id (str "123") ≡ ok "123"
unfolding positive_id is_long_numeral is_positive_numeral decimal_from
accepted = refl

positive_id-lossless_example : str "123" ≡ str "123"
positive_id-lossless_example =
    positive_id-lossless (str "123") (str "123") "123" "123" accepted accepted refl

positive_id-show_example :
    (positive_id (str (show 900001)) ≡ ok (show 900001)) × (decimal (show 900001) ≡ 900001)
positive_id-show_example = positive_id-show 900001 (omega arith) (omega arith)
