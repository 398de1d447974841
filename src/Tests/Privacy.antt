-- ===== src/Tests/Privacy.antt =====
-- Raw exports with and without private texts.
use campus_hub.Prelude.{◌≡◌, refl, String, List, [], ◌∷◌, ◌↔◌, true, false, nat_eq}
use campus_hub.Py.{ok, err, value_error, ◌>>=◌, Number, Json, str, obj, end, field, arr, cons, nil}
use campus_hub.FlashSale.Privacy.{Step, visit, check_leaf, is_private, is_digest_like}
use campus_hub.FlashSale.Privacy.Everywhere.{Occurs, IsClean, visit_exact}

abbrev repr : Number → String
repr x = "0.5"

abbrev export : Json
export = obj (field "metrics" (arr (cons (str "http_reqs") nil)) (field "Cookie" (str "none") end))

folded : is_private (0x53 ∷ 0x65 ∷ 0x17f ∷ 0x53 ∷ 0x131 ∷ 0x4f ∷ 0x4e ∷ []) ≡ true
unfolding is_private nat_eq
folded = refl

-- A key is as private as a value.
rejected : visit repr false export [] ≡ err (value_error "private field in raw public export")
unfolding visit ◌>>=◌ check_leaf is_private nat_eq is_digest_like
rejected = refl

visit_exact_example :
    (visit repr false export [] ≡ ok tt)
    ↔ ((q : List Step) (s : String) → Occurs repr export [] q s → IsClean false q s)
visit_exact_example = visit_exact repr false export []
