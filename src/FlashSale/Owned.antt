-- ===== src/FlashSale/Owned.antt =====
-- `owned_request` and `http` of scripts/run-flash-sale-baseline.py: requests stay on this host.
pub mod Local
use campus_hub.Prelude.{
  ℕ, String, ◌<>◌, Bool, true, false, ◌&&◌, ◌||◌, not, List, [], ◌∷◌, Option, none, some, leb, ltb,
  length, ◌==◌, nat_eq, if◌then◌else◌,
}
use campus_hub.Py.{
  Result, ok, err, value_error, Json, null, bool, obj, get_or, codes, after, has_prefix,
  is_positive_numeral, decimal_from,
}
use campus_hub.Harness.World.{World, Request, Response}
use campus_hub.Harness.Exec.{State, Exec, ◌>>=◌, ◌>>◌, pure, raise, lift}
use campus_hub.Harness.Compose.{fetch, parse}

abbrev pub local_prefix : String
local_prefix = "http://127.0.0.1:"

-- `[1-9][0-9]{0,4}`, and at most 65535
abbrev pub is_port : Option (List ℕ) → Bool
is_port none = false
is_port (some port) =
    is_positive_numeral port && leb (length port) 5 && not (ltb 65535 (decimal_from 0 port))

unfoldable pub is_owned : String → Bool
is_owned base = is_port (after (codes local_prefix) (codes base))

-- `route.startswith("/") and not route.startswith("//")`
unfoldable pub is_relative : String → Bool
is_relative route =
    has_prefix (codes "/") (codes route) && not (has_prefix (codes "//") (codes route))

abbrev pub refuse_unless : Bool → String → Exec (Unit {0})
refuse_unless true message = pure tt
refuse_unless false message = raise (value_error message)

unfoldable pub owned_request :
    String → String → ℕ → String → Option String → List (String × String) → Exec Response
owned_request base route expected method body headers = do
  refuse_unless (is_owned base) "requests require discovered localhost target"
  refuse_unless (is_relative route) "invalid relative owned route"
  response ← fetch (record {
    url = base <> route;
    method = method;
    body = body;
    headers = headers;
    direct = true;
  })
  refuse_unless (response.status == expected) "unexpected owned-target HTTP status"
  pure response

-- `result.get("success") is True`
abbrev is_true : Json → Bool
is_true (bool b) = b
is_true _ = false

unfoldable pub http : String → String → String → Json → Exec Json
http base route credential payload w s =
    (do
      response ←
          owned_request base route 200 "POST" (some (w.dumps payload))
            (("authorization", credential) ∷ ("Content-Type", "application/json") ∷ [])
      result ← parse response.body
      success ← lift (get_or result "success" null)
      refuse_unless (is_true success) "fixture creation failed"
      pure result)
      w s
