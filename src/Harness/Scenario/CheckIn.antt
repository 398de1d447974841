-- ===== src/Harness/Scenario/CheckIn.antt =====
-- `verify_check_in_module` of scripts/verify-compose.py, in its two parts.
use campus_hub.Prelude.{
  ℕ, zero, suc, String, ◌<>◌, Bool, true, ◌&&◌, List, [], ◌∷◌, ◌++◌, none, ◌==◌, nat_eq, string_eq,
  length, all,
}
use campus_hub.Py.{bool, num, int, str, ℤ, pos, negsuc, codes, is_digit, show}
use campus_hub.Harness.Exec.{Exec, ◌>>=◌, ◌>>◌, pure, assert}
use campus_hub.Harness.Compose.{redis, compose, request_with, check}
use campus_hub.Harness.Script.{
  whole, each, gives, gives_or, do_redis, do_sql, authorized, padded, show_ℤ, minus, signed_in,
}
use campus_hub.Harness.Answers.{answer, refused, states, is_same, object}

abbrev user : ℕ
user = 995101

abbrev merchant : ℕ
merchant = 995102

-- `[0-9]{8}`
abbrev is_stamp : String → Bool
is_stamp text = length (codes text) == 8 && all is_digit (codes text)

-- `text[:n]` and `text[n:]`
abbrev first_of : ℕ → String → String
first_of zero text = ""
first_of (suc n) String.[] = ""
first_of (suc n) (String.◌∷◌ c text) = String.◌∷◌ c (first_of n text)

abbrev rest_of : ℕ → String → String
rest_of zero text = text
rest_of (suc n) String.[] = ""
rest_of (suc n) (String.◌∷◌ c text) = rest_of n text

abbrev sign_key : ℕ → String → String
sign_key actor month = "sign:" <> show actor <> ":" <> month

abbrev below : ℕ → List ℕ
below zero = []
below (suc n) = below n ++ (n ∷ [])

-- `range(n)`
abbrev range : ℤ → List ℕ
range (pos n) = below n
range (negsuc n) = []

abbrev historical : String
historical = "sign:995102:199901"

abbrev today : Exec String
today = compose 120 ("exec" ∷ "-T" ∷ "app" ∷ "date" ∷ "+%Y%m%d" ∷ [])

abbrev enter : ℕ → List String → Exec String
enter user_id roles = do
  do_sql (
      "INSERT INTO tb_user(id,phone,nick_name) VALUES("
      <> show user_id
      <> ",'"
      <> padded 11 user_id
      <> "','synthetic-check-in');")
  each roles (λ role.
      do_sql
        ("INSERT INTO tb_user_role(user_id,role) VALUES(" <> show user_id <> ",'" <> role <> "');"))
  signed_in "synthetic-check-in-" user_id ("nickName" ∷ "synthetic" ∷ [])

-- What the second part reads of the first.
pub record Month : Type 0 where
  pub merchant_token : String
  pub stamp : String
  pub month : String
  pub day : ℤ

module _ (base : String) where
  abbrev counts : String → ℤ → Exec (Unit {0})
  counts token n = do
    result ← answer (request_with base "/user/sign/count" 200 "GET" none (authorized token))
    states result "data" (num (int n))

  -- The tokens are those of the administrator, of the disabled account, and of the one without a role.
  abbrev denies : List (String × ℕ) → String × String → Exec (Unit {0})
  denies closed (path, method) = do
    result ← answer (request_with base path 401 method none [])
    states result "errorCode" (str "AUTHENTICATION_FAILED")
    each closed (λ (token, expected).
        refused (request_with base path expected method none (authorized token)))

  abbrev routes : Exec Month
  routes = do
    user_token ← enter user ("USER" ∷ [])
    merchant_token ← enter merchant ("MERCHANT" ∷ [])
    admin_token ← enter 995103 ("ADMIN" ∷ "USER" ∷ [])
    disabled_token ← enter 995104 ("USER" ∷ [])
    roleless_token ← enter 995105 []
    do_sql "UPDATE tb_user SET status='DISABLED' WHERE id=995104;"
    stamp ← today
    assert (is_stamp stamp) ""
    day ← whole (rest_of 6 stamp)
    gives
        (redis
          ("EXISTS" ∷ sign_key user (first_of 6 stamp) ∷ sign_key merchant (first_of 6 stamp) ∷ []))
        "0"
    each (("/user/sign", "POST") ∷ ("/user/sign/count", "GET") ∷ [])
        (denies ((admin_token, 403) ∷ (disabled_token, 401) ∷ (roleless_token, 401) ∷ []))
    counts user_token (pos 0)
    each (range (pos 2)) (λ _. do
      result ←
          answer
            (request_with base "/user/sign?userId=995102" 200 "POST" none (authorized user_token))
      is_same result (object (("success", bool true) ∷ [])))
    counts user_token (pos 1)
    gives (redis ("BITCOUNT" ∷ sign_key user (first_of 6 stamp) ∷ [])) "1"
    gives (redis ("GETBIT" ∷ sign_key user (first_of 6 stamp) ∷ show_ℤ (minus day 1) ∷ [])) "1"
    gives (redis ("TTL" ∷ sign_key user (first_of 6 stamp) ∷ [])) "-1"
    gives (redis ("EXISTS" ∷ sign_key merchant (first_of 6 stamp) ∷ [])) "0"
    gives
        (redis (
          "EXISTS"
          ∷ sign_key 995103 (first_of 6 stamp)
          ∷ sign_key 995104 (first_of 6 stamp)
          ∷ sign_key 995105 (first_of 6 stamp)
          ∷ []))
        "0"
    check
        "engagement check-in routes preserve identity, role denial, one-bit repeat and no expiry over real HTTP/Redis"
    pure (record {
      merchant_token = merchant_token;
      stamp = stamp;
      month = first_of 6 stamp;
      day = day;
    })

  abbrev bitmaps : Month → Exec (Unit {0})
  bitmaps m = do
    each (range m.day)
        (λ offset. do_redis ("SETBIT" ∷ sign_key merchant m.month ∷ show offset ∷ "1" ∷ []))
    do_redis ("SETBIT" ∷ historical ∷ "30" ∷ "1" ∷ [])
    counts m.merchant_token m.day
    refused (request_with base "/user/sign" 200 "POST" none (authorized m.merchant_token))
    gives (redis ("BITCOUNT" ∷ sign_key merchant m.month ∷ [])) (show_ℤ m.day)
    gives (redis ("TTL" ∷ sign_key merchant m.month ∷ [])) "-1"
    gives (redis ("GETBIT" ∷ historical ∷ "30" ∷ [])) "1"
    do_sql "INSERT INTO tb_user_role(user_id,role) VALUES(995102,'ADMIN');"
    refused (request_with base "/user/sign" 403 "POST" none (authorized m.merchant_token))
    refused (request_with base "/user/sign/count" 403 "GET" none (authorized m.merchant_token))
    gives (redis ("BITCOUNT" ∷ sign_key merchant m.month ∷ [])) (show_ℤ m.day)
    gives_or today m.stamp "rerun check-in fixture if it crosses midnight"
    check
        "engagement reads preexisting monthly bitmaps and current roles without changing historical buckets"

  unfoldable pub verify_check_in_module : Exec (Unit {0})
  verify_check_in_module = do m ← routes; bitmaps m
