-- ===== src/Harness/Scenario/LoginCode.antt =====
-- `verify_login_code_module` of scripts/verify-compose.py, in its three parts.
use campus_hub.Prelude.{
  ℕ, String, ◌<>◌, true, false, ◌&&◌, List, [], ◌∷◌, none, some, nat_eq, string_eq,
}
use campus_hub.Py.{Json, bool, str, pos, leb_ℤ}
use campus_hub.Harness.Exec.{Exec, ◌>>=◌, ◌>>◌, pure, assert}
use campus_hub.Harness.Compose.{redis, sql, request_with, check}
use campus_hub.Harness.Script.{
  urlencode, dumps, each, gives, between, integer, is_code, limited, authorized, show_ℤ, minus,
  quoted,
}
use campus_hub.Harness.Answers.{
  answer, refused, states, says, is_same, object, at, full_text, internal_error, whole_of,
}

abbrev first : String
first = "13800992701"

abbrev second : String
second = "13800992702"

abbrev third : String
third = "13800992703"

abbrev phones : List String
phones = first ∷ second ∷ third ∷ []

abbrev code_key : String → String
code_key phone = "login:code:" <> phone

abbrev cooldown_key : String → String
cooldown_key phone = "login:code:cooldown:" <> phone

abbrev no_account : Exec (Unit {0})
no_account =
    gives (sql ("SELECT COUNT(*) FROM tb_user WHERE phone IN (" <> quoted phones <> ");")) "0"

abbrev expected_success : Json
expected_success = object (("success", bool true) ∷ ("data", str "发送验证码成功") ∷ [])

abbrev stored_code : String → Exec String
stored_code phone = do
  code ← redis ("GET" ∷ code_key phone ∷ [])
  assert (is_code code) ""
  pure code

module _ (base : String) where
  abbrev send : String → ℕ → List (String × String) → Exec Json
  send phone expected headers = do
    query ← urlencode (("phone", phone) ∷ [])
    answer (request_with base ("/user/code?" <> query) expected "POST" none headers)

  abbrev sends : String → List (String × String) → Exec (Unit {0})
  sends phone headers = do result ← send phone 200 headers; is_same result expected_success

  abbrev cooldown : Exec (String × String)
  cooldown = do
    no_account
    each phones (λ phone. gives (redis ("EXISTS" ∷ code_key phone ∷ cooldown_key phone ∷ [])) "0")
    sends first []
    code ← stored_code first
    code_ttl ← integer (redis ("TTL" ∷ code_key first ∷ []))
    cooldown_ttl ← integer (redis ("TTL" ∷ cooldown_key first ∷ []))
    assert
        (leb_ℤ (pos 100) code_ttl
          && leb_ℤ code_ttl (pos 120)
          && (leb_ℤ (pos 40) cooldown_ttl && leb_ℤ cooldown_ttl (pos 60)))
        ""
    gives (redis ("GET" ∷ cooldown_key first ∷ [])) "1"
    repeated ← send first 429 []
    is_same repeated (
        object (
          ("success", bool false)
          ∷ ("errorCode", str "RATE_LIMITED")
          ∷ ("errorMsg", str "验证码发送过于频繁，请稍后再试")
          ∷ []))
    gives (redis ("GET" ∷ code_key first ∷ [])) code
    between (minus code_ttl 30) (redis ("TTL" ∷ code_key first ∷ [])) code_ttl
    between (minus cooldown_ttl 30) (redis ("TTL" ∷ cooldown_key first ∷ [])) cooldown_ttl
    sends second (authorized "synthetic-missing-code-session")
    second_code ← stored_code second
    each ("" ∷ "   " ∷ "not-a-phone" ∷ (" " <> first) ∷ (first <> " ") ∷ []) (λ phone. do
      result ← send phone 400 []
      states result "errorCode" (str "VALIDATION_FAILED"))
    missing ← answer (request_with base "/user/code" 400 "POST" none [])
    states missing "errorCode" (str "VALIDATION_FAILED")
    no_account
    check
        "identity login code: anonymous/invalid-session public access, exact response without code, six digits, unchanged 60s cooldown/120s code TTL, repeated 429 without refresh and independent phones"
    pure (code, second_code)

  abbrev save_failure : String → String → Exec (Unit {0})
  save_failure code second_code = do
    limited ("resetkeys" ∷ "~login:code:cooldown:*" ∷ []) ("resetkeys" ∷ "~*" ∷ [])
        (do
          failure ← send third 500 []
          is_same failure internal_error
          gives (redis ("EXISTS" ∷ cooldown_key third ∷ [])) "0")
        (pure tt)
    gives (redis ("EXISTS" ∷ code_key third ∷ cooldown_key third ∷ [])) "0"
    gives (redis ("GET" ∷ code_key first ∷ [])) code
    gives (redis ("GET" ∷ code_key second ∷ [])) second_code
    sends third []
    _ ← stored_code third
    check
        "identity login code save failure: real Redis key ACL rejects code SET after cooldown acquisition, cooldown DEL succeeds, ACL restored and retry stores a code without changing other phones"

  abbrev compatibility : String → String → Exec (Unit {0})
  compatibility code second_code = do
    body ← dumps (object (("phone", str first) ∷ ("code", str code) ∷ []))
    result ← answer (
        request_with base "/user/login" 200 "POST" (some body)
          (("Content-Type", "application/json") ∷ []))
    says result "success" true
    presented ← at result "data"
    token ← full_text presented
    gives (redis ("EXISTS" ∷ code_key first ∷ [])) "0"
    gives (redis ("EXISTS" ∷ cooldown_key first ∷ [])) "1"
    me ← answer (request_with base "/user/me" 200 "GET" none (authorized token))
    profile ← at me "data"
    id ← at profile "id"
    actor ← whole_of id
    gives
        (sql (
          "SELECT status FROM tb_user WHERE id="
          <> show_ℤ actor
          <> " AND phone='"
          <> first
          <> "';"))
        "ACTIVE"
    gives (sql ("SELECT role FROM tb_user_role WHERE user_id=" <> show_ℤ actor <> ";")) "USER"
    out ← answer (request_with base "/user/logout" 200 "POST" none (authorized token))
    is_same out (object (("success", bool true) ∷ []))
    refused (request_with base "/user/me" 401 "GET" none (authorized token))
    gives (redis ("GET" ∷ code_key second ∷ [])) second_code
    check
        "identity generated code compatibility: original login consumes the same Redis code, creates the synthetic USER/session, preserves cooldown and original logout revokes that session"

  unfoldable pub verify_login_code_module : Exec (Unit {0})
  verify_login_code_module = do
    codes ← cooldown
    save_failure codes.0 codes.1
    compatibility codes.0 codes.1
