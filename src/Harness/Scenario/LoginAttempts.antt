-- ===== src/Harness/Scenario/LoginAttempts.antt =====
-- `verify_login_attempt_store` of scripts/verify-compose.py, in its three parts.
use campus_hub.Prelude.{
  ℕ, String, ◌<>◌, true, false, not, [], ◌∷◌, none, some, ◌==◌, nat_eq, string_eq, if◌then◌else◌,
}
use campus_hub.Py.{Json, null, num, str, get_or, nat, pos, show}
use campus_hub.Harness.Values.{is_truthy}
use campus_hub.Harness.Exec.{Exec, ◌>>=◌, ◌>>◌, pure, lift, assert}
use campus_hub.Harness.Compose.{redis, sql, request_with, check}
use campus_hub.Harness.Script.{
  dumps, each, gives, gives_or, between, integer, positive_until, do_redis, do_sql, is_token,
  without,
}
use campus_hub.Harness.Answers.{answer, states, says, object, at, text_of, lacks}

abbrev actor : ℕ
actor = 9007199254750993

abbrev phone : String
phone = "13800994101"

abbrev other : String
other = "13800994102"

abbrev code_key : String
code_key = "login:code:" <> phone

abbrev failure_key : String
failure_key = "login:failure:" <> phone

abbrev other_key : String
other_key = "login:failure:" <> other

abbrev facts_sql : String
facts_sql = "SELECT * FROM tb_user WHERE id=" <> show actor <> ";"

abbrev roles_sql : String
roles_sql =
    "SELECT user_id,role FROM tb_user_role WHERE user_id=" <> show actor <> " ORDER BY role;"

module _ (base : String) where
  -- A code that is `None` is JSON's null.
  abbrev login : Json → ℕ → Exec Json
  login code expected = do
    body ← dumps (object (("phone", str phone) ∷ ("code", code) ∷ []))
    answer (
        request_with base "/user/login" expected "POST" (some body)
          (("Content-Type", "application/json") ∷ []))

  abbrev generic_failure : String → Exec (Unit {0})
  generic_failure code = do
    result ← login (str code) 500
    says result "success" false
    data_field ← lift (get_or result "data" null)
    assert (not (is_truthy data_field)) ""
    each ("NOPERM" ∷ "WRONGTYPE" ∷ "Redis" ∷ phone ∷ code ∷ [])
        (λ value. do text ← dumps result; assert (lacks text value) "")

  abbrev prepare : Exec (String × String)
  prepare = do
    gives
        (sql (
          "SELECT COUNT(*) FROM tb_user WHERE id="
          <> show actor
          <> " OR phone IN ('"
          <> phone
          <> "','"
          <> other
          <> "');"))
        "0"
    do_sql (
        "INSERT INTO tb_user(id,phone,nick_name,status) VALUES("
        <> show actor
        <> ",'"
        <> phone
        <> "','login-attempt-actor','ACTIVE');INSERT INTO tb_user_role(user_id,role) VALUES("
        <> show actor
        <> ",'USER');")
    facts_before ← sql facts_sql
    roles_before ← sql roles_sql
    pure (facts_before, roles_before)

  abbrev fifth_failure : Exec (Unit {0})
  fifth_failure = do
    do_redis ("SET" ∷ code_key ∷ "654321" ∷ "EX" ∷ "120" ∷ [])
    do_redis ("SET" ∷ other_key ∷ "2" ∷ "EX" ∷ "600" ∷ [])
    missing ← login null 400
    states missing "errorCode" (str "VALIDATION_FAILED")
    gives_or (redis ("EXISTS" ∷ failure_key ∷ [])) "0"
        "HTTP bean validation precedes the service null-code branch"
    first ← login (str "000000") 401
    states first "errorCode" (str "AUTHENTICATION_FAILED")
    gives (redis ("GET" ∷ failure_key ∷ [])) "1"
    between (pos 590) (redis ("TTL" ∷ failure_key ∷ [])) (pos 600)
    do_redis ("EXPIRE" ∷ failure_key ∷ "40" ∷ [])
    ttl_before ← integer (redis ("PTTL" ∷ failure_key ∷ []))
    each (2 ∷ 3 ∷ 4 ∷ 5 ∷ []) (λ count. do
      result ← login (str "000000") (if count == 5 then 429 else 401)
      states result "errorCode"
          (str (if count == 5 then "RATE_LIMITED" else "AUTHENTICATION_FAILED"))
      gives (redis ("GET" ∷ failure_key ∷ [])) (show count))
    positive_until (redis ("PTTL" ∷ failure_key ∷ [])) ttl_before
    limited ← login (str "654321") 429
    states limited "errorCode" (str "RATE_LIMITED")
    gives_or (redis ("GET" ∷ code_key ∷ [])) "654321"
        "a preexisting limit must reject before code consumption"
    do_redis ("SET" ∷ failure_key ∷ "4" ∷ "EX" ∷ "40" ∷ [])
    last ← login (str "654321") 200
    presented ← at last "data"
    token ← text_of presented
    assert (is_token token) ""
    gives (redis ("EXISTS" ∷ code_key ∷ failure_key ∷ [])) "0"
    gives (redis ("GET" ∷ other_key ∷ [])) "2"
    me ← answer (request_with base "/user/me" 200 "GET" none (("authorization", token) ∷ []))
    profile ← at me "data"
    states profile "id" (num (nat actor))
    check
        "login attempts: fifth failure and preexisting limit are 429, later counts retain TTL, HTTP validation does not count, success consumes code and clears only its own count"

  abbrev dependencies : String → String → Exec (Unit {0})
  dependencies facts_before roles_before = do
    do_redis ("SET" ∷ code_key ∷ "654321" ∷ "EX" ∷ "120" ∷ [])
    do_redis ("HSET" ∷ failure_key ∷ "field" ∷ "wrong-type" ∷ [])
    generic_failure "654321"
    gives (redis ("GET" ∷ code_key ∷ [])) "654321"
    gives (redis ("HGET" ∷ failure_key ∷ "field" ∷ [])) "wrong-type"
    do_redis ("DEL" ∷ failure_key ∷ [])
    do_redis ("SET" ∷ failure_key ∷ "2" ∷ "EX" ∷ "40" ∷ [])
    without ("del" ∷ [])
        (do
          generic_failure "654321"
          gives (redis ("GET" ∷ code_key ∷ [])) "654321"
          gives (redis ("GET" ∷ failure_key ∷ [])) "2")
        (pure tt)
    do_redis ("DEL" ∷ failure_key ∷ [])
    without ("incr" ∷ [])
        (do
          generic_failure "000000"
          gives (redis ("GET" ∷ code_key ∷ [])) "654321"
          gives (redis ("EXISTS" ∷ failure_key ∷ [])) "0")
        (pure tt)
    result ← login (str "654321") 200
    says result "success" true
    gives (sql facts_sql) facts_before
    gives (sql roles_sql) roles_before
    check
        "login attempt dependencies: wrong-type count, denied code DEL and denied INCR remain generic 500 without code loss or account mutation; restored permissions allow login"

  abbrev expiry_fault : String → String → Exec (Unit {0})
  expiry_fault facts_before roles_before = do
    do_redis ("SET" ∷ code_key ∷ "654321" ∷ "EX" ∷ "120" ∷ [])
    without ("expire" ∷ [])
        (do
          generic_failure "000000"
          gives (redis ("GET" ∷ failure_key ∷ [])) "1"
          gives (redis ("TTL" ∷ failure_key ∷ [])) "-1")
        (pure tt)
    second ← login (str "000000") 401
    states second "errorCode" (str "AUTHENTICATION_FAILED")
    gives (redis ("GET" ∷ failure_key ∷ [])) "2"
    gives (redis ("TTL" ∷ failure_key ∷ [])) "-1"
    do_redis ("DEL" ∷ failure_key ∷ [])
    again ← login (str "000000") 401
    states again "errorCode" (str "AUTHENTICATION_FAILED")
    between (pos 590) (redis ("TTL" ∷ failure_key ∷ [])) (pos 600)
    result ← login (str "654321") 200
    says result "success" true
    gives (redis ("EXISTS" ∷ code_key ∷ failure_key ∷ [])) "0"
    gives (redis ("GET" ∷ other_key ∷ [])) "2"
    gives (sql facts_sql) facts_before
    gives (sql roles_sql) roles_before
    check
        "login attempt expiry fault: original INCR partial write and persistent counter remain visible after EXPIRE denial; explicit fixture cleanup and retry recover without claiming automatic repair"

  unfoldable pub verify_login_attempt_store : Exec (Unit {0})
  verify_login_attempt_store = do
    before ← prepare
    fifth_failure
    dependencies before.0 before.1
    expiry_fault before.0 before.1
