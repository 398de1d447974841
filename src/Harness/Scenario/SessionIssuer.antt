-- ===== src/Harness/Scenario/SessionIssuer.antt =====
-- `verify_login_session_issuer` of scripts/verify-compose.py, in its four parts.
use campus_hub.Prelude.{
  ℕ, ◌-◌, ◌*◌, String, ◌<>◌, true, not, List, [], ◌∷◌, none, some, ◌==◌, nat_eq, string_eq, pair_eq,
  same_set, if◌then◌else◌,
}
use campus_hub.Py.{Json, num, str, nat, pos, show}
use campus_hub.Harness.Exec.{Exec, ◌>>=◌, ◌>>◌, pure, assert, finally}
use campus_hub.Harness.Compose.{redis, sql, request_with, parse, check}
use campus_hub.Harness.Script.{
  uuid4, dumps, read_text, each, gather, gives, between, do_redis, do_sql, is_token, without,
  authorized, note, start_notes, noted, line_set, without_all, is_empty,
}
use campus_hub.Harness.Answers.{
  content, answer, refused, states, says, is_same, object, at, text_of, has_names, internal_error,
}

abbrev actor : ℕ
actor = 9007199254748993

abbrev phone : String
phone = "13800992901"

abbrev new_phone : String
new_phone = "13800992902"

abbrev facts_sql : String
facts_sql = "SELECT * FROM tb_user WHERE id=" <> show actor <> ";"

abbrev roles_sql : String
roles_sql = "SELECT user_id,role FROM tb_user_role ORDER BY user_id,role;"

abbrev expected_hash : List (String × String)
expected_hash = ("id", show actor) ∷ ("nickName", "issuer-profile") ∷ ("icon", "") ∷ []

abbrev code : String
code = "246802"

abbrev lasts : String → Exec (Unit {0})
lasts key = between (pos (36000 * 60 - 60)) (redis ("TTL" ∷ key ∷ [])) (pos (36000 * 60))

abbrev tokens : Exec (List String)
tokens = do text ← redis ("--scan" ∷ "--pattern" ∷ "login:token:*" ∷ []); pure (line_set text)

abbrev unchanged : String → String → Exec (Unit {0})
unchanged facts_before roles_before = do
  gives (sql facts_sql) facts_before
  gives (sql roles_sql) roles_before

module _ (base : String) where
  abbrev login : String → ℕ → Exec Json
  login target expected = do
    do_redis ("SET" ∷ ("login:code:" <> target) ∷ code ∷ "EX" ∷ "120" ∷ [])
    payload ← dumps (object (("phone", str target) ∷ ("code", str code) ∷ []))
    body ← content (
        request_with base "/user/login" expected "POST" (some payload)
          (("Content-Type", "application/json") ∷ []))
    gives (redis ("EXISTS" ∷ ("login:code:" <> target) ∷ [])) "0"
    result ← parse body
    if expected == 200
        then (do
          has_names result ("success" ∷ "data" ∷ [])
          says result "success" true
          presented ← at result "data"
          token ← text_of presented
          assert (is_token token) "")
        else is_same result internal_error
    pure result

  abbrev token_of : String → Exec String
  token_of target = do result ← login target 200; presented ← at result "data"; text_of presented

  abbrev independent_sessions : Exec (String × String)
  independent_sessions = do
    gives
        (sql (
          "SELECT COUNT(*) FROM tb_user WHERE phone IN ('" <> phone <> "','" <> new_phone <> "');"))
        "0"
    do_sql (
        "INSERT INTO tb_user(id,phone,password,nick_name,icon,status) VALUES("
        <> show actor
        <> ",'"
        <> phone
        <> "','synthetic-only','issuer-profile',NULL,'ACTIVE');INSERT INTO tb_user_role(user_id,role) VALUES("
        <> show actor
        <> ",'USER');")
    facts_before ← sql facts_sql
    roles_before ← sql roles_sql
    first ← token_of phone
    second ← token_of phone
    assert (not (first == second)) ""
    each (first ∷ second ∷ []) (λ token. do
      let key = "login:token:" <> token
      text ← redis ("HKEYS" ∷ key ∷ [])
      let fields = line_set text
      assert (same_set fields ("id" ∷ "nickName" ∷ "icon" ∷ [])) ""
      held ←
          gather fields (λ field. do value ← redis ("HGET" ∷ key ∷ field ∷ []); pure (field, value))
      assert (same_set held expected_hash) ""
      lasts key
      me ← answer (request_with base "/user/me" 200 "GET" none (authorized token))
      profile ← at me "data"
      states profile "id" (num (nat actor)))
    unchanged facts_before roles_before
    check
        "identity session issuer: original UUID token format, three string hash fields including empty icon, large numeric user ID, minute-based TTL and two independent sessions without account writes"
    pure (facts_before, roles_before)

  abbrev hash_fault : String → String → Exec (Unit {0})
  hash_fault facts_before roles_before = do
    do_redis ("SET" ∷ ("login:failure:" <> phone) ∷ "2" ∷ "EX" ∷ "600" ∷ [])
    before ← tokens
    without ("hset" ∷ "hmset" ∷ [])
        (do
          _ ← login phone 500
          now ← tokens
          assert (is_empty (without_all now before))
              "failed Hash write must not reach expiry or return a token"
          gives (redis ("GET" ∷ ("login:failure:" <> phone) ∷ [])) "2")
        (pure tt)
    unchanged facts_before roles_before
    check
        "identity session Hash fault: real Redis write denial stays generic, consumed code is not restored, failure counter is not cleared and account facts remain unchanged"

  -- `rejected_keys` is the list that is noted. A set has no order of its own; this one has that of the scan.
  abbrev expiry_fault : String → String → Exec (Unit {0})
  expiry_fault facts_before roles_before = do
    start_notes
    without ("pexpire" ∷ "expire" ∷ [])
        (each (phone ∷ new_phone ∷ []) (λ target. do
          do_redis ("SET" ∷ ("login:failure:" <> target) ∷ "2" ∷ "EX" ∷ "600" ∷ [])
          before ← tokens
          _ ← login target 500
          now ← tokens
          let created = without_all now before
          note created
          assert (is_empty created)
              "expiry failure must not leave a published session key when cleanup is allowed"
          gives (redis ("GET" ∷ ("login:failure:" <> target) ∷ [])) "2"
          unchanged facts_before roles_before
          if target == new_phone
              then gives (sql ("SELECT COUNT(*) FROM tb_user WHERE phone='" <> target <> "';")) "0"
              else pure tt))
        (do rejected_keys ← noted; each rejected_keys (λ key. do_redis ("DEL" ∷ key ∷ [])))
    each (phone ∷ new_phone ∷ []) (λ target. do
      token ← token_of target
      gives (redis ("EXISTS" ∷ ("login:failure:" <> target) ∷ [])) "0"
      lasts ("login:token:" <> token)
      me ← answer (request_with base "/user/me" 200 "GET" none (authorized token))
      says me "success" true)
    gives (sql facts_sql) facts_before
    check
        "identity session expiry fault: no published Hash after TTL failure, new DB account/role rolls back, ACL restored and fresh-code retries issue usable sessions"

  abbrev double_fault : Exec (Unit {0})
  double_fault = do
    drawn ← uuid4
    let placeholder = "login:token:" <> drawn
    script ← read_text "src/main/resources/login-session-publish.lua"
    without ("pexpire" ∷ "expire" ∷ "del" ∷ [])
        (do
          gives
              (redis (
                "EVAL"
                ∷ script
                ∷ "1"
                ∷ placeholder
                ∷ show (36000 * 60 * 1000)
                ∷ show actor
                ∷ "must-not-publish"
                ∷ ""
                ∷ []))
              "-1"
          gives (redis ("TTL" ∷ placeholder ∷ [])) "-1"
          gives (redis ("HKEYS" ∷ placeholder ∷ [])) "nickName"
          gives (redis ("HGET" ∷ placeholder ∷ "nickName" ∷ [])) ""
          gives (redis ("HEXISTS" ∷ placeholder ∷ "id" ∷ [])) "0")
        (finally
          (do
            refused (request_with base "/user/me" 401 "GET" none (authorized drawn))
            gives (redis ("EXISTS" ∷ placeholder ∷ [])) "0")
          (do_redis ("DEL" ∷ placeholder ∷ [])))
    check
        "identity session double fault: direct script cannot publish identity when expiry and cleanup fail; residual placeholder has no id and the real HTTP authentication filter rejects/removes it after permissions recover"

  unfoldable pub verify_login_session_issuer : Exec (Unit {0})
  verify_login_session_issuer = do
    before ← independent_sessions
    hash_fault before.0 before.1
    expiry_fault before.0 before.1
    double_fault
