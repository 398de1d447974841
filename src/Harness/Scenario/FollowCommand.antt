-- ===== src/Harness/Scenario/FollowCommand.antt =====
-- `verify_follow_command_module` of scripts/verify-compose.py, in its two parts.
use campus_hub.Prelude.{
  ℕ, String, ◌<>◌, true, false, [], ◌∷◌, Option, none, some, ◌==◌, nat_eq, string_eq, if◌then◌else◌,
}
use campus_hub.Py.{Json, bool, str, show}
use campus_hub.Harness.Exec.{Exec, ◌>>=◌, ◌>>◌, pure}
use campus_hub.Harness.Compose.{redis, sql, request_with, check}
use campus_hub.Harness.Script.{
  each, gives, gives_or, between, integer, do_redis, do_sql, authorized, padded, minus, given,
  table_renamed, signed_in, exceeds,
}
use campus_hub.Harness.Answers.{answer, refused, states, says, is_same, object, conceals}

abbrev user : ℕ
user = 997201

-- No row of the users has it.
abbrev target : ℕ
target = 9007199254742993

abbrev follows : ℕ → String
follows actor = "follows:" <> show actor

abbrev enter : ℕ → ℕ → Option String → String → Exec String
enter number actor role status = do
  do_sql (
      "INSERT INTO tb_user(id,phone,nick_name,status) VALUES("
      <> show actor
      <> ",'000000"
      <> padded 5 number
      <> "','synthetic-follow-command','"
      <> status
      <> "');")
  given role (λ name.
      do_sql
        ("INSERT INTO tb_user_role(user_id,role) VALUES(" <> show actor <> ",'" <> name <> "');"))
  signed_in "synthetic-follow-command-" actor ("nickName" ∷ "synthetic" ∷ [])

abbrev count : ℕ → Exec String
count actor = sql (
    "SELECT COUNT(*) FROM tb_follow WHERE user_id="
    <> show actor
    <> " AND follow_user_id="
    <> show target
    <> ";")

abbrev score : String → Exec String
score key = redis ("ZSCORE" ∷ key ∷ show target ∷ [])

-- The code of each status that a test expects.
abbrev code_of : ℕ → String
code_of status =
    if status == 400
    then "VALIDATION_FAILED"
    else if status == 401
    then "AUTHENTICATION_FAILED"
    else if status == 409
    then "CONFLICT"
    else "INTERNAL_ERROR"

module _ (base : String) where
  abbrev write_to : String → String → ℕ → String → Exec Json
  write_to token flag expected target_id = do
    result ← answer (
        request_with base ("/follow/" <> target_id <> "/" <> flag <> "?userId=997205") expected
          "PUT" none (authorized token))
    if expected == 200
        then is_same result (object (("success", bool true) ∷ []))
        else (do says result "success" false; states result "errorCode" (str (code_of expected)))
    pure result

  -- Where the result is dropped.
  abbrev write : String → String → ℕ → String → Exec (Unit {0})
  write token flag expected target_id = do _ ← write_to token flag expected target_id; pure tt

  abbrev follow : String → String → ℕ → Exec (Unit {0})
  follow token flag expected = write token flag expected (show target)

  abbrev refreshes : ℕ × String → Exec (Unit {0})
  refreshes (actor, token) = do
    each ("true" ∷ "false" ∷ []) (λ flag. write token flag 409 (show actor))
    follow token "true" 200
    gives (count actor) "1"
    exceeds (score (follows actor)) 1
    do_redis ("ZADD" ∷ follows actor ∷ "1" ∷ show target ∷ [])
    do_redis ("EXPIRE" ∷ follows actor ∷ "600" ∷ [])
    before_ttl ← integer (redis ("TTL" ∷ follows actor ∷ []))
    follow token "true" 200
    gives (count actor) "1"
    exceeds (score (follows actor)) 1
    between (minus before_ttl 30) (redis ("TTL" ∷ follows actor ∷ [])) before_ttl
    follow token "false" 200
    gives (count actor) "0"
    gives (score (follows actor)) ""
    do_redis ("ZADD" ∷ follows actor ∷ "7" ∷ show target ∷ [])
    follow token "false" 200
    gives (count actor) "0"
    gives (score (follows actor)) "7"
    do_redis ("DEL" ∷ follows actor ∷ [])

  abbrev writes : Exec String
  writes = do
    user_token ← enter 7200 user (some "USER") "ACTIVE"
    merchant_token ← enter 7201 997202 (some "MERCHANT") "ACTIVE"
    admin_token ← enter 7202 997203 (some "ADMIN") "ACTIVE"
    disabled_token ← enter 7203 997204 (some "USER") "DISABLED"
    roleless_token ← enter 7204 997205 none "ACTIVE"
    refused (request_with base ("/follow/" <> show target <> "/true") 401 "PUT" none [])
    each (disabled_token ∷ roleless_token ∷ []) (λ token. follow token "true" 401)
    each ("0" ∷ "-1" ∷ "9223372036854775808" ∷ "bad" ∷ [])
        (λ invalid. write user_token "true" 400 invalid)
    follow user_token "not-boolean" 400
    each ((user, user_token) ∷ (997202, merchant_token) ∷ (997203, admin_token) ∷ []) refreshes
    gives_or (count 997205) "0" "query actor must not replace authenticated actor"
    check
        "social follow writes: three roles, session actor, positive Long/Boolean validation, self conflict, duplicate refresh/TTL and unchanged repeated-unfollow semantics"
    pure user_token

  abbrev failures : String → Exec (Unit {0})
  failures token = do
    let key = follows user
    do_redis ("SET" ∷ key ∷ "synthetic-wrong-type" ∷ [])
    result ← write_to token "true" 500 (show target)
    gives (count user) "1"
    gives (redis ("GET" ∷ key ∷ [])) "synthetic-wrong-type"
    conceals result "errorMsg" "WRONGTYPE"
    conceals result "errorMsg" "follows:"
    do_redis ("DEL" ∷ key ∷ [])
    follow token "true" 200
    gives (count user) "1"
    exceeds (score key) 1
    do_redis ("DEL" ∷ key ∷ [])
    do_redis ("SET" ∷ key ∷ "synthetic-delete-fault" ∷ [])
    follow token "false" 500
    gives (count user) "0"
    gives (redis ("GET" ∷ key ∷ [])) "synthetic-delete-fault"
    follow token "false" 200
    gives (redis ("GET" ∷ key ∷ [])) "synthetic-delete-fault"
    do_redis ("DEL" ∷ key ∷ [])
    do_redis ("ZADD" ∷ key ∷ "9" ∷ show target ∷ [])
    table_renamed "tb_follow" "phase7u_owned_follow_fault"
        (do each ("true" ∷ "false" ∷ []) (λ flag. follow token flag 500); gives (score key) "9")
    gives (count user) "0"
    follow token "true" 200
    follow token "false" 200
    gives (count user) "0"
    gives (score key) ""
    check
        "social follow writes: real Redis failures retain committed SQL, retry boundaries, SQL faults leave projection unchanged and recovery is usable"

  unfoldable pub verify_follow_command_module : Exec (Unit {0})
  verify_follow_command_module = do token ← writes; failures token
