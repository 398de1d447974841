-- ===== src/Harness/Scenario/Logout.antt =====
-- `verify_session_logout_module` of scripts/verify-compose.py, in its two parts.
use campus_hub.Prelude.{
  ℕ, String, ◌<>◌, true, List, [], ◌∷◌, Option, none, some, nat_eq, string_eq, map,
}
use campus_hub.Py.{bool, num, nat, show}
use campus_hub.Harness.Exec.{Exec, ◌>>=◌, ◌>>◌, pure}
use campus_hub.Harness.Compose.{redis, sql, request_with, request, check}
use campus_hub.Harness.Script.{
  uuid4, each, gives, gives_or, between, integer, do_redis, do_sql, without, authorized, minus,
  quoted, padded, given,
}
use campus_hub.Harness.Answers.{answer, refused, states, is_same, object, at, internal_error}

-- An account, and its two sessions.
abbrev Actor : Type 0
Actor = ℕ × Option String × String

pub record Sessions : Type 0 where
  pub actor : ℕ
  pub current : String
  pub other : String

abbrev user : Actor
user = (991701, some "USER", "ACTIVE")

abbrev merchant : Actor
merchant = (991702, some "MERCHANT", "ACTIVE")

abbrev admin : Actor
admin = (991703, some "ADMIN", "ACTIVE")

abbrev disabled : Actor
disabled = (991704, some "USER", "DISABLED")

abbrev roleless : Actor
roleless = (991705, none, "ACTIVE")

abbrev phones : List String
phones = map (λ (a : Actor). padded 11 a.0) (user ∷ merchant ∷ admin ∷ disabled ∷ roleless ∷ [])

abbrev facts_sql : String
facts_sql = "SELECT * FROM tb_user WHERE id BETWEEN 991701 AND 991705 ORDER BY id;"

abbrev roles_sql : String
roles_sql =
    "SELECT * FROM tb_user_role WHERE user_id BETWEEN 991701 AND 991705 ORDER BY user_id,role;"

abbrev unchanged : String → String → Exec (Unit {0})
unchanged facts_before roles_before = do
  gives (sql facts_sql) facts_before
  gives (sql roles_sql) roles_before

abbrev session : ℕ → Exec String
session actor = do
  drawn ← uuid4
  let token = "synthetic-logout-" <> drawn
  do_redis
      ("HSET" ∷ ("login:token:" <> token) ∷ "id" ∷ show actor ∷ "nickName" ∷ "session-logout" ∷ [])
  do_redis ("EXPIRE" ∷ ("login:token:" <> token) ∷ "600" ∷ [])
  pure token

abbrev fixture : Actor → Exec Sessions
fixture (actor, role, status) = do
  do_sql (
      "INSERT INTO tb_user(id,phone,nick_name,status) VALUES("
      <> show actor
      <> ",'"
      <> padded 11 actor
      <> "','logout-actor','"
      <> status
      <> "');")
  given role (λ name.
      do_sql
        ("INSERT INTO tb_user_role(user_id,role) VALUES(" <> show actor <> ",'" <> name <> "');"))
  first ← session actor
  second ← session actor
  pure (record { actor = actor; current = first; other = second })

-- What the second part reads of the first.
pub record Facts : Type 0 where
  pub facts_before : String
  pub roles_before : String
  pub user_other : String

module _ (base : String) where
  abbrev logout : String → ℕ → List (String × String) → Exec (Unit {0})
  logout route expected headers = refused (request_with base route expected "POST" none headers)

  abbrev logs_out : String → List (String × String) → Exec (Unit {0})
  logs_out route headers = do
    result ← answer (request_with base route 200 "POST" none headers)
    is_same result (object (("success", bool true) ∷ []))

  abbrev is_me : String → ℕ → Exec (Unit {0})
  is_me token actor = do
    me ← answer (request_with base "/user/me" 200 "GET" none (authorized token))
    profile ← at me "data"
    states profile "id" (num (nat actor))

  abbrev not_me : String → Exec (Unit {0})
  not_me token = refused (request_with base "/user/me" 401 "GET" none (authorized token))

  abbrev revokes : Sessions → Exec (Unit {0})
  revokes s = do
    other_map ← redis ("HGETALL" ∷ ("login:token:" <> s.other) ∷ [])
    other_ttl ← integer (redis ("TTL" ∷ ("login:token:" <> s.other) ∷ []))
    logs_out ("/user/logout?userId=991705&token=" <> s.other)
        (authorized ("  " <> s.current <> "  "))
    gives (redis ("EXISTS" ∷ ("login:token:" <> s.current) ∷ [])) "0"
    logout "/user/logout" 401 (authorized s.current)
    not_me s.current
    gives (redis ("HGETALL" ∷ ("login:token:" <> s.other) ∷ [])) other_map
    between (minus other_ttl 60) (redis ("TTL" ∷ ("login:token:" <> s.other) ∷ [])) other_ttl
    is_me s.other s.actor

  abbrev denies : Sessions → Exec (Unit {0})
  denies s = do
    logout "/user/logout" 401 (authorized s.current)
    gives_or (redis ("EXISTS" ∷ ("login:token:" <> s.current) ∷ [])) "0"
        "retain existing authentication invalidation"
    gives_or (redis ("EXISTS" ∷ ("login:token:" <> s.other) ∷ [])) "1" "not an account-wide revoke"

  abbrev current_only : Exec Facts
  current_only = do
    gives (sql ("SELECT COUNT(*) FROM tb_user WHERE phone IN (" <> quoted phones <> ");")) "0"
    users ← fixture user
    merchants ← fixture merchant
    admins ← fixture admin
    disableds ← fixture disabled
    rolelesses ← fixture roleless
    facts_before ← sql facts_sql
    roles_before ← sql roles_sql
    each (users ∷ merchants ∷ admins ∷ []) revokes
    drawn ← uuid4
    each ([] ∷ authorized "   " ∷ authorized ("synthetic-expired-" <> drawn) ∷ [])
        (λ headers. logout "/user/logout" 401 headers)
    each (disableds ∷ rolelesses ∷ []) denies
    unchanged facts_before roles_before
    check
        "identity logout: three roles, trimmed header, exact success body, current-session-only deletion, revoked replay 401, other-session preservation and existing authentication denial"
    pure (record {
      facts_before = facts_before;
      roles_before = roles_before;
      user_other = users.other;
    })

  abbrev failure : Facts → Exec (Unit {0})
  failure facts = do
    let current = facts.user_other
    let key = "login:token:" <> current
    before ← redis ("HGETALL" ∷ key ∷ [])
    without ("del" ∷ [])
        (do
          result ← answer (request_with base "/user/logout" 500 "POST" none (authorized current))
          is_same result internal_error
          gives (redis ("HGETALL" ∷ key ∷ [])) before
          refused (request base "/user/me" 401))
        (pure tt)
    is_me current 991701
    logs_out "/user/logout" (authorized current)
    gives (redis ("EXISTS" ∷ key ∷ [])) "0"
    not_me current
    unchanged facts.facts_before facts.roles_before
    check
        "identity logout failure: Redis DEL denied after authentication stays generic 500 with session retained, ACL restored, retry revokes and next request is unauthenticated"

  unfoldable pub verify_session_logout_module : Exec (Unit {0})
  verify_session_logout_module = do facts ← current_only; failure facts
