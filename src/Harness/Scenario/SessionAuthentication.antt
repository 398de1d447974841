-- ===== src/Harness/Scenario/SessionAuthentication.antt =====
-- `verify_session_authentication` of scripts/verify-compose.py, in its four parts.
use campus_hub.Prelude.{
  ℕ, ◌-◌, ◌*◌, String, ◌<>◌, true, false, [], ◌∷◌, Option, none, some, nat_eq, string_eq,
}
use campus_hub.Py.{num, str, nat, pos, show}
use campus_hub.Harness.Exec.{Exec, ◌>>=◌, ◌>>◌, pure, assert, finally}
use campus_hub.Harness.Compose.{redis, sql, request_with, request, parse, check}
use campus_hub.Harness.Script.{
  uuid4, read_text, each, gives, between, integer, positive_until, do_redis, do_sql, given, without,
  authorized, show_ℤ,
}
use campus_hub.Harness.Answers.{content, refused, states, says, object, at, elements, lacks}

abbrev actor : ℕ
actor = 9007199254749993

abbrev phone : String
phone = "13800993101"

abbrev facts_sql : String
facts_sql = "SELECT * FROM tb_user WHERE id=" <> show actor <> ";"

abbrev roles_sql : String
roles_sql =
    "SELECT user_id,role FROM tb_user_role WHERE user_id=" <> show actor <> " ORDER BY role;"

-- A token and its key.
abbrev session : Option ℕ → Exec (String × String)
session ttl = do
  drawn ← uuid4
  let token = "synthetic-ttl-auth-" <> drawn
  let key = "login:token:" <> token
  do_redis ("HSET" ∷ key ∷ "id" ∷ show actor ∷ "nickName" ∷ "cached-ttl-profile" ∷ "icon" ∷ "" ∷ [])
  given ttl (λ ms. do_redis ("PEXPIRE" ∷ key ∷ show ms ∷ []))
  pure (token, key)

abbrev lasts : String → Exec (Unit {0})
lasts key = between (pos (36000 * 60 - 60)) (redis ("TTL" ∷ key ∷ [])) (pos (36000 * 60))

-- What the parts share: the facts, the valid session, the one that is not presented, and what it holds.
pub record Seen : Type 0 where
  pub facts_before : String
  pub roles_before : String
  pub valid : String × String
  pub denied : String × String
  pub untouched_key : String
  pub untouched : String

module _ (base : String) where
  abbrev me : String → ℕ → Exec String
  me token expected =
      content
        (request_with base "/user/me" expected "GET" none (authorized ("  " <> token <> "  ")))

  abbrev rejected : String → Exec (Unit {0})
  rejected token = do
    body ← me token 401
    result ← parse body
    states result "errorCode" (str "AUTHENTICATION_FAILED")

  abbrev presented_only : Exec Seen
  presented_only = do
    gives
        (sql (
          "SELECT COUNT(*) FROM tb_user WHERE id=" <> show actor <> " OR phone='" <> phone <> "';"))
        "0"
    do_sql (
        "INSERT INTO tb_user(id,phone,nick_name,status) VALUES("
        <> show actor
        <> ",'"
        <> phone
        <> "','ttl-auth-actor','ACTIVE');INSERT INTO tb_user_role(user_id,role) VALUES("
        <> show actor
        <> ",'USER');")
    facts_before ← sql facts_sql
    roles_before ← sql roles_sql
    valid ← session (some 30000)
    historical ← session none
    public_history ← session none
    unpresented ← session none
    denied ← session none
    untouched ← redis ("HGETALL" ∷ unpresented.1 ∷ [])
    body ← me valid.0 200
    result ← parse body
    states result "data" (
        object (
          ("id", num (nat actor)) ∷ ("nickName", str "cached-ttl-profile") ∷ ("icon", str "") ∷ []))
    lasts valid.1
    rejected historical.0
    gives (redis ("EXISTS" ∷ historical.1 ∷ [])) "0"
    hot ← content (request_with base "/blog/hot" 200 "GET" none (authorized public_history.0))
    first ← parse hot
    says first "success" true
    second ← parse hot
    posts ← at second "data"
    listed ← elements posts
    each listed (λ item. says item "isLike" false)
    gives (redis ("EXISTS" ∷ public_history.1 ∷ [])) "0"
    gives (redis ("TTL" ∷ unpresented.1 ∷ [])) "-1"
    gives (redis ("HGETALL" ∷ unpresented.1 ∷ [])) untouched
    check
        "session authentication: live Hash renews before identity, presented no-TTL history is rejected/removed, public access stays anonymous and unpresented history is untouched"
    pure (record {
      facts_before = facts_before;
      roles_before = roles_before;
      valid = valid;
      denied = denied;
      untouched_key = unpresented.1;
      untouched = untouched;
    })

  abbrev cleanup_failure : Seen → Exec (Unit {0})
  cleanup_failure seen = do
    post ← integer (sql "SELECT id FROM tb_blog WHERE withdrawn=0 ORDER BY id DESC LIMIT 1;")
    let liked_sql = "SELECT liked FROM tb_blog WHERE id=" <> show_ℤ post <> ";"
    liked_before ← sql liked_sql
    score_before ← redis ("ZSCORE" ∷ ("blog:liked:" <> show_ℤ post) ∷ show actor ∷ [])
    without ("del" ∷ [])
        (do
          rejected seen.denied.0
          refused (
              request_with base ("/blog/like/" <> show_ℤ post) 401 "PUT" none
                (authorized seen.denied.0))
          gives (redis ("TTL" ∷ seen.denied.1 ∷ [])) "-1"
          gives (redis ("HGET" ∷ seen.denied.1 ∷ "id" ∷ [])) (show actor)
          gives (sql liked_sql) liked_before
          gives (redis ("ZSCORE" ∷ ("blog:liked:" <> show_ℤ post) ∷ show actor ∷ [])) score_before)
        (pure tt)
    rejected seen.denied.0
    gives (redis ("EXISTS" ∷ seen.denied.1 ∷ [])) "0"
    check
        "session cleanup failure: no-TTL identity stays unauthorized even when DEL is denied, protected write does not mutate SQL/Redis, recovery removes only the presented invalid key"

  abbrev renewal_fault : Seen → Exec (Unit {0})
  renewal_fault seen = do
    do_redis ("PEXPIRE" ∷ seen.valid.1 ∷ "45000" ∷ [])
    ttl_before ← integer (redis ("PTTL" ∷ seen.valid.1 ∷ []))
    hash_before ← redis ("HGETALL" ∷ seen.valid.1 ∷ [])
    without ("pexpire" ∷ [])
        (do
          body ← me seen.valid.0 401
          result ← parse body
          states result "errorCode" (str "AUTHENTICATION_FAILED")
          assert (lacks body seen.valid.0) ""
          refused (request base "/user/me" 401)
          gives (redis ("HGETALL" ∷ seen.valid.1 ∷ [])) hash_before
          positive_until (redis ("PTTL" ∷ seen.valid.1 ∷ [])) ttl_before)
        (pure tt)
    body ← me seen.valid.0 200
    result ← parse body
    profile ← at result "data"
    states profile "id" (num (nat actor))
    lasts seen.valid.1
    check
        "session renewal fault: real PEXPIRE denial prevents authenticated response without deleting a live session or refreshing its TTL; permissions recover and the same session works"

  abbrev identity_fence : Seen → Exec (Unit {0})
  identity_fence seen = do
    drawn ← uuid4
    let replacement = "login:token:" <> drawn
    script ← read_text "src/main/resources/session-authenticate.lua"
    do_redis ("HSET" ∷ replacement ∷ "id" ∷ show (actor - 1) ∷ "nickName" ∷ "replacement" ∷ [])
    do_redis ("PEXPIRE" ∷ replacement ∷ "45000" ∷ [])
    ttl_before ← integer (redis ("PTTL" ∷ replacement ∷ []))
    let evaluate =
        redis ("EVAL" ∷ script ∷ "1" ∷ replacement ∷ show actor ∷ show (36000 * 60 * 1000) ∷ [])
    finally
        (do
          gives evaluate "0"
          gives (redis ("HGET" ∷ replacement ∷ "id" ∷ [])) (show (actor - 1))
          positive_until (redis ("PTTL" ∷ replacement ∷ [])) ttl_before
          do_redis ("PERSIST" ∷ replacement ∷ [])
          gives evaluate "0"
          gives (redis ("TTL" ∷ replacement ∷ [])) "-1"
          gives (redis ("HGET" ∷ replacement ∷ "id" ∷ [])) (show (actor - 1)))
        (do_redis ("DEL" ∷ replacement ∷ []))
    gives (sql facts_sql) seen.facts_before
    gives (sql roles_sql) seen.roles_before
    gives (redis ("TTL" ∷ seen.untouched_key ∷ [])) "-1"
    gives (redis ("HGETALL" ∷ seen.untouched_key ∷ [])) seen.untouched
    check
        "session identity fence: target Redis script compares raw large IDs, does not renew/delete replacement identities even without TTL; account facts and unpresented history remain unchanged"

  unfoldable pub verify_session_authentication : Exec (Unit {0})
  verify_session_authentication = do
    seen ← presented_only
    cleanup_failure seen
    renewal_fault seen
    identity_fence seen
