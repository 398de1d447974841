-- ===== src/Harness/Scenario/FollowQuery.antt =====
-- `verify_follow_query_module` of scripts/verify-compose.py, in its three parts.
use campus_hub.Prelude.{
  ℕ, String, ◌<>◌, Bool, true, false, List, [], ◌∷◌, Option, none, some, nat_eq, string_eq,
}
use campus_hub.Py.{Json, bool, num, str, nat, show, leb_ℤ}
use campus_hub.Harness.Exec.{Exec, ◌>>=◌, ◌>>◌, pure, assert, finally}
use campus_hub.Harness.Compose.{redis, sql, request_with, request, check}
use campus_hub.Harness.Script.{
  each, gives, integer, do_redis, do_sql, authorized, padded, minus, given, column_renamed,
  table_renamed, signed_in,
}
use campus_hub.Harness.Answers.{
  answer, refused, states, says, is_same, object, at, elements, has_names, is_int, has_ids,
  conceals,
}

abbrev shared : ℕ
shared = 9007199254741993

abbrev disabled_profile : ℕ
disabled_profile = 9007199254741995

abbrev missing : ℕ
missing = 9007199254741997

abbrev actor_key : String
actor_key = "follows:997101"

abbrev target_key : String
target_key = "follows:997110"

abbrev admin_key : String
admin_key = "follows:997103"

abbrev is_following : String
is_following = "/follow/or/not/" <> show shared

abbrev common : String
common = "/follow/common/997110"

abbrev rows_sql : String
rows_sql =
    "SELECT user_id,follow_user_id FROM tb_follow WHERE user_id IN (997101,997102,997103,997110) ORDER BY user_id,follow_user_id;"

abbrev profiles_sql : String
profiles_sql =
    "SELECT id,phone,password,nick_name,icon,status,create_time,update_time FROM tb_user WHERE id IN ("
    <> show shared
    <> ","
    <> show disabled_profile
    <> ") ORDER BY id;"

abbrev enter : ℕ → ℕ → Option String → String → Exec String
enter number user_id role account_status = do
  do_sql (
      "INSERT INTO tb_user(id,phone,nick_name,status) VALUES("
      <> show user_id
      <> ",'000000"
      <> padded 5 number
      <> "','synthetic-follow-reader','"
      <> account_status
      <> "');")
  given role (λ name.
      do_sql
        ("INSERT INTO tb_user_role(user_id,role) VALUES(" <> show user_id <> ",'" <> name <> "');"))
  signed_in "synthetic-follow-query-" user_id ("nickName" ∷ "synthetic" ∷ [])

abbrev projection : String → Exec String
projection key = redis ("ZRANGE" ∷ key ∷ "0" ∷ "-1" ∷ "WITHSCORES" ∷ [])

-- Of `actor_key` and `target_key`.
abbrev projections : Exec (String × String)
projections = do actor ← projection actor_key; target ← projection target_key; pure (actor, target)

abbrev projects : String × String → Exec (Unit {0})
projects before = do gives (projection actor_key) before.0; gives (projection target_key) before.1

-- The tokens of the actors, and what the second part leaves to the third.
pub record Tokens : Type 0 where
  pub user : String
  pub merchant : String
  pub admin : String

module _ (base : String) where
  abbrev query : String → String → ℕ → Exec Json
  query token route expected =
      answer (request_with base route expected "GET" none (authorized token))

  abbrev has_profiles : String → String → List Json → Exec (Unit {0})
  has_profiles token route expected = do
    result ← query token route 200
    says result "success" true
    profiles ← at result "data"
    has_ids profiles expected
    listed ← elements profiles
    each listed
        (λ item. do has_names item ("id" ∷ "nickName" ∷ "icon" ∷ []); id ← at item "id"; is_int id)

  abbrev follows : String → String → Bool → Exec (Unit {0})
  follows token route b = do result ← query token route 200; says result "data" b

  abbrev rejects : String → ℕ → String → String → Exec (Unit {0})
  rejects token expected code route = do
    result ← query token route expected
    states result "errorCode" (str code)

  abbrev starts_following : String → Exec (Unit {0})
  starts_following token = do
    result ←
        answer (
          request_with base ("/follow/" <> show shared <> "/true") 200 "PUT" none
            (authorized token))
    is_same result (object (("success", bool true) ∷ []))

  abbrev current_roles : Exec Tokens
  current_roles = do
    user ← enter 7100 997101 (some "USER") "ACTIVE"
    merchant ← enter 7101 997102 (some "MERCHANT") "ACTIVE"
    admin ← enter 7102 997103 (some "ADMIN") "ACTIVE"
    disabled ← enter 7103 997104 (some "USER") "DISABLED"
    roleless ← enter 7104 997105 none "ACTIVE"
    other ← enter 7105 997110 (some "USER") "ACTIVE"
    do_sql (
        "INSERT INTO tb_user(id,phone,password,nick_name,icon,status) VALUES("
        <> show shared
        <> ",'00000007110','synthetic-only','shared','shared.svg','ACTIVE'),"
        <> "("
        <> show disabled_profile
        <> ",'00000007111','synthetic-only','retained-profile','retained.svg','DISABLED');")
    each (user ∷ merchant ∷ admin ∷ other ∷ []) starts_following
    each (user ∷ merchant ∷ admin ∷ []) (λ token. do
      follows token (is_following <> "?userId=997105") true
      has_profiles token (common <> "?userId=997105") (num (nat shared) ∷ []))
    each (is_following ∷ common ∷ []) (λ route. do
      refused (request base route 401)
      each (disabled ∷ roleless ∷ []) (λ token. rejects token 401 "AUTHENTICATION_FAILED" route))
    each ("0" ∷ "-1" ∷ "9223372036854775808" ∷ "not-a-number" ∷ []) (λ invalid.
        each ("/follow/or/not/" ∷ "/follow/common/" ∷ [])
          (λ prefix. rejects user 400 "VALIDATION_FAILED" (prefix <> invalid)))
    check
        "social follow queries: current roles and identity, positive Long validation, old write endpoint and numeric-ID UserDTO whitelist"
    pure (record { user = user; merchant = merchant; admin = admin })

  abbrev generic_failure : String → String → Exec (Unit {0})
  generic_failure token route = do
    result ← query token route 500
    says result "success" false
    states result "errorCode" (str "INTERNAL_ERROR")
    conceals result "errorMsg" "SQL"
    conceals result "errorMsg" "follows:"

  abbrev both_profiles : List Json
  both_profiles = num (nat shared) ∷ num (nat disabled_profile) ∷ []

  unfoldable pub truth_and_projection : Tokens → Exec String
  truth_and_projection tokens = do
    each (actor_key ∷ target_key ∷ []) (λ key. do
      do_redis ("ZADD" ∷ key ∷ "12" ∷ show disabled_profile ∷ "13" ∷ show missing ∷ [])
      do_redis ("EXPIRE" ∷ key ∷ "600" ∷ []))
    before ← projections
    actor_ttl ← integer (redis ("TTL" ∷ actor_key ∷ []))
    target_ttl ← integer (redis ("TTL" ∷ target_key ∷ []))
    rows_before ← sql rows_sql
    follows tokens.user ("/follow/or/not/" <> show disabled_profile) false
    has_profiles tokens.user common both_profiles
    has_profiles tokens.user "/follow/common/997101" both_profiles
    follows tokens.user "/follow/or/not/997101" false
    each ((actor_key, before.0, actor_ttl) ∷ (target_key, before.1, target_ttl) ∷ [])
        (λ (key, held, ttl). do
          gives (projection key) held
          now ← integer (redis ("TTL" ∷ key ∷ []))
          assert (leb_ℤ (minus ttl 30) now) "query must not refresh or remove TTL"
          assert (leb_ℤ now ttl) "query must not refresh or remove TTL")
    each (actor_key ∷ target_key ∷ [])
        (λ key. do_redis ("ZADD" ∷ key ∷ "14" ∷ "synthetic-not-a-long" ∷ []))
    malformed ← projections
    generic_failure tokens.user common
    each ((actor_key, malformed.0) ∷ (target_key, malformed.1) ∷ []) (λ (key, held). do
      gives (projection key) held
      do_redis ("ZREM" ∷ key ∷ "synthetic-not-a-long" ∷ []))
    do_redis ("ZREM" ∷ admin_key ∷ show shared ∷ [])
    follows tokens.admin is_following true
    has_profiles tokens.admin common []
    do_redis ("SET" ∷ admin_key ∷ "synthetic-wrong-type" ∷ [])
    finally
        (do
          generic_failure tokens.admin common
          gives (redis ("GET" ∷ admin_key ∷ [])) "synthetic-wrong-type"
          follows tokens.admin is_following true)
        (do_redis ("DEL" ∷ admin_key ∷ []))
    table_renamed "tb_follow" "phase7t_owned_follow_fault"
        (do generic_failure tokens.user is_following; has_profiles tokens.user common both_profiles)
    gives (sql rows_sql) rows_before
    projects before
    follows tokens.user is_following true
    refused (
        request_with base ("/follow/" <> show shared <> "/true") 200 "PUT" none
          (authorized tokens.user))
    gives (sql rows_sql) rows_before
    check
        "social follow queries: SQL truth vs Redis intersection, missing/disabled profiles, self reads, unchanged projection and sanitized faults/recovery without repair"
    pure rows_before

  abbrev batch_profiles : Tokens → String → Exec (Unit {0})
  batch_profiles tokens rows_before = do
    before ← projections
    profiles_before ← sql profiles_sql
    column_renamed "tb_user" "phone" "phase7y_owned_phone_fault" (do
      generic_failure tokens.user common
      follows tokens.user is_following true
      has_profiles tokens.merchant "/follow/common/997103" [])
    has_profiles tokens.user common both_profiles
    gives (sql profiles_sql) profiles_before
    gives (sql rows_sql) rows_before
    projects before
    check
        "social batch profiles: SQL failure propagates, empty intersection skips profile SELECT, recovery preserves rows and projections"

  unfoldable pub verify_follow_query_module : Exec (Unit {0})
  verify_follow_query_module = do
    tokens ← current_roles
    rows_before ← truth_and_projection tokens
    batch_profiles tokens rows_before
