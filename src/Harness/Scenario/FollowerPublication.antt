-- ===== src/Harness/Scenario/FollowerPublication.antt =====
-- `verify_follower_reader_publication` of scripts/verify-compose.py, in its two parts.
use campus_hub.Prelude.{ℕ, String, ◌<>◌, true, false, List, [], ◌∷◌, some, nat_eq, string_eq, map}
use campus_hub.Py.{Json, str, ℤ, show}
use campus_hub.Harness.Exec.{Exec, ◌>>=◌, ◌>>◌, pure, finally}
use campus_hub.Harness.Compose.{redis, sql, request_with, check}
use campus_hub.Harness.Script.{
  dumps, each, gives, do_redis, do_sql, padded, show_ℤ, joined, table_renamed, signed_in,
}
use campus_hub.Harness.Answers.{answer, states, says, object, at, conceals, whole_value}

abbrev author : ℕ
author = 997301

abbrev active : ℕ
active = 997302

abbrev disabled : ℕ
disabled = 997303

abbrev missing : ℕ
missing = 997304

abbrev other : ℕ
other = 997305

abbrev recipients : List ℕ
recipients = active ∷ disabled ∷ missing ∷ []

abbrev follows_key : String
follows_key = "follows:" <> show author

abbrev relation_sql : String
relation_sql =
    "SELECT user_id,follow_user_id FROM tb_follow WHERE follow_user_id="
    <> show author
    <> " ORDER BY user_id;"

abbrev insert_user : ℕ × ℕ × String → Exec (Unit {0})
insert_user (number, actor, status) = do_sql (
    "INSERT INTO tb_user(id,phone,nick_name,status) VALUES("
    <> show actor
    <> ",'000000"
    <> padded 5 number
    <> "','synthetic-follower-port','"
    <> status
    <> "');")

abbrev edge : ℕ → ℕ → String
edge follower followed = "(" <> show follower <> "," <> show followed <> ")"

-- The token of the author, and the relations.
abbrev prepare : Exec (String × String)
prepare = do
  each
      ((7300, author, "ACTIVE")
        ∷ (7301, active, "ACTIVE")
        ∷ (7302, disabled, "DISABLED")
        ∷ (7303, other, "ACTIVE")
        ∷ [])
      insert_user
  do_sql ("INSERT INTO tb_user_role(user_id,role) VALUES(" <> show author <> ",'USER');")
  do_sql (
      "INSERT INTO tb_follow(user_id,follow_user_id) VALUES"
      <> edge active author
      <> ","
      <> edge disabled author
      <> ","
      <> edge missing author
      <> ","
      <> edge other active
      <> ";")
  token ← signed_in "synthetic-follower-port-" author ("nickName" ∷ "synthetic" ∷ [])
  do_redis ("SET" ∷ follows_key ∷ "synthetic-unread-projection" ∷ [])
  each recipients
      (λ recipient. do_redis ("SET" ∷ ("feed:" <> show recipient) ∷ "synthetic-hold-intent" ∷ []))
  relations_before ← sql relation_sql
  pure (token, relations_before)

module _ (base : String) where
  abbrev post : String → String → ℕ → Exec Json
  post token title expected = do
    body ←
        dumps
          (object (("title", str title) ∷ ("content", str "synthetic follower reader body") ∷ []))
    answer (
        request_with base "/blog" expected "POST" (some body)
          (("authorization", token) ∷ ("Content-Type", "application/json") ∷ []))

  -- `publish` with a status of 200, and with one of 500.
  abbrev publish : String → String → Exec ℤ
  publish token title = do
    result ← post token title 200
    says result "success" true
    id ← at result "data"
    whole_value id

  abbrev publish_fails : String → String → Exec (Unit {0})
  publish_fails token title = do
    result ← post token title 500
    says result "success" false
    states result "errorCode" (str "INTERNAL_ERROR")
    conceals result "errorMsg" "tb_follow"
    conceals result "errorMsg" "SQL"

  abbrev audience : String → String → Exec (Unit {0})
  audience token relations_before = do
    first ← publish token "synthetic follower port audience"
    gives
        (sql (
          "SELECT GROUP_CONCAT(recipient_user_id ORDER BY recipient_user_id) FROM tb_blog_feed_delivery WHERE blog_id="
          <> show_ℤ first
          <> ";"))
        (joined (map show recipients))
    gives
        (sql (
          "SELECT COUNT(DISTINCT score_millis) FROM tb_blog_feed_delivery WHERE blog_id="
          <> show_ℤ first
          <> ";"))
        "1"
    gives (redis ("GET" ∷ follows_key ∷ [])) "synthetic-unread-projection"
    gives (sql relation_sql) relations_before
    check
        "follower port publication: SQL audience only, author isolation, retained missing/disabled followers, unread Redis follows and original per-post score"

  abbrev sql_failure : String → String → Exec (Unit {0})
  sql_failure token relations_before = do
    table_renamed "tb_follow" "phase7v_owned_follower_fault"
        (publish_fails token "synthetic follower port rollback")
    gives
        (sql (
          "SELECT COUNT(*) FROM tb_blog WHERE user_id="
          <> show author
          <> " AND title='synthetic follower port rollback';"))
        "0"
    gives
        (sql (
          "SELECT COUNT(*) FROM tb_blog_feed_delivery WHERE recipient_user_id IN ("
          <> joined (map show recipients)
          <> ");"))
        "3"
    gives (sql relation_sql) relations_before
    second ← publish token "synthetic follower port recovered"
    gives
        (sql ("SELECT COUNT(*) FROM tb_blog_feed_delivery WHERE blog_id=" <> show_ℤ second <> ";"))
        "3"
    check
        "follower port SQL failure: generic HTTP 500 rolls back the new post without orphan intent; restored adapter publishes again"

  unfoldable pub verify_follower_reader_publication : Exec (Unit {0})
  verify_follower_reader_publication = do
    before ← prepare
    finally (audience before.0 before.1 >> sql_failure before.0 before.1)
        (do_redis ("DEL" ∷ follows_key ∷ map (λ recipient. "feed:" <> show recipient) recipients))
