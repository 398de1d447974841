-- ===== src/Harness/Scenario/UserProfile.antt =====
-- `verify_user_profile_module` of scripts/verify-compose.py, in its two parts.
use campus_hub.Prelude.{
  ℕ, String, ◌<>◌, true, false, [], ◌∷◌, Option, none, some, ◌==◌, nat_eq, string_eq, if◌then◌else◌,
}
use campus_hub.Py.{Json, bool, num, str, nat, show}
use campus_hub.Harness.Exec.{Exec, ◌>>=◌, ◌>>◌, pure}
use campus_hub.Harness.Compose.{sql, request_with, request, check}
use campus_hub.Harness.Script.{
  uuid4, each, gives, do_sql, authorized, padded, given, column_renamed, table_renamed, signed_in,
}
use campus_hub.Harness.Answers.{
  answer, refused, states, says, is_same, object, at, is_int, is_boolean, conceals,
}

abbrev target : ℕ
target = 9007199254744993

abbrev orphan : ℕ
orphan = 9007199254744995

abbrev missing : ℕ
missing = 9007199254744997

abbrev user : ℕ
user = 999101

abbrev user_rows : String
user_rows =
    "SELECT * FROM tb_user WHERE id IN (999101,999102,999103," <> show target <> ") ORDER BY id;"

abbrev info_rows : String
info_rows =
    "SELECT * FROM tb_user_info WHERE user_id IN ("
    <> show target
    <> ","
    <> show orphan
    <> ") ORDER BY user_id;"

-- The account with an index, and the token of its session.
abbrev enter : ℕ → ℕ → Option String → String → Exec String
enter number actor role state = do
  do_sql (
      "INSERT INTO tb_user(id,phone,nick_name,icon,status) VALUES("
      <> show actor
      <> ",'000000"
      <> padded 5 number
      <> "','sql-name','sql.svg','"
      <> state
      <> "');")
  given role (λ name.
      do_sql
        ("INSERT INTO tb_user_role(user_id,role) VALUES(" <> show actor <> ",'" <> name <> "');"))
  signed_in "synthetic-user-profile-" actor
      ("nickName" ∷ "session-name" ∷ "icon" ∷ "session.svg" ∷ [])

abbrev insert_info : ℕ → Exec (Unit {0})
insert_info user_id = do_sql (
    "INSERT INTO tb_user_info(user_id,city,introduce,fans,followee,gender,birthday,credits,level) VALUES("
    <> show user_id
    <> ",'Xuancheng','Hello',3,2,0,'2001-02-03',10,1);")

abbrev details : Json
details = object (
    ("userId", num (nat target))
    ∷ ("city", str "Xuancheng")
    ∷ ("introduce", str "Hello")
    ∷ ("fans", num (nat 3))
    ∷ ("followee", num (nat 2))
    ∷ ("gender", bool false)
    ∷ ("birthday", str "2001-02-03")
    ∷ ("credits", num (nat 10))
    ∷ ("level", bool true)
    ∷ [])

pub record Before : Type 0 where
  pub token : String
  pub users : String
  pub infos : String

module _ (base : String) where
  abbrev query : String → String → ℕ → Exec Json
  query token route expected = do
    result ← answer (request_with base route expected "GET" none (authorized token))
    if expected == 200 then says result "success" true else pure tt
    pure result

  abbrev reads : ℕ × String → Exec (Unit {0})
  reads (actor, token) = do
    own ← query token ("/user/me?userId=" <> show target) 200
    states own "data" (
        object (
          ("id", num (nat actor))
          ∷ ("nickName", str "session-name")
          ∷ ("icon", str "session.svg")
          ∷ []))
    found ← query token ("/user/" <> show target) 200
    item ← at found "data"
    is_same item (
        object (
          ("id", num (nat target))
          ∷ ("nickName", str "target-name")
          ∷ ("icon", str "target.svg")
          ∷ []))
    id ← at item "id"
    is_int id
    answered ← query token ("/user/info/" <> show target) 200
    info ← at answered "data"
    is_same info details
    user_id ← at info "userId"
    is_int user_id
    gender ← at info "gender"
    is_boolean gender
    level ← at info "level"
    is_boolean level

  abbrev has_no : String → String → Exec (Unit {0})
  has_no token prefix = do
    absent ← query token (prefix <> show missing) 200
    is_same absent (object (("success", bool true) ∷ []))
    each ("0" ∷ "-1" ∷ "9223372036854775808" ∷ "bad" ∷ [])
        (λ invalid. do _ ← query token (prefix <> invalid) 400; pure tt)

  -- The two tokens are those of the disabled account and of the one without a role.
  abbrev closed : String → String → String → Exec (Unit {0})
  closed disabled roleless route = do
    refused (request base route 401)
    identifier ← uuid4
    refused (
        request_with base route 401 "GET" none
          (authorized ("synthetic-expired-profile-" <> identifier)))
    each (disabled ∷ roleless ∷ []) (λ token. do
      result ← query token route 401
      states result "errorCode" (str "AUTHENTICATION_FAILED"))

  abbrev compatibility : Exec Before
  compatibility = do
    user_token ← enter 8100 user (some "USER") "ACTIVE"
    merchant_token ← enter 8101 999102 (some "MERCHANT") "ACTIVE"
    admin_token ← enter 8102 999103 (some "ADMIN") "ACTIVE"
    disabled_token ← enter 8103 999104 (some "USER") "DISABLED"
    roleless_token ← enter 8104 999105 none "ACTIVE"
    do_sql (
        "INSERT INTO tb_user(id,phone,password,nick_name,icon,status) VALUES("
        <> show target
        <> ",'00000008110','synthetic-private-user-password','target-name','target.svg','DISABLED');")
    each (target ∷ orphan ∷ []) insert_info
    before_users ← sql user_rows
    before_infos ← sql info_rows
    each ((user, user_token) ∷ (999102, merchant_token) ∷ (999103, admin_token) ∷ []) reads
    each ("/user/" ∷ "/user/info/" ∷ []) (has_no user_token)
    lost ← query user_token ("/user/" <> show orphan) 200
    is_same lost (object (("success", bool true) ∷ []))
    kept ← query user_token ("/user/info/" <> show orphan) 200
    info ← at kept "data"
    states info "userId" (num (nat orphan))
    each ("/user/me" ∷ ("/user/" <> show target) ∷ ("/user/info/" <> show target) ∷ [])
        (closed disabled_token roleless_token)
    gives (sql user_rows) before_users
    gives (sql info_rows) before_infos
    check
        "identity profile: three roles, session-only me vs SQL target, numeric IDs and exact DTO/LocalDate/boolean fields, disabled target/orphan compatibility, missing success, input and authentication boundaries"
    pure (record { token = user_token; users = before_users; infos = before_infos })

  abbrev has_field : String → String → String → Json → Exec (Unit {0})
  has_field token route key expected = do
    result ← query token route 200
    item ← at result "data"
    states item key expected

  abbrev sql_faults : Before → Exec (Unit {0})
  sql_faults before = do
    column_renamed "tb_user" "phone" "phase7x_owned_phone_fault" (do
      failure ← query before.token ("/user/" <> show target) 500
      states failure "errorCode" (str "INTERNAL_ERROR")
      conceals failure "errorMsg" "phone"
      has_field before.token ("/user/info/" <> show target) "userId" (num (nat target))
      table_renamed "tb_user_info" "phase7x_owned_info_fault" (do
        broken_info ← query before.token ("/user/info/" <> show target) 500
        states broken_info "errorCode" (str "INTERNAL_ERROR")
        has_field before.token "/user/me" "nickName" (str "session-name")))
    gives (sql user_rows) before.users
    gives (sql info_rows) before.infos
    has_field before.token ("/user/" <> show target) "id" (num (nat target))
    has_field before.token ("/user/info/" <> show target) "userId" (num (nat target))
    check
        "identity profile: independent SQL fault propagation and restored schemas, session me needs neither profile query, no writes or hidden join added"

  unfoldable pub verify_user_profile_module : Exec (Unit {0})
  verify_user_profile_module = do before ← compatibility; sql_faults before
