-- ===== src/Harness/Scenario/LoginAccounts.antt =====
-- `verify_login_account_repository` of scripts/verify-compose.py, in its three parts.
use campus_hub.Prelude.{
  ℕ, ◌+◌, ◌-◌, ◌*◌, String, ◌<>◌, Bool, true, false, ◌&&◌, ◌||◌, List, [], ◌∷◌, ◌++◌, Option, none,
  some, ◌==◌, nat_eq, string_eq, pair_eq, leb, same_set, length, all, map,
}
use campus_hub.Py.{int, Json, num, str, nat, pos, show, codes, after, is_digit}
use campus_hub.FlashSale.Evidence.{split_lines}
use campus_hub.Harness.Exec.{Exec, ◌>>=◌, ◌>>◌, pure, assert}
use campus_hub.Harness.Compose.{redis, sql, request_with, parse, check}
use campus_hub.Harness.Script.{
  dumps, each, gives, gives_or, above, integer, do_redis, do_sql, authorized, show_ℤ, quoted,
  paired, broken, column_renamed, given,
}
use campus_hub.Harness.Answers.{
  content, answer, refused, states, says, is_same, object, at, full_text, text_of, internal_error,
}

abbrev first_id : ℕ
first_id = 9007199254747993

pub record Fixture : Type 0 where
  pub user_id : ℕ
  pub phone : String
  pub role : Option String
  pub status : String

abbrev user : Fixture
user = record { user_id = first_id; phone = "13800992801"; role = some "USER"; status = "ACTIVE" }

abbrev merchant : Fixture
merchant = record {
  user_id = first_id + 2;
  phone = "13800992802";
  role = some "MERCHANT";
  status = "ACTIVE";
}

abbrev admin : Fixture
admin = record {
  user_id = first_id + 4;
  phone = "13800992803";
  role = some "ADMIN";
  status = "ACTIVE";
}

abbrev disabled : Fixture
disabled = record {
  user_id = first_id + 6;
  phone = "13800992804";
  role = some "USER";
  status = "DISABLED";
}

abbrev roleless : Fixture
roleless = record { user_id = first_id + 8; phone = "13800992805"; role = none; status = "ACTIVE" }

abbrev fixtures : List Fixture
fixtures = user ∷ merchant ∷ admin ∷ disabled ∷ roleless ∷ []

abbrev new_phone : String
new_phone = "13800992806"

abbrev phones : List String
phones = map (λ (f : Fixture). f.phone) fixtures ++ (new_phone ∷ [])

abbrev rows_sql : String
rows_sql =
    "SELECT * FROM tb_user WHERE id BETWEEN "
    <> show first_id
    <> " AND "
    <> show (first_id + 8)
    <> " ORDER BY id;"

abbrev code : String
code = "135790"

abbrev roles_sql : String
roles_sql = "SELECT user_id,role FROM tb_user_role ORDER BY user_id,role;"

abbrev trigger_sql : String
trigger_sql =
    "DELIMITER $$\nCREATE TRIGGER phase7ac_owned_role_failure BEFORE INSERT ON tb_user_role FOR EACH ROW BEGIN "
    <> "IF EXISTS (SELECT 1 FROM tb_user WHERE id=NEW.user_id AND phone='" <> new_phone
    <> "') THEN " <> "SIGNAL SQLSTATE '45000' SET MESSAGE_TEXT='synthetic role insert fault'; "
    <> "END IF; END$$\nDELIMITER ;\n"

-- `user_[A-Za-z0-9]{10}`
abbrev is_nick_name : String → Bool
is_nick_name text = is_rest (after (codes "user_") (codes text))
  where
    is_rest : Option (List ℕ) → Bool
    is_rest none = false
    is_rest (some cs) =
        length cs == 10
        && all (λ c. is_digit c || leb b'A' c && leb c b'Z' || leb b'a' c && leb c b'z') cs

abbrev insert : Fixture → Exec (Unit {0})
insert f = do
  do_sql (
      "INSERT INTO tb_user(id,phone,password,nick_name,icon,status) VALUES("
      <> show f.user_id
      <> ",'"
      <> f.phone
      <> "','synthetic-only','sql-login-profile','profile.svg','"
      <> f.status
      <> "');")
  given f.role (λ role.
      do_sql (
        "INSERT INTO tb_user_role(user_id,role) VALUES("
        <> show f.user_id
        <> ",'"
        <> role
        <> "');"))

module _ (base : String) where
  abbrev seed_and_login : String → ℕ → Exec Json
  seed_and_login phone expected = do
    do_redis ("SET" ∷ ("login:code:" <> phone) ∷ code ∷ "EX" ∷ "120" ∷ [])
    payload ← dumps (object (("phone", str phone) ∷ ("code", str code) ∷ []))
    body ← content (
        request_with base "/user/login" expected "POST" (some payload)
          (("Content-Type", "application/json") ∷ []))
    gives_or (redis ("EXISTS" ∷ ("login:code:" <> phone) ∷ [])) "0"
        "original code consumption precedes account SQL/status"
    parse body

  abbrev accepted : Fixture → Exec (Unit {0})
  accepted f = do
    result ← seed_and_login f.phone 200
    says result "success" true
    presented ← at result "data"
    token ← full_text presented
    raw ← redis ("HGETALL" ∷ ("login:token:" <> token) ∷ [])
    assert
        (same_set (paired (split_lines raw)) (
          ("id", show f.user_id)
          ∷ ("nickName", "sql-login-profile")
          ∷ ("icon", "profile.svg")
          ∷ []))
        ""
    above (redis ("TTL" ∷ ("login:token:" <> token) ∷ [])) (pos (36000 * 60 - 60))
    me ← answer (request_with base "/user/me" 200 "GET" none (authorized token))
    profile ← at me "data"
    states profile "id" (num (nat f.user_id))
    gives (sql ("SELECT COUNT(*) FROM tb_user WHERE phone='" <> f.phone <> "';")) "1"

  abbrev accounts : Exec String
  accounts = do
    gives (sql ("SELECT COUNT(*) FROM tb_user WHERE phone IN (" <> quoted phones <> ");")) "0"
    each fixtures insert
    before ← sql rows_sql
    each (user ∷ merchant ∷ admin ∷ []) accepted
    refusal ← seed_and_login disabled.phone 401
    states refusal "errorCode" (str "AUTHENTICATION_FAILED")
    states refusal "errorMsg" (str "账号不可用")
    admitted ← seed_and_login roleless.phone 200
    says admitted "success" true
    presented ← at admitted "data"
    token ← text_of presented
    refused (request_with base "/user/me" 401 "GET" none (authorized token))
    gives (redis ("EXISTS" ∷ ("login:token:" <> token) ∷ [])) "0"
    gives (sql rows_sql) before
    check
        "identity login accounts: original phone lookup and session whitelist, large IDs/three roles, disabled code consumption, roleless login versus later auth rejection, no changes to existing account rows"
    pure before

  abbrev sql_fault : String → Exec (Unit {0})
  sql_fault before = do
    column_renamed "tb_user" "phone" "phase7ac_owned_phone_fault"
        (do failure ← seed_and_login user.phone 500; is_same failure internal_error)
    gives (sql rows_sql) before
    result ← seed_and_login user.phone 200
    says result "success" true
    check
        "identity login account SQL fault: code consumed before failed lookup, generic 500, schema restored and original existing account can log in again without mutation"

  abbrev registration : String → Exec (Unit {0})
  registration before = do
    roles_before ← sql roles_sql
    broken trigger_sql "DROP TRIGGER IF EXISTS phase7ac_owned_role_failure;" (do
      failure ← seed_and_login new_phone 500
      is_same failure internal_error
      gives (sql ("SELECT COUNT(*) FROM tb_user WHERE phone='" <> new_phone <> "';")) "0"
      gives (sql roles_sql) roles_before)
    result ← seed_and_login new_phone 200
    says result "success" true
    presented ← at result "data"
    token ← text_of presented
    actor ← integer (redis ("HGET" ∷ ("login:token:" <> token) ∷ "id" ∷ []))
    gives
        (sql (
          "SELECT status FROM tb_user WHERE id="
          <> show_ℤ actor
          <> " AND phone='"
          <> new_phone
          <> "';"))
        "ACTIVE"
    gives (sql ("SELECT role FROM tb_user_role WHERE user_id=" <> show_ℤ actor <> ";")) "USER"
    nick_name ← sql ("SELECT nick_name FROM tb_user WHERE id=" <> show_ℤ actor <> ";")
    assert (is_nick_name nick_name) ""
    gives (sql rows_sql) before
    me ← answer (request_with base "/user/me" 200 "GET" none (authorized token))
    profile ← at me "data"
    states profile "id" (num (int actor))
    check
        "identity account registration: real role INSERT failure rolls back user and role in original login transaction, Redis code remains consumed, restored retry creates one ACTIVE account with default USER role"

  unfoldable pub verify_login_account_repository : Exec (Unit {0})
  verify_login_account_repository = do before ← accounts; sql_fault before; registration before
