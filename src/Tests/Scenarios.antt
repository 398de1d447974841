-- ===== src/Tests/Scenarios.antt =====
-- The scenarios at a stack that answers.
use campus_hub.Prelude.{
  ◌++◌, some, none, true, string_eq, list_eq, nat_eq, String, List, [], ◌∷◌, ◌≡◌, refl, false,
}
use campus_hub.Harness.Rights.{command, every_key, schema, denied}
use campus_hub.Harness.Scenario.GivesBack.{
  denied-verify_login_attempt_store, denied-verify_session_authentication,
  denied-verify_login_session_issuer, denied-verify_login_account_repository,
  denied-verify_login_code_module, denied-verify_session_logout_module, denied-social_scenarios,
}
use campus_hub.Harness.Own.{Confined, processes}
use campus_hub.Harness.Scenario.Confinement.{scenarios-Confined}
use campus_hub.Py.{has_prefix, has_infix}
use campus_hub.Harness.World.{Command, Event, spawned}
use campus_hub.Harness.Compose.{redis_args, sql_args, run_command}
use campus_hub.Harness.Compose.Cleanup.{after_run}
use campus_hub.Harness.Compose.Outcome.{judged, run_command-outcome}
use campus_hub.Harness.Script.{acl}
use campus_hub.Harness.Rights.{after_tokens, tokens_of, starts, drop, after_statement}
use campus_hub.Harness.Rights.Schema.{undoes, undo, is_fault, words_from}
use campus_hub.Tests.Harness.{world, start, base}
use campus_hub.Harness.Scenario.LoginAttempts.{verify_login_attempt_store}
use campus_hub.Harness.Scenario.SessionAuthentication.{verify_session_authentication}
use campus_hub.Harness.Scenario.SessionIssuer.{verify_login_session_issuer}
use campus_hub.Harness.Scenario.LoginAccounts.{verify_login_account_repository}
use campus_hub.Harness.Scenario.LoginCode.{verify_login_code_module}
use campus_hub.Harness.Scenario.Logout.{verify_session_logout_module}
use campus_hub.Harness.Scenario.BlogReader.{verify_blog_user_reader}
use campus_hub.Harness.Scenario.UserProfile.{verify_user_profile_module}
use campus_hub.Harness.Scenario.VoucherQuery.{verify_voucher_query_module}
use campus_hub.Harness.Scenario.FollowerPublication.{verify_follower_reader_publication}
use campus_hub.Harness.Scenario.FollowCommand.{verify_follow_command_module}
use campus_hub.Harness.Scenario.ShopType.{verify_shop_type_module}
use campus_hub.Harness.Scenario.CheckIn.{verify_check_in_module}
use campus_hub.Harness.Scenario.FollowQuery.{verify_follow_query_module}

abbrev tokens : List String
tokens = "synthetic-phase5-user" ∷ "synthetic-phase5-admin" ∷ []

denied-verify_login_attempt_store_example :
    denied (command "incr") world (verify_login_attempt_store base world start).1.history ≡ false
unfolding denied
denied-verify_login_attempt_store_example =
    denied-verify_login_attempt_store base (command "incr") world start refl

denied-verify_session_authentication_example :
    denied (command "pexpire") world (verify_session_authentication base world start).1.history
    ≡ false
unfolding denied
denied-verify_session_authentication_example =
    denied-verify_session_authentication base (command "pexpire") world start refl

denied-verify_login_session_issuer_example :
    denied (command "hset") world (verify_login_session_issuer base world start).1.history ≡ false
unfolding denied
denied-verify_login_session_issuer_example =
    denied-verify_login_session_issuer base (command "hset") world start refl

denied-verify_login_account_repository_example :
    denied
      (schema "ALTER TABLE tb_user RENAME COLUMN phone TO phase7ac_owned_phone_fault;")
      world
      (verify_login_account_repository base world start).1.history
    ≡ false
unfolding denied
denied-verify_login_account_repository_example =
    denied-verify_login_account_repository base
      (schema "ALTER TABLE tb_user RENAME COLUMN phone TO phase7ac_owned_phone_fault;") world start
      refl

denied-verify_login_code_module_example :
    denied every_key world (verify_login_code_module base world start).1.history ≡ false
unfolding denied
denied-verify_login_code_module_example =
    denied-verify_login_code_module base every_key world start refl

denied-verify_session_logout_module_example :
    denied (command "del") world (verify_session_logout_module base world start).1.history ≡ false
unfolding denied
denied-verify_session_logout_module_example =
    denied-verify_session_logout_module base (command "del") world start refl

denied-social_scenarios_example :
    (denied
        (schema "RENAME TABLE tb_follow TO phase7u_owned_follow_fault;")
        world
        (verify_blog_user_reader base world start).1.history
      ≡ false)
    × (denied
          (schema "RENAME TABLE tb_follow TO phase7u_owned_follow_fault;")
          world
          (verify_user_profile_module base world start).1.history
        ≡ false)
    × (denied
          (schema "RENAME TABLE tb_follow TO phase7u_owned_follow_fault;")
          world
          (verify_voucher_query_module base world start).1.history
        ≡ false)
    × (denied
          (schema "RENAME TABLE tb_follow TO phase7u_owned_follow_fault;")
          world
          (verify_follower_reader_publication base world start).1.history
        ≡ false)
    × (denied
          (schema "RENAME TABLE tb_follow TO phase7u_owned_follow_fault;")
          world
          (verify_follow_command_module base world start).1.history
        ≡ false)
    × (denied
          (schema "RENAME TABLE tb_follow TO phase7u_owned_follow_fault;")
          world
          (verify_follow_query_module base world start).1.history
        ≡ false)
    × (denied
          (schema "RENAME TABLE tb_follow TO phase7u_owned_follow_fault;")
          world
          (verify_shop_type_module base tokens world start).1.history
        ≡ false)
    × (denied
          (schema "RENAME TABLE tb_follow TO phase7u_owned_follow_fault;")
          world
          (verify_check_in_module base world start).1.history
        ≡ false)
unfolding denied
denied-social_scenarios_example =
    denied-social_scenarios base (schema "RENAME TABLE tb_follow TO phase7u_owned_follow_fault;")
      world start refl tokens

scenarios-Confined_example :
    Confined base world (verify_login_attempt_store base world start).1
    × Confined base world (verify_session_authentication base world start).1
    × Confined base world (verify_login_session_issuer base world start).1
    × Confined base world (verify_login_account_repository base world start).1
    × Confined base world (verify_login_code_module base world start).1
    × Confined base world (verify_session_logout_module base world start).1
    × Confined base world (verify_blog_user_reader base world start).1
    × Confined base world (verify_user_profile_module base world start).1
    × Confined base world (verify_voucher_query_module base world start).1
    × Confined base world (verify_follower_reader_publication base world start).1
    × Confined base world (verify_follow_command_module base world start).1
    × Confined base world (verify_follow_query_module base world start).1
    × Confined base world (verify_shop_type_module base tokens world start).1
    × Confined base world (verify_check_in_module base world start).1
unfolding processes
scenarios-Confined_example = scenarios-Confined base tokens world start (tt, refl)

-- To take a right, and to give it back.
abbrev redis_command : List String → Event
redis_command tokens =
    spawned
      (record { args = world.compose ++ redis_args (acl tokens); input = none; timeout = 120 })

abbrev sql_command : String → Event
sql_command statement =
    spawned (record { args = world.compose ++ sql_args; input = some statement; timeout = 120 })

takes_command : denied (command "incr") world (redis_command ("-incr" ∷ []) ∷ []) ≡ true
unfolding denied after_tokens tokens_of starts drop after_statement string_eq list_eq nat_eq
takes_command = refl

takes_no_other : denied (command "incr") world (redis_command ("-incrby" ∷ []) ∷ []) ≡ false
unfolding denied after_tokens tokens_of starts drop after_statement string_eq list_eq nat_eq
takes_no_other = refl

gives_command :
    denied (command "incr") world (redis_command ("+incr" ∷ []) ∷ redis_command ("-incr" ∷ []) ∷ [])
    ≡ false
unfolding denied after_tokens tokens_of starts drop after_statement string_eq list_eq nat_eq
gives_command = refl

takes_keys :
    denied every_key world (redis_command ("resetkeys" ∷ "~login:code:cooldown:*" ∷ []) ∷ []) ≡ true
unfolding denied after_tokens tokens_of starts drop after_statement string_eq list_eq nat_eq
takes_keys = refl

abbrev table_fault : String
table_fault = "RENAME TABLE tb_follow TO phase7u_owned_follow_fault;"

takes_table : denied (schema table_fault) world (sql_command table_fault ∷ []) ≡ true
unfolding denied after_tokens tokens_of starts drop after_statement undoes undo is_fault words_from
    has_prefix has_infix string_eq list_eq nat_eq
takes_table = refl

gives_table :
    denied (schema table_fault) world (
      sql_command "RENAME TABLE phase7u_owned_follow_fault TO tb_follow;"
      ∷ sql_command table_fault
      ∷ [])
    ≡ false
unfolding denied after_tokens tokens_of starts drop after_statement undoes undo is_fault words_from
    has_prefix has_infix string_eq list_eq nat_eq
gives_table = refl

abbrev bootstrap : Command
bootstrap = record {
  args =
      world.compose
      ++ ("exec" ∷ "-T" ∷ "mysql" ∷ "sh" ∷ "/docker-entrypoint-initdb.d/00-bootstrap.sh" ∷ []);
  input = none;
  timeout = 120;
}

run_command-outcome_example :
    run_command true bootstrap world start
    ≡ (judged true world 1 (world.spawn [] bootstrap), after_run start bootstrap)
run_command-outcome_example = run_command-outcome true bootstrap world start
