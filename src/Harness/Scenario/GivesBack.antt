-- ===== src/Harness/Scenario/GivesBack.antt =====
-- No scenario leaves a fault behind that it made: whether it returns or raises, it undoes what it
-- denied to the application in Redis, and what it renamed or added in the schema.
use campus_hub.Prelude.{List, String, ◌≡◌, false}
use campus_hub.Harness.World.{World}
use campus_hub.Harness.Exec.{State}
use campus_hub.Harness.Rights.{Right, denied}
use campus_hub.Harness.Scenario.Restores.{
  login_attempts, session_authentication, session_issuer, login_accounts, login_code,
  session_logout, blog_user_reader, user_profile, voucher_query, follower_publication, shop_type,
  check_in, follow_command, follow_query,
}
use campus_hub.Harness.Scenario.LoginAttempts.{verify_login_attempt_store}
use campus_hub.Harness.Scenario.SessionAuthentication.{verify_session_authentication}
use campus_hub.Harness.Scenario.SessionIssuer.{verify_login_session_issuer}
use campus_hub.Harness.Scenario.LoginAccounts.{verify_login_account_repository}
use campus_hub.Harness.Scenario.LoginCode.{verify_login_code_module}
use campus_hub.Harness.Scenario.Logout.{verify_session_logout_module}
use campus_hub.Harness.Scenario.BlogReader.{verify_blog_user_reader}
use campus_hub.Harness.Scenario.UserProfile.{verify_user_profile_module}
use campus_hub.Harness.Scenario.VoucherQuery.{verify_voucher_query_module}
use campus_hub.Harness.Scenario.FollowerPublication.{verify_follower_reader_publication}
use campus_hub.Harness.Scenario.FollowCommand.{verify_follow_command_module}
use campus_hub.Harness.Scenario.ShopType.{verify_shop_type_module}
use campus_hub.Harness.Scenario.CheckIn.{verify_check_in_module}
use campus_hub.Harness.Scenario.FollowQuery.{verify_follow_query_module}

module _ (base : String) (r : Right) (w : World) (s : State)
    (free : denied r w s.history ≡ false) where
  -- Whatever the processes and the application answer, the scenario of the login attempts ends, by
  -- returning or by raising, with nothing denied that was not denied when it began: no command and no
  -- keys of Redis, no name in the schema. A denial ends when the command that undoes it was run,
  -- also if that command failed.
  pub denied-verify_login_attempt_store :
      denied r w (verify_login_attempt_store base w s).1.history ≡ false
  denied-verify_login_attempt_store = (login_attempts base r).at w s free

  -- Whatever the processes and the application answer, the scenario of the session authentication ends, by
  -- returning or by raising, with nothing denied that was not denied when it began: no command and no
  -- keys of Redis, no name in the schema. A denial ends when the command that undoes it was run,
  -- also if that command failed.
  pub denied-verify_session_authentication :
      denied r w (verify_session_authentication base w s).1.history ≡ false
  denied-verify_session_authentication = (session_authentication base r).at w s free

  -- Whatever the processes and the application answer, the scenario of the issuing of sessions ends, by
  -- returning or by raising, with nothing denied that was not denied when it began: no command and no
  -- keys of Redis, no name in the schema. A denial ends when the command that undoes it was run,
  -- also if that command failed.
  pub denied-verify_login_session_issuer :
      denied r w (verify_login_session_issuer base w s).1.history ≡ false
  denied-verify_login_session_issuer = (session_issuer base r).at w s free

  -- Whatever the processes and the application answer, the scenario of the accounts of logins ends, by
  -- returning or by raising, with nothing denied that was not denied when it began: no command and no
  -- keys of Redis, no name in the schema. A denial ends when the command that undoes it was run,
  -- also if that command failed.
  pub denied-verify_login_account_repository :
      denied r w (verify_login_account_repository base w s).1.history ≡ false
  denied-verify_login_account_repository = (login_accounts base r).at w s free

  -- Whatever the processes and the application answer, the scenario of the login codes ends, by
  -- returning or by raising, with nothing denied that was not denied when it began: no command and no
  -- keys of Redis, no name in the schema. A denial ends when the command that undoes it was run,
  -- also if that command failed.
  pub denied-verify_login_code_module :
      denied r w (verify_login_code_module base w s).1.history ≡ false
  denied-verify_login_code_module = (login_code base r).at w s free

  -- Whatever the processes and the application answer, the scenario of the logout ends, by
  -- returning or by raising, with nothing denied that was not denied when it began: no command and no
  -- keys of Redis, no name in the schema. A denial ends when the command that undoes it was run,
  -- also if that command failed.
  pub denied-verify_session_logout_module :
      denied r w (verify_session_logout_module base w s).1.history ≡ false
  denied-verify_session_logout_module = (session_logout base r).at w s free

  -- The scenarios of posts, profiles, vouchers, publication, follows, categories and check-ins each end,
  -- by returning or by raising, with nothing denied that was not denied when it began: no command and
  -- no keys of Redis, no name in the schema, whatever the processes and the application answer. A
  -- denial ends when the command that undoes it was run, also if that command failed.
  pub denied-social_scenarios :
      (tokens : List String)
      → (denied r w (verify_blog_user_reader base w s).1.history ≡ false)
        × (denied r w (verify_user_profile_module base w s).1.history ≡ false)
        × (denied r w (verify_voucher_query_module base w s).1.history ≡ false)
        × (denied r w (verify_follower_reader_publication base w s).1.history ≡ false)
        × (denied r w (verify_follow_command_module base w s).1.history ≡ false)
        × (denied r w (verify_follow_query_module base w s).1.history ≡ false)
        × (denied r w (verify_shop_type_module base tokens w s).1.history ≡ false)
        × (denied r w (verify_check_in_module base w s).1.history ≡ false)
  denied-social_scenarios tokens = (
    (blog_user_reader base r).at w s free,
    (user_profile base r).at w s free,
    (voucher_query base r).at w s free,
    (follower_publication base r).at w s free,
    (follow_command base r).at w s free,
    (follow_query base r).at w s free,
    (shop_type base r tokens).at w s free,
    (check_in base r).at w s free,
  )
