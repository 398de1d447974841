-- ===== src/Harness/Scenario/Confinement.antt =====
-- Each scenario reaches only what it may.
use campus_hub.Prelude.{String, List, [], ◌∷◌}
use campus_hub.Py.{Json}
use campus_hub.Harness.World.{World}
use campus_hub.Harness.Exec.{State}
use campus_hub.Harness.Keeps.{Keeps, Keeps-raise}
use campus_hub.Harness.Own.{Confined}
use campus_hub.Harness.Own.Rules.{confined_rules}
use campus_hub.Harness.Scenario.LoginAttempts.{verify_login_attempt_store}
use campus_hub.Harness.Scenario.SessionAuthentication.{verify_session_authentication}
use campus_hub.Harness.Scenario.SessionIssuer.{verify_login_session_issuer}
use campus_hub.Harness.Scenario.LoginAccounts.{verify_login_account_repository}
use campus_hub.Harness.Scenario.LoginCode.{verify_login_code_module}
use campus_hub.Harness.Scenario.Logout.{verify_session_logout_module}
use campus_hub.Harness.Scenario.BlogReader.{verify_blog_user_reader}
use campus_hub.Harness.Scenario.UserProfile.{verify_user_profile_module}
use campus_hub.Harness.Scenario.VoucherQuery.{verify_voucher_query_module}
use campus_hub.Harness.Scenario.FollowerPublication.{verify_follower_reader_publication}
use campus_hub.Harness.Scenario.FollowCommand.{verify_follow_command_module}
use campus_hub.Harness.Scenario.FollowQuery.{
  verify_follow_query_module, truth_and_projection, Tokens,
}
use campus_hub.Harness.Scenario.ShopType.{verify_shop_type_module, in_order}
use campus_hub.Harness.Scenario.CheckIn.{verify_check_in_module}

module _ (base : String) where
  login_attempts : Keeps (Confined base) (verify_login_attempt_store base)
  unfolding verify_login_attempt_store
  login_attempts = search confined_rules depth 100 fits 5000 parts 0

  session_authentication : Keeps (Confined base) (verify_session_authentication base)
  unfolding verify_session_authentication
  session_authentication = search confined_rules depth 100 fits 5000 parts 0

  session_issuer : Keeps (Confined base) (verify_login_session_issuer base)
  unfolding verify_login_session_issuer
  session_issuer = search confined_rules depth 100 fits 5000 parts 0

  login_accounts : Keeps (Confined base) (verify_login_account_repository base)
  unfolding verify_login_account_repository
  login_accounts = search confined_rules depth 100 fits 5000 parts 0

  login_code : Keeps (Confined base) (verify_login_code_module base)
  unfolding verify_login_code_module
  login_code = search confined_rules depth 100 fits 5000 parts 0

  logout : Keeps (Confined base) (verify_session_logout_module base)
  unfolding verify_session_logout_module
  logout = search confined_rules depth 100 fits 5000 parts 0

  blog_reader : Keeps (Confined base) (verify_blog_user_reader base)
  unfolding verify_blog_user_reader
  blog_reader = search confined_rules depth 100 fits 5000 parts 0

  user_profile : Keeps (Confined base) (verify_user_profile_module base)
  unfolding verify_user_profile_module
  user_profile = search confined_rules depth 100 fits 5000 parts 0

  voucher_query : Keeps (Confined base) (verify_voucher_query_module base)
  unfolding verify_voucher_query_module
  voucher_query = search confined_rules depth 100 fits 5000 parts 0

  follower_publication : Keeps (Confined base) (verify_follower_reader_publication base)
  unfolding verify_follower_reader_publication
  follower_publication = search confined_rules depth 100 fits 5000 parts 0

  follow_command : Keeps (Confined base) (verify_follow_command_module base)
  unfolding verify_follow_command_module
  follow_command = search confined_rules depth 100 fits 5000 parts 0

  truth_and_projection-Confined :
      (tokens : Tokens) → Keeps (Confined base) (truth_and_projection base tokens)
  unfolding truth_and_projection
  truth_and_projection-Confined tokens = search confined_rules depth 100 fits 5000 parts 0

  follow_query : Keeps (Confined base) (verify_follow_query_module base)
  unfolding verify_follow_query_module
  follow_query = search (confined_rules, truth_and_projection-Confined) depth 100 fits 5000 parts 0

  in_order-Confined : (own : List Json) → Keeps (Confined base) (in_order own)
  in_order-Confined (a ∷ b ∷ c ∷ d ∷ []) = search confined_rules depth 100 fits 5000 parts 0
  in_order-Confined _ = Keeps-raise _

  shop_type : (tokens : List String) → Keeps (Confined base) (verify_shop_type_module base tokens)
  unfolding verify_shop_type_module
  shop_type tokens = search (confined_rules, in_order-Confined) depth 100 fits 5000 parts 0

  check_in : Keeps (Confined base) (verify_check_in_module base)
  unfolding verify_check_in_module
  check_in = search confined_rules depth 100 fits 5000 parts 0

  -- If a run has started processes of its own compose project only, has asked the application at
  -- `base` only, and has counted each process, then so it is after every one of the scenarios, however
  -- it ends: none of them starts another process, asks another address, waits or writes a file.
  pub scenarios-Confined :
      (tokens : List String) (w : World) (s : State)
      → Confined base w s
      → Confined base w (verify_login_attempt_store base w s).1
        × Confined base w (verify_session_authentication base w s).1
        × Confined base w (verify_login_session_issuer base w s).1
        × Confined base w (verify_login_account_repository base w s).1
        × Confined base w (verify_login_code_module base w s).1
        × Confined base w (verify_session_logout_module base w s).1
        × Confined base w (verify_blog_user_reader base w s).1
        × Confined base w (verify_user_profile_module base w s).1
        × Confined base w (verify_voucher_query_module base w s).1
        × Confined base w (verify_follower_reader_publication base w s).1
        × Confined base w (verify_follow_command_module base w s).1
        × Confined base w (verify_follow_query_module base w s).1
        × Confined base w (verify_shop_type_module base tokens w s).1
        × Confined base w (verify_check_in_module base w s).1
  scenarios-Confined tokens w s h = (
    login_attempts.at w s h,
    session_authentication.at w s h,
    session_issuer.at w s h,
    login_accounts.at w s h,
    login_code.at w s h,
    logout.at w s h,
    blog_reader.at w s h,
    user_profile.at w s h,
    voucher_query.at w s h,
    follower_publication.at w s h,
    follow_command.at w s h,
    follow_query.at w s h,
    (shop_type tokens).at w s h,
    check_in.at w s h,
  )
