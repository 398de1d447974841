-- ===== src/Harness/Scenario/Restores.antt =====
-- Each scenario gives back the rights that it takes.
use campus_hub.Prelude.{List, [], ◌∷◌, String, string_eq, nat_eq, list_eq}
use campus_hub.Py.{Json, has_prefix, has_infix}
use campus_hub.Harness.Keeps.{Keeps, Keeps-raise}
use campus_hub.Harness.Rights.{Right, tokens_of, starts}
use campus_hub.Harness.Rights.Keeps.{Free}
use campus_hub.Harness.Rights.Rules.{keeps_rules}
use campus_hub.Harness.Rights.Schema.{departs, undoes, undo, is_fault, words_from}
use campus_hub.Harness.Scenario.SessionAuthentication.{verify_session_authentication}
use campus_hub.Harness.Scenario.SessionIssuer.{verify_login_session_issuer}
use campus_hub.Harness.Scenario.LoginCode.{verify_login_code_module}
use campus_hub.Harness.Scenario.Logout.{verify_session_logout_module}
use campus_hub.Harness.Scenario.LoginAccounts.{verify_login_account_repository}
use campus_hub.Harness.Scenario.BlogReader.{verify_blog_user_reader}
use campus_hub.Harness.Scenario.UserProfile.{verify_user_profile_module}
use campus_hub.Harness.Scenario.VoucherQuery.{verify_voucher_query_module}
use campus_hub.Harness.Scenario.FollowerPublication.{verify_follower_reader_publication}
use campus_hub.Harness.Scenario.FollowCommand.{verify_follow_command_module}
use campus_hub.Harness.Scenario.FollowQuery.{
  verify_follow_query_module, truth_and_projection, Tokens,
}
use campus_hub.Harness.Scenario.ShopType.{verify_shop_type_module, in_order}
use campus_hub.Harness.Scenario.CheckIn.{verify_check_in_module}
use campus_hub.Harness.Scenario.LoginAttempts.{verify_login_attempt_store}

pub login_attempts : (base : String) (r : Right) → Keeps (Free r) (verify_login_attempt_store base)
unfolding verify_login_attempt_store string_eq departs nat_eq
login_attempts base r = search keeps_rules depth 100 fits 5000 parts 0

pub session_authentication :
    (base : String) (r : Right) → Keeps (Free r) (verify_session_authentication base)
unfolding verify_session_authentication string_eq departs nat_eq
session_authentication base r = search keeps_rules depth 100 fits 5000 parts 0

pub session_issuer : (base : String) (r : Right) → Keeps (Free r) (verify_login_session_issuer base)
unfolding verify_login_session_issuer string_eq departs nat_eq
session_issuer base r = search keeps_rules depth 100 fits 5000 parts 0

pub login_code : (base : String) (r : Right) → Keeps (Free r) (verify_login_code_module base)
unfolding verify_login_code_module string_eq departs nat_eq
login_code base r = search keeps_rules depth 100 fits 5000 parts 0

pub session_logout :
    (base : String) (r : Right) → Keeps (Free r) (verify_session_logout_module base)
unfolding verify_session_logout_module string_eq departs nat_eq
session_logout base r = search keeps_rules depth 100 fits 5000 parts 0

pub login_accounts :
    (base : String) (r : Right) → Keeps (Free r) (verify_login_account_repository base)
unfolding verify_login_account_repository string_eq departs nat_eq list_eq undoes undo is_fault
    words_from has_prefix has_infix
login_accounts base r = search keeps_rules depth 100 fits 5000 parts 0

pub blog_user_reader : (base : String) (r : Right) → Keeps (Free r) (verify_blog_user_reader base)
unfolding verify_blog_user_reader string_eq departs nat_eq list_eq undoes undo is_fault words_from
    has_prefix has_infix
blog_user_reader base r = search keeps_rules depth 100 fits 5000 parts 0

pub user_profile : (base : String) (r : Right) → Keeps (Free r) (verify_user_profile_module base)
unfolding verify_user_profile_module string_eq departs nat_eq list_eq undoes undo is_fault
    words_from has_prefix has_infix
user_profile base r = search keeps_rules depth 100 fits 5000 parts 0

pub voucher_query : (base : String) (r : Right) → Keeps (Free r) (verify_voucher_query_module base)
unfolding verify_voucher_query_module string_eq departs nat_eq list_eq undoes undo is_fault
    words_from has_prefix has_infix
voucher_query base r = search keeps_rules depth 100 fits 5000 parts 0

pub follower_publication :
    (base : String) (r : Right) → Keeps (Free r) (verify_follower_reader_publication base)
unfolding verify_follower_reader_publication string_eq departs nat_eq list_eq undoes undo is_fault
    words_from has_prefix has_infix
follower_publication base r = search keeps_rules depth 100 fits 5000 parts 0

pub follow_command :
    (base : String) (r : Right) → Keeps (Free r) (verify_follow_command_module base)
unfolding verify_follow_command_module string_eq departs nat_eq list_eq undoes undo is_fault
    words_from has_prefix has_infix
follow_command base r = search keeps_rules depth 100 fits 5000 parts 0

truth_and_projection_lem :
    (base : String) (r : Right) (tokens : Tokens)
    → Keeps (Free r) (truth_and_projection base tokens)
unfolding truth_and_projection string_eq departs nat_eq list_eq undoes undo is_fault words_from
    has_prefix has_infix
truth_and_projection_lem base r tokens = search keeps_rules depth 100 fits 5000 parts 0

pub follow_query : (base : String) (r : Right) → Keeps (Free r) (verify_follow_query_module base)
unfolding verify_follow_query_module string_eq departs nat_eq list_eq undoes undo is_fault
    words_from has_prefix has_infix
follow_query base r = search (keeps_rules, truth_and_projection_lem) depth 100 fits 5000 parts 0

in_order-Free : (r : Right) (own : List Json) → Keeps (Free r) (in_order own)
in_order-Free r (a ∷ b ∷ c ∷ d ∷ []) = search keeps_rules depth 100 fits 5000 parts 0
in_order-Free r _ = Keeps-raise _

pub shop_type :
    (base : String) (r : Right) (tokens : List String)
    → Keeps (Free r) (verify_shop_type_module base tokens)
unfolding verify_shop_type_module string_eq departs nat_eq list_eq undoes undo is_fault words_from
    has_prefix has_infix
shop_type base r tokens = search (keeps_rules, in_order-Free) depth 100 fits 5000 parts 0

pub check_in : (base : String) (r : Right) → Keeps (Free r) (verify_check_in_module base)
unfolding verify_check_in_module string_eq departs nat_eq tokens_of starts
check_in base r = search keeps_rules depth 100 fits 5000 parts 0
