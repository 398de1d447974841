-- ===== src/Lib.antt =====
-- CampusHub: the evidence gates and the acceptance harness of its scripts (scripts/).
--
-- The scripts start a stack that they own, load it with k6, and publish a result only if a chain of
-- gates accepts the evidence. The gates are pure functions on JSON values, texts and numbers that
-- return or raise; they are modelled whole, in the order in which the code tests.
--
-- Prelude       equality tests, lists and Python's sets as lists (Prelude/Sets)
-- Py            the part of Python in use: exceptions as values (Py/Raise), unbounded integers and
--               finite floats as dyadic rationals (Py/Integer, Py/Numeric), the rounded product of
--               an int and a float (Py/Rounding), texts as code points (Py/Text), the values of json
--               (Py/Values)
-- Baseline      scripts/run-performance-baseline.py
--   Metric      number, metric_values, timing_values; and integer of the flash-sale script
--   Summary     validate_summary: one read trial
--   Sample      statistics.median, min, max and sorted as both aggregate functions use them
--   Aggregate   aggregate: twelve trials
-- FlashSale     scripts/run-flash-sale-baseline.py
--   Ids         COHORTS, cli_integer, positive_id
--   Fixture     validate_fixture
--   Evidence    parse_rows, pairs, parse_witness_log
--   Witness     validate_witness; Witness/Says has what the entries say, field by field
--   Ledger      validate_ledger, verified_ledger
--   Durable     the witnesses and the ledger of one cohort together
--   Summary     validate_summary: one finite cohort
--   Aggregate   aggregate: six cohorts
--   Privacy     validate_raw_privacy
--   Owned       owned_request, http
-- Harness       scripts/verify-compose.py and scripts/verify-observability.py
--   World       processes, HTTP and the clock as functions of what was done before
--   Exec        statements that act: an error or a value, and the history that they leave
--   Values      what is read out of an answer
--   Compose     run, compose, sql, redis, request, wait_ready, app_base, check, cleanup
--   Script, Answers  the statements that the scenarios of scripts/verify-compose.py are written in, and
--               what they read and demand of an answer
--   Scenario    verify_login_attempt_store (LoginAttempts), verify_session_authentication,
--               verify_login_session_issuer (SessionIssuer), verify_login_account_repository
--               (LoginAccounts), verify_login_code_module (LoginCode), verify_session_logout_module
--               (Logout), verify_blog_user_reader, verify_user_profile_module,
--               verify_voucher_query_module, verify_follower_reader_publication,
--               verify_follow_command_module, verify_follow_query_module, verify_shop_type_module,
--               verify_check_in_module; Restores, GivesBack and Confinement have the proofs
--   Rights      what a script has taken away, read from its history: the tokens of ACL SETUSER, and
--               the statements that rename a column or a table or make a trigger (Schema). A command
--               that takes counts when it ended well, one that gives back when it was sent: after a
--               take that fails the scripts raise before their `try` and give nothing back
--   Keeps       what a script keeps, one rule for each way to build one; Rights and Own add the
--               rules for what is given back and for what is reached
--   Own         what a scenario may reach
--   Observability  query, await_series, main
-- Tests         the gates and the theorems at concrete evidence
--
-- A dict is a list of entries, the texts of a set are a list compared as a set, and a value that the
-- code takes from outside is an argument: json.loads and the text of a float are parameters, and so
-- are the exports of k6 and the replies of MySQL and Redis. The statements of Harness get a World,
-- whose answers may depend on the whole history of commands, requests, pauses and written files, so a
-- theorem about every World is one about every stack; the library functions that they use (json,
-- urlencode, float, int, UUID) are fields of it. A World may fail at any point.
--
-- Recursion is structural. Printing a number has fuel, and a number has no more digits than its
-- successor. The loops on the clock have as fuel the number of pauses that fit before the deadline,
-- which is enough if the clock counts the pauses.
--
-- Not modelled: what the two baseline scripts do to the outside, in `cohort`, `publish` and `main`;
-- the other verify_ scenarios and `main` of scripts/verify-compose.py; the private log files and the
-- printed progress; the Java application, its Lua scripts and its schema.
pub mod Prelude
pub mod Py
pub mod Baseline
pub mod FlashSale
pub mod Harness
mod Tests
