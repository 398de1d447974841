-- ===== src/Harness/Rights/Rules.antt =====
-- The rules for what is given back.
use campus_hub.Harness.Keeps.Statements.{statement_rules}
use campus_hub.Harness.Rights.Keeps.{
  Free-Stable, Keeps-compose, Keeps-redis, Keeps-sql, Keeps-request_with, Keeps-do_redis,
  Keeps-do_sql,
}
use campus_hub.Harness.Rights.Limited.{
  Keeps-limited, Keeps-without, Keeps-broken, Keeps-broken_then,
}
use campus_hub.Harness.Rights.Schema.{plain_lem, plain-append}
use campus_hub.Harness.Rights.Tokens.{GivesBack-keys}

pub ruleset keeps_rules = (
  statement_rules, Free-Stable, Keeps-compose, Keeps-redis, Keeps-sql, Keeps-request_with,
  Keeps-do_redis, Keeps-do_sql, Keeps-limited, Keeps-without, Keeps-broken, Keeps-broken_then,
  GivesBack-keys, plain_lem, plain-append,
)
