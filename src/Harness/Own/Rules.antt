-- ===== src/Harness/Own/Rules.antt =====
-- Each statement reaches only what it may.
use mathlib.Core.Path.{subst}
use campus_hub.Prelude.{
  ℕ, ◌+◌, ◌≡◌, refl, ap, sym, String, false, List, ◌++◌, Option, none, some, arith,
}
use campus_hub.Py.{Result, ok, err}
use campus_hub.Harness.World.{World, Command, Exited}
use campus_hub.Harness.Exec.{State, Exec, ◌>>=◌, resume}
use campus_hub.Harness.Compose.{
  run_command, count_command, spawn, finish, failed, compose_command, redis, redis_args, sql,
  sql_args, fetch, request_with,
}
use campus_hub.Harness.Compose.Cleanup.{after_run}
use campus_hub.Harness.Script.{acl, do_redis, do_sql, limited, broken, broken_then}
use campus_hub.Harness.Keeps.{Keeps, Stable, Keeps-pure, Keeps-assert, Keeps->>=, Keeps-finally}
use campus_hub.Harness.Keeps.Statements.{statement_rules}
use campus_hub.Harness.Own.{composes, asks, draws, processes, Confined}

finish-state : (w : World) (r : Result Exited) (s : State) → (resume w (finish false) (r, s)).1 ≡ s
unfolding finish failed ◌>>=◌
finish-state w (ok x) s = ground arith
finish-state w (err e) s = refl

run_command-state :
    (c : Command) (w : World) (s : State) → (run_command false c w s).1 ≡ after_run s c
unfolding run_command count_command spawn ◌>>=◌
run_command-state c w s = finish-state w (w.spawn s.history c) _

module _ (base : String) where
  pub Confined-Stable : Stable (Confined base)
  unfolding processes
  Confined-Stable = record { draws = λ w s h. ((draws, h.0), h.1); marks = λ w s passed noted h. h }

  pub Confined-compose :
      (timeout : ℕ) (input : Option String) (args : List String)
      → Keeps (Confined base) (compose_command timeout input args)
  unfolding compose_command processes
  Confined-compose timeout input args = record {
    at = λ w s h.
        let c : Command = record { args = w.compose ++ args; input = input; timeout = timeout } in
        subst (Confined base w) (sym (run_command-state c w s))
          ((composes args input timeout, h.0), ap (λ n. n + 1) h.1);
  }

  pub Confined-redis : (args : List String) → Keeps (Confined base) (redis args)
  unfolding redis
  Confined-redis args = Confined-compose 120 none (redis_args args)

  pub Confined-sql : (statement : String) → Keeps (Confined base) (sql statement)
  unfolding sql
  Confined-sql statement = Confined-compose 120 (some statement) sql_args

  pub Confined-do_redis : (args : List String) → Keeps (Confined base) (do_redis args)
  unfolding do_redis
  Confined-do_redis args = Keeps->>= _ _ (Confined-redis args) (λ _. Keeps-pure tt)

  pub Confined-do_sql : (statement : String) → Keeps (Confined base) (do_sql statement)
  unfolding do_sql
  Confined-do_sql statement = Keeps->>= _ _ (Confined-sql statement) (λ _. Keeps-pure tt)

  pub Confined-request_with :
      (route : String) (expected : ℕ) (method : String) (body : Option String)
      → (headers : List (String × String))
      → Keeps (Confined base) (request_with base route expected method body headers)
  unfolding request_with fetch processes
  Confined-request_with route expected method body headers =
      Keeps->>= _ _ (record { at = λ w s h. ((asks route method body headers, h.0), h.1) })
        (λ response. Keeps->>= _ _ (Keeps-assert _ _) (λ _. Keeps-pure response))

  module _ {A : Type 0} (body : Exec A) (p : Keeps (Confined base) body) where
    pub Confined-limited :
        (off on : List String) (last : Exec (Unit {0}))
        → Keeps (Confined base) last
        → Keeps (Confined base) (limited off on body last)
    unfolding limited
    Confined-limited off on last l =
        Keeps->>= _ _ (Confined-do_redis (acl off))
          (λ _. Keeps-finally _ _ p (Keeps->>= _ _ (Confined-do_redis (acl on)) (λ _. l)))

    pub Confined-broken : (take give : String) → Keeps (Confined base) (broken take give body)
    unfolding broken
    Confined-broken take give =
        Keeps->>= _ _ (Confined-do_sql take) (λ _. Keeps-finally _ _ p (Confined-do_sql give))

module _ (base : String) {A : Type 0} where
  pub Confined-broken_then :
      (take give : String) (body : Exec A) (last : Exec (Unit {0}))
      → Keeps (Confined base) body
      → Keeps (Confined base) last
      → Keeps (Confined base) (broken_then take give body last)
  unfolding broken_then
  Confined-broken_then take give body last p l =
      Keeps->>= _ _ (Confined-do_sql base take)
        (λ _. Keeps-finally _ _ p (Keeps->>= _ _ (Confined-do_sql base give) (λ _. l)))

pub ruleset confined_rules = (
  statement_rules, Confined-Stable, Confined-redis, Confined-sql, Confined-do_redis,
  Confined-do_sql, Confined-request_with, Confined-limited, Confined-broken, Confined-broken_then,
  Confined-compose,
)
