-- ===== src/Harness/Rights/Keeps.antt =====
-- What a process, a statement and a request do to a right.
use campus_hub.Prelude.{
  ℕ, ◌≡◌, refl, ◌∙◌, String, Bool, false, List, [], ◌∷◌, ◌++◌, Option, none, some, ◌==◌, nat_eq,
  string_eq, list_eq, length, arith,
}
use campus_hub.Harness.World.{World, Command}
use campus_hub.Harness.Exec.{State}
use campus_hub.Harness.Compose.{redis_args, sql_args, compose_command, redis, sql}
use campus_hub.Harness.Compose.Cleanup.{run_command-history}
use campus_hub.Harness.Rights.{
  Right, command, every_key, schema, after_tokens, starts, drop, tokens_of, denied, succeeded,
  after_statement, after_command,
}
use campus_hub.Harness.Rights.Schema.{is_fault}
use campus_hub.Harness.World.{Request}
use campus_hub.Harness.Compose.{request_with, fetch}
use campus_hub.Harness.Script.{do_redis, do_sql}
use campus_hub.Harness.Keeps.{Keeps, Stable, Keeps-pure, Keeps-assert, Keeps->>=}

-- The right is not taken away.
abbrev pub Free : Right → World → State → Type 0
Free r w s = denied r w s.history ≡ false

pub Free-Stable : (r : Right) → Stable (Free r)
unfolding denied
Free-Stable r = record { draws = λ w s h. h; marks = λ w s passed noted h. h }

drop-append : {A : Type 0} (xs ys : List A) → drop (length xs) (xs ++ ys) ≡ ys
unfolding drop
drop-append [] ys = refl
drop-append (x ∷ xs) ys = drop-append xs ys

-- What a compose command does to a right.
pub compose_effect :
    (timeout : ℕ) (input : Option String) (args : List String) (r : Right) (w : World) (s : State)
    → denied r w (compose_command timeout input args w s).1.history
      ≡ after_command
          (succeeded (
            w.spawn s.history
              (record { args = w.compose ++ args; input = input; timeout = timeout })))
          r
          input
          args
          (denied r w s.history)
unfolding compose_command denied
compose_effect timeout input args r w s =
    let c : Command = record { args = w.compose ++ args; input = input; timeout = timeout } in
    rw (run_command-history false c w s, drop-append w.compose args) refl

pub Keeps-compose :
    (r : Right) (timeout : ℕ) (args : List String)
    → tokens_of args ≡ []
    → Keeps (Free r) (compose_command timeout none args)
unfolding after_tokens after_statement
Keeps-compose r timeout args none_of = record {
  at = λ w s h. compose_effect timeout none args r w s ∙ rw none_of h;
}

pub Keeps-redis :
    (r : Right) (c : String) (args : List String)
    → ("ACL" == c) ≡ false
    → Keeps (Free r) (redis (c ∷ args))
unfolding redis tokens_of starts string_eq
Keeps-redis r c args other = Keeps-compose r 120 (redis_args (c ∷ args)) (rw other refl)

-- A statement that makes no fault takes nothing.
pub plain_statement :
    (done : Bool) (r : Right) (s : String)
    → is_fault s ≡ false
    → after_statement done r (some s) false ≡ false
unfolding after_statement
plain_statement done (command p) s h = refl
plain_statement done every_key s h = refl
plain_statement done (schema fault) s h = ground arith

abbrev pub sql_command : World → String → Command
sql_command w statement = record {
  args = w.compose ++ sql_args;
  input = some statement;
  timeout = 120;
}

pub sql_effect :
    (statement : String) (r : Right) (w : World) (s : State)
    → denied r w (sql statement w s).1.history
      ≡ after_statement
          (succeeded (w.spawn s.history (sql_command w statement)))
          r
          (some statement)
          (denied r w s.history)
unfolding sql tokens_of starts after_tokens string_eq
sql_effect statement r w s = compose_effect 120 (some statement) sql_args r w s

pub Keeps-sql :
    (r : Right) (statement : String) → is_fault statement ≡ false → Keeps (Free r) (sql statement)
Keeps-sql r statement plain = record {
  at = λ w s h. sql_effect statement r w s ∙ rw h (plain_statement _ r statement plain);
}

Keeps-fetch : (r : Right) (q : Request) → Keeps (Free r) (fetch q)
unfolding fetch denied
Keeps-fetch r q = record { at = λ w s h. h }

pub Keeps-request_with :
    (r : Right) (base route : String) (expected : ℕ) (method : String) (body : Option String)
    → (headers : List (String × String))
    → Keeps (Free r) (request_with base route expected method body headers)
unfolding request_with
Keeps-request_with r base route expected method body headers =
    Keeps->>= _ _ (Keeps-fetch r _)
      (λ response. Keeps->>= _ _ (Keeps-assert _ _) (λ _. Keeps-pure response))

pub Keeps-do_redis :
    (r : Right) (c : String) (args : List String)
    → ("ACL" == c) ≡ false
    → Keeps (Free r) (do_redis (c ∷ args))
unfolding do_redis
Keeps-do_redis r c args other = Keeps->>= _ _ (Keeps-redis r c args other) (λ _. Keeps-pure tt)

pub Keeps-do_sql :
    (r : Right) (statement : String)
    → is_fault statement ≡ false
    → Keeps (Free r) (do_sql statement)
unfolding do_sql
Keeps-do_sql r statement plain = Keeps->>= _ _ (Keeps-sql r statement plain) (λ _. Keeps-pure tt)
