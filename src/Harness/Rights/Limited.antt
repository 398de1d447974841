-- ===== src/Harness/Rights/Limited.antt =====
-- What is taken with `ACL SETUSER` or from the schema is given back.
use campus_hub.Prelude.{
  ◌≡◌, refl, ap, ◌∙◌, String, true, false, List, ◌++◌, none, some, nat_eq, string_eq, list_eq,
  arith, Bool-cases, inl, inr, ◌⊎◌,
}
use campus_hub.Py.{Result, ok, err, Error}
use campus_hub.Harness.World.{World, Command, Exited}
use campus_hub.Harness.Exec.{State, Exec, ◌>>=◌, pure, resume}
use campus_hub.Harness.Compose.{
  redis_args, is_success, compose_command, redis, sql, run_command, finish, failed, count_command,
  spawn,
}
use campus_hub.Harness.Compose.Cleanup.{resume-pure}
use campus_hub.Harness.Script.{acl, gives, do_redis, do_sql, broken, broken_then, limited, without}
use campus_hub.Harness.Rights.{
  Right, command, every_key, schema, after_tokens, starts, drop, tokens_of, denied, succeeded,
  after_statement,
}
use campus_hub.Harness.Keeps.{Keeps}
use campus_hub.Harness.Rights.Keeps.{Free, compose_effect, sql_effect, sql_command, plain_statement}
use campus_hub.Harness.Rights.Tokens.{failed_denial, GivesBack, GivesBack-commands}
use campus_hub.Harness.Rights.Bracket.{Restores, Restores->>, Keeps-bracket}
use campus_hub.Harness.Rights.Schema.{undoes, is_fault}

abbrev acl_command : World → List String → Command
acl_command w tokens = record {
  args = w.compose ++ redis_args (acl tokens);
  input = none;
  timeout = 120;
}

acl_effect :
    (tokens : List String) (r : Right) (w : World) (s : State)
    → denied r w (redis (acl tokens) w s).1.history
      ≡ after_tokens
          (succeeded (w.spawn s.history (acl_command w tokens)))
          r
          tokens
          (denied r w s.history)
unfolding redis tokens_of starts drop string_eq after_statement
acl_effect tokens r w s = compose_effect 120 none (redis_args (acl tokens)) r w s

finish_raises :
    (w : World) (x : Result Exited) (s : State) (e : Error)
    → (resume w (λ (out : String). pure tt) (resume w (finish false) (x, s))).0 ≡ err e
    → succeeded x ≡ false
unfolding finish failed ◌>>=◌
finish_raises w (ok x) s e h = elim (Bool-cases (is_success x.returncode)) [
  | inl b ↦ absurd (let f = rw b at h in ground arith)
  | inr b ↦ b
]
finish_raises w (err x) s e h = refl

do_redis_raises :
    (tokens : List String) (w : World) (s : State) (e : Error)
    → (do_redis (acl tokens) w s).0 ≡ err e
    → succeeded (w.spawn s.history (acl_command w tokens)) ≡ false
unfolding do_redis redis compose_command run_command count_command spawn ◌>>=◌
do_redis_raises tokens w s e h = finish_raises w (w.spawn s.history (acl_command w tokens)) _ e h

do_redis_effect :
    (tokens : List String) (r : Right) (w : World) (s : State)
    → denied r w (do_redis (acl tokens) w s).1.history
      ≡ after_tokens
          (succeeded (w.spawn s.history (acl_command w tokens)))
          r
          tokens
          (denied r w s.history)
unfolding do_redis ◌>>=◌
do_redis_effect tokens r w s =
    ap (denied r w) (resume-pure w (redis (acl tokens) w s).0 (redis (acl tokens) w s).1)
    ∙ acl_effect tokens r w s

Restores-acl :
    (r : Right) (off on : List String)
    → GivesBack off on
    → Restores (Free r) (do_redis (acl off)) (do_redis (acl on))
unfolding after_statement
Restores-acl r off on g = record {
  raised = λ w s e raised h.
      do_redis_effect off r w s ∙ rw (do_redis_raises off w s e raised, h) (failed_denial r off);
  either = elim (g.right r) [
    | inl gives ↦ inl (λ w s. do_redis_effect on r w s ∙ gives _ _)
    | inr other ↦ inr (
      record { at = λ w s h. do_redis_effect off r w s ∙ (other _ _).0 ∙ h },
      record { at = λ w s h. do_redis_effect on r w s ∙ (other _ _).1 ∙ h },
    )
  ];
}

pub Keeps-limited :
    {A : Type 0} (r : Right) (off on : List String) (body : Exec A) (last : Exec (Unit {0}))
    → GivesBack off on
    → Keeps (Free r) body
    → Keeps (Free r) last
    → Keeps (Free r) (limited off on body last)
unfolding limited
Keeps-limited r off on body last g p l =
    Keeps-bracket _ _ body (Restores->> _ _ last (Restores-acl r off on g) l) p

pub Keeps-without :
    {A : Type 0} (r : Right) (commands : List String) (body : Exec A) (last : Exec (Unit {0}))
    → Keeps (Free r) body
    → Keeps (Free r) last
    → Keeps (Free r) (without commands body last)
Keeps-without r commands body last p q =
    Keeps-limited r _ _ body last (GivesBack-commands commands) p q

do_sql_raises :
    (statement : String) (w : World) (s : State) (e : Error)
    → (do_sql statement w s).0 ≡ err e
    → succeeded (w.spawn s.history (sql_command w statement)) ≡ false
unfolding do_sql sql compose_command run_command count_command spawn ◌>>=◌
do_sql_raises statement w s e h =
    finish_raises w (w.spawn s.history (sql_command w statement)) _ e h

do_sql_effect :
    (statement : String) (r : Right) (w : World) (s : State)
    → denied r w (do_sql statement w s).1.history
      ≡ after_statement
          (succeeded (w.spawn s.history (sql_command w statement)))
          r
          (some statement)
          (denied r w s.history)
unfolding do_sql ◌>>=◌
do_sql_effect statement r w s =
    ap (denied r w) (resume-pure w (sql statement w s).0 (sql statement w s).1)
    ∙ sql_effect statement r w s

failed_statement : (r : Right) (s : String) → after_statement false r (some s) false ≡ false
unfolding after_statement
failed_statement (command p) s = refl
failed_statement every_key s = refl
failed_statement (schema fault) s = ground arith

Restores-sql :
    (r : Right) (take give : String)
    → undoes give take ≡ true
    → is_fault give ≡ false
    → Restores (Free r) (do_sql take) (do_sql give)
unfolding after_statement
Restores-sql r take give undone plain = record {
  raised = λ w s e raised h.
      do_sql_effect take r w s ∙ rw (do_sql_raises take w s e raised, h) (failed_statement r take);
  either = either r;
}
  where
    either :
        (r : Right)
        → ((w : World) (s : State) → Free r w (do_sql give w s).1)
          ⊎ (Keeps (Free r) (do_sql take) × Keeps (Free r) (do_sql give))
    either (command p) = inr (
      record { at = λ w s h. do_sql_effect take (command p) w s ∙ h },
      record { at = λ w s h. do_sql_effect give (command p) w s ∙ h },
    )
    either every_key = inr (
      record { at = λ w s h. do_sql_effect take every_key w s ∙ h },
      record { at = λ w s h. do_sql_effect give every_key w s ∙ h },
    )
    either (schema fault) = elim (Bool-cases (undoes give fault)) [
      | inl same ↦ inl (λ w s. do_sql_effect give (schema fault) w s ∙ rw same refl)
      | inr other ↦ inr (
        record { at = λ w s h. do_sql_effect take (schema fault) w s ∙ rw h (ground arith) },
        record {
          at = λ w s h.
              do_sql_effect give (schema fault) w s
              ∙ rw h (plain_statement _ (schema fault) give plain);
        },
      )
    ]

pub Keeps-broken :
    {A : Type 0} (r : Right) (take give : String) (body : Exec A)
    → undoes give take ≡ true
    → is_fault give ≡ false
    → Keeps (Free r) body
    → Keeps (Free r) (broken take give body)
unfolding broken
Keeps-broken r take give body undone plain p =
    Keeps-bracket _ _ body (Restores-sql r take give undone plain) p

pub Keeps-broken_then :
    {A : Type 0} (r : Right) (take give : String) (body : Exec A) (last : Exec (Unit {0}))
    → undoes give take ≡ true
    → is_fault give ≡ false
    → Keeps (Free r) body
    → Keeps (Free r) last
    → Keeps (Free r) (broken_then take give body last)
unfolding broken_then
Keeps-broken_then r take give body last undone plain p l =
    Keeps-bracket _ _ body (Restores->> _ _ last (Restores-sql r take give undone plain) l) p
