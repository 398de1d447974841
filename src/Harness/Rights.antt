-- ===== src/Harness/Rights.antt =====
-- Which rights of the application's Redis user the scenarios have taken away and not given back,
-- read from the commands that were run.
pub mod Schema
pub mod Keeps
pub mod Tokens
pub mod Bracket
pub mod Limited
pub mod Rules
use campus_hub.Prelude.{
  ℕ, zero, suc, String, ◌<>◌, Bool, true, false, ◌&&◌, not, List, [], ◌∷◌, ◌++◌, Option, none, some,
  ◌==◌, nat_eq, string_eq, list_eq, if◌then◌else◌, length,
}
use campus_hub.Py.{Result, ok, err, codes}
use campus_hub.Harness.World.{World, Command, Event, spawned, fetched, slept, wrote, drawn, Exited}
use campus_hub.Harness.Compose.{redis_args, is_success}
use campus_hub.Harness.Script.{acl}
use campus_hub.Harness.Rights.Schema.{is_fault, undoes}

-- To run a command, to use every key, and to find the schema without the fault that a statement makes.
pub data Right : Type 0 where
  command : String → Right
  every_key : Right
  schema : String → Right

-- `+command` and `~*`
abbrev pub is_grant : Right → String → Bool
is_grant (command p) token = codes token == b'+' ∷ codes p
is_grant every_key token = codes token == codes "~*"
is_grant (schema fault) token = false

-- `-command` and `resetkeys`
abbrev pub is_denial : Right → String → Bool
is_denial (command p) token = codes token == b'-' ∷ codes p
is_denial every_key token = codes token == codes "resetkeys"
is_denial (schema fault) token = false

-- The tokens of `ACL SETUSER` act in order. What is given back counts as soon as it is tried, and
-- what is taken counts if the command succeeded.
unfoldable pub after_tokens : Bool → Right → List String → Bool → Bool
after_tokens done r [] before = before
after_tokens done r (t ∷ ts) before =
    after_tokens done r ts
      (if is_grant r t then false else if done && is_denial r t then true else before)

unfoldable pub starts : List String → List String → Bool
starts [] xs = true
starts (p ∷ ps) [] = false
starts (p ∷ ps) (x ∷ xs) = p == x && starts ps xs

unfoldable pub drop : {A : Type 0} → ℕ → List A → List A
drop zero xs = xs
drop (suc n) [] = []
drop (suc n) (x ∷ xs) = drop n xs

-- The tokens that a compose command passes to `ACL SETUSER default`, if it does.
unfoldable pub tokens_of : List String → List String
unfolding starts drop
tokens_of args =
    if starts (redis_args (acl [])) args then drop (length (redis_args (acl []))) args else []

abbrev pub succeeded : Result Exited → Bool
succeeded (ok exit) = is_success exit.returncode
succeeded (err e) = false

-- What a statement on the standard input of mysql does; as with Redis, to try the undoing is enough.
unfoldable pub after_statement : Bool → Right → Option String → Bool → Bool
after_statement done r none before = before
after_statement done (command p) (some s) before = before
after_statement done every_key (some s) before = before
after_statement done (schema fault) (some s) before =
    if undoes s fault then false else if done && is_fault fault && s == fault then true else before

-- What a command does that is run with compose.
abbrev pub after_command : Bool → Right → Option String → List String → Bool → Bool
after_command done r input args before =
    after_statement done r input (after_tokens done r (tokens_of args) before)

-- The right is taken away at the end of the history, and it is the script's to give it back. The
-- command that takes it stands before the `try` of the scripts: when it fails or times out it
-- raises there, and no `finally` gives back what it may yet have taken. So it counts as taken only
-- when the command ended well, and as given back as soon as the command that gives it was sent.
unfoldable pub denied : Right → World → List Event → Bool
denied r w [] = false
denied r w (spawned c ∷ h) =
    after_command (succeeded (w.spawn h c)) r c.input (drop (length w.compose) c.args)
      (denied r w h)
denied r w (fetched q ∷ h) = denied r w h
denied r w (slept ms ∷ h) = denied r w h
denied r w (wrote path text ∷ h) = denied r w h
denied r w (drawn ∷ h) = denied r w h
