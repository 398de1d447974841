-- ===== src/Harness/Compose.antt =====
-- The commands of scripts/verify-compose.py that all acceptance scripts share.
pub mod Waits
pub mod Cleanup
pub mod Outcome
use Prim.Native.Char.{code}
use campus_hub.Prelude.{
  ℕ, ◌+◌, String, ◌<>◌, Bool, true, false, ◌&&◌, not, List, [], ◌∷◌, ◌++◌, Option, none, some, ◌==◌,
  nat_eq, string_eq, all, length, ltb, if◌then◌else◌,
}
use campus_hub.Py.{
  Result, ok, err, runtime_error, Json, get, is_text, codes, is_digit, after, strip, show, ℤ, pos,
  negsuc,
}
use campus_hub.Harness.World.{World, Command, Request, Event, spawned, fetched, Exited, Response}
use campus_hub.Harness.Exec.{
  State, Exec, ◌>>=◌, ◌>>◌, pure, raise, lift, assert, finally, passing, monotonic, Polled, found,
  late, out_of_fuel, poll,
}

abbrev pub is_success : ℤ → Bool
is_success (pos n) = n == 0
is_success (negsuc n) = false

unfoldable pub spawn : Command → Exec Exited
spawn c w s = (w.spawn s.history c, record s { history = spawned c ∷ s.history })

-- `"%02d"`
abbrev pub two_digits : ℕ → String
two_digits n = if ltb n 10 then "0" <> show n else show n

unfoldable pub failed : Exec (Unit {0})
failed w s = (
  err (
      runtime_error (
        "Operation failed; private diagnostic log: "
        <> w.artifacts
        <> "/command-"
        <> two_digits s.counter
        <> ".log")),
  s,
)

-- `COUNTER += 1`
unfoldable pub count_command : Exec (Unit {0})
count_command w s = (ok tt, record s { counter = s.counter + 1 })

-- What `run` makes of the end of a process.
unfoldable pub finish : Bool → Exited → Exec String
finish expect_failure result = do
  let succeeded = is_success result.returncode
  if expect_failure
      then assert (not succeeded) "expected operation to be rejected"
      else if succeeded
      then pure tt
      else failed
  pure (strip result.stdout)

-- `expect_failure` stands first.
unfoldable pub run_command : Bool → Command → Exec String
run_command expect_failure command = do
  count_command
  result ← spawn command
  finish expect_failure result

-- `run(args)` with a timeout; the default is 120 seconds.
abbrev pub run : ℕ → List String → Exec String
run timeout args = run_command false (record { args = args; input = none; timeout = timeout })

unfoldable pub compose_command : ℕ → Option String → List String → Exec String
compose_command timeout input args w s =
    run_command false (record { args = w.compose ++ args; input = input; timeout = timeout }) w s

abbrev pub compose : ℕ → List String → Exec String
compose timeout args = compose_command timeout none args

abbrev pub sql_args : List String
sql_args =
    "exec" ∷ "-T" ∷ "mysql" ∷ "sh" ∷ "-ec"
    ∷ "MYSQL_PWD=\"$MYSQL_ROOT_PASSWORD\" exec mysql --protocol=socket -uroot campushub --batch --skip-column-names"
    ∷ []

unfoldable pub sql : String → Exec String
sql statement = compose_command 120 (some statement) sql_args

abbrev pub redis_args : List String → List String
redis_args args =
    "exec" ∷ "-T" ∷ "redis" ∷ "sh" ∷ "-ec"
    ∷ "export REDISCLI_AUTH=\"$REDIS_PASSWORD\"; exec redis-cli \"$@\"" ∷ "redis-cli" ∷ args

unfoldable pub redis : List String → Exec String
redis args = compose 120 (redis_args args)

-- `route.split("?")[0]`
unfoldable pub path_of : String → String
path_of String.[] = ""
path_of (String.◌∷◌ c s) = let rest = path_of s in if code c == b'?' then "" else String.◌∷◌ c rest

unfoldable pub fetch : Request → Exec Response
fetch r w s = (w.fetch s.history r, record s { history = fetched r ∷ s.history })

unfoldable pub request_with :
    String → String → ℕ → String → Option String → List (String × String) → Exec Response
request_with base route expected method body headers = do
  response ← fetch (record {
    url = base <> route;
    method = method;
    body = body;
    headers = headers;
    direct = false;
  })
  assert (response.status == expected) (
      "unexpected HTTP status "
      <> show response.status
      <> " (expected "
      <> show expected
      <> ") for "
      <> path_of route)
  pure response

abbrev pub request : String → String → ℕ → Exec Response
request base route expected = request_with base route expected "GET" none []

-- `json.loads(text)`
unfoldable pub parse : String → Exec Json
parse text w s = (w.loads text, s)

-- One round of `wait_ready`.
unfoldable pub is_ready : String → Exec (Option (Unit {0}))
is_ready base = passing (do
  response ← request base "/health/ready" 200
  body ← parse response.body
  status ← lift (get body "status")
  pure (if is_text status "UP" then some tt else none))

abbrev pub ready_result : Polled (Unit {0}) → Exec (Unit {0})
ready_result (found _) = pure tt
ready_result late = raise (runtime_error "private application did not become ready")
ready_result out_of_fuel = raise (runtime_error "private application did not become ready")

-- The loop of `wait_ready`; its 90 seconds hold 90 pauses.
unfoldable pub ready_loop : String → Exec (Polled (Unit {0}))
ready_loop base = do now ← monotonic; poll 1000 (now + 90000) (is_ready base) 90

unfoldable pub wait_ready : String → Exec (Unit {0})
wait_ready base = ready_loop base >>= ready_result

abbrev is_number : Option (List ℕ) → Bool
is_number none = false
is_number (some s) = not (length s == 0) && all is_digit s

-- `127\.0\.0\.1:[0-9]+`
unfoldable pub is_local : String → Bool
unfolding after
is_local port = is_number (after (codes "127.0.0.1:") (codes port))

unfoldable pub app_base : Exec String
app_base = do
  port ← compose 120 ("port" ∷ "app" ∷ "8081" ∷ [])
  assert (is_local port) "app must bind localhost only"
  pure ("http://" <> port)

unfoldable pub check : String → Exec (Unit {0})
check label w s = (ok tt, record s { passed = s.passed ++ (label ∷ []) })

-- What is left of the project.
unfoldable pub listed : String → String → Exec (Unit {0})
listed kind message w s =
    (do
      names ← run 120 (
          "docker"
          ∷ kind
          ∷ "ls"
          ∷ "--filter"
          ∷ ("label=com.docker.compose.project=" <> w.project)
          ∷ "--format"
          ∷ "{{.Name}}"
          ∷ [])
      assert (names == "") message)
      w s

unfoldable pub image_removed : Exec (Unit {0})
image_removed w s =
    (do
      names ← run 120 (
          "docker"
          ∷ "image"
          ∷ "ls"
          ∷ "--filter"
          ∷ ("reference=" <> w.project <> "-app:latest")
          ∷ "--format"
          ∷ "{{.Repository}}"
          ∷ [])
      assert (names == "") "test app image remains after cleanup")
      w s

abbrev pub down : List String
down = "--profile" ∷ "app" ∷ "down" ∷ "--volumes" ∷ "--rmi" ∷ "local" ∷ "--remove-orphans" ∷ []

unfoldable pub nothing_left : Exec (Unit {0})
nothing_left = do
  left ← compose 120 ("--profile" ∷ "app" ∷ "ps" ∷ "-aq" ∷ [])
  assert (left == "") "test containers remain after cleanup"
  listed "volume" "test volume resources remain after cleanup"
  listed "network" "test network resources remain after cleanup"
  image_removed

unfoldable pub remove_all : Exec (Unit {0})
unfolding nothing_left
remove_all = do _ ← compose 90 down; nothing_left

unfoldable pub cleanup : Exec (Unit {0})
cleanup =
    finally (do _ ← compose 30 ("--profile" ∷ "app" ∷ "logs" ∷ "--no-color" ∷ []); pure tt)
      remove_all
