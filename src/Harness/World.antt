-- ===== src/Harness/World.antt =====
-- The outside of the scripts: processes, HTTP and the clock. An answer may depend on everything
-- that the script did before.
use campus_hub.Prelude.{ℕ, ◌+◌, ◌≤◌, String, List, ◌∷◌, Option, Bool}
use campus_hub.Py.{Result, ℤ, Json, Number}

-- What `subprocess.run` is given besides the directory and the environment.
pub record Command : Type 0 where
  pub args : List String
  pub input : Option String
  pub timeout : ℕ

-- What `urllib.request` is given; `direct` says that the opener follows no redirect and uses no proxy.
pub record Request : Type 0 where
  pub url : String
  pub method : String
  pub body : Option String
  pub headers : List (String × String)
  pub direct : Bool

-- `time.sleep` takes milliseconds here.
pub data Event : Type 0 where
  spawned : Command → Event
  fetched : Request → Event
  slept : ℕ → Event
  -- a file and what was written to it
  wrote : String → String → Event
  -- a random identifier was drawn
  drawn : Event

pub record Exited : Type 0 where
  pub returncode : ℤ
  pub stdout : String

pub record Response : Type 0 where
  pub status : ℕ
  pub body : String
  pub headers : List (String × String)

-- The history is given with its last event first. An HTTP status is a response also where urllib
-- raises `HTTPError`; no answer is an error. The clock is `time.monotonic`, in milliseconds, and
-- `time` is `time.time`. `loads`, `dumps`, `urlencode`, `float_of`, `int_of` and `uuid_of` are the
-- functions of Python's library: `json`, `urllib.parse.urlencode`, `float` and `int` of a text, and
-- `uuid.UUID`; `uuid4` is `uuid.uuid4().hex`, and `read_text` reads a file of the repository.
-- The other fields are the constants that a script has once it is loaded; `docker_host` is that of
-- its environment, and `compose` is its COMPOSE.
pub record World : Type 0 where
  pub root : String
  pub project : String
  pub artifacts : String
  pub compose : List String
  pub docker_host : Option String
  pub spawn : List Event → Command → Result Exited
  pub fetch : List Event → Request → Result Response
  pub clock : List Event → ℕ
  pub time : List Event → Number
  pub loads : String → Result Json
  pub dumps : Json → String
  pub urlencode : List (String × String) → String
  pub float_of : String → Result Number
  pub int_of : String → Result ℤ
  pub uuid_of : String → Result (Unit {0})
  pub uuid4 : List Event → String
  pub read_text : String → Result String

-- Time does not run backwards, and a pause takes its time.
pub record Ticks (w : World) : Type 0 where
  pub forward : (e : Event) (h : List Event) → w.clock h ≤ w.clock (e ∷ h)
  pub pause : (ms : ℕ) (h : List Event) → w.clock h + ms ≤ w.clock (slept ms ∷ h)
