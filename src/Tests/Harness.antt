-- ===== src/Tests/Harness.antt =====
-- A stack that answers as it should.
use campus_hub.Prelude.{
  ℕ, ◌+◌, ◌≡◌, ◌≢◌, refl, String, ◌<>◌, Bool, true, false, List, [], ◌∷◌, ◌++◌, none, ◌==◌, nat_eq,
  string_eq, if◌then◌else◌, arith, contains, ◌&&◌, ◌⊎◌, ◌≤◌,
}
use campus_hub.Py.{
  Result, ok, err, Json, null, bool, num, str, arr, obj, Items, nil, cons, Fields, end, field, nat,
  pos, Number, lookup, get, after, traverse, items, entries, json_eq, num_lt, num_le, num_eq,
  has_prefix, has_infix, lstrip, rstrip, show, Error,
}
use campus_hub.Harness.World.{
  World, Event, spawned, fetched, slept, wrote, drawn, Exited, Response, Ticks,
}
use campus_hub.Harness.Exec.{State, ◌>>=◌, out_of_fuel, finally, passing, monotonic, sleep, poll}
use campus_hub.Harness.Compose.{
  app_base, is_local, check, ready_loop, wait_ready, cleanup, remove_all, nothing_left, listed,
  image_removed, compose_command, run_command, finish, count_command, spawn, is_ready, request_with,
  fetch, parse,
}
use campus_hub.Harness.Compose.Waits.{IsUp, ready_loop-ends, wait_ready_sound}
use campus_hub.Harness.Compose.Cleanup.{
  IsRun, IsRemoved, logs_command, down_command, cleanup_sound, cleanup-takes_down,
}
use campus_hub.Harness.Observability.{
  preflight, accept, main, series_loop, local_override, no_volumes, is_scraped, actuator_closed,
  identifies_requests, keeps_secrets, survives_outage, report, outage_loop, scraped_since,
  await_series, has_series, query,
}
use campus_hub.Harness.Values.{is_truthy, targets, sample_value, header, item_at}
use campus_hub.FlashSale.Evidence.{lines_from}
use campus_hub.Harness.Observability.Owned.{IsFresh, after_preflight, main_sound, main-takes_down}
use campus_hub.Harness.Observability.Waits.{series_loop-ends, outage_loop-ends}

abbrev exited : String → Result Exited
exited out = ok (record { returncode = pos 0; stdout = out })

-- What a command prints.
abbrev printed : List String → Result Exited
printed args =
    if contains args "context"
    then exited "unix:///var/run/docker.sock\n"
    else if contains args "port"
    then exited "127.0.0.1:49153\n"
    else if contains args "config" && contains args "json"
    then exited "config"
    else if contains args "--version"
    then exited "prometheus, version 3.5.0\n"
    else if contains args "logs" && contains args "app"
    then exited "request method=GET\n"
    else exited ""

abbrev answer : ℕ → String → Result Response
answer status body =
    ok (record { status = status; body = body; headers = ("X-Request-Id", "generated") ∷ [] })

abbrev pub base : String
base = "http://127.0.0.1:49153"

-- Whether the last command stopped something.
abbrev is_stopped : List Event → Bool
is_stopped [] = false
is_stopped (spawned c ∷ h) = contains c.args "stop"
is_stopped (fetched r ∷ h) = is_stopped h
is_stopped (slept ms ∷ h) = is_stopped h
is_stopped (wrote p t ∷ h) = is_stopped h
is_stopped (drawn ∷ h) = is_stopped h

abbrev denied : List String
denied =
    (base <> "/actuator/prometheus")
    ∷ (base <> "/actuator/env")
    ∷ (base <> "/actuator/heapdump")
    ∷ (base <> "/upload/blog/delete?name=synthetic")
    ∷ []

abbrev answered : Bool → String → Result Response
answered stopped url =
    if url == base <> "/health/ready"
    then (if stopped then answer 503 "down" else answer 200 "up")
    else if url == base <> "/shop/search?page=0"
    then answer 400 ""
    else if contains denied url
    then answer 401 ""
    else if url == base <> "/api/v1/query?"
    then answer 200 "series"
    else answer 200 "found"

-- The time grows by a second with each event.
abbrev clock : List Event → ℕ
clock [] = 0
clock (spawned c ∷ h) = clock h
clock (fetched r ∷ h) = clock h
clock (slept ms ∷ h) = clock h + ms
clock (wrote p t ∷ h) = clock h
clock (drawn ∷ h) = clock h

abbrev text_field : String → String → Json
text_field k v = obj (field k (str v) end)

abbrev config : Json
config = obj (field "services" (obj (field "app" (obj (field "ports" (arr nil) end)) end)) end)

abbrev series : Json
series = obj (
    field "status" (str "success") (
      field "data"
        (obj (
          field "result"
            (arr
              (cons (obj (field "value" (arr (cons (num (nat 1)) (cons (str "7") nil))) end)) nil))
            end))
        end))

abbrev read : String → Result Json
read text =
    if text == "up"
    then ok (text_field "status" "UP")
    else if text == "down"
    then ok (text_field "status" "DOWN")
    else if text == "config"
    then ok config
    else if text == "series"
    then ok series
    else ok (obj (field "success" (bool true) end))

abbrev pub world : World
world = record {
  root = "/repo";
  project = "campushub-test";
  artifacts = "/tmp/a";
  compose = "docker" ∷ "compose" ∷ [];
  docker_host = none;
  spawn = λ h c. printed c.args;
  fetch = λ h r. answered (is_stopped h) r.url;
  clock = clock;
  time = λ h. nat 5;
  loads = read;
  dumps = λ j. "{}";
  urlencode = λ kvs. "";
  float_of = λ t. ok (nat 7);
  int_of = λ t. ok (pos 0);
  uuid_of = λ t. ok tt;
  uuid4 = λ h. "0123456789abcdef0123456789abcdef";
  read_text = λ path. ok "return 0";
}

abbrev pub start : State
start = record { history = []; counter = 0; passed = []; noted = [] }

ticks : Ticks world
ticks = record { forward = forward; pause = λ ms h. omega arith }
  where
    forward : (e : Event) (h : List Event) → clock h ≤ clock (e ∷ h)
    forward (spawned c) h = omega arith
    forward (fetched r) h = omega arith
    forward (slept ms) h = omega arith
    forward (wrote p t) h = omega arith
    forward drawn h = omega arith

ready_loop-ends_example : (ready_loop base world start).0 ≢ ok out_of_fuel
ready_loop-ends_example = ready_loop-ends base world start ticks

series_loop-ends_example : (series_loop base "up" world start).0 ≢ ok out_of_fuel
series_loop-ends_example = series_loop-ends base "up" world start ticks

outage_loop-ends_example : (outage_loop base (nat 5) world start).0 ≢ ok out_of_fuel
outage_loop-ends_example = outage_loop-ends base (nat 5) world start ticks

abbrev ready : State
ready = (wait_ready base world start).1

is_ready_at_once : wait_ready base world start ≡ (ok tt, ready)
unfolding wait_ready ready_loop monotonic poll is_ready passing ◌>>=◌ request_with fetch string_eq
    nat_eq parse get
is_ready_at_once = refl

wait_ready_sound_example : IsUp base world ready
wait_ready_sound_example = wait_ready_sound base world start ready is_ready_at_once

abbrev cleaned : State
cleaned = (cleanup world start).1

is_cleaned : cleanup world start ≡ (ok tt, cleaned)
unfolding cleanup finally remove_all nothing_left listed image_removed compose_command run_command
    count_command spawn finish ◌>>=◌ string_eq nat_eq lstrip rstrip
is_cleaned = refl

cleanup_sound_example :
    ((logs : String) × IsRun world [] (logs_command world) logs)
    × IsRemoved world (spawned (logs_command world) ∷ [])
cleanup_sound_example = cleanup_sound world start cleaned is_cleaned

cleanup-takes_down_example :
    (later : List Event) × ((cleanup world start).1.history
      ≡ later ++ (spawned (down_command world) ∷ spawned (logs_command world) ∷ []))
cleanup-takes_down_example = cleanup-takes_down world start

main-takes_down_example :
    ((p : State) × (later : List Event) × (preflight world start ≡ (ok tt, p))
      × ((main world start).1.history
          ≡ later
            ++ (spawned (down_command world)
                ∷ spawned (logs_command world)
                ∷ (accept world p).1.history)))
    ⊎ ((e : Error) × (p : State) × (preflight world start ≡ (err e, p))
        × (main world start ≡ (err e, p)))
main-takes_down_example = main-takes_down world start

abbrev finished : State
finished = (main world start).1

is_accepted : main world start ≡ (ok tt, finished)
unfolding main preflight local_override no_volumes accept is_scraped actuator_closed
    identifies_requests keeps_secrets survives_outage report outage_loop scraped_since await_series
    series_loop has_series query is_truthy targets sample_value header app_base is_local after check
    item_at traverse items entries lookup json_eq get num_lt num_le num_eq lines_from has_prefix
    has_infix wait_ready ready_loop monotonic sleep poll is_ready passing request_with fetch parse
    cleanup finally remove_all nothing_left listed image_removed compose_command run_command
    count_command spawn finish ◌>>=◌ string_eq nat_eq lstrip rstrip campus_hub.Py.◌>>=◌
is_accepted = refl

main_sound_example :
    IsFresh world []
    × ((p u : State) × (p.history ≡ after_preflight world [])
        × (accept world p ≡ (ok tt, u))
        × ((logs : String) × IsRun world u.history (logs_command world) logs)
        × IsRemoved world (spawned (logs_command world) ∷ u.history))
main_sound_example = main_sound world start finished is_accepted
