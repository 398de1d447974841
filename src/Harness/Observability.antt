-- ===== src/Harness/Observability.antt =====
-- scripts/verify-observability.py: a fresh stack is really scraped by Prometheus.
pub mod Owned
pub mod Waits
use campus_hub.Prelude.{
  ℕ, zero, suc, ◌+◌, String, ◌<>◌, Bool, true, false, ◌&&◌, ◌||◌, not, List, [], ◌∷◌, ◌++◌, Option,
  none, some, ◌==◌, nat_eq, string_eq, contains, if◌then◌else◌, map,
}
use campus_hub.Py.{
  Result, ok, err, runtime_error, key_error, index_error, type_error, Json, null, bool, num, str,
  arr, obj, Items, nil, cons, Fields, end, field, get, is_text, codes, has_prefix, has_infix,
  json_eq, Number, nat, num_eq, num_lt, to_int, ℤ, pos, negsuc, items,
}
use campus_hub.FlashSale.Evidence.{split_lines}
use campus_hub.Harness.Values.{is_truthy, targets, has_port, sample_value, header, occurs}
use campus_hub.Harness.World.{World, Event, wrote, Response}
use campus_hub.Harness.Exec.{
  State, Exec, ◌>>=◌, ◌>>◌, pure, raise, lift, assert, finally, passing, monotonic, sleep, Polled,
  found, late, out_of_fuel, poll,
}
use campus_hub.Harness.Compose.{
  run, compose, request, request_with, parse, app_base, is_local, wait_ready, check, cleanup,
}

unfoldable pub query : String → String → Exec Json
query base expression w s =
    (do
      response ← request base ("/api/v1/query?" <> w.urlencode (("query", expression) ∷ [])) 200
      answer ← parse response.body
      status ← lift (get answer "status")
      assert (is_text status "success") "Prometheus query failed"
      inner ← lift (get answer "data")
      lift (get inner "result"))
      w s

-- One round of `await_series`.
unfoldable pub has_series : String → String → Exec (Option Json)
has_series base expression =
    passing
      (do result ← query base expression; pure (if is_truthy result then some result else none))

unfoldable pub series_loop : String → String → Exec (Polled Json)
series_loop base expression = do
  now ← monotonic
  poll 1000 (now + 45000) (has_series base expression) 45

abbrev series_result : Polled Json → Exec Json
series_result (found j) = pure j
series_result late = raise (runtime_error "Prometheus did not ingest expected series")
series_result out_of_fuel = raise (runtime_error "Prometheus did not ingest expected series")

unfoldable pub await_series : String → String → Exec Json
await_series base expression = series_loop base expression >>= series_result

abbrev pub is_elsewhere : Option String → Bool
is_elsewhere none = false
is_elsewhere (some host) = not (host == "") && not (has_prefix (codes "unix://") (codes host))

unfoldable pub local_override : Exec (Unit {0})
local_override w s =
    (if is_elsewhere w.docker_host
        then raise (runtime_error "acceptance rejects non-local DOCKER_HOST overrides")
        else pure tt)
      w s

unfoldable pub no_volumes : Exec (Unit {0})
no_volumes w s =
    (do
      names ← run 120 (
          "docker"
          ∷ "volume"
          ∷ "ls"
          ∷ "--filter"
          ∷ ("label=com.docker.compose.project=" <> w.project)
          ∷ "--format"
          ∷ "{{.Name}}"
          ∷ [])
      assert (names == "") "project volumes must be fresh")
      w s

-- What `main` makes sure of before it owns anything.
unfoldable pub preflight : Exec (Unit {0})
preflight = do
  local_override
  endpoint ←
      run 120 ("docker" ∷ "context" ∷ "inspect" ∷ "--format" ∷ "{{.Endpoints.docker.Host}}" ∷ [])
  assert (has_prefix (codes "unix://") (codes endpoint)) "acceptance requires a local Docker engine"
  containers ← compose 120 ("--profile" ∷ "app" ∷ "ps" ∷ "-aq" ∷ [])
  assert (containers == "") "project must be fresh"
  no_volumes

-- The listeners: those of the application and of Prometheus.
pub record Targets : Type 0 where
  pub app : String
  pub prom : String

unfoldable pub is_scraped : Exec Targets
is_scraped w s =
    (do
      _ ←
          compose 240 (
            "--profile" ∷ "app" ∷ "up" ∷ "-d" ∷ "--build" ∷ "--wait" ∷ "--wait-timeout" ∷ "180"
            ∷ [])
      _ ← compose 120 (
          "exec" ∷ "-T" ∷ "prometheus" ∷ "/bin/promtool" ∷ "check" ∷ "config"
          ∷ "/etc/prometheus/prometheus.yml" ∷ [])
      app ← app_base
      port ← compose 120 ("port" ∷ "app" ∷ "9090" ∷ [])
      assert (is_local port) ""
      let prom = "http://" <> port
      text ← compose 120 ("--profile" ∷ "app" ∷ "config" ∷ "--format" ∷ "json" ∷ [])
      config ← parse text
      ports ← lift (targets w config)
      assert (not (has_port 8082 ports)) ""
      _ ← run 120 ((w.root <> "/scripts/smoke-test.sh") ∷ app ∷ [])
      _ ← await_series prom "up{job=\"campushub\"} == 1"
      check "real Prometheus scrape is UP; management port is not published"
      pure (record { app = app; prom = prom }))
      w s

unfoldable pub actuator_closed : String → Exec (Unit {0})
actuator_closed app = do
  _ ← request app "/actuator/prometheus" 401
  _ ← request app "/actuator/env" 401
  _ ← request app "/actuator/heapdump" 401
  check "business listener does not expose anonymous Actuator endpoints"

abbrev marker : String
marker = "synthetic-phase6a-query-marker"

-- `json.loads(body)["success"] is True`
abbrev pub is_true : Json → Bool
is_true (bool b) = b
is_true _ = false

-- Returns the identifier that the application gave to the search.
unfoldable pub identifies_requests : Targets → Exec String
identifies_requests t w s =
    (do
      searched ←
          request_with t.app ("/shop/search?keyword=" <> marker) 200 "GET" none
            (("X-Request-Id", "untrusted-client-id") ∷ [])
      answer ← parse searched.body
      success ← lift (get answer "success")
      assert (is_true success) ""
      id ← lift (header "X-Request-Id" searched.headers)
      lift (w.uuid_of id)
      assert (not (id == "untrusted-client-id")) ""
      _ ← request t.app "/shop/search?page=0" 400
      denied ← request t.app "/upload/blog/delete?name=synthetic" 401
      denied_id ← lift (header "X-Request-Id" denied.headers)
      lift (w.uuid_of denied_id)
      _ ←
          await_series t.prom
            "http_server_requests_seconds_count{uri=\"/shop/search\",status=\"400\"}"
      _ ←
          await_series t.prom
            "http_server_requests_seconds_bucket{uri=\"/shop/search\",status=\"200\"}"
      _ ← await_series t.prom "http_server_requests_seconds_count{status=\"401\"}"
      check "generated request IDs and HTTP success/error histogram series are collected"
      pure id)
      w s

abbrev lines_with : String → List String → List String
lines_with word [] = []
lines_with word (line ∷ rest) =
    if occurs word line then line ∷ lines_with word rest else lines_with word rest

-- `"\n".join(lines)`
abbrev join_lines : List String → String
join_lines [] = ""
join_lines (line ∷ []) = line
join_lines (line ∷ next ∷ rest) = line <> "\n" <> join_lines (next ∷ rest)

unfoldable pub keeps_secrets : Targets → String → Exec (Unit {0})
keeps_secrets t id w s =
    (do
      _ ← await_series t.prom "jvm_memory_used_bytes{application=\"campushub\"}"
      _ ← await_series t.prom "hikaricp_connections{application=\"campushub\"}"
      all_samples ← query t.prom "{application=\"campushub\"}"
      let samples = w.dumps all_samples
      assert
          (not (occurs marker samples)
            && not (occurs "untrusted-client-id" samples)
            && not (occurs id samples))
          ""
      assert
          (not (occurs "synthetic-only-db-password" samples)
            && not (occurs "synthetic-only-redis-password" samples))
          ""
      logs ← compose 120 ("logs" ∷ "--no-color" ∷ "app" ∷ [])
      let summary = join_lines (lines_with "request method=" (split_lines logs))
      assert
          (not (summary == "")
            && not (occurs marker summary)
            && not (occurs "untrusted-client-id" summary))
          ""
      check
          "JVM and Hikari metrics exist; samples and request summaries exclude fixture secrets/identifiers")
      w s

-- One round of the wait for a scrape that is younger than the outage.
unfoldable pub scraped_since : String → Number → Exec (Option (Unit {0}))
scraped_since prom outage w s =
    (do
      timestamp ← query prom "timestamp(up{job=\"campushub\"})"
      since ← (if is_truthy timestamp then value timestamp else pure false)
      if since then still_up else pure none)
      w s
  where
    value : Json → Exec Bool
    value timestamp = lift (sample_value w timestamp) >>= λ x. pure (num_lt outage x)

    still_up : Exec (Option (Unit {0}))
    still_up = do
      up ← query prom "up{job=\"campushub\"} == 1"
      assert (is_truthy up) ""
      pure (some tt)

unfoldable pub outage_loop : String → Number → Exec (Polled (Unit {0}))
outage_loop prom outage = do now ← monotonic; poll 1000 (now + 30000) (scraped_since prom outage) 30

abbrev outage_result : Polled (Unit {0}) → Exec (Unit {0})
outage_result (found _) = pure tt
outage_result late = raise (runtime_error "no fresh scrape during dependency outage")
outage_result out_of_fuel = raise (runtime_error "no fresh scrape during dependency outage")

-- `{"status": word}`
abbrev pub status_json : String → Json
status_json word = obj (field "status" (str word) end)

unfoldable pub survives_outage : Targets → Exec (Unit {0})
survives_outage t w s =
    (do
      _ ← compose 120 ("stop" ∷ "redis" ∷ [])
      outage ← time
      unready ← request t.app "/health/ready" 503
      state ← parse unready.body
      assert (json_eq state (status_json "DOWN")) ""
      _ ← request t.app "/health/live" 200
      waited ← outage_loop t.prom outage
      outage_result waited
      check "dependency outage is DOWN while a fresh Prometheus scrape still succeeds"
      _ ← compose 120 ("up" ∷ "-d" ∷ "--wait" ∷ "--wait-timeout" ∷ "60" ∷ "redis" ∷ [])
      wait_ready t.app)
      w s
  where
    time : Exec Number
    time v u = (ok (v.time u.history), u)

abbrev labels : List String → Items
labels [] = nil
labels (label ∷ rest) = cons (str label) (labels rest)

abbrev first_line : List String → Result String
first_line [] = err index_error
first_line (line ∷ rest) = ok line

unfoldable pub report : Exec (Unit {0})
report = do
  printed ← compose 120 ("exec" ∷ "-T" ∷ "prometheus" ∷ "/bin/prometheus" ∷ "--version" ∷ [])
  version ← lift (first_line (split_lines printed))
  write version
  where
    write : String → Exec (Unit {0})
    write version w s = (
      ok tt,
      record s {
        history =
            wrote (w.artifacts <> "/observability-result.json") (
              w.dumps (
                obj (
                  field "checks" (arr (labels s.passed)) (
                    field "prometheus" (str version) (
                      field "scope"
                        (str
                          "synthetic correctness/scrape acceptance; not load, latency or production reliability evidence")
                        end)))))
            ∷ s.history;
      },
    )

-- What `main` does to the stack while it owns it.
unfoldable pub accept : Exec (Unit {0})
accept = do
  t ← is_scraped
  actuator_closed t.app
  id ← identifies_requests t
  keeps_secrets t id
  survives_outage t
  report

unfoldable pub main : Exec (Unit {0})
main = preflight >> finally accept cleanup
