-- ===== src/Baseline/Summary.antt =====
-- `validate_summary` of scripts/run-performance-baseline.py: the k6 export of one read trial.
pub mod Counts
pub mod Sound
use campus_hub.Prelude.{
  ℕ, zero, suc, ◌*◌, Bool, true, false, ◌&&◌, ◌||◌, List, [], ◌∷◌, String, ◌<>◌, Option, none, some,
  not, if◌then◌else◌, nat_eq, ◌==◌,
}
use campus_hub.Py.{
  Result, ok, err, value_error, type_error, ◌>>=◌, ◌>>◌, require, for_each, Number, nat, int, float,
  infinite, nan, num_eq, num_le, to_int, ℤ, times, Json, null, bool, num, str, arr, obj, get,
  get_or, has_key, codes, has_prefix, has_infix, iterate,
}
use campus_hub.Baseline.Metric.{number, metric_values, Timing, timing_values}

-- `values.get("rate", values.get("value"))`
unfoldable pub rate_or_value : Json → Result Json
rate_or_value values = do fallback ← get_or values "value" null; get_or values "rate" fallback

abbrev phases : List String
phases = "blocked" ∷ "connecting" ∷ "tls_handshaking" ∷ "sending" ∷ "waiting" ∷ "receiving" ∷ []

phase : Json → String → Result (Unit {0})
phase summary name = do _ ← timing_values summary ("http_req_" <> name); ok tt

-- A tagged series of `http_req_` that has a minimum is a timing too.
tagged : Json → String → Result (Unit {0})
tagged summary name =
    let check = (do
      values ← metric_values summary name
      timed ← has_key values "min"
      if timed then (do _ ← timing_values summary name; ok tt) else ok tt) in
    if has_prefix (codes "http_req_") (codes name) && has_infix (codes "{") (codes name)
    then check
    else ok tt

-- Both validators read the six phases and the tagged series of the metrics.
unfoldable pub check_series : Json → Result (Unit {0})
unfolding phase tagged
check_series summary = do
  for_each (phase summary) phases
  metrics ← get summary "metrics"
  names ← iterate metrics
  for_each (tagged summary) names

pub record Measured : Type 0 where
  pub requests : ℤ
  pub requests_per_second : Number
  pub http_req_duration_ms : Timing
  pub http_error_rate : ℕ
  pub business_errors : ℕ
  pub checks_passed : ℤ

-- `checks_per_request is not None and passes != checks_per_request * count` raises; the script asks
-- for 4 or 7 checks.
abbrev as_expected : Option ℕ → Number → Number → Bool
as_expected none passes count = true
as_expected (some per_request) passes count = num_eq passes (times per_request count)

check_requests : Json → Result (Number × ℤ × Number)
check_requests summary = do
  requests ← metric_values summary "http_reqs"
  counted ← get requests "count"
  count ← number counted
  rated ← get requests "rate"
  rate ← number rated
  whole ← to_int count
  require (not (num_le count (nat 0)) && num_eq count (int whole) && not (num_le rate (nat 0)))
      (value_error "no completed measured requests")
  ok (count, whole, rate)

check_checks : Json → Json → Option ℕ → Number → Result ℤ
check_checks summary checks per_request count = do
  rated ← rate_or_value checks
  rate ← number rated
  require (num_eq rate (nat 1)) (value_error "response contract checks failed")
  failures ← get checks "fails"
  fails ← number failures
  require (num_eq fails (nat 0)) (value_error "response contract checks failed")
  passing ← get checks "passes"
  passes ← number passing
  whole ← to_int passes
  require
      (not (num_le passes (nat 0))
        && num_eq passes (int whole)
        && as_expected per_request passes count)
      (value_error "missing response contract checks")
  ok whole

-- `number(metric_values(summary, name)["count"])`
counter : Json → String → Result Number
counter summary name = do
  values ← metric_values summary name
  count ← get values "count"
  number count

unfoldable pub validate_summary : Json → Option ℕ → Result Measured
unfolding check_requests check_checks counter
validate_summary summary checks_per_request = do
  (count, requests, rate) ← check_requests summary
  checks ← metric_values summary "checks"
  failed ← metric_values summary "http_req_failed"
  passes ← check_checks summary checks checks_per_request count
  failure ← rate_or_value failed
  failures ← number failure
  require (num_eq failures (nat 0)) (value_error "HTTP failures invalidate this baseline")
  errors ← counter summary "business_errors"
  require (num_eq errors (nat 0)) (value_error "business failures invalidate this baseline")
  iterations ← counter summary "iterations"
  require (num_eq iterations count) (value_error "incomplete or extra-request iterations")
  latency ← timing_values summary "http_req_duration"
  check_series summary
  ok (record {
    requests = requests;
    requests_per_second = rate;
    http_req_duration_ms = latency;
    http_error_rate = 0;
    business_errors = 0;
    checks_passed = passes;
  })
