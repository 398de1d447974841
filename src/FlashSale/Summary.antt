-- ===== src/FlashSale/Summary.antt =====
-- `validate_summary` of scripts/run-flash-sale-baseline.py: the k6 export of one cohort.
pub mod Model
use campus_hub.Prelude.{
  ℕ, ◌+◌, ◌*◌, ◌/◌, Bool, true, false, ◌&&◌, ◌||◌, List, [], ◌∷◌, String, ◌<>◌, not, if◌then◌else◌,
  nat_eq, ◌==◌,
}
use campus_hub.Py.{
  Result, ok, err, value_error, ◌>>=◌, ◌>>◌, require, Number, nat, num_eq, num_le, Json, get,
}
use campus_hub.Baseline.Metric.{number, metric_values, integer, Timing, timing_values}
use campus_hub.Baseline.Summary.{rate_or_value, check_series}
use campus_hub.FlashSale.Ids.{is_cohort}

-- The counts of `OUTCOMES`.
pub record Outcomes : Type 0 where
  pub admission_new : ℕ
  pub admission_replayed : ℕ
  pub admission_sold_out : ℕ
  pub unexpected_outcomes : ℕ

pub record Durations : Type 0 where
  pub all_http : Timing
  pub admission_new : Timing
  pub admission_replayed : Timing
  pub admission_sold_out : Timing

pub record Measured : Type 0 where
  pub actors : ℕ
  pub initial_stock : ℕ
  pub requests : ℕ
  pub iterations : ℕ
  pub checks_passed : ℕ
  pub outcomes : Outcomes
  pub batch_http_requests_per_second : Number
  pub client_duration_ms : Durations
  pub unexpected_http_error_rate : ℕ

-- `integer(values(name)["count"], minimum)`
pub count_of : Json → String → ℕ → Result ℕ
count_of summary name minimum = do
  values ← metric_values summary name
  count ← get values "count"
  integer count minimum

check_responses : Json → ℕ → Result (Unit {0})
check_responses summary actors = do
  checks ← metric_values summary "checks"
  rated ← rate_or_value checks
  rate ← number rated
  require (num_eq rate (nat 1)) (value_error "response/replay checks failed or missing")
  failures ← get checks "fails"
  fails ← integer failures 0
  require (fails == 0) (value_error "response/replay checks failed or missing")
  passing ← get checks "passes"
  passes ← integer passing 0
  require (passes == 6 * actors) (value_error "response/replay checks failed or missing")
  failed ← metric_values summary "http_req_failed"
  error_rate ← rate_or_value failed
  errors ← number error_rate
  require (num_eq errors (nat 0)) (value_error "unexpected transport/HTTP error")

check_outcomes : Json → ℕ → Result Outcomes
check_outcomes summary actors = do
  created ← count_of summary "admission_new" 0
  replayed ← count_of summary "admission_replayed" 0
  sold_out ← count_of summary "admission_sold_out" 0
  unexpected ← count_of summary "unexpected_outcomes" 0
  require (created == actors / 2 && replayed == actors / 2 && sold_out == actors && unexpected == 0)
      (value_error "outcome counts do not match the finite half-stock model")
  ok (record {
    admission_new = created;
    admission_replayed = replayed;
    admission_sold_out = sold_out;
    unexpected_outcomes = unexpected;
  })

check_durations : Json → Result Durations
check_durations summary = do
  all_http ← timing_values summary "http_req_duration"
  check_series summary
  created ← timing_values summary "admission_new_ms"
  replayed ← timing_values summary "admission_replayed_ms"
  sold_out ← timing_values summary "admission_sold_out_ms"
  ok (record {
    all_http = all_http;
    admission_new = created;
    admission_replayed = replayed;
    admission_sold_out = sold_out;
  })

unfoldable pub validate_summary : Json → ℕ → Result Measured
unfolding count_of check_responses check_outcomes check_durations
validate_summary summary actors = do
  require (is_cohort actors) (value_error "unsupported cohort")
  requests ← count_of summary "http_reqs" 1
  iterations ← count_of summary "iterations" 1
  require (requests == 2 * actors && iterations == actors)
      (value_error "incomplete cohort or unexpected extra requests")
  check_responses summary actors
  outcomes ← check_outcomes summary actors
  durations ← check_durations summary
  measured ← metric_values summary "http_reqs"
  rated ← get measured "rate"
  rate ← number rated
  require (not (num_le rate (nat 0))) (value_error "invalid finite-batch request rate")
  ok (record {
    actors = actors;
    initial_stock = actors / 2;
    requests = requests;
    iterations = iterations;
    checks_passed = 6 * actors;
    outcomes = outcomes;
    batch_http_requests_per_second = rate;
    client_duration_ms = durations;
    unexpected_http_error_rate = 0;
  })
