-- ===== src/Tests/Summary.antt =====
-- The k6 exports of a warm-up cohort of ten actors and of a read trial.
use campus_hub.Prelude.{ℕ, ◌≡◌, refl, ◌*◌, ◌/◌, String, List, [], ◌∷◌, nat_eq, string_eq}
use campus_hub.Py.{
  ok, ◌>>=◌, exceeds_float, Json, num, nat, obj, Fields, end, field, get, get_or, for_each, iterate,
  has_prefix, has_infix, entries, has_item, has_key, lookup, num_eq, num_le, num_lt, to_int,
}
use campus_hub.Baseline.Metric.{Timing, number, metric_values, integer, timing_values}
use campus_hub.Baseline.Summary.{rate_or_value, check_series}
use campus_hub.FlashSale.Ids.{is_cohort}
use campus_hub.FlashSale.Summary.{Measured, validate_summary}
use campus_hub.FlashSale.Summary.Model.{
  IsChecked, IsCounted, IsHalfStock, IsTimed, validate_summary_sound,
}

abbrev pub number_field : String → ℕ → Fields → Fields
number_field name n fs = field name (num (nat n)) fs

abbrev pub trend : Json
trend = obj (
    number_field "avg" 2 (
      number_field "min" 1 (
        number_field "med" 2 (
          number_field "p(90)" 3
            (number_field "p(95)" 4 (number_field "p(99)" 5 (number_field "max" 6 end)))))))

abbrev pub trends : List String → Fields → Fields
trends [] fs = fs
trends (name ∷ rest) fs = field name trend (trends rest fs)

abbrev pub durations : List String
durations =
    "http_req_duration" ∷ "http_req_blocked" ∷ "http_req_connecting" ∷ "http_req_tls_handshaking"
    ∷ "http_req_sending" ∷ "http_req_waiting" ∷ "http_req_receiving"
    ∷ "http_req_sending{status:200}" ∷ []

abbrev count : String → ℕ → Fields → Fields
count name n fs = field name (obj (number_field "count" n end)) fs

abbrev export : ℕ → Json
export n = obj (
    field "metrics"
      (obj (
        field "http_reqs" (obj (number_field "count" (2 * n) (number_field "rate" 10 end))) (
          count "iterations" n (
            field "checks"
              (obj (
                number_field "value" 1
                  (number_field "passes" (6 * n) (number_field "fails" 0 end))))
              (field "http_req_failed" (obj (number_field "value" 0 end)) (
                count "admission_new" (n / 2) (
                  count "admission_replayed" (n / 2) (
                    count "admission_sold_out" n (
                      count "unexpected_outcomes" 0 (
                        trends
                          ("admission_new_ms" ∷ "admission_replayed_ms" ∷ "admission_sold_out_ms"
                            ∷ [])
                          (trends durations end)))))))))))
      end)

abbrev timing : Timing
timing = record {
  avg = nat 2;
  min = nat 1;
  med = nat 2;
  max = nat 6;
  p90 = nat 3;
  p95 = nat 4;
  p99 = nat 5;
}

abbrev measured : Measured
measured = record {
  actors = 10;
  initial_stock = 5;
  requests = 20;
  iterations = 10;
  checks_passed = 60;
  outcomes = record {
    admission_new = 5;
    admission_replayed = 5;
    admission_sold_out = 10;
    unexpected_outcomes = 0;
  };
  batch_http_requests_per_second = nat 10;
  client_duration_ms = record {
    all_http = timing;
    admission_new = timing;
    admission_replayed = timing;
    admission_sold_out = timing;
  };
  unexpected_http_error_rate = 0;
}

accepted : validate_summary (export 10) 10 ≡ ok measured
unfolding validate_summary ◌>>=◌ is_cohort nat_eq metric_values get string_eq get_or integer number
    exceeds_float num_lt to_int num_eq num_le rate_or_value timing_values check_series for_each
    iterate has_prefix has_infix entries has_item has_key lookup
accepted = refl

validate_summary_sound_example :
    (measured.actors ≡ 10)
    × IsChecked (export 10) 10
    × IsCounted (export 10) measured.outcomes
    × IsHalfStock measured
    × IsTimed (export 10) measured.client_duration_ms
validate_summary_sound_example = validate_summary_sound (export 10) 10 measured accepted
