-- ===== src/Tests/Trials.antt =====
-- Twelve measured read trials.
use campus_hub.Prelude.{
  ℕ, ◌≡◌, refl, true, String, List, [], ◌∷◌, map, any, nat_eq, list_eq, string_eq, All, some, ◌<◌,
  arith,
}
use campus_hub.Py.{
  ok, ◌>>=◌, exceeds_float, times, float, rounded, round_to, excess, is_beyond, Json, obj, field,
  end, get, get_or, for_each, iterate, has_prefix, has_infix, entries, has_item, has_key, lookup,
  to_int, num_eq, nat, pos, traverse, num_lt, num_le,
}
use campus_hub.Baseline.Metric.{number, metric_values, timing_values}
use campus_hub.Baseline.Sample.{Spread, spread_of, are_repeats, sort, median, min_of, max_of}
use campus_hub.Baseline.Metric.Laws.{whole}
use campus_hub.Baseline.Summary.{Measured, validate_summary, rate_or_value, check_series}
use campus_hub.Baseline.Summary.Sound.{IsMeasured, AsExpected, validate_measured_sound}
use campus_hub.Baseline.Aggregate.{
  shop_detail_warm, shop_search_mysql, case_grid, Run, is_of, Row, select, aggregate, aggregate_row,
}
use campus_hub.Baseline.Aggregate.Grid.{HasRepeats, IsRow, aggregate_trials_sound}
use campus_hub.Tests.Summary.{number_field, trends, durations}

abbrev measured : ℕ → Measured
measured rate = record {
  requests = pos 100;
  requests_per_second = nat rate;
  http_req_duration_ms = record {
    avg = nat 2;
    min = nat 1;
    med = nat 2;
    max = nat 6;
    p90 = nat 3;
    p95 = nat 4;
    p99 = nat 5;
  };
  http_error_rate = 0;
  business_errors = 0;
  checks_passed = pos 400;
}

abbrev run : String → ℕ → ℕ → ℕ → Run
run scenario vus repeat rate = record {
  scenario = scenario;
  vus = vus;
  repeat = repeat;
  measured = measured rate;
}

abbrev runs : List Run
runs =
    run shop_search_mysql 10 2 7
    ∷ run shop_search_mysql 10 1 9
    ∷ run shop_search_mysql 10 3 8
    ∷ run shop_detail_warm 1 1 7
    ∷ run shop_detail_warm 1 2 8
    ∷ run shop_detail_warm 1 3 9
    ∷ run shop_detail_warm 10 3 8
    ∷ run shop_detail_warm 10 2 7
    ∷ run shop_detail_warm 10 1 9
    ∷ run shop_search_mysql 1 1 9
    ∷ run shop_search_mysql 1 2 7
    ∷ run shop_search_mysql 1 3 8
    ∷ []

abbrev around : ℕ → ℕ → ℕ → Spread
around low mid high = record { median = nat mid; min = nat low; max = nat high }

abbrev row : String × ℕ → Row
row (scenario, vus) = record {
  scenario = scenario;
  vus = vus;
  repeats = 3;
  requests_per_second = around 7 8 9;
  per_run_p95_ms = around 4 4 4;
  per_run_p99_ms = around 5 5 5;
}

abbrev rows : List Row
rows = map row case_grid

aggregated : aggregate runs ≡ ok rows
unfolding aggregate aggregate_row select spread_of are_repeats sort median min_of max_of traverse
    number num_le num_lt ◌>>=◌ nat_eq list_eq string_eq
aggregated = refl

-- The export of such a trial, of four checks for each request.
abbrev export : ℕ → Json
export rate = obj (
    field "metrics"
      (obj (
        field "http_reqs" (obj (number_field "count" 100 (number_field "rate" rate end))) (
          field "iterations" (obj (number_field "count" 100 end)) (
            field "checks"
              (obj (number_field "rate" 1 (number_field "passes" 400 (number_field "fails" 0 end))))
              (field "http_req_failed" (obj (number_field "rate" 0 end)) (
                field "business_errors" (obj (number_field "count" 0 end))
                  (trends durations end)))))))
      end)

accepted : validate_summary (export 8) (some 4) ≡ ok (measured 8)
unfolding validate_summary ◌>>=◌ nat_eq metric_values get string_eq get_or number exceeds_float
    num_lt to_int num_eq num_le rate_or_value timing_values check_series for_each iterate has_prefix
    has_infix entries has_item has_key lookup
accepted = refl

-- 7 * 4503599627370497.0 is not a float: 31525197391593479 is rounded to the even neighbour.
rounds : times 7 (float (pos 4503599627370497) 0) ≡ float (pos 31525197391593480) 0
unfolding rounded round_to excess is_beyond nat_eq
rounds = refl

validate_measured_sound_example :
    IsMeasured (measured 8)
    × AsExpected (some 4) (measured 8)
    × (timing_values (export 8) "http_req_duration" ≡ ok (measured 8).http_req_duration_ms)
validate_measured_sound_example = validate_measured_sound (export 8) (some 4) (measured 8) accepted

-- What is known of the measurement at other rates.
measured_at : (rate : ℕ) → 0 < rate → IsMeasured (measured rate)
unfolding num_le
measured_at rate h =
    let known = (validate_measured_sound (export 8) (some 4) (measured 8) accepted).0 in
    record {
      requests = refl;
      some_request = omega arith;
      rate = whole rate;
      positive_rate = ground arith;
      series = known.series;
      ordered = known.ordered;
      checks = refl;
      some_check = omega arith;
    }

runs_measured : All (λ r. IsMeasured r.measured) runs
runs_measured =
    let a = measured_at 7 (omega arith) in
    let b = measured_at 8 (omega arith) in
    let c = measured_at 9 (omega arith) in
    (a, (c, (b, (a, (b, (c, (b, (a, (c, (c, (a, (b, tt))))))))))))

aggregate_trials_sound_example :
    All (HasRepeats runs) case_grid
    × All (λ r. any (λ cell. is_of cell r) case_grid ≡ true) runs
    × All (IsRow runs) rows
    × (map (λ row. (row.scenario, row.vus)) rows ≡ case_grid)
aggregate_trials_sound_example = aggregate_trials_sound runs rows runs_measured aggregated
