-- ===== src/Tests/Aggregate.antt =====
-- Six measured cohorts.
use campus_hub.Prelude.{ℕ, ◌*◌, ◌≡◌, refl, List, [], ◌∷◌, map, nat_eq, list_eq, All}
use campus_hub.Py.{ok, ◌>>=◌, exceeds_float, nat, traverse, num_lt, num_le}
use campus_hub.Baseline.Metric.{Timing, number}
use campus_hub.Baseline.Sample.{Spread, spread, are_repeats, sort, median, min_of, max_of}
use campus_hub.FlashSale.Ids.{cohorts}
use campus_hub.FlashSale.Ledger.{verified_ledger}
use campus_hub.FlashSale.Summary.{Measured}
use campus_hub.FlashSale.Aggregate.{Cohort, Run, Row, select, aggregate, aggregate_row}
use campus_hub.FlashSale.Aggregate.Grid.{IsGrid, IsRow, aggregate_sound}

abbrev timing : ℕ → Timing
timing n = record {
  avg = nat 2;
  min = nat 1;
  med = nat 2;
  max = nat 9;
  p90 = nat 3;
  p95 = nat n;
  p99 = nat 8;
}

abbrev measured : ℕ → ℕ → ℕ → Measured
measured n half p95 = record {
  actors = n;
  initial_stock = half;
  requests = 2 * n;
  iterations = n;
  checks_passed = 6 * n;
  outcomes = record {
    admission_new = half;
    admission_replayed = half;
    admission_sold_out = n;
    unexpected_outcomes = 0;
  };
  batch_http_requests_per_second = nat 10;
  client_duration_ms = record {
    all_http = timing p95;
    admission_new = timing p95;
    admission_replayed = timing p95;
    admission_sold_out = timing p95;
  };
  unexpected_http_error_rate = 0;
}

abbrev cohort : ℕ → ℕ → ℕ → ℕ → Cohort
cohort n half repeat p95 = record {
  repeat = repeat;
  measured = measured n half p95;
  ledger = verified_ledger half;
  driver_load_wall_seconds = nat 2;
  load_exit_to_all_orders_observed_seconds = nat repeat;
}

abbrev run : ℕ → ℕ → ℕ → ℕ → Run
run n half repeat p95 = record { cohort = cohort n half repeat p95; warmup = cohort 10 5 0 4 }

abbrev runs : List Run
runs =
    run 200 100 3 4
    ∷ run 20 10 2 6
    ∷ run 20 10 1 4
    ∷ run 200 100 1 5
    ∷ run 20 10 3 5
    ∷ run 200 100 2 7
    ∷ []

abbrev spread_of : ℕ → ℕ → ℕ → Spread
spread_of low mid high = record { median = nat mid; min = nat low; max = nat high }

abbrev row : ℕ → Spread → Row
row n p95 = record {
  actors = n;
  repeats = 3;
  drain = spread_of 1 2 3;
  new_p95 = p95;
  new_p99 = spread_of 8 8 8;
  replayed_p95 = p95;
  replayed_p99 = spread_of 8 8 8;
  sold_out_p95 = p95;
  sold_out_p99 = spread_of 8 8 8;
}

abbrev rows : List Row
rows = row 20 (spread_of 4 5 6) ∷ row 200 (spread_of 4 5 7) ∷ []

aggregated : aggregate runs ≡ ok rows
unfolding aggregate aggregate_row select spread are_repeats sort median min_of max_of traverse
    number exceeds_float num_le num_lt ◌>>=◌ nat_eq list_eq
aggregated = refl

aggregate_sound_example :
    IsGrid runs × All (IsRow runs) rows × (map (λ row. row.actors) rows ≡ cohorts)
aggregate_sound_example = aggregate_sound runs rows aggregated
