-- ===== src/FlashSale/Aggregate.antt =====
-- `aggregate` of scripts/run-flash-sale-baseline.py, over the six measured cohorts.
pub mod Grid
use campus_hub.Prelude.{
  ℕ, Bool, true, false, ◌&&◌, List, [], ◌∷◌, String, length, map, if◌then◌else◌, ◌==◌, nat_eq,
}
use campus_hub.Py.{Result, ok, err, value_error, ◌>>=◌, ◌>>◌, require, traverse, Number}
use campus_hub.Baseline.Metric.{Timing}
use campus_hub.Baseline.Sample.{are_repeats, Spread, spread}
use campus_hub.FlashSale.Ids.{cohorts}
use campus_hub.FlashSale.Summary.{Measured, Durations}
use campus_hub.FlashSale.Ledger.{Verified}

-- What `cohort` returns of one run of k6.
pub record Cohort : Type 0 where
  pub repeat : ℕ
  pub measured : Measured
  pub ledger : Verified
  pub driver_load_wall_seconds : Number
  pub load_exit_to_all_orders_observed_seconds : Number

-- A measured cohort with its warm-up, as `main` keeps it.
pub record Run : Type 0 where
  pub cohort : Cohort
  pub warmup : Cohort

abbrev pub actors_of : Run → ℕ
actors_of r = r.cohort.measured.actors

unfoldable pub select : ℕ → List Run → List Run
select actors [] = []
select actors (r ∷ rs) =
    let rest = select actors rs in if actors_of r == actors then r ∷ rest else rest

pub record Row : Type 0 where
  pub actors : ℕ
  pub repeats : ℕ
  pub drain : Spread
  pub new_p95 : Spread
  pub new_p99 : Spread
  pub replayed_p95 : Spread
  pub replayed_p99 : Spread
  pub sold_out_p95 : Spread
  pub sold_out_p99 : Spread

-- `[row["measured"]["client_duration_ms"][outcome][quantile] for row in selected]`
sample : (Durations → Timing) → (Timing → Number) → List Run → List Number
sample outcome quantile = map (λ r. quantile (outcome r.cohort.measured.client_duration_ms))

unfoldable pub aggregate_row : List Run → ℕ → Result Row
unfolding sample
aggregate_row runs actors = do
  let selected = select actors runs
  require (are_repeats (map (λ r. r.cohort.repeat) selected))
      (value_error "three distinct repeats required per population")
  drain ← spread (map (λ r. r.cohort.load_exit_to_all_orders_observed_seconds) selected)
  a ← spread (sample (λ d. d.admission_new) (λ t. t.p95) selected)
  b ← spread (sample (λ d. d.admission_new) (λ t. t.p99) selected)
  c ← spread (sample (λ d. d.admission_replayed) (λ t. t.p95) selected)
  d ← spread (sample (λ d. d.admission_replayed) (λ t. t.p99) selected)
  e ← spread (sample (λ d. d.admission_sold_out) (λ t. t.p95) selected)
  f ← spread (sample (λ d. d.admission_sold_out) (λ t. t.p99) selected)
  ok (record {
    actors = actors;
    repeats = 3;
    drain = drain;
    new_p95 = a;
    new_p99 = b;
    replayed_p95 = c;
    replayed_p99 = d;
    sold_out_p95 = e;
    sold_out_p99 = f;
  })

unfoldable pub aggregate : List Run → Result (List Row)
aggregate runs = do
  require (length runs == 6) (value_error "six formal cohorts required")
  traverse (aggregate_row runs) cohorts
