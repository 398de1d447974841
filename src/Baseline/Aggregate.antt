-- ===== src/Baseline/Aggregate.antt =====
-- `aggregate` of scripts/run-performance-baseline.py, over the twelve measured trials.
pub mod Grid
use campus_hub.Prelude.{
  ℕ, Bool, true, false, ◌&&◌, List, [], ◌∷◌, String, length, map, if◌then◌else◌, ◌==◌, nat_eq,
  string_eq,
}
use campus_hub.Py.{Result, ok, err, value_error, ◌>>=◌, ◌>>◌, require, traverse, Number}
use campus_hub.Baseline.Metric.{Timing}
use campus_hub.Baseline.Summary.{Measured}
use campus_hub.Baseline.Sample.{are_repeats, Spread, spread_of}

abbrev pub shop_detail_warm : String
shop_detail_warm = "shop_detail_warm"

abbrev pub shop_search_mysql : String
shop_search_mysql = "shop_search_mysql"

-- `CASES`, each with the numbers of virtual users, in the order of the loops.
abbrev pub case_grid : List (String × ℕ)
case_grid =
    (shop_detail_warm, 1)
    ∷ (shop_detail_warm, 10)
    ∷ (shop_search_mysql, 1)
    ∷ (shop_search_mysql, 10)
    ∷ []

-- What is aggregated of a trial that `main` keeps.
pub record Run : Type 0 where
  pub scenario : String
  pub vus : ℕ
  pub repeat : ℕ
  pub measured : Measured

-- `run["case"] == case and run["vus"] == vus`
abbrev pub is_of : String × ℕ → Run → Bool
is_of (scenario, vus) r = r.scenario == scenario && r.vus == vus

unfoldable pub select : String × ℕ → List Run → List Run
select cell [] = []
select cell (r ∷ rs) = let rest = select cell rs in if is_of cell r then r ∷ rest else rest

pub record Row : Type 0 where
  pub scenario : String
  pub vus : ℕ
  pub repeats : ℕ
  pub requests_per_second : Spread
  pub per_run_p95_ms : Spread
  pub per_run_p99_ms : Spread

unfoldable pub aggregate_row : List Run → String × ℕ → Result Row
aggregate_row runs (scenario, vus) = do
  let group = select (scenario, vus) runs
  require (are_repeats (map (λ r. r.repeat) group))
      (value_error "exactly three independent sequential runs required per case/VU pair")
  rates ← spread_of (map (λ r. r.measured.requests_per_second) group)
  p95 ← spread_of (map (λ r. r.measured.http_req_duration_ms.p95) group)
  p99 ← spread_of (map (λ r. r.measured.http_req_duration_ms.p99) group)
  ok (record {
    scenario = scenario;
    vus = vus;
    repeats = 3;
    requests_per_second = rates;
    per_run_p95_ms = p95;
    per_run_p99_ms = p99;
  })

unfoldable pub aggregate : List Run → Result (List Row)
aggregate runs = do
  require (length runs == 12) (value_error "exactly twelve measured runs required")
  traverse (aggregate_row runs) case_grid
