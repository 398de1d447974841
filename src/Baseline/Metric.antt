-- ===== src/Baseline/Metric.antt =====
-- `number`, `metric_values` and `timing_values` of scripts/run-performance-baseline.py, and
-- `integer` of scripts/run-flash-sale-baseline.py, which stands on `number`.
pub mod Laws
pub mod Whole
use campus_hub.Prelude.{ℕ, Bool, ◌&&◌, String, not, if◌then◌else◌, ◌<>◌}
use campus_hub.Py.{
  Result, ok, err, value_error, overflow_error, exceeds_float, ◌>>=◌, ◌>>◌, require, Number, nat,
  int, is_finite, num_le, num_lt, num_eq, to_int, ℤ, pos_part, Json, num, get, get_or,
}

unfoldable pub number : Json → Result Number
number (num x) =
    if exceeds_float x
    then err overflow_error
    else if is_finite x && not (num_lt x (nat 0))
    then ok x
    else err (value_error "expected finite nonnegative metric")
number _ = err (value_error "expected finite nonnegative metric")

-- Older k6 exports nest a metric's values under "values".
unfoldable pub metric_values : Json → String → Result Json
metric_values summary name = do
  metrics ← get summary "metrics"
  entry ← get metrics name
  get_or entry "values" entry

pub record Timing : Type 0 where
  pub avg : Number
  pub min : Number
  pub med : Number
  pub max : Number
  pub p90 : Number
  pub p95 : Number
  pub p99 : Number

quantile : Json → String → String → Result Number
quantile summary name key = do
  values ← metric_values summary name
  value ← get values key
  number value

abbrev pub in_order : Timing → Bool
in_order t =
    num_le t.min t.med
    && num_le t.med t.p90
    && num_le t.p90 t.p95
    && num_le t.p95 t.p99
    && num_le t.p99 t.max
    && num_le t.min t.avg
    && num_le t.avg t.max

unfoldable pub timing_values : Json → String → Result Timing
unfolding quantile
timing_values summary name = do
  avg ← quantile summary name "avg"
  min ← quantile summary name "min"
  med ← quantile summary name "med"
  max ← quantile summary name "max"
  p90 ← quantile summary name "p(90)"
  p95 ← quantile summary name "p(95)"
  p99 ← quantile summary name "p(99)"
  let latency : Timing = record {
    avg = avg;
    min = min;
    med = med;
    max = max;
    p90 = p90;
    p95 = p95;
    p99 = p99;
  }
  require (in_order latency) (value_error ("invalid latency quantiles: " <> name))
  ok latency

-- `int(result)` is not negative once the tests have passed.
unfoldable pub integer : Json → ℕ → Result ℕ
integer value minimum = do
  result ← number value
  whole ← to_int result
  require (num_eq result (int whole) && not (num_lt result (nat minimum)))
      (value_error "expected bounded integer")
  ok (pos_part whole)
