-- ===== src/Baseline/Aggregate/Grid.antt =====
-- Aggregated trials are the two cases by two loads by three repeats, each once.
use mathlib.Core.Path.{subst}
use text.Mathlib.TextEquality.{eq_iff}
use campus_hub.Prelude.{
  ℕ, suc, ◌+◌, ◌≤◌, ◌≡◌, ◌≢◌, refl, ap, sym, ◌∙◌, true, ◌&&◌, List, [], ◌∷◌, String, length, map,
  if◌then◌else◌, ◌==◌, nat_eq, string_eq, arith, All, any, Bool-cases, inl, inr,
}
use campus_hub.Py.{
  Number, ok, Post, returns, Post-bind, Post-require, Post-ok, Post-map, Each, Post-traverse,
}
use campus_hub.Baseline.Sample.Laws.{count, AreRepeats, are_repeats-AreRepeats}
use campus_hub.Baseline.Sample.Extremes.{IsSpread, spread_of-IsSpread}
use campus_hub.Baseline.Metric.Laws.{IsMetric}
use campus_hub.Baseline.Summary.{Measured}
use campus_hub.Baseline.Summary.Sound.{IsMeasured}
use campus_hub.Baseline.Aggregate.{
  shop_detail_warm, shop_search_mysql, case_grid, Run, is_of, select, Row, aggregate_row, aggregate,
}

-- How many trials are of this case, load and repeat.
unfoldable pub runs_at : String × ℕ → ℕ → List Run → ℕ
runs_at cell repeat [] = 0
runs_at cell repeat (r ∷ rs) =
    (if is_of cell r && repeat == r.repeat then 1 else 0) + runs_at cell repeat rs

runs_at-count :
    (cell : String × ℕ) (repeat : ℕ) (runs : List Run)
    → runs_at cell repeat runs ≡ count repeat (map (λ r. r.repeat) (select cell runs))
unfolding runs_at count select
runs_at-count (scenario, vus) repeat [] = refl
runs_at-count (scenario, vus) repeat (r ∷ rs) =
    ground (arith, runs_at-count (scenario, vus) repeat rs)

length-repeats : (runs : List Run) → length (map (λ r. r.repeat) runs) ≡ length runs
length-repeats [] = refl
length-repeats (r ∷ rs) = ap suc (length-repeats rs)

abbrev selected : List Run → ℕ
selected runs =
    length (select (shop_detail_warm, 1) runs)
    + length (select (shop_detail_warm, 10) runs)
    + (length (select (shop_search_mysql, 1) runs) + length (select (shop_search_mysql, 10) runs))

-- One trial is of at most one cell, and of one exactly if its cell is listed.
abbrev cells : Run → ℕ
cells r =
    (if is_of (shop_detail_warm, 1) r then 1 else 0)
    + (if is_of (shop_detail_warm, 10) r then 1 else 0)
    + ((if is_of (shop_search_mysql, 1) r then 1 else 0)
        + (if is_of (shop_search_mysql, 10) r then 1 else 0))

length-select :
    (cell : String × ℕ) (r : Run) (rs : List Run)
    → length (select cell (r ∷ rs)) ≡ (if is_of cell r then 1 else 0) + length (select cell rs)
unfolding select
length-select (scenario, vus) r rs = ground arith

distinct_cases : shop_detail_warm ≢ shop_search_mysql
distinct_cases h = cc ((eq_iff shop_detail_warm shop_search_mysql).1 h)

cells-le : (r : Run) → cells r ≤ 1
cells-le r = ground (arith, distinct_cases)

selected-le : (runs : List Run) → selected runs ≤ length runs
selected-le [] = unfold select in omega arith
selected-le (r ∷ rs) = omega (
  arith,
  selected-le rs,
  cells-le r,
  length-select (shop_detail_warm, 1) r rs,
  length-select (shop_detail_warm, 10) r rs,
  length-select (shop_search_mysql, 1) r rs,
  length-select (shop_search_mysql, 10) r rs,
)

listed_of_cells : (r : Run) → cells r ≡ 1 → any (λ cell. is_of cell r) case_grid ≡ true
listed_of_cells r h = ground arith

All-selected :
    (runs : List Run)
    → selected runs ≡ length runs
    → All (λ r. any (λ cell. is_of cell r) case_grid ≡ true) runs
All-selected [] h = tt
All-selected (r ∷ rs) h =
    let a = length-select (shop_detail_warm, 1) r rs in
    let b = length-select (shop_detail_warm, 10) r rs in
    let c = length-select (shop_search_mysql, 1) r rs in
    let d = length-select (shop_search_mysql, 10) r rs in
    (
      listed_of_cells r (omega (arith, a, b, c, d, selected-le rs, cells-le r)),
      All-selected rs (omega (arith, a, b, c, d, selected-le rs, cells-le r)),
    )

pub record IsRow (runs : List Run) (row : Row) : Type 0 where
  pub repeats : AreRepeats (map (λ r. r.repeat) (select (row.scenario, row.vus) runs))
  pub requests_per_second : IsSpread row.requests_per_second
  pub per_run_p95_ms : IsSpread row.per_run_p95_ms
  pub per_run_p99_ms : IsSpread row.per_run_p99_ms

IsRowOf : List Run → String × ℕ → Row → Type 0
IsRowOf runs cell row = ((row.scenario, row.vus) ≡ cell) × IsRow runs row

abbrev Measurements : List Run → Type 0
Measurements = All (λ r. IsMeasured r.measured)

select-Measurements :
    (cell : String × ℕ) (runs : List Run) → Measurements runs → Measurements (select cell runs)
unfolding select
select-Measurements (scenario, vus) [] h = tt
select-Measurements (scenario, vus) (r ∷ rs) (p, h) =
    let rest = select-Measurements (scenario, vus) rs h in
    elim (Bool-cases (is_of (scenario, vus) r)) [ inl e ↦ rw e (p, rest) | inr e ↦ rw e rest ]

metrics_of :
    (f : Measured → Number) (runs : List Run)
    → ((m : Measured) → IsMeasured m → IsMetric (f m))
    → Measurements runs
    → All IsMetric (map (λ r. f r.measured) runs)
metrics_of f [] k h = tt
metrics_of f (r ∷ rs) k (p, h) = (k r.measured p, metrics_of f rs k h)

row_result :
    (runs : List Run) (cell : String × ℕ)
    → Measurements runs
    → Post (IsRowOf runs cell) (aggregate_row runs cell)
unfolding aggregate_row IsRowOf
row_result runs (scenario, vus) h = Post-require _ λ repeats.
    let g = select-Measurements (scenario, vus) runs h in
    Post-bind (spread_of-IsSpread _ (metrics_of (λ m. m.requests_per_second) _ (λ m p. p.rate) g))
      λ a pa.
        Post-bind
          (spread_of-IsSpread _
            (metrics_of (λ m. m.http_req_duration_ms.p95) _ (λ m p. p.series.p95) g))
          λ b pb.
            Post-bind
              (spread_of-IsSpread _
                (metrics_of (λ m. m.http_req_duration_ms.p99) _ (λ m p. p.series.p99) g))
              λ c pc. returns (
                refl,
                record {
                  repeats = are_repeats-AreRepeats _ repeats;
                  requests_per_second = pa;
                  per_run_p95_ms = pb;
                  per_run_p99_ms = pc;
                },
              )

-- A cell has each of the three repeats once.
pub record HasRepeats (runs : List Run) (cell : String × ℕ) : Type 0 where
  pub first : runs_at cell 1 runs ≡ 1
  pub second : runs_at cell 2 runs ≡ 1
  pub third : runs_at cell 3 runs ≡ 1

has_repeats :
    (runs : List Run) (cell : String × ℕ) (row : Row)
    → IsRowOf runs cell row
    → HasRepeats runs cell × (length (select cell runs) ≡ 3)
unfolding IsRowOf
has_repeats runs cell row (e, p) =
    let here = subst (λ c. AreRepeats (map (λ r. r.repeat) (select c runs))) e p.repeats in
    (
      record {
        first = runs_at-count cell 1 runs ∙ here.first;
        second = runs_at-count cell 2 runs ∙ here.second;
        third = runs_at-count cell 3 runs ∙ here.third;
      },
      sym (length-repeats (select cell runs)) ∙ here.size,
    )

abbrev Reported : List Run → List Row → Type 0
Reported runs rows =
    All (HasRepeats runs) case_grid
    × All (λ r. any (λ cell. is_of cell r) case_grid ≡ true) runs
    × All (IsRow runs) rows
    × (map (λ row. (row.scenario, row.vus)) rows ≡ case_grid)

reported :
    (runs : List Run) (rows : List Row)
    → length runs ≡ 12
    → Each (IsRowOf runs) case_grid rows
    → Reported runs rows
reported runs [] n h = absurd h
reported runs (a ∷ []) n h = absurd h.1
reported runs (a ∷ b ∷ []) n h = absurd h.1.1
reported runs (a ∷ b ∷ c ∷ []) n h = absurd h.1.1.1
reported runs (a ∷ b ∷ c ∷ d ∷ e ∷ rows) n h = absurd h.1.1.1.1
reported runs (a ∷ b ∷ c ∷ d ∷ []) n (ha, (hb, (hc, (hd, _)))) =
    let (ra, na) = has_repeats runs (shop_detail_warm, 1) a ha in
    let (rb, nb) = has_repeats runs (shop_detail_warm, 10) b hb in
    let (rc, nc) = has_repeats runs (shop_search_mysql, 1) c hc in
    let (rd, nd) = has_repeats runs (shop_search_mysql, 10) d hd in
    (
      (ra, (rb, (rc, (rd, tt)))),
      All-selected runs (omega arith),
      unfold IsRowOf in (ha.1, (hb.1, (hc.1, (hd.1, tt)))),
      unfold IsRowOf in rw (ha.0, hb.0, hc.0, hd.0) refl,
    )

aggregate_result : (runs : List Run) → Measurements runs → Post (Reported runs) (aggregate runs)
unfolding aggregate
aggregate_result runs h = Post-require _ λ twelve.
    Post-map
      (Post-traverse (IsRowOf runs) (aggregate_row runs) (λ cell. row_result runs cell h) case_grid)
      λ rows each. reported runs rows (ground arith) each

-- Trials of accepted exports are aggregated only if they are twelve: each of the four pairs of a
-- case and a load has each of the repeats 1, 2 and 3 exactly once, and no trial is of another pair.
-- There is one row for each pair, in whose spreads the median lies between the minimum and the
-- maximum.
pub aggregate_trials_sound :
    (runs : List Run) (rows : List Row)
    → All (λ r. IsMeasured r.measured) runs
    → aggregate runs ≡ ok rows
    → All (HasRepeats runs) case_grid
      × All (λ r. any (λ cell. is_of cell r) case_grid ≡ true) runs
      × All (IsRow runs) rows
      × (map (λ row. (row.scenario, row.vus)) rows ≡ case_grid)
aggregate_trials_sound runs rows measured h = Post-ok (aggregate_result runs measured) h
