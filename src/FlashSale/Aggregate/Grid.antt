-- ===== src/FlashSale/Aggregate/Grid.antt =====
-- Aggregated runs are the two populations by three repeats, each once.
use mathlib.Core.Path.{subst}
use campus_hub.Prelude.{
  ℕ, suc, ◌+◌, ◌≤◌, ◌≡◌, refl, ap, ◌∙◌, true, ◌&&◌, List, [], ◌∷◌, length, map, if◌then◌else◌, ◌==◌,
  nat_eq, arith, All, contains,
}
use campus_hub.Py.{
  ok, Post, returns, Post-bind, Post-require, Post-ok, Post-map, Each, Post-traverse,
}
use campus_hub.Baseline.Sample.Laws.{count, AreRepeats, are_repeats-AreRepeats}
use campus_hub.Baseline.Sample.Extremes.{IsSpread, spread-IsSpread}
use campus_hub.FlashSale.Ids.{cohorts}
use campus_hub.FlashSale.Aggregate.{Run, actors_of, select, Row, aggregate_row, aggregate}

-- How many runs are of this population and this repeat.
unfoldable pub runs_at : ℕ → ℕ → List Run → ℕ
runs_at actors repeat [] = 0
runs_at actors repeat (r ∷ rs) =
    (if actors_of r == actors && repeat == r.cohort.repeat then 1 else 0) + runs_at actors repeat rs

runs_at-count :
    (actors repeat : ℕ) (runs : List Run)
    → runs_at actors repeat runs ≡ count repeat (map (λ r. r.cohort.repeat) (select actors runs))
unfolding runs_at count select
runs_at-count actors repeat [] = refl
runs_at-count actors repeat (r ∷ rs) = ground (arith, runs_at-count actors repeat rs)

length-repeats : (runs : List Run) → length (map (λ r. r.cohort.repeat) runs) ≡ length runs
length-repeats [] = refl
length-repeats (r ∷ rs) = ap suc (length-repeats rs)

-- Two disjoint selections are no longer than the whole; if they are as long, nothing is left.
selected_length :
    (runs : List Run) → length (select 20 runs) + length (select 200 runs) ≤ length runs
unfolding select
selected_length [] = omega arith
selected_length (r ∷ rs) = ground (arith, selected_length rs)

All-selected :
    (runs : List Run)
    → length (select 20 runs) + length (select 200 runs) ≡ length runs
    → All (λ r. contains cohorts (actors_of r) ≡ true) runs
unfolding select
All-selected [] h = tt
All-selected (r ∷ rs) h =
    (ground (arith, selected_length rs), All-selected rs (ground (arith, selected_length rs)))

pub record IsRow (runs : List Run) (row : Row) : Type 0 where
  pub repeats : AreRepeats (map (λ r. r.cohort.repeat) (select row.actors runs))
  pub drain : IsSpread row.drain
  pub new_p95 : IsSpread row.new_p95
  pub new_p99 : IsSpread row.new_p99
  pub replayed_p95 : IsSpread row.replayed_p95
  pub replayed_p99 : IsSpread row.replayed_p99
  pub sold_out_p95 : IsSpread row.sold_out_p95
  pub sold_out_p99 : IsSpread row.sold_out_p99

row_result :
    (runs : List Run) (actors : ℕ)
    → Post (λ row. (row.actors ≡ actors) × IsRow runs row) (aggregate_row runs actors)
unfolding aggregate_row
row_result runs actors = Post-require _ λ repeats.
    Post-bind
      (spread-IsSpread
        (map (λ r. r.cohort.load_exit_to_all_orders_observed_seconds) (select actors runs)))
      λ drain p. Post-bind (spread-IsSpread _) λ a pa. Post-bind (spread-IsSpread _) λ b pb.
        Post-bind (spread-IsSpread _) λ c pc. Post-bind (spread-IsSpread _) λ d pd.
          Post-bind (spread-IsSpread _) λ e pe. Post-bind (spread-IsSpread _) λ f pf. returns (
            refl,
            record {
              repeats = are_repeats-AreRepeats _ repeats;
              drain = p;
              new_p95 = pa;
              new_p99 = pb;
              replayed_p95 = pc;
              replayed_p99 = pd;
              sold_out_p95 = pe;
              sold_out_p99 = pf;
            },
          )

-- Each of the two populations has each of the three repeats once.
pub record IsGrid (runs : List Run) : Type 0 where
  pub small_first : runs_at 20 1 runs ≡ 1
  pub small_second : runs_at 20 2 runs ≡ 1
  pub small_third : runs_at 20 3 runs ≡ 1
  pub large_first : runs_at 200 1 runs ≡ 1
  pub large_second : runs_at 200 2 runs ≡ 1
  pub large_third : runs_at 200 3 runs ≡ 1
  pub only : All (λ r. contains cohorts (actors_of r) ≡ true) runs

IsGrid-of :
    (runs : List Run)
    → length runs ≡ 6
    → AreRepeats (map (λ r. r.cohort.repeat) (select 20 runs))
    → AreRepeats (map (λ r. r.cohort.repeat) (select 200 runs))
    → IsGrid runs
IsGrid-of runs n small large = record {
  small_first = runs_at-count 20 1 runs ∙ small.first;
  small_second = runs_at-count 20 2 runs ∙ small.second;
  small_third = runs_at-count 20 3 runs ∙ small.third;
  large_first = runs_at-count 200 1 runs ∙ large.first;
  large_second = runs_at-count 200 2 runs ∙ large.second;
  large_third = runs_at-count 200 3 runs ∙ large.third;
  only = All-selected runs (
      omega (
        arith,
        length-repeats (select 20 runs),
        length-repeats (select 200 runs),
        small.size,
        large.size,
      ));
}

IsRowOf : List Run → ℕ → Row → Type 0
IsRowOf runs actors row = (row.actors ≡ actors) × IsRow runs row

abbrev Reported : List Run → List Row → Type 0
Reported runs rows = IsGrid runs × All (IsRow runs) rows × (map (λ row. row.actors) rows ≡ cohorts)

reported :
    (runs : List Run) (rows : List Row)
    → length runs ≡ 6
    → Each (IsRowOf runs) cohorts rows
    → Reported runs rows
unfolding IsRowOf
reported runs [] n h = absurd h
reported runs (a ∷ []) n h = absurd h.1
reported runs (a ∷ b ∷ c ∷ rows) n h = absurd h.1.1
reported runs (a ∷ b ∷ []) n ((ea, pa), ((eb, pb), _)) =
    let grid =
      IsGrid-of runs n
        (subst (λ k. AreRepeats (map (λ r. r.cohort.repeat) (select k runs))) ea pa.repeats)
        (subst (λ k. AreRepeats (map (λ r. r.cohort.repeat) (select k runs))) eb pb.repeats) in
    (grid, (pa, (pb, tt)), rw (ea, eb) refl)

aggregate_result : (runs : List Run) → Post (Reported runs) (aggregate runs)
unfolding aggregate IsRowOf
aggregate_result runs = Post-require _ λ six.
    Post-map (Post-traverse (IsRowOf runs) (aggregate_row runs) (row_result runs) cohorts)
      λ rows h. reported runs rows (ground arith) h

-- Runs are aggregated only if they are six, each of the two populations with each of the repeats
-- 1, 2 and 3 exactly once and no other population. There is one row for each population, and in
-- each of its seven spreads the median lies between the minimum and the maximum.
pub aggregate_sound :
    (runs : List Run) (rows : List Row)
    → aggregate runs ≡ ok rows
    → IsGrid runs × All (IsRow runs) rows × (map (λ row. row.actors) rows ≡ cohorts)
aggregate_sound runs rows h = Post-ok (aggregate_result runs) h
