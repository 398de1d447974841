-- ===== src/FlashSale/Summary/Model.antt =====
-- An accepted export is one of the finite half-stock model.
use campus_hub.Prelude.{
  ℕ, ◌+◌, ◌*◌, ◌/◌, ◌≡◌, refl, true, false, arith, String, nat_eq, ap, ◌∙◌, Bool,
}
use campus_hub.Py.{
  ok, Post, returns, Post-bind, Post-require, Post-self, Post-ok, Post-map, Post-both,
  Post-require_end, ◌>>=◌, Number, nat, num_le, num_eq, Json, get,
}
use campus_hub.Baseline.Metric.{metric_values, integer, number, timing_values}
use campus_hub.Baseline.Metric.Laws.{IsMetric, number-IsMetric, IsOrdered, timing_values-IsOrdered}
use campus_hub.Baseline.Summary.{check_series, rate_or_value}
use campus_hub.FlashSale.Ids.{is_cohort}
use campus_hub.FlashSale.Summary.{
  Outcomes, Durations, Measured, count_of, check_responses, check_outcomes, check_durations,
  validate_summary,
}

-- Each actor made two requests: the stock was admitted once and replayed once, and the rest was
-- sold out twice, with nothing else.
pub record IsHalfStock (m : Measured) : Type 0 where
  pub supported : is_cohort m.actors ≡ true
  pub stock : m.actors ≡ 2 * m.initial_stock
  pub requests : m.requests ≡ 2 * m.actors
  pub iterations : m.iterations ≡ m.actors
  pub admitted : m.outcomes.admission_new ≡ m.initial_stock
  pub replayed : m.outcomes.admission_replayed ≡ m.initial_stock
  pub accounted :
      m.outcomes.admission_new + m.outcomes.admission_replayed + m.outcomes.admission_sold_out
      ≡ m.requests
  pub unexpected : m.outcomes.unexpected_outcomes ≡ 0
  pub checks_passed : m.checks_passed ≡ 3 * m.requests
  pub rate : IsMetric m.batch_http_requests_per_second
  pub positive_rate : num_le m.batch_http_requests_per_second (nat 0) ≡ false

-- The four series of the export, by their names.
pub record IsTimed (summary : Json) (d : Durations) : Type 0 where
  pub all_http_at : timing_values summary "http_req_duration" ≡ ok d.all_http
  pub admission_new_at : timing_values summary "admission_new_ms" ≡ ok d.admission_new
  pub admission_replayed_at :
      timing_values summary "admission_replayed_ms" ≡ ok d.admission_replayed
  pub admission_sold_out_at :
      timing_values summary "admission_sold_out_ms" ≡ ok d.admission_sold_out
  pub all_http : IsOrdered d.all_http
  pub admission_new : IsOrdered d.admission_new
  pub admission_replayed : IsOrdered d.admission_replayed
  pub admission_sold_out : IsOrdered d.admission_sold_out

timing-read :
    (summary : Json) (name : String)
    → Post (λ t. (timing_values summary name ≡ ok t) × IsOrdered t) (timing_values summary name)
timing-read summary name =
    Post-map
      (Post-both (Post-self (timing_values summary name)) (timing_values-IsOrdered summary name))
      λ t (read, (_, ordered)). (read, ordered)

durations-IsTimed : (summary : Json) → Post (IsTimed summary) (check_durations summary)
unfolding check_durations
durations-IsTimed summary = Post-bind (timing-read summary "http_req_duration") λ a (ra, p).
    Post-bind (Post-self (check_series summary)) λ _ _.
      Post-bind (timing-read summary "admission_new_ms") λ b (rb, q).
        Post-bind (timing-read summary "admission_replayed_ms") λ c (rc, r).
          Post-bind (timing-read summary "admission_sold_out_ms") λ d (rd, s). returns (record {
            all_http_at = ra;
            admission_new_at = rb;
            admission_replayed_at = rc;
            admission_sold_out_at = rd;
            all_http = p;
            admission_new = q;
            admission_replayed = r;
            admission_sold_out = s;
          })

holds_of :
    (j : Json) (x : Number) (test : Number → Bool)
    → number j ≡ ok x
    → test x ≡ true
    → number j >>= (λ v. ok (test v)) ≡ ok true
unfolding ◌>>=◌
holds_of j x test h t = rw (h, t) refl

-- What the export says of its checks and of failed requests.
pub record IsChecked (summary : Json) (actors : ℕ) : Type 0 where
  pub checks : Json
  pub at : metric_values summary "checks" ≡ ok checks
  pub rate : Json
  pub rate_at : rate_or_value checks ≡ ok rate
  pub all : number rate >>= (λ x. ok (num_eq x (nat 1))) ≡ ok true
  pub fails : Json
  pub fails_at : get checks "fails" ≡ ok fails
  pub no_fails : integer fails 0 ≡ ok 0
  pub passes : Json
  pub passes_at : get checks "passes" ≡ ok passes
  pub six_each : integer passes 0 ≡ ok (6 * actors)
  pub failed : Json
  pub failed_at : metric_values summary "http_req_failed" ≡ ok failed
  pub error_rate : Json
  pub error_rate_at : rate_or_value failed ≡ ok error_rate
  pub no_errors : number error_rate >>= (λ x. ok (num_eq x (nat 0))) ≡ ok true

responses-IsChecked :
    (summary : Json) (actors : ℕ)
    → Post (λ _. IsChecked summary actors) (check_responses summary actors)
unfolding check_responses
responses-IsChecked summary actors =
    Post-bind (Post-self (metric_values summary "checks")) λ checks at.
      Post-bind (Post-self (rate_or_value checks)) λ rate rate_at.
        Post-bind (Post-self (number rate)) λ x is_rate. Post-require _ λ all.
          Post-bind (Post-self (get checks "fails")) λ fails fails_at.
            Post-bind (Post-self (integer fails 0)) λ f is_fails. Post-require _ λ none.
              Post-bind (Post-self (get checks "passes")) λ passes passes_at.
                Post-bind (Post-self (integer passes 0)) λ p is_passes. Post-require _ λ six.
                  Post-bind (Post-self (metric_values summary "http_req_failed"))
                    λ failed failed_at.
                      Post-bind (Post-self (rate_or_value failed)) λ error_rate error_rate_at.
                        Post-bind (Post-self (number error_rate)) λ y is_error.
                          Post-require_end _ _ λ no_errors. record {
                            checks = checks;
                            at = at;
                            rate = rate;
                            rate_at = rate_at;
                            all = holds_of rate x (λ v. num_eq v (nat 1)) is_rate all;
                            fails = fails;
                            fails_at = fails_at;
                            no_fails = is_fails ∙ ap ok (ground arith);
                            passes = passes;
                            passes_at = passes_at;
                            six_each = is_passes ∙ ap ok (ground arith);
                            failed = failed;
                            failed_at = failed_at;
                            error_rate = error_rate;
                            error_rate_at = error_rate_at;
                            no_errors =
                                holds_of error_rate y (λ v. num_eq v (nat 0)) is_error no_errors;
                          }

-- The four counts of the export, by their names.
pub record IsCounted (summary : Json) (o : Outcomes) : Type 0 where
  pub admission_new_at : count_of summary "admission_new" 0 ≡ ok o.admission_new
  pub admission_replayed_at : count_of summary "admission_replayed" 0 ≡ ok o.admission_replayed
  pub admission_sold_out_at : count_of summary "admission_sold_out" 0 ≡ ok o.admission_sold_out
  pub unexpected_outcomes_at : count_of summary "unexpected_outcomes" 0 ≡ ok o.unexpected_outcomes

abbrev Counted : ℕ → Outcomes → Type 0
Counted actors o =
    (o.admission_new ≡ actors / 2)
    × (o.admission_replayed ≡ actors / 2)
    × (o.admission_sold_out ≡ actors)
    × (o.unexpected_outcomes ≡ 0)

outcomes-Counted :
    (summary : Json) (actors : ℕ)
    → Post (λ o. IsCounted summary o × Counted actors o) (check_outcomes summary actors)
unfolding check_outcomes
outcomes-Counted summary actors = Post-bind (Post-self (count_of summary "admission_new" 0)) λ a ra.
    Post-bind (Post-self (count_of summary "admission_replayed" 0)) λ b rb.
      Post-bind (Post-self (count_of summary "admission_sold_out" 0)) λ c rc.
        Post-bind (Post-self (count_of summary "unexpected_outcomes" 0)) λ d rd.
          Post-require _ λ same. returns (
            record {
              admission_new_at = ra;
              admission_replayed_at = rb;
              admission_sold_out_at = rc;
              unexpected_outcomes_at = rd;
            },
            ground arith,
          )

even_cohort : (n : ℕ) → is_cohort n ≡ true → n ≡ 2 * (n / 2)
unfolding is_cohort
even_cohort n h = ground arith

summary_result :
    (summary : Json) (actors : ℕ)
    → Post
        (λ m.
          (m.actors ≡ actors)
          × IsChecked summary actors
          × IsCounted summary m.outcomes
          × IsHalfStock m
          × IsTimed summary m.client_duration_ms)
        (validate_summary summary actors)
unfolding validate_summary
summary_result summary actors = Post-require _ λ supported.
    Post-bind (Post-self (count_of summary "http_reqs" 1)) λ requests _.
      Post-bind (Post-self (count_of summary "iterations" 1)) λ iterations _.
        Post-require _ λ batch. Post-bind (responses-IsChecked summary actors) λ _ checked.
          Post-bind (outcomes-Counted summary actors) λ outcomes (counted, (o1, o2, o3, o4)).
            Post-bind (durations-IsTimed summary) λ durations timed.
              Post-bind (Post-self (metric_values summary "http_reqs")) λ measured _.
                Post-bind (Post-self (get measured "rate")) λ rated _.
                  Post-bind (number-IsMetric rated) λ rate metric. Post-require _ λ positive.
                    let even = even_cohort actors supported in
                    returns (
                      refl,
                      checked,
                      counted,
                      record {
                        supported = supported;
                        stock = even;
                        requests = ground arith;
                        iterations = ground arith;
                        admitted = o1;
                        replayed = o2;
                        accounted = ground arith;
                        unexpected = o4;
                        checks_passed = ground arith;
                        rate = metric;
                        positive_rate = ground arith;
                      },
                      timed,
                    )

-- An accepted export is of the configured cohort, whose stock is half of its actors: as many
-- requests were newly admitted as the stock, as many were replayed, the other half of the requests
-- was sold out, and none was anything else; its passed checks are six for each actor, its failed
-- checks none, its rate of passed checks 1 and of failed requests 0; the request rate is a finite
-- positive number; and in each of the four duration series, which are read from the export by their
-- names as the counts are, minimum, median, p90, p95, p99 and maximum ascend, with the average
-- between minimum and maximum.
pub validate_summary_sound :
    (summary : Json) (actors : ℕ) (m : Measured)
    → validate_summary summary actors ≡ ok m
    → (m.actors ≡ actors)
      × IsChecked summary actors
      × IsCounted summary m.outcomes
      × IsHalfStock m
      × IsTimed summary m.client_duration_ms
validate_summary_sound summary actors m h = Post-ok (summary_result summary actors) h
