-- ===== src/Baseline/Summary/Sound.antt =====
-- What an accepted export of a read trial has measured.
use campus_hub.Prelude.{
  ℕ, ◌*◌, ◌^◌, ◌≤◌, ◌<◌, ◌≡◌, refl, true, false, ◌&&◌, arith, not, nat_eq, Option, none, some, ◌⊎◌,
  inl, inr,
}
use campus_hub.Py.{
  ok, Post, returns, Post-bind, Post-require, Post-self, Post-both, Post-ok, Number, nat, int,
  num_le, num_eq, to_int, ℤ, pos, pos_part, Json, get,
}
use campus_hub.Baseline.Metric.{number, timing_values, metric_values}
use campus_hub.Baseline.Metric.Laws.{
  IsMetric, number-IsMetric, IsSeries, IsOrdered, timing_values-IsOrdered,
}
use campus_hub.Baseline.Summary.{
  Measured, as_expected, rate_or_value, check_requests, check_checks, check_series, counter,
  validate_summary,
}
use campus_hub.Baseline.Summary.Counts.{Counts, whole_of, exactly_of_times, product, positive_count}

-- What an accepted read trial measured.
pub record IsMeasured (m : Measured) : Type 0 where
  pub requests : m.requests ≡ pos (pos_part m.requests)
  pub some_request : 0 < pos_part m.requests
  pub rate : IsMetric m.requests_per_second
  pub positive_rate : num_le m.requests_per_second (nat 0) ≡ false
  pub series : IsSeries m.http_req_duration_ms
  pub ordered : IsOrdered m.http_req_duration_ms
  pub checks : m.checks_passed ≡ pos (pos_part m.checks_passed)
  pub some_check : 0 < pos_part m.checks_passed

abbrev pub AsExpected : Option ℕ → Measured → Type 0
AsExpected none m = Unit
AsExpected (some per_request) m =
    (pos_part m.checks_passed ≡ per_request * pos_part m.requests)
    ⊎ (2 ^ 53 ≤ per_request * pos_part m.requests)

abbrev Requested : Number × ℤ × Number → Type 0
Requested (count, requests, rate) =
    (n : ℕ) × (requests ≡ pos n)
    × (0 < n)
    × Counts n count
    × IsMetric count
    × IsMetric rate
    × (num_le rate (nat 0) ≡ false)

Requested-of :
    {count rate : Number} {z : ℤ}
    → IsMetric count
    → IsMetric rate
    → to_int count ≡ ok z
    → (not (num_le count (nat 0)) && num_eq count (int z) && not (num_le rate (nat 0))) ≡ true
    → Requested (count, z, rate)
Requested-of {count} {rate} {z} p q read passed =
    let (n, e) = whole_of z p read in
    let same : num_eq count (int z) ≡ true = ground arith in
    let some_request : num_le count (nat 0) ≡ false = ground arith in
    let c : Counts n count = rw e at same in
    (n, e, positive_count n count p c some_request, c, p, q, ground arith)

requests-Requested : (summary : Json) → Post Requested (check_requests summary)
unfolding check_requests
requests-Requested summary = Post-bind (Post-self (metric_values summary "http_reqs")) λ requests _.
    Post-bind (Post-self (get requests "count")) λ counted _.
      Post-bind (number-IsMetric counted) λ count metric.
        Post-bind (Post-self (get requests "rate")) λ rated _.
          Post-bind (number-IsMetric rated) λ rate rate_metric.
            Post-bind (Post-self (to_int count)) λ z read.
              Post-require _ λ passed. returns (Requested-of metric rate_metric read passed)

abbrev Checked : Option ℕ → Number → ℤ → Type 0
Checked per_request count z =
    (n : ℕ) × (z ≡ pos n)
    × (0 < n)
    × ((x : Number) × IsMetric x × Counts n x × (as_expected per_request x count ≡ true))

Checked-of :
    {passes : Number} {z : ℤ} (per_request : Option ℕ) (count : Number)
    → IsMetric passes
    → to_int passes ≡ ok z
    → (not (num_le passes (nat 0)) && num_eq passes (int z) && as_expected per_request passes count)
      ≡ true
    → Checked per_request count z
Checked-of {passes} {z} per_request count p read passed =
    let (n, e) = whole_of z p read in
    let same : num_eq passes (int z) ≡ true = ground arith in
    let some_check : num_le passes (nat 0) ≡ false = ground arith in
    let c : Counts n passes = rw e at same in
    (n, e, positive_count n passes p c some_check, (passes, p, c, ground arith))

checks-Checked :
    (summary checks : Json) (per_request : Option ℕ) (count : Number)
    → Post (Checked per_request count) (check_checks summary checks per_request count)
unfolding check_checks
checks-Checked summary checks per_request count =
    Post-bind (Post-self (rate_or_value checks)) λ rated _.
      Post-bind (Post-self (number rated)) λ rate _. Post-require _ λ _.
        Post-bind (Post-self (get checks "fails")) λ failures _.
          Post-bind (Post-self (number failures)) λ fails _. Post-require _ λ _.
            Post-bind (Post-self (get checks "passes")) λ passing _.
              Post-bind (number-IsMetric passing) λ passes metric.
                Post-bind (Post-self (to_int passes)) λ z read.
                  Post-require _ λ passed. returns (Checked-of per_request count metric read passed)

below_or_not : (a b : ℕ) → (a < b) ⊎ (b ≤ a)
below_or_not a b = grind arith

expected :
    (per_request : Option ℕ) (count : Number) (m : Measured) (n : ℕ)
    → m.requests ≡ pos n
    → Counts n count
    → IsMetric count
    → Checked per_request count m.checks_passed
    → AsExpected per_request m
expected none count m n e c p h = tt
expected (some k) count m n e c p (passes, ep, _, (x, q, cx, same)) =
    rw (ep, e)
      (elim (below_or_not (k * n) (2 ^ 53)) [
        | inl b ↦ inl (product k passes n q p cx c (exactly_of_times k n q p c b same))
        | inr b ↦ inr b
      ])

IsMeasured-result :
    (summary : Json) (per_request : Option ℕ)
    → Post
        (λ m.
          IsMeasured m
          × AsExpected per_request m
          × (timing_values summary "http_req_duration" ≡ ok m.http_req_duration_ms))
        (validate_summary summary per_request)
unfolding validate_summary
IsMeasured-result summary per_request =
    Post-bind (requests-Requested summary)
      λ (count, requests, rate) (n, e, some_request, c, metric, rate_metric, positive).
        Post-bind (Post-self (metric_values summary "checks")) λ checks _.
          Post-bind (Post-self (metric_values summary "http_req_failed")) λ failed _.
            Post-bind (checks-Checked summary checks per_request count) λ passes checked.
              Post-bind (Post-self (rate_or_value failed)) λ failure _.
                Post-bind (Post-self (number failure)) λ failures _. Post-require _ λ _.
                  Post-bind (Post-self (counter summary "business_errors")) λ errors _.
                    Post-require _ λ _.
                      Post-bind (Post-self (counter summary "iterations")) λ iterations _.
                        Post-require _ λ _.
                          Post-bind
                            (Post-both (Post-self (timing_values summary "http_req_duration"))
                              (timing_values-IsOrdered summary "http_req_duration"))
                            λ latency (read, (series, ordered)).
                              Post-bind (Post-self (check_series summary)) λ _ _.
                                let (k, ek, some_check, _) = checked in
                                returns (
                                  record {
                                    requests = rw e refl;
                                    some_request = rw e some_request;
                                    rate = rate_metric;
                                    positive_rate = positive;
                                    series = series;
                                    ordered = ordered;
                                    checks = rw ek refl;
                                    some_check = rw ek some_check;
                                  },
                                  expected per_request count _ n e c metric checked,
                                  read,
                                )

-- An accepted export of a read trial has a positive whole number of requests and of passed checks,
-- a positive finite rate, and the durations of its series http_req_duration, of which minimum,
-- median, p90, p95, p99 and maximum ascend, with the average between minimum and maximum. The
-- passed checks are as many for each request as were expected, unless that makes 2 ^ 53 checks or
-- more, where the product may be rounded.
pub validate_measured_sound :
    (summary : Json) (per_request : Option ℕ) (m : Measured)
    → validate_summary summary per_request ≡ ok m
    → IsMeasured m
      × AsExpected per_request m
      × (timing_values summary "http_req_duration" ≡ ok m.http_req_duration_ms)
validate_measured_sound summary per_request m h = Post-ok (IsMeasured-result summary per_request) h
