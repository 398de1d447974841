-- ===== src/Harness/Observability/Waits.antt =====
-- Waiting for Prometheus ends.
use campus_hub.Prelude.{
  Option, Bool, true, false, ◌+◌, ◌≢◌, refl, String, ◌<>◌, [], ◌∷◌, none, some, arith,
  if◌then◌else◌,
}
use campus_hub.Py.{Result, ok, get, is_text, Number, num_lt}
use campus_hub.Harness.World.{World, Ticks}
use campus_hub.Harness.Values.{is_truthy, sample_value}
use campus_hub.Harness.Exec.{State, Exec, ◌>>=◌, pure, lift, monotonic, out_of_fuel}
use campus_hub.Harness.Exec.Laws.{Appends, Appends->>=, Appends-assert, Appends-passing}
use campus_hub.Harness.Exec.Poll.{poll-ends}
use campus_hub.Harness.Compose.{parse}
use campus_hub.Harness.Compose.Waits.{Appends-request}
use campus_hub.Harness.Observability.{query, has_series, series_loop, scraped_since, outage_loop}

Appends-lift : {A : Type 0} (r : Result A) → Appends (lift r)
Appends-lift r w s = ([], refl)

Appends-pure : {A : Type 0} (a : A) → Appends (pure a)
Appends-pure a w s = ([], refl)

Appends-parse : (text : String) → Appends (parse text)
unfolding parse
Appends-parse text w s = ([], refl)

Appends-query : (base expression : String) → Appends (query base expression)
unfolding query
Appends-query base expression w s =
    Appends->>= _ _
      (Appends-request base ("/api/v1/query?" <> w.urlencode (("query", expression) ∷ [])) 200 "GET"
        none [])
      (λ response. Appends->>= _ _ (Appends-parse response.body) λ answer.
        Appends->>= _ _ (Appends-lift (get answer "status")) λ status.
          Appends->>= _ _ (Appends-assert (is_text status "success") _) λ _.
            Appends->>= _ _ (Appends-lift (get answer "data"))
              λ inner. Appends-lift (get inner "result"))
      w s

Appends-has_series : (base expression : String) → Appends (has_series base expression)
unfolding has_series
Appends-has_series base expression = Appends-passing _ (
    Appends->>= _ _ (Appends-query base expression)
      λ result. Appends-pure (if is_truthy result then some result else none))

-- If time passes, the 45 rounds that fit in the 45 seconds of `await_series` are enough for its
-- loop: it ends with a series, with an error, or late.
pub series_loop-ends :
    (base expression : String) (w : World) (s : State)
    → Ticks w
    → (series_loop base expression w s).0 ≢ ok out_of_fuel
unfolding series_loop monotonic ◌>>=◌
series_loop-ends base expression w s t =
    poll-ends 1000 (w.clock s.history + 45000) (has_series base expression)
      (Appends-has_series base expression) 45 w s t (omega arith)

Appends-if :
    {A : Type 0} (b : Bool) (m n : Exec A) → Appends m → Appends n → Appends (if b then m else n)
Appends-if true m n p q = p
Appends-if false m n p q = q

Appends-scraped_since : (prom : String) (outage : Number) → Appends (scraped_since prom outage)
unfolding scraped_since
Appends-scraped_since prom outage w s =
    Appends->>= _ _ (Appends-query prom _)
      (λ timestamp.
        Appends->>= _ _
          (Appends-if (is_truthy timestamp) _ _
            (Appends->>= _ _ (Appends-lift (sample_value w timestamp))
              λ x. Appends-pure (num_lt outage x))
            (Appends-pure false))
          λ since.
            Appends-if since _ _
              (Appends->>= _ _ (Appends-query prom _)
                λ up. Appends->>= _ _ (Appends-assert (is_truthy up) _) λ _. Appends-pure (some tt))
              (Appends-pure {A = Option (Unit {0})} none))
      w s

-- If time passes, the 30 rounds that fit in the 30 seconds of the wait during the outage are enough
-- for its loop: it ends with a younger scrape, with an error, or late.
pub outage_loop-ends :
    (prom : String) (outage : Number) (w : World) (s : State)
    → Ticks w
    → (outage_loop prom outage w s).0 ≢ ok out_of_fuel
unfolding outage_loop monotonic ◌>>=◌
outage_loop-ends prom outage w s t =
    poll-ends 1000 (w.clock s.history + 30000) (scraped_since prom outage)
      (Appends-scraped_since prom outage) 30 w s t (omega arith)
