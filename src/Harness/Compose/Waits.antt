-- ===== src/Harness/Compose/Waits.antt =====
-- Waiting for the application ends, and succeeds only on an answer that says UP.
use mathlib.Core.Path.{subst}
use campus_hub.Prelude.{
  ℕ, ◌+◌, ◌≡◌, ◌≢◌, refl, ap, sym, ◌∙◌, String, ◌<>◌, Bool, true, false, List, [], ◌∷◌, Option,
  none, some, arith, if◌then◌else◌, ◌==◌, nat_eq, string_eq,
}
use campus_hub.Py.{ok, Json, str, get, is_text, null, bool, num, arr, obj}
use campus_hub.Harness.World.{World, Event, Ticks, Request, Response, fetched}
use campus_hub.Harness.Exec.{State, ◌>>=◌, monotonic, Polled, found, late, out_of_fuel}
use campus_hub.Harness.Exec.Laws.{
  Appends, Appends->>=, Appends-assert, Appends-passing, >>=-ok, assert-ok, passing-ok,
}
use campus_hub.Harness.Exec.Poll.{poll-ends, poll-found}
use campus_hub.Harness.Compose.{
  fetch, request_with, request, parse, is_ready, ready_loop, ready_result, wait_ready,
}

Appends-fetch : (r : Request) → Appends (fetch r)
unfolding fetch
Appends-fetch r w s = (fetched r ∷ [], refl)

pub Appends-request :
    (base route : String) (expected : ℕ) (method : String) (body : Option String)
    (headers : List (String × String))
    → Appends (request_with base route expected method body headers)
unfolding request_with
Appends-request base route expected method body headers =
    Appends->>= _ _ (Appends-fetch _) λ response.
      Appends->>= _ _ (Appends-assert (response.status == expected) _) λ _ w s. ([], refl)

Appends-is_ready : (base : String) → Appends (is_ready base)
unfolding is_ready parse
Appends-is_ready base = Appends-passing _ (
    Appends->>= _ _ (Appends-request base "/health/ready" 200 "GET" none []) λ response.
      Appends->>= _ _ (λ w s. ([], refl))
        λ body. Appends->>= _ _ (λ w s. ([], refl)) λ status w s. ([], refl))

-- If time passes, the 90 rounds that fit in the 90 seconds of `wait_ready` are enough for its loop:
-- it ends with the application ready, with an error, or late.
pub ready_loop-ends :
    (base : String) (w : World) (s : State) → Ticks w → (ready_loop base w s).0 ≢ ok out_of_fuel
unfolding ready_loop monotonic ◌>>=◌
ready_loop-ends base w s t =
    poll-ends 1000 (w.clock s.history + 90000) (is_ready base) (Appends-is_ready base) 90 w s t
      (omega arith)

-- The health check as it is sent.
abbrev pub health_check : String → Request
health_check base = record {
  url = base <> "/health/ready";
  method = "GET";
  body = none;
  headers = [];
  direct = false;
}

-- The last that was done was a health check that was answered 200 with a status that says UP.
pub record IsUp (base : String) (w : World) (t : State) : Type 0 where
  pub before : List Event
  pub asked : t.history ≡ fetched (health_check base) ∷ before
  pub response : Response
  pub answer : w.fetch before (health_check base) ≡ ok response
  pub status : response.status ≡ 200
  pub body : Json
  pub parsed : w.loads response.body ≡ ok body
  pub up : get body "status" ≡ ok (str "UP")

equal_of : (n m : ℕ) → (n == m) ≡ true → n ≡ m
equal_of n m h = ground arith

request-ok :
    (base route : String) (expected : ℕ) (w : World) (s t : State) (r : Response)
    → request base route expected w s ≡ (ok r, t)
    → (w.fetch s.history (record {
      url = base <> route;
      method = "GET";
      body = none;
      headers = [];
      direct = false;
    })
        ≡ ok r)
      × (r.status ≡ expected)
      × (t.history
          ≡ fetched (record {
            url = base <> route;
            method = "GET";
            body = none;
            headers = [];
            direct = false;
          })
            ∷ s.history)
unfolding request_with fetch
request-ok base route expected w s t r h =
    let (answer, u, asked, h1) = >>=-ok _ _ w s t r h in
    let (_, v, checked, h2) = >>=-ok _ _ w u t r h1 in
    let (status, e) = assert-ok (answer.status == expected) _ w u v checked in
    let same : answer ≡ r = ground (arith, h2) in
    let last : v ≡ t = ground (arith, h2) in
    (
      ap (λ p. p.0) asked ∙ ap ok same,
      rw same at (equal_of answer.status expected status),
      ap (λ x. x.history) (sym last ∙ e) ∙ sym (ap (λ p. p.1.history) asked),
    )

text_of : (j : Json) (s : String) → is_text j s ≡ true → j ≡ str s
text_of (str t) s h = ground arith
text_of null s h = absurd (ground arith)
text_of (bool b) s h = absurd (ground arith)
text_of (num x) s h = absurd (ground arith)
text_of (arr js) s h = absurd (ground arith)
text_of (obj fs) s h = absurd (ground arith)

some_of_test :
    (b : Bool) (o : Option (Unit {0})) → (if b then some tt else none) ≡ o → o ≡ some tt → b ≡ true
some_of_test true o h e = refl
some_of_test false o h e = absurd (ground arith)

is_ready-IsUp :
    (base : String) (w : World) (s t : State)
    → is_ready base w s ≡ (ok (some tt), t)
    → IsUp base w t
unfolding is_ready parse
is_ready-IsUp base w s t h =
    let m = passing-ok _ w s t tt h in
    let (response, u1, a1, h1) = >>=-ok _ _ w s t (some tt) m in
    let (answer, status, asked) = request-ok base "/health/ready" 200 w s u1 response a1 in
    let (body, u2, a2, h2) = >>=-ok _ _ w u1 t (some tt) h1 in
    let (word, u3, a3, h3) = >>=-ok _ _ w u2 t (some tt) h2 in
    let up : is_text word "UP" ≡ true =
      some_of_test (is_text word "UP") (some tt) (ground (arith, h3)) refl in
    let last : t ≡ u1 = sym (ap (λ p. p.1) a2 ∙ ap (λ p. p.1) a3 ∙ ap (λ p. p.1) h3) in
    record {
      before = s.history;
      asked = ap (λ x. x.history) last ∙ asked;
      response = response;
      answer = answer;
      status = status;
      body = body;
      parsed = ap (λ p. p.0) a2;
      up = ap (λ p. p.0) a3 ∙ ap ok (text_of word "UP" up);
    }

-- `wait_ready` returns only right after a health check that was answered 200 with a JSON body whose
-- status says UP.
pub wait_ready_sound :
    (base : String) (w : World) (s t : State) → wait_ready base w s ≡ (ok tt, t) → IsUp base w t
unfolding wait_ready ready_loop monotonic ◌>>=◌
wait_ready_sound base w s t h =
    let (end, u, ran, rest) = >>=-ok (ready_loop base) ready_result w s t tt h in
    of_end end ran rest
  where
    of_end :
        {u : State} (end : Polled (Unit {0}))
        → ready_loop base w s ≡ (ok end, u)
        → ready_result end w u ≡ (ok tt, t)
        → IsUp base w t
    of_end (found _) ran rest =
        let (v, e) =
          poll-found 1000 (w.clock s.history + 90000) (is_ready base) (Appends-is_ready base) 90 w s
            _ tt ran in
        subst (IsUp base w) (ap (λ p. p.1) rest) (is_ready-IsUp base w v _ e)
    of_end late ran rest = absurd (ground (arith, rest))
    of_end out_of_fuel ran rest = absurd (ground (arith, rest))
