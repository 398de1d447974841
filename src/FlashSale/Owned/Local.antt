-- ===== src/FlashSale/Owned/Local.antt =====
-- Where an owned request goes.
use mathlib.Core.List.{append_assoc}
use campus_hub.Prelude.{
  ℕ, length, ◌≤◌, ap, ◌∙◌, false, ◌&&◌, ◌≡◌, refl, String, ◌<>◌, true, List, [], ◌∷◌, ◌++◌, Option,
  ◌==◌, nat_eq, Bool-cases, inl, inr, ◌⊎◌, arith,
}
use campus_hub.Py.{
  Result, ok, err, Error, codes, after, has_prefix, is_positive_numeral, decimal_from,
}
use campus_hub.Py.Text.Show.{codes-append}
use campus_hub.Harness.World.{World, Request, Event, fetched, Response}
use campus_hub.Harness.Exec.{State, ◌>>=◌, resume, pure}
use campus_hub.Harness.Compose.{fetch}
use campus_hub.FlashSale.Owned.{
  local_prefix, is_port, is_owned, is_relative, refuse_unless, owned_request,
}

-- A numeral of a port, with no other character.
pub record IsPort (port : List ℕ) : Type 0 where
  pub numeral : is_positive_numeral port ≡ true
  pub digits : length port ≤ 5
  pub in_range : decimal_from 0 port ≤ 65535

IsPort-of_after :
    (p s : List ℕ) → is_port (after p s) ≡ true → (port : List ℕ) × (s ≡ p ++ port) × IsPort port
unfolding after
IsPort-of_after [] s h =
    (s, refl, record { numeral = ground arith; digits = ground arith; in_range = ground arith })
IsPort-of_after (p ∷ ps) [] h = absurd (ground arith)
IsPort-of_after (p ∷ ps) (c ∷ s) h = elim (Bool-cases (p == c)) [
  | inl b ↦
      let (port, e, valid) = IsPort-of_after ps s (rw b at h) in
      let same : p ≡ c = ground arith in (port, rw (same, e) refl, valid)
  | inr b ↦ absurd (let f = rw b at h in ground arith)
]

-- A request to a port of this host: between the port and the route stands nothing, and the route
-- begins with one slash. It goes by itself, with no redirect followed and no proxy used.
pub record IsLocal (route : String) (r : Request) : Type 0 where
  pub port : List ℕ
  pub valid : IsPort port
  pub url : codes r.url ≡ codes local_prefix ++ (port ++ codes route)
  pub slash : has_prefix (codes "/") (codes route) ≡ true
  pub one_slash : has_prefix (codes "//") (codes route) ≡ false
  pub direct : r.direct ≡ true

IsLocal-of :
    (base route : String) (r : Request)
    → is_owned base ≡ true
    → is_relative route ≡ true
    → r.url ≡ base <> route
    → r.direct ≡ true
    → IsLocal route r
unfolding is_owned is_relative
IsLocal-of base route r owned relative url direct =
    let (port, e, valid) = IsPort-of_after (codes local_prefix) (codes base) owned in
    record {
      port = port;
      valid = valid;
      url =
          ap codes url
          ∙ codes-append base route
          ∙ ap (λ s. s ++ codes route) e
          ∙ append_assoc (codes local_prefix) port (codes route);
      slash = ground arith;
      one_slash = ground arith;
      direct = direct;
    }

-- A test failed and nothing was asked, or one local request was made.
abbrev pub AsksLocally : String → String → List Event → Result Response × State → Type 0
AsksLocally base route h end =
    ((e : Error) × (end.0 ≡ err e)
      × (end.1.history ≡ h)
      × ((is_owned base && is_relative route) ≡ false))
    ⊎ ((q : Request) × IsLocal route q × (end.1.history ≡ fetched q ∷ h))

answer_history :
    (expected : ℕ) (w : World) (r : Result Response) (s : State)
    → (resume w
        (λ response.
          refuse_unless (response.status == expected) "unexpected owned-target HTTP status" >>= λ _.
          pure response)
        (r, s)).1.history
      ≡ s.history
unfolding ◌>>=◌
answer_history expected w (ok r) s = elim (Bool-cases (r.status == expected)) [
  | inl b ↦ rw b refl
  | inr b ↦ rw b refl
]
answer_history expected w (err e) s = refl

-- `owned_request` makes one request, or raises with none made, which it does only if the base or
-- the route fails its test. The URL of the request is `http://127.0.0.1:`, then a decimal numeral
-- without leading zeros of at most 65535, then the route, which begins with one slash and not with
-- two; no redirect is followed and no proxy is used.
pub owned_request-AsksLocally :
    (base route : String) (expected : ℕ) (method : String) (body : Option String)
    (headers : List (String × String)) (w : World) (s : State)
    → AsksLocally base route s.history (owned_request base route expected method body headers w s)
unfolding owned_request fetch ◌>>=◌
owned_request-AsksLocally base route expected method body headers w s =
    elim (Bool-cases (is_owned base)) [
      | inl owned ↦ elim (Bool-cases (is_relative route)) [
        | inl relative ↦
            let q : Request = record {
              url = base <> route;
              method = method;
              body = body;
              headers = headers;
              direct = true;
            } in
            rw (owned, relative)
              (inr (
                q,
                IsLocal-of base route q owned relative refl refl,
                answer_history expected w (w.fetch s.history q)
                    (record s { history = fetched q ∷ s.history }),
              ))
        | inr relative ↦ rw (owned, relative) (inl (_, refl, refl, refl))
      ]
      | inr owned ↦ rw owned (inl (_, refl, refl, refl))
    ]
