-- ===== src/Harness/Exec/Poll.antt =====
-- Loops on the clock end: each round sleeps.
use campus_hub.Prelude.{
  ◌⊎◌, ◌∙◌, ℕ, zero, suc, ◌+◌, ◌*◌, ◌≤◌, ◌≡◌, ◌≢◌, List, [], ◌∷◌, ◌++◌, false, Option, none, some,
  ltb, arith, Bool-cases, inl, inr,
}
use campus_hub.Py.{Result, ok, err}
use campus_hub.Harness.World.{World, Event, slept, Ticks}
use campus_hub.Harness.Exec.Laws.{Appends, >>=-ok}
use campus_hub.Harness.Exec.{
  State, Exec, ◌>>=◌, resume, monotonic, sleep, Polled, found, out_of_fuel, poll, after_attempt,
}

clock_later : (w : World) → Ticks w → (new h : List Event) → w.clock h ≤ w.clock (new ++ h)
clock_later w t [] h = omega arith
clock_later w t (e ∷ new) h = omega (arith, clock_later w t new h, t.forward e (new ++ h))

module _ {A : Type 0} (pause deadline : ℕ) (attempt : Exec (Option A))
    (appends : Appends attempt) where
  -- One round, if the rounds after it end.
  round :
      (again : Exec (Polled A)) (room : ℕ) (w : World) (r : Result (Option A)) (s : State)
      → Ticks w
      → deadline ≤ w.clock s.history + (pause + room)
      → ((u : State) → deadline ≤ w.clock u.history + room → (again w u).0 ≢ ok out_of_fuel)
      → (resume w (after_attempt pause deadline attempt again) (r, s)).0 ≢ ok out_of_fuel
  unfolding sleep ◌>>=◌
  round again room w (ok (some a)) s t h k e = absurd (ground arith)
  round again room w (ok none) s t h k e =
      k (record s { history = slept pause ∷ s.history }) (omega (arith, h, t.pause pause s.history))
        e
  round again room w (err x) s t h k e = absurd (ground arith)

  -- With as much fuel as pauses fit before the deadline, a loop is not left without fuel.
  pub poll-ends :
      (fuel : ℕ) (w : World) (s : State)
      → Ticks w
      → deadline ≤ w.clock s.history + fuel * pause
      → (poll pause deadline attempt fuel w s).0 ≢ ok out_of_fuel
  unfolding poll monotonic ◌>>=◌
  poll-ends zero w s t h e =
      let b : ltb (w.clock s.history) deadline ≡ false = ground arith in
      absurd (let f = rw b at e in ground arith)
  poll-ends (suc fuel) w s t h e = elim (Bool-cases (ltb (w.clock s.history) deadline)) [
    | inl b ↦
        let (new, same) = appends w s in
        let later = clock_later w t new s.history in
        round (poll pause deadline attempt fuel) (fuel * pause) w (attempt w s).0 (attempt w s).1 t
          (rw same (omega (arith, later, h))) (λ u g. poll-ends fuel w u t g) (rw b at e)
    | inr b ↦ absurd (let f = rw b at e in ground arith)
  ]

  -- One round found it, or the rounds after it did.
  round_found :
      (again : Exec (Polled A)) (w : World) (s : State) (t : State) (a : A)
      → (attempt >>= after_attempt pause deadline attempt again) w s ≡ (ok (found a), t)
      → (attempt w s ≡ (ok (some a), t)) ⊎ ((u : State) × (again w u ≡ (ok (found a), t)))
  round_found again w s t a h =
      let (o, u, e, rest) =
        >>=-ok attempt (after_attempt pause deadline attempt again) w s t (found a) h in
      next o e rest
    where
      next :
          {u : State} (o : Option A)
          → attempt w s ≡ (ok o, u)
          → after_attempt pause deadline attempt again o w u ≡ (ok (found a), t)
          → (attempt w s ≡ (ok (some a), t)) ⊎ ((u : State) × (again w u ≡ (ok (found a), t)))
      next (some b) e rest = inl (e ∙ ground arith)
      next none e rest =
          let (_, v, _, again_found) = >>=-ok (sleep pause) (λ _. again) w _ t (found a) rest in
          inr (v, again_found)

  -- What a loop found is what its last attempt gave.
  pub poll-found :
      (fuel : ℕ) (w : World) (s t : State) (a : A)
      → poll pause deadline attempt fuel w s ≡ (ok (found a), t)
      → (u : State) × (attempt w u ≡ (ok (some a), t))
  unfolding poll monotonic ◌>>=◌
  poll-found zero w s t a h = elim (Bool-cases (ltb (w.clock s.history) deadline)) [
    | inl b ↦ absurd (let f = rw b at h in ground arith)
    | inr b ↦ absurd (let f = rw b at h in ground arith)
  ]
  poll-found (suc fuel) w s t a h = elim (Bool-cases (ltb (w.clock s.history) deadline)) [
    | inl b ↦ elim (round_found (poll pause deadline attempt fuel) w s t a (rw b at h)) [
      | inl e ↦ (s, e)
      | inr (u, e) ↦ poll-found fuel w u t a e
    ]
    | inr b ↦ absurd (let f = rw b at h in ground arith)
  ]
