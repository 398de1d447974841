-- ===== src/Harness/Observability/Owned.antt =====
-- What the script started is taken down again, and nothing is started on a stack that is not fresh.
use mathlib.Core.Path.{subst}
use campus_hub.Prelude.{
  ◌≡◌, refl, ap, sym, ◌∙◌, String, true, List, [], ◌∷◌, ◌++◌, Option, none, some, false, ◌==◌,
  nat_eq, string_eq, arith, Bool-cases, inl, inr, ◌⊎◌,
}
use campus_hub.Py.{Result, ok, err, Error, codes, has_prefix}
use campus_hub.Harness.World.{World, Command, Event, spawned}
use campus_hub.Harness.Exec.{State, ◌>>=◌, finally, resume}
use campus_hub.Harness.Exec.Laws.{>>=-ok, finally-ok, assert-ok}
use campus_hub.Harness.Compose.{compose_command, cleanup}
use campus_hub.Harness.Compose.Cleanup.{
  IsRun, IsRemoved, run_command-IsRun, down_command, ps_command, logs_command, project_ls, empty_of,
  cleanup_sound, cleanup-takes_down, settle_state,
}
use campus_hub.Harness.Observability.{
  is_elsewhere, local_override, no_volumes, preflight, accept, main,
}

abbrev endpoint_command : Command
endpoint_command = record {
  args = "docker" ∷ "context" ∷ "inspect" ∷ "--format" ∷ "{{.Endpoints.docker.Host}}" ∷ [];
  input = none;
  timeout = 120;
}

-- The values of DOCKER_HOST that name no engine elsewhere.
pub data IsLocalHost : Option String → Type 0 where
  unset : IsLocalHost none
  empty : IsLocalHost (some "")
  socket :
      (host : String) → has_prefix (codes "unix://") (codes host) ≡ true → IsLocalHost (some host)

IsLocalHost-of : (host : Option String) → is_elsewhere host ≡ false → IsLocalHost host
IsLocalHost-of none h = unset
IsLocalHost-of (some host) h = elim (Bool-cases (host == "")) [
  | inl b ↦ subst (λ s. IsLocalHost (some s)) (sym (empty_of host b)) empty
  | inr b ↦ socket host (ground arith)
]

-- The engine is local, and neither a container nor a volume of the project is there.
pub record IsFresh (w : World) (h : List Event) : Type 0 where
  pub host : IsLocalHost w.docker_host
  pub endpoint : String
  pub asked : IsRun w h endpoint_command endpoint
  pub is_local : has_prefix (codes "unix://") (codes endpoint) ≡ true
  pub containers : IsRun w (spawned endpoint_command ∷ h) (ps_command w) ""
  pub volumes :
      IsRun w (spawned (ps_command w) ∷ spawned endpoint_command ∷ h) (project_ls w "volume") ""

abbrev pub after_preflight : World → List Event → List Event
after_preflight w h =
    spawned (project_ls w "volume") ∷ spawned (ps_command w) ∷ spawned endpoint_command ∷ h

local_override-ok :
    (w : World) (s t : State)
    → local_override w s ≡ (ok tt, t)
    → (t ≡ s) × IsLocalHost w.docker_host
unfolding local_override
local_override-ok w s t h = elim (Bool-cases (is_elsewhere w.docker_host)) [
  | inl b ↦ absurd (let f = rw b at h in ground arith)
  | inr b ↦ let f = rw b at h in (sym (ap (λ p. p.1) f), IsLocalHost-of w.docker_host b)
]

preflight-IsFresh :
    (w : World) (s t : State)
    → preflight w s ≡ (ok tt, t)
    → IsFresh w s.history × (t.history ≡ after_preflight w s.history)
unfolding preflight no_volumes compose_command
preflight-IsFresh w s t h =
    let (_, s0, a0, h0) = >>=-ok local_override _ w s t tt h in
    let (e0, host) = local_override-ok w s s0 a0 in
    let (endpoint, s1, ran1, h1) = >>=-ok _ _ w s0 t tt h0 in
    let (p1, e1) = run_command-IsRun endpoint_command w s0 s1 endpoint ran1 in
    let (_, s2, a2, h2) = >>=-ok _ _ w s1 t tt h1 in
    let (local, e2) = assert-ok (has_prefix (codes "unix://") (codes endpoint)) _ w s1 s2 a2 in
    let (containers, s3, ran3, h3) = >>=-ok _ _ w s2 t tt h2 in
    let (p3, e3) = run_command-IsRun (ps_command w) w s2 s3 containers ran3 in
    let (_, s4, a4, h4) = >>=-ok _ _ w s3 t tt h3 in
    let (none_left, e4) = assert-ok (containers == "") _ w s3 s4 a4 in
    let (names, s5, ran5, h5) = >>=-ok _ _ w s4 t tt h4 in
    let (p5, e5) = run_command-IsRun (project_ls w "volume") w s4 s5 names ran5 in
    let (no_names, e6) = assert-ok (names == "") _ w s5 t h5 in
    let q0 : s0.history ≡ s.history = ap (λ u. u.history) e0 in
    let q2 : s2.history ≡ spawned endpoint_command ∷ s0.history = ap (λ u. u.history) (e2 ∙ e1) in
    let q4 : s4.history ≡ spawned (ps_command w) ∷ s2.history = ap (λ u. u.history) (e4 ∙ e3) in
    let q6 : t.history ≡ spawned (project_ls w "volume") ∷ s4.history =
      ap (λ u. u.history) (e6 ∙ e5) in
    (
      record {
        host = host;
        endpoint = endpoint;
        asked = rw q0 at p1;
        is_local = local;
        containers = rw (q2, q0, empty_of containers none_left) at p3;
        volumes = rw (q4, q2, q0, empty_of names no_names) at p5;
      },
      q6
          ∙ ap (λ u. spawned (project_ls w "volume") ∷ u)
              (q4
                ∙ ap (λ u. spawned (ps_command w) ∷ u)
                    (q2 ∙ ap (λ u. spawned endpoint_command ∷ u) q0)),
    )

-- `main` returns only if DOCKER_HOST is unset, empty or a Unix socket, the endpoint of the Docker
-- context is a Unix socket, and the project had no container and no volume when it began; and if
-- then, after everything was accepted, the command for the logs succeeded, `down` succeeded and no container, volume, network or image of the project was listed any more.
pub main_sound :
    (w : World) (s t : State)
    → main w s ≡ (ok tt, t)
    → IsFresh w s.history
      × ((p u : State) × (p.history ≡ after_preflight w s.history)
          × (accept w p ≡ (ok tt, u))
          × ((logs : String) × IsRun w u.history (logs_command w) logs)
          × IsRemoved w (spawned (logs_command w) ∷ u.history))
unfolding main
main_sound w s t h =
    let (_, p, first, rest) = >>=-ok preflight _ w s t tt h in
    let (fresh, e) = preflight-IsFresh w s p first in
    let (u, accepted, removed) = finally-ok accept cleanup w p t tt rest in
    let (logs, gone) = cleanup_sound w u t removed in (fresh, (p, u, e, accepted, logs, gone))

-- After a preflight that passed, `down` follows whatever `accept` did and however it ended. After
-- one that raised, `main` raises the same and has done nothing else.
pub main-takes_down :
    (w : World) (s : State)
    → ((p : State) × (later : List Event) × (preflight w s ≡ (ok tt, p))
        × ((main w s).1.history
            ≡ later
              ++ (spawned (down_command w) ∷ spawned (logs_command w) ∷ (accept w p).1.history)))
      ⊎ ((e : Error) × (p : State) × (preflight w s ≡ (err e, p)) × (main w s ≡ (err e, p)))
unfolding main finally ◌>>=◌
main-takes_down w s = of_preflight (preflight w s).0 (preflight w s).1 refl
  where
    of_preflight :
        (r : Result (Unit {0})) (p : State)
        → preflight w s ≡ (r, p)
        → ((p : State) × (later : List Event) × (preflight w s ≡ (ok tt, p))
            × ((main w s).1.history
                ≡ later
                  ++ (spawned (down_command w)
                      ∷ spawned (logs_command w)
                      ∷ (accept w p).1.history)))
          ⊎ ((e : Error) × (p : State) × (preflight w s ≡ (err e, p)) × (main w s ≡ (err e, p)))
    of_preflight (ok tt) p same =
        let (later, e) = cleanup-takes_down w (accept w p).1 in
        inl (
          p,
          later,
          same,
          ap (λ r. (resume w (λ (_ : Unit {0}). finally accept cleanup) r).1.history) same
              ∙ ap (λ u. u.history) (settle_state (accept w p).0 (cleanup w (accept w p).1))
              ∙ e,
        )
    of_preflight (err e) p same =
        inr (e, p, same, ap (λ r. resume w (λ _. finally accept cleanup) r) same)
