-- ===== src/Harness/Compose/Cleanup.antt =====
-- `cleanup` takes the stack down whatever the logs do, and returns only if nothing is left.
use campus_hub.Prelude.{
  ℕ, ◌+◌, ◌≡◌, refl, ap, sym, ◌∙◌, String, ◌<>◌, Bool, true, false, List, [], ◌∷◌, ◌++◌, Option,
  none, ◌==◌, nat_eq, string_eq, arith, Bool-cases, inl, inr,
}
use campus_hub.Py.{Result, ok, err, strip}
use campus_hub.Harness.World.{World, Command, Event, spawned, Exited}
use campus_hub.Harness.Exec.{State, ◌>>=◌, pure, finally, resume, settle}
use campus_hub.Harness.Exec.Laws.{
  >>=-ok, finally-ok, assert-ok, Appends, Appends->>=, Appends-assert, Appends-resume,
}
use campus_hub.Harness.Compose.{
  is_success, spawn, failed, count_command, finish, run_command, compose_command, compose, listed,
  image_removed, down, remove_all, nothing_left, cleanup,
}

-- A process ended well and printed this.
pub record IsRun (w : World) (h : List Event) (c : Command) (out : String) : Type 0 where
  pub exit : Exited
  pub reply : w.spawn h c ≡ ok exit
  pub success : is_success exit.returncode ≡ true
  pub output : strip exit.stdout ≡ out

finish-history :
    (b : Bool) (w : World) (r : Result Exited) (s : State)
    → (resume w (finish b) (r, s)).1.history ≡ s.history
unfolding finish failed ◌>>=◌
finish-history true w (ok x) s = ground arith
finish-history false w (ok x) s = ground arith
finish-history b w (err e) s = refl

-- Whatever comes of it, a command is the next event.
pub run_command-history :
    (b : Bool) (c : Command) (w : World) (s : State)
    → (run_command b c w s).1.history ≡ spawned c ∷ s.history
unfolding run_command count_command spawn ◌>>=◌
run_command-history b c w s = finish-history b w (w.spawn s.history c) _

finish-IsRun :
    (w : World) (h : List Event) (c : Command) (r : Result Exited) (s t : State) (out : String)
    → w.spawn h c ≡ r
    → resume w (finish false) (r, s) ≡ (ok out, t)
    → IsRun w h c out × (t ≡ s)
unfolding finish failed ◌>>=◌
finish-IsRun w h c (ok x) s t out e k = elim (Bool-cases (is_success x.returncode)) [
  | inl b ↦
      let printed : strip x.stdout ≡ out = ground (arith, rw b at k) in
      let same : t ≡ s = ground (arith, rw b at k) in
      (record { exit = x; reply = e; success = b; output = printed }, same)
  | inr b ↦ absurd (ground (arith, rw b at k))
]
finish-IsRun w h c (err x) s t out e k = absurd (ground arith)

-- The state after a command.
abbrev pub after_run : State → Command → State
after_run s c = record {
  history = spawned c ∷ s.history;
  counter = s.counter + 1;
  passed = s.passed;
  noted = s.noted;
}

pub run_command-IsRun :
    (c : Command) (w : World) (s t : State) (out : String)
    → run_command false c w s ≡ (ok out, t)
    → IsRun w s.history c out × (t ≡ after_run s c)
unfolding run_command count_command spawn ◌>>=◌
run_command-IsRun c w s t out h =
    finish-IsRun w s.history c (w.spawn s.history c) (after_run s c) t out refl h

-- A listing printed nothing.
abbrev docker_ls : String → String → String → Command
docker_ls kind filter format = record {
  args = "docker" ∷ kind ∷ "ls" ∷ "--filter" ∷ filter ∷ "--format" ∷ format ∷ [];
  input = none;
  timeout = 120;
}

abbrev in_compose : World → ℕ → List String → Command
in_compose w timeout args = record { args = w.compose ++ args; input = none; timeout = timeout }

abbrev pub down_command : World → Command
down_command w = in_compose w 90 down

abbrev pub ps_command : World → Command
ps_command w = in_compose w 120 ("--profile" ∷ "app" ∷ "ps" ∷ "-aq" ∷ [])

abbrev pub logs_command : World → Command
logs_command w = in_compose w 30 ("--profile" ∷ "app" ∷ "logs" ∷ "--no-color" ∷ [])

abbrev pub project_ls : World → String → Command
project_ls w kind = docker_ls kind ("label=com.docker.compose.project=" <> w.project) "{{.Name}}"

abbrev pub image_ls : World → Command
image_ls w = docker_ls "image" ("reference=" <> w.project <> "-app:latest") "{{.Repository}}"

pub empty_of : (s : String) → (s == "") ≡ true → s ≡ ""
empty_of s h = ground arith

listed-IsRun :
    (kind message : String) (w : World) (s t : State)
    → listed kind message w s ≡ (ok tt, t)
    → IsRun w s.history (project_ls w kind) "" × (t ≡ after_run s (project_ls w kind))
unfolding listed
listed-IsRun kind message w s t h =
    let (names, u, ran, rest) = >>=-ok _ _ w s t tt h in
    let (printed, e) = assert-ok (names == "") message w u t rest in
    let (p, q) = run_command-IsRun (project_ls w kind) w s u names ran in
    (rw (empty_of names printed) at p, e ∙ q)

image_removed-IsRun :
    (w : World) (s t : State)
    → image_removed w s ≡ (ok tt, t)
    → IsRun w s.history (image_ls w) "" × (t ≡ after_run s (image_ls w))
unfolding image_removed
image_removed-IsRun w s t h =
    let (names, u, ran, rest) = >>=-ok _ _ w s t tt h in
    let (printed, e) = assert-ok (names == "") _ w u t rest in
    let (p, q) = run_command-IsRun (image_ls w) w s u names ran in
    (rw (empty_of names printed) at p, e ∙ q)

-- The stack is down, and no container, volume, network or image of the project is listed after it.
pub record IsRemoved (w : World) (h : List Event) : Type 0 where
  pub out : String
  pub taken_down : IsRun w h (down_command w) out
  pub containers : IsRun w (spawned (down_command w) ∷ h) (ps_command w) ""
  pub volumes :
      IsRun w (spawned (ps_command w) ∷ spawned (down_command w) ∷ h) (project_ls w "volume") ""
  pub networks :
      IsRun w
        (spawned (project_ls w "volume") ∷ spawned (ps_command w) ∷ spawned (down_command w) ∷ h)
        (project_ls w "network")
        ""
  pub images :
      IsRun w
        (spawned (project_ls w "network")
          ∷ spawned (project_ls w "volume")
          ∷ spawned (ps_command w)
          ∷ spawned (down_command w)
          ∷ h)
        (image_ls w)
        ""

remove_all-IsRemoved :
    (w : World) (s t : State) → remove_all w s ≡ (ok tt, t) → IsRemoved w s.history
unfolding remove_all nothing_left compose_command
remove_all-IsRemoved w s t h =
    let (out, s1, ran1, h1) = >>=-ok _ _ w s t tt h in
    let (p1, e1) = run_command-IsRun (down_command w) w s s1 out ran1 in
    let (left, s2, ran2, h2) = >>=-ok _ _ w s1 t tt h1 in
    let (p2, e2) = run_command-IsRun (ps_command w) w s1 s2 left ran2 in
    let (_, s3, a3, h3) = >>=-ok _ _ w s2 t tt h2 in
    let (none_left, e3) = assert-ok (left == "") _ w s2 s3 a3 in
    let (_, s4, a4, h4) = >>=-ok _ _ w s3 t tt h3 in
    let (p4, e4) = listed-IsRun "volume" _ w s3 s4 a4 in
    let (_, s5, a5, h5) = >>=-ok _ _ w s4 t tt h4 in
    let (p5, e5) = listed-IsRun "network" _ w s4 s5 a5 in
    let (p6, e6) = image_removed-IsRun w s5 t h5 in
    let q1 : s1.history ≡ spawned (down_command w) ∷ s.history = ap (λ u. u.history) e1 in
    let q3 : s3.history ≡ spawned (ps_command w) ∷ s1.history = ap (λ u. u.history) (e3 ∙ e2) in
    let q4 : s4.history ≡ spawned (project_ls w "volume") ∷ s3.history = ap (λ u. u.history) e4 in
    let q5 : s5.history ≡ spawned (project_ls w "network") ∷ s4.history = ap (λ u. u.history) e5 in
    record {
      out = out;
      taken_down = p1;
      containers = rw (q1, empty_of left none_left) at p2;
      volumes = rw (q3, q1) at p4;
      networks = rw (q4, q3, q1) at p5;
      images = rw (q5, q4, q3, q1) at p6;
    }

-- `cleanup` returns only if the logs were read and then `down` succeeded, and after it the
-- containers, the volumes, the networks and the images of the project were each listed as none.
pub cleanup_sound :
    (w : World) (s t : State)
    → cleanup w s ≡ (ok tt, t)
    → ((logs : String) × IsRun w s.history (logs_command w) logs)
      × IsRemoved w (spawned (logs_command w) ∷ s.history)
unfolding cleanup compose_command
cleanup_sound w s t h =
    let (u, read, removed) = finally-ok _ _ w s t tt h in
    let (logs, v, ran, e) = >>=-ok _ _ w s u tt read in
    let (p, q) = run_command-IsRun (logs_command w) w s v logs ran in
    let same : u.history ≡ spawned (logs_command w) ∷ s.history =
      ap (λ r. r.1.history) (sym e) ∙ ap (λ x. x.history) q in
    ((logs, p), rw same at (remove_all-IsRemoved w u t removed))

Appends-run_command : (b : Bool) (c : Command) → Appends (run_command b c)
Appends-run_command b c w s = (spawned c ∷ [], run_command-history b c w s)

Appends-listed : (kind message : String) → Appends (listed kind message)
unfolding listed
Appends-listed kind message w s =
    Appends->>= _ _ (Appends-run_command false (project_ls w kind))
      (λ names. Appends-assert (names == "") message) w s

Appends-image_removed : Appends image_removed
unfolding image_removed
Appends-image_removed w s =
    Appends->>= _ _ (Appends-run_command false (image_ls w))
      (λ names. Appends-assert (names == "") _) w s

Appends-compose :
    (timeout : ℕ) (input : Option String) (args : List String)
    → Appends (compose_command timeout input args)
unfolding compose_command
Appends-compose timeout input args w s =
    Appends-run_command false
      (record { args = w.compose ++ args; input = input; timeout = timeout }) w s

-- What follows `down`.
Appends-nothing_left : Appends nothing_left
unfolding nothing_left
Appends-nothing_left = Appends->>= _ _ (Appends-compose 120 none _) λ left.
    Appends->>= _ _ (Appends-assert (left == "") _) λ _.
      Appends->>= _ _ (Appends-listed "volume" _)
        λ _. Appends->>= _ _ (Appends-listed "network" _) λ _. Appends-image_removed

remove_all_history :
    (w : World) (s : State)
    → (later : List Event) × ((remove_all w s).1.history
        ≡ later ++ (spawned (down_command w) ∷ s.history))
unfolding remove_all compose_command ◌>>=◌
remove_all_history w s =
    let first = run_command false (down_command w) w s in
    let (later, e) =
      Appends-resume (λ _. nothing_left) (λ _. Appends-nothing_left) w first.0 first.1 in
    (later, e ∙ ap (λ h. later ++ h) (run_command-history false (down_command w) w s))

pub settle_state :
    {A : Type 0} (r : Result A) (p : Result (Unit {0}) × State) → (settle r p).1 ≡ p.1
settle_state r (ok tt, u) = refl
settle_state r (err e, u) = refl

pub resume-pure :
    (w : World) (r : Result String) (u : State)
    → (resume w (λ (_ : String). pure tt) (r, u)).1.history ≡ u.history
resume-pure w (ok a) u = refl
resume-pure w (err e) u = refl

logs_history :
    (w : World) (s : State)
    → ((compose 30 ("--profile" ∷ "app" ∷ "logs" ∷ "--no-color" ∷ []) >>= λ _. pure tt) w
        s).1.history
      ≡ spawned (logs_command w) ∷ s.history
unfolding compose_command ◌>>=◌
logs_history w s =
    let first = run_command false (logs_command w) w s in
    resume-pure w first.0 first.1 ∙ run_command-history false (logs_command w) w s

-- Whatever becomes of the logs, `down` is the command that `cleanup` runs next.
pub cleanup-takes_down :
    (w : World) (s : State)
    → (later : List Event) × ((cleanup w s).1.history
        ≡ later ++ (spawned (down_command w) ∷ spawned (logs_command w) ∷ s.history))
unfolding cleanup finally
cleanup-takes_down w s =
    let m = (compose 30 ("--profile" ∷ "app" ∷ "logs" ∷ "--no-color" ∷ []) >>= λ _. pure tt) w s in
    let (later, e) = remove_all_history w m.1 in
    (
      later,
      ap (λ u. u.history) (settle_state m.0 (remove_all w m.1))
          ∙ e
          ∙ ap (λ h. later ++ (spawned (down_command w) ∷ h)) (logs_history w s),
    )
