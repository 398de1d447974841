-- ===== src/Harness/Own.antt =====
-- What a scenario may reach: commands of its own compose project, and the application at `base`.
pub mod Rules
use campus_hub.Prelude.{
  ℕ, zero, suc, ◌+◌, String, ◌<>◌, Bool, List, [], ◌∷◌, ◌++◌, Option, ◌≡◌, All, false,
}
use campus_hub.Harness.World.{World, Command, Request, Event, spawned, fetched, slept, wrote, drawn}
use campus_hub.Harness.Exec.{State}

pub data IsOwn (base : String) (w : World) : Event → Type 0 where
  composes :
      (args : List String) (input : Option String) (timeout : ℕ)
      → IsOwn base w
          (spawned (record { args = w.compose ++ args; input = input; timeout = timeout }))
  asks :
      (route method : String) (body : Option String) (headers : List (String × String))
      → IsOwn base w (
          fetched (record {
            url = base <> route;
            method = method;
            body = body;
            headers = headers;
            direct = false;
          }))
  draws : IsOwn base w drawn

-- The processes that were started.
unfoldable pub processes : List Event → ℕ
processes [] = 0
processes (spawned c ∷ h) = processes h + 1
processes (fetched q ∷ h) = processes h
processes (slept ms ∷ h) = processes h
processes (wrote path text ∷ h) = processes h
processes (drawn ∷ h) = processes h

-- Nothing else was reached, and `COUNTER` is the number of the processes, which names their logs.
abbrev pub Confined : String → World → State → Type 0
Confined base w s = All (IsOwn base w) s.history × (s.counter ≡ processes s.history)
