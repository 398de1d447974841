-- ===== src/Harness/Compose/Outcome.antt =====
-- What becomes of a command.
use campus_hub.Prelude.{ℕ, ◌+◌, ◌≡◌, refl, String, ◌<>◌, Bool, true, false, Bool-cases, inl, inr}
use campus_hub.Py.{Result, ok, err, runtime_error, assertion_error, strip}
use campus_hub.Harness.World.{World, Command, Exited}
use campus_hub.Harness.Exec.{State, ◌>>=◌, resume}
use campus_hub.Harness.Compose.{
  is_success, run_command, count_command, spawn, finish, failed, two_digits,
}
use campus_hub.Harness.Compose.Cleanup.{after_run}

-- By whether a failure was expected, and whether the process succeeded.
abbrev verdict : Bool → Bool → World → ℕ → String → Result String
verdict false true w n out = ok out
verdict true false w n out = ok out
verdict true true w n out = err (assertion_error "expected operation to be rejected")
verdict false false w n out = err (
    runtime_error (
      "Operation failed; private diagnostic log: "
      <> w.artifacts
      <> "/command-"
      <> two_digits n
      <> ".log"))

abbrev pub judged : Bool → World → ℕ → Result Exited → Result String
judged expect_failure w n (ok x) =
    verdict expect_failure (is_success x.returncode) w n (strip x.stdout)
judged expect_failure w n (err e) = err e

finish-judged :
    (expect_failure : Bool) (w : World) (r : Result Exited) (s : State)
    → resume w (finish expect_failure) (r, s) ≡ (judged expect_failure w s.counter r, s)
unfolding finish failed ◌>>=◌
finish-judged true w (ok x) s = elim (Bool-cases (is_success x.returncode)) [
  | inl b ↦ rw b refl
  | inr b ↦ rw b refl
]
finish-judged false w (ok x) s = elim (Bool-cases (is_success x.returncode)) [
  | inl b ↦ rw b refl
  | inr b ↦ rw b refl
]
finish-judged b w (err e) s = refl

-- Every command is counted and is one process, whatever comes of it. What could not be started or
-- took too long raises as it is. Otherwise the command returns the stripped output exactly if it
-- failed when a failure was expected or succeeded when none was; it raises that a rejection was
-- expected if it succeeded against that, and that it failed, with the log of its own number, if it
-- failed unexpectedly.
pub run_command-outcome :
    (expect_failure : Bool) (c : Command) (w : World) (s : State)
    → run_command expect_failure c w s
      ≡ (judged expect_failure w (s.counter + 1) (w.spawn s.history c), after_run s c)
unfolding run_command count_command spawn ◌>>=◌
run_command-outcome expect_failure c w s = finish-judged expect_failure w (w.spawn s.history c) _
