-- ===== src/Harness/Exec.antt =====
-- Python statements that act on the outside: they return or raise, and leave what they did.
pub mod Poll
pub mod Laws
use campus_hub.Prelude.{
  ℕ, zero, suc, String, Bool, true, false, List, [], ◌∷◌, Option, none, some, ltb, if◌then◌else◌,
}
use campus_hub.Py.{
  Error, Result, ok, err, value_error, runtime_error, assertion_error, os_error, key_error,
  type_error, attribute_error, index_error, stop_iteration, overflow_error, timeout_expired,
}
use campus_hub.Harness.World.{World, Event, slept}

-- `COUNTER`, `PASSED`, and what was done, the last first. `noted` is a list that a scenario fills
-- inside a `try` and reads in its `finally`.
pub record State : Type 0 where
  pub history : List Event
  pub counter : ℕ
  pub passed : List String
  pub noted : List String

abbrev pub Exec : Type 0 → Type 0
Exec A = World → State → Result A × State

abbrev pub resume : {A B : Type 0} → World → (A → Exec B) → Result A × State → Result B × State
resume w k (ok a, s) = k a w s
resume w k (err e, s) = (err e, s)

infixl 5 ◌>>=◌ ◌>>◌
unfoldable pub ◌>>=◌ : {A B : Type 0} → Exec A → (A → Exec B) → Exec B
m >>= k = λ w s. resume w k (m w s)

abbrev pub ◌>>◌ : {B : Type 0} → Exec (Unit {0}) → Exec B → Exec B
m >> k = m >>= λ _. k

abbrev pub pure : {A : Type 0} → A → Exec A
pure a w s = (ok a, s)

abbrev pub raise : {A : Type 0} → Error → Exec A
raise e w s = (err e, s)

-- A pure step.
abbrev pub lift : {A : Type 0} → Result A → Exec A
lift r w s = (r, s)

abbrev pub assert : Bool → String → Exec (Unit {0})
assert true message = pure tt
assert false message = raise (assertion_error message)

abbrev pub settle : {A : Type 0} → Result A → Result (Unit {0}) × State → Result A × State
settle r (ok _, s) = (r, s)
settle r (err e, s) = (err e, s)

abbrev pub then_settle :
    {A : Type 0} → World → Exec (Unit {0}) → Result A × State → Result A × State
then_settle w last (r, s) = settle r (last w s)

-- `try: m finally: last`, where an error of `last` replaces one of `m`.
unfoldable pub finally : {A : Type 0} → Exec A → Exec (Unit {0}) → Exec A
finally m last = λ w s. then_settle w last (m w s)

-- `except (OSError, AssertionError): pass`
abbrev pub is_passed : Error → Bool
is_passed (os_error _) = true
is_passed (assertion_error _) = true
is_passed (value_error _) = false
is_passed (runtime_error _) = false
is_passed (key_error _) = false
is_passed type_error = false
is_passed attribute_error = false
is_passed index_error = false
is_passed stop_iteration = false
is_passed overflow_error = false
is_passed timeout_expired = false

abbrev pub passing_result : {A : Type 0} → Result (Option A) × State → Result (Option A) × State
passing_result (ok a, s) = (ok a, s)
passing_result (err e, s) = if is_passed e then (ok none, s) else (err e, s)

unfoldable pub passing : {A : Type 0} → Exec (Option A) → Exec (Option A)
passing m = λ w s. passing_result (m w s)

unfoldable pub monotonic : Exec ℕ
monotonic w s = (ok (w.clock s.history), s)

unfoldable pub sleep : ℕ → Exec (Unit {0})
sleep ms w s = (ok tt, record s { history = slept ms ∷ s.history })

-- How a loop on the clock ended; the last is the model's own, and says that its fuel was too little.
pub data Polled (A : Type 0) : Type 0 where
  found : A → Polled A
  late out_of_fuel : Polled A

module _ {A : Type 0} (pause deadline : ℕ) (attempt : Exec (Option A)) where
  abbrev after_attempt : Exec (Polled A) → Option A → Exec (Polled A)
  after_attempt again (some a) = pure (found a)
  after_attempt again none = sleep pause >> again

  -- `while time.monotonic() < deadline: ...; time.sleep(pause)`
  unfoldable pub poll : ℕ → Exec (Polled A)
  poll zero = do now ← monotonic; if ltb now deadline then pure out_of_fuel else pure late
  poll (suc fuel) = do
    now ← monotonic
    let again = attempt >>= after_attempt (poll fuel)
    if ltb now deadline then again else pure late
