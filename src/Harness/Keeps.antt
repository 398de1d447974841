-- ===== src/Harness/Keeps.antt =====
-- What statements keep: one rule for each way to build a statement that acts.
pub mod Statements
use campus_hub.Prelude.{◌≡◌, sym, String, Bool, true, false, List, ◌∷◌, if◌then◌else◌}
use mathlib.Core.Path.{subst}
use campus_hub.Py.{Result, ok, err, Error}
use campus_hub.Harness.World.{World, drawn}
use campus_hub.Harness.Exec.{State, Exec, ◌>>=◌, pure, raise, lift, assert, finally, resume}
use campus_hub.Harness.Compose.Cleanup.{settle_state}

-- If `P` holds before, it holds after, whether the statement returned or raised.
pub record Keeps {A : Type 0} (P : World → State → Type 0) (m : Exec A) : Type 0 where
  pub at : (w : World) (s : State) → P w s → P w (m w s).1

-- What is not about the labels, the noted names and the identifiers that are drawn.
pub record Stable (P : World → State → Type 0) : Type 0 where
  pub draws : (w : World) (s : State) → P w s → P w (record s { history = drawn ∷ s.history })
  pub marks :
      (w : World) (s : State) (passed noted : List String)
      → P w s
      → P w (record s { passed = passed; noted = noted })

module _ {P : World → State → Type 0} where
  module _ {A : Type 0} where
    pub Keeps-pure : (a : A) → Keeps P (pure a)
    Keeps-pure a = record { at = λ w s h. h }

    pub Keeps-raise : (e : Error) → Keeps P (raise {A = A} e)
    Keeps-raise e = record { at = λ w s h. h }

    pub Keeps-lift : (x : Result A) → Keeps P (lift x)
    Keeps-lift x = record { at = λ w s h. h }

    pub Keeps-if : (b : Bool) (m n : Exec A) → Keeps P m → Keeps P n → Keeps P (if b then m else n)
    Keeps-if true m n p q = p
    Keeps-if false m n p q = q

  pub Keeps-assert : (b : Bool) (message : String) → Keeps P (assert b message)
  Keeps-assert true message = Keeps-pure tt
  Keeps-assert false message = Keeps-raise _

  module _ {A B : Type 0} where
    pub Keeps-resume :
        (k : A → Exec B)
        → ((a : A) → Keeps P (k a))
        → (w : World) (x : Result A) (s : State) → P w s
        → P w (resume w k (x, s)).1
    Keeps-resume k p w (ok a) s h = (p a).at w s h
    Keeps-resume k p w (err e) s h = h

    pub Keeps->>= :
        (m : Exec A) (k : A → Exec B) → Keeps P m → ((a : A) → Keeps P (k a)) → Keeps P (m >>= k)
    unfolding ◌>>=◌
    Keeps->>= m k p q = record { at = λ w s h. Keeps-resume k q w (m w s).0 (m w s).1 (p.at w s h) }

  pub Keeps-finally :
      {A : Type 0} (m : Exec A) (last : Exec (Unit {0}))
      → Keeps P m
      → Keeps P last
      → Keeps P (finally m last)
  unfolding finally
  Keeps-finally m last p q = record {
    at = λ w s h.
        subst (P w) (sym (settle_state (m w s).0 (last w (m w s).1)))
          (q.at w (m w s).1 (p.at w s h));
  }
