-- ===== src/Harness/Rights/Bracket.antt =====
-- What is taken before a `try` is given back in its `finally`, however the statements between end.
use mathlib.Core.Path.{subst}
use campus_hub.Prelude.{◌≡◌, refl, sym, inl, inr, ◌⊎◌}
use campus_hub.Py.{Result, ok, err, Error}
use campus_hub.Harness.World.{World}
use campus_hub.Harness.Exec.{State, Exec, ◌>>=◌, ◌>>◌, finally, resume}
use campus_hub.Harness.Compose.Cleanup.{settle_state}
use campus_hub.Harness.Keeps.{Keeps, Keeps-resume}

-- `give` always makes `P` hold, or both keep it; and a `take` that raises keeps it.
pub record Restores (P : World → State → Type 0) (take give : Exec (Unit {0})) : Type 0 where
  pub raised : (w : World) (s : State) (e : Error) → (take w s).0 ≡ err e → P w s → P w (take w s).1
  pub either : ((w : World) (s : State) → P w (give w s).1) ⊎ (Keeps P take × Keeps P give)

module _ {P : World → State → Type 0} where
  pub Restores->> :
      (take give last : Exec (Unit {0}))
      → Restores P take give
      → Keeps P last
      → Restores P take (give >> last)
  unfolding ◌>>=◌
  Restores->> take give last g l = record {
    raised = g.raised;
    either = elim g.either [
      | inl gives ↦
          inl (λ w s. Keeps-resume (λ _. last) (λ _. l) w (give w s).0 (give w s).1 (gives w s))
      | inr both ↦ inr (
        both.0,
        record {
          at = λ w s h.
              Keeps-resume (λ _. last) (λ _. l) w (give w s).0 (give w s).1 (both.1.at w s h);
        },
      )
    ];
  }

  module _ {A : Type 0} (take give : Exec (Unit {0})) (body : Exec A) (g : Restores P take give)
      (p : Keeps P body) where
    after_take :
        (w : World) (s : State)
        → P w s
        → (x : Result (Unit {0})) (u : State) → (take w s).0 ≡ x
        → (take w s).1 ≡ u
        → P w (resume w (λ (_ : Unit {0}). finally body give) (x, u)).1
    unfolding finally
    after_take w s h (ok tt) u e f =
        subst (P w) (sym (settle_state (body w u).0 (give w (body w u).1))) (elim g.either [
          | inl gives ↦ gives w (body w u).1
          | inr both ↦ both.1.at w (body w u).1 (p.at w u (subst (P w) f (both.0.at w s h)))
        ])
    after_take w s h (err x) u e f = subst (P w) f (g.raised w s x e h)

    pub Keeps-bracket : Keeps P (take >> finally body give)
    unfolding ◌>>=◌
    Keeps-bracket = record { at = λ w s h. after_take w s h (take w s).0 (take w s).1 refl refl }
