-- ===== src/Harness/Exec/Laws.antt =====
-- What a chain that returned did.
use mathlib.Core.List.{append_assoc}
use campus_hub.Prelude.{
  List, [], ◌++◌, Option, some, sym, Bool-cases, inl, inr, ◌≡◌, refl, ap, ◌∙◌, Bool, true, false,
  String, arith,
}
use campus_hub.Py.{Result, ok, err}
use campus_hub.Harness.World.{World, Event}
use campus_hub.Harness.Exec.{
  State, Exec, ◌>>=◌, resume, assert, finally, settle, passing, passing_result, is_passed,
}

resume-ok :
    {A B : Type 0} (k : A → Exec B) (w : World) (r : Result A) (u t : State) (b : B)
    → resume w k (r, u) ≡ (ok b, t)
    → (a : A) × (r ≡ ok a) × (k a w u ≡ (ok b, t))
resume-ok k w (ok a) u t b h = (a, refl, h)
resume-ok k w (err e) u t b h = absurd (ground arith)

-- If a chain returned, its first part did, and the rest went on from there.
pub >>=-ok :
    {A B : Type 0} (m : Exec A) (k : A → Exec B) (w : World) (s t : State) (b : B)
    → (m >>= k) w s ≡ (ok b, t)
    → (a : A) × (u : State) × (m w s ≡ (ok a, u)) × (k a w u ≡ (ok b, t))
unfolding ◌>>=◌
>>=-ok m k w s t b h =
    let (a, e, rest) = resume-ok k w (m w s).0 (m w s).1 t b h in
    (a, (m w s).1, ap (λ r. (r, (m w s).1)) e, rest)

pub assert-ok :
    (b : Bool) (message : String) (w : World) (s t : State)
    → assert b message w s ≡ (ok tt, t)
    → (b ≡ true) × (t ≡ s)
assert-ok true message w s t h = (refl, ground arith)
assert-ok false message w s t h = absurd (ground arith)

settle-ok :
    {A : Type 0} (r : Result A) (q : Result (Unit {0})) (u t : State) (a : A)
    → settle r (q, u) ≡ (ok a, t)
    → (r ≡ ok a) × (q ≡ ok tt) × (u ≡ t)
settle-ok r (ok tt) u t a h = (ap (λ p. p.0) h, refl, ap (λ p. p.1) h)
settle-ok r (err e) u t a h = absurd (ground arith)

-- If a statement with a `finally` returned, both parts did.
pub finally-ok :
    {A : Type 0} (m : Exec A) (last : Exec (Unit {0})) (w : World) (s t : State) (a : A)
    → finally m last w s ≡ (ok a, t)
    → (u : State) × (m w s ≡ (ok a, u)) × (last w u ≡ (ok tt, t))
unfolding finally
finally-ok m last w s t a h =
    let u : State = (m w s).1 in
    let (r, q, e) = settle-ok (m w s).0 (last w u).0 (last w u).1 t a h in
    (u, ap (λ r. (r, u)) r, ap (λ q. (q, (last w u).1)) q ∙ ap (λ v. (ok tt, v)) e)

-- What is done stays done.
abbrev pub Appends : {A : Type 0} → Exec A → Type 0
Appends m = (w : World) (s : State) → (new : List Event) × ((m w s).1.history ≡ new ++ s.history)

pub Appends-resume :
    {A B : Type 0} (k : A → Exec B)
    → ((a : A) → Appends (k a))
    → (w : World) (r : Result A) (u : State)
    → (new : List Event) × ((resume w k (r, u)).1.history ≡ new ++ u.history)
Appends-resume k h w (ok a) u = h a w u
Appends-resume k h w (err e) u = ([], refl)

pub Appends->>= :
    {A B : Type 0} (m : Exec A) (k : A → Exec B)
    → Appends m
    → ((a : A) → Appends (k a))
    → Appends (m >>= k)
unfolding ◌>>=◌
Appends->>= m k p q w s =
    let (first, e) = p w s in
    let (rest, f) = Appends-resume k q w (m w s).0 (m w s).1 in
    (rest ++ first, f ∙ ap (λ h. rest ++ h) e ∙ sym (append_assoc rest first s.history))

pub Appends-assert : (b : Bool) (message : String) → Appends (assert b message)
Appends-assert true message w s = ([], refl)
Appends-assert false message w s = ([], refl)

passing_history : {A : Type 0} (r : Result (Option A)) (u : State) → (passing_result (r, u)).1 ≡ u
passing_history (ok a) u = refl
passing_history (err e) u = elim (Bool-cases (is_passed e)) [
  | inl b ↦ rw b refl
  | inr b ↦ rw b refl
]

pub Appends-passing : {A : Type 0} (m : Exec (Option A)) → Appends m → Appends (passing m)
unfolding passing
Appends-passing m p w s =
    let (new, e) = p w s in (new, ap (λ u. u.history) (passing_history (m w s).0 (m w s).1) ∙ e)

passing_some :
    {A : Type 0} (r : Result (Option A)) (u t : State) (a : A)
    → passing_result (r, u) ≡ (ok (some a), t)
    → (r ≡ ok (some a)) × (u ≡ t)
passing_some (ok o) u t a h = (ap (λ p. p.0) h, ap (λ p. p.1) h)
passing_some (err e) u t a h = elim (Bool-cases (is_passed e)) [
  | inl b ↦ absurd (let f = rw b at h in ground arith)
  | inr b ↦ absurd (let f = rw b at h in ground arith)
]

-- What was found was not passed over.
pub passing-ok :
    {A : Type 0} (m : Exec (Option A)) (w : World) (s t : State) (a : A)
    → passing m w s ≡ (ok (some a), t)
    → m w s ≡ (ok (some a), t)
unfolding passing
passing-ok m w s t a h =
    let (e, f) = passing_some (m w s).0 (m w s).1 t a h in
    ap (λ r. (r, (m w s).1)) e ∙ ap (λ u. (ok (some a), u)) f
