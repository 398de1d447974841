-- ===== src/Py/Raise.antt =====
-- A call returns or raises. The classes of exception that the scripts raise, catch or let through;
-- `json.JSONDecodeError` is a `ValueError`, and `URLError` and `TimeoutError` are `OSError`s.
use mathlib.Core.Path.{subst}
use campus_hub.Prelude.{◌≡◌, refl, arith, Bool, true, false, List, [], ◌∷◌, String, if◌then◌else◌}

pub data Error : Type 0 where
  value_error : String → Error
  runtime_error : String → Error
  assertion_error : String → Error
  os_error : String → Error
  key_error : String → Error
  type_error attribute_error index_error stop_iteration overflow_error timeout_expired : Error

pub data Result {ℓ} (A : Type ℓ) : Type ℓ where
  ok : A → Result A
  err : Error → Result A

-- `if not b: raise e`
abbrev pub require : Bool → Error → Result (Unit {0})
require false e = err e
require true e = ok tt

infixl 5 ◌>>=◌ ◌>>◌
-- What was raised passes through.
unfoldable pub ◌>>=◌ {ℓ κ} : {A : Type ℓ} {B : Type κ} → Result A → (A → Result B) → Result B
err raised >>= next = err raised
ok value >>= next = next value

-- One statement after another.
abbrev pub ◌>>◌ {ℓ} : {B : Type ℓ} → Result (Unit {0}) → Result B → Result B
first >> rest = first >>= λ _. rest

-- `[f(x) for x in xs]`
unfoldable pub traverse {ℓ κ} :
    {A : Type ℓ} {B : Type κ} → (A → Result B) → List A → Result (List B)
traverse f [] = ok []
traverse f (x ∷ xs) = do y ← f x; ys ← traverse f xs; ok (y ∷ ys)

-- `for x in xs: f(x)`
unfoldable pub for_each {ℓ} : {A : Type ℓ} → (A → Result (Unit {0})) → List A → Result (Unit {0})
for_each f [] = ok tt
for_each f (x ∷ xs) = do f x; for_each f xs

-- What is returned satisfies `P`; a call that raises returns nothing.
pub data Post {ℓ κ} {A : Type ℓ} (P : A → Type κ) : Result A → Type (ℓ ⊔ κ) where
  returns : {a : A} → P a → Post P (ok a)
  raises : {e : Error} → Post P (err e)

pub Post-ok {ℓ κ} : {A : Type ℓ} {P : A → Type κ} {r : Result A} {a : A} → Post P r → r ≡ ok a → P a
Post-ok {P} (returns p) h = subst P (ground arith) p
Post-ok raises h = absurd (ground arith)

pub Post-bind {ℓ κ} :
    {A : Type ℓ} {B : Type κ} {Q : A → Type ℓ} {P : B → Type κ} {m : Result A} {f : A → Result B}
    → Post Q m
    → ((a : A) → Q a → Post P (f a))
    → Post P (m >>= f)
unfolding ◌>>=◌
Post-bind (returns q) k = k _ q
Post-bind raises k = raises

-- After a test has passed, it is known to hold.
pub Post-require {ℓ} :
    {A : Type ℓ} {P : A → Type ℓ} {b : Bool} {m : Result A} (e : Error)
    → (b ≡ true → Post P m)
    → Post P (require b e >> m)
unfolding ◌>>=◌
Post-require {b = true} e k = k refl
Post-require {b = false} e k = raises

-- The postcondition that says only that the call returned this.
pub Post-self {ℓ} : {A : Type ℓ} (r : Result A) → Post (λ a. r ≡ ok a) r
Post-self (ok a) = returns refl
Post-self (err e) = raises

pub Post-map {ℓ κ} :
    {A : Type ℓ} {P Q : A → Type κ} {r : Result A} → Post P r → ((a : A) → P a → Q a) → Post Q r
Post-map (returns p) k = returns (k _ p)
Post-map raises k = raises

pub Post-both {ℓ} :
    {A : Type ℓ} {P Q : A → Type ℓ} {r : Result A} → Post P r → Post Q r → Post (λ a. P a × Q a) r
Post-both {Q} (returns {a = a} p) q = returns (p, Post-ok q refl)
Post-both raises q = raises

-- A test at the end of a chain.
pub Post-require_end :
    {P : Unit {0} → Type 0} (b : Bool) (e : Error) → (b ≡ true → P tt) → Post P (require b e)
Post-require_end true e k = returns (k refl)
Post-require_end false e k = raises

pub Post-if {ℓ κ} :
    {A : Type ℓ} {P : A → Type κ} {m n : Result A} (b : Bool)
    → Post P m
    → Post P n
    → Post P (if b then m else n)
Post-if true p q = p
Post-if false p q = q

-- The elements of two lists are related one by one.
abbrev pub Each {ℓ κ} : {A : Type ℓ} {B : Type κ} → (A → B → Type 0) → List A → List B → Type 0
Each Q [] [] = Unit
Each Q (x ∷ xs) (y ∷ ys) = Q x y × Each Q xs ys
Each Q [] (y ∷ ys) = ⊥
Each Q (x ∷ xs) [] = ⊥

pub Post-traverse :
    {A B : Type 0} (Q : A → B → Type 0) (f : A → Result B)
    → ((x : A) → Post (Q x) (f x))
    → (xs : List A) → Post (Each Q xs) (traverse f xs)
unfolding traverse
Post-traverse Q f h [] = returns tt
Post-traverse Q f h (x ∷ xs) =
    Post-bind (h x) λ y q. Post-bind (Post-traverse Q f h xs) λ ys qs. returns (q, qs)
