-- ===== src/Harness/Rights/Tokens.antt =====
-- What the tokens of `ACL SETUSER` do to a right, and which lists of them give back what others took.
use campus_hub.Prelude.{
  ℕ, ◌≡◌, refl, ap, ◌∙◌, String, ◌<>◌, Bool, true, false, ◌&&◌, List, [], ◌∷◌, ◌==◌, nat_eq,
  string_eq, list_eq, if◌then◌else◌, map, any, arith, Bool-cases, inl, inr, ◌⊎◌,
}
use campus_hub.Py.{codes}
use campus_hub.Py.Text.Show.{codes-append}
use campus_hub.Harness.Rights.{Right, command, every_key, schema, is_grant, is_denial, after_tokens}

-- A chain of denials that failed takes nothing.
pub failed_denial : (r : Right) (ts : List String) → after_tokens false r ts false ≡ false
unfolding after_tokens
failed_denial r [] = refl
failed_denial r (t ∷ ts) = elim (Bool-cases (is_grant r t)) [
  | inl b ↦ rw b (failed_denial r ts)
  | inr b ↦ rw b (failed_denial r ts)
]

-- The tokens that give back undo those that took: for each right they give it, or neither names it.
pub record GivesBack (off on : List String) : Type 0 where
  pub right :
      (r : Right)
      → ((done b : Bool) → after_tokens done r on b ≡ false)
        ⊎ ((done b : Bool) → (after_tokens done r off b ≡ b) × (after_tokens done r on b ≡ b))

-- Whether the right is to run the command, and to run one of the commands.
abbrev is_name : Right → String → Bool
is_name (command p) c = codes c == codes p
is_name every_key c = false
is_name (schema fault) c = false

abbrev names : Right → List String → Bool
names r commands = any (is_name r) commands

after_token :
    (done : Bool) (r : Right) (ts : List String) (b : Bool) (c t : String)
    → is_grant r t ≡ false
    → is_denial r t ≡ is_name r c
    → after_tokens done r (t ∷ ts) b
      ≡ after_tokens done r ts (if done && is_name r c then true else b)
unfolding after_tokens
after_token done r ts b c t g d = rw (g, d) refl

same_head : (x : ℕ) (xs ys : List ℕ) → ((x ∷ xs) == (x ∷ ys)) ≡ (xs == ys)
same_head x xs ys = ground arith

grants : (r : Right) (c : String) → is_grant r ("+" <> c) ≡ is_name r c
grants (command p) c = rw (codes-append "+" c) (same_head b'+' (codes c) (codes p))
grants every_key c = rw (codes-append "+" c) (ground arith)
grants (schema fault) c = refl

grants_not : (r : Right) (c : String) → is_grant r ("-" <> c) ≡ false
unfolding list_eq nat_eq
grants_not (command p) c = rw (codes-append "-" c) refl
grants_not every_key c = rw (codes-append "-" c) refl
grants_not (schema fault) c = refl

denies : (r : Right) (c : String) → is_denial r ("-" <> c) ≡ is_name r c
denies (command p) c = rw (codes-append "-" c) (same_head b'-' (codes c) (codes p))
denies every_key c = rw (codes-append "-" c) (ground arith)
denies (schema fault) c = refl

denies_not : (r : Right) (c : String) → is_denial r ("+" <> c) ≡ false
unfolding list_eq nat_eq
denies_not (command p) c = rw (codes-append "+" c) refl
denies_not every_key c = rw (codes-append "+" c) refl
denies_not (schema fault) c = refl

plus_step :
    (r : Right) (c : String) (ts : List String) (done b : Bool)
    → after_tokens done r (("+" <> c) ∷ ts) b
      ≡ after_tokens done r ts (if is_name r c then false else b)
unfolding after_tokens
plus_step r c ts done b =
    rw (grants r c, denies_not r c) (ap (after_tokens done r ts) (ground arith))

minus_step :
    (r : Right) (c : String) (ts : List String) (done b : Bool)
    → after_tokens done r (("-" <> c) ∷ ts) b
      ≡ after_tokens done r ts (if done && is_name r c then true else b)
unfolding after_tokens
minus_step r c ts done b = rw (grants_not r c, denies r c) refl

plus_tokens :
    (r : Right) (cs : List String) (done b : Bool)
    → after_tokens done r (map (λ c. "+" <> c) cs) b ≡ (if names r cs then false else b)
unfolding after_tokens
plus_tokens r [] done b = refl
plus_tokens r (c ∷ cs) done b =
    plus_step r c (map (λ c. "+" <> c) cs) done b ∙ plus_tokens r cs done _ ∙ ground arith

minus_tokens :
    (r : Right) (cs : List String) (done b : Bool)
    → names r cs ≡ false
    → after_tokens done r (map (λ c. "-" <> c) cs) b ≡ b
unfolding after_tokens
minus_tokens r [] done b h = refl
minus_tokens r (c ∷ cs) done b h =
    minus_step r c (map (λ c. "-" <> c) cs) done b
    ∙ minus_tokens r cs done _ (ground arith)
    ∙ ground arith

pub GivesBack-commands :
    (cs : List String) → GivesBack (map (λ c. "-" <> c) cs) (map (λ c. "+" <> c) cs)
GivesBack-commands cs = record {
  right = λ r. elim (Bool-cases (names r cs)) [
    | inl named ↦ inl (λ done b. plus_tokens r cs done b ∙ rw named refl)
    | inr other ↦
        inr (λ done b. (minus_tokens r cs done b other, plus_tokens r cs done b ∙ rw other refl))
  ];
}

-- A key pattern neither takes nor gives a command.
pub GivesBack-keys :
    GivesBack ("resetkeys" ∷ "~login:code:cooldown:*" ∷ []) ("resetkeys" ∷ "~*" ∷ [])
unfolding after_tokens list_eq nat_eq
GivesBack-keys = record { right = given }
  where
    given :
        (r : Right)
        → ((done b : Bool) → after_tokens done r ("resetkeys" ∷ "~*" ∷ []) b ≡ false)
          ⊎ ((done b : Bool)
              → (after_tokens done r ("resetkeys" ∷ "~login:code:cooldown:*" ∷ []) b ≡ b)
                × (after_tokens done r ("resetkeys" ∷ "~*" ∷ []) b ≡ b))
    given (command p) = inr (λ done b. (ground arith, ground arith))
    given every_key = inl (λ done b. refl)
    given (schema fault) = inr (λ done b. (ground arith, ground arith))
