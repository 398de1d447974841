-- ===== src/FlashSale/Witness/Says.antt =====
-- What the entries of a witness log say, field by field.
use mathlib.Core.Path.{subst}
use campus_hub.Prelude.{
  ◌≡◌, ◌∙◌, sym, ap, true, ◌⊎◌, inl, inr, List, [], ◌∷◌, ◌++◌, String, arith, ◌==◌, string_eq,
  pair_eq, contains, Bool-cases, refl,
}
use campus_hub.Py.{ok, Json, null, bool, num, str, arr, obj, get, has_keys, is_text, is_null}
use campus_hub.FlashSale.Ids.Lossless.{IsId}

-- An entry has the three fields and no others, and names this user.
pub record Names (entry : Json) (user : String) : Type 0 where
  pub exact : has_keys entry ("userId" ∷ "orderId" ∷ "outcome" ∷ []) ≡ ok true
  pub user_id : get entry "userId" ≡ ok (str user)
  pub valid : IsId user

-- The user was told that this order was accepted.
pub record SaysAccepted (entry : Json) (user order : String) : Type 0 where
  pub who : Names entry user
  pub outcome : get entry "outcome" ≡ ok (str "accepted")
  pub order_id : get entry "orderId" ≡ ok (str order)
  pub placed : IsId order

-- The user was told that nothing was left.
pub record SaysSoldOut (entry : Json) (user : String) : Type 0 where
  pub who : Names entry user
  pub outcome : get entry "outcome" ≡ ok (str "sold_out")
  pub order_id : get entry "orderId" ≡ ok null

pub data Says : Json → String → List (String × String) → Type 0 where
  told_accepted :
      {entry : Json} {user order : String}
      → SaysAccepted entry user order
      → Says entry user ((user, order) ∷ [])
  told_sold_out : {entry : Json} {user : String} → SaysSoldOut entry user → Says entry user []

-- The entries, in order, name these users, and say of these orders that they were accepted.
pub data SaysAll : List Json → List String → List (String × String) → Type 0 where
  none_left : SaysAll [] [] []
  next :
      {entry : Json} {rest : List Json} {user : String} {users : List String}
      {pairs more : List (String × String)}
      → Says entry user pairs
      → SaysAll rest users more
      → SaysAll (entry ∷ rest) (user ∷ users) (pairs ++ more)

-- Some entry tells the user that the order was accepted.
abbrev pub ToldAccepted : List Json → String → String → Type 0
ToldAccepted [] user order = ⊥
ToldAccepted (entry ∷ rest) user order =
    SaysAccepted entry user order ⊎ ToldAccepted rest user order

str_of_is_text : (j : Json) (s : String) → is_text j s ≡ true → j ≡ str s
str_of_is_text (str t) s h = let e : t ≡ s = ground arith in ap str e
str_of_is_text null s h = absurd (ground arith)
str_of_is_text (bool b) s h = absurd (ground arith)
str_of_is_text (num x) s h = absurd (ground arith)
str_of_is_text (arr js) s h = absurd (ground arith)
str_of_is_text (obj fs) s h = absurd (ground arith)

null_of_is_null : (j : Json) → is_null j ≡ true → j ≡ null
null_of_is_null null h = refl
null_of_is_null (str t) h = absurd (ground arith)
null_of_is_null (bool b) h = absurd (ground arith)
null_of_is_null (num x) h = absurd (ground arith)
null_of_is_null (arr js) h = absurd (ground arith)
null_of_is_null (obj fs) h = absurd (ground arith)

pub get_text :
    (entry j : Json) (key s : String)
    → get entry key ≡ ok j
    → is_text j s ≡ true
    → get entry key ≡ ok (str s)
get_text entry j key s h t = h ∙ ap ok (str_of_is_text j s t)

pub get_null :
    (entry j : Json) (key : String)
    → get entry key ≡ ok j
    → is_null j ≡ true
    → get entry key ≡ ok null
get_null entry j key h t = h ∙ ap ok (null_of_is_null j t)

ok_str-injective : (s t : String) → ok (str s) ≡ ok (str t) → s ≡ t
ok_str-injective s t h = ground arith

-- One entry tells one user of at most one order.
same_order :
    {entry : Json} {user order other placed : String}
    → SaysAccepted entry user order
    → SaysAccepted entry other placed
    → (user ≡ other) × (order ≡ placed)
same_order p q = (
  ok_str-injective _ _ (sym p.who.user_id ∙ q.who.user_id),
  ok_str-injective _ _ (sym p.order_id ∙ q.order_id),
)

not_both :
    {entry : Json} {user order other : String}
    → SaysAccepted entry user order
    → SaysSoldOut entry other
    → ⊥
unfolding string_eq
not_both p q =
    let e = ok_str-injective "accepted" "sold_out" (sym p.outcome ∙ q.outcome) in ground arith

pub admitted_of_told :
    {witness : List Json} {users : List String} {pairs : List (String × String)}
    → SaysAll witness users pairs
    → (user order : String) → ToldAccepted witness user order
    → contains pairs (user, order) ≡ true
admitted_of_told none_left user order h = absurd h
admitted_of_told (next (told_accepted q) says) user order (inl p) =
    let (e, f) = same_order p q in ground arith
admitted_of_told (next (told_sold_out q) says) user order (inl p) = absurd (not_both p q)
admitted_of_told (next (told_accepted q) says) user order (inr p) =
    let e = admitted_of_told says user order p in ground arith
admitted_of_told (next (told_sold_out q) says) user order (inr p) =
    admitted_of_told says user order p

-- The accepted order is that of the first entry or of a later one.
told_first :
    (entry : Json) (rest : List Json) (more : List (String × String))
    (user order other placed : String)
    → SaysAccepted entry other placed
    → (contains more (user, order) ≡ true → ToldAccepted rest user order)
    → contains ((other, placed) ∷ more) (user, order) ≡ true
    → ToldAccepted (entry ∷ rest) user order
told_first entry rest more user order other placed q later h =
    let p : String × String = (user, order) in
    let first : String × String = (other, placed) in
    elim (Bool-cases (p == first)) [
      | inl same ↦
          let e : other ≡ user = ground arith in
          let f : placed ≡ order = ground arith in
          inl (
            subst (λ a. SaysAccepted entry a order) e (subst (λ b. SaysAccepted entry other b) f q))
      | inr differ ↦ inr (later (ground arith))
    ]

pub told_of_admitted :
    {witness : List Json} {users : List String} {pairs : List (String × String)}
    → SaysAll witness users pairs
    → (user order : String) → contains pairs (user, order) ≡ true
    → ToldAccepted witness user order
told_of_admitted none_left user order h = absurd (ground arith)
told_of_admitted (next (told_sold_out q) says) user order h =
    inr (told_of_admitted says user order h)
told_of_admitted (next (told_accepted q) says) user order h =
    told_first _ _ _ user order _ _ q (told_of_admitted says user order) h
