-- ===== src/FlashSale/Witness/Rounds.antt =====
-- What the loop over the entries keeps, round by round.
use mathlib.Core.List.{append-nil, append_assoc}
use campus_hub.Prelude.{
  Bool, if◌then◌else◌, sym, ◌∙◌, ◌≡◌, refl, ap, true, false, ◌&&◌, List, [], ◌∷◌, ◌++◌, String,
  arith, nat_eq, string_eq, option_eq, pair_eq, Distinct, subset, contains, contains-append,
  Distinct-append_one, contains_of_subset, subset_of_contains,
}
use campus_hub.Py.{
  ok, Json, Post, returns, raises, Post-bind, Post-require, Post-self, Post-map, get, has_keys,
  is_text, is_null, Result,
}
use campus_hub.FlashSale.Ids.{positive_id}
use campus_hub.FlashSale.Ids.Lossless.{positive_id-IsId}
use campus_hub.FlashSale.Ledger.{keys}
use campus_hub.FlashSale.Witness.Says.{
  Names, Says, told_accepted, told_sold_out, SaysAll, none_left, next, get_text, get_null,
}
use campus_hub.FlashSale.Witness.{Seen, see, witness_step, witness_loop}

-- What the loop keeps: identities are distinct, and the admitted ones are among them, each once.
pub record IsTrace (s : Seen) : Type 0 where
  pub once : Distinct s.seen
  pub users_once : Distinct (keys s.admitted)
  pub users_seen : subset (keys s.admitted) s.seen ≡ true

keys-append : (xs ys : List (String × String)) → keys (xs ++ ys) ≡ keys xs ++ keys ys
keys-append [] ys = refl
keys-append ((k, v) ∷ xs) ys = ap (λ t. k ∷ t) (keys-append xs ys)

subset-append_one :
    (xs ys : List String) (a : String) → subset xs ys ≡ true → subset xs (ys ++ (a ∷ [])) ≡ true
subset-append_one xs ys a h =
    subset_of_contains xs (ys ++ (a ∷ []))
      λ x m. ground (arith, contains-append ys (a ∷ []) x, contains_of_subset xs ys x h m)

subset-append_both :
    (xs ys : List String) (a : String)
    → subset xs ys ≡ true
    → subset (xs ++ (a ∷ [])) (ys ++ (a ∷ [])) ≡ true
subset-append_both xs ys a h = subset_of_contains (xs ++ (a ∷ [])) (ys ++ (a ∷ [])) λ x m. ground (
  arith,
  contains-append ys (a ∷ []) x,
  contains-append xs (a ∷ []) x,
  contains_of_subset xs ys x h,
)

not_in_subset :
    (xs ys : List String) (a : String)
    → subset xs ys ≡ true
    → contains ys a ≡ false
    → contains xs a ≡ false
not_in_subset xs ys a h n = ground (arith, contains_of_subset xs ys a h)

-- One more identity is seen, and what the entry says of it is kept.
record Grows (entry : Json) (s t : Seen) : Type 0 where
  user : String
  pairs : List (String × String)
  says : Says entry user pairs
  seen : t.seen ≡ s.seen ++ (user ∷ [])
  admitted : t.admitted ≡ s.admitted ++ pairs
  trace : IsTrace t

-- A branch, with what its test gave.
Post-test :
    {A : Type 0} {P : A → Type 0} {m n : Result A} (b : Bool)
    → (b ≡ true → Post P m)
    → (b ≡ false → Post P n)
    → Post P (if b then m else n)
Post-test true p q = p refl
Post-test false p q = q refl

see-Grows :
    (entry : Json) (identity : String) (s : Seen)
    → IsTrace s
    → contains s.seen identity ≡ false
    → Names entry identity
    → Post (Grows entry s) (see entry identity s)
unfolding see
see-Grows entry identity s h new who =
    let fresh = Distinct-append_one s.seen identity h.once new in
    Post-bind (Post-self (get entry "outcome")) λ outcome at_outcome.
      Post-bind (Post-self (get entry "orderId")) λ order at_order.
        Post-test (is_text outcome "accepted")
          (λ told.
            Post-bind (Post-map (Post-self (positive_id order)) (positive_id-IsId order))
              λ placed (same, valid). returns (record {
                user = identity;
                pairs = (identity, placed) ∷ [];
                says = told_accepted (record {
                  who = who;
                  outcome = get_text entry outcome "outcome" "accepted" at_outcome told;
                  order_id = at_order ∙ ap ok same;
                  placed = valid;
                });
                seen = refl;
                admitted = refl;
                trace = record {
                  once = fresh;
                  users_once = rw keys-append (
                      Distinct-append_one (keys s.admitted) identity h.users_once
                        (not_in_subset (keys s.admitted) s.seen identity h.users_seen new));
                  users_seen =
                      rw keys-append
                        (subset-append_both (keys s.admitted) s.seen identity h.users_seen);
                };
              }))
          (λ _.
            Post-test (is_text outcome "sold_out" && is_null order)
              (λ both. returns (record {
                user = identity;
                pairs = [];
                says = told_sold_out (record {
                  who = who;
                  outcome = get_text entry outcome "outcome" "sold_out" at_outcome (ground arith);
                  order_id = get_null entry order "orderId" at_order (ground arith);
                });
                seen = refl;
                admitted = sym (append-nil s.admitted);
                trace = record {
                  once = fresh;
                  users_once = h.users_once;
                  users_seen = subset-append_one (keys s.admitted) s.seen identity h.users_seen;
                };
              }))
              (λ _. raises))

witness_step-Grows :
    (actor_ids : List String) (entry : Json) (s : Seen)
    → IsTrace s
    → Post (Grows entry s) (witness_step actor_ids entry s)
unfolding witness_step
witness_step-Grows actor_ids entry s h = Post-require _ λ _.
    Post-bind (Post-self (has_keys entry _)) λ exact keys_are. Post-require _ λ three.
      Post-bind (Post-self (get entry "userId")) λ user at_user.
        Post-bind (Post-map (Post-self (positive_id user)) (positive_id-IsId user))
          λ identity (same, valid). Post-require _ λ new.
            see-Grows entry identity s h (ground arith) (record {
              exact = keys_are ∙ ap ok three;
              user_id = at_user ∙ ap ok same;
              valid = valid;
            })

-- What the loop adds to what it kept is what the entries say.
pub record Adds (witness : List Json) (s t : Seen) : Type 0 where
  pub users : List String
  pub pairs : List (String × String)
  pub says : SaysAll witness users pairs
  pub seen : t.seen ≡ s.seen ++ users
  pub admitted : t.admitted ≡ s.admitted ++ pairs
  pub trace : IsTrace t

Adds-cons :
    (entry : Json) (rest : List Json) (s t u : Seen)
    → Grows entry s t
    → Adds rest t u
    → Adds (entry ∷ rest) s u
Adds-cons entry rest s t u g a = record {
  users = g.user ∷ a.users;
  pairs = g.pairs ++ a.pairs;
  says = next g.says a.says;
  seen = a.seen ∙ ap (λ x. x ++ a.users) g.seen ∙ append_assoc s.seen (g.user ∷ []) a.users;
  admitted =
      a.admitted ∙ ap (λ x. x ++ a.pairs) g.admitted ∙ append_assoc s.admitted g.pairs a.pairs;
  trace = a.trace;
}

pub witness_loop-Adds :
    (actor_ids : List String) (witness : List Json) (s : Seen)
    → IsTrace s
    → Post (Adds witness s) (witness_loop actor_ids witness s)
unfolding witness_loop
witness_loop-Adds actor_ids [] s h = returns (record {
  users = [];
  pairs = [];
  says = none_left;
  seen = sym (append-nil s.seen);
  admitted = sym (append-nil s.admitted);
  trace = h;
})
witness_loop-Adds actor_ids (entry ∷ rest) s h =
    Post-bind (witness_step-Grows actor_ids entry s h) λ t g.
      Post-map (witness_loop-Adds actor_ids rest t g.trace) λ u a. Adds-cons entry rest s t u g a
