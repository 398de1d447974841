-- ===== src/FlashSale/Witness/Sound.antt =====
-- What accepted HTTP witnesses say: one for each actor, and the accepted ones are Redis' pairs.
use campus_hub.Prelude.{
  suc, ◌≡◌, refl, ap, true, List, String, arith, length, nat_eq, string_eq, option_eq, pair_eq,
  Distinct, Distinct_of_same_set, map, same_set, Option,
}
use campus_hub.Py.{
  ok, traverse, Json, Post, Post-bind, Post-require, Post-require_end, Post-self, Post-ok,
}
use campus_hub.FlashSale.Ledger.{keys}
use campus_hub.FlashSale.Witness.Says.{SaysAll, none_left, next}
use campus_hub.FlashSale.Witness.{start, hash_pair, known_pair, validate_witness}
use campus_hub.FlashSale.Witness.Rounds.{IsTrace, witness_loop-Adds}

-- The users that the entries name and the orders that they report, against the actors and the
-- pairs of Redis.
pub record IsWitnessed (witness : List Json) (actor_ids : List String)
    (accepted : List (Json × Json)) (users : List String) (pairs : List (String × String))
    : Type 0 where
  pub says : SaysAll witness users pairs
  pub named_once : Distinct users
  pub actors_once : Distinct actor_ids
  pub named_all : same_set users actor_ids ≡ true
  pub orders_once : Distinct (keys pairs)
  pub mapped : List (Option String × Option String)
  pub read : traverse hash_pair accepted ≡ ok mapped
  pub reported : same_set (map known_pair pairs) mapped ≡ true
  pub reported_count : length pairs ≡ length accepted

start-IsTrace : IsTrace start
start-IsTrace = record { once = tt; users_once = tt; users_seen = refl }

length-SaysAll :
    {witness : List Json} {users : List String} {pairs : List (String × String)}
    → SaysAll witness users pairs
    → length users ≡ length witness
length-SaysAll none_left = refl
length-SaysAll (next says rest) = ap suc (length-SaysAll rest)

witness_result :
    (witness : List Json) (actor_ids : List String) (accepted : List (Json × Json))
    → Post
        (λ _.
          (users : List String) × (pairs : List (String × String)) × IsWitnessed witness actor_ids
            accepted users pairs)
        (validate_witness witness actor_ids accepted)
unfolding validate_witness
witness_result witness actor_ids accepted = Post-require _ λ count.
    Post-bind (witness_loop-Adds actor_ids witness start start-IsTrace) λ s a.
      Post-require _ λ sets. Post-bind (Post-self (traverse hash_pair accepted)) λ mapped read.
        Post-require_end _ _ λ same.
          let once : Distinct a.users = rw a.seen at a.trace.once in
          let n = length-SaysAll a.says in
          let named : same_set a.users actor_ids ≡ true = ground (arith, a.seen, sets) in
          (
            a.users,
            a.pairs,
            record {
              says = a.says;
              named_once = once;
              actors_once =
                  Distinct_of_same_set actor_ids a.users once (ground arith) (ground arith);
              named_all = named;
              orders_once = rw a.admitted at a.trace.users_once;
              mapped = mapped;
              read = read;
              reported = rw a.admitted at same;
              reported_count = ground (arith, a.admitted, sets);
            },
          )

-- Witnesses pass only if their entries have exactly the fields userId, orderId and outcome; each
-- names a user by an accepted identity and either says `accepted` with an accepted identity of an
-- order or `sold_out` with no order; the users are, each once, the actors, who are distinct; and
-- the pairs of users and orders that the entries report as accepted are, each user once and as
-- many as there, the pairs that Redis holds.
pub validate_witness_sound :
    (witness : List Json) (actor_ids : List String) (accepted : List (Json × Json)) (u : Unit {0})
    → validate_witness witness actor_ids accepted ≡ ok u
    → (users : List String) × (pairs : List (String × String)) × IsWitnessed witness actor_ids
        accepted users pairs
validate_witness_sound witness actor_ids accepted u h =
    Post-ok (witness_result witness actor_ids accepted) h
