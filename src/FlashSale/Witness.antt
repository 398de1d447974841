-- ===== src/FlashSale/Witness.antt =====
-- `validate_witness`: what the load generator says of each identity, against Redis.
pub mod Says
pub mod Rounds
pub mod Sound
use campus_hub.Prelude.{
  ℕ, Bool, true, false, ◌&&◌, ◌||◌, List, [], ◌∷◌, ◌++◌, String, length, ◌==◌, nat_eq, string_eq,
  option_eq, pair_eq, Option, none, some, map, not, if◌then◌else◌, contains, distinct, same_set,
}
use campus_hub.Py.{
  Result, ok, err, value_error, ◌>>=◌, ◌>>◌, require, traverse, Json, get, has_keys, is_dict,
  is_text, is_null, hashable,
}
use campus_hub.FlashSale.Ids.{positive_id}

-- The two variables of the loop: the identities seen, and the orders admitted, each in order.
pub record Seen : Type 0 where
  pub seen : List String
  pub admitted : List (String × String)

abbrev unexpected_outcome : Result Seen
unexpected_outcome = err (value_error "unexpected HTTP outcome")

-- One round for an identity that is known and new.
unfoldable pub see : Json → String → Seen → Result Seen
see entry identity s = do
  outcome ← get entry "outcome"
  order ← get entry "orderId"
  if is_text outcome "accepted"
      then (do
        placed ← positive_id order
        ok (record {
          seen = s.seen ++ (identity ∷ []);
          admitted = s.admitted ++ ((identity, placed) ∷ []);
        }))
      else if is_text outcome "sold_out" && is_null order
      then ok (record s { seen = s.seen ++ (identity ∷ []) })
      else unexpected_outcome

unfoldable pub witness_step : List String → Json → Seen → Result Seen
witness_step actor_ids entry s = do
  require (is_dict entry) (value_error "unexpected witness schema")
  exact ← has_keys entry ("userId" ∷ "orderId" ∷ "outcome" ∷ [])
  require exact (value_error "unexpected witness schema")
  user ← get entry "userId"
  identity ← positive_id user
  require (contains actor_ids identity && not (contains s.seen identity))
      (value_error "foreign or duplicate HTTP identity")
  see entry identity s

unfoldable pub witness_loop : List String → List Json → Seen → Result Seen
witness_loop actor_ids [] s = ok s
witness_loop actor_ids (entry ∷ rest) s = do
  t ← witness_step actor_ids entry s
  witness_loop actor_ids rest t

abbrev pub start : Seen
start = record { seen = []; admitted = [] }

-- A pair as an element of a set.
unfoldable pub hash_pair : Json × Json → Result (Option String × Option String)
hash_pair (a, b) = do x ← hashable a; y ← hashable b; ok (x, y)

abbrev pub known_pair : String × String → Option String × Option String
known_pair (user, order) = (some user, some order)

unfoldable pub validate_witness : List Json → List String → List (Json × Json) → Result (Unit {0})
validate_witness witness actor_ids accepted = do
  require (length witness == length actor_ids)
      (value_error "missing or extra HTTP identity witnesses")
  end ← witness_loop actor_ids witness start
  require (same_set end.seen actor_ids && length end.admitted == length accepted)
      (value_error "HTTP IDs differ from Redis accepted mapping")
  mapped ← traverse hash_pair accepted
  require (same_set (map known_pair end.admitted) mapped)
      (value_error "HTTP IDs differ from Redis accepted mapping")
