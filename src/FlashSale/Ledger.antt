-- ===== src/FlashSale/Ledger.antt =====
-- `validate_ledger` and `verified_ledger`: one durable order for each accepted identity.
pub mod Mapping
pub mod Sound
pub mod Complete
use campus_hub.Prelude.{
  ℕ, ◌+◌, ◌*◌, Bool, true, false, ◌&&◌, ◌||◌, List, [], ◌∷◌, String, length, ◌==◌, nat_eq,
  string_eq, option_eq, pair_eq, list_eq, Option, none, some, map, not, if◌then◌else◌, contains,
  distinct, subset, same_set,
}
use campus_hub.Py.{
  Result, ok, err, value_error, type_error, ◌>>=◌, ◌>>◌, require, traverse, Json, num, str, arr,
  obj, nat, items, entries, set_of, hashable, json_eq, codes,
}
use campus_hub.Baseline.Metric.{integer}
use campus_hub.FlashSale.Ids.{positive_id}

-- `d[k] = v`: an old key keeps its place.
unfoldable pub put : String → String → List (String × String) → List (String × String)
put k v [] = (k, v) ∷ []
put k v ((j, w) ∷ d) = if k == j then (j, v) ∷ d else (j, w) ∷ put k v d

-- `{positive_id(user): positive_id(order) for user, order in accepted}`, after the entries before.
unfoldable pub mapping_from :
    List (String × String) → List (Json × Json) → Result (List (String × String))
mapping_from d [] = ok d
mapping_from d ((user, order) ∷ rest) = do
  k ← positive_id user
  v ← positive_id order
  mapping_from (put k v d) rest

abbrev pub keys : List (String × String) → List String
keys [] = []
keys ((k, v) ∷ d) = k ∷ keys d

abbrev pub values : List (String × String) → List String
values [] = []
values ((k, v) ∷ d) = v ∷ values d

-- `len(participants)` of what `SMEMBERS` gave; Lua encodes an empty reply as an empty dict.
abbrev size : Json → Result ℕ
size (arr js) = ok (length (items js))
size (obj fs) = ok (length (entries fs))
size (str s) = ok (length (codes s))
size _ = err type_error

abbrev Event : Type 0
Event = Json × Json × Json

unfoldable pub hash_event : Event → Result (List (Option String))
hash_event (order, user, activity) = do
  a ← hashable order
  b ← hashable user
  c ← hashable activity
  ok (a ∷ b ∷ c ∷ [])

abbrev pub order_row : String → String × String → List String
order_row activity (user, order) = order ∷ user ∷ activity ∷ "1" ∷ []

abbrev pub order_event : String → String × String → List (Option String)
order_event activity (user, order) = some order ∷ some user ∷ some activity ∷ []

pub record Verified : Type 0 where
  pub new_orders : ℕ
  pub unique_users : ℕ
  pub unique_order_ids : ℕ
  pub stream_events : ℕ
  pub database_stock : ℕ
  pub redis_stock : ℕ
  pub pending : ℕ
  pub dead_entries : ℕ
  pub invariants_verified : Bool

abbrev pub verified_ledger : ℕ → Verified
verified_ledger stock = record {
  new_orders = stock;
  unique_users = stock;
  unique_order_ids = stock;
  stream_events = stock;
  database_stock = 0;
  redis_stock = 0;
  pending = 0;
  dead_entries = 0;
  invariants_verified = true;
}

-- The evidence that one cohort leaves.
pub record Evidence : Type 0 where
  pub rows : List (List String)
  pub accepted : List (Json × Json)
  pub participants : Json
  pub events : List (Json × Json × Json)
  pub actor_ids : List String
  pub activity : String
  pub stock : ℕ
  pub db_stock : Json
  pub redis_stock : Json
  pub pending : Json
  pub delivered : Json
  pub last_stream_id : Json
  pub dead : Json
  pub attempts : Json
  pub failure_index : Json
  pub cancellations : Json

-- `integer(value) != 0` raises.
unfoldable pub is_zero : Json → Result Bool
is_zero value = do n ← integer value 0; ok (n == 0)

check_population : Evidence → Result (List String)
check_population e = do
  identities ← traverse (λ id. positive_id (str id)) e.actor_ids
  require
      (length (distinct identities) == length e.actor_ids
        && length (distinct identities) == 2 * e.stock)
      (value_error "invalid model population")
  stock ← integer (num (nat e.stock)) 1
  require (contains (5 ∷ 10 ∷ 100 ∷ []) stock) (value_error "invalid model population")
  ok identities

check_mapping : Evidence → List String → Result (List (String × String))
check_mapping e identities = do
  mapping ← mapping_from [] e.accepted
  require
      (length mapping == length e.accepted
        && length mapping == e.stock
        && length (distinct (values mapping)) == e.stock)
      (value_error "non-unique or incomplete accepted identities")
  require (subset (keys mapping) identities) (value_error "participant identity mismatch")
  present ← set_of e.participants
  count ← size e.participants
  require (same_set present (map some (keys mapping)) && count == e.stock)
      (value_error "participant identity mismatch")
  ok mapping

check_orders : Evidence → List (String × String) → Result (Unit {0})
check_orders e mapping = do
  require (length e.rows == e.stock && same_set e.rows (map (order_row e.activity) mapping))
      (value_error "durable unpaid orders differ from accepted mapping")
  require (length e.events == e.stock)
      (value_error "Stream events are not exactly one per accepted identity")
  events ← traverse hash_event e.events
  require (same_set events (map (order_event e.activity) mapping))
      (value_error "Stream events are not exactly one per accepted identity")

-- Each test is made only if those before it passed, as `or` and `any` do.
check_counters : Evidence → Result (Unit {0})
check_counters e = do
  db ← is_zero e.db_stock
  require db (value_error "stock accounting mismatch")
  redis ← is_zero e.redis_stock
  require redis (value_error "stock accounting mismatch")
  drained ← is_zero e.pending
  require (drained && json_eq e.delivered e.last_stream_id)
      (value_error "consumer has not drained the observed stream")
  dead ← is_zero e.dead
  require dead (value_error "failure/archive/retry/outbox evidence is not clean")
  attempts ← is_zero e.attempts
  require attempts (value_error "failure/archive/retry/outbox evidence is not clean")
  failure_index ← is_zero e.failure_index
  require failure_index (value_error "failure/archive/retry/outbox evidence is not clean")
  cancellations ← is_zero e.cancellations
  require cancellations (value_error "failure/archive/retry/outbox evidence is not clean")

unfoldable pub validate_ledger : Evidence → Result Verified
unfolding check_population check_mapping check_orders check_counters
validate_ledger e = do
  _ ← positive_id (str e.activity)
  identities ← check_population e
  mapping ← check_mapping e identities
  check_orders e mapping
  check_counters e
  ok (verified_ledger e.stock)
