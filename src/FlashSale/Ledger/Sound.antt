-- ===== src/FlashSale/Ledger/Sound.antt =====
-- What a verified ledger says: orders, events and participants are one to one with the accepted
-- identities.
use mathlib.Core.Path.{subst}
use campus_hub.Prelude.{
  ◌*◌, ◌≡◌, refl, Bool, true, List, [], ◌∷◌, String, arith, length, nat_eq, string_eq, option_eq,
  pair_eq, list_eq, Distinct, Distinct_of_length, Distinct_of_same_set, map, same_set, subset,
  contains, Option, some, All, sym,
}
use campus_hub.Py.{
  Result, ok, ◌>>=◌, ◌>>◌, require, traverse, Post, returns, Post-bind, Post-require, Post-self,
  Post-map, Post-ok, Post-both, Post-require_end, Error, Json, num, str, nat, set_of, json_eq,
}
use campus_hub.Baseline.Metric.{integer}
use campus_hub.Baseline.Metric.Whole.{nat-integer}
use campus_hub.FlashSale.Ids.{positive_id}
use campus_hub.FlashSale.Ids.Lossless.{IsId, positive_id-IsId}
use campus_hub.FlashSale.Ledger.{
  keys, values, size, hash_event, order_row, order_event, Verified, verified_ledger, Evidence,
  is_zero, check_population, check_mapping, check_orders, check_counters, validate_ledger,
}
use campus_hub.FlashSale.Ledger.Mapping.{
  IsEntry, text_pair, mapping_from-Distinct, mapping_from-Extends, mapping_from-IsEntry,
  Distinct-order_rows, Distinct-order_events, length-map, length-values, length-traverse,
  traverse-ids,
}

-- The users and the orders that Redis accepted, against the actors of the cohort.
pub record IsMapping (e : Evidence) (mapping : List (String × String)) : Type 0 where
  pub entries : e.accepted ≡ map text_pair mapping
  pub entry_count : length mapping ≡ e.stock
  pub users : Distinct (keys mapping)
  pub orders : Distinct (values mapping)
  pub known : subset (keys mapping) e.actor_ids ≡ true
  pub present : List (Option String)
  pub read : set_of e.participants ≡ ok present
  pub participants : same_set present (map some (keys mapping)) ≡ true
  pub participant_count : size e.participants ≡ ok e.stock

-- The rows and the events are the mapping's, each once; the participants are its users.
pub record IsSettled (e : Evidence) (mapping : List (String × String)) : Type 0 where
  pub row_count : length e.rows ≡ e.stock
  pub rows_once : Distinct e.rows
  pub rows_are : same_set e.rows (map (order_row e.activity) mapping) ≡ true
  pub events : List (List (Option String))
  pub read : traverse hash_event e.events ≡ ok events
  pub event_count : length e.events ≡ e.stock
  pub events_once : Distinct events
  pub events_are : same_set events (map (order_event e.activity) mapping) ≡ true

pub record IsClean (e : Evidence) : Type 0 where
  pub db_stock : integer e.db_stock 0 ≡ ok 0
  pub redis_stock : integer e.redis_stock 0 ≡ ok 0
  pub pending : integer e.pending 0 ≡ ok 0
  pub delivered : json_eq e.delivered e.last_stream_id ≡ true
  pub dead : integer e.dead 0 ≡ ok 0
  pub attempts : integer e.attempts 0 ≡ ok 0
  pub failure_index : integer e.failure_index 0 ≡ ok 0
  pub cancellations : integer e.cancellations 0 ≡ ok 0

is_zero-integer : (j : Json) (b : Bool) → is_zero j ≡ ok b → b ≡ true → integer j 0 ≡ ok 0
unfolding is_zero ◌>>=◌
is_zero-integer j b h t = ground arith

-- The actors are twice as many as the stock, which is one of the modelled sizes.
pub record IsPopulation (e : Evidence) : Type 0 where
  pub actors : Distinct e.actor_ids
  pub actor_count : length e.actor_ids ≡ 2 * e.stock
  pub modelled : contains (5 ∷ 10 ∷ 100 ∷ []) e.stock ≡ true

population :
    (e : Evidence)
    → Post (λ ids. (ids ≡ e.actor_ids) × All IsId e.actor_ids × IsPopulation e) (check_population e)
unfolding check_population
population e = Post-bind (traverse-ids e.actor_ids) λ ids (same, accepted). Post-require _ λ unique.
    Post-bind (Post-self (integer (num (nat e.stock)) 1)) λ stock read. Post-require _ λ m.
      let sizes = rw same at unique in
      returns (
        same,
        accepted,
        record {
          actors = Distinct_of_length e.actor_ids (ground arith);
          actor_count = ground arith;
          modelled = rw (nat-integer e.stock 1 stock read).0 at m;
        },
      )

mapping-IsMapping :
    (e : Evidence)
    → Post (λ mapping. All IsEntry mapping × IsMapping e mapping) (check_mapping e e.actor_ids)
unfolding check_mapping
mapping-IsMapping e =
    Post-bind
      (Post-both (mapping_from-IsEntry [] e.accepted tt)
        (Post-both (mapping_from-Extends [] e.accepted) (mapping_from-Distinct [] e.accepted tt)))
      λ mapping (ids, (ext, users)). Post-require _ λ sizes. Post-require _ λ known.
        Post-bind (Post-self (set_of e.participants)) λ present read.
          Post-bind (Post-self (size e.participants)) λ count counted.
            Post-require _ λ participants.
              let (t, whole, texts) = ext.exact (ground arith) in
              returns (
                ids,
                record {
                  entries = rw whole texts;
                  entry_count = ground arith;
                  users = users;
                  orders =
                      Distinct_of_length (values mapping) (ground (arith, length-values mapping));
                  known = known;
                  present = present;
                  read = read;
                  participants = ground arith;
                  participant_count = ground arith;
                },
              )

orders-IsSettled :
    (e : Evidence) (mapping : List (String × String))
    → IsMapping e mapping
    → Post (λ _. IsSettled e mapping) (check_orders e mapping)
unfolding check_orders
orders-IsSettled e mapping m = Post-require _ λ rows. Post-require _ λ count.
    Post-bind
      (Post-both (Post-self (traverse hash_event e.events)) (length-traverse hash_event e.events))
      λ events (read, n). Post-require_end _ _ λ same.
        let n_rows = length-map (order_row e.activity) mapping in
        let n_events = length-map (order_event e.activity) mapping in
        record {
          row_count = ground arith;
          rows_once =
              Distinct_of_same_set e.rows (map (order_row e.activity) mapping)
                (Distinct-order_rows e.activity mapping m.users) (ground (arith, m.entry_count))
                (ground arith);
          rows_are = ground arith;
          events = events;
          read = read;
          event_count = ground arith;
          events_once =
              Distinct_of_same_set events (map (order_event e.activity) mapping)
                (Distinct-order_events e.activity mapping m.users) (ground (arith, m.entry_count))
                same;
          events_are = same;
        }

zero_then :
    (j : Json) (message : Error) {A : Type 0} {P : A → Type 0} (m : Result A)
    → (integer j 0 ≡ ok 0 → Post P m)
    → Post P (is_zero j >>= λ b. require b message >> m)
zero_then j message m k =
    Post-bind (Post-self (is_zero j)) λ b h. Post-require _ λ t. k (is_zero-integer j b h t)

counters-IsClean : (e : Evidence) → Post (λ _. IsClean e) (check_counters e)
unfolding check_counters
counters-IsClean e = zero_then e.db_stock _ _ λ a. zero_then e.redis_stock _ _ λ b.
    Post-bind (Post-self (is_zero e.pending)) λ drained p. Post-require _ λ q.
      zero_then e.dead _ _ λ d. zero_then e.attempts _ _ λ f. zero_then e.failure_index _ _ λ g.
        Post-bind (Post-self (is_zero e.cancellations)) λ c h. Post-require_end _ _ λ t. record {
          db_stock = a;
          redis_stock = b;
          pending = is_zero-integer e.pending drained p (ground arith);
          delivered = ground arith;
          dead = d;
          attempts = f;
          failure_index = g;
          cancellations = is_zero-integer e.cancellations c h t;
        }

abbrev ResultOf : Evidence → Verified → Type 0
ResultOf e v =
    (v ≡ verified_ledger e.stock)
    × IsId e.activity
    × All IsId e.actor_ids
    × IsPopulation e
    × ((mapping : List (String × String)) × All IsEntry mapping
        × IsMapping e mapping
        × IsSettled e mapping)
    × IsClean e

ledger_result : (e : Evidence) → Post (ResultOf e) (validate_ledger e)
unfolding validate_ledger
ledger_result e =
    Post-bind
      (Post-map (Post-self (positive_id (str e.activity))) (positive_id-IsId (str e.activity)))
      λ a (text, activity).
        let same_text : e.activity ≡ a = ground arith in
        Post-bind (population e) λ ids (same, accepted, p). rw same (
          Post-bind (mapping-IsMapping e) λ mapping (entries, m).
            Post-bind (orders-IsSettled e mapping m) λ _ s. Post-bind (counters-IsClean e) λ _ c.
              returns (
                refl,
                subst IsId (sym same_text) activity,
                accepted,
                p,
                (mapping, entries, m, s),
                c,
              ))

-- A ledger is verified only if the activity and every actor are decimal numerals without leading
-- zeros of numbers from 1 to 2 ^ 63 - 1; the accepted pairs of Redis are, in their order, a dict
-- whose users and orders are such numerals too, with no user and no order twice, which has as many entries as the stock and
-- only users among the distinct actors, who are twice as many; the unpaid rows of this activity
-- and the Stream events are one for each entry and no others; the participants are its users; and
-- every counter of stock, pending, failure and cancellation is zero with the Stream drained.
pub validate_ledger_sound :
    (e : Evidence) (v : Verified)
    → validate_ledger e ≡ ok v
    → (v ≡ verified_ledger e.stock)
      × IsId e.activity
      × All IsId e.actor_ids
      × IsPopulation e
      × ((mapping : List (String × String)) × All IsEntry mapping
          × IsMapping e mapping
          × IsSettled e mapping)
      × IsClean e
validate_ledger_sound e v h = Post-ok (ledger_result e) h
