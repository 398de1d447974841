-- ===== src/Tests/Ledger.antt =====
-- The evidence of a warm-up cohort: five orders of ten actors.
use campus_hub.Prelude.{
  ◌≡◌, ◌↔◌, refl, Bool, true, ◌&&◌, List, [], ◌∷◌, ◌++◌, String, leb, distinct, string_eq, nat_eq,
  option_eq, pair_eq, list_eq, arith, all, All, contains, map, Option, some,
}
use campus_hub.Py.{
  ok, ◌>>=◌, exceeds_float, has_keys, get, items, entries, hashed, lookup, str, num, nat, Json,
  is_positive_numeral, decimal_from, decimal, codes, traverse, hashable, set_of, json_eq, num_eq,
  to_int, num_lt, num_le, arr, obj, null, nil, cons, end, field,
}
use campus_hub.Baseline.Metric.{integer, number}
use campus_hub.FlashSale.Ids.{positive_id, is_long_numeral, max_long}
use campus_hub.FlashSale.Ids.Lossless.{IsId}
use campus_hub.FlashSale.Ledger.{
  Evidence, verified_ledger, validate_ledger, put, mapping_from, hash_event, is_zero,
}
use campus_hub.FlashSale.Ledger.Mapping.{text_pair}
use campus_hub.FlashSale.Ledger.Sound.{
  IsPopulation, IsMapping, IsSettled, IsClean, validate_ledger_sound,
}
use campus_hub.FlashSale.Ledger.Mapping.{IsEntry}
use campus_hub.FlashSale.Ledger.Complete.{validate_ledger_complete}
use campus_hub.FlashSale.Witness.{witness_loop, witness_step, see, hash_pair, validate_witness}
use campus_hub.FlashSale.Witness.Says.{ToldAccepted}
use campus_hub.FlashSale.Witness.Sound.{IsWitnessed, validate_witness_sound}
use campus_hub.FlashSale.Durable.{accepted_is_durable}

abbrev users : List String
users = "1" ∷ "2" ∷ "3" ∷ "4" ∷ "5" ∷ "6" ∷ "7" ∷ "8" ∷ "9" ∷ "10" ∷ []

abbrev mapping : List (String × String)
mapping = ("1", "101") ∷ ("2", "102") ∷ ("3", "103") ∷ ("4", "104") ∷ ("5", "105") ∷ []

abbrev row : String → String → List String
row user order = order ∷ user ∷ "123" ∷ "1" ∷ []

abbrev event : String → String → Json × Json × Json
event user order = (str order, str user, str "123")

-- The rows, the events and the participants come in other orders than the mapping.
abbrev evidence : Evidence
evidence = record {
  rows = row "2" "102" ∷ row "1" "101" ∷ row "5" "105" ∷ row "3" "103" ∷ row "4" "104" ∷ [];
  accepted = map text_pair mapping;
  participants =
      arr (cons (str "5") (cons (str "4") (cons (str "3") (cons (str "2") (cons (str "1") nil)))));
  events =
      event "1" "101" ∷ event "3" "103" ∷ event "2" "102" ∷ event "5" "105" ∷ event "4" "104" ∷ [];
  actor_ids = users;
  activity = "123";
  stock = 5;
  db_stock = num (nat 0);
  redis_stock = num (nat 0);
  pending = num (nat 0);
  delivered = str "100-10";
  last_stream_id = str "100-10";
  dead = num (nat 0);
  attempts = num (nat 0);
  failure_index = num (nat 0);
  cancellations = num (nat 0);
}

verified : validate_ledger evidence ≡ ok (verified_ledger 5)
unfolding validate_ledger ◌>>=◌ positive_id is_long_numeral is_positive_numeral decimal_from
    traverse nat_eq distinct string_eq integer number exceeds_float num_lt to_int num_eq
    mapping_from put set_of option_eq hash_event is_zero list_eq num_le entries hashable hashed
    items json_eq lookup
verified = refl

validate_ledger_sound_example :
    (verified_ledger 5 ≡ verified_ledger 5)
    × IsId evidence.activity
    × All IsId evidence.actor_ids
    × IsPopulation evidence
    × ((mapping : List (String × String)) × All IsEntry mapping
        × IsMapping evidence mapping
        × IsSettled evidence mapping)
    × IsClean evidence
validate_ledger_sound_example = validate_ledger_sound evidence (verified_ledger 5) verified

abbrev is_id : String → Bool
is_id s = is_positive_numeral (codes s) && leb (decimal s) max_long

IsId-of_test : (s : String) → is_id s ≡ true → IsId s
IsId-of_test s h = record { canonical = ground arith; in_range = ground arith }

ids_of_test : (xs : List String) → all is_id xs ≡ true → All IsId xs
ids_of_test [] h = tt
ids_of_test (x ∷ xs) h = (IsId-of_test x (ground arith), ids_of_test xs (ground arith))

entries_of_test :
    (d : List (String × String)) → all (λ (k, v). is_id k && is_id v) d ≡ true → All IsEntry d
entries_of_test [] h = tt
entries_of_test ((k, v) ∷ d) h = (
  (IsId-of_test k (ground arith), IsId-of_test v (ground arith)),
  entries_of_test d (ground arith),
)

tested :
    (is_id "123" ≡ true)
    × (all is_id users ≡ true)
    × (all (λ (k, v). is_id k && is_id v) mapping ≡ true)
unfolding is_positive_numeral decimal_from
tested = (refl, refl, refl)

population : IsPopulation evidence
unfolding string_eq nat_eq
population = record {
  actors = (refl, (refl, (refl, (refl, (refl, (refl, (refl, (refl, (refl, (refl, tt))))))))));
  actor_count = refl;
  modelled = refl;
}

mapped : IsMapping evidence mapping
unfolding string_eq option_eq set_of hashed items ◌>>=◌
mapped = record {
  entries = refl;
  entry_count = refl;
  users = (refl, (refl, (refl, (refl, (refl, tt)))));
  orders = (refl, (refl, (refl, (refl, (refl, tt)))));
  known = refl;
  present = some "5" ∷ some "4" ∷ some "3" ∷ some "2" ∷ some "1" ∷ [];
  read = refl;
  participants = refl;
  participant_count = refl;
}

abbrev event_texts : String → String → List (Option String)
event_texts user order = some order ∷ some user ∷ some "123" ∷ []

settled : IsSettled evidence mapping
unfolding string_eq option_eq list_eq traverse hash_event hashable ◌>>=◌
settled = record {
  row_count = refl;
  rows_once = (refl, (refl, (refl, (refl, (refl, tt)))));
  rows_are = refl;
  events =
      event_texts "1" "101"
      ∷ event_texts "3" "103"
      ∷ event_texts "2" "102"
      ∷ event_texts "5" "105"
      ∷ event_texts "4" "104"
      ∷ [];
  read = refl;
  event_count = refl;
  events_once = (refl, (refl, (refl, (refl, (refl, tt)))));
  events_are = refl;
}

clean : IsClean evidence
unfolding integer number exceeds_float num_lt num_le num_eq to_int json_eq ◌>>=◌ string_eq
clean = record {
  db_stock = refl;
  redis_stock = refl;
  pending = refl;
  delivered = refl;
  dead = refl;
  attempts = refl;
  failure_index = refl;
  cancellations = refl;
}

validate_ledger_complete_example : validate_ledger evidence ≡ ok (verified_ledger 5)
validate_ledger_complete_example =
    validate_ledger_complete evidence mapping (IsId-of_test "123" tested.0)
      (ids_of_test users tested.1) (entries_of_test mapping tested.2) population mapped settled
      clean

abbrev witness_entry : String → Json → String → Json
witness_entry user order outcome =
    obj (field "userId" (str user) (field "orderId" order (field "outcome" (str outcome) end)))

abbrev accepted_entries : List (String × String) → List Json
accepted_entries [] = []
accepted_entries ((user, order) ∷ rest) =
    witness_entry user (str order) "accepted" ∷ accepted_entries rest

abbrev sold_out_entries : List String → List Json
sold_out_entries [] = []
sold_out_entries (user ∷ rest) = witness_entry user null "sold_out" ∷ sold_out_entries rest

abbrev witness : List Json
witness = sold_out_entries ("6" ∷ "7" ∷ "8" ∷ "9" ∷ "10" ∷ []) ++ accepted_entries mapping

witnessed : validate_witness witness users (map text_pair mapping) ≡ ok tt
unfolding validate_witness ◌>>=◌ nat_eq witness_loop witness_step has_keys option_eq string_eq get
    positive_id is_long_numeral is_positive_numeral decimal_from see traverse hash_pair hashable
    pair_eq
witnessed = refl

validate_witness_sound_example :
    (named : List String) × (pairs : List (String × String)) × IsWitnessed witness users
      (map text_pair mapping)
      named
      pairs
validate_witness_sound_example =
    validate_witness_sound witness users (map text_pair mapping) tt witnessed

accepted_is_durable_example :
    ToldAccepted witness "1" "101"
    ↔ (contains evidence.rows ("101" ∷ "1" ∷ "123" ∷ "1" ∷ []) ≡ true)
accepted_is_durable_example =
    accepted_is_durable evidence witness (verified_ledger 5) witnessed verified "1" "101"
