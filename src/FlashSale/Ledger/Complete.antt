-- ===== src/FlashSale/Ledger/Complete.antt =====
-- Every settled ledger is verified, whatever the order of its rows, events and participants.
use mathlib.Core.List.{append-nil, append_assoc}
use campus_hub.Prelude.{
  ℕ, ◌≤◌, ◌≡◌, refl, ap, sym, ◌∙◌, true, false, ◌||◌, List, [], ◌∷◌, ◌++◌, String, arith, All, ◌==◌,
  nat_eq, string_eq, option_eq, list_eq, Distinct, length-distinct_of_Distinct, map, contains,
}
use campus_hub.Py.{ok, ◌>>=◌, exceeds_float, nat, traverse, Json, str}
use campus_hub.Baseline.Metric.{integer}
use campus_hub.Baseline.Metric.Whole.{integer-nat}
use campus_hub.FlashSale.Ids.{positive_id}
use campus_hub.FlashSale.Ids.Lossless.{IsId, positive_id_of_IsId}
use campus_hub.FlashSale.Ledger.{
  put, mapping_from, keys, values, verified_ledger, Evidence, is_zero, check_population,
  check_mapping, check_orders, check_counters, validate_ledger,
}
use campus_hub.FlashSale.Ledger.Mapping.{IsEntry, text_pair, length-map, length-values}
use campus_hub.FlashSale.Ledger.Sound.{IsPopulation, IsMapping, IsSettled, IsClean}

put_new :
    (k v : String) (d : List (String × String))
    → contains (keys d) k ≡ false
    → put k v d ≡ d ++ ((k, v) ∷ [])
unfolding put
put_new k v [] h = refl
put_new k v ((j, w) ∷ d) h = ground (arith, put_new k v d)

-- No key of `t` stands in `d` or twice in `t`.
abbrev Fresh : List (String × String) → List (String × String) → Type 0
Fresh d [] = Unit
Fresh d ((k, v) ∷ t) = (contains (keys d) k ≡ false) × (contains (keys t) k ≡ false) × Fresh d t

contains-keys-append :
    (d : List (String × String)) (j k v : String)
    → contains (keys (d ++ ((j, v) ∷ []))) k ≡ (contains (keys d) k || (k == j))
contains-keys-append [] j k v = ground arith
contains-keys-append ((i, w) ∷ d) j k v = ground (arith, contains-keys-append d j k v)

Fresh-append :
    (d t : List (String × String)) (k v : String)
    → contains (keys t) k ≡ false
    → Fresh d t
    → Fresh (d ++ ((k, v) ∷ [])) t
Fresh-append d [] k v h f = tt
Fresh-append d ((j, w) ∷ t) k v h (old, once, f) =
    (ground (arith, contains-keys-append d k j v), once, Fresh-append d t k v (ground arith) f)

Fresh-nil : (t : List (String × String)) → Distinct (keys t) → Fresh [] t
Fresh-nil [] u = tt
Fresh-nil ((k, v) ∷ t) (once, u) = (refl, once, Fresh-nil t u)

mapping_from-texts :
    (d t : List (String × String))
    → All IsEntry t
    → Fresh d t
    → mapping_from d (map text_pair t) ≡ ok (d ++ t)
unfolding mapping_from ◌>>=◌
mapping_from-texts d [] h f = ap ok (sym (append-nil d))
mapping_from-texts d ((k, v) ∷ t) ((hk, hv), h) (old, once, f) =
    rw (positive_id_of_IsId k hk, positive_id_of_IsId v hv, put_new k v d old)
      (mapping_from-texts (d ++ ((k, v) ∷ [])) t h (Fresh-append d t k v once f)
        ∙ ap ok (append_assoc d ((k, v) ∷ []) t))

traverse_of_IsId :
    (xs : List String) → All IsId xs → traverse (λ id. positive_id (str id)) xs ≡ ok xs
unfolding traverse ◌>>=◌
traverse_of_IsId [] h = refl
traverse_of_IsId (x ∷ xs) (hx, h) = rw (positive_id_of_IsId x hx, traverse_of_IsId xs h) refl

is_zero_of_integer : (j : Json) → integer j 0 ≡ ok 0 → is_zero j ≡ ok true
unfolding is_zero ◌>>=◌
is_zero_of_integer j h = ground arith

positive_stock : (n : ℕ) → contains (5 ∷ 10 ∷ 100 ∷ []) n ≡ true → 1 ≤ n
positive_stock n h = ground arith

modelled_stock : (n : ℕ) → contains (5 ∷ 10 ∷ 100 ∷ []) n ≡ true → exceeds_float (nat n) ≡ false
unfolding exceeds_float
modelled_stock n h = ground arith

population_holds :
    (e : Evidence) → All IsId e.actor_ids → IsPopulation e → check_population e ≡ ok e.actor_ids
unfolding check_population ◌>>=◌
population_holds e ids p =
    rw
      (
        traverse_of_IsId e.actor_ids ids,
        length-distinct_of_Distinct e.actor_ids p.actors,
        integer-nat e.stock 1 (modelled_stock e.stock p.modelled)
            (positive_stock e.stock p.modelled),
      )
      (ground (arith, p.actor_count, p.modelled))

mapping_holds :
    (e : Evidence) (mapping : List (String × String))
    → All IsEntry mapping
    → IsMapping e mapping
    → check_mapping e e.actor_ids ≡ ok mapping
unfolding check_mapping ◌>>=◌
mapping_holds e mapping h m =
    rw
      (
        m.entries,
        mapping_from-texts [] mapping h (Fresh-nil mapping m.users),
        length-map text_pair mapping,
        length-distinct_of_Distinct (values mapping) m.orders,
        length-values mapping,
        m.known,
        m.read,
        m.participant_count,
      )
      (ground (arith, m.entry_count, m.participants))

orders_hold :
    (e : Evidence) (mapping : List (String × String))
    → IsSettled e mapping
    → check_orders e mapping ≡ ok tt
unfolding check_orders ◌>>=◌
orders_hold e mapping s =
    rw s.read (ground (arith, s.row_count, s.rows_are, s.event_count, s.events_are))

counters_hold : (e : Evidence) → IsClean e → check_counters e ≡ ok tt
unfolding check_counters ◌>>=◌
counters_hold e c =
    rw
      (
        is_zero_of_integer e.db_stock c.db_stock,
        is_zero_of_integer e.redis_stock c.redis_stock,
        is_zero_of_integer e.pending c.pending,
        is_zero_of_integer e.dead c.dead,
        is_zero_of_integer e.attempts c.attempts,
        is_zero_of_integer e.failure_index c.failure_index,
        is_zero_of_integer e.cancellations c.cancellations,
        c.delivered,
      )
      refl

-- If the activity, the actors and the entries are accepted identities, a settled ledger with
-- clean counters is verified: nothing depends on the order of rows, events and participants.
pub validate_ledger_complete :
    (e : Evidence) (mapping : List (String × String))
    → IsId e.activity
    → All IsId e.actor_ids
    → All IsEntry mapping
    → IsPopulation e
    → IsMapping e mapping
    → IsSettled e mapping
    → IsClean e
    → validate_ledger e ≡ ok (verified_ledger e.stock)
unfolding validate_ledger ◌>>=◌
validate_ledger_complete e mapping a ids h p m s c =
    rw
      (
        positive_id_of_IsId e.activity a,
        population_holds e ids p,
        mapping_holds e mapping h m,
        orders_hold e mapping s,
        counters_hold e c,
      )
      refl
