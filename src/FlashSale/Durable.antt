-- ===== src/FlashSale/Durable.antt =====
-- The witnesses of the load generator against the durable orders of the same cohort.
use campus_hub.Prelude.{
  ◌≡◌, ◌↔◌, true, refl, ap, sym, ◌∙◌, List, [], ◌∷◌, String, arith, nat_eq, string_eq, option_eq,
  pair_eq, list_eq, map, contains, contains-map, contains_of_same_set,
}
use campus_hub.Py.{ok, ◌>>=◌, traverse, Json, hashable}
use campus_hub.FlashSale.Ledger.{Evidence, Verified, validate_ledger, order_row}
use campus_hub.FlashSale.Ledger.Mapping.{text_pair}
use campus_hub.FlashSale.Ledger.Sound.{IsMapping, IsSettled, validate_ledger_sound}
use campus_hub.FlashSale.Witness.{hash_pair, known_pair, validate_witness}
use campus_hub.FlashSale.Witness.Says.{ToldAccepted, admitted_of_told, told_of_admitted}
use campus_hub.FlashSale.Witness.Sound.{IsWitnessed, validate_witness_sound}

traverse-text_pair :
    (d : List (String × String)) → traverse hash_pair (map text_pair d) ≡ ok (map known_pair d)
unfolding traverse hash_pair hashable ◌>>=◌
traverse-text_pair [] = refl
traverse-text_pair (p ∷ d) = rw (traverse-text_pair d) refl

known_pair-injective : (p q : String × String) → known_pair p ≡ known_pair q → p ≡ q
known_pair-injective (a, b) (c, d) h = ground arith

order_row-injective :
    (activity : String) (p q : String × String)
    → order_row activity p ≡ order_row activity q
    → p ≡ q
order_row-injective activity (a, b) (c, d) h = ground arith

reported_in_mapping :
    (e : Evidence) (witness : List Json) (mapping : List (String × String)) (users : List String)
    (pairs : List (String × String))
    → IsMapping e mapping
    → IsWitnessed witness e.actor_ids e.accepted users pairs
    → (p : String × String) → contains pairs p ≡ contains mapping p
reported_in_mapping e witness mapping users pairs m w p =
    let read : ok w.mapped ≡ ok (map known_pair mapping) =
      sym w.read ∙ ap (traverse hash_pair) m.entries ∙ traverse-text_pair mapping in
    let mapped : w.mapped ≡ map known_pair mapping = ground arith in
    sym (contains-map known_pair known_pair-injective pairs p)
    ∙ contains_of_same_set (map known_pair pairs) (map known_pair mapping) (known_pair p)
        (rw mapped at w.reported)
    ∙ contains-map known_pair known_pair-injective mapping p

reported_in_rows :
    (e : Evidence) (witness : List Json) (mapping : List (String × String)) (users : List String)
    (pairs : List (String × String))
    → IsMapping e mapping
    → IsSettled e mapping
    → IsWitnessed witness e.actor_ids e.accepted users pairs
    → (user order : String)
    → contains pairs (user, order) ≡ contains e.rows (order ∷ user ∷ e.activity ∷ "1" ∷ [])
reported_in_rows e witness mapping users pairs m settled w user order =
    reported_in_mapping e witness mapping users pairs m w (user, order)
    ∙ sym
        (contains-map (order_row e.activity) (order_row-injective e.activity) mapping (user, order))
    ∙ sym (
        contains_of_same_set e.rows (map (order_row e.activity) mapping)
          (order_row e.activity (user, order)) settled.rows_are)

-- If the witnesses and the ledger of a cohort both pass, then some entry of the witnesses names a
-- user, says `accepted` and gives this order exactly if the order stands, unpaid, for that user
-- and this activity among the durable rows.
pub accepted_is_durable :
    (e : Evidence) (witness : List Json) (v : Verified)
    → validate_witness witness e.actor_ids e.accepted ≡ ok tt
    → validate_ledger e ≡ ok v
    → (user order : String)
    → ToldAccepted witness user order
      ↔ (contains e.rows (order ∷ user ∷ e.activity ∷ "1" ∷ []) ≡ true)
accepted_is_durable e witness v h k user order =
    let (users, pairs, w) = validate_witness_sound witness e.actor_ids e.accepted tt h in
    let (_, _, _, _, (mapping, _, m, settled), _) = validate_ledger_sound e v k in
    let same = reported_in_rows e witness mapping users pairs m settled w user order in
    (
      λ told. sym same ∙ admitted_of_told w.says user order told,
      λ row. told_of_admitted w.says user order (same ∙ row),
    )
