-- ===== src/FlashSale/Ledger/Mapping.antt =====
-- The dict of accepted identities, and the rows and events that it stands for.
use mathlib.Core.List.{append-nil, append_assoc}
use mathlib.Core.Path.{subst}
use campus_hub.Prelude.{
  suc, ◌+◌, ◌≤◌, ◌≡◌, refl, ap, sym, ◌∙◌, true, false, List, [], ◌∷◌, String, arith, length, ◌==◌,
  nat_eq, string_eq, option_eq, pair_eq, list_eq, if◌then◌else◌, Distinct, map, contains,
  length-append, ◌++◌, ◌⊎◌, inl, inr, Bool-cases, All,
}
use campus_hub.Py.{Result, traverse, Post, returns, Post-bind, Post-self, Post-map, Json, str}
use campus_hub.FlashSale.Ids.{positive_id}
use campus_hub.FlashSale.Ids.Lossless.{IsId, positive_id-IsId}
use campus_hub.FlashSale.Ledger.{put, mapping_from, keys, values, order_row, order_event}

-- No key of a dict stands twice.
contains-keys-put :
    (k v a : String) (d : List (String × String))
    → contains (keys (put k v d)) a ≡ (
        if contains (keys d) k
        then contains (keys d) a
        else (if a == k then true else contains (keys d) a))
unfolding put
contains-keys-put k v a [] = ground arith
contains-keys-put k v a ((j, w) ∷ d) = ground (arith, contains-keys-put k v a d)

Distinct_keys-put :
    (k v : String) (d : List (String × String)) → Distinct (keys d) → Distinct (keys (put k v d))
unfolding put
Distinct_keys-put k v [] u = (refl, tt)
Distinct_keys-put k v ((j, w) ∷ d) (fresh, u) =
    ground (arith, Distinct_keys-put k v d u, contains-keys-put k v j d)

pub mapping_from-Distinct :
    (d : List (String × String)) (accepted : List (Json × Json))
    → Distinct (keys d)
    → Post (λ m. Distinct (keys m)) (mapping_from d accepted)
unfolding mapping_from
mapping_from-Distinct d [] u = returns u
mapping_from-Distinct d ((user, order) ∷ rest) u = Post-bind (Post-self (positive_id user)) λ k _.
    Post-bind (Post-self (positive_id order))
      λ v _. mapping_from-Distinct (put k v d) rest (Distinct_keys-put k v d u)

abbrev pub IsEntry : String × String → Type 0
IsEntry (user, order) = IsId user × IsId order

IsEntry-put :
    (k v : String) (d : List (String × String))
    → IsId k
    → IsId v
    → All IsEntry d
    → All IsEntry (put k v d)
unfolding put
IsEntry-put k v [] hk hv h = ((hk, hv), tt)
IsEntry-put k v ((j, w) ∷ d) hk hv ((hj, hw), h) = elim (Bool-cases (k == j)) [
  | inl same ↦ rw same ((hj, hv), h)
  | inr differ ↦ rw differ ((hj, hw), IsEntry-put k v d hk hv h)
]

-- What is entered are accepted identities.
pub mapping_from-IsEntry :
    (d : List (String × String)) (accepted : List (Json × Json))
    → All IsEntry d
    → Post (All IsEntry) (mapping_from d accepted)
unfolding mapping_from
mapping_from-IsEntry d [] h = returns h
mapping_from-IsEntry d ((user, order) ∷ rest) h =
    Post-bind (Post-map (Post-self (positive_id user)) (positive_id-IsId user)) λ k (_, hk).
      Post-bind (Post-map (Post-self (positive_id order)) (positive_id-IsId order))
        λ v (_, hv). mapping_from-IsEntry (put k v d) rest (IsEntry-put k v d hk hv h)

abbrev pub text_pair : String × String → Json × Json
text_pair (user, order) = (str user, str order)

put-length :
    (k v : String) (d : List (String × String))
    → (put k v d ≡ d ++ ((k, v) ∷ [])) ⊎ (length (put k v d) ≡ length d)
unfolding put
put-length k v [] = inl refl
put-length k v ((j, w) ∷ d) = elim (Bool-cases (k == j)) [
  | inl same ↦ inr (rw same refl)
  | inr differ ↦ elim (put-length k v d) [
    | inl e ↦ inl (rw (differ, e) refl)
    | inr e ↦ inr (rw (differ, e) refl)
  ]
]

-- The dict after `accepted` was entered is no longer than all entries; if it is as long, every
-- entry is new and stands at its end.
pub record Extends (d : List (String × String)) (accepted : List (Json × Json))
    (m : List (String × String)) : Type 0 where
  pub within : length m ≤ length d + length accepted
  pub exact :
      length m ≡ length d + length accepted
      → (t : List (String × String)) × (m ≡ d ++ t) × (accepted ≡ map text_pair t)

Extends-new :
    (d : List (String × String)) (rest : List (Json × Json)) (k v : String)
    (m : List (String × String))
    → put k v d ≡ d ++ ((k, v) ∷ [])
    → Extends (put k v d) rest m
    → Extends d ((str k, str v) ∷ rest) m
Extends-new d rest k v m e h =
    let n : length (put k v d) ≡ length d + 1 = ap length e ∙ length-append d ((k, v) ∷ []) in
    record {
      within = omega (arith, h.within);
      exact = λ full.
          let (t, whole, texts) = h.exact (omega arith) in
          (
            (k, v) ∷ t,
            whole ∙ ap (λ x. x ++ t) e ∙ append_assoc d ((k, v) ∷ []) t,
            ap (λ x. (str k, str v) ∷ x) texts,
          );
    }

Extends-old :
    (d : List (String × String)) (rest : List (Json × Json)) (k v : String)
    (m : List (String × String))
    → length (put k v d) ≡ length d
    → Extends (put k v d) rest m
    → Extends d ((str k, str v) ∷ rest) m
Extends-old d rest k v m e h = record {
  within = omega (arith, h.within);
  exact = λ full. absurd (omega (arith, h.within));
}

pub mapping_from-Extends :
    (d : List (String × String)) (accepted : List (Json × Json))
    → Post (Extends d accepted) (mapping_from d accepted)
unfolding mapping_from
mapping_from-Extends d [] =
    returns (record { within = omega arith; exact = λ _. ([], sym (append-nil d), refl) })
mapping_from-Extends d ((user, order) ∷ rest) =
    Post-bind (Post-map (Post-self (positive_id user)) (positive_id-IsId user)) λ k (ku, _).
      Post-bind (Post-map (Post-self (positive_id order)) (positive_id-IsId order)) λ v (ov, _).
        rw (ku, ov)
          (Post-map (mapping_from-Extends (put k v d) rest) λ m h. elim (put-length k v d) [
            | inl e ↦ Extends-new d rest k v m e h
            | inr e ↦ Extends-old d rest k v m e h
          ])

-- A user's order has the user's place among the keys.
pub contains-order_row :
    (activity k v : String) (d : List (String × String))
    → contains (keys d) k ≡ false
    → contains (map (order_row activity) d) (order_row activity (k, v)) ≡ false
contains-order_row activity k v [] h = refl
contains-order_row activity k v ((j, w) ∷ d) h = ground (arith, contains-order_row activity k v d)

pub Distinct-order_rows :
    (activity : String) (d : List (String × String))
    → Distinct (keys d)
    → Distinct (map (order_row activity) d)
Distinct-order_rows activity [] u = tt
Distinct-order_rows activity ((k, v) ∷ d) (fresh, u) =
    (contains-order_row activity k v d fresh, Distinct-order_rows activity d u)

contains-order_event :
    (activity k v : String) (d : List (String × String))
    → contains (keys d) k ≡ false
    → contains (map (order_event activity) d) (order_event activity (k, v)) ≡ false
contains-order_event activity k v [] h = refl
contains-order_event activity k v ((j, w) ∷ d) h =
    ground (arith, contains-order_event activity k v d)

pub Distinct-order_events :
    (activity : String) (d : List (String × String))
    → Distinct (keys d)
    → Distinct (map (order_event activity) d)
Distinct-order_events activity [] u = tt
Distinct-order_events activity ((k, v) ∷ d) (fresh, u) =
    (contains-order_event activity k v d fresh, Distinct-order_events activity d u)

pub length-map : {A B : Type 0} (f : A → B) (xs : List A) → length (map f xs) ≡ length xs
length-map f [] = refl
length-map f (x ∷ xs) = ap suc (length-map f xs)

pub length-keys : (d : List (String × String)) → length (keys d) ≡ length d
length-keys [] = refl
length-keys ((k, v) ∷ d) = ap suc (length-keys d)

pub length-values : (d : List (String × String)) → length (values d) ≡ length d
length-values [] = refl
length-values ((k, v) ∷ d) = ap suc (length-values d)

pub length-traverse :
    {A B : Type 0} (f : A → Result B) (xs : List A)
    → Post (λ ys. length ys ≡ length xs) (traverse f xs)
unfolding traverse
length-traverse f [] = returns refl
length-traverse f (x ∷ xs) =
    Post-bind (Post-self (f x)) λ y _. Post-bind (length-traverse f xs) λ ys n. returns (ap suc n)

pub traverse-ids :
    (xs : List String)
    → Post (λ ids. (ids ≡ xs) × All IsId xs) (traverse (λ id. positive_id (str id)) xs)
unfolding traverse
traverse-ids [] = returns (refl, tt)
traverse-ids (x ∷ xs) =
    Post-bind (Post-map (Post-self (positive_id (str x))) (positive_id-IsId (str x))) λ y (xy, h).
      let same : x ≡ y = ground arith in
      Post-bind (traverse-ids xs)
        λ ys (e, hs). returns (rw (e, same) refl, (subst IsId (sym same) h, hs))
