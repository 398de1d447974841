-- ===== src/FlashSale/Privacy/Everywhere.antt =====
-- A tree that `visit` accepts is clean at every place, keys included, and only such trees are.
use campus_hub.Prelude.{
  ℕ, ◌+◌, ◌≡◌, refl, Bool, true, false, List, [], ◌∷◌, ◌++◌, String, ◌⊎◌, arith, ◌↔◌,
}
use campus_hub.Py.{
  Result, ok, err, ◌>>=◌, ◌>>◌, Number, Json, null, bool, num, str, arr, obj, Items, nil, cons,
  Fields, end, field, codes,
}
use campus_hub.FlashSale.Privacy.{
  is_private, is_digest_like, Step, key, key_itself, index, at_root_id, check_leaf, leaf_text,
  visit, visit_items, visit_fields,
}

-- Nothing private, and no digest but the empty root group's.
pub record IsClean (exempt : Bool) (path : List Step) (text : String) : Type 0 where
  pub public : is_private (codes text) ≡ false
  pub no_digest :
      (is_digest_like (codes text) ≡ false) ⊎ ((at_root_id path ≡ true) × (exempt ≡ true))

IsClean-leaf :
    (exempt : Bool) (path : List Step) (text : String)
    → check_leaf exempt path text ≡ ok tt
    → IsClean exempt path text
unfolding check_leaf ◌>>=◌
IsClean-leaf exempt path text h = ground arith

leaf_of_clean :
    (exempt : Bool) (path : List Step) (text : String)
    → IsClean exempt path text
    → check_leaf exempt path text ≡ ok tt
unfolding check_leaf ◌>>=◌
leaf_of_clean exempt path text h = ground (arith, h.public, h.no_digest)

module _ (repr : Number → String) where
  mutual
    -- The text stands at the path within the value, given the path of the value.
    pub data Occurs : Json → List Step → List Step → String → Type 0 where
      at_null : {p : List Step} → Occurs null p p (leaf_text repr null)
      at_bool : {p : List Step} (b : Bool) → Occurs (bool b) p p (leaf_text repr (bool b))
      at_num : {p : List Step} (x : Number) → Occurs (num x) p p (leaf_text repr (num x))
      at_str : {p : List Step} (s : String) → Occurs (str s) p p s
      in_arr :
          {js : Items} {p q : List Step} {s : String}
          → OccursItem js 0 p q s
          → Occurs (arr js) p q s
      in_obj :
          {fs : Fields} {p q : List Step} {s : String}
          → OccursField fs p q s
          → Occurs (obj fs) p q s

    pub data OccursItem : Items → ℕ → List Step → List Step → String → Type 0 where
      first_item :
          {j : Json} {js : Items} {i : ℕ} {p q : List Step} {s : String}
          → Occurs j (p ++ (index i ∷ [])) q s
          → OccursItem (cons j js) i p q s
      later_item :
          {j : Json} {js : Items} {i : ℕ} {p q : List Step} {s : String}
          → OccursItem js (i + 1) p q s
          → OccursItem (cons j js) i p q s

    pub data OccursField : Fields → List Step → List Step → String → Type 0 where
      the_key :
          {k : String} {j : Json} {fs : Fields} {p q : List Step}
          → q ≡ p ++ (key_itself ∷ [])
          → OccursField (field k j fs) p q k
      first_value :
          {k : String} {j : Json} {fs : Fields} {p q : List Step} {s : String}
          → Occurs j (p ++ (key k ∷ [])) q s
          → OccursField (field k j fs) p q s
      later_field :
          {k : String} {j : Json} {fs : Fields} {p q : List Step} {s : String}
          → OccursField fs p q s
          → OccursField (field k j fs) p q s

module _ (repr : Number → String) (exempt : Bool) where
  first_of_both : (m n : Result (Unit {0})) → (m >> n) ≡ ok tt → m ≡ ok tt
  unfolding ◌>>=◌
  first_of_both (ok tt) n h = refl
  first_of_both (err e) n h = cc

  then_both : (m n : Result (Unit {0})) → (m >> n) ≡ ok tt → n ≡ ok tt
  unfolding ◌>>=◌
  then_both (ok tt) n h = h
  then_both (err e) n h = cc

  mutual
    unfolding visit

    visit-IsClean :
        {j : Json} {p q : List Step} {s : String}
        → visit repr exempt j p ≡ ok tt
        → Occurs repr j p q s
        → IsClean exempt q s
    visit-IsClean h (at_null {p}) = IsClean-leaf exempt p _ h
    visit-IsClean h (at_bool {p} b) = IsClean-leaf exempt p _ h
    visit-IsClean h (at_num {p} x) = IsClean-leaf exempt p _ h
    visit-IsClean h (at_str {p} s) = IsClean-leaf exempt p _ h
    visit-IsClean h (in_arr o) = visit_items-IsClean h o
    visit-IsClean h (in_obj o) = visit_fields-IsClean h o

    visit_items-IsClean :
        {js : Items} {i : ℕ} {p q : List Step} {s : String}
        → visit_items repr exempt js i p ≡ ok tt
        → OccursItem repr js i p q s
        → IsClean exempt q s
    visit_items-IsClean h (first_item o) = visit-IsClean (first_of_both _ _ h) o
    visit_items-IsClean h (later_item o) = visit_items-IsClean (then_both _ _ h) o

    visit_fields-IsClean :
        {fs : Fields} {p q : List Step} {s : String}
        → visit_fields repr exempt fs p ≡ ok tt
        → OccursField repr fs p q s
        → IsClean exempt q s
    visit_fields-IsClean h (the_key {k} {p = p} e) =
        rw e (IsClean-leaf exempt (p ++ (key_itself ∷ [])) k (first_of_both _ _ h))
    visit_fields-IsClean h (first_value o) = visit-IsClean (first_of_both _ _ (then_both _ _ h)) o
    visit_fields-IsClean h (later_field o) =
        visit_fields-IsClean (then_both _ _ (then_both _ _ h)) o

  both : (m n : Result (Unit {0})) → m ≡ ok tt → n ≡ ok tt → (m >> n) ≡ ok tt
  unfolding ◌>>=◌
  both m n h k = rw h k

  mutual
    unfolding visit

    visit_of_clean :
        (j : Json) (p : List Step)
        → ((q : List Step) (s : String) → Occurs repr j p q s → IsClean exempt q s)
        → visit repr exempt j p ≡ ok tt
    visit_of_clean null p h = leaf_of_clean exempt p _ (h p _ at_null)
    visit_of_clean (bool b) p h = leaf_of_clean exempt p _ (h p _ (at_bool b))
    visit_of_clean (num x) p h = leaf_of_clean exempt p _ (h p _ (at_num x))
    visit_of_clean (str s) p h = leaf_of_clean exempt p s (h p s (at_str s))
    visit_of_clean (arr js) p h = visit_items_of_clean js 0 p (λ q s o. h q s (in_arr o))
    visit_of_clean (obj fs) p h = visit_fields_of_clean fs p (λ q s o. h q s (in_obj o))

    visit_items_of_clean :
        (js : Items) (i : ℕ) (p : List Step)
        → ((q : List Step) (s : String) → OccursItem repr js i p q s → IsClean exempt q s)
        → visit_items repr exempt js i p ≡ ok tt
    visit_items_of_clean nil i p h = refl
    visit_items_of_clean (cons j js) i p h =
        both _ _ (visit_of_clean j (p ++ (index i ∷ [])) (λ q s o. h q s (first_item o)))
          (visit_items_of_clean js (i + 1) p (λ q s o. h q s (later_item o)))

    visit_fields_of_clean :
        (fs : Fields) (p : List Step)
        → ((q : List Step) (s : String) → OccursField repr fs p q s → IsClean exempt q s)
        → visit_fields repr exempt fs p ≡ ok tt
    visit_fields_of_clean end p h = refl
    visit_fields_of_clean (field k j fs) p h =
        both _ _ (leaf_of_clean exempt (p ++ (key_itself ∷ [])) k (h _ k (the_key refl))) (
          both _ _ (visit_of_clean j (p ++ (key k ∷ [])) (λ q s o. h q s (first_value o)))
            (visit_fields_of_clean fs p (λ q s o. h q s (later_field o))))

  -- A value passes exactly if at every place in it, keys of dicts included, the text that stands
  -- there has no private field, and no digest unless the place is the root group's identifier and
  -- the root group is the empty one.
  pub visit_exact :
      (j : Json) (p : List Step)
      → (visit repr exempt j p ≡ ok tt)
        ↔ ((q : List Step) (s : String) → Occurs repr j p q s → IsClean exempt q s)
  visit_exact j p = (λ h q s o. visit-IsClean h o, visit_of_clean j p)
