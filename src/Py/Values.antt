-- ===== src/Py/Values.antt =====
-- What `json.loads` returns, and the operations that the scripts make on it. A dict is the list of
-- its entries, with the key of an entry nowhere else in it.
use campus_hub.Prelude.{
  String, Bool, true, false, ◌&&◌, ◌||◌, Option, none, some, List, [], ◌∷◌, map, ◌==◌, string_eq,
  nat_eq, option_eq, same_set, length, if◌then◌else◌,
}
use campus_hub.Py.Raise.{Result, ok, err, key_error, type_error, attribute_error, ◌>>=◌}
use campus_hub.Py.Numeric.{Number, nat, num_eq}
use campus_hub.Py.Text.{codes, has_infix}

mutual
  pub data Json : Type 0 where
    null : Json
    bool : Bool → Json
    num : Number → Json
    str : String → Json
    arr : Items → Json
    obj : Fields → Json

  pub data Items : Type 0 where
    nil : Items
    cons : Json → Items → Items

  pub data Fields : Type 0 where
    end : Fields
    field : String → Json → Fields → Fields

unfoldable pub items : Items → List Json
items nil = []
items (cons j js) = j ∷ items js

unfoldable pub entries : Fields → List (String × Json)
entries end = []
entries (field k j fs) = (k, j) ∷ entries fs

unfoldable pub lookup : String → Fields → Option Json
lookup k end = none
lookup k (field j v fs) = if k == j then some v else lookup k fs

abbrev found : String → Option Json → Result Json
found k none = err (key_error k)
found k (some v) = ok v

-- `j[k]` with a text for `k`
unfoldable pub get : Json → String → Result Json
unfolding lookup
get (obj fs) k = found k (lookup k fs)
get _ k = err type_error

abbrev or_default : Json → Option Json → Json
or_default d none = d
or_default d (some v) = v

-- `j.get(k, d)`
unfoldable pub get_or : Json → String → Json → Result Json
unfolding lookup
get_or (obj fs) k d = ok (or_default d (lookup k fs))
get_or _ k d = err attribute_error

-- The texts among a list's values; a list or a dict has no hash.
unfoldable pub hashed : Items → Result (List (Option String))
hashed nil = ok []
hashed (cons (str s) js) = do rest ← hashed js; ok (some s ∷ rest)
hashed (cons (arr _) js) = err type_error
hashed (cons (obj _) js) = err type_error
hashed (cons _ js) = do rest ← hashed js; ok (none ∷ rest)

unfoldable pub letters : String → List (Option String)
letters String.[] = []
letters (String.◌∷◌ c s) = some (String.◌∷◌ c String.[]) ∷ letters s

-- `set(j)`, where `none` stands for an element that is no text.
unfoldable pub set_of : Json → Result (List (Option String))
unfolding entries hashed letters
set_of (obj fs) = ok (map (λ (k, _). some k) (entries fs))
set_of (arr js) = hashed js
set_of (str s) = ok (letters s)
set_of _ = err type_error

unfoldable pub has_item : String → Items → Bool
has_item k nil = false
has_item k (cons (str s) js) = k == s || has_item k js
has_item k (cons _ js) = has_item k js

-- `k in j`
unfoldable pub has_key : Json → String → Result Bool
unfolding lookup has_item has_infix
has_key (obj fs) k = ok (elim (lookup k fs) [ none ↦ false | some v ↦ true ])
has_key (arr js) k = ok (has_item k js)
has_key (str s) k = ok (has_infix (codes k) (codes s))
has_key _ k = err type_error

-- `set(j) == {k, ...}`
unfoldable pub has_keys : Json → List String → Result Bool
unfolding set_of
has_keys j keys = do found ← set_of j; ok (same_set found (map some keys))

-- `hash(j)`, and the text that it stands for; what is no text equals none.
unfoldable pub hashable : Json → Result (Option String)
hashable (str s) = ok (some s)
hashable (arr js) = err type_error
hashable (obj fs) = err type_error
hashable _ = ok none

-- `j == s` for a text
abbrev pub is_text : Json → String → Bool
is_text (str t) s = t == s
is_text _ s = false

abbrev pub is_null : Json → Bool
is_null null = true
is_null _ = false

-- `isinstance(j, dict)`
abbrev pub is_dict : Json → Bool
is_dict (obj fs) = true
is_dict _ = false

abbrev of_bool : Bool → Number
of_bool true = nat 1
of_bool false = nat 0

abbrev in_option : (Json → Bool) → Option Json → Bool
in_option p none = false
in_option p (some j) = p j

unfoldable mutual
  unfolding entries lookup

  -- `a == b`, where True is 1, False is 0, and the order of a dict's entries is nothing
  pub json_eq : Json → Json → Bool
  json_eq null j = is_null j
  json_eq (bool b) (bool c) = num_eq (of_bool b) (of_bool c)
  json_eq (bool b) (num y) = num_eq (of_bool b) y
  json_eq (bool b) _ = false
  json_eq (num x) (num y) = num_eq x y
  json_eq (num x) (bool c) = num_eq x (of_bool c)
  json_eq (num x) _ = false
  json_eq (str s) j = is_text j s
  json_eq (arr js) (arr ks) = items_eq js ks
  json_eq (arr js) _ = false
  json_eq (obj fs) (obj gs) = length (entries fs) == length (entries gs) && fields_eq fs gs
  json_eq (obj fs) _ = false

  items_eq : Items → Items → Bool
  items_eq nil nil = true
  items_eq nil (cons k ks) = false
  items_eq (cons j js) nil = false
  items_eq (cons j js) (cons k ks) = json_eq j k && items_eq js ks

  fields_eq : Fields → Fields → Bool
  fields_eq end gs = true
  fields_eq (field k v fs) gs = in_option (json_eq v) (lookup k gs) && fields_eq fs gs

abbrev field_names : List (String × Json) → List String
field_names [] = []
field_names ((k, v) ∷ fs) = k ∷ field_names fs

-- The names that `for name in j` takes in turn, where each is used as a text at once.
unfoldable pub iterate : Json → Result (List String)
unfolding entries
iterate (obj fs) = ok (field_names (entries fs))
iterate _ = err type_error
