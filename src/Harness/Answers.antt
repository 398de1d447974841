-- ===== src/Harness/Answers.antt =====
-- What the scenarios of scripts/verify-compose.py read and demand of an answer.
use campus_hub.Prelude.{
  ℕ, String, Bool, true, false, ◌&&◌, ◌||◌, not, List, [], ◌∷◌, some, ◌==◌, nat_eq, string_eq,
  if◌then◌else◌, length, all, any, option_eq, contains,
}
use campus_hub.Py.{
  Result, ok, err, Json, null, bool, num, str, obj, Fields, end, field, get, get_or, json_eq,
  is_text, ℤ, pos, negsuc, arr, items, entries, has_keys, to_int, int, set_of, has_key, Items, nil,
  cons, num_lt, hashable, key_error, leb_ℤ, Number, nat, show, codes, is_hex, is_digit, has_infix,
  type_error, assertion_error,
}
use campus_hub.Harness.Values.{to_whole}
use campus_hub.Harness.World.{Response}
use campus_hub.Harness.Exec.{Exec, ◌>>=◌, ◌>>◌, pure, raise, lift, assert}
use campus_hub.Harness.Compose.{parse}
use campus_hub.Harness.Script.{gather}

-- A dict display.
abbrev pub object : List (String × Json) → Json
object [] = obj end
object ((k, v) ∷ rest) = extend k v (object rest)
  where
    extend : String → Json → Json → Json
    extend k v (obj fs) = obj (field k v fs)
    extend k v j = j

-- The content of an answer, and the value it stands for.
unfoldable pub content : Exec Response → Exec String
content m = do response ← m; pure response.body

unfoldable pub answer : Exec Response → Exec Json
answer m = do response ← m; parse response.body

-- An answer of which only the status matters.
unfoldable pub refused : Exec Response → Exec (Unit {0})
refused m = do _ ← m; pure tt

-- `j[key]`
abbrev pub at : Json → String → Exec Json
at j key = lift (get j key)

-- `assert j[key] == expected`
unfoldable pub states : Json → String → Json → Exec (Unit {0})
states j key expected = do v ← at j key; assert (json_eq v expected) ""

-- `assert j[key] is b`
unfoldable pub says : Json → String → Bool → Exec (Unit {0})
says j key b = do v ← at j key; assert (is_bool v) ""
  where
    is_bool : Json → Bool
    is_bool (bool c) = if b then c else not c
    is_bool _ = false

-- `assert j == expected`
unfoldable pub is_same : Json → Json → Exec (Unit {0})
is_same j expected = assert (json_eq j expected) ""

-- A value that is used as a text.
abbrev pub text_of : Json → Exec String
text_of (str s) = pure s
text_of _ = raise type_error

-- A value that is tested to be a text that is not empty.
abbrev pub full_text : Json → Exec String
full_text (str s) = do assert (not (s == "")) ""; pure s
full_text _ = raise (assertion_error "")

-- `word not in text`
abbrev pub lacks : String → String → Bool
lacks text word = not (has_infix (codes word) (codes text))

-- `{'success': False, 'errorCode': 'INTERNAL_ERROR', 'errorMsg': '服务器异常'}`
abbrev pub internal_error : Json
internal_error =
    object (
      ("success", bool false)
      ∷ ("errorCode", str "INTERNAL_ERROR")
      ∷ ("errorMsg", str "服务器异常")
      ∷ [])

-- `for x in j:` where the statements index `x`, which a text and a key do not let them.
abbrev pub elements : Json → Exec (List Json)
elements (arr js) = pure (items js)
elements (obj end) = pure []
elements (str s) = if s == "" then pure [] else raise type_error
elements _ = raise type_error

-- `assert set(j) == set(names), message`
unfoldable pub has_names_or : Json → List String → String → Exec (Unit {0})
has_names_or j names message = do same ← lift (has_keys j names); assert same message

abbrev pub has_names : Json → List String → Exec (Unit {0})
has_names j names = has_names_or j names ""

-- `"%d" % j`
abbrev pub whole_of : Json → Exec ℤ
whole_of (num x) = lift (to_int x)
whole_of (bool b) = pure (pos (if b then 1 else 0))
whole_of _ = raise type_error

-- `[x, ...]`
abbrev pub array : List Json → Json
array js = arr (listed js)
  where
    listed : List Json → Items
    listed [] = nil
    listed (j ∷ js) = cons j (listed js)

-- `assert [x[key] for x in j] == expected`
unfoldable pub lists : Json → String → List Json → Exec (Unit {0})
lists j key expected = do
  xs ← elements j
  found ← gather xs (λ x. at x key)
  assert (json_eq (array found) (array expected)) ""

-- `assert type(j) is int`
unfoldable pub is_int : Json → Exec (Unit {0})
is_int (num (int z)) = pure tt
is_int _ = raise (assertion_error "")

-- `assert type(j) is bool`
unfoldable pub is_boolean : Json → Exec (Unit {0})
is_boolean (bool b) = pure tt
is_boolean _ = raise (assertion_error "")

-- `assert not (set(names) & set(j))`
unfoldable pub hides : Json → List String → Exec (Unit {0})
hides j names = do
  found ← lift (set_of j)
  assert (not (any (λ name. contains found (some name)) names)) ""

-- `assert word not in j.get(key, '')`
unfoldable pub conceals : Json → String → String → Exec (Unit {0})
conceals j key word = do
  v ← lift (get_or j key (str ""))
  held ← lift (has_key v word)
  assert (not held) ""

-- `int(j)`
unfoldable pub whole_value : Json → Exec ℤ
whole_value j w s = (to_whole w j, s)

-- `assert {x['id'] for x in j} == set(expected), message`
unfoldable pub has_ids_or : Json → List Json → String → Exec (Unit {0})
has_ids_or j expected message = do
  xs ← elements j
  found ← gather xs (λ x. do v ← at x "id"; _ ← lift (hashable v); pure v)
  assert (all (λ v. any (json_eq v) expected) found && all (λ v. any (json_eq v) found) expected)
      message

abbrev pub has_ids : Json → List Json → Exec (Unit {0})
has_ids j expected = has_ids_or j expected ""

-- `[x for x in j if x['id'] in ids]`
unfoldable pub rows_with : Json → List Json → Exec (List Json)
rows_with j ids = do
  xs ← elements j
  marked ← gather xs (λ x. do v ← at x "id"; _ ← lift (hashable v); pure (any (json_eq v) ids, x))
  pure (kept marked)
  where
    kept : List (Bool × Json) → List Json
    kept [] = []
    kept ((true, x) ∷ rest) = x ∷ kept rest
    kept ((false, x) ∷ rest) = kept rest

-- `len(j)`
abbrev pub size_of : Json → Exec ℕ
size_of (arr js) = pure (length (items js))
size_of (obj fs) = pure (length (entries fs))
size_of (str s) = pure (length (codes s))
size_of _ = raise type_error

-- `{x['id']: x for x in j}[key]`; the last with an id stands.
unfoldable pub item_with : ℕ → List Json → Exec Json
item_with id [] = raise (key_error (show id))
item_with id (x ∷ xs) = do
  later ← lift (any_with id xs)
  v ← at x "id"
  if later
      then item_with id xs
      else if json_eq v (num (nat id))
      then pure x
      else raise (key_error (show id))
  where
    any_with : ℕ → List Json → Result Bool
    any_with id [] = ok false
    any_with id (x ∷ xs) = campus_hub.Py.◌>>=◌ (get x "id") (λ v.
        campus_hub.Py.◌>>=◌ (any_with id xs) (λ later. ok (json_eq v (num (nat id)) || later)))
