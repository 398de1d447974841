-- ===== src/FlashSale/Privacy.antt =====
-- `validate_raw_privacy`: no private text and no digest in a raw export that is to be public.
pub mod Everywhere
use campus_hub.Prelude.{
  ℕ, zero, suc, ◌+◌, Bool, true, false, ◌&&◌, ◌||◌, not, List, [], ◌∷◌, ◌++◌, String, ◌<>◌, leb,
  any, if◌then◌else◌, ◌==◌, nat_eq, string_eq, list_eq, map,
}
use campus_hub.Py.{
  Result, ok, err, value_error, ◌>>=◌, ◌>>◌, require, Number, int, float, infinite, nan, ℤ, pos,
  negsuc, show, Json, null, bool, num, str, arr, obj, Items, nil, cons, Fields, end, field, get_or,
  json_eq, codes, is_hex, has_infix, has_prefix,
}

-- A character as `(?i: )` compares it: letters in lower case, with the four characters beyond
-- ASCII that fold to one.
unfoldable pub fold : ℕ → ℕ
fold c =
    if leb b'A' c && leb c b'Z'
    then c + 32
    else if c == 0x130 || c == 0x131
    then b'i'
    else if c == 0x17f
    then b's'
    else if c == 0x212a
    then b'k'
    else c

abbrev exact_words : List String
exact_words = "/Users/" ∷ "/private/tmp/" ∷ "/var/folders/" ∷ []

abbrev folded_words : List String
folded_words = "authorization" ∷ "password" ∷ "token" ∷ "phone" ∷ "session" ∷ "cookie" ∷ []

-- The pattern `private`.
unfoldable pub is_private : List ℕ → Bool
unfolding fold has_infix
is_private s =
    any (λ word. has_infix (codes word) s) exact_words
    || any (λ word. has_infix (codes word) (map fold s)) folded_words

-- `[0-9a-f]{n}(?![0-9a-f])` at the start of the text
unfoldable pub digest_here : ℕ → List ℕ → Bool
digest_here zero [] = true
digest_here zero (c ∷ s) = not (is_hex c)
digest_here (suc n) [] = false
digest_here (suc n) (c ∷ s) = is_hex c && digest_here n s

-- The pattern `digest_like`.
unfoldable pub is_digest_like : List ℕ → Bool
unfolding digest_here
is_digest_like [] = false
is_digest_like (c ∷ s) = digest_here 32 (c ∷ s) || is_digest_like s

pub data Step : Type 0 where
  key : String → Step
  key_itself : Step
  index : ℕ → Step

-- `path == ("root_group", "id")`; a key named "<key>" cannot stand in that path.
abbrev pub at_root_id : List Step → Bool
at_root_id (key a ∷ key b ∷ []) = a == "root_group" && b == "id"
at_root_id _ = false

abbrev empty_root : Json
empty_root = obj (
    field "name" (str "") (
      field "path" (str "") (
        field "id" (str "d41d8cd98f00b204e9800998ecf8427e")
          (field "groups" (obj end) (field "checks" (obj end) end)))))

abbrev equals_empty_root : Result Json → Bool
equals_empty_root (ok root) = json_eq root empty_root
equals_empty_root (err e) = false

unfoldable pub check_leaf : Bool → List Step → String → Result (Unit {0})
check_leaf exempt path text = do
  require (not (is_private (codes text))) (value_error "private field in raw public export")
  require (not (is_digest_like (codes text)) || (at_root_id path && exempt))
      (value_error "private identifier in raw public export")

-- `str(value)` of a value that is neither a dict nor a list; `repr` is `str` of a float.
abbrev pub leaf_text : (Number → String) → Json → String
leaf_text repr null = "None"
leaf_text repr (bool true) = "True"
leaf_text repr (bool false) = "False"
leaf_text repr (num (int (pos n))) = show n
leaf_text repr (num (int (negsuc n))) = "-" <> show (suc n)
leaf_text repr (num (float m k)) = repr (float m k)
leaf_text repr (num (infinite neg)) = repr (infinite neg)
leaf_text repr (num nan) = repr nan
leaf_text repr (str s) = s
leaf_text repr (arr js) = ""
leaf_text repr (obj fs) = ""

-- `summary.get("root_group") == empty_root`: asked only at a path that starts in a dict, so what
-- has no `get` is never asked.
abbrev pub root_is_empty : Json → Bool
root_is_empty summary = equals_empty_root (get_or summary "root_group" null)

-- `exempt` says that the root group is the empty one.
module _ (repr : Number → String) (exempt : Bool) where
  unfoldable mutual
    pub visit : Json → List Step → Result (Unit {0})
    visit (obj fs) path = visit_fields fs path
    visit (arr js) path = visit_items js 0 path
    visit null path = check_leaf exempt path (leaf_text repr null)
    visit (bool b) path = check_leaf exempt path (leaf_text repr (bool b))
    visit (num x) path = check_leaf exempt path (leaf_text repr (num x))
    visit (str s) path = check_leaf exempt path (leaf_text repr (str s))

    pub visit_items : Items → ℕ → List Step → Result (Unit {0})
    visit_items nil i path = ok tt
    visit_items (cons j js) i path = visit j (path ++ (index i ∷ [])) >> visit_items js (i + 1) path

    pub visit_fields : Fields → List Step → Result (Unit {0})
    visit_fields end path = ok tt
    visit_fields (field k j fs) path =
        check_leaf exempt (path ++ (key_itself ∷ [])) k
        >> (visit j (path ++ (key k ∷ [])) >> visit_fields fs path)

-- `loads` is `json.loads`; the text is the export's, decoded from UTF-8.
unfoldable pub validate_raw_privacy :
    (Number → String) → (String → Result Json) → String → Result (Unit {0})
validate_raw_privacy repr loads text = do
  require (not (is_private (codes text))) (value_error "private field in raw public export")
  summary ← loads text
  visit repr (root_is_empty summary) summary []
