-- ===== src/Harness/Values.antt =====
-- What the scripts read out of an answer.
use campus_hub.Prelude.{
  ℕ, zero, suc, String, Bool, true, false, not, List, [], ◌∷◌, any, ◌==◌, nat_eq, string_eq,
  if◌then◌else◌,
}
use campus_hub.Py.{
  Result, ok, err, ◌>>=◌, traverse, key_error, index_error, type_error, Json, null, bool, num, str,
  arr, obj, Items, nil, cons, end, field, get, codes, has_infix, Number, nat, num_eq, to_int, ℤ,
  pos, negsuc, items,
}
use campus_hub.Harness.World.{World}

-- `if j:`
unfoldable pub is_truthy : Json → Bool
is_truthy null = false
is_truthy (bool b) = b
is_truthy (num x) = not (num_eq x (nat 0))
is_truthy (str s) = not (s == "")
is_truthy (arr nil) = false
is_truthy (arr (cons j js)) = true
is_truthy (obj end) = false
is_truthy (obj (field k j fs)) = true

unfoldable pub item_at : ℕ → Items → Result Json
item_at n nil = err index_error
item_at zero (cons j js) = ok j
item_at (suc n) (cons j js) = item_at n js

-- `j[i]` of the lists that Prometheus answers; nothing else there has that index.
abbrev pub at_index : ℕ → Json → Result Json
at_index i (arr js) = item_at i js
at_index i (obj fs) = err (key_error "index")
at_index i _ = err type_error

-- `float(j)`; Prometheus sends its values as texts.
abbrev pub to_float : World → Json → Result Number
to_float w (str s) = w.float_of s
to_float w (num x) = ok x
to_float w (bool true) = ok (nat 1)
to_float w (bool false) = ok (nat 0)
to_float w _ = err type_error

-- `int(j)`
abbrev pub to_whole : World → Json → Result ℤ
to_whole w (str s) = w.int_of s
to_whole w (num x) = to_int x
to_whole w (bool true) = ok (pos 1)
to_whole w (bool false) = ok (pos 0)
to_whole w _ = err type_error

-- `[int(p["target"]) for p in config["services"]["app"]["ports"]]`
unfoldable pub targets : World → Json → Result (List ℤ)
targets w config = do
  services ← get config "services"
  app ← get services "app"
  ports ← get app "ports"
  listed ← listing ports
  traverse (λ p. target p) listed
  where
    listing : Json → Result (List Json)
    listing (arr js) = ok (items js)
    listing (obj end) = ok []
    listing (str s) = if s == "" then ok [] else err type_error
    listing _ = err type_error

    target : Json → Result ℤ
    target p = do port ← get p "target"; to_whole w port

abbrev is_port : ℕ → ℤ → Bool
is_port n (pos m) = n == m
is_port n (negsuc m) = false

-- `n in ports`
abbrev pub has_port : ℕ → List ℤ → Bool
has_port n ports = any (is_port n) ports

-- `float(timestamp[0]["value"][1])`
unfoldable pub sample_value : World → Json → Result Number
unfolding item_at
sample_value w timestamp = do
  first ← at_index 0 timestamp
  pair ← get first "value"
  text ← at_index 1 pair
  to_float w text

-- `headers[name]`
unfoldable pub header : String → List (String × String) → Result String
header name [] = err (key_error name)
header name ((k, v) ∷ rest) = if name == k then ok v else header name rest

-- `word in text`
abbrev pub occurs : String → String → Bool
occurs word text = has_infix (codes word) (codes text)
