-- ===== src/FlashSale/Evidence.antt =====
-- `parse_rows`, `pairs` and `parse_witness_log`: evidence as the command-line clients print it.
use Prim.Native.Char.{Char, code}
use campus_hub.Prelude.{
  ℕ, Bool, false, ◌&&◌, ◌||◌, List, [], ◌∷◌, ◌++◌, String, leb, length, ◌==◌, nat_eq, any,
  if◌then◌else◌, not,
}
use campus_hub.Py.{
  Result, ok, err, value_error, ◌>>=◌, ◌>>◌, require, traverse, Json, str, arr, obj, Items, nil,
  cons, entries,
}

-- `c` before the first word
abbrev pub push : Char → List String → List String
push c [] = String.◌∷◌ c "" ∷ []
push c (w ∷ ws) = String.◌∷◌ c w ∷ ws

-- `line.split("\t")`
unfoldable pub split_tabs : String → List String
split_tabs String.[] = "" ∷ []
split_tabs (String.◌∷◌ c s) =
    let rest = split_tabs s in if code c == 9 then "" ∷ rest else push c rest

-- The ends of a line that `str.splitlines` knows.
abbrev pub is_break : ℕ → Bool
is_break c = leb 10 c && leb c 13 || leb 28 c && leb c 30 || c == 0x85 || c == 0x2028 || c == 0x2029

-- The rest of `str.splitlines`; the flag says that a carriage return stands before it, which makes
-- one end of a line with a line feed.
unfoldable pub lines_from : Bool → String → List String
lines_from cr String.[] = []
lines_from cr (String.◌∷◌ c s) =
    let rest = lines_from (code c == 13) s in
    if cr && code c == 10 then rest else if is_break (code c) then "" ∷ rest else push c rest

abbrev pub split_lines : String → List String
split_lines = lines_from false

abbrev pub split_rows : List String → List (List String)
split_rows [] = []
split_rows (line ∷ rest) = split_tabs line ∷ split_rows rest

unfoldable pub parse_rows : String → ℕ → Result (List (List String))
parse_rows text width = do
  let rows = split_rows (split_lines text)
  require (not (any (λ row. not (length row == width)) rows))
      (value_error "malformed private database evidence")
  ok rows

abbrev text_entries : List (String × Json) → List (Json × Json)
text_entries [] = []
text_entries ((k, v) ∷ rest) = (str k, v) ∷ text_entries rest

malformed_pairs : Result (List (Json × Json))
malformed_pairs = err (value_error "malformed Redis pair evidence")

-- `zip(value[::2], value[1::2])` of a list of even length.
zip_pairs : Items → Result (List (Json × Json))
unfolding malformed_pairs
zip_pairs nil = ok []
zip_pairs (cons a nil) = malformed_pairs
zip_pairs (cons a (cons b js)) = do rest ← zip_pairs js; ok ((a, b) ∷ rest)

unfoldable pub pairs : Json → Result (List (Json × Json))
unfolding zip_pairs entries malformed_pairs
pairs (obj fs) = ok (text_entries (entries fs))
pairs (arr js) = zip_pairs js
pairs _ = malformed_pairs

-- `line[len(prefix):]` of a line that starts with the prefix, or nothing.
unfoldable pub after_prefix : String → String → List String
after_prefix String.[] line = line ∷ []
after_prefix (String.◌∷◌ p ps) String.[] = []
after_prefix (String.◌∷◌ p ps) (String.◌∷◌ c s) =
    let rest = after_prefix ps s in if code p == code c then rest else []

abbrev messages : List String → List String
messages [] = []
messages (line ∷ rest) = after_prefix "COHORT_WITNESS " line ++ messages rest

-- `loads` is `json.loads`.
unfoldable pub parse_witness_log : (String → Result Json) → String → Result (List Json)
unfolding after_prefix
parse_witness_log loads text = traverse loads (messages (split_lines text))
