-- ===== src/Harness/Script.antt =====
-- The statements that the scenarios of scripts/verify-compose.py are written in.
use campus_hub.Prelude.{
  ℕ, zero, suc, ◌+◌, ◌-◌, ◌*◌, leb, String, ◌<>◌, Bool, true, false, ◌&&◌, not, List, [], ◌∷◌, ◌++◌,
  Option, none, some, ◌==◌, nat_eq, string_eq, map, if◌then◌else◌, length, all, option_eq, distinct,
  contains,
}
use campus_hub.Py.{
  ok, Json, ℤ, pos, negsuc, num_lt, leb_ℤ, Number, nat, show, codes, is_hex, is_digit,
}
use campus_hub.FlashSale.Evidence.{split_lines}
use campus_hub.Harness.World.{drawn}
use campus_hub.Harness.Exec.{Exec, ◌>>=◌, ◌>>◌, pure, assert, finally}
use campus_hub.Harness.Compose.{redis, sql}

-- `uuid.uuid4().hex`
unfoldable pub uuid4 : Exec String
uuid4 w s = (ok (w.uuid4 s.history), record s { history = drawn ∷ s.history })

-- `json.dumps(j)`
unfoldable pub dumps : Json → Exec String
dumps j w s = (ok (w.dumps j), s)

-- `int(text)`
unfoldable pub whole : String → Exec ℤ
whole text w s = (w.int_of text, s)

-- `urllib.parse.urlencode(fields)`
unfoldable pub urlencode : List (String × String) → Exec String
urlencode fields w s = (ok (w.urlencode fields), s)

-- `(ROOT / path).read_text("utf-8")`
unfoldable pub read_text : String → Exec String
read_text path w s = (w.read_text (w.root <> "/" <> path), s)

-- The list that outlives an error: `.extend(names)` on it, and its value.
unfoldable pub note : List String → Exec (Unit {0})
note names w s = (ok tt, record s { noted = s.noted ++ names })

unfoldable pub start_notes : Exec (Unit {0})
start_notes w s = (ok tt, record s { noted = [] })

unfoldable pub noted : Exec (List String)
noted w s = (ok s.noted, s)

-- `for x in xs: f(x)`
unfoldable pub each : {A : Type 0} → List A → (A → Exec (Unit {0})) → Exec (Unit {0})
each [] f = pure tt
each (x ∷ xs) f = f x >> each xs f

-- `if x: f(x)` where `x` may be `None`
abbrev pub given : {A : Type 0} → Option A → (A → Exec (Unit {0})) → Exec (Unit {0})
given none f = pure tt
given (some x) f = f x

-- `[f(x) for x in xs]`
unfoldable pub gather : {A B : Type 0} → List A → (A → Exec B) → Exec (List B)
gather [] f = pure []
gather (x ∷ xs) f = do y ← f x; ys ← gather xs f; pure (y ∷ ys)

-- `assert m == expected`, where an `and` of such tests stops at the first that fails.
unfoldable pub gives : Exec String → String → Exec (Unit {0})
gives m expected = do found ← m; assert (found == expected) ""

-- `assert low <= int(m) <= high, message`
unfoldable pub between_or : ℤ → Exec String → ℤ → String → Exec (Unit {0})
between_or low m high message = do
  text ← m
  n ← whole text
  assert (leb_ℤ low n && leb_ℤ n high) message

abbrev pub between : ℤ → Exec String → ℤ → Exec (Unit {0})
between low m high = between_or low m high ""

-- The statement and then a value that is dropped.
unfoldable pub do_redis : List String → Exec (Unit {0})
do_redis args = do _ ← redis args; pure tt

unfoldable pub do_sql : String → Exec (Unit {0})
do_sql statement = do _ ← sql statement; pure tt

abbrev pub acl : List String → List String
acl tokens = "ACL" ∷ "SETUSER" ∷ "default" ∷ tokens

-- `redis('ACL', ..., off); try: body; finally: redis('ACL', ..., on); last`
unfoldable pub limited :
    {A : Type 0} → List String → List String → Exec A → Exec (Unit {0}) → Exec A
limited off on body last = do_redis (acl off) >> finally body (do_redis (acl on) >> last)

-- With some Redis commands denied to the application.
abbrev pub without : {A : Type 0} → List String → Exec A → Exec (Unit {0}) → Exec A
without commands = limited (map (λ c. "-" <> c) commands) (map (λ c. "+" <> c) commands)

-- `int(m)`
unfoldable pub integer : Exec String → Exec ℤ
integer m = do text ← m; whole text

-- `assert int(m) > low` and `assert 0 < int(m) <= high`
unfoldable pub above : Exec String → ℤ → Exec (Unit {0})
above m low = do n ← integer m; assert (not (leb_ℤ n low)) ""

unfoldable pub positive_until : Exec String → ℤ → Exec (Unit {0})
positive_until m high = do n ← integer m; assert (not (leb_ℤ n (pos 0)) && leb_ℤ n high) ""

-- `assert m == expected, message`
unfoldable pub gives_or : Exec String → String → String → Exec (Unit {0})
gives_or m expected message = do found ← m; assert (found == expected) message

-- `re.fullmatch(r'[0-9a-f]{32}', text)` and `re.fullmatch(r'[0-9]{6}', text)`
abbrev pub is_token : String → Bool
is_token text = length (codes text) == 32 && all is_hex (codes text)

abbrev pub is_code : String → Bool
is_code text = length (codes text) == 6 && all is_digit (codes text)

-- `"%d" % n`
abbrev pub show_ℤ : ℤ → String
show_ℤ (pos n) = show n
show_ℤ (negsuc n) = "-" <> show (n + 1)

-- The headers of a request for a session.
abbrev pub authorized : String → List (String × String)
authorized token = ("authorization", token) ∷ []

-- The longest that a session lives, in seconds.
abbrev pub session_seconds : ℕ
session_seconds = 36000 * 60

-- `set(text.splitlines())`
abbrev pub line_set : String → List String
line_set text = distinct (split_lines text)

-- `xs - ys` of sets
abbrev pub without_all : List String → List String → List String
without_all [] ys = []
without_all (x ∷ xs) ys = let rest = without_all xs ys in if contains ys x then rest else x ∷ rest

abbrev pub is_empty : {A : Type 0} → List A → Bool
is_empty [] = true
is_empty (x ∷ xs) = false

-- `n - k`
abbrev pub minus : ℤ → ℕ → ℤ
minus (pos n) k = if leb k n then pos (n - k) else negsuc (k - n - 1)
minus (negsuc n) k = negsuc (n + k)

-- `",".join(texts)`, and with a quote around each
abbrev pub joined : List String → String
joined [] = ""
joined (t ∷ []) = t
joined (t ∷ u ∷ rest) = t <> "," <> joined (u ∷ rest)

abbrev pub quoted : List String → String
quoted texts = joined (map (λ t. "'" <> t <> "'") texts)

abbrev pub zeros : ℕ → String
zeros zero = ""
zeros (suc k) = "0" <> zeros k

-- `"%0{width}d" % n`
abbrev pub padded : ℕ → ℕ → String
padded width n = zeros (width - length (codes (show n))) <> show n

-- `dict(zip(lines[::2], lines[1::2]))`, where the last value of a key stands.
abbrev pub paired : List String → List (String × String)
paired [] = []
paired (k ∷ []) = []
paired (k ∷ v ∷ rest) =
    let others = paired rest in
    if contains (map (λ (e : String × String). e.0) others) k then others else (k, v) ∷ others

-- `sql(take); try: body; finally: sql(give); last`, and without what is last
unfoldable pub broken_then : {A : Type 0} → String → String → Exec A → Exec (Unit {0}) → Exec A
broken_then take give body last = do_sql take >> finally body (do_sql give >> last)

unfoldable pub broken : {A : Type 0} → String → String → Exec A → Exec A
broken take give body = do_sql take >> finally body (do_sql give)

abbrev pub column_renamed : {A : Type 0} → String → String → String → Exec A → Exec A
column_renamed table column fault =
    broken ("ALTER TABLE " <> table <> " RENAME COLUMN " <> column <> " TO " <> fault <> ";")
      ("ALTER TABLE " <> table <> " RENAME COLUMN " <> fault <> " TO " <> column <> ";")

abbrev pub table_renamed : {A : Type 0} → String → String → Exec A → Exec A
table_renamed table fault =
    broken ("RENAME TABLE " <> table <> " TO " <> fault <> ";")
      ("RENAME TABLE " <> fault <> " TO " <> table <> ";")

-- A token with its prefix, and the Hash of its session for ten minutes.
abbrev pub signed_in : String → ℕ → List String → Exec String
signed_in prefix actor profile = do
  identifier ← uuid4
  let token = prefix <> identifier
  do_redis ("HSET" ∷ ("login:token:" <> token) ∷ "id" ∷ show actor ∷ profile)
  do_redis ("EXPIRE" ∷ ("login:token:" <> token) ∷ "600" ∷ [])
  pure token

-- `float(m)`
unfoldable pub floating : String → Exec Number
floating text w s = (w.float_of text, s)

-- `assert float(m) > low`
unfoldable pub exceeds : Exec String → ℕ → Exec (Unit {0})
exceeds m low = do text ← m; x ← floating text; assert (num_lt (nat low) x) ""
