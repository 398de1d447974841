-- ===== src/Harness/Keeps/Statements.antt =====
-- What the statements of Script keep.
use campus_hub.Prelude.{
  ℕ, String, Bool, List, [], ◌∷◌, Option, none, some, ◌++◌, nat_eq, string_eq, list_eq,
}
use campus_hub.Py.{Json, null, int, float, infinite, nan, bool, num, str, arr, obj, end, field, ℤ}
use campus_hub.Harness.World.{World, Response}
use campus_hub.Harness.Exec.{State, Exec}
use campus_hub.Harness.Compose.{parse, check}
use campus_hub.Harness.Script.{
  uuid4, dumps, whole, urlencode, read_text, note, start_notes, noted, each, gather, gives,
  between_or, integer, above, positive_until, gives_or, given, floating, exceeds,
}
use campus_hub.Harness.Answers.{
  content, answer, refused, states, says, is_same, text_of, full_text, elements, has_names_or,
  size_of, rows_with, whole_of, lists, is_int, is_boolean, hides, conceals, whole_value, has_ids_or,
  item_with,
}
use campus_hub.Harness.Keeps.{
  Keeps, Stable, Keeps-pure, Keeps-raise, Keeps-lift, Keeps-if, Keeps-assert, Keeps->>=,
  Keeps-finally,
}

module _ {P : World → State → Type 0} where
  pub Keeps-uuid4 : Stable P → Keeps P uuid4
  unfolding uuid4
  Keeps-uuid4 g = record { at = g.draws }

  pub Keeps-dumps : (j : Json) → Keeps P (dumps j)
  unfolding dumps
  Keeps-dumps j = record { at = λ w s h. h }

  pub Keeps-whole : (text : String) → Keeps P (whole text)
  unfolding whole
  Keeps-whole text = record { at = λ w s h. h }

  pub Keeps-urlencode : (fields : List (String × String)) → Keeps P (urlencode fields)
  unfolding urlencode
  Keeps-urlencode fields = record { at = λ w s h. h }

  pub Keeps-read_text : (path : String) → Keeps P (read_text path)
  unfolding read_text
  Keeps-read_text path = record { at = λ w s h. h }

  pub Keeps-note : Stable P → (names : List String) → Keeps P (note names)
  unfolding note
  Keeps-note g names = record { at = λ w s h. g.marks w s s.passed (s.noted ++ names) h }

  pub Keeps-start_notes : Stable P → Keeps P start_notes
  unfolding start_notes
  Keeps-start_notes g = record { at = λ w s h. g.marks w s s.passed [] h }

  pub Keeps-noted : Keeps P noted
  unfolding noted
  Keeps-noted = record { at = λ w s h. h }

  pub Keeps-check : Stable P → (label : String) → Keeps P (check label)
  unfolding check
  Keeps-check g label = record { at = λ w s h. g.marks w s (s.passed ++ (label ∷ [])) s.noted h }

  pub Keeps-parse : (text : String) → Keeps P (parse text)
  unfolding parse
  Keeps-parse text = record { at = λ w s h. h }

  pub Keeps-each :
      {A : Type 0} (xs : List A) (f : A → Exec (Unit {0}))
      → ((x : A) → Keeps P (f x))
      → Keeps P (each xs f)
  unfolding each
  Keeps-each [] f p = Keeps-pure tt
  Keeps-each (x ∷ xs) f p = Keeps->>= _ _ (p x) (λ _. Keeps-each xs f p)

  pub Keeps-given :
      {A : Type 0} (x : Option A) (f : A → Exec (Unit {0}))
      → ((x : A) → Keeps P (f x))
      → Keeps P (given x f)
  Keeps-given none f p = Keeps-pure tt
  Keeps-given (some x) f p = p x

  pub Keeps-gather :
      {A B : Type 0} (xs : List A) (f : A → Exec B)
      → ((x : A) → Keeps P (f x))
      → Keeps P (gather xs f)
  unfolding gather
  Keeps-gather [] f p = Keeps-pure []
  Keeps-gather (x ∷ xs) f p =
      Keeps->>= _ _ (p x) (λ y. Keeps->>= _ _ (Keeps-gather xs f p) (λ ys. Keeps-pure (y ∷ ys)))

  pub Keeps-gives : (m : Exec String) (expected : String) → Keeps P m → Keeps P (gives m expected)
  unfolding gives
  Keeps-gives m expected p = Keeps->>= _ _ p (λ found. Keeps-assert _ _)

  pub Keeps-between_or :
      (low : ℤ) (m : Exec String) (high : ℤ) (message : String)
      → Keeps P m
      → Keeps P (between_or low m high message)
  unfolding between_or
  Keeps-between_or low m high message p =
      Keeps->>= _ _ p (λ text. Keeps->>= _ _ (Keeps-whole text) (λ n. Keeps-assert _ _))

  pub Keeps-integer : (m : Exec String) → Keeps P m → Keeps P (integer m)
  unfolding integer
  Keeps-integer m p = Keeps->>= _ _ p (λ text. Keeps-whole text)

  pub Keeps-above : (m : Exec String) (low : ℤ) → Keeps P m → Keeps P (above m low)
  unfolding above
  Keeps-above m low p = Keeps->>= _ _ (Keeps-integer m p) (λ n. Keeps-assert _ _)

  pub Keeps-positive_until :
      (m : Exec String) (high : ℤ) → Keeps P m → Keeps P (positive_until m high)
  unfolding positive_until
  Keeps-positive_until m high p = Keeps->>= _ _ (Keeps-integer m p) (λ n. Keeps-assert _ _)

  pub Keeps-gives_or :
      (m : Exec String) (expected message : String)
      → Keeps P m
      → Keeps P (gives_or m expected message)
  unfolding gives_or
  Keeps-gives_or m expected message p = Keeps->>= _ _ p (λ found. Keeps-assert _ _)

  pub Keeps-content : (m : Exec Response) → Keeps P m → Keeps P (content m)
  unfolding content
  Keeps-content m p = Keeps->>= _ _ p (λ response. Keeps-pure _)

  pub Keeps-answer : (m : Exec Response) → Keeps P m → Keeps P (answer m)
  unfolding answer
  Keeps-answer m p = Keeps->>= _ _ p (λ response. Keeps-parse _)

  pub Keeps-refused : (m : Exec Response) → Keeps P m → Keeps P (refused m)
  unfolding refused
  Keeps-refused m p = Keeps->>= _ _ p (λ response. Keeps-pure tt)

  pub Keeps-states : (j : Json) (key : String) (expected : Json) → Keeps P (states j key expected)
  unfolding states
  Keeps-states j key expected = Keeps->>= _ _ (Keeps-lift _) (λ v. Keeps-assert _ _)

  pub Keeps-says : (j : Json) (key : String) (b : Bool) → Keeps P (says j key b)
  unfolding says
  Keeps-says j key b = Keeps->>= _ _ (Keeps-lift _) (λ v. Keeps-assert _ _)

  pub Keeps-is_same : (j expected : Json) → Keeps P (is_same j expected)
  unfolding is_same
  Keeps-is_same j expected = Keeps-assert _ _

  pub Keeps-text_of : (j : Json) → Keeps P (text_of j)
  Keeps-text_of null = Keeps-raise _
  Keeps-text_of (bool b) = Keeps-raise _
  Keeps-text_of (num x) = Keeps-raise _
  Keeps-text_of (str s) = Keeps-pure s
  Keeps-text_of (arr js) = Keeps-raise _
  Keeps-text_of (obj fs) = Keeps-raise _

  pub Keeps-full_text : (j : Json) → Keeps P (full_text j)
  Keeps-full_text null = Keeps-raise _
  Keeps-full_text (bool b) = Keeps-raise _
  Keeps-full_text (num x) = Keeps-raise _
  Keeps-full_text (str s) = Keeps->>= _ _ (Keeps-assert _ _) (λ _. Keeps-pure s)
  Keeps-full_text (arr js) = Keeps-raise _
  Keeps-full_text (obj fs) = Keeps-raise _

  pub Keeps-elements : (j : Json) → Keeps P (elements j)
  Keeps-elements null = Keeps-raise _
  Keeps-elements (bool b) = Keeps-raise _
  Keeps-elements (num x) = Keeps-raise _
  Keeps-elements (str s) = Keeps-if _ _ _ (Keeps-pure []) (Keeps-raise _)
  Keeps-elements (arr js) = Keeps-pure _
  Keeps-elements (obj end) = Keeps-pure []
  Keeps-elements (obj (field k j fs)) = Keeps-raise _

  pub Keeps-has_names_or :
      (j : Json) (names : List String) (message : String) → Keeps P (has_names_or j names message)
  unfolding has_names_or
  Keeps-has_names_or j names message = Keeps->>= _ _ (Keeps-lift _) (λ found. Keeps-assert _ _)

  pub Keeps-whole_of : (j : Json) → Keeps P (whole_of j)
  Keeps-whole_of null = Keeps-raise _
  Keeps-whole_of (bool b) = Keeps-pure _
  Keeps-whole_of (num x) = Keeps-lift _
  Keeps-whole_of (str s) = Keeps-raise _
  Keeps-whole_of (arr js) = Keeps-raise _
  Keeps-whole_of (obj fs) = Keeps-raise _

  pub Keeps-lists :
      (j : Json) (key : String) (expected : List Json) → Keeps P (lists j key expected)
  unfolding lists
  Keeps-lists j key expected =
      Keeps->>= _ _ (Keeps-elements j)
        (λ xs. Keeps->>= _ _ (Keeps-gather xs _ (λ x. Keeps-lift _)) (λ found. Keeps-assert _ _))

  pub Keeps-is_int : (j : Json) → Keeps P (is_int j)
  unfolding is_int
  Keeps-is_int null = Keeps-raise _
  Keeps-is_int (bool b) = Keeps-raise _
  Keeps-is_int (num (int z)) = Keeps-pure tt
  Keeps-is_int (num (float m k)) = Keeps-raise _
  Keeps-is_int (num (infinite neg)) = Keeps-raise _
  Keeps-is_int (num nan) = Keeps-raise _
  Keeps-is_int (str s) = Keeps-raise _
  Keeps-is_int (arr js) = Keeps-raise _
  Keeps-is_int (obj fs) = Keeps-raise _

  pub Keeps-is_boolean : (j : Json) → Keeps P (is_boolean j)
  unfolding is_boolean
  Keeps-is_boolean null = Keeps-raise _
  Keeps-is_boolean (bool b) = Keeps-pure tt
  Keeps-is_boolean (num x) = Keeps-raise _
  Keeps-is_boolean (str s) = Keeps-raise _
  Keeps-is_boolean (arr js) = Keeps-raise _
  Keeps-is_boolean (obj fs) = Keeps-raise _

  pub Keeps-hides : (j : Json) (names : List String) → Keeps P (hides j names)
  unfolding hides
  Keeps-hides j names = Keeps->>= _ _ (Keeps-lift _) (λ found. Keeps-assert _ _)

  pub Keeps-conceals : (j : Json) (key word : String) → Keeps P (conceals j key word)
  unfolding conceals
  Keeps-conceals j key word =
      Keeps->>= _ _ (Keeps-lift _) (λ v. Keeps->>= _ _ (Keeps-lift _) (λ held. Keeps-assert _ _))

  pub Keeps-floating : (text : String) → Keeps P (floating text)
  unfolding floating
  Keeps-floating text = record { at = λ w s h. h }

  pub Keeps-whole_value : (j : Json) → Keeps P (whole_value j)
  unfolding whole_value
  Keeps-whole_value j = record { at = λ w s h. h }

  pub Keeps-exceeds : (m : Exec String) (low : ℕ) → Keeps P m → Keeps P (exceeds m low)
  unfolding exceeds
  Keeps-exceeds m low p =
      Keeps->>= _ _ p (λ text. Keeps->>= _ _ (Keeps-floating text) (λ x. Keeps-assert _ _))

  pub Keeps-has_ids_or :
      (j : Json) (expected : List Json) (message : String) → Keeps P (has_ids_or j expected message)
  unfolding has_ids_or
  Keeps-has_ids_or j expected message = Keeps->>= _ _ (Keeps-elements j) (λ xs.
      Keeps->>= _ _
        (Keeps-gather xs _ (λ x.
          Keeps->>= _ _ (Keeps-lift _) (λ v. Keeps->>= _ _ (Keeps-lift _) (λ _. Keeps-pure v))))
        (λ found. Keeps-assert _ _))

  pub Keeps-item_with : (id : ℕ) (xs : List Json) → Keeps P (item_with id xs)
  unfolding item_with
  Keeps-item_with id [] = Keeps-raise _
  Keeps-item_with id (x ∷ xs) = Keeps->>= _ _ (Keeps-lift _) (λ later.
      Keeps->>= _ _ (Keeps-lift _) (λ v.
        Keeps-if later _ _ (Keeps-item_with id xs) (Keeps-if _ _ _ (Keeps-pure x) (Keeps-raise _))))

module _ {P : World → State → Type 0} where
  pub Keeps-rows_with : (j : Json) (ids : List Json) → Keeps P (rows_with j ids)
  unfolding rows_with
  Keeps-rows_with j ids = Keeps->>= _ _ (Keeps-elements j) (λ xs.
      Keeps->>= _ _
        (Keeps-gather xs _ (λ x.
          Keeps->>= _ _ (Keeps-lift _) (λ v. Keeps->>= _ _ (Keeps-lift _) (λ _. Keeps-pure _))))
        (λ marked. Keeps-pure _))

  pub Keeps-size_of : (j : Json) → Keeps P (size_of j)
  Keeps-size_of null = Keeps-raise _
  Keeps-size_of (bool b) = Keeps-raise _
  Keeps-size_of (num x) = Keeps-raise _
  Keeps-size_of (str s) = Keeps-pure _
  Keeps-size_of (arr js) = Keeps-pure _
  Keeps-size_of (obj fs) = Keeps-pure _

pub ruleset statement_rules = (
  Keeps-pure, Keeps-raise, Keeps-lift, Keeps-if, Keeps-assert, Keeps->>=, Keeps-finally,
  Keeps-uuid4, Keeps-dumps, Keeps-whole, Keeps-urlencode, Keeps-read_text, Keeps-note,
  Keeps-start_notes, Keeps-noted, Keeps-check, Keeps-parse, Keeps-each, Keeps-gather, Keeps-gives,
  Keeps-between_or, Keeps-integer, Keeps-above, Keeps-positive_until, Keeps-gives_or, Keeps-content,
  Keeps-answer, Keeps-refused, Keeps-states, Keeps-says, Keeps-is_same, Keeps-text_of,
  Keeps-full_text, Keeps-has_names_or, Keeps-lists, Keeps-is_int, Keeps-is_boolean, Keeps-hides,
  Keeps-conceals, Keeps-floating, Keeps-whole_value, Keeps-exceeds, Keeps-has_ids_or,
  Keeps-rows_with, Keeps-size_of, Keeps-item_with, Keeps-given, Keeps-whole_of, Keeps-elements,
)
