-- ===== src/Harness/Rights/Schema.antt =====
-- The statements by which scenarios break the schema: a column or a table gets a name of the
-- scenario's own, or a trigger is made. Each is undone by one other statement.
use campus_hub.Prelude.{
  ℕ, String, ◌<>◌, ◌≡◌, refl, Bool, true, false, ◌&&◌, ◌||◌, not, List, [], ◌∷◌, ◌++◌, ◌==◌, nat_eq,
  list_eq, if◌then◌else◌, arith,
}
use campus_hub.Py.Text.Show.{codes-append}
use campus_hub.Py.{codes, has_prefix, has_infix}

abbrev pub Word : Type 0
Word = List ℕ

-- A space, the end of a line, `;`
abbrev is_separator : ℕ → Bool
is_separator c = c == 32 || c == 10 || c == b';'

abbrev joined_to : Word → List Word → List Word
joined_to [] rest = rest
joined_to (c ∷ cs) rest = (c ∷ cs) ∷ rest

-- The words of a text, the first of which goes on a given one.
unfoldable pub words_from : Word → List ℕ → List Word
words_from word [] = joined_to word []
words_from word (c ∷ cs) =
    let split = words_from [] cs in
    let on = words_from (word ++ (c ∷ [])) cs in if is_separator c then joined_to word split else on

abbrev pub words : String → List Word
words s = words_from [] (codes s)

-- `ALTER TABLE table RENAME COLUMN column TO fault`
abbrev column_undone : List Word → List Word × Word
column_undone (a ∷ t ∷ table ∷ r ∷ k ∷ column ∷ to ∷ fault ∷ []) =
    (a ∷ t ∷ table ∷ r ∷ k ∷ fault ∷ to ∷ column ∷ [], fault)
column_undone _ = ([], [])

-- `RENAME TABLE table TO fault`
abbrev table_undone : List Word → List Word × Word
table_undone (r ∷ t ∷ table ∷ to ∷ fault ∷ []) = (r ∷ t ∷ fault ∷ to ∷ table ∷ [], fault)
table_undone _ = ([], [])

-- `DELIMITER $$ CREATE TRIGGER fault ...`
abbrev trigger_undone : List Word → List Word × Word
trigger_undone (d ∷ x ∷ c ∷ t ∷ fault ∷ rest) =
    (codes "DROP" ∷ codes "TRIGGER" ∷ codes "IF" ∷ codes "EXISTS" ∷ fault ∷ [], fault)
trigger_undone _ = ([], [])

-- What undoes a statement, and the name that the statement makes.
unfoldable pub undo : String → List Word × Word
unfolding has_prefix
undo s =
    if has_prefix (codes "ALTER TABLE ") (codes s)
    then column_undone (words s)
    else if has_prefix (codes "RENAME TABLE ") (codes s)
    then table_undone (words s)
    else if has_prefix (codes "DELIMITER ") (codes s)
    then trigger_undone (words s)
    else ([], [])

unfoldable pub undoes : String → String → Bool
undoes s fault = words s == (undo fault).0

-- Faults have a name with `_owned_`, which no table, column or trigger of the program has.
unfoldable pub is_fault : String → Bool
unfolding has_infix
is_fault s = has_infix (codes "_owned_") (undo s).1

-- It differs from `p` where both have a character.
unfoldable pub departs : List ℕ → List ℕ → Bool
departs [] s = false
departs (p ∷ ps) [] = false
departs (p ∷ ps) (c ∷ s) = not (p == c) || departs ps s

departs-append : (p s t : List ℕ) → departs p s ≡ true → departs p (s ++ t) ≡ true
unfolding departs
departs-append [] s t h = absurd (ground arith)
departs-append (p ∷ ps) [] t h = absurd (ground arith)
departs-append (p ∷ ps) (c ∷ s) t h = ground (arith, departs-append ps s t)

departs-has_prefix : (p s : List ℕ) → departs p s ≡ true → has_prefix p s ≡ false
unfolding departs has_prefix
departs-has_prefix [] s h = absurd (ground arith)
departs-has_prefix (p ∷ ps) [] h = refl
departs-has_prefix (p ∷ ps) (c ∷ s) h = ground (arith, departs-has_prefix ps s)

-- It begins as no statement on the schema does.
abbrev pub is_plain : String → Bool
is_plain s =
    departs (codes "ALTER TABLE ") (codes s)
    && departs (codes "RENAME TABLE ") (codes s)
    && departs (codes "DELIMITER ") (codes s)

pub plain_lem : (s : String) → is_plain s ≡ true → is_fault s ≡ false
unfolding is_fault undo has_infix has_prefix
plain_lem s h =
    let a = departs-has_prefix (codes "ALTER TABLE ") (codes s) (ground arith) in
    let r = departs-has_prefix (codes "RENAME TABLE ") (codes s) (ground arith) in
    let d = departs-has_prefix (codes "DELIMITER ") (codes s) (ground arith) in rw (a, r, d) refl

pub plain-append : (s t : String) → is_plain s ≡ true → is_fault (s <> t) ≡ false
plain-append s t h = plain_lem (s <> t) (rw (codes-append s t) (all_depart (codes s) h))
  where
    all_depart :
        (cs : List ℕ)
        → (departs (codes "ALTER TABLE ") cs
            && departs (codes "RENAME TABLE ") cs
            && departs (codes "DELIMITER ") cs)
          ≡ true
        → (departs (codes "ALTER TABLE ") (cs ++ codes t)
            && departs (codes "RENAME TABLE ") (cs ++ codes t)
            && departs (codes "DELIMITER ") (cs ++ codes t))
          ≡ true
    all_depart cs h = ground (
      arith,
      departs-append (codes "ALTER TABLE ") cs (codes t),
      departs-append (codes "RENAME TABLE ") cs (codes t),
      departs-append (codes "DELIMITER ") cs (codes t),
    )
