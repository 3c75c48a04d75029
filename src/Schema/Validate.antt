-- ===== src/Schema/Validate.antt =====
-- schema/types.go: `Validate`, which rejects empty and repeated names of tables and columns. Schemas,
-- tables and columns are not nil here. `quote` is `%q` of Go's fmt, which is not in the repository.
pub mod Names
use dorm.Prelude.{
  Bool, Option, none, some, List, [], ◌∷◌, ◌++◌, any, Text, txt, text_eq, is_nil, if◌then◌else◌,
}
use dorm.Errors.{Kind, Error, new}
use dorm.Schema.Types.{Schema, Table, Column}

-- A key that the map of the names seen so far has.
unfoldable pub is_seen : List Text → Text → Bool
unfolding text_eq
is_seen seen name = any (λ n. text_eq n name) seen

invalid : Text → Error
invalid message = new Kind.invalid_schema message

-- The loop over the columns of a table.
validate_columns : (Text → Text) → Text → List Text → List Column → Option Error
unfolding is_seen invalid
validate_columns quote table seen [] = none
validate_columns quote table seen (c ∷ cs) =
    let rest = validate_columns quote table (c.name ∷ seen) cs in
    if is_nil c.name
    then some (invalid (txt "schema: table " ++ table ++ txt " has column with empty name"))
    else if is_seen seen c.name
    then some
        (invalid (txt "schema: table " ++ table ++ txt " has duplicate column " ++ quote c.name))
    else rest

-- The loop over the tables.
validate_tables : (Text → Text) → List Text → List Table → Option Error
unfolding is_seen invalid validate_columns
validate_tables quote seen [] = none
validate_tables quote seen (t ∷ ts) =
    let rest = validate_tables quote (t.name ∷ seen) ts in
    if is_nil t.name
    then some (invalid (txt "schema: table missing name"))
    else if is_seen seen t.name
    then some (invalid (txt "schema: duplicate table " ++ quote t.name))
    else elim (validate_columns quote t.name [] t.columns) [ some e ↦ some e | none ↦ rest ]

-- `none` is the nil error.
unfoldable pub validate : (Text → Text) → Schema → Option Error
unfolding validate_tables
validate quote s = validate_tables quote [] s.tables
