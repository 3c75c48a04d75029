-- ===== src/Schema/Builder/Tables.antt =====
-- schema/builder.go: the table or the view of a struct type. `directives` are the submatches of
-- `directiveRe`, a key and a value each, in their order; the expression is a parameter.
use dorm.Prelude.{
  Bool, true, not, ◌&&◌, ◌||◌, Option, none, some, List, [], ◌∷◌, ◌++◌, any, flat, keep_if, map,
  Text, txt, text_eq, text_le, trim, has_prefix, drop, join, is_nil, if◌then◌else◌, ℕ,
}
use dorm.Schema.Types.{Column, Constraint, ConstraintKind, Table, View, primary_key, unique}
use dorm.Schema.Names.{to_snake_case, pluralize}
use dorm.Schema.Keys.{sort_by}
use dorm.Schema.Columns.{GoText}
use dorm.Schema.Builder.{StructType, StructMap}
use dorm.Schema.Builder.Columns.{Source, Parts, build_columns_from_struct}

-- `commentText`: a group that is nil is `none`.
comment_line : Text → List Text
unfolding trim has_prefix
comment_line c =
    let text = trim (if has_prefix (txt "//") c then drop 2 c else c) in
    if is_nil text then [] else text ∷ []

group_lines : Option (List Text) → List Text
unfolding comment_line
group_lines none = []
group_lines (some lines) = flat comment_line lines

unfoldable pub comment_text : List (Option (List Text)) → Text
unfolding group_lines join
comment_text groups = join (10 ∷ []) (flat group_lines groups)

directive_in : Text → List (Text × Text) → Text
unfolding text_eq trim
directive_in key [] = []
directive_in key ((k, v) ∷ rest) = if text_eq k key then trim v else directive_in key rest

unfoldable pub directive_value : (Text → List (Text × Text)) → Text → Text → Text
unfolding directive_in
directive_value directives text key = directive_in key (directives text)

unfoldable pub has_primary_key : List Column → Bool
has_primary_key cols = any (λ c. c.primary_key) cols

unfoldable pub primary_key_columns : List Column → List Text
unfolding sort_by text_le
primary_key_columns cols = sort_by text_le (map (λ c. c.name) (keep_if (λ c. c.primary_key) cols))

unfoldable pub constraint_exists : List Constraint → Text → Bool
unfolding text_eq
constraint_exists constraints name = any (λ c. text_eq c.name name) constraints

-- `columnByName` and the assignments to the column that it finds.
unfoldable pub make_id_key : List Column → List Column
unfolding text_eq
make_id_key [] = []
make_id_key (c ∷ cs) =
    let rest = make_id_key cs in
    if text_eq c.name (txt "id")
    then (record c { primary_key = true; unique = true }) ∷ cs
    else c ∷ rest

unfoldable pub constraint_of : Text → ConstraintKind → List Text → Constraint
constraint_of name kind columns = record {
  name = name;
  kind = kind;
  columns = columns;
  referenced_table = [];
  referenced_columns = [];
  on_delete = [];
  on_update = [];
  expression = [];
  metadata = [];
}

unfoldable pub unique_name : Text → Text → Text
unique_name table column = table ++ txt "_" ++ column ++ txt "_key"

-- The loop over the columns that adds the constraints of the unique ones.
unfoldable pub unique_constraints : Text → List Constraint → List Column → List Constraint
unfolding constraint_exists constraint_of unique_name
unique_constraints table acc [] = acc
unique_constraints table acc (c ∷ cs) =
    let skipped = not c.unique || c.primary_key in
    let name = unique_name table c.name in
    let kept = unique_constraints table acc cs in
    let added = unique_constraints table (acc ++ constraint_of name unique (c.name ∷ []) ∷ []) cs in
    if skipped then kept else if constraint_exists acc name then kept else added

unfoldable pub key_constraints : Text → List Column → List Constraint
unfolding primary_key_columns constraint_of
key_constraints table cols =
    let pk = primary_key_columns cols in
    if is_nil pk then [] else constraint_of (table ++ txt "_pkey") primary_key pk ∷ []

-- The columns with a key: where there is none, the column "id" becomes it.
unfoldable pub keyed_columns : List Column → List Column
unfolding has_primary_key make_id_key
keyed_columns cols = if has_primary_key cols then cols else make_id_key cols

unfoldable pub table_name : GoText → (Text → List (Text × Text)) → Text → Text → Text
unfolding directive_value pluralize to_snake_case
table_name g directives doc type_name =
    let name = directive_value directives doc (txt "table") in
    if is_nil doc || is_nil name then pluralize (to_snake_case g.unicode type_name) else name

table_metadata : (Text → List (Text × Text)) → Text → List (Text × Text)
unfolding directive_value
table_metadata directives doc =
    let title = directive_value directives doc (txt "name") in
    if is_nil doc || is_nil title then [] else (txt "name", title) ∷ []

-- The table of a struct type whose columns and indexes are built.
unfoldable pub assemble_table :
    GoText → (Text → List (Text × Text)) → Text → Text → Text → Parts → Table
unfolding table_name table_metadata keyed_columns key_constraints unique_constraints
assemble_table g directives type_name package_name doc parts =
    let name = table_name g directives doc type_name in
    let columns = keyed_columns (parts.0) in
    record {
      name = name;
      go_type_name = type_name;
      package_name = package_name;
      columns = columns;
      indexes = parts.1;
      constraints = unique_constraints name (key_constraints name columns) columns;
      comments = [];
      metadata = table_metadata directives doc;
    }

-- `none` when the fuel is out. The source's table is the name of the table.
unfoldable pub build_table_from_type :
    ℕ
    → (Text → List (Text × Text))
    → Source
    → Text
    → StructType
    → Text
    → Text
    → StructMap
    → Option Table
unfolding table_name build_columns_from_struct assemble_table
build_table_from_type fuel directives s type_name st package_name doc types =
    let named = record s { table = table_name s.text directives doc type_name } in
    elim (build_columns_from_struct fuel named type_name st types [] []) [
      | some parts ↦ some (assemble_table s.text directives type_name package_name doc parts)
      | none ↦ none
    ]

-- The name that the directives ask for, with its entry of the metadata.
view_name : (Text → List (Text × Text)) → Text → Option Text
unfolding directive_value
view_name directives doc =
    let name = directive_value directives doc (txt "name") in
    let table = directive_value directives doc (txt "table") in
    if is_nil doc
    then none
    else if not (is_nil name)
    then some name
    else if not (is_nil table)
    then some table
    else none

unfoldable pub build_view_from_type :
    GoText → (Text → List (Text × Text)) → Text → Text → Text → Text → View
unfolding view_name directive_value to_snake_case
build_view_from_type g directives type_name package_name doc sql =
    let asked = view_name directives doc in
    let own = (txt "type", type_name) ∷ (txt "package", package_name) ∷ [] in
    record {
      name = elim asked [ some n ↦ n | none ↦ to_snake_case g.unicode type_name ];
      sql = sql;
      materialized =
          not (is_nil doc)
          && g.equal_fold (directive_value directives doc (txt "materialized")) (txt "true");
      metadata = elim asked [ some n ↦ own ++ (txt "name", n) ∷ [] | none ↦ own ];
    }
