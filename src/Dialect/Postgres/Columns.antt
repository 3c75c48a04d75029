-- ===== src/Dialect/Postgres/Columns.antt =====
-- dialect/postgres/postgres.go: the types of columns and their definitions. `to_lower` is Go's, by rune.
use dorm.Prelude.{
  Bool, not, ◌&&◌, List, [], ◌∷◌, ◌++◌, map, any, Text, txt, text_eq, join, trim, is_nil,
  if◌then◌else◌,
}
use dorm.Schema.Types.{
  TypeKind, bool, int, float, bytes, time, uuid, json, array, SqlType, plain, array_of,
  type_kind_text, Column,
}
use dorm.Schema.Names.{Unicode, ends_with}
use dorm.Dialect.Postgres.{quote_ident}

-- The type of a kind that has no name.
default_type : TypeKind → Text
default_type bool = txt "boolean"
default_type int = txt "bigint"
default_type float = txt "double precision"
default_type bytes = txt "bytea"
default_type time = txt "timestamptz"
default_type uuid = txt "uuid"
default_type json = txt "jsonb"
default_type array = txt "text[]"
default_type _ = txt "text"

is_array : TypeKind → Bool
unfolding type_kind_text text_eq
is_array k = text_eq (type_kind_text k) (txt "array")

is_one_of : Text → List Text → Bool
unfolding text_eq
is_one_of t names = any (λ n. text_eq n t) names

-- The type of a name that is not blank.
named_type : Unicode → TypeKind → Text → Text
unfolding is_one_of text_eq is_array ends_with
named_type u k name =
    let low = map u.to_lower name in
    if text_eq low (txt "string")
    then txt "text"
    else if text_eq low (txt "json")
    then txt "jsonb"
    else if is_one_of low (txt "bool" ∷ txt "boolean" ∷ [])
    then txt "boolean"
    else if is_one_of low (
        txt "int"
        ∷ txt "int2"
        ∷ txt "int4"
        ∷ txt "int8"
        ∷ txt "bigint"
        ∷ txt "smallint"
        ∷ txt "integer"
        ∷ [])
    then name
    else if is_one_of low (
        txt "float"
        ∷ txt "float4"
        ∷ txt "float8"
        ∷ txt "double precision"
        ∷ txt "numeric"
        ∷ txt "decimal"
        ∷ [])
    then name
    else if is_one_of low (txt "time" ∷ txt "timestamp" ∷ txt "timestamptz" ∷ txt "date" ∷ [])
    then txt "timestamptz"
    else if is_array k && not (ends_with (txt "[]") name)
    then name ++ txt "[]"
    else name

unfoldable pub render_type : Unicode → SqlType → Text
unfolding trim default_type named_type is_array
render_type u (plain i) =
    if is_nil (trim i.name) then default_type i.kind else named_type u i.kind (trim i.name)
render_type u (array_of i element) =
    let inner = render_type u element in
    if is_nil (trim i.name)
    then if is_array i.kind then inner ++ txt "[]" else default_type i.kind
    else named_type u i.kind (trim i.name)

unfoldable pub when : Bool → Text → List Text
when b t = if b then t ∷ [] else []

unfoldable pub column_definition : Unicode → Column → Text
unfolding quote_ident render_type when join
column_definition u c = join (txt " ") (
    quote_ident c.name
    ∷ render_type u c.type_
    ∷ (when c.identity (txt "GENERATED BY DEFAULT AS IDENTITY")
        ++ (when (not c.nullable && not c.primary_key) (txt "NOT NULL")
            ++ (when (not (is_nil c.default_)) (txt "DEFAULT " ++ c.default_)
                ++ when (not (is_nil c.generated))
                    (txt "GENERATED ALWAYS AS (" ++ (c.generated ++ txt ") STORED"))))))
