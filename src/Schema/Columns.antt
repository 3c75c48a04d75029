-- ===== src/Schema/Columns.antt =====
-- The parts that schema/builder.go and schema/traits.go have in common: types by name, traits, and the
-- changes of a type.
pub mod Types
pub mod Source
pub mod Reflected
pub mod Agreement
use dorm.Prelude.{
  ℕ, Bool, true, false, ◌&&◌, ◌||◌, Option, List, [], ◌∷◌, ◌++◌, map, any, Text, txt, is_one_of,
  if◌then◌else◌,
}
use dorm.Schema.Types.{TypeInfo, TypeKind, SqlType, plain, array_of, info}
use dorm.Schema.Names.{Unicode}
use dorm.Schema.Tags.{TagMap, is_set}

-- `strings.EqualFold` and `strconv.Unquote`, with what is taken from `unicode`.
pub record GoText : Type 0 where
  pub unicode : Unicode
  pub equal_fold : Text → Text → Bool
  pub unquote : Text → Option Text

unfoldable pub type_kind_from_name : Unicode → Text → TypeKind
unfolding is_one_of
type_kind_from_name u name =
    let low = map u.to_lower name in
    if is_one_of (txt "bool" ∷ txt "boolean" ∷ []) low
    then TypeKind.bool
    else if is_one_of
        (txt "int"
          ∷ txt "int2"
          ∷ txt "int4"
          ∷ txt "int8"
          ∷ txt "smallint"
          ∷ txt "integer"
          ∷ txt "bigint"
          ∷ txt "serial"
          ∷ txt "bigserial"
          ∷ [])
        low
    then TypeKind.int
    else if is_one_of
        (txt "float"
          ∷ txt "float4"
          ∷ txt "float8"
          ∷ txt "double"
          ∷ txt "numeric"
          ∷ txt "decimal"
          ∷ [])
        low
    then TypeKind.float
    else if is_one_of
        (txt "text" ∷ txt "string" ∷ txt "varchar" ∷ txt "char" ∷ txt "character varying" ∷ []) low
    then TypeKind.string
    else if is_one_of (txt "bytea" ∷ txt "bytes" ∷ txt "blob" ∷ []) low
    then TypeKind.bytes
    else if is_one_of
        (txt "timestamp" ∷ txt "timestamptz" ∷ txt "time" ∷ txt "date" ∷ txt "datetime" ∷ []) low
    then TypeKind.time
    else if is_one_of (txt "uuid" ∷ []) low
    then TypeKind.uuid
    else if is_one_of (txt "json" ∷ txt "jsonb" ∷ []) low
    then TypeKind.json
    else if is_one_of (txt "array" ∷ []) low
    then TypeKind.array
    else TypeKind.custom

-- `Type{Name: name, Kind: kind}`.
unfoldable pub typed : Text → TypeKind → SqlType
typed name kind = plain (record {
  name = name;
  kind = kind;
  length = 0;
  precision = 0;
  scale = 0;
  nullable = false;
  enum_values = [];
  metadata = [];
})

-- An assignment to a field of a type.
unfoldable pub on_info : (TypeInfo → TypeInfo) → SqlType → SqlType
on_info f (plain i) = plain (f i)
on_info f (array_of i elem) = array_of (f i) elem

abbrev pub with_kind : TypeKind → SqlType → SqlType
unfolding on_info
with_kind kind = on_info (λ i. record i { kind = kind })

abbrev pub with_name : Text → SqlType → SqlType
unfolding on_info
with_name name = on_info (λ i. record i { name = name })

-- `Type{Name: elem.Name + "[]", Kind: TypeArray, ArrayOf: &elem}`.
unfoldable pub array_type_of : SqlType → SqlType
unfolding typed
array_type_of elem = array_of (info (typed ((info elem).name ++ txt "[]") TypeKind.array)) elem

unfoldable pub has_trait : GoText → List Text → Text → Bool
has_trait g traits name = any (λ trait. g.equal_fold trait name) traits
