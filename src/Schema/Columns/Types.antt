-- ===== src/Schema/Columns/Types.antt =====
-- The type of a column from a type expression, as schema/builder.go infers it, and from the type of a
-- field, as schema/traits.go finds it by reflection.
use dorm.Prelude.{
  Bool, true, false, ◌&&◌, none, some, [], ◌∷◌, ◌++◌, Text, txt, text_eq, is_one_of, if◌then◌else◌,
}
use dorm.Schema.Types.{TypeKind, SqlType}
use dorm.Schema.Names.{to_snake_case}
use dorm.Schema.GoTypes.{
  Expr, ident, selector, star, array_type, other_expr, expr_string, GoKind, GoType, TypeName, basic,
  pointer, slice, struct_,
}
use dorm.Schema.CustomTypes.{TypeRegistry, resolve_custom_type_name, resolve_custom_type}
use dorm.Schema.Columns.{GoText, typed, on_info, array_type_of}

ident_type : GoText → Text → SqlType
unfolding typed is_one_of text_eq to_snake_case
ident_type g name =
    if text_eq name (txt "string")
    then typed (txt "text") TypeKind.string
    else if text_eq name (txt "bool")
    then typed (txt "boolean") TypeKind.bool
    else if text_eq name (txt "byte")
    then typed (txt "smallint") TypeKind.int
    else if is_one_of
        (txt "int" ∷ txt "int32" ∷ txt "int64" ∷ txt "uint" ∷ txt "uint32" ∷ txt "uint64" ∷ []) name
    then typed (txt "bigint") TypeKind.int
    else if is_one_of (txt "float32" ∷ txt "float64" ∷ []) name
    then typed (txt "double precision") TypeKind.float
    else if text_eq name (txt "Time")
    then typed (txt "timestamptz") TypeKind.time
    else if text_eq name (txt "UUID")
    then typed (txt "uuid") TypeKind.uuid
    else if g.equal_fold name (txt "time")
    then typed (txt "timestamptz") TypeKind.time
    else typed (to_snake_case g.unicode name) TypeKind.custom

selector_type : GoText → Text → Text → SqlType
unfolding typed text_eq to_snake_case
selector_type g full name =
    if text_eq full (txt "time.Time")
    then typed (txt "timestamptz") TypeKind.time
    else if text_eq full (txt "uuid.UUID")
    then typed (txt "uuid") TypeKind.uuid
    else if text_eq full (txt "json.RawMessage")
    then typed (txt "jsonb") TypeKind.json
    else typed (to_snake_case g.unicode name) TypeKind.custom

unfoldable pub infer_type : GoText → TypeRegistry → Expr → SqlType
unfolding typed on_info array_type_of resolve_custom_type_name expr_string ident_type selector_type
infer_type g r (ident name) = elim (resolve_custom_type_name g.unicode r name) [
  | some typ ↦ typ
  | none ↦ ident_type g name
]
infer_type g r (selector x name) =
    let full = expr_string x ++ txt "." ++ name in
    elim (resolve_custom_type_name g.unicode r full) [
      | some typ ↦ typ
      | none ↦ elim (resolve_custom_type_name g.unicode r name) [
        | some typ ↦ typ
        | none ↦ selector_type g full name
      ]
    ]
infer_type g r (array_type elem) = array_type_of (infer_type g r elem)
infer_type g r (star x) = on_info (λ i. record i { nullable = true }) (infer_type g r x)
infer_type g r (other_expr t) = typed (txt "text") TypeKind.unknown

kind_type : GoKind → SqlType
unfolding typed
kind_type GoKind.bool_kind = typed (txt "boolean") TypeKind.bool
kind_type GoKind.float32_kind = typed (txt "double precision") TypeKind.float
kind_type GoKind.float64_kind = typed (txt "double precision") TypeKind.float
kind_type GoKind.string_kind = typed (txt "text") TypeKind.string
kind_type GoKind.other_kind = typed (txt "text") TypeKind.unknown
kind_type k = typed (txt "bigint") TypeKind.int

struct_type : GoText → TypeName → SqlType
unfolding typed text_eq to_snake_case
struct_type g n =
    if text_eq n.pkg_path (txt "time") && text_eq n.name (txt "Time")
    then typed (txt "timestamptz") TypeKind.time
    else if g.equal_fold n.name (txt "UUID")
    then typed (txt "uuid") TypeKind.uuid
    else typed (to_snake_case g.unicode n.name) TypeKind.custom

-- `t.Elem().Kind() == reflect.Uint8`.
is_byte : GoType → Bool
is_byte (basic GoKind.uint8_kind n) = true
is_byte t = false

-- The resolvers come first, also for the elements of a slice.
unfoldable pub reflect_type_to_schema_type : GoText → TypeRegistry → GoType → SqlType
unfolding typed array_type_of resolve_custom_type kind_type struct_type is_byte
reflect_type_to_schema_type g r (pointer t) = reflect_type_to_schema_type g r t
reflect_type_to_schema_type g r (basic k n) =
    elim (resolve_custom_type g.unicode r (some (basic k n))) [
      | some typ ↦ typ
      | none ↦ kind_type k
    ]
reflect_type_to_schema_type g r (struct_ n) =
    elim (resolve_custom_type g.unicode r (some (struct_ n))) [
      | some typ ↦ typ
      | none ↦ struct_type g n
    ]
reflect_type_to_schema_type g r (slice n t) =
    elim (resolve_custom_type g.unicode r (some (slice n t))) [
      | some typ ↦ typ
      | none ↦
          if is_byte t
          then typed (txt "bytea") TypeKind.bytes
          else array_type_of (reflect_type_to_schema_type g r t)
    ]
