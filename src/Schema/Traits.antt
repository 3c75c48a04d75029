-- ===== src/Schema/Traits.antt =====
-- schema/traits.go: the columns and the field paths of a struct type, by reflection. `fields_of` gives
-- the fields of a named struct. The cache of the metadata by type is left out.
pub mod Paths
pub mod Ends
use dorm.Prelude.{
  ℕ, zero, suc, ◌+◌, Bool, true, false, not, ◌&&◌, Option, none, some, List, [], ◌∷◌, ◌++◌, map,
  any, Text, txt, text_eq, if◌then◌else◌,
}
use dorm.Schema.Types.{Column}
use dorm.Schema.Names.{to_snake_case}
use dorm.Schema.GoTypes.{GoType, TypeName, GoField, struct_, elem_of, name_of, same_type}
use dorm.Schema.CustomTypes.{TypeRegistry}
use dorm.Schema.Columns.{GoText}
use dorm.Schema.Columns.Reflected.{column_from_reflect_field}

-- `typeMetadata`: the columns, and what was written to the map of the paths, a path being the indexes
-- of the fields from the outermost struct on.
pub record TypeMetadata : Type 0 where
  pub columns : List Column
  pub field_paths : List (Text × List ℕ)

abbrev pub no_metadata : TypeMetadata
no_metadata = record { columns = []; field_paths = [] }

-- What reflection gives, with the custom types.
pub record Reflection : Type 0 where
  pub text : GoText
  pub registry : TypeRegistry
  pub fields_of : TypeName → List GoField

abbrev pub is_struct : GoType → Bool
is_struct (struct_ n) = true
is_struct t = false

is_primitive_embedded_type : TypeName → Bool
unfolding text_eq
is_primitive_embedded_type n = text_eq n.pkg_path (txt "time") && text_eq n.name (txt "Time")

unfoldable pub field_key : Reflection → Text → Text
unfolding to_snake_case
field_key r go_name = map r.text.unicode.to_lower (to_snake_case r.text.unicode go_name)

-- What is collected of a struct that is embedded, by its name, the traits and the path to it.
abbrev pub Collect : Type 0
Collect = TypeName → List Text → List ℕ → Option TypeMetadata

unfoldable pub is_embedded : GoField → Bool
unfolding elem_of name_of is_primitive_embedded_type
is_embedded field =
    let t = elem_of field.type_ in
    field.anonymous && is_struct t && not (is_primitive_embedded_type (name_of t))

unfoldable pub collect_field :
    Collect → Reflection → List Text → List ℕ → GoField → Option TypeMetadata
unfolding elem_of name_of is_embedded column_from_reflect_field field_key
collect_field nested r traits path field =
    let inner = name_of (elem_of field.type_) in
    if not field.exported
    then some no_metadata
    else if is_embedded field
    then nested inner (traits ++ inner.name ∷ []) path
    else elim (column_from_reflect_field r.text r.registry field traits) [
      | none ↦ some no_metadata
      | some col ↦
          some (record { columns = col ∷ []; field_paths = (field_key r col.go_name, path) ∷ [] })
    ]

unfoldable pub join_metadata : Option TypeMetadata → Option TypeMetadata → Option TypeMetadata
join_metadata none rest = none
join_metadata (some a) none = none
join_metadata (some a) (some b) =
    some (record { columns = a.columns ++ b.columns; field_paths = a.field_paths ++ b.field_paths })

-- The loop over the fields, from field `i` on.
unfoldable pub collect_fields :
    Collect → Reflection → List Text → List ℕ → ℕ → List GoField → Option TypeMetadata
unfolding collect_field join_metadata
collect_fields nested r traits path i [] = some no_metadata
collect_fields nested r traits path i (field ∷ rest) =
    join_metadata (collect_field nested r traits (path ++ i ∷ []) field)
      (collect_fields nested r traits path (i + 1) rest)

unfoldable pub is_seen_type : List TypeName → TypeName → Bool
unfolding same_type
is_seen_type seen n = any (λ m. same_type m n) seen

-- On fuel, of which each embedded struct takes one: `none` when it runs out. The type is a struct, or a
-- chain of pointers to one.
unfoldable pub collect_type_metadata :
    ℕ → Reflection → TypeName → List Text → List ℕ → List TypeName → Option TypeMetadata
unfolding collect_fields is_seen_type
collect_type_metadata zero r n traits path seen = none
collect_type_metadata (suc fuel) r n traits path seen =
    if is_seen_type seen n
    then some no_metadata
    else collect_fields (λ m up p. collect_type_metadata fuel r m up p (n ∷ seen)) r traits path 0
        (r.fields_of n)

-- `nil` metadata is `some none` here, and fuel that runs out is `none`.
unfoldable pub discover_type_metadata :
    ℕ → Reflection → Option GoType → Option (Option TypeMetadata)
unfolding collect_type_metadata elem_of name_of
discover_type_metadata fuel r none = some none
discover_type_metadata fuel r (some t) =
    if not (is_struct (elem_of t))
    then some none
    else elim (collect_type_metadata fuel r (name_of (elem_of t)) [] [] []) [
      | none ↦ none
      | some meta ↦ some (some meta)
    ]

-- `ColumnsFromType` and `StructFieldIndexMap`; nil is the empty list.
unfoldable pub columns_from_type : ℕ → Reflection → Option GoType → Option (List Column)
unfolding discover_type_metadata
columns_from_type fuel r t = elim (discover_type_metadata fuel r t) [
  | none ↦ none
  | some none ↦ some []
  | some (some meta) ↦ some meta.columns
]

unfoldable pub struct_field_index_map :
    ℕ → Reflection → Option GoType → Option (List (Text × List ℕ))
unfolding discover_type_metadata
struct_field_index_map fuel r t = elim (discover_type_metadata fuel r t) [
  | none ↦ none
  | some none ↦ some []
  | some (some meta) ↦ some meta.field_paths
]
