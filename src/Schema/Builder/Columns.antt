-- ===== src/Schema/Builder/Columns.antt =====
-- schema/builder.go: the columns of a struct and of what it embeds.
use dorm.Prelude.{
  ℕ, zero, suc, Option, none, some, List, [], ◌∷◌, ◌++◌, Text, is_one_of, if◌then◌else◌,
}
use dorm.Schema.Types.{Column, Index}
use dorm.Schema.GoTypes.{Expr, AstField}
use dorm.Schema.CustomTypes.{TypeRegistry}
use dorm.Schema.Columns.{GoText}
use dorm.Schema.Columns.Source.{build_column}
use dorm.Schema.Builder.{StructType, StructMap, parse_embedded_type_ref, resolve_embedded_struct}

-- What stays the same while a table is built: the parameters, the imports of its file, the resolver and
-- the name of the table.
pub record Source : Type 0 where
  pub text : GoText
  pub registry : TypeRegistry
  pub imports : List (Text × Text)
  pub load : Text → Option StructMap
  pub table : Text

-- The columns and the indexes that the fields add to the table.
abbrev pub Parts : Type 0
Parts = List Column × List Index

abbrev pub no_parts : Parts
no_parts = ([], [])

-- The names of one field declaration.
unfoldable pub named_columns : Source → AstField → List Text → List Text → Parts
unfolding build_column
named_columns s field traits [] = no_parts
named_columns s field traits (name ∷ names) =
    let rest = named_columns s field traits names in
    elim (build_column s.text s.registry s.table name field.type_ field.tag traits) [
      | some built ↦ (built.0 ∷ rest.0, built.1 ++ rest.1)
      | none ↦ rest
    ]

-- How the columns of an embedded struct are built: by its name, itself, its package and the traits.
abbrev pub Nested : Type 0
Nested = Text → StructType → StructMap → List Text → Option Parts

unfoldable pub embedded_columns : Nested → Source → StructMap → List Text → Expr → Option Parts
unfolding parse_embedded_type_ref resolve_embedded_struct
embedded_columns nested s local traits e = elim (parse_embedded_type_ref e) [
  | none ↦ some no_parts
  | some ref ↦ elim (resolve_embedded_struct s.load ref local s.imports) [
    | none ↦ some no_parts
    | some found ↦ nested ref.name (found.0) (found.1) (traits ++ ref.name ∷ [])
  ]
]

unfoldable pub field_parts :
    Nested → Source → StructMap → List Text → AstField → List Text → Option Parts
unfolding embedded_columns named_columns
field_parts nested s local traits field [] = embedded_columns nested s local traits field.type_
field_parts nested s local traits field (n ∷ ns) = some (named_columns s field traits (n ∷ ns))

unfoldable pub join_parts : Option Parts → Option Parts → Option Parts
join_parts none rest = none
join_parts (some a) none = none
join_parts (some a) (some b) = some (a.0 ++ b.0, a.1 ++ b.1)

-- The loop over the fields.
unfoldable pub fields_parts : Nested → Source → StructMap → List Text → StructType → Option Parts
unfolding field_parts join_parts
fields_parts nested s local traits [] = some no_parts
fields_parts nested s local traits (field ∷ rest) =
    join_parts (field_parts nested s local traits field field.names)
      (fields_parts nested s local traits rest)

-- On fuel, of which each embedded struct takes one: `none` when it runs out. `seen` are the names of the
-- structs that are being built.
unfoldable pub build_columns_from_struct :
    ℕ → Source → Text → StructType → StructMap → List Text → List Text → Option Parts
unfolding fields_parts is_one_of
build_columns_from_struct zero s name st local traits seen = none
build_columns_from_struct (suc fuel) s name st local traits seen =
    if is_one_of seen name
    then some no_parts
    else fields_parts (λ n t types up. build_columns_from_struct fuel s n t types up (name ∷ seen))
        s local traits st
