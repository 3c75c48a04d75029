-- ===== src/Schema/Builder/Packages.antt =====
-- schema/builder.go, schema/import_resolver.go and schema/types.go: what is collected from the files of
-- a package, and the schema that they give. Declarations that declare no type, and types that are no
-- structs, are `none` or left out, as the code skips them.
use dorm.Prelude.{
  ℕ, Bool, not, ◌&&◌, ◌||◌, Option, none, some, List, [], ◌∷◌, ◌++◌, flat, Text, txt, is_nil,
  is_one_of, if◌then◌else◌,
}
use dorm.Schema.Types.{Table, View}
use dorm.Schema.GoTypes.{AstField}
use dorm.Schema.CustomTypes.{TypeRegistry}
use dorm.Schema.Columns.{GoText}
use dorm.Schema.Builder.{StructType, StructMap, embedded_type_name}
use dorm.Schema.Builder.Columns.{Source}
use dorm.Schema.Builder.Tables.{
  comment_text, directive_value, build_table_from_type, build_view_from_type,
}

pub record ImportSpec : Type 0 where
  pub path : Text
  pub name : Option Text

pub record TypeSpec : Type 0 where
  pub name : Text
  pub doc : Option (List Text)
  pub struct_type : Option StructType

pub record GenDecl : Type 0 where
  pub doc : Option (List Text)
  pub specs : List TypeSpec

pub record AstFile : Type 0 where
  pub package_name : Text
  pub doc : Option (List Text)
  pub imports : List ImportSpec
  pub decls : List GenDecl

-- What is taken from Go's own packages: `base` is `path.Base`, `directives` are the submatches of the
-- expression for directives.
pub record GoSource : Type 0 where
  pub text : GoText
  pub base : Text → Text
  pub is_exported : Text → Bool
  pub directives : Text → List (Text × Text)

import_entry : GoSource → ImportSpec → List (Text × Text)
unfolding is_one_of
import_entry g spec = elim (g.text.unquote spec.path) [
  | none ↦ []
  | some path ↦ if is_nil path then [] else elim spec.name [
    | none ↦ if is_nil (g.base path) then [] else (g.base path, path) ∷ []
    | some alias ↦
        if is_one_of (txt "_" ∷ txt "." ∷ []) alias || is_nil alias then [] else (alias, path) ∷ []
  ]
]

unfoldable pub collect_file_import_map : GoSource → AstFile → List (Text × Text)
unfolding import_entry
collect_file_import_map g file = flat (import_entry g) file.imports

spec_structs : TypeSpec → StructMap
spec_structs spec = elim spec.struct_type [ some st ↦ (spec.name, st) ∷ [] | none ↦ [] ]

unfoldable pub collect_package_struct_types : List AstFile → StructMap
unfolding spec_structs
collect_package_struct_types files =
    flat (λ (f : AstFile). flat (λ (d : GenDecl). flat spec_structs d.specs) f.decls) files

field_embeds : AstField → List Text
unfolding embedded_type_name
field_embeds field =
    let name = embedded_type_name field.type_ in
    if not (is_nil field.names) || is_nil name then [] else name ∷ []

spec_embeds : TypeSpec → List Text
unfolding field_embeds
spec_embeds spec = elim spec.struct_type [ some st ↦ flat field_embeds st | none ↦ [] ]

unfoldable pub collect_package_embedded_type_names : List AstFile → List Text
unfolding spec_embeds
collect_package_embedded_type_names files =
    flat (λ (f : AstFile). flat (λ (d : GenDecl). flat spec_embeds d.specs) f.decls) files

-- What one type adds to the schema.
pub data Built : Type 0 where
  a_view : View → Built
  a_table : Table → Built
  nothing : Built

-- What the loop of `Build` knows in a file.
pub record Scope : Type 0 where
  pub go : GoSource
  pub registry : TypeRegistry
  pub load : Text → Option StructMap
  pub structs : StructMap
  pub embedded : List Text
  pub file : AstFile

source_of : Scope → Source
unfolding collect_file_import_map
source_of s = record {
  text = s.go.text;
  registry = s.registry;
  imports = collect_file_import_map s.go s.file;
  load = s.load;
  table = [];
}

-- `none` when the fuel for embedded structs is out.
build_struct : ℕ → Scope → Text → Text → StructType → Option Built
unfolding directive_value build_view_from_type build_table_from_type source_of is_one_of
build_struct fuel s doc name st =
    let view_sql = directive_value s.go.directives doc (txt "view") in
    let embedded =
      is_one_of s.embedded name && is_nil (directive_value s.go.directives doc (txt "table")) in
    let package_name = s.file.package_name in
    let table =
      build_table_from_type fuel s.go.directives (source_of s) name st package_name doc s.structs in
    if not (is_nil view_sql)
    then some
        (a_view (build_view_from_type s.go.text s.go.directives name package_name doc view_sql))
    else if embedded
    then some nothing
    else elim table [ some t ↦ some (a_table t) | none ↦ none ]

build_spec : ℕ → Scope → Option (List Text) → TypeSpec → Option Built
unfolding comment_text build_struct
build_spec fuel s decl_doc spec = elim spec.struct_type [
  | none ↦ some nothing
  | some st ↦
      if s.go.is_exported spec.name
      then build_struct fuel s (comment_text (decl_doc ∷ spec.doc ∷ s.file.doc ∷ [])) spec.name st
      else some nothing
]

cons_built : Option Built → Option (List Built) → Option (List Built)
cons_built (some b) (some bs) = some (b ∷ bs)
cons_built b bs = none

build_specs : ℕ → Scope → Option (List Text) → List TypeSpec → Option (List Built)
unfolding build_spec cons_built
build_specs fuel s doc [] = some []
build_specs fuel s doc (spec ∷ specs) =
    cons_built (build_spec fuel s doc spec) (build_specs fuel s doc specs)

unfoldable pub append_built : Option (List Built) → Option (List Built) → Option (List Built)
append_built (some a) (some b) = some (a ++ b)
append_built a b = none

unfoldable pub build_decls : ℕ → Scope → List GenDecl → Option (List Built)
unfolding build_specs append_built
build_decls fuel s [] = some []
build_decls fuel s (d ∷ ds) =
    append_built (build_specs fuel s d.doc d.specs) (build_decls fuel s ds)
