-- ===== src/Schema/Builder.antt =====
-- schema/builder.go and schema/import_resolver.go: the structs of a package and the structs they embed.
-- A map of struct types is the list of what was written to it. Struct types are not nil.
pub mod Columns
pub mod Tables
pub mod Packages
pub mod Build
pub mod Ends
pub mod Keys
use dorm.Prelude.{
  ℕ, Bool, true, false, ◌&&◌, Option, none, some, List, [], ◌∷◌, ◌++◌, flat, Text, txt, text_eq,
  is_nil, trim, is_one_of, has_prefix, drop, length, if◌then◌else◌,
}
use dorm.Schema.Keys.{entry}
use dorm.Schema.GoTypes.{Expr, ident, selector, star, AstField}

abbrev pub StructType : Type 0
StructType = List AstField

abbrev pub StructMap : Type 0
StructMap = List (Text × StructType)

pub record EmbeddedTypeRef : Type 0 where
  pub package_ : Text
  pub name : Text

unfoldable pub parse_embedded_type_ref : Expr → Option EmbeddedTypeRef
parse_embedded_type_ref (ident n) = some (record { package_ = []; name = n })
parse_embedded_type_ref (star x) = parse_embedded_type_ref x
parse_embedded_type_ref (selector (ident p) n) = some (record { package_ = p; name = n })
parse_embedded_type_ref (selector x n) = some (record { package_ = []; name = n })
parse_embedded_type_ref e = none

unfoldable pub embedded_type_name : Expr → Text
embedded_type_name (ident n) = n
embedded_type_name (star x) = embedded_type_name x
embedded_type_name (selector x n) = n
embedded_type_name e = []

-- `types[name]` and `imports[name]`.
unfoldable pub struct_of : Text → StructMap → Option StructType
unfolding entry text_eq
struct_of name types = elim (entry (λ (e : Text × StructType). e.0) name types) [
  | some e ↦ some (e.1)
  | none ↦ none
]

unfoldable pub import_of : Text → List (Text × Text) → Text
unfolding entry text_eq
import_of name imports = elim (entry (λ (e : Text × Text). e.0) name imports) [
  | some e ↦ e.1
  | none ↦ []
]

-- `structTypeResolver`, with what it takes from outside: `join` is `filepath.Join` of the root and a
-- path with slashes, `go_list` gives the output of `go list`, and `parse` parses the struct types of a directory. Its
-- cache of parsed packages is left out.
pub record StructTypeResolver : Type 0 where
  pub module_root : Text
  pub module_path : Text
  pub join : Text → Text → Text
  pub go_list : Text → Option Text
  pub parse : Text → Option StructMap

trim_prefix : Text → Text → Text
unfolding has_prefix
trim_prefix prefix s = if has_prefix prefix s then drop (length prefix) s else s

unfoldable pub resolve_import_dir : StructTypeResolver → Text → Option Text
unfolding has_prefix trim_prefix trim
resolve_import_dir r import_path =
    let rel = trim_prefix (txt "/") (trim_prefix r.module_path import_path) in
    if has_prefix r.module_path import_path
    then if is_nil rel then some r.module_root else some (r.join r.module_root rel)
    else elim (r.go_list import_path) [
      | some out ↦ if is_nil (trim out) then none else some (trim out)
      | none ↦ none
    ]

unfoldable pub load_package_struct_types : StructTypeResolver → Text → Option StructMap
unfolding resolve_import_dir
load_package_struct_types r import_path = elim (resolve_import_dir r import_path) [
  | some dir ↦ r.parse dir
  | none ↦ none
]

unfoldable pub in_package : Text → Option StructMap → Option (StructType × StructMap)
unfolding struct_of
in_package name none = none
in_package name (some types) = elim (struct_of name types) [
  | some st ↦ some (st, types)
  | none ↦ none
]

-- The struct that is embedded, with the struct types of its package. `load` is the resolver's
-- `loadPackageStructTypes`; a nil resolver loads nothing.
unfoldable pub resolve_embedded_struct :
    (Text → Option StructMap)
    → EmbeddedTypeRef
    → StructMap
    → List (Text × Text)
    → Option (StructType × StructMap)
unfolding import_of in_package
resolve_embedded_struct load ref local imports =
    let import_path = import_of ref.package_ imports in
    if is_nil ref.name
    then none
    else if is_nil ref.package_
    then in_package ref.name (some local)
    else if is_nil import_path
    then none
    else in_package ref.name (load import_path)
