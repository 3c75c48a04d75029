-- ===== src/Schema/CustomTypes.antt =====
-- schema/custom_types.go: the registry of custom types, and schema/builder.go's lookup by name.
-- `to_lower` is `unicode.ToLower`. The lock is left out: each function holds it throughout.
use dorm.Prelude.{
  Option, none, some, List, [], ◌∷◌, ◌++◌, map, ◌||◌, Text, txt, trim, is_nil, text_eq,
  if◌then◌else◌,
}
use dorm.Schema.Types.{SqlType}
use dorm.Schema.Names.{Unicode}
use dorm.Schema.Keys.{entry}
use dorm.Schema.GoTypes.{GoType, TypeName, elem_of, name_of}

pub record TypeRegistry : Type 0 where
  pub by_name : List (Text × SqlType)
  pub resolvers : List (GoType → Option SqlType)

unfoldable pub normalize_custom_type_name : Unicode → Text → Text
unfolding trim
normalize_custom_type_name u name = trim (map u.to_lower name)

unfoldable pub register_custom_type : Unicode → Text → SqlType → TypeRegistry → TypeRegistry
unfolding normalize_custom_type_name
register_custom_type u name typ r =
    let key = normalize_custom_type_name u name in
    if is_nil key then r else record r { by_name = r.by_name ++ (key, typ) ∷ [] }

-- A nil resolver is `none`.
unfoldable pub register_custom_type_resolver :
    Option (GoType → Option SqlType) → TypeRegistry → TypeRegistry
register_custom_type_resolver none r = r
register_custom_type_resolver (some resolver) r = record r {
  resolvers = r.resolvers ++ resolver ∷ [];
}

-- `customTypeByName[key]`.
unfoldable pub registered : TypeRegistry → Text → Option SqlType
unfolding entry text_eq
registered r key = elim (entry (λ (e : Text × SqlType). e.0) key r.by_name) [
  | some e ↦ some (e.1)
  | none ↦ none
]

unfoldable pub resolve_custom_type_name : Unicode → TypeRegistry → Text → Option SqlType
unfolding normalize_custom_type_name registered
resolve_custom_type_name u r name =
    let key = normalize_custom_type_name u name in if is_nil key then none else registered r key

first_registered : TypeRegistry → List Text → Option SqlType
unfolding registered
first_registered r [] = none
first_registered r (key ∷ keys) = elim (registered r key) [
  | some typ ↦ some typ
  | none ↦ first_registered r keys
]

first_resolved : GoType → List (GoType → Option SqlType) → Option SqlType
first_resolved t [] = none
first_resolved t (resolver ∷ rest) = elim (resolver t) [
  | some typ ↦ some typ
  | none ↦ first_resolved t rest
]

type_keys : Unicode → TypeName → List Text
unfolding normalize_custom_type_name trim
type_keys u n =
    normalize_custom_type_name u n.name
    ∷ (if is_nil (trim n.pkg_path) || is_nil n.name
        then []
        else normalize_custom_type_name u (trim n.pkg_path ++ txt "." ++ n.name) ∷ [])

-- A nil type is `none`.
unfoldable pub resolve_custom_type : Unicode → TypeRegistry → Option GoType → Option SqlType
unfolding first_registered first_resolved type_keys elem_of name_of
resolve_custom_type u r none = none
resolve_custom_type u r (some t) = elim (first_registered r (type_keys u (name_of (elem_of t)))) [
  | some typ ↦ some typ
  | none ↦ first_resolved (elem_of t) r.resolvers
]
