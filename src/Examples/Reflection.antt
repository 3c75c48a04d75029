-- ===== src/Examples/Reflection.antt =====
-- Field paths by reflection, and the cache of built schemas.
use dorm.Prelude.{
  Bool, ℕ, true, false, Option, none, some, List, [], ◌∷◌, map, ◌≡◌, refl, Text, txt, text_eq,
  unseen, All, arith, if◌then◌else◌,
}
use dorm.Schema.Types.{Table}
use dorm.Schema.GoTypes.{name_of, elem_of, TypeName, GoField, struct_, pointer, same_type}
use dorm.Schema.Traits.{is_embedded, Reflection, struct_field_index_map}
use dorm.Schema.Traits.Paths.{Leads}
use dorm.Schema.Traits.Ends.{IsClosed, struct_field_index_map-finds}
use dorm.Examples.Builder.{go_text, no_types, company_field, company_struct, no_package}
use dorm.Prelude.{Bool-cases, inl, inr}
use dorm.Errors.{Result, ok}
use dorm.Schema.Types.{Schema}
use dorm.Schema.Cache.{source_fingerprint}
use dorm.Schema.Builder.Packages.{AstFile}
use dorm.Schema.Builder.Build.{World, build}
use dorm.Schema.Builder.Build.Again.{IsSound, IsValidResult, build-IsSound, build_again}

abbrev own : Text → TypeName
own name = record { pkg_path = txt "example.com/shop"; name = name }

abbrev embedded_company : GoField
embedded_company = record {
  name = txt "Company";
  type_ = pointer (struct_ (own (txt "Company")));
  orm_tag = [];
  exported = true;
  anonymous = true;
}

abbrev name_field : GoField
name_field = record company_field { name = txt "Name"; orm_tag = txt "unique" }

abbrev shop_fields : TypeName → List GoField
unfolding text_eq
shop_fields n =
    if text_eq n.name (txt "Product")
    then embedded_company ∷ name_field ∷ []
    else if text_eq n.name (txt "Company")
    then company_field ∷ []
    else []

abbrev shop_reflection : Reflection
shop_reflection = record { text = go_text; registry = no_types; fields_of = shop_fields }

abbrev shop_types : List TypeName
shop_types = own (txt "Product") ∷ own (txt "Company") ∷ []

shop_paths_run :
    struct_field_index_map 3 shop_reflection (some (pointer (struct_ (own (txt "Product")))))
    ≡ some ((txt "company_id", 0 ∷ 0 ∷ []) ∷ (txt "name", 1 ∷ []) ∷ [])
unfolding struct_field_index_map
shop_paths_run = refl

not_embedded : (b : Bool) → false ≡ true → b ≡ true
not_embedded b h = absurd (ground (arith, h))

shop-IsClosed : IsClosed shop_reflection shop_types
unfolding same_type is_embedded name_of elem_of
shop-IsClosed n h = elim (Bool-cases (text_eq n.name (txt "Product"))) [
  | inl e ↦ rw e (λ i. refl, (not_embedded _, tt))
  | inr e ↦ elim (Bool-cases (text_eq n.name (txt "Company"))) [
    | inl f ↦ rw (e, f) (not_embedded _, tt)
    | inr f ↦ rw (e, f) tt
  ]
]

paths_example :
    (paths : List (Text × List ℕ)) × (struct_field_index_map 3 shop_reflection
        (some (pointer (struct_ (own (txt "Product")))))
      ≡ some paths)
    × All (Leads shop_reflection (own (txt "Product")) []) paths
unfolding same_type unseen name_of elem_of
paths_example =
    struct_field_index_map-finds 3 shop_reflection shop_types
      (pointer (struct_ (own (txt "Product")))) shop-IsClosed refl (omega arith)

abbrev shop_file : AstFile
shop_file = record {
  package_name = txt "models";
  doc = none;
  imports = [];
  decls =
      (record {
        doc = none;
        specs =
            (record { name = txt "Company"; doc = none; struct_type = some company_struct }) ∷ [];
      })
      ∷ [];
}

abbrev shop_world : List AstFile → World
shop_world files = record {
  go = record { text = go_text; base = λ p. p; is_exported = λ n. true; directives = λ doc. [] };
  registry = no_types;
  read_dir =
      λ root. ok ((record { name = txt "shop.go"; is_dir = false; info = ok (100, 7) }) ∷ []);
  parse_dir = λ root. ok (files ∷ []);
  resolver = λ root. ok no_package;
  base = λ p. p;
  sha256 = λ t. t;
  quote = λ t. t;
}

abbrev table_names : Option (Result Schema) → List Text
table_names (some (ok s)) = map (λ (t : Table). t.name) s.tables
table_names r = []

built_run :
    table_names ((build 3 (shop_world (shop_file ∷ [])) (some (txt "models")) []).0)
    ≡ txt "companies" ∷ []
unfolding build
built_run = refl

abbrev shop_schema : Schema
shop_schema = record { name = txt "models"; version = 1; tables = []; enums = []; views = [] }

build_again_example :
    let left = (build 3 (shop_world []) (some (txt "models")) []).1 in
    build 0 (shop_world (shop_file ∷ [])) (some (txt "models")) left ≡ (some (ok shop_schema), left)
unfolding build source_fingerprint
build_again_example =
    build_again 3 0 (shop_world []) (shop_world (shop_file ∷ [])) (txt "models") [] shop_schema refl
      refl

build-IsSound_example :
    let r = build 3 (shop_world (shop_file ∷ [])) (some (txt "models")) [] in
    IsValidResult (λ t. t) (r.0) × IsSound (λ t. t) (r.1)
build-IsSound_example = build-IsSound 3 (shop_world (shop_file ∷ [])) (some (txt "models")) [] tt
