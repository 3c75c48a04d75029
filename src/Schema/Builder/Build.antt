-- ===== src/Schema/Builder/Build.antt =====
-- schema/builder.go: `Build`, with the cache of schemas as its state. Its span is left out.
pub mod Again
use dorm.Prelude.{
  ℕ, Bool, Option, none, some, List, [], ◌∷◌, ◌++◌, Text, txt, text_le, is_nil, map, if◌then◌else◌,
}
use dorm.Errors.{Kind, Error, Result, ok, err, new}
use dorm.Schema.Types.{Schema, Table, View, EnumType}
use dorm.Schema.Keys.{sort_by}
use dorm.Schema.Diff.{sort_schema}
use dorm.Schema.Validate.{validate}
use dorm.Schema.CustomTypes.{TypeRegistry}
use dorm.Schema.Cache.{
  SchemaCache, DirEntry, load_cached_schema, store_cached_schema, source_fingerprint,
}
use dorm.Schema.Builder.{StructMap}
use dorm.Schema.Builder.Packages.{
  GoSource, AstFile, Built, a_view, a_table, nothing, build_decls, append_built,
  collect_package_struct_types, collect_package_embedded_type_names,
}

-- The disk and the tools as `Build` finds them: the entries of a directory, the files of the packages
-- that the parser finds there, what the resolver loads, `filepath.Base`, SHA-256 and `%q`.
pub record World : Type 0 where
  pub go : GoSource
  pub registry : TypeRegistry
  pub read_dir : Text → Result (List DirEntry)
  pub parse_dir : Text → Result (List (List AstFile))
  pub resolver : Text → Result (Text → Option StructMap)
  pub base : Text → Text
  pub sha256 : Text → Text
  pub quote : Text → Text

build_files :
    ℕ → World → (Text → Option StructMap) → List AstFile → List AstFile → Option (List Built)
unfolding build_decls append_built collect_package_struct_types collect_package_embedded_type_names
build_files fuel w load pkg [] = some []
build_files fuel w load pkg (f ∷ fs) =
    append_built
      (build_decls fuel
        (record {
          go = w.go;
          registry = w.registry;
          load = load;
          structs = collect_package_struct_types pkg;
          embedded = collect_package_embedded_type_names pkg;
          file = f;
        })
        f.decls)
      (build_files fuel w load pkg fs)

build_packages : ℕ → World → (Text → Option StructMap) → List (List AstFile) → Option (List Built)
unfolding build_files append_built
build_packages fuel w load [] = some []
build_packages fuel w load (pkg ∷ pkgs) =
    append_built (build_files fuel w load pkg pkg) (build_packages fuel w load pkgs)

built_tables : List Built → List Table
built_tables [] = []
built_tables (a_table t ∷ bs) = t ∷ built_tables bs
built_tables (b ∷ bs) = built_tables bs

built_views : List Built → List View
built_views [] = []
built_views (a_view v ∷ bs) = v ∷ built_views bs
built_views (b ∷ bs) = built_views bs

unfoldable pub assemble_schema : Text → List Built → Schema
unfolding sort_schema built_tables built_views
assemble_schema name built = sort_schema (record {
  name = name;
  version = 1;
  tables = built_tables built;
  enums = [];
  views = built_views built;
})

-- The schema of the files that are parsed; `none` when the fuel is out.
unfoldable pub parsed_schema : ℕ → World → Text → Option (Result Schema)
unfolding build_packages assemble_schema validate
parsed_schema fuel w root = elim (w.parse_dir root) [
  | err e ↦ some (err e)
  | ok pkgs ↦ elim (w.resolver root) [
    | err e ↦ some (err e)
    | ok load ↦ elim (build_packages fuel w load pkgs) [
      | none ↦ none
      | some built ↦
          let s = assemble_schema (w.base root) built in
          elim (validate w.quote s) [ some e ↦ some (err e) | none ↦ some (ok s) ]
    ]
  ]
]

-- What is stored when the schema is built.
stored : Text → Text → SchemaCache → Option (Result Schema) → SchemaCache
unfolding store_cached_schema
stored root fingerprint cache (some (ok s)) = store_cached_schema root fingerprint s cache
stored root fingerprint cache r = cache

-- `Build`, of the builder's root, and a nil builder is `none`: the result, and the cache behind it.
unfoldable pub build : ℕ → World → Option Text → SchemaCache → Option (Result Schema) × SchemaCache
unfolding source_fingerprint load_cached_schema parsed_schema stored
build fuel w none cache = (some (err (new Kind.configuration (txt "schema: nil builder"))), cache)
build fuel w (some root) cache =
    if is_nil root
    then (some (err (new Kind.configuration (txt "schema: empty root"))), cache)
    else elim (source_fingerprint w.sha256 (w.read_dir root)) [
      | err e ↦ (some (err e), cache)
      | ok fingerprint ↦ elim (load_cached_schema root fingerprint cache) [
        | some cached ↦ (some (ok cached), cache)
        | none ↦ let r = parsed_schema fuel w root in (r, stored root fingerprint cache r)
      ]
    ]
