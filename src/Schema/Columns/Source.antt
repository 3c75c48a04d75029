-- ===== src/Schema/Columns/Source.antt =====
-- schema/builder.go: the column of a field that is read from source. Each `let` is a step of the code;
-- a field that is assigned once is computed where the record is built.
use dorm.Prelude.{
  Bool, true, false, not, ◌&&◌, ◌||◌, Option, none, some, List, [], ◌∷◌, ◌++◌, Text, txt, text_eq,
  is_nil, split, if◌then◌else◌,
}
use dorm.Schema.Types.{
  Column, Index, TypeKind, SqlType, ScopeKind, unscoped, company, tenant, organization, workspace,
  warehouse, user,
}
use dorm.Schema.Names.{to_snake_case}
use dorm.Schema.Tags.{TagMap, is_set, tag_value, parse_orm_tag, parse_struct_tag, lookup_text}
use dorm.Schema.GoTypes.{Expr}
use dorm.Schema.CustomTypes.{TypeRegistry}
use dorm.Schema.Columns.Types.{infer_type}
use dorm.Schema.Columns.{
  GoText, type_kind_from_name, typed, on_info, with_kind, with_name, array_type_of, has_trait,
}

-- What `buildColumn` reads of a field: its name, its type, the traits it is embedded by, and its tags.
pub record FieldSource : Type 0 where
  pub go_name : Text
  pub field_type : SqlType
  pub trait_stack : List Text
  pub meta : TagMap
  pub tags : List (Text × Text)

-- `meta[tag].IsSet || hasTrait(traitStack, trait) && strings.EqualFold(goName, field)`.
marked : GoText → FieldSource → Text → Text → Text → Bool
unfolding is_set has_trait
marked g f tag trait field =
    is_set tag f.meta || has_trait g f.trait_stack trait && g.equal_fold f.go_name field

scope_of : GoText → FieldSource → ScopeKind
unfolding marked is_set
scope_of g f =
    if is_set (txt "user") f.meta
    then user
    else if is_set (txt "warehouse") f.meta
    then warehouse
    else if is_set (txt "workspace") f.meta
    then workspace
    else if is_set (txt "organization") f.meta
    then organization
    else if is_set (txt "tenant") f.meta
    then tenant
    else if marked g f (txt "company") (txt "Company") (txt "CompanyID")
    then company
    else unscoped

abbrev is_scoped : ScopeKind → Bool
is_scoped unscoped = false
is_scoped (ScopeKind.other t) = not (is_nil t)
is_scoped s = true

enum_type : TagMap → SqlType → SqlType
unfolding is_set tag_value on_info split
enum_type meta typ =
    let named = with_name (tag_value (txt "enum") meta) (with_kind TypeKind.enum typ) in
    let values = tag_value (txt "values") meta in
    if is_set (txt "enum") meta
    then if is_nil values
      then named
      else on_info (λ i. record i { enum_values = split b'|' values }) named
    else typ

-- The type of the column: the statements that assign to `col.Type`, in their order.
column_type : GoText → FieldSource → Bool → Bool → SqlType
unfolding is_set tag_value on_info type_kind_from_name array_type_of enum_type typed
column_type g f stamped version =
    let initial = if version then typed (txt "bigint") TypeKind.int else f.field_type in
    let timed = if stamped then with_kind TypeKind.time initial else initial in
    let name = tag_value (txt "type") f.meta in
    let named =
      if is_set (txt "type") f.meta
      then with_kind (type_kind_from_name g.unicode name) (with_name name timed)
      else timed in
    let arrayed = if is_set (txt "array") f.meta then array_type_of named else named in
    let enumerated = enum_type f.meta arrayed in
    let as_json =
      if is_set (txt "json") f.meta
      then with_name (txt "jsonb") (with_kind TypeKind.json enumerated)
      else enumerated in
    let versioned = if version then typed (txt "bigint") TypeKind.int else as_json in
    if is_set (txt "array") f.meta then with_kind TypeKind.array versioned else versioned

-- The column that the field becomes, whose name is not empty.
unfoldable pub field_column : GoText → FieldSource → Column
unfolding marked scope_of column_type is_set tag_value to_snake_case text_eq
field_column g f =
    let name = to_snake_case g.unicode f.go_name in
    let by_name =
      text_eq name (txt "id")
      && not (is_set (txt "type") f.meta)
      && not (is_set (txt "pk") f.meta) in
    let primary = by_name || is_set (txt "pk") f.meta in
    let soft_delete = is_set (txt "soft_delete") f.meta in
    let created_at = marked g f (txt "created_at") (txt "Audit") (txt "CreatedAt") in
    let updated_at = marked g f (txt "updated_at") (txt "Audit") (txt "UpdatedAt") in
    let deleted_at = marked g f (txt "deleted_at") (txt "Audit") (txt "DeletedAt") in
    let created_by = marked g f (txt "created_by") (txt "Audit") (txt "CreatedBy") in
    let updated_by = marked g f (txt "updated_by") (txt "Audit") (txt "UpdatedBy") in
    let deleted_by = marked g f (txt "deleted_by") (txt "Audit") (txt "DeletedBy") in
    let version = marked g f (txt "version") (txt "Version") (txt "Version") in
    let scope = scope_of g f in
    let stamped = created_at || updated_at || deleted_at in
    let deletable = if version then false else soft_delete || deleted_at in
    let allowed = if is_set (txt "nullable") f.meta then true else deletable in
    let refused = if is_set (txt "notnull") f.meta then false else allowed in
    let timed = if stamped then deleted_at else refused in
    let owned =
      if created_by || updated_by || deleted_by || is_scoped scope then false else timed in
    record {
      name = name;
      go_name = f.go_name;
      type_ = column_type g f stamped version;
      nullable = if version then false else owned;
      primary_key = primary;
      unique = primary || is_set (txt "unique") f.meta;
      identity = is_set (txt "identity") f.meta;
      auto_increment = false;
      default_ =
          if version
          then txt "1"
          else if is_set (txt "default") f.meta
          then tag_value (txt "default") f.meta
          else [];
      generated =
          if is_set (txt "generated") f.meta then tag_value (txt "generated") f.meta else [];
      soft_delete = soft_delete;
      created_at = created_at;
      updated_at = updated_at;
      deleted_at = deleted_at;
      created_by = created_by;
      updated_by = updated_by;
      deleted_by = deleted_by;
      version = version;
      scope = scope;
      tags = f.tags;
    }

index_on : Text → Text → Text → Index
index_on table column where_ = record {
  name = txt "idx_" ++ table ++ txt "_" ++ column;
  columns = column ∷ [];
  unique = false;
  expression = [];
  where_ = where_;
  method = [];
  metadata = [];
}

-- The indexes that the tags of a field add to the table.
unfoldable pub field_indexes : Text → Text → TagMap → List Index
unfolding is_set tag_value index_on
field_indexes table column meta =
    (if is_set (txt "index") meta then index_on table column [] ∷ [] else [])
    ++ (if is_set (txt "where") meta
        then index_on table column (tag_value (txt "where") meta) ∷ []
        else [])

tag_text : GoText → Option Text → Text
tag_text g none = []
tag_text g (some literal) = elim (g.unquote literal) [ some t ↦ t | none ↦ [] ]

unfoldable pub field_source :
    GoText → TypeRegistry → Text → Expr → Option Text → List Text → FieldSource
unfolding infer_type parse_struct_tag parse_orm_tag lookup_text tag_text
field_source g r go_name type_ tag traits =
    let tags = parse_struct_tag g.unquote (tag_text g tag) in
    record {
      go_name = go_name;
      field_type = infer_type g r type_;
      trait_stack = traits;
      meta = parse_orm_tag (lookup_text (txt "orm") tags);
      tags = tags;
    }

-- The column and the indexes that a field adds to the table of the name.
unfoldable pub build_column :
    GoText
    → TypeRegistry
    → Text
    → Text
    → Expr
    → Option Text
    → List Text
    → Option (Column × List Index)
unfolding field_source field_column field_indexes to_snake_case
build_column g r table go_name type_ tag traits =
    let f = field_source g r go_name type_ tag traits in
    let column = field_column g f in
    if is_nil (to_snake_case g.unicode go_name)
    then none
    else some (column, field_indexes table column.name f.meta)
