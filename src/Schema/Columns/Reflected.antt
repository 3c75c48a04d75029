-- ===== src/Schema/Columns/Reflected.antt =====
-- schema/traits.go: the column of a field that is read by reflection, written out in full as it is in the
-- code; what it has in common with the column read from source is proved, in Agreement.
use dorm.Prelude.{
  Bool, true, false, not, ◌&&◌, ◌||◌, Option, none, some, List, [], Text, txt, text_eq, is_nil,
  if◌then◌else◌,
}
use dorm.Schema.Types.{
  Column, TypeKind, SqlType, ScopeKind, unscoped, company, tenant, organization, workspace,
  warehouse, user, info, type_kind_text,
}
use dorm.Schema.Names.{to_snake_case}
use dorm.Schema.Tags.{TagMap, is_set, tag_value, parse_orm_tag, flatten_tag_map, split_csv}
use dorm.Schema.GoTypes.{GoField}
use dorm.Schema.CustomTypes.{TypeRegistry}
use dorm.Schema.Columns.Types.{reflect_type_to_schema_type}
use dorm.Schema.Columns.{
  GoText, type_kind_from_name, typed, on_info, with_kind, with_name, array_type_of, has_trait,
}

-- What `columnFromReflectField` reads of a field: its name, its type, the traits it is embedded by, and
-- its `orm` tag.
pub record FieldValue : Type 0 where
  pub go_name : Text
  pub field_type : SqlType
  pub trait_stack : List Text
  pub meta : TagMap

-- `tagMap[tag].IsSet || hasTrait(traitStack, trait) && strings.EqualFold(field.Name, field)`.
marked : GoText → FieldValue → Text → Text → Text → Bool
unfolding is_set has_trait
marked g f tag trait field =
    is_set tag f.meta || has_trait g f.trait_stack trait && g.equal_fold f.go_name field

scope_of : GoText → FieldValue → ScopeKind
unfolding marked is_set
scope_of g f =
    if is_set (txt "user") f.meta
    then user
    else if is_set (txt "warehouse") f.meta
    then warehouse
    else if is_set (txt "workspace") f.meta
    then workspace
    else if is_set (txt "organization") f.meta
    then organization
    else if is_set (txt "tenant") f.meta
    then tenant
    else if marked g f (txt "company") (txt "Company") (txt "CompanyID")
    then company
    else unscoped

is_scoped : ScopeKind → Bool
is_scoped unscoped = false
is_scoped (ScopeKind.other t) = not (is_nil t)
is_scoped s = true

enum_type : TagMap → SqlType → SqlType
unfolding is_set tag_value on_info split_csv
enum_type meta typ =
    let named = with_name (tag_value (txt "enum") meta) (with_kind TypeKind.enum typ) in
    if is_set (txt "enum") meta
    then if is_set (txt "values") meta
      then on_info (λ i. record i { enum_values = split_csv (tag_value (txt "values") meta) }) named
      else named
    else typ

json_type : TagMap → SqlType → SqlType
unfolding is_set on_info
json_type meta typ =
    let as_json = with_kind TypeKind.json typ in
    if is_set (txt "json") meta
    then if is_nil (info typ).name then with_name (txt "jsonb") as_json else as_json
    else typ

-- The type of the column: the statements that assign to `col.Type`, in their order. The last one takes
-- the type of the field again where the kind is not known.
column_type : GoText → FieldValue → Bool → Bool → SqlType
unfolding is_set tag_value on_info type_kind_from_name array_type_of enum_type json_type typed
    type_kind_text text_eq
column_type g f stamped version =
    let initial = if version then typed (txt "bigint") TypeKind.int else f.field_type in
    let timed = if stamped then with_kind TypeKind.time initial else initial in
    let name = tag_value (txt "type") f.meta in
    let named =
      if is_set (txt "type") f.meta
      then with_kind (type_kind_from_name g.unicode name) (with_name name timed)
      else timed in
    let arrayed = if is_set (txt "array") f.meta then array_type_of named else named in
    let as_json = json_type f.meta (enum_type f.meta arrayed) in
    let versioned = if version then typed (txt "bigint") TypeKind.int else as_json in
    if text_eq (type_kind_text (info versioned).kind) (txt "unknown")
    then f.field_type
    else versioned

-- The column that the field becomes, whose name is not empty.
unfoldable pub value_column : GoText → FieldValue → Column
unfolding marked scope_of column_type is_set tag_value to_snake_case text_eq is_scoped
    flatten_tag_map
value_column g f =
    let name = to_snake_case g.unicode f.go_name in
    let by_name =
      text_eq name (txt "id")
      && not (is_set (txt "type") f.meta)
      && not (is_set (txt "pk") f.meta) in
    let primary = by_name || is_set (txt "pk") f.meta in
    let soft_delete = is_set (txt "soft_delete") f.meta in
    let created_at = marked g f (txt "created_at") (txt "Audit") (txt "CreatedAt") in
    let updated_at = marked g f (txt "updated_at") (txt "Audit") (txt "UpdatedAt") in
    let deleted_at = marked g f (txt "deleted_at") (txt "Audit") (txt "DeletedAt") in
    let created_by = marked g f (txt "created_by") (txt "Audit") (txt "CreatedBy") in
    let updated_by = marked g f (txt "updated_by") (txt "Audit") (txt "UpdatedBy") in
    let deleted_by = marked g f (txt "deleted_by") (txt "Audit") (txt "DeletedBy") in
    let version = marked g f (txt "version") (txt "Version") (txt "Version") in
    let scope = scope_of g f in
    let stamped = created_at || updated_at || deleted_at in
    let deletable = if version then false else soft_delete || deleted_at in
    let allowed = if is_set (txt "nullable") f.meta then true else deletable in
    let refused = if is_set (txt "notnull") f.meta then false else allowed in
    let timed = if stamped then deleted_at else refused in
    let owned =
      if created_by || updated_by || deleted_by || is_scoped scope then false else timed in
    record {
      name = name;
      go_name = f.go_name;
      type_ = column_type g f stamped version;
      nullable =
          if is_set (txt "pk") f.meta && is_set (txt "nullable") f.meta
          then false
          else if version
          then false
          else owned;
      primary_key = primary;
      unique = primary || is_set (txt "unique") f.meta;
      identity = is_set (txt "identity") f.meta;
      auto_increment = false;
      default_ =
          if version
          then txt "1"
          else if is_set (txt "default") f.meta
          then tag_value (txt "default") f.meta
          else [];
      generated =
          if is_set (txt "generated") f.meta then tag_value (txt "generated") f.meta else [];
      soft_delete = soft_delete;
      created_at = created_at;
      updated_at = updated_at;
      deleted_at = deleted_at;
      created_by = created_by;
      updated_by = updated_by;
      deleted_by = deleted_by;
      version = version;
      scope = scope;
      tags = flatten_tag_map f.meta;
    }

unfoldable pub field_value : GoText → TypeRegistry → GoField → List Text → FieldValue
unfolding reflect_type_to_schema_type parse_orm_tag
field_value g r field traits = record {
  go_name = field.name;
  field_type = reflect_type_to_schema_type g r field.type_;
  trait_stack = traits;
  meta = parse_orm_tag field.orm_tag;
}

unfoldable pub column_from_reflect_field :
    GoText → TypeRegistry → GoField → List Text → Option Column
unfolding field_value value_column to_snake_case
column_from_reflect_field g r field traits =
    if is_nil (to_snake_case g.unicode field.name)
    then none
    else some (value_column g (field_value g r field traits))
