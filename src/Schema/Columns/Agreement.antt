-- ===== src/Schema/Columns/Agreement.antt =====
-- A field gives the same column whether it is read from source or by reflection, with the exceptions
-- that the code makes.
use dorm.Prelude.{
  ◌≡◌, refl, ◌∙◌, Bool, true, false, ◌&&◌, ◌||◌, ◌⊎◌, Option, some, List, Text, txt, is_nil,
  text_eq, inl, inr, if◌then◌else◌,
}
use dorm.Schema.Types.{
  Column, Index, SqlType, TypeInfo, TypeKind, plain, array_of, info, type_kind_text,
}
use dorm.Schema.Names.{Unicode, to_snake_case}
use dorm.Schema.Tags.{is_set, tag_value, parse_orm_tag}
use dorm.Schema.GoTypes.{Expr, GoField}
use dorm.Schema.CustomTypes.{TypeRegistry}
use dorm.Schema.Columns.{GoText, with_kind, with_name, on_info, typed, type_kind_from_name}
use dorm.Schema.Columns.Types.{infer_type, reflect_type_to_schema_type}
use dorm.Schema.Columns.Source.{
  FieldSource, field_column, field_indexes, field_source, build_column,
}
use dorm.Schema.Columns.Reflected.{FieldValue, value_column, field_value, column_from_reflect_field}

-- Two columns that differ at most in their type, their tags and whether they may be null.
abbrev pub SameRole : Column → Column → Type 0
SameRole c d = c ≡ record d { type_ = c.type_; nullable = c.nullable; tags = c.tags }

field_column-SameRole :
    (g : GoText) (f : FieldSource) (v : FieldValue)
    → f.go_name ≡ v.go_name
    → f.trait_stack ≡ v.trait_stack
    → f.meta ≡ v.meta
    → SameRole (field_column g f) (value_column g v)
unfolding field_column value_column
field_column-SameRole g f v name traits meta = rw (name, traits, meta) refl

field_column-nullable :
    (g : GoText) (f : FieldSource) (v : FieldValue)
    → f.go_name ≡ v.go_name
    → f.trait_stack ≡ v.trait_stack
    → f.meta ≡ v.meta
    → (is_set (txt "pk") v.meta && is_set (txt "nullable") v.meta) ≡ false
    → (field_column g f).nullable ≡ (value_column g v).nullable
unfolding field_column value_column
field_column-nullable g f v name traits meta h = rw (name, traits, meta, h) refl

abbrev is_unknown : SqlType → Bool
is_unknown x = text_eq (type_kind_text (info x).kind) (txt "unknown")

either_way : (b : Bool) (x : SqlType) → x ≡ (if b then x else x)
either_way true x = refl
either_way false x = refl

abbrev IsKnown : TypeKind → Type 0
IsKnown kind = text_eq (type_kind_text kind) (txt "unknown") ≡ false

either-IsKnown : (b : Bool) (k l : TypeKind) → IsKnown k → IsKnown l → IsKnown (if b then k else l)
either-IsKnown true k l h i = h
either-IsKnown false k l h i = i

type_kind_from_name-IsKnown : (u : Unicode) (name : Text) → IsKnown (type_kind_from_name u name)
unfolding type_kind_from_name type_kind_text text_eq
type_kind_from_name-IsKnown u name = search either-IsKnown depth 24

SqlType-cases :
    (t : SqlType)
    → ((i : TypeInfo) × (t ≡ plain i)) ⊎ ((i : TypeInfo) × (elem : SqlType) × (t ≡ array_of i elem))
SqlType-cases (plain i) = inl (i, refl)
SqlType-cases (array_of i elem) = inr (i, elem, refl)

-- The type of a column without an array, an enumeration or a JSON type.
abbrev simple_type : Bool → Bool → Bool → SqlType → Unicode → Text → SqlType
unfolding on_info typed
simple_type version stamped set typ u name =
    let initial = if version then typed (txt "bigint") TypeKind.int else typ in
    let timed = if stamped then with_kind TypeKind.time initial else initial in
    let named =
      if set then with_kind (type_kind_from_name u name) (with_name name timed) else timed in
    if version then typed (txt "bigint") TypeKind.int else named

-- Where its kind is unknown, it is the type of the field.
simple_type_known :
    (version stamped set : Bool) (typ : SqlType) (u : Unicode) (name : Text)
    → let t = simple_type version stamped set typ u name in t ≡ (if is_unknown t then typ else t)
unfolding simple_type type_kind_text text_eq
simple_type_known true stamped set typ u name = refl
simple_type_known false stamped true typ u name =
    elim (SqlType-cases (if stamped then with_kind TypeKind.time typ else typ)) [
      | inl (i, e) ↦ rw (e, type_kind_from_name-IsKnown) refl
      | inr (i, elem, e) ↦ rw (e, type_kind_from_name-IsKnown) refl
    ]
simple_type_known false true false (plain i) u name = refl
simple_type_known false true false (array_of i e) u name = refl
simple_type_known false false false typ u name = either_way (is_unknown typ) typ

field_column-type :
    (g : GoText) (f : FieldSource) (v : FieldValue)
    → f.go_name ≡ v.go_name
    → f.trait_stack ≡ v.trait_stack
    → f.meta ≡ v.meta
    → f.field_type ≡ v.field_type
    → is_set (txt "array") v.meta ≡ false
    → is_set (txt "enum") v.meta ≡ false
    → is_set (txt "json") v.meta ≡ false
    → (field_column g f).type_ ≡ (value_column g v).type_
unfolding field_column value_column
field_column-type g f v name traits meta typ a e j =
    let d = value_column g v in
    rw (name, traits, meta, typ, a, e, j)
      (simple_type_known d.version (d.created_at || d.updated_at || d.deleted_at)
        (is_set (txt "type") v.meta) v.field_type g.unicode (tag_value (txt "type") v.meta))

-- A field that is read from source and by reflection, under the same name, traits and `orm` tag, gives a
-- column either way when its name in snake case is not empty; the two agree in everything but their
-- type, their tags and whether they may be null: they have the same name, keys, scope, audit and version
-- marks, default and generated value.
pub build_column-SameRole :
    (g : GoText) (r : TypeRegistry) (table : Text) (type_ : Expr) (tag : Option Text)
    (traits : List Text) (field : GoField)
    → (field_source g r field.name type_ tag traits).meta ≡ parse_orm_tag field.orm_tag
    → is_nil (to_snake_case g.unicode field.name) ≡ false
    → (c : Column) × (indexes : List Index) × (d : Column) × (build_column g r table field.name
          type_ tag traits
        ≡ some (c, indexes))
      × (column_from_reflect_field g r field traits ≡ some d)
      × SameRole c d
unfolding build_column column_from_reflect_field field_source field_value
build_column-SameRole g r table type_ tag traits field same named =
    let f = field_source g r field.name type_ tag traits in
    let v = field_value g r field traits in
    (
      field_column g f,
      field_indexes table (field_column g f).name f.meta,
      value_column g v,
      rw named refl,
      rw named refl,
      field_column-SameRole g f v refl refl same,
    )

-- Where the tag moreover asks for no array, enumeration or JSON type, and not both for a primary key and
-- for null, and the type that is inferred from source is the one found by reflection, the two columns
-- are equal but for their tags.
pub build_column-eq_reflected :
    (g : GoText) (r : TypeRegistry) (table : Text) (type_ : Expr) (tag : Option Text)
    (traits : List Text) (field : GoField)
    → (field_source g r field.name type_ tag traits).meta ≡ parse_orm_tag field.orm_tag
    → is_nil (to_snake_case g.unicode field.name) ≡ false
    → is_set (txt "array") (parse_orm_tag field.orm_tag) ≡ false
    → is_set (txt "enum") (parse_orm_tag field.orm_tag) ≡ false
    → is_set (txt "json") (parse_orm_tag field.orm_tag) ≡ false
    → (is_set (txt "pk") (parse_orm_tag field.orm_tag)
        && is_set (txt "nullable") (parse_orm_tag field.orm_tag))
      ≡ false
    → infer_type g r type_ ≡ reflect_type_to_schema_type g r field.type_
    → (c : Column) × (indexes : List Index) × (d : Column) × (build_column g r table field.name
          type_ tag traits
        ≡ some (c, indexes))
      × (column_from_reflect_field g r field traits ≡ some d)
      × (c ≡ record d { tags = c.tags })
unfolding build_column column_from_reflect_field field_source field_value
build_column-eq_reflected g r table type_ tag traits field same named a e j pn typ =
    let f = field_source g r field.name type_ tag traits in
    let v = field_value g r field traits in
    let c = field_column g f in
    let d = value_column g v in
    let role : SameRole c d = field_column-SameRole g f v refl refl same in
    let kind : c.type_ ≡ d.type_ = field_column-type g f v refl refl same typ a e j in
    let null : c.nullable ≡ d.nullable = field_column-nullable g f v refl refl same pn in
    (
      c,
      field_indexes table c.name f.meta,
      d,
      rw named refl,
      rw named refl,
      role ∙ rw (kind, null) refl,
    )
