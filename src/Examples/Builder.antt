-- ===== src/Examples/Builder.antt =====
-- Columns and tables from struct types, read from source and by reflection.
use dorm.Prelude.{
  true, false, Option, none, some, List, [], ◌∷◌, ◌++◌, map, drop, take, length, ◌-◌, ◌≡◌, ◌↔◌,
  refl, Text, txt, text_eq, is_one_of, unseen, In, arith,
}
use dorm.Schema.Types.{Column, Index, Constraint, Table, info}
use dorm.Schema.Tags.{parse_orm_tag, is_set, tag_value}
use dorm.Schema.GoTypes.{Expr, ident, selector, array_type, AstField, GoKind, GoField, basic, slice}
use dorm.Schema.CustomTypes.{TypeRegistry}
use dorm.Schema.Columns.{GoText}
use dorm.Schema.Columns.Types.{infer_type, reflect_type_to_schema_type}
use dorm.Schema.Columns.Source.{build_column, field_source}
use dorm.Schema.Columns.Reflected.{column_from_reflect_field}
use dorm.Schema.Columns.Agreement.{SameRole, build_column-SameRole, build_column-eq_reflected}
use dorm.Schema.Builder.{StructType, StructMap, resolve_import_dir, struct_of}
use dorm.Schema.Builder.Columns.{Source, build_columns_from_struct}
use dorm.Schema.Builder.Tables.{build_table_from_type}
use dorm.Schema.Builder.Ends.{Covers}
use dorm.Schema.Builder.Keys.{IsKeyConstraint, build_table_from_type-constraints}
use dorm.Examples.Data.{ascii}

-- A literal is taken without its first and its last character.
abbrev pub go_text : GoText
unfolding text_eq
go_text = record {
  unicode = ascii;
  equal_fold = λ a b. text_eq (map ascii.to_lower a) (map ascii.to_lower b);
  unquote = λ t. some (drop 1 (take (length t - 1) t));
}

abbrev pub no_types : TypeRegistry
no_types = record { by_name = []; resolvers = [] }

abbrev pub field_of : Text → Expr → Text → AstField
field_of name type_ tag = record {
  names = name ∷ [];
  type_ = type_;
  tag = some (txt "`orm:\"" ++ tag ++ txt "\"`");
}

abbrev pub embeds : Expr → AstField
embeds type_ = record { names = []; type_ = type_; tag = none }

abbrev pub company_struct : StructType
company_struct = field_of (txt "CompanyID") (ident (txt "string")) (txt "company,index") ∷ []

abbrev pub product_struct : StructType
product_struct =
    embeds (ident (txt "Company"))
    ∷ field_of (txt "ID") (ident (txt "string")) (txt "pk")
    ∷ field_of (txt "Name") (ident (txt "string")) (txt "unique")
    ∷ []

abbrev pub shop_structs : StructMap
shop_structs = (txt "Company", company_struct) ∷ (txt "Product", product_struct) ∷ []

abbrev pub no_package : Text → Option StructMap
no_package path = none

abbrev source_with : List (Text × Text) → (Text → Option StructMap) → Source
source_with imports load = record {
  text = go_text;
  registry = no_types;
  imports = imports;
  load = load;
  table = txt "products";
}

abbrev shop_source : Source
shop_source = source_with [] no_package

abbrev no_directives : Text → List (Text × Text)
no_directives doc = []

abbrev column_names : Option (List Column × List Index) → List Text
column_names none = []
column_names (some parts) = map (λ (c : Column). c.name) (parts.0)

-- The columns of the embedded struct stand in front.
product_columns_run :
    column_names
      (build_columns_from_struct 3 shop_source (txt "Product") product_struct shop_structs [] [])
    ≡ txt "company_id" ∷ txt "id" ∷ txt "name" ∷ []
unfolding build_columns_from_struct
product_columns_run = refl

abbrev pub company_field : GoField
company_field = record {
  name = txt "CompanyID";
  type_ = basic GoKind.string_kind (record { pkg_path = []; name = txt "string" });
  orm_tag = txt "company,index";
  exported = true;
  anonymous = false;
}

abbrev company_tag : Option Text
company_tag = some (txt "`orm:\"company,index\"`")

build_column-SameRole_example :
    (c : Column) × (indexes : List Index) × (d : Column) × (build_column go_text no_types
        (txt "products")
        (txt "CompanyID")
        (ident (txt "string"))
        company_tag
        (txt "Company" ∷ [])
      ≡ some (c, indexes))
    × (column_from_reflect_field go_text no_types company_field (txt "Company" ∷ []) ≡ some d)
    × SameRole c d
unfolding field_source parse_orm_tag
build_column-SameRole_example =
    build_column-SameRole go_text no_types (txt "products") (ident (txt "string")) company_tag
      (txt "Company" ∷ []) company_field refl refl

build_column-eq_reflected_example :
    (c : Column) × (indexes : List Index) × (d : Column) × (build_column go_text no_types
        (txt "products")
        (txt "CompanyID")
        (ident (txt "string"))
        company_tag
        []
      ≡ some (c, indexes))
    × (column_from_reflect_field go_text no_types company_field [] ≡ some d)
    × (c ≡ record d { tags = c.tags })
unfolding field_source parse_orm_tag is_set infer_type reflect_type_to_schema_type
build_column-eq_reflected_example =
    build_column-eq_reflected go_text no_types (txt "products") (ident (txt "string")) company_tag
      [] company_field refl refl refl refl refl refl refl

abbrev shop_names : List Text
shop_names = txt "Company" ∷ txt "Product" ∷ []

shop-Covers : Covers shop_names shop_structs
unfolding struct_of is_one_of
shop-Covers n h = ground (arith, h)

constraints_example :
    (t : Table) × (build_table_from_type 3 no_directives shop_source
        (txt "Product")
        product_struct
        (txt "models")
        []
        shop_structs
      ≡ some t)
    × ((k : Constraint) → In k t.constraints ↔ IsKeyConstraint t k)
unfolding is_one_of unseen
constraints_example =
    build_table_from_type-constraints shop_names 3 no_directives shop_source (txt "Product")
      product_struct (txt "models") [] shop_structs refl shop-Covers
      (λ path loaded e. absurd (ground (arith, e))) (omega arith)

abbrev constraint_names : Option Table → List (Text × List Text)
constraint_names none = []
constraint_names (some t) = map (λ (k : Constraint). (k.name, k.columns)) t.constraints

product_constraints_run :
    constraint_names (
      build_table_from_type 3 no_directives shop_source
        (txt "Product")
        product_struct
        (txt "models")
        []
        shop_structs)
    ≡ (txt "products_pkey", txt "id" ∷ []) ∷ (txt "products_name_key", txt "name" ∷ []) ∷ []
unfolding build_table_from_type
product_constraints_run = refl

-- A local struct that embeds one of the same name from another package loses the columns of that one.
same_name_run :
    column_names (
      build_columns_from_struct 3
        (source_with
          ((txt "common", txt "example.com/common") ∷ [])
          (λ path. some ((txt "Base", company_struct) ∷ [])))
        (txt "Base")
        (embeds (selector (ident (txt "common")) (txt "Base"))
          ∷ field_of (txt "Name") (ident (txt "string")) []
          ∷ [])
        []
        []
        [])
    ≡ txt "name" ∷ []
unfolding build_columns_from_struct
same_name_run = refl

abbrev index_names : Option (Column × List Index) → List Text
index_names none = []
index_names (some built) = map (λ (i : Index). i.name) (built.1)

-- A field with an index and a condition adds two indexes of one name.
index_twice_run :
    index_names (
      build_column go_text no_types
        (txt "products")
        (txt "Name")
        (ident (txt "string"))
        (some (txt "`orm:\"index,where=active\"`"))
        [])
    ≡ txt "idx_products_name" ∷ txt "idx_products_name" ∷ []
unfolding build_column
index_twice_run = refl

-- Behind a space in the tag nothing is read from source, and reflection reads it.
spaced_tag_run :
    is_set
        (txt "index")
        (field_source go_text no_types
          (txt "Name")
          (ident (txt "string"))
          (some (txt "`orm:\"unique, index\"`"))
          []).meta
      ∷ is_set (txt "index") (parse_orm_tag (txt "unique, index"))
      ∷ []
    ≡ false ∷ true ∷ []
unfolding field_source parse_orm_tag is_set
spaced_tag_run = refl

-- A comma ends a value: the precision of a type is cut off.
numeric_run : tag_value (txt "type") (parse_orm_tag (txt "type=numeric(10,2)")) ≡ txt "numeric(10"
unfolding parse_orm_tag tag_value
numeric_run = refl

-- The two ways do not agree on the type of bytes.
bytes_run :
    (info (infer_type go_text no_types (array_type (ident (txt "byte"))))).name
      ∷ (info (
          reflect_type_to_schema_type go_text no_types (
            slice
              (record { pkg_path = []; name = [] })
              (basic GoKind.uint8_kind (record { pkg_path = []; name = txt "uint8" }))))).name
      ∷ []
    ≡ txt "smallint[]" ∷ txt "bytea" ∷ []
unfolding infer_type reflect_type_to_schema_type
bytes_run = refl

-- A package of another module whose path starts with the same letters is looked for in this module.
other_module_run :
    resolve_import_dir
      (record {
        module_root = txt "/shop";
        module_path = txt "example.com/shop";
        join = λ root rel. root ++ txt "/" ++ rel;
        go_list = λ path. some (txt "/kit");
        parse = λ dir. none;
      })
      (txt "example.com/shopkit/model")
    ≡ some (txt "/shop/kit/model")
unfolding resolve_import_dir
other_module_run = refl
