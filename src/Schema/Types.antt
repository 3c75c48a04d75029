-- ===== src/Schema/Types.antt =====
-- schema/types.go: the schema records. A pointer in a slice is taken to be non-nil; an optional
-- pointer elsewhere is an `Option`. A string type with named constants is a data type whose
-- constructor `other` holds any other string.
use dorm.Prelude.{ℕ, Bool, List, [], Text, txt}

pub data ConstraintKind : Type 0 where
  primary_key unique foreign_key check : ConstraintKind
  other : Text → ConstraintKind

pub data TypeKind : Type 0 where
  unknown bool int float string bytes time uuid json array enum custom : TypeKind
  other : Text → TypeKind

pub data ScopeKind : Type 0 where
  unscoped company tenant organization workspace warehouse user : ScopeKind
  other : Text → ScopeKind

-- The strings behind the constants, by which Go compares.
unfoldable pub constraint_kind_text : ConstraintKind → Text
constraint_kind_text primary_key = txt "primary_key"
constraint_kind_text unique = txt "unique"
constraint_kind_text foreign_key = txt "foreign_key"
constraint_kind_text check = txt "check"
constraint_kind_text (ConstraintKind.other t) = t

unfoldable pub type_kind_text : TypeKind → Text
type_kind_text unknown = txt "unknown"
type_kind_text bool = txt "bool"
type_kind_text int = txt "int"
type_kind_text float = txt "float"
type_kind_text string = txt "string"
type_kind_text bytes = txt "bytes"
type_kind_text time = txt "time"
type_kind_text uuid = txt "uuid"
type_kind_text json = txt "json"
type_kind_text array = txt "array"
type_kind_text enum = txt "enum"
type_kind_text custom = txt "custom"
type_kind_text (TypeKind.other t) = t

pub record TypeInfo : Type 0 where
  pub name : Text
  pub kind : TypeKind
  pub length : ℕ
  pub precision : ℕ
  pub scale : ℕ
  pub nullable : Bool
  pub enum_values : List Text
  pub metadata : List (Text × Text)

-- Go's `Type`: `ArrayOf` is nil in `plain`, and points to the element type in `array_of`.
pub data SqlType : Type 0 where
  plain : TypeInfo → SqlType
  array_of : TypeInfo → SqlType → SqlType

abbrev pub info : SqlType → TypeInfo
info (plain i) = i
info (array_of i e) = i

pub record Column : Type 0 where
  pub name : Text
  pub go_name : Text
  pub type_ : SqlType
  pub nullable : Bool
  pub primary_key : Bool
  pub unique : Bool
  pub identity : Bool
  pub auto_increment : Bool
  pub default_ : Text
  pub generated : Text
  pub soft_delete : Bool
  pub created_at : Bool
  pub updated_at : Bool
  pub deleted_at : Bool
  pub created_by : Bool
  pub updated_by : Bool
  pub deleted_by : Bool
  pub version : Bool
  pub scope : ScopeKind
  pub tags : List (Text × Text)

pub record Index : Type 0 where
  pub name : Text
  pub columns : List Text
  pub unique : Bool
  pub expression : Text
  pub where_ : Text
  pub method : Text
  pub metadata : List (Text × Text)

pub record Constraint : Type 0 where
  pub name : Text
  pub kind : ConstraintKind
  pub columns : List Text
  pub referenced_table : Text
  pub referenced_columns : List Text
  pub on_delete : Text
  pub on_update : Text
  pub expression : Text
  pub metadata : List (Text × Text)

pub record Table : Type 0 where
  pub name : Text
  pub go_type_name : Text
  pub package_name : Text
  pub columns : List Column
  pub indexes : List Index
  pub constraints : List Constraint
  pub comments : List Text
  pub metadata : List (Text × Text)

pub record EnumType : Type 0 where
  pub name : Text
  pub values : List Text
  pub metadata : List (Text × Text)

pub record View : Type 0 where
  pub name : Text
  pub sql : Text
  pub materialized : Bool
  pub metadata : List (Text × Text)

pub record Schema : Type 0 where
  pub name : Text
  pub version : ℕ
  pub tables : List Table
  pub enums : List EnumType
  pub views : List View

-- A column with a name and nothing set, to build others from.
abbrev pub plain_column : Text → Column
plain_column n = record {
  name = n;
  go_name = n;
  type_ = plain (record {
    name = txt "text";
    kind = string;
    length = 0;
    precision = 0;
    scale = 0;
    nullable = Bool.false;
    enum_values = [];
    metadata = [];
  });
  nullable = Bool.false;
  primary_key = Bool.false;
  unique = Bool.false;
  identity = Bool.false;
  auto_increment = Bool.false;
  default_ = [];
  generated = [];
  soft_delete = Bool.false;
  created_at = Bool.false;
  updated_at = Bool.false;
  deleted_at = Bool.false;
  created_by = Bool.false;
  updated_by = Bool.false;
  deleted_by = Bool.false;
  version = Bool.false;
  scope = unscoped;
  tags = [];
}

abbrev pub table_of : Text → List Column → Table
table_of n cols = record {
  name = n;
  go_type_name = n;
  package_name = [];
  columns = cols;
  indexes = [];
  constraints = [];
  comments = [];
  metadata = [];
}
