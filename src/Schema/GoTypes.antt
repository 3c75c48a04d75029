-- ===== src/Schema/GoTypes.antt =====
-- The Go types that schema/traits.go reads by reflection and the type expressions that
-- schema/builder.go reads from source. A named struct stands for itself by its name: its fields are in
-- a table of types, so that a struct may refer to itself. Structs without a name are not modelled.
use dorm.Prelude.{List, Option, Bool, ◌&&◌, ◌++◌, Text, txt, text_eq}

-- `reflect.Kind`, without the kinds that take type arguments.
pub data GoKind : Type 0 where
  bool_kind int_kind int8_kind int16_kind int32_kind int64_kind : GoKind
  uint_kind uint8_kind uint16_kind uint32_kind uint64_kind : GoKind
  float32_kind float64_kind string_kind other_kind : GoKind

-- `t.PkgPath()` and `t.Name()`.
pub record TypeName : Type 0 where
  pub pkg_path : Text
  pub name : Text

pub data GoType : Type 0 where
  basic : GoKind → TypeName → GoType
  pointer : GoType → GoType
  slice : TypeName → GoType → GoType
  struct_ : TypeName → GoType

-- `for t.Kind() == reflect.Pointer { t = t.Elem() }`.
unfoldable pub elem_of : GoType → GoType
elem_of (pointer t) = elem_of t
elem_of t = t

-- A type without a name of its own has empty names.
unfoldable pub name_of : GoType → TypeName
name_of (basic k n) = n
name_of (pointer t) = record { pkg_path = txt ""; name = txt "" }
name_of (slice n t) = n
name_of (struct_ n) = n

unfoldable pub same_type : TypeName → TypeName → Bool
unfolding text_eq
same_type a b = text_eq a.pkg_path b.pkg_path && text_eq a.name b.name

pub record GoField : Type 0 where
  pub name : Text
  pub type_ : GoType
  pub orm_tag : Text
  pub exported : Bool
  pub anonymous : Bool

-- `ast.Expr`: an expression of another form is its Go type's name, which `%T` prints.
pub data Expr : Type 0 where
  ident : Text → Expr
  selector : Expr → Text → Expr
  star : Expr → Expr
  array_type : Expr → Expr
  other_expr : Text → Expr

unfoldable pub expr_string : Expr → Text
expr_string (ident n) = n
expr_string (selector x sel) = expr_string x ++ txt "." ++ sel
expr_string (star x) = txt "*" ++ expr_string x
expr_string (array_type e) = txt "[]" ++ expr_string e
expr_string (other_expr t) = t

-- `ast.Field`: an embedded field has no names; `tag` is the literal.
pub record AstField : Type 0 where
  pub names : List Text
  pub type_ : Expr
  pub tag : Option Text
