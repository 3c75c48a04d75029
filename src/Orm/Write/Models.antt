-- ===== src/Orm/Write/Models.antt =====
-- orm/orm.go: a model as its fields by index key, and reading and setting a field by its column.
use dorm.Prelude.{
  ◌==◌, Bool, true, false, not, Option, none, some, List, [], ◌∷◌, map, Text, text_eq, is_nil,
  if◌then◌else◌,
}
use dorm.Value.{Any, Value, str, num, flag, time, opaque, pos, negsuc}
use dorm.Schema.Names.{Unicode, to_snake_case}

abbrev pub Values : Type 0
Values = List (Text × Any)

-- The last write of a key comes first.
unfoldable pub lookup : Text → Values → Option Any
unfolding text_eq
lookup k [] = none
lookup k ((j, v) ∷ m) = if text_eq j k then some v else lookup k m

unfoldable pub update_key : Text → Any → Values → Values
unfolding text_eq
update_key k v [] = []
update_key k v ((j, w) ∷ m) =
    let rest = update_key k v m in if text_eq j k then (j, v) ∷ m else (j, w) ∷ rest

-- What the program takes from the Go runtime: character tables, and `assign old new`, the field
-- after `assignReflectValue` has converted a value that is not nil to the field's type.
pub record Runtime : Type 0 where
  pub unicode : Unicode
  pub assign : Any → Value → Any

abbrev pub Model : Type 0
Model = Values

unfoldable pub field_key : Runtime → Text → Text
unfolding to_snake_case
field_key rt col = map rt.unicode.to_lower (to_snake_case rt.unicode col)

unfoldable pub field_by_column : Runtime → Model → Text → Option Any
unfolding lookup field_key
field_by_column rt m col = lookup (field_key rt col) m

unfoldable pub assigned : Runtime → Any → Any → Any
assigned rt old none = old
assigned rt old (some v) = rt.assign old v

unfoldable pub set_field_by_column : Runtime → Model → Text → Any → Model
unfolding field_by_column assigned update_key field_key
set_field_by_column rt m col v = elim (field_by_column rt m col) [
  | none ↦ m
  | some old ↦ update_key (field_key rt col) (assigned rt old v) m
]

unfoldable pub is_zero_value : Any → Bool
is_zero_value none = true
is_zero_value (some (str t)) = is_nil t
is_zero_value (some (num t (pos n))) = n == 0
is_zero_value (some (num t (negsuc n))) = false
is_zero_value (some (flag b)) = not b
is_zero_value (some (time t)) = t == 0
is_zero_value (some (opaque n z)) = z

-- `values[k] = v` together with the struct's field.
abbrev pub set_both : Runtime → Text → Any → Values × Model → Values × Model
set_both rt k v (values, m) = ((k, v) ∷ values, set_field_by_column rt m k v)
