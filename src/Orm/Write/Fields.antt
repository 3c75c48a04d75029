-- ===== src/Orm/Write/Fields.antt =====
-- Which columns of a struct reach a statement, and with which values.
use dorm.Prelude.{
  Bool, true, false, Option, none, some, List, [], ◌∷◌, ◌++◌, ◌≡◌, refl, ◌∙◌, arith, Text, text_eq,
  text_eq_refl, text_eq_iff, All,
}
use dorm.Value.{Any}
use dorm.Schema.Types.{Column, Table}
use dorm.Access.Policy.{Ctx, policy_from_context, enforces_audit}
use dorm.Orm.Write.{
  Runtime, Model, Values, lookup, update_key, field_key, field_by_column, set_field_by_column,
  assigned, is_zero_value, struct_value, struct_column, struct_loop, apply_struct_field_values,
}

-- Neither the column's name nor its struct field is that of another column.
abbrev IsApart : Runtime → Column → Column → Type 0
IsApart rt col c =
    (text_eq c.name col.name ≡ false)
    × (text_eq (field_key rt c.name) (field_key rt col.name) ≡ false)

lookup-update_key_apart :
    (k j : Text) (v : Any) (m : Values)
    → text_eq k j ≡ false
    → lookup j (update_key k v m) ≡ lookup j m
unfolding lookup update_key
lookup-update_key_apart k j v [] h = refl
lookup-update_key_apart k j v ((i, w) ∷ m) h =
    ground (arith, text_eq_iff i k, lookup-update_key_apart k j v m h)

abbrev or_else : Option Any → Any
or_else none = none
or_else (some v) = v

module _ (rt : Runtime) where
  field-set_field_apart :
      (m : Model) (c col : Text) (v : Any)
      → text_eq (field_key rt c) (field_key rt col) ≡ false
      → field_by_column rt (set_field_by_column rt m c v) col ≡ field_by_column rt m col
  unfolding set_field_by_column field_by_column
  field-set_field_apart m c col v h = ground (
    arith,
    lookup-update_key_apart (field_key rt c) (field_key rt col)
        (assigned rt (or_else (lookup (field_key rt c) m)) v) m h,
  )

  module _ (now : Any) (is_insert : Bool) where
    -- A column leaves another one's value and field alone.
    struct_column-apart :
        (col c : Column) (values : Values) (m : Model)
        → IsApart rt col c
        → let s = struct_column rt now is_insert c (values, m) in
          (lookup col.name s.0 ≡ lookup col.name values)
          × (field_by_column rt s.1 col.name ≡ field_by_column rt m col.name)
    unfolding struct_column struct_value lookup
    struct_column-apart col c values m h =
        ground (arith, field-set_field_apart m c.name col.name now h.1)

    -- A value that is there stays.
    struct_column-keeps :
        (n : Text) (v : Any) (c : Column) (values : Values) (m : Model)
        → lookup n values ≡ some v
        → lookup n (struct_column rt now is_insert c (values, m)).0 ≡ some v
    unfolding struct_column struct_value lookup
    struct_column-keeps n v c values m h = ground (arith, text_eq_iff c.name n)

    struct_loop-keeps :
        (n : Text) (v : Any) (cols : List Column) (s : Values × Model)
        → lookup n s.0 ≡ some v
        → lookup n (struct_loop rt now is_insert cols s).0 ≡ some v
    unfolding struct_loop
    struct_loop-keeps n v [] s h = h
    struct_loop-keeps n v (c ∷ cols) s h =
        struct_loop-keeps n v cols (struct_column rt now is_insert c s)
          (struct_column-keeps n v c s.0 s.1 h)

-- A deletion timestamp that the struct leaves at zero is set, on an update too.
module _ (rt : Runtime) (now : Any) (col : Column) (plain : col.version ≡ false)
    (marked : col.deleted_at ≡ true) where
  stamped_here :
      (values : Values) (m : Model) (z : Any)
      → lookup col.name values ≡ none
      → field_by_column rt m col.name ≡ some z
      → is_zero_value z ≡ true
      → lookup col.name (struct_column rt now false col (values, m)).0 ≡ some now
  unfolding struct_column struct_value lookup
  stamped_here values m z missing held zero = ground (arith, text_eq_refl col.name)

  stamped_in_loop :
      (before after : List Column) (s : Values × Model) (z : Any)
      → All (IsApart rt col) before
      → lookup col.name s.0 ≡ none
      → field_by_column rt s.1 col.name ≡ some z
      → is_zero_value z ≡ true
      → lookup col.name (struct_loop rt now false (before ++ col ∷ after) s).0 ≡ some now
  unfolding struct_loop
  stamped_in_loop [] after s z apart missing held zero =
      struct_loop-keeps rt now false col.name now after (struct_column rt now false col s)
        (stamped_here s.0 s.1 z missing held zero)
  stamped_in_loop (c ∷ before) after s z apart missing held zero =
      let (same_value, same_field) = struct_column-apart rt now false col c s.0 s.1 apart.0 in
      stamped_in_loop before after (struct_column rt now false c s) z apart.1 (same_value ∙ missing)
        (same_field ∙ held) zero

-- The values that `Update` takes from the struct of a live row hold the current time for its
-- `DeletedAt` column: where the policy is not the system policy, the column is no version column,
-- no column before it shares its name or its field, nothing has written it before, and the struct's
-- field is zero, as it is while the row is not deleted, the value to be written is the current time.
pub update_values-stamp_deleted :
    (rt : Runtime) (ctx : Ctx) (table : Table) (now z : Any) (s : Values × Model)
    (before after : List Column) (col : Column)
    → enforces_audit (policy_from_context ctx) ≡ true
    → table.columns ≡ before ++ col ∷ after
    → All (IsApart rt col) before
    → col.version ≡ false
    → col.deleted_at ≡ true
    → lookup col.name s.0 ≡ none
    → field_by_column rt s.1 col.name ≡ some z
    → is_zero_value z ≡ true
    → lookup col.name (apply_struct_field_values rt ctx table now false s).0 ≡ some now
unfolding apply_struct_field_values
update_values-stamp_deleted rt ctx table now z s before after col e split apart plain marked missing
      held zero =
    rw (e, split) (stamped_in_loop rt now col plain marked before after s z apart missing held zero)
