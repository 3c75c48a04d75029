-- ===== src/Schema/Diff.antt =====
-- schema/diff.go: the operations that lead from one schema to another; `Clone` and `Sort` of
-- schema/types.go. Values are not shared here, so a clone is the value itself; the entries of the
-- slices are not nil.
pub mod Agreement
pub mod Steps
use dorm.Prelude.{
  Bool, true, false, ◌&&◌, Option, none, some, is_some, List, [], ◌∷◌, ◌++◌, map, flat, Text, txt,
  text_eq, text_le, join, is_nil, if◌then◌else◌,
}
use dorm.Errors.{Kind, Result, ok, err, schema}
use dorm.Schema.Types.{
  Schema, Table, Column, Index, Constraint, info, type_kind_text, constraint_kind_text,
}
use dorm.Schema.Keys.{entry, sort_by, sorted_keys}

pub data OperationKind : Type 0 where
  create_table drop_table add_column drop_column alter_column : OperationKind
  create_index drop_index create_constraint drop_constraint : OperationKind

operation_kind_text : OperationKind → Text
operation_kind_text create_table = txt "create_table"
operation_kind_text drop_table = txt "drop_table"
operation_kind_text add_column = txt "add_column"
operation_kind_text drop_column = txt "drop_column"
operation_kind_text alter_column = txt "alter_column"
operation_kind_text create_index = txt "create_index"
operation_kind_text drop_index = txt "drop_index"
operation_kind_text create_constraint = txt "create_constraint"
operation_kind_text drop_constraint = txt "drop_constraint"

pub record Operation : Type 0 where
  pub kind : OperationKind
  pub table : Text
  pub table_def : Option Table
  pub column : Option Column
  pub previous : Option Column
  pub index : Option Index
  pub constraint : Option Constraint

-- An operation with only its kind and table set.
abbrev pub on_table : OperationKind → Text → Operation
on_table kind table = record {
  kind = kind;
  table = table;
  table_def = none;
  column = none;
  previous = none;
  index = none;
  constraint = none;
}

abbrev pub same_flag : Bool → Bool → Bool
same_flag true b = b
same_flag false true = false
same_flag false false = true

unfoldable pub columns_equal : Column → Column → Bool
unfolding text_eq type_kind_text
columns_equal a b =
    text_eq a.name b.name
    && text_eq (info a.type_).name (info b.type_).name
    && text_eq (type_kind_text (info a.type_).kind) (type_kind_text (info b.type_).kind)
    && same_flag (info a.type_).nullable (info b.type_).nullable
    && same_flag a.nullable b.nullable
    && same_flag a.primary_key b.primary_key
    && same_flag a.unique b.unique
    && same_flag a.identity b.identity
    && text_eq a.default_ b.default_
    && text_eq a.generated b.generated

-- `fmt.Sprint` of a slice of strings puts a space between them.
join_sorted : List Text → Text
unfolding sort_by text_le join
join_sorted vals = txt "[" ++ (join (txt " ") (sort_by text_le vals) ++ txt "]")

unfoldable pub indexes_equal : Index → Index → Bool
unfolding text_eq join_sorted
indexes_equal a b =
    text_eq a.name b.name
    && same_flag a.unique b.unique
    && text_eq a.expression b.expression
    && text_eq a.where_ b.where_
    && text_eq a.method b.method
    && text_eq (join_sorted a.columns) (join_sorted b.columns)

unfoldable pub constraints_equal : Constraint → Constraint → Bool
unfolding text_eq join_sorted constraint_kind_text
constraints_equal a b =
    text_eq a.name b.name
    && text_eq (constraint_kind_text a.kind) (constraint_kind_text b.kind)
    && text_eq (join_sorted a.columns) (join_sorted b.columns)
    && text_eq (join_sorted a.referenced_columns) (join_sorted b.referenced_columns)
    && text_eq a.referenced_table b.referenced_table
    && text_eq a.on_delete b.on_delete
    && text_eq a.on_update b.on_update
    && text_eq a.expression b.expression

module _ {A : Type 0} (name : A → Text) (changed : A → Option A → List Operation)
    (dropped : A → Operation) where
  -- One key of the first loop, by its entries.
  kept : Option A → Option A → List Operation
  kept none actual = []
  kept (some e) actual = changed e actual

  -- One key of the second loop.
  gone : Option A → Option A → List Operation
  gone none (some a) = dropped a ∷ []
  gone _ _ = []

  -- The two loops over the keys that the source has once for each kind of part.
  pub compare_parts : List A → List A → List Operation
  unfolding kept gone sorted_keys entry
  compare_parts expected actual =
      flat (λ k. kept (entry name k expected) (entry name k actual)) (sorted_keys name expected)
      ++ flat (λ k. gone (entry name k expected) (entry name k actual)) (sorted_keys name actual)

changed_column : Text → Column → Option Column → List Operation
unfolding columns_equal
changed_column table e none = record (on_table add_column table) { column = some e } ∷ []
changed_column table e (some a) =
    if columns_equal e a
    then []
    else record (on_table alter_column table) { column = some e; previous = some a } ∷ []

-- A changed index or constraint is created like a new one; the old one is not dropped.
changed_index : Text → Index → Option Index → List Operation
unfolding indexes_equal
changed_index table e none = record (on_table create_index table) { index = some e } ∷ []
changed_index table e (some a) =
    if indexes_equal e a then [] else record (on_table create_index table) { index = some e } ∷ []

changed_constraint : Text → Constraint → Option Constraint → List Operation
unfolding constraints_equal
changed_constraint table e none =
    record (on_table create_constraint table) { constraint = some e } ∷ []
changed_constraint table e (some a) =
    if constraints_equal e a
    then []
    else record (on_table create_constraint table) { constraint = some e } ∷ []

unfoldable pub compare_table : Table → Table → List Operation
unfolding compare_parts changed_column changed_index changed_constraint
compare_table expected actual =
    let table = expected.name in
    compare_parts (λ c. c.name) (changed_column table)
      (λ c. record (on_table drop_column table) { column = some c }) expected.columns actual.columns
    ++ (compare_parts (λ i. i.name) (changed_index table)
          (λ i. record (on_table drop_index table) { index = some i }) expected.indexes
          actual.indexes
        ++ compare_parts (λ c. c.name) (changed_constraint table)
            (λ c. record (on_table drop_constraint table) { constraint = some c })
            expected.constraints actual.constraints)

changed_table : Table → Option Table → List Operation
unfolding compare_table
changed_table e none = record (on_table create_table e.name) { table_def = some e } ∷ []
changed_table e (some a) = compare_table e a

-- By name: `Name < Name` of a stable sort.
abbrev name_le : {A : Type 0} → (A → Text) → A → A → Bool
name_le name a b = text_le (name a) (name b)

unfoldable pub sort_table : Table → Table
unfolding sort_by text_le
sort_table t = record t {
  columns = sort_by (name_le (λ c. c.name)) t.columns;
  indexes = sort_by (name_le (λ i. i.name)) t.indexes;
  constraints = sort_by (name_le (λ c. c.name)) t.constraints;
}

unfoldable pub sort_schema : Schema → Schema
unfolding sort_table
sort_schema s = record s {
  tables = sort_by (name_le (λ t. t.name)) (map sort_table s.tables);
  enums = sort_by (name_le (λ e. e.name)) s.enums;
  views = sort_by (name_le (λ v. v.name)) s.views;
}

operation_le : Operation → Operation → Bool
unfolding text_eq text_le operation_kind_text
operation_le a b =
    if text_eq a.table b.table
    then text_le (operation_kind_text a.kind) (operation_kind_text b.kind)
    else text_le a.table b.table

schema_label : Option Schema → Text
schema_label none = txt "nil"
schema_label (some s) = if is_nil s.name then txt "unknown" else s.name

unfoldable pub compare_schemas : Schema → Schema → List Operation
unfolding sort_schema compare_parts changed_table sort_by operation_le
compare_schemas expected actual = sort_by operation_le (
    compare_parts (λ t. t.name) changed_table
      (λ t. record (on_table drop_table t.name) { table_def = some t })
      (sort_schema expected).tables (sort_schema actual).tables)

unfoldable pub compare : Option Schema → Option Schema → Result (List Operation)
unfolding compare_schemas schema_label
compare (some expected) (some actual) = ok (compare_schemas expected actual)
compare expected actual = err (
    schema Kind.invalid_schema (schema_label expected) (schema_label actual)
      (txt "compare requires non-nil schemas"))
