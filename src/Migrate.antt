-- ===== src/Migrate.antt =====
-- migrate/migrate.go: the inverse of a difference between schemas, from which the down part of a
-- migration is rendered. A nil difference is no difference.
pub mod Inverse
pub mod Service
pub mod Generation
pub mod Writing
use dorm.Prelude.{none, List, [], ◌∷◌, ◌++◌}
use dorm.Schema.Diff.{
  Operation, OperationKind, on_table, create_table, drop_table, add_column, drop_column,
  alter_column, create_index, drop_index, create_constraint, drop_constraint,
}

-- The `switch` on one operation.
inverted : OperationKind → Operation → List Operation
inverted create_table op = on_table drop_table op.table ∷ []
inverted drop_table op = []
inverted add_column op = record (on_table drop_column op.table) { column = op.column } ∷ []
inverted drop_column op = record (on_table add_column op.table) { column = op.column } ∷ []
inverted alter_column op =
    record (on_table alter_column op.table) { column = op.previous; previous = op.column } ∷ []
inverted create_index op = record (on_table drop_index op.table) { index = op.index } ∷ []
inverted drop_index op = record (on_table create_index op.table) { index = op.index } ∷ []
inverted create_constraint op =
    record (on_table drop_constraint op.table) { constraint = op.constraint } ∷ []
inverted drop_constraint op =
    record (on_table create_constraint op.table) { constraint = op.constraint } ∷ []

-- The loop runs from the last operation to the first.
unfoldable pub invert_diff : List Operation → List Operation
unfolding inverted
invert_diff [] = []
invert_diff (op ∷ ops) = invert_diff ops ++ inverted op.kind op
