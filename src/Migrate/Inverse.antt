-- ===== src/Migrate/Inverse.antt =====
-- invertDiff of migrate/migrate.go: going down after going up. What a difference does to a database is
-- described here by itself: a database maps the names of its tables to the parts that they have.
use dorm.Prelude.{Option, none, some, List, [], ◌∷◌, ◌≡◌, Text, text_eq, if◌then◌else◌}
use dorm.Schema.Types.{Table, Column, Index, Constraint}
use dorm.Schema.Keys.{entry}
use dorm.Schema.Diff.{
  Operation, OperationKind, on_table, create_table, drop_table, add_column, drop_column,
  alter_column, create_index, drop_index, create_constraint, drop_constraint,
}

-- A map with another value at one key.
unfoldable pub put : {A : Type 0} → Text → A → (Text → A) → Text → A
unfolding text_eq
put k v f j = if text_eq j k then v else f j

-- The columns, indexes and constraints of a table by their names.
pub record Parts : Type 0 where
  pub columns : Text → Option Column
  pub indexes : Text → Option Index
  pub constraints : Text → Option Constraint

abbrev pub Database : Type 0
Database = Text → Option Parts

-- The parts of a new table.
unfoldable pub parts_of : Option Table → Parts
unfolding entry
parts_of none = record { columns = λ k. none; indexes = λ k. none; constraints = λ k. none }
parts_of (some t) = record {
  columns = λ k. entry (λ (c : Column). c.name) k t.columns;
  indexes = λ k. entry (λ (i : Index). i.name) k t.indexes;
  constraints = λ k. entry (λ (c : Constraint). c.name) k t.constraints;
}

abbrev mapped : {A : Type 0} → (A → A) → Option A → Option A
mapped f none = none
mapped f (some a) = some (f a)

-- A change of one table, if it is there.
unfoldable pub on_parts : Text → (Parts → Parts) → Database → Database
unfolding put
on_parts t f db = put t (mapped f (db t)) db

abbrev pub set_column : Text → Option Column → Parts → Parts
unfolding put
set_column k c p = record p { columns = put k c p.columns }

abbrev set_index : Text → Option Index → Parts → Parts
unfolding put
set_index k i p = record p { indexes = put k i p.indexes }

abbrev set_constraint : Text → Option Constraint → Parts → Parts
unfolding put
set_constraint k c p = record p { constraints = put k c p.constraints }

-- What an operation does. One without the part that it is about does nothing.
unfoldable pub on_column : (Column → Database → Database) → Option Column → Database → Database
on_column f none db = db
on_column f (some c) db = f c db

on_index : (Index → Database → Database) → Option Index → Database → Database
on_index f none db = db
on_index f (some i) db = f i db

on_constraint : (Constraint → Database → Database) → Option Constraint → Database → Database
on_constraint f none db = db
on_constraint f (some c) db = f c db

unfoldable pub done_by : OperationKind → Operation → Database → Database
unfolding put parts_of on_parts on_column on_index on_constraint set_column set_index set_constraint
done_by create_table op = put op.table (some (parts_of op.table_def))
done_by drop_table op = put op.table none
done_by add_column op = on_column (λ c. on_parts op.table (set_column c.name (some c))) op.column
done_by drop_column op = on_column (λ c. on_parts op.table (set_column c.name none)) op.column
done_by alter_column op = on_column (λ c. on_parts op.table (set_column c.name (some c))) op.column
done_by create_index op = on_index (λ i. on_parts op.table (set_index i.name (some i))) op.index
done_by drop_index op = on_index (λ i. on_parts op.table (set_index i.name none)) op.index
done_by create_constraint op =
    on_constraint (λ c. on_parts op.table (set_constraint c.name (some c))) op.constraint
done_by drop_constraint op =
    on_constraint (λ c. on_parts op.table (set_constraint c.name none)) op.constraint

-- The operations one after the other.
unfoldable pub run_diff : List Operation → Database → Database
unfolding done_by
run_diff [] db = db
run_diff (op ∷ ops) db = run_diff ops (done_by op.kind op db)

-- An operation fits a database: what it makes is not there yet, and what it takes away or alters is
-- there as it says. Nothing gives a dropped table back, so that operation is not among these.
pub data Fits (db : Database) : Operation → Type 0 where
  creates :
      (t : Text) (def : Option Table)
      → db t ≡ none
      → Fits db (record (on_table create_table t) { table_def = def })
  adds :
      (t : Text) (c : Column) (p : Parts)
      → db t ≡ some p
      → p.columns c.name ≡ none
      → Fits db (record (on_table add_column t) { column = some c })
  drops :
      (t : Text) (c : Column) (p : Parts)
      → db t ≡ some p
      → p.columns c.name ≡ some c
      → Fits db (record (on_table drop_column t) { column = some c })
  alters :
      (t : Text) (c b : Column) (p : Parts)
      → db t ≡ some p
      → c.name ≡ b.name
      → p.columns b.name ≡ some b
      → Fits db (record (on_table alter_column t) { column = some c; previous = some b })
  creates_index :
      (t : Text) (i : Index) (p : Parts)
      → db t ≡ some p
      → p.indexes i.name ≡ none
      → Fits db (record (on_table create_index t) { index = some i })
  drops_index :
      (t : Text) (i : Index) (p : Parts)
      → db t ≡ some p
      → p.indexes i.name ≡ some i
      → Fits db (record (on_table drop_index t) { index = some i })
  creates_constraint :
      (t : Text) (c : Constraint) (p : Parts)
      → db t ≡ some p
      → p.constraints c.name ≡ none
      → Fits db (record (on_table create_constraint t) { constraint = some c })
  drops_constraint :
      (t : Text) (c : Constraint) (p : Parts)
      → db t ≡ some p
      → p.constraints c.name ≡ some c
      → Fits db (record (on_table drop_constraint t) { constraint = some c })

-- Each operation fits what those before it have left.
unfoldable pub AllFit : List Operation → Database → Type 0
unfolding done_by
AllFit [] db = Unit
AllFit (op ∷ ops) db = Fits db op × AllFit ops (done_by op.kind op db)
