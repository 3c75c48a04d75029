-- ===== src/Dialect/Postgres/Migration.antt =====
-- dialect/postgres/postgres.go: the statements of schema operations. Where the code would dereference a
-- nil column, index or constraint, which no comparison makes, the result is the error
-- `nil_dereference`. `quote` is `%q` of Go's fmt.
pub mod Steps
pub mod Complete
use dorm.Prelude.{
  Bool, true, false, not, ◌&&◌, ◌||◌, Option, none, some, List, [], ◌∷◌, ◌++◌, map, any, Text, txt,
  text_eq, join, trim, is_nil, if◌then◌else◌,
}
use dorm.Errors.{Error, Result, ok, err, external, ◌>>=◌}
use dorm.Schema.Types.{
  TypeKind, unknown, bool, int, float, string, bytes, time, uuid, json, array, enum, custom,
  SqlType, plain, array_of, info, type_kind_text, Column, Index, Constraint, ConstraintKind,
  primary_key, unique, foreign_key, check, constraint_kind_text, Table,
}
use dorm.Schema.Names.{Unicode, ends_with}
use dorm.Schema.Diff.{
  Operation, OperationKind, create_table, drop_table, add_column, drop_column, alter_column,
  create_index, drop_index, create_constraint, drop_constraint,
}
use dorm.Dialect.Postgres.{quote_ident, join_quoted}
use dorm.Dialect.Postgres.Columns.{render_type, when, column_definition}

-- `ALTER TABLE t ALTER COLUMN c` with its end.
alter : Text → Text → Text → Text
unfolding quote_ident
alter table column what =
    txt "ALTER TABLE "
    ++ (quote_ident table ++ (txt " ALTER COLUMN " ++ (quote_ident column ++ what)))

abbrev differ : Bool → Bool → Bool
differ true b = not b
differ false b = b

unfoldable pub alter_statements : Unicode → Text → Column → Column → List Text
unfolding alter when render_type type_kind_text text_eq
alter_statements u table c p =
    when
      (not (text_eq (info c.type_).name (info p.type_).name)
        || not (text_eq (type_kind_text (info c.type_).kind) (type_kind_text (info p.type_).kind)))
      (alter table c.name (txt " TYPE " ++ render_type u c.type_))
    ++ (when (differ c.nullable p.nullable)
          (alter table c.name (if c.nullable then txt " DROP NOT NULL" else txt " SET NOT NULL"))
        ++ when (not (text_eq c.default_ p.default_)) (
            alter table c.name (
              if is_nil c.default_
              then txt " DROP DEFAULT"
              else txt " SET DEFAULT " ++ c.default_)))

-- The text of the statements of one alteration.
rendered : List Text → Text
unfolding join
rendered [] = txt "-- no-op"
rendered (s ∷ ss) = join (b';' ∷ b'\n' ∷ []) (s ∷ ss) ++ txt ";"

unfoldable pub render_alter_column : Unicode → Text → Column → Column → Text
unfolding alter_statements rendered
render_alter_column u table c p = rendered (alter_statements u table c p)

clause_if : Text → Text → Text
clause_if keyword t = if is_nil t then [] else keyword ++ t

unfoldable pub render_table_constraint : (Text → Text) → Constraint → Result Text
unfolding join_quoted quote_ident clause_if constraint_kind_text
render_table_constraint quote c = elim c.kind [
  | primary_key ↦ ok (txt "PRIMARY KEY (" ++ (join_quoted c.columns ++ txt ")"))
  | unique ↦ ok (txt "UNIQUE (" ++ (join_quoted c.columns ++ txt ")"))
  | foreign_key ↦ ok (
      txt "FOREIGN KEY ("
      ++ (join_quoted c.columns
          ++ (txt ") REFERENCES "
              ++ (quote_ident c.referenced_table
                  ++ (txt " ("
                      ++ (join_quoted c.referenced_columns
                          ++ (txt ")"
                              ++ (clause_if (txt " ON DELETE ") c.on_delete
                                  ++ clause_if (txt " ON UPDATE ") c.on_update))))))))
  | check ↦ ok (txt "CHECK (" ++ (c.expression ++ txt ")"))
  | ConstraintKind.other k ↦
      err (external (txt "postgres: unsupported constraint kind " ++ quote k))
]

table_constraints : (Text → Text) → List Constraint → Result (List Text)
unfolding render_table_constraint
table_constraints quote [] = ok []
table_constraints quote (c ∷ cs) = render_table_constraint quote c >>= λ def.
    table_constraints quote cs >>= λ defs. ok (def ∷ defs)

render_create_table : (Text → Text) → Unicode → Text → Option Table → Result Text
unfolding table_constraints column_definition quote_ident join
render_create_table quote u table none = err (
    external (
      if is_nil table
      then txt "postgres: create table missing table name"
      else txt "postgres: create table missing table definition"))
render_create_table quote u table (some def) =
    if is_nil table
    then err (external (txt "postgres: create table missing table name"))
    else if is_nil def.columns
    then err (external (txt "postgres: create table requires columns"))
    else (table_constraints quote def.constraints >>= λ constraints. ok (
        txt "CREATE TABLE IF NOT EXISTS "
        ++ (quote_ident table
            ++ (b' ' ∷ b'(' ∷ b'\n' ∷ b' ' ∷ b' ' ∷ [])
            ++ (join (b',' ∷ b'\n' ∷ b' ' ∷ b' ' ∷ [])
                  (map (column_definition u) def.columns ++ constraints)
                ++ (b'\n' ∷ b')' ∷ b';' ∷ [])))))

render_create_index : Text → Index → Text
unfolding quote_ident join_quoted when join
render_create_index table i =
    join (txt " ") (
      txt "CREATE"
      ∷ (when i.unique (txt "UNIQUE")
          ++ (txt "INDEX IF NOT EXISTS" ∷ quote_ident i.name ∷ txt "ON" ∷ quote_ident table ∷ []
              ++ ((if is_nil i.method then [] else txt "USING" ∷ i.method ∷ [])
                  ++ (txt "("
                      ++ ((if is_nil i.expression then join_quoted i.columns else i.expression)
                          ++ txt ")"))
                    ∷ (if is_nil i.where_ then [] else txt "WHERE" ∷ i.where_ ∷ [])))))
    ++ txt ";"

nil_dereference : {A : Type 0} → Result A
nil_dereference = err (external (txt "nil dereference"))

-- `ALTER TABLE t`, and its end.
alter_table : Text → Text → Text
unfolding quote_ident
alter_table table rest = txt "ALTER TABLE " ++ (quote_ident table ++ rest)

with_part : {A : Type 0} → Option A → Result Text → (A → Result Text) → Result Text
with_part none missing f = missing
with_part (some a) missing f = f a

unfoldable pub render_operation : (Text → Text) → Unicode → Operation → Result Text
unfolding render_create_table column_definition render_alter_column render_create_index
    render_table_constraint nil_dereference alter_table with_part quote_ident
render_operation quote u op = elim op.kind [
  | create_table ↦ render_create_table quote u op.table op.table_def
  | drop_table ↦ ok (txt "DROP TABLE IF EXISTS " ++ (quote_ident op.table ++ txt " CASCADE;"))
  | add_column ↦ with_part op.column (err (external (txt "postgres: nil column"))) (λ c. ok (
      alter_table op.table
        (txt " ADD COLUMN IF NOT EXISTS " ++ (column_definition u c ++ txt ";"))))
  | drop_column ↦ with_part op.column nil_dereference (λ c.
      ok (alter_table op.table (txt " DROP COLUMN IF EXISTS " ++ (quote_ident c.name ++ txt ";"))))
  | alter_column ↦
      let missing : Result Text =
        err (external (txt "postgres: alter column requires column metadata")) in
      with_part op.column missing
        (λ c. with_part op.previous missing (λ p. ok (render_alter_column u op.table c p)))
  | create_index ↦
      with_part op.index (err (external (txt "postgres: create index requires index")))
        (λ i. ok (render_create_index op.table i))
  | drop_index ↦
      with_part op.index nil_dereference
        (λ i. ok (txt "DROP INDEX IF EXISTS " ++ (quote_ident i.name ++ txt ";")))
  | create_constraint ↦
      with_part op.constraint
        (err (external (txt "postgres: create constraint requires constraint")))
        (λ c. render_table_constraint quote c >>= λ def. ok (
          alter_table op.table
            (txt " ADD CONSTRAINT " ++ (quote_ident c.name ++ (txt " " ++ (def ++ txt ";"))))))
  | drop_constraint ↦ with_part op.constraint nil_dereference (λ c.
      ok (
        alter_table op.table
          (txt " DROP CONSTRAINT IF EXISTS " ++ (quote_ident c.name ++ txt ";"))))
]

unfoldable pub render_migration : (Text → Text) → Unicode → List Operation → Result (List Text)
unfolding render_operation
render_migration quote u [] = ok []
render_migration quote u (op ∷ ops) =
    render_operation quote u op >>= λ sql. render_migration quote u ops >>= λ rest. ok (sql ∷ rest)
