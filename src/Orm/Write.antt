-- ===== src/Orm/Write.antt =====
-- orm/orm.go: the values, SET clauses and WHERE clauses of a statement that writes. A model is the
-- struct behind the pointer: its exported fields by their index key, which is what the reflection
-- cache of schema/traits.go gives. What a dry run records on the way stands in Orm/DryRun/Events.
pub mod Clauses
pub mod Last
pub mod Fields
pub mod Models
pub mod Versions
unfoldable pub use Models.*
unfoldable pub use Versions.*
use dorm.Prelude.{
  ℕ, suc, ◌+◌, ◌%◌, ◌-◌, ◌==◌, leb, Bool, true, false, not, ◌&&◌, ◌||◌, Option, none, some, List,
  [], ◌∷◌, ◌++◌, map, any, keep_if, length, Text, txt, text_eq, is_nil, is_some, if◌then◌else◌,
}
use dorm.Value.{
  Any, Value, IntType, str, num, flag, time, opaque, int, int8, int16, int32, int64, uint, uint8,
  uint16, uint32, uint64, ℤ, pos, negsuc,
}
use dorm.Schema.Types.{Column, Table, ScopeKind, unscoped}
use dorm.Schema.Names.{Unicode, to_snake_case}
use dorm.Errors.{Kind, Result, Error, ok, err, new, wrap, ◌>>=◌}
use dorm.Dialect.{Dialect}
use dorm.Access.Policy.{Ctx, policy_from_context, enforces_audit}
use dorm.Access.Engine
use dorm.Access.Engine.{Operation, Predicate, FieldValue, apply}
use dorm.Orm.Query.{bind_clause}

write_all : Runtime → List FieldValue → Values × Model → Values × Model
write_all rt [] s = s
write_all rt (w ∷ ws) s = write_all rt ws (set_both rt w.field w.value s)

unfoldable pub is_insert : Operation → Bool
is_insert Engine.insert = true
is_insert _ = false

unfoldable pub is_delete : Operation → Bool
is_delete Engine.delete = true
is_delete _ = false

-- The `switch` on one column: which of the timestamps is set now.
stamps : Operation → Column → Bool
unfolding is_insert is_delete
stamps op col =
    (col.created_at && is_insert op) || col.updated_at || (col.deleted_at && is_delete op)

stamp_all : Runtime → Operation → Any → List Column → Values × Model → Values × Model
unfolding stamps
stamp_all rt op now [] s = s
stamp_all rt op now (col ∷ cols) s =
    stamp_all rt op now cols (if stamps op col then set_both rt col.name now s else s)

unfoldable pub populate_audit_and_scope :
    Runtime → Ctx → Table → Operation → Any → Values × Model → Result (Values × Model)
unfolding write_all stamp_all
populate_audit_and_scope rt ctx table op now s = do
  found ← apply ctx (some table) op
  let written = write_all rt found.1 s
  ok (
      if enforces_audit (policy_from_context ctx)
      then stamp_all rt op now table.columns written
      else written)

unfoldable pub is_scoped : ScopeKind → Bool
is_scoped unscoped = false
is_scoped _ = true

-- One column of `applyStructFieldValues` whose field holds `v`.
struct_value : Runtime → Any → Bool → Column → Any → Values × Model → Values × Model
unfolding is_zero_value is_scoped
struct_value rt now is_insert col v (values, m) =
    if is_zero_value v
    then if (col.created_at && is_insert) || col.updated_at || (col.deleted_at && not is_insert)
      then set_both rt col.name now (values, m)
      else if col.created_by || col.updated_by || col.deleted_by || is_scoped col.scope
      then (values, m)
      else ((col.name, v) ∷ values, m)
    else ((col.name, v) ∷ values, m)

unfoldable pub struct_column : Runtime → Any → Bool → Column → Values × Model → Values × Model
unfolding struct_value lookup field_by_column
struct_column rt now is_insert col (values, m) =
    if col.version || is_some (lookup col.name values)
    then (values, m)
    else elim (field_by_column rt m col.name) [
      | none ↦ (values, m)
      | some v ↦ struct_value rt now is_insert col v (values, m)
    ]

struct_loop : Runtime → Any → Bool → List Column → Values × Model → Values × Model
unfolding struct_column
struct_loop rt now is_insert [] s = s
struct_loop rt now is_insert (col ∷ cols) s =
    struct_loop rt now is_insert cols (struct_column rt now is_insert col s)

unfoldable pub apply_struct_field_values :
    Runtime → Ctx → Table → Any → Bool → Values × Model → Values × Model
unfolding struct_loop
apply_struct_field_values rt ctx table now is_insert s =
    if enforces_audit (policy_from_context ctx)
    then struct_loop rt now is_insert table.columns s
    else s

ordered_loop : Bool → Values → List Column → List Text × List Any
unfolding lookup
ordered_loop include_primary values [] = ([], [])
ordered_loop include_primary values (col ∷ cols) =
    let (names, args) = ordered_loop include_primary values cols in
    if not include_primary && col.primary_key
    then (names, args)
    else elim (lookup col.name values) [
      | none ↦ (names, args)
      | some v ↦ (col.name ∷ names, v ∷ args)
    ]

unfoldable pub ordered_columns_and_args : Table → Values → Bool → List Text × List Any
unfolding ordered_loop
ordered_columns_and_args table values include_primary =
    ordered_loop include_primary values table.columns

abbrev names_if : (Column → Bool) → Table → List Text
names_if p table = map (λ c. c.name) (keep_if p table.columns)

unfoldable pub returning_columns : Table → List Text
returning_columns =
    names_if (λ c. c.primary_key || c.created_at || c.updated_at || c.deleted_at || c.version)

unfoldable pub primary_key_column_names : Table → List Text
primary_key_column_names = names_if (λ c. c.primary_key)

unfoldable pub conflict_columns : Table → List Text
conflict_columns = names_if (λ c. c.primary_key || c.unique)

-- `"name" = $i`
assignment : Dialect → Text → ℕ → Text
assignment d name i = d.quote_ident name ++ (txt " = " ++ d.placeholder i)

unfoldable pub mentions : List Text → Text → Bool
unfolding text_eq
mentions names name = any (λ n. text_eq n name) names

set_loop : Dialect → Values → List Text → ℕ → List Column → List Text × List Any
unfolding assignment mentions lookup
set_loop d values pk i [] = ([], [])
set_loop d values pk i (col ∷ cols) =
    elim (if mentions pk col.name || col.version then none else lookup col.name values) [
      | none ↦ set_loop d values pk i cols
      | some v ↦
          let (set, args) = set_loop d values pk (i + 1) cols in
          (assignment d col.name i ∷ set, v ∷ args)
    ]

unfoldable pub update_set_clauses : Table → Values → List Text → Dialect → List Text × List Any
unfolding set_loop
update_set_clauses table values pk d = set_loop d values pk 1 table.columns

excluded : Dialect → Text → Text
excluded d name = d.quote_ident name ++ (txt " = EXCLUDED." ++ d.quote_ident name)

unfoldable pub upsert_set_clauses : Table → Values → List Text → Dialect → List Text
unfolding excluded mentions lookup
upsert_set_clauses table values conflict d = map (excluded d) (
    names_if
      (λ c. not (mentions conflict c.name) && not c.version && is_some (lookup c.name values))
      table)

-- `"col" = $i` for the key columns, numbered from `i`.
unfoldable pub key_clauses : Dialect → ℕ → List Text → List Text
unfolding assignment
key_clauses d i [] = []
key_clauses d i (col ∷ cols) = assignment d col i ∷ key_clauses d (i + 1) cols

-- The number after a predicate counts the arguments that it bound.
extra_clauses : Dialect → ℕ → List Predicate → List Text × List Any
unfolding bind_clause
extra_clauses d i [] = ([], [])
extra_clauses d i (p ∷ ps) =
    let (text, args) = bind_clause d p.sql p.args i in
    let (texts, rest) = extra_clauses d (i + length args) ps in (text ∷ texts, args ++ rest)

unfoldable pub build_where_clauses :
    List Text → List Any → List Predicate → ℕ → Dialect → List Text × List Any
unfolding key_clauses extra_clauses
build_where_clauses cols args extra start d =
    let (texts, rest) = extra_clauses d (start + length cols) extra in
    (key_clauses d start cols ++ texts, args ++ rest)

-- The error of the engine is dropped: there are no predicates then.
unfoldable pub access_predicates : Ctx → Table → List Predicate
access_predicates ctx table = elim (apply ctx (some table) Engine.query) [
  | ok found ↦ found.0
  | err e ↦ []
]

key_values_loop : Runtime → Model → List Column → Result (List Text × List Any)
unfolding field_by_column
key_values_loop rt m [] = ok ([], [])
key_values_loop rt m (col ∷ cols) =
    let rest = key_values_loop rt m cols in
    if col.primary_key
    then elim (field_by_column rt m col.name) [
      | none ↦ err (new Kind.invalid_schema (txt "orm: missing primary key field " ++ col.name))
      | some v ↦ rest >>= λ found. ok (col.name ∷ found.0, v ∷ found.1)
    ]
    else rest

unfoldable pub primary_key_values : Runtime → Table → Model → Result (List Text × List Any)
unfolding key_values_loop
primary_key_values rt table m = key_values_loop rt m table.columns
