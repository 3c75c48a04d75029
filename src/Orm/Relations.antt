-- ===== src/Orm/Relations.antt =====
-- orm/hooks_relations.go: the fields of a parent, the keys of a table and the statement that reads the
-- related rows. Reflection gives the fields: a struct is a tree of fields, a field that holds another
-- model carries the table of that model, and a nil embedded pointer has no fields.
pub mod Statements
pub mod Loading
use dorm.Prelude.{
  ℕ, suc, ◌+◌, ◌==◌, Bool, true, false, ◌||◌, Option, none, some, List, [], ◌∷◌, ◌++◌, map, length,
  Text, txt, text_eq, is_nil, if◌then◌else◌,
}
use dorm.Value.{Any}
use dorm.Schema.Types.{Column, Table}
use dorm.Schema.Names.{Unicode, to_snake_case}
use dorm.Errors.{Kind, Result, Error, ok, err, new, wrap}
use dorm.Dialect.{Dialect, SelectParts}
use dorm.Access.Policy.{Ctx}
use dorm.Access.Engine.{Predicate}
use dorm.Orm.Exec.{Exec, ◌>>=◌, ◌>>◌, lift, raise, pure, continue}
use dorm.Orm.Query.{bind_clause, columns_for_table}
use dorm.Orm.Write.{Values, is_zero_value, access_predicates}

-- What a field can hold: a model or a pointer to one, a slice of models, a pointer to something else,
-- a slice of something else, or another value.
pub data Relation : Type 0 where
  one : Table → Relation
  many : Table → Relation
  one_other many_other no_relation : Relation

pub record Field : Type 0 where
  pub name : Text
  pub value : Any
  pub relation : Relation

pub data Fields : Type 0 where
  no_fields : Fields
  plain : Field → Fields → Fields
  embedded : Field → Fields → Fields → Fields

-- What a relation's field is set to.
pub data Loaded : Type 0 where
  zero_value : Loaded
  one_row : Values → Loaded
  rows : List Values → Loaded

-- What loading works with: `strings.EqualFold`, `%q`, the character tables, the dialect, the
-- driver's query and the AfterFind hook of a row.
pub record Loader (W : Type 0) : Type 0 where
  pub equal_fold : Text → Text → Bool
  pub quote : Text → Text
  pub unicode : Unicode
  pub dialect : Dialect
  pub query : Text → List Any → Exec W (List Values)
  pub after_find : Values → Exec W Unit

module _ {W : Type 0} (l : Loader W) where
  same_name : Text → Text → Bool
  unfolding to_snake_case
  same_name field name =
      l.equal_fold field name
      || l.equal_fold (to_snake_case l.unicode field) (to_snake_case l.unicode name)

  unfoldable pub struct_field_by_name : Fields → Text → Option Field
  unfolding same_name
  struct_field_by_name no_fields name = none
  struct_field_by_name (plain f rest) name =
      let later = struct_field_by_name rest name in if same_name f.name name then some f else later
  struct_field_by_name (embedded f inner rest) name =
      let within = struct_field_by_name inner name in
      let later = struct_field_by_name rest name in
      if same_name f.name name then some f else elim within [ some g ↦ some g | none ↦ later ]

  unfoldable pub struct_field_by_candidates : Fields → List Text → Option Field
  unfolding struct_field_by_name
  struct_field_by_candidates tree [] = none
  struct_field_by_candidates tree (c ∷ cs) =
      let later = struct_field_by_candidates tree cs in
      elim (struct_field_by_name tree c) [ some f ↦ some f | none ↦ later ]

-- The names of the columns that are marked as keys, and the first column that is called id.
marked_keys : List Column → List Text
marked_keys [] = []
marked_keys (c ∷ cs) = let rest = marked_keys cs in if c.primary_key then c.name ∷ rest else rest

id_column : List Column → List Text
unfolding text_eq
id_column [] = []
id_column (c ∷ cs) =
    let rest = id_column cs in if text_eq c.name (txt "id") then c.name ∷ [] else rest

unfoldable pub primary_key_columns_for_table : Table → List Text
unfolding marked_keys id_column
primary_key_columns_for_table table =
    if is_nil (marked_keys table.columns)
    then id_column table.columns
    else marked_keys table.columns

-- The loop of `appendAccessWhere`, with the clauses and the arguments so far.
unfoldable pub append_loop : Dialect → List Predicate → List Text → List Any → List Text × List Any
unfolding bind_clause
append_loop d [] clauses args = (clauses, args)
append_loop d (p ∷ ps) clauses args =
    let (clause, clause_args) = bind_clause d p.sql p.args (length args + 1) in
    append_loop d ps (clauses ++ clause ∷ []) (args ++ clause_args)

unfoldable pub append_access_where :
    Dialect → List Predicate → List Text → List Any → List Text × List Any
unfolding append_loop
append_access_where d extra where_ args =
    if is_nil extra
    then (where_, args)
    else let (clauses, out_args) = append_loop d extra [] args in (where_ ++ clauses, out_args)

-- The SELECT of the rows of a table whose column has a value.
unfoldable pub relation_parts : Dialect → Ctx → Table → Text → Any → SelectParts × List Any
unfolding append_access_where access_predicates columns_for_table
relation_parts d ctx table column v =
    let (where_, args) =
      append_access_where d (access_predicates ctx table)
        ((d.quote_ident column ++ (txt " = " ++ d.placeholder 1)) ∷ []) (v ∷ []) in
    (
      record {
        table = table.name;
        columns = map d.quote_ident (columns_for_table table);
        distinct = false;
        joins = [];
        where_ = where_;
        group_by = [];
        having = [];
        order_by = [];
        limit = none;
        offset = none;
      },
      args,
    )
