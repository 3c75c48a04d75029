-- ===== src/Orm/Session/Statements.antt =====
-- orm/orm.go: the statements of update, softDelete and delete, with their arguments.
use dorm.Prelude.{
  ◌+◌, false, Option, none, some, List, [], ◌∷◌, ◌++◌, length, Text, txt, is_nil, if◌then◌else◌,
}
use dorm.Value.{Any}
use dorm.Schema.Types.{Column, Table}
use dorm.Errors.{Kind, Result, ok, err, new, wrap}
use dorm.Dialect.{Dialect}
use dorm.Access.Policy.{Ctx}
use dorm.Access.Engine
use dorm.Access.Engine.{Predicate, soft_delete_column}
use dorm.Orm.Query.{QueryOption, run_option, QueryState, initial_state}
use dorm.Orm.Write.{
  Runtime, Model, Values, VersionInfo, set_both, populate_audit_and_scope, returning_columns,
  primary_key_column_names, optimistic_locking_info, update_set_clauses, build_where_clauses,
  access_predicates, primary_key_values,
}

unfoldable pub wrapped : {A : Type 0} → Text → Result A → Result A
wrapped message (ok a) = ok a
wrapped message (err e) = err (wrap Kind.unsupported_feature message e)

-- `Update` finds its rows by the primary key, `UpdateWhere` by query options. The loop over the
-- options does not look at the state's error; a nil option would panic and is not modelled.
pub data Target : Type 0 where
  by_key : Target
  by_options : List QueryOption → Target

unfoldable pub run_all : List QueryOption → QueryState → QueryState
unfolding run_option
run_all [] q = q
run_all (opt ∷ opts) q = run_all opts (run_option opt q)

-- The version column's own SET clause and WHERE predicate.
unfoldable pub version_set : Dialect → Option VersionInfo → List Text
version_set d none = []
version_set d (some v) =
    (d.quote_ident v.column ++ (txt " = " ++ (d.quote_ident v.column ++ txt " + 1"))) ∷ []

unfoldable pub version_predicate : Dialect → Option VersionInfo → List Predicate
version_predicate d none = []
version_predicate d (some v) =
    record { sql = d.quote_ident v.column ++ txt " = ?"; args = v.current ∷ [] } ∷ []

-- The key columns with their values, and the predicates, that pick the rows of an update.
unfoldable pub update_rows :
    Runtime → Ctx → Table → Target → Model → Result (List Text × List Any × List Predicate)
unfolding primary_key_values access_predicates run_all initial_state
update_rows rt ctx table by_key m = elim (primary_key_values rt table m) [
  | err e ↦ err e
  | ok (cols, args) ↦
      if is_nil cols
      then err (new Kind.invalid_schema (txt "orm: update requires primary key"))
      else ok (cols, args, access_predicates ctx table)
]
update_rows rt ctx table (by_options opts) m =
    let wanted = (run_all opts (initial_state table false)).where_ in
    if is_nil wanted
    then err (new Kind.invalid_schema (txt "orm: updatewhere requires where clauses"))
    else ok ([], [], wanted ++ access_predicates ctx table)

unfoldable pub rendered_update :
    Dialect → Table → List Text → List Text → List Any → Result (Text × List Any)
unfolding wrapped returning_columns
rendered_update d table set clauses args =
    elim (wrapped (txt "orm: render update")
      (d.render_update table.name set clauses (returning_columns table))) [
        | err e ↦ err e
        | ok text ↦ ok (text, args)
      ]

-- The statement of an update: its text and its arguments.
unfoldable pub update_statement :
    Runtime → Dialect → Ctx → Table → Target → Values × Model → Result (Text × List Any)
unfolding primary_key_column_names optimistic_locking_info update_set_clauses version_set
    version_predicate update_rows build_where_clauses rendered_update
update_statement rt d ctx table target (values, m) =
    let info = optimistic_locking_info rt table m in
    let (set, args) = update_set_clauses table values (primary_key_column_names table) d in
    if is_nil set
    then err (new Kind.invalid_schema (txt "orm: no updatable columns for " ++ table.name))
    else elim (update_rows rt ctx table target m) [
      | err e ↦ err e
      | ok (cols, key_args, preds) ↦
          let (clauses, where_args) =
            build_where_clauses cols key_args (preds ++ version_predicate d info) (length args + 1)
              d in
          rendered_update d table (set ++ version_set d info) clauses (args ++ where_args)
    ]

-- The statement of a soft deletion, and the struct with its new fields.
unfoldable pub soft_delete_statement :
    Runtime → Dialect → Ctx → Table → Column → Any → Model → Result ((Text × List Any) × Model)
unfolding populate_audit_and_scope primary_key_values update_set_clauses build_where_clauses wrapped
soft_delete_statement rt d ctx table soft now given =
    elim (populate_audit_and_scope rt ctx table Engine.delete now ([], given)) [
      | err e ↦ err e
      | ok populated ↦
          let (values, m) = set_both rt soft.name now populated in
          elim (primary_key_values rt table m) [
            | err e ↦ err e
            | ok (cols, key_args) ↦
                let (set, args) = update_set_clauses table values cols d in
                let fallback = (d.quote_ident soft.name ++ (txt " = " ++ d.placeholder 1)) ∷ [] in
                let final_set = if is_nil set then fallback else set in
                let final_args : List Any = if is_nil set then now ∷ [] else args in
                let (clauses, where_args) =
                  build_where_clauses cols key_args (access_predicates ctx table)
                    (length final_args + 1) d in
                elim (wrapped (txt "orm: render soft delete")
                  (d.render_update table.name final_set clauses [])) [
                    | err e ↦ err e
                    | ok text ↦ ok ((text, final_args ++ where_args), m)
                  ]
          ]
    ]

-- The DELETE of one row by its key, further limited by predicates.
unfoldable pub delete_keyed :
    Runtime → Dialect → Table → Model → List Predicate → Result (Text × List Any)
unfolding primary_key_values build_where_clauses wrapped
delete_keyed rt d table m preds = elim (primary_key_values rt table m) [
  | err e ↦ err e
  | ok (cols, key_args) ↦
      if is_nil cols
      then err (new Kind.invalid_schema (txt "orm: delete requires primary key"))
      else (let (clauses, where_args) = build_where_clauses cols key_args preds 1 d in
          elim (wrapped (txt "orm: render delete") (d.render_delete table.name clauses [])) [
            | err e ↦ err e
            | ok text ↦ ok (text, where_args)
          ])
]

-- The statement of a deletion from a table that is not soft-deleted.
unfoldable pub delete_statement : Runtime → Dialect → Ctx → Table → Model → Result (Text × List Any)
unfolding delete_keyed access_predicates
delete_statement rt d ctx table m = delete_keyed rt d table m (access_predicates ctx table)
