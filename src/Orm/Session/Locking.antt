-- ===== src/Orm/Session/Locking.antt =====
-- Optimistic locking: the version in the statement of an update, and what follows when no row has it.
use dorm.Prelude.{
  ℕ, ◌+◌, false, some, List, [], ◌∷◌, ◌++◌, append_assoc, length, length-append, is_nil, ◌≡◌, refl,
  sym, ◌∙◌, ap, Text, txt, arith, Bool-cases, inl, inr, ◌≢◌, is_some, true,
}
use dorm.Value.{Any, ℤ, pos}
use dorm.Schema.Types.{Table}
use dorm.Errors.{Result, ok, err, Result-cases}
use dorm.Dialect.{Dialect}
use dorm.Access.Policy.{Ctx}
use dorm.Access.Engine
use dorm.Access.Engine.{Predicate}
use dorm.Orm.Query.{bind_clause}
use dorm.Orm.Write.{
  Runtime, Model, Values, VersionInfo, populate_audit_and_scope, apply_struct_field_values,
  optimistic_locking_info, update_set_clauses, primary_key_column_names, primary_key_values,
  build_where_clauses, returning_columns,
}
use dorm.Orm.Write.Last.{build_where_clauses-snoc, primary_key_values-length}
use dorm.Orm.Session.{
  Env, Target, by_key, by_options, version_set, version_predicate, update_rows, update_statement,
  rendered_update, wrapped, exec_returning, invoke, update,
}

wrapped-ok :
    {A : Type 0} (message : Text) (r : Result A) (a : A) → wrapped message r ≡ ok a → r ≡ ok a
unfolding wrapped
wrapped-ok message (ok b) a e = e
wrapped-ok message (err x) a e = absurd (ground (arith, e))

rendered_update-ok :
    (d : Dialect) (table : Table) (set clauses : List Text) (more : List Any) (text : Text)
    (args : List Any)
    → rendered_update d table set clauses more ≡ ok (text, args)
    → (d.render_update table.name set clauses (returning_columns table) ≡ ok text) × (more ≡ args)
unfolding rendered_update wrapped
rendered_update-ok d table set clauses more text args e =
    ground
      (arith, e, Result-cases (d.render_update table.name set clauses (returning_columns table)))

append-filled : (xs : Text) (c : ℕ) (ys : Text) → is_nil (xs ++ c ∷ ys) ≡ false
append-filled [] c ys = refl
append-filled (x ∷ xs) c ys = refl

version_bound :
    (d : Dialect) (v : VersionInfo) (n : ℕ)
    → (bind_clause d (d.quote_ident v.column ++ txt " = ?") (v.current ∷ []) n).1 ≡ v.current ∷ []
unfolding bind_clause
version_bound d v n = ground (arith, append-filled (d.quote_ident v.column) b' ' (txt "= ?"))

update_rows-length :
    (rt : Runtime) (ctx : Ctx) (table : Table) (target : Target) (m : Model) (cols : List Text)
    (keys : List Any) (preds : List Predicate)
    → update_rows rt ctx table target m ≡ ok (cols, keys, preds)
    → length keys ≡ length cols
unfolding update_rows
update_rows-length rt ctx table by_key m cols keys preds e =
    elim (Result-cases (primary_key_values rt table m)) [
      | inl ((names, values), h) ↦
          let same = primary_key_values-length rt table m names values h in
          let picked : (names ≡ cols) × (values ≡ keys) =
            ground (arith, e, h, Bool-cases (is_nil names)) in
          rw (← picked.0, ← picked.1) same
      | inr (x, h) ↦ absurd (ground (arith, e, h))
    ]
update_rows-length rt ctx table (by_options opts) m cols keys preds e = ground (arith, e)

-- Where the table has a version column: the statement of an update that is built sets the version column
-- to itself plus one and, as its last condition, asks for the version that the struct has; it is the
-- last argument, and the number of its placeholder is the number of arguments.
pub update_statement-locks :
    (rt : Runtime) (d : Dialect) (ctx : Ctx) (table : Table) (target : Target)
    (filled : Values × Model) (v : VersionInfo) (text : Text) (args : List Any)
    → optimistic_locking_info rt table filled.1 ≡ some v
    → update_statement rt d ctx table target filled ≡ ok (text, args)
    → (set clauses : List Text) × (init : List Any) × (let tested =
          (bind_clause d (d.quote_ident v.column ++ txt " = ?") (v.current ∷ []) (length args)).0 in
        d.render_update table.name
          (set
            ++ (d.quote_ident v.column ++ (txt " = " ++ (d.quote_ident v.column ++ txt " + 1")))
              ∷ [])
          (clauses ++ tested ∷ [])
          (returning_columns table)
        ≡ ok text)
      × (args ≡ init ++ v.current ∷ [])
unfolding update_statement version_set version_predicate
update_statement-locks rt d ctx table target (values, m) v text args i e =
    let pk = primary_key_column_names table in
    let (set, set_args) = update_set_clauses table values pk d in
    elim (Result-cases (update_rows rt ctx table target m)) [
      | inr (x, h) ↦ absurd (ground (arith, e, h, Bool-cases (is_nil set)))
      | inl ((cols, keys, preds), h) ↦
          let (clauses, where_args) = build_where_clauses cols keys preds (length set_args + 1) d in
          let n = length set_args + 1 + length where_args in
          let p : Predicate = record {
            sql = d.quote_ident v.column ++ txt " = ?";
            args = v.current ∷ [];
          } in
          let last =
            build_where_clauses-snoc d cols keys preds p (length set_args + 1) n
              (update_rows-length rt ctx table target m cols keys preds h) refl in
          let built : rendered_update d table (set ++ version_set d (some v))
                (build_where_clauses cols keys (preds ++ p ∷ []) (length set_args + 1) d).0
                (set_args
                  ++ (build_where_clauses cols keys (preds ++ p ∷ []) (length set_args + 1) d).1)
              ≡ ok (text, args) =
            ground (arith, e, h, i, Bool-cases (is_nil set)) in
          let (shown, bound) = rendered_update-ok d table _ _ _ text args built in
          let tested : (bind_clause d p.sql p.args n).1 ≡ v.current ∷ [] = version_bound d v n in
          let split : args ≡ (set_args ++ where_args) ++ v.current ∷ [] =
            sym bound
            ∙ ap (λ l. set_args ++ l) (ap (λ b. b.1) last ∙ ap (λ l. where_args ++ l) tested)
            ∙ sym (append_assoc set_args where_args (v.current ∷ [])) in
          let counted : length args ≡ n =
            ap length split
            ∙ length-append (set_args ++ where_args) (v.current ∷ [])
            ∙ omega (arith, length-append set_args where_args) in
          (
            set,
            clauses,
            set_args ++ where_args,
            ap
                  (λ k.
                    d.render_update table.name (set ++ version_set d (some v))
                      (clauses ++ (bind_clause d p.sql p.args k).0 ∷ []) (returning_columns table))
                  counted
                ∙ ap
                    (λ cs.
                      d.render_update table.name (set ++ version_set d (some v)) cs
                        (returning_columns table))
                    (sym (ap (λ b. b.0) last))
                ∙ shown,
            split,
          )
    ]

-- What an update that ends in the model `m'` and the state `w'` has done: the struct as the hook and
-- the engine leave it, the statement with its answer, and the hook after it.
pub record IsTaken {W : Type 0} (env : Env W) (ctx : Ctx) (table : Table) (target : Target)
    (m' : Model) (w' : W) : Type 0 where
  pub hooked : Model
  pub populated : Values × Model
  pub statement : Text × List Any
  pub rows : ℤ
  pub answered : Model
  pub sent_in : W
  pub left : W
  pub noted : W
  pub passed :
      populate_audit_and_scope env.runtime ctx table Engine.update env.now ([], hooked)
      ≡ ok populated
  pub built :
      update_statement env.runtime env.dialect ctx table target
        (apply_struct_field_values env.runtime ctx table env.now false populated)
      ≡ ok statement
  pub sent :
      exec_returning env statement.0 statement.1
        (apply_struct_field_values env.runtime ctx table env.now false populated).1
        sent_in
      ≡ (ok (rows, answered), left)
  pub taken :
      is_some (
          optimistic_locking_info env.runtime table
            (apply_struct_field_values env.runtime ctx table env.now false populated).1)
        ≡ true
      → rows ≢ pos 0
  pub finished : invoke env (txt "AfterUpdate") env.after_update answered noted ≡ (ok m', w')
