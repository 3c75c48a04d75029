-- ===== src/Orm/Relations/Statements.antt =====
-- The statement that loads a relation: which rows it asks for.
use dorm.Prelude.{
  ℕ, ◌+◌, some, List, [], ◌∷◌, ◌++◌, append_assoc, append-nil, length, length-append, ◌≡◌, refl, ap,
  Text, txt, arith,
}
use dorm.Value.{Any}
use dorm.Schema.Types.{Table}
use dorm.Errors.{ok}
use dorm.Dialect.{Dialect}
use dorm.Access.Policy.{Ctx}
use dorm.Access.Engine
use dorm.Access.Engine.{Predicate, FieldValue, apply}
use dorm.Orm.Query.{bind_clause, bind_predicates}
use dorm.Orm.Write.{access_predicates}
use dorm.Orm.Relations.{append_loop, append_access_where, relation_parts}

append_loop-bind_predicates :
    (d : Dialect) (ps : List Predicate) (clauses : List Text) (args : List Any) (start : ℕ)
    → start ≡ length args + 1
    → append_loop d ps clauses args
      ≡ (clauses ++ (bind_predicates d start ps).0, args ++ (bind_predicates d start ps).1)
unfolding append_loop bind_predicates
append_loop-bind_predicates d [] clauses args start e =
    rw (append-nil clauses, append-nil args) refl
append_loop-bind_predicates d (p ∷ ps) clauses args start e =
    let (clause, clause_args) = bind_clause d p.sql p.args start in
    rw
      (
        ← e,
        ← append_assoc clauses (clause ∷ []) (bind_predicates d (start + length clause_args) ps).0,
        ← append_assoc args clause_args (bind_predicates d (start + length clause_args) ps).1,
      )
      (append_loop-bind_predicates d ps (clauses ++ clause ∷ []) (args ++ clause_args)
        (start + length clause_args) (omega (arith, length-append args clause_args, e)))

append_access_where-bind_predicates :
    (d : Dialect) (extra : List Predicate) (where_ : List Text) (args : List Any)
    → append_access_where d extra where_ args ≡ (
      where_ ++ (bind_predicates d (length args + 1) extra).0,
      args ++ (bind_predicates d (length args + 1) extra).1,
    )
unfolding append_access_where bind_predicates
append_access_where-bind_predicates d [] where_ args = rw (append-nil where_, append-nil args) refl
append_access_where-bind_predicates d (p ∷ ps) where_ args =
    rw (append_loop-bind_predicates d (p ∷ ps) [] args (length args + 1) refl) refl

access_predicates-accepted :
    (ctx : Ctx) (table : Table) (found : List Predicate × List FieldValue)
    → apply ctx (some table) Engine.query ≡ ok found
    → access_predicates ctx table ≡ found.0
unfolding access_predicates
access_predicates-accepted ctx table found h = rw (h, access_predicates) refl

-- When the engine accepts a query of the related table, the statement that loads a relation asks
-- for the rows that have the key, at placeholder 1, and pass all of the engine's predicates, bound
-- from placeholder 2 on in their order; the arguments are the key's value and then theirs.
pub relation_parts-scopes :
    (d : Dialect) (ctx : Ctx) (table : Table) (column : Text) (v : Any)
    (found : List Predicate × List FieldValue)
    → apply ctx (some table) Engine.query ≡ ok found
    → let (parts, args) = relation_parts d ctx table column v in
      let (texts, rest) = bind_predicates d 2 found.0 in
      (parts.where_ ≡ (d.quote_ident column ++ (txt " = " ++ d.placeholder 1)) ∷ texts)
      × (args ≡ v ∷ rest)
unfolding relation_parts
relation_parts-scopes d ctx table column v found h =
    let w =
      append_access_where-bind_predicates d found.0
        ((d.quote_ident column ++ (txt " = " ++ d.placeholder 1)) ∷ []) (v ∷ []) in
    rw (access_predicates-accepted ctx table found h) (ap (λ p. p.0) w, ap (λ p. p.1) w)
