-- ===== src/Examples/Relations.antt =====
-- Relations that are loaded over a log of the driver.
use dorm.Prelude.{none, List, [], ◌∷◌, ◌++◌, ◌≡◌, refl, Text, txt, text_eq}
use dorm.Value.{Any}
use dorm.Errors.{ok}
use dorm.Access.Engine.{apply, Predicate, FieldValue}
use dorm.Orm.Query.{bind_predicates}
use dorm.Orm.Write.{Values}
use dorm.Dialect.Postgres.{postgres, render_select, placeholder}
use dorm.Orm.Relations.{
  Field, Fields, one, no_relation, plain, embedded, no_fields, one_row, Loader, relation_parts,
}
use dorm.Orm.Relations.Loading.{preload}
use dorm.Orm.Relations.Statements.{relation_parts-scopes}
use dorm.Examples.Data.{go, invoices, notes, ann_ctx, acme, seven}

abbrev Log : Type 0
Log = List (Text × List Any)

abbrev row : Values
row = (txt "id", seven) ∷ []

abbrev loader : Loader Log
loader = record {
  equal_fold = text_eq;
  quote = λ t. t;
  unicode = go.unicode;
  dialect = postgres;
  query = λ t args log. (ok (row ∷ []), (t, args) ∷ log);
  after_find = λ r log. (ok tt, log);
}

abbrev field : Text → Any → Field
field n v = record { name = n; value = v; relation = no_relation }

-- A line of an invoice, with the key of the invoice in an embedded struct.
abbrev line : Fields
line =
    embedded (field (txt "Base") none) (plain (field (txt "InvoiceID") seven) no_fields)
      (plain (record { name = txt "Invoice"; value = none; relation = one invoices }) no_fields)

abbrev loaded_log : Log
loaded_log =
    (
      txt "SELECT \"id\", \"tenant_id\", \"total\", \"editor\", \"deleted_at\", \"version\" FROM "
          ++ txt "\"invoices\" WHERE \"id\" = $1 AND tenant_id = $2",
      seven ∷ acme ∷ [],
    )
    ∷ []

-- The loaded invoice may be a deleted one: no predicate asks whether it is.
load_run :
    preload loader ann_ctx notes (txt "Invoice" ∷ []) (line ∷ []) []
    ≡ (ok ((one_row row ∷ []) ∷ []), loaded_log)
unfolding preload apply render_select placeholder
load_run = refl

abbrev tenant_filter : Predicate
tenant_filter = record { sql = txt "tenant_id = ?"; args = acme ∷ [] }

abbrev found : List Predicate × List FieldValue
found = (tenant_filter ∷ [], [])

loading_example :
    let (parts, args) = relation_parts postgres ann_ctx invoices (txt "id") seven in
    let (texts, rest) = bind_predicates postgres 2 (tenant_filter ∷ []) in
    (parts.where_
      ≡ (postgres.quote_ident (txt "id") ++ (txt " = " ++ postgres.placeholder 1)) ∷ texts)
    × (args ≡ seven ∷ rest)
unfolding apply
loading_example = relation_parts-scopes postgres ann_ctx invoices (txt "id") seven found refl

-- Without an identity in the context the engine refuses a query of the table, and the relation is
-- loaded with the key alone.
unscoped_run : relation_parts postgres none invoices (txt "id") seven ≡ (
  record (relation_parts postgres none invoices (txt "id") seven).0 {
    where_ = (postgres.quote_ident (txt "id") ++ (txt " = " ++ postgres.placeholder 1)) ∷ [];
  },
  seven ∷ [],
)
unfolding relation_parts apply
unscoped_run = refl
