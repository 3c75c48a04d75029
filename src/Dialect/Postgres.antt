-- ===== src/Dialect/Postgres.antt =====
-- dialect/postgres/postgres.go: quoting, placeholders and the four statements of the ORM.
pub mod Quote
pub mod Columns
pub mod Migration
pub mod Views
use dorm.Prelude.{
  ℕ, zero, suc, ◌+◌, ◌==◌, Bool, true, false, Option, none, some, List, [], ◌∷◌, ◌++◌, map, Text,
  txt, join, itoa, if◌then◌else◌, is_nil,
}
use dorm.Value.{ℤ, pos, negsuc}
use dorm.Errors.{Result, ok, err, external, guard, ◌>>=◌, ◌>>◌}
use dorm.Dialect.{Dialect, SelectParts}

-- `strings.ReplaceAll(in, `"`, `""`)`
unfoldable pub double_quotes : Text → Text
double_quotes [] = []
double_quotes (c ∷ cs) =
    let rest = double_quotes cs in if c == b'"' then b'"' ∷ b'"' ∷ rest else c ∷ rest

unfoldable pub quote_ident : Text → Text
unfolding double_quotes
quote_ident s = b'"' ∷ (double_quotes s ++ b'"' ∷ [])

unfoldable pub placeholder : ℕ → Text
unfolding itoa
placeholder i = b'$' ∷ itoa i

-- `strconv.Itoa` of an int.
itoa_int : ℤ → Text
unfolding itoa
itoa_int (pos n) = itoa n
itoa_int (negsuc n) = b'-' ∷ itoa (suc n)

unfoldable pub join_quoted : List Text → Text
unfolding quote_ident join
join_quoted items = join (txt ", ") (map quote_ident items)

-- An optional part of a statement: nothing where the list is empty.
clause : Text → Text → List Text → Text
unfolding join
clause keyword sep [] = []
clause keyword sep (x ∷ xs) = keyword ++ join sep (x ∷ xs)

number_clause : Text → Option ℤ → Text
unfolding itoa_int
number_clause keyword none = []
number_clause keyword (some n) = keyword ++ itoa_int n

unfoldable pub render_select : SelectParts → Result Text
unfolding quote_ident join clause number_clause
render_select q =
    if is_nil q.table
    then err (external (txt "postgres: empty table"))
    else (let columns : List Text = if is_nil q.columns then txt "*" ∷ [] else q.columns in
        ok (
          txt "SELECT "
          ++ ((if q.distinct then txt "DISTINCT " else [])
              ++ (join (txt ", ") columns
                  ++ (txt " FROM "
                      ++ (quote_ident q.table
                          ++ (clause (txt " ") (txt " ") q.joins
                              ++ (clause (txt " WHERE ") (txt " AND ") q.where_
                                  ++ (clause (txt " GROUP BY ") (txt ", ") q.group_by
                                      ++ (clause (txt " HAVING ") (txt " AND ") q.having
                                          ++ (clause (txt " ORDER BY ") (txt ", ") q.order_by
                                              ++ (number_clause (txt " LIMIT ") q.limit
                                                  ++ number_clause (txt " OFFSET ")
                                                      q.offset))))))))))))

-- Placeholders `i`, `i + 1`, … for the columns of an insert.
placeholders_from : ℕ → List Text → List Text
unfolding placeholder
placeholders_from i [] = []
placeholders_from i (c ∷ cs) = placeholder i ∷ placeholders_from (i + 1) cs

returning_clause : List Text → Text
unfolding join_quoted
returning_clause [] = []
returning_clause (c ∷ cs) = txt " RETURNING " ++ join_quoted (c ∷ cs)

unfoldable pub render_insert : Text → List Text → List Text → Result Text
unfolding quote_ident join placeholders_from returning_clause
render_insert table columns returning =
    if is_nil table
    then err (external (txt "postgres: empty table"))
    else if is_nil columns
    then err (external (txt "postgres: insert requires columns"))
    else ok (
        txt "INSERT INTO "
        ++ (quote_ident table
            ++ (txt " ("
                ++ (join (txt ", ") (map quote_ident columns)
                    ++ (txt ") VALUES ("
                        ++ (join (txt ", ") (placeholders_from 1 columns)
                            ++ (txt ")" ++ returning_clause returning)))))))

unfoldable pub render_update : Text → List Text → List Text → List Text → Result Text
unfolding quote_ident join clause returning_clause
render_update table set where_ returning =
    if is_nil table
    then err (external (txt "postgres: empty table"))
    else if is_nil set
    then err (external (txt "postgres: update requires set clauses"))
    else ok (
        txt "UPDATE "
        ++ (quote_ident table
            ++ (txt " SET "
                ++ (join (txt ", ") set
                    ++ (clause (txt " WHERE ") (txt " AND ") where_
                        ++ returning_clause returning)))))

unfoldable pub render_delete : Text → List Text → List Text → Result Text
unfolding quote_ident clause returning_clause
render_delete table where_ returning =
    if is_nil table
    then err (external (txt "postgres: empty table"))
    else ok (
        txt "DELETE FROM "
        ++ (quote_ident table
            ++ (clause (txt " WHERE ") (txt " AND ") where_ ++ returning_clause returning)))

abbrev pub postgres : Dialect
postgres = record {
  quote_ident = quote_ident;
  placeholder = placeholder;
  render_select = render_select;
  render_insert = render_insert;
  render_update = render_update;
  render_delete = render_delete;
}
