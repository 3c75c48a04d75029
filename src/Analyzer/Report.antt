-- ===== src/Analyzer/Report.antt =====
-- analyzer/analyzer.go: the default rules, the order of their findings and the report.
pub mod Healthy
use dorm.Prelude.{
  ℕ, ltb, leb, ◌==◌, Bool, true, false, not, ◌&&◌, ◌||◌, Option, none, some, List, [], ◌∷◌, ◌++◌,
  map, flat, length, Text, txt, text_eq, text_le, itoa, join, trim, is_nil, if◌then◌else◌,
}
use dorm.Errors.{Kind, Result, Error, ok, err, new, ◌>>=◌}
use dorm.Schema.Types.{Table, Schema}
use dorm.Schema.Keys.{sort_by}
use dorm.Analyzer.{
  QueryKind, select, update, delete, insert, unknown, Severity, severity_info, warning, critical,
  Finding, ParsedQuery, Context, Strings, lower, unquoted, effective_filter_columns,
  has_supporting_index, recommendation_for_columns,
}
use dorm.Analyzer.Parse.{Patterns, parse_sql, analyzer_error}

-- A SELECT, an UPDATE or a DELETE.
unfoldable pub is_filtered : QueryKind → Bool
is_filtered select = true
is_filtered update = true
is_filtered delete = true
is_filtered _ = false

-- In each finding the title is the rule.
finding : Text → Text → Severity → Text → Text → Context → List Text → List Finding
finding code rule severity details recommendation c columns =
    record {
      code = code;
      rule = rule;
      severity = severity;
      title = rule;
      details = details;
      recommendation = recommendation;
      table = c.table.name;
      columns = columns;
    }
    ∷ []

missing_where : Context → List Finding
unfolding is_filtered finding
missing_where c =
    if not (is_filtered c.query.kind) || c.query.has_where
    then []
    else finding (txt "missing_where") (txt "Missing WHERE") critical
        (txt "The query does not filter rows.")
        (txt "Add a WHERE clause to limit the rows scanned by PostgreSQL.") c []

sequential_scan : Strings → Context → List Finding
unfolding is_filtered finding effective_filter_columns has_supporting_index
    recommendation_for_columns join
sequential_scan g c =
    let effective = effective_filter_columns g c in
    if not (is_filtered c.query.kind)
    then []
    else if is_nil effective
    then finding (txt "sequential_scan") (txt "Sequential Scan") critical
        (txt "No indexed filters were detected for this query.")
        (txt "Add a selective WHERE clause or an index that supports the query filters.") c []
    else if has_supporting_index g c.table effective
    then []
    else finding (txt "sequential_scan") (txt "Sequential Scan") warning
        (txt "The query filters on "
          ++ (join (txt ", ") effective ++ txt ", but no supporting index was found."))
        (recommendation_for_columns effective) c effective

missing_index_of : Strings → Context → List Text → List Finding
unfolding finding has_supporting_index
missing_index_of g c (col ∷ []) =
    if has_supporting_index g c.table (col ∷ [])
    then []
    else finding (txt "missing_index") (txt "Missing Index") warning
        (txt "The query filters on " ++ (col ++ txt " without an index."))
        (txt "Create an index on (" ++ (col ++ txt ").")) c (col ∷ [])
missing_index_of g c _ = []

missing_index : Strings → Context → List Finding
unfolding effective_filter_columns missing_index_of
missing_index g c = missing_index_of g c (effective_filter_columns g c)

missing_composite_index : Strings → Context → List Finding
unfolding finding effective_filter_columns has_supporting_index join
missing_composite_index g c =
    let effective = effective_filter_columns g c in
    if ltb (length effective) 2 || has_supporting_index g c.table effective
    then []
    else finding (txt "missing_composite_index") (txt "Missing Composite Index") warning
        (txt "The query filters on "
          ++ (join (txt ", ") effective ++ txt ", but no composite index matches the filter set."))
        (txt "Create a composite index on (" ++ (join (txt ", ") effective ++ txt ").")) c effective

large_offset : Context → List Finding
unfolding finding itoa
large_offset c =
    if not c.query.has_offset || leb c.query.offset c.large_offset_thresh
    then []
    else finding (txt "large_offset") (txt "Large OFFSET") warning
        (txt "The query uses OFFSET "
          ++ (itoa c.query.offset ++ txt ", which becomes expensive for large pages."))
        (txt "Prefer keyset pagination or reduce the offset depth.") c []

potential_full_table_scan : Strings → Context → List Finding
unfolding is_filtered finding effective_filter_columns has_supporting_index
    recommendation_for_columns
potential_full_table_scan g c =
    let effective = effective_filter_columns g c in
    let rule = txt "Potential Full Table Scan" in
    if not (is_filtered c.query.kind)
    then []
    else if not c.query.has_where
    then finding (txt "potential_full_table_scan") rule critical
        (txt "The query can scan the full table because it has no WHERE clause.")
        (txt "Add a WHERE clause or a supporting index to reduce scanned rows.") c []
    else if not (is_nil effective) && has_supporting_index g c.table effective
    then []
    else finding (txt "potential_full_table_scan") rule warning
        (txt "The filter set does not appear to be backed by a useful index.")
        (recommendation_for_columns effective) c effective

unfoldable pub is_select : QueryKind → Bool
is_select select = true
is_select _ = false

inefficient_order_by : Strings → Context → List Finding
unfolding finding effective_filter_columns has_supporting_index is_select join
inefficient_order_by g c =
    let candidate = effective_filter_columns g c ++ c.query.order_by_cols in
    if is_nil c.query.order_by_cols || has_supporting_index g c.table candidate
    then []
    else if c.query.has_offset || is_select c.query.kind
    then finding (txt "inefficient_order_by") (txt "Inefficient ORDER BY") warning
        (txt "ORDER BY "
          ++ (join (txt ", ") c.query.order_by_cols ++ txt " is not supported by an index."))
        (txt "Create an index that matches the filter and sort columns: ("
          ++ (join (txt ", ") candidate ++ txt ")."))
        c candidate
    else []

-- `DefaultRules`, applied in their order.
unfoldable pub default_findings : Strings → Context → List Finding
unfolding missing_where sequential_scan missing_index missing_composite_index large_offset
    potential_full_table_scan inefficient_order_by
default_findings g c =
    missing_where c
    ++ (sequential_scan g c
        ++ (missing_index g c
            ++ (missing_composite_index g c
                ++ (large_offset c
                    ++ (potential_full_table_scan g c ++ inefficient_order_by g c)))))

severity_rank : Severity → ℕ
severity_rank critical = 0
severity_rank warning = 1
severity_rank severity_info = 2

-- The order of a report; the sort is stable.
finding_le : Finding → Finding → Bool
unfolding severity_rank text_le
finding_le a b =
    if severity_rank a.severity == severity_rank b.severity
    then text_le a.title b.title
    else ltb (severity_rank a.severity) (severity_rank b.severity)

find_in : Strings → Text → List Table → Option Table
find_in g name [] = none
find_in g name (t ∷ ts) =
    let later = find_in g name ts in if g.equal_fold t.name name then some t else later

find_table : Strings → Schema → Text → Option Table
unfolding find_in unquoted
find_table g s name = find_in g (lower g (unquoted name)) s.tables

pub record Report : Type 0 where
  pub table : Text
  pub kind : QueryKind
  pub sql : Text
  pub findings : List Finding

-- The only table of a schema.
only_table : List Table → Text
only_table (t ∷ []) = t.name
only_table _ = []

-- The first name that is not empty.
table_name : Text → Text → Schema → Text
unfolding trim only_table
table_name given parsed s =
    if not (is_nil (trim given))
    then trim given
    else if not (is_nil parsed)
    then parsed
    else only_table s.tables

the_table : Strings → (Text → Text) → Schema → Text → Result Table
unfolding find_table analyzer_error
the_table g quote s name =
    if is_nil name
    then err
        (analyzer_error (txt "query analyzer requires a table name when SQL does not identify one"))
    else elim (find_table g s name) [
      | some t ↦ ok t
      | none ↦ err (
          analyzer_error (
            txt "query analyzer could not find table "
            ++ (quote name ++ txt " in schema metadata")))
    ]

-- `buildContext`, with the threshold of the analyzer; `quote` is `%q`.
unfoldable pub build_context :
    Strings → Patterns → (Text → Text) → ℕ → Text → Text → Option Schema → Result Context
unfolding trim parse_sql the_table table_name analyzer_error
build_context g ps quote threshold sql table s =
    if is_nil (trim sql)
    then err (analyzer_error (txt "query analyzer requires SQL input"))
    else elim s [
      | none ↦ err (analyzer_error (txt "query analyzer requires schema metadata"))
      | some schema ↦ do
        parsed ← parse_sql g ps sql
        t ← the_table g quote schema (table_name table parsed.table schema)
        ok (record {
          query = record parsed { table = t.name };
          table = t;
          large_offset_thresh = threshold;
        })
    ]

unfoldable pub analyze :
    Strings → Patterns → (Text → Text) → ℕ → Text → Text → Option Schema → Result Report
unfolding build_context default_findings finding_le sort_by
analyze g ps quote threshold sql table s = do
  c ← build_context g ps quote threshold sql table s
  ok (record {
    table = c.table.name;
    kind = c.query.kind;
    sql = c.query.sql;
    findings = sort_by finding_le (default_findings g c);
  })
