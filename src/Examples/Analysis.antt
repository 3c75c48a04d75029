-- ===== src/Examples/Analysis.antt =====
-- Queries that the analyzer looks at, over a table of users.
use dorm.Prelude.{
  true, false, none, some, [], ◌∷◌, map, ◌≡◌, ◌↔◌, refl, Text, txt, text_eq, contains,
  if◌then◌else◌,
}
use dorm.Errors.{ok}
use dorm.Schema.Types.{Schema, Table, plain_column, table_of}
use dorm.Analyzer.{select, Strings, Context, ParsedQuery}
use dorm.Analyzer.Parse.{Patterns, parse_sql}
use dorm.Analyzer.Report.{Report, build_context, analyze, is_filtered}
use dorm.Analyzer.Report.Healthy.{IsHealthy, analyze-IsHealthy}
use dorm.Examples.Data.{go}

abbrev texts : Strings
texts = record {
  unicode = go.unicode;
  equal_fold = λ a b. text_eq (map go.unicode.to_lower a) (map go.unicode.to_lower b);
}

-- What the expressions find in the queries below.
abbrev patterns : Patterns
patterns = record {
  table_of = λ kind sql. txt "users";
  where_matches = λ clause. if contains (txt "email =") clause then txt "email" ∷ [] else [];
  offset_of = λ sql. none;
}

abbrev users : Table
users = table_of (txt "users") (record (plain_column (txt "email")) { unique = true } ∷ [])

abbrev people : Schema
people = record { name = txt "app"; version = 1; tables = users ∷ []; enums = []; views = [] }

abbrev quote : Text → Text
quote t = t

abbrev by_email : Text
by_email = txt "SELECT * FROM users WHERE email = $1"

abbrev seen : Context
seen = record {
  query = record {
    sql = by_email;
    kind = select;
    table = txt "users";
    where_clause = txt "email = $1";
    order_by_clause = [];
    where_columns = txt "email" ∷ [];
    order_by_cols = [];
    offset = 0;
    has_offset = false;
    has_where = true;
    has_join = false;
  };
  table = users;
  large_offset_thresh = 1000;
}

seen_run : build_context texts patterns quote 1000 by_email [] (some people) ≡ ok seen
unfolding build_context
seen_run = refl

advice_example :
    (r : Report) × (analyze texts patterns quote 1000 by_email [] (some people) ≡ ok r)
    × ((r.findings ≡ []) ↔ IsHealthy texts seen)
unfolding is_filtered
advice_example =
    analyze-IsHealthy texts patterns quote 1000 by_email [] (some people) seen seen_run refl

-- A column whose name ends in "where" is taken for a WHERE clause.
abbrev unfiltered : ParsedQuery
unfiltered = record {
  sql = txt "SELECT somewhere FROM users";
  kind = select;
  table = txt "users";
  where_clause = txt "FROM users";
  order_by_clause = [];
  where_columns = [];
  order_by_cols = [];
  offset = 0;
  has_offset = false;
  has_where = true;
  has_join = false;
}

unfiltered_run : parse_sql texts patterns (txt "SELECT somewhere FROM users") ≡ ok unfiltered
unfolding parse_sql
unfiltered_run = refl
