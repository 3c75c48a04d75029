-- ===== src/Analyzer/Parse.antt =====
-- analyzer/analyzer.go: ParseSQL. The regular expressions are parameters: the table of a statement, the
-- columns that the WHERE clause compares, and the offset. Positions count code points.
use dorm.Prelude.{
  ℕ, ltb, Bool, true, false, ◌||◌, Option, none, some, is_some, List, [], ◌∷◌, ◌++◌, any, length,
  take, drop, ◌+◌, Text, txt, text_eq, trim, trim_suffix, has_prefix, contains, is_space, is_nil,
  split, if◌then◌else◌,
}
use dorm.Errors.{Kind, Result, Error, ok, err, new}
use dorm.Analyzer.{
  QueryKind, select, update, delete, insert, unknown, ParsedQuery, Strings, lower, unquoted,
  after_last_dot,
}

pub record Patterns : Type 0 where
  pub table_of : QueryKind → Text → Text
  pub where_matches : Text → List Text
  pub offset_of : Text → Option ℕ

unfoldable pub analyzer_error : Text → Error
analyzer_error message = new Kind.configuration (txt "query analyzer: " ++ message)

-- The text before and the text from the first place where a part begins.
before : Text → Text → Text
unfolding has_prefix
before part [] = []
before part (c ∷ cs) =
    let rest = before part cs in if has_prefix part (c ∷ cs) then [] else c ∷ rest

-- The end of a clause is the first of the markers in it.
clause_end : List Text → Text → ℕ
unfolding before
clause_end [] lowered = length lowered
clause_end (m ∷ ms) lowered =
    let rest = clause_end ms lowered in
    let end = length (before m lowered) in if ltb end rest then end else rest

markers : List Text
markers = txt " group by " ∷ txt " order by " ∷ txt " having " ∷ txt " limit " ∷ txt " offset " ∷ []

extract_clause : Strings → Text → Text → Option Text
unfolding contains before trim clause_end markers
extract_clause g sql keyword =
    let key = lower g keyword in
    let segment = drop (length (before key (lower g sql)) + length key) sql in
    if contains key (lower g sql)
    then some (trim (take (clause_end markers (lower g segment)) segment))
    else none

keywords : List Text
keywords =
    []
    ∷ txt "and"
    ∷ txt "or"
    ∷ txt "where"
    ∷ txt "on"
    ∷ txt "in"
    ∷ txt "as"
    ∷ txt "is"
    ∷ txt "not"
    ∷ txt "null"
    ∷ txt "like"
    ∷ txt "ilike"
    ∷ txt "between"
    ∷ txt "exists"
    ∷ []

is_sql_keyword : Strings → Text → Bool
unfolding keywords text_eq trim
is_sql_keyword g value = any (text_eq (lower g (trim value))) keywords

unique_loop : Strings → List Text → List Text → List Text
unfolding text_eq trim
unique_loop g seen [] = []
unique_loop g seen (v ∷ vs) =
    let key = lower g (trim v) in
    elim (is_nil key || any (text_eq key) seen) [
      | true ↦ unique_loop g seen vs
      | false ↦ key ∷ unique_loop g (key ∷ seen) vs
    ]

unique_strings : Strings → List Text → List Text
unfolding unique_loop
unique_strings g values = unique_loop g [] values

-- The names that are no keywords, in lower case.
plain_names : Strings → List Text → List Text
unfolding is_sql_keyword
plain_names g [] = []
plain_names g (n ∷ ns) =
    let rest = plain_names g ns in if is_sql_keyword g n then rest else lower g n ∷ rest

extract_where_columns : Strings → Patterns → Text → List Text
unfolding unique_strings plain_names
extract_where_columns g ps clause =
    if is_nil clause then [] else unique_strings g (plain_names g (ps.where_matches clause))

first_field : Text → Text
unfolding is_space
first_field [] = []
first_field (c ∷ cs) = let rest = first_field cs in if is_space c then [] else c ∷ rest

ends_in_call : Text → Bool
unfolding text_eq
ends_in_call [] = false
ends_in_call (c ∷ cs) =
    let rest = ends_in_call cs in if text_eq (c ∷ cs) (txt "()") then true else rest

-- The columns of ORDER BY; one that ends in `()` is left out.
order_names : Strings → List Text → List Text
unfolding trim first_field unquoted after_last_dot ends_in_call is_sql_keyword
order_names g [] = []
order_names g (part ∷ parts) =
    let rest = order_names g parts in
    let col = after_last_dot (unquoted (first_field (trim part))) in
    if is_nil (trim part) || ends_in_call (lower g col) || is_sql_keyword g col
    then rest
    else lower g col ∷ rest

extract_order_by_columns : Strings → Text → List Text
unfolding unique_strings order_names split
extract_order_by_columns g clause =
    if is_nil clause then [] else unique_strings g (order_names g (split b',' clause))

query_kind : Text → QueryKind
unfolding has_prefix
query_kind t =
    if has_prefix (txt "select ") t
    then select
    else if has_prefix (txt "update ") t
    then update
    else if has_prefix (txt "delete ") t
    then delete
    else if has_prefix (txt "insert ") t
    then insert
    else unknown

statement_table : Patterns → QueryKind → Text → Text
unfolding unquoted
statement_table ps unknown sql = []
statement_table ps kind sql = unquoted (ps.table_of kind sql)

or_empty : Option Text → Text
or_empty none = []
or_empty (some t) = t

or_zero : Option ℕ → ℕ
or_zero none = 0
or_zero (some n) = n

parsed_query : Strings → Patterns → Text → ParsedQuery
unfolding query_kind statement_table extract_clause extract_where_columns or_empty or_zero
    extract_order_by_columns contains
parsed_query g ps sql =
    let kind = query_kind (lower g sql) in
    let clause = extract_clause g sql (txt "where") in
    let order = extract_clause g sql (txt "order by") in
    record {
      sql = sql;
      kind = kind;
      table = statement_table ps kind sql;
      where_clause = or_empty clause;
      order_by_clause = or_empty order;
      where_columns = extract_where_columns g ps (or_empty clause);
      order_by_cols = extract_order_by_columns g (or_empty order);
      offset = or_zero (ps.offset_of sql);
      has_offset = is_some (ps.offset_of sql);
      has_where = is_some clause;
      has_join = contains (txt " join ") (lower g sql);
    }

unfoldable pub parse_sql : Strings → Patterns → Text → Result ParsedQuery
unfolding trim trim_suffix parsed_query analyzer_error
parse_sql g ps sql =
    let normalized = trim_suffix (txt ";") (trim sql) in
    if is_nil normalized
    then err (analyzer_error (txt "query analyzer requires SQL input"))
    else ok (parsed_query g ps normalized)
