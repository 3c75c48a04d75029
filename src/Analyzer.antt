-- ===== src/Analyzer.antt =====
-- analyzer/analyzer.go: the rules that look at a parsed query and its table. `strings.EqualFold` and
-- the character tables are parameters.
pub mod Parse
pub mod Report
use dorm.Prelude.{
  ℕ, ◌-◌, ltb, leb, ◌==◌, Bool, true, false, not, ◌&&◌, ◌||◌, Option, none, some, List, [], ◌∷◌,
  ◌++◌, map, any, length, flat, Text, txt, text_eq, itoa, join, trim, is_nil, if◌then◌else◌,
}
use dorm.Schema.Types.{
  ConstraintKind, constraint_kind_text, Column, Index, Constraint, Table, ScopeKind,
}
use dorm.Schema.Names.{Unicode}

pub data QueryKind : Type 0 where
  unknown select update delete insert : QueryKind

pub data Severity : Type 0 where
  severity_info warning critical : Severity

pub record Finding : Type 0 where
  pub code : Text
  pub rule : Text
  pub severity : Severity
  pub title : Text
  pub details : Text
  pub recommendation : Text
  pub table : Text
  pub columns : List Text

-- An offset of -1, for none, is left out: the rules ask for `has_offset` first.
pub record ParsedQuery : Type 0 where
  pub sql : Text
  pub kind : QueryKind
  pub table : Text
  pub where_clause : Text
  pub order_by_clause : Text
  pub where_columns : List Text
  pub order_by_cols : List Text
  pub offset : ℕ
  pub has_offset : Bool
  pub has_where : Bool
  pub has_join : Bool

pub record Context : Type 0 where
  pub query : ParsedQuery
  pub table : Table
  pub large_offset_thresh : ℕ

-- What is taken from Go's packages.
pub record Strings : Type 0 where
  pub unicode : Unicode
  pub equal_fold : Text → Text → Bool

abbrev pub lower : Strings → Text → Text
lower g t = map g.unicode.to_lower t

-- `strings.Trim` with a double quote.
left_unquoted : Text → Text
left_unquoted [] = []
left_unquoted (c ∷ cs) = let rest = left_unquoted cs in if c == b'"' then rest else c ∷ cs

right_unquoted : Text → Text
right_unquoted [] = []
right_unquoted (c ∷ cs) =
    let rest = right_unquoted cs in if c == b'"' && is_nil rest then [] else c ∷ rest

unfoldable pub unquoted : Text → Text
unfolding left_unquoted right_unquoted
unquoted t = right_unquoted (left_unquoted t)

-- What stands behind the last dot.
unfoldable pub after_last_dot : Text → Text
after_last_dot [] = []
after_last_dot (c ∷ cs) =
    let rest = after_last_dot cs in
    if any (λ d. d == b'.') cs then rest else if c == b'.' then cs else c ∷ cs

normalize_columns : Strings → List Text → List Text
unfolding trim unquoted after_last_dot
normalize_columns g [] = []
normalize_columns g (col ∷ cols) =
    let rest = normalize_columns g cols in
    let name = trim (unquoted col) in
    if is_nil name then rest else lower g (after_last_dot name) ∷ rest

unfoldable pub prefix_matches : Strings → List Text → List Text → Bool
prefix_matches g cols [] = true
prefix_matches g [] (w ∷ ws) = false
prefix_matches g (c ∷ cols) (w ∷ ws) =
    let rest = prefix_matches g cols ws in if g.equal_fold c w then rest else false

-- A primary key or a unique constraint.
is_key : ConstraintKind → Bool
unfolding constraint_kind_text text_eq
is_key k =
    text_eq (constraint_kind_text k) (txt "primary_key")
    || text_eq (constraint_kind_text k) (txt "unique")

column_serves : Strings → List Text → Column → Bool
column_serves g (w ∷ []) col = g.equal_fold col.name w && (col.primary_key || col.unique)
column_serves g _ col = false

unfoldable pub has_supporting_index : Strings → Table → List Text → Bool
unfolding normalize_columns prefix_matches is_key column_serves
has_supporting_index g table cols =
    if is_nil cols
    then false
    else let want = normalize_columns g cols in
      any (λ (i : Index). prefix_matches g i.columns want) table.indexes
      || any (λ (c : Constraint). is_key c.kind && prefix_matches g c.columns want)
          table.constraints
      || any (column_serves g want) table.columns

is_unscoped : ScopeKind → Bool
is_unscoped ScopeKind.unscoped = true
is_unscoped (ScopeKind.other t) = is_nil t
is_unscoped _ = false

policy_columns : List Column → List Text
unfolding is_unscoped
policy_columns [] = []
policy_columns (c ∷ cs) =
    let rest = policy_columns cs in
    if not (is_unscoped c.scope) || c.soft_delete then c.name ∷ rest else rest

-- The names whose lower case is new; `seen` holds those of before.
new_names : Strings → List Text → List Text → List Text
unfolding text_eq
new_names g seen [] = []
new_names g seen (c ∷ cs) = elim (any (text_eq (lower g c)) seen) [
  | true ↦ new_names g seen cs
  | false ↦ c ∷ new_names g (lower g c ∷ seen) cs
]

-- Its two loops, over the policy's columns and those of the WHERE clause, share one map.
unfoldable pub effective_filter_columns : Strings → Context → List Text
unfolding policy_columns new_names
effective_filter_columns g c =
    new_names g [] (policy_columns c.table.columns ++ c.query.where_columns)

unfoldable pub recommendation_for_columns : List Text → Text
unfolding join
recommendation_for_columns [] = txt "Create an index that matches the query predicates."
recommendation_for_columns (c ∷ []) = txt "Create an index on (" ++ (c ++ txt ").")
recommendation_for_columns cols =
    txt "Create a composite index on (" ++ (join (txt ", ") cols ++ txt ").")
