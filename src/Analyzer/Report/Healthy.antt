-- ===== src/Analyzer/Report/Healthy.antt =====
-- Which queries the default rules find healthy.
use dorm.Prelude.{
  ℕ, ◌≤◌, Bool, true, false, ◌||◌, List, [], ◌∷◌, ◌++◌, Text, is_nil, ◌≡◌, ◌≢◌, Option, ◌↔◌, ◌⊎◌,
  refl, arith, Bool-cases,
}
use dorm.Errors.{ok}
use dorm.Schema.Types.{Schema}
use dorm.Schema.Keys.{insert_by, sort_by}
use dorm.Analyzer.Parse.{Patterns}
use dorm.Analyzer.{Strings, Context, Finding, effective_filter_columns, has_supporting_index}
use dorm.Analyzer.Report.{
  is_filtered, is_select, finding, missing_where, sequential_scan, missing_index_of, missing_index,
  missing_composite_index, large_offset, potential_full_table_scan, inefficient_order_by,
  default_findings, finding_le, Report, build_context, analyze,
}

-- What makes a SELECT, an UPDATE or a DELETE healthy: the parser's flag for a WHERE clause is set, an
-- index or a key supports its filters, it has no offset above the threshold, and in a SELECT or with
-- an offset an index supports its filters and then its order, if it has one.
pub record IsHealthy (g : Strings) (c : Context) : Type 0 where
  pub filtered : c.query.has_where ≡ true
  pub indexed : has_supporting_index g c.table (effective_filter_columns g c) ≡ true
  pub near : (c.query.has_offset ≡ false) ⊎ (c.query.offset ≤ c.large_offset_thresh)
  pub ordered :
      (c.query.order_by_cols ≡ [])
      ⊎ (has_supporting_index g c.table (effective_filter_columns g c ++ c.query.order_by_cols)
          ≡ true)
      ⊎ ((c.query.has_offset || is_select c.query.kind) ≡ false)

nil-append : {A : Type 0} (xs ys : List A) → (xs ++ ys ≡ []) → (xs ≡ []) × (ys ≡ [])
nil-append [] ys e = (refl, e)
nil-append (x ∷ xs) ys e = absurd (ground (arith, e))

nil_iff : {A : Type 0} (xs : List A) → (is_nil xs ≡ true) ↔ (xs ≡ [])
nil_iff [] = (λ e. refl, λ e. refl)
nil_iff (x ∷ xs) = (λ e. absurd (ground (arith, e)), λ e. absurd (ground (arith, e)))

module _ (g : Strings) (c : Context) where
  -- No index supports no columns.
  supporting_some :
      (cols : List Text) → has_supporting_index g c.table cols ≡ true → is_nil cols ≡ false
  unfolding has_supporting_index
  supporting_some [] h = absurd (ground (arith, h))
  supporting_some (col ∷ cols) h = refl

  missing_where-nil :
      is_filtered c.query.kind ≡ true → (missing_where c ≡ []) ↔ (c.query.has_where ≡ true)
  unfolding missing_where finding
  missing_where-nil k = ground (arith, k, Bool-cases c.query.has_where)

  large_offset-nil :
      (large_offset c ≡ [])
      ↔ ((c.query.has_offset ≡ false) ⊎ (c.query.offset ≤ c.large_offset_thresh))
  unfolding large_offset finding
  large_offset-nil = ground (arith, Bool-cases c.query.has_offset)

  sequential_scan-nil :
      is_filtered c.query.kind ≡ true
      → (sequential_scan g c ≡ [])
        ↔ (has_supporting_index g c.table (effective_filter_columns g c) ≡ true)
  unfolding sequential_scan finding
  sequential_scan-nil k = ground (
    arith,
    k,
    supporting_some (effective_filter_columns g c),
    Bool-cases (is_nil (effective_filter_columns g c)),
    Bool-cases (has_supporting_index g c.table (effective_filter_columns g c)),
  )

  missing_index_of-nil :
      (cols : List Text)
      → has_supporting_index g c.table cols ≡ true
      → missing_index_of g c cols ≡ []
  unfolding missing_index_of
  missing_index_of-nil [] h = refl
  missing_index_of-nil (col ∷ []) h = rw h refl
  missing_index_of-nil (col ∷ other ∷ cols) h = refl

  missing_index-nil :
      has_supporting_index g c.table (effective_filter_columns g c) ≡ true → missing_index g c ≡ []
  unfolding missing_index
  missing_index-nil h = missing_index_of-nil (effective_filter_columns g c) h

  missing_composite_index-nil :
      has_supporting_index g c.table (effective_filter_columns g c) ≡ true
      → missing_composite_index g c ≡ []
  unfolding missing_composite_index
  missing_composite_index-nil h = ground (arith, h)

  potential_full_table_scan-nil :
      c.query.has_where ≡ true
      → has_supporting_index g c.table (effective_filter_columns g c) ≡ true
      → potential_full_table_scan g c ≡ []
  unfolding potential_full_table_scan
  potential_full_table_scan-nil w h =
      ground (arith, w, h, supporting_some (effective_filter_columns g c) h)

  inefficient_order_by-nil : (inefficient_order_by g c ≡ []) ↔ (
      (c.query.order_by_cols ≡ [])
      ⊎ (has_supporting_index g c.table (effective_filter_columns g c ++ c.query.order_by_cols)
          ≡ true)
      ⊎ ((c.query.has_offset || is_select c.query.kind) ≡ false))
  unfolding inefficient_order_by finding
  inefficient_order_by-nil = ground (
    arith,
    Bool-cases
        (has_supporting_index g c.table (effective_filter_columns g c ++ c.query.order_by_cols)),
    nil_iff c.query.order_by_cols,
    Bool-cases (c.query.has_offset || is_select c.query.kind),
  )

  default_findings-nil :
      is_filtered c.query.kind ≡ true → (default_findings g c ≡ []) ↔ IsHealthy g c
  unfolding default_findings
  default_findings-nil k = (
    λ e.
        let (where_ok, e1) = nil-append (missing_where c) _ e in
        let (scan_ok, e2) = nil-append (sequential_scan g c) _ e1 in
        let (index_ok, e3) = nil-append (missing_index g c) _ e2 in
        let (composite_ok, e4) = nil-append (missing_composite_index g c) _ e3 in
        let (offset_ok, e5) = nil-append (large_offset c) _ e4 in
        let (table_ok, order_ok) = nil-append (potential_full_table_scan g c) _ e5 in
        record {
          filtered = (missing_where-nil k).0 where_ok;
          indexed = (sequential_scan-nil k).0 scan_ok;
          near = large_offset-nil.0 offset_ok;
          ordered = inefficient_order_by-nil.0 order_ok;
        },
    λ h.
        rw
          (
            (missing_where-nil k).1 h.filtered,
            (sequential_scan-nil k).1 h.indexed,
            missing_index-nil h.indexed,
            missing_composite_index-nil h.indexed,
            large_offset-nil.1 h.near,
            potential_full_table_scan-nil h.filtered h.indexed,
            inefficient_order_by-nil.1 h.ordered,
          )
          refl,
  )

insert_by-filled :
    (le : Finding → Finding → Bool) (x : Finding) (ys : List Finding) → insert_by le x ys ≢ []
unfolding insert_by
insert_by-filled le x [] e = ground (arith, e)
insert_by-filled le x (y ∷ ys) e = ground (arith, e)

sort_by-nil : (le : Finding → Finding → Bool) (xs : List Finding) → (sort_by le xs ≡ []) ↔ (xs ≡ [])
unfolding sort_by
sort_by-nil le [] = (λ e. refl, λ e. refl)
sort_by-nil le (x ∷ xs) =
    (λ e. absurd (insert_by-filled le x (sort_by le xs) e), λ e. absurd (ground (arith, e)))

-- When the query is a SELECT, an UPDATE or a DELETE whose table is found, the analyzer reports, and
-- its report is empty exactly when the parser's flag for a WHERE clause is set, an index or a key
-- supports the filters, there is no offset above the threshold, and where that matters an index
-- supports the order.
pub analyze-IsHealthy :
    (g : Strings) (ps : Patterns) (quote : Text → Text) (threshold : ℕ) (sql table : Text)
    (s : Option Schema) (c : Context)
    → build_context g ps quote threshold sql table s ≡ ok c
    → is_filtered c.query.kind ≡ true
    → (r : Report) × (analyze g ps quote threshold sql table s ≡ ok r)
      × ((r.findings ≡ []) ↔ IsHealthy g c)
unfolding analyze
analyze-IsHealthy g ps quote threshold sql table s c b k =
    let sorted = sort_by-nil finding_le (default_findings g c) in
    let none_found = default_findings-nil g c k in
    (
      record {
        table = c.table.name;
        kind = c.query.kind;
        sql = c.query.sql;
        findings = sort_by finding_le (default_findings g c);
      },
      rw (analyze, b) refl,
      (λ e. none_found.0 (sorted.0 e), λ h. sorted.1 (none_found.1 h)),
    )
