-- ===== src/Schema/Drift.antt =====
-- schema/drift.go: the report of the differences between the schema of the sources, the last snapshot
-- and the live database. Building, inspecting and loading are parameters: their results are given. A
-- snapshot is its schema; a nil difference is `none`.
use dorm.Prelude.{
  Bool, true, false, not, ◌&&◌, Option, none, some, List, [], ◌∷◌, Text, txt, is_nil, ◌≡◌, ◌↔◌,
  refl, arith, if◌then◌else◌,
}
use dorm.Errors.{Kind, Result, Error, ok, err, schema, detailed, Details, ◌>>=◌}
use dorm.Schema.Types.{Schema}
use dorm.Schema.Diff.{Operation, compare, compare_schemas}

pub record DriftReport : Type 0 where
  pub expected : Schema
  pub snapshot : Option Schema
  pub actual : Schema
  pub expected_diff : List Operation
  pub snapshot_diff : Option (List Operation)

unfoldable pub has_drift : DriftReport → Bool
has_drift r = not (is_nil r.expected_diff)

unfoldable pub has_snapshot_drift : DriftReport → Bool
has_snapshot_drift r = elim r.snapshot_diff [ none ↦ false | some ops ↦ not (is_nil ops) ]

unfoldable pub clean : DriftReport → Bool
unfolding has_drift has_snapshot_drift
clean r = not (has_drift r) && not (has_snapshot_drift r)

schema_display_name : Option Schema → Text
schema_display_name none = txt "nil"
schema_display_name (some s) = if is_nil s.name then txt "unknown" else s.name

unfoldable pub detect_drift : Option Schema → Option Schema → Result DriftReport
unfolding schema_display_name
detect_drift (some expected) (some actual) = do
  diff ← compare (some expected) (some actual)
  ok (record {
    expected = expected;
    snapshot = none;
    actual = actual;
    expected_diff = diff;
    snapshot_diff = none;
  })
detect_drift expected actual = err (
    schema Kind.invalid_schema (schema_display_name expected) (schema_display_name actual)
      (txt "drift detection requires non-nil schemas"))

-- The report with a snapshot, and with its difference from the live schema.
with_snapshot : Option Schema → DriftReport → Result DriftReport
with_snapshot none r = ok (record r { snapshot = none })
with_snapshot (some s) r = do
  diff ← compare (some s) (some r.actual)
  ok (record r { snapshot = some s; snapshot_diff = some diff })

unfoldable pub detect_drift_with_snapshot :
    Option Schema → Option Schema → Option Schema → Result DriftReport
unfolding detect_drift with_snapshot
detect_drift_with_snapshot expected snapshot actual = do
  r ← detect_drift expected actual
  with_snapshot snapshot r

missing_part : Text → Text → Error
missing_part field reason =
    detailed Kind.invalid_model (Details.validation_error (txt "schema") field reason)

inspected_schema : Option (Result Schema) → Result Schema
unfolding missing_part
inspected_schema none = err (missing_part (txt "inspector") (txt "schema inspector is required"))
inspected_schema (some r) = r

-- From source: the results of the builder, of the inspector, if there is one, and of the snapshot's
-- file, which is no snapshot where there is no file or no path.
detect_drift_from_source :
    Text → Result Schema → Option (Result Schema) → Result (Option Schema) → Result DriftReport
unfolding with_snapshot missing_part inspected_schema
detect_drift_from_source root built inspected loaded =
    if is_nil root then err (missing_part (txt "root") (txt "empty root")) else do
      expected ← built
      actual ← inspected_schema inspected
      snapshot ← loaded
      diff ← compare (some expected) (some actual)
      with_snapshot snapshot (record {
        expected = expected;
        snapshot = none;
        actual = actual;
        expected_diff = diff;
        snapshot_diff = none;
      })

both_empty :
    (a b : List Operation)
    → ((not (not (is_nil a)) && not (not (is_nil b))) ≡ true) ↔ ((ok a ≡ ok []) × (ok b ≡ ok []))
both_empty [] [] = (λ e. (refl, refl), λ e. refl)
both_empty [] (y ∷ b) = (λ e. absurd (ground (arith, e)), λ e. absurd (ground (arith, e.1)))
both_empty (x ∷ a) b = (λ e. absurd (ground (arith, e)), λ e. absurd (ground (arith, e.0)))

-- Where there are an expected, a live and a last schema, the report is clean exactly when neither the
-- expected nor the last one differs from the live one.
drift-clean :
    (expected last actual : Schema)
    → (r : DriftReport) × (detect_drift_with_snapshot (some expected) (some last) (some actual)
        ≡ ok r)
      × ((clean r ≡ true) ↔ (
          (compare (some expected) (some actual) ≡ ok [])
          × (compare (some last) (some actual) ≡ ok [])))
unfolding detect_drift_with_snapshot compare clean
drift-clean expected last actual =
    (_, refl, both_empty (compare_schemas expected actual) (compare_schemas last actual))
