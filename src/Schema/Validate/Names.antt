-- ===== src/Schema/Validate/Names.antt =====
-- A valid schema is one whose names are there and differ.
use dorm.Prelude.{
  false, none, Option-cases, List, [], ◌∷◌, map, ◌≡◌, ◌↔◌, refl, Text, is_nil, All, Bool-cases, inl,
  inr,
}
use dorm.Schema.Types.{Schema, Table, Column}
use dorm.Schema.Validate.{is_seen, validate_columns, validate_tables, validate}

-- No name is empty, and none occurs later in the list or among those seen before.
abbrev pub AreNames : List Text → List Text → Type 0
AreNames seen [] = Unit
AreNames seen (n ∷ ns) = (is_nil n ≡ false) × (is_seen seen n ≡ false) × AreNames (n ∷ seen) ns

abbrev pub column_names : Table → List Text
column_names t = map (λ c. c.name) t.columns

validate_columns_iff :
    (quote : Text → Text) (table : Text) (seen : List Text) (cs : List Column)
    → (validate_columns quote table seen cs ≡ none) ↔ AreNames seen (map (λ c. c.name) cs)
unfolding validate_columns
validate_columns_iff quote table seen [] = (λ h. tt, λ h. refl)
validate_columns_iff quote table seen (c ∷ cs) =
    let ih = validate_columns_iff quote table (c.name ∷ seen) cs in
    elim (Bool-cases (is_nil c.name)) [
      | inl empty ↦ rw empty (λ h. cc, λ h. cc)
      | inr named ↦ elim (Bool-cases (is_seen seen c.name)) [
        | inl twice ↦ rw (named, twice) (λ h. cc, λ h. cc)
        | inr once ↦ rw (named, once) (λ h. (refl, refl, ih.0 h), λ h. ih.1 h.2)
      ]
    ]

validate_tables_iff :
    (quote : Text → Text) (seen : List Text) (ts : List Table)
    → (validate_tables quote seen ts ≡ none)
      ↔ (AreNames seen (map (λ t. t.name) ts) × All (λ t. AreNames [] (column_names t)) ts)
unfolding validate_tables
validate_tables_iff quote seen [] = (λ h. (tt, tt), λ h. refl)
validate_tables_iff quote seen (t ∷ ts) =
    let ih = validate_tables_iff quote (t.name ∷ seen) ts in
    let cols = validate_columns_iff quote t.name [] t.columns in
    elim (Bool-cases (is_nil t.name)) [
      | inl empty ↦ rw empty (λ h. cc, λ h. cc (h.0.0))
      | inr named ↦ elim (Bool-cases (is_seen seen t.name)) [
        | inl twice ↦ rw (named, twice) (λ h. cc, λ h. cc (h.0.1))
        | inr once ↦ elim (Option-cases (validate_columns quote t.name [] t.columns)) [
          | inl fine ↦
              rw (named, once, fine)
                (
                  λ h. ((refl, refl, (ih.0 h).0), (cols.0 fine, (ih.0 h).1)),
                  λ h. ih.1 (h.0.2, h.1.1),
                )
          | inr (e, bad) ↦ rw (named, once, bad) (λ h. cc, λ h. cc (cols.1 h.1.0, bad))
        ]
      ]
    ]

-- Validation accepts a schema exactly when no table has an empty name or that of an earlier table,
-- and in each table no column has an empty name or that of an earlier column.
pub validate_iff_names :
    (quote : Text → Text) (s : Schema)
    → (validate quote s ≡ none) ↔ (
        AreNames [] (map (λ t. t.name) s.tables) × All (λ t. AreNames [] (column_names t)) s.tables)
unfolding validate
validate_iff_names quote s = validate_tables_iff quote [] s.tables
