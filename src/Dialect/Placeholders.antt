-- ===== src/Dialect/Placeholders.antt =====
-- dialect/placeholders.go: the generic `?` becomes the dialect's numbered placeholder.
use dorm.Prelude.{
  ℕ, ◌+◌, ◌==◌, Option, none, some, [], ◌∷◌, ◌++◌, ◌≡◌, refl, ap, arith, Text, if◌then◌else◌,
  append_assoc, Bool-cases, inl, inr,
}
use dorm.Dialect.{Dialect}

-- The loop over the runes: `next` is the number of the next placeholder.
unfoldable pub substitute : (ℕ → Text) → ℕ → Text → Text
substitute placeholder next [] = []
substitute placeholder next (r ∷ rs) =
    let rest = substitute placeholder (if r == b'?' then next + 1 else next) rs in
    if r == b'?' then placeholder next ++ rest else r ∷ rest

unfoldable pub bind_placeholders : Text → Option Dialect → Text
unfolding substitute
bind_placeholders query none = query
bind_placeholders query (some d) = substitute d.placeholder 1 query

-- How many placeholders a text asks for.
abbrev pub holes : Text → ℕ
holes [] = 0
holes (r ∷ rs) = (if r == b'?' then 1 else 0) + holes rs

pub holes-append : (s t : Text) → holes (s ++ t) ≡ holes s + holes t
holes-append [] t = omega arith
holes-append (r ∷ s) t = omega (arith, holes-append s t)

module _ (placeholder : ℕ → Text) where
  -- Numbering a text that is put together from two goes on after the holes of the first.
  pub substitute-append :
      (k : ℕ) (s t : Text)
      → substitute placeholder k (s ++ t)
        ≡ substitute placeholder k s ++ substitute placeholder (k + holes s) t
  unfolding substitute
  substitute-append k [] t = ap (λ j. substitute placeholder j t) (omega arith)
  substitute-append k (r ∷ s) t = elim (Bool-cases (r == b'?')) [
    | inl hole ↦ rw hole (
        rw (substitute-append (k + 1) s t, append_assoc)
          (ap
            (λ j. placeholder k ++ (substitute placeholder (k + 1) s ++ substitute placeholder j t))
            (omega arith)))
    | inr other ↦ rw other (
        rw (substitute-append k s t)
          (ap (λ j. r ∷ (substitute placeholder k s ++ substitute placeholder j t)) (omega arith)))
  ]

  -- A text with no hole is left as it is.
  pub substitute_plain : (k : ℕ) (s : Text) → holes s ≡ 0 → substitute placeholder k s ≡ s
  unfolding substitute
  substitute_plain k [] h = refl
  substitute_plain k (r ∷ s) h = elim (Bool-cases (r == b'?')) [
    | inl hole ↦ ground arith
    | inr other ↦ ground (arith, substitute_plain k s)
  ]
