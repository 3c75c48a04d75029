-- ===== src/Dialect/Postgres/Quote.antt =====
-- What PostgreSQL reads back from a quoted identifier. `scan` is its lexical rule: after the
-- opening quote, two quotes stand for one, and a single quote ends the identifier.
use dorm.Prelude.{
  ℕ, ◌==◌, false, Option, none, some, [], ◌∷◌, ◌++◌, ◌≡◌, refl, arith, Text, if◌then◌else◌,
  Bool-cases, inl, inr, append_assoc, ap, ==_iff, sym,
}
use dorm.Dialect.Postgres.{double_quotes, quote_ident}

-- The identifier and the text behind it.
abbrev prefix_with : ℕ → Option (Text × Text) → Option (Text × Text)
prefix_with c none = none
prefix_with c (some (ident, rest)) = some (c ∷ ident, rest)

scan : Text → Option (Text × Text)
scan [] = none
scan (c ∷ []) = if c == b'"' then some ([], []) else none
scan (c ∷ d ∷ cs) =
    let later = scan (d ∷ cs) in
    let after_pair = scan cs in
    if c == b'"'
    then if d == b'"' then prefix_with b'"' after_pair else some ([], d ∷ cs)
    else prefix_with c later

-- The rule for a whole quoted identifier.
unfoldable pub read_ident : Text → Option (Text × Text)
unfolding scan
read_ident [] = none
read_ident (c ∷ cs) = if c == b'"' then scan cs else none

-- A text that does not begin with a quote.
abbrev StartsClear : Text → Type 0
StartsClear [] = Unit
StartsClear (c ∷ cs) = (c == b'"') ≡ false

scan_end : (rest : Text) → StartsClear rest → scan (b'"' ∷ rest) ≡ some ([], rest)
unfolding scan
scan_end [] h = refl
scan_end (c ∷ cs) h = rw h

scan_ordinary :
    (c : ℕ) (cs : Text) (r : Text × Text)
    → (c == b'"') ≡ false
    → scan cs ≡ some r
    → scan (c ∷ cs) ≡ some (c ∷ r.0, r.1)
unfolding scan
scan_ordinary c [] r h e = ground arith
scan_ordinary c (d ∷ cs) r h e = rw (h, e)

scan_pair : (cs : Text) → scan (b'"' ∷ b'"' ∷ cs) ≡ prefix_with b'"' (scan cs)
unfolding scan
scan_pair cs = refl

scan-double_quotes :
    (s rest : Text) → StartsClear rest → scan (double_quotes s ++ b'"' ∷ rest) ≡ some (s, rest)
unfolding double_quotes
scan-double_quotes [] rest h = scan_end rest h
scan-double_quotes (c ∷ s) rest h = elim (Bool-cases (c == b'"')) [
  | inl quote ↦
      rw (quote, scan_pair, scan-double_quotes s rest h)
        (ap (λ d. some (d ∷ s, rest)) (sym ((==_iff c _).0 quote)))
  | inr other ↦ rw other (scan_ordinary c _ (s, rest) other (scan-double_quotes s rest h))
]

-- Whatever the name is, PostgreSQL reads its quoted form back as exactly that name, and goes on
-- right behind it, where the text behind does not begin with a quote.
pub read_ident-quote_ident :
    (s rest : Text) → StartsClear rest → read_ident (quote_ident s ++ rest) ≡ some (s, rest)
unfolding read_ident quote_ident
read_ident-quote_ident s rest h =
    rw (append_assoc (double_quotes s) (b'"' ∷ []) rest) (scan-double_quotes s rest h)
