-- ===== src/Schema/Names.antt =====
-- schema/util.go: names of tables and columns from the names of Go types and fields.
use dorm.Prelude.{
  ℕ, ◌==◌, Bool, true, false, not, ◌&&◌, ◌||◌, [], ◌∷◌, ◌++◌, ◌≡◌, refl, arith, Text, txt, text_eq,
  All, if◌then◌else◌, is_nil, Bool-cases, inl, inr, ap, ◌∙◌,
}

-- What the program takes from Go's `unicode` package, by code point.
pub record Unicode : Type 0 where
  pub is_upper : ℕ → Bool
  pub is_lower : ℕ → Bool
  pub is_digit : ℕ → Bool
  pub to_lower : ℕ → ℕ
  pub to_upper : ℕ → ℕ

abbrev is_separator : ℕ → Bool
is_separator r = r == b'-' || r == b' '

-- What one rune adds in front of the rest; `split` says that an underscore goes before a capital.
snake_rune : Unicode → Bool → ℕ → Text → Text
snake_rune u split r rest =
    if u.is_upper r
    then if split then b'_' ∷ u.to_lower r ∷ rest else u.to_lower r ∷ rest
    else if is_separator r
    then b'_' ∷ rest
    else r ∷ rest

-- `prevLower` after the rune.
next_lower : Unicode → ℕ → Bool
next_lower u r = not (u.is_upper r || is_separator r) && (u.is_lower r || u.is_digit r)

-- The loop of `ToSnakeCase`: `first` says that the rune is the first, `prev_lower` that the one
-- before it was a lower-case letter or a digit.
snake_loop : Unicode → Bool → Bool → Text → Text
unfolding snake_rune next_lower
snake_loop u first prev_lower [] = []
snake_loop u first prev_lower (r ∷ rs) =
    snake_rune u (not first && prev_lower) r (snake_loop u false (next_lower u r) rs)

unfoldable pub to_snake_case : Unicode → Text → Text
unfolding snake_loop
to_snake_case u s = snake_loop u true false s

unfoldable pub ends_with : Text → Text → Bool
unfolding text_eq
ends_with suffix [] = is_nil suffix
ends_with suffix (c ∷ cs) = let rest = ends_with suffix cs in text_eq suffix (c ∷ cs) || rest

drop_last : Text → Text
drop_last [] = []
drop_last (c ∷ []) = []
drop_last (c ∷ d ∷ cs) = c ∷ drop_last (d ∷ cs)

-- `len(name) > 1` after `HasSuffix(name, "y")`: more than the one byte of the suffix.
unfoldable pub pluralize : Text → Text
unfolding ends_with drop_last text_eq
pluralize name =
    if is_nil name
    then []
    else if ends_with (txt "s") name
        || ends_with (txt "x") name
        || ends_with (txt "z") name
        || ends_with (txt "ch") name
        || ends_with (txt "sh") name
    then name ++ txt "es"
    else if ends_with (txt "y") name && not (text_eq name (txt "y"))
    then drop_last name ++ txt "ies"
    else name ++ txt "s"

-- No rune is an upper-case letter, a dash or a space.
abbrev pub IsSnake : Unicode → Text → Type 0
IsSnake u = All (λ r. (u.is_upper r || is_separator r) ≡ false)

-- Lowering a rune of the name gives a rune that a name in snake case can have.
abbrev LowersWell : Unicode → Text → Type 0
LowersWell u =
    All (λ r.
      u.is_upper r ≡ true → (u.is_upper (u.to_lower r) || is_separator (u.to_lower r)) ≡ false)

snake_rune-IsSnake :
    (u : Unicode) (split : Bool) (r : ℕ) (rest : Text)
    → u.is_upper b'_' ≡ false
    → LowersWell u (r ∷ [])
    → IsSnake u rest
    → IsSnake u (snake_rune u split r rest)
unfolding snake_rune
snake_rune-IsSnake u split r rest n h ih = elim (Bool-cases (u.is_upper r)) [
  | inl upper ↦ rw upper (prefixed split (h.0 upper))
  | inr other ↦ rw other (elim (Bool-cases (is_separator r)) [
    | inl separator ↦ rw separator (ground arith, ih)
    | inr plain ↦ rw plain (ground arith, ih)
  ])
]
  where
    prefixed :
        (b : Bool)
        → (u.is_upper (u.to_lower r) || is_separator (u.to_lower r)) ≡ false
        → IsSnake u (if b then b'_' ∷ u.to_lower r ∷ rest else u.to_lower r ∷ rest)
    prefixed true fine = (ground arith, (fine, ih))
    prefixed false fine = (fine, ih)

snake_loop-IsSnake :
    (u : Unicode) (first prev : Bool) (s : Text)
    → u.is_upper b'_' ≡ false
    → LowersWell u s
    → IsSnake u (snake_loop u first prev s)
unfolding snake_loop
snake_loop-IsSnake u first prev [] n h = tt
snake_loop-IsSnake u first prev (r ∷ rs) n h =
    snake_rune-IsSnake u (not first && prev) r (snake_loop u false (next_lower u r) rs) n (h.0, tt)
      (snake_loop-IsSnake u false (next_lower u r) rs n h.1)

snake_rune_id :
    (u : Unicode) (split : Bool) (r : ℕ) (rest : Text)
    → (u.is_upper r || is_separator r) ≡ false
    → snake_rune u split r rest ≡ r ∷ rest
unfolding snake_rune
snake_rune_id u split r rest h = ground arith

snake_loop_id :
    (u : Unicode) (first prev : Bool) (s : Text) → IsSnake u s → snake_loop u first prev s ≡ s
unfolding snake_loop
snake_loop_id u first prev [] h = refl
snake_loop_id u first prev (r ∷ rs) h =
    snake_rune_id u (not first && prev) r _ h.0
    ∙ ap (λ t. r ∷ t) (snake_loop_id u false (next_lower u r) rs h.1)

-- Where an underscore is no upper-case letter and lowering a rune of the name gives a rune that is
-- neither upper-case nor a separator, the snake-case name has no upper-case letter, dash or space,
-- and taking the snake case of it again changes nothing.
pub to_snake_case_idem :
    (u : Unicode) (s : Text)
    → u.is_upper b'_' ≡ false
    → LowersWell u s
    → IsSnake u (to_snake_case u s) × (to_snake_case u (to_snake_case u s) ≡ to_snake_case u s)
unfolding to_snake_case
to_snake_case_idem u s n h =
    let snake = snake_loop-IsSnake u true false s n h in
    (snake, snake_loop_id u true false (snake_loop u true false s) snake)
