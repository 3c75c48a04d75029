-- ===== src/Prelude/Split.antt =====
-- `strings.Split` and `strings.SplitN(s, sep, 2)` for a separator of one character, `strings.Trim` of
-- one character, and the cases of a switch on a string.
use Prim.Native.Nat.{ℕ}
use mathlib.Core.Bool.{Bool, ◌&&◌}
use mathlib.Core.Option.{Option, none, some}
use mathlib.Core.List.{List, [], ◌∷◌}
use dorm.Prelude.Lists.{any}
use dorm.Prelude.Strings.{Text, text_eq}
use dorm.Prelude.Tests.{◌==◌, if◌then◌else◌}
use dorm.Prelude.Trim.{is_nil}

unfoldable pub add_first : ℕ → List Text → List Text
add_first c [] = (c ∷ []) ∷ []
add_first c (p ∷ ps) = (c ∷ p) ∷ ps

unfoldable pub split : ℕ → Text → List Text
unfolding add_first
split sep [] = [] ∷ []
split sep (c ∷ cs) = let rest = split sep cs in if c == sep then [] ∷ rest else add_first c rest

-- The texts before and behind the first separator, if there is one.
unfoldable pub cut : ℕ → Text → Option (Text × Text)
cut sep [] = none
cut sep (c ∷ cs) =
    let rest = cut sep cs in
    if c == sep
    then some ([], cs)
    else elim rest [ none ↦ none | some halves ↦ some (c ∷ halves.0, halves.1) ]

unquoted_left : ℕ → Text → Text
unquoted_left q [] = []
unquoted_left q (c ∷ cs) = let rest = unquoted_left q cs in if c == q then rest else c ∷ cs

unquoted_right : ℕ → Text → Text
unquoted_right q [] = []
unquoted_right q (c ∷ cs) =
    let rest = unquoted_right q cs in if c == q && is_nil rest then [] else c ∷ rest

unfoldable pub trim_char : ℕ → Text → Text
unfolding unquoted_left unquoted_right
trim_char q s = unquoted_right q (unquoted_left q s)

unfoldable pub is_one_of : List Text → Text → Bool
unfolding text_eq
is_one_of names s = any (λ n. text_eq n s) names
