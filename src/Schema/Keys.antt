-- ===== src/Schema/Keys.antt =====
-- The maps by name of schema/diff.go, and the sorts of schema/types.go and schema/diff.go. Building a
-- Go map from a list keeps the last entry of a key.
pub mod Entries
use dorm.Prelude.{
  Bool, true, false, Option, none, some, List, [], ◌∷◌, Text, text_eq, text_le, if◌then◌else◌,
}

module _ {A : Type 0} where
  -- The entry of a key in the map built from the list.
  unfoldable pub entry : (A → Text) → Text → List A → Option A
  unfolding text_eq
  entry name k [] = none
  entry name k (x ∷ xs) = elim (entry name k xs) [
    | some y ↦ some y
    | none ↦ if text_eq (name x) k then some x else none
  ]

  -- A stable sort, by insertion: an element goes in front of the first that is not less.
  unfoldable pub insert_by : (A → A → Bool) → A → List A → List A
  insert_by le x [] = x ∷ []
  insert_by le x (y ∷ ys) = let rest = insert_by le x ys in if le x y then x ∷ y ∷ ys else y ∷ rest

  unfoldable pub sort_by : (A → A → Bool) → List A → List A
  unfolding insert_by
  sort_by le [] = []
  sort_by le (x ∷ xs) = insert_by le x (sort_by le xs)

-- The keys of a map, each once and in order.
insert_key : Text → List Text → List Text
unfolding text_eq text_le
insert_key k [] = k ∷ []
insert_key k (j ∷ js) =
    let rest = insert_key k js in
    if text_eq k j then j ∷ js else if text_le k j then k ∷ j ∷ js else j ∷ rest

unfoldable pub sorted_keys : {A : Type 0} → (A → Text) → List A → List Text
unfolding insert_key
sorted_keys name [] = []
sorted_keys name (x ∷ xs) = insert_key (name x) (sorted_keys name xs)
