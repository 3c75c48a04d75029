-- ===== src/Schema/Tags.antt =====
-- schema/builder.go and schema/traits.go: the tags of a struct field. A map is the list of what was
-- written to it: the last entry of a key counts.
use dorm.Prelude.{
  Bool, true, false, Option, none, some, List, [], ◌∷◌, flat, keep_if, map, not, Text, txt, text_eq,
  trim, is_nil, split, cut, trim_char, if◌then◌else◌,
}
use dorm.Schema.Keys.{entry}

pub record TagEntry : Type 0 where
  pub value : Text
  pub is_set : Bool

abbrev pub TagMap : Type 0
TagMap = List (Text × TagEntry)

-- `meta[key].IsSet` and `meta[key].Value`: a missing key gives the zero entry.
unfoldable pub is_set : Text → TagMap → Bool
unfolding entry text_eq
is_set key meta = elim (entry (λ (e : Text × TagEntry). e.0) key meta) [
  | some e ↦ e.1.is_set
  | none ↦ false
]

unfoldable pub tag_value : Text → TagMap → Text
unfolding entry text_eq
tag_value key meta = elim (entry (λ (e : Text × TagEntry). e.0) key meta) [
  | some e ↦ e.1.value
  | none ↦ []
]

abbrev pub entry_of : Text → Text → Text × TagEntry
entry_of key value = (key, record { value = value; is_set = true })

-- One part of an `orm` tag.
unfoldable pub orm_part : Text → TagMap
unfolding trim cut
orm_part raw =
    let part = trim raw in
    if is_nil part then [] else elim (cut b'=' part) [
      | some items ↦ entry_of (trim items.0) (trim items.1) ∷ []
      | none ↦ entry_of part (txt "true") ∷ []
    ]

unfoldable pub parse_orm_tag : Text → TagMap
unfolding orm_part split
parse_orm_tag text = if is_nil text then [] else flat orm_part (split b',' text)

-- One part of a struct tag; `unquote` is `strconv.Unquote`.
unfoldable pub struct_part : (Text → Option Text) → Text → List (Text × Text)
unfolding cut trim trim_char
struct_part unquote part = elim (cut b':' part) [
  | none ↦ []
  | some kv ↦ elim (unquote (trim (kv.1))) [
    | some value ↦ (kv.0, value) ∷ []
    | none ↦ (kv.0, trim_char b'"' (trim (kv.1))) ∷ []
  ]
]

unfoldable pub parse_struct_tag : (Text → Option Text) → Text → List (Text × Text)
unfolding struct_part split
parse_struct_tag unquote text =
    if is_nil text then [] else flat (struct_part unquote) (split b' ' text)

-- `tagMap[key]` of a map of strings.
unfoldable pub lookup_text : Text → List (Text × Text) → Text
unfolding entry text_eq
lookup_text key tags = elim (entry (λ (e : Text × Text). e.0) key tags) [ some e ↦ e.1 | none ↦ [] ]

unfoldable pub flatten_tag_map : TagMap → List (Text × Text)
flatten_tag_map meta =
    map (λ (e : Text × TagEntry). (e.0, e.1.value))
      (keep_if (λ (e : Text × TagEntry). e.1.is_set) meta)

unfoldable pub split_csv : Text → List Text
unfolding trim split
split_csv text =
    if is_nil (trim text)
    then []
    else keep_if (λ p. not (is_nil p)) (map trim (split b'|' (trim text)))
