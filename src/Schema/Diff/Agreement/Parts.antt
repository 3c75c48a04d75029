-- ===== src/Schema/Diff/Agreement/Parts.antt =====
-- schema/diff.go: when the two loops that compare parts by name find nothing.
use dorm.Prelude.{
  Option, none, some, is_some, List, [], ◌∷◌, ◌++◌, flat, ◌≡◌, ◌≢◌, ◌↔◌, refl, sym, ◌∙◌, Text, In,
  here, there, Option-cases, inl, inr,
}
use dorm.Schema.Keys.{entry, sorted_keys}
use dorm.Schema.Keys.Entries.{In-sorted_keys}
use dorm.Schema.Diff.{Operation, kept, gone, compare_parts}

-- Two entries are there or missing together, and are related if they are there.
pub record Agree {A : Type 0} (P : A → A → Type 0) (x y : Option A) : Type 0 where
  pub both : is_some x ≡ is_some y
  pub related : (a b : A) → x ≡ some a → y ≡ some b → P a b

pub append_nil : {A : Type 0} (xs ys : List A) → xs ++ ys ≡ [] → (xs ≡ []) × (ys ≡ [])
append_nil [] ys h = (refl, h)
append_nil (x ∷ xs) ys h = cc

pub cons_nil : {A : Type 0} {x : A} {xs : List A} → x ∷ xs ≢ []
cons_nil h = cc

pub nil_append : {A : Type 0} {xs ys : List A} → xs ≡ [] → ys ≡ [] → xs ++ ys ≡ []
nil_append h g = rw (h, g)

pub some_inj : {A : Type 0} {x u : A} → some x ≡ some u → x ≡ u
some_inj p = cc

flat-nil_In :
    {A : Type 0} (f : Text → List A) (ks : List Text) {k : Text}
    → flat f ks ≡ []
    → In k ks
    → f k ≡ []
flat-nil_In f [] h i = elim i [ ]
flat-nil_In f (k ∷ ks) h here = (append_nil (f k) (flat f ks) h).0
flat-nil_In f (k ∷ ks) h (there i) = flat-nil_In f ks (append_nil (f k) (flat f ks) h).1 i

flat-nil :
    {A : Type 0} (f : Text → List A) (ks : List Text) → ((k : Text) → f k ≡ []) → flat f ks ≡ []
flat-nil f [] h = refl
flat-nil f (k ∷ ks) h = rw (h k) (flat-nil f ks h)

module _ {A : Type 0} (name : A → Text) (changed : A → Option A → List Operation)
    (dropped : A → Operation) (Same : A → A → Type 0) (added : (e : A) → changed e none ≢ [])
    (same_iff : (e a : A) → (changed e (some a) ≡ []) ↔ Same e a) where
  Agree-of_entries :
      (x y : Option A)
      → kept name changed dropped x y ≡ []
      → gone name changed dropped x y ≡ []
      → Agree Same x y
  unfolding kept gone
  Agree-of_entries none none h g = record { both = refl; related = λ a b p q. cc }
  Agree-of_entries none (some a) h g = cc
  Agree-of_entries (some e) none h g = absurd (added e h)
  Agree-of_entries (some e) (some a) h g = record {
    both = refl;
    related = λ u v p q. rw (← some_inj p, ← some_inj q) ((same_iff e a).0 h);
  }

  entries_of_Agree :
      (x y : Option A)
      → Agree Same x y
      → (kept name changed dropped x y ≡ []) × (gone name changed dropped x y ≡ [])
  unfolding kept gone
  entries_of_Agree none none h = (refl, refl)
  entries_of_Agree none (some a) h = cc (h.both)
  entries_of_Agree (some e) none h = cc (h.both)
  entries_of_Agree (some e) (some a) h = ((same_iff e a).1 (h.related e a refl refl), refl)

  gone-none : (x : Option A) → gone name changed dropped x none ≡ []
  unfolding gone
  gone-none none = refl
  gone-none (some e) = refl

  -- The loops run over the keys that have an entry; the other keys have nothing to give.
  kept_everywhere :
      (expected actual : List A) (k : Text)
      → flat
          (λ j. kept name changed dropped (entry name j expected) (entry name j actual))
          (sorted_keys name expected)
        ≡ []
      → kept name changed dropped (entry name k expected) (entry name k actual) ≡ []
  unfolding kept
  kept_everywhere expected actual k h = elim (Option-cases (entry name k expected)) [
    | inl e ↦ rw e refl
    | inr (x, e) ↦
        flat-nil_In (λ j. kept name changed dropped (entry name j expected) (entry name j actual))
          (sorted_keys name expected) h (In-sorted_keys name k x expected e)
  ]

  gone_everywhere :
      (expected actual : List A) (k : Text)
      → flat
          (λ j. gone name changed dropped (entry name j expected) (entry name j actual))
          (sorted_keys name actual)
        ≡ []
      → gone name changed dropped (entry name k expected) (entry name k actual) ≡ []
  gone_everywhere expected actual k h = elim (Option-cases (entry name k actual)) [
    | inl e ↦ rw e (gone-none (entry name k expected))
    | inr (x, e) ↦
        flat-nil_In (λ j. gone name changed dropped (entry name j expected) (entry name j actual))
          (sorted_keys name actual) h (In-sorted_keys name k x actual e)
  ]

  pub compare_parts_iff :
      (expected actual : List A)
      → (compare_parts name changed dropped expected actual ≡ [])
        ↔ ((k : Text) → Agree Same (entry name k expected) (entry name k actual))
  unfolding compare_parts
  compare_parts_iff expected actual = (
    λ h k.
        let (first, second) = append_nil _ _ h in
        Agree-of_entries (entry name k expected) (entry name k actual)
          (kept_everywhere expected actual k first) (gone_everywhere expected actual k second),
    λ h.
        nil_append
          (flat-nil (λ j. kept name changed dropped (entry name j expected) (entry name j actual))
            (sorted_keys name expected) (λ k. (entries_of_Agree _ _ (h k)).0))
          (flat-nil (λ j. gone name changed dropped (entry name j expected) (entry name j actual))
            (sorted_keys name actual) (λ k. (entries_of_Agree _ _ (h k)).1)),
  )

pub Agree-refl :
    {A : Type 0} (P : A → A → Type 0) → ((a : A) → P a a) → (x : Option A) → Agree P x x
Agree-refl P h x = record { both = refl; related = λ a b p q. rw (← some_inj (sym p ∙ q)) (h a) }
