-- ===== src/Orm/DryRun/Isolation.antt =====
-- A dry run changes its own recorder only.
use dorm.Prelude.{
  true, false, Option, some, is_some, List, [], ◌∷◌, ◌≡◌, refl, ap, ◌∙◌, arith, Text, text_eq,
  text_eq_iff, text_eq_refl, Bool-cases, Option-cases, inl, inr, if◌then◌else◌,
}
use dorm.Value.{Any}
use dorm.Schema.Names.{Unicode}
use dorm.Schema.Keys.{entry}
use dorm.Schema.Keys.Entries.{entry-map, entry-append_one}
use dorm.Orm.Exec.{Exec}
use dorm.Orm.DryRun.{
  Recorder, DryRunStates, QueryAdvisor, state_of, on_recorder, open_dry_run, exec_context,
  query_context, run,
}

-- What the session of a run can do to the states: a statement of its connection, or a call of its
-- recorder.
pub data Runs (id : Text) (w : DryRunStates) : DryRunStates → Type 0 where
  start : Runs id w w
  execs :
      {v : DryRunStates} (query : Text) (args : List Any)
      → Runs id w v
      → Runs id w (exec_context id query args v).1
  queries :
      {v : DryRunStates} (u : Unicode) (query : Text) (args : List Any)
      → Runs id w v
      → Runs id w (query_context u id query args v).1
  notes :
      {v : DryRunStates} (f : Recorder → Recorder) → Runs id w v → Runs id w (on_recorder id f v)

entry_key :
    {A : Type 0} (name : A → Text) (k : Text) (xs : List A) (x : A)
    → entry name k xs ≡ some x
    → text_eq (name x) k ≡ true
unfolding entry
entry_key name k [] x e = absurd (ground (arith, e))
entry_key name k (y ∷ xs) x e = elim (Option-cases (entry name k xs)) [
  | inl lost ↦ elim (Bool-cases (text_eq (name y) k)) [
    | inl same ↦ let it : y ≡ x = ground (arith, e, lost, same) in rw (← it) same
    | inr other ↦ absurd (ground (arith, e, lost, other))
  ]
  | inr (z, found) ↦
      let it : z ≡ x = ground (arith, e, found) in entry_key name k xs x (found ∙ ap some it)
]

-- The recorder of another identifier is as it was.
state_of-on_recorder :
    (id j : Text) (f : Recorder → Recorder) (w : DryRunStates)
    → text_eq j id ≡ false
    → state_of j (on_recorder id f w) ≡ state_of j w
unfolding state_of on_recorder
state_of-on_recorder id j f w apart =
    let step : Text × Recorder → Text × Recorder =
      λ e. (e.0, if text_eq (e.0) id then f (e.1) else e.1) in
    let (absent, present) = entry-map (λ (e : Text × Recorder). e.0) step j w.states (λ e. refl) in
    elim (Option-cases (entry (λ (e : Text × Recorder). e.0) j w.states)) [
      | inl lost ↦ rw (state_of, lost, absent lost) refl
      | inr (e, found) ↦
          let key : e.0 ≡ j = (text_eq_iff (e.0) j).0 (entry_key _ j w.states e found) in
          let kept : text_eq (e.0) id ≡ false = rw key apart in
          rw (state_of, found, present e found, kept) refl
    ]

Runs-keeps :
    {id : Text} {w v : DryRunStates} (j : Text)
    → text_eq j id ≡ false
    → Runs id w v
    → state_of j v ≡ state_of j w
unfolding exec_context query_context
Runs-keeps j apart start = refl
Runs-keeps {id} j apart (execs {v} query args r) = elim (Bool-cases (is_some (state_of id v))) [
  | inl held ↦ rw held (state_of-on_recorder id j _ v apart ∙ Runs-keeps j apart r)
  | inr lost ↦ rw lost (Runs-keeps j apart r)
]
Runs-keeps {id} j apart (queries {v} u query args r) = elim (Bool-cases (is_some (state_of id v))) [
  | inl held ↦ rw held (state_of-on_recorder id j _ v apart ∙ Runs-keeps j apart r)
  | inr lost ↦ rw lost (Runs-keeps j apart r)
]
Runs-keeps {id} j apart (notes {v} f r) = state_of-on_recorder id j f v apart ∙ Runs-keeps j apart r

text_eq-flip : (a b : Text) → text_eq a b ≡ false → text_eq b a ≡ false
text_eq-flip a b h = elim (Bool-cases (text_eq b a)) [
  | inr e ↦ e
  | inl e ↦
      let it = (text_eq_iff b a).0 e in
      absurd (ground (arith, h, text_eq_refl a, ap (text_eq a) it))
]

open_dry_run-keeps :
    (j : Text) (w : DryRunStates)
    → text_eq (open_dry_run w).0 j ≡ false
    → state_of j (open_dry_run w).1 ≡ state_of j w
unfolding open_dry_run state_of
open_dry_run-keeps j w apart =
    rw (state_of, entry-append_one (λ (e : Text × Recorder). e.0) j w.states _, apart) refl

-- When the session of a dry run calls nothing but its connection and its recorder, the recorder of
-- every other run is as it was before, whatever the session returns and the advisor says.
pub run-keeps :
    {A : Type 0} (advisor : Option QueryAdvisor) (operation : Text)
    (fn : Text → Exec DryRunStates A) (w : DryRunStates) (j : Text)
    → text_eq (open_dry_run w).0 j ≡ false
    → Runs (open_dry_run w).0 (open_dry_run w).1 (fn (open_dry_run w).0 (open_dry_run w).1).1
    → state_of j (run advisor operation fn w).1 ≡ state_of j w
unfolding run
run-keeps advisor operation fn w j apart only =
    Runs-keeps j (text_eq-flip (open_dry_run w).0 j apart) only ∙ open_dry_run-keeps j w apart

-- The recorder of the identifier itself is changed.
pub state_of-on_recorder_same :
    (id : Text) (f : Recorder → Recorder) (w : DryRunStates) (r : Recorder)
    → state_of id w ≡ some r
    → state_of id (on_recorder id f w) ≡ some (f r)
unfolding state_of on_recorder
state_of-on_recorder_same id f w r held =
    let step : Text × Recorder → Text × Recorder =
      λ e. (e.0, if text_eq (e.0) id then f (e.1) else e.1) in
    let (absent, present) = entry-map (λ (e : Text × Recorder). e.0) step id w.states (λ e. refl) in
    elim (Option-cases (entry (λ (e : Text × Recorder). e.0) id w.states)) [
      | inl lost ↦ absurd (ground (arith, held, lost))
      | inr (e, found) ↦
          let key : e.0 ≡ id = (text_eq_iff (e.0) id).0 (entry_key _ id w.states e found) in
          let same : text_eq (e.0) id ≡ true = rw key (text_eq_refl id) in
          let it : e.1 ≡ r = ground (arith, held, found) in
          rw (state_of, present e found, same, it) refl
    ]
