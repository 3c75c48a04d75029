-- ===== src/Migrate/Service/Registry.antt =====
-- The registry of applied migrations: what a run leaves in it, and what the next run does.
mod Scripts
use dorm.Prelude.{
  true, false, List, [], ◌∷◌, map, any, In, here, there, All, ◌≡◌, refl, ap, Text, text_eq,
  text_eq_iff, text_eq_refl, text_le, is_nil, Bool-cases, inl, inr, arith,
}
use dorm.Errors.{Result, ok, err}
use dorm.Schema.Keys.{sort_by}
use dorm.Orm.Exec.{Exec, bind-ok, ◌>>=◌, ◌>>◌, lift}
use dorm.Migrate.Service.{
  Config, Files, Store, attempt, labelled, migration_name, up_files, registry_text, insert_text,
  select_text, ensure_migration_registry, applied_migration_set, record_applied_migration,
  apply_script, apply_file, apply_files, run_pending, run, status, listed_names,
}
pub use dorm.Migrate.Service.Registry.Scripts.{Keeps, Spares, IsRegistry}
use dorm.Migrate.Service.Registry.Scripts.{attempt-ok, apply_files-records, apply_files-skips}

All-map :
    {A B : Type 0} (f : A → B) (P : B → Type 0) (xs : List A)
    → All (λ x. P (f x)) xs
    → All P (map f xs)
All-map f P [] h = tt
All-map f P (x ∷ xs) (h, hs) = (h, All-map f P xs hs)

All-weaken :
    {A : Type 0} {P Q : A → Type 0} (xs : List A) → ((x : A) → P x → Q x) → All P xs → All Q xs
All-weaken [] f h = tt
All-weaken (x ∷ xs) f (h, hs) = (f x h, All-weaken xs f hs)

module _ {W : Type 0} (cfg : Config) (fs : Files) (store : Store W) (reg : W → List Text) where
  -- What a run that succeeds has seen and done.
  run_steps :
      (w w' : W)
      → run fs store cfg w ≡ (ok tt, w')
      → (is_nil cfg.migrations_dir ≡ false)
        × (w1 : W) × (ensure_migration_registry fs store w ≡ (ok tt, w1))
        × (w2 : W) × (applied : List Text) × (applied_migration_set fs store w1 ≡ (ok applied, w2))
        × (files : List Text) × (up_files cfg fs ≡ ok files)
        × (apply_files fs store applied (sort_by text_le files) w2 ≡ (ok tt, w'))
  unfolding run run_pending
  run_steps w w' e = elim (Bool-cases (is_nil cfg.migrations_dir)) [
    | inl empty ↦ absurd (ground (arith, e, empty))
    | inr named ↦
        let go : (attempt [] [] (ensure_migration_registry fs store) >> run_pending fs store cfg) w
            ≡ (ok tt, w') =
          ground (arith, e, named) in
        let ask = attempt [] [] (applied_migration_set fs store) in
        let find_files = attempt cfg.migrations_dir [] (lift (up_files cfg fs)) in
        let apply =
          λ (applied files : List Text). apply_files fs store applied (sort_by text_le files) in
        let (u, w1, ensured, rest) =
          bind-ok (attempt [] [] (ensure_migration_registry fs store))
            (λ u. run_pending fs store cfg) tt w w' go in
        let (applied, w2, asked, rest2) =
          bind-ok ask (λ applied. find_files >>= apply applied) tt w1 w' rest in
        let (files, w3, found, rest3) = bind-ok find_files (apply applied) tt w2 w' rest2 in
        let found' =
          attempt-ok fs store reg cfg.migrations_dir [] (lift (up_files cfg fs)) files w2 w3
            found in
        (
          named,
          w1,
          attempt-ok fs store reg [] [] (ensure_migration_registry fs store) tt w w1 ensured,
          w2,
          applied,
          attempt-ok fs store reg [] [] (applied_migration_set fs store) applied w1 w2 asked,
          files,
          ap (λ p. p.0) found',
          rw (ap (λ p. p.1) found') rest3,
        )
  ]

  -- No script that a run takes up, in the order in which it does, takes a name out of the registry.
  abbrev pub ScriptsSpare : Type 0
  ScriptsSpare =
      (files : List Text)
      → up_files cfg fs ≡ ok files
      → All (Spares fs store reg) (sort_by text_le files)

  run-recorded :
      IsRegistry fs store reg
      → ScriptsSpare
      → (w w' : W) → run fs store cfg w ≡ (ok tt, w')
      → (is_nil cfg.migrations_dir ≡ false)
        × (files : List Text) × (up_files cfg fs ≡ ok files)
        × All (λ file. In (migration_name fs file) (reg w')) (sort_by text_le files)
        × Keeps fs store reg w w'
  unfolding ensure_migration_registry applied_migration_set
  run-recorded laws scripts w w' e =
      let (named, w1, ensured, w2, applied, asked, files, found, done) = run_steps w w' e in
      let (known, held, kept) = laws.listed w1 w2 applied asked in
      let (all, keeps) =
        apply_files-records fs store reg laws applied (sort_by text_le files) w2 w'
          (scripts files found) known done in
      (named, files, found, all, λ k i. keeps k (kept k (laws.created w w1 ensured k i)))

  -- Where the table of migrations behaves as its statements say, and no script of the directory takes
  -- a name out of it: when Run has succeeded, every migration that Status lists is in the table, and
  -- so is what was in it before.
  pub run-records :
      IsRegistry fs store reg
      → ScriptsSpare
      → (w w' : W) (names : List Text) → run fs store cfg w ≡ (ok tt, w')
      → status cfg fs ≡ ok names
      → All (λ name. In name (reg w')) names × Keeps fs store reg w w'
  unfolding status listed_names
  run-records laws scripts w w' names e s =
      let (named, files, found, all, keeps) = run-recorded laws scripts w w' e in
      let same : map (migration_name fs) (sort_by text_le files) ≡ names =
        ground (arith, s, found) in
      (
        rw (← same)
            (All-map (migration_name fs) (λ name. In name (reg w')) (sort_by text_le files) all),
        keeps,
      )

  -- The names of the table are those that the next run asks for.
  table_read :
      IsRegistry fs store reg
      → (w w1 w2 : W) (applied : List Text) → ensure_migration_registry fs store w ≡ (ok tt, w1)
      → applied_migration_set fs store w1 ≡ (ok applied, w2)
      → (k : Text) → In k (reg w)
      → In k applied
  unfolding ensure_migration_registry applied_migration_set
  table_read laws w w1 w2 applied ensured asked k i =
      let (known, held, kept) = laws.listed w1 w2 applied asked in
      held k (laws.created w w1 ensured k i)

  -- Where the table of migrations behaves as its statements say, and no script of the directory takes
  -- a name out of it: after a run that has succeeded, a second one over the same files, if the table
  -- can be created and read again, executes no script and succeeds.
  pub run_again :
      IsRegistry fs store reg
      → ScriptsSpare
      → (w w' w1 w2 : W) (applied : List Text) → run fs store cfg w ≡ (ok tt, w')
      → ensure_migration_registry fs store w' ≡ (ok tt, w1)
      → applied_migration_set fs store w1 ≡ (ok applied, w2)
      → run fs store cfg w' ≡ (ok tt, w2)
  unfolding run run_pending attempt labelled
  run_again laws scripts w w' w1 w2 applied e ensured asked =
      let (named, files, found, all, keeps) = run-recorded laws scripts w w' e in
      let skips : apply_files fs store applied (sort_by text_le files) w2 ≡ (ok tt, w2) =
        apply_files-skips fs store reg applied (sort_by text_le files) w2 (
          All-weaken (sort_by text_le files)
            (λ file. table_read laws w' w1 w2 applied ensured asked (migration_name fs file))
            all) in
      rw (run, named, ensured, asked, found, skips) refl
