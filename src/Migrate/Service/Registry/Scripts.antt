-- ===== src/Migrate/Service/Registry/Scripts.antt =====
-- Run of migrate/migrate.go: what the files of a run leave in the table of migrations.
use dorm.Prelude.{
  true, List, [], ◌∷◌, any, In, here, there, All, ◌≡◌, refl, ap, Text, text_eq, text_eq_iff,
  text_eq_refl, Bool-cases, inl, inr, arith,
}
use dorm.Errors.{Result, ok, err}
use dorm.Orm.Exec.{Exec, bind-ok, ◌>>◌, lift}
use dorm.Migrate.Service.{
  Files, Store, attempt, labelled, migration_name, registry_text, insert_text, select_text,
  record_applied_migration, apply_script, apply_file, apply_files,
}

module _ {W : Type 0} (fs : Files) (store : Store W) (reg : W → List Text) where
  -- The names of the registry in a state stay in it in another.
  abbrev pub Keeps : W → W → Type 0
  Keeps w w' = (k : Text) → In k (reg w) → In k (reg w')

  -- A script, when it is executed, takes no name out of the registry.
  abbrev pub Spares : Text → Type 0
  Spares file =
      (sql : Text) (w w' : W)
      → fs.read_file file ≡ ok sql
      → store.exec sql [] w ≡ (ok tt, w')
      → Keeps w w'

  -- The table of migrations behaves as its statements say: creating it where it does not exist leaves
  -- its names, a name that is inserted is in it, and the query lists its names.
  pub record IsRegistry : Type 0 where
    pub created : (w w' : W) → store.exec registry_text [] w ≡ (ok tt, w') → Keeps w w'
    pub recorded :
        (name checksum : Text) (w w' : W)
        → store.exec insert_text (name ∷ checksum ∷ []) w ≡ (ok tt, w')
        → In name (reg w') × Keeps w w'
    pub listed :
        (w w' : W) (names : List Text)
        → store.query_names select_text w ≡ (ok names, w')
        → ((k : Text) → In k names → In k (reg w'))
          × ((k : Text) → In k (reg w) → In k names)
          × Keeps w w'

  labelled-ok :
      {A : Type 0} (file t : Text) (r : Result A) (a : A) → labelled file t r ≡ ok a → r ≡ ok a
  unfolding labelled
  labelled-ok file t (ok b) a e = e
  labelled-ok file t (err x) a e = absurd (ground (arith, e))

  pub attempt-ok :
      {A : Type 0} (file t : Text) (m : Exec W A) (a : A) (w w' : W)
      → attempt file t m w ≡ (ok a, w')
      → m w ≡ (ok a, w')
  unfolding attempt
  attempt-ok file t m a w w' e =
      ground (arith, labelled-ok file t (m w).0 a (ap (λ p. p.0) e), ap (λ p. p.1) e)

  any-In : (k : Text) (names : List Text) → any (λ n. text_eq n k) names ≡ true → In k names
  any-In k [] h = absurd (ground (arith, h))
  any-In k (n ∷ names) h = elim (Bool-cases (text_eq n k)) [
    | inl same ↦ rw ((text_eq_iff n k).0 same) here
    | inr other ↦ there (any-In k names (ground (arith, h, other)))
  ]

  In-any : (k : Text) (names : List Text) → In k names → any (λ n. text_eq n k) names ≡ true
  In-any k [] i = elim i [ ]
  In-any k (n ∷ names) here = ground (arith, text_eq_refl n)
  In-any k (n ∷ names) (there i) = ground (arith, In-any k names i)

  module _ (laws : IsRegistry) where
    apply_script-records :
        (file : Text) (w w' : W)
        → Spares file
        → apply_script fs store file w ≡ (ok tt, w')
        → In (migration_name fs file) (reg w') × Keeps w w'
    unfolding apply_script record_applied_migration
    apply_script-records file w w' spares e =
        let name = migration_name fs file in
        let run_sql = λ (sql : Text). attempt file sql (store.exec sql []) in
        let note = λ (sql : Text).
          attempt file [] (record_applied_migration fs store name (fs.checksum sql)) in
        let (sql, w1, got, rest) =
          bind-ok (attempt file [] (lift (fs.read_file file))) (λ sql. run_sql sql >> note sql) tt w
            w' e in
        let (u, w2, ran, noted) = bind-ok (run_sql sql) (λ u. note sql) tt w1 w' rest in
        let read = attempt-ok file [] (lift (fs.read_file file)) sql w w1 got in
        let same : w ≡ w1 = ap (λ p. p.1) read in
        let (has, keeps) = laws.recorded name (fs.checksum sql) w2 w' (
          attempt-ok file [] (record_applied_migration fs store name (fs.checksum sql)) tt w2 w'
            noted) in
        let before =
          spares sql w1 w2 (ap (λ p. p.0) read)
            (attempt-ok file sql (store.exec sql []) tt w1 w2 ran) in
        (has, λ k i. keeps k (before k (rw (← same) i)))

    apply_file-records :
        (applied : List Text) (file : Text) (w w' : W)
        → Spares file
        → ((k : Text) → In k applied → In k (reg w))
        → apply_file fs store applied file w ≡ (ok tt, w')
        → In (migration_name fs file) (reg w') × Keeps w w'
    unfolding apply_file
    apply_file-records applied file w w' spares known e =
        elim (Bool-cases (any (λ name. text_eq name (migration_name fs file)) applied)) [
          | inl skipped ↦
              let same : w ≡ w' = ground (arith, e, skipped) in
              (
                rw (← same) (
                    known (migration_name fs file)
                      (any-In (migration_name fs file) applied skipped)),
                λ k i. rw (← same) i,
              )
          | inr pending ↦ apply_script-records file w w' spares (ground (arith, e, pending))
        ]

    pub apply_files-records :
        (applied files : List Text) (w w' : W)
        → All Spares files
        → ((k : Text) → In k applied → In k (reg w))
        → apply_files fs store applied files w ≡ (ok tt, w')
        → All (λ file. In (migration_name fs file) (reg w')) files × Keeps w w'
    unfolding apply_files
    apply_files-records applied [] w w' spares known e =
        let same : w ≡ w' = ground (arith, e) in (tt, λ k i. rw (← same) i)
    apply_files-records applied (file ∷ files) w w' (spares, others) known e =
        let (u, w1, first, rest) =
          bind-ok (apply_file fs store applied file) (λ u. apply_files fs store applied files) tt w
            w' e in
        let (has, keeps) = apply_file-records applied file w w1 spares known first in
        let (all, keeps') =
          apply_files-records applied files w1 w' others (λ k i. keeps k (known k i)) rest in
        ((keeps' (migration_name fs file) has, all), λ k i. keeps' k (keeps k i))

  -- Files that are all in the map are skipped.
  pub apply_files-skips :
      (applied files : List Text) (w : W)
      → All (λ file. In (migration_name fs file) applied) files
      → apply_files fs store applied files w ≡ (ok tt, w)
  unfolding apply_files apply_file
  apply_files-skips applied [] w h = refl
  apply_files-skips applied (file ∷ files) w (h, hs) =
      rw (In-any (migration_name fs file) applied h) (apply_files-skips applied files w hs)
