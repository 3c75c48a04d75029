-- ===== src/Migrate/Writing.antt =====
-- migrate/migrate.go: `Write`, which puts a migration and the new snapshot on disk, and what
-- `Generate` finds after it.
use dorm.Prelude.{
  Option, none, some, List, [], ◌++◌, ◌≡◌, refl, sym, ◌∙◌, ap, Text, txt, join, is_nil,
  if◌then◌else◌, arith, false, Bool-cases, inl, inr,
}
use dorm.Errors.{Kind, Result, ok, err, new, detailed_by, Details, Result-cases}
use dorm.Schema.Types.{Schema}
use dorm.Schema.Snapshot.{IsFileSystem, save_snapshot, load_snapshot, save_snapshot-loads}
use dorm.Schema.Diff.{Operation, sort_schema, compare, compare_schemas}
use dorm.Schema.Diff.Agreement.{compare_sorted}
use dorm.Migrate.{invert_diff}
use dorm.Orm.Exec.{bind-ok, Exec, ◌>>◌, raise, pure}
use dorm.Migrate.Service.{Config, next_migration_name}
use dorm.Migrate.Generation.{Migration, Disk, generate, generated, previous, loaded_or, unsupported}

generation_failed : {A : Type 0} → Text → Result A → Result A
generation_failed file (ok a) = ok a
generation_failed file (err e) =
    err (detailed_by Kind.migration_generation (Details.migration_error file [] 0) e)

module _ {F : Type 0} (disk : Disk F) where
  -- A call whose error names the file.
  writing : {A : Type 0} → Text → Exec F A → Exec F A
  unfolding generation_failed
  writing file m w = let (r, w') = m w in (generation_failed file r, w')

  write_snapshot : Config → Option Schema → Exec F Unit
  unfolding writing save_snapshot
  write_snapshot cfg none = pure tt
  write_snapshot cfg (some s) =
      if is_nil cfg.snapshot_path
      then pure tt
      else writing cfg.snapshot_path (save_snapshot disk.snapshots cfg.snapshot_path s)

  script : List Text → Text
  unfolding join
  script sql = join (txt "\n\n") sql ++ txt "\n"

  -- The name of the migration, or the next one where it has none.
  written_name : Config → Migration → F → Text
  written_name cfg m w =
      if is_nil m.migration_name then next_migration_name cfg (disk.files w) else m.migration_name

  path_of : Config → F → Text → Text
  path_of cfg w file = (disk.files w).join_path cfg.migrations_dir file

  write_scripts : Config → Migration → Exec F Unit
  unfolding writing script written_name path_of write_snapshot
  write_scripts cfg m w =
      let up = path_of cfg w (written_name cfg m w ++ txt ".up.sql") in
      let down = path_of cfg w (written_name cfg m w ++ txt ".down.sql") in
      (writing up (disk.snapshots.write_file up (script m.up_sql))
          >> writing down (disk.snapshots.write_file down (script m.down_sql))
          >> write_snapshot cfg m.snapshot)
        w

  mkdir : Config → Exec F Unit
  unfolding writing
  mkdir cfg = writing cfg.migrations_dir (disk.snapshots.mkdir_all cfg.migrations_dir)

  -- `Write`; the migration with its new name is not handed back.
  unfoldable pub write : Config → Migration → Exec F Unit
  unfolding mkdir write_scripts
  write cfg m =
      if is_nil cfg.migrations_dir
      then raise (new Kind.configuration (txt "migrate: empty migrations dir"))
      else mkdir cfg >> write_scripts cfg m

generated-snapshot :
    (render : List Operation → Result (List Text)) (name : Text) (current : Schema)
    (diff : List Operation) (m : Migration)
    → generated render name current diff ≡ ok m
    → m.snapshot ≡ some current
unfolding generated
generated-snapshot render name current diff m e = ground (
  arith,
  Result-cases (unsupported (render diff)),
  Result-cases (unsupported (render (invert_diff diff))),
)

module _ {F : Type 0} (disk : Disk F) (render : List Operation → Result (List Text))
    (cfg : Config) where
  -- A generated migration has the schema that was built as its snapshot.
  pub generate-snapshot :
      (m : Migration) (w : F)
      → generate disk render cfg w ≡ ok m
      → (current : Schema) × (disk.build w ≡ ok current) × (m.snapshot ≡ some current)
  unfolding generate compare
  generate-snapshot m w g = elim (Result-cases (disk.build w)) [
    | inl (current, h) ↦ (
      current,
      h,
      generated-snapshot render (next_migration_name cfg (disk.files w)) current
          (compare_schemas current (previous disk cfg current w)) m (rw (← g, generate, h) refl),
    )
    | inr (x, h) ↦ absurd (ground (arith, g, h))
  ]

failed-ok :
    {A : Type 0} (file : Text) (r : Result A) (a : A) → generation_failed file r ≡ ok a → r ≡ ok a
unfolding generation_failed
failed-ok file (ok b) a e = e
failed-ok file (err x) a e = absurd (ground (arith, e))

-- What a call that succeeds in writing has done.
writing-ok :
    {F A : Type 0} (disk : Disk F) (file : Text) (m : Exec F A) (a : A) (w w' : F)
    → writing disk file m w ≡ (ok a, w')
    → m w ≡ (ok a, w')
unfolding writing
writing-ok disk file m a w w' e =
    ground (arith, failed-ok file (m w).0 a (ap (λ p. p.0) e), ap (λ p. p.1) e)

-- What a migration that is written leaves: its snapshot is loaded.
module _ {F : Type 0} (disk : Disk F) (laws : IsFileSystem disk.snapshots) (cfg : Config)
    (m : Migration) (s : Schema)
    (codec : (t : Text)
      → disk.snapshots.encode (sort_schema s) ≡ ok t
      → disk.snapshots.decode t ≡ ok (some (sort_schema s)))
    (path : is_nil cfg.snapshot_path ≡ false) (has : m.snapshot ≡ some s) where
  scripts-saved :
      (w w' : F)
      → write_scripts disk cfg m w ≡ (ok tt, w')
      → load_snapshot disk.snapshots cfg.snapshot_path w' ≡ ok (some (sort_schema (sort_schema s)))
  unfolding write_scripts write_snapshot
  scripts-saved w w' done =
      let up = path_of disk cfg w (written_name disk cfg m w ++ txt ".up.sql") in
      let down = path_of disk cfg w (written_name disk cfg m w ++ txt ".down.sql") in
      let put_up = writing disk up (disk.snapshots.write_file up (script disk m.up_sql)) in
      let put_down = writing disk down (disk.snapshots.write_file down (script disk m.down_sql)) in
      let (u, w2, both, rest) =
        bind-ok (put_up >> put_down) (λ u. write_snapshot disk cfg m.snapshot) tt w w' done in
      let save = save_snapshot disk.snapshots cfg.snapshot_path s in
      let saving : writing disk cfg.snapshot_path save w2 ≡ (ok tt, w') =
        rw (← rest, has, path) refl in
      (save_snapshot-loads disk.snapshots laws cfg.snapshot_path s w2 w' codec
        (writing-ok disk cfg.snapshot_path save tt w2 w' saving)).1

  write-saved :
      (w w' : F)
      → write disk cfg m w ≡ (ok tt, w')
      → load_snapshot disk.snapshots cfg.snapshot_path w' ≡ ok (some (sort_schema (sort_schema s)))
  unfolding write mkdir
  write-saved w w' done = elim (Bool-cases (is_nil cfg.migrations_dir)) [
    | inl e ↦ absurd (ground (arith, done, e))
    | inr e ↦
        let go : (mkdir disk cfg >> write_scripts disk cfg m) w ≡ (ok tt, w') =
          ground (arith, done, e) in
        let (u, w1, made, rest) =
          bind-ok (mkdir disk cfg) (λ u. write_scripts disk cfg m) tt w w' go in
        scripts-saved w1 w' rest
  ]

-- With a path for snapshots, on a file system that keeps what is written, where JSON gives the sorted
-- schema back: once a generated migration is written, Generate finds no difference, as long as the
-- sources describe the same schema.
pub generate-settled :
    {F : Type 0} (disk : Disk F) (render : List Operation → Result (List Text)) (cfg : Config)
    (m : Migration) (current : Schema) (w w' : F)
    → IsFileSystem disk.snapshots
    → ((t : Text)
        → disk.snapshots.encode (sort_schema current) ≡ ok t
        → disk.snapshots.decode t ≡ ok (some (sort_schema current)))
    → is_nil cfg.snapshot_path ≡ false
    → disk.build w ≡ ok current
    → disk.build w' ≡ ok current
    → generate disk render cfg w ≡ ok m
    → write disk cfg m w ≡ (ok tt, w')
    → (m' : Migration) × (generate disk render cfg w' ≡ ok m') × (m'.diff ≡ [])
unfolding generate previous loaded_or
generate-settled disk render cfg m current w w' laws codec path built built' g done =
    let (s, same, has) = generate-snapshot disk render cfg m w g in
    let it : s ≡ current = ground (arith, sym same ∙ built) in
    let loaded = write-saved disk laws cfg m current codec path (has ∙ ap some it) w w' done in
    (
      record {
        migration_name = [];
        up_sql = [];
        down_sql = [];
        diff = [];
        snapshot = some current;
      },
      rw (generate, built', previous, path, loaded, compare_sorted current) refl,
      refl,
    )
