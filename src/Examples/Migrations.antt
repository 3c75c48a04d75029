-- ===== src/Examples/Migrations.antt =====
-- Migrations over a table and a disk that are kept in lists.
use dorm.Prelude.{
  text_eq_refl, some, List, map, [], ◌∷◌, ◌++◌, In, here, there, All, ◌≡◌, refl, ap, arith, Text,
  txt, drop, text_eq, false, if◌then◌else◌,
}
use dorm.Errors.{Kind, Result, ok, err, new}
use dorm.Schema.Types.{Schema}
use dorm.Schema.Snapshot.{SnapshotDisk, IsFileSystem, save_snapshot}
use dorm.Schema.Diff.{Operation, compare, compare_schemas, sort_schema}
use dorm.Migrate.Writing.{write, generate-settled}
use dorm.Migrate.{invert_diff}
use dorm.Migrate.Generation.{Migration, Disk, generate}
use dorm.Examples.Data.{notes}
use dorm.Orm.Exec.{Exec}
use dorm.Migrate.Service.{
  Config, Files, Store, next_migration_name, insert_text, registry_text, run, status,
  ensure_migration_registry, applied_migration_set,
}
use dorm.Migrate.Service.Registry.{IsRegistry, Keeps, Spares, ScriptsSpare, run-records, run_again}

-- The names in the table, and the statements that were executed, the last one first. A script may drop
-- the table.
abbrev Db : Type 0
Db = List Text × List Text

abbrev drop_text : Text
drop_text = txt "DROP TABLE orm_migrations"

abbrev execute : Text → List Text → Exec Db Unit
unfolding text_eq
execute t [] db = (ok tt, (if text_eq t drop_text then [] else db.0, t ∷ db.1))
execute t (name ∷ rest) db = (ok tt, (name ∷ db.0, t ∷ db.1))

abbrev table : Store Db
table = record { exec = execute; query_names = λ t db. (ok db.0, db) }

abbrev listing : Files
listing = record {
  glob = λ pattern. ok (txt "m/0002_schema.up.sql" ∷ txt "m/0001_schema.up.sql" ∷ []);
  read_file = λ file. ok (txt "-- " ++ file);
  join_path = λ dir file. dir ++ (txt "/" ++ file);
  base = drop 2;
  checksum = λ t. t;
}

abbrev config : Config
config = record { migrations_dir = txt "m"; snapshot_path = txt "s.json" }

abbrev names_in : Db → List Text
names_in db = db.0

table-IsRegistry : IsRegistry listing table names_in
unfolding execute
table-IsRegistry = record {
  created = λ w w' e k i. rw (← ap (λ p. p.1.0) e) i;
  recorded =
      λ name sum w w' e. (rw (← ap (λ p. p.1.0) e) here, λ k i. rw (← ap (λ p. p.1.0) e) (there i));
  listed = λ w w' names e.
      let same : w.0 ≡ names = ground (arith, ap (λ p. p.0) e) in
      let kept : w.0 ≡ w'.0 = ap (λ p. p.1.0) e in
      (λ k i. rw (← kept, same) i, λ k i. rw (← same) i, λ k i. rw (← kept) i);
}

-- The scripts of the directory do not drop it.
listed-Spares : (file : Text) → Spares listing table names_in file
unfolding text_eq execute
listed-Spares file sql w w' read e k i =
    let same : txt "-- " ++ file ≡ sql = ground (arith, read) in
    let apart : text_eq sql drop_text ≡ false = rw (← same) refl in
    let left : (if text_eq sql drop_text then [] else w.0) ≡ w'.0 =
      ap (λ (p : Result Unit × Db). p.1.0) e in
    let kept : w.0 ≡ w'.0 = rw apart at left in rw (← kept) i

all_of : {P : Text → Type 0} (files : List Text) → ((file : Text) → P file) → All P files
all_of [] h = tt
all_of (file ∷ files) h = (h file, all_of files h)

listed-ScriptsSpare : ScriptsSpare config listing table names_in
listed-ScriptsSpare files found = all_of _ listed-Spares

abbrev first_db : Db
first_db = (txt "0001_schema" ∷ [], [])

abbrev after : Db
after = (
  txt "0002_schema" ∷ txt "0001_schema" ∷ [],
  insert_text ∷ txt "-- m/0002_schema.up.sql" ∷ registry_text ∷ [],
)

status_run : status config listing ≡ ok (txt "0001_schema" ∷ txt "0002_schema" ∷ [])
unfolding status
status_run = refl

run_run : run listing table config first_db ≡ (ok tt, after)
unfolding run
run_run = refl

run-records_example :
    All (λ name. In name (names_in after)) (txt "0001_schema" ∷ txt "0002_schema" ∷ [])
    × Keeps listing table names_in first_db after
run-records_example =
    run-records config listing table names_in table-IsRegistry listed-ScriptsSpare first_db after
      (txt "0001_schema" ∷ txt "0002_schema" ∷ []) run_run status_run

abbrev asked : Db
asked = (after.0, registry_text ∷ after.1)

run_again_example : run listing table config after ≡ (ok tt, asked)
unfolding ensure_migration_registry applied_migration_set execute
run_again_example =
    run_again config listing table names_in table-IsRegistry listed-ScriptsSpare first_db after
      asked asked after.0 run_run refl refl

abbrev source : Schema
source = record { name = txt "app"; version = 1; tables = notes ∷ []; enums = []; views = [] }

-- A disk with the schema of the sources and its files, the last one written first. It knows the JSON of
-- one schema.
abbrev Kept : Type 0
Kept = Schema × List (Text × Text)

abbrev found_in : Text → List (Text × Text) → Result Text
unfolding text_eq
found_in path [] = err (new Kind.configuration (txt "no file"))
found_in path ((p, t) ∷ rest) = if text_eq p path then ok t else found_in path rest

abbrev moved : Text → Kept → Result Text → Result (Unit {0}) × Kept
moved to w (ok t) = (ok tt, (w.0, (to, t) ∷ w.1))
moved to w (err e) = (err e, w)

abbrev snapshots : SnapshotDisk Kept
unfolding found_in moved
snapshots = record {
  read_file = λ path w. found_in path w.1;
  mkdir_all = λ path w. (ok tt, w);
  write_file = λ path t w. (ok tt, (w.0, (path, t) ∷ w.1));
  rename = λ path to w. moved to w (found_in path w.1);
  dir = λ path. path;
  encode = λ s. ok (txt "{}");
  decode = λ t. ok (some (sort_schema source));
  quote = λ t. t;
}

moved-reads :
    (to : Text) (w w' : Kept) (r : Result Text) → moved to w r ≡ (ok tt, w') → found_in to w'.1 ≡ r
unfolding moved found_in
moved-reads to w w' (ok t) e =
    let it : (to, t) ∷ w.1 ≡ w'.1 = ap (λ (p : Result (Unit {0}) × Kept). p.1.1) e in
    rw (← it, text_eq_refl to) refl
moved-reads to w w' (err x) e = absurd (ground (arith, e))

snapshots-IsFileSystem : IsFileSystem snapshots
unfolding snapshots found_in
snapshots-IsFileSystem = record {
  written = λ path t w w' e.
      let it : (path, t) ∷ w.1 ≡ w'.1 = ap (λ (p : Result (Unit {0}) × Kept). p.1.1) e in
      rw (← it, text_eq_refl path) refl;
  renamed = λ path to w w' e. moved-reads to w w' (found_in path w.1) e;
}

abbrev disk : Disk Kept
unfolding snapshots
disk = record { files = λ w. listing; build = λ w. ok w.0; snapshots = snapshots }

abbrev rendered : List Operation → Result (List Text)
rendered ops = ok (map (λ op. txt "-- operation") ops)

abbrev creation : List Operation
creation = compare_schemas source (record source { version = 0; tables = [] })

abbrev first_migration : Migration
first_migration = record {
  migration_name = txt "0003_schema";
  up_sql = txt "-- operation" ∷ [];
  down_sql = txt "-- operation" ∷ [];
  diff = creation;
  snapshot = some source;
}

generate_run : generate disk rendered config (source, []) ≡ ok first_migration
unfolding generate compare compare_schemas invert_diff next_migration_name
generate_run = refl

abbrev written_disk : Kept
unfolding disk
written_disk = (write disk config first_migration (source, [])).1

write_run : write disk config first_migration (source, []) ≡ (ok tt, written_disk)
unfolding disk written_disk write save_snapshot
write_run = refl

generate-settled_example :
    (m : Migration) × (generate disk rendered config written_disk ≡ ok m) × (m.diff ≡ [])
unfolding disk snapshots written_disk write save_snapshot
generate-settled_example =
    generate-settled disk rendered config first_migration source (source, []) written_disk
      snapshots-IsFileSystem (λ t e. refl) refl refl refl generate_run write_run
