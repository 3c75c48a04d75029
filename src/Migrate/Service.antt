-- ===== src/Migrate/Service.antt =====
-- migrate/migrate.go: the service that generates, writes, runs and reverts migrations. What the
-- service asks of files, of the database and of the builder of schemas is a parameter; the
-- migrations' files are those at the time of a call. A service and a database are never nil here.
pub mod Registry
use dorm.Prelude.{
  ℕ, ◌+◌, ◌-◌, Bool, true, false, Option, none, some, List, [], ◌∷◌, ◌++◌, map, any, take, length,
  Text, txt, itoa, join, text_eq, text_le, trim_suffix, is_nil, if◌then◌else◌,
}
use dorm.Errors.{Kind, Result, Error, ok, err, new, wrap, detailed_by, Details}
use dorm.Schema.Types.{Schema}
use dorm.Schema.Keys.{sort_by}
use dorm.Schema.Diff.{Operation, compare}
use dorm.Orm.Exec.{Exec, ◌>>=◌, ◌>>◌, lift, raise, pure, continue}
use dorm.Migrate.{invert_diff}

pub record Config : Type 0 where
  pub migrations_dir : Text
  pub snapshot_path : Text

-- The file system as it is read, with the functions on paths, and the checksum of a script.
pub record Files : Type 0 where
  pub glob : Text → Result (List Text)
  pub read_file : Text → Result Text
  pub join_path : Text → Text → Text
  pub base : Text → Text
  pub checksum : Text → Text

-- The database: a statement with its arguments, and a query for names.
pub record Store (W : Type 0) : Type 0 where
  pub exec : Text → List Text → Exec W Unit
  pub query_names : Text → Exec W (List Text)

application_error : Text → Text → Error → Error
application_error file statement cause =
    detailed_by Kind.migration_application (Details.migration_error file statement 0) cause

labelled : {A : Type 0} → Text → Text → Result A → Result A
unfolding application_error
labelled file statement (ok a) = ok a
labelled file statement (err e) = err (application_error file statement e)

-- A call whose error names the file and the statement.
unfoldable pub attempt : {W A : Type 0} → Text → Text → Exec W A → Exec W A
unfolding labelled
attempt file statement m w = let (r, w') = m w in (labelled file statement r, w')

unfoldable pub migration_name : Files → Text → Text
unfolding trim_suffix
migration_name fs file = trim_suffix (txt ".up.sql") (fs.base file)

unfoldable pub up_files : Config → Files → Result (List Text)
up_files cfg fs = fs.glob (fs.join_path cfg.migrations_dir (txt "*.up.sql"))

abbrev pub insert_text : Text
insert_text =
    txt "INSERT INTO orm_migrations (name, checksum) VALUES ($1, $2) ON CONFLICT (name) DO NOTHING"

abbrev pub select_text : Text
select_text = txt "SELECT name FROM orm_migrations ORDER BY name"

abbrev pub delete_text : Text
delete_text = txt "DELETE FROM orm_migrations WHERE name = $1"

abbrev pub registry_text : Text
registry_text =
    txt "\n\t\tCREATE TABLE IF NOT EXISTS orm_migrations (\n\t\t\tname text PRIMARY KEY,\n"
    ++ txt "\t\t\tapplied_at timestamptz NOT NULL DEFAULT now(),\n"
    ++ txt "\t\t\tchecksum text NOT NULL\n\t\t)\n\t"

module _ {W : Type 0} (fs : Files) (store : Store W) where
  unfoldable pub ensure_migration_registry : Exec W Unit
  ensure_migration_registry = store.exec registry_text []

  unfoldable pub applied_migration_set : Exec W (List Text)
  applied_migration_set = store.query_names select_text

  unfoldable pub record_applied_migration : Text → Text → Exec W Unit
  record_applied_migration name checksum = store.exec insert_text (name ∷ checksum ∷ [])

  unfoldable pub remove_applied_migration : Text → Exec W Unit
  remove_applied_migration name = store.exec delete_text (name ∷ [])

  unfoldable pub apply_script : Text → Exec W Unit
  unfolding attempt migration_name record_applied_migration
  apply_script file = do
    sql ← attempt file [] (lift (fs.read_file file))
    attempt file sql (store.exec sql [])
    attempt file [] (record_applied_migration (migration_name fs file) (fs.checksum sql))

  -- One round of the loop of `Run`.
  unfoldable pub apply_file : List Text → Text → Exec W Unit
  unfolding apply_script migration_name text_eq
  apply_file applied file =
      if any (λ name. text_eq name (migration_name fs file)) applied
      then pure tt
      else apply_script file

  unfoldable pub apply_files : List Text → List Text → Exec W Unit
  unfolding apply_file
  apply_files applied [] = pure tt
  apply_files applied (file ∷ files) = do apply_file applied file; apply_files applied files

  -- `Run`, from the query for the applied migrations on.
  unfoldable pub run_pending : Config → Exec W Unit
  unfolding attempt applied_migration_set up_files sort_by text_le apply_files
  run_pending cfg = do
    applied ← attempt [] [] applied_migration_set
    files ← attempt cfg.migrations_dir [] (lift (up_files cfg fs))
    apply_files applied (sort_by text_le files)

  unfoldable pub run : Config → Exec W Unit
  unfolding attempt ensure_migration_registry run_pending
  run cfg =
      if is_nil cfg.migrations_dir
      then raise (new Kind.configuration (txt "migrate: empty migrations dir"))
      else (do attempt [] [] ensure_migration_registry; run_pending cfg)

  -- `Revert`
  unfoldable pub revert : Config → Text → Exec W Unit
  unfolding attempt remove_applied_migration
  revert cfg name =
      if is_nil name
      then raise (new Kind.configuration (txt "migrate: empty migration name"))
      else (do
        let path = fs.join_path cfg.migrations_dir (name ++ txt ".down.sql")
        sql ← attempt path [] (lift (fs.read_file path))
        attempt path sql (store.exec sql [])
        attempt path [] (remove_applied_migration name))

listed_names : Files → Result (List Text) → Result (List Text)
unfolding migration_name sort_by text_le
listed_names fs (ok files) = ok (map (migration_name fs) (sort_by text_le files))
listed_names fs (err e) = err (wrap Kind.configuration (txt "migrate: glob migrations") e)

unfoldable pub status : Config → Files → Result (List Text)
unfolding up_files listed_names
status cfg fs = listed_names fs (up_files cfg fs)

-- The number of files, where a failing `Glob` gives none.
file_count : Result (List Text) → ℕ
file_count (ok files) = length files
file_count (err e) = 0

-- `%04d`
four_digits : ℕ → Text
unfolding itoa
four_digits n = let digits = itoa n in take (4 - length digits) (txt "0000") ++ digits

unfoldable pub next_migration_name : Config → Files → Text
unfolding up_files file_count four_digits
next_migration_name cfg fs = four_digits (file_count (up_files cfg fs) + 1) ++ txt "_schema"
