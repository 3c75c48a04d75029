-- ===== src/Migrate/Generation.antt =====
-- migrate/migrate.go: `Generate`, from the schema that is built and the snapshot of the last one to
-- a migration, and `Write`, which puts the migration and the new snapshot on disk. The disk, the
-- builder of schemas and the dialect's rendering are parameters; the time of a snapshot is left out.
use dorm.Prelude.{Option, none, some, List, [], Text, is_nil, if◌then◌else◌}
use dorm.Errors.{Kind, Result, ok, err, detailed_by, Details, ◌>>=◌}
use dorm.Schema.Types.{Schema}
use dorm.Schema.Snapshot.{SnapshotDisk, load_snapshot}
use dorm.Schema.Diff.{Operation, compare}
use dorm.Migrate.{invert_diff}
use dorm.Migrate.Service.{Config, Files, next_migration_name}

-- `Result`; one without a snapshot is made outside of this package only.
pub record Migration : Type 0 where
  pub migration_name : Text
  pub up_sql : List Text
  pub down_sql : List Text
  pub diff : List Operation
  pub snapshot : Option Schema

-- The disk in a state `F`: files as they are listed, the schema that the sources on it describe, and
-- the files that are read and written.
pub record Disk (F : Type 0) : Type 0 where
  pub files : F → Files
  pub build : F → Result Schema
  pub snapshots : SnapshotDisk F

-- The empty schema of a name.
abbrev no_schema : Schema → Schema
no_schema s = record { name = s.name; version = 0; tables = []; enums = []; views = [] }

unfoldable pub unsupported : Result (List Text) → Result (List Text)
unsupported (ok sql) = ok sql
unsupported (err e) = err (detailed_by Kind.unsupported_feature (Details.migration_error [] [] 0) e)

-- What is generated from a difference.
unfoldable pub generated :
    (List Operation → Result (List Text)) → Text → Schema → List Operation → Result Migration
unfolding unsupported invert_diff
generated render name current diff =
    if is_nil diff
    then ok (record {
      migration_name = [];
      up_sql = [];
      down_sql = [];
      diff = diff;
      snapshot = some current;
    })
    else (do
      up ← unsupported (render diff)
      down ← unsupported (render (invert_diff diff))
      ok (record {
        migration_name = name;
        up_sql = up;
        down_sql = down;
        diff = diff;
        snapshot = some current;
      }))

-- The schema of a snapshot, if one was loaded and has a schema.
unfoldable pub loaded_or : Schema → Result (Option Schema) → Schema
loaded_or s (ok (some found)) = found
loaded_or s (ok none) = s
loaded_or s (err e) = s

module _ {F : Type 0} (disk : Disk F) where
  -- The schema to compare with: the snapshot's, or the empty one.
  unfoldable pub previous : Config → Schema → F → Schema
  unfolding loaded_or load_snapshot
  previous cfg current w =
      if is_nil cfg.snapshot_path
      then no_schema current
      else loaded_or (no_schema current) (load_snapshot disk.snapshots cfg.snapshot_path w)

  unfoldable pub generate : (List Operation → Result (List Text)) → Config → F → Result Migration
  unfolding previous generated
  generate render cfg w = do
    current ← disk.build w
    diff ← compare (some current) (some (previous cfg current w))
    generated render (next_migration_name cfg (disk.files w)) current diff
