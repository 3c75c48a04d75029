-- ===== src/Schema/Snapshot.antt =====
-- schema/snapshot.go: SaveSnapshot and LoadSnapshot. The files and encoding/json are parameters; the
-- time of a snapshot and the cache of snapshots, which holds what was read or written, are left out.
use dorm.Prelude.{
  Option, none, some, ◌++◌, ◌≡◌, refl, ◌∙◌, ap, arith, Text, txt, Option-cases, inl, inr,
}
use dorm.Errors.{Result, Error, ok, ◌>>=◌}
use dorm.Schema.Types.{Schema}
use dorm.Schema.Diff.{sort_schema}
use dorm.Schema.Validate.{validate}
use dorm.Orm.Exec
use dorm.Orm.Exec.{Exec, ◌>>◌, bind-ok, continue, lift, raise}

-- The files in a state `F`, the directory of a path, the JSON of a snapshot's schema, and `%q`.
pub record SnapshotDisk (F : Type 0) : Type 0 where
  pub read_file : Text → F → Result Text
  pub mkdir_all : Text → Exec F Unit
  pub write_file : Text → Text → Exec F Unit
  pub rename : Text → Text → Exec F Unit
  pub dir : Text → Text
  pub encode : Schema → Result Text
  pub decode : Text → Result (Option Schema)
  pub quote : Text → Text

sorted : Option Schema → Option Schema
unfolding sort_schema
sorted none = none
sorted (some s) = some (sort_schema s)

module _ {F : Type 0} (disk : SnapshotDisk F) where
  unfoldable pub load_snapshot : Text → F → Result (Option Schema)
  unfolding sorted
  load_snapshot path w = do data_ ← disk.read_file path w; s ← disk.decode data_; ok (sorted s)

  -- The temporary file takes the place of the snapshot once it is written.
  put_snapshot : Text → Text → Exec F Unit
  put_snapshot path data_ =
      disk.mkdir_all (disk.dir path)
      >> disk.write_file (path ++ txt ".tmp") data_
      >> disk.rename (path ++ txt ".tmp") path

  save_valid : Text → Schema → Option Error → Exec F Unit
  unfolding put_snapshot
  save_valid path s (some e) = raise e
  save_valid path s none = Exec.◌>>=◌ (lift (disk.encode s)) (put_snapshot path)

  unfoldable pub save_snapshot : Text → Schema → Exec F Unit
  unfolding sort_schema validate save_valid
  save_snapshot path s = save_valid path (sort_schema s) (validate disk.quote (sort_schema s))

-- What is written to a file is read from it, and a file that is renamed is read under its new name.
pub record IsFileSystem {F : Type 0} (disk : SnapshotDisk F) : Type 0 where
  pub written :
      (path t : Text) (w w' : F)
      → disk.write_file path t w ≡ (ok tt, w')
      → disk.read_file path w' ≡ ok t
  pub renamed :
      (path to : Text) (w w' : F)
      → disk.rename path to w ≡ (ok tt, w')
      → disk.read_file to w' ≡ disk.read_file path w

module _ {F : Type 0} (disk : SnapshotDisk F) (laws : IsFileSystem disk) where
  put_snapshot-puts :
      (path data_ : Text) (w w' : F)
      → put_snapshot disk path data_ w ≡ (ok tt, w')
      → disk.read_file path w' ≡ ok data_
  unfolding put_snapshot
  put_snapshot-puts path data_ w w' e =
      let tmp = path ++ txt ".tmp" in
      let (u, w2, both, moved) =
        bind-ok (disk.mkdir_all (disk.dir path) >> disk.write_file tmp data_)
          (λ u. disk.rename tmp path) tt w w' e in
      let (v, w1, made, written) =
        bind-ok (disk.mkdir_all (disk.dir path)) (λ v. disk.write_file tmp data_) tt w w2 both in
      laws.renamed tmp path w2 w' moved ∙ laws.written tmp data_ w1 w2 written

  -- On a file system that keeps what is written, where JSON gives the sorted schema back: a snapshot
  -- that is saved without an error has passed Validate, and is loaded from its path as the same
  -- schema, sorted when it was saved and again when it is loaded.
  pub save_snapshot-loads :
      (path : Text) (s : Schema) (w w' : F)
      → ((t : Text)
          → disk.encode (sort_schema s) ≡ ok t
          → disk.decode t ≡ ok (some (sort_schema s)))
      → save_snapshot disk path s w ≡ (ok tt, w')
      → (validate disk.quote (sort_schema s) ≡ none)
        × (load_snapshot disk path w' ≡ ok (some (sort_schema (sort_schema s))))
  unfolding save_snapshot save_valid load_snapshot sorted
  save_snapshot-loads path s w w' codec e =
      elim (Option-cases (validate disk.quote (sort_schema s))) [
        | inr (x, bad) ↦ absurd (ground (arith, rw bad at e))
        | inl good ↦
            let go : Exec.◌>>=◌ (lift (disk.encode (sort_schema s))) (put_snapshot disk path) w
                ≡ (ok tt, w') =
              rw good at e in
            let (t, w1, encoded, put_) =
              bind-ok (lift (disk.encode (sort_schema s))) (put_snapshot disk path) tt w w' go in
            (good, rw (put_snapshot-puts path t w1 w' put_, codec t (ap (λ p. p.0) encoded)) refl)
      ]
