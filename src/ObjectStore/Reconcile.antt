-- ===== src/ObjectStore/Reconcile.antt =====
-- Reconcile of internal/objectstore/local.go, on the tree of names of ObjectStore/Local. What the
-- directories list, the modification times and the failing calls (a cancelled context among them)
-- are a `Listing`.
pub mod Safety
pub mod Complete
use u_paste.Prelude.{
  ℕ, ◌+◌, Bool, true, false, ◌&&◌, ◌||◌, not, Option, none, some, List, [], ◌∷◌, ◌++◌, leb,
  if◌then◌else◌, Bytes, codes, bytes_eq, take, length,
}
use u_paste.Database.Tables.{find, erase}
use u_paste.ObjectStore.Keys.{valid_key, valid_shard, relative}
use u_paste.ObjectStore.Local.{Node, file, directory, Fs}

-- `roots` and `children` are fs.ReadDir, `is_folder` the shards, which the tree does not record.
pub record Listing : Type 0 where
  pub roots : Option (List Bytes)
  pub is_folder : Bytes → Bool
  pub children : Bytes → Option (List Bytes)
  pub modified : Bytes → ℕ
  pub lstat_fails : Bytes → Bool
  pub remove_fails : Bytes → Bool

pub record Counts : Type 0 where
  pub stages_deleted : ℕ
  pub orphans_deleted : ℕ
  pub missing_referenced : ℕ
  pub anomalies : ℕ

-- Whether no call failed, the result so far, and the tree.
abbrev pub Run : Type 0
Run = Bool × Counts × Fs

abbrev add_stage : Counts → Counts
add_stage c = record c { stages_deleted = c.stages_deleted + 1 }

abbrev add_orphan : Counts → Counts
add_orphan c = record c { orphans_deleted = c.orphans_deleted + 1 }

abbrev add_missing : Counts → Counts
add_missing c = record c { missing_referenced = c.missing_referenced + 1 }

abbrev add_anomaly : Counts → Counts
add_anomaly c = record c { anomalies = c.anomalies + 1 }

abbrev node_is_regular : Option Node → Bool
node_is_regular none = false
node_is_regular (some directory) = false
node_is_regular (some (file _)) = true

-- info.Mode().IsRegular()
unfoldable pub is_regular : Bytes → Fs → Bool
unfolding find
is_regular path fs = node_is_regular (find path fs)

-- Lstat's answer to a name of the tree is os.ErrNotExist.
unfoldable pub is_absent : Bytes → Fs → Bool
unfolding find
is_absent path fs = elim (find path fs) [ none ↦ true | some _ ↦ false ]

unfoldable pub is_referenced : Bytes → List Bytes → Bool
unfolding bytes_eq
is_referenced key [] = false
is_referenced key (k ∷ keys) = bytes_eq k key || is_referenced key keys

-- strings.HasPrefix(name, ".stage-")
unfoldable pub is_stage : Bytes → Bool
unfolding bytes_eq
is_stage name = bytes_eq (take 7 name) (codes ".stage-")

abbrev pub child_path : Bytes → Bytes → Bytes
child_path name child = name ++ codes "/" ++ child

module _ (listing : Listing) (referenced : List Bytes) (stale_before : ℕ) where
  -- `!info.ModTime().After(staleBefore)`
  unfoldable pub is_stale : Bytes → Bool
  is_stale path = leb (listing.modified path) stale_before

  unfoldable pub sweep_stage : Bytes → Counts → Fs → Run
  unfolding is_regular is_stale erase
  sweep_stage name counts fs =
      if is_regular name fs && is_stale name
      then (if listing.remove_fails name
          then (false, counts, fs)
          else (true, add_stage counts, erase name fs))
      else if not (is_regular name fs)
      then (true, add_anomaly counts, fs)
      else (true, counts, fs)

  unfoldable pub sweep_child : Bytes → Bytes → Counts → Fs → Run
  unfolding is_absent is_regular is_stale is_referenced valid_key erase
  sweep_child name child counts fs =
      let path = child_path name child in
      if listing.lstat_fails path || is_absent path fs
      then (false, counts, fs)
      else if not (valid_key (name ++ child)) || not (is_regular path fs)
      then (true, add_anomaly counts, fs)
      else if not (is_referenced (name ++ child) referenced) && is_stale path
      then (if listing.remove_fails path
          then (false, counts, fs)
          else (true, add_orphan counts, erase path fs))
      else (true, counts, fs)

  unfoldable pub sweep_children : Bytes → List Bytes → Counts → Fs → Run
  unfolding sweep_child
  sweep_children name [] counts fs = (true, counts, fs)
  sweep_children name (child ∷ children) counts fs =
      let (going, counts', fs') = sweep_child name child counts fs in
      let rest = sweep_children name children counts' fs' in
      if going then rest else (false, counts', fs')

  unfoldable pub sweep_shard : Bytes → Counts → Fs → Run
  unfolding sweep_children
  sweep_shard name counts fs = elim (listing.children name) [
    | none ↦ (false, counts, fs)
    | some children ↦ sweep_children name children counts fs
  ]

  unfoldable pub sweep_root : Bytes → Counts → Fs → Run
  unfolding sweep_stage sweep_shard is_absent is_stage valid_shard
  sweep_root name counts fs =
      if listing.lstat_fails name || (not (listing.is_folder name) && is_absent name fs)
      then (false, counts, fs)
      else if is_stage name
      then sweep_stage name counts fs
      else if not (valid_shard name) || not (listing.is_folder name)
      then (true, add_anomaly counts, fs)
      else sweep_shard name counts fs

  unfoldable pub sweep_roots : List Bytes → Counts → Fs → Run
  unfolding sweep_root
  sweep_roots [] counts fs = (true, counts, fs)
  sweep_roots (name ∷ names) counts fs =
      let (going, counts', fs') = sweep_root name counts fs in
      let rest = sweep_roots names counts' fs' in if going then rest else (false, counts', fs')

  -- The references whose object is not a regular file.
  unfoldable pub count_missing : List Bytes → Fs → Counts → Counts
  unfolding relative is_regular
  count_missing [] fs counts = counts
  count_missing (key ∷ keys) fs counts =
      let rest = count_missing keys fs counts in
      elim (relative key) [
        | none ↦ add_missing rest
        | some path ↦
            if listing.lstat_fails path || not (is_regular path fs) then add_missing rest else rest
      ]

  unfoldable pub reconcile : Fs → Run
  unfolding sweep_roots count_missing
  reconcile fs =
      let start : Counts = record {
        stages_deleted = 0;
        orphans_deleted = 0;
        missing_referenced = 0;
        anomalies = 0;
      } in
      elim listing.roots [
        | none ↦ (false, start, fs)
        | some names ↦
            let (going, counts, fs') = sweep_roots names start fs in
            if going then (true, count_missing referenced fs' counts, fs') else (false, counts, fs')
      ]
