-- ===== src/ObjectStore/Local/Laws.antt =====
-- The local store keeps the promises that the Share service relies on.
use u_paste.Prelude.{
  ◌≡◌, ◌≢◌, true, false, none, some, inl, inr, ◌∷◌, ◌++◌, arith, Option-cases, Bytes, codes,
  bytes_eq, bytes_eq_iff,
}
use u_paste.Database.Tables.{find, find-erase}
use u_paste.ObjectStore.{Staged, StoreLaws}
use u_paste.ObjectStore.Keys.{relative, relative-injective, relative_no_dot}
use u_paste.ObjectStore.Local.{
  file, directory, Fs, Faults, temp_name, link_node, drop_stage, commit_at, commit, abort, contents,
  open_object, delete, local_store,
}

-- A stage's name is no object's path.
pub stage_apart :
    (g : Staged) (k path : Bytes)
    → relative k ≡ some path
    → bytes_eq (temp_name g.key g.suffix) path ≡ false
unfolding temp_name
stage_apart g k path r = ground (
  arith,
  bytes_eq_iff (temp_name g.key g.suffix) path,
  relative_no_dot k path (codes "stage-" ++ g.key ++ codes "-" ++ g.suffix) r,
)

open_reads_lem :
    (faults : Faults) (k c : Bytes) (s : Fs)
    → open_object faults k s ≡ some c
    → contents s k ≡ some c
unfolding open_object contents
open_reads_lem faults k c s h = ground arith

delete_removes_lem :
    (faults : Faults) (k : Bytes) (s : Fs)
    → (delete faults k s).0 ≡ true
    → contents (delete faults k s).1 k ≡ none
unfolding delete contents
delete_removes_lem faults k s h = elim (Option-cases (relative k)) [
  | inl q ↦ ground (arith, q)
  | inr (path, q) ↦ ground (arith, q, find-erase path path s, bytes_eq_iff path path)
]

delete_failed_lem :
    (faults : Faults) (k : Bytes) (s : Fs)
    → (delete faults k s).0 ≡ false
    → contents (delete faults k s).1 k ≡ contents s k
unfolding delete contents
delete_failed_lem faults k s h = ground arith

delete_frame_lem :
    (faults : Faults) (k j : Bytes) (s : Fs)
    → k ≢ j
    → contents (delete faults k s).1 j ≡ contents s j
unfolding delete contents
delete_frame_lem faults k j s n = elim (Option-cases (relative k)) [
  | inl q ↦ ground (arith, q)
  | inr (path, q) ↦ elim (Option-cases (relative j)) [
    | inl r ↦ ground (arith, q, r)
    | inr (other, r) ↦ ground (
      arith,
      q,
      r,
      n,
      find-erase path other s,
      bytes_eq_iff path other,
      relative-injective k j path,
    )
  ]
]

-- What a commit without a fault may do at a path that was free.
module _ (faults : Faults) (g : Staged) (k j path other : Bytes) (s : Fs) where
  commit_at_stores :
      relative k ≡ some path
      → (commit_at faults g path s).0 ≡ true
      → (c : Bytes) × (find path (commit_at faults g path s).2 ≡ some (file c))
  unfolding commit_at link_node drop_stage find
  commit_at_stores r h = elim (Option-cases (find path s)) [
    | inr (v, q) ↦ ground (arith, q)
    | inl q ↦ elim (Option-cases (find (temp_name g.key g.suffix) s)) [
      | inl t ↦ ground (arith, q, t)
      | inr (directory, t) ↦ ground (arith, q, t)
      | inr (file c, t) ↦ (
        c,
        ground (
          arith,
          q,
          t,
          stage_apart g k path r,
          bytes_eq_iff path path,
          find-erase (temp_name g.key g.suffix) path ((path, file c) ∷ s),
        ),
      )
    ]
  ]

  commit_at_frame :
      relative k ≡ some path
      → relative j ≡ some other
      → bytes_eq path other ≡ false
      → find other (commit_at faults g path s).2 ≡ find other s
  unfolding commit_at link_node drop_stage find
  commit_at_frame r q n = elim (Option-cases (find path s)) [
    | inr (v, q) ↦ ground (arith, q)
    | inl q' ↦ elim (Option-cases (find (temp_name g.key g.suffix) s)) [
      | inl t ↦ ground (arith, q', t)
      | inr (directory, t) ↦ ground (arith, q', t)
      | inr (file c, t) ↦ ground (
        arith,
        q',
        t,
        n,
        stage_apart g j other q,
        find-erase (temp_name g.key g.suffix) other ((path, file c) ∷ s),
        find-erase path other ((path, file c) ∷ s),
      )
    ]
  ]

commit_stores_lem :
    (faults : Faults) (g : Staged) (s : Fs)
    → g.committed ≡ false
    → (commit faults g s).0 ≡ true
    → contents (commit faults g s).2 g.key ≢ none
unfolding commit contents
commit_stores_lem faults g s n h = elim (Option-cases (relative g.key)) [
  | inl q ↦ ground (arith, q, n)
  | inr (path, q) ↦
      let (c, e) = commit_at_stores faults g g.key g.key path path s q (ground (arith, q, n, h)) in
      ground (arith, q, n, e)
]

commit_taken_lem :
    (faults : Faults) (g : Staged) (s : Fs) (c : Bytes)
    → g.committed ≡ false
    → contents s g.key ≡ some c
    → (commit faults g s).0 ≡ false
unfolding commit contents commit_at
commit_taken_lem faults g s c n h = elim (Option-cases (relative g.key)) [
  | inl q ↦ ground (arith, q, n)
  | inr (path, q) ↦ ground (arith, q, n)
]

commit_frame_lem :
    (faults : Faults) (g : Staged) (j : Bytes) (s : Fs)
    → g.key ≢ j
    → contents (commit faults g s).2 j ≡ contents s j
unfolding commit contents
commit_frame_lem faults g j s n = elim (Option-cases (relative g.key)) [
  | inl q ↦ ground (arith, q)
  | inr (path, q) ↦ elim (Option-cases (relative j)) [
    | inl r ↦ ground (arith, q, r)
    | inr (other, r) ↦
        let apart : bytes_eq path other ≡ false =
          ground (arith, q, r, n, bytes_eq_iff path other, relative-injective g.key j path) in
        ground (arith, q, r, commit_at_frame faults g g.key j path other s q r apart)
  ]
]

abort_frame_lem :
    (faults : Faults) (g : Staged) (j : Bytes) (s : Fs)
    → contents (abort faults g s).1 j ≡ contents s j
unfolding abort contents
abort_frame_lem faults g j s = elim (Option-cases (relative j)) [
  | inl r ↦ ground (arith, r)
  | inr (other, r) ↦
      ground (arith, r, stage_apart g j other r, find-erase (temp_name g.key g.suffix) other s)
]

-- Whatever calls of the operating system fail, the local store keeps the laws that the Share service
-- relies on.
pub local_store-StoreLaws : (faults : Faults) → StoreLaws (local_store faults)
local_store-StoreLaws faults = record {
  open_reads = λ k c s. open_reads_lem faults k c s;
  delete_removes = λ k s. delete_removes_lem faults k s;
  delete_failed = λ k s. delete_failed_lem faults k s;
  delete_frame = λ k j s. delete_frame_lem faults k j s;
  commit_stores = λ g s. commit_stores_lem faults g s;
  commit_taken = λ g s c. commit_taken_lem faults g s c;
  commit_frame = λ g j s. commit_frame_lem faults g j s;
  abort_frame = λ g j s. abort_frame_lem faults g j s;
}
