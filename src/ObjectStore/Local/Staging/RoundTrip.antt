-- ===== src/ObjectStore/Local/Staging/RoundTrip.antt =====
-- What Stage leaves, and what Open reads after Stage and Commit.
use u_paste.Prelude.{
  ℕ, zero, suc, ◌+◌, ◌≡◌, ◌≤◌, ◌<◌, inl, inr, true, false, Option, none, some, List, [], ◌∷◌, arith,
  Bytes, codes, length, take, ok, Option-cases, Result-cases, bytes_eq_iff,
}
use u_paste.Database.Tables.{find, find-erase, is_present}
use u_paste.ObjectStore.{Staged}
use u_paste.ObjectStore.Keys.{relative}
use u_paste.ObjectStore.Local.{
  Node, file, Fs, Faults, temp_name, contents, commit, commit_at, link_node, drop_stage,
  open_object,
}
use u_paste.ObjectStore.Local.Laws.{stage_apart}
use u_paste.ObjectStore.Local.Staging.{
  Input, hex, free_suffix, check_copy, copy_source, stage, staged_of,
}

take_all : (n : ℕ) (bytes : Bytes) → length bytes ≤ n → take (n + 1) bytes ≡ bytes
take_all n [] h = ground arith
take_all zero (b ∷ bytes) h = ground arith
take_all (suc n) (b ∷ bytes) h = ground (arith, take_all n bytes (ground arith))

-- What a successful Stage means.
pub record Kept (input : Input) (limit : ℕ) (fs : Fs) (staged : Staged) (after : Fs) : Type 0 where
  pub size_eq : staged.size ≡ length input.source
  pub size_le : staged.size ≤ limit
  pub size_pos : 0 < staged.size
  pub sha256_eq : staged.sha256 ≡ input.sha256 input.source
  pub uncommitted : staged.committed ≡ false
  pub new_name : find (temp_name staged.key staged.suffix) fs ≡ none
  pub after_eq : after ≡ (temp_name staged.key staged.suffix, file input.source) ∷ fs

free_suffix-free :
    (key suffix : Bytes) (randoms : List (Option Bytes)) (fs : Fs)
    → free_suffix key randoms fs ≡ some suffix
    → find (temp_name key suffix) fs ≡ none
unfolding free_suffix is_present
free_suffix-free key suffix [] fs h = ground arith
free_suffix-free key suffix (none ∷ more) fs h =
    elim (Option-cases (find (temp_name key (codes "fallback")) fs)) [
      | inl q ↦ ground (arith, q)
      | inr (v, q) ↦ free_suffix-free key suffix more fs (ground (arith, q, h))
    ]
free_suffix-free key suffix (some bytes ∷ more) fs h =
    elim (Option-cases (find (temp_name key (hex bytes)) fs)) [
      | inl q ↦ ground (arith, q)
      | inr (v, q) ↦ free_suffix-free key suffix more fs (ground (arith, q, h))
    ]

check_copy-ok :
    (input : Input) (limit : ℕ) (done : Unit {0})
    → check_copy input limit ≡ ok done
    → (length input.source ≤ limit) × (0 < length input.source)
unfolding check_copy
check_copy-ok input limit done h = (ground arith, ground arith)

copy_source-ok :
    (input : Input) (limit : ℕ) (key suffix : Bytes) (fs after : Fs) (staged : Staged)
    → copy_source input limit key suffix fs ≡ (ok staged, after)
    → (staged_of input key suffix ≡ staged)
      × (after ≡ (temp_name key suffix, file input.source) ∷ fs)
      × (length input.source ≤ limit)
      × (0 < length input.source)
unfolding copy_source
copy_source-ok input limit key suffix fs after staged h =
    elim (Result-cases (check_copy input limit)) [
      | inr (e, q) ↦ absurd (ground (arith, q, h))
      | inl (done, q) ↦
          let (le, pos) = check_copy-ok input limit done q in
          (ground (arith, q, h), ground (arith, q, h, take_all limit input.source le), le, pos)
    ]

copy_source-Kept :
    (input : Input) (limit : ℕ) (key suffix : Bytes) (fs after : Fs) (staged : Staged)
    → find (temp_name key suffix) fs ≡ none
    → copy_source input limit key suffix fs ≡ (ok staged, after)
    → Kept input limit fs staged after
copy_source-Kept input limit key suffix fs after staged free h =
    let (e, a, le, pos) = copy_source-ok input limit key suffix fs after staged h in
    record {
      size_eq = ground (arith, e);
      size_le = ground (arith, e, le);
      size_pos = ground (arith, e, pos);
      sha256_eq = ground (arith, e);
      uncommitted = ground (arith, e);
      new_name = ground (arith, e, free);
      after_eq = ground (arith, e, a);
    }

pub stage-Kept :
    (input : Input) (limit : ℕ) (fs after : Fs) (staged : Staged)
    → stage input limit fs ≡ (ok staged, after)
    → Kept input limit fs staged after
unfolding stage
stage-Kept input limit fs after staged h = elim (Option-cases input.random_key) [
  | inl q ↦ absurd (ground (arith, q, h))
  | inr (bytes, q) ↦
      elim (Option-cases (free_suffix (hex bytes) (take 8 input.random_suffixes) fs)) [
        | inl r ↦ absurd (ground (arith, q, r, h))
        | inr (suffix, r) ↦
            copy_source-Kept input limit (hex bytes) suffix fs after staged
              (free_suffix-free (hex bytes) suffix (take 8 input.random_suffixes) fs r)
              (ground (arith, q, r, h))
      ]
]

-- A stage's name under an object's key changes nothing for the keys.
add_stage-contents :
    (g : Staged) (node : Node) (fs : Fs) (key : Bytes)
    → contents ((temp_name g.key g.suffix, node) ∷ fs) key ≡ contents fs key
unfolding contents find
add_stage-contents g node fs key = elim (Option-cases (relative key)) [
  | inl q ↦ ground (arith, q)
  | inr (path, q) ↦ ground (arith, q, stage_apart g key path q)
]

copy_source_frame :
    (input : Input) (limit : ℕ) (k suffix : Bytes) (fs : Fs) (key : Bytes)
    → contents (copy_source input limit k suffix fs).1 key ≡ contents fs key
unfolding copy_source
copy_source_frame input limit k suffix fs key =
    let same =
      add_stage-contents (staged_of input k suffix) (file (take (limit + 1) input.source)) fs key in
    elim (Result-cases (check_copy input limit)) [
      | inl (done, q) ↦ rw (q, copy_source) same
      | inr (e, q) ↦ ground (arith, q, same)
    ]

-- Stage, returned or failed, changes what no key holds.
pub stage_frame :
    (input : Input) (limit : ℕ) (fs : Fs) (key : Bytes)
    → contents (stage input limit fs).1 key ≡ contents fs key
unfolding stage
stage_frame input limit fs key = elim (Option-cases input.random_key) [
  | inl q ↦ ground (arith, q)
  | inr (bytes, q) ↦
      elim (Option-cases (free_suffix (hex bytes) (take 8 input.random_suffixes) fs)) [
        | inl r ↦ ground (arith, q, r)
        | inr (suffix, r) ↦
            ground (arith, q, r, copy_source_frame input limit (hex bytes) suffix fs key)
      ]
]

commit_at-find :
    (faults : Faults) (g : Staged) (path c : Bytes) (fs : Fs)
    → relative g.key ≡ some path
    → find (temp_name g.key g.suffix) fs ≡ some (file c)
    → (commit_at faults g path fs).0 ≡ true
    → find path (commit_at faults g path fs).2 ≡ some (file c)
unfolding commit_at link_node drop_stage find
commit_at-find faults g path c fs r t done = elim (Option-cases (find path fs)) [
  | inr (v, q) ↦ absurd (ground (arith, q, done))
  | inl q ↦ ground (
    arith,
    q,
    t,
    done,
    stage_apart g g.key path r,
    bytes_eq_iff path path,
    find-erase (temp_name g.key g.suffix) path ((path, file c) ∷ fs),
  )
]

-- If Stage and Commit succeed, Open reads the bytes that were staged, unless the call of open
-- fails.
pub stage-commit-open :
    (input : Input) (limit : ℕ) (fs after : Fs) (staged : Staged) (faults : Faults)
    → stage input limit fs ≡ (ok staged, after)
    → (commit faults staged after).0 ≡ true
    → faults.open_file ≡ false
    → open_object faults staged.key (commit faults staged after).2 ≡ some input.source
unfolding commit open_object
stage-commit-open input limit fs after staged faults h done opens =
    let kept = stage-Kept input limit fs after staged h in
    let there : find (temp_name staged.key staged.suffix) after ≡ some (file input.source) =
      rw (kept.after_eq) (
        unfold find in
        ground (
          arith,
          bytes_eq_iff (temp_name staged.key staged.suffix) (temp_name staged.key staged.suffix),
        )) in
    elim (Option-cases (relative staged.key)) [
      | inl q ↦ absurd (ground (arith, q, done, kept.uncommitted))
      | inr (path, q) ↦ ground (
        arith,
        q,
        opens,
        kept.uncommitted,
        commit_at-find faults staged path input.source after q there
            (ground (arith, q, done, kept.uncommitted)),
      )
    ]
