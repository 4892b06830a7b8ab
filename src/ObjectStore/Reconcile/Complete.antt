-- ===== src/ObjectStore/Reconcile/Complete.antt =====
-- What Reconcile does delete.
use u_paste.Prelude.{
  ◌&&◌, ℕ, ◌≡◌, inl, inr, true, false, ◌||◌, not, none, some, List, [], ◌∷◌, ◌++◌, arith, Bytes,
  bytes_eq, bytes_eq_iff, Bool-cases, Option-cases,
}
use u_paste.Database.Tables.{erase, find-erase}
use u_paste.ObjectStore.Keys.{valid_key, valid_shard}
use u_paste.ObjectStore.Local.{Fs, contents}
use u_paste.ObjectStore.Reconcile.{
  Listing, Counts, is_regular, is_referenced, is_stage, child_path, is_stale, sweep_stage,
  is_absent, sweep_child, sweep_children, sweep_shard, sweep_root, sweep_roots, reconcile,
}
use u_paste.ObjectStore.Reconcile.Safety.{shard-path}

erase-clear :
    (name path : Bytes) (fs : Fs)
    → is_regular path fs ≡ false
    → is_regular path (erase name fs) ≡ false
unfolding is_regular
erase-clear name path fs h = ground (arith, find-erase name path fs)

erase-here : (path : Bytes) (fs : Fs) → is_regular path (erase path fs) ≡ false
unfolding is_regular
erase-here path fs = ground (arith, find-erase path path fs, bytes_eq_iff path path)

module _ (listing : Listing) (referenced : List Bytes) (stale_before : ℕ) (path : Bytes) where
  -- A name that is no file does not become one.
  sweep_child-clear :
      (name child : Bytes) (counts : Counts) (fs : Fs)
      → is_regular path fs ≡ false
      → is_regular path (sweep_child listing referenced stale_before name child counts fs).2 ≡ false
  unfolding sweep_child
  sweep_child-clear name child counts fs h =
      ground (arith, h, erase-clear (child_path name child) path fs h)

  sweep_children-clear :
      (name : Bytes) (children : List Bytes) (counts : Counts) (fs : Fs)
      → is_regular path fs ≡ false
      → is_regular path (sweep_children listing referenced stale_before name children counts fs).2
        ≡ false
  unfolding sweep_children
  sweep_children-clear name [] counts fs h = h
  sweep_children-clear name (child ∷ children) counts fs h =
      let step = sweep_child listing referenced stale_before name child counts fs in
      let here = sweep_child-clear name child counts fs h in
      ground (arith, here, sweep_children-clear name children step.1 step.2 here)

  sweep_stage-clear :
      (name : Bytes) (counts : Counts) (fs : Fs)
      → is_regular path fs ≡ false
      → is_regular path (sweep_stage listing referenced stale_before name counts fs).2 ≡ false
  unfolding sweep_stage
  sweep_stage-clear name counts fs h = ground (arith, h, erase-clear name path fs h)

  sweep_shard-clear :
      (name : Bytes) (counts : Counts) (fs : Fs)
      → is_regular path fs ≡ false
      → is_regular path (sweep_shard listing referenced stale_before name counts fs).2 ≡ false
  unfolding sweep_shard
  sweep_shard-clear name counts fs h = elim (Option-cases (listing.children name)) [
    | inl n ↦ rw (n, sweep_shard) h
    | inr (children, n) ↦ rw (n, sweep_shard) (sweep_children-clear name children counts fs h)
  ]

  sweep_root-clear :
      (name : Bytes) (counts : Counts) (fs : Fs)
      → is_regular path fs ≡ false
      → is_regular path (sweep_root listing referenced stale_before name counts fs).2 ≡ false
  unfolding sweep_root
  sweep_root-clear name counts fs h =
      let stage = sweep_stage-clear name counts fs h in
      let shard = sweep_shard-clear name counts fs h in
      elim (Bool-cases
        (listing.lstat_fails name || (not (listing.is_folder name) && is_absent name fs))) [
          | inl a ↦ rw (a, sweep_root) h
          | inr a ↦ elim (Bool-cases (is_stage name)) [
            | inl b ↦ rw (a, b, sweep_root) stage
            | inr b ↦ elim (Bool-cases (not (valid_shard name) || not (listing.is_folder name))) [
              | inl c ↦ rw (a, b, c, sweep_root) h
              | inr c ↦ rw (a, b, c, sweep_root) shard
            ]
          ]
        ]

  sweep_roots-clear :
      (names : List Bytes) (counts : Counts) (fs : Fs)
      → is_regular path fs ≡ false
      → is_regular path (sweep_roots listing referenced stale_before names counts fs).2 ≡ false
  unfolding sweep_roots
  sweep_roots-clear [] counts fs h = h
  sweep_roots-clear (name ∷ names) counts fs h =
      let step = sweep_root listing referenced stale_before name counts fs in
      let here = sweep_root-clear name counts fs h in
      ground (arith, here, sweep_roots-clear names step.1 step.2 here)

shard-no_stage : (name : Bytes) → valid_shard name ≡ true → is_stage name ≡ false
unfolding valid_shard is_stage bytes_eq
shard-no_stage [] h = ground (arith, h)
shard-no_stage (a ∷ []) h = ground (arith, h)
shard-no_stage (a ∷ b ∷ []) h = ground (arith, h)
shard-no_stage (a ∷ b ∷ c ∷ name) h = ground (arith, h)

module _ (listing : Listing) (referenced : List Bytes) (stale_before : ℕ) (name child : Bytes)
    (shard : valid_shard name ≡ true) (valid : valid_key (name ++ child) ≡ true)
    (orphan : is_referenced (name ++ child) referenced ≡ false)
    (stale : is_stale listing referenced stale_before (child_path name child) ≡ true) where
  sweep_child-orphan :
      (counts : Counts) (fs : Fs)
      → (sweep_child listing referenced stale_before name child counts fs).0 ≡ true
      → is_regular
          (child_path name child)
          (sweep_child listing referenced stale_before name child counts fs).2
        ≡ false
  unfolding sweep_child
  sweep_child-orphan counts fs done =
      ground (arith, done, valid, orphan, stale, erase-here (child_path name child) fs)

  sweep_children-orphan :
      (children : List Bytes) (counts : Counts) (fs : Fs)
      → is_referenced child children ≡ true
      → (sweep_children listing referenced stale_before name children counts fs).0 ≡ true
      → is_regular
          (child_path name child)
          (sweep_children listing referenced stale_before name children counts fs).2
        ≡ false
  unfolding sweep_children is_referenced
  sweep_children-orphan [] counts fs m done = absurd (ground (arith, m))
  sweep_children-orphan (c ∷ children) counts fs m done = elim (Bool-cases (bytes_eq c child)) [
    | inr other ↦
        let step = sweep_child listing referenced stale_before name c counts fs in
        ground (arith, other, m, done, sweep_children-orphan children step.1 step.2)
    | inl same ↦
        let here : c ≡ child = (bytes_eq_iff c child).0 same in
        let step = sweep_child listing referenced stale_before name child counts fs in
        rw here (
          ground (
            arith,
            rw here at done,
            sweep_child-orphan counts fs,
            sweep_children-clear listing referenced stale_before (child_path name child) name
                children step.1 step.2,
          ))
  ]

  sweep_root-orphan :
      (children : List Bytes) (counts : Counts) (fs : Fs)
      → listing.is_folder name ≡ true
      → listing.children name ≡ some children
      → is_referenced child children ≡ true
      → (sweep_root listing referenced stale_before name counts fs).0 ≡ true
      → is_regular
          (child_path name child)
          (sweep_root listing referenced stale_before name counts fs).2
        ≡ false
  unfolding sweep_root sweep_shard
  sweep_root-orphan children counts fs folder lists m done = elim (Bool-cases (is_stage name)) [
    | inl s ↦ absurd (ground (arith, s, shard-no_stage name shard))
    | inr s ↦
        ground (arith, s, shard, folder, lists, done, sweep_children-orphan children counts fs m)
  ]

  sweep_roots-orphan :
      (names children : List Bytes) (counts : Counts) (fs : Fs)
      → listing.is_folder name ≡ true
      → listing.children name ≡ some children
      → is_referenced child children ≡ true
      → is_referenced name names ≡ true
      → (sweep_roots listing referenced stale_before names counts fs).0 ≡ true
      → is_regular
          (child_path name child)
          (sweep_roots listing referenced stale_before names counts fs).2
        ≡ false
  unfolding sweep_roots is_referenced
  sweep_roots-orphan [] children counts fs folder lists m n done = absurd (ground (arith, n))
  sweep_roots-orphan (root ∷ names) children counts fs folder lists m n done =
      elim (Bool-cases (bytes_eq root name)) [
        | inr other ↦
            let step = sweep_root listing referenced stale_before root counts fs in
            ground (
              arith,
              other,
              n,
              done,
              sweep_roots-orphan names children step.1 step.2 folder lists m,
            )
        | inl same ↦
            let here : root ≡ name = (bytes_eq_iff root name).0 same in
            let step = sweep_root listing referenced stale_before name counts fs in
            rw here (
              ground (
                arith,
                rw here at done,
                sweep_root-orphan children counts fs folder lists m,
                sweep_roots-clear listing referenced stale_before (child_path name child) names
                    step.1 step.2,
              ))
      ]

-- If Reconcile returns without an error, a valid key whose shard is a listed directory and which
-- that directory lists holds nothing, if it is not referenced and was not modified after
-- `stale_before`.
pub reconcile-orphan :
    (listing : Listing) (referenced : List Bytes) (stale_before : ℕ) (fs : Fs) (name child : Bytes)
    (names children : List Bytes)
    → listing.roots ≡ some names
    → is_referenced name names ≡ true
    → listing.is_folder name ≡ true
    → listing.children name ≡ some children
    → is_referenced child children ≡ true
    → valid_shard name ≡ true
    → valid_key (name ++ child) ≡ true
    → is_referenced (name ++ child) referenced ≡ false
    → is_stale listing referenced stale_before (child_path name child) ≡ true
    → (reconcile listing referenced stale_before fs).0 ≡ true
    → contents (reconcile listing referenced stale_before fs).2 (name ++ child) ≡ none
unfolding reconcile contents is_regular
reconcile-orphan listing referenced stale_before fs name child names children roots n folder lists m
      shard valid orphan stale done =
    ground (
      arith,
      roots,
      done,
      shard-path name child shard valid,
      sweep_roots-orphan listing referenced stale_before name child shard valid orphan stale names
          children
          (record {
            stages_deleted = 0;
            orphans_deleted = 0;
            missing_referenced = 0;
            anomalies = 0;
          })
          fs folder lists m n,
    )
