-- ===== src/ObjectStore/Reconcile/Safety.antt =====
-- What Reconcile may not delete.
use u_paste.Prelude.{
  ℕ, ◌≡◌, ◌⊎◌, refl, inl, inr, ap, ◌∙◌, true, false, ◌&&◌, not, some, List, [], ◌∷◌, ◌++◌, arith,
  Bytes, bytes_eq, bytes_eq_iff, Bool-cases, Option-cases,
}
use u_paste.Database.Tables.{find, find-erase}
use u_paste.ObjectStore.Keys.{valid_key, valid_shard, relative, relative_no_dot, relative-injective}
use u_paste.ObjectStore.Local.{Fs, contents}
use u_paste.ObjectStore.Reconcile.{
  Listing, Counts, is_referenced, is_stage, child_path, is_stale, sweep_stage, sweep_child,
  sweep_children, sweep_shard, sweep_root, sweep_roots, reconcile,
}

-- A child of a shard stands at the path of the key that its names spell.
pub shard-path :
    (name child : Bytes)
    → valid_shard name ≡ true
    → valid_key (name ++ child) ≡ true
    → relative (name ++ child) ≡ some (child_path name child)
unfolding relative valid_shard
shard-path (a ∷ b ∷ []) child s v = ground (arith, v)
shard-path [] child s v = ground (arith, s)
shard-path (a ∷ []) child s v = ground (arith, s)
shard-path (a ∷ b ∷ c ∷ name) child s v = ground (arith, s)

pub stage-dot : (name : Bytes) → is_stage name ≡ true → (rest : Bytes) × (name ≡ b'.' ∷ rest)
unfolding is_stage bytes_eq
stage-dot [] h = absurd (ground (arith, h))
stage-dot (a ∷ name) h = (name, ground (arith, h))

module _ (listing : Listing) (referenced : List Bytes) (stale_before : ℕ) (key path : Bytes)
    (r : relative key ≡ some path)
    (kept : (is_referenced key referenced ≡ true)
      ⊎ (is_stale listing referenced stale_before path ≡ false)) where
  sweep_stage-path :
      (name : Bytes) (counts : Counts) (fs : Fs)
      → is_stage name ≡ true
      → find path (sweep_stage listing referenced stale_before name counts fs).2 ≡ find path fs
  unfolding sweep_stage
  sweep_stage-path name counts fs s =
      let (rest, dot) = stage-dot name s in
      ground (
        arith,
        dot,
        relative_no_dot key path rest r,
        find-erase name path fs,
        bytes_eq_iff name path,
      )

  sweep_child-path :
      (name child : Bytes) (counts : Counts) (fs : Fs)
      → valid_shard name ≡ true
      → find path (sweep_child listing referenced stale_before name child counts fs).2
        ≡ find path fs
  unfolding sweep_child
  sweep_child-path name child counts fs s = elim (Bool-cases (valid_key (name ++ child))) [
    | inr v ↦ ground (arith, v)
    | inl v ↦ elim (Bool-cases (bytes_eq (child_path name child) path)) [
      | inr other ↦ ground (arith, v, other, find-erase (child_path name child) path fs)
      | inl same ↦
          let here : child_path name child ≡ path =
            (bytes_eq_iff (child_path name child) path).0 same in
          let key_eq : name ++ child ≡ key =
            relative-injective (name ++ child) key path (shard-path name child s v ∙ ap some here)
              r in
          let safe : not (is_referenced (name ++ child) referenced)
                && is_stale listing referenced stale_before (child_path name child)
              ≡ false =
            rw (key_eq, here) (ground (arith, kept)) in
          ground (arith, v, safe)
    ]
  ]

  sweep_children-path :
      (name : Bytes) (children : List Bytes) (counts : Counts) (fs : Fs)
      → valid_shard name ≡ true
      → find path (sweep_children listing referenced stale_before name children counts fs).2
        ≡ find path fs
  unfolding sweep_children
  sweep_children-path name [] counts fs s = refl
  sweep_children-path name (child ∷ children) counts fs s =
      let step = sweep_child listing referenced stale_before name child counts fs in
      ground (
        arith,
        sweep_child-path name child counts fs s,
        sweep_children-path name children step.1 step.2 s,
      )

  sweep_root-path :
      (name : Bytes) (counts : Counts) (fs : Fs)
      → find path (sweep_root listing referenced stale_before name counts fs).2 ≡ find path fs
  unfolding sweep_root sweep_shard
  sweep_root-path name counts fs = elim (Bool-cases (is_stage name)) [
    | inl s ↦ ground (arith, s, sweep_stage-path name counts fs s)
    | inr s ↦ elim (Bool-cases (valid_shard name)) [
      | inr v ↦ ground (arith, s, v)
      | inl v ↦ elim (Option-cases (listing.children name)) [
        | inl n ↦ ground (arith, s, v, n)
        | inr (children, n) ↦ ground (arith, s, v, n, sweep_children-path name children counts fs v)
      ]
    ]
  ]

  sweep_roots-path :
      (names : List Bytes) (counts : Counts) (fs : Fs)
      → find path (sweep_roots listing referenced stale_before names counts fs).2 ≡ find path fs
  unfolding sweep_roots
  sweep_roots-path [] counts fs = refl
  sweep_roots-path (name ∷ names) counts fs =
      let step = sweep_root listing referenced stale_before name counts fs in
      ground (arith, sweep_root-path name counts fs, sweep_roots-path names step.1 step.2)

  reconcile-path :
      (fs : Fs) → find path (reconcile listing referenced stale_before fs).2 ≡ find path fs
  unfolding reconcile
  reconcile-path fs = elim (Option-cases listing.roots) [
    | inl n ↦ ground (arith, n)
    | inr (names, n) ↦ ground (
      arith,
      n,
      sweep_roots-path names
          (record {
            stages_deleted = 0;
            orphans_deleted = 0;
            missing_referenced = 0;
            anomalies = 0;
          })
          fs,
    )
  ]

-- Whatever the directories list and whatever fails, Reconcile changes nothing that a valid key
-- holds, if the key is referenced or its object was modified after `stale_before`.
pub reconcile-contents :
    (listing : Listing) (referenced : List Bytes) (stale_before : ℕ) (fs : Fs) (key path : Bytes)
    → relative key ≡ some path
    → (is_referenced key referenced ≡ true)
      ⊎ (is_stale listing referenced stale_before path ≡ false)
    → contents (reconcile listing referenced stale_before fs).2 key ≡ contents fs key
unfolding contents
reconcile-contents listing referenced stale_before fs key path r kept =
    ground (arith, r, reconcile-path listing referenced stale_before key path r kept fs)

-- An invalid key holds nothing.
pub reconcile-referenced :
    (listing : Listing) (referenced : List Bytes) (stale_before : ℕ) (fs : Fs) (key : Bytes)
    → is_referenced key referenced ≡ true
    → contents (reconcile listing referenced stale_before fs).2 key ≡ contents fs key
reconcile-referenced listing referenced stale_before fs key k = elim (Option-cases (relative key)) [
  | inl n ↦ unfold contents in ground (arith, n)
  | inr (path, r) ↦ reconcile-contents listing referenced stale_before fs key path r (inl k)
]
