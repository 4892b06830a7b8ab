-- ===== src/ObjectStore/Local.antt =====
-- The local object store: Stage, Open, Delete, Commit and Abort of internal/objectstore/local.go, on
-- the tree of names under the object root. A name is a file or a directory; symbolic links and the
-- directories of the shards are not recorded. Every call of the operating system may fail (`Faults`).
pub mod Laws
pub mod Staging
use u_paste.Prelude.{
  ◌||◌, ℕ, zero, suc, ◌+◌, ◌-◌, ◌%◌, ◌/◌, ◌≡◌, Bool, true, false, not, Option, none, some, List, [],
  ◌∷◌, ◌++◌, arith, ◌==◌, ltb, ◌&&◌, if◌then◌else◌, Bytes, codes, length, take, Result, ok, err,
}
use u_paste.Database.Tables.{Table, find, erase}
use u_paste.ObjectStore.{Staged, Store}
use u_paste.ObjectStore.Keys.{relative}

pub data Node : Type 0 where
  file : Bytes → Node
  directory : Node

abbrev pub Fs : Type 0
Fs = Table Node

-- Which calls of the operating system fail for reasons of its own.
pub record Faults : Type 0 where
  pub mkdir : Bool
  pub lstat : Bool
  pub link : Bool
  pub remove : Bool
  pub remove_back : Bool
  pub open_shard : Bool
  pub sync_shard : Bool
  pub open_file : Bool

unfoldable pub temp_name : Bytes → Bytes → Bytes
temp_name key suffix = codes ".stage-" ++ key ++ codes "-" ++ suffix

-- `staged.temp = ""`
abbrev pub settled : Staged → Bool → Staged
settled staged committed = record {
  key = staged.key;
  size = staged.size;
  sha256 = staged.sha256;
  sniff = staged.sniff;
  suffix = staged.suffix;
  pending = false;
  committed = committed;
}

-- Link(old, new): a directory has no second name, and the new name must be free.
unfoldable pub link_node : Bytes → Bytes → Fs → Option Fs
unfolding find
link_node old new fs = elim (find new fs) [
  | some _ ↦ none
  | none ↦ elim (find old fs) [
    | some (file c) ↦ some ((new, file c) ∷ fs)
    | some directory ↦ none
    | none ↦ none
  ]
]

-- The end of Commit, once the link is there: the stage's name goes, or else the link goes back.
unfoldable pub drop_stage : Faults → Staged → Bytes → Fs → Bool × Staged × Fs
unfolding erase temp_name
drop_stage faults staged path fs =
    if faults.remove then (false, staged, (if faults.remove_back then fs else erase path fs)) else (
      not faults.open_shard && not faults.sync_shard,
      settled staged true,
      erase (temp_name staged.key staged.suffix) fs,
    )

-- After Abort the stage has no name, which Link refuses.
unfoldable pub commit_at : Faults → Staged → Bytes → Fs → Bool × Staged × Fs
unfolding find link_node drop_stage temp_name
commit_at faults staged path fs =
    if faults.mkdir
    then (false, staged, fs)
    else if faults.lstat
    then (false, staged, fs)
    else elim (find path fs) [
      | some _ ↦ (false, staged, fs)
      | none ↦
          if faults.link || not staged.pending
          then (false, staged, fs)
          else elim (link_node (temp_name staged.key staged.suffix) path fs) [
            | none ↦ (false, staged, fs)
            | some linked ↦ drop_stage faults staged path linked
          ]
    ]

unfoldable pub commit : Faults → Staged → Fs → Bool × Staged × Fs
unfolding relative commit_at
commit faults staged fs =
    if staged.committed then (true, staged, fs) else elim (relative staged.key) [
      | none ↦ (false, staged, fs)
      | some path ↦ commit_at faults staged path fs
    ]

unfoldable pub abort : Faults → Staged → Fs → Staged × Fs
unfolding erase temp_name
abort faults staged fs = (
  settled staged staged.committed,
  (if not staged.pending
      then fs
      else if faults.remove
      then fs
      else erase (temp_name staged.key staged.suffix) fs),
)

unfoldable pub contents : Fs → Bytes → Option Bytes
unfolding relative find
contents fs key = elim (relative key) [
  | none ↦ none
  | some path ↦ elim (find path fs) [ some (file c) ↦ some c | some directory ↦ none | none ↦ none ]
]

unfoldable pub open_object : Faults → Bytes → Fs → Option Bytes
unfolding relative find
open_object faults key fs = elim (relative key) [
  | none ↦ none
  | some path ↦
      if faults.open_file
      then none
      else elim (find path fs) [ none ↦ none | some directory ↦ none | some (file c) ↦ some c ]
]

unfoldable pub delete : Faults → Bytes → Fs → Bool × Fs
unfolding relative find erase
delete faults key fs = elim (relative key) [
  | none ↦ (false, fs)
  | some path ↦ if faults.lstat then (false, fs) else elim (find path fs) [
    | none ↦ (true, fs)
    | some directory ↦ (false, fs)
    | some (file c) ↦ if faults.remove then (false, fs) else (true, erase path fs)
  ]
]

abbrev pub local_store : Faults → Store
local_store faults = record {
  State = Fs;
  contents = contents;
  commit = λ g s. ((commit faults g s).0, (commit faults g s).2);
  abort = λ g s. (abort faults g s).1;
  open_object = open_object faults;
  delete = delete faults;
}
