-- ===== src/Examples/Rounds.antt =====
-- A round of the maintenance, and of Reconcile.
use u_paste.Prelude.{
  ◌*◌, ◌≡◌, inl, refl, true, false, none, some, [], ◌∷◌, ◌++◌, Bytes, codes, drop,
}
use u_paste.Database.Tables.{find, erase}
use u_paste.ObjectStore.Keys.{valid_key, valid_shard, relative}
use u_paste.ObjectStore.Local.{Fs, file, contents}
use u_paste.ObjectStore.Reconcile.{Listing, is_stale, is_referenced, reconcile}
use u_paste.ObjectStore.Reconcile.Safety.{reconcile-contents}
use u_paste.ObjectStore.Reconcile.Complete.{reconcile-orphan}
use u_paste.Share.{millisecond}
use u_paste.Maintenance.Served.{Kept}
use u_paste.Maintenance.Runs.{Calls, run_once}
use u_paste.Maintenance.Runs.Whole.{run_once-Kept, local-Spares}
use u_paste.Examples.{store, key, no_faults}
use u_paste.Examples.Purges.{laws, made, objects, served, runs}

abbrev child : Bytes
child = drop 2 key

abbrev path : Bytes
path = codes "00/" ++ child

abbrev listing : Listing
listing = record {
  roots = some (codes "00" ∷ []);
  is_folder = λ name. true;
  children = λ name. some (child ∷ []);
  modified = λ name. 7;
  lstat_fails = λ name. false;
  remove_fails = λ name. false;
}

abbrev calls : Calls
calls = record { batches = runs; counts = true; lists = true }

run_once-Kept_example :
    Kept store laws
      (2000 * millisecond)
      made
      (run_once store (some (reconcile listing)) calls (2000 * millisecond) made objects).2
      (run_once store (some (reconcile listing)) calls (2000 * millisecond) made objects).3
run_once-Kept_example =
    run_once-Kept store laws (some (reconcile listing)) calls (2000 * millisecond) made objects
      (local-Spares no_faults listing) served

abbrev tree : Fs
tree = (path, file (codes "abc")) ∷ []

key_path : relative key ≡ some path
unfolding relative
key_path = refl

key_referenced : is_referenced key (key ∷ []) ≡ true
unfolding is_referenced
key_referenced = refl

reconcile-contents_example :
    contents (reconcile listing (key ∷ []) 9 tree).2 key ≡ contents tree key
reconcile-contents_example =
    reconcile-contents listing (key ∷ []) 9 tree key path key_path (inl key_referenced)

orphan_done : (reconcile listing [] 9 tree).0 ≡ true
unfolding reconcile find erase valid_key valid_shard relative
orphan_done = refl

reconcile-orphan_example : contents (reconcile listing [] 9 tree).2 key ≡ none
reconcile-orphan_example =
    reconcile-orphan listing [] 9 tree (codes "00") child (codes "00" ∷ []) (child ∷ []) refl
      (unfold is_referenced in refl) refl refl (unfold is_referenced in refl)
      (unfold valid_shard in refl) (unfold valid_key in refl) (unfold is_referenced in refl)
      (unfold is_stale in refl) orphan_done
