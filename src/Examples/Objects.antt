-- ===== src/Examples/Objects.antt =====
-- The Share service and the local store on a file.
use u_paste.Prelude.{◌≡◌, refl, true, false, none, some, [], ◌∷◌, codes, ok, arith}
use u_paste.Database.{Db, empty, uses_key, share_checks, accepts, file_checks}
use u_paste.Base64.{encode, sextet_char}
use u_paste.Database.Tables.{find, is_present}
use u_paste.ObjectStore.{Staged, StoreLaws}
use u_paste.ObjectStore.Local.{abort, Fs, local_store, contents, commit, open_object}
use u_paste.ObjectStore.Local.Laws.{local_store-StoreLaws}
use u_paste.ObjectStore.Local.Staging.{Input, stage, hex, staged_of}
use u_paste.ObjectStore.Local.Staging.RoundTrip.{stage-commit-open}
use u_paste.Share.Delete.{delete}
use u_paste.Share.Files.{create_file, create_staged, file_draft, file_of, file_row}
use u_paste.Share.{Env, Share}
use u_paste.Capability.{share_id_bytes, OwnerToken}
use u_paste.Share.Consistent.Files.{create_file-IsConsistent}
use u_paste.Share.Consistent.Creates.{IsRandom}
use u_paste.Share.Consistent.{IsConsistent, IsConsistent-empty}
use u_paste.Share.Objects.{IsServed}
use u_paste.Share.Objects.Creates.{create_staged-IsServed, create_staged_collision}
use u_paste.Share.Objects.Deletes.{delete-IsServed}
use u_paste.Share.Objects.Outcomes.{Outcome, delete-Outcome}
use u_paste.Examples.{
  env, digest, raw_id, share_id, owner_token, store, staged, with_stage, key, no_faults,
}

random : IsRandom share_id_bytes env.random_id
random = ground arith

laws : StoreLaws store
laws = local_store-StoreLaws no_faults

local_store-StoreLaws_example : StoreLaws (local_store no_faults)
local_store-StoreLaws_example = local_store-StoreLaws no_faults

empty-IsServed : (objects : Fs) → IsServed store empty objects
empty-IsServed objects = record {
  own_keys = λ id j f g h. unfold find in ground (arith, h);
  stored = λ id f h. unfold find in ground (arith, h);
}

abbrev made : Db
made = (create_staged store env (codes "a.txt") staged none empty with_stage).1

abbrev objects : Fs
objects = (create_staged store env (codes "a.txt") staged none empty with_stage).2

served : IsServed store made objects
served =
    create_staged-IsServed store laws env (codes "a.txt") staged none empty with_stage refl
      (unfold uses_key in refl) (empty-IsServed with_stage)

create_staged-IsServed_example :
    IsServed store
      (create_staged store env (codes "a.txt") staged none empty with_stage).1
      (create_staged store env (codes "a.txt") staged none empty with_stage).2
create_staged-IsServed_example =
    create_staged-IsServed store laws env (codes "a.txt") staged none empty with_stage refl
      (unfold uses_key in refl) (empty-IsServed with_stage)

delete-IsServed_example :
    IsServed store
      (delete store env share_id owner_token made objects).1
      (delete store env share_id owner_token made objects).2
delete-IsServed_example = delete-IsServed store laws env share_id made objects served owner_token

made-IsConsistent : IsConsistent made
unfolding create_file
made-IsConsistent =
    create_file-IsConsistent store env random (codes "a.txt") (some staged) none empty with_stage
      IsConsistent-empty

delete-Outcome_example :
    Outcome store share_id.value made objects (delete store env share_id owner_token made objects)
delete-Outcome_example =
    delete-Outcome store laws env share_id made objects made-IsConsistent owner_token

-- A second upload under the key of the first.
abbrev second : Env
second = record {
  sha256 = digest;
  retention_policy = env.retention_policy;
  clock = env.clock;
  detect_content_type = env.detect_content_type;
  random_id = some (codes "fedcba9876543210");
  random_token = env.random_token;
  has_store = true;
  begins = true;
  commits = true;
  runs = env.runs;
}

abbrev input : Input
input = record {
  sha256 = digest;
  random_key = some raw_id;
  random_suffixes = none ∷ [];
  create_fails = false;
  source = codes "some bytes";
  read_fails = false;
  sync_fails = false;
  close_fails = false;
  remove_fails = false;
}

stage-commit-open_example :
    open_object no_faults
      (hex raw_id)
      (commit no_faults (staged_of input (hex raw_id) (codes "fallback")) (stage input 64 []).1).2
    ≡ some (codes "some bytes")
stage-commit-open_example =
    stage-commit-open input 64 [] (stage input 64 []).1
      (staged_of input (hex raw_id) (codes "fallback")) no_faults (unfold stage in refl)
      (unfold commit stage in refl) refl

drafted :
    (m : Share × OwnerToken) × (file_draft second (file_of second (codes "b.txt") staged) none
      ≡ ok m)
unfolding file_draft
drafted = (_, refl)

create_staged_collision_example :
    ((create_staged store second (codes "b.txt") staged none made objects).1 ≡ made)
    × (contents (create_staged store second (codes "b.txt") staged none made objects).2 key ≡ none)
unfolding is_present share_checks encode commit accepts sextet_char uses_key file_checks file_of
    u_paste.ObjectStore.Local.delete abort
create_staged_collision_example =
    create_staged_collision store laws second (codes "b.txt") staged none made objects
      share_id.value (file_row (file_of env (codes "a.txt") staged)) drafted.0 refl served
      (unfold create_staged find in refl) refl drafted.1 (unfold create_staged delete in refl)
      (unfold create_staged commit delete in refl)
