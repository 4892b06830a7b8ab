-- ===== src/Examples/Purges.antt =====
-- A purge after the expiration of a file.
use u_paste.Prelude.{ℕ, refl, true, none, codes, arith}
use u_paste.Database.{Db, empty, uses_key}
use u_paste.Database.Tables.{find}
use u_paste.ObjectStore.{StoreLaws}
use u_paste.ObjectStore.Local.{Fs}
use u_paste.ObjectStore.Local.Laws.{local_store-StoreLaws}
use u_paste.Share.Files.{create_staged}
use u_paste.Share.Objects.{IsServed}
use u_paste.Share.Objects.Creates.{create_staged-IsServed}
use u_paste.Maintenance.{Run}
use u_paste.Examples.{env, store, staged, with_stage, no_faults}

pub laws : StoreLaws store
laws = local_store-StoreLaws no_faults

empty-IsServed : (objects : Fs) → IsServed store empty objects
empty-IsServed objects = record {
  own_keys = λ id j f g h. unfold find in ground (arith, h);
  stored = λ id f h. unfold find in ground (arith, h);
}

abbrev pub made : Db
made = (create_staged store env (codes "a.txt") staged none empty with_stage).1

abbrev pub objects : Fs
objects = (create_staged store env (codes "a.txt") staged none empty with_stage).2

pub served : IsServed store made objects
served =
    create_staged-IsServed store laws env (codes "a.txt") staged none empty with_stage refl
      (unfold uses_key in refl) (empty-IsServed with_stage)

abbrev pub runs : ℕ → Run
runs n = record { begins = true; selects = true; deletes = λ id. true; commits = true }
