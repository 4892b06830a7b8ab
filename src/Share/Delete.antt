-- ===== src/Share/Delete.antt =====
-- Delete of internal/share/service.go and AdminDelete of internal/share/admin.go: the rows go in one
-- transaction, and the object of a File Share after it.
use u_paste.Prelude.{
  ℕ, Option, none, some, [], ◌∷◌, Bytes, Result, ok, err, ◌>>=◌, ◌>>◌, require, or_fail,
  if◌then◌else◌,
}
use u_paste.Domain.{PayloadKind, text, file}
use u_paste.Capability.{ShareId}
use u_paste.Database.{Db, FileRow}
use u_paste.Database.Tables.{find}
use u_paste.Database.Statements.{delete_share}
use u_paste.ObjectStore.{Store}
use u_paste.Share.{
  Env, Error, select_storage_key, select_target, delete_row, not_found, database, cleanup,
  server_now,
}
use u_paste.Share.Owner.{authorize}
use u_paste.Share.Transactions.{execute, require_one_row, transact}

abbrev pub key_of : Option FileRow → Option Bytes
key_of none = none
key_of (some row) = some row.storage_key

-- SELECT storage_key, for a File Share; the empty string otherwise.
unfoldable pub select_key : Env → PayloadKind → Bytes → Db → Result Error Bytes
unfolding execute
select_key env text id db = ok []
select_key env file id db = execute env select_storage_key (key_of (find id db.files))

-- DELETE FROM shares, which must affect one row.
unfoldable pub delete_rows : Env → Bytes → Db → Result Error Db
unfolding delete_share execute require_one_row
delete_rows env id db = do
  result ← execute env delete_row (some (delete_share id db))
  require_one_row result

unfoldable pub delete_body : Env → Bytes → Bytes → ℕ → Db → Result Error (Bytes × Db)
unfolding authorize select_key delete_rows
delete_body env id candidate now db = do
  found ← authorize env db id candidate now
  key ← select_key env found.kind id db
  after ← delete_rows env id db
  ok (key, after)

abbrev or_empty : Option Bytes → Bytes
or_empty none = []
or_empty (some key) = key

-- AdminDelete asks for no token and no date: any Share that is there.
unfoldable pub admin_delete_body : Env → Bytes → Db → Result Error (Bytes × Db)
unfolding delete_rows
admin_delete_body env id db = do
  require (env.runs select_target) database
  row ← or_fail (find id db.shares) not_found
  after ← delete_rows env id db
  ok (or_empty (key_of (find id db.files)), after)

module _ (store : Store) where
  -- What follows a committed deletion: the object is removed, or a CleanupError names its key.
  unfoldable pub clean_up : Env → Bytes → store.State → Result Error (Unit {0}) × store.State
  clean_up env [] objects = (ok tt, objects)
  clean_up env (c ∷ cs) objects =
      if env.has_store
      then (let (done, objects') = store.delete (c ∷ cs) objects in
          (if done then ok tt else err (cleanup (c ∷ cs)), objects'))
      else (err (cleanup (c ∷ cs)), objects)

  unfoldable pub finish :
      Env → Result Error Bytes × Db → store.State → Result Error (Unit {0}) × Db × store.State
  unfolding clean_up
  finish env (err e, db) objects = (err e, db, objects)
  finish env (ok key, db) objects =
      let (result, objects') = clean_up env key objects in (result, db, objects')

  unfoldable pub delete :
      Env → ShareId → Bytes → Db → store.State → Result Error (Unit {0}) × Db × store.State
  unfolding delete_body transact finish server_now
  delete env id candidate db objects =
      finish env (transact env (delete_body env id.value candidate (server_now env)) db) objects

  unfoldable pub admin_delete :
      Env → ShareId → Db → store.State → Result Error (Unit {0}) × Db × store.State
  unfolding admin_delete_body transact finish
  admin_delete env id db objects =
      finish env (transact env (admin_delete_body env id.value) db) objects
