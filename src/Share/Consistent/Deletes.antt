-- ===== src/Share/Consistent/Deletes.antt =====
-- Deletions keep the tables consistent, and remove what they say.
use u_paste.Prelude.{
  some, ℕ, ◌≡◌, refl, none, arith, Bytes, bytes_eq_refl, Result, ok, err, bind-eq-ok,
}
use u_paste.Capability.{ShareId}
use u_paste.Database.{Db, ShareRow}
use u_paste.Database.Statements.{delete_share}
use u_paste.Database.Tables.{find, find-erase, is_present}
use u_paste.ObjectStore.{Store}
use u_paste.Share.{Env, Error, server_now}
use u_paste.Share.Owner.{authorize}
use u_paste.Share.Delete.{
  select_key, delete_rows, delete_body, admin_delete_body, finish, delete, admin_delete,
}
use u_paste.Share.Transactions.{transact, transact_keeps}
use u_paste.Share.Consistent.{fits, IsConsistent}
use u_paste.Share.Consistent.Frame.{
  Frame, IsConsistent-of_Frame, fits_at_of_rows, delete_share-Frame,
}

-- No row of any table stands under the id.
pub record IsGone (id : Bytes) (db : Db) : Type 0 where
  pub share : find id db.shares ≡ none
  pub text : find id db.texts ≡ none
  pub encrypted_text : find id db.encrypted_texts ≡ none
  pub file : find id db.files ≡ none

-- The rows under the id are gone, and those of the other Shares are as they were.
pub record Deletes (id : Bytes) (db db' : Db) : Type 0 where
  pub gone : IsGone id db'
  pub frame : Frame id db db'

delete_rows-Deletes :
    (env : Env) (id : Bytes) (db db' : Db) → delete_rows env id db ≡ ok db' → Deletes id db db'
unfolding delete_rows delete_share
delete_rows-Deletes env id db db' h = record {
  gone = ground (
    arith,
    bytes_eq_refl id,
    find-erase id id db.shares,
    find-erase id id db.texts,
    find-erase id id db.encrypted_texts,
    find-erase id id db.files,
  );
  frame = λ j e. ground (arith, delete_share-Frame id db j e);
}

pub delete_share-Deletes :
    (id : Bytes) (db : Db) (row : ShareRow)
    → find id db.shares ≡ some row
    → Deletes id db (delete_share id db).0
unfolding delete_share is_present
delete_share-Deletes id db row h = record {
  gone = ground (
    arith,
    h,
    bytes_eq_refl id,
    find-erase id id db.shares,
    find-erase id id db.texts,
    find-erase id id db.encrypted_texts,
    find-erase id id db.files,
  );
  frame = λ j e. ground (arith, delete_share-Frame id db j e);
}

pub Deletes-IsConsistent :
    (id : Bytes) (db db' : Db) → IsConsistent db → Deletes id db db' → IsConsistent db'
unfolding fits
Deletes-IsConsistent id db db' h d =
    IsConsistent-of_Frame id h d.frame
      (fits_at_of_rows db' id d.gone.share d.gone.text d.gone.encrypted_text d.gone.file refl)

pub delete_body-Deletes :
    (env : Env) (id candidate : Bytes) (now : ℕ) (db db' : Db) (key : Bytes)
    → delete_body env id candidate now db ≡ ok (key, db')
    → Deletes id db db'
unfolding delete_body
delete_body-Deletes env id candidate now db db' key h =
    let (found, a, h1) = bind-eq-ok (authorize env db id candidate now) _ h in
    let (k, b, h2) = bind-eq-ok (select_key env found.kind id db) _ h1 in
    let (after, c, h3) = bind-eq-ok (delete_rows env id db) _ h2 in
    delete_rows-Deletes env id db db' (ground (arith, c, h3))

pub admin_delete_body-Deletes :
    (env : Env) (id : Bytes) (db db' : Db) (key : Bytes)
    → admin_delete_body env id db ≡ ok (key, db')
    → Deletes id db db'
unfolding admin_delete_body
admin_delete_body-Deletes env id db db' key h =
    delete_rows-Deletes env id db db' (ground (arith, h))

module _ (store : Store) (env : Env) (id : ShareId) (db : Db) (objects : store.State) where
  finish-rows : (r : Result Error Bytes × Db) → (finish store env r objects).1 ≡ r.1
  unfolding finish
  finish-rows (ok key, db') = refl
  finish-rows (err e, db') = refl

  -- A deletion by an owner, returned or failed, keeps the database consistent.
  pub delete-IsConsistent :
      (candidate : Bytes)
      → IsConsistent db
      → IsConsistent (delete store env id candidate db objects).1
  unfolding delete
  delete-IsConsistent candidate h =
      rw (finish-rows (transact env (delete_body env id.value candidate (server_now env)) db)) (
        transact_keeps IsConsistent env (delete_body env id.value candidate (server_now env)) db h
          λ key db' r.
            Deletes-IsConsistent id.value db db' h
              (delete_body-Deletes env id.value candidate (server_now env) db db' key r))

  -- A deletion by the admin, returned or failed, keeps the database consistent.
  pub admin_delete-IsConsistent :
      IsConsistent db → IsConsistent (admin_delete store env id db objects).1
  unfolding admin_delete
  admin_delete-IsConsistent h =
      rw (finish-rows (transact env (admin_delete_body env id.value) db)) (
        transact_keeps IsConsistent env (admin_delete_body env id.value) db h λ key db' r.
          Deletes-IsConsistent id.value db db' h
            (admin_delete_body-Deletes env id.value db db' key r))
