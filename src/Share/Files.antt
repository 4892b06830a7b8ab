-- ===== src/Share/Files.antt =====
-- CreateFile and OpenFile of internal/share/service.go. The object is finalised inside the
-- transaction; on any later failure the deferred calls delete it again and abort the stage.
use u_paste.Prelude.{
  ℕ, Option, none, some, Bytes, Result, ok, err, ◌>>=◌, ◌>>◌, require, or_fail, if◌then◌else◌,
}
use u_paste.Domain.{file, standard}
use u_paste.Capability.{ShareId, OwnerToken, generate_share_id, generate_owner_token, verifier}
use u_paste.Database.{Db, FileRow}
use u_paste.Database.Statements.{insert_file}
use u_paste.ObjectStore.{Store, Staged}
use u_paste.Share.{
  Share, File, Env, Error, insert_payload, not_found, database, storage, storage_unavailable,
  server_now, normalize_expiration,
}
use u_paste.Share.Create.{insert_metadata_row, or_no_randomness, get}
use u_paste.Share.Transactions.{execute}

-- The File, the Share and the token of CreateFile, before anything is written.
unfoldable pub file_of : Env → Bytes → Staged → File
file_of env filename staged = record {
  storage_key = staged.key;
  filename = filename;
  size = staged.size;
  media_type = env.detect_content_type staged.sniff;
  sha256 = staged.sha256;
}

unfoldable pub file_draft : Env → File → Option ℕ → Result Error (Share × OwnerToken)
unfolding server_now normalize_expiration generate_share_id generate_owner_token
file_draft env value expiration = do
  let now = server_now env
  expires_at ← normalize_expiration env.retention_policy expiration now
  id ← or_no_randomness (generate_share_id env.random_id)
  token ← or_no_randomness (generate_owner_token env.random_token)
  ok (
    record {
      id = id;
      payload_kind = file;
      privacy_mode = standard;
      text = none;
      encrypted_text = none;
      file = some value;
      created_at = now;
      updated_at = now;
      expires_at = expires_at;
    },
    token,
  )

abbrev pub file_row : File → FileRow
file_row value = record {
  storage_key = value.storage_key;
  original_filename = value.filename;
  size_bytes = value.size;
  detected_media_type = value.media_type;
  content_sha256 = value.sha256;
}

-- The insertion of the payload row and the commit, once the object is final.
unfoldable pub record_file : Env → Bytes → File → Db → Result Error Db
unfolding execute insert_file
record_file env id value db = do
  db' ← execute env insert_payload (insert_file id (file_row value) db)
  require env.commits database
  ok db'

module _ (store : Store) where
  -- From BeginTx to Commit: the rows to keep, or an error; what happened to the objects stays.
  unfoldable pub file_transaction :
      Env → Share → File → Bytes → Staged → Db → store.State → Result Error Db × store.State
  unfolding insert_metadata_row record_file
  file_transaction env share value owner_verifier staged db objects =
      elim (require env.begins database >> insert_metadata_row env share owner_verifier db) [
        | err e ↦ (err e, objects)
        | ok with_share ↦
            let (done, objects') = store.commit staged objects in
            (
              if done then record_file env share.id.value value with_share else err storage,
              objects',
            )
      ]

  -- The deferred calls: an uncommitted object is deleted, then the stage is aborted.
  unfoldable pub settle :
      Staged
      → Share × OwnerToken
      → Db
      → Result Error Db × store.State
      → Result Error (Share × OwnerToken) × Db × store.State
  settle staged made db (ok db', objects) = (ok made, db', store.abort staged objects)
  settle staged made db (err e, objects) =
      (err e, db, store.abort staged (store.delete staged.key objects).1)

  unfoldable pub create_staged :
      Env
      → Bytes
      → Staged
      → Option ℕ
      → Db
      → store.State
      → Result Error (Share × OwnerToken) × Db × store.State
  unfolding file_of file_draft file_transaction settle verifier
  create_staged env filename staged expiration db objects =
      elim (file_draft env (file_of env filename staged) expiration) [
        | err e ↦ (err e, db, store.abort staged objects)
        | ok (share, token) ↦
            settle staged (share, token) db
              (file_transaction env share (file_of env filename staged) (verifier env.sha256 token)
                staged db objects)
      ]

  unfoldable pub create_file :
      Env
      → Bytes
      → Option Staged
      → Option ℕ
      → Db
      → store.State
      → Result Error (Share × OwnerToken) × Db × store.State
  unfolding create_staged
  create_file env filename none expiration db objects = (err storage_unavailable, db, objects)
  create_file env filename (some staged) expiration db objects =
      if env.has_store
      then create_staged env filename staged expiration db objects
      else (err storage_unavailable, db, objects)

  -- `value.File == nil || s.store == nil`
  unfoldable pub open_payload :
      Env → Share → Option File → store.State → Result Error (Share × Bytes)
  open_payload env share none objects = err not_found
  open_payload env share (some f) objects = do
    require env.has_store not_found
    body ← or_fail (store.open_object f.storage_key objects) storage
    ok (share, body)

  unfoldable pub open_file : Env → Db → store.State → ShareId → Result Error (Share × Bytes)
  unfolding get open_payload
  open_file env db objects id = do share ← get env db id; open_payload env share share.file objects
