-- ===== src/Http/Routes/Invariants.antt =====
-- What a request may change.
use u_paste.Prelude.{
  ℕ, inl, inr, Option, some, [], Bool-cases, Result-cases, Bytes, bytes_eq, codes, ◌>>=◌, ◌>>◌,
}
use u_paste.Capability.{ShareId, share_id_bytes}
use u_paste.Database.{Db}
use u_paste.Abuse
use u_paste.Abuse.{Control, Kind, allow, try_upload}
use u_paste.Share.Files.{create_file}
use u_paste.ObjectStore.{Staged}
use u_paste.Share.{Env}
use u_paste.Share.Owner.{authorize_owner}
use u_paste.Share.Consistent.{IsConsistent}
use u_paste.Share.Consistent.Creates.{IsRandom, create-IsConsistent, create_encrypted-IsConsistent}
use u_paste.Share.Consistent.Updates.{update-IsConsistent}
use u_paste.Share.Consistent.Deletes.{delete-IsConsistent}
use u_paste.Share.Consistent.Files.{create_file-IsConsistent}
use u_paste.Http.Texts.{equal_fold}
use u_paste.Http.Requests.{Request, MediaType, Server}
use u_paste.Http.Headers.{authorization, require_challenge, require_identity_encoding, media_type}
use u_paste.Http.Bodies.{decode_json, unmarshal_create}
use u_paste.Http.Shares.{
  NewShare, plain_share, encrypted_share, call_create, check_create, create_json, read, patch,
  read_patch, delete_share,
}
use u_paste.Http.Uploads.{
  empty_form, take_parts, check_form, create_uploaded, upload_parts, open_multipart, upload,
  create_file_share,
}
use u_paste.Http.Routes.Cases.{
  is_get, is_post, is_patch, is_delete, is_other, Method-cases, item_with_cases, raw_cases,
  route_cases,
}
use u_paste.Http.Routes.{
  World, with_db, allowed, create_by_type, create_share, collection, item_with, item, route,
}

module _ (server : Server) (env : Env) (random : IsRandom share_id_bytes env.random_id) where
  call_create-IsConsistent :
      (input : NewShare) (db : Db) → IsConsistent db → IsConsistent (call_create env input db).1
  unfolding call_create
  call_create-IsConsistent (plain_share input) db h = create-IsConsistent env random input db h
  call_create-IsConsistent (encrypted_share input) db h =
      create_encrypted-IsConsistent env random input db h

  create_json-IsConsistent :
      (r : Request) (db : Db) → IsConsistent db → IsConsistent (create_json server env r db).1
  unfolding create_json
  create_json-IsConsistent r db h =
      elim (Result-cases (decode_json (unmarshal_create server) r >>= check_create)) [
        | inl (input, q) ↦ rw (q, create_json) (call_create-IsConsistent input db h)
        | inr (response, q) ↦ rw (q, create_json) h
      ]

  create_uploaded-IsConsistent :
      (filename : Bytes) (staged : Staged) (expiration : Option ℕ) (db : Db)
      (objects : server.store.State)
      → IsConsistent db
      → IsConsistent (create_uploaded server env filename staged expiration db objects).1
  unfolding create_uploaded
  create_uploaded-IsConsistent filename staged expiration db objects h =
      let made = create_file server.store env filename (some staged) expiration db objects in
      let kept =
        create_file-IsConsistent server.store env random filename (some staged) expiration db
          objects h in
      elim (Result-cases made.0) [
        | inl ((value, token), q) ↦ rw (q, create_uploaded) kept
        | inr (e, q) ↦ rw (q, create_uploaded) kept
      ]

  upload-IsConsistent :
      (r : Request) (db : Db) (objects : server.store.State)
      → IsConsistent db
      → IsConsistent (upload server env r db objects).1
  unfolding upload upload_parts
  upload-IsConsistent r db objects h = elim (Result-cases (open_multipart server r)) [
    | inr (response, q) ↦ rw (q, upload) h
    | inl (parts, q) ↦
        let taken = take_parts server env parts empty_form objects in
        elim (Result-cases (taken.0 >> check_form server taken.1)) [
          | inr (response, c) ↦ rw (q, c, upload, upload_parts) h
          | inl (form, c) ↦
              rw (q, c, upload, upload_parts)
                (create_uploaded-IsConsistent form.0 form.1 form.2 db taken.2 h)
        ]
  ]

  create_file_share-IsConsistent :
      (r : Request) (control : Control server.rate) (db : Db) (objects : server.store.State)
      → IsConsistent db
      → IsConsistent (create_file_share server env r control db objects).2
  unfolding create_file_share
  create_file_share-IsConsistent r control db objects h =
      elim (Bool-cases (try_upload server.rate control).0) [
        | inl q ↦ rw (q, create_file_share) (upload-IsConsistent r db objects h)
        | inr q ↦ rw (q, create_file_share) h
      ]

module _ (server : Server) (env : Env) where
  patch-IsConsistent :
      (later : Env) (r : Request) (id : ShareId) (db : Db)
      → IsConsistent db
      → IsConsistent (patch server env later r id db).1
  unfolding patch
  patch-IsConsistent later r id db h = elim (Result-cases (authorization r.authorization)) [
    | inr (response, q) ↦ rw (q, patch) h
    | inl (candidate, q) ↦ elim (Result-cases (authorize_owner env db id candidate)) [
      | inr (e, a) ↦ rw (q, a, patch) h
      | inl ((kind, privacy), a) ↦ elim (Result-cases (read_patch server r kind privacy)) [
        | inr (response, c) ↦ rw (q, a, c, patch) h
        | inl (change, c) ↦ rw (q, a, c, patch) (update-IsConsistent later id candidate change db h)
      ]
    ]
  ]

  delete_share-IsConsistent :
      (r : Request) (id : ShareId) (db : Db) (objects : server.store.State)
      → IsConsistent db
      → IsConsistent (delete_share server env r id db objects).1
  unfolding delete_share
  delete_share-IsConsistent r id db objects h =
      elim (Result-cases (authorization r.authorization)) [
        | inr (response, q) ↦ rw (q, delete_share) h
        | inl (candidate, q) ↦
            rw (q, delete_share) (delete-IsConsistent server.store env id db objects candidate h)
      ]

  RowsFit : World server → Type 0
  RowsFit world = IsConsistent world.db

  item-IsConsistent :
      (later : Env) (r : Request) (world : World server)
      → IsConsistent world.db
      → IsConsistent (item server env later r world).1.db
  unfolding item item_with allowed RowsFit
  item-IsConsistent later r world h = elim (Method-cases r.method) [
    | is_get q ↦
        rw (q, item)
          (item_with_cases server env RowsFit u_paste.Abuse.read r world
            (λ id admitted. (read server env id admitted.db, admitted)) h λ id n. h)
    | is_patch q ↦
        rw (q, item)
          (item_with_cases server env RowsFit u_paste.Abuse.mutation r world
            (λ id admitted. with_db server admitted (patch server env later r id admitted.db)) h
            λ id n. patch-IsConsistent later r id world.db h)
    | is_delete q ↦
        rw (q, item)
          (item_with_cases server env RowsFit u_paste.Abuse.mutation r world
            (λ id admitted.
              let (response, db, objects) =
                delete_share server env r id admitted.db admitted.objects in
              (response, record { control = admitted.control; db = db; objects = objects }))
            h λ id n. delete_share-IsConsistent r id world.db world.objects h)
    | is_post q ↦ rw (q, item) h
    | is_other q ↦ rw (q, item) h
  ]

module _ (server : Server) (env : Env) (random : IsRandom share_id_bytes env.random_id) where
  create_by_type-IsConsistent :
      (r : Request) (found : MediaType) (world : World server)
      → IsConsistent world.db
      → IsConsistent (create_by_type server env r found world).1.db
  unfolding create_by_type
  create_by_type-IsConsistent r found world h =
      elim (Bool-cases (equal_fold found.name (codes "application/json"))) [
        | inl j ↦ rw (j, create_by_type) (create_json-IsConsistent server env random r world.db h)
        | inr j ↦ elim (Bool-cases (equal_fold found.name (codes "multipart/form-data"))) [
          | inr m ↦ rw (j, m, create_by_type) h
          | inl m ↦ elim (Bool-cases (bytes_eq (found.parameter (codes "boundary")) [])) [
            | inl b ↦ rw (j, m, b, create_by_type) h
            | inr b ↦
                rw (j, m, b, create_by_type)
                  (create_file_share-IsConsistent server env random r world.control world.db
                    world.objects h)
          ]
        ]
      ]

  create_share-IsConsistent :
      (r : Request) (world : World server)
      → IsConsistent world.db
      → IsConsistent (create_share server env r world).1.db
  unfolding create_share
  create_share-IsConsistent r world h =
      elim (Result-cases (
        require_challenge server r
        >> (require_identity_encoding r.content_encoding >> media_type server r.content_type))) [
          | inr (response, q) ↦ rw (q, create_share) h
          | inl (found, q) ↦ rw (q, create_share) (create_by_type-IsConsistent r found world h)
        ]

  collection-IsConsistent :
      (r : Request) (world : World server)
      → IsConsistent world.db
      → IsConsistent (collection server env r world).1.db
  unfolding collection allowed
  collection-IsConsistent r world h = elim (Method-cases r.method) [
    | is_post q ↦
        let admitted = allowed server env u_paste.Abuse.create r world in
        elim (Bool-cases admitted.0) [
          | inr a ↦ rw (q, a, collection) h
          | inl a ↦ rw (q, a, collection) (create_share-IsConsistent r admitted.1 h)
        ]
    | is_get q ↦ rw (q, collection) h
    | is_patch q ↦ rw (q, collection) h
    | is_delete q ↦ rw (q, collection) h
    | is_other q ↦ rw (q, collection) h
  ]

  -- If the database is consistent, so it is after any request, whatever it is answered, if rand
  -- gives sixteen bytes for a Share ID or fails.
  pub route-IsConsistent :
      (later : Env) (r : Request) (world : World server)
      → IsConsistent world.db
      → IsConsistent (route server env later r world).1.db
  unfolding RowsFit allowed
  route-IsConsistent later r world h =
      route_cases server env later r world (RowsFit server env) h
        (collection-IsConsistent r world h) (item-IsConsistent server env later r world h)
        (raw_cases server env (RowsFit server env) r world h h)
