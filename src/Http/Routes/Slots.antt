-- ===== src/Http/Routes/Slots.antt =====
-- The upload slots that requests hold.
use u_paste.Prelude.{
  ◌≡◌, refl, ◌∙◌, sym, inl, inr, arith, [], Bool-cases, Result-cases, bytes_eq, codes, ◌>>◌,
}
use u_paste.Database.{Db}
use u_paste.Abuse
use u_paste.Abuse.{Control, Kind, try_upload, release_upload, allow}
use u_paste.Abuse.ClientIp.{client_ip, rate_key}
use u_paste.Abuse.Gates.{allow_gates}
use u_paste.Share.{Env}
use u_paste.Http.Texts.{equal_fold}
use u_paste.Http.Requests.{Request, MediaType, Server}
use u_paste.Http.Headers.{require_challenge, require_identity_encoding, media_type}
use u_paste.Http.Shares.{read, patch, delete_share}
use u_paste.Http.Uploads.{after_release, create_file_share}
use u_paste.Http.Routes.{
  World, with_db, allowed, create_by_type, create_share, collection, item, route,
}
use u_paste.Http.Routes.Cases.{
  is_get, is_post, is_patch, is_delete, is_other, Method-cases, item_with_cases, raw_cases,
  route_cases,
}

module _ (server : Server) (env : Env) where
  create_file_share-uploads :
      (r : Request) (control : Control server.rate) (db : Db) (objects : server.store.State)
      → (create_file_share server env r control db objects).1.uploads ≡ control.uploads
  unfolding create_file_share try_upload after_release release_upload
  create_file_share-uploads r control db objects = ground arith

  allowed-uploads :
      (kind : Kind) (r : Request) (world : World server)
      → (allowed server env kind r world).1.control.uploads ≡ world.control.uploads
  unfolding allowed
  allowed-uploads kind r world =
      let client = client_ip server.net r.remote_addr r.forwarded_for server.trusted in
      sym (allow_gates server.rate kind env.clock (rate_key server.net client) world.control).1

  create_by_type-uploads :
      (r : Request) (found : MediaType) (world : World server)
      → (create_by_type server env r found world).1.control.uploads ≡ world.control.uploads
  unfolding create_by_type
  create_by_type-uploads r found world =
      elim (Bool-cases (equal_fold found.name (codes "application/json"))) [
        | inl j ↦ rw (j, create_by_type) refl
        | inr j ↦ elim (Bool-cases (equal_fold found.name (codes "multipart/form-data"))) [
          | inr m ↦ rw (j, m, create_by_type) refl
          | inl m ↦ elim (Bool-cases (bytes_eq (found.parameter (codes "boundary")) [])) [
            | inl b ↦ rw (j, m, b, create_by_type) refl
            | inr b ↦
                rw (j, m, b, create_by_type)
                  (create_file_share-uploads r world.control world.db world.objects)
          ]
        ]
      ]

  create_share-uploads :
      (r : Request) (world : World server)
      → (create_share server env r world).1.control.uploads ≡ world.control.uploads
  unfolding create_share
  create_share-uploads r world =
      elim (Result-cases (
        require_challenge server r
        >> (require_identity_encoding r.content_encoding >> media_type server r.content_type))) [
          | inr (response, q) ↦ rw (q, create_share) refl
          | inl (found, q) ↦ rw (q, create_share) (create_by_type-uploads r found world)
        ]

  collection-uploads :
      (r : Request) (world : World server)
      → (collection server env r world).1.control.uploads ≡ world.control.uploads
  unfolding collection
  collection-uploads r world = elim (Method-cases r.method) [
    | is_post q ↦
        let admitted = allowed server env u_paste.Abuse.create r world in
        elim (Bool-cases admitted.0) [
          | inr a ↦ rw (q, a, collection) (allowed-uploads u_paste.Abuse.create r world)
          | inl a ↦
              rw (q, a, collection)
                (create_share-uploads r admitted.1 ∙ allowed-uploads u_paste.Abuse.create r world)
        ]
    | is_get q ↦ rw (q, collection) refl
    | is_patch q ↦ rw (q, collection) refl
    | is_delete q ↦ rw (q, collection) refl
    | is_other q ↦ rw (q, collection) refl
  ]

module _ (server : Server) (env : Env) (r : Request) (world : World server) where
  SameUploads : World server → Type 0
  SameUploads after = after.control.uploads ≡ world.control.uploads

  item-uploads : (later : Env) → SameUploads (item server env later r world).1
  unfolding item SameUploads
  item-uploads later = elim (Method-cases r.method) [
    | is_get q ↦
        rw (q, item)
          (item_with_cases server env SameUploads u_paste.Abuse.read r world
            (λ id admitted. (read server env id admitted.db, admitted))
            (allowed-uploads server env u_paste.Abuse.read r world)
            λ id n. allowed-uploads server env u_paste.Abuse.read r world)
    | is_patch q ↦
        rw (q, item)
          (item_with_cases server env SameUploads u_paste.Abuse.mutation r world
            (λ id admitted. with_db server admitted (patch server env later r id admitted.db))
            (allowed-uploads server env u_paste.Abuse.mutation r world)
            λ id n. allowed-uploads server env u_paste.Abuse.mutation r world)
    | is_delete q ↦
        rw (q, item)
          (item_with_cases server env SameUploads u_paste.Abuse.mutation r world
            (λ id admitted.
              let (response, db, objects) =
                delete_share server env r id admitted.db admitted.objects in
              (response, record { control = admitted.control; db = db; objects = objects }))
            (allowed-uploads server env u_paste.Abuse.mutation r world)
            λ id n. allowed-uploads server env u_paste.Abuse.mutation r world)
    | is_post q ↦ rw (q, item) refl
    | is_other q ↦ rw (q, item) refl
  ]

  -- Whatever a request asks and whatever fails, as many upload slots are held after it as before it:
  -- a slot that was taken is given back, and the release does not wait.
  pub route-uploads :
      (later : Env) → (route server env later r world).1.control.uploads ≡ world.control.uploads
  unfolding SameUploads
  route-uploads later =
      route_cases server env later r world SameUploads refl (collection-uploads server env r world)
        (item-uploads later)
        (raw_cases server env SameUploads r world refl
          (allowed-uploads server env u_paste.Abuse.read r world))
