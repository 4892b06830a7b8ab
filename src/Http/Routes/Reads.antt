-- ===== src/Http/Routes/Reads.antt =====
-- Which requests may change a Share.
use u_paste.Prelude.{◌≡◌, ◌≢◌, ◌⊎◌, refl, inl, inr, some, List, arith, Result-cases, Bytes, ok}
use u_paste.Capability.{ShareId}
use u_paste.Database.{Db}
use u_paste.Abuse
use u_paste.Share.{Env, Error, server_now}
use u_paste.Share.Load.{Authorization}
use u_paste.Share.Owner.{authorize, authorize_owner}
use u_paste.Share.Delete.{delete_body, finish}
use u_paste.Share.Delete
use u_paste.Share.Transactions.{transact_outcome}
use u_paste.Share.Authorized.{Authorized, authorize-Authorized}
use u_paste.Http.{get, post}
use u_paste.Http.Requests.{Request, Server}
use u_paste.Http.Headers.{authorization}
use u_paste.Http.Shares.{read, patch, delete_share}
use u_paste.Http.Routes.{
  World, with_db, path_id, shares_path, allowed, collection, item_with, item, route,
}
use u_paste.Http.Routes.Cases.{
  is_get, is_post, is_patch, is_delete, is_other, Method-cases, item_with_cases, raw_cases,
  route_cases,
}

-- The one bearer token of the request opens the live Share that its path names.
pub record Opened (env : Env) (db : Db) (path : Bytes) (headers : List Bytes) : Type 0 where
  pub id : ShareId
  pub candidate : Bytes
  pub found : Authorization
  pub names : path_id shares_path path ≡ some id
  pub bears : authorization headers ≡ ok candidate
  pub opens : Authorized env db id.value candidate (server_now env) found

module _ (server : Server) (env : Env) (r : Request) (world : World server) where
  Same : World server → Type 0
  Same after = (after.db ≡ world.db) × (after.objects ≡ world.objects)

  SameOrOpened : World server → Type 0
  SameOrOpened after = Same after ⊎ Opened env world.db r.path r.authorization

  module _ (id : ShareId) (names : path_id shares_path r.path ≡ some id) where
    patch-SameOrOpened :
        (later : Env)
        → ((patch server env later r id world.db).1 ≡ world.db)
          ⊎ Opened env world.db r.path r.authorization
    unfolding patch authorize_owner
    patch-SameOrOpened later = elim (Result-cases (authorization r.authorization)) [
      | inr (response, q) ↦ inl (rw (q, patch) refl)
      | inl (candidate, q) ↦
          elim (Result-cases (authorize env world.db id.value candidate (server_now env))) [
            | inr (e, a) ↦ inl (rw (q, a, patch, authorize_owner) refl)
            | inl (found, a) ↦ inr (record {
              id = id;
              candidate = candidate;
              found = found;
              names = names;
              bears = q;
              opens = authorize-Authorized env world.db id.value candidate (server_now env) found a;
            })
          ]
    ]

    delete_share-SameOrOpened :
        (((delete_share server env r id world.db world.objects).1 ≡ world.db)
          × ((delete_share server env r id world.db world.objects).2 ≡ world.objects))
        ⊎ Opened env world.db r.path r.authorization
    unfolding delete_share u_paste.Share.Delete.delete delete_body finish
    delete_share-SameOrOpened = elim (Result-cases (authorization r.authorization)) [
      | inr (response, q) ↦ inl (rw (q, delete_share) (refl, refl))
      | inl (candidate, q) ↦
          elim (Result-cases (authorize env world.db id.value candidate (server_now env))) [
            | inl (found, a) ↦ inr (record {
              id = id;
              candidate = candidate;
              found = found;
              names = names;
              bears = q;
              opens = authorize-Authorized env world.db id.value candidate (server_now env) found a;
            })
            | inr (e, a) ↦
                elim (transact_outcome env (delete_body env id.value candidate (server_now env))
                  world.db) [
                    | inl (key, db', b, t) ↦ absurd (ground (arith, a, b))
                    | inr (c, t) ↦
                        inl (
                          rw (q, t, delete_share, u_paste.Share.Delete.delete, finish) (refl, refl))
                  ]
          ]
    ]

  item-SameOrOpened : (later : Env) → SameOrOpened (item server env later r world).1
  unfolding item item_with allowed SameOrOpened Same
  item-SameOrOpened later = elim (Method-cases r.method) [
    | is_get q ↦
        rw (q, item)
          (item_with_cases server env SameOrOpened u_paste.Abuse.read r world
            (λ id admitted. (read server env id admitted.db, admitted)) (inl (refl, refl))
            λ id n. inl (refl, refl))
    | is_patch q ↦
        rw (q, item)
          (item_with_cases server env SameOrOpened u_paste.Abuse.mutation r world
            (λ id admitted. with_db server admitted (patch server env later r id admitted.db))
            (inl (refl, refl))
            λ id n. elim (patch-SameOrOpened id n later) [
              | inl same ↦ inl (same, refl)
              | inr opened ↦ inr opened
            ])
    | is_delete q ↦
        rw (q, item)
          (item_with_cases server env SameOrOpened u_paste.Abuse.mutation r world
            (λ id admitted.
              let (response, db, objects) =
                delete_share server env r id admitted.db admitted.objects in
              (response, record { control = admitted.control; db = db; objects = objects }))
            (inl (refl, refl)) λ id n. delete_share-SameOrOpened id n)
    | is_post q ↦ rw (q, item) (inl (refl, refl))
    | is_other q ↦ rw (q, item) (inl (refl, refl))
  ]

  collection-Same : r.method ≢ post → Same (collection server env r world).1
  unfolding collection Same
  collection-Same other_method = elim (Method-cases r.method) [
    | is_post q ↦ absurd (other_method q)
    | is_get q ↦ rw (q, collection) (refl, refl)
    | is_patch q ↦ rw (q, collection) (refl, refl)
    | is_delete q ↦ rw (q, collection) (refl, refl)
    | is_other q ↦ rw (q, collection) (refl, refl)
  ]

  -- A request that is no POST leaves the rows and the objects as they were, or its one bearer token
  -- opens the live Share that its path names.
  pub route-Opened :
      (later : Env)
      → r.method ≢ post
      → ((route server env later r world).1.db ≡ world.db)
          × ((route server env later r world).1.objects ≡ world.objects)
        ⊎ Opened env world.db r.path r.authorization
  unfolding SameOrOpened Same allowed
  route-Opened later other_method =
      route_cases server env later r world SameOrOpened (inl (refl, refl))
        (inl (collection-Same other_method)) (item-SameOrOpened later)
        (raw_cases server env SameOrOpened r world (inl (refl, refl)) (inl (refl, refl)))

  item-get-Same : (later : Env) → r.method ≡ get → Same (item server env later r world).1
  unfolding item item_with allowed Same
  item-get-Same later q =
      rw (q, item)
        (item_with_cases server env Same u_paste.Abuse.read r world
          (λ id admitted. (read server env id admitted.db, admitted)) (refl, refl)
          λ id n. (refl, refl))

  get-no_post : r.method ≡ get → r.method ≢ post
  get-no_post q p = absurd (ground (arith, q, p))

  -- A GET leaves the rows and the objects as they were, whatever its path and its headers.
  pub route-get :
      (later : Env)
      → r.method ≡ get
      → ((route server env later r world).1.db ≡ world.db)
        × ((route server env later r world).1.objects ≡ world.objects)
  unfolding Same allowed
  route-get later q =
      route_cases server env later r world Same (refl, refl) (collection-Same (get-no_post q))
        (item-get-Same later q) (raw_cases server env Same r world (refl, refl) (refl, refl))
