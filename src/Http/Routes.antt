-- ===== src/Http/Routes.antt =====
-- The handlers create, collection, item, raw, apiNotFound and publicConfig of internal/httpapi, its
-- route and securityHeaders.
pub mod Cases
pub mod Invariants
pub mod Reads
pub mod Slots
pub mod Challenged
use u_paste.Prelude.{
  ℕ, ◌/◌, Bool, true, false, ◌&&◌, ◌||◌, not, Option, none, some, List, [], ◌∷◌, ◌++◌,
  if◌then◌else◌, Bytes, codes, bytes_eq, Result, ok, err, ◌>>=◌, ◌>>◌,
}
use u_paste.Capability.{ShareId, parse_share_id}
use u_paste.Database.{Db}
use u_paste.Abuse.{Control, Kind}
use u_paste.Abuse
use u_paste.Abuse.ClientIp.{Net, client_ip, rate_key}
use u_paste.Share.{Env}
use u_paste.Http.{
  Method, get, post, patch, delete, other, Header, no_store, nosniff, plain_content, no_referrer,
  frame_deny, sandbox_policy, Response, PublicConfig, RetentionConfig, config, refusal, allow,
  write_json, write_error, bad_request, share_not_found, unsupported_media, rate_limited_response,
  method_not_allowed,
}
use u_paste.Http.Texts.{equal_fold, has_prefix, trim_prefix, contains_byte}
use u_paste.Http.Requests.{Request, MediaType, Server}
use u_paste.Http.Headers.{media_type, require_identity_encoding, require_challenge}
use u_paste.Http.Shares.{create_json, read, delete_share, raw_share}
use u_paste.Http.Shares
use u_paste.Http.Uploads.{create_file_share}

abbrev pub shares_path : Bytes
shares_path = codes "/api/v1/shares/"

abbrev pub raw_path : Bytes
raw_path = codes "/raw/"

-- The Share ID that follows a prefix of the path.
unfoldable pub path_id : Bytes → Bytes → Option ShareId
unfolding trim_prefix contains_byte bytes_eq parse_share_id
path_id prefix path =
    let value = trim_prefix path prefix in
    if bytes_eq value [] || contains_byte value b'/'
    then none
    else elim (parse_share_id value) [ ok id ↦ some id | err _ ↦ none ]

unfoldable pub security_headers : Bytes → List Header
unfolding has_prefix bytes_eq
security_headers path =
    (if has_prefix path (codes "/api/v1/") then no_store ∷ nosniff ∷ [] else [])
    ++ (if bytes_eq path (codes "/raw") || has_prefix path raw_path
        then plain_content ∷ nosniff ∷ no_store ∷ no_referrer ∷ frame_deny ∷ sandbox_policy ∷ []
        else [])

abbrev pub http_refusal : ℕ → Response
http_refusal status = record { status = status; headers = []; reply = refusal }

module _ (server : Server) where
  -- What the handlers share.
  pub record World : Type 0 where
    pub control : Control server.rate
    pub db : Db
    pub objects : server.store.State

  abbrev pub with_db : World → Response × Db → Response × World
  with_db world (response, db) =
      (response, record { control = world.control; db = db; objects = world.objects })

  unfoldable pub public_config : Request → Response
  unfolding write_json method_not_allowed bytes_eq
  public_config r = elim r.method [
    | get ↦
        let options = server.options in
        let challenge = options.challenge_config in
        write_json 200 [] (
          config (record {
            deployment_mode = if options.public then codes "public" else codes "private";
            admin_enabled = options.admin_enabled;
            retention =
                if options.public
                then some (record {
                  default_seconds = options.public_default_ttl / 1000000000;
                  max_seconds = options.public_max_ttl / 1000000000;
                })
                else none;
            challenge =
                if options.public && not (bytes_eq challenge.provider [])
                then some challenge
                else none;
          }))
    | _ ↦ method_not_allowed (get ∷ [])
  ]

  -- The answer of abuse.Allow for the client, and what it leaves.
  unfoldable pub allowed : Env → Kind → Request → World → Bool × World
  unfolding u_paste.Abuse.allow client_ip rate_key
  allowed env kind r world =
      let client = client_ip server.net r.remote_addr r.forwarded_for server.trusted in
      let (granted, control) =
        u_paste.Abuse.allow server.rate kind env.clock (rate_key server.net client) world.control in
      (granted, record { control = control; db = world.db; objects = world.objects })

  unfoldable pub create_by_type : Env → Request → MediaType → World → Response × World
  unfolding equal_fold create_json create_file_share write_error bytes_eq
  create_by_type env r found world =
      if equal_fold found.name (codes "application/json")
      then with_db world (create_json server env r world.db)
      else if equal_fold found.name (codes "multipart/form-data")
      then (if bytes_eq (found.parameter (codes "boundary")) []
          then (bad_request, world)
          else (let (response, control, db, objects) =
                create_file_share server env r world.control world.db world.objects in
              (response, record { control = control; db = db; objects = objects })))
      else (unsupported_media, world)

  unfoldable pub create_share : Env → Request → World → Response × World
  unfolding require_challenge require_identity_encoding media_type create_by_type
  create_share env r world =
      elim (require_challenge server r
        >> (require_identity_encoding r.content_encoding >> media_type server r.content_type)) [
          | err response ↦ (response, world)
          | ok found ↦ create_by_type env r found world
        ]

  unfoldable pub collection : Env → Request → World → Response × World
  unfolding allowed create_share method_not_allowed rate_limited_response
  collection env r world = elim r.method [
    | post ↦
        let (granted, admitted) = allowed env u_paste.Abuse.create r world in
        if granted then create_share env r admitted else (rate_limited_response 60, admitted)
    | _ ↦ (method_not_allowed (post ∷ []), world)
  ]

  -- A request on one Share, once its method is served.
  unfoldable pub item_with :
      Env → Kind → Request → World → (ShareId → World → Response × World) → Response × World
  unfolding allowed path_id rate_limited_response write_error
  item_with env kind r world handle =
      let (granted, admitted) = allowed env kind r world in
      if not granted
      then (rate_limited_response 60, admitted)
      else elim (path_id shares_path r.path) [
        | none ↦ (share_not_found, admitted)
        | some id ↦ handle id admitted
      ]

  unfoldable pub item : Env → Env → Request → World → Response × World
  unfolding item_with read u_paste.Http.Shares.patch delete_share method_not_allowed
  item env later r world = elim r.method [
    | get ↦
        item_with env u_paste.Abuse.read r world
          (λ id admitted. (read server env id admitted.db, admitted))
    | patch ↦ item_with env u_paste.Abuse.mutation r world (λ id admitted.
        with_db admitted (u_paste.Http.Shares.patch server env later r id admitted.db))
    | delete ↦ item_with env u_paste.Abuse.mutation r world (λ id admitted.
        let (response, db, objects) = delete_share server env r id admitted.db admitted.objects in
        (response, record { control = admitted.control; db = db; objects = objects }))
    | _ ↦ (method_not_allowed (get ∷ patch ∷ delete ∷ []), world)
  ]

  unfoldable pub raw : Env → Request → World → Response × World
  unfolding allowed path_id raw_share rate_limited_response
  raw env r world = elim r.method [
    | get ↦
        let (granted, admitted) = allowed env u_paste.Abuse.read r world in
        if not granted
        then (rate_limited_response 60, admitted)
        else elim (path_id raw_path r.path) [
          | none ↦ (http_refusal 404, admitted)
          | some id ↦ (raw_share server env id admitted.db, admitted)
        ]
    | _ ↦ (record { status = 405; headers = allow (get ∷ []) ∷ []; reply = refusal }, world)
  ]

  unfoldable pub dispatch : Env → Env → Request → World → Response × World
  unfolding bytes_eq has_prefix public_config collection item raw write_error
  dispatch env later r world =
      if bytes_eq r.path (codes "/api/v1/config")
      then (public_config r, world)
      else if bytes_eq r.path (codes "/api/v1/shares")
      then collection env r world
      else if has_prefix r.path shares_path
      then item env later r world
      else if has_prefix r.path (codes "/api/v1/")
      then (share_not_found, world)
      else if bytes_eq r.path (codes "/raw") || has_prefix r.path raw_path
      then raw env r world
      else (http_refusal 404, world)

  unfoldable pub route : Env → Env → Request → World → Response × World
  unfolding dispatch security_headers
  route env later r world =
      let (response, after) = dispatch env later r world in
      (record response { headers = security_headers r.path ++ response.headers }, after)
