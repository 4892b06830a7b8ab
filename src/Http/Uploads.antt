-- ===== src/Http/Uploads.antt =====
-- createFile of internal/httpapi, with multipartError and StageFile of internal/share/service.go.
use u_paste.Prelude.{
  ℕ, Bool, true, false, ◌||◌, not, Option, none, some, List, [], ◌∷◌, ltb, if◌then◌else◌, Bytes,
  codes, bytes_eq, length, Result, ok, err, ◌>>=◌, ◌>>◌, require, refuse, or_fail,
}
use u_paste.Domain.{
  PayloadKind, text, file, PrivacyMode, standard, encrypted, parse_payload_kind, parse_privacy_mode,
}
use u_paste.Database.{Db}
use u_paste.Abuse.{Control, try_upload, release_upload}
use u_paste.ObjectStore.{Staged}
use u_paste.Share.{Env}
use u_paste.Share.Files.{create_file}
use u_paste.Http.{
  Response, write_error, bad_request, too_large, internal, unsupported_share, rate_limited_response,
  service_error,
}
use u_paste.Http.Requests.{
  Request, UploadError, over_limit, object_too_large, object_empty, failed, Part, NextPart, part,
  stopped, MediaType, Server,
}
use u_paste.Http.Headers.{is_json_media_type}
use u_paste.Http.Bodies.{FileMetadataRequest, unmarshal_metadata}
use u_paste.Http.Filenames.{sanitize_filename}
use u_paste.Http.Shares.{created_response}

abbrev pub max_file_wire_bytes : ℕ
max_file_wire_bytes = 69206016

abbrev pub max_file_metadata_bytes : ℕ
max_file_metadata_bytes = 65536

unfoldable pub multipart_error : UploadError → Response
unfolding write_error
multipart_error over_limit = too_large
multipart_error object_too_large = too_large
multipart_error object_empty = bad_request
multipart_error failed = internal

-- What the loop over the parts has read.
pub record Form : Type 0 where
  pub metadata : Option Bytes
  pub filename : Bytes
  pub staged : Option Staged

abbrev pub empty_form : Form
empty_form = record { metadata = none; filename = []; staged = none }

-- FILE and STANDARD only.
abbrev pub require_standard_file : PayloadKind → PrivacyMode → Result Response (Unit {0})
require_standard_file file standard = ok tt
require_standard_file file encrypted = err unsupported_share
require_standard_file text privacy = err bad_request

abbrev pub expiration_of : FileMetadataRequest → Result Response (Option ℕ)
unfolding write_error parse_payload_kind parse_privacy_mode
expiration_of request = do
  payload_kind ← or_fail request.payload_kind bad_request
  privacy_mode ← or_fail request.privacy_mode bad_request
  require request.expires_at.set bad_request
  kind ← or_fail (parse_payload_kind payload_kind) bad_request
  privacy ← or_fail (parse_privacy_mode privacy_mode) bad_request
  require_standard_file kind privacy
  ok request.expires_at.value

module _ (server : Server) where
  -- io.ReadAll of at most one byte more than is allowed.
  unfoldable pub read_metadata : Part → Result Response Bytes
  unfolding multipart_error write_error
  read_metadata p =
      if ltb max_file_metadata_bytes (length p.content)
      then err too_large
      else elim p.read_error [ none ↦ ok p.content | some e ↦ err (multipart_error e) ]

  abbrev has_metadata : Form → Bool
  has_metadata form = elim form.metadata [ none ↦ false | some _ ↦ true ]

  abbrev has_staged : Form → Bool
  has_staged form = elim form.staged [ none ↦ false | some _ ↦ true ]

  -- Whether the loop goes on, and what it has read.
  unfoldable pub take_metadata : Part → MediaType → Form → Result Response (Unit {0}) × Form
  unfolding is_json_media_type read_metadata bytes_eq write_error
  take_metadata p disposition form =
      if has_metadata form
        || not (bytes_eq (disposition.parameter (codes "filename")) [])
        || not (is_json_media_type server p.content_type)
      then (err bad_request, form)
      else elim (read_metadata p) [
        | err response ↦ (err response, form)
        | ok metadata ↦ (ok tt, record form { metadata = some metadata })
      ]

  -- StageFile of the Share service.
  unfoldable pub stage_file :
      Env → Part → server.store.State → Result UploadError Staged × server.store.State
  stage_file env p objects =
      if env.has_store then server.stage p.content p.read_error objects else (err failed, objects)

  unfoldable pub take_file :
      Env
      → Part
      → MediaType
      → Form
      → server.store.State
      → Result Response (Unit {0}) × Form × server.store.State
  unfolding sanitize_filename stage_file multipart_error bytes_eq write_error
  take_file env p disposition form objects =
      if has_staged form || bytes_eq (disposition.parameter (codes "filename")) []
      then (err bad_request, form, objects)
      else elim (sanitize_filename (disposition.parameter (codes "filename"))) [
        | none ↦ (err bad_request, form, objects)
        | some filename ↦
            let (result, objects') = stage_file env p objects in
            elim result [
              | err e ↦ (err (multipart_error e), form, objects')
              | ok staged ↦
                  (ok tt, record form { filename = filename; staged = some staged }, objects')
            ]
      ]

  unfoldable pub take_part :
      Env
      → Part
      → Form
      → server.store.State
      → Result Response (Unit {0}) × Form × server.store.State
  unfolding take_metadata take_file bytes_eq write_error
  take_part env p form objects = elim (server.parse_media_type p.disposition) [
    | none ↦ (err bad_request, form, objects)
    | some disposition ↦
        let name = disposition.parameter (codes "name") in
        if not (bytes_eq disposition.name (codes "form-data")) || bytes_eq name []
        then (err bad_request, form, objects)
        else if bytes_eq name (codes "metadata")
        then ((take_metadata p disposition form).0, (take_metadata p disposition form).1, objects)
        else if bytes_eq name (codes "file")
        then take_file env p disposition form objects
        else (err bad_request, form, objects)
  ]

  -- The loop over NextPart.
  unfoldable pub take_parts :
      Env
      → List NextPart
      → Form
      → server.store.State
      → Result Response (Unit {0}) × Form × server.store.State
  unfolding take_part multipart_error
  take_parts env [] form objects = (ok tt, form, objects)
  take_parts env (stopped e ∷ parts) form objects = (err (multipart_error e), form, objects)
  take_parts env (part p ∷ parts) form objects =
      let (going, form', objects') = take_part env p form objects in
      let rest = take_parts env parts form' objects' in
      elim going [ ok _ ↦ rest | err response ↦ (err response, form', objects') ]

  -- The filename, the stage and the expiration to create the Share with.
  unfoldable pub check_form : Form → Result Response (Bytes × Staged × Option ℕ)
  unfolding unmarshal_metadata write_error
  check_form form = do
    metadata ← or_fail form.metadata bad_request
    staged ← or_fail form.staged bad_request
    request ← or_fail (unmarshal_metadata server metadata) bad_request
    expiration ← expiration_of request
    ok (form.filename, staged, expiration)

  -- The deferred Abort.
  unfoldable pub abort_staged : Option Staged → server.store.State → server.store.State
  abort_staged none objects = objects
  abort_staged (some staged) objects = server.store.abort staged objects

  unfoldable pub create_uploaded :
      Env → Bytes → Staged → Option ℕ → Db → server.store.State → Response × Db × server.store.State
  unfolding create_file created_response service_error abort_staged
  create_uploaded env filename staged expiration db objects =
      let (result, db', objects') =
        create_file server.store env filename (some staged) expiration db objects in
      elim result [
        | ok (value, token) ↦ (created_response server value token, db', objects')
        | err e ↦ (service_error e, db', abort_staged (some staged) objects')
      ]

  unfoldable pub upload_parts :
      Env → List NextPart → Db → server.store.State → Response × Db × server.store.State
  unfolding take_parts check_form create_uploaded abort_staged
  upload_parts env parts db objects =
      let (going, form, objects') = take_parts env parts empty_form objects in
      elim (going >> check_form form) [
        | err response ↦ (response, db, abort_staged form.staged objects')
        | ok (filename, staged, expiration) ↦
            create_uploaded env filename staged expiration db objects'
      ]

  -- What is checked before the parts are read.
  unfoldable pub open_multipart : Request → Result Response (List NextPart)
  unfolding write_error
  open_multipart r = do
    require r.deadlines internal
    refuse (ltb max_file_wire_bytes r.content_length) too_large
    or_fail r.multipart bad_request

  unfoldable pub upload :
      Env → Request → Db → server.store.State → Response × Db × server.store.State
  unfolding open_multipart upload_parts
  upload env r db objects = elim (open_multipart r) [
    | err response ↦ (response, db, objects)
    | ok parts ↦ upload_parts env parts db objects
  ]

  -- The deferred ReleaseUpload; it never waits, since the handler holds a slot.
  unfoldable pub after_release : Control server.rate → Control server.rate
  unfolding release_upload
  after_release control = elim (release_upload server.rate control) [
    | none ↦ control
    | some released ↦ released
  ]

  unfoldable pub create_file_share :
      Env
      → Request
      → Control server.rate
      → Db
      → server.store.State
      → Response × Control server.rate × Db × server.store.State
  unfolding try_upload upload after_release rate_limited_response
  create_file_share env r control db objects =
      let (granted, held) = try_upload server.rate control in
      let (response, db', objects') = upload env r db objects in
      if granted
      then (response, after_release held, db', objects')
      else (rate_limited_response 1, held, db, objects)
