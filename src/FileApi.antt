-- ===== src/FileApi.antt =====
-- The HTTP interface of files, internal/fileapi/fileapi.go: route with securityHeaders and the two
-- response writers. http.ServeContent, which answers ranges and conditions, is left to Go: `Served`
-- is what it is given. The text of an error is left out.
pub mod Downloads
use u_paste.Prelude.{
  ℕ, Bool, true, false, ◌&&◌, ◌||◌, not, Option, none, some, List, [], ◌∷◌, ◌++◌, if◌then◌else◌,
  Bytes, codes, bytes_eq, Result, ok, err,
}
use u_paste.Capability.{ShareId}
use u_paste.Database.{Db}
use u_paste.Abuse.{Rate, Control, Kind, read, allow, try_download, release_download}
use u_paste.Abuse.ClientIp.{Net, client_ip, rate_key}
use u_paste.ObjectStore.{Store}
use u_paste.ObjectStore.Local.Staging.{hex}
use u_paste.Share.{Share, File, Env, Error}
use u_paste.Share
use u_paste.Share.Files.{open_file}
use u_paste.Http.Texts.{has_prefix}
use u_paste.Http.Routes.{path_id}

pub data Method : Type 0 where
  get head other : Method

-- `deadline` is whether the write deadline could be set or is not supported.
pub record Request : Type 0 where
  pub method : Method
  pub path : Bytes
  pub remote_addr : Bytes
  pub forwarded_for : Bytes
  pub deadline : Bool

pub data Header : Type 0 where
  nosniff no_store no_referrer sandbox_policy frame_deny allow_get_head : Header
  retry_after : ℕ → Header

-- Content-Type, the filename of Content-Disposition, ETag, Content-Length, and the modification time
-- and the content.
pub record Served : Type 0 where
  pub media_type : Bytes
  pub attachment : Bytes
  pub etag : Bytes
  pub content_length : ℕ
  pub modified : ℕ
  pub content : Bytes

pub data Answer : Type 0 where
  refusal : ℕ → Answer
  serve : Served → Answer

-- `discards` is whether the writer of a HEAD drops the body.
pub record Response : Type 0 where
  pub headers : List Header
  pub answer : Answer
  pub discards : Bool

abbrev pub file_path : Bytes
file_path = codes "/f/"

abbrev pub is_file_path : Bytes → Bool
is_file_path path = bytes_eq path (codes "/f") || has_prefix path file_path

abbrev pub security_headers : List Header
security_headers = nosniff ∷ no_store ∷ no_referrer ∷ sandbox_policy ∷ frame_deny ∷ []

abbrev pub is_head : Method → Bool
is_head head = true
is_head get = false
is_head other = false

abbrev pub is_served : Method → Bool
is_served get = true
is_served head = true
is_served other = false

unfoldable pub error_status : Error → ℕ
error_status u_paste.Share.not_found = 404
error_status u_paste.Share.expired = 410
error_status _ = 500

abbrev with_quotes : Bytes → Bytes
with_quotes value = b'"' ∷ (value ++ (b'"' ∷ []))

-- A Share without a File does not come from OpenFile: `value.File` would be nil.
unfoldable pub serve_file : Share → Option File → Bytes → Answer
unfolding hex
serve_file value none content = refusal 500
serve_file value (some file) content = serve (record {
  media_type = file.media_type;
  attachment = file.filename;
  etag = with_quotes (hex file.sha256);
  content_length = file.size;
  modified = value.created_at;
  content = content;
})

module _ (net : Net) (trusted : List net.Prefix) (rate : Rate) (store : Store) where
  -- Once a slot is held.
  unfoldable pub download : Env → Request → Db → store.State → Answer
  unfolding path_id open_file error_status serve_file
  download env r db objects = elim (path_id file_path r.path) [
    | none ↦ refusal 404
    | some id ↦ elim (open_file store env db objects id) [
      | err e ↦ refusal (error_status e)
      | ok (value, content) ↦
          if r.deadline then serve_file value value.file content else refusal 500
    ]
  ]

  -- The deferred ReleaseDownload; it never waits, since the handler holds a slot.
  unfoldable pub after_release : Control rate → Control rate
  unfolding release_download
  after_release control = elim (release_download rate control) [
    | none ↦ control
    | some released ↦ released
  ]

  unfoldable pub download_slot :
      Env → Request → Control rate → Db → store.State → List Header × Answer × Control rate
  unfolding try_download download after_release
  download_slot env r control db objects =
      let (granted, held) = try_download rate control in
      if granted
      then ([], download env r db objects, after_release held)
      else (retry_after 1 ∷ [], refusal 429, held)

  unfoldable pub file_request :
      Env → Request → Control rate → Db → store.State → List Header × Answer × Control rate
  unfolding allow client_ip rate_key download_slot
  file_request env r control db objects =
      if not (is_served r.method)
      then (allow_get_head ∷ [], refusal 405, control)
      else (let client = client_ip net r.remote_addr r.forwarded_for trusted in
          let (granted, admitted) = allow rate read env.clock (rate_key net client) control in
          if granted
          then download_slot env r admitted db objects
          else (retry_after 60 ∷ [], refusal 429, admitted))

  unfoldable pub route : Env → Request → Control rate → Db → store.State → Response × Control rate
  unfolding bytes_eq has_prefix file_request
  route env r control db objects =
      if not (is_file_path r.path)
      then (record { headers = []; answer = refusal 404; discards = is_head r.method }, control)
      else (let (headers, answer, after) = file_request env r control db objects in
          (
            record {
              headers = security_headers ++ headers;
              answer = answer;
              discards = is_head r.method;
            },
            after,
          ))
