-- ===== src/Http.antt =====
-- The public HTTP API, internal/httpapi/httpapi.go: requests, responses and the errors' responses.
-- The message of an error, which is for people, is left out; its status and its code are kept.
pub mod Texts
pub mod Requests
pub mod Headers
pub mod Bodies
pub mod Payloads
pub mod Responses
pub mod Filenames
pub mod Shares
pub mod Uploads
pub mod Routes
use u_paste.Prelude.{ℕ, Bool, true, false, Option, none, some, List, [], ◌∷◌, ◌++◌, Bytes, Result}
use u_paste.Share
use u_paste.Share.{Error, cleanup}

-- Go compares strings; every method that the API does not serve is `other`.
pub data Method : Type 0 where
  get post patch delete other : Method

pub data Header : Type 0 where
  location : Bytes → Header
  retry_after : ℕ → Header
  allow : List Method → Header
  www_authenticate_bearer json_content plain_content no_store nosniff : Header
  no_referrer frame_deny sandbox_policy : Header

pub data Code : Type 0 where
  not_found invalid_request rate_limited unsupported_media_type unsupported_share_type : Code
  request_too_large unauthorized expired internal_error : Code
  challenge_required challenge_failed challenge_unavailable : Code

pub record TextResponse : Type 0 where
  pub format : Bytes
  pub content : Bytes

pub record EncryptedTextResponse : Type 0 where
  pub protocol : Bytes
  pub nonce : Bytes
  pub ciphertext : Bytes

pub record FileResponse : Type 0 where
  pub filename : Bytes
  pub size : ℕ
  pub media_type : Bytes
  pub sha256 : Bytes
  pub download_url : Bytes

pub record ResponseShare : Type 0 where
  pub id : Bytes
  pub payload_kind : Bytes
  pub privacy_mode : Bytes
  pub text : Option TextResponse
  pub encrypted_text : Option EncryptedTextResponse
  pub file : Option FileResponse
  pub created_at : Bytes
  pub updated_at : Bytes
  pub expires_at : Option Bytes

pub record RetentionConfig : Type 0 where
  pub default_seconds : ℕ
  pub max_seconds : ℕ

-- The fields of challenge.PublicConfig.
pub record ChallengeConfig : Type 0 where
  pub provider : Bytes
  pub site_key : Bytes
  pub endpoint : Bytes
  pub hostname : Bytes

pub record PublicConfig : Type 0 where
  pub deployment_mode : Bytes
  pub admin_enabled : Bool
  pub retention : Option RetentionConfig
  pub challenge : Option ChallengeConfig

-- What is written after the headers: the values that writeJSON encodes, the text of http.Error with
-- the two headers that it sets itself (`refusal`), the text of a raw view, or nothing.
pub data Reply : Type 0 where
  failure : Code → Reply
  share : ResponseShare → Reply
  created : ResponseShare → Bytes → Reply
  config : PublicConfig → Reply
  raw_text : Bytes → Reply
  refusal nothing : Reply

pub record Response : Type 0 where
  pub status : ℕ
  pub headers : List Header
  pub reply : Reply

unfoldable pub write_json : ℕ → List Header → Reply → Response
write_json status headers value = record {
  status = status;
  headers = headers ++ (json_content ∷ []);
  reply = value;
}

unfoldable pub write_error : List Header → ℕ → Code → Response
unfolding write_json
write_error headers status code = write_json status headers (failure code)

abbrev pub bad_request : Response
bad_request = write_error [] 400 invalid_request

abbrev pub share_not_found : Response
share_not_found = write_error [] 404 not_found

abbrev pub too_large : Response
too_large = write_error [] 413 request_too_large

abbrev pub unsupported_media : Response
unsupported_media = write_error [] 415 unsupported_media_type

abbrev pub unsupported_share : Response
unsupported_share = write_error [] 422 unsupported_share_type

abbrev pub internal : Response
internal = write_error [] 500 internal_error

unfoldable pub unauthorized_response : Response
unfolding write_error
unauthorized_response = write_error (www_authenticate_bearer ∷ []) 401 unauthorized

unfoldable pub rate_limited_response : ℕ → Response
unfolding write_error
rate_limited_response retry = write_error (retry_after retry ∷ []) 429 rate_limited

unfoldable pub method_not_allowed : List Method → Response
unfolding write_error
method_not_allowed methods = write_error (allow methods ∷ []) 405 invalid_request

-- serviceError
unfoldable pub service_error : Error → Response
unfolding write_error unauthorized_response
service_error u_paste.Share.not_found = share_not_found
service_error u_paste.Share.expired = write_error [] 410 expired
service_error u_paste.Share.unauthorized = unauthorized_response
service_error u_paste.Share.expiration = bad_request
service_error u_paste.Share.empty_patch = bad_request
service_error u_paste.Share.retention = bad_request
service_error u_paste.Share.invalid_text = bad_request
service_error u_paste.Share.invalid_encrypted_text = bad_request
service_error u_paste.Share.payload_mismatch = internal
service_error u_paste.Share.invalid_format = internal
service_error u_paste.Share.corrupt = internal
service_error u_paste.Share.database = internal
service_error u_paste.Share.no_randomness = internal
service_error u_paste.Share.storage_unavailable = internal
service_error u_paste.Share.storage = internal
service_error (cleanup key) = internal
