-- ===== src/Http/Requests.antt =====
-- What a request of internal/httpapi holds, and what the API is given: its options, its services and
-- the packages mime, encoding/json and time of Go, which are fields of a `Server`.
use u_paste.Prelude.{ℕ, Bool, Option, List, Bytes, Result}
use u_paste.Abuse.{Rate}
use u_paste.Abuse.ClientIp.{Net}
use u_paste.ObjectStore.{Store, Staged}
use u_paste.Http.{Method, ChallengeConfig}

-- What the JSON decoder finds in the body, which it reads as a stream that http.MaxBytesReader cuts:
-- `whole` if it gets to the end of the body or to the cut, `broken` if it stops before, since
-- reading fails or since the part of a longer body that precedes the cut is refused already.
pub data Body : Type 0 where
  whole : Bytes → Body
  broken : Body

-- http.MaxBytesError, objectstore.ErrTooLarge, objectstore.ErrEmpty, or any other.
pub data UploadError : Type 0 where
  over_limit object_too_large object_empty failed : UploadError

-- A part of a multipart body: its headers, what can be read of it, and the error that then follows.
pub record Part : Type 0 where
  pub disposition : Bytes
  pub content_type : Bytes
  pub content : Bytes
  pub read_error : Option UploadError

-- NextPart; after the last element it answers io.EOF.
pub data NextPart : Type 0 where
  part : Part → NextPart
  stopped : UploadError → NextPart

-- A header that may be repeated is the list of its values. `content_length` is 0 if it is unknown;
-- `deadlines` is whether the deadlines could be set or are not supported.
pub record Request : Type 0 where
  pub method : Method
  pub path : Bytes
  pub authorization : List Bytes
  pub content_encoding : List Bytes
  pub content_type : List Bytes
  pub challenge : List Bytes
  pub forwarded_for : Bytes
  pub remote_addr : Bytes
  pub content_length : ℕ
  pub body : Body
  pub deadlines : Bool
  pub multipart : Option (List NextPart)

-- mime.ParseMediaType; a missing parameter is empty.
pub record MediaType : Type 0 where
  pub name : Bytes
  pub parameter : Bytes → Bytes

-- encoding/json/v2 with RejectUnknownMembers: the texts of an object's members, if it is an object
-- with no others than those listed, and the string that a text spells.
pub record Json : Type 0 where
  pub members : List Bytes → Bytes → Option (Bytes → Option Bytes)
  pub string : Bytes → Option Bytes

pub data ChallengeError : Type 0 where
  invalid unavailable : ChallengeError

-- The verifier of challenges takes the token and the client's address.
pub record Options : Type 0 where
  pub public : Bool
  pub public_default_ttl : ℕ
  pub public_max_ttl : ℕ
  pub challenge : Option (Bytes → Bytes → Result ChallengeError (Unit {0}))
  pub challenge_config : ChallengeConfig
  pub admin_enabled : Bool

-- `stage` is the Stage of the object store with the limit of the Share service.
pub record Server : Type 1 where
  pub net : Net
  pub trusted : List net.Prefix
  pub rate : Rate
  pub store : Store
  pub stage : Bytes → Option UploadError → store.State → Result UploadError Staged × store.State
  pub parse_media_type : Bytes → Option MediaType
  pub json : Json
  pub parse_time : Bytes → Option ℕ
  pub format_time : ℕ → Bytes
  pub file_origin : Bytes
  pub options : Options
