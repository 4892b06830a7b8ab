-- ===== src/Examples/Requests.antt =====
-- Requests to the public API.
use u_paste.Prelude.{
  Result, err, ◌*◌, ◌≡◌, ◌≢◌, ◌≤◌, ◌⊎◌, ◌↔◌, refl, true, false, Option, none, some, [], ◌∷◌, ◌++◌,
  Bytes, codes, bytes_eq, ok, err, All, IsByte, arith, if◌then◌else◌,
}
use u_paste.Base64.{encode, decode, sextet_char, char_sextet, sextets, assemble}
use u_paste.Capability.{share_id_bytes, owner_token_bytes, parse_owner_token, validate_base64_url}
use u_paste.Database.{empty, share_checks, accepts, text_checks}
use u_paste.Database.Tables.{find, is_present}
use u_paste.Domain.{standard, parse_text_format}
use u_paste.Share.{millisecond}
use u_paste.Share.Create.{create}
use u_paste.Share.Consistent.{IsConsistent, IsConsistent-empty}
use u_paste.Share.Consistent.Creates.{IsRandom, create-IsConsistent}
use u_paste.Http.{Method, get, post, patch}
use u_paste.Http.Texts.{contains_byte}
use u_paste.Http.Requests.{ChallengeError, invalid, Request, whole, Json, failed, Options, Server}
use u_paste.Http.Headers.{authorization}
use u_paste.Http.Headers.Bearer.{authorization-bearer}
use u_paste.Http.Bodies.{CreateRequest}
use u_paste.Http.Payloads.{decode_base64_url}
use u_paste.Http.Payloads.Base64Url.{decode_base64_url_iff}
use u_paste.Http.Filenames.{has_control, sanitize_filename}
use u_paste.Http.Filenames.Safety.{sanitize_filename_idempotent}
use u_paste.Http.Shares.{plain_share, new_share, create_json}
use u_paste.Http.Shares.Checked.{Accepted, new_share-Accepted}
use u_paste.Http.Shares.CreateRead.{Readable, create_json-read}
use u_paste.Http.Routes.{World, collection, route}
use u_paste.Http.Routes.Challenged.{Verified, collection-Verified}
use u_paste.Http.Routes.Invariants.{route-IsConsistent}
use u_paste.Http.Routes.Reads.{Opened, route-Opened, route-get}
use u_paste.Http.Routes.Slots.{route-uploads}
use u_paste.Examples.{env, env_at, note, share_id, owner_token, store}
use u_paste.Examples.Guards.{rate, net, control, ann}

-- The members of the two objects of a request for a note.
abbrev note_member : Bytes → Option Bytes
note_member name =
    if bytes_eq name (codes "payload_kind")
    then some (codes "TEXT")
    else if bytes_eq name (codes "privacy_mode")
    then some (codes "STANDARD")
    else if bytes_eq name (codes "text")
    then some (codes "payload")
    else if bytes_eq name (codes "expires_at")
    then some (codes "null")
    else if bytes_eq name (codes "format")
    then some (codes "PLAIN")
    else if bytes_eq name (codes "content")
    then some (codes "hello")
    else none

abbrev json : Json
json = record { members = λ names text. some note_member; string = λ text. some text }

abbrev options : Options
options = record {
  public = false;
  public_default_ttl = 0;
  public_max_ttl = 0;
  challenge = none;
  challenge_config = record { provider = []; site_key = []; endpoint = []; hostname = [] };
  admin_enabled = false;
}

abbrev server : Server
server = record {
  net = net;
  trusted = [];
  rate = rate;
  store = store;
  stage = λ content failure objects. (err failed, objects);
  parse_media_type = λ value. some (record { name = value; parameter = λ name. [] });
  json = json;
  parse_time = λ text. none;
  format_time = λ time. [];
  file_origin = codes "http://127.0.0.1:8081";
  options = options;
}

abbrev request_to : Method → Bytes → Request
request_to method path = record {
  method = method;
  path = path;
  authorization = (codes "Bearer " ++ owner_token) ∷ [];
  content_encoding = [];
  content_type = codes "application/json" ∷ [];
  challenge = [];
  forwarded_for = [];
  remote_addr = ann;
  content_length = 4;
  body = whole (codes "note");
  deadlines = true;
  multipart = none;
}

abbrev new_note : Request
new_note = request_to post (codes "/api/v1/shares")

abbrev change_note : Request
change_note = request_to patch (codes "/api/v1/shares/" ++ share_id.value)

abbrev read_note : Request
read_note = request_to get (codes "/api/v1/shares/" ++ share_id.value)

random : IsRandom share_id_bytes env.random_id
random = ground arith

random_token : IsRandom owner_token_bytes env.random_token
random_token = ground arith

abbrev world : World server
world = record { control = control; db = (create env note empty).1; objects = [] }

world-IsConsistent : IsConsistent world.db
world-IsConsistent = create-IsConsistent env random note empty IsConsistent-empty

route-IsConsistent_example : IsConsistent (route server env env new_note world).1.db
route-IsConsistent_example =
    route-IsConsistent server env random env new_note world world-IsConsistent

route-Opened_example :
    ((route server env env change_note world).1.db ≡ world.db)
      × ((route server env env change_note world).1.objects ≡ world.objects)
    ⊎ Opened env world.db change_note.path change_note.authorization
route-Opened_example = route-Opened server env change_note world env λ e. absurd (ground (arith, e))

route-get_example :
    ((route server env env read_note world).1.db ≡ world.db)
    × ((route server env env read_note world).1.objects ≡ world.objects)
route-get_example = route-get server env read_note world env refl

route-uploads_example : (route server env env new_note world).1.control.uploads ≡ control.uploads
route-uploads_example = route-uploads server env new_note world env

token_parses : parse_owner_token owner_token ≡ ok (record { value = owner_token })
unfolding parse_owner_token encode decode sextet_char char_sextet sextets assemble bytes_eq
    validate_base64_url
token_parses = refl

authorization-bearer_example :
    authorization ((codes "Bearer " ++ owner_token) ∷ []) ≡ ok owner_token
authorization-bearer_example =
    authorization-bearer owner_token (record { value = owner_token }) token_parses

decode_base64_url_iff_example :
    (decode_base64_url (codes "aGk") 1 2 ≡ ok (codes "hi"))
    ↔ (All IsByte (codes "hi") × (1 ≤ 2) × (2 ≤ 2) × (encode (codes "hi") ≡ codes "aGk"))
decode_base64_url_iff_example = decode_base64_url_iff (codes "aGk") (codes "hi") 1 2

cleaned : sanitize_filename (codes "C:\\notes/a.txt") ≡ some (codes "a.txt")
unfolding sanitize_filename
cleaned = refl

sanitize_filename_idempotent_example :
    (codes "a.txt" ≢ [])
    × (codes "a.txt" ≢ b'.' ∷ [])
    × (codes "a.txt" ≢ b'.' ∷ b'.' ∷ [])
    × (contains_byte (codes "a.txt") b'/' ≡ false)
    × (contains_byte (codes "a.txt") b'\\' ≡ false)
    × (has_control (codes "a.txt") ≡ false)
    × (5 ≤ 255)
    × (sanitize_filename (codes "a.txt") ≡ some (codes "a.txt"))
sanitize_filename_idempotent_example =
    sanitize_filename_idempotent (codes "C:\\notes/a.txt") (codes "a.txt") cleaned

abbrev note_request : CreateRequest
note_request = record {
  payload_kind = some (codes "TEXT");
  privacy_mode = some (codes "STANDARD");
  text = record {
    set = true;
    value = some (record { format = some (codes "PLAIN"); content = some (codes "hello") });
  };
  encrypted_text = record { set = false; value = none };
  expires_at = record { set = true; value = none };
}

note_passes : new_share note_request standard ≡ ok (plain_share note)
unfolding new_share
note_passes = refl

new_share-Accepted_example : Accepted (plain_share note)
new_share-Accepted_example = new_share-Accepted note_request standard (plain_share note) note_passes

created_status : (create_json server env new_note empty).0.status ≡ 201
unfolding create_json find create parse_text_format is_present share_checks encode accepts
    sextet_char text_checks
created_status = refl

create_json-read_example :
    Readable server
      (env_at (1030 * millisecond))
      (create_json server env new_note empty).1
      (create_json server env new_note empty).0
create_json-read_example =
    create_json-read server env (env_at (1030 * millisecond)) random random_token refl refl refl
      new_note empty (create_json server env new_note empty).1
      (create_json server env new_note empty).0 IsConsistent-empty refl created_status

-- Accepts one token.
abbrev verify : Bytes → Bytes → Result ChallengeError (Unit {0})
verify token ip = if bytes_eq token (codes "solved") then ok tt else err invalid

abbrev guarded : Server
guarded = record server { options = record options { challenge = some verify } }

abbrev solved_note : Request
solved_note = record new_note { challenge = codes "solved" ∷ [] }

abbrev guarded_world : World guarded
guarded_world = record { control = control; db = empty; objects = [] }

collection-Verified_example :
    (((collection guarded env solved_note guarded_world).1.db ≡ empty)
      × ((collection guarded env solved_note guarded_world).1.objects ≡ []))
    ⊎ Verified guarded verify solved_note
collection-Verified_example = collection-Verified guarded verify env solved_note refl guarded_world
