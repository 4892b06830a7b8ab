-- ===== src/Http/Shares.antt =====
-- The handlers createJSON, read, patch, delete and raw of internal/httpapi. Each call of the Share
-- service has its own `Env`.
pub mod Refusals
pub mod CreateRead
pub mod Checked
use u_paste.Prelude.{
  Bool, true, false, ◌&&◌, ◌||◌, not, Option, none, some, List, [], ◌∷◌, ◌++◌, if◌then◌else◌, Bytes,
  codes, Result, ok, err, ◌>>=◌, ◌>>◌, require, refuse, or_fail,
}
use u_paste.Domain.{
  PayloadKind, text, file, PrivacyMode, standard, encrypted, parse_payload_kind, parse_privacy_mode,
}
use u_paste.Capability.{ShareId, OwnerToken, reveal}
use u_paste.Database.{Db}
use u_paste.Share.{
  Share, Text, EncryptedText, File, CreateInput, EncryptedCreateInput, Patch, Env, Error, cleanup,
}
use u_paste.Share
use u_paste.Share.Create.{create, create_encrypted, get}
use u_paste.Share.Owner.{authorize_owner, update}
use u_paste.Share.Delete.{delete}
use u_paste.Http.{
  Response, Reply, refusal, nothing, raw_text, created, share, location, write_json, write_error,
  bad_request, unsupported_share, service_error,
}
use u_paste.Http.Requests.{Request, Server}
use u_paste.Http.Headers.{authorization, require_json}
use u_paste.Http.Bodies.{
  Member, CreateRequest, PatchRequest, TextRequest, EncryptedTextRequest, decode_json,
  unmarshal_create, unmarshal_patch,
}
use u_paste.Http.Payloads.{validate_text, validate_encrypted_text}
use u_paste.Http.Responses.{response_from_share}

-- What createJSON asks the service for.
pub data NewShare : Type 0 where
  plain_share : CreateInput → NewShare
  encrypted_share : EncryptedCreateInput → NewShare

-- One payload is there and is an object, the other is not there.
abbrev pub only_member : {A B : Type 0} → Member A → Member B → Result Response A
only_member this other = do
  require this.set bad_request
  value ← or_fail this.value bad_request
  refuse other.set bad_request
  ok value

abbrev pub require_text_kind : PayloadKind → Result Response (Unit {0})
require_text_kind text = ok tt
require_text_kind file = err unsupported_share

unfoldable pub new_share : CreateRequest → PrivacyMode → Result Response NewShare
unfolding validate_text validate_encrypted_text write_error
new_share request standard = do
  payload ← only_member request.text request.encrypted_text
  value ← validate_text payload
  ok (plain_share (record { text = value; expires_at = request.expires_at.value }))
new_share request encrypted = do
  payload ← only_member request.encrypted_text request.text
  value ← validate_encrypted_text payload
  ok (encrypted_share (record { encrypted_text = value; expires_at = request.expires_at.value }))

unfoldable pub check_create : CreateRequest → Result Response NewShare
unfolding parse_payload_kind parse_privacy_mode new_share write_error
check_create request = do
  payload_kind ← or_fail request.payload_kind bad_request
  privacy_mode ← or_fail request.privacy_mode bad_request
  require request.expires_at.set bad_request
  kind ← or_fail (parse_payload_kind payload_kind) bad_request
  privacy ← or_fail (parse_privacy_mode privacy_mode) bad_request
  require_text_kind kind
  new_share request privacy

unfoldable pub call_create : Env → NewShare → Db → Result Error (Share × OwnerToken) × Db
unfolding create create_encrypted
call_create env (plain_share input) db = create env input db
call_create env (encrypted_share input) db = create_encrypted env input db

-- A member that is set, of an object.
abbrev pub optional_member : {A : Type 0} → Member A → Result Response (Option A)
optional_member member =
    if member.set then (do value ← or_fail member.value bad_request; ok (some value)) else ok none

abbrev pub traverse_option :
    {A B : Type 0} → (A → Result Response B) → Option A → Result Response (Option B)
traverse_option f none = ok none
traverse_option f (some a) = do b ← f a; ok (some b)

-- The patch that the members make for a Share of a kind and a privacy mode.
unfoldable pub check_patch : PayloadKind → PrivacyMode → PatchRequest → Result Response Patch
unfolding validate_text validate_encrypted_text write_error
check_patch file privacy request = do
  refuse (request.text.set || request.encrypted_text.set) bad_request
  ok (record {
    text = none;
    encrypted_text = none;
    expiration_set = request.expires_at.set;
    expires_at = request.expires_at.value;
  })
check_patch text standard request = do
  refuse request.encrypted_text.set bad_request
  payload ← optional_member request.text
  value ← traverse_option validate_text payload
  ok (record {
    text = value;
    encrypted_text = none;
    expiration_set = request.expires_at.set;
    expires_at = request.expires_at.value;
  })
check_patch text encrypted request = do
  refuse request.text.set bad_request
  payload ← optional_member request.encrypted_text
  value ← traverse_option validate_encrypted_text payload
  ok (record {
    text = none;
    encrypted_text = value;
    expiration_set = request.expires_at.set;
    expires_at = request.expires_at.value;
  })

-- From requireJSON to the patch.
unfoldable pub read_patch : Server → Request → PayloadKind → PrivacyMode → Result Response Patch
unfolding require_json decode_json unmarshal_patch check_patch write_error
read_patch server r kind privacy = do
  require_json server r
  request ← decode_json (unmarshal_patch server) r
  refuse (not request.text.set && not request.encrypted_text.set && not request.expires_at.set)
      bad_request
  check_patch kind privacy request

-- The answers of the raw view are those of http.Error.
unfoldable pub raw_error : Error → Response
raw_error u_paste.Share.expired = record { status = 410; headers = []; reply = refusal }
raw_error u_paste.Share.not_found = record { status = 404; headers = []; reply = refusal }
raw_error _ = record { status = 500; headers = []; reply = refusal }

-- A Share with neither payload does not come from Get: `value.Text` would be nil.
unfoldable pub raw_payload : Share → Response
raw_payload value = elim value.encrypted_text [
  | some _ ↦ record { status = 409; headers = []; reply = refusal }
  | none ↦ elim value.file [
    | some _ ↦ record { status = 404; headers = []; reply = refusal }
    | none ↦ elim value.text [
      | some payload ↦ record { status = 200; headers = []; reply = raw_text payload.content }
      | none ↦ record { status = 500; headers = []; reply = refusal }
    ]
  ]
]

module _ (server : Server) where
  unfoldable pub created_response : Share → OwnerToken → Response
  unfolding response_from_share write_json reveal
  created_response value token =
      write_json 201 (location (codes "/api/v1/shares/" ++ value.id.value) ∷ [])
        (created (response_from_share server value) (reveal token))

  unfoldable pub share_response : Share → Response
  unfolding response_from_share write_json
  share_response value = write_json 200 [] (share (response_from_share server value))

  abbrev pub answer_create : Result Error (Share × OwnerToken) → Response
  answer_create (ok (value, token)) = created_response value token
  answer_create (err e) = service_error e

  abbrev pub answer_share : Result Error Share → Response
  answer_share (ok value) = share_response value
  answer_share (err e) = service_error e

  unfoldable pub create_json : Env → Request → Db → Response × Db
  unfolding decode_json unmarshal_create check_create call_create created_response service_error
  create_json env r db = elim (decode_json (unmarshal_create server) r >>= check_create) [
    | err response ↦ (response, db)
    | ok input ↦ (answer_create (call_create env input db).0, (call_create env input db).1)
  ]

  unfoldable pub read : Env → ShareId → Db → Response
  unfolding get share_response service_error
  read env id db = answer_share (get env db id)

  unfoldable pub patch : Env → Env → Request → ShareId → Db → Response × Db
  unfolding authorization authorize_owner read_patch update share_response service_error
  patch env later r id db = elim (authorization r.authorization) [
    | err response ↦ (response, db)
    | ok candidate ↦ elim (authorize_owner env db id candidate) [
      | err e ↦ (service_error e, db)
      | ok (kind, privacy) ↦ elim (read_patch server r kind privacy) [
        | err response ↦ (response, db)
        | ok change ↦ (
          answer_share (update later id candidate change db).0,
          (update later id candidate change db).1,
        )
      ]
    ]
  ]

  -- A CleanupError is only logged.
  unfoldable pub answer_delete : Result Error (Unit {0}) → Response
  unfolding service_error
  answer_delete (ok done) = record { status = 204; headers = []; reply = nothing }
  answer_delete (err (cleanup key)) = record { status = 204; headers = []; reply = nothing }
  answer_delete (err e) = service_error e

  unfoldable pub delete_share :
      Env → Request → ShareId → Db → server.store.State → Response × Db × server.store.State
  unfolding authorization delete answer_delete
  delete_share env r id db objects = elim (authorization r.authorization) [
    | err response ↦ (response, db, objects)
    | ok candidate ↦
        let (result, db', objects') = delete server.store env id candidate db objects in
        (answer_delete result, db', objects')
  ]

  unfoldable pub raw_share : Env → ShareId → Db → Response
  unfolding get raw_error raw_payload
  raw_share env id db = elim (get env db id) [ ok value ↦ raw_payload value | err e ↦ raw_error e ]
