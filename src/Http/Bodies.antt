-- ===== src/Http/Bodies.antt =====
-- The bodies of internal/httpapi: decodeJSON, decodeError and the UnmarshalJSON methods of the
-- request types.
use u_paste.Prelude.{
  ℕ, Bool, true, false, Option, none, some, [], ◌∷◌, ltb, if◌then◌else◌, Bytes, codes, bytes_eq,
  length, Result, err, ◌>>◌, refuse, or_fail,
}
use u_paste.Http.{Response, write_error, bad_request, too_large}
use u_paste.Http.Requests.{Request, Body, whole, broken, Server}

abbrev pub max_json_bytes : ℕ
max_json_bytes = 2097152

pub record TextRequest : Type 0 where
  pub format : Option Bytes
  pub content : Option Bytes

pub record EncryptedTextRequest : Type 0 where
  pub protocol : Option Bytes
  pub nonce : Option Bytes
  pub ciphertext : Option Bytes

-- nullableTime, optionalText and optionalEncryptedText: whether a member is there, and its value.
pub record Member (A : Type 0) : Type 0 where
  pub set : Bool
  pub value : Option A

abbrev pub absent : {A : Type 0} → Member A
absent = record { set = false; value = none }

pub record CreateRequest : Type 0 where
  pub payload_kind : Option Bytes
  pub privacy_mode : Option Bytes
  pub text : Member TextRequest
  pub encrypted_text : Member EncryptedTextRequest
  pub expires_at : Member ℕ

pub record PatchRequest : Type 0 where
  pub text : Member TextRequest
  pub encrypted_text : Member EncryptedTextRequest
  pub expires_at : Member ℕ

pub record FileMetadataRequest : Type 0 where
  pub payload_kind : Option Bytes
  pub privacy_mode : Option Bytes
  pub expires_at : Member ℕ

-- The chains of `Option`: a step that fails ends the decoding.
abbrev pub and_then : {A B : Type 0} → Option A → (A → Option B) → Option B
and_then none f = none
and_then (some a) f = f a

-- UnmarshalJSON of the three: `null` sets no value.
unfoldable pub unmarshal_member :
    {A : Type 0} → (Bytes → Option A) → Option Bytes → Option (Member A)
unfolding bytes_eq
unmarshal_member unmarshal none = some absent
unmarshal_member unmarshal (some raw) =
    if bytes_eq raw (codes "null")
    then some (record { set = true; value = none })
    else and_then (unmarshal raw) (λ v. some (record { set = true; value = some v }))

module _ (server : Server) where
  -- A field of type *string.
  unfoldable pub string_field : Option Bytes → Option (Option Bytes)
  unfolding bytes_eq
  string_field none = some none
  string_field (some raw) =
      if bytes_eq raw (codes "null")
      then some none
      else and_then (server.json.string raw) (λ v. some (some v))

  unfoldable pub unmarshal_time : Bytes → Option ℕ
  unmarshal_time raw = and_then (server.json.string raw) server.parse_time

  unfoldable pub unmarshal_text : Bytes → Option TextRequest
  unfolding string_field
  unmarshal_text raw =
      and_then (server.json.members (codes "format" ∷ codes "content" ∷ []) raw) (λ member.
        and_then (string_field (member (codes "format"))) (λ format.
          and_then (string_field (member (codes "content")))
            (λ content. some (record { format = format; content = content }))))

  unfoldable pub unmarshal_encrypted_text : Bytes → Option EncryptedTextRequest
  unfolding string_field
  unmarshal_encrypted_text raw =
      and_then
        (server.json.members (codes "protocol" ∷ codes "nonce" ∷ codes "ciphertext" ∷ []) raw)
        (λ member. and_then (string_field (member (codes "protocol"))) (λ protocol.
          and_then (string_field (member (codes "nonce"))) (λ nonce.
            and_then (string_field (member (codes "ciphertext"))) (λ ciphertext.
              some (record { protocol = protocol; nonce = nonce; ciphertext = ciphertext })))))

  unfoldable pub unmarshal_patch : Bytes → Option PatchRequest
  unfolding unmarshal_member unmarshal_time unmarshal_text unmarshal_encrypted_text
  unmarshal_patch raw =
      and_then
        (server.json.members (codes "text" ∷ codes "encrypted_text" ∷ codes "expires_at" ∷ []) raw)
        (λ member. and_then (unmarshal_member unmarshal_text (member (codes "text"))) (λ text.
          and_then (unmarshal_member unmarshal_encrypted_text (member (codes "encrypted_text")))
            (λ encrypted.
              and_then (unmarshal_member unmarshal_time (member (codes "expires_at"))) (λ expires.
                some (record { text = text; encrypted_text = encrypted; expires_at = expires })))))

  unfoldable pub unmarshal_metadata : Bytes → Option FileMetadataRequest
  unfolding unmarshal_member unmarshal_time string_field
  unmarshal_metadata raw =
      and_then
        (server.json.members (codes "payload_kind" ∷ codes "privacy_mode" ∷ codes "expires_at" ∷ [])
          raw)
        (λ member. and_then (string_field (member (codes "payload_kind"))) (λ kind.
          and_then (string_field (member (codes "privacy_mode"))) (λ privacy.
            and_then (unmarshal_member unmarshal_time (member (codes "expires_at"))) (λ expires.
              some
                (record { payload_kind = kind; privacy_mode = privacy; expires_at = expires })))))

  unfoldable pub unmarshal_create : Bytes → Option CreateRequest
  unfolding unmarshal_metadata unmarshal_patch unmarshal_member unmarshal_time unmarshal_text
      unmarshal_encrypted_text string_field
  unmarshal_create raw =
      and_then
        (server.json.members
          (codes "payload_kind"
            ∷ codes "privacy_mode"
            ∷ codes "text"
            ∷ codes "encrypted_text"
            ∷ codes "expires_at"
            ∷ [])
          raw)
        (λ member. and_then (string_field (member (codes "payload_kind"))) (λ kind.
          and_then (string_field (member (codes "privacy_mode"))) (λ privacy.
            and_then (unmarshal_member unmarshal_text (member (codes "text"))) (λ text.
              and_then (unmarshal_member unmarshal_encrypted_text (member (codes "encrypted_text")))
                (λ encrypted.
                  and_then (unmarshal_member unmarshal_time (member (codes "expires_at")))
                    (λ expires. some (record {
                      payload_kind = kind;
                      privacy_mode = privacy;
                      text = text;
                      encrypted_text = encrypted;
                      expires_at = expires;
                    })))))))

-- decodeJSON and decodeError. A `whole` body over the limit is one that is cut.
unfoldable pub decode_body : {A : Type 0} → (Bytes → Option A) → Body → Result Response A
unfolding write_error
decode_body unmarshal broken = err bad_request
decode_body unmarshal (whole raw) = do
  refuse (ltb max_json_bytes (length raw)) too_large
  or_fail (unmarshal raw) bad_request

unfoldable pub decode_json : {A : Type 0} → (Bytes → Option A) → Request → Result Response A
unfolding decode_body write_error
decode_json unmarshal r =
    if ltb max_json_bytes r.content_length then err too_large else decode_body unmarshal r.body
