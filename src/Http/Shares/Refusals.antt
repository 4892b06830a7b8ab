-- ===== src/Http/Shares/Refusals.antt =====
-- The checks of internal/httpapi on a body of createJSON refuse with an error status.
use u_paste.Prelude.{
  ◌≡◌, ◌≤◌, ◌⊎◌, refl, inl, inr, Bool, true, false, Option, none, some, arith, ltb, ◌==◌, not,
  bytes_eq, Bool-cases, Option-cases, Bytes, length, Result, ok, err, ◌>>=◌, require, refuse,
  or_fail,
}
use u_paste.Domain.{
  parse_text_format, PayloadKind, text, file, PrivacyMode, standard, encrypted, parse_payload_kind,
  parse_privacy_mode,
}
use u_paste.Database.{protocol_v1}
use u_paste.Share.{min_encrypted_cipher_bytes, max_encrypted_cipher_bytes}
use u_paste.Http.{Response, bad_request, too_large, write_error}
use u_paste.Http.Requests.{Request, Body, whole, broken, Server}
use u_paste.Http.Bodies.{
  Member, CreateRequest, TextRequest, EncryptedTextRequest, decode_body, decode_json,
  unmarshal_create,
}
use u_paste.Http.Payloads.{
  validate_text, validate_encrypted_text, DecodeError, not_canonical, ciphertext_too_large,
  decode_base64_url, nonce_or_response, ciphertext_or_response,
}
use u_paste.Http.Shares.{only_member, require_text_kind, new_share, check_create}

abbrev pub Refuses : {A : Type 0} → Result Response A → Type 0
Refuses {A} m = (response : Response) → m ≡ err response → 400 ≤ response.status

bind-Refuses :
    {A B : Type 0} (m : Result Response A) (f : A → Result Response B)
    → Refuses m
    → ((a : A) → Refuses (f a))
    → Refuses (m >>= f)
bind-Refuses (ok a) f h k response e = k a response e
bind-Refuses (err r) f h k response e = h response (ground (arith, e))

or_fail-Refuses :
    {A : Type 0} (o : Option A) (r : Response) → 400 ≤ r.status → Refuses (or_fail o r)
or_fail-Refuses none r l response e = ground (arith, e, l)
or_fail-Refuses (some a) r l response e = absurd (ground (arith, e))

require-Refuses : (b : Bool) (r : Response) → 400 ≤ r.status → Refuses (require b r)
require-Refuses true r l response e = absurd (ground (arith, e))
require-Refuses false r l response e = ground (arith, e, l)

refuse-Refuses : (b : Bool) (r : Response) → 400 ≤ r.status → Refuses (refuse b r)
refuse-Refuses false r l response e = absurd (ground (arith, e))
refuse-Refuses true r l response e = ground (arith, e, l)

ok-Refuses : {A : Type 0} (a : A) → Refuses (ok a)
ok-Refuses a response e = absurd (ground (arith, e))

Body-cases : (b : Body) → (b ≡ broken) ⊎ ((raw : Bytes) × (b ≡ whole raw))
Body-cases broken = inl refl
Body-cases (whole raw) = inr (raw, refl)

decode_json-Refuses :
    {A : Type 0} (unmarshal : Bytes → Option A) (r : Request) → Refuses (decode_json unmarshal r)
unfolding decode_json decode_body write_error
decode_json-Refuses unmarshal r response e = elim (Bool-cases (ltb 2097152 r.content_length)) [
  | inl l ↦ ground (arith, l, e)
  | inr l ↦ elim (Body-cases r.body) [
    | inl b ↦ ground (arith, l, b, e)
    | inr (raw, b) ↦ elim (Option-cases (unmarshal raw)) [
      | inl n ↦ ground (arith, l, b, n, e)
      | inr (a, n) ↦ ground (arith, l, b, n, e)
    ]
  ]
]

validate_text-Refuses : (request : TextRequest) → Refuses (validate_text request)
unfolding validate_text write_error
validate_text-Refuses request =
    bind-Refuses _ _ (or_fail-Refuses request.format bad_request (omega arith)) λ format.
      bind-Refuses _ _ (or_fail-Refuses request.content bad_request (omega arith)) λ content.
        bind-Refuses _ _ (or_fail-Refuses (parse_text_format format) bad_request (omega arith))
          λ parsed.
            bind-Refuses _ _ (refuse-Refuses (length content == 0) bad_request (omega arith)) λ _.
              bind-Refuses _ _
                (refuse-Refuses (ltb 1048576 (length content)) too_large (omega arith))
                λ _. ok-Refuses _

nonce-Refuses : (r : Result DecodeError Bytes) → Refuses (nonce_or_response r)
unfolding write_error
nonce-Refuses (ok bytes) response e = absurd (ground (arith, e))
nonce-Refuses (err d) response e = ground (arith, e)

ciphertext-Refuses : (r : Result DecodeError Bytes) → Refuses (ciphertext_or_response r)
unfolding write_error
ciphertext-Refuses (ok bytes) response e = absurd (ground (arith, e))
ciphertext-Refuses (err not_canonical) response e = ground (arith, e)
ciphertext-Refuses (err ciphertext_too_large) response e = ground (arith, e)

validate_encrypted_text-Refuses :
    (request : EncryptedTextRequest) → Refuses (validate_encrypted_text request)
unfolding validate_encrypted_text write_error
validate_encrypted_text-Refuses request =
    bind-Refuses _ _ (or_fail-Refuses request.protocol bad_request (omega arith)) λ protocol.
      bind-Refuses _ _ (or_fail-Refuses request.nonce bad_request (omega arith)) λ nonce.
        bind-Refuses _ _ (or_fail-Refuses request.ciphertext bad_request (omega arith))
          λ ciphertext.
            bind-Refuses _ _
              (refuse-Refuses (not (bytes_eq protocol protocol_v1)) bad_request (omega arith))
              λ _. bind-Refuses _ _ (nonce-Refuses (decode_base64_url nonce 12 12)) λ nonce'.
                bind-Refuses _ _
                  (ciphertext-Refuses (
                    decode_base64_url ciphertext min_encrypted_cipher_bytes
                      max_encrypted_cipher_bytes))
                  λ ciphertext'.
                    ok-Refuses
                      (record { protocol = protocol; nonce = nonce'; ciphertext = ciphertext' })

only_member-Refuses :
    {A B : Type 0} (this : Member A) (other : Member B) → Refuses (only_member this other)
unfolding write_error
only_member-Refuses this other =
    bind-Refuses _ _ (require-Refuses this.set bad_request (omega arith)) λ _.
      bind-Refuses _ _ (or_fail-Refuses this.value bad_request (omega arith)) λ value.
        bind-Refuses _ _ (refuse-Refuses other.set bad_request (omega arith)) λ _. ok-Refuses value

new_share-Refuses : (request : CreateRequest) (p : PrivacyMode) → Refuses (new_share request p)
unfolding new_share
new_share-Refuses request standard =
    bind-Refuses _ _ (only_member-Refuses request.text request.encrypted_text)
      λ payload. bind-Refuses _ _ (validate_text-Refuses payload) λ value. ok-Refuses _
new_share-Refuses request encrypted =
    bind-Refuses _ _ (only_member-Refuses request.encrypted_text request.text)
      λ payload. bind-Refuses _ _ (validate_encrypted_text-Refuses payload) λ value. ok-Refuses _

require_text_kind-Refuses : (k : PayloadKind) → Refuses (require_text_kind k)
unfolding write_error
require_text_kind-Refuses text response e = absurd (ground (arith, e))
require_text_kind-Refuses file response e = ground (arith, e)

check_create-Refuses : (request : CreateRequest) → Refuses (check_create request)
unfolding check_create write_error
check_create-Refuses request =
    bind-Refuses _ _ (or_fail-Refuses request.payload_kind bad_request (omega arith)) λ kind.
      bind-Refuses _ _ (or_fail-Refuses request.privacy_mode bad_request (omega arith)) λ privacy.
        bind-Refuses _ _ (require-Refuses request.expires_at.set bad_request (omega arith)) λ _.
          bind-Refuses _ _ (or_fail-Refuses (parse_payload_kind kind) bad_request (omega arith))
            λ k.
              bind-Refuses _ _
                (or_fail-Refuses (parse_privacy_mode privacy) bad_request (omega arith))
                λ p. bind-Refuses _ _ (require_text_kind-Refuses k) λ _. new_share-Refuses request p

-- What createJSON checks before it calls the service, it refuses with a status of 400 or more.
pub create_checks-Refuses :
    (server : Server) (r : Request)
    → Refuses (decode_json (unmarshal_create server) r >>= check_create)
create_checks-Refuses server r =
    bind-Refuses _ _ (decode_json-Refuses (unmarshal_create server) r) check_create-Refuses
