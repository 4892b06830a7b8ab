-- ===== src/Http/Responses.antt =====
-- responseFromShare of internal/httpapi.
use u_paste.Prelude.{Option, none, some, ◌++◌, Bytes, codes}
use u_paste.Base64.{encode}
use u_paste.Domain.{kind_string, privacy_string}
use u_paste.ObjectStore.Local.Staging.{hex}
use u_paste.Share.{Share, Text, EncryptedText, File}
use u_paste.Http.{TextResponse, EncryptedTextResponse, FileResponse, ResponseShare}
use u_paste.Http.Requests.{Server}

abbrev pub text_response : Option Text → Option TextResponse
text_response none = none
text_response (some text) = some (record { format = text.format; content = text.content })

abbrev pub encrypted_text_response : Option EncryptedText → Option EncryptedTextResponse
encrypted_text_response none = none
encrypted_text_response (some text) = some (record {
  protocol = text.protocol;
  nonce = encode text.nonce;
  ciphertext = encode text.ciphertext;
})

module _ (server : Server) where
  abbrev pub file_response : Bytes → Option File → Option FileResponse
  file_response id none = none
  file_response id (some file) = some (record {
    filename = file.filename;
    size = file.size;
    media_type = file.media_type;
    sha256 = hex file.sha256;
    download_url = server.file_origin ++ codes "/f/" ++ id;
  })

  unfoldable pub response_from_share : Share → ResponseShare
  unfolding encode hex kind_string privacy_string
  response_from_share value = record {
    id = value.id.value;
    payload_kind = kind_string value.payload_kind;
    privacy_mode = privacy_string value.privacy_mode;
    text = text_response value.text;
    encrypted_text = encrypted_text_response value.encrypted_text;
    file = file_response value.id.value value.file;
    created_at = server.format_time value.created_at;
    updated_at = server.format_time value.updated_at;
    expires_at = elim value.expires_at [ none ↦ none | some at ↦ some (server.format_time at) ];
  }
