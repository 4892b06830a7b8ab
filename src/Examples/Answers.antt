-- ===== src/Examples/Answers.antt =====
-- Shares that are created, changed and read again.
use u_paste.Prelude.{◌*◌, ◌≡◌, refl, none, some, ok, err, arith, if◌then◌else◌}
use u_paste.Base64.{encode, decode, sextet_char, char_sextet, sextets, assemble}
use u_paste.Capability.{
  OwnerToken, share_id_bytes, owner_token_bytes, parse_share_id, validate_base64_url,
  verify_owner_token,
}
use u_paste.Database.{Db, empty, share_checks, accepts, text_checks, encrypted_checks}
use u_paste.Database.Tables.{find, is_present, modify}
use u_paste.Domain.{
  text, standard, encrypted, parse_text_format, is_expired, parse_payload_kind, parse_privacy_mode,
}
use u_paste.Share.{Share, millisecond, server_now, expired}
use u_paste.Share.Load.{load_authorization, load_payload}
use u_paste.Share.Create.{create, create_encrypted, get}
use u_paste.Share.Owner.{authorize_owner, update}
use u_paste.Share.Owner.Patched.{patched, update-get}
use u_paste.Share.Consistent.{IsConsistent-empty}
use u_paste.Share.Consistent.Creates.{IsRandom}
use u_paste.Share.CreateGet.Answers.{answer_at, grant_at, create-get, create_encrypted-get}
use u_paste.Examples.{env, env_at, note, sealed, share_id, owner_token, new_text}

random : IsRandom share_id_bytes env.random_id
random = ground arith

random_token : IsRandom owner_token_bytes env.random_token
random_token = ground arith

abbrev note_share : Share
note_share = record {
  id = share_id;
  payload_kind = text;
  privacy_mode = standard;
  text = some note.text;
  encrypted_text = none;
  file = none;
  created_at = 1000 * millisecond;
  updated_at = 1000 * millisecond;
  expires_at = some (1060 * millisecond);
}

abbrev token : OwnerToken
token = record { value = owner_token }

note_made : create env note empty ≡ (ok (note_share, token), (create env note empty).1)
unfolding create find parse_text_format is_present share_checks encode accepts sextet_char
    text_checks
note_made = refl

create-get_example :
    (get (env_at (1030 * millisecond)) (create env note empty).1 share_id
      ≡ answer_at note_share (server_now (env_at (1030 * millisecond))))
    × (some note.text ≡ some note.text)
    × (authorize_owner (env_at (1030 * millisecond)) (create env note empty).1 share_id owner_token
        ≡ grant_at note_share standard (server_now (env_at (1030 * millisecond))))
create-get_example =
    create-get env (env_at (1030 * millisecond)) note empty (create env note empty).1 note_share
      token random random_token IsConsistent-empty note_made refl refl refl

abbrev sealed_share : Share
sealed_share = record {
  id = share_id;
  payload_kind = text;
  privacy_mode = encrypted;
  text = none;
  encrypted_text = some sealed.encrypted_text;
  file = none;
  created_at = 1000 * millisecond;
  updated_at = 1000 * millisecond;
  expires_at = some (1060 * millisecond);
}

sealed_made :
    create_encrypted env sealed empty
    ≡ (ok (sealed_share, token), (create_encrypted env sealed empty).1)
unfolding create_encrypted find parse_text_format is_present share_checks encode accepts sextet_char
    encrypted_checks
sealed_made = refl

create_encrypted-get_example :
    (get (env_at (1030 * millisecond)) (create_encrypted env sealed empty).1 share_id
      ≡ answer_at sealed_share (server_now (env_at (1030 * millisecond))))
    × (some sealed.encrypted_text ≡ some sealed.encrypted_text)
    × (authorize_owner
          (env_at (1030 * millisecond))
          (create_encrypted env sealed empty).1
          share_id
          owner_token
        ≡ grant_at sealed_share encrypted (server_now (env_at (1030 * millisecond))))
create_encrypted-get_example =
    create_encrypted-get env (env_at (1030 * millisecond)) sealed empty
      (create_encrypted env sealed empty).1 sealed_share token random random_token
      IsConsistent-empty sealed_made refl refl refl

abbrev made : Db
made = (create env note empty).1

abbrev changed : Share
changed = patched note_share new_text (server_now (env_at (1030 * millisecond)))

note_read : get (env_at (1030 * millisecond)) made share_id ≡ ok note_share
unfolding get create find parse_text_format is_present share_checks encode accepts sextet_char
    text_checks decode sextets assemble char_sextet is_expired parse_share_id validate_base64_url
    parse_payload_kind parse_privacy_mode load_payload
note_read = refl

note_changed :
    update (env_at (1030 * millisecond)) share_id owner_token new_text made
    ≡ (ok changed, (update (env_at (1030 * millisecond)) share_id owner_token new_text made).1)
unfolding update create find parse_text_format is_present share_checks encode accepts sextet_char
    text_checks decode sextets assemble char_sextet load_authorization parse_payload_kind
    parse_privacy_mode is_expired verify_owner_token validate_base64_url modify parse_share_id
    load_payload
note_changed = refl

update-get_example :
    (changed ≡ changed)
    × (get
          (env_at (1100 * millisecond))
          (update (env_at (1030 * millisecond)) share_id owner_token new_text made).1
          share_id
        ≡ (if is_expired changed.expires_at (server_now (env_at (1100 * millisecond)))
            then err expired
            else ok changed))
update-get_example =
    update-get (env_at (1030 * millisecond)) (env_at (1100 * millisecond)) share_id owner_token
      new_text made (update (env_at (1030 * millisecond)) share_id owner_token new_text made).1
      note_share changed note_read note_changed refl
