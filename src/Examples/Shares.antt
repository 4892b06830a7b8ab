-- ===== src/Examples/Shares.antt =====
-- The Share service on a note, an encrypted note and a file.
use u_paste.Prelude.{true, is_ok, ℕ, ◌*◌, ◌≡◌, refl, none, some, codes, arith}
use u_paste.Domain.{parse_text_format}
use u_paste.Base64.{encode, sextet_char}
use u_paste.Database.{share_checks, accepts, text_checks, ShareRow, Db, empty}
use u_paste.Database.Tables.{find, is_present}
use u_paste.Share.{millisecond}
use u_paste.Share.Admin.{scan_admin_list_item}
use u_paste.Share.Admin.Totals.{scan_admin_list_item-is_ok}
use u_paste.Share.Load.{load_active}
use u_paste.Share.Create.{create}
use u_paste.Share.Owner.{authorize, update}
use u_paste.Share.Files.{create_file}
use u_paste.Share.Consistent.{IsConsistent, IsConsistent-empty, Loads, load_active_cases}
use u_paste.Share.Consistent.Creates.{IsRandom, create-IsConsistent}
use u_paste.Share.Consistent.Updates.{update-IsConsistent}
use u_paste.Share.Consistent.Files.{create_file-IsConsistent}
use u_paste.Share.Authorized.{Answer, authorize-Answer}
use u_paste.Share.Retention.{IsPublicPolicy}
use u_paste.Share.Retention.Stored.{AreRetained, create-AreRetained}
use u_paste.Share.Retention.Updates.{update-AreRetained}
use u_paste.Capability.{share_id_bytes}
use u_paste.Examples.{
  digest, env, env_at, note, share_id, owner_token, new_text, store, staged, with_stage,
  public_policy,
}

abbrev with_note : Db
with_note = (create env note empty).1

random : IsRandom share_id_bytes env.random_id
random = ground arith

note-IsConsistent : IsConsistent with_note
note-IsConsistent = create-IsConsistent env random note empty IsConsistent-empty

policy : IsPublicPolicy public_policy
policy = record { is_public = refl; default_positive = ground arith; default_within = ground arith }

empty_retained : (max : ℕ) → AreRetained max empty
empty_retained max id row h = unfold find in ground (arith, h)

create-IsConsistent_example : IsConsistent (create env note empty).1
create-IsConsistent_example = create-IsConsistent env random note empty IsConsistent-empty

create_file-IsConsistent_example :
    IsConsistent (create_file store env (codes "a.txt") (some staged) none empty with_stage).1
create_file-IsConsistent_example =
    create_file-IsConsistent store env random (codes "a.txt") (some staged) none empty with_stage
      IsConsistent-empty

update-IsConsistent_example :
    IsConsistent (update (env_at (1001 * millisecond)) share_id owner_token new_text with_note).1
update-IsConsistent_example =
    update-IsConsistent (env_at (1001 * millisecond)) share_id owner_token new_text with_note
      note-IsConsistent

load_active_cases_example :
    Loads env with_note share_id.value
      (1030 * millisecond)
      (load_active env with_note share_id.value (1030 * millisecond))
load_active_cases_example =
    load_active_cases env with_note share_id.value (1030 * millisecond) note-IsConsistent refl

authorize-Answer_example :
    Answer env with_note share_id.value owner_token
      (1030 * millisecond)
      (authorize env with_note share_id.value owner_token (1030 * millisecond))
authorize-Answer_example =
    authorize-Answer env with_note share_id.value owner_token (1030 * millisecond) note-IsConsistent
      refl

create-AreRetained_example : AreRetained public_policy.max_ttl (create env note empty).1
create-AreRetained_example =
    create-AreRetained env policy note empty (empty_retained public_policy.max_ttl)

note_retained : AreRetained public_policy.max_ttl with_note
note_retained = create-AreRetained env policy note empty (empty_retained public_policy.max_ttl)

update-AreRetained_example :
    AreRetained public_policy.max_ttl
      (update (env_at (1001 * millisecond)) share_id owner_token new_text with_note).1
update-AreRetained_example =
    update-AreRetained (env_at (1001 * millisecond)) share_id owner_token new_text with_note refl
      note_retained

abbrev note_row : ShareRow
note_row = record {
  payload_kind = codes "TEXT";
  privacy_mode = codes "STANDARD";
  owner_token_verifier = digest owner_token;
  created_at = 1000;
  updated_at = 1000;
  expires_at = some 1060;
}

note_row-found : find share_id.value with_note.shares ≡ some note_row
unfolding find create parse_text_format is_present share_checks encode accepts sextet_char
    text_checks
note_row-found = refl

scan_admin_list_item-is_ok_example :
    is_ok (
      scan_admin_list_item share_id.value note_row
        (find share_id.value with_note.texts)
        (find share_id.value with_note.encrypted_texts)
        (find share_id.value with_note.files))
    ≡ true
scan_admin_list_item-is_ok_example =
    scan_admin_list_item-is_ok with_note share_id.value note_row note-IsConsistent note_row-found
