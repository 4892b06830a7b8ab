-- ===== src/Examples/Downloads.antt =====
-- A file that is downloaded.
use u_paste.Prelude.{◌≡◌, refl, true, none, [], ◌∷◌, ◌++◌, codes, bytes_eq}
use u_paste.Base64.{encode, decode, sextet_char, char_sextet, sextets, assemble}
use u_paste.Abuse.{new}
use u_paste.Capability.{validate_base64_url}
use u_paste.Domain.{is_expired, parse_payload_kind, parse_privacy_mode}
use u_paste.Share.Load.{load_payload}
use u_paste.Database.{uses_key, Db, empty, share_checks, accepts, file_checks}
use u_paste.Database.Tables.{find, is_present}
use u_paste.ObjectStore.Local.{Fs, commit, open_object, abort}
use u_paste.ObjectStore.Local.Laws.{local_store-StoreLaws}
use u_paste.ObjectStore.Local.Staging.{hex}
use u_paste.Share.Files.{create_staged}
use u_paste.FileApi.{get, Request, Served, serve, route}
use u_paste.FileApi.Downloads.{route-downloads, Source, route-Source}
use u_paste.Examples.{env, share_id, store, staged, with_stage, no_faults, raw_token}
use u_paste.Examples.Guards.{rate, net, control, ann}

abbrev made : Db
made = (create_staged store env (codes "a.txt") staged none empty with_stage).1

abbrev objects : Fs
objects = (create_staged store env (codes "a.txt") staged none empty with_stage).2

abbrev request : Request
request = record {
  method = get;
  path = codes "/f/" ++ share_id.value;
  remote_addr = ann;
  forwarded_for = [];
  deadline = true;
}

route-downloads_example :
    (route net [] rate store env request control made objects).1.downloads ≡ control.downloads
route-downloads_example = route-downloads net [] rate store env request control made objects

abbrev served : Served
served = record {
  media_type = codes "text/plain";
  attachment = codes "a.txt";
  etag = b'"' ∷ (hex raw_token ++ (b'"' ∷ []));
  content_length = 3;
  modified = 1000000000;
  content = codes "abc";
}

is_served : (route net [] rate store env request control made objects).0.answer ≡ serve served
unfolding route create_staged find is_present share_checks encode accepts sextet_char file_checks
    hex decode sextets assemble char_sextet bytes_eq new validate_base64_url commit uses_key
    is_expired parse_payload_kind parse_privacy_mode load_payload open_object abort
is_served = refl

route-Source_example : Source net [] rate store env request made objects served
route-Source_example =
    route-Source net [] rate store env request (local_store-StoreLaws no_faults) control made
      objects served is_served
