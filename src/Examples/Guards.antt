-- ===== src/Examples/Guards.antt =====
-- Requests, transfers and admin sessions.
use u_paste.Prelude.{
  ℕ, ◌+◌, ◌-◌, ◌≡◌, ◌≢◌, ◌≤◌, ◌<◌, ◌⊎◌, refl, true, false, none, some, [], ◌∷◌, ◌++◌, Bytes, codes,
  arith, ltb, bytes_eq, length, if◌then◌else◌, not, ◌==◌,
}
use u_paste.Base64.{encode, decode, sextet_char}
use u_paste.Abuse.{
  Rate, create, Control, new, allow, new_client, upload_limit, download_limit, try_upload,
  release_upload, try_download, release_download,
}
use u_paste.Abuse.Bounds.{allow-IsBounded}
use u_paste.Abuse.Gates.{Held, start, upload, gates_lem}
use u_paste.Abuse.ClientIp.{
  Net, client_ip, client_ip_last_hop, split, parse_peer, is_trusted, trim_space,
}
use u_paste.Admin.{
  Manager, new_manager, login, lookup, csrf_matches, logout, max_sessions, max_login_ips,
}
use u_paste.Admin.Tokens.{random_base64_url, verify_token, token_prefix}
use u_paste.Admin.Sessions.{start, login_step, Reachable-Bounded}
use u_paste.Admin.Authority.{login-lookup, logout-lookup}
use u_paste.Examples.{raw_token, digest}

-- A bucket that is not refilled.
abbrev pub rate : Rate
rate = record {
  Limiter = ℕ;
  new_limiter = λ interval burst. burst;
  allow_n = λ tokens now. (ltb 0 tokens, tokens - 1);
}

abbrev pub control : Control rate
control = new rate 2 false

abbrev pub ann : Bytes
ann = codes "192.0.2.1"

abbrev bob : Bytes
bob = codes "192.0.2.2"

allow-IsBounded_example :
    length (allow rate create 5 ann control).1.clients ≤ (allow rate create 5 ann control).1.max
allow-IsBounded_example = allow-IsBounded rate create 5 ann control (unfold new in ground arith)

abbrev with_ann : Control rate
with_ann = record {
  max = 2;
  clients = (ann, new_client rate 5) ∷ [];
  global = 200;
  uploads = 0;
  downloads = 0;
  disabled = false;
  last_sweep = 0;
}

abbrev uploading : Control rate
uploading = record {
  max = 2;
  clients = [];
  global = 200;
  uploads = 1;
  downloads = 0;
  disabled = false;
  last_sweep = 0;
}

held : Held rate 1 0 uploading
unfolding new try_upload
held = upload (start 2) refl

gates_lem_example :
    (1 ≤ upload_limit)
    × (0 ≤ download_limit)
    × ((try_upload rate uploading).0 ≡ ltb 1 upload_limit)
    × ((try_download rate uploading).0 ≡ ltb 0 download_limit)
    × (0 < 1 → release_upload rate uploading ≢ none)
    × (0 < 0 → release_download rate uploading ≢ none)
gates_lem_example = gates_lem rate held

-- Addresses are their texts, and a prefix holds the address that it is.
abbrev pub net : Net
net = record {
  Addr = Bytes;
  Prefix = Bytes;
  zero_addr = [];
  host = λ value. none;
  parse = λ text. some text;
  unmap = λ address. address;
  contains = λ prefix address. bytes_eq prefix address;
  is_valid = λ address. not (length address == 0);
  is_4 = λ address. true;
  text = λ address. address;
  text64 = λ address. address;
}

client_ip_last_hop_example :
    (client_ip net bob (codes "10.0.0.1" ++ 44 ∷ ann) (bob ∷ []) ≡ ann)
    ⊎ (client_ip net bob (codes "10.0.0.1" ++ 44 ∷ ann) (bob ∷ []) ≡ bob)
unfolding bytes_eq
client_ip_last_hop_example =
    client_ip_last_hop net bob (codes "10.0.0.1") ann (bob ∷ []) bob ann (unfold parse_peer in refl)
      (unfold is_trusted in refl) (unfold split in refl) (unfold trim_space in refl)
      (unfold is_trusted in refl)

abbrev token : Bytes
token = token_prefix ++ encode raw_token

abbrev manager : Manager rate
manager = new_manager rate (digest token) 100

abbrev cookie : Bytes
cookie = encode raw_token

abbrev logged_in : Manager rate
logged_in = (login rate digest token ann 7 (some raw_token) (some raw_token) manager).1

Reachable-Bounded_example :
    (length logged_in.sessions ≤ max_sessions) × (length logged_in.login_limits ≤ max_login_ips)
Reachable-Bounded_example =
    Reachable-Bounded rate digest
      (login_step token ann 7 (some raw_token) (some raw_token) (start (digest token) 100))

login-lookup_example :
    (verify_token digest token manager.expected ≡ true)
    × ((lookup rate digest cookie 50 logged_in).0 ≡ (
        if ltb 50 (7 + manager.session_ttl)
        then some (record { csrf = cookie; expires_at = 7 + manager.session_ttl })
        else none))
    × ((csrf_matches rate digest cookie cookie 50 logged_in).0
        ≡ (if ltb 50 (7 + manager.session_ttl) then bytes_eq cookie cookie else false))
unfolding decode sextet_char
login-lookup_example =
    login-lookup rate digest token ann 7 50 (some raw_token) (some raw_token) manager logged_in
      cookie cookie cookie (unfold login new_manager encode random_base64_url in refl)

logout-lookup_example :
    ((lookup rate digest cookie 50 (logout rate digest cookie logged_in)).0 ≡ none)
    × ((csrf_matches rate digest cookie cookie 50 (logout rate digest cookie logged_in)).0 ≡ false)
logout-lookup_example = logout-lookup rate digest cookie cookie 50 logged_in
