-- ===== src/Config/Addresses.antt =====
-- The addresses that internal/config/config.go takes for the server to listen on.
use u_paste.Prelude.{ℕ, ◌≡◌, ◌≢◌, ◌≤◌, inl, inr, some, [], ◌∷◌, arith, Option-cases, Bytes, ok}
use u_paste.Config.{Platform, validate_address}

-- A host, and a port that a listener can have.
pub record Listens (platform : Platform) (address : Bytes) : Type 0 where
  host : Bytes
  port_text : Bytes
  port : ℕ
  splits : platform.split_host_port address ≡ some (host, port_text)
  named : host ≢ []
  numeric : platform.atoi port_text ≡ some port
  bounds : (1 ≤ port) × (port ≤ 65535)

pub address-Listens :
    (platform : Platform) (address : Bytes)
    → validate_address platform address ≡ ok tt
    → Listens platform address
unfolding validate_address
address-Listens platform address h = elim (Option-cases (platform.split_host_port address)) [
  | inl n ↦ absurd (ground (arith, n, h))
  | inr (([], text), n) ↦ absurd (ground (arith, n, h))
  | inr ((b ∷ host, text), n) ↦ elim (Option-cases (platform.atoi text)) [
    | inl m ↦ absurd (ground (arith, n, m, h))
    | inr (port, m) ↦ record {
      host = b ∷ host;
      port_text = text;
      port = port;
      splits = n;
      named = λ e. absurd (ground (arith, e));
      numeric = m;
      bounds = ground (arith, n, m, h);
    }
  ]
]
