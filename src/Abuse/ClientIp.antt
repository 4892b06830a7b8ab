-- ===== src/Abuse/ClientIp.antt =====
-- ClientIP, RateKey, parsePeer and isTrusted of internal/abuse/control.go. net and net/netip are
-- parameters, `Net`.
use u_paste.Prelude.{
  ℕ, zero, suc, ◌≡◌, refl, ap, ◌∙◌, ◌⊎◌, inl, inr, Bool, true, false, ◌||◌, not, Option, none, some,
  List, [], ◌∷◌, ◌++◌, arith, ◌==◌, if◌then◌else◌, Option-cases, Bool-cases, Bytes, codes,
}
use u_paste.Http.Texts.{space_width}

-- `host` is SplitHostPort's host; `parse` is ParseAddr; `text64` is the text of the /64 prefix.
pub record Net : Type 1 where
  pub Addr : Type 0
  pub Prefix : Type 0
  pub zero_addr : Addr
  pub host : Bytes → Option Bytes
  pub parse : Bytes → Option Addr
  pub unmap : Addr → Addr
  pub contains : Prefix → Addr → Bool
  pub is_valid : Addr → Bool
  pub is_4 : Addr → Bool
  pub text : Addr → Bytes
  pub text64 : Addr → Bytes

-- strings.TrimLeft of white space, `skip` bytes of which are left to drop.
unfoldable pub trim_left : ℕ → Bytes → Bytes
unfolding space_width
trim_left skip [] = []
trim_left (suc skip) (b ∷ bytes) = trim_left skip bytes
trim_left zero (b ∷ bytes) = elim (space_width (b ∷ bytes)) [
  | zero ↦ b ∷ bytes
  | (suc skip) ↦ trim_left skip bytes
]

-- What stands before the white space at the end: nothing, once only white space follows.
unfoldable pub trim_right : Bytes → Bytes
unfolding trim_left
trim_right [] = []
trim_right (b ∷ bytes) = elim (trim_left 0 (b ∷ bytes)) [
  | [] ↦ []
  | (c ∷ rest) ↦ b ∷ trim_right bytes
]

-- strings.TrimSpace
unfoldable pub trim_space : Bytes → Bytes
unfolding trim_left trim_right
trim_space bytes = trim_right (trim_left 0 bytes)

-- A byte before the first part.
abbrev pub grow : ℕ → List Bytes → List Bytes
grow b [] = (b ∷ []) ∷ []
grow b (part ∷ parts) = (b ∷ part) ∷ parts

-- strings.Split(value, ",")
unfoldable pub split : Bytes → List Bytes
split [] = [] ∷ []
split (b ∷ bytes) = let rest = split bytes in if b == 44 then [] ∷ rest else grow b rest

module _ (net : Net) where
  unfoldable pub is_trusted : net.Addr → List net.Prefix → Bool
  is_trusted address [] = false
  is_trusted address (prefix ∷ prefixes) =
      net.contains prefix address || is_trusted address prefixes

  unfoldable pub parse_peer : Bytes → Option net.Addr
  parse_peer value = elim (net.parse (elim (net.host value) [ none ↦ value | some host ↦ host ])) [
    | none ↦ none
    | some address ↦ some (net.unmap address)
  ]

  -- The loop over the parts: `none` if one does not parse.
  unfoldable pub chain_of : List Bytes → Option (List net.Addr)
  unfolding trim_space
  chain_of [] = some []
  chain_of (part ∷ parts) =
      let rest = chain_of parts in
      elim (net.parse (trim_space part)) [
        | none ↦ none
        | some address ↦ elim rest [ none ↦ none | some chain ↦ some (net.unmap address ∷ chain) ]
      ]

  -- The loop from the last address down: the first that is not trusted.
  unfoldable pub last_untrusted : List net.Prefix → List net.Addr → Option net.Addr
  unfolding is_trusted
  last_untrusted trusted [] = none
  last_untrusted trusted (address ∷ chain) = elim (last_untrusted trusted chain) [
    | some found ↦ some found
    | none ↦ if is_trusted address trusted then none else some address
  ]

  abbrev or_peer : net.Addr → Option net.Addr → net.Addr
  or_peer peer none = peer
  or_peer peer (some found) = found

  unfoldable pub from_chain : List net.Prefix → net.Addr → Option (List net.Addr) → net.Addr
  unfolding last_untrusted
  from_chain trusted peer none = peer
  from_chain trusted peer (some chain) = or_peer peer (last_untrusted trusted chain)

  unfoldable pub client_ip : Bytes → Bytes → List net.Prefix → net.Addr
  unfolding parse_peer is_trusted chain_of split from_chain
  client_ip remote_addr xff trusted = elim (parse_peer remote_addr) [
    | none ↦ net.zero_addr
    | some peer ↦
        if not (is_trusted peer trusted)
        then peer
        else from_chain trusted peer (chain_of (split xff))
  ]

  unfoldable pub rate_key : net.Addr → Bytes
  rate_key address =
      if not (net.is_valid (net.unmap address))
      then codes "invalid"
      else if net.is_4 (net.unmap address)
      then net.text (net.unmap address)
      else net.text64 (net.unmap address)

split-cons : (bytes : Bytes) → (part : Bytes) × (parts : List Bytes) × (split bytes ≡ part ∷ parts)
unfolding split
split-cons [] = ([], [], refl)
split-cons (b ∷ bytes) =
    let (part, parts, e) = split-cons bytes in
    elim (Bool-cases (b == 44)) [
      | inl q ↦ ([], split bytes, ground (arith, q))
      | inr q ↦ (b ∷ part, parts, ground (arith, q, e))
    ]

split-append : (forged last : Bytes) → split (forged ++ 44 ∷ last) ≡ split forged ++ split last
unfolding split
split-append [] last = refl
split-append (b ∷ forged) last = elim (Bool-cases (b == 44)) [
  | inl q ↦ ground (arith, q, split-append forged last)
  | inr q ↦
      let (part, parts, e) = split-cons forged in ground (arith, q, e, split-append forged last)
]

module _ (net : Net) where
  chain_of-append :
      (parts : List Bytes) (last : Bytes) (a : net.Addr)
      → net.parse (trim_space last) ≡ some a
      → (chain_of net (parts ++ last ∷ []) ≡ none)
        ⊎ ((chain : List net.Addr) × (chain_of net (parts ++ last ∷ [])
              ≡ some (chain ++ net.unmap a ∷ [])))
  unfolding chain_of
  chain_of-append [] last a h = inr ([], ground (arith, h))
  chain_of-append (part ∷ parts) last a h = elim (Option-cases (net.parse (trim_space part))) [
    | inl q ↦ inl (ground (arith, q))
    | inr (b, q) ↦ elim (chain_of-append parts last a h) [
      | inl r ↦ inl (ground (arith, q, r))
      | inr (chain, r) ↦ inr (net.unmap b ∷ chain, ground (arith, q, r))
    ]
  ]

  last_untrusted-append :
      (trusted : List net.Prefix) (chain : List net.Addr) (a : net.Addr)
      → is_trusted net a trusted ≡ false
      → last_untrusted net trusted (chain ++ a ∷ []) ≡ some a
  unfolding last_untrusted
  last_untrusted-append trusted [] a h = ground (arith, h)
  last_untrusted-append trusted (b ∷ chain) a h =
      ground (arith, last_untrusted-append trusted chain a h)

  -- A peer that is no trusted proxy is the client, whatever X-Forwarded-For says.
  pub client_ip_untrusted :
      (remote_addr xff : Bytes) (trusted : List net.Prefix) (peer : net.Addr)
      → parse_peer net remote_addr ≡ some peer
      → is_trusted net peer trusted ≡ false
      → client_ip net remote_addr xff trusted ≡ peer
  unfolding client_ip
  client_ip_untrusted remote_addr xff trusted peer p u = ground (arith, p, u)

  -- If the peer is a trusted proxy and the part of X-Forwarded-For after some comma is an address
  -- that is not trusted, the client is that address or the peer, whatever stands before the
  -- comma.
  pub client_ip_last_hop :
      (remote_addr forged last : Bytes) (trusted : List net.Prefix) (peer a : net.Addr)
      → parse_peer net remote_addr ≡ some peer
      → is_trusted net peer trusted ≡ true
      → split last ≡ last ∷ []
      → net.parse (trim_space last) ≡ some a
      → is_trusted net (net.unmap a) trusted ≡ false
      → (client_ip net remote_addr (forged ++ 44 ∷ last) trusted ≡ net.unmap a)
        ⊎ (client_ip net remote_addr (forged ++ 44 ∷ last) trusted ≡ peer)
  unfolding client_ip from_chain
  client_ip_last_hop remote_addr forged last trusted peer a p t one r u =
      let parts : split (forged ++ 44 ∷ last) ≡ split forged ++ last ∷ [] =
        split-append forged last ∙ ap (λ x. split forged ++ x) one in
      elim (chain_of-append (split forged) last a r) [
        | inl q ↦ inr (ground (arith, p, t, parts, q))
        | inr (chain, q) ↦
            inl
              (ground (arith, p, t, parts, q, last_untrusted-append trusted chain (net.unmap a) u))
      ]
