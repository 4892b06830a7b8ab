-- ===== src/Share/Retention.antt =====
-- The public retention limit: the rules of normalizeExpiration and validateUpdatedExpiration, and
-- that no stored Share outlives them.
pub mod Stored
pub mod Updates
use u_paste.Prelude.{
  ℕ, ◌+◌, ◌*◌, ◌/◌, ◌≤◌, ◌<◌, ◌≡◌, refl, Bool, true, false, Option, none, some, arith, leb, ltb,
  if◌then◌else◌, Result, ok, err, ◌↔◌, ◌⊎◌, inl, inr,
}
use u_paste.Share.{
  Env, Error, RetentionPolicy, truncate, server_now, to_millis, from_millis, expiration, retention,
  normalize_expiration, validate_updated_expiration,
}

-- What config.Parse makes sure of in public mode.
pub record IsPublicPolicy (policy : RetentionPolicy) : Type 0 where
  pub is_public : policy.public ≡ true
  pub default_positive : 0 < policy.default_ttl
  pub default_within : policy.default_ttl ≤ policy.max_ttl

-- Under a public policy an accepted expiration of a new Share is a date later than now and within
-- the maximum.
pub normalize_public_bounds :
    (policy : RetentionPolicy) (value : Option ℕ) (now : ℕ) (r : Option ℕ)
    → IsPublicPolicy policy
    → normalize_expiration policy value now ≡ ok r
    → (e : ℕ) × (r ≡ some e) × (now < e) × (e ≤ now + policy.max_ttl)
unfolding normalize_expiration
normalize_public_bounds policy none now r p h = (
  now + policy.default_ttl,
  ground (arith, p.is_public, h),
  omega (arith, p.default_positive),
  omega (arith, p.default_within),
)
normalize_public_bounds policy (some value) now r p h = (
  truncate value,
  ground (arith, p.is_public, h),
  ground (arith, p.is_public, h),
  ground (arith, p.is_public, h),
)

-- In public mode an accepted expiration of an update is a date later than now and within the
-- maximum after the creation of the Share.
pub validate_public_bounds :
    (policy : RetentionPolicy) (value : Option ℕ) (created_at now : ℕ) (r : Option ℕ)
    → policy.public ≡ true
    → validate_updated_expiration policy value created_at now ≡ ok r
    → (e : ℕ) × (r ≡ some e) × (now < e) × (e ≤ created_at + policy.max_ttl)
unfolding validate_updated_expiration
validate_public_bounds policy none created_at now r p h = ground (arith, p, h)
validate_public_bounds policy (some value) created_at now r p h =
    (truncate value, ground (arith, p, h), ground (arith, p, h), ground (arith, p, h))

-- In private mode a date is accepted exactly if it is later than now once it is cut to
-- milliseconds, and no date is always accepted: for new Shares and for updates alike.
pub private_expiration :
    (policy : RetentionPolicy) (value created_at now : ℕ)
    → policy.public ≡ false
    → let cut = truncate value in
      (normalize_expiration policy none now ≡ ok none)
      × (validate_updated_expiration policy none created_at now ≡ ok none)
      × (normalize_expiration policy (some value) now
          ≡ (if ltb now cut then ok (some cut) else err expiration))
      × (validate_updated_expiration policy (some value) created_at now
          ≡ (if ltb now cut then ok (some cut) else err expiration))
unfolding normalize_expiration validate_updated_expiration
private_expiration policy value created_at now p =
    (ground (arith, p), ground (arith, p), ground (arith, p), ground (arith, p))

-- Cutting to milliseconds is exact on what the database stores.
pub from_millis-truncate : (t : ℕ) → from_millis (to_millis (truncate t)) ≡ truncate t
unfolding truncate
from_millis-truncate t = omega arith
