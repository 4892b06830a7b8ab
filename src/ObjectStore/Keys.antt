-- ===== src/ObjectStore/Keys.antt =====
-- Object keys and their paths: validKey, validShard and relative of internal/objectstore/local.go.
-- A key is valid if it is the lower-case hexadecimal of 16 bytes.
use u_paste.Prelude.{
  ◌≡◌, ◌≢◌, Bool, ◌&&◌, Option, none, some, [], ◌∷◌, ◌++◌, arith, ◌==◌, if◌then◌else◌, Bytes, codes,
  length, take, drop,
}
use u_paste.Database.{is_hex, all_hex}

-- hex.DecodeString accepts pairs of hexadecimal digits of either case, and EncodeToString writes
-- lower case: together they accept exactly the lower-case strings of even length.
unfoldable pub valid_key : Bytes → Bool
unfolding all_hex
valid_key value = (length value == 32) && all_hex value

unfoldable pub valid_shard : Bytes → Bool
unfolding valid_key
valid_shard value =
    (length value == 2) && valid_key (value ++ codes "000000000000000000000000000000")

unfoldable pub relative : Bytes → Option Bytes
unfolding valid_key
relative key = if valid_key key then some (take 2 key ++ codes "/" ++ drop 2 key) else none

-- Two keys with the same path are the same key.
pub relative-injective : (k j r : Bytes) → relative k ≡ some r → relative j ≡ some r → k ≡ j
unfolding relative valid_key
relative-injective (a ∷ b ∷ k) (c ∷ d ∷ j) r h q = ground arith
relative-injective [] j r h q = ground arith
relative-injective (a ∷ []) j r h q = ground arith
relative-injective (a ∷ b ∷ k) [] r h q = ground arith
relative-injective (a ∷ b ∷ k) (c ∷ []) r h q = ground arith

-- No path begins with a dot, as the names of stages do.
pub relative_no_dot : (k r rest : Bytes) → relative k ≡ some r → r ≢ b'.' ∷ rest
unfolding relative valid_key is_hex
relative_no_dot [] r rest h q = ground arith
relative_no_dot (a ∷ k) r rest h q = ground arith
