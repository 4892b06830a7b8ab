-- ===== src/Examples.antt =====
-- Concrete inputs, and what the theorems say of them.
pub mod Shares
pub mod Objects
pub mod Capabilities
pub mod Guards
pub mod Purges
pub mod Requests
pub mod Downloads
pub mod Rounds
pub mod Answers
pub mod Configs
use u_paste.Prelude.{ℕ, true, false, Bool, Option, none, some, [], ◌∷◌, ◌*◌}
use u_paste.Prelude.{Bytes, codes, take, drop, ◌++◌}
use u_paste.Base64.{encode}
use u_paste.Capability.{ShareId, owner_token_prefix}
use u_paste.Database.{protocol_v1}
use u_paste.ObjectStore.{Staged, Store}
use u_paste.ObjectStore.Local.{Faults, Fs, file, local_store, temp_name}
use u_paste.Share.{
  Env, RetentionPolicy, CreateInput, EncryptedCreateInput, Patch, Statement, millisecond,
}
use u_paste.Share.Create.{create}
use u_paste.Share.Files.{create_file}

-- Thirty-two bytes of a capability, in place of a hash.
abbrev pub digest : Bytes → Bytes
digest bytes = take 32 (drop 6 bytes)

abbrev pub raw_id : Bytes
raw_id = codes "0123456789abcdef"

abbrev pub raw_token : Bytes
raw_token = codes "0123456789abcdef0123456789abcdef"

abbrev pub public_policy : RetentionPolicy
public_policy = record {
  public = true;
  default_ttl = 60 * millisecond;
  max_ttl = 600 * millisecond;
}

abbrev pub private_policy : RetentionPolicy
private_policy = record { public = false; default_ttl = 0; max_ttl = 0 }

abbrev pub env_at : ℕ → Env
env_at clock = record {
  sha256 = digest;
  retention_policy = public_policy;
  clock = clock;
  detect_content_type = λ _. codes "text/plain";
  random_id = some raw_id;
  random_token = some raw_token;
  has_store = true;
  begins = true;
  commits = true;
  runs = λ _. true;
}

abbrev pub env : Env
env = env_at (1000 * millisecond)

abbrev pub note : CreateInput
note = record {
  text = record { format = codes "PLAIN"; content = codes "hello" };
  expires_at = none;
}

abbrev pub sealed : EncryptedCreateInput
sealed = record {
  encrypted_text = record {
    protocol = protocol_v1;
    nonce = codes "0123456789ab";
    ciphertext = codes "0123456789abcdefghij";
  };
  expires_at = none;
}

abbrev pub share_id : ShareId
share_id = record { value = encode raw_id }

abbrev pub owner_token : Bytes
owner_token = owner_token_prefix ++ encode raw_token

abbrev pub new_text : Patch
new_text = record {
  text = some (record { format = codes "MARKDOWN"; content = codes "changed" });
  encrypted_text = none;
  expiration_set = true;
  expires_at = some (1200 * millisecond);
}

abbrev pub no_faults : Faults
no_faults = record {
  mkdir = false;
  lstat = false;
  link = false;
  remove = false;
  remove_back = false;
  open_shard = false;
  sync_shard = false;
  open_file = false;
}

abbrev pub store : Store
store = local_store no_faults

abbrev pub key : Bytes
key = codes "000102030405060708090a0b0c0d0e0f"

abbrev pub staged : Staged
staged = record {
  key = key;
  size = 3;
  sha256 = raw_token;
  sniff = codes "abc";
  suffix = codes "fallback";
  pending = true;
  committed = false;
}

abbrev pub with_stage : Fs
with_stage = (temp_name key (codes "fallback"), file (codes "abc")) ∷ []
