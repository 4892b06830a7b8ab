-- ===== src/ObjectStore/Local/Staging.antt =====
-- Stage of internal/objectstore/local.go, with generateKey, randomSuffix and sniffWriter. What rand,
-- the reader and the operating system answer is an `Input`.
pub mod RoundTrip
use u_paste.Prelude.{
  ℕ, zero, suc, ◌+◌, ◌-◌, ◌%◌, ◌/◌, ◌≡◌, Bool, true, false, ◌&&◌, not, Option, none, some, List, [],
  ◌∷◌, ◌++◌, arith, ◌==◌, ltb, leb, if◌then◌else◌, Bytes, codes, length, take, Result, ok, err,
}
use u_paste.Database.Tables.{Table, find, erase, is_present}
use u_paste.ObjectStore.{Staged, Store}
use u_paste.ObjectStore.Local.{Node, file, directory, Fs, temp_name}

pub data StageError : Type 0 where
  no_key no_stage read_failed too_large empty_object sync_failed close_failed : StageError

-- `random_suffixes` holds the eight reads of rand, of which one may fail; `read_fails` is an error of
-- the reader after its last byte.
pub record Input : Type 0 where
  pub sha256 : Bytes → Bytes
  pub random_key : Option Bytes
  pub random_suffixes : List (Option Bytes)
  pub create_fails : Bool
  pub source : Bytes
  pub read_fails : Bool
  pub sync_fails : Bool
  pub close_fails : Bool
  pub remove_fails : Bool

-- hex.EncodeToString
unfoldable pub hex_digit : ℕ → ℕ
hex_digit n = if ltb n 10 then b'0' + n else b'a' + (n - 10)

unfoldable pub hex : Bytes → Bytes
unfolding hex_digit
hex [] = []
hex (b ∷ bytes) = hex_digit (b / 16) ∷ hex_digit (b % 16) ∷ hex bytes

abbrev pub suffix_of : Option Bytes → Bytes
suffix_of none = codes "fallback"
suffix_of (some bytes) = hex bytes

-- The loop over O_CREATE|O_EXCL: the first suffix whose name is free.
unfoldable pub free_suffix : Bytes → List (Option Bytes) → Fs → Option Bytes
unfolding temp_name is_present hex
free_suffix key [] fs = none
free_suffix key (random ∷ more) fs =
    let rest = free_suffix key more fs in
    if is_present (temp_name key (suffix_of random)) fs then rest else some (suffix_of random)

-- The checks after io.Copy, in their order; `limit + 1` bytes at most are read.
unfoldable pub check_copy : Input → ℕ → Result StageError (Unit {0})
check_copy input limit =
    if leb (length input.source) limit && input.read_fails
    then err read_failed
    else if ltb limit (length input.source)
    then err too_large
    else if length input.source == 0
    then err empty_object
    else if input.sync_fails
    then err sync_failed
    else if input.close_fails
    then err close_failed
    else ok tt

abbrev pub staged_of : Input → Bytes → Bytes → Staged
staged_of input key suffix = record {
  key = key;
  size = length input.source;
  sha256 = input.sha256 input.source;
  sniff = take 512 input.source;
  suffix = suffix;
  pending = true;
  committed = false;
}

unfoldable pub copy_source : Input → ℕ → Bytes → Bytes → Fs → Result StageError Staged × Fs
unfolding check_copy temp_name
copy_source input limit key suffix fs =
    let written = (temp_name key suffix, file (take (limit + 1) input.source)) ∷ fs in
    elim (check_copy input limit) [
      | err e ↦ (err e, (if input.remove_fails then written else fs))
      | ok done ↦ (ok (staged_of input key suffix), written)
    ]

unfoldable pub stage : Input → ℕ → Fs → Result StageError Staged × Fs
unfolding hex free_suffix copy_source
stage input limit fs = elim input.random_key [
  | none ↦ (err no_key, fs)
  | some bytes ↦
      if input.create_fails
      then (err no_stage, fs)
      else elim (free_suffix (hex bytes) (take 8 input.random_suffixes) fs) [
        | none ↦ (err no_stage, fs)
        | some suffix ↦ copy_source input limit (hex bytes) suffix fs
      ]
]
