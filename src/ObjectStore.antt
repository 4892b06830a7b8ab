-- ===== src/ObjectStore.antt =====
-- The boundary of internal/objectstore/local.go: `Staged`, `Store` and what the Share service relies
-- on. `contents` is what the store holds under a key; a call may fail for reasons of its own.
pub mod Keys
pub mod Local
pub mod Reconcile
use u_paste.Prelude.{ℕ, ◌≡◌, ◌≢◌, Bool, true, false, Option, none, some, Bytes}

-- `localStaged`: Key, Size, SHA256 and Sniff, the random suffix of the temporary name, whether that
-- name is still pending, and whether the object was committed.
pub record Staged : Type 0 where
  pub key : Bytes
  pub size : ℕ
  pub sha256 : Bytes
  pub sniff : Bytes
  pub suffix : Bytes
  pub pending : Bool
  pub committed : Bool

-- The operations that internal/share calls. A `Bool` is whether the call returned no error.
pub record Store : Type 1 where
  pub State : Type 0
  pub contents : State → Bytes → Option Bytes
  pub commit : Staged → State → Bool × State
  pub abort : Staged → State → State
  pub open_object : Bytes → State → Option Bytes
  pub delete : Bytes → State → Bool × State

-- What the operations promise.
pub record StoreLaws (store : Store) : Type 0 where
  pub open_reads :
      (k c : Bytes) (s : store.State) → store.open_object k s ≡ some c → store.contents s k ≡ some c
  pub delete_removes :
      (k : Bytes) (s : store.State)
      → (store.delete k s).0 ≡ true
      → store.contents (store.delete k s).1 k ≡ none
  pub delete_failed :
      (k : Bytes) (s : store.State)
      → (store.delete k s).0 ≡ false
      → store.contents (store.delete k s).1 k ≡ store.contents s k
  pub delete_frame :
      (k j : Bytes) (s : store.State)
      → k ≢ j
      → store.contents (store.delete k s).1 j ≡ store.contents s j
  pub commit_stores :
      (g : Staged) (s : store.State)
      → g.committed ≡ false
      → (store.commit g s).0 ≡ true
      → store.contents (store.commit g s).1 g.key ≢ none
  pub commit_taken :
      (g : Staged) (s : store.State) (c : Bytes)
      → g.committed ≡ false
      → store.contents s g.key ≡ some c
      → (store.commit g s).0 ≡ false
  pub commit_frame :
      (g : Staged) (j : Bytes) (s : store.State)
      → g.key ≢ j
      → store.contents (store.commit g s).1 j ≡ store.contents s j
  pub abort_frame :
      (g : Staged) (j : Bytes) (s : store.State)
      → store.contents (store.abort g s) j ≡ store.contents s j
