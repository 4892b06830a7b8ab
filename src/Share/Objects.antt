-- ===== src/Share/Objects.antt =====
-- File rows and the objects that they name: no two rows share a storage key, and every row's object
-- is in the store.
pub mod Creates
pub mod Deletes
pub mod Outcomes
use u_paste.Prelude.{
  ℕ, ◌≡◌, ◌≢◌, Bool, true, false, Option, none, some, List, [], ◌∷◌, arith, Bytes, bytes_eq,
  bytes_eq_iff,
}
use u_paste.Database.{Db, FileRow, uses_key}
use u_paste.Database.Tables.{Table, find}
use u_paste.ObjectStore.{Store}

abbrev pub HaveOwnKeys : Table FileRow → Type 0
HaveOwnKeys t =
    (id j : Bytes) (f g : FileRow)
    → find id t ≡ some f
    → find j t ≡ some g
    → f.storage_key ≡ g.storage_key
    → id ≡ j

abbrev pub AreStored : (store : Store) → Table FileRow → store.State → Type 0
AreStored store t objects =
    (id : Bytes) (f : FileRow) → find id t ≡ some f → store.contents objects f.storage_key ≢ none

-- The invariant that joins the database to the store.
pub record IsServed (store : Store) (db : Db) (objects : store.State) : Type 0 where
  pub own_keys : HaveOwnKeys db.files
  pub stored : AreStored store db.files objects

-- A row that is found is one that UNIQUE looks at.
pub uses_key_of_find :
    (id key : Bytes) (t : Table FileRow) (f : FileRow)
    → uses_key key t ≡ false
    → find id t ≡ some f
    → f.storage_key ≢ key
unfolding uses_key find
uses_key_of_find id key [] f u h e = cc
uses_key_of_find id key ((j, row) ∷ t) f u h e =
    ground (arith, uses_key_of_find id key t f, bytes_eq_iff row.storage_key key, bytes_eq_iff j id)
