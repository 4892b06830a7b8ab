-- ===== src/Share/Consistent/Files.antt =====
-- Creating a File Share keeps the tables consistent.
use u_paste.Prelude.{
  ℕ, ◌≡◌, refl, true, Option, none, some, arith, Bytes, bytes_eq_refl, bytes_eq_iff, Result, ok,
  err, inl, inr, Result-cases, Bool-cases, bind-eq-ok, ◌>>◌, require,
}
use u_paste.Capability.{OwnerToken, share_id_bytes, verifier}
use u_paste.Domain.{file, standard, kind_string, privacy_string}
use u_paste.Domain.Laws.{kind_string-parses, privacy_string-parses}
use u_paste.Database.{Db, ShareRow, FileRow, share_checks, accepts, file_checks}
use u_paste.Database.Statements.{insert_share, insert_file}
use u_paste.Database.Tables.{find, is_present}
use u_paste.ObjectStore.{Store, Staged}
use u_paste.Share.{Env, Error, Share, File, insert_metadata, insert_payload, database}
use u_paste.Share.Create.{metadata_row, insert_metadata_row}
use u_paste.Share.Files.{
  file_of, file_draft, file_row, record_file, file_transaction, settle, create_staged, create_file,
}
use u_paste.Share.Transactions.{execute, execute-eq-ok}
use u_paste.Share.Consistent.{fits, row_fits, payload_fits, is_share_id, IsConsistent}
use u_paste.Share.Consistent.Creates.{absent_payloads, IsRandom, generated-is_share_id}
use u_paste.Share.Consistent.Frame.{
  IsConsistent-of_Frame, Frame-trans, insert_share-Frame, insert_file-Frame, fits_at_of_rows,
}

file_row_fits :
    (id : Bytes) (row : ShareRow) (f : FileRow)
    → is_share_id id ≡ true
    → share_checks id row ≡ true
    → accepts (kind_string file) (privacy_string standard) (some row) ≡ true
    → file_checks f ≡ true
    → fits id (some row) none none (some f) ≡ true
unfolding fits row_fits payload_fits accepts
file_row_fits id row f v c a p =
    unfold share_checks in
    ground (
      arith,
      kind_string-parses file,
      privacy_string-parses standard,
      bytes_eq_iff row.payload_kind (kind_string file),
      bytes_eq_iff row.privacy_mode (privacy_string standard),
    )

insert_file-IsConsistent :
    (db db' db'' : Db) (id : Bytes) (row : ShareRow) (f : FileRow)
    → is_share_id id ≡ true
    → IsConsistent db
    → insert_share id row db ≡ some db'
    → insert_file id f db' ≡ some db''
    → IsConsistent db''
unfolding insert_share insert_file find is_present
insert_file-IsConsistent db db' db'' id row f v h a b =
    IsConsistent-of_Frame id h
      (Frame-trans id db db' db'' (insert_share-Frame id row db db' a)
        (insert_file-Frame id f db' db'' b))
      (fits_at_of_rows db'' id {s = some row} {t = none} {e = none} {f = some f}
        (ground (arith, bytes_eq_refl id, a, b))
        (ground (arith, bytes_eq_refl id, a, b, absent_payloads db id (h id)))
        (ground (arith, bytes_eq_refl id, a, b, absent_payloads db id (h id)))
        (ground (arith, bytes_eq_refl id, a, b))
        (file_row_fits id row f v (ground (arith, a)) (ground (arith, a, b, bytes_eq_refl id))
          (ground (arith, a, b))))

-- What a File transaction that returned has done.
pub record Recorded (store : Store) (env : Env) (share : Share) (value : File)
    (owner_verifier : Bytes) (staged : Staged) (db db'' : Db) (objects objects' : store.State)
    : Type 0 where
  pub with_share : Db
  pub share_inserted :
      insert_share share.id.value (metadata_row share owner_verifier) db ≡ some with_share
  pub file_inserted : insert_file share.id.value (file_row value) with_share ≡ some db''
  pub committed : (store.commit staged objects).0 ≡ true
  pub objects_after : objects' ≡ (store.commit staged objects).1

record_file-eq-ok :
    (env : Env) (id : Bytes) (value : File) (db db' : Db)
    → record_file env id value db ≡ ok db'
    → insert_file id (file_row value) db ≡ some db'
unfolding record_file
record_file-eq-ok env id value db db' h =
    let (d, a, r) =
      bind-eq-ok (execute env insert_payload (insert_file id (file_row value) db)) _ h in
    let same : d ≡ db' = ground (arith, r) in
    execute-eq-ok env insert_payload (insert_file id (file_row value) db) db' (rw (← same) a)

module _ (store : Store) (env : Env) (share : Share) (value : File) (owner_verifier : Bytes)
    (staged : Staged) (db : Db) (objects : store.State) where
  pub file_transaction-Recorded :
      (db'' : Db)
      → (file_transaction store env share value owner_verifier staged db objects).0 ≡ ok db''
      → Recorded store env share value owner_verifier staged db db'' objects
          (file_transaction store env share value owner_verifier staged db objects).1
  unfolding file_transaction
  file_transaction-Recorded db'' h =
      elim (Result-cases
        (require env.begins database >> insert_metadata_row env share owner_verifier db)) [
          | inr (e, r) ↦ ground (arith, r, h)
          | inl (db', r) ↦ elim (Bool-cases (store.commit staged objects).0) [
            | inr c ↦ ground (arith, r, c, h)
            | inl c ↦
                let (u, _, a) = bind-eq-ok (require env.begins database) _ r in
                record {
                  with_share = db';
                  share_inserted =
                      unfold insert_metadata_row in execute-eq-ok env insert_metadata _ db' a;
                  file_inserted =
                      record_file-eq-ok env share.id.value value db' db'' (ground (arith, r, c, h));
                  committed = c;
                  objects_after = ground (arith, r, c);
                }
          ]
        ]

module _ (store : Store) (env : Env) (random : IsRandom share_id_bytes env.random_id) where
  file_draft-is_share_id :
      (value : File) (expiration : Option ℕ) (share : Share) (token : OwnerToken)
      → file_draft env value expiration ≡ ok (share, token)
      → is_share_id share.id.value ≡ true
  file_draft-is_share_id value expiration share token h =
      generated-is_share_id env.random_id share.id random (unfold file_draft in ground (arith, h))

  settle-rows :
      (staged : Staged) (made : Share × OwnerToken) (db : Db) (r : Result Error Db × store.State)
      → IsConsistent db
      → ((db' : Db) → r.0 ≡ ok db' → IsConsistent db')
      → IsConsistent (settle store staged made db r).1
  unfolding settle
  settle-rows staged made db (ok db', objects) h k = k db' refl
  settle-rows staged made db (err e, objects) h k = h

  create_staged-IsConsistent :
      (filename : Bytes) (staged : Staged) (expiration : Option ℕ) (db : Db) (objects : store.State)
      → IsConsistent db
      → IsConsistent (create_staged store env filename staged expiration db objects).1
  unfolding create_staged
  create_staged-IsConsistent filename staged expiration db objects h =
      elim (Result-cases (file_draft env (file_of env filename staged) expiration)) [
        | inr (e, r) ↦ rw (r, create_staged) h
        | inl ((share, token), r) ↦
            rw (r, create_staged)
              (settle-rows staged (share, token) db
                (file_transaction store env share (file_of env filename staged)
                  (verifier env.sha256 token) staged db objects)
                h
                λ db' q.
                  let w =
                    file_transaction-Recorded store env share (file_of env filename staged)
                      (verifier env.sha256 token) staged db objects db' q in
                  insert_file-IsConsistent db w.with_share db' share.id.value _ _
                    (file_draft-is_share_id _ expiration share token r) h w.share_inserted
                    w.file_inserted)
      ]

  -- CreateFile, returned or failed, keeps the database consistent, if rand gives sixteen bytes
  -- for the Share ID or fails.
  pub create_file-IsConsistent :
      (filename : Bytes) (staged : Option Staged) (expiration : Option ℕ) (db : Db)
      (objects : store.State)
      → IsConsistent db
      → IsConsistent (create_file store env filename staged expiration db objects).1
  unfolding create_file
  create_file-IsConsistent filename none expiration db objects h = h
  create_file-IsConsistent filename (some staged) expiration db objects h =
      elim (Bool-cases env.has_store) [
        | inl e ↦
            rw (e, create_file) (create_staged-IsConsistent filename staged expiration db objects h)
        | inr e ↦ rw (e, create_file) h
      ]
