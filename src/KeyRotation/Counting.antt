-- ===== src/KeyRotation/Counting.antt =====
-- The counts of `executeRotation` in backend/src/services/keyRotationService.ts: a record whose key was
-- rewrapped counts as failed, since its checkpoint row has no batch id.
use Prim.Native.String.{String}
use remitlend.Base.{◌+◌, ◌≡◌, refl, ap, ◌∙◌, false, List, [], ◌∷◌, ◌++◌, All, arith, length}
use remitlend.KeyRotation.{
  EncryptedRecord, Database, RotationRecord, is_rotated, failed_to_rotate, max_retries,
  insert_failure,
}
use remitlend.KeyRotation.Kms.{Platform}
use remitlend.KeyRotation.Execution.{message, rotate_record_with_retry, rotate_each}
use remitlend.KeyRotation.Retrying.{IsRetried, rotate_record_with_retry-IsRetried}

-- No checkpoint row counts as rotated.
abbrev pub NoneRotated : {Buffer : Type 0} → Database Buffer → Type 0
NoneRotated db = All (λ c. is_rotated c.status ≡ false) db.records

module _ {Buffer : Type 0} (platform : Platform Buffer) (batch_id old new : String) where
  pub one_record :
      (r : EncryptedRecord Buffer) (db : Database Buffer)
      → IsRetried platform r old new max_retries 1 db
          (rotate_record_with_retry platform max_retries r old new 1 db)
  one_record r db =
      rotate_record_with_retry-IsRetried platform r old new max_retries 1 db (omega arith)
        (omega arith) (omega arith) (omega arith)

  -- The tables when a record has been tried, and its failure noted.
  abbrev pub tried : EncryptedRecord Buffer → Database Buffer → Database Buffer
  tried r db =
      insert_failure platform.uuid batch_id r
        (failed_to_rotate r.id (message (one_record r db).error))
        (rotate_record_with_retry platform max_retries r old new 1 db).1

  pub rotate_each_step :
      (r : EncryptedRecord Buffer) (rs : List (EncryptedRecord Buffer)) (db : Database Buffer)
      → let rest = rotate_each platform batch_id old new rs (tried r db) in
        rotate_each platform batch_id old new (r ∷ rs) db ≡ ((rest.0.0, rest.0.1 + 1), rest.1)
  unfolding rotate_each
  rotate_each_step r rs db = rw ((one_record r db).fails, rotate_each) refl

  pub rotate_each-empty :
      (db : Database Buffer) → rotate_each platform batch_id old new [] db ≡ ((0, 0), db)
  unfolding rotate_each
  rotate_each-empty db = refl

  pub rotate_each-counts :
      (rs : List (EncryptedRecord Buffer)) (db : Database Buffer)
      → (rotate_each platform batch_id old new rs db).0 ≡ (0, length rs)
  rotate_each-counts [] db = rw (rotate_each-empty db) refl
  rotate_each-counts (r ∷ rs) db =
      let h = rotate_each-counts rs (tried r db) in
      rw (rotate_each_step r rs db, h) (ap (λ n. (0, n)) (omega arith))

  pub rotate_each-batches :
      (rs : List (EncryptedRecord Buffer)) (db : Database Buffer)
      → (rotate_each platform batch_id old new rs db).1.batches ≡ db.batches
  rotate_each-batches [] db = rw (rotate_each-empty db) refl
  rotate_each-batches (r ∷ rs) db =
      rw (rotate_each_step r rs db)
        (rotate_each-batches rs (tried r db) ∙ (one_record r db).rotation.batches_kept)

  All-append :
      (P : RotationRecord Buffer → Type 0) (xs ys : List (RotationRecord Buffer))
      → All P xs
      → All P ys
      → All P (xs ++ ys)
  All-append P [] ys h k = k
  All-append P (x ∷ xs) ys h k = (h.0, All-append P xs ys h.1 k)

  pub rotate_each-NoneRotated :
      (rs : List (EncryptedRecord Buffer)) (db : Database Buffer)
      → NoneRotated db
      → NoneRotated (rotate_each platform batch_id old new rs db).1
  rotate_each-NoneRotated [] db h = rw (rotate_each-empty db) h
  rotate_each-NoneRotated (r ∷ rs) db h = rw (rotate_each_step r rs db) (
      rotate_each-NoneRotated rs (tried r db)
        (rw ((one_record r db).rotation.records_kept) (All-append _ db.records _ h (refl, tt))))
