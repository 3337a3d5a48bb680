-- ===== src/KeyRotation/Fields.antt =====
-- How the runs of backend/src/services/keyRotationService.ts change `pii_encrypted_fields`.
use Prim.Native.String.{String}
use remitlend.Base.{
  ℕ, ◌≡◌, refl, ap, ◌∙◌, inl, inr, Bool-cases, List, [], ◌∷◌, map, some, Option-cases, ltb, ◌==◌,
  length,
}
use remitlend.Base.Assoc.{Assoc, lookup}
use remitlend.KeyRotation.{
  EncryptedRecord, Database, KeyRotationBatchRecord, update_batch, batch_size, in_progress,
}
use remitlend.KeyRotation.Kms.{Platform}
use remitlend.KeyRotation.Execution.{scan, rotate_each}
use remitlend.KeyRotation.Keeping.{
  DistinctIds, dek_of, Scanned, rotate_each-deks, filter-Scanned, drop-Scanned, take-Scanned,
  distinct-Matches,
}
use remitlend.KeyRotation.Sound.{IsSound}
use remitlend.KeyRotation.Operations.{
  set_status, add_progress, finish_run, rotate_scanned, execute_rotation,
}
use remitlend.KeyRotation.Batch.{execute_rotation_started, update_batch_lem}

-- What is read of the tables other than `key_rotation_batch`.
module _ {Buffer X : Type 0} (view : Database Buffer → X)
    (apart : (db : Database Buffer) (m : Assoc KeyRotationBatchRecord)
      → view (record db { batches = m }) ≡ view db) where
  pub update_batch_keeps :
      (id : String) (f : KeyRotationBatchRecord → KeyRotationBatchRecord) (db : Database Buffer)
      → view (update_batch id f db) ≡ view db
  update_batch_keeps id f db = elim (Option-cases (lookup id db.batches)) [
    | inl e ↦ rw (e, update_batch) refl
    | inr (b, e) ↦ rw (update_batch_lem id f b db e) (apart db _)
  ]

  finish_run_keeps :
      (now : ℕ) (id : String) (db : Database Buffer) → view (finish_run now id db) ≡ view db
  unfolding finish_run
  finish_run_keeps now id db = elim (Option-cases (lookup id db.batches)) [
    | inl e ↦ rw (e, finish_run) refl
    | inr (b, e) ↦ elim (Bool-cases (ltb 0 b.total_records_failed)) [
      | inl t ↦ rw (e, finish_run, t) (update_batch_keeps id _ db)
      | inr t ↦ rw (e, finish_run, t) (update_batch_keeps id _ db)
    ]
  ]

  add_progress_keeps :
      (counts : ℕ × ℕ) (last id : String) (db : Database Buffer)
      → view (add_progress counts last id db) ≡ view db
  unfolding add_progress
  add_progress_keeps counts last id db = update_batch_keeps id _ db

  rotate_scanned_keeps :
      (platform : Platform Buffer) (now : ℕ) (id : String) (batch : KeyRotationBatchRecord)
      (xs : List (EncryptedRecord Buffer)) (db : Database Buffer)
      → view (rotate_scanned platform now id batch xs db).1
        ≡ view (rotate_each platform id batch.old_kek_id batch.new_kek_id xs db).1
  unfolding rotate_scanned rotate_each
  rotate_scanned_keeps platform now id batch [] db = update_batch_keeps id _ db
  rotate_scanned_keeps platform now id batch (r ∷ rs) db =
      elim (Bool-cases (length (r ∷ rs) == batch_size)) [
        | inl e ↦ rw (e, rotate_scanned) (add_progress_keeps _ _ id _)
        | inr e ↦ rw (e, rotate_scanned) (finish_run_keeps now id _ ∙ add_progress_keeps _ _ id _)
      ]

  pub execute_rotation_keeps :
      (platform : Platform Buffer) (now : ℕ) (id : String) (batch : KeyRotationBatchRecord)
      (db : Database Buffer)
      → lookup id db.batches ≡ some batch
      → let started = set_status in_progress id db in
        view (execute_rotation platform now id db).1
        ≡ view
            (rotate_each platform id batch.old_kek_id batch.new_kek_id
              (scan batch started)
              started).1
  execute_rotation_keeps platform now id batch db h =
      rw (execute_rotation_started id platform now batch db h)
        (rotate_scanned_keeps platform now id batch _ _)

module _ {Buffer : Type 0} (opens : String → Buffer → Buffer) where
  -- The data encryption keys of the rows, in the order of the table.
  abbrev pub deks : Database Buffer → List Buffer
  deks db = map (dek_of opens) db.fields

  scan-Scanned :
      (batch : KeyRotationBatchRecord) (db : Database Buffer)
      → DistinctIds db.fields
      → Scanned opens batch.old_kek_id (scan batch db) db.fields
  scan-Scanned batch db h = take-Scanned opens batch.old_kek_id batch_size _ db.fields (
      drop-Scanned opens batch.old_kek_id _ _ db.fields (
        filter-Scanned opens batch.old_kek_id db.fields db.fields
          (distinct-Matches opens batch.old_kek_id db.fields h)))

  -- No run loses a key: when the KMS and the cipher are sound and the rows' ids are distinct, every row
  -- still opens, under the KEK that it names, to the key that it held before the run.
  pub execute_rotation-deks :
      (platform : Platform Buffer) (now : ℕ) (id : String) (batch : KeyRotationBatchRecord)
      (db : Database Buffer)
      → IsSound platform opens
      → DistinctIds db.fields
      → lookup id db.batches ≡ some batch
      → deks (execute_rotation platform now id db).1 ≡ deks db
  execute_rotation-deks platform now id batch db sound distinct h =
      let started = set_status in_progress id db in
      let same_fields : started.fields ≡ db.fields =
        update_batch_keeps (λ d. d.fields) (λ d m. refl) id _ db in
      rw (execute_rotation_keeps (λ d. d.fields) (λ d m. refl) platform now id batch db h) (
        rotate_each-deks opens batch.old_kek_id platform sound id batch.new_kek_id
          (scan batch started) started (scan-Scanned batch started (rw same_fields distinct))
        ∙ ap (map (dek_of opens)) same_fields)
