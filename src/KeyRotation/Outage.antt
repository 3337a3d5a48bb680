-- ===== src/KeyRotation/Outage.antt =====
-- `executeRotation` of backend/src/services/keyRotationService.ts while the KMS does not answer.
use Prim.Native.String.{String}
use remitlend.Base.{
  ℕ, zero, suc, ◌+◌, ◌≤◌, ◌<◌, ◌≡◌, refl, ap, ◌∙◌, inl, inr, true, some, Option-cases, List, [],
  ◌∷◌, length, take, arith,
}
use remitlend.Base.Assoc.{lookup}
use remitlend.Base.Result.{ok, err}
use remitlend.KeyRotation.{
  EncryptedRecord, Database, KeyRotationBatchRecord, kms_unwrap_error, thrown, batch_size,
  in_progress,
}
use remitlend.KeyRotation.Kms.{Platform, rejected, includes_timeout, unwrap_dek}
use remitlend.KeyRotation.Execution.{on_kek, drop, scan, rotate_each}
use remitlend.KeyRotation.Operations.{execute_rotation, set_status}
use remitlend.KeyRotation.Counting.{one_record, tried, rotate_each_step, rotate_each-empty}
use remitlend.KeyRotation.Batch.{batch_after, execute_rotation-batch}
use remitlend.KeyRotation.Fields.{update_batch_keeps, execute_rotation_keeps}

length-take_full : {A : Type 0} (n : ℕ) (xs : List A) → n ≤ length xs → length (take n xs) ≡ n
length-take_full zero xs h = refl
length-take_full (suc n) [] h = absurd (omega (arith, h))
length-take_full (suc n) (x ∷ xs) h = ap suc (length-take_full n xs (omega (arith, h)))

length-drop : {A : Type 0} (n : ℕ) (xs : List A) → length xs ≤ n + length (drop n xs)
length-drop zero xs = omega arith
length-drop (suc n) [] = omega arith
length-drop (suc n) (x ∷ xs) = omega (arith, length-drop n xs)

module _ {Buffer : Type 0} (platform : Platform Buffer) where
  -- The runs of a batch, each at its time, one after the other.
  unfoldable pub run_times : List ℕ → String → Database Buffer → Database Buffer
  run_times [] id db = db
  run_times (now ∷ later) id db = run_times later id (execute_rotation platform now id db).1

module _ {Buffer : Type 0} (platform : Platform Buffer) (m : String)
    (remote : platform.has_endpoint ≡ true)
    (down : (call : ℕ) (kek : String) (w : Buffer) → platform.decrypt call kek w ≡ rejected m) where
  unwrap_dek-down :
      (call : ℕ) (w : Buffer) (kek : String)
      → unwrap_dek platform call w kek
        ≡ err (kms_unwrap_error (thrown m) (includes_timeout (thrown m)))
  unfolding unwrap_dek
  unwrap_dek-down call w kek = rw (remote, down call kek w) refl

  tried-fields :
      (id old new : String) (r : EncryptedRecord Buffer) (db : Database Buffer)
      → (tried platform id old new r db).fields ≡ db.fields
  tried-fields id old new r db = elim (one_record platform id old new r db).rotation.field [
    | inl p ↦ p
    | inr w ↦ absurd (cc (w.opened, unwrap_dek-down w.call r.dek_wrapped old))
  ]

  rotate_each-down :
      (id old new : String) (rs : List (EncryptedRecord Buffer)) (db : Database Buffer)
      → (rotate_each platform id old new rs db).1.fields ≡ db.fields
  rotate_each-down id old new [] db = rw (rotate_each-empty platform id old new db) refl
  rotate_each-down id old new (r ∷ rs) db = rw (rotate_each_step platform id old new r rs db) (
      rotate_each-down id old new rs (tried platform id old new r db)
      ∙ tried-fields id old new r db)

  execute_rotation-down :
      (now : ℕ) (id : String) (batch : KeyRotationBatchRecord) (db : Database Buffer)
      → lookup id db.batches ≡ some batch
      → (execute_rotation platform now id db).1.fields ≡ db.fields
  execute_rotation-down now id batch db h =
      execute_rotation_keeps (λ d. d.fields) (λ d n. refl) platform now id batch db h
      ∙ rotate_each-down id batch.old_kek_id batch.new_kek_id _ (set_status in_progress id db)
      ∙ update_batch_keeps (λ d. d.fields) (λ d n. refl) id (λ b. record b { status = in_progress })
          db

  scan_full :
      (batch : KeyRotationBatchRecord) (db : Database Buffer)
      → batch_size < length (on_kek batch.old_kek_id db.fields)
      → length (scan batch db) ≡ batch_size
  scan_full batch db long = elim (Option-cases batch.last_rotated_record_id) [
    | inl e ↦ rw e (length-take_full batch_size _ (omega (arith, long)))
    | inr (x, e) ↦ rw e (
        length-take_full batch_size _
          (omega (arith, long, length-drop 1 (on_kek batch.old_kek_id db.fields))))
  ]

  batch_after-old :
      (id : String) (now : ℕ) (batch : KeyRotationBatchRecord) (xs : List (EncryptedRecord Buffer))
      → (batch_after id now batch xs).old_kek_id ≡ batch.old_kek_id
  batch_after-old id now batch [] = refl
  batch_after-old id now batch (x ∷ xs) = ground arith

  -- The batch is there, and more rows are on its old KEK than one run takes.
  record IsWaiting (id old : String) (db : Database Buffer) : Type 0 where
    batch : KeyRotationBatchRecord
    stored : lookup id db.batches ≡ some batch
    same_old : batch.old_kek_id ≡ old
    long : batch_size < length (on_kek old db.fields)

  execute_rotation-IsWaiting :
      (now : ℕ) (id old : String) (db : Database Buffer)
      → IsWaiting id old db
      → IsWaiting id old (execute_rotation platform now id db).1
  execute_rotation-IsWaiting now id old db h = record {
    batch = batch_after id now h.batch (scan h.batch db);
    stored = (execute_rotation-batch id platform now h.batch db h.stored).1;
    same_old = batch_after-old id now h.batch (scan h.batch db) ∙ h.same_old;
    long = rw (execute_rotation-down now id h.batch db h.stored) (h.long);
  }

  run_times-IsWaiting :
      (nows : List ℕ) (id old : String) (db : Database Buffer)
      → IsWaiting id old db
      → IsWaiting id old (run_times platform nows id db)
  unfolding run_times
  run_times-IsWaiting [] id old db h = h
  run_times-IsWaiting (now ∷ later) id old db h =
      run_times-IsWaiting later id old _ (execute_rotation-IsWaiting now id old db h)

  -- While the KMS rejects every request, a batch with more rows on its old KEK than one run takes never
  -- stops: after any number of runs, the next run schedules another.
  pub outage_never_stops :
      (nows : List ℕ) (now : ℕ) (id : String) (batch : KeyRotationBatchRecord)
      (db : Database Buffer)
      → lookup id db.batches ≡ some batch
      → batch_size < length (on_kek batch.old_kek_id db.fields)
      → (execute_rotation platform now id (run_times platform nows id db)).0 ≡ ok true
  outage_never_stops nows now id batch db h long =
      let start : IsWaiting id batch.old_kek_id db = record {
        batch = batch;
        stored = h;
        same_old = refl;
        long = long;
      } in
      let w = run_times-IsWaiting nows id batch.old_kek_id db start in
      (execute_rotation-batch id platform now w.batch (run_times platform nows id db) w.stored).0
      ∙ (rw (scan_full w.batch (run_times platform nows id db) (rw (w.same_old) (w.long))) refl)
