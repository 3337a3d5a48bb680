-- ===== src/KeyRotation/Attempt.antt =====
-- One call of `rotateRecordWithRetry` in backend/src/services/keyRotationService.ts, and what the body of
-- its `try` leaves in the tables.
use Prim.Native.String.{String}
use remitlend.Base.{
  ℕ, ◌+◌, ◌≤◌, ◌<◌, ◌≡◌, refl, sym, ◌∙◌, ◌⊎◌, inl, inr, Bool, true, false, Bool-cases, ltb, map,
  arith, ltb→lt, ◌&&◌,
}
use remitlend.Base.Result.{Result, ok, err}
use remitlend.KeyRotation.{
  EncryptedRecord, Database, KeyRotationError, rotation_failed, max_retries, rewrap, database_error,
  null_batch_id, insert_checkpoint, update_field,
}
use remitlend.KeyRotation.Kms.{Platform, unwrap_dek, wrap_dek}
use remitlend.KeyRotation.Execution.{
  Outcome, message, is_retryable, rotation_backoff_ms, rotate_once, rotate_attempt,
}

pub and_right : (a b : Bool) → (a && b) ≡ true → b ≡ true
and_right a b h = ground arith

pub out_of_tries :
    {E A : Type 0} (r : Result E A) → ((a : A) × (r ≡ ok a)) ⊎ ((e : E) × (r ≡ err e))
out_of_tries (ok a) = inl (a, refl)
out_of_tries (err e) = inr (e, refl)

abbrev pub pause : {Buffer : Type 0} → ℕ → Database Buffer → Database Buffer
pause attempt db = record db { slept_ms = db.slept_ms + rotation_backoff_ms attempt }

module _ {Buffer : Type 0} (platform : Platform Buffer) (r : EncryptedRecord Buffer)
    (old new : String) where
  pub attempt-again :
      (f : ℕ → Database Buffer → Outcome Buffer (Unit {0})) (attempt : ℕ) (db : Database Buffer)
      (e : KeyRotationError)
      → (rotate_once platform r old new db).0 ≡ err e
      → (is_retryable e && ltb attempt max_retries) ≡ true
      → rotate_attempt platform r old new f attempt db
        ≡ f (attempt + 1) (pause attempt (rotate_once platform r old new db).1)
  unfolding rotate_attempt
  attempt-again f attempt db e q t = rw (q, rotate_attempt, t) refl

  pub attempt-gives_up :
      (f : ℕ → Database Buffer → Outcome Buffer (Unit {0})) (attempt : ℕ) (db : Database Buffer)
      (e : KeyRotationError)
      → (rotate_once platform r old new db).0 ≡ err e
      → (is_retryable e && ltb attempt max_retries) ≡ false
      → rotate_attempt platform r old new f attempt db
        ≡ (err (rotation_failed r.id (message e)), (rotate_once platform r old new db).1)
  unfolding rotate_attempt
  attempt-gives_up f attempt db e q t = rw (q, rotate_attempt, t) refl

  attempt-succeeds :
      (f : ℕ → Database Buffer → Outcome Buffer (Unit {0})) (attempt : ℕ) (db : Database Buffer)
      (a : Unit {0})
      → (rotate_once platform r old new db).0 ≡ ok a
      → rotate_attempt platform r old new f attempt db ≡ rotate_once platform r old new db
  unfolding rotate_attempt
  attempt-succeeds f attempt db a q = rw (q, rotate_attempt) refl

  pub attempt_cong :
      (f g : ℕ → Database Buffer → Outcome Buffer (Unit {0})) (attempt : ℕ) (db : Database Buffer)
      → (attempt < max_retries → (d : Database Buffer) → f (attempt + 1) d ≡ g (attempt + 1) d)
      → rotate_attempt platform r old new f attempt db
        ≡ rotate_attempt platform r old new g attempt db
  attempt_cong f g attempt db h = elim (out_of_tries (rotate_once platform r old new db).0) [
    | inl (a, q) ↦ attempt-succeeds f attempt db a q ∙ sym (attempt-succeeds g attempt db a q)
    | inr (e, q) ↦ elim (Bool-cases (is_retryable e && ltb attempt max_retries)) [
      | inl t ↦
          attempt-again f attempt db e q t
          ∙ h (ltb→lt attempt max_retries (and_right _ _ t)) _
          ∙ sym (attempt-again g attempt db e q t)
      | inr t ↦ attempt-gives_up f attempt db e q t ∙ sym (attempt-gives_up g attempt db e q t)
    ]
  ]

  -- A rotation by which the key of the record was rewrapped.
  pub record IsRewrapped (before after : Database Buffer) : Type 0 where
    pub call : ℕ
    pub dek : Buffer
    pub wrapped : Buffer
    pub opened : unwrap_dek platform call r.dek_wrapped old ≡ ok dek
    pub sealed : wrap_dek platform (call + 1) dek new ≡ ok wrapped
    pub written : after.fields ≡ map (rewrap r.id wrapped new) before.fields

  pub record IsRotation (before after : Database Buffer) : Type 0 where
    pub batches_kept : after.batches ≡ before.batches
    pub records_kept : after.records ≡ before.records
    pub uuids_kept : after.uuids ≡ before.uuids
    pub field : (after.fields ≡ before.fields) ⊎ IsRewrapped before after

  once-unwrap_fails :
      (db : Database Buffer) (e : KeyRotationError)
      → unwrap_dek platform db.calls r.dek_wrapped old ≡ err e
      → rotate_once platform r old new db ≡ (err e, record db { calls = db.calls + 1 })
  unfolding rotate_once
  once-unwrap_fails db e q = rw (q, rotate_once) refl

  once-wrap_fails :
      (db : Database Buffer) (dek : Buffer) (e : KeyRotationError)
      → unwrap_dek platform db.calls r.dek_wrapped old ≡ ok dek
      → wrap_dek platform (db.calls + 1) dek new ≡ err e
      → rotate_once platform r old new db ≡ (err e, record db { calls = db.calls + 2 })
  unfolding rotate_once
  once-wrap_fails db dek e q p = rw (q, rotate_once, p) refl

  once-writes :
      (db : Database Buffer) (dek wrapped : Buffer)
      → unwrap_dek platform db.calls r.dek_wrapped old ≡ ok dek
      → wrap_dek platform (db.calls + 1) dek new ≡ ok wrapped
      → rotate_once platform r old new db ≡ (
        err (database_error null_batch_id),
        update_field r.id wrapped new (record db { calls = db.calls + 2 }),
      )
  unfolding rotate_once insert_checkpoint
  once-writes db dek wrapped q p = rw (q, rotate_once, p) refl

  pub record IsOnce (db : Database Buffer) (out : Outcome Buffer (Unit {0})) : Type 0 where
    pub error : KeyRotationError
    pub fails : out.0 ≡ err error
    pub rotation : IsRotation db out.1
    pub final : (out.1.fields ≡ db.fields) ⊎ (is_retryable error ≡ false)
    pub calls_bound : out.1.calls ≤ db.calls + 2
    pub no_sleep : out.1.slept_ms ≡ db.slept_ms

  only_calls : (db : Database Buffer) (n : ℕ) → IsRotation db (record db { calls = n })
  only_calls db n = record {
    batches_kept = refl;
    records_kept = refl;
    uuids_kept = refl;
    field = inl refl;
  }

  pub rotate_once-IsOnce : (db : Database Buffer) → IsOnce db (rotate_once platform r old new db)
  rotate_once-IsOnce db = elim (out_of_tries (unwrap_dek platform db.calls r.dek_wrapped old)) [
    | inr (e, q) ↦ rw (once-unwrap_fails db e q) (record {
      error = e;
      fails = refl;
      rotation = only_calls db (db.calls + 1);
      final = inl refl;
      calls_bound = omega arith;
      no_sleep = refl;
    })
    | inl (dek, q) ↦ elim (out_of_tries (wrap_dek platform (db.calls + 1) dek new)) [
      | inr (e, p) ↦ rw (once-wrap_fails db dek e q p) (record {
        error = e;
        fails = refl;
        rotation = only_calls db (db.calls + 2);
        final = inl refl;
        calls_bound = omega arith;
        no_sleep = refl;
      })
      | inl (w, p) ↦ rw (once-writes db dek w q p) (record {
        error = database_error null_batch_id;
        fails = refl;
        rotation = record {
          batches_kept = refl;
          records_kept = refl;
          uuids_kept = refl;
          field = inr (record {
            call = db.calls;
            dek = dek;
            wrapped = w;
            opened = q;
            sealed = p;
            written = refl;
          });
        };
        final = inr refl;
        calls_bound = omega arith;
        no_sleep = refl;
      })
    ]
  ]
