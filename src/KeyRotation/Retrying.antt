-- ===== src/KeyRotation/Retrying.antt =====
-- `rotateRecordWithRetry` of backend/src/services/keyRotationService.ts: it ends, within bounds, and what
-- one record's rotation leaves in the tables.
use Prim.Native.String.{String}
use remitlend.Base.{
  Bool, List, ℕ, zero, suc, ◌+◌, ◌*◌, ◌≤◌, ◌<◌, ◌≡◌, refl, ◌∙◌, ap, ◌⊎◌, inl, inr, true, false,
  Bool-cases, ltb, map, arith, ltb→lt, ◌&&◌,
}
use remitlend.Base.Result.{Result, ok, err}
use remitlend.KeyRotation.{
  EncryptedRecord, Database, KeyRotationError, rotation_failed, max_retries, rewrap,
}
use remitlend.KeyRotation.Kms.{Platform}
use remitlend.KeyRotation.Execution.{
  Outcome, message, is_retryable, rotation_backoff_ms, rotate_once, rotate_record_with_retry,
}
use remitlend.KeyRotation.Attempt.{
  and_right, pause, attempt-again, attempt-gives_up, IsRotation, rotate_once-IsOnce,
}
use remitlend.KeyRotation.Fuel.{backoff_doubles, backoff_at_most}

plus_zero : (a : ℕ) → a + 0 ≡ a
plus_zero a = omega arith

plus_one : (a n : ℕ) → a + suc n ≡ a + 1 + n
plus_one a n = omega arith

and_left : (a b : Bool) → (a && b) ≡ true → a ≡ true
and_left a b h = ground arith

abbrev pub failed_for_now : {A : Type 0} → Result KeyRotationError A → Bool
failed_for_now (ok _) = false
failed_for_now (err e) = is_retryable e

module _ {Buffer : Type 0} (platform : Platform Buffer) (r : EncryptedRecord Buffer)
    (old new : String) where
  -- The tables after so many attempts that failed, the first of this number, each with its sleep.
  unfoldable pub after_attempts : ℕ → ℕ → Database Buffer → Database Buffer
  after_attempts attempt zero db = db
  after_attempts attempt (suc n) db =
      after_attempts (attempt + 1) n (pause attempt (rotate_once platform r old new db).1)

  -- Each of so many attempts fails with an error that may be retried.
  unfoldable pub all_retried : ℕ → ℕ → Database Buffer → Bool
  all_retried attempt zero db = true
  all_retried attempt (suc n) db =
      failed_for_now (rotate_once platform r old new db).0
      && all_retried (attempt + 1) n (pause attempt (rotate_once platform r old new db).1)

  all_retried-suc :
      (attempt n : ℕ) (db : Database Buffer) (e : KeyRotationError)
      → (rotate_once platform r old new db).0 ≡ err e
      → is_retryable e ≡ true
      → all_retried (attempt + 1) n (pause attempt (rotate_once platform r old new db).1) ≡ true
      → all_retried attempt (suc n) db ≡ true
  unfolding all_retried
  all_retried-suc attempt n db e h k rest = rw (all_retried, h, k) rest

  pub record IsRetried (fuel attempt : ℕ) (db : Database Buffer) (out : Outcome Buffer (Unit {0}))
      : Type 0 where
    pub error : KeyRotationError
    pub fails : out.0 ≡ err (rotation_failed r.id (message error))
    pub failed_before : ℕ
    pub last :
        rotate_once platform r old new (after_attempts attempt failed_before db)
        ≡ (err error, out.1)
    pub before_retried : all_retried attempt failed_before db ≡ true
    pub no_more : (is_retryable error && ltb (attempt + failed_before) max_retries) ≡ false
    pub in_range : attempt + failed_before ≤ max_retries
    pub rotation : IsRotation platform r old new db out.1
    pub calls_bound : out.1.calls ≤ db.calls + 2 * fuel
    pub slept_bound : out.1.slept_ms + rotation_backoff_ms attempt ≤ db.slept_ms + 2000

  then-IsRotation :
      (before middle after : Database Buffer)
      → IsRotation platform r old new before middle
      → middle.fields ≡ before.fields
      → IsRotation platform r old new middle after
      → IsRotation platform r old new before after
  then-IsRotation before middle after h k t = record {
    batches_kept = t.batches_kept ∙ h.batches_kept;
    records_kept = t.records_kept ∙ h.records_kept;
    uuids_kept = t.uuids_kept ∙ h.uuids_kept;
    field = elim t.field [
      | inl p ↦ inl (p ∙ k)
      | inr w ↦ inr (record {
        call = w.call;
        dek = w.dek;
        wrapped = w.wrapped;
        opened = w.opened;
        sealed = w.sealed;
        written = w.written ∙ ap (map (rewrap r.id w.wrapped new)) k;
      })
    ];
  }

  paused :
      (attempt : ℕ) (before after : Database Buffer)
      → IsRotation platform r old new before after
      → IsRotation platform r old new before (pause attempt after)
  paused attempt before after h = record {
    batches_kept = h.batches_kept;
    records_kept = h.records_kept;
    uuids_kept = h.uuids_kept;
    field = elim h.field [
      | inl p ↦ inl p
      | inr w ↦ inr (record {
        call = w.call;
        dek = w.dek;
        wrapped = w.wrapped;
        opened = w.opened;
        sealed = w.sealed;
        written = w.written;
      })
    ];
  }

  unchanged :
      {before after : List (EncryptedRecord Buffer)} (e : KeyRotationError) (attempt : ℕ)
      → (after ≡ before) ⊎ (is_retryable e ≡ false)
      → (is_retryable e && ltb attempt max_retries) ≡ true
      → after ≡ before
  unchanged e attempt (inl p) t = p
  unchanged e attempt (inr n) t = absurd (ground (arith, n, t))

  pub rotate_record_with_retry-IsRetried :
      (fuel attempt : ℕ) (db : Database Buffer)
      → 1 ≤ fuel
      → 1 ≤ attempt
      → attempt ≤ max_retries
      → max_retries < fuel + attempt
      → IsRetried fuel attempt db (rotate_record_with_retry platform fuel r old new attempt db)
  unfolding rotate_record_with_retry after_attempts all_retried
  rotate_record_with_retry-IsRetried zero attempt db one low high enough =
      absurd (omega (arith, one))
  rotate_record_with_retry-IsRetried (suc fuel) attempt db one low high enough =
      let first = rotate_once-IsOnce platform r old new db in
      let f = rotate_record_with_retry platform fuel r old new in
      elim (Bool-cases (is_retryable first.error && ltb attempt max_retries)) [
        | inr t ↦
            rw (attempt-gives_up platform r old new f attempt db first.error first.fails t)
              (record {
                error = first.error;
                fails = refl;
                failed_before = 0;
                before_retried = refl;
                last = ap (λ e. (e, (rotate_once platform r old new db).1)) first.fails;
                no_more =
                    ap (λ a. is_retryable first.error && ltb a max_retries) (plus_zero attempt) ∙ t;
                in_range = omega (arith, high);
                rotation = first.rotation;
                calls_bound = omega (arith, first.calls_bound);
                slept_bound = omega (arith, first.no_sleep, backoff_at_most attempt high);
              })
        | inl t ↦
            let below =
              ltb→lt attempt max_retries
                (and_right (is_retryable first.error) (ltb attempt max_retries) t) in
            let rest =
              rotate_record_with_retry-IsRetried fuel (attempt + 1)
                (pause attempt (rotate_once platform r old new db).1) (omega (arith, below, enough))
                (omega arith) (omega (arith, below)) (omega (arith, enough)) in
            rw (attempt-again platform r old new f attempt db first.error first.fails t) (record {
              error = rest.error;
              fails = rest.fails;
              failed_before = suc rest.failed_before;
              last = rest.last;
              before_retried =
                  all_retried-suc attempt rest.failed_before db first.error first.fails
                    (and_left (is_retryable first.error) (ltb attempt max_retries) t)
                    rest.before_retried;
              no_more =
                  ap (λ a. is_retryable rest.error && ltb a max_retries)
                    (plus_one attempt rest.failed_before)
                  ∙ rest.no_more;
              in_range = omega (arith, rest.in_range);
              rotation =
                  then-IsRotation _ _ _ (paused attempt _ _ first.rotation)
                    (unchanged first.error attempt first.final t) rest.rotation;
              calls_bound = omega (arith, first.calls_bound, rest.calls_bound);
              slept_bound =
                  omega
                    (arith, first.no_sleep, rest.slept_bound, backoff_doubles attempt low below);
            })
      ]

  -- The rotation of a record always ends: it throws the error that wraps its last attempt's and leaves what
  -- that attempt left. The last attempt is the first that fails for good or the third, each before it having
  -- failed and slept; all make at most six requests to the KMS and sleep 1500 milliseconds.
  pub rotate_record_with_retry_ends :
      (db : Database Buffer)
      → let out = rotate_record_with_retry platform max_retries r old new 1 db in
        ((n : ℕ) × (e : KeyRotationError) × (all_retried 1 n db ≡ true)
          × (rotate_once platform r old new (after_attempts 1 n db) ≡ (err e, out.1))
          × (out.0 ≡ err (rotation_failed r.id (message e)))
          × ((is_retryable e && ltb (1 + n) max_retries) ≡ false)
          × (1 + n ≤ max_retries))
        × (out.1.calls ≤ db.calls + 6)
        × (out.1.slept_ms ≤ db.slept_ms + 1500)
  unfolding rotation_backoff_ms
  rotate_record_with_retry_ends db =
      let h =
        rotate_record_with_retry-IsRetried max_retries 1 db (omega arith) (omega arith)
          (omega arith) (omega arith) in
      (
        (h.failed_before, h.error, h.before_retried, h.last, h.fails, h.no_more, h.in_range),
        omega (arith, h.calls_bound),
        omega (arith, h.slept_bound),
      )
