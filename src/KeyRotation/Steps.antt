-- ===== src/KeyRotation/Steps.antt =====
-- Sequences of the operations of `KeyRotationService` in backend/src/services/keyRotationService.ts.
use Prim.Native.String.{String}
use remitlend.Base.{
  ℕ, ◌≡◌, refl, ap, ◌∙◌, inl, inr, false, ◌&&◌, Bool-cases, List, [], ◌∷◌, map, filter, none, All,
  arith, Option-cases, any,
}
use remitlend.Base.Assoc.{◌same◌, lookup}
use remitlend.KeyRotation.{RotationRecord, Database, is_rotated, is_in_progress, in_progress}
use remitlend.KeyRotation.Kms.{Platform, validate_kek_access}
use remitlend.KeyRotation.Execution.{scan}
use remitlend.KeyRotation.Operations.{
  resume_guard, set_status, execute_rotation, start_rotation, resume_rotation, rotated_by,
  verify_rotation, roll_back_record, roll_back_each, rollback_rotation,
}
use remitlend.KeyRotation.Sound.{IsSound}
use remitlend.KeyRotation.Keeping.{DistinctIds}
use remitlend.KeyRotation.Ids.{rotate_each-ids, DistinctIds-of_ids}
use remitlend.KeyRotation.Attempt.{out_of_tries}
use remitlend.KeyRotation.Counting.{NoneRotated, rotate_each-NoneRotated}
use remitlend.KeyRotation.Fields.{
  update_batch_keeps, execute_rotation_keeps, execute_rotation-deks, deks,
}

module _ {Buffer : Type 0} (platform : Platform Buffer)
    (pick : ℕ → List (RotationRecord Buffer) → List (RotationRecord Buffer)) where
  -- One operation. A run may start at any time, for any batch.
  pub data Step : Database Buffer → Database Buffer → Type 0 where
    starts :
        (now : ℕ) (batch_id current_kek_id new_kek_id actor request_id : String)
        (db : Database Buffer)
        → Step db
            (start_rotation platform now batch_id current_kek_id new_kek_id actor request_id db).1
    runs :
        (now : ℕ) (id : String) (db : Database Buffer)
        → Step db (execute_rotation platform now id db).1
    resumes : (id : String) (db : Database Buffer) → Step db (resume_rotation id db).1
    verifies :
        (now : ℕ) (id : String) (db : Database Buffer)
        → Step db (verify_rotation platform pick now id db).1
    rolls_back :
        (now : ℕ) (id reason : String) (db : Database Buffer)
        → Step db (rollback_rotation now id reason db).1

  pub data Steps : Database Buffer → Database Buffer → Type 0 where
    stays : (db : Database Buffer) → Steps db db
    follows : {a b c : Database Buffer} → Steps a b → Step b c → Steps a c

  start_rotation-tables :
      (now : ℕ) (batch_id current new actor request : String) (db : Database Buffer)
      → ((start_rotation platform now batch_id current new actor request db).1.fields ≡ db.fields)
        × ((start_rotation platform now batch_id current new actor request db).1.records
            ≡ db.records)
  unfolding start_rotation
  start_rotation-tables now batch_id current new actor request db =
      elim (Bool-cases (any (λ b. is_in_progress b.1.status) db.batches)) [
        | inl e ↦ rw (e, start_rotation) (refl, refl)
        | inr e ↦ elim (out_of_tries (validate_kek_access platform db.calls new)) [
          | inl (a, q) ↦ rw (e, start_rotation, q) (refl, refl)
          | inr (x, q) ↦ rw (e, start_rotation, q) (refl, refl)
        ]
      ]

  resume_rotation-tables :
      (id : String) (db : Database Buffer)
      → ((resume_rotation id db).1.fields ≡ db.fields)
        × ((resume_rotation id db).1.records ≡ db.records)
  unfolding resume_rotation
  resume_rotation-tables id db = elim (Option-cases (lookup id db.batches)) [
    | inl e ↦ rw (e, resume_rotation) (refl, refl)
    | inr (b, e) ↦ elim (out_of_tries (resume_guard b.status)) [
      | inl (a, q) ↦
          rw (e, resume_rotation, q)
            (
              update_batch_keeps (λ d. d.fields) (λ d m. refl) id _ db,
              update_batch_keeps (λ d. d.records) (λ d m. refl) id _ db,
            )
      | inr (x, q) ↦ rw (e, resume_rotation, q) (refl, refl)
    ]
  ]

  pub verify_rotation-tables :
      (now : ℕ) (id : String) (db : Database Buffer)
      → ((verify_rotation platform pick now id db).1.fields ≡ db.fields)
        × ((verify_rotation platform pick now id db).1.records ≡ db.records)
  unfolding verify_rotation
  verify_rotation-tables now id db = elim (Option-cases (lookup id db.batches)) [
    | inl e ↦ rw (e, verify_rotation) (refl, refl)
    | inr (b, e) ↦
        rw (e, verify_rotation)
          (
            update_batch_keeps (λ d. d.fields) (λ d m. refl) id _ _,
            update_batch_keeps (λ d. d.records) (λ d m. refl) id _ _,
          )
  ]

  roll_back_each-fields :
      (cs : List (RotationRecord Buffer)) (db : Database Buffer)
      → (roll_back_each cs db).fields ≡ db.fields
  unfolding roll_back_each
  roll_back_each-fields [] db = refl
  roll_back_each-fields (c ∷ cs) db = roll_back_each-fields cs (roll_back_record c db)

  pub none_rotated_by :
      (id : String) (cs : List (RotationRecord Buffer))
      → All (λ c. is_rotated c.status ≡ false) cs
      → filter (λ c. c.batch_id same id && is_rotated c.status) cs ≡ []
  none_rotated_by id [] h = refl
  none_rotated_by id (c ∷ cs) h = ground (arith, h.0, none_rotated_by id cs h.1)

  pub rollback_rotation-fields :
      (now : ℕ) (id reason : String) (db : Database Buffer)
      → (rollback_rotation now id reason db).1.fields ≡ db.fields
  unfolding rollback_rotation
  rollback_rotation-fields now id reason db = elim (Option-cases (lookup id db.batches)) [
    | inl e ↦ rw (e, rollback_rotation) refl
    | inr (b, e) ↦
        rw (e, rollback_rotation)
          (update_batch_keeps (λ d. d.fields) (λ d m. refl) id _ _
            ∙ roll_back_each-fields (rotated_by id db) db)
  ]

  pub rollback_rotation-records :
      (now : ℕ) (id reason : String) (db : Database Buffer)
      → NoneRotated db
      → (rollback_rotation now id reason db).1.records ≡ db.records
  unfolding rollback_rotation roll_back_each
  rollback_rotation-records now id reason db h = elim (Option-cases (lookup id db.batches)) [
    | inl e ↦ rw (e, rollback_rotation) refl
    | inr (b, e) ↦
        rw (e, rollback_rotation)
          (update_batch_keeps (λ d. d.records) (λ d m. refl) id _ _
            ∙ ap (λ cs. (roll_back_each cs db).records) (none_rotated_by id db.records h))
  ]

  execute_rotation-missing :
      (now : ℕ) (id : String) (db : Database Buffer)
      → lookup id db.batches ≡ none
      → (execute_rotation platform now id db).1 ≡ db
  unfolding execute_rotation
  execute_rotation-missing now id db e = rw (e, execute_rotation) refl

  execute_rotation-NoneRotated :
      (now : ℕ) (id : String) (db : Database Buffer)
      → NoneRotated db
      → NoneRotated (execute_rotation platform now id db).1
  execute_rotation-NoneRotated now id db h = elim (Option-cases (lookup id db.batches)) [
    | inl e ↦ rw (execute_rotation-missing now id db e) h
    | inr (b, e) ↦
        let started = set_status in_progress id db in
        rw (execute_rotation_keeps (λ d. d.records) (λ d m. refl) platform now id b db e) (
          rotate_each-NoneRotated platform id b.old_kek_id b.new_kek_id (scan b started) started (
            rw
              (update_batch_keeps (λ d. d.records) (λ d m. refl) id
                (λ b'. record b' { status = in_progress }) db)
              h))
  ]

  Step-NoneRotated : {a b : Database Buffer} → Step a b → NoneRotated a → NoneRotated b
  Step-NoneRotated (starts now batch_id k n actor req db) h =
      rw ((start_rotation-tables now batch_id k n actor req db).1) h
  Step-NoneRotated (runs now id db) h = execute_rotation-NoneRotated now id db h
  Step-NoneRotated (resumes id db) h = rw ((resume_rotation-tables id db).1) h
  Step-NoneRotated (verifies now id db) h = rw ((verify_rotation-tables now id db).1) h
  Step-NoneRotated (rolls_back now id reason db) h =
      rw (rollback_rotation-records now id reason db h) h

  pub steps-NoneRotated : {a b : Database Buffer} → Steps a b → NoneRotated a → NoneRotated b
  steps-NoneRotated (stays db) h = h
  steps-NoneRotated (follows s t) h = Step-NoneRotated t (steps-NoneRotated s h)

  module _ (opens : String → Buffer → Buffer) (sound : IsSound platform opens) where
    -- The ids are distinct, and the rows hold the given keys.
    abbrev pub Holds : List Buffer → Database Buffer → Type 0
    Holds keys db = DistinctIds db.fields × (deks opens db ≡ keys)

    execute_rotation-Holds :
        (keys : List Buffer) (now : ℕ) (id : String) (db : Database Buffer)
        → Holds keys db
        → Holds keys (execute_rotation platform now id db).1
    execute_rotation-Holds keys now id db h = elim (Option-cases (lookup id db.batches)) [
      | inl e ↦ rw (execute_rotation-missing now id db e) h
      | inr (b, e) ↦
          let started = set_status in_progress id db in
          let same_ids =
            ap (map (λ x. x.id))
              (execute_rotation_keeps (λ d. d.fields) (λ d m. refl) platform now id b db e)
            ∙ rotate_each-ids platform id b.old_kek_id b.new_kek_id (scan b started) started
            ∙ ap (map (λ x. x.id)) (
                update_batch_keeps (λ d. d.fields) (λ d m. refl) id
                  (λ b'. record b' { status = in_progress }) db) in
          (
            DistinctIds-of_ids _ db.fields same_ids h.0,
            execute_rotation-deks opens platform now id b db sound h.0 e ∙ h.1,
          )
    ]

    Step-Holds :
        (keys : List Buffer) {a b : Database Buffer} → Step a b → Holds keys a → Holds keys b
    Step-Holds keys (starts now batch_id k n actor req db) h =
        rw ((start_rotation-tables now batch_id k n actor req db).0) h
    Step-Holds keys (runs now id db) h = execute_rotation-Holds keys now id db h
    Step-Holds keys (resumes id db) h = rw ((resume_rotation-tables id db).0) h
    Step-Holds keys (verifies now id db) h = rw ((verify_rotation-tables now id db).0) h
    Step-Holds keys (rolls_back now id reason db) h =
        rw (rollback_rotation-fields now id reason db) h

    pub steps-Holds :
        (keys : List Buffer) {a b : Database Buffer} → Steps a b → Holds keys a → Holds keys b
    steps-Holds keys (stays db) h = h
    steps-Holds keys (follows s t) h = Step-Holds keys t (steps-Holds keys s h)
