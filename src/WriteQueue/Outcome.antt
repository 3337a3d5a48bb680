-- ===== src/WriteQueue/Outcome.antt =====
-- The rows that a replay pass leaves, by where a write stands in the ready list.
use Prim.Native.String.{String}
use mathlib.Core.Option
use mathlib.Core.Path.{subst}
use remitlend.Base.{
  ℕ, ◌+◌, ◌<◌, ◌≡◌, inl, inr, refl, ◌∙◌, ap, Bool-cases, ==_iff, Option, none, some, List, [], ◌∷◌,
  arith, All, ◌==◌, if◌then◌else◌,
}
use remitlend.Base.Result.{Result, ok, err}
use remitlend.WriteQueue.{
  QueuedWrite, Store, QueueConfig, pending, applied, mark_applied, mark_pending_after_failure,
  mark_failed, backoff_ms,
}
use remitlend.WriteQueue.Rows.{find_id, find_id-update}

module _ {P : Type 0} where
  -- The row of a write after it was applied, and after its replay failed.
  abbrev pub as_applied : ℕ → QueuedWrite P → QueuedWrite P
  as_applied now w = record w { status = applied; updated_at = now }

  abbrev pub as_failed : QueueConfig → ℕ → String → QueuedWrite P → QueuedWrite P
  as_failed cfg now message w = record w {
    status = pending;
    attempts = w.attempts + 1;
    last_error = some message;
    next_attempt_at = now + backoff_ms cfg (w.attempts + 1);
    updated_at = now;
  }

  pub find-mark_applied :
      (now id j : ℕ) (s : Store P)
      → find_id j (mark_applied now id s).rows
        ≡ (if id == j then Option.map (as_applied now) (find_id j s.rows) else find_id j s.rows)
  unfolding mark_applied
  find-mark_applied now id j s = find_id-update id _ (λ r. (refl, refl)) j s.rows

  -- The writes before the first that fails.
  abbrev pub succeeding :
      (QueuedWrite P → Result String (Unit {0})) → List (QueuedWrite P) → List (QueuedWrite P)
  succeeding submit [] = []
  succeeding submit (w ∷ ws) = elim (submit w) [ ok _ ↦ w ∷ succeeding submit ws | err _ ↦ [] ]

  abbrev pub first_failure :
      (QueuedWrite P → Result String (Unit {0}))
      → List (QueuedWrite P)
      → Option (QueuedWrite P × String)
  first_failure submit [] = none
  first_failure submit (w ∷ ws) = elim (submit w) [
    | ok _ ↦ first_failure submit ws
    | err m ↦ some (w, m)
  ]

  abbrev pub failures : Option (QueuedWrite P × String) → ℕ
  failures none = 0
  failures (some _) = 1

  -- The row of a write that the pass leaves in the store, by where the write stands in the ready list.
  abbrev pub expected :
      QueueConfig
      → ℕ
      → (QueuedWrite P → Result String (Unit {0}))
      → List (QueuedWrite P)
      → ℕ
      → Option (QueuedWrite P)
      → Option (QueuedWrite P)
  expected cfg now submit [] j old = old
  expected cfg now submit (w ∷ ws) j old = elim (submit w) [
    | ok _ ↦ if w.id == j then some (as_applied now w) else expected cfg now submit ws j old
    | err m ↦ if w.id == j then some (as_failed cfg now m w) else old
  ]

  pub expected-absent :
      (cfg : QueueConfig) (now : ℕ) (submit : QueuedWrite P → Result String (Unit {0}))
      (ws : List (QueuedWrite P)) (j : ℕ) (old : Option (QueuedWrite P))
      → All (λ x. j < x.id) ws
      → expected cfg now submit ws j old ≡ old
  expected-absent cfg now submit [] j old h = refl
  expected-absent cfg now submit (w ∷ ws) j old h =
      ground (arith, expected-absent cfg now submit ws j old h.1)

  pub find-mark_failed :
      (cfg : QueueConfig) (now id : ℕ) (m : String) (n j : ℕ) (s : Store P)
      → find_id j (mark_failed cfg now id m n s).1.rows ≡ (
          if id == j
          then Option.map {A = QueuedWrite P}
              (λ w. record w {
                status = pending;
                attempts = w.attempts + 1;
                last_error = some m;
                next_attempt_at = now + backoff_ms cfg n;
                updated_at = now;
              })
              (find_id j s.rows)
          else find_id j s.rows)
  unfolding mark_failed mark_pending_after_failure
  find-mark_failed cfg now id m n j s = find_id-update id _ (λ r. (refl, refl)) j s.rows

  pub still_found :
      (now : ℕ) (w : QueuedWrite P) (ws : List (QueuedWrite P)) (s : Store P)
      → All (λ x. w.id < x.id) ws
      → All (λ x. find_id x.id s.rows ≡ some x) ws
      → All (λ x. find_id x.id (mark_applied now w.id s).rows ≡ some x) ws
  still_found now w [] s h k = tt
  still_found now w (x ∷ ws) s h k =
      (find-mark_applied now w.id x.id s ∙ ground (arith, k.0), still_found now w ws s h.1 k.1)

  module _ (cfg : QueueConfig) (submit : QueuedWrite P → Result String (Unit {0})) (now : ℕ) where
    pub applied_self :
        (w : QueuedWrite P) (ws : List (QueuedWrite P)) (s : Store P)
        → All (λ x. w.id < x.id) ws
        → find_id w.id s.rows ≡ some w
        → expected cfg now submit ws w.id (find_id w.id (mark_applied now w.id s).rows)
          ≡ some (as_applied now w)
    applied_self w ws s asc found =
        expected-absent cfg now submit ws w.id (find_id w.id (mark_applied now w.id s).rows) asc
        ∙ find-mark_applied now w.id w.id s
        ∙ ground (arith, found)

    pub applied_step :
        (w : QueuedWrite P) (ws : List (QueuedWrite P)) (j : ℕ) (s : Store P)
        → All (λ x. w.id < x.id) ws
        → find_id w.id s.rows ≡ some w
        → expected cfg now submit ws j (find_id j (mark_applied now w.id s).rows) ≡ (
            if w.id == j
            then some (as_applied now w)
            else expected cfg now submit ws j (find_id j s.rows))
    applied_step w ws j s asc found = elim (Bool-cases (w.id == j)) [
      | inl e ↦ rw e (
          subst
            (λ k.
              expected cfg now submit ws k (find_id k (mark_applied now w.id s).rows)
              ≡ some (as_applied now w))
            ((==_iff w.id j).0 e) (applied_self w ws s asc found))
      | inr e ↦ rw e (ap (expected cfg now submit ws j) (find-mark_applied now w.id j s ∙ (rw e)))
    ]

    pub expected-ok :
        (w : QueuedWrite P) (ws : List (QueuedWrite P)) (j : ℕ) (old : Option (QueuedWrite P))
        → submit w ≡ ok tt
        → expected cfg now submit (w ∷ ws) j old
          ≡ (if w.id == j then some (as_applied now w) else expected cfg now submit ws j old)
    expected-ok w ws j old e = rw (e, expected)

    pub expected-err :
        (w : QueuedWrite P) (ws : List (QueuedWrite P)) (j : ℕ) (old : Option (QueuedWrite P))
        {m : String}
        → submit w ≡ err m
        → expected cfg now submit (w ∷ ws) j old
          ≡ (if w.id == j then some (as_failed cfg now m w) else old)
    expected-err w ws j old e = rw (e, expected)

    pub failed_step :
        (w : QueuedWrite P) (m : String) (j : ℕ) (s : Store P)
        → find_id w.id s.rows ≡ some w
        → find_id j (mark_failed cfg now w.id m (w.attempts + 1) s).1.rows
          ≡ (if w.id == j then some (as_failed cfg now m w) else find_id j s.rows)
    failed_step w m j s found = elim (Bool-cases (w.id == j)) [
      | inl e ↦ rw e (
          subst
            (λ k.
              find_id k (mark_failed cfg now w.id m (w.attempts + 1) s).1.rows
              ≡ some (as_failed cfg now m w))
            ((==_iff w.id j).0 e)
            (find-mark_failed cfg now w.id m (w.attempts + 1) w.id s ∙ ground (arith, found)))
      | inr e ↦ rw e (find-mark_failed cfg now w.id m (w.attempts + 1) j s ∙ (rw e))
    ]
