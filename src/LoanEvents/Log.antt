-- ===== src/LoanEvents/Log.antt =====
-- loanStateEventStore.ts: the append-only log, `emitLoanStateEvent` and `getLoanStateEvents`. The id that
-- the table's sequence gives, the random event id and the clock are arguments. A payload is any type.
use Prim.Native.String.{String}
use text.Mathlib.TextEquality.{eq_iff}
use remitlend.Base.{
  ℕ, ◌≡◌, refl, Bool, true, ◌&&◌, ◌||◌, Option, none, some, List, [], ◌∷◌, ◌++◌, ltb, leb, ◌==◌,
  any, filter, take, if◌then◌else◌, arith, Bool-cases, inl, inr,
}
use remitlend.Base.Assoc.{◌same◌}
use remitlend.LoanEvents.{event_limit}

pub record LoanStateEvent (P : Type 0) : Type 0 where
  pub id : ℕ
  pub event_id : String
  pub loan_id : ℕ
  pub event_type : String
  pub payload : P
  pub actor : Option String
  pub occurred_at : ℕ

pub record EmitInput (P : Type 0) : Type 0 where
  pub event_id : Option String
  pub loan_id : ℕ
  pub event_type : String
  pub payload : Option P
  pub actor : Option String
  pub occurred_at : Option ℕ

abbrev pub or_else : {A : Type 0} → Option A → A → A
or_else none a = a
or_else (some x) _ = x

module _ {P : Type 0} where
  abbrev pub has_event_id : String → LoanStateEvent P → Bool
  has_event_id k e = e.event_id same k

  -- `ON CONFLICT (event_id) DO NOTHING`: the stored event, if it was stored, and the log. `empty` is the
  -- payload `{}`, and `fresh` the random id.
  unfoldable pub emit_loan_state_event :
      ℕ
      → String
      → P
      → ℕ
      → EmitInput P
      → List (LoanStateEvent P)
      → Option (LoanStateEvent P) × List (LoanStateEvent P)
  emit_loan_state_event id fresh empty now input log =
      let key = or_else input.event_id fresh in
      let event : LoanStateEvent P = record {
        id = id;
        event_id = key;
        loan_id = input.loan_id;
        event_type = input.event_type;
        payload = or_else input.payload empty;
        actor = input.actor;
        occurred_at = or_else input.occurred_at now;
      } in
      if any (has_event_id key) log then (none, log) else (some event, log ++ event ∷ [])

  -- `ORDER BY occurred_at ASC, id ASC`.
  abbrev pub comes_first : LoanStateEvent P → LoanStateEvent P → Bool
  comes_first a b =
      ltb a.occurred_at b.occurred_at || ((a.occurred_at == b.occurred_at) && leb a.id b.id)

  unfoldable pub insert_event : LoanStateEvent P → List (LoanStateEvent P) → List (LoanStateEvent P)
  insert_event e [] = e ∷ []
  insert_event e (x ∷ xs) = if comes_first e x then e ∷ x ∷ xs else x ∷ insert_event e xs

  unfoldable pub sort_events : List (LoanStateEvent P) → List (LoanStateEvent P)
  sort_events [] = []
  sort_events (e ∷ es) = insert_event e (sort_events es)

  abbrev pub is_before : Option ℕ → LoanStateEvent P → Bool
  is_before none e = true
  is_before (some before_id) e = ltb e.id before_id

  unfoldable pub get_loan_state_events :
      ℕ → Option ℕ → Option ℕ → List (LoanStateEvent P) → List (LoanStateEvent P)
  get_loan_state_events loan_id limit before_id log =
      take (event_limit limit)
        (sort_events (filter (λ e. (e.loan_id == loan_id) && is_before before_id e) log))

  any-append_one :
      (k : String) (log : List (LoanStateEvent P)) (e : LoanStateEvent P)
      → e.event_id ≡ k
      → any (has_event_id k) (log ++ e ∷ []) ≡ true
  any-append_one k [] e h = ground (arith, eq_iff e.event_id k)
  any-append_one k (x ∷ xs) e h = ground (arith, any-append_one k xs e h)

  -- Emitting an event under an explicit id a second time, with whatever content, stores nothing and leaves
  -- the log as the first emission left it.
  pub emit_twice :
      (id later_id now later : ℕ) (fresh again key : String) (empty : P)
      (first second : EmitInput P) (log : List (LoanStateEvent P))
      → first.event_id ≡ some key
      → second.event_id ≡ some key
      → let log' = (emit_loan_state_event id fresh empty now first log).1 in
        emit_loan_state_event later_id again empty later second log' ≡ (none, log')
  unfolding emit_loan_state_event
  emit_twice id later_id now later fresh again key empty first second log e f =
      let event : LoanStateEvent P = record {
        id = id;
        event_id = key;
        loan_id = first.loan_id;
        event_type = first.event_type;
        payload = or_else first.payload empty;
        actor = first.actor;
        occurred_at = or_else first.occurred_at now;
      } in
      elim (Bool-cases (any (has_event_id key) log)) [
        | inl h ↦ rw (e, f, h) (rw h refl)
        | inr h ↦ rw (e, f, h) (rw (any-append_one key log event refl) refl)
      ]
