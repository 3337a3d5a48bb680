-- ===== src/LoanEvents/Folding.antt =====
-- loanStateEventStore.ts: the fold as a whole, in pieces, and what it adds up.
use remitlend.Base.{
  ℕ, ◌+◌, ◌-◌, min, ◌≤◌, ◌≡◌, refl, sym, ◌∙◌, Option, none, some, List, [], ◌∷◌, ◌++◌, arith, All,
}
use remitlend.Base.Int.{ℤ, pos, ◌+ℤ◌, +ℤ_parts, eq_of_parts}
use remitlend.LoanEvents.{
  LoanStateEventType, loan_repaid, LoanState, FoldableEvent, Folded, apply_event, event_type_of,
  first_present, fold_event, fold_from, fold_loan_state, earlier, later, unknown_state,
}

-- What one event adds to the repayments.
abbrev pub repaid_by : LoanStateEventType → ℤ → ℤ
repaid_by loan_repaid amount = amount
repaid_by _ amount = pos 0

+ℤ_zero : (a : ℤ) → a +ℤ pos 0 ≡ a
+ℤ_zero a = eq_of_parts (a +ℤ pos 0) a (omega (arith, +ℤ_parts a (pos 0)))

apply_event_repaid :
    (t : LoanStateEventType) (amount : ℤ) (s : LoanState)
    → (apply_event t amount s).total_repaid ≡ s.total_repaid +ℤ repaid_by t amount
unfolding apply_event
apply_event_repaid t amount s = ground (arith, +ℤ_zero s.total_repaid)

+ℤ_assoc : (a b c : ℤ) → (a +ℤ b) +ℤ c ≡ a +ℤ (b +ℤ c)
+ℤ_assoc a b c =
    eq_of_parts ((a +ℤ b) +ℤ c) (a +ℤ (b +ℤ c))
      (omega (arith, +ℤ_parts a b, +ℤ_parts b c, +ℤ_parts (a +ℤ b) c, +ℤ_parts a (b +ℤ c)))

zero_+ℤ : (a : ℤ) → pos 0 +ℤ a ≡ a
zero_+ℤ a = eq_of_parts (pos 0 +ℤ a) a (omega (arith, +ℤ_parts (pos 0) a))

-- The time is that of the first event at the latest, and that of the last one at the earliest.
abbrev pub Spans : Folded → ℕ → Type 0
Spans f at =
    ((first : ℕ) × (f.first_event_at ≡ some first) × (first ≤ at))
    × ((last : ℕ) × (f.last_event_at ≡ some last) × (at ≤ last))

earlier-some : (now first : ℕ) → earlier now (some first) ≡ some (min now first)
earlier-some now first = ground arith

later-some : (now last : ℕ) → later now (some last) ≡ some (now + (last - now))
later-some now last = ground arith

earlier_now : (now : ℕ) (o : Option ℕ) → (x : ℕ) × (earlier now o ≡ some x) × (x ≤ now)
earlier_now now none = (now, refl, omega arith)
earlier_now now (some first) = (min now first, earlier-some now first, omega arith)

later_now : (now : ℕ) (o : Option ℕ) → (x : ℕ) × (later now o ≡ some x) × (now ≤ x)
later_now now none = (now, refl, omega arith)
later_now now (some last) = (now + (last - now), later-some now last, omega arith)

fold_event-Spans :
    (f : Folded) (s : LoanState) (at now : ℕ)
    → Spans f at
    → Spans
        (record {
          state = s;
          first_event_at = earlier now f.first_event_at;
          last_event_at = later now f.last_event_at;
        })
        at
fold_event-Spans f s at now ((first, a, b), (last, c, d)) =
    rw (a, c)
      (
        (min now first, earlier-some now first, omega arith),
        (now + (last - now), later-some now last, omega arith),
      )

fold_event-now :
    (f : Folded) (s : LoanState) (now : ℕ)
    → Spans
        (record {
          state = s;
          first_event_at = earlier now f.first_event_at;
          last_event_at = later now f.last_event_at;
        })
        now
fold_event-now f s now = (earlier_now now f.first_event_at, later_now now f.last_event_at)

module _ {P : Type 0} (to_amount : Option P → ℤ) where
  abbrev pub amount_of : FoldableEvent P → ℤ
  amount_of e = to_amount (first_present e.payload_amount e.own_amount)

  -- The sum of the amounts of the repayments.
  abbrev pub repayments : List (FoldableEvent P) → ℤ
  repayments [] = pos 0
  repayments (e ∷ es) = repaid_by (event_type_of e.event_type) (amount_of e) +ℤ repayments es

  pub fold_from-append :
      (f : Folded) (es later : List (FoldableEvent P))
      → fold_from to_amount f (es ++ later) ≡ fold_from to_amount (fold_from to_amount f es) later
  fold_from-append f [] later = refl
  fold_from-append f (e ∷ es) later = fold_from-append (fold_event to_amount f e) es later

  fold_from-repaid :
      (f : Folded) (es : List (FoldableEvent P))
      → (fold_from to_amount f es).state.total_repaid ≡ f.state.total_repaid +ℤ repayments es
  fold_from-repaid f [] = sym (+ℤ_zero f.state.total_repaid)
  fold_from-repaid f (e ∷ es) =
      let by = repaid_by (event_type_of e.event_type) (amount_of e) in
      fold_from-repaid (fold_event to_amount f e) es
      ∙ (rw (apply_event_repaid (event_type_of e.event_type) (amount_of e) f.state)
          (+ℤ_assoc f.state.total_repaid by (repayments es)))

  -- The repaid total of a replay is the sum of the amounts of its `LoanRepaid` events.
  pub fold_loan_state_repaid :
      (es : List (FoldableEvent P))
      → (fold_loan_state to_amount es).state.total_repaid ≡ repayments es
  unfolding fold_loan_state
  fold_loan_state_repaid es =
      fold_from-repaid
        (record { state = unknown_state; first_event_at = none; last_event_at = none }) es
      ∙ zero_+ℤ (repayments es)

  fold_from-Spans :
      (f : Folded) (es : List (FoldableEvent P)) (at : ℕ)
      → Spans f at
      → Spans (fold_from to_amount f es) at
  fold_from-Spans f [] at h = h
  fold_from-Spans f (e ∷ es) at h =
      fold_from-Spans (fold_event to_amount f e) es at
        (fold_event-Spans f (fold_event to_amount f e).state at e.occurred_at h)

  fold_from-All :
      (f : Folded) (es : List (FoldableEvent P))
      → All (λ e. Spans (fold_from to_amount f es) e.occurred_at) es
  fold_from-All f [] = tt
  fold_from-All f (e ∷ es) = (
    fold_from-Spans (fold_event to_amount f e) es e.occurred_at
        (fold_event-now f (fold_event to_amount f e).state e.occurred_at),
    fold_from-All (fold_event to_amount f e) es,
  )

  -- A replay of some events dates the first of them no later, and the last of them no earlier, than any
  -- of them, in whatever order they come.
  pub fold_loan_state_times :
      (es : List (FoldableEvent P))
      → All (λ e. Spans (fold_loan_state to_amount es) e.occurred_at) es
  unfolding fold_loan_state
  fold_loan_state_times es =
      fold_from-All (record { state = unknown_state; first_event_at = none; last_event_at = none })
        es
