-- ===== src/LoanEvents/Status.antt =====
-- loanStateEventStore.ts: the status that a replay reports.
use remitlend.Base.{
  ◌≡◌, ◌≢◌, refl, ap, ◌∙◌, some, if◌then◌else◌, Bool, true, false, not, ◌&&◌, Option, none, List,
  [], ◌∷◌, ◌++◌, arith,
}
use Prim.Native.String.{String}
use text.Mathlib.TextEquality.{eq_iff}
use remitlend.Base.Assoc.{◌same◌}
use remitlend.Base.Int.{ℤ}
use remitlend.LoanEvents.{
  LoanStateEventType, loan_defaulted, loan_liquidated, collateral_liquidated, loan_cancelled,
  loan_rejected, LoanStatus, unknown, requested, active, repaid, defaulted, liquidated, disputed,
  cancelled, rejected, LoanState, FoldableEvent, Folded, apply_event, event_type_of, first_present,
  fold_event, fold_from, fold_loan_state, unknown_state, is_open,
}
use remitlend.LoanEvents.Folding.{fold_from-append}

-- The statuses of a loan that has ended.
abbrev pub is_final : LoanStatus → Bool
is_final defaulted = true
is_final liquidated = true
is_final cancelled = true
is_final rejected = true
is_final _ = false

-- The status agrees with the flags.
abbrev pub status_agrees : LoanState → Bool
status_agrees s = elim s.status [
  | unknown ↦ is_open s && (not s.is_approved && not s.is_disputed)
  | requested ↦ is_open s && (not s.is_approved && not s.is_disputed)
  | active ↦ is_open s
  | disputed ↦ is_open s && s.is_disputed
  | defaulted ↦ s.is_defaulted
  | liquidated ↦ s.is_liquidated
  | cancelled ↦ s.is_cancelled
  | rejected ↦ s.is_rejected
  | repaid ↦ false
]

-- The texts of the events that end a loan, and the status in which each leaves it.
unfoldable pub ending_of : String → Option LoanStatus
ending_of s =
    if s same "LoanDefaulted"
    then some defaulted
    else if s same "LoanLiquidated"
    then some liquidated
    else if s same "CollateralLiquidated"
    then some liquidated
    else if s same "LoanCancelled"
    then some cancelled
    else if s same "LoanRejected"
    then some rejected
    else none

abbrev pub or_earlier : Option LoanStatus → Option LoanStatus → Option LoanStatus
or_earlier earlier none = earlier
or_earlier earlier (some status) = some status

-- How the last of the events that end a loan leaves it, or what was so before.
unfoldable pub last_ending :
    {P : Type 0} → Option LoanStatus → List (FoldableEvent P) → Option LoanStatus
last_ending before [] = before
last_ending before (e ∷ es) = last_ending (or_earlier before (ending_of e.event_type)) es

-- The status, if it is one of a loan that has ended.
abbrev pub final_status : LoanStatus → Option LoanStatus
final_status defaulted = some defaulted
final_status liquidated = some liquidated
final_status cancelled = some cancelled
final_status rejected = some rejected
final_status _ = none

apply_event_agrees :
    (t : LoanStateEventType) (amount : ℤ) (s : LoanState)
    → status_agrees s ≡ true
    → status_agrees (apply_event t amount s) ≡ true
unfolding apply_event
apply_event_agrees t amount s h = ground arith

apply_event_final :
    (t : LoanStateEventType) (amount : ℤ) (s : LoanState)
    → status_agrees s ≡ true
    → is_final s.status ≡ true
    → is_final (apply_event t amount s).status ≡ true
unfolding apply_event
apply_event_final t amount s a h = ground arith

-- Which event types end a loan, whatever their text.
abbrev type_ending : LoanStateEventType → Option LoanStatus
type_ending loan_defaulted = some defaulted
type_ending loan_liquidated = some liquidated
type_ending collateral_liquidated = some liquidated
type_ending loan_cancelled = some cancelled
type_ending loan_rejected = some rejected
type_ending _ = none

apply_event-final :
    (t : LoanStateEventType) (amount : ℤ) (s : LoanState)
    → status_agrees s ≡ true
    → final_status (apply_event t amount s).status
      ≡ or_earlier (final_status s.status) (type_ending t)
unfolding apply_event
apply_event-final t amount s h = ground arith

at_text : (s t : String) → ending_of t ≡ none → (s same t) ≡ true → ending_of s ≡ none
at_text s t e h = ap ending_of ((eq_iff s t).0 h) ∙ e

type_ending-text : (s : String) → type_ending (event_type_of s) ≡ ending_of s
unfolding event_type_of ending_of
type_ending-text s = ground (
  arith,
  at_text s "LoanRequested" refl,
  at_text s "LoanApproved" refl,
  at_text s "LoanRepaid" refl,
  at_text s "LoanRefinanced" refl,
  at_text s "LoanDisputed" refl,
)

apply_text-final :
    (text : String) (amount : ℤ) (s : LoanState)
    → status_agrees s ≡ true
    → final_status (apply_event (event_type_of text) amount s).status
      ≡ or_earlier (final_status s.status) (ending_of text)
apply_text-final text amount s h =
    apply_event-final (event_type_of text) amount s h
    ∙ ap (or_earlier (final_status s.status)) (type_ending-text text)

module _ {P : Type 0} (to_amount : Option P → ℤ) where
  pub fold_from-agrees :
      (f : Folded) (es : List (FoldableEvent P))
      → status_agrees f.state ≡ true
      → status_agrees (fold_from to_amount f es).state ≡ true
  fold_from-agrees f [] h = h
  fold_from-agrees f (e ∷ es) h = fold_from-agrees (fold_event to_amount f e) es (
      apply_event_agrees (event_type_of e.event_type)
        (to_amount (first_present e.payload_amount e.own_amount)) f.state h)

  fold_from-final_status :
      (f : Folded) (es : List (FoldableEvent P))
      → status_agrees f.state ≡ true
      → final_status (fold_from to_amount f es).state.status
        ≡ last_ending (final_status f.state.status) es
  unfolding last_ending
  fold_from-final_status f [] h = refl
  fold_from-final_status f (e ∷ es) h =
      let amount = to_amount (first_present e.payload_amount e.own_amount) in
      fold_from-final_status (fold_event to_amount f e) es
        (apply_event_agrees (event_type_of e.event_type) amount f.state h)
      ∙ ap (λ o. last_ending o es) (apply_text-final e.event_type amount f.state h)

  -- A replay never reports a loan as repaid. The status it reports is a final one exactly when a default, a
  -- liquidation of the loan or its collateral, a cancellation or a rejection was among the events, and then
  -- it is that of the last of these, whatever follows.
  pub fold_loan_state_status :
      (es : List (FoldableEvent P))
      → ((fold_loan_state to_amount es).state.status ≢ repaid)
        × (final_status (fold_loan_state to_amount es).state.status ≡ last_ending none es)
  unfolding fold_loan_state
  fold_loan_state_status es =
      let start : Folded = record {
        state = unknown_state;
        first_event_at = none;
        last_event_at = none;
      } in
      let h = fold_from-agrees start es refl in (ground arith, fold_from-final_status start es refl)

  fold_from-final :
      (f : Folded) (es : List (FoldableEvent P))
      → status_agrees f.state ≡ true
      → is_final f.state.status ≡ true
      → is_final (fold_from to_amount f es).state.status ≡ true
  fold_from-final f [] a h = h
  fold_from-final f (e ∷ es) a h =
      let amount = to_amount (first_present e.payload_amount e.own_amount) in
      fold_from-final (fold_event to_amount f e) es
        (apply_event_agrees (event_type_of e.event_type) amount f.state a)
        (apply_event_final (event_type_of e.event_type) amount f.state a h)

  -- Once a replay of some events reports a final status, a replay of those and any further ones does.
  pub final_sticks :
      (es later : List (FoldableEvent P))
      → is_final (fold_loan_state to_amount es).state.status ≡ true
      → is_final (fold_loan_state to_amount (es ++ later)).state.status ≡ true
  unfolding fold_loan_state
  final_sticks es later h =
      let start : Folded = record {
        state = unknown_state;
        first_event_at = none;
        last_event_at = none;
      } in
      rw (fold_from-append to_amount start es later)
        (fold_from-final (fold_from to_amount start es) later (fold_from-agrees start es refl) h)
