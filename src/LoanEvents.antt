-- ===== src/LoanEvents.antt =====
-- backend/src/services/loanStateEventStore.ts: the fold that rebuilds a loan's state from its events, and
-- the append-only log. `toAmount` is an argument, its results whole amounts; times are whole. Of the
-- snapshot the loan's id, the count and the copies of the events are left out.
pub mod Log
pub mod Folding
pub mod Status
mod Tests
use Prim.Native.String.{String}
use remitlend.Base.{
  ℕ, zero, suc, ◌+◌, min, Bool, true, false, not, ◌&&◌, ◌||◌, Option, none, some, List, [], ◌∷◌,
  map, ltb, leb, ◌==◌, length, any, if◌then◌else◌,
}
use remitlend.Base.Assoc.{◌same◌}
use remitlend.Base.Int.{ℤ, pos, ◌+ℤ◌, ltb_ℤ}

-- The event types that the fold names, and every other text.
pub data LoanStateEventType : Type 0 where
  loan_requested loan_approved loan_repaid loan_defaulted loan_cancelled : LoanStateEventType
  loan_rejected loan_refinanced loan_liquidated collateral_liquidated loan_disputed :
      LoanStateEventType
  other : LoanStateEventType

unfoldable pub event_type_of : String → LoanStateEventType
event_type_of s =
    if s same "LoanRequested"
    then loan_requested
    else if s same "LoanApproved"
    then loan_approved
    else if s same "LoanRepaid"
    then loan_repaid
    else if s same "LoanRefinanced"
    then loan_refinanced
    else if s same "LoanDefaulted"
    then loan_defaulted
    else if s same "LoanDisputed"
    then loan_disputed
    else if s same "LoanLiquidated"
    then loan_liquidated
    else if s same "CollateralLiquidated"
    then collateral_liquidated
    else if s same "LoanCancelled"
    then loan_cancelled
    else if s same "LoanRejected"
    then loan_rejected
    else other

pub data LoanStatus : Type 0 where
  unknown requested active repaid defaulted liquidated disputed cancelled rejected : LoanStatus

-- An event, with the payload's amount and its own.
pub record FoldableEvent (P : Type 0) : Type 0 where
  pub event_type : String
  pub payload_amount : Option P
  pub own_amount : Option P
  pub occurred_at : ℕ

pub record LoanState : Type 0 where
  pub status : LoanStatus
  pub principal : ℤ
  pub total_repaid : ℤ
  pub is_approved : Bool
  pub is_defaulted : Bool
  pub is_disputed : Bool
  pub is_liquidated : Bool
  pub is_cancelled : Bool
  pub is_rejected : Bool

abbrev pub unknown_state : LoanState
unknown_state = record {
  status = unknown;
  principal = pos 0;
  total_repaid = pos 0;
  is_approved = false;
  is_defaulted = false;
  is_disputed = false;
  is_liquidated = false;
  is_cancelled = false;
  is_rejected = false;
}

abbrev pub is_unknown : LoanStatus → Bool
is_unknown unknown = true
is_unknown _ = false

-- The condition under which an event may still move the status.
abbrev pub is_open : LoanState → Bool
is_open s = not s.is_cancelled && (not s.is_rejected && (not s.is_liquidated && not s.is_defaulted))

-- `if (amount > 0) state.principal = amount`.
abbrev pub principal_after : ℤ → LoanState → ℤ
principal_after amount s = if ltb_ℤ (pos 0) amount then amount else s.principal

-- The `switch`.
unfoldable pub apply_event : LoanStateEventType → ℤ → LoanState → LoanState
apply_event loan_requested amount s = record s {
  principal = principal_after amount s;
  status = if is_unknown s.status then requested else s.status;
}
apply_event loan_approved amount s = record s {
  is_approved = true;
  status = if is_open s then active else s.status;
}
apply_event loan_repaid amount s = record s { total_repaid = s.total_repaid +ℤ amount }
apply_event loan_refinanced amount s = record s {
  principal = principal_after amount s;
  status = if is_open s then active else s.status;
}
apply_event loan_defaulted amount s = record s { is_defaulted = true; status = defaulted }
apply_event loan_disputed amount s = record s {
  is_disputed = true;
  status = if is_open s then disputed else s.status;
}
apply_event loan_liquidated amount s = record s { is_liquidated = true; status = liquidated }
apply_event collateral_liquidated amount s = record s { is_liquidated = true; status = liquidated }
apply_event loan_cancelled amount s = record s { is_cancelled = true; status = cancelled }
apply_event loan_rejected amount s = record s { is_rejected = true; status = rejected }
apply_event other amount s = s

-- `event.payload?.amount ?? event.amount`.
abbrev pub first_present : {P : Type 0} → Option P → Option P → Option P
first_present none b = b
first_present (some a) b = some a

-- The loop's variables.
pub record Folded : Type 0 where
  pub state : LoanState
  pub first_event_at : Option ℕ
  pub last_event_at : Option ℕ

abbrev pub earlier : ℕ → Option ℕ → Option ℕ
earlier at none = some at
earlier at (some first) = if ltb at first then some at else some first

abbrev pub later : ℕ → Option ℕ → Option ℕ
later at none = some at
later at (some last) = if ltb last at then some at else some last

module _ {P : Type 0} (to_amount : Option P → ℤ) where
  abbrev pub fold_event : Folded → FoldableEvent P → Folded
  fold_event f e = record {
    state =
        apply_event (event_type_of e.event_type)
          (to_amount (first_present e.payload_amount e.own_amount)) f.state;
    first_event_at = earlier e.occurred_at f.first_event_at;
    last_event_at = later e.occurred_at f.last_event_at;
  }

  abbrev pub fold_from : Folded → List (FoldableEvent P) → Folded
  fold_from f [] = f
  fold_from f (e ∷ es) = fold_from (fold_event f e) es

  unfoldable pub fold_loan_state : List (FoldableEvent P) → Folded
  fold_loan_state es =
      fold_from (record { state = unknown_state; first_event_at = none; last_event_at = none }) es

-- The limit that `getLoanStateEvents` asks for.
unfoldable pub event_limit : Option ℕ → ℕ
event_limit none = 100
event_limit (some n) = min (if n == 0 then 1 else n) 1000
