-- ===== src/LoanEvents/Tests.antt =====
-- loanStateEventStore.ts: the replay of a short history.
use remitlend.Base.{ℕ, ◌≡◌, ◌≢◌, refl, true, Option, none, some, List, [], ◌∷◌}
use remitlend.Base.Int.{ℤ, pos}
use remitlend.LoanEvents.{
  FoldableEvent, repaid, defaulted, fold_loan_state, apply_event, event_type_of,
}
use remitlend.LoanEvents.Log.{EmitInput}
use remitlend.LoanEvents.Status.{
  is_final, final_status, last_ending, ending_of, fold_loan_state_status,
}

abbrev amount_or_zero : Option ℕ → ℤ
amount_or_zero none = pos 0
amount_or_zero (some n) = pos n

abbrev defaulted_history : List (FoldableEvent ℕ)
defaulted_history =
    record {
      event_type = "LoanRequested";
      payload_amount = some 100;
      own_amount = none;
      occurred_at = 1;
    }
    ∷ record {
      event_type = "LoanApproved";
      payload_amount = none;
      own_amount = none;
      occurred_at = 2;
    }
    ∷ record {
      event_type = "LoanRepaid";
      payload_amount = none;
      own_amount = some 40;
      occurred_at = 3;
    }
    ∷ record {
      event_type = "LoanDefaulted";
      payload_amount = none;
      own_amount = none;
      occurred_at = 9;
    }
    ∷ []

defaulted_at_end : is_final (fold_loan_state amount_or_zero defaulted_history).state.status ≡ true
unfolding fold_loan_state apply_event event_type_of
defaulted_at_end = refl

fold_loan_state_status_example :
    ((fold_loan_state amount_or_zero defaulted_history).state.status ≢ repaid)
    × (final_status (fold_loan_state amount_or_zero defaulted_history).state.status
        ≡ some defaulted)
unfolding last_ending ending_of
fold_loan_state_status_example = fold_loan_state_status amount_or_zero defaulted_history

abbrev explicit_input : EmitInput ℕ
explicit_input = record {
  event_id = some "ev1";
  loan_id = 4;
  event_type = "LoanApproved";
  payload = none;
  actor = none;
  occurred_at = none;
}
