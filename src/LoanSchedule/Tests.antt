-- ===== src/LoanSchedule/Tests.antt =====
-- loanSchedule.ts: a preview with a schedule of two components.
use remitlend.Base.{◌<◌, ◌≡◌, ◌≢◌, ◌↔◌, true, some, [], ◌∷◌, length}
use remitlend.Base.Int.{pos}
use remitlend.LoanSchedule.{
  LoanTerms, AuthoritativeSchedule, PreviewRequest, sum_components, reconcile_preview,
}
use remitlend.LoanSchedule.Signing.{TermsAgree, NotBefore, reconcile_preview_iff}

abbrev terms_example : LoanTerms
terms_example = record {
  asset = "USDC";
  unit = "stroops";
  rate_bps = pos 500;
  term_periods = pos 12;
  principal = pos 1000;
  fees = pos 10;
}

abbrev schedule_example : AuthoritativeSchedule
schedule_example = record {
  schedule_version = 3;
  policy_version = 2;
  asset = "USDC";
  unit = "stroops";
  rate_bps = pos 500;
  term_periods = pos 12;
  principal = pos 1000;
  fees = pos 10;
  components =
      record { label = "principal"; amount = pos 1000 }
      ∷ record { label = "cost"; amount = pos 60 }
      ∷ [];
  total_due = pos 1060;
  expires_at = 100;
}

abbrev request_example : PreviewRequest
request_example = record {
  terms = terms_example;
  expected_policy_version = 2;
  known_schedule_version = some 3;
}

reconcile_preview_iff_example :
    ((reconcile_preview request_example (some schedule_example) 50).can_sign ≡ true) ↔ (
      (50 < 100)
      × (schedule_example.policy_version ≡ request_example.expected_policy_version)
      × NotBefore (some 3) 3
      × TermsAgree terms_example schedule_example
      × (length schedule_example.components ≢ 0)
      × (sum_components schedule_example.components ≡ pos 1060))
reconcile_preview_iff_example = reconcile_preview_iff request_example schedule_example 50
