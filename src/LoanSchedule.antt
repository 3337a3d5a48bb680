-- ===== src/LoanSchedule.antt =====
-- frontend/src/lib/loanSchedule.ts: a loan preview is bound to the schedule the backend issued. Rates and
-- terms are whole numbers, as `BigInt` requires; versions and times are whole and not negative.
pub mod Signing
mod Tests
use Prim.Native.String.{String}
use remitlend.Base.{
  ℕ, zero, suc, ◌+◌, Bool, true, false, not, ◌&&◌, Option, none, some, List, [], ◌∷◌, ◌++◌, ltb,
  leb, ◌==◌, length, if◌then◌else◌,
}
use remitlend.Base.Assoc.{◌same◌}
use remitlend.Base.Int.{ℤ, pos, ◌+ℤ◌, ◌*ℤ◌, ◌/ℤ◌, eqb_ℤ}

pub record LoanTerms : Type 0 where
  pub asset : String
  pub unit : String
  pub rate_bps : ℤ
  pub term_periods : ℤ
  pub principal : ℤ
  pub fees : ℤ

pub record ScheduleComponent : Type 0 where
  pub label : String
  pub amount : ℤ

pub record AuthoritativeSchedule : Type 0 where
  pub schedule_version : ℕ
  pub policy_version : ℕ
  pub asset : String
  pub unit : String
  pub rate_bps : ℤ
  pub term_periods : ℤ
  pub principal : ℤ
  pub fees : ℤ
  pub components : List ScheduleComponent
  pub total_due : ℤ
  pub expires_at : ℕ

pub record PreviewRequest : Type 0 where
  pub terms : LoanTerms
  pub expected_policy_version : ℕ
  pub known_schedule_version : Option ℕ

pub data PreviewStatus : Type 0 where
  confirmed blocked : PreviewStatus

pub data BlockReason : Type 0 where
  schedule_unavailable schedule_stale policy_version_mismatch : BlockReason
  schedule_version_regression terms_mismatch incomplete_components total_mismatch : BlockReason

pub record Estimate : Type 0 where
  pub total_due : ℤ
  pub fees : ℤ

-- The confirmed values are the schedule without its expiry.
pub record ConfirmedTerms : Type 0 where
  pub schedule_version : ℕ
  pub policy_version : ℕ
  pub asset : String
  pub unit : String
  pub rate_bps : ℤ
  pub term_periods : ℤ
  pub principal : ℤ
  pub fees : ℤ
  pub components : List ScheduleComponent
  pub total_due : ℤ

pub record ReconciledPreview : Type 0 where
  pub status : PreviewStatus
  pub can_sign : Bool
  pub estimate : Estimate
  pub confirmed_terms : Option ConfirmedTerms
  pub block_reasons : List BlockReason
  pub can_retry : Bool

unfoldable pub estimate_total_due : LoanTerms → ℤ
estimate_total_due terms =
    (terms.principal +ℤ terms.fees)
    +ℤ (((terms.principal *ℤ terms.rate_bps) *ℤ terms.term_periods) /ℤ pos 10000)

-- `reduce` from zero, the first component first.
abbrev pub sum_components_from : ℤ → List ScheduleComponent → ℤ
sum_components_from acc [] = acc
sum_components_from acc (c ∷ cs) = sum_components_from (acc +ℤ c.amount) cs

unfoldable pub sum_components : List ScheduleComponent → ℤ
sum_components cs = sum_components_from (pos 0) cs

unfoldable pub terms_match_schedule : LoanTerms → AuthoritativeSchedule → Bool
terms_match_schedule t s =
    (t.asset same s.asset)
    && ((t.unit same s.unit)
        && (eqb_ℤ t.rate_bps s.rate_bps
            && (eqb_ℤ t.term_periods s.term_periods
                && (eqb_ℤ t.principal s.principal && eqb_ℤ t.fees s.fees))))

abbrev pub is_regression : Option ℕ → ℕ → Bool
is_regression none v = false
is_regression (some known) v = ltb v known

abbrev pub push_if : Bool → BlockReason → List BlockReason → List BlockReason
push_if true reason reasons = reasons ++ (reason ∷ [])
push_if false reason reasons = reasons

abbrev pub component_reasons : AuthoritativeSchedule → List BlockReason → List BlockReason
component_reasons s reasons =
    if length s.components == 0
    then push_if true incomplete_components reasons
    else push_if (not (eqb_ℤ (sum_components s.components) s.total_due)) total_mismatch reasons

unfoldable pub block_reasons_of : PreviewRequest → AuthoritativeSchedule → ℕ → List BlockReason
block_reasons_of request s now = component_reasons s (
    push_if (not (terms_match_schedule request.terms s)) terms_mismatch (
      push_if (is_regression request.known_schedule_version s.schedule_version)
        schedule_version_regression
        (push_if (not (s.policy_version == request.expected_policy_version)) policy_version_mismatch
          (push_if (leb s.expires_at now) schedule_stale []))))

abbrev pub is_empty : List BlockReason → Bool
is_empty [] = true
is_empty (_ ∷ _) = false

abbrev pub confirm : AuthoritativeSchedule → ConfirmedTerms
confirm s = record {
  schedule_version = s.schedule_version;
  policy_version = s.policy_version;
  asset = s.asset;
  unit = s.unit;
  rate_bps = s.rate_bps;
  term_periods = s.term_periods;
  principal = s.principal;
  fees = s.fees;
  components = s.components;
  total_due = s.total_due;
}

unfoldable pub reconcile_preview :
    PreviewRequest → Option AuthoritativeSchedule → ℕ → ReconciledPreview
reconcile_preview request schedule now =
    let shown : Estimate = record {
      total_due = estimate_total_due request.terms;
      fees = request.terms.fees;
    } in
    elim schedule [
      | none ↦ record {
        status = blocked;
        can_sign = false;
        estimate = shown;
        confirmed_terms = none;
        block_reasons = schedule_unavailable ∷ [];
        can_retry = true;
      }
      | some s ↦
          let reasons = block_reasons_of request s now in
          let signable = is_empty reasons in
          record {
            status = if signable then confirmed else blocked;
            can_sign = signable;
            estimate = shown;
            confirmed_terms = some (confirm s);
            block_reasons = reasons;
            can_retry = not signable;
          }
    ]
