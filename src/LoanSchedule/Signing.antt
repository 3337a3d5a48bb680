-- ===== src/LoanSchedule/Signing.antt =====
-- loanSchedule.ts: a preview can be signed exactly when the schedule agrees with it.
use text.Mathlib.TextEquality.{eq_iff}
use remitlend.Base.{
  ℕ, ◌≤◌, ◌<◌, ◌≡◌, ◌≢◌, ◌↔◌, refl, Bool, true, false, not, Option, none, some, List, [], ◌∷◌, leb,
  ◌==◌, length, arith,
}
use remitlend.Base.Int.{ℤ, eqb_ℤ, eq_of_parts}
use remitlend.LoanSchedule.{
  LoanTerms, AuthoritativeSchedule, PreviewRequest, BlockReason, schedule_stale,
  policy_version_mismatch, schedule_version_regression, terms_mismatch, sum_components,
  terms_match_schedule, is_regression, push_if, component_reasons, block_reasons_of, is_empty,
  reconcile_preview,
}

eqb_ℤ_iff : (a b : ℤ) → (eqb_ℤ a b ≡ true) ↔ (a ≡ b)
eqb_ℤ_iff a b = ground (arith, eq_of_parts a b)

-- The terms are those of the schedule.
abbrev pub TermsAgree : LoanTerms → AuthoritativeSchedule → Type 0
TermsAgree t s =
    (t.asset ≡ s.asset)
    × (t.unit ≡ s.unit)
    × (t.rate_bps ≡ s.rate_bps)
    × (t.term_periods ≡ s.term_periods)
    × (t.principal ≡ s.principal)
    × (t.fees ≡ s.fees)

terms_match_iff :
    (t : LoanTerms) (s : AuthoritativeSchedule) → (terms_match_schedule t s ≡ true) ↔ TermsAgree t s
unfolding terms_match_schedule
terms_match_iff t s = ground (
  arith,
  eq_iff t.asset s.asset,
  eq_iff t.unit s.unit,
  eqb_ℤ_iff t.rate_bps s.rate_bps,
  eqb_ℤ_iff t.term_periods s.term_periods,
  eqb_ℤ_iff t.principal s.principal,
  eqb_ℤ_iff t.fees s.fees,
)

push_empty :
    (b : Bool) (reason : BlockReason) (reasons : List BlockReason)
    → (is_empty (push_if b reason reasons) ≡ true) ↔ ((b ≡ false) × (is_empty reasons ≡ true))
push_empty true reason [] = ground arith
push_empty true reason (x ∷ xs) = ground arith
push_empty false reason reasons = ground arith

components_empty :
    (s : AuthoritativeSchedule) (reasons : List BlockReason)
    → (is_empty (component_reasons s reasons) ≡ true) ↔ (
        (length s.components ≢ 0)
        × (sum_components s.components ≡ s.total_due)
        × (is_empty reasons ≡ true))
components_empty s reasons = ground (
  arith,
  push_empty true BlockReason.incomplete_components reasons,
  push_empty (not (eqb_ℤ (sum_components s.components) s.total_due)) BlockReason.total_mismatch
      reasons,
  eqb_ℤ_iff (sum_components s.components) s.total_due,
)

-- The version is none before the one known, if one is.
abbrev pub NotBefore : Option ℕ → ℕ → Type 0
NotBefore none v = Unit
NotBefore (some k) v = k ≤ v

regression_iff : (known : Option ℕ) (v : ℕ) → (is_regression known v ≡ false) ↔ NotBefore known v
regression_iff none v = ground arith
regression_iff (some k) v = ground arith

four_empty :
    (a b c d : Bool) (w x y z : BlockReason)
    → (is_empty (push_if d z (push_if c y (push_if b x (push_if a w [])))) ≡ true)
      ↔ ((a ≡ false) × (b ≡ false) × (c ≡ false) × (d ≡ false))
four_empty a b c d w x y z = ground (
  arith,
  push_empty a w [],
  push_empty b x (push_if a w []),
  push_empty c y (push_if b x (push_if a w [])),
  push_empty d z (push_if c y (push_if b x (push_if a w []))),
)

-- With a schedule, signing is offered exactly when the schedule has not expired, is of the expected policy
-- and of no version before the one known, has the terms that were asked for, and has
-- components, which add up to its total.
pub reconcile_preview_iff :
    (request : PreviewRequest) (s : AuthoritativeSchedule) (now : ℕ)
    → ((reconcile_preview request (some s) now).can_sign ≡ true) ↔ (
        (now < s.expires_at)
        × (s.policy_version ≡ request.expected_policy_version)
        × NotBefore request.known_schedule_version s.schedule_version
        × TermsAgree request.terms s
        × (length s.components ≢ 0)
        × (sum_components s.components ≡ s.total_due))
unfolding reconcile_preview block_reasons_of
reconcile_preview_iff request s now =
    let stale = leb s.expires_at now in
    let policy = not (s.policy_version == request.expected_policy_version) in
    let regression = is_regression request.known_schedule_version s.schedule_version in
    let terms = not (terms_match_schedule request.terms s) in
    let four =
      four_empty stale policy regression terms schedule_stale policy_version_mismatch
        schedule_version_regression terms_mismatch in
    let all = components_empty s (
      push_if terms terms_mismatch (
        push_if regression schedule_version_regression
          (push_if policy policy_version_mismatch (push_if stale schedule_stale [])))) in
    let versions = regression_iff request.known_schedule_version s.schedule_version in
    let matching = terms_match_iff request.terms s in
    (
      λ h.
          let (n, e, r) = all.0 h in
          let (a, b, c, d) = four.0 r in
          (ground arith, ground arith, versions.0 c, matching.0 (ground arith), n, e),
      λ h.
          let (a, b, c, d, n, e) = h in
          all.1 (n, e, four.1 (ground arith, ground arith, versions.1 c, rw (matching.1 d) refl)),
    )
