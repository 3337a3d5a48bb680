-- ===== src/DualControl/Persons.antt =====
-- privilegedActionService.ts: two persons for each privileged action, and one execution.
use mathlib.Core.Path.{subst}
use remitlend.Base.{ℕ, ◌≤◌, ◌<◌, ◌≡◌, inl, inr, refl, true, Option-cases, some, List, arith}
use remitlend.DualControl.{Request}
use remitlend.DualControl.Canonical.{JsonPlatform}
use remitlend.DualControl.Runs.{Event, count, run, empty_system}
use remitlend.DualControl.Invariant.{
  past_approval, past_claim, has_second_person, SlotInv, SystemInv,
}
use remitlend.DualControl.Reachable.{run-SystemInv}

empty-SystemInv : (p : JsonPlatform) → SystemInv p empty_system
empty-SystemInv p j = (refl, λ l. refl)

claimed_is_approved : (r : Request) → past_claim r.status ≡ true → past_approval r.status ≡ true
claimed_is_approved r h = ground arith

-- After any sequence of requests, approvals, revocations, claims and completions, from an empty table, the
-- executor of each id was started at most once.
pub executes_once :
    (p : JsonPlatform) (es : List Event) (id : ℕ) → count id (run p es empty_system).started ≤ 1
executes_once p es id =
    let s = run p es empty_system in
    let slot = (run-SystemInv p es empty_system (empty-SystemInv p) id).0 in
    elim (Option-cases (s.table.rows id)) [
      | inl e ↦ let n = subst (λ o. SlotInv p o (count id s.started)) e slot in omega (arith, n)
      | inr (r, e) ↦ (subst (λ o. SlotInv p o (count id s.started)) e slot).claimed_once
    ]

-- After any such sequence that started the executor of an id, the row of the id is there, has an approver
-- other than its initiator, and is executing, executed or failed.
pub executed_needs_two :
    (p : JsonPlatform) (es : List Event) (id : ℕ)
    → 0 < count id (run p es empty_system).started
    → (r : Request) × ((run p es empty_system).table.rows id ≡ some r)
      × (has_second_person r ≡ true)
      × (past_claim r.status ≡ true)
executed_needs_two p es id h =
    let s = run p es empty_system in
    let slot = (run-SystemInv p es empty_system (empty-SystemInv p) id).0 in
    elim (Option-cases (s.table.rows id)) [
      | inl e ↦
          let n = subst (λ o. SlotInv p o (count id s.started)) e slot in
          absurd (omega (arith, n, h))
      | inr (r, e) ↦
          let inv = subst (λ o. SlotInv p o (count id s.started)) e slot in
          (r, e, inv.two_persons (claimed_is_approved r (inv.claimed_state h)), inv.claimed_state h)
    ]
