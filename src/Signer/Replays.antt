-- ===== src/Signer/Replays.antt =====
-- signerPolicy.ts: calls of `sign` one after the other.
use Prim.Native.String.{String}
use text.Mathlib.TextEquality.{eq_iff}
use remitlend.Base.{
  ℕ, ◌+◌, ◌*◌, ◌≤◌, ◌≡◌, inl, inr, refl, ap, ◌∙◌, Option-cases, Bool-cases, false, List, All,
  if◌then◌else◌, none, some, [], ◌∷◌, arith,
}
use remitlend.Base.Assoc.{◌same◌, lookup, lookup-insert}
use remitlend.Signer.{
  SignRequest, signed_by, denied, SignDenialReason, replay_detected, SignerPolicy, SignerPlatform,
  validate_sign_request, ReplayGuard, evict, consume,
}
use remitlend.Signer.Signing.{Raced, answered, threw, timed_out, end_sign, sign}
use remitlend.Signer.Calls.{
  evict_entries-lookup, validated_twice, sign_denied, sign_replayed, sign_passed, sign_success,
}

evict_entries-kept :
    (now : ℕ) (nonce : String) (at : ℕ) (g : ReplayGuard)
    → lookup nonce g.seen ≡ some at
    → now ≤ at + g.ttl_ms
    → lookup nonce (evict now g).seen ≡ some at
evict_entries-kept now nonce at g h l = evict_entries-lookup g.ttl_ms now nonce at g.seen h l

-- A nonce is kept under its time in a guard with the same time to live.
pub record Keeps (nonce : String) (at ttl : ℕ) (g : ReplayGuard) : Type 0 where
  pub seen_at : lookup nonce g.seen ≡ some at
  pub same_ttl : g.ttl_ms ≡ ttl

evict-Keeps :
    (nonce : String) (at ttl now : ℕ) (g : ReplayGuard)
    → now ≤ at + ttl
    → Keeps nonce at ttl g
    → Keeps nonce at ttl (evict now g)
evict-Keeps nonce at ttl now g l h = record {
  seen_at = evict_entries-kept now nonce at g h.seen_at (omega (arith, l, h.same_ttl));
  same_ttl = h.same_ttl;
}

-- Consuming a nonce that is not there leaves those that are.
consume-Keeps :
    (nonce other : String) (at ttl now : ℕ) (g : ReplayGuard)
    → now ≤ at + ttl
    → lookup other g.seen ≡ none
    → Keeps nonce at ttl g
    → Keeps nonce at ttl (consume other now g)
unfolding consume
consume-Keeps nonce other at ttl now g l free h = record {
  seen_at =
      lookup-insert other nonce now (evict now g).seen
      ∙ ap (λ b. if b then some now else lookup nonce (evict now g).seen) differs
      ∙ (evict-Keeps nonce at ttl now g l h).seen_at;
  same_ttl = h.same_ttl;
}
  where
    differs : (other same nonce) ≡ false
    differs = elim (Bool-cases (other same nonce)) [
      | inr e ↦ e
      | inl e ↦
          let no = ap (λ n. lookup n g.seen) ((eq_iff other nonce).0 e) in
          let there = h.seen_at in absurd (cc)
    ]

end_sign-Keeps :
    (nonce : String) (at ttl : ℕ) (r : SignRequest) (later : ℕ) (raced : Raced) (g : ReplayGuard)
    → later ≤ at + ttl
    → lookup r.nonce g.seen ≡ none
    → Keeps nonce at ttl g
    → Keeps nonce at ttl (end_sign r later raced g).1
unfolding end_sign
end_sign-Keeps nonce at ttl r later (answered (signed_by s i)) g l free h =
    consume-Keeps nonce r.nonce at ttl later g l free h
end_sign-Keeps nonce at ttl r later (answered (denied reason)) g l free h = h
end_sign-Keeps nonce at ttl r later threw g l free h = h
end_sign-Keeps nonce at ttl r later timed_out g l free h = h

sign-Keeps :
    (p : SignerPlatform) (policy : SignerPolicy) (nonce : String) (at ttl : ℕ) (r : SignRequest)
    (now later : ℕ) (raced : Raced) (g : ReplayGuard)
    → now ≤ at + ttl
    → later ≤ at + ttl
    → Keeps nonce at ttl g
    → Keeps nonce at ttl (sign p policy r now later raced g).1
sign-Keeps p policy nonce at ttl r now later raced g l m h =
    elim (Option-cases (validate_sign_request p r policy now)) [
      | inr (reason, e) ↦ rw (sign_denied p policy r now later raced g reason e) h
      | inl v ↦ elim (Option-cases (lookup r.nonce (evict now g).seen)) [
        | inr (found, e) ↦
            rw (sign_replayed p policy r now later found raced g v e)
              (evict-Keeps nonce at ttl now g l h)
        | inl e ↦ rw (sign_passed p policy r now later raced g v e) (
            end_sign-Keeps nonce at ttl r later raced (evict now g) m e
              (evict-Keeps nonce at ttl now g l h))
      ]
    ]

-- A call of `sign`: its request, the clock before and after the inner signer, and what the race gave.
pub record SignCall : Type 0 where
  pub request : SignRequest
  pub begun_at : ℕ
  pub ended_at : ℕ
  pub raced : Raced

unfoldable pub sign_all : SignerPlatform → SignerPolicy → List SignCall → ReplayGuard → ReplayGuard
sign_all p policy [] g = g
sign_all p policy (c ∷ cs) g =
    sign_all p policy cs (sign p policy c.request c.begun_at c.ended_at c.raced g).1

-- A call that was over by a time.
abbrev pub OverBy : ℕ → SignCall → Type 0
OverBy time c = (c.begun_at ≤ time) × (c.ended_at ≤ time)

sign_all-Keeps :
    (p : SignerPlatform) (policy : SignerPolicy) (nonce : String) (at ttl time : ℕ)
    (cs : List SignCall) (g : ReplayGuard)
    → time ≤ at + ttl
    → All (OverBy time) cs
    → Keeps nonce at ttl g
    → Keeps nonce at ttl (sign_all p policy cs g)
unfolding sign_all
sign_all-Keeps p policy nonce at ttl time [] g l over h = h
sign_all-Keeps p policy nonce at ttl time (c ∷ cs) g l over h =
    sign_all-Keeps p policy nonce at ttl time cs
      (sign p policy c.request c.begun_at c.ended_at c.raced g).1 l over.1
      (sign-Keeps p policy nonce at ttl c.request c.begun_at c.ended_at c.raced g
        (omega (arith, l, over.0)) (omega (arith, l, over.0)) h)

consume-nonce-Keeps :
    (nonce : String) (at : ℕ) (g : ReplayGuard) → Keeps nonce at g.ttl_ms (consume nonce at g)
unfolding consume
consume-nonce-Keeps nonce at g = record {
  seen_at =
      lookup-insert nonce nonce at (evict at g).seen ∙ (rw ((eq_iff nonce nonce).1 refl) refl);
  same_ttl = refl;
}

-- A guard that remembers nonces for at least twice the policy's age lets no request through twice: after a
-- call that ended in a signature, and any calls for any requests that are over by then, every later call
-- for the same request is denied, however the inner signer answers.
pub signs_once :
    (p : SignerPlatform) (policy : SignerPolicy) (r : SignRequest) (first ended second later : ℕ)
    (raced again : Raced) (g : ReplayGuard) (signature id : String) (between : List SignCall)
    → 2 * policy.max_request_age_ms ≤ g.ttl_ms
    → first ≤ ended
    → (sign p policy r first ended raced g).0 ≡ signed_by signature id
    → All (OverBy second) between
    → (reason : SignDenialReason) × ((sign p policy r second later again
          (sign_all p policy between (sign p policy r first ended raced g).1)).0
        ≡ denied reason)
signs_once p policy r first ended second later raced again g signature id between ttl order h over =
    let (v, kept) = sign_success p policy r first ended raced g signature id h in
    let after = sign_all p policy between (sign p policy r first ended raced g).1 in
    elim (Option-cases (validate_sign_request p r policy second)) [
      | inr (reason, e) ↦
          (reason, ap (λ x. x.0) (sign_denied p policy r second later again after reason e))
      | inl w ↦
          let close = validated_twice p r policy first second v w in
          let l : second ≤ ended + g.ttl_ms = omega (arith, ttl, order, close) in
          let start : Keeps r.nonce ended g.ttl_ms (sign p policy r first ended raced g).1 =
            rw kept (consume-nonce-Keeps r.nonce ended (evict first g)) in
          let end =
            evict-Keeps r.nonce ended g.ttl_ms second after l
              (sign_all-Keeps p policy r.nonce ended g.ttl_ms second between _ l over start) in
          (
            replay_detected,
            ap (λ x. x.0) (sign_replayed p policy r second later ended again after w end.seen_at),
          )
    ]
