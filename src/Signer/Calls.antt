-- ===== src/Signer/Calls.antt =====
-- signerPolicy.ts: what one call of `sign` gives and leaves in the replay guard.
use Prim.Native.String.{String}
use mathlib.Core.Path.{subst}
use remitlend.Base.{
  ℕ, ◌+◌, ◌*◌, ◌≤◌, ◌≡◌, ◌≢◌, inl, inr, refl, sym, ap, ◌∙◌, Option-cases, none, some, [], ◌∷◌,
  arith,
}
use remitlend.Base.Assoc.{Assoc, lookup}
use remitlend.Base.Int.{ℤ, pos, -ℤ_parts, pos_part, neg_part}
use remitlend.Signer.{
  SignRequest, signed_by, denied, SignDenialReason, replay_detected, SignerPolicy, SignerPlatform,
  age_denial, validate_sign_request, ReplayGuard, evict_entries, evict, check, consume,
}
use remitlend.Signer.Signing.{Raced, answered, threw, timed_out, begin_sign, end_sign, sign}

-- A nonce that has not expired stays.
pub evict_entries-lookup :
    (ttl now : ℕ) (nonce : String) (at : ℕ) (m : Assoc ℕ)
    → lookup nonce m ≡ some at
    → now ≤ at + ttl
    → lookup nonce (evict_entries ttl now m) ≡ some at
evict_entries-lookup ttl now nonce at [] h l = h
evict_entries-lookup ttl now nonce at ((j, t) ∷ m) h l =
    ground (arith, evict_entries-lookup ttl now nonce at m)

validated_age :
    (p : SignerPlatform) (r : SignRequest) (policy : SignerPolicy) (now : ℕ)
    → validate_sign_request p r policy now ≡ none
    → age_denial policy now (p.date_parse r.issued_at) ≡ none
unfolding validate_sign_request
validated_age p r policy now h = ground arith

-- The clock is within the age of the time of issue.
abbrev pub Near : ℕ → ℕ → ℤ → Type 0
Near age now issued =
    (now + neg_part issued ≤ pos_part issued + age)
    × (pos_part issued ≤ now + neg_part issued + age)

age_window :
    (policy : SignerPolicy) (now : ℕ) (issued : ℤ)
    → age_denial policy now (some issued) ≡ none
    → Near policy.max_request_age_ms now issued
unfolding age_denial
age_window policy now issued h =
    ground (arith, -ℤ_parts (pos now) issued, -ℤ_parts issued (pos now))

age_missing : (policy : SignerPolicy) (now : ℕ) → age_denial policy now none ≢ none
unfolding age_denial
age_missing policy now h = cc

-- Two times at which a request passes the policy are at most twice its age apart.
pub validated_twice :
    (p : SignerPlatform) (r : SignRequest) (policy : SignerPolicy) (first second : ℕ)
    → validate_sign_request p r policy first ≡ none
    → validate_sign_request p r policy second ≡ none
    → second ≤ first + 2 * policy.max_request_age_ms
validated_twice p r policy first second h k = elim (Option-cases (p.date_parse r.issued_at)) [
  | inl e ↦ absurd (
      age_missing policy first
        (subst (λ o. age_denial policy first o ≡ none) e (validated_age p r policy first h)))
  | inr (issued, e) ↦
      let (a, b) =
        age_window policy first issued
          (subst (λ o. age_denial policy first o ≡ none) e (validated_age p r policy first h)) in
      let (c, d) =
        age_window policy second issued
          (subst (λ o. age_denial policy second o ≡ none) e (validated_age p r policy second k)) in
      omega (arith, a, b, c, d)
]

pub sign_denied :
    (p : SignerPlatform) (policy : SignerPolicy) (r : SignRequest) (now later : ℕ) (raced : Raced)
    (g : ReplayGuard) (reason : SignDenialReason)
    → validate_sign_request p r policy now ≡ some reason
    → sign p policy r now later raced g ≡ (denied reason, g)
unfolding sign begin_sign
sign_denied p policy r now later raced g reason h = rw (h, sign, begin_sign, h) refl

pub sign_replayed :
    (p : SignerPlatform) (policy : SignerPolicy) (r : SignRequest) (now later at : ℕ)
    (raced : Raced) (g : ReplayGuard)
    → validate_sign_request p r policy now ≡ none
    → lookup r.nonce (evict now g).seen ≡ some at
    → sign p policy r now later raced g ≡ (denied replay_detected, evict now g)
unfolding sign begin_sign check
sign_replayed p policy r now later at raced g h e =
    rw (h, sign, begin_sign, check, e, begin_sign, h) refl

pub sign_passed :
    (p : SignerPlatform) (policy : SignerPolicy) (r : SignRequest) (now later : ℕ) (raced : Raced)
    (g : ReplayGuard)
    → validate_sign_request p r policy now ≡ none
    → lookup r.nonce (evict now g).seen ≡ none
    → sign p policy r now later raced g ≡ end_sign r later raced (evict now g)
unfolding sign begin_sign check
sign_passed p policy r now later raced g h e =
    rw (h, sign, begin_sign, check, e, begin_sign, h) refl

end_success :
    (r : SignRequest) (later : ℕ) (raced : Raced) (g : ReplayGuard) (signature id : String)
    → (end_sign r later raced g).0 ≡ signed_by signature id
    → (end_sign r later raced g).1 ≡ consume r.nonce later g
unfolding end_sign
end_success r later (answered (signed_by s i)) g signature id h = refl
end_success r later (answered (denied reason)) g signature id h = absurd (cc)
end_success r later threw g signature id h = absurd (cc)
end_success r later timed_out g signature id h = absurd (cc)

pub sign_success :
    (p : SignerPlatform) (policy : SignerPolicy) (r : SignRequest) (now later : ℕ) (raced : Raced)
    (g : ReplayGuard) (signature id : String)
    → (sign p policy r now later raced g).0 ≡ signed_by signature id
    → (validate_sign_request p r policy now ≡ none)
      × ((sign p policy r now later raced g).1 ≡ consume r.nonce later (evict now g))
sign_success p policy r now later raced g signature id h =
    elim (Option-cases (validate_sign_request p r policy now)) [
      | inr (reason, e) ↦ let no = sign_denied p policy r now later raced g reason e in absurd (cc)
      | inl v ↦ elim (Option-cases (lookup r.nonce (evict now g).seen)) [
        | inr (at, e) ↦ let no = sign_replayed p policy r now later at raced g v e in absurd (cc)
        | inl e ↦
            let yes = sign_passed p policy r now later raced g v e in
            (
              v,
              ap (λ x. x.1) yes
                  ∙ end_success r later raced (evict now g) signature id
                      (ap (λ x. x.0) (sym yes) ∙ h),
            )
      ]
    ]
