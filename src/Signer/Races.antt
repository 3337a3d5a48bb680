-- ===== src/Signer/Races.antt =====
-- signerPolicy.ts: two calls of `sign` whose inner signatures are awaited at the same time.
use Prim.Native.String.{String}
use remitlend.Base.{ℕ, ◌≡◌, refl, ap, true, false, none, [], ◌∷◌, ◌&&◌, ◌⊎◌, ◌↔◌, arith}
use remitlend.Base.Assoc.{Assoc, lookup}
use remitlend.Signer.{
  SignRequest, signed_by, SignerPolicy, SignerPlatform, validate_sign_request, ReplayGuard,
  evict_entries, evict, check,
}
use remitlend.Signer.Signing.{
  answered, begin_sign, end_sign, SignerSelectionConfig, local_signer, external_signer,
  select_signer, is_production,
}
use remitlend.Base.Result.{ok}

evict_entries-none :
    (ttl now : ℕ) (nonce : String) (m : Assoc ℕ)
    → lookup nonce m ≡ none
    → lookup nonce (evict_entries ttl now m) ≡ none
evict_entries-none ttl now nonce [] h = h
evict_entries-none ttl now nonce ((j, t) ∷ m) h = ground (arith, evict_entries-none ttl now nonce m)

begin_passes :
    (p : SignerPlatform) (policy : SignerPolicy) (r : SignRequest) (now : ℕ) (g : ReplayGuard)
    → validate_sign_request p r policy now ≡ none
    → lookup r.nonce g.seen ≡ none
    → begin_sign p policy r now g ≡ (none, evict now g)
unfolding begin_sign check
begin_passes p policy r now g h e =
    rw (h, begin_sign, check, evict_entries-none g.ttl_ms now r.nonce g.seen e) refl

-- If two calls for one request both start before the inner signer has answered the first, and the policy
-- lets the request through at both times, then the guard stops neither: both end in the inner
-- signer's signatures.
pub signs_twice :
    (p : SignerPlatform) (policy : SignerPolicy) (r : SignRequest) (first second ended later : ℕ)
    (g : ReplayGuard) (a b id : String)
    → validate_sign_request p r policy first ≡ none
    → validate_sign_request p r policy second ≡ none
    → lookup r.nonce g.seen ≡ none
    → let (denial, g1) = begin_sign p policy r first g in
      let (denial', g2) = begin_sign p policy r second g1 in
      let (result, g3) = end_sign r ended (answered (signed_by a id)) g2 in
      let (result', g4) = end_sign r later (answered (signed_by b id)) g3 in
      (denial ≡ none) × (denial' ≡ none) × (result ≡ signed_by a id) × (result' ≡ signed_by b id)
unfolding end_sign
signs_twice p policy r first second ended later g a b id v w e =
    let one = begin_passes p policy r first g v e in
    let two =
      begin_passes p policy r second (evict first g) w
        (evict_entries-none g.ttl_ms first r.nonce g.seen e) in
    (ap (λ x. x.0) one, rw one (ap (λ x. x.0) two), refl, refl)

select_local :
    (c : SignerSelectionConfig)
    → (select_signer c ≡ ok local_signer) ↔ (
        (is_production c.node_env ≡ false)
        × (c.allow_local_signer ≡ true)
        × (c.local_configured ≡ true))
unfolding select_signer
select_local c = ground arith

select_external :
    (c : SignerSelectionConfig)
    → (select_signer c ≡ ok external_signer) ↔ (
        (c.external_configured ≡ true)
        × ((is_production c.node_env ≡ true)
            ⊎ ((c.allow_local_signer && c.local_configured) ≡ false)))
unfolding select_signer
select_external c = ground arith

-- The local signer is selected exactly when it is configured and allowed outside production, the external
-- one exactly when it is configured and, outside production, the local one is not both
-- configured and allowed.
pub select_signer_lem :
    (c : SignerSelectionConfig)
    → ((select_signer c ≡ ok local_signer) ↔ (
        (is_production c.node_env ≡ false)
        × (c.allow_local_signer ≡ true)
        × (c.local_configured ≡ true)))
      × ((select_signer c ≡ ok external_signer) ↔ (
          (c.external_configured ≡ true)
          × ((is_production c.node_env ≡ true)
              ⊎ ((c.allow_local_signer && c.local_configured) ≡ false))))
unfolding select_signer
select_signer_lem c = (select_local c, select_external c)
