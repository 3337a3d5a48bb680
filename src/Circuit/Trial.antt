-- ===== src/Circuit/Trial.antt =====
-- Opening, cooling down, and the one trial call that a half-open circuit admits.
use Prim.Native.String.{String}
use mathlib.Core.Path.{subst}
use remitlend.Base.{
  ℕ, ◌+◌, ◌≤◌, ◌<◌, ◌≡◌, ◌⊎◌, inl, refl, Bool, true, false, List, [], ◌∷◌, arith, length, replicate,
  All, ap,
}
use remitlend.Circuit.{
  Config, Breaker, closed, opened, half_open, should_short_circuit, record_success, record_failure,
}

module _ {V : Type 0} where
  -- The answers of `shouldShortCircuit` at a sequence of times.
  unfoldable pub answers : Config → List ℕ → Breaker V → List Bool × Breaker V
  answers cfg [] b = ([], b)
  answers cfg (t ∷ ts) b =
      let (short, c) = should_short_circuit cfg t b in
      let (rest, d) = answers cfg ts c in (short ∷ rest, d)

  -- The breaker with its trial in flight.
  abbrev pub in_trial : Breaker V → Breaker V
  in_trial b = record b { state = half_open; half_open_in_flight = true }

  short_in_trial :
      (cfg : Config) (t : ℕ) (b : Breaker V)
      → should_short_circuit cfg t (in_trial b) ≡ (true, in_trial b)
  unfolding should_short_circuit
  short_in_trial cfg t b = refl

  answers-in_trial :
      (cfg : Config) (ts : List ℕ) (b : Breaker V)
      → answers cfg ts (in_trial b) ≡ (replicate (length ts) true, in_trial b)
  unfolding answers
  answers-in_trial cfg [] b = refl
  answers-in_trial cfg (t ∷ ts) b =
      rw (short_in_trial cfg t b, answers)
        (ap (λ p. let (l, d) = p in (true ∷ l, d)) (answers-in_trial cfg ts b))

  short_opened_waits :
      (cfg : Config) (t : ℕ) (b : Breaker V)
      → b.state ≡ opened
      → t < b.opened_at + cfg.cooldown_ms
      → should_short_circuit cfg t b ≡ (true, b)
  unfolding should_short_circuit
  short_opened_waits cfg t b o h = ground arith

  short_opened_trial :
      (cfg : Config) (t : ℕ) (b : Breaker V)
      → b.state ≡ opened
      → b.opened_at + cfg.cooldown_ms ≤ t
      → should_short_circuit cfg t b ≡ (false, in_trial b)
  unfolding should_short_circuit
  short_opened_trial cfg t b o h = ground arith

  answers_waiting :
      (cfg : Config) (ts : List ℕ) (b : Breaker V)
      → b.state ≡ opened
      → All (λ s. s < b.opened_at + cfg.cooldown_ms) ts
      → answers cfg ts b ≡ (replicate (length ts) true, b)
  unfolding answers
  answers_waiting cfg [] b o a = refl
  answers_waiting cfg (t ∷ ts) b o a =
      rw (short_opened_waits cfg t b o a.0, answers)
        (ap (λ p. let (l, d) = p in (true ∷ l, d)) (answers_waiting cfg ts b o a.1))

  -- While an open circuit cools down every call is rejected and the breaker does not change; the first
  -- call at or after the end of the cooldown is admitted, and until the breaker records a success or a
  -- failure every later call is rejected, whatever its time.
  pub one_trial :
      (cfg : Config) (early : List ℕ) (t : ℕ) (later : List ℕ) (b : Breaker V)
      → b.state ≡ opened
      → All (λ s. s < b.opened_at + cfg.cooldown_ms) early
      → b.opened_at + cfg.cooldown_ms ≤ t
      → (answers cfg early b ≡ (replicate (length early) true, b))
        × (answers cfg (t ∷ later) b ≡ (false ∷ replicate (length later) true, in_trial b))
  one_trial cfg early t later b o e h = (
    answers_waiting cfg early b o e,
    unfold answers in
        rw (short_opened_trial cfg t b o h)
          (ap (λ p. let (l, d) = p in (false ∷ l, d)) (answers-in_trial cfg later b)),
  )

  -- The trial decides: a success closes the circuit with no failure counted, and calls pass at any time;
  -- a failure opens it again, and calls are rejected for the whole cooldown from then on.
  pub trial_decides :
      (cfg : Config) (b : Breaker V) (message : String) (now later t soon : ℕ)
      → b.state ≡ half_open
      → soon < later + cfg.cooldown_ms
      → let won = record_success now b in
        let lost = record_failure cfg message now later b in
        (won.state ≡ closed)
        × (won.consecutive_failures ≡ 0)
        × (should_short_circuit cfg t won ≡ (false, won))
        × (lost.state ≡ opened)
        × (should_short_circuit cfg soon lost ≡ (true, lost))
  unfolding record_success record_failure should_short_circuit
  trial_decides cfg b message now later t soon h l = ground arith

  unfoldable pub fail_all : Config → List (String × ℕ × ℕ) → Breaker V → Breaker V
  fail_all cfg [] b = b
  fail_all cfg ((m, now, later) ∷ fs) b = fail_all cfg fs (record_failure cfg m now later b)

  -- A count of failures since the circuit was last closed, with the state that goes with it.
  abbrev Counts : Config → ℕ → Breaker V → Type 0
  Counts cfg n b =
      (b.consecutive_failures ≡ n)
      × (((b.state ≡ closed) × (n < cfg.failure_threshold))
          ⊎ ((b.state ≡ opened) × (cfg.failure_threshold ≤ n)))

  record_failure-Counts :
      (cfg : Config) (n : ℕ) (m : String) (now later : ℕ) (b : Breaker V)
      → Counts cfg n b
      → Counts cfg (n + 1) (record_failure cfg m now later b)
  unfolding record_failure
  record_failure-Counts cfg n m now later b h = ground arith

  fail_all-Counts :
      (cfg : Config) (fs : List (String × ℕ × ℕ)) (n : ℕ) (b : Breaker V)
      → Counts cfg n b
      → Counts cfg (n + length fs) (fail_all cfg fs b)
  unfolding fail_all
  fail_all-Counts cfg [] n b h = ground arith
  fail_all-Counts cfg ((m, now, later) ∷ fs) n b h =
      subst (λ k. Counts cfg k (fail_all cfg fs (record_failure cfg m now later b))) (omega arith)
        (fail_all-Counts cfg fs (n + 1) (record_failure cfg m now later b)
          (record_failure-Counts cfg n m now later b h))

  -- After a success, a run of failures with no success between them opens the circuit exactly when there
  -- are at least as many as the threshold; until then it stays closed.
  pub opens_at_threshold :
      (cfg : Config) (fs : List (String × ℕ × ℕ)) (t : ℕ) (b : Breaker V)
      → 0 < cfg.failure_threshold
      → let c = fail_all cfg fs (record_success t b) in
        (c.consecutive_failures ≡ length fs)
        × (((c.state ≡ closed) × (length fs < cfg.failure_threshold))
            ⊎ ((c.state ≡ opened) × (cfg.failure_threshold ≤ length fs)))
  opens_at_threshold cfg fs t b h =
      subst (λ k. Counts cfg k (fail_all cfg fs (record_success t b))) (omega arith)
        (fail_all-Counts cfg fs 0 (record_success t b) (fresh t b h))
    where
      fresh :
          (t : ℕ) (b : Breaker V) → 0 < cfg.failure_threshold → Counts cfg 0 (record_success t b)
      fresh t b h = unfold record_success in (refl, inl (refl, h))
