-- ===== src/Money/Rounding/Bounds.antt =====
-- The rounded magnitude against the exact quotient.
use remitlend.Base.{
  ℕ, suc, ◌+◌, ◌-◌, ◌*◌, ◌/◌, ◌%◌, ◌≤◌, ◌<◌, ◌≡◌, ◌⊎◌, inl, inr, refl, sym, Bool-cases, ==_iff,
  ◌==◌, Bool, true, false, arith,
}
use remitlend.Money.Rounding.{RoundingMode, half_even, half_up, floor, ceil}
use remitlend.Money.Rounding.Magnitude.{rounds_up, rounded}

-- The distance between two numbers.
abbrev pub dist : ℕ → ℕ → ℕ
dist a b = (a - b) + (b - a)

quotient_bounds : (a b : ℕ) → (a ≡ a / suc b * suc b + a % suc b) × (a % suc b < suc b)
quotient_bounds a b = omega arith

-- A rounded quotient is the truncated one or the next, and the exact multiple goes with it.
rounded-cases :
    (mode : RoundingMode) (s : Bool) (a b : ℕ)
    → let q = a / suc b in
      let r = a % suc b in
      let k = rounded mode s a (suc b) in
      ((k ≡ q) × (k * suc b + r ≡ a) × ((r ≡ 0) ⊎ (rounds_up mode s r (suc b) q ≡ false)))
      ⊎ ((k ≡ q + 1)
          × (k * suc b + r ≡ a + suc b)
          × (0 < r)
          × (rounds_up mode s r (suc b) q ≡ true))
unfolding rounded
rounded-cases mode s a b = elim (Bool-cases (a % suc b == 0)) [
  | inl exact ↦ rw exact (inl (refl, sym bounds.0, inl ((==_iff _ 0).0 exact)))
  | inr rest ↦ elim (Bool-cases (rounds_up mode s (a % suc b) (suc b) (a / suc b))) [
    | inl up ↦ rw (rest, up) (inr (refl, omega (arith, bounds), ground arith, refl))
    | inr down ↦ rw (rest, down) (inl (refl, sym bounds.0, inr refl))
  ]
]
  where
    bounds : (a ≡ a / suc b * suc b + a % suc b) × (a % suc b < suc b)
    bounds = quotient_bounds a b

pub rounded-dist-lt :
    (mode : RoundingMode) (s : Bool) (a b : ℕ) → dist a (rounded mode s a (suc b) * suc b) < suc b
rounded-dist-lt mode s a b = grind (arith, rounded-cases mode s a b, quotient_bounds a b)

pub rounded-half_up :
    (s : Bool) (a b : ℕ)
    → let k = rounded half_up s a (suc b) in
      (dist a (k * suc b) * 2 ≤ suc b) × (dist a (k * suc b) * 2 ≡ suc b → a < k * suc b)
rounded-half_up s a b = ground (arith, rounded-cases half_up s a b, quotient_bounds a b)

pub rounded-half_even :
    (s : Bool) (a b : ℕ)
    → let k = rounded half_even s a (suc b) in
      (dist a (k * suc b) * 2 ≤ suc b) × (dist a (k * suc b) * 2 ≡ suc b → k % 2 ≡ 0)
rounded-half_even s a b = ground (arith, rounded-cases half_even s a b, quotient_bounds a b)

pub rounded-floor :
    (s : Bool) (a b : ℕ)
    → let k = rounded floor s a (suc b) in
      (s ≡ false → (k * suc b ≤ a) × (a < k * suc b + suc b))
      × (s ≡ true → (a ≤ k * suc b) × (k * suc b < a + suc b))
rounded-floor s a b = ground (arith, rounded-cases floor s a b, quotient_bounds a b)

pub rounded-ceil :
    (s : Bool) (a b : ℕ)
    → let k = rounded ceil s a (suc b) in
      (s ≡ true → (k * suc b ≤ a) × (a < k * suc b + suc b))
      × (s ≡ false → (a ≤ k * suc b) × (k * suc b < a + suc b))
rounded-ceil s a b = ground (arith, rounded-cases ceil s a b, quotient_bounds a b)
