-- ===== src/Money/Rounding/Magnitude.antt =====
-- `roundDiv` on magnitudes: the sign of the quotient is settled apart from the rounding.
use remitlend.Base.{
  ℕ, zero, suc, ◌+◌, ◌*◌, ◌/◌, ◌%◌, ◌≡◌, refl, Bool, true, false, not, ltb, leb, ◌==◌,
  if◌then◌else◌, arith,
}
use remitlend.Base.Int.{
  ℤ, pos, negsuc, is_neg, is_zero, abs, signed, differ, neg_ℕ, ◌+ℤ◌, ◌-ℤ◌, ◌*ℤ◌, ◌/ℤ◌, ◌%ℤ◌,
}
use remitlend.Base.Result.{ok}
use remitlend.Money.Rounding.{
  RoundingMode, half_even, half_up, floor, ceil, round_away_from_zero, round_quotient, round_div,
}

-- Whether the magnitude is rounded up, for the sign of the quotient, the remainder and the quotient.
abbrev pub rounds_up : RoundingMode → Bool → ℕ → ℕ → ℕ → Bool
rounds_up floor minus r b q = minus
rounds_up ceil minus r b q = not minus
rounds_up half_up minus r b q = leb b (r * 2)
rounds_up half_even minus r b q =
    if ltb b (r * 2) then true else if ltb (r * 2) b then false else not (q % 2 == 0)

abbrev bumped : RoundingMode → Bool → ℕ → ℕ → ℕ → ℕ
bumped mode minus q r b = if r == 0 then q else if rounds_up mode minus r b q then q + 1 else q

unfoldable pub rounded : RoundingMode → Bool → ℕ → ℕ → ℕ
rounded mode minus a b = bumped mode minus (a / b) (a % b) b

is_zero-neg_ℕ : (n : ℕ) → is_zero (neg_ℕ n) ≡ (n == 0)
is_zero-neg_ℕ zero = ground arith
is_zero-neg_ℕ (suc n) = ground arith

away-pos :
    (mode : RoundingMode) (r b q : ℕ)
    → round_away_from_zero mode false (pos r) (pos b) (pos q) ≡ rounds_up mode false r b q
unfolding round_away_from_zero ◌*ℤ◌ ◌%ℤ◌
away-pos floor r b q = refl
away-pos ceil r b q = refl
away-pos half_up r b q = ground arith
away-pos half_even r b q = ground arith

away-neg :
    (mode : RoundingMode) (r b q : ℕ)
    → round_away_from_zero mode true (pos r) (pos b) (neg_ℕ q) ≡ rounds_up mode true r b q
unfolding round_away_from_zero ◌*ℤ◌ ◌%ℤ◌
away-neg floor r b q = refl
away-neg ceil r b q = refl
away-neg half_up r b q = ground arith
away-neg half_even r b zero = ground arith
away-neg half_even r b (suc q) = ground (arith, is_zero-neg_ℕ (suc q % 2))

round_quotient-pos :
    (q r b : ℕ) (mode : RoundingMode)
    → round_quotient (pos q) (pos r) (pos b) mode ≡ ok (pos (bumped mode false q r b))
unfolding round_quotient ◌+ℤ◌
round_quotient-pos q r b mode = rw (away-pos mode r b q) (ground arith)

round_quotient-neg :
    (q r b : ℕ) (mode : RoundingMode)
    → round_quotient (neg_ℕ q) (neg_ℕ r) (pos b) mode ≡ ok (neg_ℕ (bumped mode true q r b))
unfolding round_quotient ◌-ℤ◌
round_quotient-neg q zero b mode = ground arith
round_quotient-neg zero (suc r) b mode = rw (away-neg mode (suc r) b zero) (ground arith)
round_quotient-neg (suc q) (suc r) b mode = rw (away-neg mode (suc r) b (suc q)) (ground arith)

neg/ℤpos : (a b : ℕ) → neg_ℕ a /ℤ pos b ≡ neg_ℕ (a / b)
unfolding ◌/ℤ◌
neg/ℤpos zero b = ground arith
neg/ℤpos (suc a) b = refl

neg%ℤpos : (a b : ℕ) → neg_ℕ a %ℤ pos b ≡ neg_ℕ (a % b)
unfolding ◌%ℤ◌
neg%ℤpos zero b = ground arith
neg%ℤpos (suc a) b = refl

-- For a divisor other than zero `roundDiv` returns the rounded magnitude under the sign of the quotient.
pub round_div-eq :
    (num den : ℤ) (mode : RoundingMode)
    → is_zero den ≡ false
    → let minus = differ (is_neg num) (is_neg den) in
      round_div num den mode ≡ ok (signed minus (rounded mode minus (abs num) (abs den)))
unfolding round_div rounded
round_div-eq num (pos zero) mode h = ground arith
round_div-eq (pos a) (pos (suc b)) mode h =
    rw h (round_quotient-pos (a / suc b) (a % suc b) (suc b) mode)
round_div-eq (pos a) (negsuc b) mode h =
    rw (neg/ℤpos a (suc b), neg%ℤpos a (suc b))
      (round_quotient-neg (a / suc b) (a % suc b) (suc b) mode)
round_div-eq (negsuc a) (pos (suc b)) mode h =
    rw h (round_quotient-neg (suc a / suc b) (suc a % suc b) (suc b) mode)
round_div-eq (negsuc a) (negsuc b) mode h =
    round_quotient-pos (suc a / suc b) (suc a % suc b) (suc b) mode
