-- ===== src/Money/Rounding/Laws.antt =====
-- What `roundDiv` promises: the error, the distance of the result from the exact quotient, and the
-- side on which each mode puts it.
use remitlend.Base.{
  ℕ, zero, suc, ◌*◌, ◌%◌, ◌≤◌, ◌<◌, ◌≡◌, ◌≢◌, ◌⊎◌, inl, inr, refl, Bool, true, false, arith,
}
use remitlend.Base.Int.{
  ℤ, pos, negsuc, is_neg, is_zero, abs, signed, differ, ◌+ℤ◌, ◌-ℤ◌, ◌*ℤ◌, ◌≤ℤ◌, ◌<ℤ◌, +ℤ_parts,
}
use remitlend.Base.Int.Signs.{
  signed-mul, abs-sub_signed, abs-signed, differ_cancel, pos_part-neg_ℕ, neg_part-neg_ℕ,
}
use remitlend.Base.Result.{ok, err}
use remitlend.Money.Rounding.{
  RoundingMode, half_even, half_up, floor, ceil, division_by_zero, round_div,
}
use remitlend.Money.Rounding.Bounds.{
  dist, rounded-dist-lt, rounded-half_up, rounded-half_even, rounded-floor, rounded-ceil,
}
use remitlend.Money.Rounding.Magnitude.{rounded, round_div-eq}

residual_signed :
    (s t : Bool) (a b k : ℕ)
    → abs (signed s a -ℤ signed (differ s t) k *ℤ signed t b) ≡ dist a (k * b)
residual_signed s t a b k =
    rw (signed-mul (differ s t) t k b, differ_cancel s t) (abs-sub_signed s a (k * b))

residual :
    (num den : ℤ) (k : ℕ)
    → abs (num -ℤ signed (differ (is_neg num) (is_neg den)) k *ℤ den) ≡ dist (abs num) (k * abs den)
residual (pos a) (pos b) k = residual_signed false false a b k
residual (pos a) (negsuc b) k = residual_signed false true a (suc b) k
residual (negsuc a) (pos b) k = residual_signed true false (suc a) b k
residual (negsuc a) (negsuc b) k = residual_signed true true (suc a) (suc b) k

-- The result for a divisor other than zero.
result : RoundingMode → ℤ → ℤ → ℤ
result mode num den =
    let minus = differ (is_neg num) (is_neg den) in
    signed minus (rounded mode minus (abs num) (abs den))

result-dist :
    (mode : RoundingMode) (num den : ℤ)
    → let k = rounded mode (differ (is_neg num) (is_neg den)) (abs num) (abs den) in
      abs (num -ℤ result mode num den *ℤ den) ≡ dist (abs num) (k * abs den)
unfolding result
result-dist mode num den =
    residual num den (rounded mode (differ (is_neg num) (is_neg den)) (abs num) (abs den))

abs-result :
    (mode : RoundingMode) (num den : ℤ)
    → abs (result mode num den)
      ≡ rounded mode (differ (is_neg num) (is_neg den)) (abs num) (abs den)
unfolding result
abs-result mode num den =
    abs-signed (differ (is_neg num) (is_neg den))
      (rounded mode (differ (is_neg num) (is_neg den)) (abs num) (abs den))

round_div-result :
    (mode : RoundingMode) (num den : ℤ)
    → is_zero den ≡ false
    → round_div num den mode ≡ ok (result mode num den)
unfolding result
round_div-result mode num den h = round_div-eq num den mode h

zero-cases : (den : ℤ) → (den ≡ pos 0) ⊎ ((is_zero den ≡ false) × ((b : ℕ) × (abs den ≡ suc b)))
zero-cases (pos zero) = inl refl
zero-cases (pos (suc b)) = inr (ground arith, (b, refl))
zero-cases (negsuc b) = inr (refl, (b, refl))

nonzero : (den : ℤ) → den ≢ pos 0 → (is_zero den ≡ false) × ((b : ℕ) × (abs den ≡ suc b))
nonzero den h = elim (zero-cases den) [ inl e ↦ absurd (h e) | inr r ↦ r ]

-- The result lies less than one unit from the exact quotient, in every mode, and only a zero divisor
-- throws. The distance is written without the division: it is that of `q * den` from `num`, against
-- the magnitude of `den`.
pub round_div-total :
    (num den : ℤ) (mode : RoundingMode)
    → ((den ≡ pos 0) × (round_div num den mode ≡ err division_by_zero))
      ⊎ ((den ≢ pos 0)
          × ((q : ℤ) × (round_div num den mode ≡ ok q) × (abs (num -ℤ q *ℤ den) < abs den)))
unfolding round_div
round_div-total num den mode = elim (zero-cases den) [
  | inl e ↦ inl (e, rw e)
  | inr (h, (b, e)) ↦ inr (
    λ z. cc,
    (
      result mode num den,
      round_div-result mode num den h,
      rw (result-dist mode num den, e)
          (rounded-dist-lt mode (differ (is_neg num) (is_neg den)) (abs num) b),
    ),
  )
]

tie_cases : {x y : ℕ} {P : Type 0} → x ≤ y → (x ≡ y → P) → (x < y) ⊎ ((x ≡ y) × P)
tie_cases {x} {y} {P} l h = elim (cases l) [ inl a ↦ inl a | inr a ↦ inr (a, h a) ]
  where
    cases : {x y : ℕ} → x ≤ y → (x < y) ⊎ (x ≡ y)
    cases l = ground arith

-- With `half_up` and `half_even` a divisor other than zero gives a result at most half a unit from the
-- exact quotient; at exactly half a unit `half_up` has gone away from zero, and `half_even` returns an
-- even number.
pub round_div_nearest :
    (num den : ℤ)
    → den ≢ pos 0
    → ((q : ℤ) × (round_div num den half_up ≡ ok q)
        × ((abs (num -ℤ q *ℤ den) * 2 < abs den)
            ⊎ ((abs (num -ℤ q *ℤ den) * 2 ≡ abs den) × (abs num < abs q * abs den))))
      × ((q : ℤ) × (round_div num den half_even ≡ ok q)
          × ((abs (num -ℤ q *ℤ den) * 2 < abs den)
              ⊎ ((abs (num -ℤ q *ℤ den) * 2 ≡ abs den) × (abs q % 2 ≡ 0))))
round_div_nearest num den h =
    let (t, w) = nonzero den h in
    let (b, e) = w in
    let s = differ (is_neg num) (is_neg den) in
    let up = rounded-half_up s (abs num) b in
    let even = rounded-half_even s (abs num) b in
    (
      (
        result half_up num den,
        round_div-result half_up num den t,
        rw (result-dist half_up num den, abs-result half_up num den, e) (tie_cases up.0 up.1),
      ),
      (
        result half_even num den,
        round_div-result half_even num den t,
        rw (result-dist half_even num den, abs-result half_even num den, e)
            (tie_cases even.0 even.1),
      ),
    )

ruleset neg_laws = (arith, +ℤ_parts, pos_part-neg_ℕ, neg_part-neg_ℕ)

-- For a positive divisor `floor` returns the greatest integer at most the exact quotient, and `ceil` the
-- least integer at least the exact quotient.
pub round_div_directed :
    (num : ℤ) (b : ℕ)
    → ((q : ℤ) × (round_div num (pos (suc b)) floor ≡ ok q)
        × (q *ℤ pos (suc b) ≤ℤ num)
        × (num <ℤ q *ℤ pos (suc b) +ℤ pos (suc b)))
      × ((q : ℤ) × (round_div num (pos (suc b)) ceil ≡ ok q)
          × (num ≤ℤ q *ℤ pos (suc b))
          × (q *ℤ pos (suc b) <ℤ num +ℤ pos (suc b)))
unfolding result
round_div_directed (pos a) b =
    let f = (rounded-floor false a b).0 refl in
    let c = (rounded-ceil false a b).1 refl in
    (
      (
        result floor (pos a) (pos (suc b)),
        round_div-result floor (pos a) (pos (suc b)) (ground arith),
        rw (signed-mul false false (rounded floor false a (suc b)) (suc b)) (omega (arith, f)),
        rw (signed-mul false false (rounded floor false a (suc b)) (suc b))
            (omega (arith, +ℤ_parts, f)),
      ),
      (
        result ceil (pos a) (pos (suc b)),
        round_div-result ceil (pos a) (pos (suc b)) (ground arith),
        rw (signed-mul false false (rounded ceil false a (suc b)) (suc b)) (omega (arith, c)),
        rw (signed-mul false false (rounded ceil false a (suc b)) (suc b))
            (omega (arith, +ℤ_parts, c)),
      ),
    )
round_div_directed (negsuc a) b =
    let f = (rounded-floor true (suc a) b).1 refl in
    let c = (rounded-ceil true (suc a) b).0 refl in
    (
      (
        result floor (negsuc a) (pos (suc b)),
        round_div-result floor (negsuc a) (pos (suc b)) (ground arith),
        rw (signed-mul true false (rounded floor true (suc a) (suc b)) (suc b))
            (omega (neg_laws, f)),
        rw (signed-mul true false (rounded floor true (suc a) (suc b)) (suc b))
            (omega (neg_laws, f)),
      ),
      (
        result ceil (negsuc a) (pos (suc b)),
        round_div-result ceil (negsuc a) (pos (suc b)) (ground arith),
        rw (signed-mul true false (rounded ceil true (suc a) (suc b)) (suc b))
            (omega (neg_laws, c)),
        rw (signed-mul true false (rounded ceil true (suc a) (suc b)) (suc b))
            (omega (neg_laws, c)),
      ),
    )
