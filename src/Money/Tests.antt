-- ===== src/Money/Tests.antt =====
-- decimal.ts and split.ts at concrete amounts.
use remitlend.Base.{ℕ, refl, ◌*◌, ◌%◌, ◌<◌, ◌≡◌, ◌≢◌, ◌⊎◌, inl, List, [], ◌∷◌, arith}
use remitlend.Base.Result.{ok, err, ◌>>=◌}
use remitlend.Base.Int.{ℤ, pos, negsuc, neg, abs, ◌+ℤ◌, ◌-ℤ◌, ◌*ℤ◌, ◌≤ℤ◌, ◌<ℤ◌}
use remitlend.Money.Rounding.{
  half_up, half_even, floor, ceil, division_by_zero, invalid_decimal, round_away_from_zero,
  round_div,
}
use remitlend.Money.Rounding.Laws.{round_div-total, round_div_nearest, round_div_directed}
use remitlend.Money.Decimal.{
  is_decimal_string, trim, parse_magnitude, parse_signed, parse_trimmed, to_stroops, from_stroops,
}
use remitlend.Money.Decimal.RoundTrip.{to_stroops-from_stroops}
use remitlend.Money.Decimal.Grammar.{IsDecimalText}
use remitlend.Money.Decimal.Sign.{to_stroops-minus}
use remitlend.Money.Decimal.Total.{to_stroops_total}
use remitlend.Money.Split.{sum_from, split_pro_rata}
use remitlend.Money.Split.Laws.{IsExactSplit, split_pro_rata_exact}

two_nonzero : pos 2 ≢ pos 0
two_nonzero = λ e. cc

round_div-total_example :
    ((pos 2 ≡ pos 0) × (round_div (negsuc 6) (pos 2) half_even ≡ err division_by_zero))
    ⊎ ((pos 2 ≢ pos 0)
        × ((q : ℤ) × (round_div (negsuc 6) (pos 2) half_even ≡ ok q)
            × (abs (negsuc 6 -ℤ q *ℤ pos 2) < abs (pos 2))))
round_div-total_example = round_div-total (negsuc 6) (pos 2) half_even

round_div_nearest_example :
    ((q : ℤ) × (round_div (negsuc 4) (pos 2) half_up ≡ ok q)
      × ((abs (negsuc 4 -ℤ q *ℤ pos 2) * 2 < 2)
          ⊎ ((abs (negsuc 4 -ℤ q *ℤ pos 2) * 2 ≡ 2) × (5 < abs q * 2))))
    × ((q : ℤ) × (round_div (negsuc 4) (pos 2) half_even ≡ ok q)
        × ((abs (negsuc 4 -ℤ q *ℤ pos 2) * 2 < 2)
            ⊎ ((abs (negsuc 4 -ℤ q *ℤ pos 2) * 2 ≡ 2) × (abs q % 2 ≡ 0))))
round_div_nearest_example = round_div_nearest (negsuc 4) (pos 2) two_nonzero

round_div_directed_example :
    ((q : ℤ) × (round_div (negsuc 6) (pos 2) floor ≡ ok q)
      × (q *ℤ pos 2 ≤ℤ negsuc 6)
      × (negsuc 6 <ℤ q *ℤ pos 2 +ℤ pos 2))
    × ((q : ℤ) × (round_div (negsuc 6) (pos 2) ceil ≡ ok q)
        × (negsuc 6 ≤ℤ q *ℤ pos 2)
        × (q *ℤ pos 2 <ℤ negsuc 6 +ℤ pos 2))
round_div_directed_example = round_div_directed (negsuc 6) 1

abbrev three_weights : List ℤ
three_weights = pos 1 ∷ pos 1 ∷ pos 1 ∷ []

three_nonzero : sum_from (pos 0) three_weights ≢ pos 0
unfolding ◌+ℤ◌ sum_from
three_nonzero e = let three : pos 3 ≡ pos 0 = e in absurd (cc)

split_pro_rata_exact_example :
    (parts : List ℤ) × (split_pro_rata (pos 100) three_weights ≡ ok parts)
    × IsExactSplit (pos 100) three_weights parts
split_pro_rata_exact_example =
    split_pro_rata_exact (pos 100) three_weights (omega arith)
      (omega arith, (omega arith, (omega arith, tt))) three_nonzero

-- "0.00000001", a tenth of a stroop.
abbrev a_tenth : List ℕ
a_tenth = b'0' ∷ b'.' ∷ b'0' ∷ b'0' ∷ b'0' ∷ b'0' ∷ b'0' ∷ b'0' ∷ b'0' ∷ b'1' ∷ []

-- Under `floor`, a tenth of a stroop below zero is read as zero.
minus_a_tenth_floor : to_stroops (b'-' ∷ a_tenth) floor ≡ ok (pos 0)
unfolding to_stroops parse_signed parse_magnitude round_div round_away_from_zero
minus_a_tenth_floor = refl

to_stroops-from_stroops_example :
    to_stroops (from_stroops (negsuc 125000000)) floor ≡ ok (negsuc 125000000)
to_stroops-from_stroops_example = to_stroops-from_stroops (negsuc 125000000) floor

to_stroops_total_example :
    ((¬ (IsDecimalText (trim a_tenth))) × (to_stroops a_tenth ceil ≡ err invalid_decimal))
    ⊎ (IsDecimalText (trim a_tenth) × ((v : ℤ) × (to_stroops a_tenth ceil ≡ ok v)))
to_stroops_total_example = to_stroops_total a_tenth ceil

-- "-5" is the negation of "5".
to_stroops-minus_example :
    to_stroops (b'-' ∷ b'5' ∷ []) floor ≡ (to_stroops (b'5' ∷ []) floor >>= λ v. ok (neg v))
to_stroops-minus_example = to_stroops-minus floor (b'5' ∷ []) (b'5', [], [], refl, refl, inl refl)

minus_five : to_stroops (b'-' ∷ b'5' ∷ []) floor ≡ ok (negsuc 49999999)
unfolding to_stroops trim parse_trimmed is_decimal_string parse_signed parse_magnitude
minus_five = refl
