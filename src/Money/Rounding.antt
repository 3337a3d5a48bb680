-- ===== src/Money/Rounding.antt =====
-- backend/src/money/decimal.ts: `RoundingMode`, `MoneyError` and `roundDiv`. The source's `default`
-- branch, for a mode outside the enumeration, is no case of the type.
pub mod Magnitude
pub mod Bounds
pub mod Laws
use remitlend.Base.{Bool, true, false, not, if◌then◌else◌}
use remitlend.Base.Int.{ℤ, pos, is_neg, is_zero, neg, ltb_ℤ, leb_ℤ, ◌+ℤ◌, ◌-ℤ◌, ◌*ℤ◌, ◌/ℤ◌, ◌%ℤ◌}
use remitlend.Base.Result.{Result, ok, err}

pub data RoundingMode : Type 0 where
  half_even half_up floor ceil : RoundingMode

-- One constructor for each message, and `type_error` and `syntax_error` for what JavaScript itself throws.
pub data MoneyError : Type 0 where
  division_by_zero invalid_decimal negative_total zero_weights negative_weights : MoneyError
  zero_total_weight drift type_error syntax_error : MoneyError

-- The `switch` that sets `roundAwayFromZero`.
unfoldable pub round_away_from_zero : RoundingMode → Bool → ℤ → ℤ → ℤ → Bool
unfolding ◌*ℤ◌ ◌%ℤ◌
round_away_from_zero floor remainder_is_negative _ _ _ = remainder_is_negative
round_away_from_zero ceil remainder_is_negative _ _ _ = not remainder_is_negative
round_away_from_zero half_up _ abs_remainder d _ = leb_ℤ d (abs_remainder *ℤ pos 2)
round_away_from_zero half_even _ abs_remainder d quotient =
    let doubled = abs_remainder *ℤ pos 2 in
    if ltb_ℤ d doubled
    then true
    else if ltb_ℤ doubled d
    then false
    else not (is_zero (quotient %ℤ pos 2))

-- `roundDiv` from its remainder on.
unfoldable pub round_quotient : ℤ → ℤ → ℤ → RoundingMode → Result MoneyError ℤ
unfolding ◌+ℤ◌ ◌-ℤ◌
round_quotient quotient remainder d mode =
    let remainder_is_negative = is_neg remainder in
    let abs_remainder = if remainder_is_negative then neg remainder else remainder in
    if is_zero remainder
    then ok quotient
    else if not (round_away_from_zero mode remainder_is_negative abs_remainder d quotient)
    then ok quotient
    else if remainder_is_negative
    then ok (quotient -ℤ pos 1)
    else ok (quotient +ℤ pos 1)

unfoldable pub round_div : ℤ → ℤ → RoundingMode → Result MoneyError ℤ
unfolding round_quotient ◌/ℤ◌ ◌%ℤ◌
round_div num den mode =
    if is_zero den
    then err division_by_zero
    else let n = if is_neg den then neg num else num in
      let d = if is_neg den then neg den else den in round_quotient (n /ℤ d) (n %ℤ d) d mode
