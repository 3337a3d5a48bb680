-- ===== src/Money/Decimal/RoundTrip.antt =====
-- backend/src/money/decimal.ts: `toStroops` reads back what `fromStroops` writes.
use remitlend.Base.{
  ℕ, zero, suc, ◌+◌, ◌-◌, ◌*◌, ◌/◌, ◌%◌, ◌<◌, ◌≡◌, refl, sym, ◌∙◌, ap, Bool, true, List, [], ◌∷◌,
  ◌++◌, length, replicate, arith, leb, if◌then◌else◌,
}
use remitlend.Base.Int.{ℤ, pos, negsuc, is_neg, neg, ◌+ℤ◌, ◌*ℤ◌, abs, pos*ℤpos, pos+ℤpos}
use remitlend.Base.Result.{ok, ◌>>=◌}
use remitlend.Money.Rounding.{RoundingMode}
use remitlend.Money.Decimal.{
  point, is_digit, all_digits, some_digits, big_int, or_zero, pad_end, pad_start, value, digits,
  parse_magnitude, parse_signed, parse_trimmed, to_stroops, from_stroops, stroop_scale,
  is_decimal_string, starts_with_minus, unsigned_of, second_piece,
}
use remitlend.Money.Decimal.Digits.{
  value-digits, all_digits-digits, digits_nonempty, fraction_digits, fraction_value,
  fraction_length,
}
use remitlend.Money.Decimal.Writing.{
  signed_text, trim_signed, sign_of_text, signed_is_decimal, split_decimal,
}

pub append_nil : (xs : List ℕ) → xs ++ [] ≡ xs
append_nil [] = refl
append_nil (x ∷ xs) = ap (λ ys. x ∷ ys) (append_nil xs)

pad_seven : (fs : List ℕ) → length fs ≡ 7 → or_zero (pad_end 7 b'0' fs) ≡ fs
pad_seven [] h = absurd (omega (arith, h))
pad_seven (f ∷ fs) h =
    ap (λ n. or_zero ((f ∷ fs) ++ replicate (7 - n) b'0')) h ∙ append_nil (f ∷ fs)

all_digits-append :
    (xs ys : List ℕ) → all_digits xs ≡ true → all_digits ys ≡ true → all_digits (xs ++ ys) ≡ true
all_digits-append [] ys h k = k
all_digits-append (x ∷ xs) ys h k = ground (arith, h, k, all_digits-append xs ys)

all_digits-zeros : (n : ℕ) → all_digits (replicate n b'0') ≡ true
all_digits-zeros zero = refl
all_digits-zeros (suc n) = all_digits-zeros n

all_digits-or_zero : (ds : List ℕ) → all_digits ds ≡ true → all_digits (or_zero ds) ≡ true
all_digits-or_zero [] h = refl
all_digits-or_zero (d ∷ ds) h = h

-- Digits are a number for `BigInt`, and so are the default and the padding.
pub big_int-digits : (ds : List ℕ) → all_digits ds ≡ true → big_int ds ≡ ok (value ds)
big_int-digits ds h = rw h refl

pub big_int-whole :
    (ds : List ℕ) → all_digits ds ≡ true → big_int (or_zero ds) ≡ ok (value (or_zero ds))
big_int-whole ds h = big_int-digits (or_zero ds) (all_digits-or_zero ds h)

pub big_int-padded :
    (fs : List ℕ)
    → all_digits fs ≡ true
    → big_int (or_zero (pad_end 7 b'0' fs)) ≡ ok (value (or_zero (pad_end 7 b'0' fs)))
big_int-padded fs h =
    big_int-whole (pad_end 7 b'0' fs)
      (all_digits-append fs (replicate (7 - length fs) b'0') h (all_digits-zeros (7 - length fs)))

pub parse_short :
    (mode : RoundingMode) (ds fs : List ℕ)
    → all_digits ds ≡ true
    → all_digits fs ≡ true
    → leb (length fs) 7 ≡ true
    → parse_magnitude mode ds fs
      ≡ ok (
          pos (value (or_zero ds)) *ℤ pos stroop_scale +ℤ pos (value (or_zero (pad_end 7 b'0' fs))))
unfolding parse_magnitude
parse_short mode ds fs a b h = rw (h, parse_magnitude, big_int-whole ds a, big_int-padded fs b) refl

-- The magnitude of whole digits and a fraction of seven digits.
parse_seven :
    (mode : RoundingMode) (d : ℕ) (ds fs : List ℕ)
    → all_digits (d ∷ ds) ≡ true
    → all_digits fs ≡ true
    → length fs ≡ 7
    → parse_magnitude mode (d ∷ ds) fs ≡ ok (pos (value (d ∷ ds) * stroop_scale + value fs))
parse_seven mode d ds fs a b h =
    parse_short mode (d ∷ ds) fs a b (rw h refl)
    ∙ ap (λ n. ok (pos (value (d ∷ ds)) *ℤ pos stroop_scale +ℤ pos (value n))) (pad_seven fs h)
    ∙ ap (λ n. ok (n +ℤ pos (value fs))) (pos*ℤpos (value (d ∷ ds)) stroop_scale)
    ∙ ap ok (pos+ℤpos (value (d ∷ ds) * stroop_scale) (value fs))

pub parse_trimmed_decimal :
    (mode : RoundingMode) (t : List ℕ)
    → is_decimal_string t ≡ true
    → parse_trimmed mode t ≡ parse_signed mode (starts_with_minus t) (unsigned_of t)
unfolding parse_trimmed
parse_trimmed_decimal mode t h = rw (h, parse_trimmed) refl

parse_signed_decimal :
    (mode : RoundingMode) (s : Bool) (ds fs : List ℕ)
    → all_digits ds ≡ true
    → all_digits fs ≡ true
    → parse_signed mode s (ds ++ point ∷ fs)
      ≡ (parse_magnitude mode ds fs >>= λ m. ok (if s then neg m else m))
unfolding parse_signed
parse_signed_decimal mode s ds fs h k =
    ap
      (λ pieces.
        parse_magnitude mode pieces.0 (second_piece pieces.1) >>= λ m. ok (if s then neg m else m))
      (split_decimal ds fs h k)

-- `toStroops` of a written sign, whole digits and fraction.
pub to_stroops_text :
    (mode : RoundingMode) (s : Bool) (d : ℕ) (ds fs : List ℕ)
    → all_digits (d ∷ ds) ≡ true
    → some_digits fs ≡ true
    → all_digits fs ≡ true
    → to_stroops (signed_text s (d ∷ ds ++ point ∷ fs)) mode
      ≡ (parse_magnitude mode (d ∷ ds) fs >>= λ m. ok (if s then neg m else m))
unfolding to_stroops
to_stroops_text mode s d ds fs h k l =
    let first : is_digit d ≡ true = ground (arith, h) in
    let sign = sign_of_text s d (ds ++ point ∷ fs) first in
    ap (parse_trimmed mode) (trim_signed s (d ∷ ds) fs h l)
    ∙ parse_trimmed_decimal mode (signed_text s (d ∷ ds ++ point ∷ fs))
        (signed_is_decimal s d ds fs h k)
    ∙ ap (λ n. parse_signed mode n (unsigned_of (signed_text s (d ∷ ds ++ point ∷ fs)))) sign.0
    ∙ ap (parse_signed mode s) sign.1
    ∙ parse_signed_decimal mode s (d ∷ ds) fs h l

-- What `fromStroops` writes: the sign, the whole digits, the point, and seven digits.
from_stroops_text :
    (x : ℤ)
    → from_stroops x
      ≡ signed_text (is_neg x) (
          digits (abs x / stroop_scale) ++ point ∷ pad_start 7 b'0' (digits (abs x % stroop_scale)))
unfolding from_stroops
from_stroops_text (pos n) = refl
from_stroops_text (negsuc n) = refl

seven_some_digits : (fs : List ℕ) → length fs ≡ 7 → all_digits fs ≡ true → some_digits fs ≡ true
seven_some_digits [] h k = absurd (omega (arith, h))
seven_some_digits (f ∷ fs) h k = k

restore_sign : (x : ℤ) → (if is_neg x then neg (pos (abs x)) else pos (abs x)) ≡ x
restore_sign (pos n) = refl
restore_sign (negsuc n) = refl

-- Every amount of stroops is read back from its own text, under every rounding mode.
pub to_stroops-from_stroops :
    (x : ℤ) (mode : RoundingMode) → to_stroops (from_stroops x) mode ≡ ok x
to_stroops-from_stroops x mode =
    let w = abs x / stroop_scale in
    let f = abs x % stroop_scale in
    let fs = pad_start 7 b'0' (digits f) in
    let below : f < stroop_scale = omega arith in
    let seven : length fs ≡ 7 = fraction_length f below in
    let first = digits_nonempty w in
    let whole : all_digits (first.0 ∷ first.1) ≡ true =
      ap all_digits (sym first.2) ∙ all_digits-digits w in
    let amount : value (first.0 ∷ first.1) * stroop_scale + value fs ≡ abs x =
      ap (λ ds. value ds * stroop_scale + value fs) (sym first.2)
      ∙ (omega (arith, value-digits w, fraction_value f)) in
    ap (λ t. to_stroops t mode)
      (from_stroops_text x ∙ ap (λ ds. signed_text (is_neg x) (ds ++ point ∷ fs)) first.2)
    ∙ to_stroops_text mode (is_neg x) first.0 first.1 fs whole
        (seven_some_digits fs seven (fraction_digits f)) (fraction_digits f)
    ∙ ap (λ r. r >>= λ m. ok (if is_neg x then neg m else m))
        (parse_seven mode first.0 first.1 fs whole (fraction_digits f) seven
          ∙ ap (λ n. ok (pos n)) amount)
    ∙ ap ok (restore_sign x)
