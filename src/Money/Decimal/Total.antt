-- ===== src/Money/Decimal/Total.antt =====
-- backend/src/money/decimal.ts: `toStroops` on every text.
use native.Mathlib.Nat.{one-le-pow}
use remitlend.Base.{
  ℕ, ◌-◌, ◌≤◌, ◌^◌, ◌≡◌, refl, ap, ◌∙◌, ◌⊎◌, inl, inr, Bool, true, false, Bool-cases, List, [], ◌∷◌,
  ◌++◌, length, arith, leb, if◌then◌else◌,
}
use remitlend.Base.Int.{ℤ, pos, neg, ◌+ℤ◌, ◌*ℤ◌}
use remitlend.Money.Decimal.Writing.{signed_text, split_digits, split_decimal}
use remitlend.Money.Decimal.RoundTrip.{
  append_nil, big_int-whole, big_int-digits, parse_short, parse_trimmed_decimal,
}
use remitlend.Money.Decimal.Grammar.{
  IsUnsigned, IsDecimalText, decimal-IsDecimalText, text-decimal, trim_text, sign_of_unsigned,
}
use remitlend.Base.Result.{Result, ok, err, ◌>>=◌}
use remitlend.Money.Rounding.{RoundingMode, MoneyError, invalid_decimal, round_div}
use remitlend.Money.Rounding.Laws.{round_div-total}
use remitlend.Money.Decimal.{
  is_decimal_string, trim, parse_magnitude, parse_signed, parse_trimmed, to_stroops, unsigned_of,
  split_point, second_piece, all_digits, value, or_zero,
}

round_div_defined :
    (num : ℤ) (n : ℕ) (mode : RoundingMode) → 1 ≤ n → (q : ℤ) × (round_div num (pos n) mode ≡ ok q)
round_div_defined num n mode h = elim (round_div-total num (pos n) mode) [
  | inl (e, _) ↦ absurd (ground (arith, e, h))
  | inr (_, (q, e, _)) ↦ (q, e)
]

IsDefined : {A : Type 0} → Result MoneyError A → Type 0
IsDefined {A} r = (q : A) × (r ≡ ok q)

parse_long :
    (mode : RoundingMode) (ds fs : List ℕ)
    → all_digits ds ≡ true
    → all_digits fs ≡ true
    → leb (length fs) 7 ≡ false
    → parse_magnitude mode ds fs
      ≡ round_div
          (pos (value (or_zero ds)) *ℤ pos (10 ^ length fs) +ℤ pos (value fs))
          (pos (10 ^ (length fs - 7)))
          mode
unfolding parse_magnitude
parse_long mode ds fs a b h = rw (h, parse_magnitude, big_int-whole ds a, big_int-digits fs b) refl

parse_magnitude-IsDefined :
    (mode : RoundingMode) (ds fs : List ℕ)
    → all_digits ds ≡ true
    → all_digits fs ≡ true
    → IsDefined (parse_magnitude mode ds fs)
unfolding IsDefined
parse_magnitude-IsDefined mode ds fs a b = elim (Bool-cases (leb (length fs) 7)) [
  | inl e ↦ (_, parse_short mode ds fs a b e)
  | inr e ↦
      let (q, h) =
        round_div_defined (pos (value (or_zero ds)) *ℤ pos (10 ^ length fs) +ℤ pos (value fs))
          (10 ^ (length fs - 7)) mode (one-le-pow (length fs - 7) 10 (omega arith)) in
      (q, parse_long mode ds fs a b e ∙ h)
]

parse_signed-IsDefined :
    (mode : RoundingMode) (s : Bool) (u : List ℕ) (ds : List ℕ) (pieces : List (List ℕ))
    → split_point u ≡ (ds, pieces)
    → all_digits ds ≡ true
    → all_digits (second_piece pieces) ≡ true
    → IsDefined (parse_signed mode s u)
unfolding parse_signed IsDefined
parse_signed-IsDefined mode s u ds pieces e a b =
    let (q, h) = parse_magnitude-IsDefined mode ds (second_piece pieces) a b in
    (
      _,
      ap (λ x. parse_magnitude mode x.0 (second_piece x.1) >>= λ v. ok (if s then neg v else v)) e
          ∙ ap (λ x. x >>= λ v. ok (if s then neg v else v)) h,
    )

unsigned-IsDefined :
    (mode : RoundingMode) (s : Bool) (u : List ℕ) → IsUnsigned u → IsDefined (parse_signed mode s u)
unsigned-IsDefined mode s u (d, ds, rest, h, e, inl q) =
    parse_signed-IsDefined mode s u (d ∷ ds) []
      (ap split_point (e ∙ ap (λ r. d ∷ ds ++ r) q ∙ append_nil (d ∷ ds)) ∙ split_digits (d ∷ ds) h)
      h refl
unsigned-IsDefined mode s u (d, ds, rest, h, e, inr (f, fs, k, q)) =
    parse_signed-IsDefined mode s u (d ∷ ds) ((f ∷ fs) ∷ [])
      (ap split_point (e ∙ ap (λ r. d ∷ ds ++ r) q) ∙ split_decimal (d ∷ ds) (f ∷ fs) h k) h k

-- `toStroops` of such a text, from the sign on.
pub to_stroops-text :
    (s : Bool) (u : List ℕ) (mode : RoundingMode)
    → IsUnsigned u
    → to_stroops (signed_text s u) mode ≡ parse_signed mode s u
unfolding to_stroops
to_stroops-text s u mode h =
    ap (parse_trimmed mode) (trim_text s u h)
    ∙ parse_trimmed_decimal mode (signed_text s u) (text-decimal s u h)
    ∙ ap (λ n. parse_signed mode n (unsigned_of (signed_text s u))) (sign_of_unsigned s u h).0
    ∙ ap (parse_signed mode s) (sign_of_unsigned s u h).1

to_stroops_refused :
    (input : List ℕ) (mode : RoundingMode)
    → is_decimal_string (trim input) ≡ false
    → to_stroops input mode ≡ err invalid_decimal
unfolding to_stroops parse_trimmed
to_stroops_refused input mode e = rw (e, to_stroops, parse_trimmed) refl

to_stroops_taken :
    (input : List ℕ) (mode : RoundingMode)
    → IsDecimalText (trim input)
    → IsDefined (to_stroops input mode)
unfolding to_stroops IsDefined
to_stroops_taken input mode (s, u, e, h) =
    let m = unsigned-IsDefined mode s u h in
    (
      m.0,
      ap (parse_trimmed mode) e
          ∙ parse_trimmed_decimal mode (signed_text s u) (text-decimal s u h)
          ∙ ap (λ n. parse_signed mode n (unsigned_of (signed_text s u))) (sign_of_unsigned s u h).0
          ∙ ap (parse_signed mode s) (sign_of_unsigned s u h).1
          ∙ m.1,
    )

-- Under every rounding mode a text is refused as no decimal when, once trimmed, it is not a minus sign or
-- none, digits, and a point with digits or none; it has an amount when it is. So `BigInt` never throws, and
-- no division is by zero.
pub to_stroops_total :
    (input : List ℕ) (mode : RoundingMode)
    → ((¬ (IsDecimalText (trim input))) × (to_stroops input mode ≡ err invalid_decimal))
      ⊎ (IsDecimalText (trim input) × ((v : ℤ) × (to_stroops input mode ≡ ok v)))
unfolding IsDefined
to_stroops_total input mode = elim (Bool-cases (is_decimal_string (trim input))) [
  | inl e ↦
      let text = decimal-IsDecimalText (trim input) e in
      inr (text, to_stroops_taken input mode text)
  | inr e ↦ inl (
    (λ text.
        let (s, u, p, h) = text in
        let yes = ap is_decimal_string p ∙ text-decimal s u h in absurd (cc)),
    to_stroops_refused input mode e,
  )
]
