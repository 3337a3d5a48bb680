-- ===== src/Money/Decimal/Digits.antt =====
-- The decimal digits of a number: their value, their count, and that they are digits.
use native.Mathlib.Numerals.{unary_clauses}
use remitlend.Base.{
  ℕ, zero, suc, ◌+◌, ◌-◌, ◌*◌, ◌/◌, ◌%◌, ◌^◌, ◌≤◌, ◌<◌, ◌≡◌, refl, ◌∙◌, true, Bool-cases, inl, inr,
  List, [], ◌∷◌, ◌++◌, length, length-append, length-replicate, replicate, arith, ltb, ltb→lt,
}
use remitlend.Money.Decimal.{
  is_digit, all_digits, value_from, value, digits_on, digits, stroop_scale, pad_start,
}

value_from-append :
    (acc c : ℕ) (xs : List ℕ) → value_from acc (xs ++ c ∷ []) ≡ value_from acc xs * 10 + (c - b'0')
value_from-append acc c [] = refl
value_from-append acc c (x ∷ xs) = value_from-append (acc * 10 + (x - b'0')) c xs

all_digits-append :
    (c : ℕ) (xs : List ℕ)
    → is_digit c ≡ true
    → all_digits xs ≡ true
    → all_digits (xs ++ c ∷ []) ≡ true
all_digits-append c [] h k = ground (arith, h)
all_digits-append c (x ∷ xs) h k = ground (arith, k, all_digits-append c xs h)

digits_on-short : (fuel n : ℕ) → n < 10 → digits_on (suc fuel) n ≡ (b'0' + n) ∷ []
digits_on-short fuel n h = ground arith

digits_on-long :
    (fuel n : ℕ) → 10 ≤ n → digits_on (suc fuel) n ≡ digits_on fuel (n / 10) ++ (b'0' + n % 10) ∷ []
digits_on-long fuel n h = ground arith

pub value-digits_on : (fuel n : ℕ) → n < fuel → value (digits_on fuel n) ≡ n
value-digits_on zero n h = absurd (omega (arith, h))
value-digits_on (suc fuel) n h = elim (Bool-cases (ltb n 10)) [
  | inl e ↦ rw (digits_on-short fuel n (ltb→lt n 10 e)) (omega arith)
  | inr e ↦ rw (digits_on-long fuel n (ground arith)) (
      value_from-append 0 (b'0' + n % 10) (digits_on fuel (n / 10))
      ∙ omega (arith, value-digits_on fuel (n / 10) (ground (arith, h, e))))
]

pub value-digits : (n : ℕ) → value (digits n) ≡ n
unfolding digits
value-digits n = value-digits_on (suc n) n (omega arith)

all_digits-digits_on : (fuel n : ℕ) → all_digits (digits_on fuel n) ≡ true
all_digits-digits_on zero n = refl
all_digits-digits_on (suc fuel) n = elim (Bool-cases (ltb n 10)) [
  | inl e ↦ rw (digits_on-short fuel n (ltb→lt n 10 e)) (ground (arith, e))
  | inr e ↦ rw (digits_on-long fuel n (ground arith)) (
      all_digits-append (b'0' + n % 10) (digits_on fuel (n / 10)) (ground arith)
        (all_digits-digits_on fuel (n / 10)))
]

pub all_digits-digits : (n : ℕ) → all_digits (digits n) ≡ true
unfolding digits
all_digits-digits n = all_digits-digits_on (suc n) n

-- A number below 10^(k + 1) has at most k + 1 digits.
below_tenth : (n m : ℕ) → n < 10 * m → n / 10 < m
below_tenth n m h = omega (arith, h)

tenth_below : (n k : ℕ) → n < 10 ^ suc (suc k) → n / 10 < 10 ^ suc k
tenth_below n k h = below_tenth n (10 ^ suc k) (omega (arith, simp unary_clauses at h))

length-digits_on : (fuel n k : ℕ) → n < 10 ^ suc k → length (digits_on fuel n) ≤ k + 1
length-digits_on zero n k h = omega arith
length-digits_on (suc fuel) n zero h = rw (digits_on-short fuel n (omega (arith, h))) (omega arith)
length-digits_on (suc fuel) n (suc k) h = elim (Bool-cases (ltb n 10)) [
  | inl e ↦ rw (digits_on-short fuel n (ltb→lt n 10 e)) (omega arith)
  | inr e ↦
      rw
        (
          digits_on-long fuel n (ground arith),
          length-append (digits_on fuel (n / 10)) ((b'0' + n % 10) ∷ []),
        )
        (omega (arith, length-digits_on fuel (n / 10) k (tenth_below n k h)))
]

pub length-digits : (n : ℕ) → n < stroop_scale → length (digits n) ≤ 7
unfolding digits
length-digits n h = length-digits_on (suc n) n 6 h

-- Zeros before the digits change neither the value nor that they are digits.
value-zeros : (k : ℕ) (xs : List ℕ) → value (replicate k b'0' ++ xs) ≡ value xs
value-zeros zero xs = refl
value-zeros (suc k) xs = value-zeros k xs

all_digits-zeros :
    (k : ℕ) (xs : List ℕ) → all_digits xs ≡ true → all_digits (replicate k b'0' ++ xs) ≡ true
all_digits-zeros zero xs h = h
all_digits-zeros (suc k) xs h = all_digits-zeros k xs h

-- The fraction that `fromStroops` writes.
pub fraction_digits : (n : ℕ) → all_digits (pad_start 7 b'0' (digits n)) ≡ true
fraction_digits n = all_digits-zeros (7 - length (digits n)) (digits n) (all_digits-digits n)

pub fraction_value : (n : ℕ) → value (pad_start 7 b'0' (digits n)) ≡ n
fraction_value n = value-zeros (7 - length (digits n)) (digits n) ∙ value-digits n

pub fraction_length : (n : ℕ) → n < stroop_scale → length (pad_start 7 b'0' (digits n)) ≡ 7
fraction_length n h =
    length-append (replicate (7 - length (digits n)) b'0') (digits n)
    ∙ omega (arith, length-replicate {A = ℕ} (7 - length (digits n)) b'0', length-digits n h)

nonempty_append : (xs : List ℕ) (c : ℕ) → (d : ℕ) × (ds : List ℕ) × (xs ++ c ∷ [] ≡ d ∷ ds)
nonempty_append [] c = (c, [], refl)
nonempty_append (x ∷ xs) c = (x, xs ++ c ∷ [], refl)

pub digits_nonempty : (n : ℕ) → (d : ℕ) × (ds : List ℕ) × (digits n ≡ d ∷ ds)
unfolding digits
digits_nonempty n = elim (Bool-cases (ltb n 10)) [
  | inl e ↦ (b'0' + n, [], digits_on-short n n (ltb→lt n 10 e))
  | inr e ↦
      let h = nonempty_append (digits_on n (n / 10)) (b'0' + n % 10) in
      (h.0, h.1, digits_on-long n n (ground arith) ∙ h.2)
]
