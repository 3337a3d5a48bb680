-- ===== src/Money/Decimal/Writing.antt =====
-- The texts that `fromStroops` writes: `toStroops` trims nothing off them, takes them for decimals, and
-- splits them at their point.
use remitlend.Base.{ℕ, ◌≡◌, refl, ◌∙◌, ap, Bool, true, false, List, [], ◌∷◌, ◌++◌, arith, All}
use remitlend.Money.Decimal.{
  minus_sign, point, is_digit, is_space, is_en_space, trim_start, cons_trimmed, trim_end, trim,
  all_digits, some_digits, digits_and_fraction, starts_with_minus, unsigned_of, is_decimal_string,
  split_point,
}

-- No space.
abbrev pub IsPlain : ℕ → Type 0
IsPlain c = (is_space c ≡ false) × (is_en_space c ≡ false)

digit-IsPlain : (c : ℕ) → is_digit c ≡ true → IsPlain c
digit-IsPlain c h = (ground (arith, h), ground (arith, h))

trim_start_plain : (c : ℕ) (cs : List ℕ) → IsPlain c → trim_start (c ∷ cs) ≡ c ∷ cs
trim_start_plain c cs h = rw (trim_start, h.0, h.1) refl

cons_trimmed_plain : (c : ℕ) (cs : List ℕ) → IsPlain c → cons_trimmed c cs ≡ c ∷ cs
cons_trimmed_plain c [] h = rw (h.0, h.1) refl
cons_trimmed_plain c (d ∷ ds) h = refl

trim_end_plain : (cs : List ℕ) → All IsPlain cs → trim_end cs ≡ cs
trim_end_plain [] h = refl
trim_end_plain (c ∷ cs) h =
    ap (cons_trimmed c) (trim_end_plain cs h.1) ∙ cons_trimmed_plain c cs h.0

pub trim_plain : (cs : List ℕ) → All IsPlain cs → trim cs ≡ cs
unfolding trim
trim_plain [] h = refl
trim_plain (c ∷ cs) h = ap trim_end (trim_start_plain c cs h.0) ∙ trim_end_plain (c ∷ cs) h

pub all_digits-IsPlain : (cs : List ℕ) → all_digits cs ≡ true → All IsPlain cs
all_digits-IsPlain [] h = tt
all_digits-IsPlain (c ∷ cs) h =
    (digit-IsPlain c (ground (arith, h)), all_digits-IsPlain cs (ground (arith, h)))

pub unsigned-IsPlain :
    (ds fs : List ℕ) → all_digits ds ≡ true → all_digits fs ≡ true → All IsPlain (ds ++ point ∷ fs)
unsigned-IsPlain [] fs h k = ((refl, refl), all_digits-IsPlain fs k)
unsigned-IsPlain (d ∷ ds) fs h k =
    (digit-IsPlain d (ground (arith, h)), unsigned-IsPlain ds fs (ground (arith, h)) k)

pub split_digits : (cs : List ℕ) → all_digits cs ≡ true → split_point cs ≡ (cs, [])
split_digits [] h = refl
split_digits (c ∷ cs) h = ground (arith, h, split_digits cs)

pub split_decimal :
    (ds fs : List ℕ)
    → all_digits ds ≡ true
    → all_digits fs ≡ true
    → split_point (ds ++ point ∷ fs) ≡ (ds, fs ∷ [])
split_decimal [] fs h k = ground (arith, split_digits fs k)
split_decimal (d ∷ ds) fs h k = ground (arith, h, split_decimal ds fs)

pub decimal_rest :
    (ds fs : List ℕ)
    → all_digits ds ≡ true
    → some_digits fs ≡ true
    → digits_and_fraction (ds ++ point ∷ fs) ≡ true
decimal_rest [] fs h k = ground (arith, k)
decimal_rest (d ∷ ds) fs h k = ground (arith, h, decimal_rest ds fs)

-- The text of a sign, whole digits and a fraction.
abbrev pub signed_text : Bool → List ℕ → List ℕ
signed_text true u = minus_sign ∷ u
signed_text false u = u

pub trim_signed :
    (s : Bool) (ds fs : List ℕ)
    → all_digits ds ≡ true
    → all_digits fs ≡ true
    → trim (signed_text s (ds ++ point ∷ fs)) ≡ signed_text s (ds ++ point ∷ fs)
trim_signed true ds fs h k = trim_plain _ ((refl, refl), unsigned-IsPlain ds fs h k)
trim_signed false ds fs h k = trim_plain _ (unsigned-IsPlain ds fs h k)

pub sign_of_text :
    (s : Bool) (d : ℕ) (ds : List ℕ)
    → is_digit d ≡ true
    → (starts_with_minus (signed_text s (d ∷ ds)) ≡ s)
      × (unsigned_of (signed_text s (d ∷ ds)) ≡ d ∷ ds)
sign_of_text true d ds h = (refl, refl)
sign_of_text false d ds h = (ground (arith, h), ground (arith, h))

pub signed_is_decimal :
    (s : Bool) (d : ℕ) (ds fs : List ℕ)
    → all_digits (d ∷ ds) ≡ true
    → some_digits fs ≡ true
    → is_decimal_string (signed_text s (d ∷ ds ++ point ∷ fs)) ≡ true
unfolding is_decimal_string
signed_is_decimal s d ds fs h k =
    let first : is_digit d ≡ true = ground (arith, h) in
    rw ((sign_of_text s d (ds ++ point ∷ fs) first).1)
      (ground (arith, first, decimal_rest ds fs (ground (arith, h)) k))
