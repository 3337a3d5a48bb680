-- ===== src/Money/Decimal/Grammar.antt =====
-- backend/src/money/decimal.ts: the texts that the regular expression of `isDecimalString` describes, and how
-- `toStroops` takes them apart.
use remitlend.Base.{
  ℕ, ◌≡◌, refl, sym, ◌∙◌, ap, ◌⊎◌, inl, inr, Bool, true, false, Bool-cases, List, [], ◌∷◌, ◌++◌,
  All, arith,
}
use mathlib.Core.Path.{subst}
use remitlend.Money.Decimal.{
  minus_sign, point, is_digit, all_digits, some_digits, digits_and_fraction, unsigned_decimal,
  starts_with_minus, unsigned_of, is_decimal_string, trim,
}
use remitlend.Money.Decimal.Writing.{
  IsPlain, trim_plain, all_digits-IsPlain, unsigned-IsPlain, signed_text, sign_of_text,
  decimal_rest,
}

-- A fraction: a point and digits, at least one.
abbrev pub IsFraction : List ℕ → Type 0
IsFraction u = (f : ℕ) × (fs : List ℕ) × (all_digits (f ∷ fs) ≡ true) × (u ≡ point ∷ f ∷ fs)

-- Digits, at least one, and a fraction or none.
abbrev pub IsUnsigned : List ℕ → Type 0
IsUnsigned u =
    (d : ℕ) × (ds : List ℕ) × (rest : List ℕ) × (all_digits (d ∷ ds) ≡ true)
    × (u ≡ d ∷ ds ++ rest)
    × ((rest ≡ []) ⊎ IsFraction rest)

-- A minus sign or none before that.
abbrev pub IsDecimalText : List ℕ → Type 0
IsDecimalText t = (s : Bool) × (u : List ℕ) × (t ≡ signed_text s u) × IsUnsigned u

some_digits_shape :
    (cs : List ℕ)
    → some_digits cs ≡ true
    → (f : ℕ) × (fs : List ℕ) × (all_digits (f ∷ fs) ≡ true) × (cs ≡ f ∷ fs)
some_digits_shape [] h = absurd (cc)
some_digits_shape (c ∷ cs) h = (c, cs, h, refl)

digits_and_fraction_shape :
    (cs : List ℕ)
    → digits_and_fraction cs ≡ true
    → (ds : List ℕ) × (rest : List ℕ) × (all_digits ds ≡ true)
      × (cs ≡ ds ++ rest)
      × ((rest ≡ []) ⊎ IsFraction rest)
digits_and_fraction_shape [] h = ([], [], refl, refl, inl refl)
digits_and_fraction_shape (c ∷ cs) h = elim (Bool-cases (is_digit c)) [
  | inl e ↦
      let (ds, rest, k, p, q) = digits_and_fraction_shape cs (ground (arith, e, h)) in
      (c ∷ ds, rest, ground (arith, e, k), ap (λ x. c ∷ x) p, q)
  | inr e ↦
      let is_point : c ≡ point = ground (arith, e, h) in
      let (f, fs, k, p) = some_digits_shape cs (ground (arith, e, h)) in
      ([], c ∷ cs, refl, refl, inr (f, fs, k, ap (λ x. x ∷ cs) is_point ∙ ap (λ x. point ∷ x) p))
]

unsigned_decimal_shape : (u : List ℕ) → unsigned_decimal u ≡ true → IsUnsigned u
unsigned_decimal_shape [] h = absurd (cc)
unsigned_decimal_shape (c ∷ cs) h =
    let (ds, rest, k, p, q) = digits_and_fraction_shape cs (ground (arith, h)) in
    (c, ds, rest, ground (arith, h, k), ap (λ x. c ∷ x) p, q)

-- The regular expression admits such texts only.
pub decimal-IsDecimalText : (t : List ℕ) → is_decimal_string t ≡ true → IsDecimalText t
unfolding is_decimal_string
decimal-IsDecimalText [] h = absurd (cc)
decimal-IsDecimalText (c ∷ cs) h = elim (Bool-cases (starts_with_minus (c ∷ cs))) [
  | inl e ↦
      let is_minus : c ≡ minus_sign = ground (arith, e) in
      (true, cs, ap (λ x. x ∷ cs) is_minus, unsigned_decimal_shape cs (ground (arith, e, h)))
  | inr e ↦ (false, c ∷ cs, refl, unsigned_decimal_shape (c ∷ cs) (ground (arith, e, h)))
]

all_digits-rest : (ds : List ℕ) → all_digits ds ≡ true → digits_and_fraction (ds ++ []) ≡ true
all_digits-rest [] h = refl
all_digits-rest (d ∷ ds) h = ground (arith, h, all_digits-rest ds)

rest-decimal :
    (ds rest : List ℕ)
    → all_digits ds ≡ true
    → (rest ≡ []) ⊎ IsFraction rest
    → digits_and_fraction (ds ++ rest) ≡ true
rest-decimal ds rest h (inl e) = rw e (all_digits-rest ds h)
rest-decimal ds rest h (inr (f, fs, k, e)) = rw e (decimal_rest ds (f ∷ fs) h k)

-- And it admits all of these.
pub text-decimal :
    (s : Bool) (u : List ℕ) → IsUnsigned u → is_decimal_string (signed_text s u) ≡ true
unfolding is_decimal_string
text-decimal s u (d, ds, rest, h, e, q) =
    let first : is_digit d ≡ true = ground (arith, h) in
    rw (e, (sign_of_text s d (ds ++ rest) first).1)
      (ground (arith, first, rest-decimal ds rest (ground (arith, h)) q))

rest-IsPlain :
    (ds rest : List ℕ)
    → all_digits ds ≡ true
    → (rest ≡ []) ⊎ IsFraction rest
    → All IsPlain (ds ++ rest)
rest-IsPlain ds rest h (inr (f, fs, k, e)) = rw e (unsigned-IsPlain ds (f ∷ fs) h k)
rest-IsPlain ds rest h (inl e) = rw e (digits_only ds h)
  where
    digits_only : (cs : List ℕ) → all_digits cs ≡ true → All IsPlain (cs ++ [])
    digits_only [] k = tt
    digits_only (c ∷ cs) k = ((all_digits-IsPlain (c ∷ cs) k).0, digits_only cs (ground (arith, k)))

-- Nothing is trimmed off them.
pub trim_text : (s : Bool) (u : List ℕ) → IsUnsigned u → trim (signed_text s u) ≡ signed_text s u
trim_text true u (d, ds, rest, h, e, q) =
    trim_plain _ ((refl, refl), subst (All IsPlain) (sym e) (rest-IsPlain (d ∷ ds) rest h q))
trim_text false u (d, ds, rest, h, e, q) =
    trim_plain _ (subst (All IsPlain) (sym e) (rest-IsPlain (d ∷ ds) rest h q))

-- The sign and what follows it.
pub sign_of_unsigned :
    (s : Bool) (u : List ℕ)
    → IsUnsigned u
    → (starts_with_minus (signed_text s u) ≡ s) × (unsigned_of (signed_text s u) ≡ u)
sign_of_unsigned s u (d, ds, rest, h, e, q) =
    subst (λ v. (starts_with_minus (signed_text s v) ≡ s) × (unsigned_of (signed_text s v) ≡ v))
      (sym e) (sign_of_text s d (ds ++ rest) (ground (arith, h)))
