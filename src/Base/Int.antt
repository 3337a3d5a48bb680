-- ===== src/Base/Int.antt =====
-- `bigint`: signed integers over the native numbers. Division truncates toward zero, and the
-- remainder takes the sign of the dividend.
pub mod Signs
use remitlend.Base.{
  ℕ, zero, suc, ◌+◌, ◌-◌, ◌*◌, ◌/◌, ◌%◌, ◌≤◌, ◌<◌, ◌≡◌, refl, Bool, true, false, arith, ltb, leb,
  ◌==◌, if◌then◌else◌, List, [], ◌∷◌, map, All,
}

-- `negsuc n` is -(n + 1).
pub data ℤ : Type 0 where
  pos : ℕ → ℤ
  negsuc : ℕ → ℤ

abbrev pub pos_part : ℤ → ℕ
pos_part (pos n) = n
pos_part (negsuc _) = 0

abbrev pub neg_part : ℤ → ℕ
neg_part (pos _) = 0
neg_part (negsuc n) = suc n

-- The magnitude.
abbrev pub abs : ℤ → ℕ
abs (pos n) = n
abs (negsuc n) = suc n

abbrev pub is_neg : ℤ → Bool
is_neg (pos _) = false
is_neg (negsuc _) = true

abbrev pub is_zero : ℤ → Bool
is_zero (pos n) = n == 0
is_zero (negsuc _) = false

-- `-n` for a number `n`.
abbrev pub neg_ℕ : ℕ → ℤ
neg_ℕ zero = pos 0
neg_ℕ (suc n) = negsuc n

-- The integer of a sign (`true` is minus) and a magnitude.
abbrev pub signed : Bool → ℕ → ℤ
signed true n = neg_ℕ n
signed false n = pos n

abbrev pub neg : ℤ → ℤ
neg (pos n) = neg_ℕ n
neg (negsuc n) = pos (suc n)

abbrev pub sub_ℕ : ℕ → ℕ → ℤ
sub_ℕ a b = if leb b a then pos (a - b) else negsuc (b - a - 1)

infixl 65 ◌+ℤ◌ ◌-ℤ◌
infixl 70 ◌*ℤ◌ ◌/ℤ◌ ◌%ℤ◌
infix 50 ◌≤ℤ◌ ◌<ℤ◌
unfoldable pub ◌+ℤ◌ : ℤ → ℤ → ℤ
a +ℤ b = sub_ℕ (pos_part a + pos_part b) (neg_part a + neg_part b)

unfoldable pub ◌-ℤ◌ : ℤ → ℤ → ℤ
a -ℤ b = sub_ℕ (pos_part a + neg_part b) (neg_part a + pos_part b)

unfoldable pub ◌*ℤ◌ : ℤ → ℤ → ℤ
a *ℤ b =
    sub_ℕ (pos_part a * pos_part b + neg_part a * neg_part b)
      (pos_part a * neg_part b + neg_part a * pos_part b)

-- Whether the signs of two factors differ.
abbrev pub differ : Bool → Bool → Bool
differ true true = false
differ true false = true
differ false b = b

-- `bigint` division. A zero divisor throws in JavaScript: the callers test for it first.
unfoldable pub ◌/ℤ◌ : ℤ → ℤ → ℤ
a /ℤ b = signed (differ (is_neg a) (is_neg b)) (abs a / abs b)

unfoldable pub ◌%ℤ◌ : ℤ → ℤ → ℤ
a %ℤ b = signed (is_neg a) (abs a % abs b)

abbrev pub ◌≤ℤ◌ : ℤ → ℤ → Type 0
a ≤ℤ b = pos_part a + neg_part b ≤ pos_part b + neg_part a

abbrev pub ◌<ℤ◌ : ℤ → ℤ → Type 0
a <ℤ b = pos_part a + neg_part b < pos_part b + neg_part a

abbrev pub ltb_ℤ : ℤ → ℤ → Bool
ltb_ℤ a b = ltb (pos_part a + neg_part b) (pos_part b + neg_part a)

abbrev pub leb_ℤ : ℤ → ℤ → Bool
leb_ℤ a b = leb (pos_part a + neg_part b) (pos_part b + neg_part a)

abbrev pub eqb_ℤ : ℤ → ℤ → Bool
eqb_ℤ a b = (pos_part a + neg_part b) == (pos_part b + neg_part a)

-- With these the operations can stay shut.
pub +ℤ_parts :
    (a b : ℤ)
    → pos_part (a +ℤ b) + neg_part a + neg_part b ≡ neg_part (a +ℤ b) + pos_part a + pos_part b
unfolding ◌+ℤ◌
+ℤ_parts a b = ground arith

pub -ℤ_parts :
    (a b : ℤ)
    → pos_part (a -ℤ b) + neg_part a + pos_part b ≡ neg_part (a -ℤ b) + pos_part a + neg_part b
unfolding ◌-ℤ◌
-ℤ_parts a b = ground arith

pub eq_of_parts : (a b : ℤ) → pos_part a + neg_part b ≡ pos_part b + neg_part a → a ≡ b
eq_of_parts a b h = ground arith

pub ruleset int_laws = (arith, +ℤ_parts, -ℤ_parts, eq_of_parts)

-- Arithmetic on integers that are not negative is that of their magnitudes.
pub pos+ℤpos : (a b : ℕ) → pos a +ℤ pos b ≡ pos (a + b)
unfolding ◌+ℤ◌
pos+ℤpos a b = ground arith

pub pos-ℤpos : (a b : ℕ) → b ≤ a → pos a -ℤ pos b ≡ pos (a - b)
unfolding ◌-ℤ◌
pos-ℤpos a b h = ground arith

pub pos*ℤpos : (a b : ℕ) → pos a *ℤ pos b ≡ pos (a * b)
unfolding ◌*ℤ◌
pos*ℤpos a b = ground arith

pub pos/ℤpos : (a b : ℕ) → pos a /ℤ pos b ≡ pos (a / b)
unfolding ◌/ℤ◌
pos/ℤpos a b = refl

pub pos%ℤpos : (a b : ℕ) → pos a %ℤ pos b ≡ pos (a % b)
unfolding ◌%ℤ◌
pos%ℤpos a b = refl

abbrev pub IsNonneg : ℤ → Type 0
IsNonneg a = pos 0 ≤ℤ a

-- A list of integers that are not negative is a list of numbers.
pub nonneg_list : (zs : List ℤ) → All IsNonneg zs → (ns : List ℕ) × (zs ≡ map pos ns)
nonneg_list [] h = ([], refl)
nonneg_list (pos n ∷ zs) h = let (ns, e) = nonneg_list zs h.1 in (n ∷ ns, rw e)
nonneg_list (negsuc n ∷ zs) h = absurd (omega (arith, h.0))
