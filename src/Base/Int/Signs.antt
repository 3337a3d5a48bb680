-- ===== src/Base/Int/Signs.antt =====
-- Integers as a sign and a magnitude.
use mathlib.Core.Path.{ap₂}
use remitlend.Base.{ℕ, zero, suc, ◌+◌, ◌-◌, ◌*◌, ◌≡◌, ◌∙◌, refl, Bool, true, false, arith}
use remitlend.Base.Int.{
  ℤ, pos, negsuc, abs, is_neg, signed, differ, pos_part, neg_part, neg_ℕ, ◌-ℤ◌, ◌*ℤ◌, sub_ℕ,
}

pub signed-abs : (a : ℤ) → signed (is_neg a) (abs a) ≡ a
signed-abs (pos n) = refl
signed-abs (negsuc n) = refl

pub abs-signed : (s : Bool) (n : ℕ) → abs (signed s n) ≡ n
abs-signed true zero = refl
abs-signed true (suc n) = refl
abs-signed false n = refl

pub pos_part-neg_ℕ : (n : ℕ) → pos_part (neg_ℕ n) ≡ 0
pos_part-neg_ℕ zero = refl
pos_part-neg_ℕ (suc n) = refl

pub neg_part-neg_ℕ : (n : ℕ) → neg_part (neg_ℕ n) ≡ n
neg_part-neg_ℕ zero = refl
neg_part-neg_ℕ (suc n) = refl

sub_ℕ-zero : (n : ℕ) → sub_ℕ n 0 ≡ pos n
sub_ℕ-zero n = ground arith

zero-sub_ℕ : (n : ℕ) → sub_ℕ 0 n ≡ neg_ℕ n
zero-sub_ℕ zero = ground arith
zero-sub_ℕ (suc n) = ground arith

pub signed-mul : (s t : Bool) (a b : ℕ) → signed s a *ℤ signed t b ≡ signed (differ s t) (a * b)
unfolding ◌*ℤ◌
signed-mul true true a b =
    rw (pos_part-neg_ℕ a, pos_part-neg_ℕ b, neg_part-neg_ℕ a, neg_part-neg_ℕ b) (ground arith)
signed-mul true false a b =
    rw (pos_part-neg_ℕ a, neg_part-neg_ℕ a)
      (ap₂ sub_ℕ (omega arith) (omega arith) ∙ zero-sub_ℕ (a * b))
signed-mul false true a b =
    rw (pos_part-neg_ℕ b, neg_part-neg_ℕ b)
      (ap₂ sub_ℕ (omega arith) (omega arith) ∙ zero-sub_ℕ (a * b))
signed-mul false false a b = ground arith

pub abs-sub_signed : (s : Bool) (a b : ℕ) → abs (signed s a -ℤ signed s b) ≡ (a - b) + (b - a)
unfolding ◌-ℤ◌
abs-sub_signed true zero zero = ground arith
abs-sub_signed true zero (suc b) = ground arith
abs-sub_signed true (suc a) zero = ground arith
abs-sub_signed true (suc a) (suc b) = ground arith
abs-sub_signed false a b = ground arith

pub differ_cancel : (s t : Bool) → differ (differ s t) t ≡ s
differ_cancel true true = refl
differ_cancel true false = refl
differ_cancel false true = refl
differ_cancel false false = refl
