-- ===== src/Money/Decimal/Sign.antt =====
-- backend/src/money/decimal.ts: `toStroops` rounds the magnitude and puts the sign on afterwards.
use remitlend.Base.{ℕ, ◌≡◌, refl, ◌∙◌, sym, ap, true, false, List, ◌∷◌}
use remitlend.Base.Int.{neg}
use remitlend.Base.Result.{Result, ok, err, ◌>>=◌}
use remitlend.Money.Rounding.{RoundingMode, MoneyError}
use remitlend.Money.Decimal.{
  minus_sign, parse_signed, split_point, second_piece, parse_magnitude, to_stroops,
}
use remitlend.Money.Decimal.Grammar.{IsUnsigned}
use remitlend.Money.Decimal.Total.{to_stroops-text}

negated :
    {A B C : Type 0} (r : Result MoneyError A) (f : A → B) (g : B → C)
    → ((r >>= λ a. ok (f a)) >>= λ b. ok (g b)) ≡ (r >>= λ a. ok (g (f a)))
negated (ok a) f g = refl
negated (err e) f g = refl

signs-negated :
    (mode : RoundingMode) (u : List ℕ)
    → parse_signed mode true u ≡ (parse_signed mode false u >>= λ v. ok (neg v))
unfolding parse_signed
signs-negated mode u =
    sym (
      negated (parse_magnitude mode (split_point u).0 (second_piece (split_point u).1)) (λ m. m)
        neg)

-- Under every rounding mode, the text of a decimal without sign is read, with a minus sign put before it, as
-- the negation of what it is read as itself.
pub to_stroops-minus :
    (mode : RoundingMode) (u : List ℕ)
    → IsUnsigned u
    → to_stroops (minus_sign ∷ u) mode ≡ (to_stroops u mode >>= λ v. ok (neg v))
to_stroops-minus mode u h =
    to_stroops-text true u mode h
    ∙ signs-negated mode u
    ∙ sym (ap (λ r. r >>= λ v. ok (neg v)) (to_stroops-text false u mode h))
