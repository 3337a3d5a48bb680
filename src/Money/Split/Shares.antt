-- ===== src/Money/Split/Shares.antt =====
-- The floor shares of `splitProRata` on numbers, and how much they leave over.
use native.Mathlib.Decide.{dec_lt}
use native.Mathlib.Nat.{mul-le-mul_right}
use remitlend.Base.{
  ℕ, suc, ◌+◌, ◌-◌, ◌*◌, ◌/◌, ◌%◌, ◌≤◌, ◌<◌, ◌≡◌, sym, ◌∙◌, ap, Bool, true, false, List, [], ◌∷◌,
  map, arith, length,
}
use remitlend.Base.Int.{pos, ◌+ℤ◌, ◌-ℤ◌, ◌*ℤ◌, pos+ℤpos, pos-ℤpos, pos*ℤpos}
use remitlend.Base.Result.{Result, ok}
use remitlend.Money.Rounding.{MoneyError, floor, round_div}
use remitlend.Money.Rounding.Magnitude.{rounded, round_div-eq}
use remitlend.Money.Split.{Allocation, sum_from, allocate}
use remitlend.Money.Split.Greedy.{unused}
use remitlend.Money.Split.Handout.{add_used}

abbrev pub sum : List ℕ → ℕ
sum [] = 0
sum (x ∷ xs) = x + sum xs

abbrev pub floors : ℕ → ℕ → List ℕ → List ℕ
floors t b ws = map (λ w. t * w / b) ws

abbrev pub rests : ℕ → ℕ → List ℕ → List ℕ
rests t b ws = map (λ w. t * w % b) ws

rounded-floor_false : (a b : ℕ) → rounded floor false a b ≡ a / b
unfolding rounded
rounded-floor_false a b = ground arith

pub round_div-floor_pos : (a b : ℕ) → round_div (pos a) (pos (suc b)) floor ≡ ok (pos (a / suc b))
round_div-floor_pos a b =
    round_div-eq (pos a) (pos (suc b)) floor (ground arith)
    ∙ ap (λ n. ok (pos n)) (rounded-floor_false a (suc b))

rest_lem : (x b : ℕ) → pos x -ℤ pos (x / suc b) *ℤ pos (suc b) ≡ pos (x % suc b)
rest_lem x b =
    rw (pos*ℤpos (x / suc b) (suc b))
      (pos-ℤpos x (x / suc b * suc b) (omega arith) ∙ ap pos (omega arith))

abbrev pub allocation : ℕ → ℕ → List ℕ → ℕ → Result MoneyError Allocation
allocation t b ws n = ok (record {
  parts = map pos (floors t (suc b) ws);
  remainders = map pos (rests t (suc b) ws);
  allocated = pos n;
})

pub allocate_lem :
    (t b acc : ℕ) (ws : List ℕ)
    → allocate (pos t) (pos (suc b)) (pos acc) (map pos ws)
      ≡ allocation t b ws (acc + sum (floors t (suc b) ws))
unfolding allocate
allocate_lem t b acc [] = ap (allocation t b []) (omega arith)
allocate_lem t b acc (w ∷ ws) =
    rw
      (
        pos*ℤpos t w,
        round_div-floor_pos (t * w) b,
        rest_lem (t * w) b,
        pos+ℤpos acc (t * w / suc b),
        allocate_lem t b (acc + t * w / suc b) ws,
      )
      (ap (allocation t b (w ∷ ws)) (omega arith))

pub sum_from_pos : (acc : ℕ) (ws : List ℕ) → sum_from (pos acc) (map pos ws) ≡ pos (acc + sum ws)
unfolding sum_from
sum_from_pos acc [] = ap pos (omega arith)
sum_from_pos acc (w ∷ ws) =
    ap (λ a. sum_from a (map pos ws)) (pos+ℤpos acc w)
    ∙ sum_from_pos (acc + w) ws
    ∙ ap pos (omega arith)

pub sum_from-add_used :
    (acc : ℕ) (fs : List ℕ) (us : List Bool)
    → length us ≡ length fs
    → (sum_from (pos acc) (add_used (map pos fs) us) ≡ pos (acc + sum fs + (length us - unused us)))
      × (unused us ≤ length us)
unfolding sum_from
sum_from-add_used acc [] [] e = (ap pos (omega arith), omega arith)
sum_from-add_used acc [] (u ∷ us) e = absurd (omega arith)
sum_from-add_used acc (f ∷ fs) [] e = absurd (omega arith)
sum_from-add_used acc (f ∷ fs) (true ∷ us) e =
    let ih = sum_from-add_used (acc + (f + 1)) fs us (omega arith) in
    (
      ap (λ a. sum_from a (add_used (map pos fs) us))
            (ap (λ a. pos acc +ℤ a) (pos+ℤpos f 1) ∙ pos+ℤpos acc (f + 1))
          ∙ ih.0
          ∙ ap pos (omega (arith, ih.1)),
      omega (arith, ih.1),
    )
sum_from-add_used acc (f ∷ fs) (false ∷ us) e =
    let ih = sum_from-add_used (acc + f) fs us (omega arith) in
    (
      ap (λ a. sum_from a (add_used (map pos fs) us)) (pos+ℤpos acc f)
          ∙ ih.0
          ∙ ap pos (omega (arith, ih.1)),
      omega (arith, ih.1),
    )

-- The numerators add up to the quotients' multiple and the remainders.
numerators :
    (t b : ℕ) (ws : List ℕ)
    → t * sum ws ≡ sum (floors t (suc b) ws) * suc b + sum (rests t (suc b) ws)
numerators t b [] = omega arith
numerators t b (w ∷ ws) = omega (arith, numerators t b ws, division (t * w) b)
  where
    division : (x b : ℕ) → x ≡ x / suc b * suc b + x % suc b
    division x b = omega arith

sum-rests : (t b : ℕ) (ws : List ℕ) → sum (rests t (suc b) ws) ≤ length ws * b
sum-rests t b [] = omega arith
sum-rests t b (w ∷ ws) = omega (arith, sum-rests t b ws)

leftover_core :
    (t f r n b : ℕ) → t * suc b ≡ f * suc b + r → r ≤ suc n * b → (f ≤ t) × (t - f < suc n)
leftover_core t f r n b e h = (
  (elim (dec_lt t f) [
    | yes p ↦ absurd (omega (arith, mul-le-mul_right (suc b) p))
    | no p ↦ omega arith
  ]),
  (elim (dec_lt (t - f) (suc n)) [
    | yes p ↦ p
    | no p ↦
        let q : f + suc n ≤ t = omega arith in absurd (omega (arith, mul-le-mul_right (suc b) q))
  ]),
)

-- What the floor shares leave over is not negative, and less than one unit for each weight.
pub leftover_bounds :
    (t b : ℕ) (ws : List ℕ)
    → sum ws ≡ suc b
    → let f = sum (floors t (suc b) ws) in (f ≤ t) × (t - f < length ws)
leftover_bounds t b [] e = absurd (omega (arith, e))
leftover_bounds t b (w ∷ ws) e =
    leftover_core t (sum (floors t (suc b) (w ∷ ws))) (sum (rests t (suc b) (w ∷ ws))) (length ws) b
      (ap (λ s. t * s) (sym e) ∙ numerators t b (w ∷ ws)) (sum-rests t b (w ∷ ws))
