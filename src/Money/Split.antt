-- ===== src/Money/Split.antt =====
-- backend/src/money/decimal.ts: `splitProRata`. `bestIdx` is `none` where the source has -1.
pub mod Greedy
pub mod Handout
pub mod Shares
pub mod Laws
use remitlend.Base.{
  ℕ, zero, suc, ◌+◌, Bool, true, false, not, ◌&&◌, ◌||◌, Option, none, some, List, [], ◌∷◌, map,
  if◌then◌else◌, length, replicate, set, any,
}
use remitlend.Base.Int.{ℤ, pos, negsuc, pos_part, is_neg, is_zero, ltb_ℤ, leb_ℤ, ◌+ℤ◌, ◌-ℤ◌, ◌*ℤ◌}
use remitlend.Base.Result.{Result, ok, err, ◌>>=◌}
use remitlend.Money.Rounding.{
  MoneyError, negative_total, zero_weights, negative_weights, zero_total_weight, drift, type_error,
  floor, round_div,
}

-- `weights.reduce((acc, w) => acc + w, 0n)`.
unfoldable pub sum_from : ℤ → List ℤ → ℤ
sum_from acc [] = acc
sum_from acc (w ∷ ws) = sum_from (acc +ℤ w) ws

pub record Allocation : Type 0 where
  pub parts : List ℤ
  pub remainders : List ℤ
  pub allocated : ℤ

-- The `for` loop over the weights, with what it pushes put in front of what the rest pushes.
unfoldable pub allocate : ℤ → ℤ → ℤ → List ℤ → Result MoneyError Allocation
allocate total weight_sum allocated [] =
    ok (record { parts = []; remainders = []; allocated = allocated })
allocate total weight_sum allocated (w ∷ ws) = round_div (total *ℤ w) weight_sum floor >>= λ part.
    allocate total weight_sum (allocated +ℤ part) ws >>= λ rest. ok (record {
      parts = part ∷ rest.parts;
      remainders = (total *ℤ w -ℤ part *ℤ weight_sum) ∷ rest.remainders;
      allocated = rest.allocated;
    })

-- The inner `for` loop from index `i` on: `bestIdx` and `bestRemainder`.
unfoldable pub find_best : List ℤ → List Bool → ℕ → Option ℕ → ℤ → Option ℕ × ℤ
find_best [] _ i best_idx best_remainder = (best_idx, best_remainder)
find_best (r ∷ rs) [] i best_idx best_remainder =
    let better = ltb_ℤ best_remainder r in
    find_best rs [] (suc i) (if better then some i else best_idx)
      (if better then r else best_remainder)
find_best (r ∷ rs) (u ∷ us) i best_idx best_remainder =
    let better = not u && ltb_ℤ best_remainder r in
    find_best rs us (suc i) (if better then some i else best_idx)
      (if better then r else best_remainder)

-- `parts[i] = parts[i]! + 1n`.
abbrev pub add_one_at : List ℤ → ℕ → List ℤ
add_one_at [] i = []
add_one_at (p ∷ ps) zero = (p +ℤ pos 1) ∷ ps
add_one_at (p ∷ ps) (suc i) = p ∷ add_one_at ps i

-- The `while` loop: `remaining` counts its rounds. Without a best index the source would add a
-- `bigint` to `undefined`, which throws.
unfoldable pub hand_out : ℕ → List ℤ → List ℤ → List Bool → Result MoneyError (List ℤ)
hand_out zero parts remainders used = ok parts
hand_out (suc remaining) parts remainders used =
    elim (find_best remainders used 0 none (negsuc 0)).0 [
      | none ↦ err type_error
      | some i ↦ hand_out remaining (add_one_at parts i) remainders (set used i true)
    ]

unfoldable pub distribute : ℤ → List ℤ → Allocation → Result MoneyError (List ℤ)
distribute total weights a =
    let leftover = total -ℤ a.allocated in
    if is_neg leftover || leb_ℤ (pos (length weights)) leftover
    then err drift
    else hand_out (pos_part leftover) a.parts a.remainders (replicate (length weights) false)

abbrev pub is_empty : List ℤ → Bool
is_empty [] = true
is_empty (_ ∷ _) = false

unfoldable pub split_pro_rata : ℤ → List ℤ → Result MoneyError (List ℤ)
split_pro_rata total weights =
    let weight_sum = sum_from (pos 0) weights in
    if is_neg total
    then err negative_total
    else if is_empty weights
    then (if is_zero total then ok [] else err zero_weights)
    else if any is_neg weights
    then err negative_weights
    else if is_zero weight_sum
    then (if is_zero total then ok (map (λ _. pos 0) weights) else err zero_total_weight)
    else allocate total weight_sum (pos 0) weights >>= distribute total weights
