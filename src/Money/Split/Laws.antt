-- ===== src/Money/Split/Laws.antt =====
-- What `splitProRata` promises: the parts sum to the total, each is its floor share or one more, and
-- the extra stroops go to the largest remainders.
use mathlib.Core.Path.{subst}
use remitlend.Base.{
  ℕ, zero, suc, ◌-◌, ◌*◌, ◌≤◌, ◌<◌, ◌≡◌, ◌≢◌, refl, sym, ◌∙◌, ap, Bool, true, false, List, [], ◌∷◌,
  map, arith, ◌==◌, length, length-map, length-replicate, replicate, get_elem?, some, All, any,
}
use remitlend.Base.Int.{
  ℤ, pos, negsuc, is_neg, IsNonneg, ◌*ℤ◌, ◌/ℤ◌, ◌%ℤ◌, pos*ℤpos, pos/ℤpos, pos%ℤpos, pos-ℤpos,
  nonneg_list,
}
use remitlend.Base.Result.{ok}
use remitlend.Money.Split.{sum_from, Allocation, hand_out, distribute, split_pro_rata}
use remitlend.Money.Split.Greedy.{unused}
use remitlend.Money.Split.Handout.{add_used, IsFair, hand_out_lem}
use remitlend.Money.Split.Shares.{
  sum, floors, rests, allocate_lem, sum_from_pos, sum_from-add_used, leftover_bounds,
}

-- The share of each weight, rounded down, and what the rounding leaves of its numerator.
abbrev pub floor_shares : ℤ → List ℤ → List ℤ
floor_shares total weights = map (λ w. total *ℤ w /ℤ sum_from (pos 0) weights) weights

abbrev pub share_rests : ℤ → List ℤ → List ℤ
share_rests total weights = map (λ w. total *ℤ w %ℤ sum_from (pos 0) weights) weights

-- The parts are floor shares, with one stroop more for the entries of a fair choice, and sum to the
-- total.
abbrev pub IsExactSplit : ℤ → List ℤ → List ℤ → Type 0
IsExactSplit total weights parts =
    (us : List Bool) × (parts ≡ add_used (floor_shares total weights) us)
    × (length us ≡ length weights)
    × (sum_from (pos 0) parts ≡ total)
    × IsFair (share_rests total weights) us

unused-replicate : (n : ℕ) → unused (replicate n false) ≡ n
unused-replicate zero = refl
unused-replicate (suc n) = ap suc (unused-replicate n)

add_used-replicate : (bs : List ℤ) (n : ℕ) → add_used bs (replicate n false) ≡ bs
add_used-replicate [] n = refl
add_used-replicate (b ∷ bs) zero = refl
add_used-replicate (b ∷ bs) (suc n) = ap (λ l. b ∷ l) (add_used-replicate bs n)

replicate-IsFair : (rs : List ℤ) (n : ℕ) → IsFair rs (replicate n false)
replicate-IsFair rs zero i j r s x y z w = cc
replicate-IsFair rs (suc n) zero j r s x y z w = cc
replicate-IsFair rs (suc n) (suc i) j r s x y z w = absurd (go n i y)
  where
    go : (n i : ℕ) → get_elem? (replicate n false) i ≡ some true → ⊥
    go zero i y = cc
    go (suc n) zero y = cc
    go (suc n) (suc i) y = go n i y

any-is_neg_pos : (ns : List ℕ) → any is_neg (map pos ns) ≡ false
any-is_neg_pos [] = refl
any-is_neg_pos (n ∷ ns) = any-is_neg_pos ns

map-pos-IsNonneg : (ns : List ℕ) → All IsNonneg (map pos ns)
map-pos-IsNonneg [] = tt
map-pos-IsNonneg (n ∷ ns) = (omega arith, map-pos-IsNonneg ns)

map-quotient_pos :
    (t b : ℕ) (ws : List ℕ) → map (λ w. pos t *ℤ w /ℤ pos b) (map pos ws) ≡ map pos (floors t b ws)
map-quotient_pos t b [] = refl
map-quotient_pos t b (w ∷ ws) = rw (pos*ℤpos t w, pos/ℤpos (t * w) b, map-quotient_pos t b ws)

map-remainder_pos :
    (t b : ℕ) (ws : List ℕ) → map (λ w. pos t *ℤ w %ℤ pos b) (map pos ws) ≡ map pos (rests t b ws)
map-remainder_pos t b [] = refl
map-remainder_pos t b (w ∷ ws) = rw (pos*ℤpos t w, pos%ℤpos (t * w) b, map-remainder_pos t b ws)

-- A leftover in range passes the drift test.
distribute_in_range :
    (t f : ℕ) (weights : List ℤ) (a : Allocation)
    → a.allocated ≡ pos f
    → f ≤ t
    → t - f < length weights
    → distribute (pos t) weights a
      ≡ hand_out (t - f) a.parts a.remainders (replicate (length weights) false)
unfolding distribute
distribute_in_range t f weights a e h k = rw (e, distribute) (rw (pos-ℤpos t f h) (ground arith))

-- The last step: the leftover passes the drift test, and is handed out.
distribute_lem :
    (t b : ℕ) (ws : List ℕ)
    → sum ws ≡ suc b
    → (us : List Bool) × (distribute (pos t) (map pos ws) (record {
      parts = map pos (floors t (suc b) ws);
      remainders = map pos (rests t (suc b) ws);
      allocated = pos (sum (floors t (suc b) ws));
    })
        ≡ ok (add_used (map pos (floors t (suc b) ws)) us))
      × (length us ≡ length ws)
      × (sum_from (pos 0) (add_used (map pos (floors t (suc b) ws)) us) ≡ pos t)
      × IsFair (map pos (rests t (suc b) ws)) us
unfolding distribute
distribute_lem t b ws e =
    let bounds = leftover_bounds t b ws e in
    let f = sum (floors t (suc b) ws) in
    let fs = map pos (floors t (suc b) ws) in
    let rs = map pos (rests t (suc b) ws) in
    let n : ℕ = length (map pos ws) in
    let same : n ≡ length ws = length-map ws pos in
    let (us, result, len, count, fair) =
      hand_out_lem (t - f) fs rs (replicate n false)
        (length-map (rests t (suc b) ws) pos
          ∙ length-map ws _
          ∙ sym same
          ∙ sym (length-replicate n false))
        (map-pos-IsNonneg (rests t (suc b) ws)) (omega (arith, unused-replicate n, same, bounds.1))
        (replicate-IsFair rs n) in
    let total =
      sum_from-add_used 0 (floors t (suc b) ws) us
        (len ∙ length-replicate n false ∙ same ∙ sym (length-map ws _)) in
    (
      us,
      distribute_in_range t f (map pos ws)
            (record { parts = fs; remainders = rs; allocated = pos f }) refl bounds.0
            (omega (arith, bounds.1, same))
          ∙ ap (λ l. hand_out (t - f) l rs (replicate n false)) (sym (add_used-replicate fs n))
          ∙ result,
      len ∙ length-replicate n false ∙ same,
      total.0
          ∙ ap pos (
              omega
                (arith, total.1, count, unused-replicate n, len, length-replicate n false, bounds)),
      fair,
    )

split_pos :
    (t b : ℕ) (ws : List ℕ)
    → sum ws ≡ suc b
    → split_pro_rata (pos t) (map pos ws)
      ≡ distribute (pos t) (map pos ws) (record {
        parts = map pos (floors t (suc b) ws);
        remainders = map pos (rests t (suc b) ws);
        allocated = pos (sum (floors t (suc b) ws));
      })
unfolding split_pro_rata
split_pos t b [] e = absurd (omega (arith, e))
split_pos t b (w ∷ ws) e =
    rw (weight_sum, split_pro_rata)
      (rw (any-is_neg_pos ws, nonzero b, allocate_lem t b 0 (w ∷ ws))
        (ap (λ n. distribute (pos t) (map pos (w ∷ ws)) (sharing n)) (omega arith)))
  where
    sharing : ℕ → Allocation
    sharing n = record {
      parts = map pos (floors t (suc b) (w ∷ ws));
      remainders = map pos (rests t (suc b) (w ∷ ws));
      allocated = pos n;
    }

    nonzero : (n : ℕ) → (suc n == 0) ≡ false
    nonzero n = ground arith

    weight_sum : sum_from (pos 0) (map pos (w ∷ ws)) ≡ pos (suc b)
    weight_sum = sum_from_pos 0 (w ∷ ws) ∙ ap pos (omega (arith, e))

split_exact_pos :
    (t b : ℕ) (ws : List ℕ)
    → sum ws ≡ suc b
    → (parts : List ℤ) × (split_pro_rata (pos t) (map pos ws) ≡ ok parts)
      × IsExactSplit (pos t) (map pos ws) parts
split_exact_pos t b ws e =
    let (us, result, len, total, fair) = distribute_lem t b ws e in
    (
      add_used (map pos (floors t (suc b) ws)) us,
      split_pos t b ws e ∙ result,
      (
        us,
        ap (λ l. add_used l us)
            (sym (
              ap (λ s. map (λ w. pos t *ℤ w /ℤ s) (map pos ws)) weight_sum
              ∙ map-quotient_pos t (suc b) ws)),
        len ∙ sym (length-map ws pos),
        total,
        subst (λ l. IsFair l us)
            (sym (
              ap (λ s. map (λ w. pos t *ℤ w %ℤ s) (map pos ws)) weight_sum
              ∙ map-remainder_pos t (suc b) ws))
            fair,
      ),
    )
  where
    weight_sum : sum_from (pos 0) (map pos ws) ≡ pos (suc b)
    weight_sum = sum_from_pos 0 ws ∙ ap pos (omega (arith, e))

-- For a total and weights that are not negative and do not sum to zero, `splitProRata` returns.
-- The parts sum to exactly the total; each is its weight's floor share, with one stroop more for the
-- entries of a set; and no entry outside that set has a larger division remainder than one inside it.
pub split_pro_rata_exact :
    (total : ℤ) (weights : List ℤ)
    → IsNonneg total
    → All IsNonneg weights
    → sum_from (pos 0) weights ≢ pos 0
    → (parts : List ℤ) × (split_pro_rata total weights ≡ ok parts)
      × IsExactSplit total weights parts
split_pro_rata_exact (negsuc t) weights ht hw hs = absurd (omega arith)
split_pro_rata_exact (pos t) weights ht hw hs =
    let (ws, e) = nonneg_list weights hw in
    let weight_sum = ap (sum_from (pos 0)) e ∙ sum_from_pos 0 ws in
    let positive : sum ws ≢ 0 = λ z. hs (weight_sum ∙ ap pos (omega arith)) in
    rw e (split_exact_pos t (sum ws - 1) ws (omega arith))
