-- ===== src/Money/Split/Handout.antt =====
-- The `while` loop of `splitProRata`: every round finds an entry, and the shares handed out go to the
-- largest remainders.
use remitlend.Base.{
  some_inj, ℕ, zero, suc, ◌+◌, ◌≤◌, ◌<◌, ◌≡◌, ◌⊎◌, inl, inr, refl, sym, ◌∙◌, ap, Bool, true, false,
  none, some, List, [], ◌∷◌, arith, if◌then◌else◌, length, get_elem?, set, All, length-set,
}
use remitlend.Base.Int.{ℤ, pos, negsuc, pos_part, neg_part, ◌≤ℤ◌, ◌+ℤ◌, IsNonneg}
use remitlend.Base.Result.{ok}
use remitlend.Money.Split.{find_best, add_one_at, hand_out}
use remitlend.Money.Split.Greedy.{unused, find_best_max, find_best_found}

-- The base shares, with one more for each entry that was used.
abbrev pub add_used : List ℤ → List Bool → List ℤ
add_used [] us = []
add_used (b ∷ bs) [] = b ∷ bs
add_used (b ∷ bs) (u ∷ us) = (if u then b +ℤ pos 1 else b) ∷ add_used bs us

-- An entry that got a share has a remainder at least as large as one that got none.
abbrev pub IsFair : List ℤ → List Bool → Type 0
IsFair rs us =
    (i j : ℕ) (r s : ℤ)
    → get_elem? rs i ≡ some r
    → get_elem? us i ≡ some true
    → get_elem? rs j ≡ some s
    → get_elem? us j ≡ some false
    → s ≤ℤ r

add_one_at-add_used :
    (bs : List ℤ) (us : List Bool) (i : ℕ)
    → get_elem? us i ≡ some false
    → add_one_at (add_used bs us) i ≡ add_used bs (set us i true)
add_one_at-add_used [] us i h = refl
add_one_at-add_used (b ∷ bs) [] i h = cc
add_one_at-add_used (b ∷ bs) (u ∷ us) zero h = rw (some_inj h)
add_one_at-add_used (b ∷ bs) (u ∷ us) (suc i) h =
    ap (λ l. (if u then b +ℤ pos 1 else b) ∷ l) (add_one_at-add_used bs us i h)

unused-set :
    (us : List Bool) (i : ℕ)
    → get_elem? us i ≡ some false
    → unused us ≡ suc (unused (set us i true))
unused-set [] i h = cc
unused-set (u ∷ us) zero h = rw (some_inj h)
unused-set (true ∷ us) (suc i) h = unused-set us i h
unused-set (false ∷ us) (suc i) h = ap suc (unused-set us i h)

-- While an entry is unused, some index holds it.
unused-find :
    (rs : List ℤ) (us : List Bool)
    → length rs ≡ length us
    → All IsNonneg rs
    → 0 < unused us
    → (j : ℕ) × (r : ℤ) × (get_elem? rs j ≡ some r) × (get_elem? us j ≡ some false) × IsNonneg r
unused-find [] [] e p h = absurd (omega arith)
unused-find [] (u ∷ us) e p h = absurd (omega arith)
unused-find (r ∷ rs) [] e p h = absurd (omega arith)
unused-find (r ∷ rs) (false ∷ us) e p h = (0, r, refl, refl, p.0)
unused-find (r ∷ rs) (true ∷ us) e p h =
    let (j, s, f, g, k) = unused-find rs us (omega arith) p.1 h in (suc j, s, f, g, k)

-- A round finds an unused entry, of the largest remainder among those.
round_finds :
    (rs : List ℤ) (us : List Bool)
    → length rs ≡ length us
    → All IsNonneg rs
    → 0 < unused us
    → (i : ℕ) × (r : ℤ) × ((find_best rs us 0 none (negsuc 0)).0 ≡ some i)
      × (get_elem? rs i ≡ some r)
      × (get_elem? us i ≡ some false)
      × ((j : ℕ) (s : ℤ) → get_elem? rs j ≡ some s → get_elem? us j ≡ some false → s ≤ℤ r)
round_finds rs us e p h = elim (find_best_found rs us 0 none (negsuc 0) e) [
  | inl kept ↦
      let (j, r, f, g, k) = unused-find rs us e p h in
      absurd (
        omega (
          arith,
          k,
          find_best_max rs us 0 none (negsuc 0) j f g,
          ap (λ b. pos_part b.1) kept,
          ap (λ b. neg_part b.1) kept,
        ))
  | inr (j, f, g, k) ↦ (
    j,
    (find_best rs us 0 none (negsuc 0)).1,
    f ∙ ap some (omega arith),
    g,
    k,
    λ l s x y. find_best_max rs us 0 none (negsuc 0) l x y,
  )
]

get_elem?-set-true :
    (us : List Bool) (i j : ℕ)
    → get_elem? (set us i true) j ≡ some true
    → (i ≡ j) ⊎ (get_elem? us j ≡ some true)
get_elem?-set-true [] i j h = cc
get_elem?-set-true (u ∷ us) zero zero h = inl refl
get_elem?-set-true (u ∷ us) zero (suc j) h = inr h
get_elem?-set-true (u ∷ us) (suc i) zero h = inr h
get_elem?-set-true (u ∷ us) (suc i) (suc j) h = elim (get_elem?-set-true us i j h) [
  | inl e ↦ inl (ap suc e)
  | inr e ↦ inr e
]

get_elem?-set-false :
    (us : List Bool) (i j : ℕ)
    → get_elem? (set us i true) j ≡ some false
    → get_elem? us j ≡ some false
get_elem?-set-false [] i j h = cc
get_elem?-set-false (u ∷ us) zero zero h = cc
get_elem?-set-false (u ∷ us) zero (suc j) h = h
get_elem?-set-false (u ∷ us) (suc i) zero h = h
get_elem?-set-false (u ∷ us) (suc i) (suc j) h = get_elem?-set-false us i j h

-- Marking an entry of the largest remainder keeps the choice fair.
set-IsFair :
    (rs : List ℤ) (us : List Bool) (i : ℕ) {r : ℤ}
    → get_elem? rs i ≡ some r
    → ((j : ℕ) (s : ℤ) → get_elem? rs j ≡ some s → get_elem? us j ≡ some false → s ≤ℤ r)
    → IsFair rs us
    → IsFair rs (set us i true)
set-IsFair rs us i at best fair k j x s kx kt js jf = elim (get_elem?-set-true us i k kt) [
  | inl e ↦
      let same = some_inj (sym at ∙ ap (get_elem? rs) e ∙ kx) in
      omega (arith, best j s js (get_elem?-set-false us i j jf), ap pos_part same, ap neg_part same)
  | inr t ↦ fair k j x s kx t js (get_elem?-set-false us i j jf)
]

-- With at least as many unused entries as rounds the loop returns: the shares handed out are those of
-- a fair choice of as many entries.
pub hand_out_lem :
    (n : ℕ) (bs rs : List ℤ) (us : List Bool)
    → length rs ≡ length us
    → All IsNonneg rs
    → n ≤ unused us
    → IsFair rs us
    → (vs : List Bool) × (hand_out n (add_used bs us) rs us ≡ ok (add_used bs vs))
      × (length vs ≡ length us)
      × (unused vs + n ≡ unused us)
      × IsFair rs vs
unfolding hand_out
hand_out_lem zero bs rs us e p h fair = (us, refl, refl, omega arith, fair)
hand_out_lem (suc n) bs rs us e p h fair =
    let (i, r, found, at, free, best) = round_finds rs us e p (omega arith) in
    let fewer = unused-set us i free in
    let (vs, result, len, count, fair') =
      hand_out_lem n bs rs (set us i true) (e ∙ sym (length-set us i true)) p (omega (arith, fewer))
        (set-IsFair rs us i at best fair) in
    (
      vs,
      rw (found, hand_out) (rw (add_one_at-add_used bs us i free) result),
      len ∙ length-set us i true,
      omega (arith, fewer, count),
      fair',
    )
