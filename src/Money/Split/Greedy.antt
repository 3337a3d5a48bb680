-- ===== src/Money/Split/Greedy.antt =====
-- The inner loop of `splitProRata` finds the first entry not yet used that has the largest remainder.
use remitlend.Base.{
  some_inj, ℕ, zero, suc, ◌+◌, ◌≡◌, ◌⊎◌, inl, inr, refl, sym, ◌∙◌, ap, Bool, true, false,
  Bool-cases, Option, some, List, [], ◌∷◌, arith, if◌then◌else◌, length, get_elem?,
}
use remitlend.Base.Int.{ℤ, pos_part, neg_part, ◌≤ℤ◌, ltb_ℤ}
use remitlend.Money.Split.{find_best}

-- How many entries are not used yet.
abbrev pub unused : List Bool → ℕ
unused [] = 0
unused (u ∷ us) = if u then unused us else suc (unused us)

ltb_ℤ-true : (a b : ℤ) → ltb_ℤ a b ≡ true → a ≤ℤ b
ltb_ℤ-true a b h = ground arith

ltb_ℤ-false : (a b : ℤ) → ltb_ℤ a b ≡ false → b ≤ℤ a
ltb_ℤ-false a b h = ground arith

-- The best remainder only grows.
find_best-le :
    (rs : List ℤ) (us : List Bool) (i : ℕ) (idx : Option ℕ) (best : ℤ)
    → best ≤ℤ (find_best rs us i idx best).1
unfolding find_best
find_best-le [] us i idx best = omega arith
find_best-le (r ∷ rs) [] i idx best = elim (Bool-cases (ltb_ℤ best r)) [
  | inl e ↦
      rw (e, find_best) (omega (arith, ltb_ℤ-true best r e, find_best-le rs [] (suc i) (some i) r))
  | inr e ↦ rw (e, find_best) (find_best-le rs [] (suc i) idx best)
]
find_best-le (r ∷ rs) (true ∷ us) i idx best = find_best-le rs us (suc i) idx best
find_best-le (r ∷ rs) (false ∷ us) i idx best = elim (Bool-cases (ltb_ℤ best r)) [
  | inl e ↦
      rw (e, find_best) (omega (arith, ltb_ℤ-true best r e, find_best-le rs us (suc i) (some i) r))
  | inr e ↦ rw (e, find_best) (find_best-le rs us (suc i) idx best)
]

-- No entry that is not used has a larger remainder.
pub find_best_max :
    (rs : List ℤ) (us : List Bool) (i : ℕ) (idx : Option ℕ) (best : ℤ) (j : ℕ) {r : ℤ}
    → get_elem? rs j ≡ some r
    → get_elem? us j ≡ some false
    → r ≤ℤ (find_best rs us i idx best).1
unfolding find_best
find_best_max [] us i idx best j h k = cc
find_best_max (x ∷ rs) [] i idx best j h k = cc
find_best_max (x ∷ rs) (true ∷ us) i idx best zero h k = cc
find_best_max (x ∷ rs) (true ∷ us) i idx best (suc j) h k =
    find_best_max rs us (suc i) idx best j h k
find_best_max (x ∷ rs) (false ∷ us) i idx best zero {r = r} h k = elim (Bool-cases (ltb_ℤ best x)) [
  | inl e ↦
      rw (e, find_best)
        (omega (
          arith,
          ap pos_part (some_inj h),
          ap neg_part (some_inj h),
          find_best-le rs us (suc i) (some i) x,
        ))
  | inr e ↦
      rw (e, find_best)
        (omega (
          arith,
          ltb_ℤ-false best x e,
          ap pos_part (some_inj h),
          ap neg_part (some_inj h),
          find_best-le rs us (suc i) idx best,
        ))
]
find_best_max (x ∷ rs) (false ∷ us) i idx best (suc j) h k = elim (Bool-cases (ltb_ℤ best x)) [
  | inl e ↦ rw (e, find_best) (find_best_max rs us (suc i) (some i) x j h k)
  | inr e ↦ rw (e, find_best) (find_best_max rs us (suc i) idx best j h k)
]

-- The index found is that of an entry not yet used which has the best remainder, unless the search
-- kept what it started from.
pub find_best_found :
    (rs : List ℤ) (us : List Bool) (i : ℕ) (idx : Option ℕ) (best : ℤ)
    → length rs ≡ length us
    → ((find_best rs us i idx best ≡ (idx, best)))
      ⊎ ((j : ℕ) × ((find_best rs us i idx best).0 ≡ some (i + j))
          × (get_elem? rs j ≡ some (find_best rs us i idx best).1)
          × (get_elem? us j ≡ some false))
unfolding find_best
find_best_found [] us i idx best h = inl refl
find_best_found (x ∷ rs) [] i idx best h = absurd (omega arith)
find_best_found (x ∷ rs) (true ∷ us) i idx best h =
    elim (find_best_found rs us (suc i) idx best (omega arith)) [
      | inl e ↦ inl e
      | inr (j, e, f, g) ↦ inr (suc j, e ∙ ap some (omega arith), f, g)
    ]
find_best_found (x ∷ rs) (false ∷ us) i idx best h = elim (Bool-cases (ltb_ℤ best x)) [
  | inl e ↦
      rw (e, find_best)
        (elim (find_best_found rs us (suc i) (some i) x (omega arith)) [
          | inl f ↦
              inr
                (zero, ap (λ p. p.0) f ∙ ap some (omega arith), ap (λ p. some (p.1)) (sym f), refl)
          | inr (j, f, g, k) ↦ inr (suc j, f ∙ ap some (omega arith), g, k)
        ])
  | inr e ↦
      rw (e, find_best)
        (elim (find_best_found rs us (suc i) idx best (omega arith)) [
          | inl f ↦ inl f
          | inr (j, f, g, k) ↦ inr (suc j, f ∙ ap some (omega arith), g, k)
        ])
]
