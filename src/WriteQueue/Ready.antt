-- ===== src/WriteQueue/Ready.antt =====
-- What `listReady` returns: the sort is one of rows that already ascend.
use remitlend.Base.{
  ℕ, zero, suc, ◌≤◌, ◌<◌, ◌≡◌, refl, ◌∙◌, ap, Bool, true, Bool-cases, inl, inr, some, List, [], ◌∷◌,
  arith, All, filter, take, length, length-take-le,
}
use remitlend.WriteQueue.{QueuedWrite, Store, is_ready, insert_by_id, sort_by_id, list_ready}
use remitlend.WriteQueue.Rows.{Ascending, IsValid, find_id}

module _ {P : Type 0} where
  module _ (Q : QueuedWrite P → Type 0) where
    All-filter :
        (p : QueuedWrite P → Bool) (rs : List (QueuedWrite P)) → All Q rs → All Q (filter p rs)
    All-filter p [] h = tt
    All-filter p (r ∷ rs) h = elim (Bool-cases (p r)) [
      | inl e ↦ rw e (h.0, All-filter p rs h.1)
      | inr e ↦ rw e (All-filter p rs h.1)
    ]

    All-take : (n : ℕ) (rs : List (QueuedWrite P)) → All Q rs → All Q (take n rs)
    All-take zero rs h = tt
    All-take (suc n) [] h = tt
    All-take (suc n) (r ∷ rs) h = (h.0, All-take n rs h.1)

  Ascending-filter :
      (p : QueuedWrite P → Bool) (rs : List (QueuedWrite P))
      → Ascending rs
      → Ascending (filter p rs)
  Ascending-filter p [] h = tt
  Ascending-filter p (r ∷ rs) h = elim (Bool-cases (p r)) [
    | inl e ↦ rw e (All-filter (λ x. r.id < x.id) p rs h.0, Ascending-filter p rs h.1)
    | inr e ↦ rw e (Ascending-filter p rs h.1)
  ]

  Ascending-take : (n : ℕ) (rs : List (QueuedWrite P)) → Ascending rs → Ascending (take n rs)
  Ascending-take zero rs h = tt
  Ascending-take (suc n) [] h = tt
  Ascending-take (suc n) (r ∷ rs) h =
      (All-take (λ x. r.id < x.id) n rs h.0, Ascending-take n rs h.1)

  insert_by_id-front :
      (r : QueuedWrite P) (xs : List (QueuedWrite P))
      → All (λ x. r.id < x.id) xs
      → insert_by_id r xs ≡ r ∷ xs
  unfolding insert_by_id
  insert_by_id-front r [] h = refl
  insert_by_id-front r (x ∷ xs) h = ground arith

  sort_by_id-Ascending : (rs : List (QueuedWrite P)) → Ascending rs → sort_by_id rs ≡ rs
  unfolding sort_by_id
  sort_by_id-Ascending [] h = refl
  sort_by_id-Ascending (r ∷ rs) h =
      ap (insert_by_id r) (sort_by_id-Ascending rs h.1) ∙ insert_by_id-front r rs h.0

  filter-passes :
      (p : QueuedWrite P → Bool) (rs : List (QueuedWrite P)) → All (λ r. p r ≡ true) (filter p rs)
  filter-passes p [] = tt
  filter-passes p (r ∷ rs) = elim (Bool-cases (p r)) [
    | inl e ↦ rw e (e, filter-passes p rs)
    | inr e ↦ rw e (filter-passes p rs)
  ]

  -- Over a valid store the writes that are ready for replay are the first `limit` pending rows whose next
  -- attempt is due, in ascending order of id.
  pub list_ready_lem :
      (now limit : ℕ) (s : Store P)
      → IsValid s
      → let ready = list_ready now limit s in
        (ready ≡ take limit (filter (is_ready now) s.rows))
        × Ascending ready
        × All (λ r. is_ready now r ≡ true) ready
        × (length ready ≤ limit)
  unfolding list_ready
  list_ready_lem now limit s h =
      let due = filter (is_ready now) s.rows in
      let asc = Ascending-filter (is_ready now) s.rows h.ascending in
      let sorted = sort_by_id-Ascending due asc in
      rw sorted (
        refl,
        Ascending-take limit due asc,
        All-take (λ r. is_ready now r ≡ true) limit due (filter-passes (is_ready now) s.rows),
        length-take-le limit due,
      )

  find_id-skip :
      (r : QueuedWrite P) (rs ws : List (QueuedWrite P))
      → All (λ x. r.id < x.id) ws
      → All (λ w. find_id w.id rs ≡ some w) ws
      → All (λ w. find_id w.id (r ∷ rs) ≡ some w) ws
  find_id-skip r rs [] h k = tt
  find_id-skip r rs (w ∷ ws) h k = (ground arith, find_id-skip r rs ws h.1 k.1)

  find_id-members :
      (rs : List (QueuedWrite P)) → Ascending rs → All (λ w. find_id w.id rs ≡ some w) rs
  find_id-members [] h = tt
  find_id-members (r ∷ rs) h = (ground arith, find_id-skip r rs rs h.0 (find_id-members rs h.1))

  -- A ready write is the row that the store has under its id.
  pub list_ready-found :
      (now limit : ℕ) (s : Store P)
      → IsValid s
      → All (λ w. find_id w.id s.rows ≡ some w) (list_ready now limit s)
  list_ready-found now limit s h = rw ((list_ready_lem now limit s h).0) (
      All-take _ limit (filter (is_ready now) s.rows)
        (All-filter _ (is_ready now) s.rows (find_id-members s.rows h.ascending)))
