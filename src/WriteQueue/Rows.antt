-- ===== src/WriteQueue/Rows.antt =====
-- The store's invariant: ids ascend and stay below the next one, and no idempotency key occurs twice.
use Prim.Native.String.{String}
use mathlib.Core.Path.{subst}
use text.Mathlib.TextEquality.{eq_iff}
use remitlend.Base.{
  ◌⊎◌, inl, inr, ℕ, ◌+◌, ◌<◌, ◌≡◌, ◌↔◌, refl, sym, ◌∙◌, true, false, Bool-cases, Option-cases,
  Option, none, some, List, [], ◌∷◌, ◌++◌, arith, All, find, ◌==◌, if◌then◌else◌,
}
use mathlib.Core.Option
use remitlend.WriteQueue.{
  QueuedWrite, EnqueueInput, Store, QueueConfig, new_write, has_key, insert, enqueue, update_row,
  mark_applied, mark_pending_after_failure, mark_failed,
}

module _ {P : Type 0} where
  abbrev pub Ascending : List (QueuedWrite P) → Type 0
  Ascending [] = Unit
  Ascending (r ∷ rs) = All (λ x. r.id < x.id) rs × Ascending rs

  abbrev pub DistinctKeys : List (QueuedWrite P) → Type 0
  DistinctKeys [] = Unit
  DistinctKeys (r ∷ rs) = (find (has_key r.idempotency_key) rs ≡ none) × DistinctKeys rs

  pub record IsValid (s : Store P) : Type 0 where
    pub ids_below : All (λ r. r.id < s.next_id) s.rows
    pub ascending : Ascending s.rows
    pub distinct : DistinctKeys s.rows

  -- The row that `rows.find` gives for an id.
  abbrev pub find_id : ℕ → List (QueuedWrite P) → Option (QueuedWrite P)
  find_id id = find (λ r. r.id == id)

  All-append_one :
      (n : ℕ) (rs : List (QueuedWrite P)) (x : QueuedWrite P)
      → All (λ r. n < r.id) rs
      → n < x.id
      → All (λ r. n < r.id) (rs ++ x ∷ [])
  All-append_one n [] x h k = (k, tt)
  All-append_one n (r ∷ rs) x h k = (h.0, All-append_one n rs x h.1 k)

  below-append_one :
      (n : ℕ) (rs : List (QueuedWrite P)) (x : QueuedWrite P)
      → All (λ r. r.id < n) rs
      → x.id ≡ n
      → All (λ r. r.id < n + 1) (rs ++ x ∷ [])
  below-append_one n [] x h k = (omega arith, tt)
  below-append_one n (r ∷ rs) x h k = (omega (arith, h.0), below-append_one n rs x h.1 k)

  Ascending-append_one :
      (rs : List (QueuedWrite P)) (x : QueuedWrite P)
      → Ascending rs
      → All (λ r. r.id < x.id) rs
      → Ascending (rs ++ x ∷ [])
  Ascending-append_one [] x h k = (tt, tt)
  Ascending-append_one (r ∷ rs) x h k =
      (All-append_one r.id rs x h.0 k.0, Ascending-append_one rs x h.1 k.1)

  find-append_none :
      (key : String) (rs : List (QueuedWrite P)) (x : QueuedWrite P)
      → find (has_key key) rs ≡ none
      → find (has_key key) (rs ++ x ∷ []) ≡ (if has_key key x then some x else none)
  find-append_none key [] x h = refl
  find-append_none key (r ∷ rs) x h = ground (arith, find-append_none key rs x)

  DistinctKeys-append_one :
      (rs : List (QueuedWrite P)) (x : QueuedWrite P)
      → DistinctKeys rs
      → find (has_key x.idempotency_key) rs ≡ none
      → DistinctKeys (rs ++ x ∷ [])
  DistinctKeys-append_one [] x h k = (refl, tt)
  DistinctKeys-append_one (r ∷ rs) x h k = ground (
    arith,
    find-append_none r.idempotency_key rs x h.0,
    DistinctKeys-append_one rs x h.1,
    eq_iff r.idempotency_key x.idempotency_key,
    eq_iff x.idempotency_key r.idempotency_key,
  )

  pub insert-IsValid :
      (now : ℕ) (i : EnqueueInput P) (s : Store P) → IsValid s → IsValid (insert now i s).2
  unfolding insert
  insert-IsValid now i s h = elim (Option-cases (find (has_key i.idempotency_key) s.rows)) [
    | inl e ↦
        rw (e, insert)
          (record {
            ids_below =
                below-append_one s.next_id s.rows (new_write s.next_id now i) h.ids_below refl;
            ascending =
                Ascending-append_one s.rows (new_write s.next_id now i) h.ascending h.ids_below;
            distinct = DistinctKeys-append_one s.rows (new_write s.next_id now i) h.distinct e;
          })
    | inr (r, e) ↦ rw (e, insert) h
  ]

  -- A change that keeps the id and the key.
  abbrev pub KeepsIdentity : (QueuedWrite P → QueuedWrite P) → Type 0
  KeepsIdentity f =
      (r : QueuedWrite P) → ((f r).id ≡ r.id) × ((f r).idempotency_key ≡ r.idempotency_key)

  module _ (id : ℕ) (f : QueuedWrite P → QueuedWrite P) (keeps : KeepsIdentity f) where
    below-update :
        (n : ℕ) (rs : List (QueuedWrite P))
        → All (λ r. r.id < n) rs
        → All (λ r. r.id < n) (update_row id f rs)
    below-update n [] h = tt
    below-update n (r ∷ rs) h = ground (arith, keeps r, below-update n rs h.1)

    above-update :
        (n : ℕ) (rs : List (QueuedWrite P))
        → All (λ r. n < r.id) rs
        → All (λ r. n < r.id) (update_row id f rs)
    above-update n [] h = tt
    above-update n (r ∷ rs) h = ground (arith, keeps r, above-update n rs h.1)

    Ascending-update : (rs : List (QueuedWrite P)) → Ascending rs → Ascending (update_row id f rs)
    Ascending-update [] h = tt
    Ascending-update (r ∷ rs) h = elim (Bool-cases (r.id == id)) [
      | inl e ↦ rw e (subst (λ n. All (λ x. n < x.id) rs) (sym (keeps r).0) h.0, h.1)
      | inr e ↦ rw e (above-update r.id rs h.0, Ascending-update rs h.1)
    ]

    find_key-update :
        (key : String) (rs : List (QueuedWrite P))
        → find (has_key key) rs ≡ none
        → find (has_key key) (update_row id f rs) ≡ none
    find_key-update key [] h = refl
    find_key-update key (r ∷ rs) h = ground (arith, keeps r, find_key-update key rs)

    DistinctKeys-update :
        (rs : List (QueuedWrite P)) → DistinctKeys rs → DistinctKeys (update_row id f rs)
    DistinctKeys-update [] h = tt
    DistinctKeys-update (r ∷ rs) h = elim (Bool-cases (r.id == id)) [
      | inl e ↦ rw e (subst (λ k. find (has_key k) rs ≡ none) (sym (keeps r).1) h.0, h.1)
      | inr e ↦ rw e (find_key-update r.idempotency_key rs h.0, DistinctKeys-update rs h.1)
    ]

    pub update-IsValid :
        (s : Store P) → IsValid s → IsValid (record s { rows = update_row id f s.rows })
    update-IsValid s h = record {
      ids_below = below-update s.next_id s.rows h.ids_below;
      ascending = Ascending-update s.rows h.ascending;
      distinct = DistinctKeys-update s.rows h.distinct;
    }

    -- A change to one row is seen under its id alone.
    pub find_id-update :
        (j : ℕ) (rs : List (QueuedWrite P))
        → find_id j (update_row id f rs)
          ≡ (if id == j then Option.map f (find_id j rs) else find_id j rs)
    find_id-update j [] = ground arith
    find_id-update j (r ∷ rs) = ground (arith, keeps r, find_id-update j rs)

  pub mark_applied-IsValid :
      (now id : ℕ) (s : Store P) → IsValid s → IsValid (mark_applied now id s)
  unfolding mark_applied
  mark_applied-IsValid now id s h = update-IsValid id _ (λ r. (refl, refl)) s h

  pub mark_failed-IsValid :
      (cfg : QueueConfig) (now id : ℕ) (e : String) (n : ℕ) (s : Store P)
      → IsValid s
      → IsValid (mark_failed cfg now id e n s).1
  unfolding mark_failed mark_pending_after_failure
  mark_failed-IsValid cfg now id e n s h = update-IsValid id _ (λ r. (refl, refl)) s h

  insert_new :
      (now : ℕ) (i : EnqueueInput P) (s : Store P)
      → find (has_key i.idempotency_key) s.rows ≡ none
      → let row = new_write s.next_id now i in
        insert now i s
        ≡ (row, true, record s { rows = s.rows ++ row ∷ []; next_id = s.next_id + 1 })
  unfolding insert
  insert_new now i s e = rw (e, insert)

  insert_old :
      (now : ℕ) (i : EnqueueInput P) (s : Store P) {r : QueuedWrite P}
      → find (has_key i.idempotency_key) s.rows ≡ some r
      → insert now i s ≡ (r, false, s)
  unfolding insert
  insert_old now i s e = rw (e, insert)

  find_new :
      (key : String) (rs : List (QueuedWrite P)) (x : QueuedWrite P)
      → key ≡ x.idempotency_key
      → find (has_key x.idempotency_key) rs ≡ none
      → find (has_key key) (rs ++ x ∷ []) ≡ some x
  find_new key rs x e h = rw e (
      find-append_none x.idempotency_key rs x h
      ∙ ground (arith, eq_iff x.idempotency_key x.idempotency_key))

  -- Enqueuing the same idempotency key again, at any later time and with any operation or payload, stores
  -- nothing: the second call returns the record of the first, marks it a duplicate and leaves the store.
  -- The first call is a duplicate exactly when the key was there, and then it leaves the store too.
  pub enqueue_twice :
      (now later : ℕ) (i j : EnqueueInput P) (s : Store P)
      → j.idempotency_key ≡ i.idempotency_key
      → let (row, duplicate, s') = enqueue now i s in
        (enqueue later j s' ≡ (row, true, s'))
        × ((duplicate ≡ false) ↔ (find (has_key i.idempotency_key) s.rows ≡ none))
        × ((duplicate ≡ false) ⊎ (s' ≡ s))
  unfolding enqueue
  enqueue_twice now later i j s e = elim (Option-cases (find (has_key i.idempotency_key) s.rows)) [
    | inl f ↦
        let row = new_write s.next_id now i in
        rw (insert_new now i s f) (
          rw
            (insert_old later j (record s { rows = s.rows ++ row ∷ []; next_id = s.next_id + 1 })
              (find_new j.idempotency_key s.rows row e f))
            (refl, ((λ x. f), (λ x. refl)), inl refl))
    | inr (r, f) ↦ rw (insert_old now i s f) (
        rw (insert_old later j s (subst (λ k. find (has_key k) s.rows ≡ some r) (sym e) f))
          (refl, ((λ x. cc), (λ x. cc)), inr refl))
  ]
