-- ===== src/Pagination/Skipped.antt =====
-- The cursor of `getRemittances` in backend/src/controllers/remittanceController.ts keeps milliseconds, and
-- the column it is compared with microseconds.
use remitlend.Base.{
  ℕ, zero, suc, ◌+◌, ◌/◌, ◌%◌, ◌<◌, ◌≡◌, ◌≢◌, sym, ap, ◌∙◌, inl, inr, Bool, true, false, Bool-cases,
  ◌&&◌, Option, some, List, [], ◌∷◌, filter, length, take, All, arith, ltb,
}
use remitlend.Pagination.{
  Row, DecodedCursor, cursor_of, is_past, in_snapshot, query_rows, page_of, get_page,
}
use remitlend.Pagination.Walk.{Before}

module _ {A : Type 0} where
  filter_passes :
      (p q : Row A → Bool) (xs : List (Row A)) → All (λ r. q r ≡ true) (filter (λ r. p r && q r) xs)
  filter_passes p q [] = tt
  filter_passes p q (x ∷ xs) = elim (Bool-cases (p x && q x)) [
    | inl e ↦ rw e (ground (arith, e), filter_passes p q xs)
    | inr e ↦ rw e (filter_passes p q xs)
  ]

  take_passes : (P : Row A → Type 0) (n : ℕ) (xs : List (Row A)) → All P xs → All P (take n xs)
  take_passes P zero xs h = tt
  take_passes P (suc n) [] h = tt
  take_passes P (suc n) (x ∷ xs) h = (h.0, take_passes P n xs h.1)

  page_passes :
      (P : Row A → Type 0) (limit : ℕ) (xs : List (Row A)) → All P xs → All P (page_of limit xs).0
  unfolding page_of
  page_passes P limit xs h = elim (Bool-cases (ltb limit (length xs))) [
    | inl e ↦ rw (e, page_of) (take_passes P limit xs h)
    | inr e ↦ rw (e, page_of) h
  ]

  same_millisecond :
      (b y : Row A)
      → y.created_at_us / 1000 ≡ b.created_at_us / 1000
      → 0 < y.created_at_us % 1000
      → is_past (some (cursor_of b)) y ≡ false
  same_millisecond b y h k = ground (arith, h, k)

  none_is :
      (c : Option DecodedCursor) (y : Row A) (xs : List (Row A))
      → is_past c y ≡ false
      → All (λ r. is_past c r ≡ true) xs
      → All (λ r. r ≢ y) xs
  none_is c y [] h k = tt
  none_is c y (x ∷ xs) h k =
      (λ e. absurd (ground (arith, sym (k.0) ∙ ap (is_past c) e ∙ h)), none_is c y xs h k.1)

  -- A row that comes after the last row of a page, in the same millisecond but not at its start, is on no
  -- page that the cursor leads to, whatever the table, the filters, the snapshot and the limit.
  pub cursor_skips_row :
      (selected : Row A → Bool) (limit snapshot_seq : ℕ) (table : List (Row A)) (b y : Row A)
      → Before b y
      → y.created_at_us / 1000 ≡ b.created_at_us / 1000
      → 0 < y.created_at_us % 1000
      → All (λ r. r ≢ y) (get_page selected limit snapshot_seq (some (cursor_of b)) table).0
  unfolding get_page query_rows
  cursor_skips_row selected limit snapshot_seq table b y after h k =
      none_is (some (cursor_of b)) y
        (page_of limit (query_rows selected limit snapshot_seq (some (cursor_of b)) table)).0
        (same_millisecond b y h k)
        (page_passes _ limit _ (
          take_passes _ (limit + 1) _ (
            filter_passes (in_snapshot selected snapshot_seq) (is_past (some (cursor_of b)))
              table)))
