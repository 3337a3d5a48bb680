-- ===== src/Pagination/Tests.antt =====
-- pagination.ts and `getRemittances`: a table of three rows, to which a fourth is added.
use remitlend.Base.{
  ℕ, ◌≡◌, ◌≢◌, refl, inl, inr, Bool, true, false, some, none, List, [], ◌∷◌, All, ◌==◌, ==_iff,
  arith,
}
use remitlend.Pagination.{Row, cursor_of, get_page}
use remitlend.Pagination.Walk.{walk, walk_is_snapshot}
use remitlend.Base.Result.{err}
use remitlend.Pagination.Requests.{
  RemittanceQuery, no_date, valid_date, database_error, all_params, count_params,
  count_placeholders, get_remittances, get_remittances_fails,
}
use remitlend.Pagination.Skipped.{cursor_skips_row}

abbrev row : ℕ → ℕ → Row ℕ
row us seq = record { created_at_us = us; seq = seq; content = 0 }

abbrev everything : Row ℕ → Bool
everything _ = true

abbrev three_rows : List (Row ℕ)
three_rows = row 3000 3 ∷ row 2000 2 ∷ row 2000 1 ∷ []

abbrev four_rows : List (Row ℕ)
four_rows = row 4000 4 ∷ three_rows

walked : walk everything 2 3 none (three_rows ∷ four_rows ∷ four_rows ∷ []) ≡ three_rows
walked =
    walk_is_snapshot everything 1 3 three_rows (three_rows ∷ four_rows ∷ four_rows ∷ [])
      ((inl (omega arith), (inl (omega arith), tt)), ((inr (refl, omega arith), tt), (tt, tt)))
      (refl, (refl, (refl, tt))) (refl, (refl, (refl, tt))) (omega arith)

-- The rows at 2.700 and 2.300 milliseconds: the second is after the first, and on no page after it.
cursor_skips_row_example :
    All
      (λ r. r ≢ row 2300 1)
      (get_page everything 1 3 (some (cursor_of (row 2700 2))) (row 2700 2 ∷ row 2300 1 ∷ [])).0
cursor_skips_row_example =
    cursor_skips_row everything 1 3 (row 2700 2 ∷ row 2300 1 ∷ []) (row 2700 2) (row 2300 1)
      (inl (omega arith)) refl (omega arith)

abbrev first_page : RemittanceQuery
first_page = record {
  has_sender = true;
  has_status = true;
  from = no_date;
  to = valid_date;
  has_search = false;
  snapshot_seq = 0;
  cursor = none;
}

-- The rows' query would be taken, and the count's is not.
rows_taken :
    (all_params first_page ≡ 5)
    × (count_params first_page ≡ 3)
    × (count_placeholders first_page ≡ 4)
rows_taken = (refl, refl, refl)

get_remittances_fails_example :
    get_remittances ◌==◌ everything 2 first_page three_rows ≡ err database_error
get_remittances_fails_example =
    get_remittances_fails ◌==◌ everything 2 (λ named sent e. (==_iff named sent).0 e) first_page
      three_rows
