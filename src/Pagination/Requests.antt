-- ===== src/Pagination/Requests.antt =====
-- `getRemittances` of backend/src/controllers/remittanceController.ts as a whole: the parameters that its
-- queries name and are sent, and what a request gives. Whether PostgreSQL takes a statement that names so many
-- parameters and is sent so many is an argument.
use remitlend.Base.{
  ℕ, ◌+◌, ◌-◌, ◌≤◌, ◌≡◌, refl, inl, inr, Bool, true, false, Bool-cases, not, ◌&&◌, Option, none,
  some, List, [], ◌∷◌, filter, length, ltb, ◌==◌, if◌then◌else◌, arith,
}
use remitlend.Base.Result.{Result, ok, err}
use remitlend.Pagination.{Row, DecodedCursor, in_snapshot, is_past, get_page}

-- `from` and `to`: a date filter is absent, or it has a text that is a date or none.
pub data DateFilter : Type 0 where
  no_date invalid_date valid_date : DateFilter

-- The query of a request: which filters it has, the snapshot (0 where it has none) and the cursor.
pub record RemittanceQuery : Type 0 where
  pub has_sender : Bool
  pub has_status : Bool
  pub from : DateFilter
  pub to : DateFilter
  pub has_search : Bool
  pub snapshot_seq : ℕ
  pub cursor : Option DecodedCursor

pub data RemittanceError : Type 0 where
  unauthorized invalid_from invalid_to database_error : RemittanceError

pub record RemittancePage (A : Type 0) : Type 0 where
  pub data_rows : List (Row A)
  pub next_cursor_of_page : Option DecodedCursor
  pub pinned_seq : ℕ
  pub total_at_snapshot : ℕ

abbrev pub one_if : Bool → ℕ
one_if true = 1
one_if false = 0

abbrev pub is_date : DateFilter → Bool
is_date valid_date = true
is_date _ = false

abbrev pub is_invalid : DateFilter → Bool
is_invalid invalid_date = true
is_invalid _ = false

-- `params.length` when the filters are applied, the sender's among them; the search has two.
abbrev pub filter_params : RemittanceQuery → ℕ
filter_params q =
    1
    + one_if q.has_status
    + one_if (is_date q.from)
    + one_if (is_date q.to)
    + (one_if q.has_search + one_if q.has_search)

abbrev pub cursor_params : Option DecodedCursor → ℕ
cursor_params none = 0
cursor_params (some _) = 3

-- Those of the `WHERE` clause: the snapshot's, and the cursor's.
abbrev pub where_params : RemittanceQuery → ℕ
where_params q = filter_params q + 1 + cursor_params q.cursor

-- The limit's is the last of all.
abbrev pub all_params : RemittanceQuery → ℕ
all_params q = where_params q + 1

-- `params.slice(0, -2)`, less one by `pop`, and the snapshot again.
abbrev pub count_params : RemittanceQuery → ℕ
count_params q = all_params q - 2 - 1 + 1

-- The highest placeholder of the count query. The text that `replace` looks for has the number of the limit,
-- which the `WHERE` clause does not have, so that the clause stays whole.
abbrev pub count_placeholders : RemittanceQuery → ℕ
count_placeholders q =
    if ltb (where_params q) (count_params q) then count_params q else where_params q

abbrev pub max_seq : {A : Type 0} → List (Row A) → ℕ
max_seq [] = 0
max_seq (r ∷ rs) = let rest = max_seq rs in if ltb rest r.seq then r.seq else rest

abbrev pub pin_snapshot : {A : Type 0} → ℕ → List (Row A) → ℕ
pin_snapshot seq table = if seq == 0 then max_seq table else seq

module _ {A : Type 0} (accepts : ℕ → ℕ → Bool) (selected : Row A → Bool) (limit : ℕ) where
  -- From the filters on: the query of the rows, and the query that counts them.
  abbrev pub query_page :
      RemittanceQuery → ℕ → List (Row A) → Result RemittanceError (RemittancePage A)
  query_page q snapshot table =
      if not (accepts (all_params q) (all_params q))
      then err database_error
      else if not (accepts (count_placeholders q) (count_params q))
      then err database_error
      else let (rows, next) = get_page selected limit snapshot q.cursor table in
        ok (record {
          data_rows = rows;
          next_cursor_of_page = next;
          pinned_seq = snapshot;
          total_at_snapshot =
              length (filter (λ r. in_snapshot selected snapshot r && is_past q.cursor r) table);
        })

  unfoldable pub get_remittances :
      RemittanceQuery → List (Row A) → Result RemittanceError (RemittancePage A)
  get_remittances q table =
      if not q.has_sender
      then err unauthorized
      else if is_invalid q.from
      then err invalid_from
      else if is_invalid q.to
      then err invalid_to
      else query_page q (pin_snapshot q.snapshot_seq table) table

  refused :
      ((named sent : ℕ) → accepts named sent ≡ true → named ≡ sent)
      → (w : ℕ) → 2 ≤ w
      → accepts (if ltb w (w + 1 - 2 - 1 + 1) then w + 1 - 2 - 1 + 1 else w) (w + 1 - 2 - 1 + 1)
        ≡ false
  refused law w two = elim (Bool-cases (accepts named sent)) [
    | inr e ↦ e
    | inl e ↦ absurd (ground (arith, law named sent e, two))
  ]
    where
      sent : ℕ
      sent = w + 1 - 2 - 1 + 1

      named : ℕ
      named = if ltb w sent then sent else w

  query_page_fails :
      ((named sent : ℕ) → accepts named sent ≡ true → named ≡ sent)
      → (q : RemittanceQuery) (snapshot : ℕ) (table : List (Row A))
      → query_page q snapshot table ≡ err database_error
  query_page_fails law q snapshot table =
      let no = refused law (where_params q) (omega arith) in
      failed (accepts (all_params q) (all_params q))
        (accepts (count_placeholders q) (count_params q)) no
    where
      page : RemittancePage A
      page =
          let (rows, next) = get_page selected limit snapshot q.cursor table in
          record {
            data_rows = rows;
            next_cursor_of_page = next;
            pinned_seq = snapshot;
            total_at_snapshot =
                length (filter (λ r. in_snapshot selected snapshot r && is_past q.cursor r) table);
          }

      failed :
          (a b : Bool)
          → b ≡ false
          → (if not a then err database_error else if not b then err database_error else ok page)
            ≡ err database_error
      failed true true e = absurd (cc)
      failed true false e = refl
      failed false b e = refl

  -- PostgreSQL refuses a statement that names other parameters than it is sent, so every request fails: one
  -- without a sender or with a text that is no date for that, and any other with the database's error,
  -- whatever its filters, its limit, its cursor and the table.
  pub get_remittances_fails :
      ((named sent : ℕ) → accepts named sent ≡ true → named ≡ sent)
      → (q : RemittanceQuery) (table : List (Row A))
      → get_remittances q table
        ≡ err (
            if not q.has_sender
            then unauthorized
            else if is_invalid q.from
            then invalid_from
            else if is_invalid q.to
            then invalid_to
            else database_error)
  unfolding get_remittances
  get_remittances_fails law q table =
      checked q.has_sender (is_invalid q.from) (is_invalid q.to)
        (query_page_fails law q (pin_snapshot q.snapshot_seq table) table)
    where
      checked :
          {page : Result RemittanceError (RemittancePage A)} (a b c : Bool)
          → page ≡ err database_error
          → (if not a
              then err unauthorized
              else if b
              then err invalid_from
              else if c
              then err invalid_to
              else page)
            ≡ err (
                if not a
                then unauthorized
                else if b
                then invalid_from
                else if c
                then invalid_to
                else database_error)
      checked false b c e = refl
      checked true true c e = refl
      checked true false true e = refl
      checked true false false e = e
