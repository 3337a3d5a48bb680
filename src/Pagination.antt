-- ===== src/Pagination.antt =====
-- Keyset pagination: backend/src/utils/pagination.ts, and its use in `getRemittances` of
-- backend/src/controllers/remittanceController.ts. A table is the list of its rows in the order that the
-- query asks for; times are microseconds in the table, and milliseconds in a cursor, as in JavaScript. The
-- text of a cursor is left out, and the filters of the request are a parameter.
pub mod Cuts
pub mod Walk
pub mod Skipped
pub mod Requests
pub mod Limits
mod Tests
use Prim.Native.String.{String}
use remitlend.Base.{
  ℕ, ◌+◌, ◌*◌, ◌/◌, min, Bool, true, false, ◌&&◌, ◌||◌, Option, none, some, List, [], ◌∷◌, filter,
  length, take, ltb, leb, ◌==◌, if◌then◌else◌,
}

abbrev pub default_limit : ℕ
default_limit = 50

abbrev pub max_limit : ℕ
max_limit = 100

-- A number that `parseInt` gives, which is `none` for `NaN` and infinity; it may be negative.
pub data Parsed : Type 0 where
  not_finite : Parsed
  negative : ℕ → Parsed
  natural : ℕ → Parsed

-- `parsePositiveInteger` of a text, and of anything else.
unfoldable pub parse_positive_integer : Option Parsed → ℕ → Option ℕ → ℕ
parse_positive_integer none fallback _ = fallback
parse_positive_integer (some not_finite) fallback _ = fallback
parse_positive_integer (some (negative _)) fallback _ = fallback
parse_positive_integer (some (natural n)) _ (some max) = min n max
parse_positive_integer (some (natural n)) _ none = n

-- The limit of `parseKeysetParams`; `none` where the request has none.
unfoldable pub parse_keyset_limit : Option Parsed → ℕ
parse_keyset_limit none = default_limit
parse_keyset_limit (some not_finite) = default_limit
parse_keyset_limit (some (negative _)) = default_limit
parse_keyset_limit (some (natural n)) = if ltb n 1 then default_limit else min n max_limit

pub record Row (A : Type 0) : Type 0 where
  pub created_at_us : ℕ
  pub seq : ℕ
  pub content : A

pub record DecodedCursor : Type 0 where
  pub created_at_ms : ℕ
  pub seq : ℕ

-- The cursor of a row: `new Date(row.created_at)` keeps its milliseconds.
abbrev pub cursor_of : {A : Type 0} → Row A → DecodedCursor
cursor_of r = record { created_at_ms = r.created_at_us / 1000; seq = r.seq }

-- `buildKeysetClause`: the rows after the cursor.
abbrev pub is_past : {A : Type 0} → Option DecodedCursor → Row A → Bool
is_past none r = true
is_past (some c) r =
    ltb r.created_at_us (c.created_at_ms * 1000)
    || (r.created_at_us == c.created_at_ms * 1000 && ltb r.seq c.seq)

-- The rows of the snapshot that the filters select.
abbrev pub in_snapshot : {A : Type 0} → (Row A → Bool) → ℕ → Row A → Bool
in_snapshot selected snapshot_seq r = selected r && leb r.seq snapshot_seq

abbrev pub last? : {A : Type 0} → List A → Option A
last? [] = none
last? (x ∷ []) = some x
last? (_ ∷ y ∷ ys) = last? (y ∷ ys)

abbrev pub next_cursor : {A : Type 0} → Option (Row A) → Option DecodedCursor
next_cursor none = none
next_cursor (some r) = some (cursor_of r)

-- The rows that `getRemittances` queries, one more than its limit.
unfoldable pub query_rows :
    {A : Type 0} → (Row A → Bool) → ℕ → ℕ → Option DecodedCursor → List (Row A) → List (Row A)
query_rows selected limit snapshot_seq cursor table =
    take (limit + 1) (filter (λ r. in_snapshot selected snapshot_seq r && is_past cursor r) table)

-- The page and its next cursor, from the rows of the query.
unfoldable pub page_of : {A : Type 0} → ℕ → List (Row A) → List (Row A) × Option DecodedCursor
page_of limit rows =
    if ltb limit (length rows)
    then (take limit rows, next_cursor (last? (take limit rows)))
    else (rows, none)

-- What the handler takes from the query of the rows, for a snapshot that is pinned; Requests has the rest.
unfoldable pub get_page :
    {A : Type 0}
    → (Row A → Bool)
    → ℕ
    → ℕ
    → Option DecodedCursor
    → List (Row A)
    → List (Row A) × Option DecodedCursor
unfolding query_rows page_of
get_page selected limit snapshot_seq cursor table =
    page_of limit (query_rows selected limit snapshot_seq cursor table)
