-- ===== src/Pagination/Limits.antt =====
-- The limits that backend/src/utils/pagination.ts parses.
use remitlend.Base.{◌≤◌, Option, none, some, arith}
use remitlend.Pagination.{
  Parsed, not_finite, negative, natural, parse_positive_integer, parse_keyset_limit, default_limit,
  max_limit,
}

-- Whatever a request asks for, a keyset page is of one to a hundred rows, and an offset page of at most a
-- hundred.
pub limits_bounded :
    (p : Option Parsed)
    → (1 ≤ parse_keyset_limit p)
      × (parse_keyset_limit p ≤ max_limit)
      × (parse_positive_integer p default_limit (some max_limit) ≤ max_limit)
unfolding parse_keyset_limit parse_positive_integer
limits_bounded none = (omega arith, omega arith, omega arith)
limits_bounded (some not_finite) = (omega arith, omega arith, omega arith)
limits_bounded (some (negative n)) = (omega arith, omega arith, omega arith)
limits_bounded (some (natural n)) = (ground arith, ground arith, omega arith)
