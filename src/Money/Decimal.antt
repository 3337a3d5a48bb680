-- ===== src/Money/Decimal.antt =====
-- backend/src/money/decimal.ts: `toStroops` and `fromStroops`. A text is the list of its code units.
pub mod Digits
pub mod Writing
pub mod RoundTrip
pub mod Grammar
pub mod Sign
pub mod Total
use remitlend.Base.{
  ℕ, zero, suc, ◌+◌, ◌-◌, ◌*◌, ◌/◌, ◌%◌, ◌^◌, Bool, true, false, not, ◌&&◌, List, [], ◌∷◌, ◌++◌,
  any, length, replicate, leb, ltb, ◌==◌, if◌then◌else◌,
}
use remitlend.Base.Int.{ℤ, pos, negsuc, is_neg, neg, ◌+ℤ◌, ◌*ℤ◌, ◌/ℤ◌, ◌%ℤ◌}
use remitlend.Base.Result.{Result, ok, err, ◌>>=◌}
use remitlend.Money.Rounding.{RoundingMode, MoneyError, invalid_decimal, syntax_error, round_div}

abbrev pub minus_sign : ℕ
minus_sign = b'-'

abbrev pub point : ℕ
point = b'.'

abbrev pub is_digit : ℕ → Bool
is_digit c = leb b'0' c && leb c b'9'

-- `SCALE_DECIMALS` and `SCALE`.
abbrev pub stroop_decimals : ℕ
stroop_decimals = 7

abbrev pub stroop_scale : ℕ
stroop_scale = 10000000

-- What `String.prototype.trim` removes.
abbrev pub is_space : ℕ → Bool
is_space c =
    any (λ s. s == c)
      (9 ∷ 10 ∷ 11 ∷ 12 ∷ 13 ∷ 32 ∷ 160 ∷ 5760 ∷ 8232 ∷ 8233 ∷ 8239 ∷ 8287 ∷ 12288 ∷ 65279 ∷ [])

abbrev pub is_en_space : ℕ → Bool
is_en_space c = leb 8192 c && leb c 8202

abbrev pub trim_start : List ℕ → List ℕ
trim_start [] = []
trim_start (c ∷ cs) =
    let rest = trim_start cs in if is_space c then rest else if is_en_space c then rest else c ∷ cs

-- A space goes when nothing but spaces follows it.
abbrev pub cons_trimmed : ℕ → List ℕ → List ℕ
cons_trimmed c [] = if is_space c then [] else if is_en_space c then [] else c ∷ []
cons_trimmed c (d ∷ ds) = c ∷ d ∷ ds

abbrev pub trim_end : List ℕ → List ℕ
trim_end [] = []
trim_end (c ∷ cs) = cons_trimmed c (trim_end cs)

unfoldable pub trim : List ℕ → List ℕ
trim s = trim_end (trim_start s)

-- The regular expression `/^-?\d+(\.\d+)?$/`, from its end: the digits after the point, the rest of the
-- digits before it, their first digit, and the sign.
abbrev pub all_digits : List ℕ → Bool
all_digits [] = true
all_digits (c ∷ cs) = is_digit c && all_digits cs

abbrev pub some_digits : List ℕ → Bool
some_digits [] = false
some_digits (c ∷ cs) = is_digit c && all_digits cs

abbrev pub digits_and_fraction : List ℕ → Bool
digits_and_fraction [] = true
digits_and_fraction (c ∷ cs) =
    let rest = digits_and_fraction cs in if is_digit c then rest else c == point && some_digits cs

abbrev pub unsigned_decimal : List ℕ → Bool
unsigned_decimal [] = false
unsigned_decimal (c ∷ cs) = is_digit c && digits_and_fraction cs

abbrev pub starts_with_minus : List ℕ → Bool
starts_with_minus [] = false
starts_with_minus (c ∷ cs) = c == minus_sign

abbrev pub slice_one : List ℕ → List ℕ
slice_one [] = []
slice_one (c ∷ cs) = cs

-- `negative ? trimmed.slice(1) : trimmed`.
abbrev pub unsigned_of : List ℕ → List ℕ
unsigned_of s = if starts_with_minus s then slice_one s else s

unfoldable pub is_decimal_string : List ℕ → Bool
is_decimal_string s = unsigned_decimal (unsigned_of s)

-- `unsigned.split('.')`: the first piece, and the pieces after it.
abbrev pub split_point : List ℕ → List ℕ × List (List ℕ)
split_point [] = ([], [])
split_point (c ∷ cs) =
    let rest = split_point cs in if c == point then ([], rest.0 ∷ rest.1) else (c ∷ rest.0, rest.1)

-- The second piece, or the default.
abbrev pub second_piece : List (List ℕ) → List ℕ
second_piece [] = []
second_piece (p ∷ _) = p

-- The number that decimal digits write.
abbrev pub value_from : ℕ → List ℕ → ℕ
value_from acc [] = acc
value_from acc (c ∷ cs) = value_from (acc * 10 + (c - b'0')) cs

abbrev pub value : List ℕ → ℕ
value = value_from 0

-- `BigInt` of a text: the number of its digits, or a `SyntaxError`. The signed, spaced and prefixed literals
-- that it reads too hold what no piece of a decimal holds.
abbrev pub big_int : List ℕ → Result MoneyError ℕ
big_int s = if all_digits s then ok (value s) else err syntax_error

abbrev pub pad_end : ℕ → ℕ → List ℕ → List ℕ
pad_end n c s = s ++ replicate (n - length s) c

abbrev pub pad_start : ℕ → ℕ → List ℕ → List ℕ
pad_start n c s = replicate (n - length s) c ++ s

abbrev pub or_zero : List ℕ → List ℕ
or_zero [] = b'0' ∷ []
or_zero (c ∷ cs) = c ∷ cs

-- `toStroops` from the split of its unsigned text on, before the sign.
unfoldable pub parse_magnitude : RoundingMode → List ℕ → List ℕ → Result MoneyError ℤ
unfolding ◌+ℤ◌ ◌*ℤ◌
parse_magnitude mode whole_raw fraction_raw = big_int (or_zero whole_raw) >>= λ w.
    let whole = pos w in
    if leb (length fraction_raw) stroop_decimals
    then (big_int (or_zero (pad_end stroop_decimals b'0' fraction_raw)) >>= λ f.
        ok (whole *ℤ pos stroop_scale +ℤ pos f))
    else big_int fraction_raw >>= λ f.
        let extra_digits = length fraction_raw - stroop_decimals in
        let den = pos (10 ^ extra_digits) in
        let num = whole *ℤ pos (10 ^ length fraction_raw) +ℤ pos f in round_div num den mode

-- `toStroops` from its sign on, and from its test on.
unfoldable pub parse_signed : RoundingMode → Bool → List ℕ → Result MoneyError ℤ
unfolding parse_magnitude
parse_signed mode negative unsigned =
    let pieces = split_point unsigned in
    parse_magnitude mode pieces.0 (second_piece pieces.1) >>= λ magnitude.
    ok (if negative then neg magnitude else magnitude)

unfoldable pub parse_trimmed : RoundingMode → List ℕ → Result MoneyError ℤ
unfolding is_decimal_string parse_signed
parse_trimmed mode trimmed =
    if not (is_decimal_string trimmed)
    then err invalid_decimal
    else parse_signed mode (starts_with_minus trimmed) (unsigned_of trimmed)

unfoldable pub to_stroops : List ℕ → RoundingMode → Result MoneyError ℤ
unfolding trim parse_trimmed
to_stroops input mode = parse_trimmed mode (trim input)

-- `toString` of a number, on fuel.
abbrev pub digits_on : ℕ → ℕ → List ℕ
digits_on zero n = []
digits_on (suc fuel) n =
    let rest = digits_on fuel (n / 10) in
    if ltb n 10 then (b'0' + n) ∷ [] else rest ++ (b'0' + n % 10) ∷ []

unfoldable pub digits : ℕ → List ℕ
digits n = digits_on (suc n) n

abbrev pub to_string : ℤ → List ℕ
to_string (pos n) = digits n
to_string (negsuc n) = minus_sign ∷ digits (suc n)

unfoldable pub from_stroops : ℤ → List ℕ
unfolding digits ◌/ℤ◌ ◌%ℤ◌
from_stroops v =
    let negative = is_neg v in
    let magnitude = if negative then neg v else v in
    let whole = magnitude /ℤ pos stroop_scale in
    let fraction = pad_start stroop_decimals b'0' (to_string (magnitude %ℤ pos stroop_scale)) in
    (if negative then minus_sign ∷ [] else []) ++ to_string whole ++ point ∷ fraction
