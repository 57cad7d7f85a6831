-- ===== src/Text/Decimal.antt =====
-- `strconv.FormatUint`, `strconv.Itoa` and `strconv.ParseUint` in base ten.
pub mod Laws
use private_dns_operator.Prelude.{
  ◌-◌, ◌^◌, ◌*◌, Bool, true, false, ◌&&◌, leb, is_empty, Option, none, some, ℕ, zero, suc, ◌+◌, ◌/◌,
  ◌%◌, [], ◌∷◌, if◌then◌else◌, ltb,
}
use private_dns_operator.Prelude.Int.{ℤ, pos, negsuc}
use private_dns_operator.Text.Eq.{Text}

abbrev pub max_uint32 : ℕ
max_uint32 = 2 ^ 32 - 1

-- The digits of `n` in front of `out`; the fuel is more than the number of digits.
unfoldable pub digits : ℕ → ℕ → Text → Text
digits zero n out = out
digits (suc fuel) n out =
    let out' = (b'0' + n % 10) ∷ out in
    let rest = digits fuel (n / 10) out' in if ltb n 10 then out' else rest

-- `n + 1` rounds are enough, as every round but the last makes `n` smaller.
unfoldable pub format_uint : ℕ → Text
unfolding digits
format_uint n = digits (suc n) n []

unfoldable pub itoa : ℤ → Text
unfolding format_uint
itoa (pos n) = format_uint n
itoa (negsuc n) = b'-' ∷ format_uint (suc n)

unfoldable pub is_digit : ℕ → Bool
is_digit c = leb b'0' c && leb c b'9'

-- The number that digits spell behind `n`, if all bytes are digits.
unfoldable pub digits_value : Text → ℕ → Option ℕ
unfolding is_digit
digits_value [] n = some n
digits_value (c ∷ s) n =
    let rest = digits_value s (n * 10 + (c - b'0')) in if is_digit c then rest else none

-- `strconv.ParseUint(s, 10, 32)`, with `none` for an error.
unfoldable pub parse_uint32 : Text → Option ℕ
unfolding digits_value
parse_uint32 s = if is_empty s then none else elim (digits_value s 0) [
  | none ↦ none
  | some n ↦ if leb n max_uint32 then some n else none
]
