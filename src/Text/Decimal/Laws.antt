-- ===== src/Text/Decimal/Laws.antt =====
-- Numbers that are printed are read back.
use private_dns_operator.Prelude.{
  ℕ, zero, suc, ◌+◌, ◌*◌, ◌/◌, ◌%◌, ◌<◌, ◌≤◌, ◌≡◌, refl, ap, ◌∙◌, false, [], ◌∷◌, ltb, is_empty,
  some, arith, Bool-cases, inl, inr,
}
use private_dns_operator.Text.Eq.{Text}
use private_dns_operator.Text.Decimal.{
  digits, format_uint, digits_value, is_digit, parse_uint32, max_uint32,
}

-- One digit in front.
digits_value-digit :
    (n m : ℕ) (out : Text)
    → digits_value ((b'0' + n % 10) ∷ out) m ≡ digits_value out (m * 10 + n % 10)
unfolding digits_value is_digit
digits_value-digit n m out = ground arith

last_digit : (n : ℕ) → n / 10 * 10 + n % 10 ≡ n
last_digit n = omega arith

-- Fuel above `n` is enough for all digits of `n`.
digits_value-digits :
    (fuel n : ℕ) (out : Text) → n < fuel → digits_value (digits fuel n out) 0 ≡ digits_value out n
unfolding digits
digits_value-digits zero n out h = absurd (omega arith)
digits_value-digits (suc fuel) n out h = elim (Bool-cases (ltb n 10)) [
  | inl small ↦ rw (small, digits_value-digit n 0 out) (ap (digits_value out) (ground arith))
  | inr big ↦ rw big (
      digits_value-digits fuel (n / 10) ((b'0' + n % 10) ∷ out) (ground arith)
      ∙ digits_value-digit n (n / 10) out
      ∙ ap (digits_value out) (last_digit n))
]

digits-not_empty : (fuel n c : ℕ) (out : Text) → is_empty (digits fuel n (c ∷ out)) ≡ false
unfolding digits
digits-not_empty zero n c out = refl
digits-not_empty (suc fuel) n c out =
    ground (arith, digits-not_empty fuel (n / 10) (b'0' + n % 10) (c ∷ out))

pub format_uint-not_empty : (n : ℕ) → is_empty (format_uint n) ≡ false
unfolding format_uint digits
format_uint-not_empty n = ground (arith, digits-not_empty n (n / 10) (b'0' + n % 10) [])

digits_value-format_uint : (n : ℕ) → digits_value (format_uint n) 0 ≡ some n
unfolding format_uint digits_value
digits_value-format_uint n = digits_value-digits (suc n) n [] (omega arith)

-- A number of 32 bits survives being printed and read.
pub parse_uint32-format_uint : (n : ℕ) → n ≤ max_uint32 → parse_uint32 (format_uint n) ≡ some n
unfolding parse_uint32
parse_uint32-format_uint n h =
    rw (parse_uint32, format_uint-not_empty n, digits_value-format_uint n) (ground arith)
