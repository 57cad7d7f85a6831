-- ===== src/Text/Quote.antt =====
-- `strconv.Quote`, which is also the verb `%q`, on ASCII text.
use private_dns_operator.Prelude.{
  ℕ, ◌+◌, ◌-◌, ◌/◌, ◌%◌, ◌&&◌, [], ◌∷◌, ◌++◌, if◌then◌else◌, eqb, leb, ltb,
}
use private_dns_operator.Text.Eq.{Text}

-- A digit of `%x`.
unfoldable pub hex_digit : ℕ → ℕ
hex_digit n = if ltb n 10 then b'0' + n else b'a' + (n - 10)

-- What one byte is written as.
unfoldable pub quote_byte : ℕ → Text
unfolding hex_digit
quote_byte c =
    if eqb c b'"'
    then b'\\' ∷ b'"' ∷ []
    else if eqb c b'\\'
    then b'\\' ∷ b'\\' ∷ []
    else if leb 32 c && ltb c 127
    then c ∷ []
    else if eqb c 7
    then b'\\' ∷ b'a' ∷ []
    else if eqb c 8
    then b'\\' ∷ b'b' ∷ []
    else if eqb c 12
    then b'\\' ∷ b'f' ∷ []
    else if eqb c 10
    then b'\\' ∷ b'n' ∷ []
    else if eqb c 13
    then b'\\' ∷ b'r' ∷ []
    else if eqb c 9
    then b'\\' ∷ b't' ∷ []
    else if eqb c 11
    then b'\\' ∷ b'v' ∷ []
    else b'\\' ∷ b'x' ∷ hex_digit (c / 16) ∷ hex_digit (c % 16) ∷ []

unfoldable pub quote_bytes : Text → Text
unfolding quote_byte
quote_bytes [] = []
quote_bytes (c ∷ s) = quote_byte c ++ quote_bytes s

unfoldable pub quote : Text → Text
unfolding quote_bytes
quote s = b'"' ∷ (quote_bytes s ++ b'"' ∷ [])
