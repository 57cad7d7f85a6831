-- ===== src/Net.antt =====
-- `net.ParseIP`, `IP.To4` and the acceptance of `strconv.Atoi` of the Go standard library.
pub mod Chars
use private_dns_operator.Prelude.{
  ℕ, zero, suc, ◌+◌, ◌-◌, ◌*◌, ◌/◌, ◌%◌, ◌^◌, Bool, true, false, not, ◌&&◌, ◌||◌, List, [], ◌∷◌,
  ◌++◌, if◌then◌else◌, Option, none, some, is_empty, ◌≡◌, refl, length, eqb, ltb, leb, all,
}
use private_dns_operator.Text.Decimal.{is_digit, digits_value}
use private_dns_operator.Text.{Text, codes}

-- The loop of `parseIPv4Fields`: `fresh` says that the byte before was a dot or is missing.
v4_loop : Text → Bool → ℕ → ℕ → ℕ → List ℕ → Option (List ℕ)
unfolding is_digit
v4_loop [] fresh val pos dig_len fields = if ltb pos 3 then none else some (fields ++ val ∷ [])
v4_loop (c ∷ s) fresh val pos dig_len fields =
    let val' = val * 10 + (c - b'0') in
    let digit = v4_loop s false val' pos (dig_len + 1) fields in
    let next = v4_loop s true 0 (pos + 1) 0 (fields ++ val ∷ []) in
    if is_digit c
    then (if (eqb dig_len 1 && eqb val 0) || ltb 255 val' then none else digit)
    else if eqb c b'.'
    then (if fresh || is_empty s || eqb pos 3 then none else next)
    else none

unfoldable pub parse_ipv4 : Text → Option (List ℕ)
unfolding v4_loop
parse_ipv4 s = v4_loop s true 0 0 0 []

unfoldable pub hex_value : ℕ → Option ℕ
hex_value c =
    if leb b'0' c && leb c b'9'
    then some (c - b'0')
    else if leb b'a' c && leb c b'f'
    then some (c - b'a' + 10)
    else if leb b'A' c && leb c b'F'
    then some (c - b'A' + 10)
    else none

-- A group of at most four hexadecimal digits: its value, their number, and the rest.
hex_group : Text → ℕ → ℕ → Option (ℕ × ℕ × Text)
unfolding hex_value
hex_group [] acc off = some (acc, off, [])
hex_group (c ∷ s) acc off = elim (hex_value c) [
  | none ↦ some (acc, off, c ∷ s)
  | some v ↦ if ltb 3 off then none else hex_group s (acc * 16 + v) (off + 1)
]

-- What the loop over the groups ends with: the bytes, where the ellipsis stands, and the rest.
record Groups : Type 0 where
  bytes : List ℕ
  ellipsis : Option ℕ
  rest : Text

abbrev is_some : Option ℕ → Bool
is_some none = false
is_some (some _) = true

-- After a group: a colon, perhaps an ellipsis, and the loop again.
after_group : (Text → List ℕ → Option ℕ → Option Groups) → Text → List ℕ → Option ℕ → Option Groups
after_group again [] bytes ellipsis =
    some (record { bytes = bytes; ellipsis = ellipsis; rest = [] })
after_group again (c ∷ []) bytes ellipsis = none
after_group again (c ∷ d ∷ s) bytes ellipsis =
    let here = some (length bytes) in
    if not (eqb c b':')
    then none
    else if not (eqb d b':')
    then again (d ∷ s) bytes ellipsis
    else if is_some ellipsis
    then none
    else if is_empty s
    then some (record { bytes = bytes; ellipsis = here; rest = [] })
    else again s bytes here

-- A trailing IPv4 address in place of two groups.
v4_tail : Text → List ℕ → Option ℕ → Option Groups
unfolding parse_ipv4
v4_tail s bytes ellipsis =
    if (not (is_some ellipsis) && not (eqb (length bytes) 12)) || ltb 12 (length bytes)
    then none
    else elim (parse_ipv4 s) [
      | none ↦ none
      | some fields ↦ some (record { bytes = bytes ++ fields; ellipsis = ellipsis; rest = [] })
    ]

-- `for i < 16`: the first argument counts the groups that fit.
v6_loop : ℕ → Text → List ℕ → Option ℕ → Option Groups
unfolding hex_group after_group v4_tail
v6_loop zero s bytes ellipsis = some (record { bytes = bytes; ellipsis = ellipsis; rest = s })
v6_loop (suc left) s bytes ellipsis = elim (hex_group s 0 0) [
  | none ↦ none
  | some (acc, off, []) ↦
      if eqb off 0
      then none
      else some
          (record { bytes = bytes ++ acc / 256 ∷ acc % 256 ∷ []; ellipsis = ellipsis; rest = [] })
  | some (acc, off, c ∷ rest) ↦
      if eqb off 0
      then none
      else if eqb c b'.'
      then v4_tail s bytes ellipsis
      else after_group (v6_loop left) (c ∷ rest) (bytes ++ acc / 256 ∷ acc % 256 ∷ []) ellipsis
]

unfoldable pub zeros : ℕ → List ℕ
zeros zero = []
zeros (suc n) = 0 ∷ zeros n

-- `fill` in front of what stands behind place `at`.
expand : ℕ → List ℕ → List ℕ → List ℕ
expand zero fill bytes = fill ++ bytes
expand (suc at) fill [] = fill
expand (suc at) fill (b ∷ bytes) = b ∷ expand at fill bytes

-- Sixteen bytes, or a refusal.
finish : Groups → Option (List ℕ)
unfolding zeros expand
finish g =
    let i = length g.bytes in
    if not (is_empty g.rest)
    then none
    else if ltb i 16
    then elim g.ellipsis [ none ↦ none | some at ↦ some (expand at (zeros (16 - i)) g.bytes) ]
    else if is_some g.ellipsis
    then none
    else some g.bytes

-- A leading ellipsis; `none` is the address `::`.
leading_ellipsis : Text → Option (Text × Option ℕ)
leading_ellipsis (c ∷ d ∷ s) =
    if not (eqb c b':' && eqb d b':')
    then some (c ∷ d ∷ s, none)
    else if is_empty s
    then none
    else some (s, some 0)
leading_ellipsis s = some (s, none)

-- `parseIPv6`. A zone, `%` and what follows, makes `net.ParseIP` return nil, as it does here.
unfoldable pub parse_ipv6 : Text → Option (List ℕ)
unfolding v6_loop finish zeros leading_ellipsis
parse_ipv6 s = elim (leading_ellipsis s) [
  | none ↦ some (zeros 16)
  | some (s', ellipsis) ↦ elim (v6_loop 8 s' [] ellipsis) [ none ↦ none | some g ↦ finish g ]
]

-- The sixteen bytes of an IPv4 address.
unfoldable pub v4_in_6 : List ℕ → List ℕ
unfolding zeros
v4_in_6 fields = zeros 10 ++ 255 ∷ 255 ∷ fields

v4_bytes : Option (List ℕ) → Option (List ℕ)
unfolding v4_in_6
v4_bytes none = none
v4_bytes (some fields) = some (v4_in_6 fields)

-- `netip.ParseAddr`: the first dot, colon or percent sign decides. `whole` is the text.
parse_addr : Text → Text → Option (List ℕ)
unfolding parse_ipv4 parse_ipv6 v4_bytes
parse_addr whole [] = none
parse_addr whole (c ∷ s) =
    let rest = parse_addr whole s in
    let v4 = v4_bytes (parse_ipv4 whole) in
    if eqb c b'.'
    then v4
    else if eqb c b':'
    then parse_ipv6 whole
    else if eqb c b'%'
    then none
    else rest

-- `net.ParseIP`: sixteen bytes, or nil.
unfoldable pub parse_ip : Text → Option (List ℕ)
unfolding parse_addr
parse_ip s = parse_addr s s

-- `ip.To4() != nil` on sixteen bytes.
unfoldable pub is_to4 : List ℕ → Bool
is_to4 (b0 ∷ b1 ∷ b2 ∷ b3 ∷ b4 ∷ b5 ∷ b6 ∷ b7 ∷ b8 ∷ b9 ∷ b10 ∷ b11 ∷ rest) =
    all (λ b. eqb b 0) (b0 ∷ b1 ∷ b2 ∷ b3 ∷ b4 ∷ b5 ∷ b6 ∷ b7 ∷ b8 ∷ b9 ∷ [])
    && (eqb b10 255 && eqb b11 255)
is_to4 _ = false

-- Digits whose value is at most `bound`.
bounded_digits : Text → ℕ → Bool
unfolding digits_value
bounded_digits s bound =
    not (is_empty s) && elim (digits_value s 0) [ none ↦ false | some n ↦ leb n bound ]

-- `strconv.Atoi` returns no error: an optional sign and the digits of a 64-bit integer.
unfoldable pub atoi_ok : Text → Bool
unfolding bounded_digits
atoi_ok [] = false
atoi_ok (c ∷ s) =
    if eqb c b'-'
    then bounded_digits s (2 ^ 63)
    else if eqb c b'+'
    then bounded_digits s (2 ^ 63 - 1)
    else bounded_digits (c ∷ s) (2 ^ 63 - 1)

v4_address : parse_ip (codes "10.0.0.255") ≡ some (v4_in_6 (10 ∷ 0 ∷ 0 ∷ 255 ∷ []))
unfolding parse_ip v4_in_6
v4_address = refl

v4_refused :
    (parse_ip (codes "10.0.0.256") ≡ none)
    × (parse_ip (codes "10.0.01.1") ≡ none)
    × (parse_ip (codes "10.0.0") ≡ none)
    × (parse_ip (codes "") ≡ none)
unfolding parse_ip
v4_refused = (refl, refl, refl, refl)

v6_address :
    parse_ip (codes "2001:db8::1")
    ≡ some (0x20 ∷ 1 ∷ 0xd ∷ 0xb8 ∷ 0 ∷ 0 ∷ 0 ∷ 0 ∷ 0 ∷ 0 ∷ 0 ∷ 0 ∷ 0 ∷ 0 ∷ 0 ∷ 1 ∷ [])
unfolding parse_ip
v6_address = refl

v6_mapped : parse_ip (codes "::ffff:10.0.0.1") ≡ some (v4_in_6 (10 ∷ 0 ∷ 0 ∷ 1 ∷ []))
unfolding parse_ip v4_in_6
v6_mapped = refl

v6_refused :
    (parse_ip (codes "1::2::3") ≡ none)
    × (parse_ip (codes "fe80::1%eth0") ≡ none)
    × (parse_ip (codes "12345::") ≡ none)
    × (parse_ip (codes "1:2:3:4:5:6:7") ≡ none)
unfolding parse_ip
v6_refused = (refl, refl, refl, refl)
