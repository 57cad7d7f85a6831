-- ===== src/Dns/Render/Chars.antt =====
-- Newlines in what render.go writes for the parts of a record.
use private_dns_operator.Prelude.{
  ℕ, zero, suc, ◌+◌, ◌/◌, ◌%◌, ◌≡◌, refl, ap, sym, ◌∙◌, Bool, true, false, not, List, [], ◌∷◌, ◌++◌,
  if◌then◌else◌, none, is_empty, eqb, all, all-append, arith,
}
use private_dns_operator.Prelude.Int.{ℤ, pos, negsuc}
use private_dns_operator.Text.{Text}
use private_dns_operator.Text.Split.{lacks}
use private_dns_operator.Text.Quote.{hex_digit, quote_byte, quote_bytes, quote}
use private_dns_operator.Text.Decimal.{digits, format_uint, itoa}
use private_dns_operator.Text.Trim.{
  is_space, trim_left, trim_right, trim, trim_space, trim_suffix, lower, to_lower, fields,
}
use private_dns_operator.Text.Trim.Laws.{fields-no_space}
use private_dns_operator.Dns.Domain.{dot, label_char, normalize_domain, validate_domain}
use private_dns_operator.Dns.Domain.Valid.{validate_domain-iff_IsDomain}
use private_dns_operator.Dns.Domain.Names.{domain_char, domain_chars}
use private_dns_operator.Dns.Render.{relative_name, ensure_trailing_dot}

-- The text is on one line.
abbrev pub is_line : Text → Bool
is_line s = lacks b'\n' s

pub line-append : (s t : Text) → is_line s ≡ true → is_line t ≡ true → is_line (s ++ t) ≡ true
unfolding lacks
line-append s t h k = all-append (λ c. not (eqb c b'\n')) s t ∙ ground arith

pub line-cons : (c : ℕ) (s : Text) → eqb c b'\n' ≡ false → is_line s ≡ true → is_line (c ∷ s) ≡ true
unfolding lacks all
line-cons c s h k = ground arith

-- trimming bytes other than the newline changes nothing
module _ (cut : ℕ → Bool) where
  line_kept_left : (s : Text) → is_line s ≡ true → is_line (trim_left cut s) ≡ true
  unfolding lacks all trim_left
  line_kept_left [] h = refl
  line_kept_left (c ∷ s) h = ground (arith, line_kept_left s)

  line_kept_right : (s : Text) → is_line s ≡ true → is_line (trim_right cut s) ≡ true
  unfolding lacks all trim_right
  line_kept_right [] h = refl
  line_kept_right (c ∷ s) h = ground (arith, line_kept_right s)

  pub line-trim : (s : Text) → is_line s ≡ true → is_line (trim cut s) ≡ true
  unfolding trim
  line-trim s h = line_kept_right (trim_left cut s) (line_kept_left s h)

  line_of_left :
      (s : Text) → cut b'\n' ≡ false → is_line (trim_left cut s) ≡ true → is_line s ≡ true
  unfolding lacks all trim_left
  line_of_left [] e h = refl
  line_of_left (c ∷ s) e h = ground (arith, line_of_left s e, λ (q : c ≡ b'\n'). ap cut q)

  line_of_right :
      (s : Text) → cut b'\n' ≡ false → is_line (trim_right cut s) ≡ true → is_line s ≡ true
  unfolding lacks all trim_right
  line_of_right [] e h = refl
  line_of_right (c ∷ s) e h = ground (arith, line_of_right s e, λ (q : c ≡ b'\n'). ap cut q)

  line_of_trim : (s : Text) → cut b'\n' ≡ false → is_line (trim cut s) ≡ true → is_line s ≡ true
  unfolding trim
  line_of_trim s e h = line_of_left s e (line_of_right (trim_left cut s) e h)

line_of_lower : (s : Text) → is_line (to_lower s) ≡ true → is_line s ≡ true
unfolding lacks all to_lower lower
line_of_lower [] h = refl
line_of_lower (c ∷ s) h = ground (arith, line_of_lower s)

domain-line : (s : Text) → all domain_char s ≡ true → is_line s ≡ true
unfolding lacks all label_char
domain-line [] h = refl
domain-line (c ∷ s) h = ground (arith, domain-line s)

-- the text of a domain between its dots
stem_line :
    (stem : Text)
    → validate_domain (if is_empty stem then dot else stem ++ dot) ≡ none
    → is_line stem ≡ true
unfolding lacks all
stem_line [] h = refl
stem_line (c ∷ s) h =
    domain-line (c ∷ s) (domain_chars (c ∷ s) ((validate_domain-iff_IsDomain (c ∷ s ++ dot)).0 h))

-- A trimmed text whose normal form is a valid domain is on one line.
pub domain_line :
    (given : Text)
    → trim_space given ≡ given
    → validate_domain (normalize_domain given) ≡ none
    → is_line given ≡ true
unfolding normalize_domain
domain_line given e h =
    let lowered = to_lower (trim_space given) in
    let whole =
      line_of_lower (trim_space given)
        (line_of_trim (eqb b'.') lowered refl (stem_line (trim (eqb b'.') lowered) h)) in
    ap is_line (sym e) ∙ whole

hex_digit-big : (n : ℕ) → eqb (hex_digit n) b'\n' ≡ false
unfolding hex_digit
hex_digit-big n = ground arith

quote_byte-line : (c : ℕ) → is_line (quote_byte c) ≡ true
unfolding quote_byte lacks all
quote_byte-line c = ground (arith, hex_digit-big (c / 16), hex_digit-big (c % 16))

quote_bytes-line : (s : Text) → is_line (quote_bytes s) ≡ true
unfolding quote_bytes lacks all
quote_bytes-line [] = refl
quote_bytes-line (c ∷ s) =
    line-append (quote_byte c) (quote_bytes s) (quote_byte-line c) (quote_bytes-line s)

-- A quoted text is on one line.
pub quote-line : (s : Text) → is_line (quote s) ≡ true
unfolding quote lacks all
quote-line s = line-append (quote_bytes s) (b'"' ∷ []) (quote_bytes-line s) refl

digits-line : (fuel n : ℕ) (out : Text) → is_line out ≡ true → is_line (digits fuel n out) ≡ true
unfolding digits lacks all
digits-line zero n out h = h
digits-line (suc fuel) n out h =
    let new : is_line ((b'0' + n % 10) ∷ out) ≡ true =
      line-cons (b'0' + n % 10) out (ground arith) h in
    ground (arith, new, digits-line fuel (n / 10) ((b'0' + n % 10) ∷ out) new)

pub itoa-line : (n : ℤ) → is_line (itoa n) ≡ true
unfolding itoa format_uint
itoa-line (pos n) = digits-line (suc n) n [] (unfold lacks in unfold all in refl)
itoa-line (negsuc n) =
    line-cons b'-' (format_uint (suc n)) refl
      (digits-line (suc (suc n)) (suc n) [] (unfold lacks in unfold all in refl))

no_space-line : (s : Text) → all (λ c. not (is_space c)) s ≡ true → is_line s ≡ true
unfolding lacks all is_space
no_space-line [] h = refl
no_space-line (c ∷ s) h = ground (arith, no_space-line s)

parts_line : (ps : List Text) → all (all (λ c. not (is_space c))) ps ≡ true → all is_line ps ≡ true
unfolding all
parts_line [] h = refl
parts_line (p ∷ ps) h = ground (arith, no_space-line p, parts_line ps)

-- Every part that Fields returns is on one line.
pub fields-line : (s : Text) → all is_line (fields s) ≡ true
fields-line s = parts_line (fields s) (fields-no_space s)

pub ensure_trailing_dot-line :
    (s : Text) → is_line s ≡ true → is_line (ensure_trailing_dot s) ≡ true
unfolding ensure_trailing_dot trim_space
ensure_trailing_dot-line s h =
    let trimmed = line-trim is_space s h in
    let dotted = line-append (trim_space s) dot trimmed (unfold lacks in unfold all in refl) in
    ground (arith, trimmed, dotted)

pub trim_suffix-line : (s t : Text) → is_line s ≡ true → is_line (trim_suffix s t) ≡ true
unfolding trim_suffix lacks all
trim_suffix-line [] t h = refl
trim_suffix-line (c ∷ s) t h = ground (arith, trim_suffix-line s t)

pub relative_name-line : (f zone : Text) → is_line f ≡ true → is_line (relative_name f zone) ≡ true
unfolding relative_name
relative_name-line f zone h =
    let at : is_line (b'@' ∷ []) ≡ true = unfold lacks in unfold all in refl in
    let relative = trim_suffix-line (trim_suffix f zone) dot (trim_suffix-line f zone h) in
    ground (arith, at, relative)
