-- ===== src/Dns/Domain/Valid.antt =====
-- What `validateDomain` accepts.
use private_dns_operator.Prelude.{
  ℕ, ◌≤◌, ◌≡◌, ◌⊎◌, ◌↔◌, refl, true, false, List, [], ◌∷◌, none, length, is_empty, arith, all,
}
use private_dns_operator.Text.{Text}
use private_dns_operator.Text.Split.{split}
use private_dns_operator.Text.Trim.{has_prefix, has_suffix, trim_suffix}
use private_dns_operator.Dns.Domain.{
  dot, label_char, validate_chars, validate_label, validate_labels, validate_domain,
}

-- A lower-case letter of ASCII, a digit or the hyphen.
abbrev pub IsLabelChar : ℕ → Type 0
IsLabelChar c = (97 ≤ c) × (c ≤ 122) ⊎ ((48 ≤ c) × (c ≤ 57) ⊎ (c ≡ 45))

abbrev pub AllLabelChars : Text → Type 0
AllLabelChars [] = Unit
AllLabelChars (c ∷ s) = IsLabelChar c × AllLabelChars s

-- A label of RFC 1123 in lower case.
pub record IsLabel (label : Text) : Type 0 where
  pub not_empty : is_empty label ≡ false
  pub short : length label ≤ 63
  pub no_hyphen_first : has_prefix label (b'-' ∷ []) ≡ false
  pub no_hyphen_last : has_suffix label (b'-' ∷ []) ≡ false
  pub chars : AllLabelChars label

abbrev pub AllLabels : List Text → Type 0
AllLabels [] = Unit
AllLabels (label ∷ labels) = IsLabel label × AllLabels labels

-- A domain, with or without its final dot, of at most 253 bytes and of labels.
pub record IsDomain (domain : Text) : Type 0 where
  pub short : length (trim_suffix domain dot) ≤ 253
  pub labels : AllLabels (split (trim_suffix domain dot) b'.')

char_sound : (c : ℕ) → label_char c ≡ true → IsLabelChar c
unfolding label_char
char_sound c h = ground arith

char_complete : (c : ℕ) → IsLabelChar c → label_char c ≡ true
unfolding label_char
char_complete c h = ground (arith, h)

validate_chars-AllLabelChars : (label s : Text) → validate_chars label s ≡ none → AllLabelChars s
unfolding validate_chars
validate_chars-AllLabelChars label [] h = tt
validate_chars-AllLabelChars label (c ∷ s) h =
    ground (arith, char_sound c, validate_chars-AllLabelChars label s)

AllLabelChars-validate_chars : (label s : Text) → AllLabelChars s → validate_chars label s ≡ none
unfolding validate_chars
AllLabelChars-validate_chars label [] h = refl
AllLabelChars-validate_chars label (c ∷ s) (h, hs) =
    rw (char_complete c h) (AllLabelChars-validate_chars label s hs)

-- The test of the code, for all characters.
pub all-label_char : (s : Text) → AllLabelChars s → all label_char s ≡ true
unfolding all
all-label_char [] h = refl
all-label_char (c ∷ s) (h, hs) = rw (char_complete c h) (all-label_char s hs)

validate_label-IsLabel : (value label : Text) → validate_label value label ≡ none → IsLabel label
unfolding validate_label
validate_label-IsLabel value label h = ground (arith, validate_chars-AllLabelChars label label)

IsLabel-validate_label : (value label : Text) → IsLabel label → validate_label value label ≡ none
unfolding validate_label
IsLabel-validate_label value label h = ground (
  arith,
  h.not_empty,
  h.short,
  h.no_hyphen_first,
  h.no_hyphen_last,
  AllLabelChars-validate_chars label label h.chars,
)

sound : (value : Text) (labels : List Text) → validate_labels value labels ≡ none → AllLabels labels
unfolding validate_labels
sound value [] h = tt
sound value (label ∷ labels) h =
    ground (arith, validate_label-IsLabel value label, sound value labels)

complete :
    (value : Text) (labels : List Text) → AllLabels labels → validate_labels value labels ≡ none
unfolding validate_labels
complete value [] h = refl
complete value (label ∷ labels) (h, hs) =
    rw (IsLabel-validate_label value label h) (complete value labels hs)

-- validateDomain accepts exactly the texts that, without one final dot, have at most 253
-- characters and consist of labels between dots: not empty, at most 63 characters of a to z, 0 to
-- 9 and the hyphen, with no hyphen at either end.
pub validate_domain-iff_IsDomain :
    (domain : Text) → (validate_domain domain ≡ none) ↔ IsDomain domain
unfolding validate_domain
validate_domain-iff_IsDomain domain = (
  λ h. record {
    short = ground arith;
    labels = sound (trim_suffix domain dot) (split (trim_suffix domain dot) b'.') (ground arith);
  },
  λ h. ground (arith, h.short, complete (trim_suffix domain dot) _ h.labels),
)
