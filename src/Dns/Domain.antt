-- ===== src/Dns/Domain.antt =====
-- The names of internal/dns/record.go: `normalizeDomain`, `validateDomain`, `NormalizeZone`, `FQDN`.
-- A Go error that is nil or not is an `Option` of its text.
pub mod Valid
pub mod Names
pub mod Fqdn
use private_dns_operator.Prelude.{
  ℕ, Bool, true, false, not, ◌&&◌, ◌||◌, List, [], ◌∷◌, ◌++◌, if◌then◌else◌, Option, none, some,
  length, is_empty, eqb, ltb, leb,
}
use private_dns_operator.Text.{Text, ◌==◌, codes}
use private_dns_operator.Text.Quote.{quote, quote_byte}
use private_dns_operator.Text.Split.{split}
use private_dns_operator.Text.Trim.{trim, trim_space, to_lower, trim_suffix, has_prefix, has_suffix}
use private_dns_operator.Kube.{Result, ok, err, message}

-- "." and "-" as strings.
abbrev pub dot : Text
dot = b'.' ∷ []

abbrev hyphen : Text
hyphen = b'-' ∷ []

-- `%q` of a rune.
unfoldable pub quote_rune : ℕ → Text
unfolding quote_byte
quote_rune c =
    let body =
      (if eqb c b'\'' then b'\\' ∷ c ∷ [] else if eqb c b'"' then c ∷ [] else quote_byte c) in
    b'\'' ∷ (body ++ b'\'' ∷ [])

unfoldable pub normalize_domain : Text → Text
unfolding trim trim_space to_lower
normalize_domain value =
    let trimmed = trim (eqb b'.') (to_lower (trim_space value)) in
    if is_empty trimmed then dot else trimmed ++ dot

-- The negation of the test on a rune of a label.
unfoldable pub label_char : ℕ → Bool
label_char r = (leb b'a' r && leb r b'z') || ((leb b'0' r && leb r b'9') || eqb r b'-')

-- The loop over the runes of a label.
unfoldable pub validate_chars : Text → Text → Option Text
unfolding label_char quote quote_rune
validate_chars label [] = none
validate_chars label (r ∷ rs) =
    let rest = validate_chars label rs in
    if label_char r
    then rest
    else some
        (codes "label " ++ (quote label ++ (codes " contains invalid character " ++ quote_rune r)))

-- The body of the loop over the labels.
unfoldable pub validate_label : Text → Text → Option Text
unfolding validate_chars quote has_prefix has_suffix
validate_label value label =
    if is_empty label
    then some (codes "domain " ++ (quote value ++ codes " contains an empty label"))
    else if ltb 63 (length label)
    then some (codes "label " ++ (quote label ++ codes " exceeds 63 characters"))
    else if has_prefix label hyphen || has_suffix label hyphen
    then some (codes "label " ++ (quote label ++ codes " must not start or end with '-'"))
    else validate_chars label label

-- The first error of the two.
unfoldable pub or_else : Option Text → Option Text → Option Text
or_else none rest = rest
or_else (some e) rest = some e

unfoldable pub validate_labels : Text → List Text → Option Text
unfolding validate_label or_else
validate_labels value [] = none
validate_labels value (label ∷ labels) =
    or_else (validate_label value label) (validate_labels value labels)

unfoldable pub validate_domain : Text → Option Text
unfolding validate_labels trim_suffix quote split
validate_domain domain =
    let value = trim_suffix domain dot in
    if ltb 253 (length value)
    then some (codes "domain " ++ (quote value ++ codes " exceeds 253 characters"))
    else validate_labels value (split value b'.')

-- `if err != nil { return "", err }; return value, nil`
unfoldable pub unless_error : Option Text → Text → Result Text
unless_error none value = ok value
unless_error (some e) value = err (message e)

unfoldable pub normalize_zone : Text → Result Text
unfolding normalize_domain validate_domain unless_error
normalize_zone zone =
    let normalized = normalize_domain zone in
    if (normalized == dot) || is_empty normalized
    then err (message (codes "zone must not be empty"))
    else unless_error (validate_domain normalized) normalized

-- FQDN with the normalized zone.
unfoldable pub fqdn_in : Text → Text → Result Text
unfolding normalize_domain validate_domain unless_error trim_space has_suffix quote
fqdn_in given zone =
    let name = trim_space given in
    let absolute = normalize_domain name in
    let relative = normalize_domain (name ++ (dot ++ zone)) in
    if is_empty name || (name == b'@' ∷ [])
    then ok zone
    else if has_suffix name dot
    then (if not (has_suffix absolute (dot ++ zone)) && not (absolute == zone)
        then err (
            message
              (codes "fqdn " ++ (quote absolute ++ (codes " is outside zone " ++ quote zone))))
        else unless_error (validate_domain absolute) absolute)
    else unless_error (validate_domain relative) relative

unfoldable pub fqdn : Text → Text → Result Text
unfolding normalize_zone fqdn_in
fqdn name zone = elim (normalize_zone zone) [ err e ↦ err e | ok zone' ↦ fqdn_in name zone' ]
