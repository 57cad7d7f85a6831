-- ===== src/Dns/Domain/Fqdn.antt =====
-- `FQDN` returns valid names of the zone.
use private_dns_operator.Prelude.{
  ℕ, ◌≡◌, ◌⊎◌, inl, inr, refl, ap, subst, sym, ◌∙◌, true, false, not, ◌&&◌, ◌||◌, [], ◌∷◌, ◌++◌,
  is_empty, eqb, arith, all, append_assoc, Bool-cases,
}
use private_dns_operator.Text.{Text, ◌==◌}
use private_dns_operator.Text.Eq.{eq_iff}
use private_dns_operator.Text.Trim.{
  is_space, trim_left, trim_right, trim, trim_space, lower, to_lower, has_suffix,
}
use private_dns_operator.Text.Trim.Laws.{
  trim-trim, trim_left-trim, trim_right-append, trim_left-append, trim_right_lacking, trim-snoc,
  trim_right-trim, has_suffix-split, to_lower-append,
}
use private_dns_operator.Kube.{Result, ok, err}
use private_dns_operator.Dns.Domain.{
  dot, normalize_domain, validate_domain, unless_error, normalize_zone, fqdn_in, fqdn,
}
use private_dns_operator.Dns.Domain.Valid.{IsDomain}
use private_dns_operator.Dns.Domain.Names.{
  domain_char, no_space, domain_chars_dot, lowered, normal_form, unless_error-ok, IsNormal,
  normalized-IsNormal, normalize_zone-IsNormal,
}

-- The name of the zone, or labels in front of a dot and the name of the zone.
abbrev pub InZone : Text → Text → Type 0
InZone name zone = (name ≡ zone) ⊎ ((p : Text) × (name ≡ p ++ b'.' ∷ zone))

-- a text that is all dots in lower case ends in a dot
all_dots :
    (s : Text)
    → is_empty (trim_left (eqb b'.') (to_lower s)) ≡ true
    → is_empty s ≡ false
    → has_suffix s dot ≡ true
unfolding trim_left to_lower has_suffix lower ◌==◌
all_dots [] h e = cc
all_dots (c ∷ []) h e = ground arith
all_dots (c ∷ d ∷ s) h e = ground (arith, all_dots (d ∷ s))

checked :
    (s f : Text)
    → unless_error (validate_domain (normalize_domain s)) (normalize_domain s) ≡ ok f
    → IsDomain f × (normalize_domain s ≡ f)
checked s f h =
    let (valid, e) =
      unless_error-ok (validate_domain (normalize_domain s)) (normalize_domain s) f h in
    ((normalized-IsNormal s f valid e).valid, e)

append-not_empty : (s : Text) (c : ℕ) (t : Text) → is_empty (s ++ c ∷ t) ≡ false
append-not_empty [] c t = refl
append-not_empty (d ∷ s) c t = refl

module _ (n : Text) (zone : IsNormal n) where
  abbrev stem : Text
  stem = zone.form.stem

  valid_stem : IsDomain (stem ++ dot)
  valid_stem = rw zone.form.shape at zone.valid

  zone_chars : all domain_char n ≡ true
  zone_chars = rw zone.form.shape (domain_chars_dot stem valid_stem)

  lowered_n : to_lower n ≡ n
  lowered_n = ap to_lower zone.form.shape ∙ lowered stem valid_stem ∙ sym zone.form.shape

  -- the zone behind a dot has nothing to trim
  zone_spaces : trim_right is_space (b'.' ∷ n) ≡ b'.' ∷ n
  zone_spaces =
      trim_right_lacking is_space (b'.' ∷ n)
        (unfold all is_space in ground (arith, no_space n zone_chars))

  spaces :
      (s : Text)
      → trim_space s ≡ s
      → is_empty s ≡ false
      → trim_space (s ++ b'.' ∷ n) ≡ s ++ b'.' ∷ n
  unfolding trim_space trim
  spaces s e h =
      let left : trim_left is_space s ≡ s =
        ap (trim_left is_space) (sym e) ∙ trim_left-trim is_space s ∙ e in
      ap (trim_right is_space) (
        trim_left-append is_space s (b'.' ∷ n) (ap is_empty left ∙ h)
        ∙ ap (λ (r : Text). r ++ b'.' ∷ n) left)
      ∙ trim_right-append is_space s (b'.' ∷ n) (ap is_empty zone_spaces)
      ∙ ap (λ (r : Text). s ++ r) zone_spaces

  lowered_zone : (s : Text) → to_lower (s ++ b'.' ∷ n) ≡ to_lower s ++ b'.' ∷ n
  lowered_zone s =
      to_lower-append s (b'.' ∷ n)
      ∙ ap (λ (r : Text). to_lower s ++ r)
          (unfold to_lower lower in ap (λ (r : Text). b'.' ∷ r) lowered_n)

  stem_dots : trim_right (eqb b'.') (b'.' ∷ stem) ≡ b'.' ∷ stem
  unfolding trim_right
  stem_dots =
      let right : trim_right (eqb b'.') stem ≡ stem =
        ap (trim_right (eqb b'.')) (sym zone.form.trimmed)
        ∙ trim_right-trim (eqb b'.') stem
        ∙ zone.form.trimmed in
      rw right (ground (arith, zone.form.not_empty))

  dots :
      (x : Text)
      → is_empty (trim_left (eqb b'.') x) ≡ false
      → trim (eqb b'.') (x ++ b'.' ∷ n) ≡ trim_left (eqb b'.') x ++ b'.' ∷ stem
  dots x h =
      ap (λ (r : Text). trim (eqb b'.') (x ++ b'.' ∷ r)) zone.form.shape
      ∙ ap (trim (eqb b'.')) (sym (append_assoc x (b'.' ∷ stem) dot))
      ∙ trim-snoc (eqb b'.') (x ++ b'.' ∷ stem) b'.' refl
      ∙ (unfold trim in
          ap (trim_right (eqb b'.')) (trim_left-append (eqb b'.') x (b'.' ∷ stem) h)
          ∙ trim_right-append (eqb b'.') (trim_left (eqb b'.') x) (b'.' ∷ stem)
              (ap is_empty stem_dots)
          ∙ ap (λ (r : Text). trim_left (eqb b'.') x ++ r) stem_dots)

  -- a relative name with the zone behind it normalizes to a name of the zone
  relative :
      (s : Text)
      → trim_space s ≡ s
      → is_empty s ≡ false
      → has_suffix s dot ≡ false
      → normalize_domain (s ++ b'.' ∷ n) ≡ trim_left (eqb b'.') (to_lower s) ++ b'.' ∷ n
  relative s e h no_dot =
      let x = to_lower s in
      let rest = trim_left (eqb b'.') x in
      let some_left : is_empty rest ≡ false = ground (arith, all_dots s) in
      normal_form (s ++ b'.' ∷ n) (rest ++ b'.' ∷ stem)
        (ap (λ (r : Text). trim (eqb b'.') (to_lower r)) (spaces s e h)
          ∙ ap (trim (eqb b'.')) (lowered_zone s)
          ∙ dots x some_left)
        (append-not_empty rest b'.' stem)
      ∙ append_assoc rest (b'.' ∷ stem) dot
      ∙ ap (λ (r : Text). rest ++ b'.' ∷ r) (sym zone.form.shape)

  inside : (f : Text) → (not (has_suffix f (b'.' ∷ n)) && not (f == n)) ≡ false → InZone f n
  inside f h = elim (Bool-cases (f == n)) [
    | inl e ↦ inl ((eq_iff f n).0 e)
    | inr e ↦ inr (has_suffix-split f (b'.' ∷ n) (ground arith))
  ]

  absolute_name :
      (name f : Text)
      → (not (has_suffix (normalize_domain name) (b'.' ∷ n)) && not (normalize_domain name == n))
        ≡ false
      → unless_error (validate_domain (normalize_domain name)) (normalize_domain name) ≡ ok f
      → IsDomain f × InZone f n
  absolute_name name f test h =
      let (valid, e) = checked name f h in (valid, subst (λ t. InZone t n) e (inside _ test))

  relative_name :
      (name f : Text)
      → trim_space name ≡ name
      → is_empty name ≡ false
      → has_suffix name dot ≡ false
      → unless_error
          (validate_domain (normalize_domain (name ++ b'.' ∷ n)))
          (normalize_domain (name ++ b'.' ∷ n))
        ≡ ok f
      → IsDomain f × InZone f n
  relative_name name f e some_name no_dot h =
      let (valid, shape) = checked (name ++ b'.' ∷ n) f h in
      (valid, inr (_, sym shape ∙ relative name e some_name no_dot))

  apex : (f : Text) → n ≡ f → IsDomain f × InZone f n
  apex f e = (subst IsDomain e zone.valid, inl (sym e))

  fqdn_in-InZone : (given f : Text) → fqdn_in given n ≡ ok f → IsDomain f × InZone f n
  unfolding fqdn_in
  fqdn_in-InZone given f h =
      let name = trim_space given in
      elim (Bool-cases (is_empty name || (name == b'@' ∷ []))) [
        | inl at_apex ↦ apex f (ground arith)
        | inr other ↦ elim (Bool-cases (has_suffix name dot)) [
          | inl absolute ↦ absolute_name name f (ground arith) (ground arith)
          | inr not_absolute ↦
              relative_name name f (unfold trim_space in trim-trim is_space given) (ground arith)
                not_absolute (ground arith)
        ]
      ]

-- A name that FQDN returns is a valid domain, and is the normalized zone or labels in front of a
-- dot and the normalized zone.
pub fqdn-InZone :
    (name zone f : Text)
    → fqdn name zone ≡ ok f
    → (n : Text) × (normalize_zone zone ≡ ok n) × IsDomain f × InZone f n
unfolding fqdn
fqdn-InZone name zone f h = go (normalize_zone zone) refl h
  where
    go :
        (r : Result Text)
        → normalize_zone zone ≡ r
        → (elim r [ err e ↦ err e | ok zone' ↦ fqdn_in name zone' ]) ≡ ok f
        → (n : Text) × (r ≡ ok n) × IsDomain f × InZone f n
    go (ok n) e q =
        let (valid, inside) = fqdn_in-InZone n (normalize_zone-IsNormal zone n e) name f q in
        (n, refl, valid, inside)
    go (err x) e q = absurd (ground arith)
