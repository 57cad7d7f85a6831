-- ===== src/Dns/Domain/Names.antt =====
-- `NormalizeZone` is idempotent, and `FQDN` returns valid names of the zone.
use private_dns_operator.Prelude.{
  ℕ, ◌≡◌, inl, inr, refl, ap₂, subst, Bool, true, false, not, ◌&&◌, ◌||◌, List, [], ◌∷◌, ◌++◌,
  Option, none, some, is_empty, eqb, arith, all, all-append, and_split, Bool-cases,
}
use private_dns_operator.Text.{Text, ◌==◌}
use private_dns_operator.Text.Eq.{eq_iff}
use private_dns_operator.Text.Split.{split, extend}
use private_dns_operator.Text.Trim.{is_space, trim, trim_space, lower, to_lower, trim_suffix}
use private_dns_operator.Text.Trim.Laws.{trim-trim, trim-snoc, trim-lacking, trim_suffix-snoc}
use private_dns_operator.Kube.{ok}
use private_dns_operator.Dns.Domain.{
  dot, label_char, normalize_domain, validate_domain, unless_error, normalize_zone,
}
use private_dns_operator.Dns.Domain.Valid.{
  all-label_char, AllLabels, IsDomain, validate_domain-iff_IsDomain,
}

-- A byte of a normalized domain.
abbrev pub domain_char : ℕ → Bool
domain_char c = label_char c || eqb c b'.'

all-extend :
    (p : ℕ → Bool) (c : ℕ) (ps : List Text) → all (all p) (extend c ps) ≡ (p c && all (all p) ps)
unfolding extend all
all-extend p c [] = ground arith
all-extend p c (q ∷ ps) = ground arith

chars_of_parts : (v : Text) → all (all label_char) (split v b'.') ≡ true → all domain_char v ≡ true
unfolding split all
chars_of_parts [] h = refl
chars_of_parts (c ∷ v) h = ground (arith, chars_of_parts v, all-extend label_char c (split v b'.'))

parts_of_labels : (ps : List Text) → AllLabels ps → all (all label_char) ps ≡ true
unfolding all
parts_of_labels [] h = refl
parts_of_labels (p ∷ ps) (h, hs) = ground (arith, all-label_char p h.chars, parts_of_labels ps hs)

-- bytes of a domain are neither white space nor upper case
domain_char-no_space : (c : ℕ) → domain_char c ≡ true → is_space c ≡ false
unfolding label_char is_space
domain_char-no_space c h = ground arith

domain_char-lower : (c : ℕ) → domain_char c ≡ true → lower c ≡ c
unfolding label_char lower
domain_char-lower c h = ground arith

pub no_space : (v : Text) → all domain_char v ≡ true → all (λ c. not (is_space c)) v ≡ true
unfolding all
no_space [] h = refl
no_space (c ∷ v) h = ground (arith, domain_char-no_space c, no_space v)

lower_fixed : (v : Text) → all domain_char v ≡ true → to_lower v ≡ v
unfolding all to_lower
lower_fixed [] h = refl
lower_fixed (c ∷ v) h =
    let (hc, hv) = and_split (domain_char c) (all domain_char v) h in
    ap₂ (λ (d : ℕ) (r : Text). d ∷ r) (domain_char-lower c hc) (lower_fixed v hv)

pub dot-chars : all domain_char dot ≡ true
unfolding all label_char
dot-chars = refl

-- the text without the final dot
module _ (v : Text) (valid : IsDomain (v ++ dot)) where
  pub domain_chars : all domain_char v ≡ true
  domain_chars =
      chars_of_parts v (parts_of_labels (split v b'.') (rw trim_suffix-snoc at valid.labels))

  pub domain_chars_dot : all domain_char (v ++ dot) ≡ true
  domain_chars_dot = rw all-append (ground (arith, domain_chars, dot-chars))

  -- trimming white space and lowering leave such a text alone
  pub spaced : trim_space (v ++ dot) ≡ v ++ dot
  unfolding trim_space
  spaced = trim-lacking is_space (v ++ dot) (no_space (v ++ dot) domain_chars_dot)

  pub lowered : to_lower (v ++ dot) ≡ v ++ dot
  lowered = lower_fixed (v ++ dot) domain_chars_dot

-- `normalizeDomain` in terms of the text without its dots.
pub normal_form :
    (s t : Text)
    → trim (eqb b'.') (to_lower (trim_space s)) ≡ t
    → is_empty t ≡ false
    → normalize_domain s ≡ t ++ dot
unfolding normalize_domain
normal_form s t e h = ground (arith, e)

normal_form-fixed :
    (t : Text)
    → trim (eqb b'.') t ≡ t
    → is_empty t ≡ false
    → IsDomain (t ++ dot)
    → normalize_domain (t ++ dot) ≡ t ++ dot
normal_form-fixed t e h valid =
    normal_form (t ++ dot) t
      (rw (spaced t valid, lowered t valid, trim-snoc (eqb b'.') t b'.' refl) e) h

no_empty-IsDomain : ¬ (IsDomain dot)
no_empty-IsDomain h = unfold trim_suffix split ◌==◌ in ground (arith, h.labels)

-- The text that `normalizeDomain` returns, without the final dot.
pub record NormalForm (domain : Text) : Type 0 where
  pub stem : Text
  pub shape : domain ≡ stem ++ dot
  pub trimmed : trim (eqb b'.') stem ≡ stem
  pub not_empty : is_empty stem ≡ false

normalize_domain-NormalForm :
    (s : Text) → IsDomain (normalize_domain s) → NormalForm (normalize_domain s)
normalize_domain-NormalForm s h =
    let t = trim (eqb b'.') (to_lower (trim_space s)) in
    elim (Bool-cases (is_empty t)) [
      | inl e ↦ absurd (no_empty-IsDomain (rw (only_dot s e) at h))
      | inr e ↦ record {
        stem = t;
        shape = normal_form s t refl e;
        trimmed = trim-trim (eqb b'.') (to_lower (trim_space s));
        not_empty = e;
      }
    ]
  where
    only_dot :
        (s : Text)
        → is_empty (trim (eqb b'.') (to_lower (trim_space s))) ≡ true
        → normalize_domain s ≡ dot
    only_dot s e = unfold normalize_domain in ground arith

-- A valid normalized domain is left as it is.
pub normalize_domain-fixed : (n : Text) → NormalForm n → IsDomain n → normalize_domain n ≡ n
normalize_domain-fixed n form valid =
    rw form.shape (normal_form-fixed form.stem form.trimmed form.not_empty (rw form.shape at valid))

pub unless_error-ok :
    (o : Option Text) (v n : Text) → unless_error o v ≡ ok n → (o ≡ none) × (v ≡ n)
unfolding unless_error
unless_error-ok none v n h = ground arith
unless_error-ok (some e) v n h = cc

-- A name that the operator uses: normalized and valid.
pub record IsNormal (n : Text) : Type 0 where
  pub form : NormalForm n
  pub valid : IsDomain n

pub normalized-IsNormal :
    (s n : Text) → validate_domain (normalize_domain s) ≡ none → normalize_domain s ≡ n → IsNormal n
normalized-IsNormal s n h e =
    let valid = (validate_domain-iff_IsDomain (normalize_domain s)).0 h in
    subst IsNormal e (record { form = normalize_domain-NormalForm s valid; valid = valid })

-- What NormalizeZone returns is normalized and valid.
pub normalize_zone-IsNormal : (zone n : Text) → normalize_zone zone ≡ ok n → IsNormal n
unfolding normalize_zone
normalize_zone-IsNormal zone n h =
    let (none_found, e) =
      unless_error-ok (validate_domain (normalize_domain zone)) (normalize_domain zone) n
        (ground arith) in
    normalized-IsNormal zone n none_found e

IsNormal-ne_dot : (n : Text) → IsNormal n → (n == dot) ≡ false
IsNormal-ne_dot n h = elim (Bool-cases (n == dot)) [
  | inl e ↦ absurd (no_empty-IsDomain (rw ((eq_iff n dot).0 e) at h.valid))
  | inr e ↦ e
]

pub snoc-not_empty : (s : Text) (c : ℕ) → is_empty (s ++ c ∷ []) ≡ false
snoc-not_empty [] c = refl
snoc-not_empty (d ∷ s) c = refl

pub IsNormal-not_empty : (n : Text) → IsNormal n → is_empty n ≡ false
IsNormal-not_empty n h = rw h.form.shape (snoc-not_empty h.form.stem b'.')

-- NormalizeZone accepts what is normalized and valid, and returns it as it is.
pub normalize_zone-fixed : (n : Text) → IsNormal n → normalize_zone n ≡ ok n
unfolding normalize_zone unless_error
normalize_zone-fixed n h = rw (normalize_domain-fixed n h.form h.valid) (
    ground (
      arith,
      IsNormal-ne_dot n h,
      IsNormal-not_empty n h,
      (validate_domain-iff_IsDomain n).1 h.valid,
    ))

-- Where NormalizeZone returns without an error, it returns a valid domain, and returns that domain
-- unchanged when it is given it.
pub normalize_zone_idem :
    (zone n : Text) → normalize_zone zone ≡ ok n → (normalize_zone n ≡ ok n) × IsDomain n
normalize_zone_idem zone n h =
    let normal = normalize_zone-IsNormal zone n h in (normalize_zone-fixed n normal, normal.valid)
