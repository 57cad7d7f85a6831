-- ===== src/Dns/Render/Relative.antt =====
-- The owner names of a zone file: `relativeName` of internal/dns/render.go, against `FQDN`.
use private_dns_operator.Prelude.{
  ℕ, ◌≡◌, ◌≢◌, refl, ap, sym, ◌∙◌, subst, true, false, List, [], ◌∷◌, ◌++◌, if◌then◌else◌, is_empty,
  eqb, arith, length, length-append, any, all, Bool-cases, inl, inr, append_assoc,
}
use private_dns_operator.Text.{Text, ◌==◌}
use private_dns_operator.Text.Eq.{eq_iff, eq_refl}
use private_dns_operator.Text.Trim.{trim_suffix, has_suffix}
use private_dns_operator.Text.Trim.Laws.{trim_suffix-snoc, has_suffix-split}
use private_dns_operator.Kube.{ok}
use private_dns_operator.Dns.Domain.{dot, label_char, normalize_zone, fqdn}
use private_dns_operator.Dns.Domain.Valid.{IsDomain, AllLabels}
use private_dns_operator.Dns.Domain.Names.{
  IsNormal, normalize_zone-IsNormal, domain_char, domain_chars, IsNormal-not_empty,
}
use private_dns_operator.Text.Split.{split, extend}
use private_dns_operator.Dns.Domain.Fqdn.{InZone, fqdn-InZone}
use private_dns_operator.Dns.Render.{relative_name}

-- How a zone file reads an owner name under `$ORIGIN` (RFC 1035, section 5.1): `@` is the origin, a
-- name with a final dot is complete, and any other is completed by the origin.
unfoldable pub owner : Text → Text → Text
owner name origin =
    if name == b'@' ∷ []
    then origin
    else if has_suffix name dot
    then name
    else name ++ b'.' ∷ origin

longer : (c : ℕ) (p t : Text) → (c ∷ (p ++ t)) ≢ t
longer c p t e =
    let same : length (c ∷ (p ++ t)) ≡ length t = ap length e in omega (arith, length-append p t)

-- A whole suffix is taken off.
pub trim_suffix-append : (p t : Text) → is_empty t ≡ false → trim_suffix (p ++ t) t ≡ p
unfolding trim_suffix
trim_suffix-append [] [] h = cc
trim_suffix-append [] (c ∷ t) h = ground (arith, eq_refl (c ∷ t))
trim_suffix-append (c ∷ p) t h =
    ground (arith, trim_suffix-append p t h, eq_iff (c ∷ (p ++ t)) t, longer c p t)

rest_of : List Text → List Text
rest_of [] = []
rest_of (p ∷ ps) = ps

-- Two dots in a row leave an empty part behind the first part.
gap : (q r : Text) → any is_empty (rest_of (split (q ++ b'.' ∷ b'.' ∷ r) b'.')) ≡ true
unfolding split any extend rest_of
gap [] r = refl
gap (c ∷ q) r = go (split (q ++ b'.' ∷ b'.' ∷ r) b'.') (gap q r)
  where
    go :
        (ps : List Text)
        → any is_empty (rest_of ps) ≡ true
        → any is_empty (rest_of (if eqb c b'.' then [] ∷ ps else extend c ps)) ≡ true
    go [] h = cc
    go (p ∷ ps) h = ground arith

no_empty_part : (ps : List Text) → AllLabels ps → any is_empty (rest_of ps) ≡ false
unfolding any rest_of
no_empty_part [] h = refl
no_empty_part (p ∷ []) h = refl
no_empty_part (p ∷ q ∷ ps) (h, hs) =
    let first = hs.0 in ground (arith, first.not_empty, no_empty_part (q ∷ ps) hs)

doubled :
    (p q stem : Text) → p ≡ q ++ dot → p ++ b'.' ∷ (stem ++ dot) ≡ (q ++ b'.' ∷ b'.' ∷ stem) ++ dot
doubled p q stem e =
    rw e (append_assoc q dot (b'.' ∷ (stem ++ dot)) ∙ sym (append_assoc q (b'.' ∷ b'.' ∷ stem) dot))

no_gap : (q stem : Text) → ¬ (IsDomain ((q ++ b'.' ∷ b'.' ∷ stem) ++ dot))
no_gap q stem valid =
    let labels = rw (trim_suffix-snoc (q ++ b'.' ∷ b'.' ∷ stem) b'.') at valid.labels in
    let none_empty = no_empty_part (split (q ++ b'.' ∷ b'.' ∷ stem) b'.') labels in
    absurd (cc (sym none_empty ∙ gap q stem))

-- What stands in front of a dot and the rest of a valid domain does not end in a dot.
no_dot_before : (p stem : Text) → IsDomain (p ++ b'.' ∷ (stem ++ dot)) → has_suffix p dot ≡ false
no_dot_before p stem valid = elim (Bool-cases (has_suffix p dot)) [
  | inl e ↦
      let (q, shape) = has_suffix-split p dot e in
      absurd (no_gap q stem (subst IsDomain (doubled p q stem shape) valid))
  | inr e ↦ e
]

at_sign : (s : Text) → all domain_char (b'@' ∷ s) ≡ false
unfolding all label_char
at_sign s = refl

not_at : (p stem : Text) → IsDomain (p ++ b'.' ∷ (stem ++ dot)) → (p == b'@' ∷ []) ≡ false
not_at p stem valid = elim (Bool-cases (p == b'@' ∷ [])) [
  | inl e ↦
      let is_at = (eq_iff p (b'@' ∷ [])).0 e in
      let chars =
        domain_chars (p ++ b'.' ∷ stem)
          (subst IsDomain (sym (append_assoc p (b'.' ∷ stem) dot)) valid) in
      absurd (cc (sym (rw is_at at chars) ∙ at_sign (b'.' ∷ stem)))
  | inr e ↦ e
]

not_zone : (p n : Text) → (p ++ b'.' ∷ n == n) ≡ false
not_zone p n = elim (Bool-cases (p ++ b'.' ∷ n == n)) [
  | inl e ↦
      let same : length (p ++ b'.' ∷ n) ≡ length n = ap length ((eq_iff (p ++ b'.' ∷ n) n).0 e) in
      absurd (omega (arith, length-append p (b'.' ∷ n)))
  | inr e ↦ e
]

-- Below the zone, the labels in front of it are the owner name.
relative_name-below : (p n : Text) → is_empty n ≡ false → relative_name (p ++ b'.' ∷ n) n ≡ p
unfolding relative_name
relative_name-below p n h =
    rw
      (
        not_zone p n,
        ap (λ s. trim_suffix s n) (sym (append_assoc p dot n)),
        trim_suffix-append (p ++ dot) n h,
      )
      (trim_suffix-snoc p b'.')

owner-below :
    (p n : Text) → (p == b'@' ∷ []) ≡ false → has_suffix p dot ≡ false → owner p n ≡ p ++ b'.' ∷ n
unfolding owner
owner-below p n at_free dot_free = rw (at_free, dot_free) refl

at_origin : (n : Text) → owner (relative_name n n) n ≡ n
unfolding owner relative_name
at_origin n = rw (eq_refl n) (unfold ◌==◌ in refl)

below :
    (p n : Text)
    → IsNormal n
    → IsDomain (p ++ b'.' ∷ n)
    → owner (relative_name (p ++ b'.' ∷ n) n) n ≡ p ++ b'.' ∷ n
below p n normal valid =
    let valid' = subst (λ s. IsDomain (p ++ b'.' ∷ s)) normal.form.shape valid in
    rw (relative_name-below p n (IsNormal-not_empty n normal))
      (owner-below p n (not_at p normal.form.stem valid') (no_dot_before p normal.form.stem valid'))

in_zone : (f n : Text) → IsNormal n → IsDomain f → InZone f n → owner (relative_name f n) n ≡ f
in_zone f n normal valid (inl e) = rw e (at_origin n)
in_zone f n normal valid (inr (p, e)) = rw e (below p n normal (subst IsDomain e valid))

same_zone : (zone m n : Text) → normalize_zone zone ≡ ok m → normalize_zone zone ≡ ok n → m ≡ n
same_zone zone m n h k = cc

-- A name that FQDN returns for a zone, written by relativeName under the normalized zone as origin
-- and read by the rules of zone files, is that name again.
pub owner-relative_name :
    (name zone f n : Text)
    → fqdn name zone ≡ ok f
    → normalize_zone zone ≡ ok n
    → owner (relative_name f n) n ≡ f
owner-relative_name name zone f n h e =
    let (m, normalizes, valid, place) = fqdn-InZone name zone f h in
    in_zone f n (normalize_zone-IsNormal zone n e) valid
      (subst (InZone f) (same_zone zone m n normalizes e) place)
