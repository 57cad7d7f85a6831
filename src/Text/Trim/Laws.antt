-- ===== src/Text/Trim/Laws.antt =====
-- Laws of trimming, suffixes and lower case.
use private_dns_operator.Prelude.{
  ℕ, ◌≡◌, ◌≢◌, refl, ap, sym, ◌∙◌, Bool, true, false, not, ◌&&◌, [], ◌∷◌, ◌++◌, if◌then◌else◌, all,
  all-append, is_empty, arith, inl, inr, Bool-cases,
}
use private_dns_operator.Text.Eq.{Text, ◌==◌, eq_iff, eq_refl}
use private_dns_operator.Text.Trim.{
  trim_left, trim_right, trim, has_suffix, trim_suffix, lower, to_lower, is_space, fields_from,
  fields,
}

module _ (cut : ℕ → Bool) where
  pub trim_left-trim_right :
      (s : Text) → trim_left cut (trim_right cut s) ≡ trim_right cut (trim_left cut s)
  unfolding trim_left trim_right
  trim_left-trim_right [] = refl
  trim_left-trim_right (c ∷ s) = ground (arith, trim_left-trim_right s)

  trim_left-trim_left : (s : Text) → trim_left cut (trim_left cut s) ≡ trim_left cut s
  unfolding trim_left
  trim_left-trim_left [] = refl
  trim_left-trim_left (c ∷ s) = ground (arith, trim_left-trim_left s)

  pub trim_right-trim_right : (s : Text) → trim_right cut (trim_right cut s) ≡ trim_right cut s
  unfolding trim_right
  trim_right-trim_right [] = refl
  trim_right-trim_right (c ∷ s) = ground (arith, trim_right-trim_right s)

  -- Trimming twice is trimming once.
  pub trim-trim : (s : Text) → trim cut (trim cut s) ≡ trim cut s
  unfolding trim
  trim-trim s =
      rw (trim_left-trim_right (trim_left cut s), trim_right-trim_right, trim_left-trim_left)

  pub trim_left-trim : (s : Text) → trim_left cut (trim cut s) ≡ trim cut s
  unfolding trim
  trim_left-trim s =
      trim_left-trim_right (trim_left cut s) ∙ ap (trim_right cut) (trim_left-trim_left s)

  pub trim_right-trim : (s : Text) → trim_right cut (trim cut s) ≡ trim cut s
  unfolding trim
  trim_right-trim s = trim_right-trim_right (trim_left cut s)

  -- A byte of the set at the end is trimmed away.
  pub trim_right-snoc :
      (s : Text) (c : ℕ) → cut c ≡ true → trim_right cut (s ++ c ∷ []) ≡ trim_right cut s
  unfolding trim_right
  trim_right-snoc [] c h = ground arith
  trim_right-snoc (d ∷ s) c h = ground (arith, trim_right-snoc s c h)

  pub trim-snoc : (s : Text) (c : ℕ) → cut c ≡ true → trim cut (s ++ c ∷ []) ≡ trim cut s
  unfolding trim
  trim-snoc s c h =
      sym (trim_left-trim_right (s ++ c ∷ []))
      ∙ ap (trim_left cut) (trim_right-snoc s c h)
      ∙ trim_left-trim_right s

  -- Where something is left of `t`, what stands in front of it is kept.
  pub trim_right-append :
      (s t : Text)
      → is_empty (trim_right cut t) ≡ false
      → trim_right cut (s ++ t) ≡ s ++ trim_right cut t
  unfolding trim_right
  trim_right-append [] t h = refl
  trim_right-append (c ∷ s) t h =
      rw (trim_right-append s t h) (unfold trim_right in keep s (trim_right cut t) h)
    where
      keep :
          (s r : Text)
          → is_empty r ≡ false
          → (if is_empty (s ++ r) && cut c then [] else c ∷ (s ++ r)) ≡ c ∷ (s ++ r)
      keep [] r e = ground arith
      keep (d ∷ s) r e = refl

  pub trim_left-append :
      (s t : Text)
      → is_empty (trim_left cut s) ≡ false
      → trim_left cut (s ++ t) ≡ trim_left cut s ++ t
  unfolding trim_left
  trim_left-append [] t h = cc
  trim_left-append (c ∷ s) t h = ground (arith, trim_left-append s t)

  trim_left_lacking : (s : Text) → all (λ c. not (cut c)) s ≡ true → trim_left cut s ≡ s
  unfolding trim_left all
  trim_left_lacking [] h = refl
  trim_left_lacking (c ∷ s) h = ground arith

  pub trim_right_lacking : (s : Text) → all (λ c. not (cut c)) s ≡ true → trim_right cut s ≡ s
  unfolding trim_right all
  trim_right_lacking [] h = refl
  trim_right_lacking (c ∷ s) h = ground (arith, trim_right_lacking s)

  -- A text without a byte of the set is left as it is.
  pub trim-lacking : (s : Text) → all (λ c. not (cut c)) s ≡ true → trim cut s ≡ s
  unfolding trim
  trim-lacking s h = ap (trim_right cut) (trim_left_lacking s h) ∙ trim_right_lacking s h

is_empty_iff : (s : Text) → is_empty s ≡ true → s ≡ []
is_empty_iff [] h = refl
is_empty_iff (c ∷ s) h = cc

-- What HasSuffix finds is there.
pub has_suffix-split : (s t : Text) → has_suffix s t ≡ true → (p : Text) × (s ≡ p ++ t)
unfolding has_suffix
has_suffix-split [] t h = ([], sym (is_empty_iff t h))
has_suffix-split (c ∷ s) t h = elim (Bool-cases ((c ∷ s) == t)) [
  | inl e ↦ ([], (eq_iff (c ∷ s) t).0 e)
  | inr n ↦ let (p, q) = has_suffix-split s t (ground arith) in (c ∷ p, ap (λ (r : Text). c ∷ r) q)
]

-- A suffix is found.
pub has_suffix-append : (p t : Text) → has_suffix (p ++ t) t ≡ true
unfolding has_suffix
has_suffix-append [] [] = refl
has_suffix-append [] (d ∷ t) = ground (arith, eq_refl (d ∷ t))
has_suffix-append (c ∷ p) t = ground (arith, has_suffix-append p t)

cons-ne-snoc : (c : ℕ) (s : Text) (d : ℕ) → (c ∷ (s ++ d ∷ [])) ≢ d ∷ []
cons-ne-snoc c [] d e = cc
cons-ne-snoc c (b ∷ s) d e = cc

-- TrimSuffix of one byte takes off a last byte.
pub trim_suffix-snoc : (s : Text) (d : ℕ) → trim_suffix (s ++ d ∷ []) (d ∷ []) ≡ s
unfolding trim_suffix
trim_suffix-snoc [] d = ground (arith, eq_refl (d ∷ []))
trim_suffix-snoc (c ∷ s) d =
    ground (arith, trim_suffix-snoc s d, eq_iff (c ∷ (s ++ d ∷ [])) (d ∷ []), cons-ne-snoc c s d)

pub to_lower-append : (s t : Text) → to_lower (s ++ t) ≡ to_lower s ++ to_lower t
unfolding to_lower
to_lower-append [] t = refl
to_lower-append (c ∷ s) t = ap (λ (r : Text). lower c ∷ r) (to_lower-append s t)

fields_from-no_space :
    (run s : Text)
    → all (λ c. not (is_space c)) run ≡ true
    → all (all (λ c. not (is_space c))) (fields_from run s) ≡ true
unfolding fields_from all
fields_from-no_space [] [] h = refl
fields_from-no_space (d ∷ run) [] h = ground arith
fields_from-no_space run (c ∷ s) h = ground (
  arith,
  fields_from-no_space [] s refl,
  fields_from-no_space (run ++ c ∷ []) s,
  all-append (λ d. not (is_space d)) run (c ∷ []),
)

-- No part that Fields returns has white space in it.
pub fields-no_space : (s : Text) → all (all (λ c. not (is_space c))) (fields s) ≡ true
unfolding fields all
fields-no_space s = fields_from-no_space [] s refl
