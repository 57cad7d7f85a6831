-- ===== src/Text/Replace/Laws.antt =====
-- Where a text is found, and the slices around it.
use private_dns_operator.Prelude.{
  ℕ, ◌≡◌, refl, ap, true, [], ◌∷◌, ◌++◌, length, Option, none, some, all, arith,
}
use private_dns_operator.Text.Eq.{Text}
use private_dns_operator.Text.Split.{lacks}
use private_dns_operator.Text.Trim.{has_prefix}
use private_dns_operator.Text.Replace.{take, drop, index, next_index}

pub take-append : (s t : Text) → take (length s) (s ++ t) ≡ s
unfolding take
take-append [] t = refl
take-append (c ∷ s) t = ap (λ (r : Text). c ∷ r) (take-append s t)

pub drop-append : (s t : Text) → drop (length s) (s ++ t) ≡ t
unfolding drop
drop-append [] t = refl
drop-append (c ∷ s) t = drop-append s t

has_prefix-append : (s t : Text) → has_prefix (s ++ t) s ≡ true
unfolding has_prefix
has_prefix-append [] t = refl
has_prefix-append (c ∷ s) t = ground (arith, has_prefix-append s t)

-- A text without the byte `c` does not reach over a `c`.
has_prefix-over :
    (f : Text) (c : ℕ) (x s : Text) → lacks c s ≡ true → has_prefix (f ++ c ∷ x) s ≡ has_prefix f s
unfolding has_prefix lacks all
has_prefix-over [] c x [] h = refl
has_prefix-over [] c x (e ∷ s) h = ground arith
has_prefix-over (d ∷ f) c x [] h = refl
has_prefix-over (d ∷ f) c x (e ∷ s) h = ground (arith, has_prefix-over f c x s)

next_index-none : (o : Option ℕ) → next_index o ≡ none → o ≡ none
unfolding next_index
next_index-none none h = refl
next_index-none (some n) h = cc

module _ (c : ℕ) (s : Text) (once : lacks c s ≡ true) where
  later : (d : ℕ) (f : Text) → index (d ∷ f) (c ∷ s) ≡ none → index f (c ∷ s) ≡ none
  unfolding index next_index
  later d f h = ground (arith, next_index-none (index f (c ∷ s)))

  -- A text of which the first byte does not come again is found at once behind a text that does not
  -- have it.
  pub index-append :
      (front back : Text)
      → index front (c ∷ s) ≡ none
      → index (front ++ ((c ∷ s) ++ back)) (c ∷ s) ≡ some (length front)
  unfolding index has_prefix
  index-append [] back h = rw (has_prefix-append s back) (ground arith)
  index-append (d ∷ front) back h =
      rw (has_prefix-over front c (s ++ back) s once, index-append front back (later d front h))
        (ground arith)
