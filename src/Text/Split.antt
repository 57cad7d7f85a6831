-- ===== src/Text/Split.antt =====
-- `strings.Split` and `strings.Join` with a separator of one byte, and their round trips.
use private_dns_operator.Prelude.{
  ℕ, ◌≡◌, ◌≢◌, refl, ap, Bool, true, not, List, [], ◌∷◌, ◌++◌, if◌then◌else◌, eqb, all, arith,
  append_assoc,
}
use private_dns_operator.Text.Eq.{Text}

-- `c` in front of the first part.
unfoldable pub extend : ℕ → List Text → List Text
extend c [] = (c ∷ []) ∷ []
extend c (p ∷ ps) = (c ∷ p) ∷ ps

unfoldable pub split : Text → ℕ → List Text
unfolding extend
split [] sep = [] ∷ []
split (c ∷ s) sep = let rest = split s sep in if eqb c sep then [] ∷ rest else extend c rest

unfoldable pub join : List Text → ℕ → Text
join [] sep = []
join (p ∷ []) sep = p
join (p ∷ q ∷ ps) sep = p ++ sep ∷ join (q ∷ ps) sep

-- `sep` does not occur in the text.
unfoldable pub lacks : ℕ → Text → Bool
unfolding all
lacks sep = all (λ c. not (eqb c sep))

pub split-ne-nil : (s : Text) (sep : ℕ) → split s sep ≢ []
unfolding split
split-ne-nil [] sep h = cc
split-ne-nil (c ∷ s) sep h = lemma (split s sep) h
  where
    lemma : (r : List Text) → (if eqb c sep then [] ∷ r else extend c r) ≢ []
    lemma [] e = ground arith
    lemma (p ∷ ps) e = ground arith

module _ (sep : ℕ) where
  split-lacks : (p : Text) → lacks sep p ≡ true → split p sep ≡ p ∷ []
  unfolding split lacks
  split-lacks [] h = refl
  split-lacks (c ∷ p) h = ground (arith, split-lacks p)

  pub split-at_sep :
      (p rest : Text) → lacks sep p ≡ true → split (p ++ sep ∷ rest) sep ≡ p ∷ split rest sep
  unfolding split lacks
  split-at_sep [] rest h = ground arith
  split-at_sep (c ∷ p) rest h = ground (arith, split-at_sep p rest)

  -- Splitting a join gives the parts back, if there is a part and none holds the separator.
  pub split-join :
      (p : Text) (ps : List Text)
      → all (lacks sep) (p ∷ ps) ≡ true
      → split (join (p ∷ ps) sep) sep ≡ p ∷ ps
  unfolding join all
  split-join p [] h = split-lacks p (ground arith)
  split-join p (q ∷ ps) h =
      rw (split-at_sep p (join (q ∷ ps) sep) (ground arith))
        (ap (λ (r : List Text). p ∷ r) (split-join q ps (ground arith)))

  -- So does splitting what has one more part behind it, up to that part.
  pub split-join_sep :
      (p : Text) (ps : List Text) (rest : Text)
      → all (lacks sep) (p ∷ ps) ≡ true
      → split (join (p ∷ ps) sep ++ sep ∷ rest) sep ≡ p ∷ (ps ++ split rest sep)
  unfolding join all
  split-join_sep p [] rest h = split-at_sep p rest (ground arith)
  split-join_sep p (q ∷ ps) rest h =
      rw
        (
          append_assoc p (sep ∷ join (q ∷ ps) sep) (sep ∷ rest),
          split-at_sep p (join (q ∷ ps) sep ++ sep ∷ rest) (ground arith),
        )
        (ap (λ (r : List Text). p ∷ r) (split-join_sep q ps rest (ground arith)))

-- `strings.Join` with any separator.
unfoldable pub join_by : List Text → Text → Text
join_by [] sep = []
join_by (p ∷ []) sep = p
join_by (p ∷ q ∷ ps) sep = p ++ (sep ++ join_by (q ∷ ps) sep)
