-- ===== src/Text/Trim.antt =====
-- `strings.TrimSpace`, `Trim`, `TrimRight`, `TrimSuffix`, `HasPrefix`, `HasSuffix`, `ToLower` and
-- `Fields`.
pub mod Laws
use private_dns_operator.Prelude.{
  ℕ, ◌+◌, Bool, true, false, ◌&&◌, ◌||◌, List, [], ◌∷◌, ◌++◌, map, if◌then◌else◌, eqb, leb,
  is_empty,
}
use private_dns_operator.Text.Eq.{Text, ◌==◌}

-- The white space of ASCII: tab, newline, vertical tab, form feed, carriage return and space.
unfoldable pub is_space : ℕ → Bool
is_space c = eqb c b' ' || (leb 9 c && leb c 13)

module _ (cut : ℕ → Bool) where
  unfoldable pub trim_left : Text → Text
  trim_left [] = []
  trim_left (c ∷ s) = let rest = trim_left s in if cut c then rest else c ∷ s

  unfoldable pub trim_right : Text → Text
  trim_right [] = []
  trim_right (c ∷ s) = let rest = trim_right s in if is_empty rest && cut c then [] else c ∷ rest

  unfoldable pub trim : Text → Text
  unfolding trim_left trim_right
  trim s = trim_right (trim_left s)

unfoldable pub trim_space : Text → Text
unfolding trim is_space
trim_space = trim is_space

-- `strings.HasPrefix`.
unfoldable pub has_prefix : Text → Text → Bool
has_prefix s [] = true
has_prefix [] (d ∷ t) = false
has_prefix (c ∷ s) (d ∷ t) = eqb c d && has_prefix s t

-- `strings.HasSuffix`.
unfoldable pub has_suffix : Text → Text → Bool
unfolding ◌==◌
has_suffix [] t = is_empty t
has_suffix (c ∷ s) t = ((c ∷ s) == t) || has_suffix s t

-- `strings.TrimSuffix`.
unfoldable pub trim_suffix : Text → Text → Text
unfolding ◌==◌
trim_suffix [] t = []
trim_suffix (c ∷ s) t = let rest = trim_suffix s t in if (c ∷ s) == t then [] else c ∷ rest

unfoldable pub lower : ℕ → ℕ
lower c = if leb b'A' c && leb c b'Z' then c + 32 else c

-- `strings.ToLower`.
unfoldable pub to_lower : Text → Text
unfolding lower
to_lower = map lower

-- `strings.Fields`: the maximal runs without white space. The first argument is the run so far.
fields_from : Text → Text → List Text
unfolding is_space
fields_from run [] = if is_empty run then [] else run ∷ []
fields_from run (c ∷ s) =
    let after = fields_from [] s in
    let inside = fields_from (run ++ c ∷ []) s in
    if is_space c then (if is_empty run then after else run ∷ after) else inside

unfoldable pub fields : Text → List Text
unfolding fields_from
fields = fields_from []
