-- ===== src/Text/Replace.antt =====
-- `strings.Replace(s, old, new, 1)`, `strings.Index`, and slices from the start and to the end.
pub mod Laws
use private_dns_operator.Prelude.{
  ℕ, zero, suc, [], ◌∷◌, ◌++◌, if◌then◌else◌, length, Option, none, some, is_empty,
}
use private_dns_operator.Text.Eq.{Text}
use private_dns_operator.Text.Trim.{has_prefix}

unfoldable pub take : ℕ → Text → Text
take zero s = []
take (suc n) [] = []
take (suc n) (c ∷ s) = c ∷ take n s

unfoldable pub drop : ℕ → Text → Text
drop zero s = s
drop (suc n) [] = []
drop (suc n) (c ∷ s) = drop n s

-- `old` is not empty where the program calls it.
unfoldable pub replace_first : Text → Text → Text → Text
unfolding has_prefix drop
replace_first [] old new = []
replace_first (c ∷ s) old new =
    let rest = replace_first s old new in
    if has_prefix (c ∷ s) old then new ++ drop (length old) (c ∷ s) else c ∷ rest

unfoldable pub next_index : Option ℕ → Option ℕ
next_index none = none
next_index (some n) = some (suc n)

-- `strings.Index`, with `none` for -1.
unfoldable pub index : Text → Text → Option ℕ
unfolding has_prefix next_index
index [] sought = if is_empty sought then some 0 else none
index (c ∷ s) sought =
    let later = next_index (index s sought) in if has_prefix (c ∷ s) sought then some 0 else later
