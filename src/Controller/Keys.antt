-- ===== src/Controller/Keys.antt =====
-- The key sets of internal/controller: `mapKeys`, `subtractKeys`, `unionKeys`, `containsString` and
-- `removeString`, with their meaning as sets.
pub mod Same
use private_dns_operator.Prelude.{
  ◌≡◌, refl, ap, not, ◌&&◌, ◌||◌, List, [], ◌∷◌, ◌++◌, if◌then◌else◌, keep, arith,
}
use private_dns_operator.Text.{Text, ◌==◌, text_lt, sort_texts}
use private_dns_operator.Text.Eq.{eq_iff}
use private_dns_operator.Text.Set.{contains, contains-append, contains-keep, contains-sort_by}
use private_dns_operator.Text.Map.{Map, keys, has, contains-keys}

unfoldable pub map_keys : Map Text → List Text
unfolding keys sort_texts
map_keys values = sort_texts (keys values)

-- `subtractKeys(from, remove)`
unfoldable pub subtract_keys : List Text → List Text → List Text
unfolding keep sort_texts
subtract_keys source removed = sort_texts (keep (λ key. not (contains removed key)) source)

-- The loop of `unionKeys`: `seen` holds the keys that `out` has.
union_loop : List Text → List Text → List Text
union_loop seen [] = []
union_loop seen (key ∷ keys) =
    let skip = union_loop seen keys in
    let take = key ∷ union_loop (key ∷ seen) keys in if contains seen key then skip else take

unfoldable pub union_keys : List Text → List Text → List Text
unfolding union_loop sort_texts
union_keys a b = sort_texts (union_loop [] (a ++ b))

unfoldable pub remove_string : List Text → Text → List Text
unfolding keep
remove_string values removed = keep (λ value. not (value == removed)) values

pub contains-sort_texts : (xs : List Text) (k : Text) → contains (sort_texts xs) k ≡ contains xs k
unfolding sort_texts
contains-sort_texts xs k = contains-sort_by text_lt xs k

pub contains-map_keys : (m : Map Text) (k : Text) → contains (map_keys m) k ≡ has k m
unfolding map_keys
contains-map_keys m k = ground (arith, contains-sort_texts (keys m) k, contains-keys k m)

pub contains-subtract_keys :
    (a b : List Text) (k : Text)
    → contains (subtract_keys a b) k ≡ (not (contains b k) && contains a k)
unfolding subtract_keys
contains-subtract_keys a b k = ground (
  arith,
  contains-sort_texts (keep (λ key. not (contains b key)) a) k,
  contains-keep (λ key. not (contains b key)) a k,
)

contains-union_loop :
    (seen xs : List Text) (k : Text)
    → (contains seen k || contains (union_loop seen xs) k) ≡ (contains seen k || contains xs k)
unfolding union_loop contains
contains-union_loop seen [] k = refl
contains-union_loop seen (x ∷ xs) k = ground (
  arith,
  contains-union_loop seen xs k,
  contains-union_loop (x ∷ seen) xs k,
  eq_iff x k,
  λ (e : x ≡ k). ap (contains seen) e,
)

pub contains-union_keys :
    (a b : List Text) (k : Text) → contains (union_keys a b) k ≡ (contains a k || contains b k)
unfolding union_keys contains
contains-union_keys a b k = ground (
  arith,
  contains-sort_texts (union_loop [] (a ++ b)) k,
  contains-union_loop [] (a ++ b) k,
  contains-append a b k,
)

pub contains-remove_string :
    (values : List Text) (removed k : Text)
    → contains (remove_string values removed) k ≡ (not (k == removed) && contains values k)
unfolding remove_string
contains-remove_string values removed k = contains-keep (λ value. not (value == removed)) values k
