-- ===== src/Controller/Keys/Same.antt =====
-- The key sets of internal/controller where the previous keys are the wanted ones.
use private_dns_operator.Prelude.{
  ◌≡◌, refl, ap, ◌∙◌, true, false, not, ◌||◌, List, [], ◌∷◌, ◌++◌, arith, keep, insert_by, sort_by,
}
use private_dns_operator.Text.{Text, text_lt, sort_texts}
use private_dns_operator.Text.Eq.{eq_iff, eq_refl}
use private_dns_operator.Text.Set.{contains, contains-insert_by, contains-sort_by}
use private_dns_operator.Text.Map.{Map, keys}
use private_dns_operator.Coredns.ConfigMap.Files.{distinct}
use private_dns_operator.Controller.Keys.{map_keys, subtract_keys, union_loop, union_keys}

distinct-insert_by :
    (x : Text) (ys : List Text)
    → contains ys x ≡ false
    → distinct ys ≡ true
    → distinct (insert_by text_lt x ys) ≡ true
unfolding insert_by distinct contains
distinct-insert_by x [] n h = refl
distinct-insert_by x (y ∷ ys) n h =
    ground
      (arith, distinct-insert_by x ys, contains-insert_by text_lt x ys y, eq_iff x y, eq_iff y x)

distinct-sort_texts : (xs : List Text) → distinct xs ≡ true → distinct (sort_texts xs) ≡ true
unfolding sort_texts sort_by distinct
distinct-sort_texts [] h = refl
distinct-sort_texts (x ∷ xs) h =
    distinct-insert_by x (sort_by text_lt xs) (contains-sort_by text_lt xs x ∙ ground arith)
      (distinct-sort_texts xs (ground arith))

pub distinct-map_keys : (m : Map Text) → distinct (keys m) ≡ true → distinct (map_keys m) ≡ true
unfolding map_keys
distinct-map_keys m h = distinct-sort_texts (keys m) h

union_loop-seen :
    (seen ys : List Text)
    → ((k : Text) → contains ys k ≡ true → contains seen k ≡ true)
    → union_loop seen ys ≡ []
unfolding union_loop contains
union_loop-seen seen [] h = refl
union_loop-seen seen (y ∷ ys) h =
    ground (arith, h y, eq_refl y, union_loop-seen seen ys (λ k m. h k (ground arith)))

union_loop-new :
    (seen xs ys : List Text)
    → distinct xs ≡ true
    → ((k : Text) → contains xs k ≡ true → contains seen k ≡ false)
    → ((k : Text) → contains ys k ≡ true → (contains xs k || contains seen k) ≡ true)
    → union_loop seen (xs ++ ys) ≡ xs
unfolding union_loop contains distinct
union_loop-new seen [] ys d n h = union_loop-seen seen ys h
union_loop-new seen (x ∷ xs) ys d n h =
    let new : contains seen x ≡ false = n x (ground (arith, eq_refl x)) in
    rw new (
      ap (λ (r : List Text). x ∷ r)
        (union_loop-new (x ∷ seen) xs ys (ground arith)
          (λ k m. ground (arith, n k, eq_iff x k, λ (e : x ≡ k). ap (contains xs) e))
          (λ k m. ground (arith, h k m))))

-- Keys that are there already add none, and none of them is left over.
pub union_keys_same : (xs : List Text) → distinct xs ≡ true → union_keys xs xs ≡ sort_texts xs
unfolding union_keys contains
union_keys_same xs d = ap sort_texts (union_loop-new [] xs xs d (λ k m. refl) (λ k m. ground arith))

keep-none :
    (xs ys : List Text)
    → ((k : Text) → contains ys k ≡ true → contains xs k ≡ true)
    → keep (λ key. not (contains xs key)) ys ≡ []
unfolding keep contains
keep-none xs [] h = refl
keep-none xs (y ∷ ys) h =
    ground (arith, h y, eq_refl y, keep-none xs ys (λ k m. h k (ground arith)))

pub subtract_keys_same : (xs : List Text) → subtract_keys xs xs ≡ []
unfolding subtract_keys sort_texts sort_by
subtract_keys_same xs = rw (keep-none xs xs (λ k m. m)) refl
