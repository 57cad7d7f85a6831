-- ===== src/Text/Sorted.antt =====
-- Sorting a sorted list of strings again: `sort.Strings` of what it has returned.
use private_dns_operator.Prelude.{
  ◌≡◌, refl, ap, ◌∙◌, Bool, true, false, not, ◌&&◌, List, [], ◌∷◌, arith, insert_by, sort_by,
}
use private_dns_operator.Text.{Text, text_lt, sort_texts}

text_lt-asym : (s t : Text) → text_lt s t ≡ true → text_lt t s ≡ false
unfolding text_lt
text_lt-asym [] [] h = cc
text_lt-asym [] (d ∷ t) h = refl
text_lt-asym (c ∷ s) [] h = cc
text_lt-asym (c ∷ s) (d ∷ t) h = ground (arith, text_lt-asym s t)

-- No text comes before the one in front of it.
unfoldable ordered : List Text → Bool
ordered [] = true
ordered (x ∷ []) = true
ordered (x ∷ y ∷ ys) = not (text_lt y x) && ordered (y ∷ ys)

insert-ordered :
    (x : Text) (ys : List Text) → ordered ys ≡ true → ordered (insert_by text_lt x ys) ≡ true
unfolding insert_by ordered
insert-ordered x [] h = refl
insert-ordered x (y ∷ []) h = ground (arith, text_lt-asym y x)
insert-ordered x (y ∷ z ∷ ys) h = ground (arith, text_lt-asym y x, insert-ordered x (z ∷ ys))

insert-fixed :
    (x : Text) (ys : List Text) → ordered (x ∷ ys) ≡ true → insert_by text_lt x ys ≡ x ∷ ys
unfolding insert_by ordered
insert-fixed x [] h = refl
insert-fixed x (y ∷ ys) h = ground arith

ordered-tail : (x : Text) (ys : List Text) → ordered (x ∷ ys) ≡ true → ordered ys ≡ true
unfolding ordered
ordered-tail x [] h = refl
ordered-tail x (y ∷ ys) h = ground arith

sort-ordered : (xs : List Text) → ordered (sort_texts xs) ≡ true
unfolding sort_texts sort_by ordered
sort-ordered [] = refl
sort-ordered (x ∷ xs) = insert-ordered x (sort_by text_lt xs) (sort-ordered xs)

sort-fixed : (xs : List Text) → ordered xs ≡ true → sort_texts xs ≡ xs
unfolding sort_texts sort_by
sort-fixed [] h = refl
sort-fixed (x ∷ xs) h =
    ap (insert_by text_lt x) (sort-fixed xs (ordered-tail x xs h)) ∙ insert-fixed x xs h

-- A sorted list is left as it is.
pub sort_texts-sort_texts : (xs : List Text) → sort_texts (sort_texts xs) ≡ sort_texts xs
sort_texts-sort_texts xs = sort-fixed (sort_texts xs) (sort-ordered xs)
