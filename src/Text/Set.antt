-- ===== src/Text/Set.antt =====
-- Lists of strings read as sets: the membership loop that the program writes by hand
-- (`contains` of internal/coredns/deployment.go and `containsString` of internal/controller), and
-- what sorting and filtering do to it.
use private_dns_operator.Prelude.{
  ◌≡◌, refl, ap, Bool, true, false, ◌&&◌, ◌||◌, List, [], ◌∷◌, ◌++◌, if◌then◌else◌, arith, keep,
  insert_by, sort_by, all,
}
use private_dns_operator.Text.Eq.{Text, ◌==◌, eq_iff, eq_refl}

unfoldable pub contains : List Text → Text → Bool
contains [] want = false
contains (value ∷ values) want = if value == want then true else contains values want

pub contains-cons :
    (v : Text) (vs : List Text) (k : Text) → contains (v ∷ vs) k ≡ ((v == k) || contains vs k)
unfolding contains
contains-cons v vs k = ground arith

pub contains-append :
    (xs ys : List Text) (k : Text) → contains (xs ++ ys) k ≡ (contains xs k || contains ys k)
unfolding contains
contains-append [] ys k = refl
contains-append (x ∷ xs) ys k = ground (arith, contains-append xs ys k)

pub contains-insert_by :
    (less : Text → Text → Bool) (x : Text) (xs : List Text) (k : Text)
    → contains (insert_by less x xs) k ≡ ((x == k) || contains xs k)
unfolding contains insert_by
contains-insert_by less x [] k = ground arith
contains-insert_by less x (y ∷ ys) k = ground (arith, contains-insert_by less x ys k)

-- Sorting keeps the members.
pub contains-sort_by :
    (less : Text → Text → Bool) (xs : List Text) (k : Text)
    → contains (sort_by less xs) k ≡ contains xs k
unfolding contains sort_by
contains-sort_by less [] k = refl
contains-sort_by less (x ∷ xs) k =
    ground (arith, contains-insert_by less x (sort_by less xs) k, contains-sort_by less xs k)

-- Filtering by a test keeps the members that pass it.
pub contains-keep :
    (p : Text → Bool) (xs : List Text) (k : Text) → contains (keep p xs) k ≡ (p k && contains xs k)
unfolding contains keep
contains-keep p [] k = ground arith
contains-keep p (x ∷ xs) k = ground (arith, contains-keep p xs k, eq_iff x k, λ (e : x ≡ k). ap p e)

-- What holds of every element holds of a member.
pub all-contains :
    (p : Text → Bool) (xs : List Text) (k : Text)
    → all p xs ≡ true
    → contains xs k ≡ true
    → p k ≡ true
unfolding contains all
all-contains p [] k h m = cc
all-contains p (x ∷ xs) k h m =
    ground (arith, all-contains p xs k, eq_iff x k, λ (e : x ≡ k). ap p e)

-- What holds of every member holds of every element.
pub all_of_contains :
    (p : Text → Bool) (xs : List Text)
    → ((k : Text) → contains xs k ≡ true → p k ≡ true)
    → all p xs ≡ true
unfolding contains all
all_of_contains p [] h = refl
all_of_contains p (x ∷ xs) h =
    ground
      (arith, h x (ground (arith, eq_refl x)), all_of_contains p xs (λ k m. h k (ground arith)))
