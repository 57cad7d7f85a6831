-- ===== src/Prelude/Lists.antt =====
-- Lists measured by native numbers, Boolean quantifiers over a list, and a stable sort.
use Prim.Native.Nat.{ℕ, suc, ◌+◌}
use mathlib.Core.Path.{◌≡◌, refl}
use mathlib.Core.Bool.{Bool, true, ◌&&◌, ◌||◌}
use mathlib.Core.List.{List, [], ◌∷◌, ◌++◌}
use native.Mathlib.Omega.{arith}
use private_dns_operator.Prelude.Tests.{if◌then◌else◌}

module _ {ℓ} {A : Type ℓ} where
  abbrev pub length : List A → ℕ
  length [] = 0
  length (x ∷ xs) = suc (length xs)

  pub length-append : (xs ys : List A) → length (xs ++ ys) ≡ length xs + length ys
  length-append [] ys = omega arith
  length-append (x ∷ xs) ys = omega (arith, length-append xs ys)

  abbrev pub is_empty : List A → Bool
  is_empty [] = true
  is_empty (x ∷ xs) = Bool.false

module _ {ℓ} {A : Type ℓ} (p : A → Bool) where
  unfoldable pub all : List A → Bool
  all [] = true
  all (x ∷ xs) = p x && all xs

  unfoldable pub any : List A → Bool
  any [] = Bool.false
  any (x ∷ xs) = p x || any xs

  -- The elements that pass the test, in their order.
  unfoldable pub keep : List A → List A
  keep [] = []
  keep (x ∷ xs) = let rest = keep xs in if p x then x ∷ rest else rest

-- `sort.Slice` and `sort.Strings`: an insertion sort, which is stable.
module _ {ℓ} {A : Type ℓ} (less : A → A → Bool) where
  unfoldable pub insert_by : A → List A → List A
  insert_by x [] = x ∷ []
  insert_by x (y ∷ ys) = let rest = insert_by x ys in if less y x then y ∷ rest else x ∷ y ∷ ys

  unfoldable pub sort_by : List A → List A
  unfolding insert_by
  sort_by [] = []
  sort_by (x ∷ xs) = insert_by x (sort_by xs)

module _ {ℓ} {A : Type ℓ} (p : A → Bool) where
  pub all-append : (xs ys : List A) → all p (xs ++ ys) ≡ (all p xs && all p ys)
  unfolding all
  all-append [] ys = ground arith
  all-append (x ∷ xs) ys = ground (arith, all-append xs ys)

  all-insert_by :
      (less : A → A → Bool) (x : A) (xs : List A) → all p (insert_by less x xs) ≡ (p x && all p xs)
  unfolding all insert_by
  all-insert_by less x [] = refl
  all-insert_by less x (y ∷ ys) = ground (arith, all-insert_by less x ys)

  -- Sorting keeps what holds of every element.
  pub all-sort_by : (less : A → A → Bool) (xs : List A) → all p (sort_by less xs) ≡ all p xs
  unfolding all sort_by
  all-sort_by less [] = refl
  all-sort_by less (x ∷ xs) =
      ground (arith, all-insert_by less x (sort_by less xs), all-sort_by less xs)
