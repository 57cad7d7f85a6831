-- ===== src/Text/Map.antt =====
-- Go maps with string keys, as association lists in which the first entry of a key counts.
use private_dns_operator.Prelude.{
  ◌≡◌, refl, Bool, true, false, ◌&&◌, ◌||◌, not, List, [], ◌∷◌, if◌then◌else◌, arith, Option, none,
  some,
}
use private_dns_operator.Text.Eq.{Text, ◌==◌, eq_iff}
use private_dns_operator.Text.Set.{contains}

abbrev pub Map : Type 0 → Type 0
Map V = List (Text × V)

module _ {V : Type 0} where
  -- `v, ok := m[k]`
  unfoldable pub lookup : Text → Map V → Option V
  lookup k [] = none
  lookup k ((j, v) ∷ m) = if j == k then some v else lookup k m

  -- `m[k] = v`
  unfoldable pub insert : Text → V → Map V → Map V
  insert k v [] = (k, v) ∷ []
  insert k v ((j, w) ∷ m) = let rest = insert k v m in if j == k then (k, v) ∷ m else (j, w) ∷ rest

  -- `delete(m, k)`
  unfoldable pub remove : Text → Map V → Map V
  remove k [] = []
  remove k ((j, v) ∷ m) = let rest = remove k m in if j == k then rest else (j, v) ∷ rest

  -- The second result of `m[k]`.
  unfoldable pub has : Text → Map V → Bool
  unfolding lookup
  has k m = elim (lookup k m) [ none ↦ false | some _ ↦ true ]

  -- The keys, in the order in which the map is ranged over.
  unfoldable pub keys : Map V → List Text
  keys [] = []
  keys ((j, v) ∷ m) = j ∷ keys m

  -- Reading after a write: by the first entry, with the rest by induction.
  pub lookup-insert :
      (key wanted : Text) (value : V) (entries : Map V)
      → lookup wanted (insert key value entries)
        ≡ (if key == wanted then some value else lookup wanted entries)
  unfolding lookup insert
  lookup-insert key wanted value [] = refl
  lookup-insert key wanted value ((first, old) ∷ entries) = ground (
    arith,
    lookup-insert key wanted value entries,
    eq_iff first key,
    eq_iff first wanted,
    eq_iff key wanted,
  )

  pub lookup-remove :
      (k j : Text) (m : Map V) → lookup j (remove k m) ≡ (if k == j then none else lookup j m)
  unfolding lookup remove
  lookup-remove k j [] = ground arith
  lookup-remove k j ((i, w) ∷ m) =
      ground (arith, eq_iff k j, eq_iff i k, eq_iff i j, lookup-remove k j m)

  pub has-insert : (k j : Text) (v : V) (m : Map V) → has j (insert k v m) ≡ ((k == j) || has j m)
  unfolding has
  has-insert k j v m = ground (arith, lookup-insert k j v m)

  pub has-remove : (k j : Text) (m : Map V) → has j (remove k m) ≡ (not (k == j) && has j m)
  unfolding has
  has-remove k j m = ground (arith, lookup-remove k j m)

  pub contains-keys : (k : Text) (m : Map V) → contains (keys m) k ≡ has k m
  unfolding contains keys has lookup
  contains-keys k [] = refl
  contains-keys k ((j, v) ∷ m) = ground (arith, contains-keys k m)

  pub has-cons : (k j : Text) (v : V) (m : Map V) → has j ((k, v) ∷ m) ≡ ((k == j) || has j m)
  unfolding has lookup
  has-cons k j v m = ground arith

  -- A key that is there has a value, and the other way round.
  pub has-lookup : (k : Text) (v : V) (m : Map V) → lookup k m ≡ some v → has k m ≡ true
  unfolding has
  has-lookup k v m h = rw (h, has)
