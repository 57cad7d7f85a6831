-- ===== src/Coredns/Deployment/Volumes.antt =====
-- EnsureZoneVolumeItems over the volumes of a Deployment: it changes the first volume of the
-- ConfigMap, and that volume only.
use private_dns_operator.Prelude.{
  ◌≡◌, refl, ap, ◌∙◌, Bool, true, false, List, [], ◌∷◌, if◌then◌else◌, Option, none, some, is_empty,
  arith, inl, inr, Bool-cases,
}
use private_dns_operator.Text.{Text}
use private_dns_operator.Text.Eq.{eq_refl}
use private_dns_operator.Text.Set.{contains}
use private_dns_operator.Coredns.Deployment.{item_keys}
use private_dns_operator.Coredns.Deployment.Items.{
  has_item, has_item-ensure_items, ensure_items_unchanged, has_item-sort_by,
}
use private_dns_operator.Kube.{KeyToPath, ConfigMapVolumeSource, Volume}
use private_dns_operator.Coredns.Deployment.{ensure_items, is_target, ensure_volume, ensure_volumes}

-- The items of a volume, none if it is no ConfigMap volume.
abbrev source_items : Option ConfigMapVolumeSource → List KeyToPath
source_items none = []
source_items (some source) = source.items

-- The items of the first volume that mounts the ConfigMap.
unfoldable pub mounted_items : Text → List Volume → Option (List KeyToPath)
mounted_items name [] = none
mounted_items name (v ∷ vs) =
    let rest = mounted_items name vs in
    if is_target name v.config_map then some (source_items v.config_map) else rest

-- What becomes of the items: a volume without explicit items is left as it is.
unfoldable pub ensured : List Text → List Text → List KeyToPath → List KeyToPath × Bool
ensured desired previous items =
    if is_empty items then (items, false) else ensure_items desired previous items

module _ (name : Text) (desired previous : List Text) where
  pub ensure_volumes-none :
      (vs : List Volume)
      → mounted_items name vs ≡ none
      → ensure_volumes name desired previous vs ≡ none
  unfolding mounted_items ensure_volumes
  ensure_volumes-none [] h = refl
  ensure_volumes-none (v ∷ vs) h = ground (arith, ensure_volumes-none vs)

  -- the step at the volume that is found
  at_target :
      (v : Volume) (vs : List Volume)
      → is_target name v.config_map ≡ true
      → (ensure_volumes name desired previous (v ∷ vs)
          ≡ some (
            (ensure_volume name desired previous v).0 ∷ vs,
            (ensured desired previous (source_items v.config_map)).1,
          ))
        × (mounted_items name ((ensure_volume name desired previous v).0 ∷ vs)
            ≡ some (ensured desired previous (source_items v.config_map)).0)
  unfolding mounted_items ensure_volumes ensured
  at_target v vs h = ground arith

  -- the step at a volume that the loop passes
  at_other :
      (v : Volume) (vs vs' : List Volume) (items : List KeyToPath) (ch : Bool)
      → is_target name v.config_map ≡ false
      → ensure_volumes name desired previous vs ≡ some (vs', ch)
      → mounted_items name vs' ≡ some items
      → (ensure_volumes name desired previous (v ∷ vs) ≡ some (v ∷ vs', ch))
        × (mounted_items name (v ∷ vs') ≡ some items)
  unfolding mounted_items ensure_volumes
  at_other v vs vs' items ch h run found = ground arith

  found_here :
      (v : Volume) (vs : List Volume) (items : List KeyToPath)
      → is_target name v.config_map ≡ true
      → mounted_items name (v ∷ vs) ≡ some items
      → source_items v.config_map ≡ items
  unfolding mounted_items
  found_here v vs items here h = ground arith

  found_later :
      (v : Volume) (vs : List Volume) (items : List KeyToPath)
      → is_target name v.config_map ≡ false
      → mounted_items name (v ∷ vs) ≡ some items
      → mounted_items name vs ≡ some items
  unfolding mounted_items
  found_later v vs items later h = ground arith

  pub ensure_volumes-some :
      (vs : List Volume) (items : List KeyToPath)
      → mounted_items name vs ≡ some items
      → (vs' : List Volume) × (ensure_volumes name desired previous vs
          ≡ some (vs', (ensured desired previous items).1))
        × (mounted_items name vs' ≡ some (ensured desired previous items).0)
  ensure_volumes-some [] items h = unfold mounted_items in cc
  ensure_volumes-some (v ∷ vs) items h = elim (Bool-cases (is_target name v.config_map)) [
    | inl here ↦
        let e = found_here v vs items here h in
        let (run, found) = at_target v vs here in
        ((ensure_volume name desired previous v).0 ∷ vs, rw e at run, rw e at found)
    | inr later ↦
        let (vs', run, found) = ensure_volumes-some vs items (found_later v vs items later h) in
        let (run', found') = at_other v vs vs' _ _ later run found in (v ∷ vs', run', found')
  ]

-- The keys of the items decide whether there are any.
pub is_empty-same :
    (xs ys : List KeyToPath)
    → ((k : Text) → has_item xs k ≡ has_item ys k)
    → is_empty xs ≡ is_empty ys
unfolding item_keys contains
is_empty-same [] [] h = refl
is_empty-same [] (y ∷ ys) h = ground (arith, h y.key, eq_refl y.key)
is_empty-same (x ∷ xs) [] h = ground (arith, h x.key, eq_refl x.key)
is_empty-same (x ∷ xs) (y ∷ ys) h = refl

module _ (desired previous : List Text) where
  -- The keys that are mounted afterwards depend on those mounted before, and not on their order.
  pub has_item-ensured :
      (xs ys : List KeyToPath)
      → ((k : Text) → has_item xs k ≡ has_item ys k)
      → (k : Text)
      → has_item (ensured desired previous xs).0 k ≡ has_item (ensured desired previous ys).0 k
  unfolding ensured
  has_item-ensured xs ys h k = ground (
    arith,
    is_empty-same xs ys h,
    h k,
    has_item-ensure_items desired previous xs k,
    has_item-ensure_items desired previous ys k,
  )

  pub ensured_unchanged :
      (xs : List KeyToPath)
      → (ensured desired previous xs).1 ≡ false
      → (k : Text) → has_item (ensured desired previous xs).0 k ≡ has_item xs k
  unfolding ensured
  ensured_unchanged [] h k = refl
  ensured_unchanged (x ∷ xs) h k =
      ap (λ (r : List KeyToPath). has_item r k) (ensure_items_unchanged desired previous (x ∷ xs) h)
      ∙ has_item-sort_by (x ∷ xs) k
