-- ===== src/Coredns/Deployment/Merged.antt =====
-- What `EnsureZoneVolumeItems` of internal/coredns/deployment.go leaves mounted.
use private_dns_operator.Prelude.{
  ◌≡◌, refl, Bool, false, not, ◌&&◌, ◌||◌, List, some, none, arith, ◌++◌, is_empty,
}
use private_dns_operator.Text.{Text, text_lt, sort_texts, codes}
use private_dns_operator.Text.Set.{contains, contains-sort_by}
use private_dns_operator.Text.Quote.{quote}
use private_dns_operator.Kube.{KeyToPath, Volume, Deployment, Result, ok, err, message}
use private_dns_operator.Coredns.Deployment.{ensure_volumes, ensure_zone_volume_items}
use private_dns_operator.Coredns.Deployment.Items.{has_item, has_item-ensure_items}
use private_dns_operator.Coredns.Deployment.Volumes.{
  mounted_items, ensured, ensure_volumes-none, ensure_volumes-some, ensured_unchanged,
}

-- The merged list: exactly the wanted keys and those that the operator does not manage; a call that
-- reports no change has changed none.
pub record Merged (name : Text) (wanted previous : List Text) (items : List KeyToPath)
    (result : Result (Deployment × Bool)) : Type 0 where
  pub dep : Deployment
  pub changed : Bool
  pub returned : result ≡ ok (dep, changed)
  pub merged : List KeyToPath
  pub mounts : mounted_items name dep.volumes ≡ some merged
  pub has_merged :
      (k : Text)
      → has_item merged k ≡ (contains wanted k || (has_item items k && not (contains previous k)))
  pub unchanged : changed ≡ false → (k : Text) → has_item merged k ≡ has_item items k

has_item-wanted :
    (wanted previous : List Text) (items : List KeyToPath) (k : Text)
    → is_empty items ≡ false
    → has_item (ensured (sort_texts wanted) previous items).0 k
      ≡ (contains wanted k || (has_item items k && not (contains previous k)))
unfolding ensured sort_texts
has_item-wanted wanted previous items k h = ground (
  arith,
  has_item-ensure_items (sort_texts wanted) previous items k,
  contains-sort_by text_lt wanted k,
)

returns :
    (dep : Deployment) (name : Text) (wanted previous : List Text) (vs : List Volume) (ch : Bool)
    → ensure_volumes name (sort_texts wanted) previous dep.volumes ≡ some (vs, ch)
    → ensure_zone_volume_items dep name wanted previous ≡ ok (record dep { volumes = vs }, ch)
unfolding ensure_zone_volume_items
returns dep name wanted previous vs ch h = rw (ensure_zone_volume_items, h) refl

-- EnsureZoneVolumeItems refuses a Deployment of which no volume mounts the ConfigMap.
pub ensure_zone_volume_items-unmounted :
    (dep : Deployment) (name : Text) (wanted previous : List Text)
    → mounted_items name dep.volumes ≡ none
    → ensure_zone_volume_items dep name wanted previous
      ≡ err (message (codes "deployment does not mount ConfigMap " ++ quote name))
unfolding ensure_zone_volume_items
ensure_zone_volume_items-unmounted dep name wanted previous h =
    rw
      (
        ensure_zone_volume_items,
        ensure_volumes-none name (sort_texts wanted) previous dep.volumes h,
      )
      refl

-- Where a volume mounts the ConfigMap with an explicit list of items, EnsureZoneVolumeItems
-- returns a Deployment whose list has exactly the wanted keys and those of its keys that were not
-- managed before; where it reports no change, the keys are the same as before.
pub ensure_zone_volume_items-Merged :
    (dep : Deployment) (name : Text) (wanted previous : List Text) (items : List KeyToPath)
    → mounted_items name dep.volumes ≡ some items
    → is_empty items ≡ false
    → Merged name wanted previous items (ensure_zone_volume_items dep name wanted previous)
ensure_zone_volume_items-Merged dep name wanted previous items found explicit =
    let (volumes, run, mounts) =
      ensure_volumes-some name (sort_texts wanted) previous dep.volumes items found in
    record {
      dep = record dep { volumes = volumes };
      changed = (ensured (sort_texts wanted) previous items).1;
      returned = returns dep name wanted previous volumes _ run;
      merged = (ensured (sort_texts wanted) previous items).0;
      mounts = mounts;
      has_merged = λ k. has_item-wanted wanted previous items k explicit;
      unchanged = λ h k. ensured_unchanged (sort_texts wanted) previous items h k;
    }
