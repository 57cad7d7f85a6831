-- ===== src/Coredns/Deployment.antt =====
-- internal/coredns/deployment.go.
pub mod Items
pub mod Steady
pub mod Volumes
pub mod Merged
use private_dns_operator.Prelude.{
  Bool, true, false, not, ◌||◌, List, [], ◌∷◌, ◌++◌, if◌then◌else◌, Option, none, some, is_empty,
  keep, sort_by,
}
use private_dns_operator.Text.{Text, codes, ◌==◌, text_lt, sort_texts}
use private_dns_operator.Text.Set.{contains}
use private_dns_operator.Text.Map.{insert}
use private_dns_operator.Text.Quote.{quote}
use private_dns_operator.Kube.{
  KeyToPath, ConfigMapVolumeSource, Volume, Deployment, Result, ok, err, message,
}

abbrev pub restart_reason_annotation : Text
restart_reason_annotation = codes "dns.custlynotts.io/restarted-for"

abbrev pub restart_hash_annotation : Text
restart_hash_annotation = codes "dns.custlynotts.io/restart-hash"

-- The set `existing`.
unfoldable pub item_keys : List KeyToPath → List Text
item_keys [] = []
item_keys (item ∷ items) = item.key ∷ item_keys items

-- The loop that appends an item for each desired key that has none.
unfoldable pub add_items : List Text → List Text → List KeyToPath → Bool → List KeyToPath × Bool
add_items existing [] items changed = (items, changed)
add_items existing (key ∷ desired) items changed =
    let fresh = not (contains existing key) in
    add_items existing desired
      (if fresh then items ++ record { key = key; path = key } ∷ [] else items) (fresh || changed)

-- The set `stale`.
unfoldable pub stale_keys : List Text → List Text → List Text
unfolding keep
stale_keys desired previously_managed = keep (λ key. not (contains desired key)) previously_managed

-- The loop that drops the stale items.
unfoldable pub drop_items : List Text → List KeyToPath → Bool → List KeyToPath × Bool
drop_items stale [] changed = ([], changed)
drop_items stale (item ∷ items) changed =
    let drop = contains stale item.key in
    let (filtered, changed') = drop_items stale items (drop || changed) in
    (if drop then filtered else item ∷ filtered, changed')

unfoldable pub item_lt : KeyToPath → KeyToPath → Bool
unfolding text_lt
item_lt a b = text_lt a.key b.key

-- What the body of the loop over the volumes does to the explicit items of the volume it is about.
unfoldable pub ensure_items : List Text → List Text → List KeyToPath → List KeyToPath × Bool
unfolding item_keys add_items stale_keys drop_items item_lt sort_by
ensure_items desired previously_managed items =
    let (added, appended) = add_items (item_keys items) desired items false in
    let (filtered, changed) = drop_items (stale_keys desired previously_managed) added appended in
    (sort_by item_lt filtered, changed)

-- `volume.ConfigMap != nil && volume.ConfigMap.Name == configMapName`
unfoldable pub is_target : Text → Option ConfigMapVolumeSource → Bool
is_target config_map_name none = false
is_target config_map_name (some source) = source.name == config_map_name

-- A volume that the loop leaves alone.
unfoldable pub after_volume : Volume → Option (List Volume × Bool) → Option (List Volume × Bool)
after_volume volume none = none
after_volume volume (some (volumes, changed)) = some (volume ∷ volumes, changed)

-- The loop over the volumes; `none` is its end without a volume of the ConfigMap.
module _ (config_map_name : Text) (desired previously_managed : List Text) where
  unfoldable pub ensure_source : ConfigMapVolumeSource → ConfigMapVolumeSource × Bool
  unfolding ensure_items
  ensure_source source =
      let (items, changed) = ensure_items desired previously_managed source.items in
      if is_empty source.items then (source, false) else (record source { items = items }, changed)

  unfoldable pub ensure_volume : Volume → Volume × Bool
  unfolding ensure_source
  ensure_volume volume = elim volume.config_map [
    | none ↦ (volume, false)
    | some source ↦
        let (source', changed) = ensure_source source in
        (record volume { config_map = some source' }, changed)
  ]

  unfoldable pub ensure_volumes : List Volume → Option (List Volume × Bool)
  unfolding ensure_volume is_target after_volume
  ensure_volumes [] = none
  ensure_volumes (volume ∷ volumes) =
      let here =
        (let (volume', changed) = ensure_volume volume in some (volume' ∷ volumes, changed)) in
      let rest = after_volume volume (ensure_volumes volumes) in
      if is_target config_map_name volume.config_map then here else rest

unfoldable pub ensure_zone_volume_items :
    Deployment → Text → List Text → List Text → Result (Deployment × Bool)
unfolding ensure_volumes
ensure_zone_volume_items deployment config_map_name desired_keys previously_managed =
    elim (ensure_volumes config_map_name (sort_texts desired_keys) previously_managed
      deployment.volumes) [
        | none ↦
            err (message (codes "deployment does not mount ConfigMap " ++ quote config_map_name))
        | some (volumes, changed) ↦ ok (record deployment { volumes = volumes }, changed)
      ]

unfoldable pub mark_rollout_restart : Deployment → Text → Text → Deployment
mark_rollout_restart deployment reason value = record deployment {
  annotations =
      insert restart_hash_annotation value
        (insert restart_reason_annotation reason deployment.annotations);
}
