-- ===== src/Coredns/Tests.antt =====
-- The operations of internal/coredns at concrete objects.
use private_dns_operator.Prelude.{
  ◌≡◌, refl, true, List, [], ◌∷◌, ◌++◌, if◌then◌else◌, some, none, all,
}
use private_dns_operator.Text.{Text, ◌==◌, codes, sort_texts}
use private_dns_operator.Text.Set.{contains}
use private_dns_operator.Text.Map.{Map, lookup, has, keys}
use private_dns_operator.Text.Split.{lacks}
use private_dns_operator.Text.Trim.{trim_space}
use private_dns_operator.Kube.{ConfigMap, Deployment, KeyToPath, err, message}
use private_dns_operator.Text.Quote.{quote}
use private_dns_operator.Coredns.ConfigMap.{
  corefile_key, set_zone_files, remove_zone_files, set_managed_zone_keys, managed_zone_keys,
}
use private_dns_operator.Coredns.ConfigMap.Claims.{is_key, managed_zone_keys-set_managed_zone_keys}
use private_dns_operator.Coredns.ConfigMap.Files.{
  distinct, lookup-set_zone_files, lookup-remove_zone_files,
}
use private_dns_operator.Coredns.Deployment.{is_target, ensure_zone_volume_items}
use private_dns_operator.Coredns.Deployment.Volumes.{mounted_items}
use private_dns_operator.Coredns.Deployment.Merged.{
  Merged, ensure_zone_volume_items-Merged, ensure_zone_volume_items-unmounted,
}

abbrev old_file : Text
old_file = codes "a.db"

abbrev new_file : Text
new_file = codes "b.db"

abbrev config_map : ConfigMap
config_map = record {
  cm_data = (corefile_key, codes "file a") ∷ (old_file, codes "x") ∷ [];
  annotations = [];
}

abbrev zone_files : Map Text
zone_files = (new_file, codes "y") ∷ (old_file, codes "z") ∷ []

abbrev items : List KeyToPath
items =
    record { key = corefile_key; path = corefile_key }
    ∷ record { key = old_file; path = old_file }
    ∷ []

abbrev deployment : Deployment
deployment = record {
  name = codes "coredns";
  volumes =
      record { config_map = some (record { name = codes "other"; items = [] }) }
      ∷ record { config_map = some (record { name = codes "coredns"; items = items }) }
      ∷ [];
  annotations = [];
}

mounts : mounted_items (codes "coredns") deployment.volumes ≡ some items
unfolding mounted_items is_target ◌==◌
mounts = refl

are_keys : all is_key (new_file ∷ old_file ∷ []) ≡ true
unfolding all is_key trim_space lacks ◌==◌
are_keys = refl

are_distinct : distinct (keys zone_files) ≡ true
unfolding distinct keys contains ◌==◌
are_distinct = refl

managed_zone_keys-set_managed_zone_keys_example :
    managed_zone_keys (set_managed_zone_keys config_map (new_file ∷ old_file ∷ [])).0
    ≡ sort_texts (new_file ∷ old_file ∷ [])
managed_zone_keys-set_managed_zone_keys_example =
    managed_zone_keys-set_managed_zone_keys config_map (new_file ∷ old_file ∷ []) are_keys

lookup-set_zone_files_example : lookup old_file (set_zone_files config_map zone_files).0.cm_data ≡ (
    if has old_file zone_files
    then lookup old_file zone_files
    else lookup old_file config_map.cm_data)
lookup-set_zone_files_example = lookup-set_zone_files config_map zone_files old_file are_distinct

lookup-remove_zone_files_example :
    lookup old_file (remove_zone_files config_map (old_file ∷ [])).0.cm_data
    ≡ (if contains (old_file ∷ []) old_file then none else lookup old_file config_map.cm_data)
lookup-remove_zone_files_example = lookup-remove_zone_files config_map (old_file ∷ []) old_file

-- The old file goes, the new one comes, and the Corefile stays.
ensure_zone_volume_items-Merged_example :
    Merged
      (codes "coredns")
      (new_file ∷ [])
      (old_file ∷ [])
      items
      (ensure_zone_volume_items deployment (codes "coredns") (new_file ∷ []) (old_file ∷ []))
ensure_zone_volume_items-Merged_example =
    ensure_zone_volume_items-Merged deployment (codes "coredns") (new_file ∷ []) (old_file ∷ [])
      items mounts refl

unmounted : mounted_items (codes "hosts") deployment.volumes ≡ none
unfolding mounted_items is_target ◌==◌
unmounted = refl

ensure_zone_volume_items-unmounted_example :
    ensure_zone_volume_items deployment (codes "hosts") (new_file ∷ []) []
    ≡ err (message (codes "deployment does not mount ConfigMap " ++ quote (codes "hosts")))
ensure_zone_volume_items-unmounted_example =
    ensure_zone_volume_items-unmounted deployment (codes "hosts") (new_file ∷ []) [] unmounted
