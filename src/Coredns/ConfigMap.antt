-- ===== src/Coredns/ConfigMap.antt =====
-- internal/coredns/configmap.go. Each function returns the changed ConfigMap and the Boolean that
-- the Go function returns.
pub mod Files
pub mod Steady
pub mod Claims
use private_dns_operator.Prelude.{
  Bool, true, false, not, ◌||◌, List, [], ◌∷◌, if◌then◌else◌, Option, none, some, is_empty,
}
use private_dns_operator.Text.{Text, codes, ◌==◌, sort_texts}
use private_dns_operator.Text.Map.{Map, lookup, insert, remove, has}
use private_dns_operator.Text.Split.{split, join}
use private_dns_operator.Text.Trim.{trim_space}
use private_dns_operator.Kube
use private_dns_operator.Kube.{ConfigMap}

abbrev pub managed_zone_keys_annotation : Text
managed_zone_keys_annotation = codes "dns.custlynotts.io/managed-zone-keys"

abbrev pub corefile_key : Text
corefile_key = codes "Corefile"

-- `m[k]` on a map of strings: the empty string where the key is missing.
unfoldable pub value_or_empty : Option Text → Text
value_or_empty none = []
value_or_empty (some v) = v

-- `existing, ok := m[k]; ok && existing == content`
unfoldable pub holds : Option Text → Text → Bool
holds none content = false
holds (some existing) content = existing == content

set_zone_files_loop : Map Text → Map Text → Bool → Map Text × Bool
unfolding holds
set_zone_files_loop [] contents changed = (contents, changed)
set_zone_files_loop ((key, content) ∷ zone_files) contents changed =
    let fresh = not (holds (lookup key contents) content) in
    set_zone_files_loop zone_files (if fresh then insert key content contents else contents)
      (fresh || changed)

unfoldable pub set_zone_files : ConfigMap → Map Text → ConfigMap × Bool
unfolding set_zone_files_loop
set_zone_files cm zone_files =
    let (contents, changed) = set_zone_files_loop zone_files cm.cm_data false in
    (record cm { cm_data = contents }, changed)

unfoldable pub set_corefile : ConfigMap → Text → ConfigMap × Bool
unfolding value_or_empty
set_corefile cm corefile =
    if value_or_empty (lookup corefile_key cm.cm_data) == corefile
    then (cm, false)
    else (record cm { cm_data = insert corefile_key corefile cm.cm_data }, true)

remove_zone_files_loop : List Text → Map Text → Bool → Map Text × Bool
remove_zone_files_loop [] contents changed = (contents, changed)
remove_zone_files_loop (key ∷ keys) contents changed =
    let present = has key contents in
    remove_zone_files_loop keys (if present then remove key contents else contents)
      (present || changed)

unfoldable pub remove_zone_files : ConfigMap → List Text → ConfigMap × Bool
unfolding remove_zone_files_loop
remove_zone_files cm keys =
    let (contents, changed) = remove_zone_files_loop keys cm.cm_data false in
    (record cm { cm_data = contents }, changed)

unfoldable pub set_managed_zone_keys : ConfigMap → List Text → ConfigMap × Bool
unfolding value_or_empty
set_managed_zone_keys cm keys =
    let value = join (sort_texts keys) b',' in
    if value_or_empty (lookup managed_zone_keys_annotation cm.annotations) == value
    then (cm, false)
    else (
      record cm { annotations = insert managed_zone_keys_annotation value cm.annotations },
      true,
    )

claimed_keys : List Text → List Text
claimed_keys [] = []
claimed_keys (part ∷ parts) =
    let key = trim_space part in
    let rest = claimed_keys parts in if is_empty key then rest else key ∷ rest

-- The case of a nil ConfigMap does not arise: the only caller passes an object.
unfoldable pub managed_zone_keys : ConfigMap → List Text
unfolding value_or_empty claimed_keys
managed_zone_keys cm =
    let raw = value_or_empty (lookup managed_zone_keys_annotation cm.annotations) in
    if is_empty raw then [] else claimed_keys (split raw b',')
