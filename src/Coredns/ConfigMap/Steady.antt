-- ===== src/Coredns/ConfigMap/Steady.antt =====
-- The calls of internal/coredns/configmap.go on a ConfigMap that has what they write.
use private_dns_operator.Prelude.{
  ◌≡◌, refl, ap, ◌∙◌, true, false, List, [], ◌∷◌, Option, none, some, arith,
}
use private_dns_operator.Text.{Text, sort_texts}
use private_dns_operator.Text.Eq.{eq_iff, eq_refl}
use private_dns_operator.Text.Set.{contains}
use private_dns_operator.Text.Map.{Map, lookup, has, keys, contains-keys}
use private_dns_operator.Text.Split.{join}
use private_dns_operator.Kube.{ConfigMap}
use private_dns_operator.Coredns.ConfigMap.{
  managed_zone_keys_annotation, corefile_key, holds, value_or_empty, set_zone_files_loop,
  set_zone_files, set_corefile, remove_zone_files, set_managed_zone_keys,
}
use private_dns_operator.Coredns.ConfigMap.Files.{distinct}

held : (o : Option Text) (v : Text) → o ≡ some v → holds o v ≡ true
unfolding holds
held none v h = cc
held (some w) v h = ground (arith, eq_iff w v)

later :
    (key content : Text) (fs : Map Text) (k : Text)
    → contains (keys fs) key ≡ false
    → has k fs ≡ true
    → lookup k ((key, content) ∷ fs) ≡ lookup k fs
unfolding lookup
later key content fs k new h =
    ground
      (arith, contains-keys key fs, eq_iff key k, λ (e : key ≡ k). ap (λ (t : Text). has t fs) e)

loop_same :
    (fs contents : Map Text)
    → distinct (keys fs) ≡ true
    → ((k : Text) → has k fs ≡ true → lookup k contents ≡ lookup k fs)
    → set_zone_files_loop fs contents false ≡ (contents, false)
unfolding set_zone_files_loop distinct keys has lookup
loop_same [] contents d h = refl
loop_same ((key, content) ∷ fs) contents d h =
    let there : lookup key contents ≡ some content =
      h key (ground (arith, eq_refl key)) ∙ ground (arith, eq_refl key) in
    rw (held (lookup key contents) content there) (
      loop_same fs contents (ground arith)
        (λ k m. h k (ground (arith, m)) ∙ later key content fs k (ground arith) m))

pub set_zone_files_same :
    (cm : ConfigMap) (fs : Map Text)
    → distinct (keys fs) ≡ true
    → ((k : Text) → has k fs ≡ true → lookup k cm.cm_data ≡ lookup k fs)
    → set_zone_files cm fs ≡ (cm, false)
unfolding set_zone_files
set_zone_files_same cm fs d h = rw (set_zone_files, loop_same fs cm.cm_data d h) refl

pub set_corefile_same :
    (cm : ConfigMap) (corefile : Text)
    → value_or_empty (lookup corefile_key cm.cm_data) ≡ corefile
    → set_corefile cm corefile ≡ (cm, false)
unfolding set_corefile
set_corefile_same cm corefile h = rw (h, eq_refl corefile) refl

pub remove_zone_files_none : (cm : ConfigMap) → remove_zone_files cm [] ≡ (cm, false)
unfolding remove_zone_files
remove_zone_files_none cm = refl

pub set_managed_zone_keys_same :
    (cm : ConfigMap) (ks : List Text)
    → value_or_empty (lookup managed_zone_keys_annotation cm.annotations)
      ≡ join (sort_texts ks) b','
    → set_managed_zone_keys cm ks ≡ (cm, false)
unfolding set_managed_zone_keys
set_managed_zone_keys_same cm ks h = rw (h, eq_refl (join (sort_texts ks) b',')) refl
