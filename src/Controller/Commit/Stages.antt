-- ===== src/Controller/Commit/Stages.antt =====
-- The stages of `commitCoreDNS`: the states between which its calls move the cluster.
use private_dns_operator.Prelude.{◌≡◌, refl, sym, Bool, false, List, [], arith}
use private_dns_operator.Text.{Text, sort_texts}
use private_dns_operator.Text.Map.{Map}
use private_dns_operator.Kube.{ConfigMap, KeyToPath}
use private_dns_operator.Kube.Api.{Cluster}
use private_dns_operator.Coredns.ConfigMap.{set_zone_files, set_corefile, remove_zone_files}
use private_dns_operator.Coredns.ConfigMap.Files.{
  set_zone_files_unchanged, remove_zone_files_unchanged, set_corefile_unchanged,
  set_managed_zone_keys_unchanged,
}
use private_dns_operator.Coredns.Deployment.Volumes.{ensured}
use private_dns_operator.Controller.Keys.{map_keys, subtract_keys, union_keys}
use private_dns_operator.Controller.Commit.{
  Reconciler, update_if, set_volume_items, expand, retire, commit_core_dns,
}
use private_dns_operator.Controller.Commit.Steps.{
  At, Moves, Moves-bind, update_if-Moves, set_volume_items-Moves,
}

pub data Stage : Type 0 where
  before expanded mounted switched contracted retired : Stage

expand_unchanged :
    (cm : ConfigMap) (fs : Map Text) (ks : List Text)
    → (expand cm fs ks).1 ≡ false
    → cm ≡ (expand cm fs ks).0
unfolding expand
expand_unchanged cm fs ks h = ground (
  arith,
  set_zone_files_unchanged cm fs,
  set_managed_zone_keys_unchanged (set_zone_files cm fs).0 ks,
)

retire_unchanged :
    (cm : ConfigMap) (stale ks : List Text)
    → (retire cm stale ks).1 ≡ false
    → cm ≡ (retire cm stale ks).0
unfolding retire
retire_unchanged cm stale ks h = ground (
  arith,
  remove_zone_files_unchanged cm stale,
  set_managed_zone_keys_unchanged (remove_zone_files cm stale).0 ks,
)

module _ (cm : ConfigMap) (corefile : Text) (zone_files : Map Text) (previous : List Text)
    (items : List KeyToPath) where
  abbrev desired : List Text
  desired = map_keys zone_files

  abbrev stale : List Text
  stale = subtract_keys previous desired

  abbrev all_keys : List Text
  all_keys = union_keys previous desired

  unfoldable pub stage_config_map : Stage → ConfigMap
  unfolding expand retire
  stage_config_map before = cm
  stage_config_map expanded = (expand cm zone_files all_keys).0
  stage_config_map mounted = (expand cm zone_files all_keys).0
  stage_config_map switched = (set_corefile (expand cm zone_files all_keys).0 corefile).0
  stage_config_map contracted = (set_corefile (expand cm zone_files all_keys).0 corefile).0
  stage_config_map retired =
      (retire (set_corefile (expand cm zone_files all_keys).0 corefile).0 stale desired).0

  abbrev mounted_union : List KeyToPath
  mounted_union = (ensured (sort_texts all_keys) previous items).0

  unfoldable pub stage_items : Stage → List KeyToPath
  stage_items before = items
  stage_items expanded = items
  stage_items mounted = mounted_union
  stage_items switched = mounted_union
  stage_items contracted = (ensured (sort_texts desired) previous mounted_union).0
  stage_items retired = (ensured (sort_texts desired) previous mounted_union).0

module _ (r : Reconciler) (cm : ConfigMap) (corefile : Text) (zone_files : Map Text)
    (previous : List Text) (items : List KeyToPath) where
  abbrev config_map_at : Stage → ConfigMap
  config_map_at = stage_config_map cm corefile zone_files previous items

  abbrev items_at : Stage → List KeyToPath
  items_at = stage_items cm corefile zone_files previous items

  abbrev wanted : List Text
  wanted = map_keys zone_files

  abbrev leftover : List Text
  leftover = subtract_keys previous wanted

  abbrev union : List Text
  union = union_keys previous wanted

  abbrev mounted_now : List KeyToPath
  mounted_now = (ensured (sort_texts union) previous items).0

  -- The cluster is at this stage.
  abbrev pub AtStage : Stage → Cluster → Type 0
  AtStage s c = At r.core_dns_config_map (config_map_at s) (items_at s) c

  -- Moving the ConfigMap on while the Deployment stays.
  next_config_map :
      (s t : Stage) (changed : Bool)
      → items_at s ≡ items_at t
      → (changed ≡ false → config_map_at s ≡ config_map_at t)
      → Moves AtStage s t (update_if changed (config_map_at t))
  next_config_map s t changed same unchanged =
      update_if-Moves AtStage s t changed (config_map_at t)
        (λ c h. record {
          config_map = refl;
          mounted = h.mounted;
          found = h.found;
          same = rw (← same) h.same;
        })
        (λ e c h. record {
          config_map = rw (← unchanged e) h.config_map;
          mounted = h.mounted;
          found = h.found;
          same = rw (← same) h.same;
        })

  abbrev cm1 : ConfigMap
  cm1 = (expand cm zone_files union).0

  abbrev cm3 : ConfigMap
  cm3 = (set_corefile cm1 corefile).0

  pub step1 : Moves AtStage before expanded (update_if (expand cm zone_files union).1 cm1)
  unfolding stage_config_map stage_items
  step1 = next_config_map before expanded _ refl (expand_unchanged cm zone_files union)

  pub step2 : Moves AtStage expanded mounted (set_volume_items r union previous false [])
  unfolding stage_config_map stage_items
  step2 =
      set_volume_items-Moves AtStage expanded mounted r cm1 union previous items (λ c h. h)
        (λ c h. h) false []

  pub step3 : Moves AtStage mounted switched (update_if (set_corefile cm1 corefile).1 cm3)
  unfolding stage_config_map stage_items
  step3 = next_config_map mounted switched _ refl (λ h. sym (set_corefile_unchanged cm1 corefile h))

  pub step4 :
      (restart : Bool) (hash : Text)
      → Moves AtStage switched contracted (set_volume_items r wanted previous restart hash)
  unfolding stage_config_map stage_items
  step4 restart hash =
      set_volume_items-Moves AtStage switched contracted r cm3 wanted previous mounted_now
        (λ c h. h) (λ c h. h) restart hash

  pub step5 :
      Moves AtStage contracted retired
        (update_if (retire cm3 leftover wanted).1 (retire cm3 leftover wanted).0)
  unfolding stage_config_map stage_items
  step5 = next_config_map contracted retired _ refl (retire_unchanged cm3 leftover wanted)

  -- Started at the first stage, a commit stops at one of the six, and at the last one if it returns
  -- without an error.
  pub commit-stages :
      (reloadable : Bool) (hash : Text)
      → Moves AtStage before retired
          (commit_core_dns r cm corefile zone_files previous reloadable hash)
  unfolding commit_core_dns
  commit-stages reloadable hash = Moves-bind AtStage before expanded retired _ _ step1 λ _.
      Moves-bind AtStage expanded mounted retired _ _ step2 λ _.
        Moves-bind AtStage mounted switched retired _ _ step3
          λ _. Moves-bind AtStage switched contracted retired _ _ (step4 _ hash) λ _. step5
