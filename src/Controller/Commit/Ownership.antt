-- ===== src/Controller/Commit/Ownership.antt =====
-- What a commit may touch, and what the managed-zone-keys annotation keeps track of.
use private_dns_operator.Prelude.{
  ◌≡◌, ◌≢◌, refl, Bool, true, false, not, ◌&&◌, ◌||◌, List, [], some, arith, all,
}
use private_dns_operator.Text.{Text, ◌==◌}
use private_dns_operator.Text.Set.{contains, all-contains, all_of_contains}
use private_dns_operator.Text.Map.{Map, lookup, has}
use private_dns_operator.Kube.{ConfigMap, KeyToPath, Result, ok, err}
use private_dns_operator.Kube.Api.{Cluster, World}
use private_dns_operator.Coredns.ConfigMap.{
  corefile_key, set_zone_files, set_corefile, remove_zone_files, managed_zone_keys,
}
use private_dns_operator.Coredns.ConfigMap.Claims.{
  is_key, contains-managed_zone_keys, managed_zone_keys-set_corefile,
}
use private_dns_operator.Controller.Keys.{
  map_keys, union_keys, subtract_keys, contains-union_keys, contains-subtract_keys,
}
use private_dns_operator.Coredns.ConfigMap.Files.{
  lookup-set_zone_files_other, lookup-set_corefile, lookup-remove_zone_files,
  cm_data-set_managed_zone_keys,
}
use private_dns_operator.Controller.Commit.{Reconciler, expand, retire, commit_core_dns}
use private_dns_operator.Controller.Commit.Plan.{
  IsPlan, has-cm1, has-cm3, has-cm5, key_sets, cm1, cm3, cm5, desired, stale, all_keys,
}
use private_dns_operator.Controller.Commit.Stages.{
  Stage, before, expanded, mounted, switched, contracted, retired, stage_config_map, stage_items,
  commit-stages,
}
use private_dns_operator.Controller.Commit.Steps.{At, Reached, deployment_items}

-- Every key of `now` is claimed by the operator, or was in the ConfigMap `then` without being its own.
pub record NoOrphan (start now : ConfigMap) : Type 0 where
  pub tracked :
      (k : Text)
      → has k now.cm_data ≡ true
      → (contains (managed_zone_keys now) k
          || (has k start.cm_data && not (contains (managed_zone_keys start) k)))
        ≡ true

module _ {names : Text → List Text} {cm : ConfigMap} {items : List KeyToPath} {corefile : Text}
    {zone_files : Map Text}
    (plan : IsPlan names cm items corefile zone_files (managed_zone_keys cm))
    (old_keys : all is_key (managed_zone_keys cm) ≡ true)
    (new_keys : all is_key (map_keys zone_files) ≡ true) where
  union-keys : all is_key (all_keys plan) ≡ true
  union-keys = all_of_contains is_key (all_keys plan) λ k h. ground (
    arith,
    contains-union_keys (managed_zone_keys cm) (map_keys zone_files) k,
    all-contains is_key (managed_zone_keys cm) k old_keys,
    all-contains is_key (map_keys zone_files) k new_keys,
  )

  claims-cm1 :
      (k : Text)
      → contains (managed_zone_keys (cm1 plan)) k
        ≡ (contains (managed_zone_keys cm) k || has k zone_files)
  unfolding expand
  claims-cm1 k = ground (
    arith,
    contains-managed_zone_keys (set_zone_files cm zone_files).0 (all_keys plan) k union-keys,
    key_sets plan k,
  )

  claims-cm3 :
      (k : Text)
      → contains (managed_zone_keys (cm3 plan)) k
        ≡ (contains (managed_zone_keys cm) k || has k zone_files)
  claims-cm3 k = rw (managed_zone_keys-set_corefile (cm1 plan) corefile) (claims-cm1 k)

  claims-cm5 : (k : Text) → contains (managed_zone_keys (cm5 plan)) k ≡ has k zone_files
  unfolding retire
  claims-cm5 k = ground (
    arith,
    contains-managed_zone_keys (remove_zone_files (cm3 plan) (stale plan)).0 (desired plan) k
        new_keys,
    key_sets plan k,
  )

  orphan_cm1 : NoOrphan cm (cm1 plan)
  orphan_cm1 = record { tracked = λ k h. ground (arith, has-cm1 plan k, claims-cm1 k) }

  orphan_cm3 : NoOrphan cm (cm3 plan)
  orphan_cm3 = record { tracked = λ k h. ground (arith, has-cm3 plan k, claims-cm3 k) }

  stage-NoOrphan :
      (s : Stage)
      → NoOrphan cm (stage_config_map cm corefile zone_files (managed_zone_keys cm) items s)
  unfolding stage_config_map
  stage-NoOrphan before = record { tracked = λ k h. ground arith }
  stage-NoOrphan expanded = orphan_cm1
  stage-NoOrphan mounted = orphan_cm1
  stage-NoOrphan switched = orphan_cm3
  stage-NoOrphan contracted = orphan_cm3
  stage-NoOrphan retired = record {
    tracked = λ k h. ground (arith, has-cm5 plan k, claims-cm5 k, key_sets plan k);
  }

-- A key that is no zone file, was never claimed and is not the Corefile.
pub record IsForeign (zone_files : Map Text) (previous : List Text) (k : Text) : Type 0 where
  pub no_file : has k zone_files ≡ false
  pub no_claim : contains previous k ≡ false
  pub no_corefile : (corefile_key == k) ≡ false

module _ (cm : ConfigMap) (items : List KeyToPath) (corefile : Text) (zone_files : Map Text)
    (previous : List Text) (some_corefile : corefile ≢ []) (k : Text)
    (foreign : IsForeign zone_files previous k) where
  abbrev first : ConfigMap
  first = (expand cm zone_files (union_keys previous (map_keys zone_files))).0

  abbrev second : ConfigMap
  second = (set_corefile first corefile).0

  lookup-first : lookup k first.cm_data ≡ lookup k cm.cm_data
  unfolding expand
  lookup-first =
      rw (cm_data-set_managed_zone_keys (set_zone_files cm zone_files).0 _)
        (lookup-set_zone_files_other cm zone_files k foreign.no_file)

  lookup-second : lookup k second.cm_data ≡ lookup k cm.cm_data
  lookup-second =
      ground (
        arith,
        lookup-set_corefile first corefile k some_corefile,
        foreign.no_corefile,
        lookup-first,
      )

  lookup-third :
      lookup k
        (retire second
          (subtract_keys previous (map_keys zone_files))
          (map_keys zone_files)).0.cm_data
      ≡ lookup k cm.cm_data
  unfolding retire
  lookup-third =
      let stale = subtract_keys previous (map_keys zone_files) in
      rw
        (
          cm_data-set_managed_zone_keys (remove_zone_files second stale).0 (map_keys zone_files),
          lookup-remove_zone_files second stale k,
          contains-subtract_keys previous (map_keys zone_files) k,
        )
        (ground (arith, foreign.no_claim, lookup-second))

  lookup-stage :
      (s : Stage)
      → lookup k (stage_config_map cm corefile zone_files previous items s).cm_data
        ≡ lookup k cm.cm_data
  unfolding stage_config_map
  lookup-stage before = refl
  lookup-stage expanded = lookup-first
  lookup-stage mounted = lookup-first
  lookup-stage switched = lookup-second
  lookup-stage contracted = lookup-second
  lookup-stage retired = lookup-third

-- The ConfigMap of a cluster has the property.
pub record HasConfigMap (P : ConfigMap → Type 0) (c : Cluster) : Type 0 where
  pub cm : ConfigMap
  pub held : c.config_map ≡ some cm
  pub property : P cm

pub Reached-HasConfigMap :
    {P : ConfigMap → Type 0} (name : Text) (f : Stage → ConfigMap) (g : Stage → List KeyToPath)
    (all_stages : (s : Stage) → P (f s)) (r : Result (Unit {0}) × World)
    → Reached (λ s c. At name (f s) (g s) c) retired r
    → HasConfigMap P r.1.cluster
Reached-HasConfigMap name f g all_stages (ok a, w) h = record {
  cm = f retired;
  held = h.config_map;
  property = all_stages retired;
}
Reached-HasConfigMap name f g all_stages (err e, w) (s, h) = record {
  cm = f s;
  held = h.config_map;
  property = all_stages s;
}

module _ (r : Reconciler) (cm : ConfigMap) (items : List KeyToPath) (corefile : Text)
    (zone_files : Map Text) (reloadable : Bool) (hash : Text) (w : World)
    (held : w.cluster.config_map ≡ some cm)
    (found : deployment_items r.core_dns_config_map w.cluster.deployment ≡ some items) where
  stages :
      (previous : List Text)
      → Reached
          (λ s c.
            At r.core_dns_config_map
              (stage_config_map cm corefile zone_files previous items s)
              (stage_items cm corefile zone_files previous items s)
              c)
          retired
          (commit_core_dns r cm corefile zone_files previous reloadable hash w)
  unfolding stage_config_map stage_items
  stages previous =
      commit-stages r cm corefile zone_files previous items reloadable hash w
        (record { config_map = held; mounted = items; found = found; same = λ k. refl })

  -- Over a plan for the ConfigMap in the cluster, its claimed keys and a Deployment that mounts
  -- it, where those keys and the rendered ones can stand in the annotation, wherever a commit is
  -- cut off, every key of the ConfigMap is claimed by the annotation, or was there before and was
  -- not claimed.
  pub commit_core_dns-NoOrphan :
      (names : Text → List Text)
      → IsPlan names cm items corefile zone_files (managed_zone_keys cm)
      → all is_key (managed_zone_keys cm) ≡ true
      → all is_key (map_keys zone_files) ≡ true
      → HasConfigMap
          (NoOrphan cm)
          (commit_core_dns r cm corefile zone_files
            (managed_zone_keys cm)
            reloadable
            hash
            w).1.cluster
  commit_core_dns-NoOrphan names plan old_keys new_keys =
      Reached-HasConfigMap r.core_dns_config_map
        (stage_config_map cm corefile zone_files (managed_zone_keys cm) items)
        (stage_items cm corefile zone_files (managed_zone_keys cm) items)
        (stage-NoOrphan plan old_keys new_keys) _ (stages (managed_zone_keys cm))

  -- From the ConfigMap in the cluster and a Deployment that mounts it, where the new Corefile is
  -- not empty, a key that is no zone file, is not claimed and is not the Corefile keeps its
  -- content, wherever a commit is cut off.
  pub commit_core_dns-foreign :
      (previous : List Text) (k : Text)
      → corefile ≢ []
      → IsForeign zone_files previous k
      → HasConfigMap
          (λ now. lookup k now.cm_data ≡ lookup k cm.cm_data)
          (commit_core_dns r cm corefile zone_files previous reloadable hash w).1.cluster
  commit_core_dns-foreign previous k some_corefile foreign =
      Reached-HasConfigMap r.core_dns_config_map
        (stage_config_map cm corefile zone_files previous items)
        (stage_items cm corefile zone_files previous items)
        (lookup-stage cm items corefile zone_files previous some_corefile k foreign) _
        (stages previous)
