-- ===== src/Controller/Commit/Outcome.antt =====
-- What an undisturbed commit leaves in the cluster.
use private_dns_operator.Prelude.{
  ◌≡◌, refl, ap, Bool, true, false, List, [], some, arith, is_empty, inl, inr, Bool-cases,
}
use private_dns_operator.Text.{Text, ◌==◌}
use private_dns_operator.Text.Eq.{eq_iff}
use private_dns_operator.Text.Set.{contains}
use private_dns_operator.Text.Map.{Map, lookup, has, keys}
use private_dns_operator.Kube.{ConfigMap, KeyToPath, Result, ok, err}
use private_dns_operator.Kube.Api.{World}
use private_dns_operator.Coredns.ConfigMap.{corefile_key, set_zone_files, remove_zone_files}
use private_dns_operator.Coredns.ConfigMap.Files.{
  distinct, lookup-set_zone_files, lookup-set_corefile, lookup-remove_zone_files,
  cm_data-set_managed_zone_keys,
}
use private_dns_operator.Coredns.Deployment.Volumes.{is_empty-same}
use private_dns_operator.Controller.Commit.{Reconciler, expand, retire, commit_core_dns}
use private_dns_operator.Controller.Commit.Plan.{
  corefile_of, is_mounted, IsPlan, has-cm5, key_sets, corefile-cm5, fin, cm1, cm3, cm5, stale,
  desired, all_keys,
}
use private_dns_operator.Controller.Commit.Serving.{fin-keys, fin-explicit, fin-items}
use private_dns_operator.Controller.Commit.Stages.{
  Stage, retired, stage_config_map, stage_items, commit-stages,
}
use private_dns_operator.Controller.Commit.Steps.{At, Reached, SameItems, deployment_items}
use private_dns_operator.Controller.Commit.Completion.{Done, commit-Done}

-- The plan is carried out: the new Corefile and zone files are in place and mounted, and what was
-- claimed and is not rendered any more is neither mounted nor in the ConfigMap.
pub record CarriesOut (corefile : Text) (zone_files : Map Text) (previous : List Text)
    (cm : ConfigMap) (items : List KeyToPath) : Type 0 where
  pub new_corefile : corefile_of cm ≡ corefile
  pub filled : (k : Text) → has k zone_files ≡ true → lookup k cm.cm_data ≡ lookup k zone_files
  pub mounted : (k : Text) → has k zone_files ≡ true → is_mounted cm items k ≡ true
  pub removed :
      (k : Text)
      → contains previous k ≡ true
      → has k zone_files ≡ false
      → (has k cm.cm_data ≡ false) × (is_mounted cm items k ≡ false)

module _ {names : Text → List Text} {cm : ConfigMap} {items : List KeyToPath} {corefile : Text}
    {zone_files : Map Text} {previous : List Text}
    (plan : IsPlan names cm items corefile zone_files previous)
    (unique : distinct (keys zone_files) ≡ true) where
  lookup-cm1 :
      (k : Text) → has k zone_files ≡ true → lookup k (cm1 plan).cm_data ≡ lookup k zone_files
  unfolding expand
  lookup-cm1 k h =
      rw (cm_data-set_managed_zone_keys (set_zone_files cm zone_files).0 (all_keys plan))
        (ground (arith, lookup-set_zone_files cm zone_files k unique))

  not_corefile : (k : Text) → has k zone_files ≡ true → (corefile_key == k) ≡ false
  not_corefile k h = ground (
    arith,
    plan.no_zone_file,
    eq_iff corefile_key k,
    λ (e : corefile_key ≡ k). ap (λ (t : Text). has t zone_files) e,
  )

  lookup-cm5 :
      (k : Text) → has k zone_files ≡ true → lookup k (cm5 plan).cm_data ≡ lookup k zone_files
  unfolding retire
  lookup-cm5 k h =
      rw
        (
          cm_data-set_managed_zone_keys (remove_zone_files (cm3 plan) (stale plan)).0
              (desired plan),
          lookup-remove_zone_files (cm3 plan) (stale plan) k,
        )
        (ground (
          arith,
          key_sets plan k,
          lookup-set_corefile (cm1 plan) corefile k plan.some_corefile,
          not_corefile k h,
          lookup-cm1 k h,
        ))

  mounted-fin :
      (k : Text)
      → (has k zone_files ≡ true → is_mounted (cm5 plan) (fin plan) k ≡ true)
        × (contains previous k ≡ true
            → has k zone_files ≡ false
            → is_mounted (cm5 plan) (fin plan) k ≡ false)
  mounted-fin k = elim (Bool-cases (is_empty items)) [
    | inl whole ↦ rw (fin-items plan whole) (
      ground (arith, has-cm5 plan k, key_sets plan k),
      ground (arith, has-cm5 plan k, key_sets plan k),
    )
    | inr explicit ↦ (
      ground (arith, fin-keys plan explicit k, fin-explicit plan explicit),
      ground (arith, fin-keys plan explicit k, fin-explicit plan explicit),
    )
  ]

  carried_out : CarriesOut corefile zone_files previous (cm5 plan) (fin plan)
  carried_out = record {
    new_corefile = corefile-cm5 plan;
    filled = lookup-cm5;
    mounted = λ k h. (mounted-fin k).0 h;
    removed = λ k h n. (ground (arith, has-cm5 plan k, key_sets plan k), (mounted-fin k).1 h n);
  }

-- The order of the items does not matter.
CarriesOut-same :
    {corefile : Text} {zone_files : Map Text} {previous : List Text} {cm : ConfigMap}
    (xs ys : List KeyToPath)
    → SameItems xs ys
    → CarriesOut corefile zone_files previous cm ys
    → CarriesOut corefile zone_files previous cm xs
CarriesOut-same xs ys same h = record {
  new_corefile = h.new_corefile;
  filled = h.filled;
  mounted = λ k e. ground (arith, h.mounted k e, same k, is_empty-same xs ys same);
  removed = λ k e n. ground (arith, h.removed k e n, same k, is_empty-same xs ys same);
}

-- A commit returned, and the cluster carries the plan out.
pub record IsCommitted (name corefile : Text) (zone_files : Map Text) (previous : List Text)
    (run : Result (Unit {0}) × World) : Type 0 where
  pub returned : run.0 ≡ ok tt
  pub cm : ConfigMap
  pub items : List KeyToPath
  pub held : run.1.cluster.config_map ≡ some cm
  pub mounts : deployment_items name run.1.cluster.deployment ≡ some items
  pub carried : CarriesOut corefile zone_files previous cm items

Done-IsCommitted :
    (name corefile : Text) (zone_files : Map Text) (previous : List Text) (f : Stage → ConfigMap)
    (g : Stage → List KeyToPath)
    → CarriesOut corefile zone_files previous (f retired) (g retired)
    → (run : Result (Unit {0}) × World) → Done run
    → Reached (λ s c. At name (f s) (g s) c) retired run
    → IsCommitted name corefile zone_files previous run
Done-IsCommitted name corefile zone_files previous f g carried (ok tt, w) done h = record {
  returned = refl;
  cm = f retired;
  items = h.mounted;
  held = h.config_map;
  mounts = h.found;
  carried = CarriesOut-same h.mounted (g retired) h.same carried;
}
Done-IsCommitted name corefile zone_files previous f g carried (err e, w) done h = absurd done

-- Where no call fails and the rendered keys are distinct, a commit over a plan for the ConfigMap
-- in the cluster and a Deployment that mounts it returns without an error, with the new Corefile
-- and every zone file in the ConfigMap and mounted, and with every key that was claimed and is not
-- rendered any more gone from both.
pub commit_core_dns-IsCommitted :
    (names : Text → List Text) (r : Reconciler) (cm : ConfigMap) (items : List KeyToPath)
    (corefile : Text) (zone_files : Map Text) (previous : List Text) (reloadable : Bool)
    (hash : Text) (w : World)
    → IsPlan names cm items corefile zone_files previous
    → distinct (keys zone_files) ≡ true
    → w.cluster.config_map ≡ some cm
    → deployment_items r.core_dns_config_map w.cluster.deployment ≡ some items
    → w.faults ≡ []
    → IsCommitted r.core_dns_config_map corefile zone_files previous
        (commit_core_dns r cm corefile zone_files previous reloadable hash w)
unfolding stage_config_map stage_items
commit_core_dns-IsCommitted names r cm items corefile zone_files previous reloadable hash w plan
      unique held found quiet =
    Done-IsCommitted r.core_dns_config_map corefile zone_files previous
      (stage_config_map cm corefile zone_files previous items)
      (stage_items cm corefile zone_files previous items) (carried_out plan unique) _
      (commit-Done r cm corefile zone_files previous items reloadable hash w
        (record { config_map = held; mounted = items; found = found; same = λ k. refl }) quiet)
      (commit-stages r cm corefile zone_files previous items reloadable hash w
        (record { config_map = held; mounted = items; found = found; same = λ k. refl }))
