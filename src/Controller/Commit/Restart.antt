-- ===== src/Controller/Commit/Restart.antt =====
-- When a commit stamps a rollout restart.
use private_dns_operator.Prelude.{
  ◌≡◌, ◌≢◌, refl, ap, subst, sym, ◌∙◌, Bool, true, false, ◌&&◌, List, [], some, arith, Bool-cases,
  inl, inr,
}
use private_dns_operator.Text.{Text, ◌==◌, codes}
use private_dns_operator.Text.Eq.{eq_iff}
use private_dns_operator.Text.Map.{Map, has, lookup, insert, lookup-insert}
use private_dns_operator.Kube.{ConfigMap, Deployment, KeyToPath, Result, ok, err}
use private_dns_operator.Kube.Api.{Api, Cluster, World, ◌>>=◌, get, later_faults}
use private_dns_operator.Coredns.ConfigMap.{
  corefile_key, value_or_empty, set_zone_files, set_corefile,
}
use private_dns_operator.Coredns.ConfigMap.Files.{
  lookup-set_zone_files_other, cm_data-set_managed_zone_keys,
}
use private_dns_operator.Coredns.Deployment.{
  restart_reason_annotation, restart_hash_annotation, mark_rollout_restart,
  ensure_zone_volume_items,
}
use private_dns_operator.Controller.Keys.{map_keys, union_keys, subtract_keys}
use private_dns_operator.Controller.Commit.{
  Reconciler, lift, update_if, restarted, write_deployment, set_volume_items, expand, retire,
  commit_core_dns,
}
use private_dns_operator.Controller.Commit.Completion.{Done, commit-Done}
use private_dns_operator.Controller.Commit.Plan.{corefile_of}
use private_dns_operator.Controller.Commit.Stages.{stage_config_map, stage_items}
use private_dns_operator.Controller.Commit.Steps.{
  Reached, Moves, Moves-bind, update_if-Moves, write_deployment-Moves, deployment_items,
}

-- The pod template asks for a restart for this hash.
pub record IsStamped (hash : Text) (dep : Deployment) : Type 0 where
  pub hash_stamped : lookup restart_hash_annotation dep.annotations ≡ some hash
  pub reason_stamped :
      lookup restart_reason_annotation dep.annotations ≡ some (codes "private-dns-zone-change")

-- The Deployment of the cluster asks for it.
abbrev pub AsksRestart : Text → Cluster → Type 0
AsksRestart hash c = (dep : Deployment) × (c.deployment ≡ some dep) × IsStamped hash dep

mark-IsStamped :
    (dep : Deployment) (hash : Text)
    → IsStamped hash (mark_rollout_restart dep (codes "private-dns-zone-change") hash)
unfolding mark_rollout_restart ◌==◌
mark-IsStamped dep hash =
    let reason = codes "private-dns-zone-change" in
    let reasons = insert restart_reason_annotation reason dep.annotations in
    record {
      hash_stamped = lookup-insert restart_hash_annotation restart_hash_annotation hash reasons;
      reason_stamped =
          lookup-insert restart_hash_annotation restart_reason_annotation hash reasons
          ∙ lookup-insert restart_reason_annotation restart_reason_annotation reason
              dep.annotations;
    }

module _ (hash : Text) where
  -- Whether the restart has been asked for; nothing is said of a cluster where it has not.
  abbrev Stamp : Bool → Cluster → Type 0
  Stamp false c = Unit
  Stamp true c = AsksRestart hash c

  any_run : {A : Type 0} (m : Api A) → Moves Stamp false false m
  any_run {A} m w h = ended (m w)
    where
      ended : (run : Result A × World) → Reached Stamp false run
      ended (ok a, w') = tt
      ended (err e, w') = (false, tt)

  module _ (r : Reconciler) (mount previous : List Text) where
    after_ensure :
        (found : Result (Deployment × Bool))
        → Moves Stamp false true
            (do ensured ← lift found; write_deployment (restarted true hash ensured))
    unfolding lift restarted
    after_ensure (err e) w h = (false, tt)
    after_ensure (ok (dep, changed)) w h =
        let marked = mark_rollout_restart dep (codes "private-dns-zone-change") hash in
        write_deployment-Moves Stamp false true marked true
          (λ c _. (marked, refl, mark-IsStamped dep hash)) (λ e. cc) w h

    after_get :
        (found : Result Deployment)
        → (w : World)
        → Reached Stamp {A = Bool} true (elim found [
          | ok dep ↦
              (do
                ensured ← lift (ensure_zone_volume_items dep r.core_dns_config_map mount previous)
                write_deployment (restarted true hash ensured))
                w
          | err e ↦ (err e, w)
        ])
    after_get (ok dep) w =
        after_ensure (ensure_zone_volume_items dep r.core_dns_config_map mount previous) w tt
    after_get (err e) w = (false, tt)

    stamping_step : Moves Stamp false true (set_volume_items r mount previous true hash)
    unfolding set_volume_items get
    stamping_step w h = after_get _ (record w { faults = later_faults w.faults })

  last_step : (changed : Bool) (cm : ConfigMap) → Moves Stamp true true (update_if changed cm)
  last_step changed cm = update_if-Moves Stamp true true changed cm (λ c h. h) (λ e c h. h)

module _ (cm : ConfigMap) (corefile : Text) (zone_files : Map Text) (ks : List Text)
    (outdated : (corefile_of cm == corefile) ≡ false)
    (no_file : has corefile_key zone_files ≡ false) where
  corefile_kept : corefile_of (expand cm zone_files ks).0 ≡ corefile_of cm
  unfolding expand
  corefile_kept =
      rw (cm_data-set_managed_zone_keys (set_zone_files cm zone_files).0 ks)
        (ap value_or_empty (lookup-set_zone_files_other cm zone_files corefile_key no_file))

  is_switched : (set_corefile (expand cm zone_files ks).0 corefile).1 ≡ true
  unfolding set_corefile
  is_switched =
      let still = ap (λ (t : Text). t == corefile) corefile_kept ∙ outdated in ground (arith, still)

guarded_step :
    (r : Reconciler) (mount previous : List Text) (hash : Text) (restart : Bool)
    → restart ≡ true
    → Moves (Stamp hash) false true (set_volume_items r mount previous restart hash)
guarded_step r mount previous hash restart e =
    subst (λ (b : Bool). Moves (Stamp hash) false true (set_volume_items r mount previous b hash))
      (sym e) (stamping_step hash r mount previous)

module _ (r : Reconciler) (cm : ConfigMap) (corefile : Text) (zone_files : Map Text)
    (previous : List Text) (hash : Text) (outdated : (corefile_of cm == corefile) ≡ false)
    (no_file : has corefile_key zone_files ≡ false) where
  stamping_commit :
      Moves (Stamp hash) false true (commit_core_dns r cm corefile zone_files previous false hash)
  unfolding commit_core_dns
  stamping_commit =
      let wanted = map_keys zone_files in
      let all_keys = union_keys previous wanted in
      let step1 = expand cm zone_files all_keys in
      let switch = set_corefile step1.0 corefile in
      let restart = switch.1 && true in
      let step5 = retire switch.0 (subtract_keys previous wanted) wanted in
      let asks : restart ≡ true =
        let changed = is_switched cm corefile zone_files all_keys outdated no_file in
        ground (arith, changed) in
      Moves-bind (Stamp hash) false false true (update_if step1.1 step1.0) _ (any_run hash _) λ _.
        Moves-bind (Stamp hash) false false true (set_volume_items r all_keys previous false []) _
          (any_run hash _)
          λ _.
            Moves-bind (Stamp hash) false false true (update_if switch.1 switch.0) _
              (any_run hash _)
              λ _.
                Moves-bind (Stamp hash) false true true
                  (set_volume_items r wanted previous restart hash) _
                  (guarded_step r wanted previous hash restart asks)
                  λ _. last_step hash step5.1 step5.0

asked :
    (hash : Text) (run : Result (Unit {0}) × World)
    → Done run
    → Reached (Stamp hash) {A = Unit {0}} true run
    → (run.0 ≡ ok tt) × AsksRestart hash run.1.cluster
asked hash (ok tt, w) done h = (refl, h)
asked hash (err e, w) done h = absurd done

differs : (s t : Text) → s ≢ t → (s == t) ≡ false
differs s t h = elim (Bool-cases (s == t)) [
  | inl same ↦ absurd (h ((eq_iff s t).0 same))
  | inr other ↦ other
]

-- Where no call fails, the Deployment mounts the ConfigMap in the cluster, the Corefile in it
-- differs from the new one and no zone file has its name, a commit for a CoreDNS that cannot
-- reload by itself returns without an error and leaves a Deployment whose pod template has the
-- annotations that ask for a restart, with the given hash.
pub commit_core_dns-AsksRestart :
    (r : Reconciler) (cm : ConfigMap) (items : List KeyToPath) (corefile : Text)
    (zone_files : Map Text) (previous : List Text) (hash : Text) (w : World)
    → corefile_of cm ≢ corefile
    → has corefile_key zone_files ≡ false
    → w.cluster.config_map ≡ some cm
    → deployment_items r.core_dns_config_map w.cluster.deployment ≡ some items
    → w.faults ≡ []
    → ((commit_core_dns r cm corefile zone_files previous false hash w).0 ≡ ok tt)
      × AsksRestart hash (commit_core_dns r cm corefile zone_files previous false hash w).1.cluster
commit_core_dns-AsksRestart r cm items corefile zone_files previous hash w outdated no_file held
      found quiet =
    asked hash _
      (commit-Done r cm corefile zone_files previous items false hash w
        (unfold stage_config_map stage_items in
          record { config_map = held; mounted = items; found = found; same = λ k. refl })
        quiet)
      (stamping_commit r cm corefile zone_files previous hash
        (differs (corefile_of cm) corefile outdated) no_file w tt)
