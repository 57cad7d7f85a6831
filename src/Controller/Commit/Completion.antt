-- ===== src/Controller/Commit/Completion.antt =====
-- A commit that no call disturbs returns, and what it leaves.
use private_dns_operator.Prelude.{
  ◌≡◌, refl, Bool, true, false, not, ◌&&◌, List, [], Option, none, some,
}
use private_dns_operator.Text.{Text, sort_texts}
use private_dns_operator.Text.Map.{Map}
use private_dns_operator.Kube.{ConfigMap, Deployment, KeyToPath, Result, ok, err}
use private_dns_operator.Kube.Api.{
  Cluster, World, Api, ◌>>=◌, pure, get, update_config_map, update_deployment, written, next_fault,
  later_faults, read_result, object_or_not_found, Write, Fault, fine, refused, lost,
}
use private_dns_operator.Coredns.Deployment.{ensure_zone_volume_items}
use private_dns_operator.Coredns.Deployment.Volumes.{mounted_items, ensure_volumes-some}
use private_dns_operator.Controller.Commit.Stages.{
  Stage, before, expanded, mounted, switched, contracted, AtStage, step1, step2, step3, step4,
}
use private_dns_operator.Controller.Commit.Steps.{Moves, deployment_items}
use private_dns_operator.Controller.Commit.{
  Reconciler, lift, update_if, restarted, write_deployment, set_volume_items, expand, retire,
  commit_core_dns,
}
use private_dns_operator.Coredns.ConfigMap.{set_corefile}
use private_dns_operator.Controller.Keys.{map_keys, union_keys, subtract_keys}

-- The run returned a value and met no fault.
abbrev pub Done : {A : Type 0} → Result A × World → Type 0
Done (ok a, w) = w.faults ≡ []
Done (err e, w) = ⊥

pub Done-bind :
    {A B : Type 0} (m : Result A × World) (f : A → Api B)
    → Done m
    → ((a : A) (w : World) → m ≡ (ok a, w) → w.faults ≡ [] → Done (f a w))
    → Done {A = B} (let (r, w') = m in elim r [ ok a ↦ f a w' | err e ↦ (err e, w') ])
Done-bind (ok a, w) f h rest = rest a w refl h
Done-bind (err e, w) f h rest = absurd h

written-Done :
    (x : Write) (c : Cluster) (w : World)
    → w.faults ≡ []
    → Done (written (next_fault w.faults) x c w)
unfolding written next_fault later_faults
written-Done x c w h = rw h

update_if-Done :
    (changed : Bool) (cm : ConfigMap) (w : World) → w.faults ≡ [] → Done (update_if changed cm w)
unfolding update_if update_config_map
update_if-Done true cm w h = written-Done _ _ w h
update_if-Done false cm w h = h

write_deployment-Done :
    (d : Deployment × Bool) (w : World) → w.faults ≡ [] → Done (write_deployment d w)
unfolding write_deployment update_deployment
write_deployment-Done (dep, true) w h =
    Done-bind _ (λ _. pure true) (written-Done _ _ w h) (λ _ w' _ q. q)
write_deployment-Done (dep, false) w h = h

module _ (r : Reconciler) (mount previous : List Text) (restart : Bool) (hash : Text) where
  -- what follows the read of the Deployment
  after_ensure-Done :
      (dep : Deployment) (mount_items : List KeyToPath) (w : World)
      → mounted_items r.core_dns_config_map dep.volumes ≡ some mount_items
      → w.faults ≡ []
      → Done (
          (do
            ensured ← lift (ensure_zone_volume_items dep r.core_dns_config_map mount previous)
            write_deployment (restarted restart hash ensured))
            w)
  unfolding lift ensure_zone_volume_items
  after_ensure-Done dep mount_items w found h =
      let (vs, run, found') =
        ensure_volumes-some r.core_dns_config_map (sort_texts mount) previous dep.volumes
          mount_items found in
      rw (run, ensure_zone_volume_items) (write_deployment-Done _ w h)

  after_get-Done :
      (f : Fault) (o : Option Deployment) (items : List KeyToPath) (w : World)
      → f ≡ fine
      → deployment_items r.core_dns_config_map o ≡ some items
      → w.faults ≡ []
      → Done {A = Bool} (elim (read_result f o) [
        | ok dep ↦
            (do
              ensured ← lift (ensure_zone_volume_items dep r.core_dns_config_map mount previous)
              write_deployment (restarted restart hash ensured))
              w
        | err e ↦ (err e, w)
      ])
  unfolding read_result object_or_not_found deployment_items
  after_get-Done fine none items w q found h = cc
  after_get-Done fine (some dep) items w q found h = after_ensure-Done dep items w found h
  after_get-Done (refused x) o items w q found h = cc
  after_get-Done (lost x) o items w q found h = cc

  set_volume_items-Done :
      (items : List KeyToPath) (w : World)
      → deployment_items r.core_dns_config_map w.cluster.deployment ≡ some items
      → w.faults ≡ []
      → Done (set_volume_items r mount previous restart hash w)
  unfolding set_volume_items get next_fault later_faults
  set_volume_items-Done items w found h =
      after_get-Done _ w.cluster.deployment items (record w { faults = later_faults w.faults })
        (rw h) found (rw h)

-- A step between two stages, and what follows it.
after_step :
    {A B S : Type 0} (Stage : S → Cluster → Type 0) (s t : S) (m : Api A) (f : A → Api B)
    (w : World)
    → Moves Stage s t m
    → Stage s w.cluster
    → Done (m w)
    → ((a : A) (w' : World) → Stage t w'.cluster → w'.faults ≡ [] → Done (f a w'))
    → Done ((m >>= f) w)
after_step Stage s t m f w moves h done rest =
    Done-bind (m w) f done λ a w' e q. rest a w' (rw e at (moves w h)) q

module _ (r : Reconciler) (cm : ConfigMap) (corefile : Text) (zone_files : Map Text)
    (previous : List Text) (items : List KeyToPath) where
  abbrev At_ : Stage → Cluster → Type 0
  At_ = AtStage r cm corefile zone_files previous items

  -- A commit over a Deployment that mounts the ConfigMap returns when no call fails.
  pub commit-Done :
      (reloadable : Bool) (hash : Text) (w : World)
      → At_ before w.cluster
      → w.faults ≡ []
      → Done (commit_core_dns r cm corefile zone_files previous reloadable hash w)
  unfolding commit_core_dns
  commit-Done reloadable hash w h q =
      let wanted = map_keys zone_files in
      let filled = (expand cm zone_files (union_keys previous wanted)).0 in
      let switch = set_corefile filled corefile in
      let last = retire switch.0 (subtract_keys previous wanted) wanted in
      let restart = switch.1 && not reloadable in
      after_step At_ before expanded _ _ w (step1 r cm corefile zone_files previous items) h
        (update_if-Done _ _ w q)
        λ _ w1 h1 q1.
          after_step At_ expanded mounted _ _ w1 (step2 r cm corefile zone_files previous items) h1
            (set_volume_items-Done r _ previous false [] h1.mounted w1 h1.found q1)
            λ _ w2 h2 q2.
              after_step At_ mounted switched _ _ w2 (step3 r cm corefile zone_files previous items)
                h2 (update_if-Done _ _ w2 q2)
                λ _ w3 h3 q3.
                  after_step At_ switched contracted
                    (set_volume_items r wanted previous restart hash) (λ _. update_if last.1 last.0)
                    w3 (step4 r cm corefile zone_files previous items restart hash) h3
                    (set_volume_items-Done r wanted previous restart hash h3.mounted w3 h3.found q3)
                    λ _ w4 h4 q4. update_if-Done last.1 last.0 w4 q4
