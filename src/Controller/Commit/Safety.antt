-- ===== src/Controller/Commit/Safety.antt =====
-- The two invariants of the CoreDNS volume hold after every commit, complete or cut off.
use private_dns_operator.Prelude.{◌≡◌, refl, sym, ◌∙◌, Bool, List, some, arith}
use private_dns_operator.Text.{Text}
use private_dns_operator.Text.Map.{Map}
use private_dns_operator.Kube.{ConfigMap, KeyToPath, Result, ok, err}
use private_dns_operator.Kube.Api.{Cluster, World}
use private_dns_operator.Coredns.Deployment.Volumes.{is_empty-same}
use private_dns_operator.Controller.Commit.{Reconciler, commit_core_dns}
use private_dns_operator.Controller.Commit.Stages.{
  Stage, retired, stage_config_map, stage_items, commit-stages,
}
use private_dns_operator.Controller.Commit.Steps.{At, SameItems, Reached, deployment_items}
use private_dns_operator.Controller.Commit.Plan.{Serves, IsPlan}
use private_dns_operator.Controller.Commit.Serving.{stage-Serves}

-- Serving does not depend on the order of the items.
Serves-same :
    (names : Text → List Text) (cm : ConfigMap) (xs ys : List KeyToPath)
    → SameItems xs ys
    → Serves names cm ys
    → Serves names cm xs
Serves-same names cm xs ys same h = record {
  exists_in_map = λ k e. h.exists_in_map k (sym (same k) ∙ e);
  is_read = λ k e. ground (arith, h.is_read k e, same k, is_empty-same xs ys same);
}

-- The cluster has the ConfigMap and a Deployment that mounts it, and both invariants hold.
pub record IsServing (names : Text → List Text) (name : Text) (c : Cluster) : Type 0 where
  pub cm : ConfigMap
  pub items : List KeyToPath
  pub held : c.config_map ≡ some cm
  pub mounts : deployment_items name c.deployment ≡ some items
  pub serves : Serves names cm items

pub At-IsServing :
    {names : Text → List Text} {name : Text} {cm : ConfigMap} {items : List KeyToPath} {c : Cluster}
    → At name cm items c
    → Serves names cm items
    → IsServing names name c
At-IsServing {names} {name} {cm} {items} {c} at h = record {
  cm = cm;
  items = at.mounted;
  held = at.config_map;
  mounts = at.found;
  serves = Serves-same names cm at.mounted items at.same h;
}

Reached-IsServing :
    {names : Text → List Text} {name : Text} (f : Stage → ConfigMap) (g : Stage → List KeyToPath)
    (all_serve : (s : Stage) → Serves names (f s) (g s)) (r : Result (Unit {0}) × World)
    → Reached (λ s c. At name (f s) (g s) c) retired r
    → IsServing names name r.1.cluster
Reached-IsServing f g all_serve (ok a, w) h = At-IsServing h (all_serve retired)
Reached-IsServing f g all_serve (err e, w) (s, h) = At-IsServing h (all_serve s)

-- Started from a ConfigMap in the cluster and a Deployment that mounts it, with a plan for them
-- (IsPlan, by which they serve already), a commit leaves a cluster that serves, whatever calls are
-- refused or lost, so at every point at which it can be cut off: every key that the volume names
-- exists in the ConfigMap, and the Corefile and every file that it reads are mounted.
pub commit_core_dns-IsServing :
    (names : Text → List Text) (r : Reconciler) (cm : ConfigMap) (items : List KeyToPath)
    (corefile : Text) (zone_files : Map Text) (previous : List Text) (reloadable : Bool)
    (hash : Text) (w : World)
    → IsPlan names cm items corefile zone_files previous
    → w.cluster.config_map ≡ some cm
    → deployment_items r.core_dns_config_map w.cluster.deployment ≡ some items
    → IsServing names r.core_dns_config_map
        (commit_core_dns r cm corefile zone_files previous reloadable hash w).1.cluster
commit_core_dns-IsServing names r cm items corefile zone_files previous reloadable hash w plan held
      found =
    Reached-IsServing (stage_config_map cm corefile zone_files previous items)
      (stage_items cm corefile zone_files previous items) (stage-Serves plan) _
      (commit-stages r cm corefile zone_files previous items reloadable hash w (
        unfold stage_config_map stage_items in
        record { config_map = held; mounted = items; found = found; same = λ k. refl }))
