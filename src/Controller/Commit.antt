-- ===== src/Controller/Commit.antt =====
-- `commitCoreDNS` and `setVolumeItems` of internal/controller/privatednszone_controller.go. Log lines
-- are left out, and with them the Deployment that setVolumeItems returns for one.
pub mod Steps
pub mod Stages
pub mod Plan
pub mod Serving
pub mod Safety
pub mod Ownership
pub mod Completion
pub mod Outcome
pub mod Restart
pub mod Steady
pub mod Keeps
mod Tests
use private_dns_operator.Prelude.{Bool, true, false, not, ◌&&◌, ◌||◌, List, [], if◌then◌else◌}
use private_dns_operator.Text.{Text, codes}
use private_dns_operator.Text.Map.{Map}
use private_dns_operator.Kube.{ConfigMap, Deployment, Result, ok, err}
use private_dns_operator.Kube.Api.{
  Api, ◌>>=◌, ◌>>◌, pure, fail, get, update_config_map, update_deployment,
}
use private_dns_operator.Coredns.ConfigMap.{
  set_zone_files, set_corefile, remove_zone_files, set_managed_zone_keys,
}
use private_dns_operator.Coredns.Deployment.{ensure_zone_volume_items, mark_rollout_restart}
use private_dns_operator.Controller.Keys.{map_keys, subtract_keys, union_keys}

-- PrivateDNSZoneReconciler: the names of the CoreDNS objects.
pub record Reconciler : Type 0 where
  pub core_dns_namespace : Text
  pub core_dns_config_map : Text
  pub core_dns_deployment : Text

-- A function of internal/coredns that may fail.
unfoldable pub lift : {A : Type 0} → Result A → Api A
lift (ok a) = pure a
lift (err e) = fail e

-- `if changed { if err := r.Update(ctx, cm); err != nil { return err } }`
unfoldable pub update_if : Bool → ConfigMap → Api (Unit {0})
update_if changed cm = if changed then update_config_map cm else pure tt

-- The Deployment after the optional restart stamp, and whether it has to be written.
unfoldable pub restarted : Bool → Text → Deployment × Bool → Deployment × Bool
unfolding mark_rollout_restart
restarted restart restart_hash (dep, changed) =
    if restart
    then (mark_rollout_restart dep (codes "private-dns-zone-change") restart_hash, true)
    else (dep, changed)

unfoldable pub write_deployment : Deployment × Bool → Api Bool
write_deployment (dep, changed) =
    if changed then (do update_deployment dep; pure changed) else pure changed

module _ (r : Reconciler) where
  unfoldable pub set_volume_items : List Text → List Text → Bool → Text → Api Bool
  unfolding lift restarted write_deployment
  set_volume_items mount_keys previous_managed_keys restart restart_hash = do
    dep ← get (λ c. c.deployment)
    ensured ←
        lift (ensure_zone_volume_items dep r.core_dns_config_map mount_keys previous_managed_keys)
    write_deployment (restarted restart restart_hash ensured)

-- The ConfigMap that step 1 writes, and whether it writes it.
unfoldable pub expand : ConfigMap → Map Text → List Text → ConfigMap × Bool
expand cm zone_files keys =
    let (filled, changed) = set_zone_files cm zone_files in
    let (claimed, widened) = set_managed_zone_keys filled keys in (claimed, widened || changed)

-- The ConfigMap that step 5 writes, and whether it writes it.
unfoldable pub retire : ConfigMap → List Text → List Text → ConfigMap × Bool
retire cm stale desired =
    let (emptied, changed) = remove_zone_files cm stale in
    let (claimed, narrowed) = set_managed_zone_keys emptied desired in
    (claimed, narrowed || changed)

unfoldable pub commit_core_dns :
    Reconciler → ConfigMap → Text → Map Text → List Text → Bool → Text → Api (Unit {0})
unfolding update_if set_volume_items expand retire
commit_core_dns r cm corefile zone_files previous_managed_keys reloadable restart_hash = do
  let desired_keys = map_keys zone_files
  let stale_keys = subtract_keys previous_managed_keys desired_keys
  let mount_all_keys = union_keys previous_managed_keys desired_keys
  let step1 = expand cm zone_files mount_all_keys
  update_if step1.1 step1.0
  set_volume_items r mount_all_keys previous_managed_keys false []
  let step3 = set_corefile step1.0 corefile
  update_if step3.1 step3.0
  set_volume_items r desired_keys previous_managed_keys (step3.1 && not reloadable) restart_hash
  let step5 = retire step3.0 stale_keys desired_keys
  update_if step5.1 step5.0
