-- ===== src/Controller/Commit/Keeps.antt =====
-- A commit touches the ConfigMap and the Deployment only.
use private_dns_operator.Prelude.{Bool, true, false, not, ◌&&◌, List, [], some}
use private_dns_operator.Text.{Text}
use private_dns_operator.Text.Map.{Map}
use private_dns_operator.Kube.{ConfigMap, Deployment, Result, ok, err}
use private_dns_operator.Kube.Api.{
  Cluster, ◌>>=◌, ◌>>◌, pure, get, update_config_map, update_deployment, wrote_config_map,
  wrote_deployment,
}
use private_dns_operator.Kube.Api.Keeps.{Keeps, Keeps-bind, Keeps-then, get-Keeps, written-keeps}
use private_dns_operator.Coredns.ConfigMap.{set_corefile}
use private_dns_operator.Coredns.Deployment.{ensure_zone_volume_items}
use private_dns_operator.Controller.Keys.{map_keys, union_keys, subtract_keys}
use private_dns_operator.Controller.Commit.{
  Reconciler, lift, update_if, restarted, write_deployment, set_volume_items, expand, retire,
  commit_core_dns,
}

module _ (P : Cluster → Type 0)
    (closed_config_map : (c : Cluster) (cm : ConfigMap)
      → P c
      → P (record c { config_map = some cm }))
    (closed_deployment : (c : Cluster) (dep : Deployment)
      → P c
      → P (record c { deployment = some dep })) where
  pub lift-Keeps : {A : Type 0} (o : Result A) → Keeps P (lift o)
  unfolding lift
  lift-Keeps (ok a) w h = h
  lift-Keeps (err e) w h = h

  update_if-Keeps : (changed : Bool) (cm : ConfigMap) → Keeps P (update_if changed cm)
  unfolding update_if update_config_map
  update_if-Keeps true cm w h =
      written-keeps P _ wrote_config_map _ w (closed_config_map w.cluster cm h) h
  update_if-Keeps false cm w h = h

  write_deployment-Keeps : (d : Deployment × Bool) → Keeps P (write_deployment d)
  unfolding write_deployment update_deployment
  write_deployment-Keeps (dep, true) =
      Keeps-bind P (update_deployment dep) (λ _. pure true)
        (λ w h. written-keeps P _ wrote_deployment _ w (closed_deployment w.cluster dep h) h)
        (λ _ w h. h)
  write_deployment-Keeps (dep, false) = λ w h. h

  set_volume_items-Keeps :
      (r : Reconciler) (mount previous : List Text) (restart : Bool) (hash : Text)
      → Keeps P (set_volume_items r mount previous restart hash)
  unfolding set_volume_items
  set_volume_items-Keeps r mount previous restart hash =
      let ensure = λ (dep : Deployment).
        lift (ensure_zone_volume_items dep r.core_dns_config_map mount previous) in
      let write =
        λ (ensured : Deployment × Bool). write_deployment (restarted restart hash ensured) in
      Keeps-bind P (get (λ c. c.deployment)) (λ dep. ensure dep >>= write)
        (get-Keeps P (λ c. c.deployment))
        λ dep. Keeps-bind P (ensure dep) write (lift-Keeps _) λ ensured. write_deployment-Keeps _

  pub commit_core_dns-Keeps :
      (r : Reconciler) (cm : ConfigMap) (corefile : Text) (zone_files : Map Text)
      (previous : List Text) (reloadable : Bool) (hash : Text)
      → Keeps P (commit_core_dns r cm corefile zone_files previous reloadable hash)
  unfolding commit_core_dns
  commit_core_dns-Keeps r cm corefile zone_files previous reloadable hash =
      let wanted = map_keys zone_files in
      let all_keys = union_keys previous wanted in
      let step1 = expand cm zone_files all_keys in
      let step3 = set_corefile step1.0 corefile in
      let step5 = retire step3.0 (subtract_keys previous wanted) wanted in
      let restart = step3.1 && not reloadable in
      let write1 = update_if step1.1 step1.0 in
      let write2 = set_volume_items r all_keys previous false [] in
      let write3 = update_if step3.1 step3.0 in
      let write4 = set_volume_items r wanted previous restart hash in
      let write5 = update_if step5.1 step5.0 in
      Keeps-then P write1 (write2 >> (write3 >> (write4 >> write5))) (update_if-Keeps _ _) (
        Keeps-then P write2 (write3 >> (write4 >> write5))
          (set_volume_items-Keeps r all_keys previous false [])
          (Keeps-then P write3 (write4 >> write5) (update_if-Keeps _ _) (
            Keeps-then P write4 write5 (set_volume_items-Keeps r wanted previous restart hash)
              (update_if-Keeps _ _))))
