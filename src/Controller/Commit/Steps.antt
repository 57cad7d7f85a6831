-- ===== src/Controller/Commit/Steps.antt =====
-- Where a commit can stop: whatever calls fail, the cluster is left at one of six stages.
use private_dns_operator.Prelude.{◌≡◌, refl, sym, ◌∙◌, Bool, true, false, List, Option, none, some}
use private_dns_operator.Text.{Text, sort_texts}
use private_dns_operator.Kube.{ConfigMap, Deployment, KeyToPath, Result, ok, err}
use private_dns_operator.Kube.Api.{
  Cluster, World, Api, Fault, fine, refused, lost, Write, wrote_config_map, wrote_deployment,
  written, pure, later_faults, read_result, object_or_not_found, ◌>>=◌, get, update_config_map,
  update_deployment,
}
use private_dns_operator.Coredns.Deployment.{ensure_zone_volume_items}
use private_dns_operator.Coredns.Deployment.Items.{has_item}
use private_dns_operator.Coredns.Deployment.Volumes.{
  mounted_items, ensured, ensure_volumes-some, has_item-ensured, ensured_unchanged,
}
use private_dns_operator.Controller.Commit.{
  Reconciler, lift, update_if, restarted, write_deployment, set_volume_items,
}

-- The items that the Deployment of a cluster mounts from the ConfigMap of that name.
unfoldable pub deployment_items : Text → Option Deployment → Option (List KeyToPath)
unfolding mounted_items
deployment_items name none = none
deployment_items name (some dep) = mounted_items name dep.volumes

-- The same keys, in any order.
abbrev pub SameItems : List KeyToPath → List KeyToPath → Type 0
SameItems xs ys = (k : Text) → has_item xs k ≡ has_item ys k

-- The cluster holds this ConfigMap, and its Deployment mounts these keys.
pub record At (name : Text) (cm : ConfigMap) (items : List KeyToPath) (c : Cluster) : Type 0 where
  pub config_map : c.config_map ≡ some cm
  pub mounted : List KeyToPath
  pub found : deployment_items name c.deployment ≡ some mounted
  pub same : SameItems mounted items

module _ {S : Type 0} (Stage : S → Cluster → Type 0) where
  -- Where a run from one stage ends: at the next stage if it returns, and else at some stage.
  abbrev pub Reached : {A : Type 0} → S → Result A × World → Type 0
  Reached t (ok a, w) = Stage t w.cluster
  Reached t (err e, w) = (u : S) × Stage u w.cluster

  abbrev pub Moves : {A : Type 0} → S → S → Api A → Type 0
  Moves s t m = (w : World) → Stage s w.cluster → Reached t (m w)

  pub Moves-bind :
      {A B : Type 0} (s t u : S) (m : Api A) (f : A → Api B)
      → Moves s t m
      → ((a : A) → Moves t u (f a))
      → Moves s u (m >>= f)
  Moves-bind {A} {B} s t u m f first rest w h = go (m w) (first w h)
    where
      go :
          (r : Result A × World)
          → Reached {A = A} t r
          → Reached {A = B} u (let (x, w') = r in elim x [ ok a ↦ f a w' | err e ↦ (err e, w') ])
      go (ok a, w') h' = rest a w' h'
      go (err e, w') h' = h'

  written-Reached :
      (s t : S) (f : Fault) (x : Write) (c : Cluster) (w : World)
      → Stage s w.cluster
      → Stage t c
      → Reached t (written f x c w)
  unfolding written
  written-Reached s t fine x c w hs ht = ht
  written-Reached s t (refused e) x c w hs ht = (s, hs)
  written-Reached s t (lost e) x c w hs ht = (t, ht)

  pub update_if-Moves :
      (s t : S) (changed : Bool) (cm : ConfigMap)
      → ((c : Cluster) → Stage s c → Stage t (record c { config_map = some cm }))
      → (changed ≡ false → (c : Cluster) → Stage s c → Stage t c)
      → Moves s t (update_if changed cm)
  unfolding update_if update_config_map
  update_if-Moves s t true cm put idle w h =
      written-Reached s t _ wrote_config_map _ w h (put w.cluster h)
  update_if-Moves s t false cm put idle w h = idle refl w.cluster h

  pub write_deployment-Moves :
      (s t : S) (dep : Deployment) (changed : Bool)
      → ((c : Cluster) → Stage s c → Stage t (record c { deployment = some dep }))
      → (changed ≡ false → (c : Cluster) → Stage s c → Stage t c)
      → Moves s t (write_deployment (dep, changed))
  unfolding write_deployment update_deployment
  write_deployment-Moves s t dep true put idle =
      Moves-bind s t t (update_deployment dep) (λ _. pure true)
        (λ w h. written-Reached s t _ wrote_deployment _ w h (put w.cluster h)) (λ _ w h. h)
  write_deployment-Moves s t dep false put idle = λ w h. idle refl w.cluster h

-- setVolumeItems takes the mounted keys from `items` to what EnsureZoneVolumeItems makes of them.
module _ {S : Type 0} (Stage : S → Cluster → Type 0) (s t : S) (r : Reconciler) (cm : ConfigMap)
    (mount previous : List Text) (items : List KeyToPath)
    (enter : (c : Cluster) → Stage s c → At r.core_dns_config_map cm items c)
    (leave : (c : Cluster)
      → At r.core_dns_config_map cm (ensured (sort_texts mount) previous items).0 c
      → Stage t c) where
  put_ensured :
      (dep : Deployment) (mounted : List KeyToPath)
      → mounted_items r.core_dns_config_map dep.volumes
        ≡ some (ensured (sort_texts mount) previous mounted).0
      → SameItems mounted items
      → (c : Cluster) → Stage s c
      → Stage t (record c { deployment = some dep })
  unfolding deployment_items
  put_ensured dep mounted found same c h = leave _ (record {
    config_map = (enter c h).config_map;
    mounted = (ensured (sort_texts mount) previous mounted).0;
    found = found;
    same = has_item-ensured (sort_texts mount) previous mounted items same;
  })

  idle_ensured :
      (mounted : List KeyToPath)
      → SameItems mounted items
      → (ensured (sort_texts mount) previous mounted).1 ≡ false
      → (c : Cluster) → Stage s c
      → Stage t c
  idle_ensured mounted same unchanged c h =
      let at = enter c h in
      leave c (record {
        config_map = at.config_map;
        mounted = at.mounted;
        found = at.found;
        same = λ k.
            at.same k
            ∙ sym (same k)
            ∙ sym (ensured_unchanged (sort_texts mount) previous mounted unchanged k)
            ∙ has_item-ensured (sort_texts mount) previous mounted items same k;
      })

  write_ensured :
      (restart : Bool) (hash : Text) (dep : Deployment) (mounted : List KeyToPath) (changed : Bool)
      → mounted_items r.core_dns_config_map dep.volumes
        ≡ some (ensured (sort_texts mount) previous mounted).0
      → SameItems mounted items
      → (ensured (sort_texts mount) previous mounted).1 ≡ changed
      → Moves Stage s t (write_deployment (restarted restart hash (dep, changed)))
  unfolding restarted
  write_ensured true hash dep mounted changed found same e =
      write_deployment-Moves Stage s t _ true (put_ensured _ mounted found same) (λ h. cc)
  write_ensured false hash dep mounted changed found same e =
      write_deployment-Moves Stage s t dep changed (put_ensured dep mounted found same)
        (λ h. idle_ensured mounted same (e ∙ h))

  -- the call of EnsureZoneVolumeItems on a Deployment that mounts the ConfigMap
  ensure_run :
      (dep : Deployment) (mounted : List KeyToPath)
      → mounted_items r.core_dns_config_map dep.volumes ≡ some mounted
      → (dep' : Deployment) × (ensure_zone_volume_items dep r.core_dns_config_map mount previous
          ≡ ok (dep', (ensured (sort_texts mount) previous mounted).1))
        × (mounted_items r.core_dns_config_map dep'.volumes
            ≡ some (ensured (sort_texts mount) previous mounted).0)
  ensure_run dep mounted found =
      let (vs, run, found') =
        ensure_volumes-some r.core_dns_config_map (sort_texts mount) previous dep.volumes mounted
          found in
      (
        record dep { volumes = vs },
        unfold ensure_zone_volume_items in rw (run, ensure_zone_volume_items),
        found',
      )

  after_ensure :
      (restart : Bool) (hash : Text) (dep : Deployment) (mounted : List KeyToPath)
      → mounted_items r.core_dns_config_map dep.volumes ≡ some mounted
      → SameItems mounted items
      → Moves Stage s t (do
        ensured ← lift (ensure_zone_volume_items dep r.core_dns_config_map mount previous)
        write_deployment (restarted restart hash ensured))
  unfolding lift
  after_ensure restart hash dep mounted found same w h =
      let (dep', run, found') = ensure_run dep mounted found in
      rw run (write_ensured restart hash dep' mounted _ found' same refl w h)

  -- what follows the read of the Deployment
  after_get :
      (restart : Bool) (hash : Text) (f : Fault) (o : Option Deployment) (w : World)
      → w.cluster.deployment ≡ o
      → Stage s w.cluster
      → Reached Stage {A = Bool} t (elim (read_result f o) [
        | ok dep ↦
            (do
              ensured ← lift (ensure_zone_volume_items dep r.core_dns_config_map mount previous)
              write_deployment (restarted restart hash ensured))
              w
        | err e ↦ (err e, w)
      ])
  unfolding read_result object_or_not_found
  after_get restart hash fine none w e h = (s, h)
  after_get restart hash fine (some dep) w e h =
      let at = enter w.cluster h in
      after_ensure restart hash dep at.mounted (unfold deployment_items in rw e at at.found) at.same
        w h
  after_get restart hash (refused x) o w e h = (s, h)
  after_get restart hash (lost x) o w e h = (s, h)

  pub set_volume_items-Moves :
      (restart : Bool) (hash : Text)
      → Moves Stage s t (set_volume_items r mount previous restart hash)
  unfolding set_volume_items get
  set_volume_items-Moves restart hash w h =
      after_get restart hash _ w.cluster.deployment (record w { faults = later_faults w.faults })
        refl h
