-- ===== src/Controller/Commit/Steady.antt =====
-- A commit of what is in place already: the steady state of a reconcile.
use private_dns_operator.Prelude.{
  ◌≡◌, refl, ap, sym, ◌∙◌, Bool, true, false, not, ◌&&◌, List, [], Option, none, some, arith,
}
use private_dns_operator.Text.{Text, sort_texts}
use private_dns_operator.Text.Map.{Map, lookup, has, keys}
use private_dns_operator.Text.Split.{join}
use private_dns_operator.Text.Sorted.{sort_texts-sort_texts}
use private_dns_operator.Kube.{ConfigMap, Deployment, KeyToPath, Result, ok, err}
use private_dns_operator.Kube.Api.{
  Api, Cluster, World, Write, ◌>>=◌, Fault, fine, refused, lost, get, later_faults, read_result,
  object_or_not_found,
}
use private_dns_operator.Coredns.ConfigMap.{
  managed_zone_keys_annotation, value_or_empty, set_corefile, set_managed_zone_keys,
}
use private_dns_operator.Coredns.ConfigMap.Files.{distinct}
use private_dns_operator.Coredns.ConfigMap.Steady.{
  set_zone_files_same, set_corefile_same, remove_zone_files_none, set_managed_zone_keys_same,
}
use private_dns_operator.Coredns.Deployment.{ensure_zone_volume_items}
use private_dns_operator.Coredns.Deployment.Steady.{ensured_same}
use private_dns_operator.Coredns.Deployment.Volumes.{mounted_items, ensured, ensure_volumes-some}
use private_dns_operator.Controller.Keys.{map_keys, union_keys, subtract_keys, contains-map_keys}
use private_dns_operator.Controller.Keys.Same.{
  distinct-map_keys, union_keys_same, subtract_keys_same,
}
use private_dns_operator.Controller.Commit.{
  Reconciler, lift, update_if, restarted, write_deployment, set_volume_items, expand, retire,
  commit_core_dns,
}
use private_dns_operator.Controller.Commit.Outcome.{CarriesOut}
use private_dns_operator.Controller.Commit.Steps.{deployment_items}

-- The run leaves the cluster as it was and makes no write.
pub record IsIdle {A : Type 0} (c : Cluster) (writes : List Write) (run : Result A × World)
    : Type 0 where
  pub same_cluster : run.1.cluster ≡ c
  pub no_write : run.1.writes ≡ writes

module _ (c : Cluster) (writes : List Write) where
  -- So does every run from this cluster.
  abbrev Idles : {A : Type 0} → Api A → Type 0
  Idles m = (w : World) → w.cluster ≡ c → w.writes ≡ writes → IsIdle c writes (m w)

  Idles-bind :
      {A B : Type 0} (m : Api A) (f : A → Api B)
      → Idles m
      → ((a : A) → Idles (f a))
      → Idles (m >>= f)
  Idles-bind {A} {B} m f first rest w e h = go (m w) (first w e h)
    where
      go :
          (run : Result A × World)
          → IsIdle {A = A} c writes run
          → IsIdle {A = B} c writes
              (let (x, w') = run in elim x [ ok a ↦ f a w' | err e ↦ (err e, w') ])
      go (ok a, w') i = rest a w' i.same_cluster i.no_write
      go (err e, w') i = record { same_cluster = i.same_cluster; no_write = i.no_write }

  idle_update : (changed : Bool) (cm : ConfigMap) → changed ≡ false → Idles (update_if changed cm)
  unfolding update_if
  idle_update true cm e w same none_made = cc
  idle_update false cm e w same none_made = record { same_cluster = same; no_write = none_made }

  module _ (r : Reconciler) (mount previous : List Text) (items : List KeyToPath)
      (settled : (ensured (sort_texts mount) previous items).1 ≡ false) where
    idle_ensure :
        (dep : Deployment) (restart : Bool) (hash : Text)
        → restart ≡ false
        → mounted_items r.core_dns_config_map dep.volumes ≡ some items
        → Idles (do
          ensured ← lift (ensure_zone_volume_items dep r.core_dns_config_map mount previous)
          write_deployment (restarted restart hash ensured))
    unfolding lift restarted write_deployment
    idle_ensure dep true hash e found w same none_made = cc
    idle_ensure dep false hash e found w same none_made =
        let (vs, run, found') =
          ensure_volumes-some r.core_dns_config_map (sort_texts mount) previous dep.volumes items
            found in
        let returned : ensure_zone_volume_items dep r.core_dns_config_map mount previous
            ≡ ok (record dep { volumes = vs }, false) =
          unfold ensure_zone_volume_items in rw (run, settled, ensure_zone_volume_items) refl in
        rw returned (record { same_cluster = same; no_write = none_made })

    after_read :
        (f : Fault) (o : Option Deployment) (restart : Bool) (hash : Text)
        → restart ≡ false
        → deployment_items r.core_dns_config_map o ≡ some items
        → (w : World) → w.cluster ≡ c
        → w.writes ≡ writes
        → IsIdle {A = Bool} c writes (elim (read_result f o) [
          | ok dep ↦
              (do
                ensured ← lift (ensure_zone_volume_items dep r.core_dns_config_map mount previous)
                write_deployment (restarted restart hash ensured))
                w
          | err e ↦ (err e, w)
        ])
    unfolding read_result object_or_not_found deployment_items
    after_read fine none restart hash e found w same h = cc
    after_read fine (some dep) restart hash e found w same h =
        idle_ensure dep restart hash e found w same h
    after_read (refused x) o restart hash e found w same h = record {
      same_cluster = same;
      no_write = h;
    }
    after_read (lost x) o restart hash e found w same h = record {
      same_cluster = same;
      no_write = h;
    }

    idle_items :
        (restart : Bool) (hash : Text)
        → restart ≡ false
        → deployment_items r.core_dns_config_map c.deployment ≡ some items
        → Idles (set_volume_items r mount previous restart hash)
    unfolding set_volume_items get
    idle_items restart hash e found w same h =
        after_read _ w.cluster.deployment restart hash e
          (ap (λ (v : Cluster). deployment_items r.core_dns_config_map v.deployment) same ∙ found)
          (record w { faults = later_faults w.faults }) same h

-- The ConfigMap claims exactly the keys of the zone files, and all that the reconciler renders is in
-- it and mounted.
pub record IsSteady (corefile : Text) (zone_files : Map Text) (cm : ConfigMap)
    (items : List KeyToPath) : Type 0 where
  pub carried : CarriesOut corefile zone_files (map_keys zone_files) cm items
  pub claims :
      value_or_empty (lookup managed_zone_keys_annotation cm.annotations)
      ≡ join (map_keys zone_files) b','

module _ (corefile : Text) (zone_files : Map Text) (cm : ConfigMap) (items : List KeyToPath)
    (unique : distinct (keys zone_files) ≡ true)
    (steady : IsSteady corefile zone_files cm items) where
  abbrev wanted : List Text
  wanted = map_keys zone_files

  sorted : sort_texts wanted ≡ wanted
  unfolding map_keys
  sorted = sort_texts-sort_texts (keys zone_files)

  union_wanted : union_keys wanted wanted ≡ wanted
  union_wanted = union_keys_same wanted (distinct-map_keys zone_files unique) ∙ sorted

  claims_same : set_managed_zone_keys cm wanted ≡ (cm, false)
  claims_same =
      set_managed_zone_keys_same cm wanted
        (steady.claims ∙ ap (λ (ks : List Text). join ks b',') (sym sorted))

  expand_same : expand cm zone_files (union_keys wanted wanted) ≡ (cm, false)
  unfolding expand
  expand_same =
      rw (union_wanted, set_zone_files_same cm zone_files unique steady.carried.filled, claims_same)
        refl

  retire_same : retire cm (subtract_keys wanted wanted) wanted ≡ (cm, false)
  unfolding retire
  retire_same = rw (subtract_keys_same wanted, remove_zone_files_none cm, claims_same) refl

  items_same : (ensured (sort_texts wanted) wanted items).1 ≡ false
  items_same = rw sorted (
      ensured_same wanted wanted items
        (λ k m.
          let wanted_file : has k zone_files ≡ true = sym (contains-map_keys zone_files k) ∙ m in
          let there = steady.carried.mounted k wanted_file in ground (arith, there))
        (λ k m. m))

  union_items : (ensured (sort_texts (union_keys wanted wanted)) wanted items).1 ≡ false
  union_items = rw union_wanted items_same

  idle_commit :
      (c : Cluster) (writes : List Write) (r : Reconciler) (reloadable : Bool) (hash : Text)
      → deployment_items r.core_dns_config_map c.deployment ≡ some items
      → Idles c writes (commit_core_dns r cm corefile zone_files wanted reloadable hash)
  unfolding commit_core_dns
  idle_commit c writes r reloadable hash found =
      let all_keys = union_keys wanted wanted in
      let stale = subtract_keys wanted wanted in
      let step1 = expand cm zone_files all_keys in
      let switch = set_corefile step1.0 corefile in
      let restart = switch.1 && not reloadable in
      let step5 = retire switch.0 stale wanted in
      let kept : switch ≡ (cm, false) =
        ap (λ (p : ConfigMap × Bool). set_corefile p.0 corefile) expand_same
        ∙ set_corefile_same cm corefile steady.carried.new_corefile in
      let last : step5 ≡ (cm, false) =
        ap (λ (p : ConfigMap × Bool). retire p.0 stale wanted) kept ∙ retire_same in
      let stays : restart ≡ false = ap (λ (p : ConfigMap × Bool). p.1 && not reloadable) kept in
      Idles-bind c writes (update_if step1.1 step1.0) _
        (idle_update c writes step1.1 step1.0 (ap (λ (p : ConfigMap × Bool). p.1) expand_same))
        λ _.
          Idles-bind c writes (set_volume_items r all_keys wanted false []) _
            (idle_items c writes r all_keys wanted items union_items false [] refl found)
            λ _.
              Idles-bind c writes (update_if switch.1 switch.0) _
                (idle_update c writes switch.1 switch.0 (ap (λ (p : ConfigMap × Bool). p.1) kept))
                λ _.
                  Idles-bind c writes (set_volume_items r wanted wanted restart hash) _
                    (idle_items c writes r wanted wanted items items_same restart hash stays found)
                    λ _.
                      idle_update c writes step5.1 step5.0 (ap (λ (p : ConfigMap × Bool). p.1) last)

-- Where the new Corefile and every zone file are in the ConfigMap and mounted, the keys of the
-- files are distinct and the annotation claims exactly these keys, a commit makes no write and
-- leaves the cluster as it was, whatever calls fail: a steady reconcile neither updates the
-- ConfigMap nor rolls CoreDNS.
pub commit_core_dns-IsIdle :
    (r : Reconciler) (cm : ConfigMap) (items : List KeyToPath) (corefile : Text)
    (zone_files : Map Text) (reloadable : Bool) (hash : Text) (w : World)
    → distinct (keys zone_files) ≡ true
    → IsSteady corefile zone_files cm items
    → deployment_items r.core_dns_config_map w.cluster.deployment ≡ some items
    → IsIdle w.cluster w.writes
        (commit_core_dns r cm corefile zone_files (map_keys zone_files) reloadable hash w)
commit_core_dns-IsIdle r cm items corefile zone_files reloadable hash w unique steady found =
    idle_commit corefile zone_files cm items unique steady w.cluster w.writes r reloadable hash
      found w refl refl
