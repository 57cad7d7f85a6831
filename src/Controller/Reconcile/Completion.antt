-- ===== src/Controller/Reconcile/Completion.antt =====
-- A reconcile that no call disturbs.
use private_dns_operator.Prelude.{◌≡◌, ◌≢◌, refl, true, false, List, [], map, some, is_empty}
use private_dns_operator.Text.{Text}
use private_dns_operator.Types.{PrivateDnsZone, PrivateDnsRecord}
use private_dns_operator.Kube.{ConfigMap, KeyToPath, Result, ok, err}
use private_dns_operator.Kube.Api.{
  Cluster, World, ◌>>=◌, ◌>>◌, pure, list, get, attempt, next_fault, later_faults, read_result,
  object_or_not_found,
}
use private_dns_operator.Kube.Machinery.{Machinery}
use private_dns_operator.Dns.Record.{Record}
use private_dns_operator.Coredns.ConfigMap.{managed_zone_keys}
use private_dns_operator.Coredns.ConfigMap.Files.{distinct}
use private_dns_operator.Coredns.Corefile.{
  patch_corefile, has_reload_plugin, remove_managed_block, with_block, render_managed_block,
}
use private_dns_operator.Coredns.Corefile.Patch.{patch_of}
use private_dns_operator.Controller.Results.{combined_hash}
use private_dns_operator.Controller.Zones.{Pass}
use private_dns_operator.Controller.Commit.{Reconciler, lift, commit_core_dns}
use private_dns_operator.Controller.Commit.Plan.{corefile_of}
use private_dns_operator.Controller.Commit.Steps.{At}
use private_dns_operator.Controller.Commit.Stages.{stage_config_map, stage_items}
use private_dns_operator.Controller.Commit.Completion.{Done, Done-bind, commit-Done}
use private_dns_operator.Controller.Reconcile.{
  Clock, release_deleted_zones, report, claim_zones, render_pass, apply_pass, rebuild, with_target,
  reconcile,
}
use private_dns_operator.Controller.Reconcile.Entry.{target_of, spend}
use private_dns_operator.Controller.Reconcile.Held.{zone_names, as_claimed}
use private_dns_operator.Controller.Reconcile.Quiet.{
  Quiet-then, release_deleted_zones-Quiet, report-Quiet,
}
use private_dns_operator.Controller.Reconcile.Claims.{named, named-all, Gives, claim_zones-Gives}
use private_dns_operator.Controller.Reconcile.Orderly.{pass_of, IsApplied, IsOrderly, not_empty}
use private_dns_operator.Controller.Reconcile.Release.{reconcile-IsOrderly}

module _ (sha1_hex : Text → Text) (order : List Record → List Record) (m : Machinery)
    (clock : Clock) (r : Reconciler) (listed : List PrivateDnsZone)
    (records : List PrivateDnsRecord) (cm : ConfigMap) (items : List KeyToPath) (stripped : Text)
    (removable : remove_managed_block (corefile_of cm) ≡ ok stripped) where
  abbrev pass : Pass
  pass = pass_of sha1_hex order m clock r listed records cm items

  abbrev Ready : Cluster → Type 0
  Ready c = ((k : Text) → named k c.zones ≡ named k listed) × At r.core_dns_config_map cm items c

  patches : (patched : Text) × (patch_corefile order (corefile_of cm) pass.directives ≡ ok patched)
  patches = (
    with_block (render_managed_block order pass.directives) stripped,
    patch_of order (corefile_of cm) stripped pass.directives removable,
  )

  apply_pass-Done :
      (w : World)
      → Ready w.cluster
      → w.faults ≡ []
      → Done (apply_pass order r cm (corefile_of cm) pass w)
  unfolding apply_pass lift stage_config_map stage_items
  apply_pass-Done w h q =
      let (patched, e) = patches in
      let keys = managed_zone_keys cm in
      let reloadable = has_reload_plugin patched in
      let hash = combined_hash pass.results in
      rw e (
        Done-bind (commit_core_dns r cm patched pass.zone_files keys reloadable hash w)
          (λ _. pure reloadable)
          (commit-Done r cm patched pass.zone_files keys items reloadable hash w h.1 q)
          (λ _ w' _ q'. q'))

  after_claim :
      (x : Result (List PrivateDnsZone) × World)
      → Gives Ready (map as_claimed listed) x
      → Done {A = Unit {0}} (
          let (y, w') = x in
          elim y [
            | ok zones ↦
                (do
                  let pass = render_pass sha1_hex order clock zones records cm (corefile_of cm)
                  reloadable ← apply_pass order r cm (corefile_of cm) pass
                  release_deleted_zones zones
                  report m clock zones records (pass.results, pass.outcomes) reloadable)
                  w'
            | err e ↦ (err e, w')
          ])
  after_claim (ok zones, w) (e, q, h) = rw e (
      Done-bind (apply_pass order r cm (corefile_of cm) pass w)
        (λ reloadable.
          release_deleted_zones (map as_claimed listed)
          >> report m clock (map as_claimed listed) records (pass.results, pass.outcomes)
              reloadable)
        (apply_pass-Done w h q)
        λ reloadable w' _ q'.
          Quiet-then (release_deleted_zones (map as_claimed listed))
            (report m clock (map as_claimed listed) records (pass.results, pass.outcomes)
              reloadable)
            (release_deleted_zones-Quiet (map as_claimed listed))
            (report-Quiet m clock (map as_claimed listed) records pass.results pass.outcomes
              reloadable)
            w' q')
  after_claim (err e, w) h = h

  rebuild-Done :
      (w : World)
      → Ready w.cluster
      → w.faults ≡ []
      → Done (rebuild sha1_hex order m clock r listed records cm (corefile_of cm) w)
  unfolding rebuild
  rebuild-Done w h q = after_claim (claim_zones listed w) (
      claim_zones-Gives Ready listed (λ c k. k.0)
        (λ c zs k same. (
          same,
          record {
            config_map = k.1.config_map;
            mounted = k.1.mounted;
            found = k.1.found;
            same = k.1.same;
          },
        ))
        listed w (named-all listed) q h)

module _ (sha1_hex : Text → Text) (order : List Record → List Record) (m : Machinery)
    (clock : Clock) (r : Reconciler) (cm : ConfigMap) (items : List KeyToPath) where
  -- A run that returns, with all that it rendered committed.
  abbrev pub IsComplete : World → Result (Unit {0}) × World → Type 0
  IsComplete w (ok a, w') =
      IsApplied sha1_hex order m clock r w.cluster.zones w.cluster.records cm items w'.cluster
  IsComplete w (err e, w') = ⊥

  complete :
      (w : World) (x : Result (Unit {0}) × World)
      → Done x
      → IsOrderly sha1_hex order m clock r w.cluster.zones w.cluster.records cm items x
      → IsComplete w x
  complete w (ok a, w') done orderly = orderly
  complete w (err e, w') done orderly = done

  undisturbed_target :
      (w : World) → w.faults ≡ [] → w.cluster.config_map ≡ some cm → target_of w ≡ ok cm
  unfolding target_of next_fault later_faults read_result object_or_not_found
  undisturbed_target w q e = rw (q, e) refl

  undisturbed_entry :
      (w : World)
      → w.faults ≡ []
      → w.cluster.config_map ≡ some cm
      → reconcile sha1_hex order m clock r w
        ≡ with_target sha1_hex order m clock r w.cluster.zones w.cluster.records
            (ok cm)
            (spend (spend (spend w)))
  unfolding reconcile list attempt get next_fault later_faults read_result object_or_not_found
  undisturbed_entry w q e = rw (q, e) refl

  no_more : (w : World) → w.faults ≡ [] → (spend (spend (spend w))).faults ≡ []
  unfolding later_faults
  no_more w q = rw q refl

  reconcile-Done :
      (w : World) (stripped : Text)
      → At r.core_dns_config_map cm items w.cluster
      → corefile_of cm ≢ []
      → remove_managed_block (corefile_of cm) ≡ ok stripped
      → w.faults ≡ []
      → Done (reconcile sha1_hex order m clock r w)
  unfolding with_target
  reconcile-Done w stripped at filled removable q =
      let some_text : is_empty (corefile_of cm) ≡ false = not_empty (corefile_of cm) filled in
      rw (undisturbed_entry w q at.config_map, some_text)
        (rebuild-Done sha1_hex order m clock r w.cluster.zones w.cluster.records cm items stripped
          removable (spend (spend (spend w)))
          (
            (λ k. refl),
            record {
              config_map = at.config_map;
              mounted = at.mounted;
              found = at.found;
              same = at.same;
            },
          )
          (no_more w q))

  -- Where no call fails, zones have names of their own, the ConfigMap has a Corefile in which no
  -- marker of the managed block stands alone or out of order, and the Deployment mounts the
  -- ConfigMap, Reconcile returns without an error and has committed all that it rendered.
  pub reconcile-IsComplete :
      (w : World) (stripped : Text)
      → At r.core_dns_config_map cm items w.cluster
      → corefile_of cm ≢ []
      → distinct (zone_names w.cluster.zones) ≡ true
      → remove_managed_block (corefile_of cm) ≡ ok stripped
      → w.faults ≡ []
      → IsComplete w (reconcile sha1_hex order m clock r w)
  reconcile-IsComplete w stripped at filled one_each removable q =
      complete w (reconcile sha1_hex order m clock r w)
        (reconcile-Done w stripped at filled removable q)
        (reconcile-IsOrderly sha1_hex order m clock r cm items w at filled one_each
          (rw (undisturbed_target w q at.config_map) (λ e. cc)))
