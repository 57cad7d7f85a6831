-- ===== src/Controller/Reconcile/Orderly.antt =====
-- What a rebuild leaves: the zones rendered to what they are claimed as, and that committed.
use private_dns_operator.Prelude.{
  ◌≡◌, ◌≢◌, refl, ◌⊎◌, inl, inr, Bool, true, false, List, [], ◌∷◌, map, is_empty,
}
use private_dns_operator.Text.{Text}
use private_dns_operator.Types.{PrivateDnsZone, PrivateDnsRecord}
use private_dns_operator.Kube.{ConfigMap, KeyToPath, Result, ok, err}
use private_dns_operator.Kube.Api.{Cluster, World, ◌>>=◌, ◌>>◌, pure}
use private_dns_operator.Kube.Api.Keeps.{Keeps-then, Kept, IsErr}
use private_dns_operator.Kube.Machinery.{Machinery}
use private_dns_operator.Dns.Record.{Record}
use private_dns_operator.Coredns.ConfigMap.{managed_zone_keys}
use private_dns_operator.Coredns.ConfigMap.Files.{distinct}
use private_dns_operator.Coredns.Corefile.{patch_corefile, has_reload_plugin}
use private_dns_operator.Controller.Results.{combined_hash}
use private_dns_operator.Controller.Zones.{Pass}
use private_dns_operator.Controller.Commit.{Reconciler, lift, commit_core_dns}
use private_dns_operator.Controller.Commit.Plan.{corefile_of}
use private_dns_operator.Controller.Commit.Steps.{At, Reached}
use private_dns_operator.Controller.Commit.Stages.{
  retired, AtStage, stage_config_map, stage_items, commit-stages,
}
use private_dns_operator.Controller.Commit.Keeps.{commit_core_dns-Keeps}
use private_dns_operator.Controller.Reconcile.{
  Clock, release_deleted_zones, report, claim_zones, render_pass, apply_pass, rebuild,
}
use private_dns_operator.Controller.Reconcile.Keeps.{report-Keeps, release_deleted_zones-Keeps}
use private_dns_operator.Controller.Reconcile.Held.{
  Holds, zone_names, distinct-apart, as_claimed, Returns, claim_zones-Returns,
}

pub not_empty : (s : Text) → s ≢ [] → is_empty s ≡ false
not_empty [] h = absurd (h refl)
not_empty (c ∷ s) h = refl

module _ (sha1_hex : Text → Text) (order : List Record → List Record) (m : Machinery)
    (clock : Clock) (r : Reconciler) (listed : List PrivateDnsZone)
    (records : List PrivateDnsRecord) (cm : ConfigMap) (items : List KeyToPath) where
  -- What the zones are rendered to.
  abbrev pub pass_of : Pass
  pass_of = render_pass sha1_hex order clock (map as_claimed listed) records cm (corefile_of cm)

  -- The last stage of the commit of what the zones are rendered to.
  pub record IsApplied (c : Cluster) : Type 0 where
    pub patched : Text
    pub patches : patch_corefile order (corefile_of cm) pass_of.directives ≡ ok patched
    pub at_end : AtStage r cm patched pass_of.zone_files (managed_zone_keys cm) items retired c

  moved :
      (c : Cluster) (zs : List PrivateDnsZone) (rs : List PrivateDnsRecord)
      → IsApplied c
      → IsApplied (record c { zones = zs; records = rs })
  moved c zs rs h = record {
    patched = h.patched;
    patches = h.patches;
    at_end = record {
      config_map = h.at_end.config_map;
      mounted = h.at_end.mounted;
      found = h.at_end.found;
      same = h.at_end.same;
    };
  }

  -- A run that returns has applied what it rendered; one that ends with an error has done so too, or
  -- no zone that was being deleted has lost its finalizer.
  abbrev pub IsOrderly : Result (Unit {0}) × World → Type 0
  IsOrderly (ok a, w) = IsApplied w.cluster
  IsOrderly (err e, w) = Holds listed w.cluster ⊎ IsApplied w.cluster

  abbrev Ready : Cluster → Type 0
  Ready c = Holds listed c × At r.core_dns_config_map cm items c

  applied-IsOrderly : (x : Result (Unit {0}) × World) → Kept IsApplied x → IsOrderly x
  applied-IsOrderly (ok a, w) h = h
  applied-IsOrderly (err e, w) h = inr h

  pub held-IsOrderly :
      (x : Result (Unit {0}) × World) → IsErr x → Kept (Holds listed) x → IsOrderly x
  held-IsOrderly (ok a, w) e h = absurd e
  held-IsOrderly (err e', w) e h = inl h

  Ready-zones :
      (c : Cluster) (zs : List PrivateDnsZone)
      → Ready c
      → Holds listed (record c { zones = zs })
      → Ready (record c { zones = zs })
  Ready-zones c zs (holds, at) h = (
    h,
    record { config_map = at.config_map; mounted = at.mounted; found = at.found; same = at.same },
  )

  -- what the run of applyPass leaves
  abbrev Applies : Result Bool × World → Type 0
  Applies (ok a, w) = IsApplied w.cluster
  Applies (err e, w) = Holds listed w.cluster

  after_commit :
      (patched : Text) (x : Result (Unit {0}) × World) (reloadable : Bool)
      → patch_corefile order (corefile_of cm) pass_of.directives ≡ ok patched
      → Reached (AtStage r cm patched pass_of.zone_files (managed_zone_keys cm) items) retired x
      → Kept (Holds listed) x
      → Applies (let (y, w') = x in elim y [ ok a ↦ pure reloadable w' | err e ↦ (err e, w') ])
  after_commit patched (ok a, w) reloadable e at h = record {
    patched = patched;
    patches = e;
    at_end = at;
  }
  after_commit patched (err x, w) reloadable e at h = h

  after_patch :
      (o : Result Text) (w : World)
      → patch_corefile order (corefile_of cm) pass_of.directives ≡ o
      → Ready w.cluster
      → Applies (
          (do
            patched ← lift o
            commit_core_dns r cm patched pass_of.zone_files
                (managed_zone_keys cm)
                (has_reload_plugin patched)
                (combined_hash pass_of.results)
            pure (has_reload_plugin patched))
            w)
  unfolding lift stage_config_map stage_items
  after_patch (err x) w e (holds, at) = holds
  after_patch (ok patched) w e (holds, at) =
      let keys = managed_zone_keys cm in
      let reloadable = has_reload_plugin patched in
      let hash = combined_hash pass_of.results in
      after_commit patched (commit_core_dns r cm patched pass_of.zone_files keys reloadable hash w)
        reloadable e (commit-stages r cm patched pass_of.zone_files keys items reloadable hash w at)
        (commit_core_dns-Keeps (Holds listed) (λ c _ h. h) (λ c _ h. h) r cm patched
          pass_of.zone_files keys reloadable hash w holds)

  apply_pass-Applies :
      (w : World) → Ready w.cluster → Applies (apply_pass order r cm (corefile_of cm) pass_of w)
  unfolding apply_pass
  apply_pass-Applies w h = after_patch _ w refl h

  after_apply :
      (zones : List PrivateDnsZone) (x : Result Bool × World)
      → Applies x
      → IsOrderly (
          let (y, w') = x in
          elim y [
            | ok reloadable ↦
                (do
                  release_deleted_zones zones
                  report m clock zones records (pass_of.results, pass_of.outcomes) reloadable)
                  w'
            | err e ↦ (err e, w')
          ])
  after_apply zones (err e, w) h = inl h
  after_apply zones (ok reloadable, w) h =
      let last = report m clock zones records (pass_of.results, pass_of.outcomes) reloadable in
      applied-IsOrderly ((release_deleted_zones zones >> last) w) (
        Keeps-then IsApplied (release_deleted_zones zones) last
          (release_deleted_zones-Keeps IsApplied (λ c zs k. moved c zs c.records k) zones)
          (report-Keeps IsApplied (λ c name status zs e k. moved c zs c.records k)
            (λ c rs k. moved c c.zones rs k) m clock zones records pass_of.results pass_of.outcomes
            reloadable)
          w h)

  after_claim :
      (x : Result (List PrivateDnsZone) × World)
      → Returns Ready (map as_claimed listed) x
      → IsOrderly (
          let (y, w') = x in
          elim y [
            | ok zones ↦
                (do
                  let pass = render_pass sha1_hex order clock zones records cm (corefile_of cm)
                  reloadable ← apply_pass order r cm (corefile_of cm) pass
                  release_deleted_zones zones
                  report m clock zones records (pass.results, pass.outcomes) reloadable)
                  w'
            | err e ↦ (err e, w')
          ])
  after_claim (ok zones, w) (e, h) =
      rw e (after_apply (map as_claimed listed) _ (apply_pass-Applies w h))
  after_claim (err e, w) h = inl h.0

  pub rebuild-IsOrderly :
      (w : World)
      → distinct (zone_names listed) ≡ true
      → Ready w.cluster
      → IsOrderly (rebuild sha1_hex order m clock r listed records cm (corefile_of cm) w)
  unfolding rebuild
  rebuild-IsOrderly w one_each h = after_claim (claim_zones listed w) (
      claim_zones-Returns Ready listed (λ c k. k.0) Ready-zones listed w
        (distinct-apart listed one_each) h)
