-- ===== src/Controller/Reconcile.antt =====
-- `Reconcile`, `reportCoreDNSUnavailable` and `releaseDeletedZones` of
-- internal/controller/privatednszone_controller.go. Log lines are left out.
pub mod Keeps
pub mod Entry
pub mod Target
pub mod Held
pub mod Orderly
pub mod Release
pub mod Quiet
pub mod Claims
pub mod Completion
pub mod Settled
mod Tests
use private_dns_operator.Prelude.{
  ℕ, Bool, true, false, not, ◌||◌, List, [], ◌∷◌, ◌++◌, if◌then◌else◌, Option, none, some, is_empty,
}
use private_dns_operator.Text.{Text, codes}
use private_dns_operator.Text.Set.{contains}
use private_dns_operator.Text.Map.{Map, lookup, insert}
use private_dns_operator.Types.{PrivateDnsZone, PrivateDnsRecord}
use private_dns_operator.Kube.{ConfigMap, Result, ok, err, Error, not_found, message}
use private_dns_operator.Kube.Api.{
  Api, ◌>>=◌, ◌>>◌, pure, fail, get, list, update_zone, attempt, ignore_not_found,
}
use private_dns_operator.Kube.Machinery.{Machinery}
use private_dns_operator.Dns.Record.{Record}
use private_dns_operator.Dns.Render.{Day}
use private_dns_operator.Coredns.ConfigMap.{corefile_key, value_or_empty, managed_zone_keys}
use private_dns_operator.Coredns.Corefile.{extract_zone_blocks, patch_corefile, has_reload_plugin}
use private_dns_operator.Controller.Keys.{remove_string}
use private_dns_operator.Controller.Commit.{Reconciler, lift, commit_core_dns}
use private_dns_operator.Controller.Records.{RecordOutcome}
use private_dns_operator.Controller.Outcomes.{new_record_outcomes, mark_zone_records_not_ready}
use private_dns_operator.Controller.Results.{
  ZoneResult, failed_result, combined_hash, reason_core_dns_unavailable,
}
use private_dns_operator.Controller.Zones.{Pass, Previous, render_zones}
use private_dns_operator.Controller.Statuses.{write_zone_statuses, write_record_statuses}

abbrev pub private_dns_zone_finalizer : Text
private_dns_zone_finalizer = codes "dns.custlynotts.io/private-zone-cleanup"

unfoldable pub has_finalizer : PrivateDnsZone → Bool
unfolding contains
has_finalizer zone = contains zone.meta.finalizers private_dns_zone_finalizer

unfoldable pub with_finalizers : PrivateDnsZone → List Text → PrivateDnsZone
with_finalizers zone finalizers = record zone {
  meta = record zone.meta { finalizers = finalizers };
}

-- One round of the loop that claims live zones, with the zone as it is afterwards.
unfoldable pub claim_zone : PrivateDnsZone → Api PrivateDnsZone
unfolding has_finalizer with_finalizers
claim_zone zone =
    let claimed = with_finalizers zone (zone.meta.finalizers ++ private_dns_zone_finalizer ∷ []) in
    if zone.meta.deleting || has_finalizer zone
    then pure zone
    else (do update_zone claimed; pure claimed)

unfoldable pub claim_zones : List PrivateDnsZone → Api (List PrivateDnsZone)
unfolding claim_zone
claim_zones [] = pure []
claim_zones (zone ∷ zones) = do
  claimed ← claim_zone zone
  rest ← claim_zones zones
  pure (claimed ∷ rest)

unfoldable pub released : PrivateDnsZone → PrivateDnsZone
unfolding with_finalizers remove_string
released zone = with_finalizers zone (remove_string zone.meta.finalizers private_dns_zone_finalizer)

unfoldable pub release_zone : PrivateDnsZone → Api (Unit {0})
unfolding has_finalizer released
release_zone zone =
    if not zone.meta.deleting || not (has_finalizer zone)
    then pure tt
    else ignore_not_found (update_zone (released zone))

-- releaseDeletedZones
unfoldable pub release_deleted_zones : List PrivateDnsZone → Api (Unit {0})
unfolding release_zone
release_deleted_zones [] = pure tt
release_deleted_zones (zone ∷ zones) = do release_zone zone; release_deleted_zones zones

-- The results and outcomes where nothing can be rendered.
unfoldable pub unavailable :
    Text
    → List PrivateDnsRecord
    → List PrivateDnsZone
    → Map ZoneResult × Map RecordOutcome
    → Map ZoneResult × Map RecordOutcome
unfolding failed_result mark_zone_records_not_ready insert
unavailable text records [] reported = reported
unavailable text records (zone ∷ zones) reported =
    let (results, outcomes) = reported in
    unavailable text records zones (
      if zone.meta.deleting then reported else (
        insert zone.meta.name (failed_result zone reason_core_dns_unavailable text) results,
        mark_zone_records_not_ready zone.meta.name text records outcomes,
      ))

-- What is read of the environment: the day on which a zone is rendered, and the time at which a
-- condition of a type is set on an object.
pub record Clock : Type 0 where
  pub today : Text → Day
  pub stamp : Text → Text → ℕ

-- The messages for a CoreDNS target that is not there.
unfoldable pub absent_text : Reconciler → Text
absent_text r =
    codes "CoreDNS ConfigMap "
    ++ (r.core_dns_namespace ++ b'/' ∷ r.core_dns_config_map ++ codes " does not exist")

unfoldable pub no_corefile_text : Reconciler → Text
no_corefile_text r =
    codes "CoreDNS ConfigMap "
    ++ (r.core_dns_namespace ++ b'/' ∷ r.core_dns_config_map ++ codes " has no Corefile key")

module _ (m : Machinery) (clock : Clock) where
  -- The last three steps of a reconcile.
  unfoldable pub report :
      List PrivateDnsZone
      → List PrivateDnsRecord
      → Map ZoneResult × Map RecordOutcome
      → Bool
      → Api (Unit {0})
  report zones records (results, outcomes) reloadable = do
    write_zone_statuses m clock.stamp zones results reloadable
    write_record_statuses m clock.stamp records outcomes

  -- reportCoreDNSUnavailable
  unfoldable pub report_core_dns_unavailable :
      List PrivateDnsZone → List PrivateDnsRecord → Text → Bool → Api (Unit {0})
  unfolding report
  report_core_dns_unavailable zones records text release_terminating = do
    (if release_terminating then release_deleted_zones zones else pure tt)
    report zones records (unavailable text records zones ([], new_record_outcomes records [])) false
    fail (message text)

module _ (sha1_hex : Text → Text) (order : List Record → List Record) (clock : Clock) where
  unfoldable pub render_pass : List PrivateDnsZone → List PrivateDnsRecord → ConfigMap → Text → Pass
  render_pass zones records cm corefile =
      let previous : Previous = record {
        blocks = extract_zone_blocks corefile;
        managed_keys = managed_zone_keys cm;
        config_map = cm;
      } in
      render_zones sha1_hex order clock.today records previous zones (record {
        directives = [];
        zone_files = [];
        results = [];
        outcomes = new_record_outcomes records [];
      })

module _ (order : List Record → List Record) (r : Reconciler) where
  -- What follows the rendering, up to the end of the commit; returned is whether CoreDNS reloads.
  unfoldable pub apply_pass : ConfigMap → Text → Pass → Api Bool
  unfolding lift
  apply_pass cm corefile pass = do
    patched ← lift (patch_corefile order corefile pass.directives)
    commit_core_dns r cm patched pass.zone_files (managed_zone_keys cm) (has_reload_plugin patched)
        (combined_hash pass.results)
    pure (has_reload_plugin patched)

module _ (sha1_hex : Text → Text) (order : List Record → List Record) (m : Machinery)
    (clock : Clock) (r : Reconciler) where
  -- What Reconcile does with a ConfigMap that has a Corefile.
  unfoldable pub rebuild :
      List PrivateDnsZone → List PrivateDnsRecord → ConfigMap → Text → Api (Unit {0})
  unfolding report
  rebuild listed records cm corefile = do
    zones ← claim_zones listed
    let pass = render_pass sha1_hex order clock zones records cm corefile
    reloadable ← apply_pass order r cm corefile pass
    release_deleted_zones zones
    report m clock zones records (pass.results, pass.outcomes) reloadable

  -- The switch over what the read of the ConfigMap gave.
  unfoldable pub with_target :
      List PrivateDnsZone → List PrivateDnsRecord → Result ConfigMap → Api (Unit {0})
  unfolding value_or_empty lookup
  with_target zones records (err not_found) =
      report_core_dns_unavailable m clock zones records (absent_text r) true
  with_target zones records (err (message text)) =
      report_core_dns_unavailable m clock zones records text false
  with_target zones records (ok cm) =
      let corefile = value_or_empty (lookup corefile_key cm.cm_data) in
      if is_empty corefile
      then report_core_dns_unavailable m clock zones records (no_corefile_text r) true
      else rebuild zones records cm corefile

  unfoldable pub reconcile : Api (Unit {0})
  unfolding with_target
  reconcile = do
    zones ← list (λ c. c.zones)
    records ← list (λ c. c.records)
    target ← attempt (get (λ c. c.config_map))
    with_target zones records target
