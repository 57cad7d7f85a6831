-- ===== src/Controller/Zones.antt =====
-- The loop of `Reconcile` over the zones and `holdLastKnownGood`, both of
-- internal/controller/privatednszone_controller.go.
pub mod Isolation
pub mod Hold
pub mod Reports
mod Tests
use private_dns_operator.Prelude.{
  Bool, true, false, not, List, [], ◌∷◌, ◌++◌, if◌then◌else◌, Option, none, some,
}
use private_dns_operator.Text.{Text, codes}
use private_dns_operator.Text.Set.{contains}
use private_dns_operator.Text.Map.{Map, lookup, insert}
use private_dns_operator.Text.Trim.{trim_suffix}
use private_dns_operator.Types.{
  Condition, condition_true, PrivateDnsZone, PrivateDnsRecord, UnresolvedRecordPolicy, unset,
  nxdomain, forward, other_policy,
}
use private_dns_operator.Kube.{ConfigMap, Result, ok, err}
use private_dns_operator.Dns.Domain.{dot, normalize_zone}
use private_dns_operator.Dns.Record.{Record, error_text}
use private_dns_operator.Dns.Render.{ZoneFile, PreviousRender, Day, render_zone, zone_file_key}
use private_dns_operator.Coredns.Corefile.{ZoneDirective}
use private_dns_operator.Controller.Conditions.{
  condition, last_known_good_applied, template_rendered, zone_file_rendered,
}
use private_dns_operator.Controller.Records.{
  RecordOutcome, Problem, name_problem, record_problem, error_message, Compiled, records_for_zone,
}
use private_dns_operator.Controller.Outcomes.{mark_zone_records_not_ready}
use private_dns_operator.Controller.Results.{
  ZoneResult, failed_result, failure_reason, effective_policy, rendered_record_count,
  reason_rendered, reason_invalid_zone, reason_invalid_record_set, reason_zone_render_failed,
}

-- What the zones have been rendered to.
pub record Pass : Type 0 where
  pub directives : List ZoneDirective
  pub zone_files : Map Text
  pub results : Map ZoneResult
  pub outcomes : Map RecordOutcome

-- What is read before anything is written.
pub record Previous : Type 0 where
  pub blocks : Map Text
  pub managed_keys : List Text
  pub config_map : ConfigMap

unfoldable pub problem_text : Problem → Text
unfolding error_message error_text
problem_text (name_problem e) = error_message e
problem_text (record_problem e) = error_text e

-- A zone's part in the directives and the zone files, and its result.
pub record Held : Type 0 where
  pub result : ZoneResult
  pub directives : List ZoneDirective
  pub zone_files : Map Text

unfoldable pub raw_directive : Text → Text → ZoneDirective
raw_directive zone raw = record {
  zone = zone;
  db_file = [];
  policy = unset;
  records = [];
  raw = raw;
}

unfoldable pub kept_condition : PrivateDnsZone → ZoneResult → Condition
unfolding condition failure_reason
kept_condition zone result =
    condition last_known_good_applied condition_true (failure_reason result)
      (codes "kept the previously rendered output for this zone") zone.meta.generation

-- The zone file that the ConfigMap has under the key, if any.
unfoldable pub hold_existing : Text → Option Text → Held → Held
unfolding insert
hold_existing key none held = held
hold_existing key (some existing) held = record held {
  result = record held.result { zone_file_key = key };
  zone_files = insert key existing held.zone_files;
}

unfoldable pub hold_file : Previous → Text → Held → Held
unfolding hold_existing contains lookup
hold_file previous key held =
    if not (contains previous.managed_keys key)
    then held
    else hold_existing key (lookup key previous.config_map.cm_data) held

module _ (sha1_hex : Text → Text) where
  unfoldable pub hold_block : PrivateDnsZone → Text → Previous → Option Text → Held → Held
  unfolding hold_file raw_directive kept_condition zone_file_key
  hold_block zone normalized_zone previous none held = held
  hold_block zone normalized_zone previous (some raw) held =
      hold_file previous (zone_file_key sha1_hex normalized_zone) (record held {
        result = record held.result {
          conditions = held.result.conditions ++ kept_condition zone held.result ∷ [];
        };
        directives = held.directives ++ raw_directive normalized_zone raw ∷ [];
      })

  -- holdLastKnownGood
  unfoldable pub hold_last_known_good : PrivateDnsZone → Text → Previous → Held → Held
  unfolding hold_block trim_suffix lookup
  hold_last_known_good zone normalized_zone previous held =
      hold_block zone normalized_zone previous
        (lookup (trim_suffix normalized_zone dot) previous.blocks) held

unfoldable pub zone_directive :
    Text → ZoneFile → UnresolvedRecordPolicy → List Record → ZoneDirective
zone_directive normalized_zone file policy records = record {
  zone = normalized_zone;
  db_file = file.key;
  policy = policy;
  records = records;
  raw = [];
}

-- The result of a zone that is rendered, but for what depends on the policy.
unfoldable pub rendered_result : ZoneFile → List Record → List Text → ZoneResult
unfolding rendered_record_count
rendered_result file records excluded = record {
  conditions = [];
  records = rendered_record_count records;
  serial = file.serial;
  zone_file_key = [];
  last_applied_hash = file.hash;
  rendered = true;
  excluded = excluded;
}

-- A zone that forwards has no zone file.
unfoldable pub publish_file : UnresolvedRecordPolicy → PrivateDnsZone → ZoneFile → Held → Held
unfolding condition insert
publish_file forward zone file held = record held {
  result = record held.result {
    conditions =
        held.result.conditions
        ++ condition template_rendered condition_true reason_rendered
            (codes "CoreDNS template records rendered successfully") zone.meta.generation
          ∷ [];
  };
}
publish_file _ zone file held = record held {
  zone_files = insert file.key file.content held.zone_files;
  result = record held.result {
    zone_file_key = file.key;
    conditions =
        held.result.conditions
        ++ condition zone_file_rendered condition_true reason_rendered
            (codes "zone file rendered successfully") zone.meta.generation
          ∷ [];
  };
}

unfoldable pub previous_render : PrivateDnsZone → PreviousRender
previous_render zone = record { serial = zone.status.serial; hash = zone.status.last_applied_hash }

-- The pass with a zone's part in it.
unfoldable pub with_zone : Pass → PrivateDnsZone → Held → Pass
unfolding insert
with_zone pass zone held = record pass {
  directives = held.directives;
  zone_files = held.zone_files;
  results = insert zone.meta.name held.result pass.results;
}

module _ (sha1_hex : Text → Text) (order : List Record → List Record) (today : Text → Day)
    (records : List PrivateDnsRecord) (previous : Previous) where
  unfoldable pub mark_failed : PrivateDnsZone → Text → Pass → Pass
  unfolding mark_zone_records_not_ready
  mark_failed zone text pass = record pass {
    outcomes = mark_zone_records_not_ready zone.meta.name text records pass.outcomes;
  }

  -- A zone that fails behind its first check.
  unfoldable pub fail_zone : PrivateDnsZone → Text → Text → Text → Pass → Pass
  unfolding with_zone hold_last_known_good failed_result mark_failed
  fail_zone zone normalized_zone reason text pass = mark_failed zone text (
      with_zone pass zone (
        hold_last_known_good sha1_hex zone normalized_zone previous (record {
          result = failed_result zone reason text;
          directives = pass.directives;
          zone_files = pass.zone_files;
        })))

  unfoldable pub publish_zone : PrivateDnsZone → Text → Compiled → Result ZoneFile → Pass → Pass
  unfolding fail_zone error_message with_zone publish_file zone_directive rendered_result
      effective_policy
  publish_zone zone normalized_zone compiled (err e) pass =
      fail_zone zone normalized_zone reason_zone_render_failed (error_message e) pass
  publish_zone zone normalized_zone compiled (ok file) pass =
      let policy = effective_policy zone.spec.unresolved_record_policy in
      with_zone pass zone (
        publish_file policy zone file (record {
          result = rendered_result file compiled.kept compiled.excluded;
          directives =
              pass.directives ++ zone_directive normalized_zone file policy compiled.kept ∷ [];
          zone_files = pass.zone_files;
        }))

  -- A zone with the problems that block it.
  unfoldable pub compiled_step : PrivateDnsZone → Text → List Problem → Compiled → Pass → Pass
  unfolding publish_zone fail_zone problem_text render_zone previous_render
  compiled_step zone normalized_zone [] compiled pass =
      publish_zone zone normalized_zone compiled
        (render_zone sha1_hex order zone compiled.kept (today zone.meta.name)
          (previous_render zone))
        pass
  compiled_step zone normalized_zone (p ∷ ps) compiled pass =
      fail_zone zone normalized_zone reason_invalid_record_set (problem_text p) pass

  unfoldable pub normalized_step : PrivateDnsZone → Result Text → Pass → Pass
  unfolding mark_failed failed_result error_message records_for_zone compiled_step insert
  normalized_step zone (err e) pass = mark_failed zone (error_message e) (record pass {
    results =
        insert zone.meta.name (failed_result zone reason_invalid_zone (error_message e))
          pass.results;
  })
  normalized_step zone (ok normalized_zone) pass =
      let compiled = records_for_zone zone normalized_zone records pass.outcomes in
      compiled_step zone normalized_zone compiled.blocking compiled
        (record pass { outcomes = compiled.outcomes })

  unfoldable pub zone_step : PrivateDnsZone → Pass → Pass
  unfolding normalized_step normalize_zone
  zone_step zone pass =
      if zone.meta.deleting then pass else normalized_step zone (normalize_zone zone.spec.zone) pass

  -- The loop over the zones.
  unfoldable pub render_zones : List PrivateDnsZone → Pass → Pass
  unfolding zone_step
  render_zones [] pass = pass
  render_zones (zone ∷ zones) pass = render_zones zones (zone_step zone pass)
