-- ===== src/Controller/Statuses.antt =====
-- `writeZoneStatuses` and `writeRecordStatuses` of internal/controller/privatednszone_controller.go.
pub mod Report
pub mod Settled
pub mod Stored
mod Tests
use private_dns_operator.Prelude.{
  ℕ, Bool, true, false, not, ◌&&◌, List, [], ◌∷◌, ◌++◌, if◌then◌else◌, Option, none, some, is_empty,
  length,
}
use private_dns_operator.Text.{Text, codes}
use private_dns_operator.Text.Map.{Map, lookup}
use private_dns_operator.Text.Decimal.{format_uint}
use private_dns_operator.Text.Split.{join_by}
use private_dns_operator.Types.{
  Condition, ConditionStatus, condition_true, condition_false, PrivateDnsZone, PrivateDnsZoneStatus,
  PrivateDnsRecord, PrivateDnsRecordStatus,
}
use private_dns_operator.Kube.Api.{
  Api, ◌>>◌, ◌>>=◌, pure, patch_zone_status, patch_record_status, ignore_not_found,
}
use private_dns_operator.Kube.Machinery.{Machinery}
use private_dns_operator.Controller.Conditions.{
  condition, corefile_patched, volume_mounted, reload_triggered, ready, records_excluded, accepted,
  zone_condition_types, apply_conditions,
}
use private_dns_operator.Controller.Records.{
  Reason, accepted_reason, namespace_not_allowed, invalid_record, conflicting_records,
  zone_not_found, zone_not_ready, RecordOutcome, record_key,
}
use private_dns_operator.Controller.Outcomes.{key_of}
use private_dns_operator.Controller.Results.{
  ZoneResult, reload_reason, reload_message, reason_conflicting_records,
}

unfoldable pub reason_text : Reason → Text
reason_text accepted_reason = codes "Accepted"
reason_text namespace_not_allowed = codes "NamespaceNotAllowed"
reason_text invalid_record = codes "InvalidRecord"
reason_text conflicting_records = codes "ConflictingRecords"
reason_text zone_not_found = codes "ZoneNotFound"
reason_text zone_not_ready = codes "ZoneNotReady"

unfoldable pub excluded_conditions : PrivateDnsZone → ZoneResult → List Condition
unfolding condition format_uint join_by
excluded_conditions zone result =
    if result.rendered && not (is_empty result.excluded)
    then condition records_excluded condition_true reason_conflicting_records
        (codes "withheld "
          ++ (format_uint (length result.excluded)
              ++ (codes " name(s) whose records conflict: "
                  ++ join_by result.excluded (codes ", "))))
        zone.meta.generation
      ∷ []
    else []

unfoldable pub applied_conditions : PrivateDnsZone → Bool → Bool → List Condition
unfolding condition reload_reason reload_message
applied_conditions zone reloadable false = []
applied_conditions zone reloadable true =
    condition corefile_patched condition_true (codes "Patched")
      (codes "CoreDNS Corefile managed block patched") zone.meta.generation
    ∷ condition volume_mounted condition_true (codes "Mounted")
        (codes "CoreDNS ConfigMap volume items are up to date") zone.meta.generation
    ∷ condition reload_triggered condition_true (reload_reason reloadable)
        (reload_message reloadable) zone.meta.generation
    ∷ condition ready condition_true (codes "Ready") (codes "private DNS zone is ready")
        zone.meta.generation
    ∷ []

unfoldable pub desired_conditions : PrivateDnsZone → ZoneResult → Bool → List Condition
unfolding excluded_conditions applied_conditions
desired_conditions zone result reloadable =
    result.conditions
    ++ (excluded_conditions zone result ++ applied_conditions zone reloadable result.rendered)

unfoldable pub outcome_status : Bool → ConditionStatus
outcome_status true = condition_true
outcome_status false = condition_false

unfoldable pub outcome_condition : PrivateDnsRecord → RecordOutcome → Condition
unfolding condition outcome_status reason_text
outcome_condition r outcome =
    condition accepted (outcome_status outcome.accepted) (reason_text outcome.reason)
      outcome.message r.meta.generation

-- `clock` gives the time at which a condition of a type is set on an object.
module _ (m : Machinery) (clock : Text → Text → ℕ) where
  unfoldable pub zone_status : Bool → PrivateDnsZone → ZoneResult → PrivateDnsZoneStatus
  unfolding apply_conditions desired_conditions
  zone_status reloadable zone result = record {
    observed_generation = zone.meta.generation;
    conditions =
        apply_conditions m (clock zone.meta.name) zone.status.conditions
          (desired_conditions zone result reloadable) zone_condition_types;
    records = result.records;
    serial = result.serial;
    zone_file_key = result.zone_file_key;
    last_applied_hash = result.last_applied_hash;
  }

  -- One round of the loop, with the entry of the zone in the map of results.
  unfoldable pub write_zone_status : Bool → PrivateDnsZone → Option ZoneResult → Api (Unit {0})
  unfolding zone_status
  write_zone_status reloadable zone none = pure tt
  write_zone_status reloadable zone (some result) =
      let status = zone_status reloadable zone result in
      if zone.meta.deleting
      then pure tt
      else if m.equal_zone_status zone.status status
      then pure tt
      else ignore_not_found (patch_zone_status zone.meta.name status)

  unfoldable pub write_zone_statuses : List PrivateDnsZone → Map ZoneResult → Bool → Api (Unit {0})
  unfolding write_zone_status lookup
  write_zone_statuses [] results reloadable = pure tt
  write_zone_statuses (zone ∷ zones) results reloadable = do
    write_zone_status reloadable zone (lookup zone.meta.name results)
    write_zone_statuses zones results reloadable

  unfoldable pub record_status : PrivateDnsRecord → RecordOutcome → PrivateDnsRecordStatus
  unfolding apply_conditions outcome_condition record_key
  record_status r outcome = record {
    observed_generation = r.meta.generation;
    conditions =
        apply_conditions m (clock (key_of r)) r.status.conditions (outcome_condition r outcome ∷ [])
          (accepted ∷ []);
    fqdn = outcome.fqdn;
  }

  unfoldable pub write_record_status : PrivateDnsRecord → Option RecordOutcome → Api (Unit {0})
  unfolding record_status
  write_record_status r none = pure tt
  write_record_status r (some outcome) =
      let status = record_status r outcome in
      if r.meta.deleting
      then pure tt
      else if m.equal_record_status r.status status
      then pure tt
      else ignore_not_found (patch_record_status r.meta.namespace r.meta.name status)

  unfoldable pub write_record_statuses : List PrivateDnsRecord → Map RecordOutcome → Api (Unit {0})
  unfolding write_record_status lookup record_key
  write_record_statuses [] outcomes = pure tt
  write_record_statuses (r ∷ rs) outcomes = do
    write_record_status r (lookup (key_of r) outcomes)
    write_record_statuses rs outcomes
