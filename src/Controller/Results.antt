-- ===== src/Controller/Results.antt =====
-- The outcome of a zone in internal/controller/privatednszone_controller.go: `zoneResult`, and the
-- functions that make one or read it.
use private_dns_operator.Prelude.{
  ℕ, ◌+◌, Bool, true, false, ◌&&◌, List, [], ◌∷◌, if◌then◌else◌, is_empty, length,
}
use private_dns_operator.Text.{Text, ◌==◌, codes, sort_texts}
use private_dns_operator.Text.Map.{Map}
use private_dns_operator.Text.Split.{join}
use private_dns_operator.Types.{
  Condition, ConditionStatus, condition_false, PrivateDnsZone, UnresolvedRecordPolicy, unset,
  nxdomain, forward, other_policy,
}
use private_dns_operator.Dns.Record.{Record}
use private_dns_operator.Controller.Conditions.{ready, condition}

abbrev pub reason_rendered : Text
reason_rendered = codes "Rendered"

abbrev pub reason_invalid_zone : Text
reason_invalid_zone = codes "InvalidZone"

abbrev pub reason_invalid_record_set : Text
reason_invalid_record_set = codes "InvalidRecordSet"

abbrev pub reason_zone_render_failed : Text
reason_zone_render_failed = codes "ZoneRenderFailed"

abbrev pub reason_core_dns_unavailable : Text
reason_core_dns_unavailable = codes "CoreDNSUnavailable"

abbrev pub reason_conflicting_records : Text
reason_conflicting_records = codes "ConflictingRecords"

pub record ZoneResult : Type 0 where
  pub conditions : List Condition
  pub records : ℕ
  pub serial : Text
  pub zone_file_key : Text
  pub last_applied_hash : Text
  pub rendered : Bool
  pub excluded : List Text

unfoldable pub failed_result : PrivateDnsZone → Text → Text → ZoneResult
unfolding condition
failed_result zone reason text = record {
  conditions = condition ready condition_false reason text zone.meta.generation ∷ [];
  records = 0;
  serial = zone.status.serial;
  zone_file_key = [];
  last_applied_hash = zone.status.last_applied_hash;
  rendered = false;
  excluded = [];
}

unfoldable pub is_false : ConditionStatus → Bool
is_false condition_false = true
is_false _ = false

unfoldable pub failure_of : List Condition → Text
unfolding is_false
failure_of [] = reason_invalid_record_set
failure_of (c ∷ cs) =
    if (c.condition_type == ready) && is_false c.status then c.reason else failure_of cs

unfoldable pub failure_reason : ZoneResult → Text
unfolding failure_of
failure_reason z = failure_of z.conditions

unfoldable pub effective_policy : UnresolvedRecordPolicy → UnresolvedRecordPolicy
effective_policy unset = nxdomain
effective_policy nxdomain = nxdomain
effective_policy forward = forward
effective_policy (other_policy p) = other_policy p

unfoldable pub rendered_record_count : List Record → ℕ
rendered_record_count [] = 0
rendered_record_count (r ∷ rs) = length r.values + rendered_record_count rs

unfoldable pub reload_reason : Bool → Text
reload_reason true = codes "ReloadPlugin"
reload_reason false = codes "RolloutRestart"

unfoldable pub reload_message : Bool → Text
reload_message true = codes "CoreDNS reload plugin will pick up the change"
reload_message false =
    codes "CoreDNS deployment rollout restart was triggered because reload plugin is missing"

-- The hashes that are not empty, in the order in which the map is ranged over.
unfoldable pub hashes_of : Map ZoneResult → List Text
hashes_of [] = []
hashes_of ((name, result) ∷ results) =
    let rest = hashes_of results in
    if is_empty result.last_applied_hash then rest else result.last_applied_hash ∷ rest

unfoldable pub combined_hash : Map ZoneResult → Text
unfolding hashes_of sort_texts join
combined_hash results = join (sort_texts (hashes_of results)) b','
