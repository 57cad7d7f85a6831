-- ===== src/Controller/Conditions.antt =====
-- internal/controller/conditions.go.
pub mod Merge
mod Tests
use private_dns_operator.Prelude.{ℕ, Bool, true, false, List, [], ◌∷◌, if◌then◌else◌}
use private_dns_operator.Text.{Text, codes}
use private_dns_operator.Text.Set.{contains}
use private_dns_operator.Types.{Condition, ConditionStatus}
use private_dns_operator.Kube.Machinery.{Machinery}

-- The condition types of a zone.
abbrev pub template_rendered : Text
template_rendered = codes "TemplateRendered"

abbrev pub zone_file_rendered : Text
zone_file_rendered = codes "ZoneFileRendered"

abbrev pub corefile_patched : Text
corefile_patched = codes "CorefilePatched"

abbrev pub volume_mounted : Text
volume_mounted = codes "VolumeMounted"

abbrev pub reload_triggered : Text
reload_triggered = codes "ReloadTriggered"

abbrev pub last_known_good_applied : Text
last_known_good_applied = codes "LastKnownGoodApplied"

abbrev pub records_excluded : Text
records_excluded = codes "RecordsExcluded"

abbrev pub ready : Text
ready = codes "Ready"

-- The condition type of a record.
abbrev pub accepted : Text
accepted = codes "Accepted"

abbrev pub zone_condition_types : List Text
zone_condition_types =
    template_rendered ∷ zone_file_rendered ∷ corefile_patched ∷ volume_mounted ∷ reload_triggered
    ∷ last_known_good_applied ∷ records_excluded ∷ ready ∷ []

-- The time is not set.
unfoldable pub condition : Text → ConditionStatus → Text → Text → ℕ → Condition
condition condition_type status reason text generation = record {
  condition_type = condition_type;
  status = status;
  reason = reason;
  message = text;
  observed_generation = generation;
  last_transition_time = 0;
}

-- The keys of the map `wanted`.
unfoldable pub types_of : List Condition → List Text
types_of [] = []
types_of (c ∷ cs) = c.condition_type ∷ types_of cs

-- `now` is the time at which a condition of a type is set.
module _ (m : Machinery) where
  -- The loop over the desired conditions.
  unfoldable pub set_conditions : (Text → ℕ) → List Condition → List Condition → List Condition
  set_conditions now conditions [] = conditions
  set_conditions now conditions (c ∷ desired) =
      set_conditions now (m.set_status_condition (now c.condition_type) conditions c) desired

  -- The loop over the owned types.
  unfoldable pub prune_conditions : List Condition → List Text → List Text → List Condition
  unfolding contains
  prune_conditions conditions wanted [] = conditions
  prune_conditions conditions wanted (t ∷ owned) =
      prune_conditions
        (if contains wanted t then conditions else m.remove_status_condition conditions t) wanted
        owned

  unfoldable pub apply_conditions :
      (Text → ℕ) → List Condition → List Condition → List Text → List Condition
  unfolding set_conditions types_of prune_conditions
  apply_conditions now existing desired owned =
      prune_conditions (set_conditions now existing desired) (types_of desired) owned
