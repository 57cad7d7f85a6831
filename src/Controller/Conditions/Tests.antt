-- ===== src/Controller/Conditions/Tests.antt =====
-- The conditions of a zone that recovers.
use private_dns_operator.Prelude.{◌≡◌, refl, all, List, [], ◌∷◌, some, none, if◌then◌else◌}
use private_dns_operator.Text.{◌==◌, codes}
use private_dns_operator.Text.Set.{contains}
use private_dns_operator.Types.{Condition, condition_true, condition_false}
use private_dns_operator.Kube.Machinery.{find_condition, stamped}
use private_dns_operator.Kube.Machinery.Concrete.{machinery, machinery-laws}
use private_dns_operator.Coredns.ConfigMap.Files.{distinct}
use private_dns_operator.Controller.Conditions.{
  ready, last_known_good_applied, zone_condition_types, condition, types_of, apply_conditions,
}
use private_dns_operator.Controller.Conditions.Merge.{
  IsDesired, find-apply_conditions, apply_conditions-apply_conditions,
}

abbrev existing : List Condition
existing =
    record (condition ready condition_false (codes "InvalidZone") [] 1) { last_transition_time = 3 }
    ∷ record (condition last_known_good_applied condition_true (codes "InvalidZone") [] 1) {
      last_transition_time = 3;
    }
    ∷ []

abbrev desired : List Condition
desired = condition ready condition_true (codes "Ready") [] 2 ∷ []

desired-IsDesired : IsDesired desired
unfolding distinct contains types_of all condition
desired-IsDesired = record { one_each = refl; no_time = refl }

find-apply_conditions_example :
    find_condition last_known_good_applied
      (apply_conditions machinery (λ t. 9) existing desired zone_condition_types)
    ≡ elim (find_condition last_known_good_applied desired) [
      | none ↦
          if contains zone_condition_types last_known_good_applied
          then none
          else find_condition last_known_good_applied existing
      | some c ↦ some (stamped 9 (find_condition last_known_good_applied existing) c)
    ]
find-apply_conditions_example =
    find-apply_conditions machinery machinery-laws (λ t. 9) existing desired zone_condition_types
      last_known_good_applied desired-IsDesired

-- The condition is pruned, and the status of the other is new.
recovered :
    apply_conditions machinery (λ t. 9) existing desired zone_condition_types
    ≡ record (condition ready condition_true (codes "Ready") [] 2) { last_transition_time = 9 } ∷ []
unfolding apply_conditions machinery condition find_condition ◌==◌
recovered = refl

apply_conditions-apply_conditions_example :
    apply_conditions machinery
      (λ t. 12)
      (apply_conditions machinery (λ t. 9) existing desired zone_condition_types)
      desired
      zone_condition_types
    ≡ apply_conditions machinery (λ t. 9) existing desired zone_condition_types
apply_conditions-apply_conditions_example =
    apply_conditions-apply_conditions machinery machinery-laws (λ t. 9) (λ t. 12) existing desired
      zone_condition_types desired-IsDesired
