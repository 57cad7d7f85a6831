-- ===== src/Kube/Machinery.antt =====
-- k8s.io/apimachinery, as far as internal/controller calls it: the functions are parameters, and
-- their documented behaviour is a record of laws.
pub mod Concrete
use private_dns_operator.Prelude.{
  ℕ, ◌≡◌, refl, Bool, true, false, List, [], ◌∷◌, if◌then◌else◌, Option, none, some,
}
use private_dns_operator.Text.{Text, ◌==◌}
use private_dns_operator.Types.{
  Condition, ConditionStatus, condition_true, condition_false, condition_unknown,
  PrivateDnsZoneStatus, PrivateDnsRecordStatus,
}

-- SetStatusCondition (at a time) and RemoveStatusCondition of api/meta, and Semantic.DeepEqual of
-- api/equality at the two types of the calls.
pub record Machinery : Type 0 where
  pub set_status_condition : ℕ → List Condition → Condition → List Condition
  pub remove_status_condition : List Condition → Text → List Condition
  pub equal_zone_status : PrivateDnsZoneStatus → PrivateDnsZoneStatus → Bool
  pub equal_record_status : PrivateDnsRecordStatus → PrivateDnsRecordStatus → Bool

-- The condition of a type.
unfoldable pub find_condition : Text → List Condition → Option Condition
find_condition t [] = none
find_condition t (c ∷ cs) = if c.condition_type == t then some c else find_condition t cs

unfoldable pub same_status : ConditionStatus → ConditionStatus → Bool
same_status condition_true condition_true = true
same_status condition_false condition_false = true
same_status condition_unknown condition_unknown = true
same_status _ _ = false

-- A condition with the time of its last transition, given the one that it replaces.
unfoldable pub stamped : ℕ → Option Condition → Condition → Condition
unfolding same_status
stamped now none c = record c { last_transition_time = now }
stamped now (some old) c = record c {
  last_transition_time = if same_status old.status c.status then old.last_transition_time else now;
}

-- What is documented. The first law is about a condition that comes without a time.
pub record MachineryLaws (m : Machinery) : Type 0 where
  pub find-set :
      (now : ℕ) (cs : List Condition) (c : Condition) (t : Text)
      → c.last_transition_time ≡ 0
      → find_condition t (m.set_status_condition now cs c) ≡ (
          if c.condition_type == t
          then some (stamped now (find_condition t cs) c)
          else find_condition t cs)
  pub set_idle :
      (now time : ℕ) (cs : List Condition) (c : Condition)
      → find_condition c.condition_type cs ≡ some (record c { last_transition_time = time })
      → m.set_status_condition now cs c ≡ cs
  pub find-remove :
      (cs : List Condition) (t u : Text)
      → find_condition u (m.remove_status_condition cs t)
        ≡ (if t == u then none else find_condition u cs)
  pub remove_idle :
      (cs : List Condition) (t : Text)
      → find_condition t cs ≡ none
      → m.remove_status_condition cs t ≡ cs
  pub zone_status_refl : (s : PrivateDnsZoneStatus) → m.equal_zone_status s s ≡ true
  pub zone_status_equal : (s t : PrivateDnsZoneStatus) → m.equal_zone_status s t ≡ true → s ≡ t
  pub record_status_refl : (s : PrivateDnsRecordStatus) → m.equal_record_status s s ≡ true
  pub record_status_equal :
      (s t : PrivateDnsRecordStatus) → m.equal_record_status s t ≡ true → s ≡ t
