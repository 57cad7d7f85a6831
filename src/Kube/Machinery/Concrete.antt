-- ===== src/Kube/Machinery/Concrete.antt =====
-- Functions that behave as the documentation of apimachinery says: the laws can hold.
use private_dns_operator.Prelude.{
  ℕ, ◌≡◌, refl, ap₂, Bool, true, false, not, ◌&&◌, List, [], ◌∷◌, if◌then◌else◌, none, some, eqb,
  keep, arith,
}
use private_dns_operator.Text.{Text, ◌==◌}
use private_dns_operator.Text.Eq.{eq_iff, eq_refl}
use private_dns_operator.Types.{
  Condition, ConditionStatus, condition_true, condition_false, condition_unknown,
  PrivateDnsZoneStatus, PrivateDnsRecordStatus,
}
use private_dns_operator.Kube.Machinery.{
  Machinery, MachineryLaws, find_condition, same_status, stamped,
}

unfoldable set_condition : ℕ → List Condition → Condition → List Condition
unfolding stamped
set_condition now [] c = stamped now none c ∷ []
set_condition now (old ∷ cs) c =
    let rest = set_condition now cs c in
    if old.condition_type == c.condition_type then stamped now (some old) c ∷ cs else old ∷ rest

unfoldable remove_condition : List Condition → Text → List Condition
unfolding keep
remove_condition cs t = keep (λ c. not (c.condition_type == t)) cs

unfoldable equal_condition : Condition → Condition → Bool
unfolding same_status
equal_condition c d =
    (c.condition_type == d.condition_type)
    && (same_status c.status d.status
        && ((c.reason == d.reason)
            && ((c.message == d.message)
                && (eqb c.observed_generation d.observed_generation
                    && eqb c.last_transition_time d.last_transition_time))))

unfoldable equal_conditions : List Condition → List Condition → Bool
unfolding equal_condition
equal_conditions [] [] = true
equal_conditions (c ∷ cs) (d ∷ ds) = equal_condition c d && equal_conditions cs ds
equal_conditions _ _ = false

unfoldable equal_zone : PrivateDnsZoneStatus → PrivateDnsZoneStatus → Bool
unfolding equal_conditions
equal_zone s t =
    eqb s.observed_generation t.observed_generation
    && (equal_conditions s.conditions t.conditions
        && (eqb s.records t.records
            && ((s.serial == t.serial)
                && ((s.zone_file_key == t.zone_file_key)
                    && (s.last_applied_hash == t.last_applied_hash)))))

unfoldable equal_record : PrivateDnsRecordStatus → PrivateDnsRecordStatus → Bool
unfolding equal_conditions
equal_record s t =
    eqb s.observed_generation t.observed_generation
    && (equal_conditions s.conditions t.conditions && (s.fqdn == t.fqdn))

unfoldable pub machinery : Machinery
unfolding set_condition remove_condition equal_zone equal_record
machinery = record {
  set_status_condition = set_condition;
  remove_status_condition = remove_condition;
  equal_zone_status = equal_zone;
  equal_record_status = equal_record;
}

find-set :
    (now : ℕ) (cs : List Condition) (c : Condition) (t : Text)
    → find_condition t (set_condition now cs c) ≡ (
        if c.condition_type == t
        then some (stamped now (find_condition t cs) c)
        else find_condition t cs)
unfolding set_condition find_condition stamped
find-set now [] c t = ground arith
find-set now (old ∷ cs) c t = ground (
  arith,
  find-set now cs c t,
  eq_iff old.condition_type c.condition_type,
  eq_iff old.condition_type t,
  eq_iff c.condition_type t,
)

same_status_refl : (s : ConditionStatus) → same_status s s ≡ true
unfolding same_status
same_status_refl condition_true = refl
same_status_refl condition_false = refl
same_status_refl condition_unknown = refl

set_idle :
    (now time : ℕ) (cs : List Condition) (c : Condition)
    → find_condition c.condition_type cs ≡ some (record c { last_transition_time = time })
    → set_condition now cs c ≡ cs
unfolding set_condition find_condition stamped
set_idle now time [] c h = cc
set_idle now time (old ∷ cs) c h =
    ground (arith, set_idle now time cs c, eq_refl c.condition_type, same_status_refl c.status)

find-remove :
    (cs : List Condition) (t u : Text)
    → find_condition u (remove_condition cs t) ≡ (if t == u then none else find_condition u cs)
unfolding remove_condition keep find_condition
find-remove [] t u = ground arith
find-remove (c ∷ cs) t u =
    ground
      (arith, find-remove cs t u, eq_iff c.condition_type t, eq_iff c.condition_type u, eq_iff t u)

remove_idle :
    (cs : List Condition) (t : Text) → find_condition t cs ≡ none → remove_condition cs t ≡ cs
unfolding remove_condition keep find_condition
remove_idle [] t h = refl
remove_idle (c ∷ cs) t h = ground (arith, remove_idle cs t)

same_status-equal : (s t : ConditionStatus) → same_status s t ≡ true → s ≡ t
unfolding same_status
same_status-equal condition_true condition_true h = refl
same_status-equal condition_false condition_false h = refl
same_status-equal condition_unknown condition_unknown h = refl
same_status-equal condition_true condition_false h = cc
same_status-equal condition_true condition_unknown h = cc
same_status-equal condition_false condition_true h = cc
same_status-equal condition_false condition_unknown h = cc
same_status-equal condition_unknown condition_true h = cc
same_status-equal condition_unknown condition_false h = cc

equal_conditions_refl : (cs : List Condition) → equal_conditions cs cs ≡ true
unfolding equal_conditions equal_condition
equal_conditions_refl [] = refl
equal_conditions_refl (c ∷ cs) = ground (
  arith,
  equal_conditions_refl cs,
  eq_refl c.condition_type,
  same_status_refl c.status,
  eq_refl c.reason,
  eq_refl c.message,
)

equal_condition-equal : (c d : Condition) → equal_condition c d ≡ true → c ≡ d
unfolding equal_condition
equal_condition-equal c d h = ground (
  arith,
  eq_iff c.condition_type d.condition_type,
  same_status-equal c.status d.status,
  eq_iff c.reason d.reason,
  eq_iff c.message d.message,
)

equal_conditions-equal : (cs ds : List Condition) → equal_conditions cs ds ≡ true → cs ≡ ds
unfolding equal_conditions
equal_conditions-equal [] [] h = refl
equal_conditions-equal [] (d ∷ ds) h = cc
equal_conditions-equal (c ∷ cs) [] h = cc
equal_conditions-equal (c ∷ cs) (d ∷ ds) h =
    ap₂ (λ x xs. x ∷ xs) (equal_condition-equal c d (ground arith))
      (equal_conditions-equal cs ds (ground arith))

equal_zone-equal : (s t : PrivateDnsZoneStatus) → equal_zone s t ≡ true → s ≡ t
unfolding equal_zone
equal_zone-equal s t h = ground (
  arith,
  equal_conditions-equal s.conditions t.conditions,
  eq_iff s.serial t.serial,
  eq_iff s.zone_file_key t.zone_file_key,
  eq_iff s.last_applied_hash t.last_applied_hash,
)

equal_record-equal : (s t : PrivateDnsRecordStatus) → equal_record s t ≡ true → s ≡ t
unfolding equal_record
equal_record-equal s t h =
    ground (arith, equal_conditions-equal s.conditions t.conditions, eq_iff s.fqdn t.fqdn)

pub machinery-laws : MachineryLaws machinery
unfolding machinery
machinery-laws = record {
  find-set = λ now cs c t h. find-set now cs c t;
  set_idle = set_idle;
  find-remove = find-remove;
  remove_idle = remove_idle;
  zone_status_refl = λ s.
      unfold equal_zone in
      ground (
        arith,
        equal_conditions_refl s.conditions,
        eq_refl s.serial,
        eq_refl s.zone_file_key,
        eq_refl s.last_applied_hash,
      );
  zone_status_equal = equal_zone-equal;
  record_status_refl = λ s.
      unfold equal_record in ground (arith, equal_conditions_refl s.conditions, eq_refl s.fqdn);
  record_status_equal = equal_record-equal;
}
