-- ===== src/Controller/Records/Isolation.antt =====
-- Record objects that are barred from a zone, and what the rest of `recordsForZone` sees of them.
use private_dns_operator.Prelude.{
  ◌≡◌, ◌≢◌, refl, ap, sym, ◌∙◌, false, List, [], ◌∷◌, ◌++◌, if◌then◌else◌, Option, none, some,
  arith, Bool-cases, inl, inr,
}
use private_dns_operator.Text.{Text, ◌==◌, sort_texts}
use private_dns_operator.Text.Trim.{trim_suffix}
use private_dns_operator.Text.Set.{contains}
use private_dns_operator.Text.Map.{Map, lookup}
use private_dns_operator.Types.{PrivateDnsZone, PrivateDnsRecord}
use private_dns_operator.Kube.{Error, ok, err}
use private_dns_operator.Dns.Domain.{fqdn, dot}
use private_dns_operator.Dns.Record.{Record, ValidationError, validate_record}
use private_dns_operator.Dns.RecordSet.{validate_record_set}
use private_dns_operator.Controller.Records.{
  Problem, record_problem, zone_kind, RecordOutcome, Compiled, namespace_allowed, inline_records,
  external_record, admit_external, named_step, external_step, external_records, conflict_map,
  exclude, withhold_step, withhold, settle, records_for_zone,
}

-- What recordsForZone hands on besides the outcomes.
abbrev pub visible : Compiled → List Record × List Text × List Problem
visible c = (c.kept, c.excluded, c.blocking)

module _ (zone : PrivateDnsZone) (n : Text) where
  -- The reasons for which a record object is not admitted.
  pub data IsBarred (candidate : PrivateDnsRecord) : Type 0 where
    denied :
        namespace_allowed zone.spec.allowed_namespaces candidate.meta.namespace ≡ false
        → IsBarred candidate
    misnamed : (e : Error) → fqdn candidate.spec.name n ≡ err e → IsBarred candidate
    malformed :
        (name : Text)
        → fqdn candidate.spec.name n ≡ ok name
        → validate_record (external_record zone n candidate name) ≢ []
        → IsBarred candidate

  not_admitted :
      (r : Record) (es : List ValidationError) → es ≢ [] → (admit_external zone n r es).0 ≡ []
  unfolding admit_external
  not_admitted r [] h = absurd (h refl)
  not_admitted r (e ∷ es) h = refl

  unnamed :
      (candidate : PrivateDnsRecord)
      → (named_step zone n candidate (fqdn candidate.spec.name n)).0 ≡ []
      → (external_step zone n candidate).0 ≡ []
  unfolding external_step
  unnamed candidate h = ground arith

  barred_step :
      (candidate : PrivateDnsRecord) → IsBarred candidate → (external_step zone n candidate).0 ≡ []
  unfolding external_step named_step
  barred_step candidate (denied h) = ground arith
  barred_step candidate (misnamed e h) = unnamed candidate (rw h refl)
  barred_step candidate (malformed name h v) =
      unnamed candidate (rw h (not_admitted (external_record zone n candidate name) _ v))

  -- The records do not depend on the outcomes so far.
  delegated_same :
      (candidates : List PrivateDnsRecord) (o o' : Map RecordOutcome)
      → (external_records zone n candidates o).0 ≡ (external_records zone n candidates o').0
  unfolding external_records
  delegated_same [] o o' = refl
  delegated_same (candidate ∷ candidates) o o' =
      elim (Bool-cases (candidate.spec.zone_ref.name == zone.meta.name)) [
        | inl e ↦ rw e (
            ap (λ (rs : List Record). (external_step zone n candidate).0 ++ rs)
              (delegated_same candidates _ _))
        | inr e ↦ rw e (delegated_same candidates o o')
      ]

  barred_here :
      (candidate : PrivateDnsRecord) (candidates : List PrivateDnsRecord) (o o' : Map RecordOutcome)
      → IsBarred candidate
      → (external_records zone n (candidate ∷ candidates) o).0
        ≡ (external_records zone n candidates o').0
  unfolding external_records
  barred_here candidate candidates o o' h =
      elim (Bool-cases (candidate.spec.zone_ref.name == zone.meta.name)) [
        | inl e ↦ rw (e, barred_step candidate h) (delegated_same candidates _ _)
        | inr e ↦ rw e (delegated_same candidates o o')
      ]

  without_barred :
      (before after : List PrivateDnsRecord) (candidate : PrivateDnsRecord)
      (o o' : Map RecordOutcome)
      → IsBarred candidate
      → (external_records zone n (before ++ candidate ∷ after) o).0
        ≡ (external_records zone n (before ++ after) o').0
  unfolding external_records
  without_barred [] after candidate o o' h = barred_here candidate after o o' h
  without_barred (c ∷ before) after candidate o o' h =
      elim (Bool-cases (c.spec.zone_ref.name == zone.meta.name)) [
        | inl e ↦ rw e (
            ap (λ (rs : List Record). (external_step zone n c).0 ++ rs)
              (without_barred before after candidate _ _ h))
        | inr e ↦ rw e (without_barred before after candidate o o' h)
      ]

-- The effects on what is visible: of a record that is kept, of one that is excluded, of the sorting.
abbrev View : Type 0
View = List Record × List Text × List Problem

abbrev push : Record → View → View
push r v = (v.0 ++ r ∷ [], v.1, v.2)

abbrev drop_out : Record → Text → View → View
drop_out r text v =
    let name = trim_suffix r.fqdn dot in
    (
      v.0,
      if contains v.1 name then v.1 else name ∷ v.1,
      if r.source.kind == zone_kind
          then v.2
            ++ record_problem (record { source = r.source; fqdn = r.fqdn; message = text }) ∷ []
          else v.2,
    )

abbrev sorted : View → View
sorted v = (v.0, sort_texts v.1, v.2)

visible-exclude :
    (r : Record) (text : Text) (c : Compiled)
    → visible (exclude r text c) ≡ drop_out r text (visible c)
unfolding exclude
visible-exclude r text c = elim (Bool-cases (r.source.kind == zone_kind)) [
  | inl e ↦ rw e refl
  | inr e ↦ rw e refl
]

-- A round of the loop over the admitted records depends on the outcomes in its outcomes only.
visible-withhold_step :
    (r : Record) (found : Option Text) (c c' : Compiled)
    → visible c ≡ visible c'
    → visible (withhold_step r found c) ≡ visible (withhold_step r found c')
unfolding withhold_step exclude
visible-withhold_step r none c c' h = ap (push r) h
visible-withhold_step r (some text) c c' h =
    visible-exclude r text c ∙ ap (drop_out r text) h ∙ sym (visible-exclude r text c')

visible-withhold :
    (conflicts : Map Text) (rs : List Record) (c c' : Compiled)
    → visible c ≡ visible c'
    → visible (withhold conflicts rs c) ≡ visible (withhold conflicts rs c')
unfolding withhold
visible-withhold conflicts [] c c' h = h
visible-withhold conflicts (r ∷ rs) c c' h =
    visible-withhold conflicts rs _ _ (visible-withhold_step r (lookup r.fqdn conflicts) c c' h)

visible-settle :
    (conflicts : Map Text) (rs : List Record) (blocking : List Problem) (o o' : Map RecordOutcome)
    → visible (settle conflicts rs blocking o) ≡ visible (settle conflicts rs blocking o')
unfolding settle
visible-settle [] rs blocking o o' = refl
visible-settle (x ∷ xs) rs blocking o o' = ap sorted (
    visible-withhold (x ∷ xs) rs
      (record { kept = []; excluded = []; blocking = blocking; outcomes = o })
      (record { kept = []; excluded = []; blocking = blocking; outcomes = o' }) refl)

-- A record object that is denied by its namespace, has no name in the zone or is malformed leaves
-- the records that are kept, the names that are excluded and the problems that block the zone as
-- they are without it.
pub records_for_zone-IsBarred :
    (zone : PrivateDnsZone) (n : Text) (before after : List PrivateDnsRecord)
    (candidate : PrivateDnsRecord) (outcomes : Map RecordOutcome)
    → IsBarred zone n candidate
    → visible (records_for_zone zone n (before ++ candidate ∷ after) outcomes)
      ≡ visible (records_for_zone zone n (before ++ after) outcomes)
unfolding records_for_zone
records_for_zone-IsBarred zone n before after candidate outcomes h =
    let same = without_barred zone n before after candidate outcomes outcomes h in
    let inline = inline_records zone n zone.spec.records in
    let rs = inline.0 ++ (external_records zone n (before ++ after) outcomes).0 in
    rw same (
      visible-settle (conflict_map (validate_record_set rs) []) rs inline.1
        (external_records zone n (before ++ candidate ∷ after) outcomes).1
        (external_records zone n (before ++ after) outcomes).1)

-- The outcomes that are passed in play no part in it.
pub visible-records_for_zone :
    (zone : PrivateDnsZone) (n : Text) (external : List PrivateDnsRecord) (o o' : Map RecordOutcome)
    → visible (records_for_zone zone n external o) ≡ visible (records_for_zone zone n external o')
unfolding records_for_zone
visible-records_for_zone zone n external o o' =
    let inline = inline_records zone n zone.spec.records in
    let rs = inline.0 ++ (external_records zone n external o').0 in
    rw (delegated_same zone n external o o') (
      visible-settle (conflict_map (validate_record_set rs) []) rs inline.1
        (external_records zone n external o).1 (external_records zone n external o').1)
