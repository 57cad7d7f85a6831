-- ===== src/Controller/Statuses/Settled.antt =====
-- Statuses that are written once are not written again.
use private_dns_operator.Prelude.{
  ℕ, ◌≡◌, refl, ap, ◌∙◌, Bool, true, false, List, [], ◌∷◌, map, if◌then◌else◌, Option, none, some,
  all,
}
use private_dns_operator.Text.{Text}
use private_dns_operator.Text.Set.{contains}
use private_dns_operator.Text.Map.{Map, lookup}
use private_dns_operator.Types.{PrivateDnsZone, PrivateDnsRecord}
use private_dns_operator.Kube.{Result, ok, err}
use private_dns_operator.Kube.Api.{
  World, Api, ◌>>◌, pure, ignore_not_found, patch_zone_status, patch_record_status,
}
use private_dns_operator.Kube.Machinery.{Machinery, MachineryLaws}
use private_dns_operator.Coredns.ConfigMap.Files.{distinct}
use private_dns_operator.Controller.Conditions.{accepted, zone_condition_types, types_of}
use private_dns_operator.Controller.Conditions.Merge.{IsDesired, apply_conditions-apply_conditions}
use private_dns_operator.Controller.Records.{RecordOutcome}
use private_dns_operator.Controller.Outcomes.{key_of}
use private_dns_operator.Controller.Results.{ZoneResult}
use private_dns_operator.Controller.Statuses.{
  desired_conditions, outcome_condition, zone_status, write_zone_status, write_zone_statuses,
  record_status, write_record_status, write_record_statuses,
}
use private_dns_operator.Controller.Statuses.Report.{IsReport, desired_conditions-IsDesired}

-- A write that is skipped.
skips :
    (skip same : Bool) (m : Api (Unit {0})) (w : World)
    → (skip ≡ false → same ≡ true)
    → (if skip then pure tt else if same then pure tt else m) w ≡ (ok tt, w)
skips true same m w h = refl
skips false true m w h = refl
skips false false m w h = let e = h refl in cc

deleted :
    (skip same : Bool) (m : Api (Unit {0})) (w : World)
    → skip ≡ true
    → (if skip then pure tt else if same then pure tt else m) w ≡ (ok tt, w)
deleted true same m w e = refl
deleted false same m w e = cc

chosen :
    {A : Type 0} (P : A → Type 0) (b : Bool) (x y : A)
    → (b ≡ true → P x)
    → P y
    → P (if b then x else y)
chosen P true x y first second = first refl
chosen P false x y first second = second

pub then_idle :
    (m k : Api (Unit {0})) (w : World)
    → m w ≡ (ok tt, w)
    → k w ≡ (ok tt, w)
    → (m >> k) w ≡ (ok tt, w)
then_idle m k w first second =
    ap
      (λ (x : Result (Unit {0}) × World).
        let (y, w') = x in elim y [ ok a ↦ k w' | err e ↦ (err e, w') ])
      first
    ∙ second

module _ (m : Machinery) (clock : Text → Text → ℕ) where
  -- A zone with the status that is written for its result, if one is.
  unfoldable pub settled_zone : Bool → PrivateDnsZone → Option ZoneResult → PrivateDnsZone
  settled_zone reloadable zone none = zone
  settled_zone reloadable zone (some result) =
      if zone.meta.deleting
      then zone
      else record zone { status = zone_status m clock reloadable zone result }

  pub settled_name :
      (reloadable : Bool) (zone : PrivateDnsZone) (o : Option ZoneResult)
      → (settled_zone reloadable zone o).meta.name ≡ zone.meta.name
  unfolding settled_zone
  settled_name reloadable zone none = refl
  settled_name reloadable zone (some result) =
      chosen (λ z. z.meta.name ≡ zone.meta.name) zone.meta.deleting zone
        (record zone { status = zone_status m clock reloadable zone result }) (λ e. refl) refl

  -- The zones with the statuses that are written for them.
  abbrev pub settled_zones : Bool → Map ZoneResult → List PrivateDnsZone → List PrivateDnsZone
  settled_zones reloadable results zones =
      map (λ zone. settled_zone reloadable zone (lookup zone.meta.name results)) zones

  -- The same for a record.
  unfoldable pub settled_record : PrivateDnsRecord → Option RecordOutcome → PrivateDnsRecord
  settled_record r none = r
  settled_record r (some outcome) =
      if r.meta.deleting then r else record r { status = record_status m clock r outcome }

  -- The records with the statuses that are written for them.
  abbrev pub settled_records : Map RecordOutcome → List PrivateDnsRecord → List PrivateDnsRecord
  settled_records outcomes rs = map (λ r. settled_record r (lookup (key_of r) outcomes)) rs

module _ (m : Machinery) (laws : MachineryLaws m) (clock later : Text → Text → ℕ) where
  idle_write :
      (reloadable : Bool) (zone : PrivateDnsZone) (result : ZoneResult)
      → IsReport result
      → zone_status m later reloadable
          (record zone { status = zone_status m clock reloadable zone result })
          result
        ≡ zone_status m clock reloadable zone result
  unfolding zone_status
  idle_write reloadable zone result h =
      ap
        (λ cs. record {
          observed_generation = zone.meta.generation;
          conditions = cs;
          records = result.records;
          serial = result.serial;
          zone_file_key = result.zone_file_key;
          last_applied_hash = result.last_applied_hash;
        })
        (apply_conditions-apply_conditions m laws (clock zone.meta.name) (later zone.meta.name)
          zone.status.conditions (desired_conditions zone result reloadable) zone_condition_types
          (desired_conditions-IsDesired zone reloadable result h))

  -- The writer has nothing to do for a zone whose status is written.
  zone_idle :
      (reloadable : Bool) (zone : PrivateDnsZone) (o : Option ZoneResult) (w : World)
      → ((result : ZoneResult) → o ≡ some result → IsReport result)
      → write_zone_status m later reloadable (settled_zone m clock reloadable zone o) o w
        ≡ (ok tt, w)
  unfolding write_zone_status settled_zone
  zone_idle reloadable zone none w h = refl
  zone_idle reloadable zone (some result) w h =
      let status = zone_status m clock reloadable zone result in
      let P = λ (z : PrivateDnsZone).
        write_zone_status m later reloadable z (some result) w ≡ (ok tt, w) in
      chosen P zone.meta.deleting zone (record zone { status = status })
        (λ e.
          let now = zone_status m later reloadable zone result in
          deleted zone.meta.deleting (m.equal_zone_status zone.status now)
            (ignore_not_found (patch_zone_status zone.meta.name now)) w e)
        (skips zone.meta.deleting
          (m.equal_zone_status status
            (zone_status m later reloadable (record zone { status = status }) result))
          (ignore_not_found (
            patch_zone_status zone.meta.name
              (zone_status m later reloadable (record zone { status = status }) result)))
          w
          λ _.
            ap (m.equal_zone_status status) (idle_write reloadable zone result (h result refl))
            ∙ laws.zone_status_refl status)

  pub zones_idle :
      (zones : List PrivateDnsZone) (results : Map ZoneResult) (reloadable : Bool) (w : World)
      → ((name : Text) (result : ZoneResult) → lookup name results ≡ some result → IsReport result)
      → write_zone_statuses m later
          (settled_zones m clock reloadable results zones)
          results
          reloadable
          w
        ≡ (ok tt, w)
  unfolding write_zone_statuses
  zones_idle [] results reloadable w h = refl
  zones_idle (zone ∷ zones) results reloadable w h =
      let o = lookup zone.meta.name results in
      let z = settled_zone m clock reloadable zone o in
      then_idle (write_zone_status m later reloadable z (lookup z.meta.name results))
        (write_zone_statuses m later (settled_zones m clock reloadable results zones) results
          reloadable)
        w
        (ap (λ n. write_zone_status m later reloadable z (lookup n results) w)
            (settled_name m clock reloadable zone o)
          ∙ zone_idle reloadable zone o w (h zone.meta.name))
        (zones_idle zones results reloadable w h)

  record-IsDesired :
      (r : PrivateDnsRecord) (outcome : RecordOutcome)
      → IsDesired (outcome_condition r outcome ∷ [])
  unfolding outcome_condition distinct contains types_of all
  record-IsDesired r outcome = record { one_each = refl; no_time = refl }

  idle_record :
      (r : PrivateDnsRecord) (outcome : RecordOutcome)
      → record_status m later (record r { status = record_status m clock r outcome }) outcome
        ≡ record_status m clock r outcome
  unfolding record_status
  idle_record r outcome =
      ap
        (λ cs. record {
          observed_generation = r.meta.generation;
          conditions = cs;
          fqdn = outcome.fqdn;
        })
        (apply_conditions-apply_conditions m laws (clock (key_of r)) (later (key_of r))
          r.status.conditions (outcome_condition r outcome ∷ []) (accepted ∷ [])
          (record-IsDesired r outcome))

  record_idle :
      (r : PrivateDnsRecord) (o : Option RecordOutcome) (w : World)
      → write_record_status m later (settled_record m clock r o) o w ≡ (ok tt, w)
  unfolding write_record_status settled_record
  record_idle r none w = refl
  record_idle r (some outcome) w =
      let status = record_status m clock r outcome in
      let P =
        λ (x : PrivateDnsRecord). write_record_status m later x (some outcome) w ≡ (ok tt, w) in
      chosen P r.meta.deleting r (record r { status = status })
        (λ e.
          let now = record_status m later r outcome in
          deleted r.meta.deleting (m.equal_record_status r.status now)
            (ignore_not_found (patch_record_status r.meta.namespace r.meta.name now)) w e)
        (skips r.meta.deleting
          (m.equal_record_status status
            (record_status m later (record r { status = status }) outcome))
          (ignore_not_found (
            patch_record_status r.meta.namespace r.meta.name
              (record_status m later (record r { status = status }) outcome)))
          w
          λ _.
            ap (m.equal_record_status status) (idle_record r outcome)
            ∙ laws.record_status_refl status)

  settled_key :
      (r : PrivateDnsRecord) (o : Option RecordOutcome)
      → key_of (settled_record m clock r o) ≡ key_of r
  unfolding settled_record
  settled_key r none = refl
  settled_key r (some outcome) =
      chosen (λ x. key_of x ≡ key_of r) r.meta.deleting r
        (record r { status = record_status m clock r outcome }) (λ e. refl) refl

  pub records_idle :
      (rs : List PrivateDnsRecord) (outcomes : Map RecordOutcome) (w : World)
      → write_record_statuses m later (settled_records m clock outcomes rs) outcomes w ≡ (ok tt, w)
  unfolding write_record_statuses
  records_idle [] outcomes w = refl
  records_idle (r ∷ rs) outcomes w =
      let o = lookup (key_of r) outcomes in
      let x = settled_record m clock r o in
      then_idle (write_record_status m later x (lookup (key_of x) outcomes))
        (write_record_statuses m later (settled_records m clock outcomes rs) outcomes) w
        (ap (λ n. write_record_status m later x (lookup n outcomes) w) (settled_key r o)
          ∙ record_idle r o w)
        (records_idle rs outcomes w)
