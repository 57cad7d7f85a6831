-- ===== src/Controller/Reconcile/Quiet.antt =====
-- Parts of a reconcile that return where no call fails, whatever is in the cluster.
use private_dns_operator.Prelude.{
  ℕ, ◌≡◌, refl, Bool, true, false, not, ◌||◌, List, [], ◌∷◌, if◌then◌else◌, Option, none, some,
  Bool-cases, inl, inr,
}
use private_dns_operator.Text.{Text}
use private_dns_operator.Text.Map.{Map, lookup}
use private_dns_operator.Types.{
  PrivateDnsZone, PrivateDnsZoneStatus, PrivateDnsRecord, PrivateDnsRecordStatus,
}
use private_dns_operator.Kube.Api.{
  Cluster, World, Api, ◌>>◌, pure, Write, Fault, fine, stored, written, next_fault, later_faults,
  update_zone, patch_zone_status, patch_record_status, ignore_not_found, absent_or_ok, read_result,
  object_or_not_found,
}
use private_dns_operator.Kube.Machinery.{Machinery}
use private_dns_operator.Controller.Records.{RecordOutcome}
use private_dns_operator.Controller.Outcomes.{key_of}
use private_dns_operator.Controller.Results.{ZoneResult}
use private_dns_operator.Controller.Commit.Completion.{Done, Done-bind}
use private_dns_operator.Controller.Statuses.{
  zone_status, write_zone_status, write_zone_statuses, record_status, write_record_status,
  write_record_statuses,
}
use private_dns_operator.Controller.Reconcile.{
  Clock, released, has_finalizer, release_zone, release_deleted_zones, report,
}

-- A run that returns from any world in which no call fails.
abbrev pub Quiet : {A : Type 0} → Api A → Type 0
Quiet m = (w : World) → w.faults ≡ [] → Done (m w)

pub Quiet-then : {A B : Type 0} (m : Api A) (k : Api B) → Quiet m → Quiet k → Quiet (m >> k)
Quiet-then m k first second w h = Done-bind (m w) (λ _. k) (first w h) (λ a w' e q. second w' q)

-- Where no call fails, a write whose NotFound is ignored returns.
stored-Done :
    (f : Fault) (x : Write) (o : Option Cluster) (w : World)
    → f ≡ fine
    → w.faults ≡ []
    → Done (absent_or_ok (stored f x o w).0, (stored f x o w).1)
unfolding stored written read_result object_or_not_found absent_or_ok later_faults
stored-Done f x none w e h = rw (e, h) refl
stored-Done f x (some c) w e h = rw (e, h) refl

fine_next : (w : World) → w.faults ≡ [] → next_fault w.faults ≡ fine
unfolding next_fault
fine_next w h = rw h refl

update_zone-Quiet : (zone : PrivateDnsZone) → Quiet (ignore_not_found (update_zone zone))
unfolding ignore_not_found update_zone
update_zone-Quiet zone w h = stored-Done _ _ _ w (fine_next w h) h

patch_zone_status-Quiet :
    (name : Text) (status : PrivateDnsZoneStatus)
    → Quiet (ignore_not_found (patch_zone_status name status))
unfolding ignore_not_found patch_zone_status
patch_zone_status-Quiet name status w h = stored-Done _ _ _ w (fine_next w h) h

patch_record_status-Quiet :
    (namespace name : Text) (status : PrivateDnsRecordStatus)
    → Quiet (ignore_not_found (patch_record_status namespace name status))
unfolding ignore_not_found patch_record_status
patch_record_status-Quiet namespace name status w h = stored-Done _ _ _ w (fine_next w h) h

release_zone-Quiet : (zone : PrivateDnsZone) → Quiet (release_zone zone)
unfolding release_zone
release_zone-Quiet zone w h =
    elim (Bool-cases (not zone.meta.deleting || not (has_finalizer zone))) [
      | inl e ↦ rw e h
      | inr e ↦ rw e (update_zone-Quiet (released zone) w h)
    ]

pub release_deleted_zones-Quiet :
    (zones : List PrivateDnsZone) → Quiet (release_deleted_zones zones)
unfolding release_deleted_zones
release_deleted_zones-Quiet [] = λ w h. h
release_deleted_zones-Quiet (zone ∷ zones) =
    Quiet-then (release_zone zone) (release_deleted_zones zones) (release_zone-Quiet zone)
      (release_deleted_zones-Quiet zones)

-- Under either test a run that returns.
choose-Quiet :
    (skip same : Bool) (m : Api (Unit {0}))
    → Quiet m
    → Quiet (if skip then pure tt else if same then pure tt else m)
choose-Quiet true same m quiet = λ w h. h
choose-Quiet false true m quiet = λ w h. h
choose-Quiet false false m quiet = quiet

module _ (m : Machinery) (clock : Text → Text → ℕ) where
  write_zone_status-Quiet :
      (reloadable : Bool) (zone : PrivateDnsZone) (o : Option ZoneResult)
      → Quiet (write_zone_status m clock reloadable zone o)
  unfolding write_zone_status
  write_zone_status-Quiet reloadable zone none = λ w h. h
  write_zone_status-Quiet reloadable zone (some result) =
      let status = zone_status m clock reloadable zone result in
      choose-Quiet zone.meta.deleting (m.equal_zone_status zone.status status)
        (ignore_not_found (patch_zone_status zone.meta.name status))
        (patch_zone_status-Quiet zone.meta.name status)

  write_zone_statuses-Quiet :
      (zones : List PrivateDnsZone) (results : Map ZoneResult) (reloadable : Bool)
      → Quiet (write_zone_statuses m clock zones results reloadable)
  unfolding write_zone_statuses
  write_zone_statuses-Quiet [] results reloadable = λ w h. h
  write_zone_statuses-Quiet (zone ∷ zones) results reloadable =
      Quiet-then (write_zone_status m clock reloadable zone (lookup zone.meta.name results))
        (write_zone_statuses m clock zones results reloadable)
        (write_zone_status-Quiet reloadable zone _)
        (write_zone_statuses-Quiet zones results reloadable)

  write_record_status-Quiet :
      (r : PrivateDnsRecord) (o : Option RecordOutcome) → Quiet (write_record_status m clock r o)
  unfolding write_record_status
  write_record_status-Quiet r none = λ w h. h
  write_record_status-Quiet r (some outcome) =
      let status = record_status m clock r outcome in
      choose-Quiet r.meta.deleting (m.equal_record_status r.status status)
        (ignore_not_found (patch_record_status r.meta.namespace r.meta.name status))
        (patch_record_status-Quiet r.meta.namespace r.meta.name status)

  write_record_statuses-Quiet :
      (rs : List PrivateDnsRecord) (outcomes : Map RecordOutcome)
      → Quiet (write_record_statuses m clock rs outcomes)
  unfolding write_record_statuses
  write_record_statuses-Quiet [] outcomes = λ w h. h
  write_record_statuses-Quiet (r ∷ rs) outcomes =
      Quiet-then (write_record_status m clock r (lookup (key_of r) outcomes))
        (write_record_statuses m clock rs outcomes) (write_record_status-Quiet r _)
        (write_record_statuses-Quiet rs outcomes)

pub report-Quiet :
    (m : Machinery) (clock : Clock) (zones : List PrivateDnsZone) (records : List PrivateDnsRecord)
    (results : Map ZoneResult) (outcomes : Map RecordOutcome) (reloadable : Bool)
    → Quiet (report m clock zones records (results, outcomes) reloadable)
unfolding report
report-Quiet m clock zones records results outcomes reloadable =
    Quiet-then (write_zone_statuses m clock.stamp zones results reloadable)
      (write_record_statuses m clock.stamp records outcomes)
      (write_zone_statuses-Quiet m clock.stamp zones results reloadable)
      (write_record_statuses-Quiet m clock.stamp records outcomes)
