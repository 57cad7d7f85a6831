-- ===== src/Controller/Reconcile/Keeps.antt =====
-- What the parts of `Reconcile` leave alone, whatever calls fail.
use private_dns_operator.Prelude.{
  ℕ, ◌≡◌, Bool, not, ◌||◌, List, [], ◌∷◌, ◌++◌, Option, none, some, Bool-cases, inl, inr,
}
use private_dns_operator.Text.{Text, ◌==◌}
use private_dns_operator.Text.Map.{Map, lookup}
use private_dns_operator.Types.{
  PrivateDnsZone, PrivateDnsZoneStatus, PrivateDnsRecord, PrivateDnsRecordStatus,
}
use private_dns_operator.Kube.Api.{
  Cluster, ◌>>=◌, pure, store, update_zone, patch_zone_status, patch_record_status,
}
use private_dns_operator.Kube.Api.Keeps.{
  Keeps, Keeps-then, Keeps-bind, zones-keeps, records-keeps, ignore_not_found-Keeps,
}
use private_dns_operator.Kube.Machinery.{Machinery}
use private_dns_operator.Controller.Records.{RecordOutcome}
use private_dns_operator.Controller.Outcomes.{key_of}
use private_dns_operator.Controller.Results.{ZoneResult}
use private_dns_operator.Controller.Statuses.{
  zone_status, write_zone_status, write_zone_statuses, record_status, write_record_status,
  write_record_statuses,
}
use private_dns_operator.Controller.Reconcile.{
  Clock, released, has_finalizer, release_zone, release_deleted_zones, report, claim_zone,
  claim_zones, with_finalizers, private_dns_zone_finalizer,
}

module _ (P : Cluster → Type 0)
    (patched_zone : (c : Cluster) (name : Text) (status : PrivateDnsZoneStatus)
        (zs : List PrivateDnsZone)
      → store (λ z. z.meta.name == name) (λ z. record z { status = status }) c.zones ≡ some zs
      → P c
      → P (record c { zones = zs }))
    (patched_record : (c : Cluster) (rs : List PrivateDnsRecord)
      → P c
      → P (record c { records = rs })) where
  patch_zone_status-Keeps :
      (name : Text) (status : PrivateDnsZoneStatus) → Keeps P (patch_zone_status name status)
  unfolding patch_zone_status
  patch_zone_status-Keeps name status w h =
      zones-keeps P _ _ _ w (λ zs e. patched_zone w.cluster name status zs e h) h

  patch_record_status-Keeps :
      (namespace name : Text) (status : PrivateDnsRecordStatus)
      → Keeps P (patch_record_status namespace name status)
  unfolding patch_record_status
  patch_record_status-Keeps namespace name status w h =
      records-keeps P _ _ _ w (λ rs. patched_record w.cluster rs h) h

  module _ (m : Machinery) (clock : Text → Text → ℕ) where
    write_zone_status-Keeps :
        (reloadable : Bool) (zone : PrivateDnsZone) (o : Option ZoneResult)
        → Keeps P (write_zone_status m clock reloadable zone o)
    unfolding write_zone_status
    write_zone_status-Keeps reloadable zone none w h = h
    write_zone_status-Keeps reloadable zone (some result) w h =
        let status = zone_status m clock reloadable zone result in
        elim (Bool-cases zone.meta.deleting) [
          | inl e ↦ rw e h
          | inr e ↦ elim (Bool-cases (m.equal_zone_status zone.status status)) [
            | inl q ↦ rw (e, q) h
            | inr q ↦
                rw (e, q)
                  (ignore_not_found-Keeps P (patch_zone_status zone.meta.name status)
                    (patch_zone_status-Keeps zone.meta.name status) w h)
          ]
        ]

    write_zone_statuses-Keeps :
        (zones : List PrivateDnsZone) (results : Map ZoneResult) (reloadable : Bool)
        → Keeps P (write_zone_statuses m clock zones results reloadable)
    unfolding write_zone_statuses
    write_zone_statuses-Keeps [] results reloadable = λ w h. h
    write_zone_statuses-Keeps (zone ∷ zones) results reloadable =
        Keeps-then P (write_zone_status m clock reloadable zone (lookup zone.meta.name results))
          (write_zone_statuses m clock zones results reloadable)
          (write_zone_status-Keeps reloadable zone _)
          (write_zone_statuses-Keeps zones results reloadable)

    write_record_status-Keeps :
        (r : PrivateDnsRecord) (o : Option RecordOutcome)
        → Keeps P (write_record_status m clock r o)
    unfolding write_record_status
    write_record_status-Keeps r none w h = h
    write_record_status-Keeps r (some outcome) w h =
        let status = record_status m clock r outcome in
        elim (Bool-cases r.meta.deleting) [
          | inl e ↦ rw e h
          | inr e ↦ elim (Bool-cases (m.equal_record_status r.status status)) [
            | inl q ↦ rw (e, q) h
            | inr q ↦
                rw (e, q)
                  (ignore_not_found-Keeps P
                    (patch_record_status r.meta.namespace r.meta.name status)
                    (patch_record_status-Keeps r.meta.namespace r.meta.name status) w h)
          ]
        ]

    write_record_statuses-Keeps :
        (rs : List PrivateDnsRecord) (outcomes : Map RecordOutcome)
        → Keeps P (write_record_statuses m clock rs outcomes)
    unfolding write_record_statuses
    write_record_statuses-Keeps [] outcomes = λ w h. h
    write_record_statuses-Keeps (r ∷ rs) outcomes =
        Keeps-then P (write_record_status m clock r (lookup (key_of r) outcomes))
          (write_record_statuses m clock rs outcomes) (write_record_status-Keeps r _)
          (write_record_statuses-Keeps rs outcomes)

  pub report-Keeps :
      (m : Machinery) (clock : Clock) (zones : List PrivateDnsZone)
      (records : List PrivateDnsRecord) (results : Map ZoneResult) (outcomes : Map RecordOutcome)
      (reloadable : Bool)
      → Keeps P (report m clock zones records (results, outcomes) reloadable)
  unfolding report
  report-Keeps m clock zones records results outcomes reloadable =
      Keeps-then P (write_zone_statuses m clock.stamp zones results reloadable)
        (write_record_statuses m clock.stamp records outcomes)
        (write_zone_statuses-Keeps m clock.stamp zones results reloadable)
        (write_record_statuses-Keeps m clock.stamp records outcomes)

-- Releasing zones touches the zones only.
module _ (P : Cluster → Type 0)
    (closed : (c : Cluster) (zs : List PrivateDnsZone) → P c → P (record c { zones = zs })) where
  pub update_zone-Keeps : (zone : PrivateDnsZone) → Keeps P (update_zone zone)
  unfolding update_zone
  update_zone-Keeps zone w h = zones-keeps P _ _ _ w (λ zs e. closed w.cluster zs h) h

  release_zone-Keeps : (zone : PrivateDnsZone) → Keeps P (release_zone zone)
  unfolding release_zone
  release_zone-Keeps zone w h =
      elim (Bool-cases (not zone.meta.deleting || not (has_finalizer zone))) [
        | inl e ↦ rw e h
        | inr e ↦ rw e (
            ignore_not_found-Keeps P (update_zone (released zone))
              (update_zone-Keeps (released zone)) w h)
      ]

  pub release_deleted_zones-Keeps :
      (zones : List PrivateDnsZone) → Keeps P (release_deleted_zones zones)
  unfolding release_deleted_zones
  release_deleted_zones-Keeps [] = λ w h. h
  release_deleted_zones-Keeps (zone ∷ zones) =
      Keeps-then P (release_zone zone) (release_deleted_zones zones) (release_zone-Keeps zone)
        (release_deleted_zones-Keeps zones)

  claim_zone-Keeps : (zone : PrivateDnsZone) → Keeps P (claim_zone zone)
  unfolding claim_zone
  claim_zone-Keeps zone w h =
      let claimed =
        with_finalizers zone (zone.meta.finalizers ++ private_dns_zone_finalizer ∷ []) in
      elim (Bool-cases (zone.meta.deleting || has_finalizer zone)) [
        | inl e ↦ rw e h
        | inr e ↦ rw e (
            Keeps-then P (update_zone claimed) (pure claimed) (update_zone-Keeps claimed) (λ w h. h)
              w h)
      ]

  pub claim_zones-Keeps : (zones : List PrivateDnsZone) → Keeps P (claim_zones zones)
  unfolding claim_zones
  claim_zones-Keeps [] = λ w h. h
  claim_zones-Keeps (zone ∷ zones) =
      Keeps-bind P (claim_zone zone)
        (λ claimed. claim_zones zones >>= λ rest. pure (claimed ∷ rest)) (claim_zone-Keeps zone)
        λ claimed.
          Keeps-bind P (claim_zones zones) (λ rest. pure (claimed ∷ rest)) (claim_zones-Keeps zones)
            λ rest w h. h
