-- ===== src/Controller/Reconcile/Target.antt =====
-- A CoreDNS target that is not there.
use private_dns_operator.Prelude.{
  ◌≡◌, refl, ap, Bool, true, false, List, [], Option, none, some, if◌then◌else◌,
}
use private_dns_operator.Text.{Text}
use private_dns_operator.Types.{PrivateDnsZone, PrivateDnsRecord}
use private_dns_operator.Kube.{ConfigMap, not_found, message, Result, ok, err}
use private_dns_operator.Kube.Api.{
  Cluster, World, Api, ◌>>◌, pure, fail, Fault, fine, refused, lost, read_result,
  object_or_not_found,
}
use private_dns_operator.Kube.Api.Keeps.{Keeps, Keeps-then, IsErr, Fails, Fails-bind}
use private_dns_operator.Kube.Machinery.{Machinery}
use private_dns_operator.Dns.Record.{Record}
use private_dns_operator.Controller.Commit.{Reconciler}
use private_dns_operator.Controller.Commit.Plan.{corefile_of}
use private_dns_operator.Controller.Outcomes.{new_record_outcomes}
use private_dns_operator.Controller.Reconcile.{
  Clock, unavailable, report, release_deleted_zones, report_core_dns_unavailable, with_target,
  reconcile, no_corefile_text,
}
use private_dns_operator.Controller.Reconcile.Entry.{target_of, reconcile-cases, spend}
use private_dns_operator.Controller.Reconcile.Keeps.{report-Keeps, release_deleted_zones-Keeps}

-- The Corefile in the cluster; it is empty where there is none.
unfoldable pub corefile_in : Option ConfigMap → Text
corefile_in none = []
corefile_in (some cm) = corefile_of cm

pub if-Keeps :
    (P : Cluster → Type 0) (b : Bool) (m : Api (Unit {0}))
    → Keeps P m
    → Keeps P (if b then m else pure tt)
if-Keeps P true m keeps = keeps
if-Keeps P false m keeps = λ w h. h

-- An answer to the read of the ConfigMap that does not hold a Corefile.
unfoldable pub IsUnavailable : Result ConfigMap → Type 0
IsUnavailable (ok cm) = corefile_of cm ≡ []
IsUnavailable (err e) = Unit {0}

pub no_target :
    (f : Fault) (o : Option ConfigMap) → corefile_in o ≡ [] → IsUnavailable (read_result f o)
unfolding read_result object_or_not_found corefile_in IsUnavailable
no_target fine none h = tt
no_target fine (some cm) h = h
no_target (refused e) o h = tt
no_target (lost e) o h = tt

module _ (m : Machinery) (clock : Clock) where
  abbrev reported : List PrivateDnsZone → List PrivateDnsRecord → Text → Api (Unit {0})
  reported zones records text =
      report m clock zones records
        (unavailable text records zones ([], new_record_outcomes records [])) false

  pub report_core_dns_unavailable-Fails :
      (zones : List PrivateDnsZone) (records : List PrivateDnsRecord) (text : Text)
      (release_terminating : Bool)
      → Fails (report_core_dns_unavailable m clock zones records text release_terminating)
  unfolding report_core_dns_unavailable
  report_core_dns_unavailable-Fails zones records text release_terminating =
      let last = reported zones records text in
      let stop = fail {A = Unit {0}} (message text) in
      Fails-bind (if release_terminating then release_deleted_zones zones else pure tt)
        (λ _. last >> stop) λ _. Fails-bind last (λ _. stop) λ _ w. tt

  pub report_core_dns_unavailable-Keeps :
      (P : Cluster → Type 0) (zones : List PrivateDnsZone) (records : List PrivateDnsRecord)
      (text : Text) (release_terminating : Bool)
      → Keeps P (if release_terminating then release_deleted_zones zones else pure tt)
      → Keeps P (reported zones records text)
      → Keeps P (report_core_dns_unavailable m clock zones records text release_terminating)
  unfolding report_core_dns_unavailable
  report_core_dns_unavailable-Keeps P zones records text release_terminating first second =
      let last = reported zones records text in
      let stop = fail {A = Unit {0}} (message text) in
      Keeps-then P (if release_terminating then release_deleted_zones zones else pure tt)
        (last >> stop) first (Keeps-then P last stop second (λ w h. h))

-- The ConfigMap and the Deployment are as they were.
abbrev pub Untouched : Cluster → Cluster → Type 0
Untouched c c' = (c'.config_map ≡ c.config_map) × (c'.deployment ≡ c.deployment)

-- The run ended with an error and left the CoreDNS target alone.
abbrev pub IsIdleError : Cluster → Result (Unit {0}) × World → Type 0
IsIdleError c r = IsErr r × Untouched c r.1.cluster

module _ (sha1_hex : Text → Text) (order : List Record → List Record) (m : Machinery)
    (clock : Clock) (r : Reconciler) where
  idle_report :
      (c : Cluster) (zones : List PrivateDnsZone) (records : List PrivateDnsRecord) (text : Text)
      (release_terminating : Bool) (w : World)
      → Untouched c w.cluster
      → IsIdleError c (report_core_dns_unavailable m clock zones records text release_terminating w)
  idle_report c zones records text release_terminating w h =
      let P = Untouched c in
      (
        report_core_dns_unavailable-Fails m clock zones records text release_terminating w,
        report_core_dns_unavailable-Keeps m clock P zones records text release_terminating
            (if-Keeps P release_terminating (release_deleted_zones zones)
              (release_deleted_zones-Keeps P (λ d zs k. k) zones))
            (report-Keeps P (λ d name status zs e k. k) (λ d rs k. k) m clock zones records
              (unavailable text records zones ([], new_record_outcomes records [])).0
              (unavailable text records zones ([], new_record_outcomes records [])).1 false)
            w h,
      )

  idle_target :
      (c : Cluster) (zones : List PrivateDnsZone) (records : List PrivateDnsRecord)
      (target : Result ConfigMap) (w : World)
      → IsUnavailable target
      → Untouched c w.cluster
      → IsIdleError c (with_target sha1_hex order m clock r zones records target w)
  unfolding with_target IsUnavailable
  idle_target c zones records (err not_found) w u h = idle_report c zones records _ true w h
  idle_target c zones records (err (message text)) w u h =
      idle_report c zones records text false w h
  idle_target c zones records (ok cm) w u h =
      rw u (idle_report c zones records (no_corefile_text r) true w h)

  -- Where the cluster has no ConfigMap of CoreDNS, or one without a Corefile, Reconcile returns an
  -- error and leaves the ConfigMap and the Deployment as they are, whatever calls fail.
  pub reconcile-IsIdleError :
      (w : World)
      → corefile_in w.cluster.config_map ≡ []
      → IsIdleError w.cluster (reconcile sha1_hex order m clock r w)
  unfolding target_of
  reconcile-IsIdleError w h =
      reconcile-cases sha1_hex order m clock r (IsIdleError w.cluster) w
        (idle_target w.cluster w.cluster.zones w.cluster.records (target_of w)
          (spend (spend (spend w))) (no_target _ w.cluster.config_map h) (refl, refl))
        (λ e w' same. (tt, (ap (λ c. c.config_map) same, ap (λ c. c.deployment) same)))
