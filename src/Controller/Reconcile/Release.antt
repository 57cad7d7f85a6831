-- ===== src/Controller/Reconcile/Release.antt =====
-- When a reconcile gives up the finalizer of a zone that is being deleted.
use private_dns_operator.Prelude.{
  ◌≡◌, ◌≢◌, refl, ap, ◌⊎◌, inl, inr, true, false, List, [], some, any, is_empty,
}
use private_dns_operator.Text.{Text}
use private_dns_operator.Types.{PrivateDnsZone, PrivateDnsRecord}
use private_dns_operator.Kube.{ConfigMap, KeyToPath, not_found, message, Result, ok, err}
use private_dns_operator.Kube.Api.{
  World, Fault, fine, refused, lost, read_result, object_or_not_found,
}
use private_dns_operator.Kube.Machinery.{Machinery}
use private_dns_operator.Dns.Record.{Record}
use private_dns_operator.Coredns.ConfigMap.Files.{distinct}
use private_dns_operator.Controller.Outcomes.{new_record_outcomes}
use private_dns_operator.Controller.Commit.{Reconciler}
use private_dns_operator.Controller.Commit.Plan.{corefile_of}
use private_dns_operator.Controller.Commit.Steps.{At}
use private_dns_operator.Controller.Reconcile.{
  Clock, unavailable, report_core_dns_unavailable, with_target, reconcile,
}
use private_dns_operator.Controller.Reconcile.Entry.{target_of, reconcile-cases, spend}
use private_dns_operator.Controller.Reconcile.Keeps.{report-Keeps}
use private_dns_operator.Controller.Reconcile.Target.{
  report_core_dns_unavailable-Keeps, report_core_dns_unavailable-Fails,
}
use private_dns_operator.Controller.Reconcile.Held.{
  is_terminating, Holds, zone_names, patched-Holds,
}
use private_dns_operator.Controller.Reconcile.Orderly.{
  not_empty, IsOrderly, held-IsOrderly, rebuild-IsOrderly,
}

module _ (sha1_hex : Text → Text) (order : List Record → List Record) (m : Machinery)
    (clock : Clock) (r : Reconciler) (cm : ConfigMap) (items : List KeyToPath) where
  unread :
      (w : World) (zones : List PrivateDnsZone) (records : List PrivateDnsRecord) (text : Text)
      → Holds zones w.cluster
      → IsOrderly sha1_hex order m clock r zones records cm items
          (report_core_dns_unavailable m clock zones records text false w)
  unread w zones records text h =
      let told = unavailable text records zones ([], new_record_outcomes records []) in
      held-IsOrderly sha1_hex order m clock r zones records cm items _
        (report_core_dns_unavailable-Fails m clock zones records text false w)
        (report_core_dns_unavailable-Keeps m clock (Holds zones) zones records text false (λ v k. k)
          (report-Keeps (Holds zones) (patched-Holds zones) (λ c rs k. k) m clock zones records
            told.0 told.1 false)
          w h)

  entered :
      (w : World) (zones : List PrivateDnsZone) (records : List PrivateDnsRecord)
      (target : Result ConfigMap)
      → distinct (zone_names zones) ≡ true
      → corefile_of cm ≢ []
      → (target ≡ ok cm) ⊎ ((text : Text) × (target ≡ err (message text)))
      → Holds zones w.cluster
      → At r.core_dns_config_map cm items w.cluster
      → IsOrderly sha1_hex order m clock r zones records cm items
          (with_target sha1_hex order m clock r zones records target w)
  unfolding with_target
  entered w zones records target one_each filled (inl e) holds at =
      let some_text : is_empty (corefile_of cm) ≡ false = not_empty (corefile_of cm) filled in
      rw (e, some_text)
        (rebuild-IsOrderly sha1_hex order m clock r zones records cm items w one_each (holds, at))
  entered w zones records target one_each filled (inr (text, e)) holds at =
      rw e (unread w zones records text holds)

  -- The answer to the read of a ConfigMap that is there.
  answer :
      (f : Fault)
      → read_result f (some cm) ≢ err not_found
      → (read_result f (some cm) ≡ ok cm)
        ⊎ ((text : Text) × (read_result f (some cm) ≡ err (message text)))
  unfolding read_result object_or_not_found
  answer fine h = inl refl
  answer (refused not_found) h = absurd (h refl)
  answer (refused (message text)) h = inr (text, refl)
  answer (lost not_found) h = absurd (h refl)
  answer (lost (message text)) h = inr (text, refl)

  answers :
      (w : World)
      → w.cluster.config_map ≡ some cm
      → target_of w ≢ err not_found
      → (target_of w ≡ ok cm) ⊎ ((text : Text) × (target_of w ≡ err (message text)))
  unfolding target_of
  answers w e h = rw e (answer _ (rw e at h))

  -- Where zones have names of their own, the ConfigMap of CoreDNS has a Corefile, the Deployment
  -- mounts it and the read of the ConfigMap is not answered by NotFound, whatever calls fail: a
  -- reconcile that returns without an error has committed what it rendered, and after one that
  -- ends with an error no zone that is being deleted has lost its finalizer, unless all of it was
  -- committed.
  pub reconcile-IsOrderly :
      (w : World)
      → At r.core_dns_config_map cm items w.cluster
      → corefile_of cm ≢ []
      → distinct (zone_names w.cluster.zones) ≡ true
      → target_of w ≢ err not_found
      → IsOrderly sha1_hex order m clock r w.cluster.zones w.cluster.records cm items
          (reconcile sha1_hex order m clock r w)
  reconcile-IsOrderly w at filled one_each honest =
      reconcile-cases sha1_hex order m clock r
        (IsOrderly sha1_hex order m clock r w.cluster.zones w.cluster.records cm items) w
        (entered (spend (spend (spend w))) w.cluster.zones w.cluster.records (target_of w) one_each
          filled (answers w at.config_map honest) (λ k. refl)
          (record {
            config_map = at.config_map;
            mounted = at.mounted;
            found = at.found;
            same = at.same;
          }))
        (λ e w' same. inl (λ k. ap (λ c. any (is_terminating k) c.zones) same))
