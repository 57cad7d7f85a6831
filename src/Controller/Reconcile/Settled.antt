-- ===== src/Controller/Reconcile/Settled.antt =====
-- The end of a reconcile that finds its statuses in place.
use private_dns_operator.Prelude.{◌≡◌, Bool, List}
use private_dns_operator.Text.{Text}
use private_dns_operator.Types.{PrivateDnsZone, PrivateDnsRecord}
use private_dns_operator.Kube.{ConfigMap, ok}
use private_dns_operator.Kube.Api.{World}
use private_dns_operator.Kube.Machinery.{Machinery, MachineryLaws}
use private_dns_operator.Dns.Record.{Record}
use private_dns_operator.Controller.Statuses.{write_zone_statuses, write_record_statuses}
use private_dns_operator.Controller.Statuses.Settled.{
  settled_zones, settled_records, zones_idle, records_idle, then_idle,
}
use private_dns_operator.Controller.Zones.Reports.{none-AllReports, render_zones-AllReports}
use private_dns_operator.Controller.Reconcile.{Clock, report, render_pass}

-- Statuses that are written for what the zones are rendered to are not written again for it: the
-- last two steps of a reconcile make no call then, whatever the clock says. Assumed of
-- apimachinery is what it documents of setting, removing and comparing conditions.
pub report_idle :
    (sha1_hex : Text → Text) (order : List Record → List Record) (m : Machinery)
    (laws : MachineryLaws m) (clock later : Clock) (zones : List PrivateDnsZone)
    (records : List PrivateDnsRecord) (cm : ConfigMap) (corefile : Text) (reloadable : Bool)
    (w : World)
    → let pass = render_pass sha1_hex order clock zones records cm corefile in
      report m later
        (settled_zones m clock.stamp reloadable pass.results zones)
        (settled_records m clock.stamp pass.outcomes records)
        (pass.results, pass.outcomes)
        reloadable
        w
      ≡ (ok tt, w)
unfolding report render_pass
report_idle sha1_hex order m laws clock later zones records cm corefile reloadable w =
    let pass = render_pass sha1_hex order clock zones records cm corefile in
    then_idle
      (write_zone_statuses m later.stamp (settled_zones m clock.stamp reloadable pass.results zones)
        pass.results reloadable)
      (write_record_statuses m later.stamp (settled_records m clock.stamp pass.outcomes records)
        pass.outcomes)
      w
      (zones_idle m laws clock.stamp later.stamp zones pass.results reloadable w
        (render_zones-AllReports sha1_hex order clock.today records _ zones _ none-AllReports))
      (records_idle m laws clock.stamp later.stamp records pass.outcomes w)
