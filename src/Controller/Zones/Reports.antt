-- ===== src/Controller/Zones/Reports.antt =====
-- Every result of the loop over the zones has one of the shapes that the status writer relies on.
use private_dns_operator.Prelude.{
  ◌≡◌, refl, sym, subst, ◌∙◌, Bool, true, false, List, [], ◌∷◌, ◌++◌, if◌then◌else◌, Option, some,
  arith, all, Bool-cases, Option-cases, inl, inr,
}
use private_dns_operator.Text.{Text, ◌==◌}
use private_dns_operator.Text.Set.{contains}
use private_dns_operator.Text.Map.{Map, lookup, insert, lookup-insert}
use private_dns_operator.Text.Trim.{trim_suffix}
use private_dns_operator.Types.{
  PrivateDnsZone, PrivateDnsRecord, UnresolvedRecordPolicy, unset, nxdomain, forward, other_policy,
}
use private_dns_operator.Kube.{Result, ok, err}
use private_dns_operator.Dns.Domain.{dot, normalize_zone}
use private_dns_operator.Dns.Record.{Record}
use private_dns_operator.Dns.Render.{ZoneFile, Day, zone_file_key}
use private_dns_operator.Coredns.Corefile.{ZoneDirective}
use private_dns_operator.Controller.Conditions.{types_of}
use private_dns_operator.Controller.Records.{Problem, Compiled, error_message, records_for_zone}
use private_dns_operator.Controller.Results.{
  ZoneResult, failed_result, effective_policy, reason_zone_render_failed, reason_invalid_record_set,
  reason_invalid_zone,
}
use private_dns_operator.Controller.Statuses.Report.{IsReport, not_ready, held, templated, filed}
use private_dns_operator.Controller.Zones.{
  Pass, Previous, hold_last_known_good, publish_file, rendered_result, zone_directive, fail_zone,
  publish_zone, compiled_step, normalized_step, zone_step, render_zones, problem_text,
}

abbrev pub AllReports : Map ZoneResult → Type 0
AllReports results =
    (name : Text) (result : ZoneResult) → lookup name results ≡ some result → IsReport result

pub none-AllReports : AllReports []
unfolding lookup
none-AllReports name result h = cc

found_report :
    (here : Bool) (new result : ZoneResult) (old : Option ZoneResult)
    → IsReport new
    → (old ≡ some result → IsReport result)
    → (if here then some new else old) ≡ some result
    → IsReport result
found_report true new result old h k e =
    let same : new ≡ result = ground arith in subst IsReport same h
found_report false new result old h k e = k e

pub insert-AllReports :
    (name : Text) (result : ZoneResult) (results : Map ZoneResult)
    → IsReport result
    → AllReports results
    → AllReports (insert name result results)
insert-AllReports name result results h all_reports k found e =
    found_report (name == k) result found (lookup k results) h (all_reports k found)
      (sym (lookup-insert name k result results) ∙ e)

pub failed_result-IsReport :
    (zone : PrivateDnsZone) (reason text : Text) → IsReport (failed_result zone reason text)
unfolding failed_result types_of all
failed_result-IsReport zone reason text = not_ready refl refl refl

held-IsReport :
    (sha1_hex : Text → Text) (zone : PrivateDnsZone) (n reason text : Text) (previous : Previous)
    (directives : List ZoneDirective) (files : Map Text)
    → IsReport
        (hold_last_known_good sha1_hex zone n previous (record {
          result = failed_result zone reason text;
          directives = directives;
          zone_files = files;
        })).result
unfolding hold_last_known_good failed_result types_of all
held-IsReport sha1_hex zone n reason text previous directives files =
    let key = zone_file_key sha1_hex n in
    elim (Option-cases (lookup (trim_suffix n dot) previous.blocks)) [
      | inl e ↦ rw e (not_ready refl refl refl)
      | inr (raw, e) ↦ elim (Bool-cases (contains previous.managed_keys key)) [
        | inl q ↦ elim (Option-cases (lookup key previous.config_map.cm_data)) [
          | inl l ↦ rw (e, q, l) (held refl refl refl)
          | inr (file, l) ↦ rw (e, q, l) (held refl refl refl)
        ]
        | inr q ↦ rw (e, q) (held refl refl refl)
      ]
    ]

published-IsReport :
    (policy : UnresolvedRecordPolicy) (zone : PrivateDnsZone) (file : ZoneFile) (rs : List Record)
    (excluded : List Text) (directives : List ZoneDirective) (files : Map Text)
    → IsReport
        (publish_file policy zone file (record {
          result = rendered_result file rs excluded;
          directives = directives;
          zone_files = files;
        })).result
unfolding publish_file rendered_result types_of all
published-IsReport unset zone file rs excluded directives files = filed refl refl refl
published-IsReport nxdomain zone file rs excluded directives files = filed refl refl refl
published-IsReport forward zone file rs excluded directives files = templated refl refl refl
published-IsReport (other_policy p) zone file rs excluded directives files = filed refl refl refl

module _ (sha1_hex : Text → Text) (order : List Record → List Record) (today : Text → Day)
    (records : List PrivateDnsRecord) (previous : Previous) where
  fail_reports :
      (zone : PrivateDnsZone) (n reason text : Text) (pass : Pass)
      → AllReports pass.results
      → AllReports (fail_zone sha1_hex order today records previous zone n reason text pass).results
  unfolding fail_zone
  fail_reports zone n reason text pass h =
      insert-AllReports zone.meta.name _ pass.results
        (held-IsReport sha1_hex zone n reason text previous pass.directives pass.zone_files) h

  publish_reports :
      (zone : PrivateDnsZone) (n : Text) (compiled : Compiled) (file : Result ZoneFile)
      (pass : Pass)
      → AllReports pass.results
      → AllReports
          (publish_zone sha1_hex order today records previous zone n compiled file pass).results
  unfolding publish_zone
  publish_reports zone n compiled (err e) pass h =
      fail_reports zone n reason_zone_render_failed (error_message e) pass h
  publish_reports zone n compiled (ok file) pass h =
      let policy = effective_policy zone.spec.unresolved_record_policy in
      insert-AllReports zone.meta.name _ pass.results
        (published-IsReport policy zone file compiled.kept compiled.excluded
          (pass.directives ++ zone_directive n file policy compiled.kept ∷ []) pass.zone_files)
        h

  compiled_reports :
      (zone : PrivateDnsZone) (n : Text) (blocking : List Problem) (compiled : Compiled)
      (pass : Pass)
      → AllReports pass.results
      → AllReports
          (compiled_step sha1_hex order today records previous zone n blocking compiled
            pass).results
  unfolding compiled_step
  compiled_reports zone n [] compiled pass h = publish_reports zone n compiled _ pass h
  compiled_reports zone n (p ∷ ps) compiled pass h =
      fail_reports zone n reason_invalid_record_set (problem_text p) pass h

  normalized_reports :
      (zone : PrivateDnsZone) (n : Result Text) (pass : Pass)
      → AllReports pass.results
      → AllReports (normalized_step sha1_hex order today records previous zone n pass).results
  unfolding normalized_step
  normalized_reports zone (err e) pass h =
      insert-AllReports zone.meta.name _ pass.results
        (failed_result-IsReport zone reason_invalid_zone (error_message e)) h
  normalized_reports zone (ok n) pass h =
      let compiled = records_for_zone zone n records pass.outcomes in
      compiled_reports zone n compiled.blocking compiled
        (record pass { outcomes = compiled.outcomes }) h

  skipped_reports :
      (skip : Bool) (pass done : Pass)
      → AllReports pass.results
      → AllReports done.results
      → AllReports (if skip then pass else done).results
  skipped_reports true pass done h k = h
  skipped_reports false pass done h k = k

  pub render_zones-AllReports :
      (zones : List PrivateDnsZone) (pass : Pass)
      → AllReports pass.results
      → AllReports (render_zones sha1_hex order today records previous zones pass).results
  unfolding render_zones zone_step
  render_zones-AllReports [] pass h = h
  render_zones-AllReports (zone ∷ zones) pass h = render_zones-AllReports zones _ (
      skipped_reports zone.meta.deleting pass _ h
        (normalized_reports zone (normalize_zone zone.spec.zone) pass h))
