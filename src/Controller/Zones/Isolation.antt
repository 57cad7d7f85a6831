-- ===== src/Controller/Zones/Isolation.antt =====
-- What one zone adds to the directives, the zone files and the results does not depend on another.
use private_dns_operator.Prelude.{
  ◌≡◌, refl, ap, sym, ◌∙◌, Bool, true, false, List, [], ◌∷◌, ◌++◌, append-nil, if◌then◌else◌,
  Bool-cases, Option-cases, inl, inr,
}
use private_dns_operator.Text.{Text}
use private_dns_operator.Text.Set.{contains}
use private_dns_operator.Text.Map.{Map, lookup, insert}
use private_dns_operator.Text.Trim.{trim_suffix}
use private_dns_operator.Types.{
  PrivateDnsZone, PrivateDnsRecord, UnresolvedRecordPolicy, unset, nxdomain, forward, other_policy,
}
use private_dns_operator.Kube.{Result, ok, err}
use private_dns_operator.Dns.Domain.{dot, normalize_zone}
use private_dns_operator.Dns.Record.{Record}
use private_dns_operator.Dns.Render.{ZoneFile, Day, render_zone, zone_file_key}
use private_dns_operator.Coredns.Corefile.{ZoneDirective}
use private_dns_operator.Controller.Records.{
  RecordOutcome, Problem, Compiled, records_for_zone, error_message,
}
use private_dns_operator.Controller.Records.Isolation.{visible-records_for_zone}
use private_dns_operator.Controller.Results.{
  ZoneResult, failed_result, effective_policy, reason_zone_render_failed, reason_invalid_record_set,
  reason_invalid_zone,
}
use private_dns_operator.Controller.Zones.{
  Pass, Previous, with_zone, zone_directive, rendered_result, publish_file, fail_zone, publish_zone,
  compiled_step, normalized_step, zone_step, render_zones, problem_text, previous_render,
}

-- A pass without the outcomes of records.
abbrev pub View : Type 0
View = List ZoneDirective × (Map Text × Map ZoneResult)

abbrev pub view : Pass → View
view pass = (pass.directives, (pass.zone_files, pass.results))

unfoldable pub insert_all : {V : Type 0} → Map V → Map V → Map V
unfolding insert
insert_all [] m = m
insert_all ((k, v) ∷ new) m = insert_all new (insert k v m)

-- The parts of later zones, put into an earlier pass.
unfoldable pub add_part : View → View → View
unfolding insert_all
add_part (ds, (fs, rs)) (ds', (fs', rs')) = (ds ++ ds', (insert_all fs' fs, insert_all rs' rs))

abbrev pub bare : Map RecordOutcome → Pass
bare outcomes = record { directives = []; zone_files = []; results = []; outcomes = outcomes }

add_none : (v : View) → v ≡ add_part v ([], ([], []))
unfolding add_part insert_all
add_none (ds, (fs, rs)) = ap (λ x. (x, (fs, rs))) (sym (append-nil ds))

file_part :
    (policy : UnresolvedRecordPolicy) (zone : PrivateDnsZone) (file : ZoneFile)
    (result : ZoneResult) (d : ZoneDirective) (pass : Pass) (o : Map RecordOutcome)
    → view (
        with_zone pass zone (
          publish_file policy zone file (record {
            result = result;
            directives = pass.directives ++ d ∷ [];
            zone_files = pass.zone_files;
          })))
      ≡ add_part (view pass) (
          view (
            with_zone (bare o) zone (
              publish_file policy zone file
                (record { result = result; directives = d ∷ []; zone_files = [] }))))
unfolding publish_file with_zone add_part insert_all insert
file_part unset zone file result d pass o = refl
file_part nxdomain zone file result d pass o = refl
file_part forward zone file result d pass o = refl
file_part (other_policy p) zone file result d pass o = refl

abbrev first_problem : Problem → List Problem → Problem
first_problem p [] = p
first_problem p (q ∷ qs) = q

-- A zone that is skipped has no part.
skipped :
    (skip : Bool) (pass done alone : Pass)
    → view done ≡ add_part (view pass) (view alone)
    → view (if skip then pass else done)
      ≡ add_part (view pass) (view (if skip then bare [] else alone))
skipped true pass done alone h = add_none (view pass)
skipped false pass done alone h = h

module _ (sha1_hex : Text → Text) (order : List Record → List Record) (today : Text → Day)
    (records : List PrivateDnsRecord) (previous : Previous) where
  fail_part :
      (zone : PrivateDnsZone) (n reason text : Text) (pass : Pass) (o : Map RecordOutcome)
      → view (fail_zone sha1_hex order today records previous zone n reason text pass)
        ≡ add_part
            (view pass)
            (view (fail_zone sha1_hex order today records previous zone n reason text (bare o)))
  unfolding fail_zone add_part insert_all insert
  fail_part zone n reason text pass o =
      elim (Option-cases (lookup (trim_suffix n dot) previous.blocks)) [
        | inl e ↦ rw e (
            ap
              (λ ds. (
                ds,
                (
                  pass.zone_files,
                  insert zone.meta.name (failed_result zone reason text) pass.results,
                ),
              ))
              (sym (append-nil pass.directives)))
        | inr (raw, e) ↦
            elim (Bool-cases (contains previous.managed_keys (zone_file_key sha1_hex n))) [
              | inl q ↦
                  elim (Option-cases
                    (lookup (zone_file_key sha1_hex n) previous.config_map.cm_data)) [
                      | inl l ↦ rw (e, q, l) refl
                      | inr (file, l) ↦ rw (e, q, l) refl
                    ]
              | inr q ↦ rw (e, q) refl
            ]
      ]

  publish_part :
      (zone : PrivateDnsZone) (n : Text) (compiled compiled' : Compiled) (file : Result ZoneFile)
      (pass : Pass) (o : Map RecordOutcome)
      → compiled.kept ≡ compiled'.kept
      → compiled.excluded ≡ compiled'.excluded
      → view (publish_zone sha1_hex order today records previous zone n compiled file pass)
        ≡ add_part (view pass) (
            view
              (publish_zone sha1_hex order today records previous zone n compiled' file (bare o)))
  unfolding publish_zone add_part insert_all insert publish_file
  publish_part zone n compiled compiled' (err e) pass o kept excluded =
      fail_part zone n reason_zone_render_failed (error_message e) pass o
  publish_part zone n compiled compiled' (ok file) pass o kept excluded =
      rw (kept, excluded)
        (file_part (effective_policy zone.spec.unresolved_record_policy) zone file
          (rendered_result file compiled'.kept compiled'.excluded)
          (zone_directive n file (effective_policy zone.spec.unresolved_record_policy)
            compiled'.kept)
          pass o)

  compiled_part :
      (zone : PrivateDnsZone) (n : Text) (blocking blocking' : List Problem)
      (compiled compiled' : Compiled) (pass : Pass) (o : Map RecordOutcome)
      → blocking ≡ blocking'
      → compiled.kept ≡ compiled'.kept
      → compiled.excluded ≡ compiled'.excluded
      → view (compiled_step sha1_hex order today records previous zone n blocking compiled pass)
        ≡ add_part (view pass) (
            view (
              compiled_step sha1_hex order today records previous zone n blocking' compiled'
                (bare o)))
  unfolding compiled_step
  compiled_part zone n [] [] compiled compiled' pass o b kept excluded =
      let render = λ (rs : List Record).
        render_zone sha1_hex order zone rs (today zone.meta.name) (previous_render zone) in
      publish_part zone n compiled compiled' (render compiled.kept) pass o kept excluded
      ∙ ap
          (λ file. add_part (view pass) (
            view
              (publish_zone sha1_hex order today records previous zone n compiled' file (bare o))))
          (ap render kept)
  compiled_part zone n [] (p ∷ ps) compiled compiled' pass o b kept excluded = cc
  compiled_part zone n (p ∷ ps) [] compiled compiled' pass o b kept excluded = cc
  compiled_part zone n (p ∷ ps) (q ∷ qs) compiled compiled' pass o b kept excluded =
      rw (ap (first_problem p) b)
        (fail_part zone n reason_invalid_record_set (problem_text q) pass o)

  -- What a zone is rendered to where no other is.
  unfoldable pub zone_part : PrivateDnsZone → View
  unfolding zone_step
  zone_part zone = view (zone_step sha1_hex order today records previous zone (bare []))

  normalized_part :
      (zone : PrivateDnsZone) (n : Result Text) (pass : Pass)
      → view (normalized_step sha1_hex order today records previous zone n pass)
        ≡ add_part
            (view pass)
            (view (normalized_step sha1_hex order today records previous zone n (bare [])))
  unfolding normalized_step add_part insert_all insert
  normalized_part zone (err e) pass =
      ap
        (λ ds. (
          ds,
          (
            pass.zone_files,
            insert zone.meta.name (failed_result zone reason_invalid_zone (error_message e))
                pass.results,
          ),
        ))
        (sym (append-nil pass.directives))
  normalized_part zone (ok n) pass =
      let a = records_for_zone zone n records pass.outcomes in
      let b = records_for_zone zone n records [] in
      let same = visible-records_for_zone zone n records pass.outcomes [] in
      compiled_part zone n a.blocking b.blocking a b (record pass { outcomes = a.outcomes })
        b.outcomes (ap (λ v. v.2) same) (ap (λ v. v.0) same) (ap (λ v. v.1) same)

  step_part :
      (zone : PrivateDnsZone) (pass : Pass)
      → view (zone_step sha1_hex order today records previous zone pass)
        ≡ add_part (view pass) (zone_part zone)
  unfolding zone_step zone_part
  step_part zone pass =
      skipped zone.meta.deleting pass _ _
        (normalized_part zone (normalize_zone zone.spec.zone) pass)

  -- The parts of the zones, one after the other.
  unfoldable pub add_parts : View → List PrivateDnsZone → View
  unfolding add_part zone_part
  add_parts v [] = v
  add_parts v (zone ∷ zones) = add_parts (add_part v (zone_part zone)) zones

  -- The directives, zone files and results of the loop over the zones are those that each zone has
  -- alone, put together in the order of the zones: what a zone adds depends on no other zone.
  pub view-render_zones :
      (zones : List PrivateDnsZone) (pass : Pass)
      → view (render_zones sha1_hex order today records previous zones pass)
        ≡ add_parts (view pass) zones
  unfolding render_zones add_parts
  view-render_zones [] pass = refl
  view-render_zones (zone ∷ zones) pass =
      view-render_zones zones (zone_step sha1_hex order today records previous zone pass)
      ∙ ap (λ v. add_parts v zones) (step_part zone pass)
