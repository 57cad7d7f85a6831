-- ===== src/Controller/Zones/Hold.antt =====
-- The output that is held for a zone that fails.
use private_dns_operator.Prelude.{
  ◌≡◌, ◌≢◌, refl, subst, sym, Bool, true, false, List, [], ◌∷◌, ◌++◌, eqb, if◌then◌else◌, none,
  some, Bool-cases, Option-cases, inl, inr,
}
use private_dns_operator.Text.{Text, codes}
use private_dns_operator.Text.Set.{contains}
use private_dns_operator.Text.Map.{Map, lookup, insert}
use private_dns_operator.Text.Trim.{trim_suffix, trim_right}
use private_dns_operator.Types.{PrivateDnsZone, PrivateDnsRecord}
use private_dns_operator.Kube.{Error, ok, err}
use private_dns_operator.Dns.Domain.{dot, normalize_zone}
use private_dns_operator.Dns.Record.{Record}
use private_dns_operator.Dns.Render.{Day, render_zone, zone_file_key}
use private_dns_operator.Coredns.Corefile.{zone_stanza}
use private_dns_operator.Controller.Records.{
  RecordOutcome, Problem, Compiled, records_for_zone, error_message,
}
use private_dns_operator.Controller.Results.{reason_zone_render_failed, reason_invalid_record_set}
use private_dns_operator.Controller.Zones.{
  Pass, Previous, raw_directive, fail_zone, publish_zone, compiled_step, normalized_step, zone_step,
  problem_text, previous_render,
}
use private_dns_operator.Controller.Zones.Isolation.{View, view, bare, zone_part}

-- The file that was mounted for a key, if the operator claimed it and the ConfigMap has it.
unfoldable pub claimed_file : Previous → Text → Map Text
claimed_file previous key =
    if contains previous.managed_keys key
    then elim (lookup key previous.config_map.cm_data) [
      | none ↦ []
      | some content ↦ (key, content) ∷ []
    ]
    else []

raw_stanza :
    (order : List Record → List Record) (n raw : Text)
    → raw ≢ []
    → zone_stanza order (raw_directive n raw) ≡ codes "\n\n" ++ trim_right (eqb b'\n') raw
unfolding zone_stanza raw_directive
raw_stanza order n [] filled = absurd (filled refl)
raw_stanza order n (c ∷ raw) filled = refl

module _ (sha1_hex : Text → Text) (order : List Record → List Record) (today : Text → Day)
    (records : List PrivateDnsRecord) (previous : Previous) where
  -- A zone with a usable name that cannot be published.
  pub data IsFailing (zone : PrivateDnsZone) (n : Text) : Type 0 where
    blocked :
        (p : Problem) (ps : List Problem)
        → (records_for_zone zone n records []).blocking ≡ p ∷ ps
        → IsFailing zone n
    unrendered :
        (e : Error)
        → (records_for_zone zone n records []).blocking ≡ []
        → render_zone sha1_hex order zone
            (records_for_zone zone n records []).kept
            (today zone.meta.name)
            (previous_render zone)
          ≡ err e
        → IsFailing zone n

  -- The previous stanza, and the previous file if it was the operator's.
  abbrev IsHeld : Text → Text → View → Type 0
  IsHeld n raw (directives, (files, results)) =
      (directives ≡ raw_directive n raw ∷ [])
      × (files ≡ claimed_file previous (zone_file_key sha1_hex n))

  fail_zone-IsHeld :
      (zone : PrivateDnsZone) (n reason text raw : Text) (o : Map RecordOutcome)
      → lookup (trim_suffix n dot) previous.blocks ≡ some raw
      → IsHeld n raw
          (view (fail_zone sha1_hex order today records previous zone n reason text (bare o)))
  unfolding fail_zone insert claimed_file
  fail_zone-IsHeld zone n reason text raw o e =
      let key = zone_file_key sha1_hex n in
      elim (Bool-cases (contains previous.managed_keys key)) [
        | inl q ↦ elim (Option-cases (lookup key previous.config_map.cm_data)) [
          | inl l ↦ rw (e, q, l) (refl, refl)
          | inr (file, l) ↦ rw (e, q, l) (refl, refl)
        ]
        | inr q ↦ rw (e, q) (refl, refl)
      ]

  failing_part :
      (zone : PrivateDnsZone) (n raw : Text) (blocking : List Problem) (compiled : Compiled)
      (o : Map RecordOutcome)
      → lookup (trim_suffix n dot) previous.blocks ≡ some raw
      → ((blocking ≡ [])
          → (e : Error) × (render_zone sha1_hex order zone compiled.kept
                (today zone.meta.name)
                (previous_render zone)
              ≡ err e))
      → IsHeld n raw (
          view
            (compiled_step sha1_hex order today records previous zone n blocking compiled (bare o)))
  unfolding compiled_step publish_zone
  failing_part zone n raw [] compiled o e h =
      let (x, failed) = h refl in
      rw failed (fail_zone-IsHeld zone n reason_zone_render_failed (error_message x) raw o e)
  failing_part zone n raw (p ∷ ps) compiled o e h =
      fail_zone-IsHeld zone n reason_invalid_record_set (problem_text p) raw o e

  render_fails :
      (zone : PrivateDnsZone) (n : Text)
      → IsFailing zone n
      → (records_for_zone zone n records []).blocking ≡ []
      → (e : Error) × (render_zone sha1_hex order zone
            (records_for_zone zone n records []).kept
            (today zone.meta.name)
            (previous_render zone)
          ≡ err e)
  render_fails zone n (blocked p ps h) e = cc
  render_fails zone n (unrendered x h failed) e = (x, failed)

  live_part :
      (n raw : Text) (skip : Bool) (done : Pass)
      → skip ≡ false
      → IsHeld n raw (view done)
      → IsHeld n raw (view (if skip then bare [] else done))
  live_part n raw true done live h = cc
  live_part n raw false done live h = h

  -- A live zone with a usable name that cannot be published, of which the managed block has a
  -- stanza, adds exactly that stanza, which is written as it stood but for newlines at its end,
  -- and the zone file of its name if the operator claimed this key and the ConfigMap still has it.
  pub zone_part-IsHeld :
      (zone : PrivateDnsZone) (n raw : Text)
      → zone.meta.deleting ≡ false
      → normalize_zone zone.spec.zone ≡ ok n
      → IsFailing zone n
      → lookup (trim_suffix n dot) previous.blocks ≡ some raw
      → raw ≢ []
      → IsHeld n raw (zone_part sha1_hex order today records previous zone)
        × (zone_stanza order (raw_directive n raw) ≡ codes "\n\n" ++ trim_right (eqb b'\n') raw)
  unfolding zone_part zone_step normalized_step
  zone_part-IsHeld zone n raw live usable failing e filled =
      let compiled = records_for_zone zone n records [] in
      (
        live_part n raw zone.meta.deleting _ live (
            subst
              (λ o.
                IsHeld n raw
                  (view (normalized_step sha1_hex order today records previous zone o (bare []))))
              (sym usable)
              (failing_part zone n raw compiled.blocking compiled compiled.outcomes e
                (render_fails zone n failing))),
        raw_stanza order n raw filled,
      )
