-- ===== src/Controller/Records.antt =====
-- The records of a zone: `recordsForZone` of internal/controller/privatednszone_controller.go and what
-- it calls.
pub mod Admission
pub mod Withholding
pub mod Isolation
mod Tests
use private_dns_operator.Prelude.{
  Bool, true, false, not, ◌&&◌, ◌||◌, List, [], ◌∷◌, ◌++◌, if◌then◌else◌, Option, none, some,
  is_empty, map,
}
use private_dns_operator.Prelude.Int.{ℤ}
use private_dns_operator.Text.{Text, ◌==◌, codes, sort_texts}
use private_dns_operator.Text.Set.{contains}
use private_dns_operator.Text.Map.{Map, lookup, insert}
use private_dns_operator.Text.Quote.{quote}
use private_dns_operator.Text.Trim.{trim_suffix}
use private_dns_operator.Types.{
  DnsRecordType, NamespaceSelector, PrivateDnsRecord, PrivateDnsRecordSpecInline, PrivateDnsZone,
}
use private_dns_operator.Kube.{Error, message, not_found, Result, ok, err}
use private_dns_operator.Dns.Domain.{dot, fqdn}
use private_dns_operator.Dns.Record.{Source, Record, ValidationError, validate_record}
use private_dns_operator.Dns.RecordSet.{validate_record_set}
use private_dns_operator.Dns.Render.{ttl_or_default}

pub data Reason : Type 0 where
  accepted_reason namespace_not_allowed invalid_record conflicting_records : Reason
  zone_not_found zone_not_ready : Reason

pub record RecordOutcome : Type 0 where
  pub fqdn : Text
  pub accepted : Bool
  pub reason : Reason
  pub message : Text

-- An error that blocks a zone.
pub data Problem : Type 0 where
  name_problem : Error → Problem
  record_problem : ValidationError → Problem

unfoldable pub record_key : Text → Text → Text
record_key namespace name = namespace ++ b'/' ∷ name

unfoldable pub namespace_allowed : NamespaceSelector → Text → Bool
unfolding contains
namespace_allowed selector namespace =
    if is_empty selector.match_names then true else contains selector.match_names namespace

unfoldable pub error_message : Error → Text
error_message not_found = codes "not found"
error_message (message m) = m

abbrev pub zone_kind : Text
zone_kind = codes "PrivateDNSZone"

abbrev pub record_kind : Text
record_kind = codes "PrivateDNSRecord"

-- A TTL of its own, or the one of the zone.
unfoldable pub own_ttl : Option ℤ → ℤ → ℤ
own_ttl none zone_ttl = zone_ttl
own_ttl (some ttl) zone_ttl = ttl

unfoldable pub rejection : Reason → Text → RecordOutcome
rejection reason text = record { fqdn = []; accepted = false; reason = reason; message = text }

module _ (zone : PrivateDnsZone) (normalized_zone : Text) where
  abbrev pub zone_ttl : ℤ
  zone_ttl = ttl_or_default zone.spec.ttl

  unfoldable pub inline_record : PrivateDnsRecordSpecInline → Text → Record
  unfolding own_ttl ttl_or_default
  inline_record inline name = record {
    zone = normalized_zone;
    name = inline.name;
    fqdn = name;
    record_type = inline.record_type;
    ttl = own_ttl inline.ttl zone_ttl;
    values = inline.values;
    source = record { kind = zone_kind; namespace = []; name = zone.meta.name };
  }

  -- A record with its findings: admitted, or blocking with all of them.
  unfoldable pub admit_inline : Record → List ValidationError → List Record × List Problem
  admit_inline r [] = (r ∷ [], [])
  admit_inline r (e ∷ es) = ([], map record_problem (e ∷ es))

  -- One round of the loop over the inline records.
  unfoldable pub inline_step : PrivateDnsRecordSpecInline → Result Text → List Record × List Problem
  unfolding inline_record admit_inline validate_record
  inline_step inline (err e) = ([], name_problem e ∷ [])
  inline_step inline (ok name) =
      let r = inline_record inline name in admit_inline r (validate_record r)

  unfoldable pub inline_records : List PrivateDnsRecordSpecInline → List Record × List Problem
  unfolding inline_step fqdn
  inline_records [] = ([], [])
  inline_records (inline ∷ inlines) =
      let (rs, problems) = inline_step inline (fqdn inline.name normalized_zone) in
      let (rest, others) = inline_records inlines in (rs ++ rest, problems ++ others)

  unfoldable pub external_record : PrivateDnsRecord → Text → Record
  unfolding own_ttl ttl_or_default
  external_record candidate name = record {
    zone = normalized_zone;
    name = candidate.spec.name;
    fqdn = name;
    record_type = candidate.spec.record_type;
    ttl = own_ttl candidate.spec.ttl zone_ttl;
    values = candidate.spec.values;
    source = record {
      kind = record_kind;
      namespace = candidate.meta.namespace;
      name = candidate.meta.name;
    };
  }

  -- A record with its findings: the outcome, and the record if it is admitted.
  unfoldable pub admit_external : Record → List ValidationError → List Record × RecordOutcome
  unfolding rejection trim_suffix quote
  admit_external r [] = (
    r ∷ [],
    record {
      fqdn = trim_suffix r.fqdn dot;
      accepted = true;
      reason = accepted_reason;
      message = codes "record is published in zone " ++ quote zone.meta.name;
    },
  )
  admit_external r (e ∷ es) = ([], rejection invalid_record e.message)

  -- A candidate of an allowed namespace, with what FQDN makes of its name.
  unfoldable pub named_step : PrivateDnsRecord → Result Text → List Record × RecordOutcome
  unfolding rejection error_message external_record admit_external validate_record
  named_step candidate (err e) = ([], rejection invalid_record (error_message e))
  named_step candidate (ok name) =
      let r = external_record candidate name in admit_external r (validate_record r)

  -- A candidate that refers to the zone.
  unfoldable pub external_step : PrivateDnsRecord → List Record × RecordOutcome
  unfolding namespace_allowed rejection quote named_step fqdn
  external_step candidate =
      if not (namespace_allowed zone.spec.allowed_namespaces candidate.meta.namespace)
      then (
        [],
        rejection namespace_not_allowed (
            codes "namespace "
            ++ (quote candidate.meta.namespace
                ++ (codes " is not listed in zone "
                    ++ (quote zone.meta.name ++ codes " allowedNamespaces")))),
      )
      else named_step candidate (fqdn candidate.spec.name normalized_zone)

  -- The loop over the record objects.
  unfoldable pub external_records :
      List PrivateDnsRecord → Map RecordOutcome → List Record × Map RecordOutcome
  unfolding external_step record_key insert
  external_records [] outcomes = ([], outcomes)
  external_records (candidate ∷ candidates) outcomes =
      let (rs, outcome) = external_step candidate in
      let key = record_key candidate.meta.namespace candidate.meta.name in
      let (rest, outcomes') = external_records candidates (insert key outcome outcomes) in
      let skipped = external_records candidates outcomes in
      if candidate.spec.zone_ref.name == zone.meta.name then (rs ++ rest, outcomes') else skipped

-- The map `conflicts`; every error of ValidateRecordSet is a ValidationError.
unfoldable pub conflict_map : List ValidationError → Map Text → Map Text
unfolding insert
conflict_map [] conflicts = conflicts
conflict_map (e ∷ es) conflicts = conflict_map es (insert e.fqdn e.message conflicts)

pub record Compiled : Type 0 where
  pub kept : List Record
  pub excluded : List Text
  pub blocking : List Problem
  pub outcomes : Map RecordOutcome

-- A record at a name that conflicts: an inline one blocks the zone, another is rejected.
unfoldable pub exclude : Record → Text → Compiled → Compiled
unfolding trim_suffix contains record_key rejection insert
exclude r text c =
    let name = trim_suffix r.fqdn dot in
    let excluded = (if contains c.excluded name then c.excluded else name ∷ c.excluded) in
    if r.source.kind == zone_kind
    then record c {
      excluded = excluded;
      blocking =
          c.blocking
          ++ record_problem (record { source = r.source; fqdn = r.fqdn; message = text }) ∷ [];
    }
    else record c {
      excluded = excluded;
      outcomes =
          insert (record_key r.source.namespace r.source.name)
            (rejection conflicting_records (text ++ codes "; no record at this name is published"))
            c.outcomes;
    }

-- One round of the loop over the admitted records.
unfoldable pub withhold_step : Record → Option Text → Compiled → Compiled
unfolding exclude
withhold_step r none c = record c { kept = c.kept ++ r ∷ [] }
withhold_step r (some text) c = exclude r text c

unfoldable pub withhold : Map Text → List Record → Compiled → Compiled
unfolding withhold_step lookup
withhold conflicts [] c = c
withhold conflicts (r ∷ rs) c = withhold conflicts rs (withhold_step r (lookup r.fqdn conflicts) c)

-- What follows the admission, given the conflicts.
unfoldable pub settle : Map Text → List Record → List Problem → Map RecordOutcome → Compiled
unfolding withhold sort_texts
settle [] admitted blocking outcomes = record {
  kept = admitted;
  excluded = [];
  blocking = blocking;
  outcomes = outcomes;
}
settle (c ∷ cs) admitted blocking outcomes =
    let done =
      withhold (c ∷ cs) admitted
        (record { kept = []; excluded = []; blocking = blocking; outcomes = outcomes }) in
    record done { excluded = sort_texts done.excluded }

-- recordsForZone
unfoldable pub records_for_zone :
    PrivateDnsZone → Text → List PrivateDnsRecord → Map RecordOutcome → Compiled
unfolding inline_records external_records conflict_map settle validate_record_set
records_for_zone zone normalized_zone external outcomes =
    let (inline, blocking) = inline_records zone normalized_zone zone.spec.records in
    let (delegated, outcomes') = external_records zone normalized_zone external outcomes in
    let admitted = inline ++ delegated in
    settle (conflict_map (validate_record_set admitted) []) admitted blocking outcomes'
