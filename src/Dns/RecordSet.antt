-- ===== src/Dns/RecordSet.antt =====
-- Sets of records: `ValidateRecordSet`, `ValidateRecords`, `DeduplicateAndSort` and `uniqueSorted` of
-- internal/dns/record.go.
pub mod Groups
pub mod Conflicts
use private_dns_operator.Prelude.{
  ℕ, zero, suc, ◌+◌, Bool, true, false, not, ◌&&◌, ◌||◌, List, [], ◌∷◌, ◌++◌, if◌then◌else◌, Option,
  none, some, is_empty, length, eqb, ltb, sort_by,
}
use private_dns_operator.Text.{Text, ◌==◌, codes, text_lt, sort_texts}
use private_dns_operator.Text.Set.{contains}
use private_dns_operator.Text.Map.{Map, lookup, insert, keys}
use private_dns_operator.Text.Decimal.{format_uint, itoa}
use private_dns_operator.Text.Trim.{trim_space, to_lower}
use private_dns_operator.Types.{DnsRecordType, a, aaaa, cname, txt, mx, srv, other, type_text}
use private_dns_operator.Dns.Domain.{normalize_domain}
use private_dns_operator.Dns.Record.{Source, Record, ValidationError, validate_record}

unfoldable pub is_cname : DnsRecordType → Bool
is_cname cname = true
is_cname _ = false

-- The records of a map entry, none where the key is missing.
unfoldable pub or_empty : Option (List Record) → List Record
or_empty none = []
or_empty (some rs) = rs

-- The map `byFQDN`.
unfoldable pub group_by_fqdn : List Record → Map (List Record) → Map (List Record)
unfolding or_empty
group_by_fqdn [] by_fqdn = by_fqdn
group_by_fqdn (r ∷ rs) by_fqdn =
    group_by_fqdn rs (insert r.fqdn (or_empty (lookup r.fqdn by_fqdn) ++ r ∷ []) by_fqdn)

-- What the loop over the records of one name collects.
pub record Tally : Type 0 where
  pub targets : List Text
  pub cname_source : Option Source
  pub other_types : ℕ

-- `targets[normalizeDomain(value)] = struct{}{}` for each value.
unfoldable pub add_targets : List Text → List Text → List Text
unfolding normalize_domain
add_targets [] targets = targets
add_targets (value ∷ values) targets =
    let target = normalize_domain value in
    add_targets values (if contains targets target then targets else target ∷ targets)

unfoldable pub first_source : Option Source → Source → Option Source
first_source none s = some s
first_source (some old) s = some old

-- One round of the loop over the records of one name.
unfoldable pub tally_record : Record → Tally → Tally
unfolding is_cname add_targets first_source
tally_record r t =
    if is_cname r.record_type
    then record {
      targets = add_targets r.values t.targets;
      cname_source = first_source t.cname_source r.source;
      other_types = t.other_types;
    }
    else record t { other_types = t.other_types + 1 }

unfoldable pub tally : List Record → Tally → Tally
unfolding tally_record
tally [] t = t
tally (r ∷ rs) t = tally rs (tally_record r t)

abbrev pub no_tally : Tally
no_tally = record { targets = []; cname_source = none; other_types = 0 }

-- The message for one name, if there is one.
unfoldable pub conflict : Tally → Option Text
unfolding format_uint
conflict t =
    if is_empty t.targets
    then none
    else if ltb 0 t.other_types
    then some (codes "CNAME cannot share a name with any other record type")
    else if ltb 1 (length t.targets)
    then some (codes "CNAME must have exactly one target, found " ++ format_uint (length t.targets))
    else none

-- The failure is attributed to the CNAME. Where there is a target there is a CNAME, so the empty source
-- is never used.
unfoldable pub source_or_empty : Option Source → Source
source_or_empty none = record { kind = []; namespace = []; name = [] }
source_or_empty (some s) = s

unfoldable pub set_error : Text → Tally → List ValidationError
unfolding conflict source_or_empty
set_error fqdn t = elim (conflict t) [
  | none ↦ []
  | some message ↦
      record { source = source_or_empty t.cname_source; fqdn = fqdn; message = message } ∷ []
]

-- The loop over the sorted names.
unfoldable pub set_errors : Map (List Record) → List Text → List ValidationError
unfolding set_error tally or_empty
set_errors by_fqdn [] = []
set_errors by_fqdn (fqdn ∷ fqdns) =
    set_error fqdn (tally (or_empty (lookup fqdn by_fqdn)) no_tally) ++ set_errors by_fqdn fqdns

-- ValidateRecordSet
unfoldable pub validate_record_set : List Record → List ValidationError
unfolding set_errors group_by_fqdn sort_texts
validate_record_set records =
    let by_fqdn = group_by_fqdn records [] in set_errors by_fqdn (sort_texts (keys by_fqdn))

unfoldable pub validate_each : List Record → List ValidationError
unfolding validate_record
validate_each [] = []
validate_each (r ∷ rs) = validate_record r ++ validate_each rs

-- ValidateRecords
unfoldable pub validate_records : List Record → List ValidationError
unfolding validate_each validate_record_set
validate_records records = validate_each records ++ validate_record_set records

-- The loop of `uniqueSorted`: the first of the values that differ in case only is kept.
unfoldable pub unique_loop : List Text → List Text → List Text
unfolding trim_space to_lower
unique_loop seen [] = []
unique_loop seen (given ∷ values) =
    let value = trim_space given in
    let key = to_lower value in
    let skip = unique_loop seen values in
    let take = value ∷ unique_loop (key ∷ seen) values in if contains seen key then skip else take

unfoldable pub unique_sorted : List Text → List Text
unfolding unique_loop sort_texts
unique_sorted values = sort_texts (unique_loop [] values)

-- The key under which equal declarations collapse.
unfoldable pub collapse_key : Record → Text
unfolding itoa type_text
collapse_key r =
    let bar = codes "|" in
    r.fqdn
    ++ (bar
        ++ (type_text r.record_type
            ++ (bar
                ++ (itoa r.ttl
                    ++ (bar
                        ++ (r.source.kind
                            ++ (bar ++ (r.source.namespace ++ (bar ++ r.source.name)))))))))

unfoldable pub collapse : List Record → Map Record → Map Record
unfolding collapse_key unique_sorted
collapse [] collapsed = collapsed
collapse (r ∷ rs) collapsed =
    collapse rs (insert (collapse_key r) (record r { values = unique_sorted r.values }) collapsed)

unfoldable pub entries : Map Record → List Record
entries [] = []
entries ((k, r) ∷ m) = r ∷ entries m

-- The order of `sort.Slice`.
unfoldable pub record_lt : Record → Record → Bool
unfolding text_lt type_text
record_lt x y =
    if not (x.fqdn == y.fqdn)
    then text_lt x.fqdn y.fqdn
    else if not (type_text x.record_type == type_text y.record_type)
    then text_lt (type_text x.record_type) (type_text y.record_type)
    else text_lt x.source.name y.source.name

-- DeduplicateAndSort. `order` is the order in which the map is ranged over, which Go leaves open, as it
-- leaves open where sort.Slice puts records that compare as equal.
unfoldable pub deduplicate_and_sort : (List Record → List Record) → List Record → List Record
unfolding collapse entries record_lt sort_by
deduplicate_and_sort order records = sort_by record_lt (order (entries (collapse records [])))
