-- ===== src/Coredns/Templates.antt =====
-- The records of the template plugin: `groupTemplateRecords`, `renderTemplateRecords` and `templateValue`
-- of internal/coredns/corefile.go.
use private_dns_operator.Prelude.{List, [], ◌∷◌, ◌++◌, if◌then◌else◌, Option, none, some, eqb, any}
use private_dns_operator.Prelude.Int.{ℤ, ltz}
use private_dns_operator.Text.{Text, codes, sort_texts}
use private_dns_operator.Text.Map.{Map, lookup, insert, keys}
use private_dns_operator.Text.Quote.{quote}
use private_dns_operator.Text.Decimal.{itoa}
use private_dns_operator.Text.Split.{join}
use private_dns_operator.Text.Trim.{trim_space, trim_suffix, has_suffix, fields}
use private_dns_operator.Types.{DnsRecordType, cname, txt, mx, srv, type_text}
use private_dns_operator.Dns.Domain.{dot}
use private_dns_operator.Dns.Record.{Record}
use private_dns_operator.Dns.RecordSet.{unique_loop, deduplicate_and_sort}

unfoldable pub ensure_trailing_dot : Text → Text
unfolding has_suffix
ensure_trailing_dot value = if has_suffix value dot then value else value ++ dot

-- The case of an MX record; a value of another shape stays as it is.
unfoldable pub template_mx : Text → List Text → Text
unfolding ensure_trailing_dot
template_mx value (priority ∷ host ∷ []) = priority ++ b' ' ∷ ensure_trailing_dot host
template_mx value _ = value

-- The case of an SRV record.
unfoldable pub template_srv : Text → List Text → Text
unfolding ensure_trailing_dot join
template_srv value (priority ∷ weight ∷ port ∷ target ∷ []) =
    join (priority ∷ weight ∷ port ∷ []) b' ' ++ b' ' ∷ ensure_trailing_dot target
template_srv value _ = value

unfoldable pub template_value : DnsRecordType → Text → Text
unfolding trim_space ensure_trailing_dot quote fields template_mx template_srv
template_value cname given = ensure_trailing_dot (trim_space given)
template_value txt given = quote (trim_space given)
template_value mx given = let value = trim_space given in template_mx value (fields value)
template_value srv given = let value = trim_space given in template_srv value (fields value)
template_value _ given = trim_space given

pub record TemplateRrSet : Type 0 where
  pub fqdn : Text
  pub zone : Text
  pub record_type : DnsRecordType
  pub ttl : ℤ
  pub values : List Text

-- The key of the set that a record belongs to.
unfoldable pub set_key : Record → Text
unfolding ensure_trailing_dot trim_space type_text
set_key r = ensure_trailing_dot (trim_space r.fqdn) ++ b'|' ∷ type_text r.record_type

-- The set for a key that has none.
unfoldable pub new_set : Record → TemplateRrSet
unfolding ensure_trailing_dot trim_space
new_set r = record {
  fqdn = ensure_trailing_dot (trim_space r.fqdn);
  zone = r.zone;
  record_type = r.record_type;
  ttl = r.ttl;
  values = [];
}

-- What a record adds to its set.
unfoldable pub join_set : Record → TemplateRrSet → TemplateRrSet
unfolding ltz
join_set r set = record set {
  ttl = if ltz r.ttl set.ttl then r.ttl else set.ttl;
  values = set.values ++ r.values;
}

-- The set of a key, or a new one.
unfoldable pub found_or_new : Record → Option TemplateRrSet → TemplateRrSet
unfolding new_set
found_or_new r none = new_set r
found_or_new r (some set) = set

unfoldable pub group_sets : List Record → Map TemplateRrSet → Map TemplateRrSet
unfolding set_key join_set found_or_new lookup insert
group_sets [] sets = sets
group_sets (r ∷ rs) sets =
    let key = set_key r in
    group_sets rs (insert key (join_set r (found_or_new r (lookup key sets))) sets)

unfoldable pub unique_sorted_values : List Text → List Text
unfolding unique_loop sort_texts
unique_sorted_values values = sort_texts (unique_loop [] values)

-- The set of a key with its values sorted; every key that is asked for has one.
unfoldable pub finished_set : Option TemplateRrSet → List TemplateRrSet
unfolding unique_sorted_values
finished_set none = []
finished_set (some set) = record set { values = unique_sorted_values set.values } ∷ []

unfoldable pub finished_sets : Map TemplateRrSet → List Text → List TemplateRrSet
unfolding finished_set lookup
finished_sets sets [] = []
finished_sets sets (key ∷ keys') = finished_set (lookup key sets) ++ finished_sets sets keys'

-- groupTemplateRecords. The list `keys` of the code has the keys of the map, each once.
unfoldable pub group_template_records : List Record → List TemplateRrSet
unfolding group_sets finished_sets sort_texts keys
group_template_records records =
    let sets = group_sets records [] in finished_sets sets (sort_texts (keys sets))

-- The bytes that `regexp.QuoteMeta` escapes.
abbrev meta_bytes : Text
meta_bytes = codes "\\.+*?()|[]{}^$"

unfoldable pub quote_meta : Text → Text
unfolding any
quote_meta [] = []
quote_meta (c ∷ s) =
    let rest = quote_meta s in if any (eqb c) meta_bytes then b'\\' ∷ c ∷ rest else c ∷ rest

-- The line of one value.
unfoldable pub answer_line : TemplateRrSet → Text → Text
unfolding itoa type_text template_value quote
answer_line set value =
    let answer =
      codes "{{ .Name }} "
      ++ (itoa set.ttl
          ++ (codes " IN "
              ++ (type_text set.record_type ++ b' ' ∷ template_value set.record_type value))) in
    codes "        answer " ++ (quote answer ++ b'\n' ∷ [])

unfoldable pub answer_lines : TemplateRrSet → List Text → Text
unfolding answer_line
answer_lines set [] = []
answer_lines set (value ∷ values) = answer_line set value ++ answer_lines set values

unfoldable pub template_stanza : TemplateRrSet → Text
unfolding trim_suffix type_text quote_meta answer_lines
template_stanza set =
    codes "    template IN "
    ++ (type_text set.record_type
        ++ (b' ' ∷ trim_suffix set.zone dot
            ++ (codes " {\n        match ^"
                ++ (quote_meta set.fqdn
                    ++ (codes "$\n"
                        ++ (answer_lines set set.values
                            ++ codes "        fallthrough\n    }\n"))))))

unfoldable pub template_stanzas : List TemplateRrSet → Text
unfolding template_stanza
template_stanzas [] = []
template_stanzas (set ∷ sets) = template_stanza set ++ template_stanzas sets

module _ (order : List Record → List Record) where
  unfoldable pub render_template_records : List Record → Text
  unfolding group_template_records template_stanzas deduplicate_and_sort
  render_template_records records =
      template_stanzas (group_template_records (deduplicate_and_sort order records))
