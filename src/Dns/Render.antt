-- ===== src/Dns/Render.antt =====
-- internal/dns/render.go. The digest is a parameter: `sha1_hex` gives the forty digits that `%x`
-- prints of a SHA-1 sum, and nothing is assumed of it.
pub mod Serial
pub mod Relative
pub mod Chars
pub mod Values
pub mod Lines
pub mod Soa
mod Tests
use private_dns_operator.Prelude.{
  ℕ, ◌+◌, ◌/◌, ◌%◌, Bool, true, false, not, ◌&&◌, ◌||◌, List, [], ◌∷◌, ◌++◌, map, if◌then◌else◌,
  Option, none, some, is_empty, eqb, leb, ltb, length,
}
use private_dns_operator.Prelude.Int.{ℤ, pos, is_positive}
use private_dns_operator.Text.{Text, ◌==◌, codes, sort_texts}
use private_dns_operator.Text.Quote.{quote}
use private_dns_operator.Text.Split.{join}
use private_dns_operator.Text.Replace.{replace_first, take}
use private_dns_operator.Text.Decimal.{format_uint, itoa, parse_uint32, max_uint32}
use private_dns_operator.Text.Trim.{trim, trim_space, trim_suffix, to_lower, fields, has_suffix}
use private_dns_operator.Types.{
  DnsRecordType, a, aaaa, cname, txt, mx, srv, other, type_text, PrivateDnsZone,
}
use private_dns_operator.Kube.{Result, ok, err, message}
use private_dns_operator.Dns.Domain.{dot, normalize_zone}
use private_dns_operator.Dns.Record.{Record, ValidationError, error_text}
use private_dns_operator.Dns.RecordSet.{validate_records, deduplicate_and_sort}

pub record ZoneFile : Type 0 where
  pub key : Text
  pub content : Text
  pub serial : Text
  pub hash : Text

pub record PreviousRender : Type 0 where
  pub serial : Text
  pub hash : Text

abbrev pub default_ttl : ℤ
default_ttl = pos 300

abbrev pub serial_placeholder : Text
serial_placeholder = codes "@@SERIAL@@"

-- The day of `now.UTC()`.
pub record Day : Type 0 where
  pub year : ℕ
  pub month : ℕ
  pub day : ℕ

unfoldable pub two_digits : ℕ → Text
two_digits n = (b'0' + n / 10 % 10) ∷ (b'0' + n % 10) ∷ []

-- `Format("20060102")` of a year before 10000.
unfoldable pub format_day : Day → Text
unfolding two_digits
format_day now =
    two_digits (now.year / 100)
    ++ (two_digits now.year ++ (two_digits now.month ++ two_digits now.day))

-- `err == nil && value > prev`
unfoldable pub advances : Option ℕ → ℕ → Bool
advances none prev = false
advances (some value) prev = ltb prev value

unfoldable pub next_serial : Text → Day → Text
unfolding advances format_day parse_uint32 format_uint
next_serial previous now =
    let candidate = format_day now ++ codes "01" in
    elim (parse_uint32 previous) [
      | none ↦ candidate
      | some prev ↦
          if advances (parse_uint32 candidate) prev
          then candidate
          else if leb max_uint32 prev
          then format_uint max_uint32
          else format_uint (prev + 1)
    ]

-- `strings.NewReplacer(".", "-", "_", "-")` on one byte.
unfoldable pub dashed : ℕ → ℕ
dashed c = if eqb c b'.' || eqb c b'_' then b'-' else c

unfoldable pub relative_name : Text → Text → Text
unfolding trim_suffix
relative_name fqdn zone =
    if fqdn == zone then b'@' ∷ [] else trim_suffix (trim_suffix fqdn zone) dot

unfoldable pub ensure_trailing_dot : Text → Text
unfolding trim_space has_suffix
ensure_trailing_dot given =
    let value = trim_space given in if has_suffix value dot then value else value ++ dot

-- The case of an MX record; a value of another shape stays as it is.
unfoldable pub render_mx : Text → List Text → Text
unfolding ensure_trailing_dot
render_mx value (priority ∷ host ∷ []) = priority ++ b' ' ∷ ensure_trailing_dot host
render_mx value _ = value

-- The case of an SRV record.
unfoldable pub render_srv : Text → List Text → Text
unfolding ensure_trailing_dot join
render_srv value (priority ∷ weight ∷ port ∷ target ∷ []) =
    join (priority ∷ weight ∷ port ∷ []) b' ' ++ b' ' ∷ ensure_trailing_dot target
render_srv value _ = value

unfoldable pub render_value : DnsRecordType → Text → Text
unfolding trim_space ensure_trailing_dot quote fields render_mx render_srv
render_value cname given = ensure_trailing_dot (trim_space given)
render_value txt given = quote (trim_space given)
render_value mx given = let value = trim_space given in render_mx value (fields value)
render_value srv given = let value = trim_space given in render_srv value (fields value)
render_value _ given = trim_space given

-- The line of one value.
unfoldable pub record_line : Text → Record → Text → Text
unfolding itoa type_text render_value
record_line name r value =
    name
    ++ (b' ' ∷ itoa r.ttl
        ++ (codes " IN "
            ++ (type_text r.record_type
                ++ (b' ' ∷ render_value r.record_type value ++ b'\n' ∷ []))))

unfoldable pub value_lines : Text → Record → List Text → Text
unfolding record_line
value_lines name r [] = []
value_lines name r (value ∷ values) = record_line name r value ++ value_lines name r values

unfoldable pub record_lines : Text → List Record → Text
unfolding relative_name value_lines sort_texts
record_lines zone [] = []
record_lines zone (r ∷ rs) =
    value_lines (relative_name r.fqdn zone) r (sort_texts r.values) ++ record_lines zone rs

-- The lines before the serial.
unfoldable pub zone_head : Text → ℤ → Text
unfolding itoa
zone_head zone ttl =
    codes "$ORIGIN "
    ++ (zone
        ++ (codes "\n$TTL "
            ++ (itoa ttl
                ++ (codes "\n@ IN SOA ns.dns."
                    ++ (zone ++ (codes " hostmaster." ++ (zone ++ codes " (\n  ")))))))

-- The lines after the serial.
unfoldable pub zone_tail : Text → List Record → Text
unfolding record_lines
zone_tail zone records =
    codes " ; serial\n"
    ++ (codes "  7200       ; refresh\n"
        ++ (codes "  3600       ; retry\n"
            ++ (codes "  1209600    ; expire\n"
                ++ (codes "  3600       ; minimum\n"
                    ++ (codes ")\n@ IN NS ns.dns."
                        ++ (zone ++ b'\n' ∷ record_lines zone records))))))

unfoldable pub zone_body : Text → ℤ → List Record → Text
unfolding zone_head zone_tail
zone_body zone ttl records = zone_head zone ttl ++ (serial_placeholder ++ zone_tail zone records)

unfoldable pub ttl_or_default : Option ℤ → ℤ
ttl_or_default none = default_ttl
ttl_or_default (some ttl) = ttl

-- The serial of a render: the previous one, unless there is none or the body has changed.
unfoldable pub serial_for : Text → Day → PreviousRender → Text
unfolding next_serial
serial_for hash now previous =
    if is_empty previous.serial || not (hash == previous.hash)
    then next_serial previous.serial now
    else previous.serial

-- The normalized zone, or the zone in lower case where that fails.
unfoldable pub key_zone : Text → Text
unfolding to_lower trim
key_zone zone = elim (normalize_zone zone) [
  | err e ↦ to_lower (trim (eqb b'.') zone)
  | ok normalized ↦ normalized
]

module _ (sha1_hex : Text → Text) where
  unfoldable pub zone_file_key : Text → Text
  unfolding key_zone trim_suffix dashed take
  zone_file_key zone =
      let normalized = key_zone zone in
      map dashed (trim_suffix normalized dot)
      ++ (b'-' ∷ take 6 (sha1_hex normalized) ++ codes ".db")

  -- The file for a body.
  unfoldable pub zone_file : Text → Text → Day → PreviousRender → ZoneFile
  unfolding zone_file_key serial_for replace_first
  zone_file zone body now previous =
      let hash = sha1_hex body in
      let serial = serial_for hash now previous in
      record {
        key = zone_file_key zone;
        content = replace_first body serial_placeholder serial;
        serial = serial;
        hash = hash;
      }

  -- What RenderZone does behind its first two checks, given the findings in the records.
  unfoldable pub render_checked :
      List ValidationError → Text → ℤ → List Record → Day → PreviousRender → Result ZoneFile
  unfolding zone_file zone_body error_text
  render_checked [] zone ttl records now previous =
      ok (zone_file zone (zone_body zone ttl records) now previous)
  render_checked (e ∷ es) zone ttl records now previous = err (message (error_text e))

  -- RenderZone, given the normalized zone, the TTL and the sorted records.
  unfoldable pub rendered : Result Text → ℤ → List Record → Day → PreviousRender → Result ZoneFile
  unfolding render_checked validate_records
  rendered (err e) ttl records now previous = err e
  rendered (ok normalized) ttl records now previous =
      if not (is_positive ttl)
      then err (message (codes "zone ttl must be greater than zero"))
      else render_checked (validate_records records) normalized ttl records now previous

  -- RenderZone. `order` is the order in which DeduplicateAndSort ranges over its map.
  unfoldable pub render_zone :
      (List Record → List Record)
      → PrivateDnsZone
      → List Record
      → Day
      → PreviousRender
      → Result ZoneFile
  unfolding rendered deduplicate_and_sort ttl_or_default
  render_zone order zone given now previous =
      rendered (normalize_zone zone.spec.zone) (ttl_or_default zone.spec.ttl)
        (deduplicate_and_sort order given) now previous
