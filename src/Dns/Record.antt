-- ===== src/Dns/Record.antt =====
-- Records and their own checks: `Record`, `ValidationError`, `ValidateRecord` and `validateValue` of
-- internal/dns/record.go.

use private_dns_operator.Prelude.{
  Bool, false, not, List, [], ◌∷◌, ◌++◌, if◌then◌else◌, Option, none, some, is_empty,
}
use private_dns_operator.Prelude.Int.{ℤ, is_positive}
use private_dns_operator.Text.{Text, codes}
use private_dns_operator.Text.Quote.{quote}
use private_dns_operator.Text.Trim.{trim_space, fields}
use private_dns_operator.Types.{DnsRecordType, a, aaaa, cname, txt, mx, srv, other}
use private_dns_operator.Net.{parse_ip, is_to4, atoi_ok}
use private_dns_operator.Dns.Domain.{normalize_domain, validate_domain, or_else}

pub record Source : Type 0 where
  pub kind : Text
  pub namespace : Text
  pub name : Text

pub record Record : Type 0 where
  pub zone : Text
  pub name : Text
  pub fqdn : Text
  pub record_type : DnsRecordType
  pub ttl : ℤ
  pub values : List Text
  pub source : Source

pub record ValidationError : Type 0 where
  pub source : Source
  pub fqdn : Text
  pub message : Text

-- `ValidationError.Error`
unfoldable pub error_text : ValidationError → Text
error_text e =
    let prefix = (if is_empty e.source.namespace then [] else e.source.namespace ++ codes "/") in
    prefix ++ (e.source.name ++ (codes " " ++ (e.fqdn ++ (codes ": " ++ e.message))))

-- `ip != nil && ip.To4() != nil`
unfoldable pub is_ipv4 : Text → Bool
unfolding parse_ip is_to4
is_ipv4 value = elim (parse_ip value) [ none ↦ false | some ip ↦ is_to4 ip ]

-- `ip != nil && ip.To4() == nil`
unfoldable pub is_ipv6 : Text → Bool
unfolding parse_ip is_to4
is_ipv6 value = elim (parse_ip value) [ none ↦ false | some ip ↦ not (is_to4 ip) ]

-- The case of an MX record.
unfoldable pub validate_mx : Text → List Text → Option Text
unfolding quote atoi_ok validate_domain normalize_domain
validate_mx value (priority ∷ host ∷ []) =
    if not (atoi_ok priority)
    then some (codes "priority " ++ (quote priority ++ codes " in an MX record must be an integer"))
    else validate_domain (normalize_domain host)
validate_mx value parts =
    some (codes "value " ++ (quote value ++ codes " for an MX record must be '<priority> <host>'"))

-- A numeric field of an SRV record.
unfoldable pub validate_number : Text → Option Text
unfolding quote atoi_ok
validate_number part =
    if not (atoi_ok part)
    then some
        (codes "numeric field " ++ (quote part ++ codes " in an SRV record must be an integer"))
    else none

unfoldable pub validate_srv : Text → List Text → Option Text
unfolding validate_number or_else validate_domain normalize_domain quote
validate_srv value (priority ∷ weight ∷ port ∷ target ∷ []) = or_else (validate_number priority) (
    or_else (validate_number weight)
      (or_else (validate_number port) (validate_domain (normalize_domain target))))
validate_srv value parts = some (
    codes "value "
    ++ (quote value ++ codes " for an SRV record must be '<priority> <weight> <port> <target>'"))

-- The switch of `validateValue`, on the trimmed value.
unfoldable pub validate_trimmed : DnsRecordType → Text → Option Text
unfolding is_ipv4 is_ipv6 validate_domain normalize_domain validate_mx validate_srv fields quote
validate_trimmed a value =
    if is_ipv4 value
    then none
    else some (codes "value " ++ (quote value ++ codes " for an A record must be an IPv4 address"))
validate_trimmed aaaa value =
    if is_ipv6 value
    then none
    else some
        (codes "value " ++ (quote value ++ codes " for an AAAA record must be an IPv6 address"))
validate_trimmed cname value = validate_domain (normalize_domain value)
validate_trimmed txt value =
    if is_empty value then some (codes "value for a TXT record must not be empty") else none
validate_trimmed mx value = validate_mx value (fields value)
validate_trimmed srv value = validate_srv value (fields value)
validate_trimmed (other name) value = some (codes "unsupported record type " ++ quote name)

unfoldable pub validate_value : DnsRecordType → Text → Option Text
unfolding validate_trimmed trim_space
validate_value record_type value = validate_trimmed record_type (trim_space value)

-- The error of a check, with the record that it is about.
unfoldable pub as_error : Record → Option Text → List ValidationError
as_error r none = []
as_error r (some text) = record { source = r.source; fqdn = r.fqdn; message = text } ∷ []

unfoldable pub validate_values : Record → List Text → List ValidationError
unfolding as_error validate_value
validate_values r [] = []
validate_values r (value ∷ values) =
    as_error r (validate_value r.record_type value) ++ validate_values r values

-- ValidateRecord
unfoldable pub validate_record : Record → List ValidationError
unfolding validate_values as_error is_positive
validate_record r =
    as_error r (if is_positive r.ttl then none else some (codes "ttl must be greater than zero"))
    ++ (as_error r
          (if is_empty r.values then some (codes "at least one value is required") else none)
        ++ validate_values r r.values)
