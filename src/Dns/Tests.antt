-- ===== src/Dns/Tests.antt =====
-- The functions of internal/dns at concrete names and records.
use private_dns_operator.Prelude.{all, true, ◌≡◌, ◌↔◌, refl, List, [], ◌∷◌, none}
use private_dns_operator.Prelude.Int.{pos}
use private_dns_operator.Text.{Text, codes}
use private_dns_operator.Text.Set.{contains}
use private_dns_operator.Types.{a, cname}
use private_dns_operator.Kube.{ok}
use private_dns_operator.Dns.Domain.{normalize_zone, validate_domain, fqdn}
use private_dns_operator.Dns.Domain.Valid.{IsDomain, validate_domain-iff_IsDomain}
use private_dns_operator.Dns.Domain.Names.{normalize_zone_idem}
use private_dns_operator.Dns.Domain.Fqdn.{InZone, fqdn-InZone}
use private_dns_operator.Dns.Record.{Record}
use private_dns_operator.Dns.RecordSet.{validate_record_set}
use private_dns_operator.Dns.RecordSet.Groups.{
  records_at, conflict_at, is_some, fqdns, contains-validate_record_set,
}
use private_dns_operator.Dns.RecordSet.Conflicts.{
  all_filled, IsCompatible, validate_record_set-iff_IsCompatible,
}

abbrev given_zone : Text
given_zone = codes " Example.INTERNAL"

abbrev zone : Text
zone = codes "example.internal."

normalizes : normalize_zone given_zone ≡ ok zone
unfolding normalize_zone
normalizes = refl

resolves : fqdn (codes "api") given_zone ≡ ok (codes "api.example.internal.")
unfolding fqdn
resolves = refl

-- An alias that shares its name with an address.
abbrev records : List Record
records =
    record {
      zone = zone;
      name = codes "api";
      fqdn = codes "api.example.internal.";
      record_type = cname;
      ttl = pos 60;
      values = codes "web.example.internal." ∷ [];
      source = record {
        kind = codes "PrivateDNSRecord";
        namespace = codes "x";
        name = codes "api";
      };
    }
    ∷ record {
      zone = zone;
      name = codes "api";
      fqdn = codes "api.example.internal.";
      record_type = a;
      ttl = pos 60;
      values = codes "10.0.0.1" ∷ [];
      source = record {
        kind = codes "PrivateDNSRecord";
        namespace = codes "y";
        name = codes "api";
      };
    }
    ∷ []

validate_domain-iff_IsDomain_example : (validate_domain zone ≡ none) ↔ IsDomain zone
validate_domain-iff_IsDomain_example = validate_domain-iff_IsDomain zone

normalize_zone_idem_example : (normalize_zone zone ≡ ok zone) × IsDomain zone
normalize_zone_idem_example = normalize_zone_idem given_zone zone normalizes

fqdn-InZone_example :
    (n : Text) × (normalize_zone given_zone ≡ ok n)
    × IsDomain (codes "api.example.internal.")
    × InZone (codes "api.example.internal.") n
fqdn-InZone_example = fqdn-InZone (codes "api") given_zone (codes "api.example.internal.") resolves

contains-validate_record_set_example :
    contains (fqdns (validate_record_set records)) (codes "api.example.internal.")
    ≡ is_some (conflict_at records (codes "api.example.internal."))
contains-validate_record_set_example =
    contains-validate_record_set records (codes "api.example.internal.")

records-filled : all_filled records ≡ true
unfolding all
records-filled = refl

validate_record_set-iff_IsCompatible_example :
    (validate_record_set records ≡ []) ↔ ((f : Text) → IsCompatible (records_at f records))
validate_record_set-iff_IsCompatible_example =
    validate_record_set-iff_IsCompatible records records-filled
