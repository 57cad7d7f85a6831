-- ===== src/Controller/Records/Tests.antt =====
-- A zone that one namespace may publish in, and three record objects: one of that namespace, one of
-- another, and one of the first that conflicts with an inline record.
use private_dns_operator.Prelude.{◌≡◌, refl, false, [], ◌∷◌, none, some, all}
use private_dns_operator.Prelude.Int.{pos}
use private_dns_operator.Text.{Text, ◌==◌, codes}
use private_dns_operator.Text.Set.{contains}
use private_dns_operator.Text.Map.{lookup, insert, keys}
use private_dns_operator.Types.{
  DnsRecordType, a, cname, unset, ObjectMeta, PrivateDnsZone, PrivateDnsRecord,
  PrivateDnsRecordSpecInline,
}
use private_dns_operator.Dns.RecordSet.{validate_record_set}
use private_dns_operator.Controller.Records.{namespace_allowed, records_for_zone}
use private_dns_operator.Controller.Records.Withholding.{
  peaceful, admitted, records_for_zone-peaceful,
}
use private_dns_operator.Controller.Records.Admission.{
  All, IsPublishable, records_for_zone-IsPublishable,
}
use private_dns_operator.Controller.Records.Isolation.{visible, denied, records_for_zone-IsBarred}

abbrev meta : Text → Text → ObjectMeta
meta namespace name = record {
  name = name;
  namespace = namespace;
  generation = 1;
  deleting = false;
  finalizers = [];
}

abbrev inline : PrivateDnsRecordSpecInline
inline = record { name = codes "web"; record_type = a; ttl = none; values = codes "10.0.0.1" ∷ [] }

abbrev zone : PrivateDnsZone
zone = record {
  meta = meta [] (codes "lab");
  spec = record {
    zone = codes "lab";
    ttl = some (pos 60);
    unresolved_record_policy = unset;
    allowed_namespaces = record { match_names = codes "team" ∷ [] };
    records = inline ∷ [];
  };
  status = record {
    observed_generation = 0;
    conditions = [];
    records = 0;
    serial = [];
    zone_file_key = [];
    last_applied_hash = [];
  };
}

abbrev object : Text → Text → DnsRecordType → Text → PrivateDnsRecord
object namespace name record_type value = record {
  meta = meta namespace name;
  spec = record {
    zone_ref = record { name = codes "lab" };
    name = name;
    record_type = record_type;
    ttl = none;
    values = value ∷ [];
  };
  status = record { observed_generation = 0; conditions = []; fqdn = [] };
}

abbrev welcome : PrivateDnsRecord
welcome = object (codes "team") (codes "api") a (codes "10.0.0.2")

abbrev stranger : PrivateDnsRecord
stranger = object (codes "other") (codes "api") a (codes "10.0.0.3")

abbrev clash : PrivateDnsRecord
clash = object (codes "team") (codes "web") cname (codes "api.lab")

is_denied : namespace_allowed zone.spec.allowed_namespaces (codes "other") ≡ false
unfolding namespace_allowed contains ◌==◌
is_denied = refl

-- The name of the conflict is withheld, and the other record is kept.
withholds :
    (records_for_zone zone (codes "lab.") (welcome ∷ stranger ∷ clash ∷ []) []).excluded
    ≡ codes "web.lab" ∷ []
unfolding records_for_zone contains lookup insert keys all ◌==◌
withholds = refl

records_for_zone-peaceful_example :
    ((records_for_zone zone (codes "lab.") (welcome ∷ stranger ∷ clash ∷ []) []).kept
      ≡ peaceful (admitted zone (codes "lab.") (welcome ∷ stranger ∷ clash ∷ []) []))
    × (validate_record_set
          (records_for_zone zone (codes "lab.") (welcome ∷ stranger ∷ clash ∷ []) []).kept
        ≡ [])
records_for_zone-peaceful_example =
    records_for_zone-peaceful zone (codes "lab.") (welcome ∷ stranger ∷ clash ∷ []) []

records_for_zone-IsPublishable_example :
    All
      (IsPublishable zone (codes "lab."))
      (records_for_zone zone (codes "lab.") (welcome ∷ stranger ∷ clash ∷ []) []).kept
records_for_zone-IsPublishable_example =
    records_for_zone-IsPublishable zone (codes "lab.") (welcome ∷ stranger ∷ clash ∷ []) []

records_for_zone-IsBarred_example :
    visible (records_for_zone zone (codes "lab.") (welcome ∷ stranger ∷ clash ∷ []) [])
    ≡ visible (records_for_zone zone (codes "lab.") (welcome ∷ clash ∷ []) [])
records_for_zone-IsBarred_example =
    records_for_zone-IsBarred zone (codes "lab.") (welcome ∷ []) (clash ∷ []) stranger []
      (denied is_denied)
