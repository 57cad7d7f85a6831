-- ===== src/Controller/Outcomes/Tests.antt =====
-- A zone that is not ready, and two of its records: one that is published and one that is rejected.
use private_dns_operator.Prelude.{◌≡◌, List, [], ◌∷◌, true, false, some, none, any}
use private_dns_operator.Text.{Text, ◌==◌, codes}
use private_dns_operator.Text.Map.{Map, lookup}
use private_dns_operator.Types.{a, PrivateDnsRecord}
use private_dns_operator.Controller.Records.{
  RecordOutcome, accepted_reason, invalid_record, rejection, record_key,
}
use private_dns_operator.Controller.Outcomes.{
  stands_rejected, waiting, mark_zone_records_not_ready, lookup-mark_zone_records_not_ready,
}

abbrev object : Text → PrivateDnsRecord
object name = record {
  meta = record {
    name = name;
    namespace = codes "team";
    generation = 1;
    deleting = false;
    finalizers = [];
  };
  spec = record {
    zone_ref = record { name = codes "lab" };
    name = name;
    record_type = a;
    ttl = none;
    values = codes "10.0.0.1" ∷ [];
  };
  status = record { observed_generation = 0; conditions = []; fqdn = [] };
}

abbrev objects : List PrivateDnsRecord
objects = object (codes "api") ∷ object (codes "web") ∷ []

abbrev outcomes : Map RecordOutcome
outcomes =
    (
      codes "team/api",
      record {
        fqdn = codes "api.lab";
        accepted = true;
        reason = accepted_reason;
        message = codes "record is published in zone \"lab\"";
      },
    )
    ∷ (codes "team/web", rejection invalid_record (codes "ttl must be greater than zero"))
    ∷ []

-- The record that was published waits for its zone, and the other one keeps its own reason.
lookup-mark_zone_records_not_ready_example :
    lookup
      (codes "team/api")
      (mark_zone_records_not_ready (codes "lab") (codes "invalid zone") objects outcomes)
    ≡ some (waiting (codes "lab") (codes "invalid zone"))
unfolding any lookup ◌==◌ record_key stands_rejected
lookup-mark_zone_records_not_ready_example =
    lookup-mark_zone_records_not_ready (codes "lab") (codes "invalid zone") objects outcomes
      (codes "team/api")

keeps_reason :
    lookup
      (codes "team/web")
      (mark_zone_records_not_ready (codes "lab") (codes "invalid zone") objects outcomes)
    ≡ some (rejection invalid_record (codes "ttl must be greater than zero"))
unfolding any lookup ◌==◌ record_key stands_rejected rejection
keeps_reason =
    lookup-mark_zone_records_not_ready (codes "lab") (codes "invalid zone") objects outcomes
      (codes "team/web")
