-- ===== src/Controller/Statuses/Tests.antt =====
-- The statuses of a zone that failed and of one that has no result.
use private_dns_operator.Prelude.{◌≡◌, refl, true, false, List, [], ◌∷◌, none}
use private_dns_operator.Text.{Text, ◌==◌, codes}
use private_dns_operator.Text.Set.{contains}
use private_dns_operator.Text.Map.{Map}
use private_dns_operator.Types.{PrivateDnsZone, unset}
use private_dns_operator.Kube.Api.{World}
use private_dns_operator.Kube.Machinery.Concrete.{machinery, machinery-laws}
use private_dns_operator.Coredns.ConfigMap.Files.{distinct}
use private_dns_operator.Controller.Results.{ZoneResult, failed_result, reason_invalid_zone}
use private_dns_operator.Controller.Statuses.{write_zone_statuses}
use private_dns_operator.Controller.Statuses.Settled.{settled_zones}
use private_dns_operator.Controller.Statuses.Stored.{names, Leaves, write_zone_statuses-Leaves}

abbrev zone : Text → PrivateDnsZone
zone name = record {
  meta = record { name = name; namespace = []; generation = 1; deleting = false; finalizers = [] };
  spec = record {
    zone = name;
    ttl = none;
    unresolved_record_policy = unset;
    allowed_namespaces = record { match_names = [] };
    records = [];
  };
  status = record {
    observed_generation = 0;
    conditions = [];
    records = 0;
    serial = codes "2026070101";
    zone_file_key = [];
    last_applied_hash = codes "ab";
  };
}

abbrev zones : List PrivateDnsZone
zones = zone (codes "a_b") ∷ zone (codes "lab") ∷ []

abbrev results : Map ZoneResult
results = (codes "a_b", failed_result (zone (codes "a_b")) reason_invalid_zone (codes "label")) ∷ []

abbrev world : World
world = record {
  cluster = record { config_map = none; deployment = none; zones = zones; records = [] };
  faults = [];
  writes = [];
}

own_names : distinct (names zones) ≡ true
unfolding distinct contains ◌==◌
own_names = refl

write_zone_statuses-Leaves_example :
    Leaves
      (settled_zones machinery (λ key t. 5) true results zones)
      (write_zone_statuses machinery (λ key t. 5) zones results true world)
write_zone_statuses-Leaves_example =
    write_zone_statuses-Leaves machinery machinery-laws (λ key t. 5) results true world own_names
      refl
