-- ===== src/Controller/Zones/Tests.antt =====
-- A zone that is rendered and a zone that fails, with an output to hold.
use private_dns_operator.Prelude.{ℕ, ◌≡◌, refl, false, List, [], ◌∷◌, ◌++◌, some, eqb}
use private_dns_operator.Prelude.Int.{pos}
use private_dns_operator.Text.{Text, ◌==◌, codes}
use private_dns_operator.Text.Map.{lookup, keys}
use private_dns_operator.Text.Trim.{trim_suffix, trim_right}
use private_dns_operator.Types.{PrivateDnsZone, unset}
use private_dns_operator.Kube.{ok, err, message}
use private_dns_operator.Dns.Domain.{dot, normalize_zone}
use private_dns_operator.Dns.Record.{Record}
use private_dns_operator.Dns.Render.{Day, zone_file_key, render_zone}
use private_dns_operator.Coredns.Corefile.{zone_stanza}
use private_dns_operator.Controller.Records.{records_for_zone}
use private_dns_operator.Controller.Zones.{
  Pass, Previous, raw_directive, render_zones, previous_render,
}
use private_dns_operator.Controller.Zones.Isolation.{view, zone_part, add_parts, view-render_zones}
use private_dns_operator.Controller.Zones.Hold.{
  claimed_file, IsFailing, unrendered, zone_part-IsHeld,
}

abbrev digest : Text → Text
digest t = codes "0123456789012345678901234567890123456789"

abbrev order : List Record → List Record
order rs = rs

abbrev today : Text → Day
today name = record { year = 2026; month = 7; day = 1 }

-- `ttl` is its TTL; 0 is refused.
abbrev zone : Text → ℕ → PrivateDnsZone
zone name ttl = record {
  meta = record { name = name; namespace = []; generation = 1; deleting = false; finalizers = [] };
  spec = record {
    zone = name;
    ttl = some (pos ttl);
    unresolved_record_policy = unset;
    allowed_namespaces = record { match_names = [] };
    records = [];
  };
  status = record {
    observed_generation = 0;
    conditions = [];
    records = 0;
    serial = [];
    zone_file_key = [];
    last_applied_hash = [];
  };
}

abbrev block : Text
block = codes "lab:53 {\n    errors\n}"

abbrev previous : Previous
previous = record {
  blocks = (codes "lab", block) ∷ [];
  managed_keys = codes "lab-012345.db" ∷ [];
  config_map = record { cm_data = (codes "lab-012345.db", codes "old") ∷ []; annotations = [] };
}

abbrev empty_pass : Pass
empty_pass = record { directives = []; zone_files = []; results = []; outcomes = [] }

view-render_zones_example :
    view (
      render_zones digest order today [] previous
        (zone (codes "lab") 0 ∷ zone (codes "dev") 60 ∷ [])
        empty_pass)
    ≡ add_parts digest order today [] previous
        (view empty_pass)
        (zone (codes "lab") 0 ∷ zone (codes "dev") 60 ∷ [])
view-render_zones_example =
    view-render_zones digest order today [] previous
      (zone (codes "lab") 0 ∷ zone (codes "dev") 60 ∷ []) empty_pass

lab-usable : normalize_zone (codes "lab") ≡ ok (codes "lab.")
unfolding normalize_zone
lab-usable = refl

lab-free : (records_for_zone (zone (codes "lab") 0) (codes "lab.") [] []).blocking ≡ []
unfolding records_for_zone keys
lab-free = refl

lab-refused :
    render_zone digest order
      (zone (codes "lab") 0)
      (records_for_zone (zone (codes "lab") 0) (codes "lab.") [] []).kept
      (today (codes "lab"))
      (record { serial = []; hash = [] })
    ≡ err (message (codes "zone ttl must be greater than zero"))
unfolding render_zone records_for_zone
lab-refused = refl

lab-IsFailing : IsFailing digest order today [] previous (zone (codes "lab") 0) (codes "lab.")
unfolding previous_render
lab-IsFailing =
    unrendered (message (codes "zone ttl must be greater than zero")) lab-free lab-refused

lab-block : lookup (trim_suffix (codes "lab.") dot) previous.blocks ≡ some block
unfolding lookup trim_suffix ◌==◌
lab-block = refl

zone_part-IsHeld_example :
    (((zone_part digest order today [] previous (zone (codes "lab") 0)).0
        ≡ raw_directive (codes "lab.") block ∷ [])
      × ((zone_part digest order today [] previous (zone (codes "lab") 0)).1.0
          ≡ claimed_file previous (zone_file_key digest (codes "lab."))))
    × (zone_stanza order (raw_directive (codes "lab.") block)
        ≡ codes "\n\n" ++ trim_right (eqb b'\n') block)
zone_part-IsHeld_example =
    zone_part-IsHeld digest order today [] previous (zone (codes "lab") 0) (codes "lab.") block refl
      lab-usable lab-IsFailing lab-block (λ e. cc)

-- The file of the zone is held.
held_file :
    (zone_part digest order today [] previous (zone (codes "lab") 0)).1.0
    ≡ (codes "lab-012345.db", codes "old") ∷ []
unfolding zone_part keys
held_file = refl
