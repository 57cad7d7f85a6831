-- ===== src/Dns/Render/Tests.antt =====
-- Rendering at a concrete zone.
use private_dns_operator.Prelude.{◌≡◌, refl, List, [], ◌∷◌, some, all, true, false, arith}
use private_dns_operator.Prelude.Int.{pos}
use private_dns_operator.Text.{Text, ◌==◌, codes}
use private_dns_operator.Text.Map.{insert, keys, lookup}
use private_dns_operator.Text.Set.{contains}
use private_dns_operator.Text.Decimal.{parse_uint32}
use private_dns_operator.Types.{a, txt, unset, PrivateDnsZone}
use private_dns_operator.Kube.{ok}
use private_dns_operator.Dns.Domain.{normalize_zone, fqdn}
use private_dns_operator.Dns.Record.{Record}
use private_dns_operator.Dns.Render.{
  Day, PreviousRender, ZoneFile, relative_name, next_serial, render_zone, record_lines,
  ttl_or_default,
}
use private_dns_operator.Dns.RecordSet.{deduplicate_and_sort, validate_each}
use private_dns_operator.Dns.Render.Chars.{is_line}
use private_dns_operator.Dns.Render.Lines.{IsLines, value_count, record_lines-IsLines}
use private_dns_operator.Text.Split.{lacks}
use private_dns_operator.Dns.Render.Serial.{
  Exceeds, carried, next_serial-Exceeds, render_zone-stable, render_zone-Exceeds,
}
use private_dns_operator.Dns.Render.Soa.{IsWritten, render_zone-IsWritten}
use private_dns_operator.Dns.Render.Relative.{owner, owner-relative_name}

-- A digest for tests: the text itself.
abbrev digest : Text → Text
digest s = s

abbrev any_order : List Record → List Record
any_order rs = rs

abbrev zone : PrivateDnsZone
zone = record {
  meta = record {
    name = codes "lab";
    namespace = [];
    generation = 1;
    deleting = false;
    finalizers = [];
  };
  spec = record {
    zone = codes "lab";
    ttl = some (pos 60);
    unresolved_record_policy = unset;
    allowed_namespaces = record { match_names = [] };
    records = [];
  };
  status = record {
    observed_generation = 0;
    conditions = [];
    records = 0;
    serial = [];
    zone_file_key = [];
    last_applied_hash = [];
  };
}

abbrev records : List Record
records =
    record {
      zone = codes "lab.";
      name = codes "api";
      fqdn = codes "api.lab.";
      record_type = a;
      ttl = pos 60;
      values = codes "10.0.0.1" ∷ [];
      source = record { kind = codes "PrivateDNSZone"; namespace = []; name = codes "lab" };
    }
    ∷ []

abbrev today : Day
today = record { year = 2026; month = 7; day = 9 }

abbrev tomorrow : Day
tomorrow = record { year = 2026; month = 7; day = 10 }

abbrev last_render : PreviousRender
last_render = record { serial = codes "2026070907"; hash = codes "old" }

abbrev body : Text
body =
    codes
      "$ORIGIN lab.\n$TTL 60\n@ IN SOA ns.dns.lab. hostmaster.lab. (\n  @@SERIAL@@ ; serial\n  7200       ; refresh\n  3600       ; retry\n  1209600    ; expire\n  3600       ; minimum\n)\n@ IN NS ns.dns.lab.\napi 60 IN A 10.0.0.1\n"

abbrev content : Text
content =
    codes
      "$ORIGIN lab.\n$TTL 60\n@ IN SOA ns.dns.lab. hostmaster.lab. (\n  2026070908 ; serial\n  7200       ; refresh\n  3600       ; retry\n  1209600    ; expire\n  3600       ; minimum\n)\n@ IN NS ns.dns.lab.\napi 60 IN A 10.0.0.1\n"

abbrev file : ZoneFile
file = record {
  key = codes "lab-lab..db";
  content = content;
  serial = codes "2026070908";
  hash = body;
}

-- The second change of a day.
renders : render_zone digest any_order zone records today last_render ≡ ok file
unfolding render_zone normalize_zone insert contains all keys lookup
renders = refl

reads_last : parse_uint32 (codes "2026070907") ≡ some 2026070907
unfolding parse_uint32
reads_last = refl

has_changed : (file.hash == codes "old") ≡ false
unfolding ◌==◌
has_changed = refl

render_zone-stable_example :
    render_zone digest any_order zone records tomorrow (carried file) ≡ ok file
render_zone-stable_example =
    render_zone-stable digest any_order zone records today tomorrow last_render file renders

render_zone-Exceeds_example : Exceeds (codes "2026070908") 2026070907
render_zone-Exceeds_example =
    render_zone-Exceeds digest any_order zone records today last_render file 2026070907 renders
      has_changed reads_last (omega arith)

-- A clock that went back by years.
next_serial-Exceeds_example :
    Exceeds
      (next_serial (codes "2026070907") (record { year = 1970; month = 1; day = 1 }))
      2026070907
next_serial-Exceeds_example =
    next_serial-Exceeds (codes "2026070907") (record { year = 1970; month = 1; day = 1 }) 2026070907
      reads_last (omega arith)

resolves : fqdn (codes "api") (codes "lab") ≡ ok (codes "api.lab.")
unfolding fqdn
resolves = refl

normalizes : normalize_zone (codes "lab") ≡ ok (codes "lab.")
unfolding normalize_zone
normalizes = refl

owner-relative_name_example :
    owner (relative_name (codes "api.lab.") (codes "lab.")) (codes "lab.") ≡ codes "api.lab."
owner-relative_name_example =
    owner-relative_name (codes "api") (codes "lab") (codes "api.lab.") (codes "lab.") resolves
      normalizes

-- A TXT value with a newline in it.
abbrev texts : List Record
texts =
    record {
      zone = codes "lab.";
      name = codes "note";
      fqdn = codes "note.lab.";
      record_type = txt;
      ttl = pos 60;
      values = codes "v\nevil 60 IN A 10.0.0.9" ∷ codes "w" ∷ [];
      source = record { kind = codes "PrivateDNSRecord"; namespace = codes "t"; name = codes "n" };
    }
    ∷ []

texts-valid : validate_each texts ≡ []
unfolding validate_each
texts-valid = refl

texts-named : all (λ r. is_line r.fqdn) texts ≡ true
unfolding all lacks
texts-named = refl

record_lines-IsLines_example : IsLines (record_lines (codes "lab.") texts) (value_count texts)
record_lines-IsLines_example = record_lines-IsLines (codes "lab.") texts texts-valid texts-named

-- The newline is written as an escape.
escaped :
    record_lines (codes "lab.") texts
    ≡ codes "note 60 IN TXT \"v\\nevil 60 IN A 10.0.0.9\"\nnote 60 IN TXT \"w\"\n"
unfolding record_lines
escaped = refl

render_zone-IsWritten_example :
    (name : Text) × (normalize_zone (codes "lab") ≡ ok name)
    × IsWritten name (pos 60) (deduplicate_and_sort any_order records) file
unfolding ttl_or_default
render_zone-IsWritten_example =
    render_zone-IsWritten digest any_order zone records today last_render file renders
