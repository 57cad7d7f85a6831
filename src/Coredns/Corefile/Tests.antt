-- ===== src/Coredns/Corefile/Tests.antt =====
-- Patching a concrete Corefile.
use private_dns_operator.Prelude.{◌≡◌, refl, List, [], ◌∷◌, ◌++◌, some, all, sort_by}
use private_dns_operator.Prelude.Int.{pos}
use private_dns_operator.Text.{Text, ◌==◌, codes}
use private_dns_operator.Text.Map.{insert, lookup, keys}
use private_dns_operator.Text.Set.{contains}
use private_dns_operator.Text.Replace.{index}
use private_dns_operator.Text.Trim.{trim_right, trim_suffix}
use private_dns_operator.Types.{txt, unset, forward}
use private_dns_operator.Kube.{ok}
use private_dns_operator.Dns.Record.{Record}
use private_dns_operator.Coredns.Corefile.{
  ZoneDirective, managed_block_end, zone_stanzas, remove_managed_block, patch_corefile,
  extract_zone_blocks, directive_lt,
}
use private_dns_operator.Coredns.Corefile.Patch.{
  IsMarked, front_of, inner_of, around, remove_managed_block-around, patch_corefile-patch_corefile,
}
use private_dns_operator.Text.Split.{lacks}
use private_dns_operator.Dns.RecordSet.{deduplicate_and_sort}
use private_dns_operator.Coredns.Corefile.{zone_stanza, is_printing}
use private_dns_operator.Coredns.Corefile.Stanzas.{
  IsStanza, Stanzas, no_stanza, a_stanza, insert_all, extract_zone_blocks-patch_corefile,
}
use private_dns_operator.Coredns.Corefile.Extract.{extract_zone_blocks-IsStanza}
use private_dns_operator.Coredns.Corefile.Served.{
  AllServed, written_blocks, extract_zone_blocks-written_blocks,
}

abbrev any_order : List Record → List Record
any_order rs = rs

abbrev corefile : Text
corefile =
    codes
      ".:53 {\n    reload\n}\n# BEGIN private-dns-zone-operator\n\nold:53 {\n}\n# END private-dns-zone-operator\n# mine\n"

abbrev stripped : Text
stripped = codes ".:53 {\n    reload\n}\n\n# mine\n"

abbrev directive : ZoneDirective
directive = record {
  zone = codes "lab.";
  db_file = codes "lab-1.db";
  policy = unset;
  records = [];
  raw = [];
}

abbrev patched : Text
patched =
    codes
      ".:53 {\n    reload\n}\n\n# mine\n\n# BEGIN private-dns-zone-operator\n\nlab:53 {\n    errors\n    file /etc/coredns/lab-1.db lab\n    cache 30\n}\n# END private-dns-zone-operator\n"

removes : remove_managed_block corefile ≡ ok stripped
unfolding remove_managed_block
removes = refl

patches : patch_corefile any_order corefile (directive ∷ []) ≡ ok patched
unfolding patch_corefile
patches = refl

-- The stanza that is held where the zone becomes invalid.
extracts :
    lookup (codes "lab") (extract_zone_blocks patched)
    ≡ some (codes "lab:53 {\n    errors\n    file /etc/coredns/lab-1.db lab\n    cache 30\n}")
unfolding extract_zone_blocks lookup ◌==◌
extracts = refl

marked : IsMarked (front_of stripped) (inner_of any_order (directive ∷ []))
unfolding index trim_right zone_stanzas
marked = record { no_start = refl; no_end = refl }

IsMarked-now : IsMarked (codes ".:53 {\n}\n") (codes "\n\nold:53 {\n}\n")
unfolding index
IsMarked-now = record { no_start = refl; no_end = refl }

remove_managed_block-around_example :
    remove_managed_block
      (around (codes ".:53 {\n}\n") (codes "\n\nold:53 {\n}\n") (codes "\n# mine\n"))
    ≡ ok (codes ".:53 {\n}\n" ++ codes "\n# mine\n")
remove_managed_block-around_example =
    remove_managed_block-around (codes ".:53 {\n}\n") (codes "\n\nold:53 {\n}\n")
      (codes "\n# mine\n") IsMarked-now

patch_corefile-patch_corefile_example :
    (p : Text) × (patch_corefile any_order corefile (directive ∷ []) ≡ ok p)
    × (patch_corefile any_order p [] ≡ patch_corefile any_order corefile [])
patch_corefile-patch_corefile_example =
    patch_corefile-patch_corefile any_order corefile stripped (directive ∷ []) [] removes marked

-- A TXT value with the end marker in a zone that forwards: the marker stands inside the block.
abbrev hostile : ZoneDirective
hostile = record {
  zone = codes "lab.";
  db_file = codes "lab-1.db";
  policy = forward;
  records =
      record {
        zone = codes "lab.";
        name = codes "x";
        fqdn = codes "x.lab.";
        record_type = txt;
        ttl = pos 60;
        values = managed_block_end ∷ [];
        source = record {
          kind = codes "PrivateDNSRecord";
          namespace = codes "t";
          name = codes "x";
        };
      }
      ∷ [];
  raw = [];
}

abbrev left_over : Text
left_over =
    codes
      ".:53 {\n}\n\n\\\"\"\n        fallthrough\n    }\n    forward . /etc/resolv.conf\n    cache 30\n}\n# END private-dns-zone-operator\n"

-- The next patch cuts the block at that marker and keeps the rest of it.
end_in_value :
    (patched : Text) × (patch_corefile any_order (codes ".:53 {\n}\n") (hostile ∷ []) ≡ ok patched)
    × (remove_managed_block patched ≡ ok left_over)
unfolding patch_corefile remove_managed_block insert lookup keys contains all
end_in_value = (_, refl, refl)

-- No stanza is found again in the Corefile that was cut there.
no_block_found :
    (patched : Text) × (patch_corefile any_order (codes ".:53 {\n}\n") (hostile ∷ []) ≡ ok patched)
    × (extract_zone_blocks patched ≡ [])
unfolding patch_corefile extract_zone_blocks insert lookup keys contains all
no_block_found = (_, refl, refl)

-- A zone that forwards and comes first in the order of the zones.
abbrev forwarding : ZoneDirective
forwarding = record {
  zone = codes "corp.";
  db_file = codes "corp-1.db";
  policy = forward;
  records =
      record {
        zone = codes "corp.";
        name = codes "x";
        fqdn = codes "x.corp.";
        record_type = txt;
        ttl = pos 60;
        values = codes "a } b" ∷ [];
        source = record {
          kind = codes "PrivateDNSRecord";
          namespace = codes "t";
          name = codes "x";
        };
      }
      ∷ [];
  raw = [];
}

abbrev live : List ZoneDirective
live = directive ∷ forwarding ∷ []

live-AllServed : AllServed any_order live
unfolding all lacks is_printing deduplicate_and_sort insert contains keys lookup trim_suffix
live-AllServed = (
  record { no_raw = refl; named = refl; printing = refl; file_line = refl; plain = refl },
  (record { no_raw = refl; named = refl; printing = refl; file_line = refl; plain = refl }, tt),
)

marked_live : IsMarked (front_of stripped) (inner_of any_order live)
unfolding index trim_right zone_stanzas sort_by directive_lt insert lookup keys contains all
marked_live = record { no_start = refl; no_end = refl }

extract_zone_blocks-written_blocks_example :
    (p : Text) × (patch_corefile any_order corefile live ≡ ok p)
    × (extract_zone_blocks p
        ≡ insert_all (written_blocks any_order (forwarding ∷ directive ∷ [])) [])
unfolding sort_by directive_lt
extract_zone_blocks-written_blocks_example =
    extract_zone_blocks-written_blocks any_order corefile stripped live removes marked_live
      live-AllServed

abbrev stanza : Text
stanza = codes "lab:53 {\n    errors\n    file /etc/coredns/lab-1.db lab\n    cache 30\n}"

abbrev held : ZoneDirective
held = record directive { db_file = []; raw = stanza }

-- The stanza that is found in a written Corefile, and its directive for the next one.
extract_zone_blocks-IsStanza_example :
    IsStanza (codes "lab") stanza × (zone_stanza any_order held ≡ codes "\n\n" ++ stanza)
extract_zone_blocks-IsStanza_example =
    extract_zone_blocks-IsStanza any_order patched (codes "lab") stanza held extracts refl

Stanzas-held : Stanzas any_order (held ∷ []) ((codes "lab", stanza) ∷ [])
Stanzas-held =
    let (found, written) = extract_zone_blocks-IsStanza_example in
    a_stanza held (codes "lab") stanza [] [] written found no_stanza

marked_held : IsMarked (front_of stripped) (inner_of any_order (held ∷ []))
unfolding index trim_right zone_stanzas
marked_held = record { no_start = refl; no_end = refl }

extract_zone_blocks-patch_corefile_example :
    (p : Text) × (patch_corefile any_order corefile (held ∷ []) ≡ ok p)
    × (extract_zone_blocks p ≡ insert_all ((codes "lab", stanza) ∷ []) [])
unfolding sort_by
extract_zone_blocks-patch_corefile_example =
    extract_zone_blocks-patch_corefile any_order corefile stripped (held ∷ [])
      ((codes "lab", stanza) ∷ []) removes marked_held Stanzas-held
