-- ===== src/Coredns/Corefile.antt =====
-- internal/coredns/corefile.go, but for the records of the template plugin.
pub mod Patch
pub mod Stanzas
pub mod Extract
pub mod Answers
pub mod Served
mod Tests
use private_dns_operator.Prelude.{
  ℕ, ◌+◌, Bool, true, false, not, ◌&&◌, ◌||◌, List, [], ◌∷◌, ◌++◌, if◌then◌else◌, Option, none,
  some, is_empty, length, eqb, ltb, all, any, sort_by,
}
use private_dns_operator.Prelude.Int.{ℤ, ltz}
use private_dns_operator.Text.{Text, ◌==◌, codes, text_lt, sort_texts}
use private_dns_operator.Text.Map.{Map, lookup, insert, keys}
use private_dns_operator.Text.Quote.{quote}
use private_dns_operator.Text.Decimal.{itoa}
use private_dns_operator.Text.Split.{split, join}
use private_dns_operator.Text.Replace.{index, take, drop}
use private_dns_operator.Text.Trim.{
  trim_right, trim_space, trim_suffix, has_prefix, has_suffix, fields,
}
use private_dns_operator.Types.{
  DnsRecordType, a, aaaa, cname, txt, mx, srv, other, type_text, UnresolvedRecordPolicy, unset,
  nxdomain, forward,
}
use private_dns_operator.Kube.{Result, ok, err, message}
use private_dns_operator.Dns.Domain.{dot}
use private_dns_operator.Dns.Record.{Record}
use private_dns_operator.Coredns.Templates.{render_template_records}

abbrev pub managed_block_start : Text
managed_block_start = codes "# BEGIN private-dns-zone-operator"

abbrev pub managed_block_end : Text
managed_block_end = codes "# END private-dns-zone-operator"

pub record ZoneDirective : Type 0 where
  pub zone : Text
  pub db_file : Text
  pub policy : UnresolvedRecordPolicy
  pub records : List Record
  pub raw : Text

-- `\S` of the package regexp.
unfoldable pub is_printing : ℕ → Bool
is_printing c = not (eqb c 9 || (eqb c 10 || (eqb c 12 || (eqb c 13 || eqb c 32))))

-- `zoneStanzaHeader.FindStringSubmatch(line)`: the zone of a line `zone:53 {`.
unfoldable pub stanza_zone : Text → Option Text
unfolding is_printing has_suffix trim_suffix all
stanza_zone line =
    let zone = trim_suffix line (codes ":53 {") in
    if has_suffix line (codes ":53 {") && (not (is_empty zone) && all is_printing zone)
    then some zone
    else none

-- The loop of ExtractZoneBlocks: `zone` is empty outside of a stanza, and `current` has the lines of
-- the stanza so far.
unfoldable pub scan_lines : List Text → Text → List Text → Map Text → Map Text
unfolding stanza_zone join insert
scan_lines [] zone current blocks = blocks
scan_lines (line ∷ lines) zone current blocks =
    let outside = scan_lines lines [] [] blocks in
    let lines' = current ++ line ∷ [] in
    let closed = scan_lines lines [] [] (insert zone (join lines' b'\n') blocks) in
    let inside = scan_lines lines zone lines' blocks in
    let opened = λ (z : Text). scan_lines lines z (line ∷ []) blocks in
    if is_empty zone
    then elim (stanza_zone line) [ none ↦ outside | some z ↦ opened z ]
    else if line == b'}' ∷ []
    then closed
    else inside

unfoldable pub interior : Text → ℕ → ℕ → Text
unfolding take drop
interior corefile start end_ =
    let from = start + length managed_block_start in drop from (take end_ corefile)

-- ExtractZoneBlocks. Markers that overlap do not occur: no suffix of one begins the other.
unfoldable pub extract_zone_blocks : Text → Map Text
unfolding index interior split scan_lines
extract_zone_blocks corefile = elim (index corefile managed_block_start) [
  | none ↦ []
  | some start ↦ elim (index corefile managed_block_end) [
    | none ↦ []
    | some end_ ↦
        if ltb end_ start
        then []
        else scan_lines (split (interior corefile start end_) b'\n') [] [] []
  ]
]

-- HasReloadPlugin
unfoldable pub is_reload_line : Text → Bool
unfolding trim_space has_prefix
is_reload_line given =
    let line = trim_space given in (line == codes "reload") || has_prefix line (codes "reload ")

unfoldable pub has_reload_plugin : Text → Bool
unfolding is_reload_line any split
has_reload_plugin corefile = any is_reload_line (split corefile b'\n')

-- The order of `sort.Slice`.
unfoldable pub directive_lt : ZoneDirective → ZoneDirective → Bool
unfolding text_lt
directive_lt x y = text_lt x.zone y.zone

module _ (order : List Record → List Record) where
  -- The lines that answer for a zone, by its policy.
  unfoldable pub zone_answers : UnresolvedRecordPolicy → Text → ZoneDirective → Text
  unfolding render_template_records
  zone_answers forward zone d =
      render_template_records order d.records ++ codes "    forward . /etc/resolv.conf\n"
  zone_answers _ zone d =
      codes "    file /etc/coredns/" ++ (d.db_file ++ (b' ' ∷ zone ++ b'\n' ∷ []))

  unfoldable pub zone_stanza : ZoneDirective → Text
  unfolding trim_right trim_suffix zone_answers
  zone_stanza d =
      let zone = trim_suffix d.zone dot in
      if not (is_empty d.raw)
      then codes "\n\n" ++ trim_right (eqb b'\n') d.raw
      else codes "\n\n"
        ++ (zone
            ++ (codes ":53 {\n    errors\n"
                ++ (zone_answers d.policy zone d ++ codes "    cache 30\n}")))

  unfoldable pub zone_stanzas : List ZoneDirective → Text
  unfolding zone_stanza
  zone_stanzas [] = []
  zone_stanzas (d ∷ ds) = zone_stanza d ++ zone_stanzas ds

  unfoldable pub render_managed_block : List ZoneDirective → Text
  unfolding zone_stanzas directive_lt sort_by
  render_managed_block directives =
      managed_block_start
      ++ (zone_stanzas (sort_by directive_lt directives) ++ b'\n' ∷ managed_block_end)

abbrev pub incomplete_markers : Text
incomplete_markers = codes "managed Corefile block markers are incomplete or out of order"

-- removeManagedBlock with the places of its two markers.
unfoldable pub remove_between : Text → Option ℕ → Option ℕ → Result Text
unfolding take drop
remove_between corefile none none = ok corefile
remove_between corefile none (some end_) = err (message incomplete_markers)
remove_between corefile (some start) none = err (message incomplete_markers)
remove_between corefile (some start) (some end_) =
    if ltb end_ start
    then err (message incomplete_markers)
    else ok (take start corefile ++ drop (end_ + length managed_block_end) corefile)

unfoldable pub remove_managed_block : Text → Result Text
unfolding index remove_between
remove_managed_block corefile =
    remove_between corefile (index corefile managed_block_start) (index corefile managed_block_end)

-- What is left of the Corefile, with the block behind it.
unfoldable pub with_block : Text → Text → Text
unfolding trim_right
with_block block stripped =
    trim_right (eqb b'\n') stripped ++ (codes "\n\n" ++ (block ++ b'\n' ∷ []))

-- PatchCorefile. `order` is the order in which DeduplicateAndSort ranges over its map.
unfoldable pub patch_corefile :
    (List Record → List Record) → Text → List ZoneDirective → Result Text
unfolding render_managed_block remove_managed_block with_block
patch_corefile order corefile directives =
    let block = render_managed_block order directives in
    elim (remove_managed_block corefile) [
      | err e ↦ err e
      | ok stripped ↦ ok (with_block block stripped)
    ]
