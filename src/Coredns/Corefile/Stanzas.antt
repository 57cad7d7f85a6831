-- ===== src/Coredns/Corefile/Stanzas.antt =====
-- What `ExtractZoneBlocks` of internal/coredns/corefile.go reads from a Corefile that `PatchCorefile`
-- has written.
use private_dns_operator.Prelude.{
  ◌≡◌, refl, ap, ◌∙◌, true, false, not, Bool, List, [], ◌∷◌, ◌++◌, some, none, is_empty, length,
  length-append, ltb, sort_by, all, arith, append_assoc, all-append, and_split,
}
use private_dns_operator.Text.{Text, ◌==◌, codes}
use private_dns_operator.Text.Map.{Map, insert}
use private_dns_operator.Text.Split.{lacks, split, join, split-at_sep, split-join_sep}
use private_dns_operator.Text.Replace.Laws.{take-append, drop-append}
use private_dns_operator.Kube.{ok}
use private_dns_operator.Dns.Record.{Record}
use private_dns_operator.Coredns.Corefile.{
  ZoneDirective, managed_block_start, managed_block_end, stanza_zone, scan_lines, interior,
  extract_zone_blocks, zone_stanza, zone_stanzas, directive_lt, render_managed_block,
  remove_managed_block, with_block, patch_corefile,
}
use private_dns_operator.Coredns.Corefile.Patch.{
  IsMarked, around, finds_start, finds_end_around, regroup, before_end, front_of, inner_of, layout,
  patch_of,
}

abbrev pub closing : Text
closing = b'}' ∷ []

abbrev pub unclosed : List Text → Bool
unclosed = all (λ line. not (line == closing))

-- The lines of a stanza: one that opens it for the zone, and a first brace on a line of its own.
pub record IsStanza (zone text : Text) : Type 0 where
  pub header : Text
  pub body : List Text
  pub shape : text ≡ join (header ∷ (body ++ closing ∷ [])) b'\n'
  pub opens : stanza_zone header ≡ some zone
  pub stays_open : unclosed body ≡ true
  pub by_lines : all (lacks b'\n') (header ∷ (body ++ closing ∷ [])) ≡ true

pub lines_closed :
    (header : Text) (body : List Text)
    → all (lacks b'\n') (header ∷ body) ≡ true
    → all (lacks b'\n') (header ∷ (body ++ closing ∷ [])) ≡ true
lines_closed header body h =
    all-append (lacks b'\n') (header ∷ body) (closing ∷ [])
    ∙ rw h (unfold all in unfold lacks in refl)

-- Directives that are written as stanzas, with the zones and the texts of these.
pub data Stanzas (order : List Record → List Record) : List ZoneDirective → Map Text → Type 0 where
  no_stanza : Stanzas order [] []
  a_stanza :
      (d : ZoneDirective) (zone text : Text) (ds : List ZoneDirective) (blocks : Map Text)
      → zone_stanza order d ≡ codes "\n\n" ++ text
      → IsStanza zone text
      → Stanzas order ds blocks
      → Stanzas order (d ∷ ds) ((zone, text) ∷ blocks)

-- One entry after the other.
unfoldable pub insert_all : Map Text → Map Text → Map Text
unfolding insert
insert_all [] blocks = blocks
insert_all ((zone, text) ∷ more) blocks = insert_all more (insert zone text blocks)

pub named : (line zone : Text) → stanza_zone line ≡ some zone → is_empty zone ≡ false
unfolding stanza_zone
named line zone h = ground arith

module _ (lines : List Text) (blocks : Map Text) where
  pub scan-skip :
      (line : Text)
      → stanza_zone line ≡ none
      → scan_lines (line ∷ lines) [] [] blocks ≡ scan_lines lines [] [] blocks
  unfolding scan_lines
  scan-skip line h = rw h refl

  scan-blank : scan_lines ([] ∷ lines) [] [] blocks ≡ scan_lines lines [] [] blocks
  unfolding stanza_zone
  scan-blank = scan-skip [] refl

  pub scan-open :
      (header zone : Text)
      → stanza_zone header ≡ some zone
      → scan_lines (header ∷ lines) [] [] blocks ≡ scan_lines lines zone (header ∷ []) blocks
  unfolding scan_lines
  scan-open header zone h = rw h refl

  module _ (zone : Text) (current : List Text) (h : is_empty zone ≡ false) where
    pub scan-inside :
        (line : Text)
        → not (line == closing) ≡ true
        → scan_lines (line ∷ lines) zone current blocks
          ≡ scan_lines lines zone (current ++ line ∷ []) blocks
    unfolding scan_lines
    scan-inside line k = ground arith

    pub scan-close :
        scan_lines (closing ∷ lines) zone current blocks
        ≡ scan_lines lines [] [] (insert zone (join (current ++ closing ∷ []) b'\n') blocks)
    unfolding scan_lines ◌==◌
    scan-close = rw h refl

-- the lines behind the one that opens a stanza
scan-body :
    (body : List Text) (zone : Text) (current rest : List Text) (blocks : Map Text)
    → is_empty zone ≡ false
    → unclosed body ≡ true
    → scan_lines (body ++ closing ∷ rest) zone current blocks
      ≡ scan_lines rest [] [] (insert zone (join (current ++ (body ++ closing ∷ [])) b'\n') blocks)
unfolding all
scan-body [] zone current rest blocks e h = scan-close rest blocks zone current e
scan-body (line ∷ body) zone current rest blocks e h =
    let (here, later) = and_split (not (line == closing)) (unclosed body) h in
    scan-inside (body ++ closing ∷ rest) blocks zone current e line here
    ∙ scan-body body zone (current ++ line ∷ []) rest blocks e later
    ∙ ap (λ (lines : List Text). scan_lines rest [] [] (insert zone (join lines b'\n') blocks))
        (append_assoc current (line ∷ []) (body ++ closing ∷ []))

-- A stanza, all lines of it, adds itself to the blocks.
scan-stanza :
    (zone text rest : Text) (blocks : Map Text)
    → IsStanza zone text
    → scan_lines (split (text ++ b'\n' ∷ rest) b'\n') [] [] blocks
      ≡ scan_lines (split rest b'\n') [] [] (insert zone text blocks)
scan-stanza zone text rest blocks h =
    let body = h.body ++ closing ∷ [] in
    let parts = split-join_sep b'\n' h.header body rest h.by_lines in
    let regroup = append_assoc h.body (closing ∷ []) (split rest b'\n') in
    rw
      (
        h.shape,
        parts,
        regroup,
        scan-open (h.body ++ closing ∷ split rest b'\n') blocks h.header zone h.opens,
      )
      (scan-body h.body zone (h.header ∷ []) (split rest b'\n') blocks (named h.header zone h.opens)
        h.stays_open)

-- The stanzas behind the first newline of a block.
unfoldable lines_of : Map Text → Text
lines_of [] = []
lines_of ((zone, text) ∷ blocks) = b'\n' ∷ (text ++ b'\n' ∷ lines_of blocks)

module _ (order : List Record → List Record) where
  as_lines :
      (ds : List ZoneDirective) (blocks : Map Text)
      → Stanzas order ds blocks
      → zone_stanzas order ds ++ codes "\n" ≡ b'\n' ∷ lines_of blocks
  unfolding zone_stanzas lines_of
  as_lines ds blocks no_stanza = refl
  as_lines ds blocks (a_stanza d zone text rest more e h hs) =
      rw
        (
          append_assoc (zone_stanza order d) (zone_stanzas order rest) (codes "\n"),
          as_lines rest more hs,
          e,
        )
        refl

  scan-Stanzas :
      (ds : List ZoneDirective) (blocks found : Map Text)
      → Stanzas order ds blocks
      → scan_lines (split (lines_of blocks) b'\n') [] [] found ≡ insert_all blocks found
  unfolding lines_of insert_all
  scan-Stanzas ds blocks found no_stanza =
      unfold split in unfold scan_lines in unfold stanza_zone in refl
  scan-Stanzas ds blocks found (a_stanza d zone text rest more e h hs) =
      let after = text ++ b'\n' ∷ lines_of more in
      rw
        (
          split-at_sep b'\n' [] after (unfold lacks in unfold all in refl),
          scan-blank (split after b'\n') found,
        )
        (scan-stanza zone text (lines_of more) found h
          ∙ scan-Stanzas rest more (insert zone text found) hs)

  scan-inner :
      (ds : List ZoneDirective) (blocks : Map Text)
      → Stanzas order (sort_by directive_lt ds) blocks
      → scan_lines (split (inner_of order ds) b'\n') [] [] [] ≡ insert_all blocks []
  scan-inner ds blocks hs =
      rw
        (
          as_lines (sort_by directive_lt ds) blocks hs,
          split-at_sep b'\n' [] (lines_of blocks) (unfold lacks in unfold all in refl),
          scan-blank (split (lines_of blocks) b'\n') [],
        )
        (scan-Stanzas (sort_by directive_lt ds) blocks [] hs)

interior-around :
    (front inner back : Text)
    → interior
        (around front inner back)
        (length front)
        (length (front ++ (managed_block_start ++ inner)))
      ≡ inner
unfolding interior
interior-around front inner back =
    let group = front ++ (managed_block_start ++ inner) in
    rw
      (
        regroup front managed_block_start inner (managed_block_end ++ back),
        take-append group (managed_block_end ++ back),
        ← append_assoc front managed_block_start inner,
        ← length-append front managed_block_start,
        drop-append (front ++ managed_block_start) inner,
      )
      refl

-- What ExtractZoneBlocks reads in a Corefile with a block.
extract-around :
    (front inner back : Text)
    → IsMarked front inner
    → extract_zone_blocks (around front inner back) ≡ scan_lines (split inner b'\n') [] [] []
unfolding extract_zone_blocks
extract-around front inner back h =
    let start = finds_start front (inner ++ (managed_block_end ++ back)) h.no_start in
    let end_ = finds_end_around front inner back h in
    let in_order : ltb (length (front ++ (managed_block_start ++ inner))) (length front) ≡ false =
      let far = before_end front inner in ground arith in
    rw (extract_zone_blocks, start, end_, in_order, interior-around front inner back) refl

-- Where the managed block can be removed, the text in front of the rendered block and the block
-- have no marker of their own, and each directive is written as a stanza, PatchCorefile returns a
-- Corefile in which ExtractZoneBlocks finds exactly these stanzas, each under its zone, a later
-- one of a zone in the place of an earlier one.
pub extract_zone_blocks-patch_corefile :
    (order : List Record → List Record) (corefile stripped : Text) (directives : List ZoneDirective)
    (blocks : Map Text)
    → remove_managed_block corefile ≡ ok stripped
    → IsMarked (front_of stripped) (inner_of order directives)
    → Stanzas order (sort_by directive_lt directives) blocks
    → (patched : Text) × (patch_corefile order corefile directives ≡ ok patched)
      × (extract_zone_blocks patched ≡ insert_all blocks [])
extract_zone_blocks-patch_corefile order corefile stripped directives blocks e marked hs = (
  with_block (render_managed_block order directives) stripped,
  patch_of order corefile stripped directives e,
  ap extract_zone_blocks (layout order stripped directives)
      ∙ extract-around (front_of stripped) (inner_of order directives) (codes "\n") marked
      ∙ scan-inner order directives blocks hs,
)
