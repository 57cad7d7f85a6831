-- ===== src/Coredns/Corefile/Extract.antt =====
-- What `ExtractZoneBlocks` of internal/coredns/corefile.go finds in any Corefile, and how
-- `renderManagedBlock` writes it again.
use private_dns_operator.Prelude.{
  subst, ℕ, ◌≡◌, refl, ap, sym, ◌∙◌, true, false, not, List, [], ◌∷◌, ◌++◌, if◌then◌else◌, some,
  is_empty, eqb, ltb, all, all-append, and_split, arith, append_assoc, Option-cases, Bool-cases,
  inl, inr,
}
use private_dns_operator.Text.{Text, ◌==◌, codes}
use private_dns_operator.Text.Eq.{eq_iff}
use private_dns_operator.Text.Map.{Map, lookup, insert, lookup-insert}
use private_dns_operator.Text.Split.{lacks, split, extend, join}
use private_dns_operator.Text.Replace.{index}
use private_dns_operator.Text.Trim.{trim_right}
use private_dns_operator.Text.Trim.Laws.{trim_right-append}
use private_dns_operator.Dns.Record.{Record}
use private_dns_operator.Coredns.Corefile.{
  ZoneDirective, managed_block_start, managed_block_end, stanza_zone, scan_lines, interior,
  extract_zone_blocks, zone_stanza,
}
use private_dns_operator.Coredns.Corefile.Stanzas.{
  closing, unclosed, lines_closed, named, scan-skip, scan-open, scan-inside, scan-close, IsStanza,
}

-- All blocks are stanzas of their zones.
abbrev AreStanzas : Map Text → Type 0
AreStanzas blocks = (zone text : Text) → lookup zone blocks ≡ some text → IsStanza zone text

no-AreStanzas : AreStanzas []
unfolding lookup
no-AreStanzas zone text h = cc

insert-AreStanzas :
    (key value : Text) (blocks : Map Text)
    → IsStanza key value
    → AreStanzas blocks
    → AreStanzas (insert key value blocks)
insert-AreStanzas key value blocks h hs zone text e = elim (Bool-cases (key == zone)) [
  | inl same ↦
      let key_zone = (eq_iff key zone).0 same in
      let e' = rw (lookup-insert key zone value blocks, same) at e in
      let value_text : value ≡ text = cc in
      subst (λ (k : Text). IsStanza k text) key_zone (subst (IsStanza key) value_text h)
  | inr other ↦ hs zone text (rw (lookup-insert key zone value blocks, other) at e)
]

all-extend :
    (c sep : ℕ) (ps : List Text)
    → eqb c sep ≡ false
    → all (lacks sep) ps ≡ true
    → all (lacks sep) (extend c ps) ≡ true
unfolding all lacks extend
all-extend c sep [] h k = ground arith
all-extend c sep (p ∷ ps) h k = ground arith

all-split :
    (c sep : ℕ) (ps : List Text)
    → all (lacks sep) ps ≡ true
    → all (lacks sep) (if eqb c sep then [] ∷ ps else extend c ps) ≡ true
unfolding all lacks
all-split c sep ps h = ground (arith, h, all-extend c sep ps)

split-all-lacks : (s : Text) (sep : ℕ) → all (lacks sep) (split s sep) ≡ true
unfolding split
split-all-lacks [] sep = unfold all in unfold lacks in unfold all in refl
split-all-lacks (c ∷ s) sep = all-split c sep (split s sep) (split-all-lacks s sep)

-- What is known within a stanza.
record IsOpen (zone header : Text) (body : List Text) : Type 0 where
  opens : stanza_zone header ≡ some zone
  stays_open : unclosed body ≡ true
  by_lines : all (lacks b'\n') (header ∷ body) ≡ true

closed :
    (zone header : Text) (body : List Text)
    → IsOpen zone header body
    → IsStanza zone (join (header ∷ (body ++ closing ∷ [])) b'\n')
closed zone header body h = record {
  header = header;
  body = body;
  shape = refl;
  opens = h.opens;
  stays_open = h.stays_open;
  by_lines = lines_closed header body h.by_lines;
}

goes_on :
    (zone header line : Text) (body : List Text)
    → IsOpen zone header body
    → not (line == closing) ≡ true
    → lacks b'\n' line ≡ true
    → IsOpen zone header (body ++ line ∷ [])
goes_on zone header line body h k l = record {
  opens = h.opens;
  stays_open =
      all-append (λ line. not (line == closing)) body (line ∷ [])
      ∙ rw (h.stays_open) (unfold all in ground arith);
  by_lines =
      all-append (lacks b'\n') (header ∷ body) (line ∷ [])
      ∙ rw (h.by_lines) (unfold all in ground arith);
}

-- The two places that the scan can be in.
record Scans (lines : List Text) : Type 0 where
  outside : (blocks : Map Text) → AreStanzas blocks → AreStanzas (scan_lines lines [] [] blocks)
  inside :
      (zone header : Text) (body : List Text) (blocks : Map Text)
      → IsOpen zone header body
      → AreStanzas blocks
      → AreStanzas (scan_lines lines zone (header ∷ body) blocks)

scan-outside :
    (line : Text) (lines : List Text) (blocks : Map Text)
    → lacks b'\n' line ≡ true
    → Scans lines
    → AreStanzas blocks
    → AreStanzas (scan_lines (line ∷ lines) [] [] blocks)
scan-outside line lines blocks h rest hs = elim (Option-cases (stanza_zone line)) [
  | inl e ↦ rw (scan-skip lines blocks line e) (rest.outside blocks hs)
  | inr (zone, e) ↦ rw (scan-open lines blocks line zone e) (
      rest.inside zone line [] blocks
        (record {
          opens = e;
          stays_open = unfold all in refl;
          by_lines = unfold all in ground (arith, h);
        })
        hs)
]

scan-within :
    (line : Text) (lines : List Text) (zone header : Text) (body : List Text) (blocks : Map Text)
    → lacks b'\n' line ≡ true
    → Scans lines
    → IsOpen zone header body
    → AreStanzas blocks
    → AreStanzas (scan_lines (line ∷ lines) zone (header ∷ body) blocks)
scan-within line lines zone header body blocks h rest open_ hs =
    let filled = named header zone open_.opens in
    elim (Bool-cases (line == closing)) [
      | inl e ↦
          rw ((eq_iff line closing).0 e, scan-close lines blocks zone (header ∷ body) filled)
            (rest.outside _ (insert-AreStanzas zone _ blocks (closed zone header body open_) hs))
      | inr e ↦
          let other : not (line == closing) ≡ true = ap not e in
          rw (scan-inside lines blocks zone (header ∷ body) filled line other) (
            rest.inside zone header (body ++ line ∷ []) blocks
              (goes_on zone header line body open_ other h) hs)
    ]

scan-Scans : (lines : List Text) → all (lacks b'\n') lines ≡ true → Scans lines
unfolding all
scan-Scans [] h = record {
  outside = λ blocks hs. unfold scan_lines in hs;
  inside = λ zone header body blocks o hs. unfold scan_lines in hs;
}
scan-Scans (line ∷ lines) h =
    let (here, later) = and_split (lacks b'\n' line) (all (lacks b'\n') lines) h in
    let rest = scan-Scans lines later in
    record {
      outside = λ blocks hs. scan-outside line lines blocks here rest hs;
      inside = λ zone header body blocks o hs.
          scan-within line lines zone header body blocks here rest o hs;
    }

extract-AreStanzas : (corefile : Text) → AreStanzas (extract_zone_blocks corefile)
unfolding extract_zone_blocks
extract-AreStanzas corefile = elim (Option-cases (index corefile managed_block_start)) [
  | inl e ↦ rw (extract_zone_blocks, e) no-AreStanzas
  | inr (start, e) ↦ elim (Option-cases (index corefile managed_block_end)) [
    | inl e' ↦ rw (extract_zone_blocks, e, e') no-AreStanzas
    | inr (end_, e') ↦ elim (Bool-cases (ltb end_ start)) [
      | inl k ↦ rw (extract_zone_blocks, e, e', k) no-AreStanzas
      | inr k ↦
          let lines = split (interior corefile start end_) b'\n' in
          rw (extract_zone_blocks, e, e', k)
            ((scan-Scans lines (split-all-lacks (interior corefile start end_) b'\n')).outside []
              no-AreStanzas)
    ]
  ]
]

-- the last line ends a join
join-closing :
    (p : Text) (ps : List Text)
    → (front : Text) × (join (p ∷ (ps ++ closing ∷ [])) b'\n' ≡ front ++ closing)
unfolding join
join-closing p [] = (p ++ codes "\n", sym (append_assoc p (codes "\n") closing))
join-closing p (q ∷ ps) =
    let (front, e) = join-closing q ps in
    (p ++ b'\n' ∷ front, rw e (sym (append_assoc p (b'\n' ∷ front) closing)))

-- A stanza has no newline at its end.
IsStanza-trimmed : (zone text : Text) → IsStanza zone text → trim_right (eqb b'\n') text ≡ text
IsStanza-trimmed zone text h =
    let (front, e) = join-closing h.header h.body in
    rw (h.shape, e)
      (trim_right-append (eqb b'\n') front closing (unfold trim_right in refl)
        ∙ (unfold trim_right in refl))

held_as_stanza :
    (order : List Record → List Record) (zone text : Text) (d : ZoneDirective)
    → IsStanza zone text
    → d.raw ≡ text
    → is_empty text ≡ false
    → zone_stanza order d ≡ codes "\n\n" ++ text
unfolding zone_stanza
held_as_stanza order zone text d h e filled =
    rw (zone_stanza, e, filled, IsStanza-trimmed zone text h) refl

IsStanza-filled : (zone text : Text) → IsStanza zone text → is_empty text ≡ false
IsStanza-filled zone text h =
    let (front, e) = join-closing h.header h.body in rw (h.shape, e) (filled front)
  where
    filled : (front : Text) → is_empty (front ++ closing) ≡ false
    filled [] = refl
    filled (c ∷ front) = refl

-- A block that ExtractZoneBlocks finds for a zone in any Corefile is a stanza of that zone, and a
-- directive that holds the block as its raw text is written as exactly that text.
pub extract_zone_blocks-IsStanza :
    (order : List Record → List Record) (corefile zone text : Text) (d : ZoneDirective)
    → lookup zone (extract_zone_blocks corefile) ≡ some text
    → d.raw ≡ text
    → IsStanza zone text × (zone_stanza order d ≡ codes "\n\n" ++ text)
extract_zone_blocks-IsStanza order corefile zone text d found e =
    let h = extract-AreStanzas corefile zone text found in
    (h, held_as_stanza order zone text d h e (IsStanza-filled zone text h))
