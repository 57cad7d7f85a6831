-- ===== src/Coredns/Corefile/Served.antt =====
-- The sets of the template plugin that `groupTemplateRecords` of internal/coredns/corefile.go makes,
-- and the stanzas of live zones of either policy.
use private_dns_operator.Prelude.{
  insert_by, sort_by, subst, ◌≡◌, refl, Bool, true, false, ◌&&◌, List, [], ◌∷◌, ◌++◌, some,
  is_empty, all, and_split, arith, Option-cases, Bool-cases, inl, inr,
}
use private_dns_operator.Text.{Text, ◌==◌, codes, sort_texts}
use private_dns_operator.Text.Map.{Map, lookup, insert, keys}
use private_dns_operator.Text.Split.{lacks}
use private_dns_operator.Text.Trim.{is_space, trim_space, trim_suffix}
use private_dns_operator.Types.{
  UnresolvedRecordPolicy, unset, nxdomain, forward, other_policy, type_text,
}
use private_dns_operator.Dns.Domain.{dot}
use private_dns_operator.Dns.Record.{Record}
use private_dns_operator.Dns.RecordSet.{deduplicate_and_sort}
use private_dns_operator.Dns.Render.Chars.{is_line, line-append, line-trim}
use private_dns_operator.Coredns.Templates.{
  ensure_trailing_dot, TemplateRrSet, set_key, new_set, join_set, found_or_new, group_sets,
  finished_set, finished_sets, group_template_records, render_template_records,
}
use private_dns_operator.Coredns.Corefile.{ZoneDirective, is_printing, zone_answers, zone_stanza}
use private_dns_operator.Text.Replace.{drop}
use private_dns_operator.Kube.{ok}
use private_dns_operator.Coredns.Corefile.{
  directive_lt, remove_managed_block, patch_corefile, extract_zone_blocks,
}
use private_dns_operator.Coredns.Corefile.Patch.{IsMarked, front_of, inner_of}
use private_dns_operator.Coredns.Corefile.Stanzas.{
  IsStanza, Stanzas, no_stanza, a_stanza, insert_all, extract_zone_blocks-patch_corefile,
}
use private_dns_operator.Coredns.Corefile.Answers.{
  IsBody, append-IsBody, line-IsBody, file-IsBody, printing_line, stanza_text, stanza_text-IsStanza,
  plain_set, template_stanzas-IsBody,
}

-- The texts of a record that a stanza has outside of quotes are on one line each.
abbrev pub plain_record : Record → Bool
plain_record r = is_line r.fqdn && (is_line r.zone && is_line (type_text r.record_type))

abbrev plain_sets : Map TemplateRrSet → Bool
plain_sets sets = all (λ entry. plain_set (entry.1)) sets

insert-plain :
    (key : Text) (set : TemplateRrSet) (sets : Map TemplateRrSet)
    → plain_set set ≡ true
    → plain_sets sets ≡ true
    → plain_sets (insert key set sets) ≡ true
unfolding insert all
insert-plain key set [] h hs = ground arith
insert-plain key set ((first, old) ∷ sets) h hs = ground (arith, insert-plain key set sets h)

lookup-plain :
    (key : Text) (sets : Map TemplateRrSet) (set : TemplateRrSet)
    → plain_sets sets ≡ true
    → lookup key sets ≡ some set
    → plain_set set ≡ true
unfolding lookup all
lookup-plain key [] set hs e = cc
lookup-plain key ((first, old) ∷ sets) set hs e =
    let (here, later) = and_split (plain_set old) (plain_sets sets) hs in
    elim (Bool-cases (first == key)) [
      | inl same ↦
          let e' = rw same at e in
          let old_set : old ≡ set = cc in subst (λ x. plain_set x ≡ true) old_set here
      | inr other ↦ lookup-plain key sets set later (rw other at e)
    ]

dotted_line : (s : Text) → is_line s ≡ true → is_line (ensure_trailing_dot s) ≡ true
unfolding ensure_trailing_dot
dotted_line s h =
    let dotted = line-append s dot h (unfold lacks in unfold all in refl) in
    ground (arith, h, dotted)

found-plain :
    (r : Record) (key : Text) (sets : Map TemplateRrSet)
    → plain_record r ≡ true
    → plain_sets sets ≡ true
    → plain_set (found_or_new r (lookup key sets)) ≡ true
unfolding found_or_new new_set
found-plain r key sets h hs = elim (Option-cases (lookup key sets)) [
  | inl e ↦
      let (name, others) =
        and_split (is_line r.fqdn) (is_line r.zone && is_line (type_text r.record_type)) h in
      let dotted =
        dotted_line (trim_space r.fqdn) (unfold trim_space in line-trim is_space r.fqdn name) in
      rw (found_or_new, e, new_set) (ground (arith, dotted, others))
  | inr (set, e) ↦ rw (found_or_new, e) (lookup-plain key sets set hs e)
]

group_sets-plain :
    (rs : List Record) (sets : Map TemplateRrSet)
    → all plain_record rs ≡ true
    → plain_sets sets ≡ true
    → plain_sets (group_sets rs sets) ≡ true
unfolding group_sets all join_set
group_sets-plain [] sets h hs = hs
group_sets-plain (r ∷ rs) sets h hs =
    let (here, later) = and_split (plain_record r) (all plain_record rs) h in
    let found = found_or_new r (lookup (set_key r) sets) in
    group_sets-plain rs (insert (set_key r) (join_set r found) sets) later
      (insert-plain (set_key r) (join_set r found) sets (found-plain r (set_key r) sets here hs) hs)

finished-plain :
    (sets : Map TemplateRrSet) (keys' : List Text)
    → plain_sets sets ≡ true
    → all plain_set (finished_sets sets keys') ≡ true
unfolding finished_sets finished_set all
finished-plain sets [] hs = refl
finished-plain sets (key ∷ keys') hs = elim (Option-cases (lookup key sets)) [
  | inl e ↦ rw e (finished-plain sets keys' hs)
  | inr (set, e) ↦
      rw e (ground (arith, lookup-plain key sets set hs e, finished-plain sets keys' hs))
]

group-plain :
    (rs : List Record)
    → all plain_record rs ≡ true
    → all plain_set (group_template_records rs) ≡ true
unfolding group_template_records
group-plain rs h =
    finished-plain (group_sets rs []) (sort_texts (keys (group_sets rs [])))
      (group_sets-plain rs [] h (unfold all in refl))

-- A directive of a live zone of which every text outside of quotes is on one line.
pub record IsServed (order : List Record → List Record) (d : ZoneDirective) : Type 0 where
  pub no_raw : d.raw ≡ []
  pub named : is_empty (trim_suffix d.zone dot) ≡ false
  pub printing : all is_printing (trim_suffix d.zone dot) ≡ true
  pub file_line : is_line d.db_file ≡ true
  pub plain : all plain_record (deduplicate_and_sort order d.records) ≡ true

module _ (order : List Record → List Record) (d : ZoneDirective) (h : IsServed order d) where
  from_file : IsBody (
      codes "    file /etc/coredns/"
      ++ (d.db_file ++ (b' ' ∷ trim_suffix d.zone dot ++ b'\n' ∷ [])))
  from_file =
      file-IsBody d.db_file (trim_suffix d.zone dot) h.file_line
        (printing_line (trim_suffix d.zone dot) h.printing)

  answers-IsBody :
      (policy : UnresolvedRecordPolicy)
      → IsBody (zone_answers order policy (trim_suffix d.zone dot) d)
  unfolding zone_answers
  answers-IsBody unset = from_file
  answers-IsBody nxdomain = from_file
  answers-IsBody (other_policy text) = from_file
  answers-IsBody forward =
      append-IsBody (render_template_records order d.records)
        (codes "    forward . /etc/resolv.conf\n")
        (unfold render_template_records in
          template_stanzas-IsBody (group_template_records (deduplicate_and_sort order d.records))
            (group-plain (deduplicate_and_sort order d.records) h.plain))
        (line-IsBody (codes "   forward . /etc/resolv.conf") (unfold lacks in unfold all in refl))

  -- Such a directive is written as a stanza.
  zone_stanza-IsStanza :
      (text : Text) × (zone_stanza order d ≡ codes "\n\n" ++ text)
      × IsStanza (trim_suffix d.zone dot) text
  unfolding zone_stanza
  zone_stanza-IsStanza =
      let zone = trim_suffix d.zone dot in
      let answers = zone_answers order d.policy zone d in
      (
        stanza_text zone answers,
        rw (zone_stanza, h.no_raw) refl,
        stanza_text-IsStanza zone answers h.named h.printing (answers-IsBody d.policy),
      )

abbrev pub AllServed : (List Record → List Record) → List ZoneDirective → Type 0
AllServed order [] = Unit
AllServed order (d ∷ ds) = IsServed order d × AllServed order ds

-- The blocks of directives: under the name of each zone without its dot, what renderManagedBlock writes
-- for it behind an empty line.
unfoldable pub written_blocks : (List Record → List Record) → List ZoneDirective → Map Text
unfolding zone_stanza trim_suffix drop
written_blocks order [] = []
written_blocks order (d ∷ ds) =
    (trim_suffix d.zone dot, drop 2 (zone_stanza order d)) ∷ written_blocks order ds

module _ (order : List Record → List Record) where
  insert-AllServed :
      (d : ZoneDirective) (ds : List ZoneDirective)
      → IsServed order d
      → AllServed order ds
      → AllServed order (insert_by directive_lt d ds)
  unfolding insert_by
  insert-AllServed d [] h hs = (h, tt)
  insert-AllServed d (e ∷ ds) h (he, hs) = elim (Bool-cases (directive_lt e d)) [
    | inl before ↦ rw before (he, insert-AllServed d ds h hs)
    | inr after ↦ rw after (h, (he, hs))
  ]

  sort-AllServed :
      (ds : List ZoneDirective) → AllServed order ds → AllServed order (sort_by directive_lt ds)
  unfolding sort_by
  sort-AllServed [] hs = tt
  sort-AllServed (d ∷ ds) (h, hs) =
      insert-AllServed d (sort_by directive_lt ds) h (sort-AllServed ds hs)

  behind_gap :
      (d : ZoneDirective)
      → IsServed order d
      → (zone_stanza order d ≡ codes "\n\n" ++ drop 2 (zone_stanza order d))
        × IsStanza (trim_suffix d.zone dot) (drop 2 (zone_stanza order d))
  unfolding drop
  behind_gap d h = let (text, e, found) = zone_stanza-IsStanza order d h in rw e (refl, found)

  written-Stanzas :
      (ds : List ZoneDirective) → AllServed order ds → Stanzas order ds (written_blocks order ds)
  unfolding written_blocks
  written-Stanzas [] hs = no_stanza
  written-Stanzas (d ∷ ds) (h, hs) =
      let (e, found) = behind_gap d h in
      a_stanza d (trim_suffix d.zone dot) (drop 2 (zone_stanza order d)) ds
        (written_blocks order ds) e found (written-Stanzas ds hs)

  -- Where the managed block can be removed, the text in front of the rendered block and the block
  -- have no marker of their own, and the directives are those of live zones whose names without
  -- the dot have only characters that print and of which the files and records have no newline in
  -- the texts that are written without quotes, PatchCorefile returns a Corefile in which
  -- ExtractZoneBlocks finds exactly the stanzas that renderManagedBlock writes, each under the
  -- name of its zone, whatever the policies are.
  pub extract_zone_blocks-written_blocks :
      (corefile stripped : Text) (directives : List ZoneDirective)
      → remove_managed_block corefile ≡ ok stripped
      → IsMarked (front_of stripped) (inner_of order directives)
      → AllServed order directives
      → (patched : Text) × (patch_corefile order corefile directives ≡ ok patched)
        × (extract_zone_blocks patched
            ≡ insert_all (written_blocks order (sort_by directive_lt directives)) [])
  extract_zone_blocks-written_blocks corefile stripped directives e marked hs =
      extract_zone_blocks-patch_corefile order corefile stripped directives _ e marked
        (written-Stanzas (sort_by directive_lt directives) (sort-AllServed directives hs))
