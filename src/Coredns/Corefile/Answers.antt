-- ===== src/Coredns/Corefile/Answers.antt =====
-- The stanzas that `renderManagedBlock` of internal/coredns/corefile.go writes for live zones.
use private_dns_operator.Prelude.{
  subst, ◌≡◌, refl, ap, ap₂, sym, ◌∙◌, Bool, true, false, not, ◌&&◌, List, [], ◌∷◌, ◌++◌, some,
  is_empty, all, all-append, and_split, arith, append_assoc,
}
use private_dns_operator.Text.{Text, ◌==◌, codes}
use private_dns_operator.Text.Quote.{quote}
use private_dns_operator.Text.Decimal.{itoa}
use private_dns_operator.Text.Split.{lacks, join}
use private_dns_operator.Text.Trim.{trim_suffix}
use private_dns_operator.Text.Trim.Laws.{has_suffix-append}
use private_dns_operator.Types.{type_text}
use private_dns_operator.Dns.Domain.{dot}
use private_dns_operator.Dns.Render.Chars.{
  is_line, line-append, line-cons, quote-line, trim_suffix-line,
}
use private_dns_operator.Dns.Render.Lines.{terminated, terminated-append}
use private_dns_operator.Dns.Render.Relative.{trim_suffix-append}
use private_dns_operator.Coredns.Templates.{
  TemplateRrSet, template_value, answer_line, answer_lines, quote_meta, template_stanza,
  template_stanzas,
}
use private_dns_operator.Coredns.Corefile.{is_printing, stanza_zone}
use private_dns_operator.Coredns.Corefile.Stanzas.{closing, unclosed, lines_closed, IsStanza}

-- Lines with their ends, none of which closes a stanza.
pub record IsBody (text : Text) : Type 0 where
  lines : List Text
  shape : text ≡ terminated lines
  whole : all is_line lines ≡ true
  stays_open : unclosed lines ≡ true

no-IsBody : IsBody []
unfolding all terminated
no-IsBody = record { lines = []; shape = refl; whole = refl; stays_open = refl }

pub append-IsBody : (s t : Text) → IsBody s → IsBody t → IsBody (s ++ t)
append-IsBody s t h g = record {
  lines = h.lines ++ g.lines;
  shape = ap₂ (λ (x y : Text). x ++ y) h.shape g.shape ∙ sym (terminated-append h.lines g.lines);
  whole = all-append is_line h.lines g.lines ∙ ground (arith, h.whole, g.whole);
  stays_open =
      all-append (λ line. not (line == closing)) h.lines g.lines
      ∙ ground (arith, h.stays_open, g.stays_open);
}

-- an indented line
pub line-IsBody : (s : Text) → is_line s ≡ true → IsBody (b' ' ∷ s ++ b'\n' ∷ [])
unfolding all terminated ◌==◌
line-IsBody s h = record {
  lines = (b' ' ∷ s) ∷ [];
  shape = refl;
  whole = ground (arith, line-cons b' ' s refl h);
  stays_open = refl;
}

join-terminated :
    (header : Text) (body : List Text) (last : Text)
    → join (header ∷ (body ++ last ∷ [])) b'\n' ≡ header ++ b'\n' ∷ (terminated body ++ last)
unfolding join terminated
join-terminated header [] last = refl
join-terminated header (line ∷ body) last =
    rw (join-terminated line body last, append_assoc line (b'\n' ∷ terminated body) last) refl

pub printing_line : (s : Text) → all is_printing s ≡ true → is_line s ≡ true
unfolding all lacks is_printing
printing_line [] h = refl
printing_line (c ∷ s) h = ground (arith, printing_line s)

header_zone :
    (zone : Text)
    → is_empty zone ≡ false
    → all is_printing zone ≡ true
    → stanza_zone (zone ++ codes ":53 {") ≡ some zone
unfolding stanza_zone
header_zone zone filled h =
    rw
      (
        has_suffix-append zone (codes ":53 {"),
        trim_suffix-append zone (codes ":53 {") refl,
        filled,
        h,
      )
      refl

head_lines :
    (line : Text) (lines : List Text)
    → is_line line ≡ true
    → all is_line lines ≡ true
    → all is_line (line ∷ lines) ≡ true
unfolding all
head_lines line lines h k = ground (arith, h, k)

-- the text of a stanza around its answers
abbrev pub stanza_text : Text → Text → Text
stanza_text zone answers =
    zone ++ (codes ":53 {\n    errors\n" ++ (answers ++ codes "    cache 30\n}"))

pub stanza_text-IsStanza :
    (zone answers : Text)
    → is_empty zone ≡ false
    → all is_printing zone ≡ true
    → IsBody answers
    → IsStanza zone (stanza_text zone answers)
stanza_text-IsStanza zone answers filled h b =
    let errors = line-IsBody (codes "   errors") (unfold lacks in unfold all in refl) in
    let cached = line-IsBody (codes "   cache 30") (unfold lacks in unfold all in refl) in
    let inner =
      append-IsBody (codes "    errors\n") (answers ++ codes "    cache 30\n") errors
        (append-IsBody answers (codes "    cache 30\n") b cached) in
    let opened : is_line (zone ++ codes ":53 {") ≡ true =
      line-append zone (codes ":53 {") (printing_line zone h)
        (unfold lacks in unfold all in refl) in
    record {
      header = zone ++ codes ":53 {";
      body = inner.lines;
      shape = sym (
          join-terminated (zone ++ codes ":53 {") inner.lines closing
          ∙ ap (λ (s : Text). (zone ++ codes ":53 {") ++ b'\n' ∷ (s ++ closing)) (sym inner.shape)
          ∙ append_assoc zone (codes ":53 {") _
          ∙ ap (λ (s : Text). zone ++ (codes ":53 {\n    errors\n" ++ s))
              (append_assoc answers (codes "    cache 30\n") closing));
      opens = header_zone zone filled h;
      stays_open = inner.stays_open;
      by_lines =
          lines_closed (zone ++ codes ":53 {") inner.lines
            (head_lines _ inner.lines opened inner.whole);
    }

-- The answers of a zone that is served from its file.
pub file-IsBody :
    (db_file zone : Text)
    → is_line db_file ≡ true
    → is_line zone ≡ true
    → IsBody (codes "    file /etc/coredns/" ++ (db_file ++ (b' ' ∷ zone ++ b'\n' ∷ [])))
file-IsBody db_file zone h k =
    let line = codes "   file /etc/coredns/" ++ (db_file ++ b' ' ∷ zone) in
    let on_line : is_line line ≡ true =
      line-append (codes "   file /etc/coredns/") (db_file ++ b' ' ∷ zone)
        (unfold lacks in unfold all in refl)
        (line-append db_file (b' ' ∷ zone) h (line-cons b' ' zone refl k)) in
    subst IsBody
      (ap (λ (s : Text). codes "    file /etc/coredns/" ++ s)
        (append_assoc db_file (b' ' ∷ zone) (codes "\n")))
      (line-IsBody line on_line)

-- What a set gives to its stanza is on one line each.
abbrev pub plain_set : TemplateRrSet → Bool
plain_set set = is_line set.fqdn && (is_line set.zone && is_line (type_text set.record_type))

answer_line-IsBody : (set : TemplateRrSet) (value : Text) → IsBody (answer_line set value)
unfolding answer_line
answer_line-IsBody set value =
    let answer =
      codes "{{ .Name }} "
      ++ (itoa set.ttl
          ++ (codes " IN "
              ++ (type_text set.record_type ++ b' ' ∷ template_value set.record_type value))) in
    subst IsBody (ap (λ (s : Text). codes "        answer " ++ s) refl) (
      line-IsBody (codes "       answer " ++ quote answer) (
        line-append (codes "       answer ") (quote answer) (unfold lacks in unfold all in refl)
          (quote-line answer)))

answer_lines-IsBody : (set : TemplateRrSet) (values : List Text) → IsBody (answer_lines set values)
unfolding answer_lines
answer_lines-IsBody set [] = no-IsBody
answer_lines-IsBody set (value ∷ values) =
    append-IsBody (answer_line set value) (answer_lines set values) (answer_line-IsBody set value)
      (answer_lines-IsBody set values)

quote_meta-line : (s : Text) → is_line s ≡ true → is_line (quote_meta s) ≡ true
unfolding quote_meta lacks all
quote_meta-line [] h = refl
quote_meta-line (c ∷ s) h = ground (arith, quote_meta-line s)

match_lines :
    (fqdn answers : Text)
    → is_line fqdn ≡ true
    → IsBody answers
    → IsBody (
        codes "        match ^"
        ++ (quote_meta fqdn ++ (codes "$\n" ++ (answers ++ codes "        fallthrough\n    }\n"))))
match_lines fqdn answers h b =
    let quoted = quote_meta fqdn in
    let line = codes "       match ^" ++ (quoted ++ codes "$") in
    let on_line : is_line line ≡ true =
      line-append (codes "       match ^") (quoted ++ codes "$")
        (unfold lacks in unfold all in refl)
        (line-append quoted (codes "$") (quote_meta-line fqdn h)
          (unfold lacks in unfold all in refl)) in
    let ending =
      append-IsBody (codes "        fallthrough\n") (codes "    }\n")
        (line-IsBody (codes "       fallthrough") (unfold lacks in unfold all in refl))
        (line-IsBody (codes "   }") (unfold lacks in unfold all in refl)) in
    let whole =
      append-IsBody (b' ' ∷ line ++ codes "\n") (answers ++ codes "        fallthrough\n    }\n")
        (line-IsBody line on_line)
        (append-IsBody answers (codes "        fallthrough\n    }\n") b ending) in
    subst IsBody
      (ap (λ (s : Text). codes "        match ^" ++ s)
        (ap (λ (s : Text). s ++ (answers ++ codes "        fallthrough\n    }\n"))
            (append_assoc quoted (codes "$") (codes "\n"))
          ∙ append_assoc quoted (codes "$\n") (answers ++ codes "        fallthrough\n    }\n")))
      whole

template_stanza-IsBody : (set : TemplateRrSet) → plain_set set ≡ true → IsBody (template_stanza set)
unfolding template_stanza
template_stanza-IsBody set h =
    let (named_, rest) =
      and_split (is_line set.fqdn) (is_line set.zone && is_line (type_text set.record_type)) h in
    let (zoned, typed) = and_split (is_line set.zone) (is_line (type_text set.record_type)) rest in
    let kind = type_text set.record_type in
    let zone = trim_suffix set.zone dot in
    let line = codes "   template IN " ++ (kind ++ (b' ' ∷ zone ++ codes " {")) in
    let on_line : is_line line ≡ true =
      line-append (codes "   template IN ") (kind ++ (b' ' ∷ zone ++ codes " {"))
        (unfold lacks in unfold all in refl)
        (line-append kind (b' ' ∷ zone ++ codes " {") typed (
          line-cons b' ' (zone ++ codes " {") refl (
            line-append zone (codes " {") (trim_suffix-line set.zone dot zoned)
              (unfold lacks in unfold all in refl)))) in
    let inner =
      codes "        match ^"
      ++ (quote_meta set.fqdn
          ++ (codes "$\n"
              ++ (answer_lines set set.values ++ codes "        fallthrough\n    }\n"))) in
    let below : IsBody inner =
      match_lines set.fqdn (answer_lines set set.values) named_
        (answer_lines-IsBody set set.values) in
    let whole = append-IsBody (b' ' ∷ line ++ codes "\n") inner (line-IsBody line on_line) below in
    subst IsBody (in_line (codes "    template IN ") kind zone (codes " {") (codes "\n") inner)
      whole
  where
    in_line :
        (c k z e n x : Text)
        → ((c ++ (k ++ (b' ' ∷ z ++ e))) ++ n) ++ x ≡ c ++ (k ++ (b' ' ∷ z ++ (e ++ (n ++ x))))
    in_line c k z e n x =
        rw
          (
            append_assoc (c ++ (k ++ (b' ' ∷ z ++ e))) n x,
            append_assoc c (k ++ (b' ' ∷ z ++ e)) (n ++ x),
            append_assoc k (b' ' ∷ z ++ e) (n ++ x),
            append_assoc z e (n ++ x),
          )
          refl

pub template_stanzas-IsBody :
    (sets : List TemplateRrSet) → all plain_set sets ≡ true → IsBody (template_stanzas sets)
unfolding template_stanzas all
template_stanzas-IsBody [] h = no-IsBody
template_stanzas-IsBody (set ∷ sets) h =
    let (here, rest) = and_split (plain_set set) (all plain_set sets) h in
    append-IsBody (template_stanza set) (template_stanzas sets) (template_stanza-IsBody set here)
      (template_stanzas-IsBody sets rest)
