-- ===== src/Dns/Render/Lines.antt =====
-- The lines of the records in a zone file.
use private_dns_operator.Prelude.{
  ℕ, suc, ◌+◌, ◌≡◌, refl, ap, ap₂, subst, sym, ◌∙◌, Bool, true, false, List, [], ◌∷◌, ◌++◌,
  append_assoc, Option, none, some, length, length-append, all, all-append, all-sort_by, insert_by,
  sort_by, arith, Option-cases, inl, inr, and_split,
}
use private_dns_operator.Text.{Text, codes, text_lt, sort_texts}
use private_dns_operator.Text.Split.{lacks}
use private_dns_operator.Text.Decimal.{itoa}
use private_dns_operator.Types.{DnsRecordType, a, aaaa, cname, txt, mx, srv, other, type_text}
use private_dns_operator.Dns.Record.{
  Record, ValidationError, validate_trimmed, validate_value, validate_values, validate_record,
  as_error,
}
use private_dns_operator.Dns.RecordSet.{validate_each}
use private_dns_operator.Dns.Render.{
  relative_name, render_value, record_line, value_lines, record_lines,
}
use private_dns_operator.Dns.Render.Values.{render_value-line}
use private_dns_operator.Dns.Render.Chars.{is_line, line-append, itoa-line, relative_name-line}

-- Lines with their ends.
unfoldable pub terminated : List Text → Text
terminated [] = []
terminated (l ∷ ls) = l ++ b'\n' ∷ terminated ls

pub terminated-append : (ls ks : List Text) → terminated (ls ++ ks) ≡ terminated ls ++ terminated ks
unfolding terminated
terminated-append [] ks = refl
terminated-append (l ∷ ls) ks =
    ap (λ (r : Text). l ++ b'\n' ∷ r) (terminated-append ls ks)
    ∙ sym (append_assoc l (b'\n' ∷ terminated ls) (terminated ks))

-- A text of so many lines, each with its end.
pub record IsLines (text : Text) (count : ℕ) : Type 0 where
  pub lines : List Text
  pub counted : length lines ≡ count
  pub whole : all is_line lines ≡ true
  pub shape : text ≡ terminated lines

no-IsLines : IsLines [] 0
unfolding all terminated
no-IsLines = record { lines = []; counted = refl; whole = refl; shape = refl }

IsLines-append : (s t : Text) (n k : ℕ) → IsLines s n → IsLines t k → IsLines (s ++ t) (n + k)
IsLines-append s t n k h g = record {
  lines = h.lines ++ g.lines;
  counted = length-append h.lines g.lines ∙ ap₂ (λ (x y : ℕ). x + y) h.counted g.counted;
  whole = all-append is_line h.lines g.lines ∙ ground (arith, h.whole, g.whole);
  shape = ap₂ (λ (x y : Text). x ++ y) h.shape g.shape ∙ sym (terminated-append h.lines g.lines);
}

type_line :
    (t : DnsRecordType) (given : Text)
    → validate_value t given ≡ none
    → is_line (type_text t) ≡ true
unfolding validate_value validate_trimmed type_text lacks all
type_line a given h = refl
type_line aaaa given h = refl
type_line cname given h = refl
type_line txt given h = refl
type_line mx given h = refl
type_line srv given h = refl
type_line (other name) given h = cc

-- The line of a value, without its end.
abbrev line_of : Text → Record → Text → Text
line_of name r given =
    name
    ++ (b' ' ∷ itoa r.ttl
        ++ (codes " IN " ++ (type_text r.record_type ++ b' ' ∷ render_value r.record_type given)))

line_of-line :
    (name : Text) (r : Record) (given : Text)
    → is_line name ≡ true
    → validate_value r.record_type given ≡ none
    → is_line (line_of name r given) ≡ true
unfolding lacks all
line_of-line name r given h v =
    let value = b' ' ∷ render_value r.record_type given in
    let typed = type_text r.record_type ++ value in
    line-append name (b' ' ∷ itoa r.ttl ++ (codes " IN " ++ typed)) h (
      line-append (itoa r.ttl) (codes " IN " ++ typed) (itoa-line r.ttl) (
        line-append (type_text r.record_type) value (type_line r.record_type given v)
          (render_value-line r.record_type given v)))

ends :
    (x t e ty v : Text)
    → x ++ (b' ' ∷ t ++ (e ++ (ty ++ (b' ' ∷ v ++ b'\n' ∷ []))))
      ≡ (x ++ (b' ' ∷ t ++ (e ++ (ty ++ b' ' ∷ v)))) ++ b'\n' ∷ []
ends x t e ty v =
    rw
      (
        append_assoc x (b' ' ∷ t ++ (e ++ (ty ++ b' ' ∷ v))) (b'\n' ∷ []),
        append_assoc t (e ++ (ty ++ b' ' ∷ v)) (b'\n' ∷ []),
        append_assoc e (ty ++ b' ' ∷ v) (b'\n' ∷ []),
        append_assoc ty (b' ' ∷ v) (b'\n' ∷ []),
      )
      refl

record_line-IsLines :
    (name : Text) (r : Record) (given : Text)
    → is_line name ≡ true
    → validate_value r.record_type given ≡ none
    → IsLines (record_line name r given) 1
unfolding record_line terminated all
record_line-IsLines name r given h v = record {
  lines = line_of name r given ∷ [];
  counted = refl;
  whole = ground (arith, line_of-line name r given h v);
  shape =
      ends name (itoa r.ttl) (codes " IN ") (type_text r.record_type)
        (render_value r.record_type given);
}

-- Whether validateValue accepts a value.
abbrev accepts : DnsRecordType → Text → Bool
accepts t given = elim (validate_value t given) [ none ↦ true | some e ↦ false ]

accepted :
    (t : DnsRecordType) (given : Text) → accepts t given ≡ true → validate_value t given ≡ none
accepted t given h = elim (Option-cases (validate_value t given)) [
  | inl e ↦ e
  | inr (x, e) ↦
      let refused = ap (λ (o : Option Text). elim o [ none ↦ true | some e ↦ false ]) e in cc
]

value_lines-IsLines :
    (name : Text) (r : Record) (values : List Text)
    → is_line name ≡ true
    → all (accepts r.record_type) values ≡ true
    → IsLines (value_lines name r values) (length values)
unfolding value_lines all
value_lines-IsLines name r [] h v = no-IsLines
value_lines-IsLines name r (given ∷ values) h v =
    let (first, rest) =
      and_split (accepts r.record_type given) (all (accepts r.record_type) values) v in
    subst (IsLines (record_line name r given ++ value_lines name r values)) (omega arith) (
      IsLines-append (record_line name r given) (value_lines name r values) 1 (length values)
        (record_line-IsLines name r given h (accepted r.record_type given first))
        (value_lines-IsLines name r values h rest))

length-insert_by : (x : Text) (xs : List Text) → length (insert_by text_lt x xs) ≡ suc (length xs)
unfolding insert_by
length-insert_by x [] = refl
length-insert_by x (y ∷ ys) = ground (arith, length-insert_by x ys)

length-sort_texts : (xs : List Text) → length (sort_texts xs) ≡ length xs
unfolding sort_texts sort_by
length-sort_texts [] = refl
length-sort_texts (x ∷ xs) = length-insert_by x (sort_by text_lt xs) ∙ ap suc (length-sort_texts xs)

no_error :
    (r : Record) (o : Option Text) (es : List ValidationError)
    → as_error r o ++ es ≡ []
    → (o ≡ none) × (es ≡ [])
unfolding as_error
no_error r none es h = (refl, h)
no_error r (some e) es h = cc

none_both : (es fs : List ValidationError) → es ++ fs ≡ [] → (es ≡ []) × (fs ≡ [])
none_both [] fs h = (refl, h)
none_both (e ∷ es) fs h = cc

valid_values :
    (r : Record) (values : List Text)
    → validate_values r values ≡ []
    → all (accepts r.record_type) values ≡ true
unfolding validate_values all
valid_values r [] h = refl
valid_values r (given ∷ values) h =
    let (valid, rest) = no_error r (validate_value r.record_type given) _ h in
    let here : accepts r.record_type given ≡ true =
      ap (λ (o : Option Text). elim o [ none ↦ true | some e ↦ false ]) valid in
    ground (arith, here, valid_values r values rest)

valid_record : (r : Record) → validate_record r ≡ [] → all (accepts r.record_type) r.values ≡ true
unfolding validate_record
valid_record r h =
    let (ttl, others) = no_error r _ _ h in
    let (some_value, values) = no_error r _ _ others in valid_values r r.values values

-- The values of all records.
unfoldable pub value_count : List Record → ℕ
value_count [] = 0
value_count (r ∷ rs) = length r.values + value_count rs

-- The records in which ValidateRecord finds no error have in a zone file, below any origin, one
-- line for each of their values, where their full names are on one line: no value and no other
-- field can add a line or break one.
pub record_lines-IsLines :
    (zone : Text) (rs : List Record)
    → validate_each rs ≡ []
    → all (λ r. is_line r.fqdn) rs ≡ true
    → IsLines (record_lines zone rs) (value_count rs)
unfolding record_lines value_count validate_each all sort_texts
record_lines-IsLines zone [] h names = no-IsLines
record_lines-IsLines zone (r ∷ rs) h names =
    let (valid, rest) = none_both (validate_record r) (validate_each rs) h in
    let (name, later) = and_split (is_line r.fqdn) (all (λ x. is_line x.fqdn) rs) names in
    let relative = relative_name r.fqdn zone in
    IsLines-append (value_lines relative r (sort_texts r.values)) (record_lines zone rs)
      (length r.values) (value_count rs)
      (subst (IsLines (value_lines relative r (sort_texts r.values))) (length-sort_texts r.values) (
        value_lines-IsLines relative r (sort_texts r.values) (relative_name-line r.fqdn zone name)
          (all-sort_by (accepts r.record_type) text_lt r.values ∙ valid_record r valid)))
      (record_lines-IsLines zone rs rest later)
