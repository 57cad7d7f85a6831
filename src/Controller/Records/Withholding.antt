-- ===== src/Controller/Records/Withholding.antt =====
-- What `recordsForZone` keeps of the admitted records.
use private_dns_operator.Prelude.{
  ◌≡◌, refl, ap, sym, ◌∙◌, Bool, true, false, not, ◌||◌, List, [], ◌∷◌, ◌++◌, if◌then◌else◌, Option,
  none, some, arith, keep, append_assoc, append-nil,
}
use private_dns_operator.Text.{Text}
use private_dns_operator.Text.Eq.{eq_iff}
use private_dns_operator.Text.Set.{contains}
use private_dns_operator.Text.Map.{Map, lookup, has, insert, has-insert}
use private_dns_operator.Types.{PrivateDnsZone, PrivateDnsRecord}
use private_dns_operator.Dns.Record.{Record, ValidationError}
use private_dns_operator.Dns.RecordSet.{validate_record_set, conflict, tally, no_tally}
use private_dns_operator.Dns.RecordSet.Groups.{
  records_at, conflict_at, is_some, fqdns, contains-validate_record_set,
}
use private_dns_operator.Dns.RecordSet.Conflicts.{no_errors}
use private_dns_operator.Controller.Records.{
  Problem, RecordOutcome, Compiled, inline_records, external_records, conflict_map, exclude,
  withhold_step, withhold, settle, records_for_zone,
}

has-conflict_map :
    (es : List ValidationError) (m : Map Text) (f : Text)
    → has f (conflict_map es m) ≡ (has f m || contains (fqdns es) f)
unfolding conflict_map contains
has-conflict_map [] m f = ground arith
has-conflict_map (e ∷ es) m f =
    ground
      (arith, has-conflict_map es (insert e.fqdn e.message m) f, has-insert e.fqdn f e.message m)

-- A record at a name that is not in the map.
abbrev is_free : Map Text → Record → Bool
is_free conflicts r = not (has r.fqdn conflicts)

exclude_kept : (r : Record) (text : Text) (c : Compiled) → (exclude r text c).kept ≡ c.kept
unfolding exclude
exclude_kept r text c = ground arith

step_kept :
    (r : Record) (o : Option Text) (c : Compiled) (rest : List Record)
    → (withhold_step r o c).kept ++ rest ≡ c.kept ++ (if not (is_some o) then r ∷ rest else rest)
unfolding withhold_step
step_kept r none c rest = append_assoc c.kept (r ∷ []) rest
step_kept r (some text) c rest = ap (λ (k : List Record). k ++ rest) (exclude_kept r text c)

withhold_kept :
    (conflicts : Map Text) (rs : List Record) (c : Compiled)
    → (withhold conflicts rs c).kept ≡ c.kept ++ keep (is_free conflicts) rs
unfolding withhold keep has
withhold_kept conflicts [] c = sym (append-nil c.kept)
withhold_kept conflicts (r ∷ rs) c =
    withhold_kept conflicts rs (withhold_step r (lookup r.fqdn conflicts) c)
    ∙ step_kept r (lookup r.fqdn conflicts) c (keep (is_free conflicts) rs)

keep-all_free : (rs : List Record) → keep (is_free []) rs ≡ rs
unfolding keep has lookup
keep-all_free [] = refl
keep-all_free (r ∷ rs) = ap (λ (k : List Record). r ∷ k) (keep-all_free rs)

settle_kept :
    (conflicts : Map Text) (rs : List Record) (blocking : List Problem)
    (outcomes : Map RecordOutcome)
    → (settle conflicts rs blocking outcomes).kept ≡ keep (is_free conflicts) rs
unfolding settle
settle_kept [] rs blocking outcomes = sym (keep-all_free rs)
settle_kept (x ∷ xs) rs blocking outcomes =
    withhold_kept (x ∷ xs) rs
      (record { kept = []; excluded = []; blocking = blocking; outcomes = outcomes })

-- The records at names without a conflict.
abbrev pub peaceful : List Record → List Record
peaceful rs = keep (λ r. not (is_some (conflict_at rs r.fqdn))) rs

keep-keep_at :
    (p : Text → Bool) (rs : List Record) (f : Text)
    → records_at f (keep (λ r. p r.fqdn) rs) ≡ (if p f then records_at f rs else [])
unfolding keep
keep-keep_at p [] f = ground arith
keep-keep_at p (r ∷ rs) f =
    ground (arith, keep-keep_at p rs f, eq_iff r.fqdn f, λ (e : r.fqdn ≡ f). ap p e)

keep-same :
    (p q : Record → Bool) (rs : List Record) → ((r : Record) → p r ≡ q r) → keep p rs ≡ keep q rs
unfolding keep
keep-same p q [] h = refl
keep-same p q (r ∷ rs) h = ground (arith, h r, keep-same p q rs h)

-- What is left at a name after the conflicts are taken out.
peaceful_at :
    (rs : List Record) (f : Text)
    → records_at f (peaceful rs)
      ≡ (if not (is_some (conflict_at rs f)) then records_at f rs else [])
peaceful_at rs f = keep-keep_at (λ g. not (is_some (conflict_at rs g))) rs f

-- The verdict on a list of records.
abbrev verdict_on : List Record → Bool
verdict_on rs = is_some (conflict (tally rs no_tally))

no_verdict : verdict_on [] ≡ false
unfolding tally conflict
no_verdict = refl

chosen_verdict :
    (b : Bool) (rs : List Record)
    → verdict_on rs ≡ b
    → verdict_on (if not b then rs else []) ≡ false
chosen_verdict true rs h = no_verdict
chosen_verdict false rs h = h

validate_record_set-peaceful : (rs : List Record) → validate_record_set (peaceful rs) ≡ []
validate_record_set-peaceful rs = no_errors (validate_record_set (peaceful rs)) λ f.
    contains-validate_record_set (peaceful rs) f
    ∙ ap verdict_on (peaceful_at rs f)
    ∙ chosen_verdict (is_some (conflict_at rs f)) (records_at f rs) refl

conflict_known :
    (rs : List Record) (f : Text)
    → has f (conflict_map (validate_record_set rs) []) ≡ is_some (conflict_at rs f)
unfolding has lookup
conflict_known rs f =
    has-conflict_map (validate_record_set rs) [] f ∙ contains-validate_record_set rs f

settled :
    (rs : List Record) (blocking : List Problem) (outcomes : Map RecordOutcome)
    → (settle (conflict_map (validate_record_set rs) []) rs blocking outcomes).kept ≡ peaceful rs
settled rs blocking outcomes =
    settle_kept (conflict_map (validate_record_set rs) []) rs blocking outcomes
    ∙ keep-same _ _ rs (λ r. ap not (conflict_known rs r.fqdn))

-- The records that are admitted to a zone, before conflicts are looked for.
abbrev pub admitted :
    PrivateDnsZone → Text → List PrivateDnsRecord → Map RecordOutcome → List Record
admitted zone n external outcomes =
    (inline_records zone n zone.spec.records).0 ++ (external_records zone n external outcomes).0

-- recordsForZone keeps of the admitted records exactly those at names where they do not conflict,
-- in their order, and ValidateRecordSet finds no error in what it keeps.
pub records_for_zone-peaceful :
    (zone : PrivateDnsZone) (n : Text) (external : List PrivateDnsRecord)
    (outcomes : Map RecordOutcome)
    → ((records_for_zone zone n external outcomes).kept
        ≡ peaceful (admitted zone n external outcomes))
      × (validate_record_set (records_for_zone zone n external outcomes).kept ≡ [])
unfolding records_for_zone
records_for_zone-peaceful zone n external outcomes =
    let rs = admitted zone n external outcomes in
    let kept =
      settled rs (inline_records zone n zone.spec.records).1
        (external_records zone n external outcomes).1 in
    (kept, ap validate_record_set kept ∙ validate_record_set-peaceful rs)
