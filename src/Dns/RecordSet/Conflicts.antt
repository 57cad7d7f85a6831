-- ===== src/Dns/RecordSet/Conflicts.antt =====
-- What the verdict on one name means, said without the loop that computes it.
use private_dns_operator.Prelude.{
  ◌≡◌, ◌↔◌, refl, ap, sym, ◌∙◌, Bool, true, false, not, ◌&&◌, ◌||◌, List, [], ◌∷◌, ◌++◌, map, arith,
  any, all, keep, if◌then◌else◌, is_empty, length, ltb,
}
use private_dns_operator.Text.{Text}
use private_dns_operator.Text.Eq.{eq_iff, eq_refl}
use private_dns_operator.Text.Set.{contains, contains-append}
use private_dns_operator.Types.{DnsRecordType, a, aaaa, cname, txt, mx, srv, other}
use private_dns_operator.Dns.Domain.{normalize_domain}
use private_dns_operator.Dns.Record.{Record, ValidationError}
use private_dns_operator.Dns.RecordSet.{
  is_cname, add_targets, tally_record, tally, no_tally, Tally, conflict, validate_record_set,
}
use private_dns_operator.Dns.RecordSet.Groups.{
  stands_at, records_at, is_some, fqdns, contains-validate_record_set,
}

-- A CNAME record is an alias, a record of any other type is not.
unfoldable pub is_alias_type : DnsRecordType → Bool
is_alias_type a = false
is_alias_type aaaa = false
is_alias_type cname = true
is_alias_type txt = false
is_alias_type mx = false
is_alias_type srv = false
is_alias_type (other name) = false

abbrev pub is_alias : Record → Bool
is_alias r = is_alias_type r.record_type

-- The targets of the aliases among the records, in their canonical form.
unfoldable pub alias_targets : List Record → List Text
alias_targets [] = []
alias_targets (r ∷ rs) =
    let rest = alias_targets rs in
    if is_alias r then map normalize_domain r.values ++ rest else rest

-- Records that may share a name: where one of them is an alias, all of them are, and there are not two
-- targets.
pub record IsCompatible (rs : List Record) : Type 0 where
  pub alone : any is_alias rs ≡ true → all is_alias rs ≡ true
  pub one_target :
      (t u : Text)
      → contains (alias_targets rs) t ≡ true
      → contains (alias_targets rs) u ≡ true
      → t ≡ u

-- Every record has a value.
abbrev pub all_filled : List Record → Bool
all_filled rs = all (λ r. not (is_empty r.values)) rs

is_cname_lem : (t : DnsRecordType) → is_cname t ≡ is_alias_type t
unfolding is_cname is_alias_type
is_cname_lem a = refl
is_cname_lem aaaa = refl
is_cname_lem cname = refl
is_cname_lem txt = refl
is_cname_lem mx = refl
is_cname_lem srv = refl
is_cname_lem (other name) = refl

contains-add_targets :
    (vs targets : List Text) (t : Text)
    → contains (add_targets vs targets) t
      ≡ (contains (map normalize_domain vs) t || contains targets t)
unfolding add_targets contains
contains-add_targets [] targets t = refl
contains-add_targets (v ∷ vs) targets t =
    rw
      (contains-add_targets vs
        (if contains targets (normalize_domain v) then targets else normalize_domain v ∷ targets) t)
      (ground (
        arith,
        eq_iff (normalize_domain v) t,
        λ (e : normalize_domain v ≡ t). ap (contains targets) e,
      ))

others : (p q r : Bool) → ((p || not q) || not r) ≡ (p || not (q && r))
others p q r = ground arith

contains-tally_record :
    (r : Record) (rs : List Record) (t : Tally) (x : Text)
    → (contains (tally_record r t).targets x || contains (alias_targets rs) x)
      ≡ (contains t.targets x || contains (alias_targets (r ∷ rs)) x)
unfolding tally_record alias_targets
contains-tally_record r rs t x = ground (
  arith,
  is_cname_lem r.record_type,
  contains-add_targets r.values t.targets x,
  contains-append (map normalize_domain r.values) (alias_targets rs) x,
)

contains-tally :
    (rs : List Record) (t : Tally) (x : Text)
    → contains (tally rs t).targets x ≡ (contains t.targets x || contains (alias_targets rs) x)
unfolding tally alias_targets contains
contains-tally [] t x = ground arith
contains-tally (r ∷ rs) t x =
    contains-tally rs (tally_record r t) x ∙ contains-tally_record r rs t x

counts_other :
    (r : Record) (t : Tally)
    → ltb 0 (tally_record r t).other_types ≡ (ltb 0 t.other_types || not (is_alias r))
unfolding tally_record
counts_other r t = ground (arith, is_cname_lem r.record_type)

other_types-tally :
    (rs : List Record) (t : Tally)
    → ltb 0 (tally rs t).other_types ≡ (ltb 0 t.other_types || not (all is_alias rs))
unfolding tally all
other_types-tally [] t = ground arith
other_types-tally (r ∷ rs) t =
    other_types-tally rs (tally_record r t)
    ∙ rw (counts_other r t) (others (ltb 0 t.other_types) (is_alias r) (all is_alias rs))

-- A list without repetitions.
unfoldable has_no_repeats : List Text → Bool
has_no_repeats [] = true
has_no_repeats (t ∷ ts) = not (contains ts t) && has_no_repeats ts

no_repeats-add_targets :
    (vs targets : List Text)
    → has_no_repeats targets ≡ true
    → has_no_repeats (add_targets vs targets) ≡ true
unfolding add_targets has_no_repeats
no_repeats-add_targets [] targets h = h
no_repeats-add_targets (v ∷ vs) targets h =
    no_repeats-add_targets vs
      (if contains targets (normalize_domain v) then targets else normalize_domain v ∷ targets)
      (ground arith)

no_repeats-tally :
    (rs : List Record) (t : Tally)
    → has_no_repeats t.targets ≡ true
    → has_no_repeats (tally rs t).targets ≡ true
unfolding tally tally_record
no_repeats-tally [] t h = h
no_repeats-tally (r ∷ rs) t h =
    no_repeats-tally rs (tally_record r t)
      (ground (arith, no_repeats-add_targets r.values t.targets h))

-- Two equal members at the front are a repetition.
single :
    (ts : List Text)
    → has_no_repeats ts ≡ true
    → ((t u : Text) → contains ts t ≡ true → contains ts u ≡ true → u ≡ t)
    → ltb 1 (length ts) ≡ false
unfolding has_no_repeats contains
single [] h same = refl
single (t ∷ []) h same = refl
single (t ∷ u ∷ ts) h same =
    ground (arith, same t u (ground (arith, eq_refl t)) (ground (arith, eq_refl u)), eq_iff u t)

same_target :
    (ts : List Text)
    → ltb 1 (length ts) ≡ false
    → (t u : Text) → contains ts t ≡ true
    → contains ts u ≡ true
    → u ≡ t
unfolding contains
same_target [] h t u ht hu = cc
same_target (x ∷ []) h t u ht hu =
    sym ((eq_iff x u).0 (ground arith)) ∙ (eq_iff x t).0 (ground arith)
same_target (x ∷ y ∷ ts) h t u ht hu = ground arith

abbrev targets_of : List Record → List Text
targets_of rs = (tally rs no_tally).targets

contains-targets_of :
    (rs : List Record) (t : Text) → contains (targets_of rs) t ≡ contains (alias_targets rs) t
unfolding contains
contains-targets_of rs t = contains-tally rs no_tally t

no_repeats-targets_of : (rs : List Record) → has_no_repeats (targets_of rs) ≡ true
unfolding has_no_repeats
no_repeats-targets_of rs = no_repeats-tally rs no_tally refl

others_of : (rs : List Record) → ltb 0 (tally rs no_tally).other_types ≡ not (all is_alias rs)
others_of rs = other_types-tally rs no_tally

-- The verdict, from the targets and the number of the other records alone.
no_conflict_iff :
    (t : Tally)
    → (is_some (conflict t) ≡ false) ↔ (
        is_empty t.targets ≡ false
        → (ltb 0 t.other_types ≡ false) × (ltb 1 (length t.targets) ≡ false))
unfolding conflict
no_conflict_iff t = (λ h n. ground arith, λ h. ground (arith, h))

nonempty : (ts : List Text) (t : Text) → contains ts t ≡ true → is_empty ts ≡ false
unfolding contains
nonempty [] t h = cc
nonempty (x ∷ ts) t h = refl

first : (ts : List Text) → is_empty ts ≡ false → (t : Text) × (contains ts t ≡ true)
unfolding contains
first [] h = cc
first (x ∷ ts) h = (x, ground (arith, eq_refl x))

-- A target comes from an alias, and an alias with a value gives a target.
alias_of :
    (rs : List Record) (t : Text) → contains (alias_targets rs) t ≡ true → any is_alias rs ≡ true
unfolding alias_targets any contains
alias_of [] t h = cc
alias_of (r ∷ rs) t h = ground (arith, alias_of rs t)

some_target :
    (rs : List Record)
    → all_filled rs ≡ true
    → any is_alias rs ≡ true
    → is_empty (alias_targets rs) ≡ false
unfolding alias_targets any all
some_target [] h k = cc
some_target (r ∷ rs) h k = ground (arith, some_target rs, filled_append r.values (alias_targets rs))
  where
    filled_append :
        (vs rest : List Text)
        → is_empty vs ≡ false
        → is_empty (map normalize_domain vs ++ rest) ≡ false
    filled_append [] rest e = cc
    filled_append (v ∷ vs) rest e = refl

module _ (rs : List Record) where
  verdict-IsCompatible :
      all_filled rs ≡ true → is_some (conflict (tally rs no_tally)) ≡ false → IsCompatible rs
  verdict-IsCompatible filled h =
      let no_two = λ (t : Text) (m : contains (alias_targets rs) t ≡ true).
        (no_conflict_iff (tally rs no_tally)).0 h
          (nonempty (targets_of rs) t (contains-targets_of rs t ∙ m)) in
      record {
        alone = λ k.
            let (t, m) = first (alias_targets rs) (some_target rs filled k) in
            let others_found = sym (others_of rs) ∙ (no_two t m).0 in ground arith;
        one_target = λ t u mt mu.
            same_target (targets_of rs) (no_two t mt).1 u t (contains-targets_of rs u ∙ mu)
              (contains-targets_of rs t ∙ mt);
      }

  verdict_of : IsCompatible rs → is_some (conflict (tally rs no_tally)) ≡ false
  verdict_of h = (no_conflict_iff (tally rs no_tally)).1 (λ target.
      let (t, m) = first (targets_of rs) target in
      let member = λ (u : Text). sym (contains-targets_of rs u) in
      let all_aliases = h.alone (alias_of rs t (member t ∙ m)) in
      (
        others_of rs ∙ ap not all_aliases,
        single (targets_of rs) (no_repeats-targets_of rs)
            (λ v u mv mu. h.one_target u v (member u ∙ mu) (member v ∙ mv)),
      ))

no_member : (f : Text) → contains [] f ≡ false
unfolding contains
no_member f = refl

pub no_errors : (es : List ValidationError) → ((f : Text) → contains (fqdns es) f ≡ false) → es ≡ []
unfolding contains
no_errors [] h = refl
no_errors (e ∷ es) h = absurd (ground (arith, h e.fqdn, eq_refl e.fqdn))

all_filled-keep :
    (p : Record → Bool) (rs : List Record) → all_filled rs ≡ true → all_filled (keep p rs) ≡ true
unfolding all keep
all_filled-keep p [] h = refl
all_filled-keep p (r ∷ rs) h = ground (arith, all_filled-keep p rs)

-- Of records that have a value each, as ValidateRecord demands, ValidateRecordSet finds no error
-- exactly where, at every name, a CNAME stands beside no record of another type and all CNAMEs
-- agree on one target, up to the canonical form of the targets.
pub validate_record_set-iff_IsCompatible :
    (rs : List Record)
    → all_filled rs ≡ true
    → (validate_record_set rs ≡ []) ↔ ((f : Text) → IsCompatible (records_at f rs))
validate_record_set-iff_IsCompatible rs filled = (
  λ none_found f. verdict-IsCompatible (records_at f rs) (all_filled-keep (stands_at f) rs filled) (
      sym (contains-validate_record_set rs f)
      ∙ ap (λ es. contains (fqdns es) f) none_found
      ∙ no_member f),
  λ h.
      no_errors (validate_record_set rs)
        (λ f. contains-validate_record_set rs f ∙ verdict_of (records_at f rs) (h f)),
)
