-- ===== src/Dns/RecordSet/Groups.antt =====
-- ValidateRecordSet without its map and its sorting: one verdict for each name.
use private_dns_operator.Prelude.{
  ◌≡◌, refl, ap, sym, ◌∙◌, Bool, true, false, ◌&&◌, ◌||◌, List, [], ◌∷◌, ◌++◌, map, Option, none,
  some, arith, keep, any, append_assoc, append-nil, Bool-cases, inl, inr, if◌then◌else◌,
}
use private_dns_operator.Text.{Text, ◌==◌, text_lt, sort_texts}
use private_dns_operator.Text.Eq.{eq_iff}
use private_dns_operator.Text.Set.{contains, contains-sort_by}
use private_dns_operator.Text.Map.{
  Map, lookup, insert, has, keys, lookup-insert, has-insert, contains-keys,
}
use private_dns_operator.Dns.Record.{Record, ValidationError}
use private_dns_operator.Dns.RecordSet.{
  or_empty, group_by_fqdn, tally, no_tally, conflict, set_error, set_errors, validate_record_set,
  Tally, source_or_empty,
}

-- The test that a record stands at a name.
abbrev pub stands_at : Text → Record → Bool
stands_at f r = r.fqdn == f

-- The records of one name, in their order.
abbrev pub records_at : Text → List Record → List Record
records_at f = keep (stands_at f)

-- The verdict on one name.
abbrev pub conflict_at : List Record → Text → Option Text
conflict_at rs f = conflict (tally (records_at f rs) no_tally)

abbrev pub is_some {ℓ} : {A : Type ℓ} → Option A → Bool
is_some none = false
is_some (some _) = true

or_empty-group :
    (rs : List Record) (m : Map (List Record)) (f : Text)
    → or_empty (lookup f (group_by_fqdn rs m)) ≡ or_empty (lookup f m) ++ records_at f rs
unfolding group_by_fqdn keep
or_empty-group [] m f = sym (append-nil (or_empty (lookup f m)))
or_empty-group (r ∷ rs) m f =
    or_empty-group rs (insert r.fqdn (or_empty (lookup r.fqdn m) ++ r ∷ []) m) f
    ∙ step (lookup-insert r.fqdn f (or_empty (lookup r.fqdn m) ++ r ∷ []) m)
  where
    step :
        lookup f (insert r.fqdn (or_empty (lookup r.fqdn m) ++ r ∷ []) m)
          ≡ (if r.fqdn == f then some (or_empty (lookup r.fqdn m) ++ r ∷ []) else lookup f m)
        → or_empty (lookup f (insert r.fqdn (or_empty (lookup r.fqdn m) ++ r ∷ []) m))
            ++ records_at f rs
          ≡ or_empty (lookup f m) ++ (if r.fqdn == f then r ∷ records_at f rs else records_at f rs)
    step e = elim (Bool-cases (r.fqdn == f)) [
      | inl e2 ↦
          rw (e, e2, ap (λ k. lookup k m) ((eq_iff r.fqdn f).0 e2))
            (append_assoc (or_empty (lookup f m)) (r ∷ []) (records_at f rs))
      | inr e2 ↦ rw (e, e2) refl
    ]

has-group :
    (rs : List Record) (m : Map (List Record)) (f : Text)
    → has f (group_by_fqdn rs m) ≡ (has f m || any (stands_at f) rs)
unfolding group_by_fqdn any
has-group [] m f = ground arith
has-group (r ∷ rs) m f = ground (
  arith,
  has-group rs (insert r.fqdn (or_empty (lookup r.fqdn m) ++ r ∷ []) m) f,
  has-insert r.fqdn f (or_empty (lookup r.fqdn m) ++ r ∷ []) m,
)

-- The names that the errors are about.
abbrev pub fqdns : List ValidationError → List Text
fqdns = map (λ e. e.fqdn)

abbrev verdict : Map (List Record) → Text → Option Text
verdict by_fqdn f = conflict (tally (or_empty (lookup f by_fqdn)) no_tally)

contains-set_error :
    (name : Text) (t : Tally) (rest : List ValidationError) (f : Text)
    → contains (fqdns (set_error name t ++ rest)) f
      ≡ ((is_some (conflict t) && (name == f)) || contains (fqdns rest) f)
unfolding set_error contains
contains-set_error name t rest f =
    elim (conflict t)
      as (λ o.
        contains
          (fqdns (
            (elim o [
              | none ↦ []
              | some message ↦
                  record { source = source_or_empty t.cname_source; fqdn = name; message = message }
                  ∷ []
            ])
            ++ rest))
          f
        ≡ ((is_some o && (name == f)) || contains (fqdns rest) f)) [
          | none ↦ refl
          | some message ↦ ground arith
        ]

contains-set_errors :
    (by_fqdn : Map (List Record)) (names : List Text) (f : Text)
    → contains (fqdns (set_errors by_fqdn names)) f
      ≡ (contains names f && is_some (verdict by_fqdn f))
unfolding set_errors contains
contains-set_errors by_fqdn [] f = refl
contains-set_errors by_fqdn (name ∷ names) f =
    rw
      (
        contains-set_error name (tally (or_empty (lookup name by_fqdn)) no_tally)
            (set_errors by_fqdn names) f,
        contains-set_errors by_fqdn names f,
      )
      (ground (arith, eq_iff name f, λ (e : name ≡ f). ap (λ k. is_some (verdict by_fqdn k)) e))

no_group : (rs : List Record) (f : Text) → any (stands_at f) rs ≡ false → records_at f rs ≡ []
unfolding any keep
no_group [] f h = refl
no_group (r ∷ rs) f h = ground (arith, no_group rs f)

no_conflict : (rs : List Record) (f : Text) → any (stands_at f) rs ≡ false → conflict_at rs f ≡ none
unfolding conflict tally
no_conflict rs f h = rw (no_group rs f h) refl

has_group : (rs : List Record) (f : Text) → has f (group_by_fqdn rs []) ≡ any (stands_at f) rs
unfolding has
has_group rs f = has-group rs [] f

group_of :
    (rs : List Record) (f : Text) → or_empty (lookup f (group_by_fqdn rs [])) ≡ records_at f rs
unfolding has or_empty
group_of rs f = or_empty-group rs [] f

shown_or_none : (here error : Bool) → (here ≡ false → error ≡ false) → (here && error) ≡ error
shown_or_none here error h = ground arith

contains-errors_of_groups :
    (rs : List Record) (f : Text)
    → contains
        (fqdns (set_errors (group_by_fqdn rs []) (sort_texts (keys (group_by_fqdn rs [])))))
        f
      ≡ is_some (conflict_at rs f)
unfolding contains conflict sort_texts tally
contains-errors_of_groups rs f =
    rw
      (
        contains-set_errors (group_by_fqdn rs []) (sort_texts (keys (group_by_fqdn rs []))) f,
        contains-sort_by text_lt (keys (group_by_fqdn rs [])) f,
        contains-keys f (group_by_fqdn rs []),
        has_group rs f,
        group_of rs f,
      )
      (shown_or_none (any (stands_at f) rs) (is_some (conflict_at rs f))
        (λ absent. ap is_some (no_conflict rs f absent)))

-- ValidateRecordSet reports exactly the names on which the verdict over the records of that name
-- alone is an error.
pub contains-validate_record_set :
    (rs : List Record) (f : Text)
    → contains (fqdns (validate_record_set rs)) f ≡ is_some (conflict_at rs f)
unfolding validate_record_set
contains-validate_record_set rs f = contains-errors_of_groups rs f
