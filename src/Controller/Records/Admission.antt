-- ===== src/Controller/Records/Admission.antt =====
-- Which records `recordsForZone` admits to a zone.
use private_dns_operator.Prelude.{
  ◌≡◌, ◌⊎◌, refl, ap, sym, subst, Bool, true, false, List, [], ◌∷◌, ◌++◌, if◌then◌else◌, keep,
  is_empty, arith, Bool-cases, inl, inr,
}
use private_dns_operator.Text.{Text, ◌==◌}
use private_dns_operator.Text.Set.{contains}
use private_dns_operator.Text.Map.{Map}
use private_dns_operator.Types.{
  NamespaceSelector, PrivateDnsZone, PrivateDnsRecord, PrivateDnsRecordSpecInline,
}
use private_dns_operator.Kube.{Result, ok, err}
use private_dns_operator.Dns.Domain.{fqdn}
use private_dns_operator.Dns.Record.{Record, ValidationError, validate_record}
use private_dns_operator.Controller.Records.{
  RecordOutcome, namespace_allowed, zone_kind, inline_record, admit_inline, inline_step,
  inline_records, external_record, admit_external, named_step, external_step, external_records,
  records_for_zone,
}
use private_dns_operator.Controller.Records.Withholding.{admitted, records_for_zone-peaceful}

-- A namespace that may publish: the selector lists it, or lists none at all.
pub data IsWelcome (selector : NamespaceSelector) (namespace : Text) : Type 0 where
  open_to_all : selector.match_names ≡ [] → IsWelcome selector namespace
  listed : contains selector.match_names namespace ≡ true → IsWelcome selector namespace

allowed-IsWelcome :
    (selector : NamespaceSelector) (namespace : Text)
    → namespace_allowed selector namespace ≡ true
    → IsWelcome selector namespace
unfolding namespace_allowed
allowed-IsWelcome selector namespace h = by_list selector.match_names refl (λ n. ground arith)
  where
    by_list :
        (names : List Text)
        → selector.match_names ≡ names
        → (is_empty selector.match_names ≡ false → contains selector.match_names namespace ≡ true)
        → IsWelcome selector namespace
    by_list [] e k = open_to_all e
    by_list (x ∷ xs) e k = listed (k (ap is_empty e))

-- A record that may be published in the zone: it is valid on its own, its name is the one that FQDN
-- gives, and it is an inline record of the zone or comes from an allowed namespace.
pub record IsPublishable (zone : PrivateDnsZone) (n : Text) (r : Record) : Type 0 where
  pub named : fqdn r.name n ≡ ok r.fqdn
  pub valid : validate_record r ≡ []
  pub welcome :
      (r.source.kind ≡ zone_kind) ⊎ IsWelcome zone.spec.allowed_namespaces r.source.namespace

pub All : (Record → Type 0) → List Record → Type 0
All P [] = Unit
All P (r ∷ rs) = P r × All P rs

All-append : (P : Record → Type 0) (xs ys : List Record) → All P xs → All P ys → All P (xs ++ ys)
unfolding All
All-append P [] ys h k = k
All-append P (x ∷ xs) ys (h, hs) k = (h, All-append P xs ys hs k)

All-keep :
    (P : Record → Type 0) (p : Record → Bool) (xs : List Record) → All P xs → All P (keep p xs)
unfolding All keep
All-keep P p [] h = h
All-keep P p (x ∷ xs) (h, hs) = choose (p x) (All-keep P p xs hs)
  where
    choose : (b : Bool) → All P (keep p xs) → All P (if b then x ∷ keep p xs else keep p xs)
    choose true k = (h, k)
    choose false k = k

module _ (zone : PrivateDnsZone) (n : Text) where
  inline_admitted :
      (inline : PrivateDnsRecordSpecInline) (name : Text) (es : List ValidationError)
      → fqdn inline.name n ≡ ok name
      → validate_record (inline_record zone n inline name) ≡ es
      → All (IsPublishable zone n) (admit_inline zone n (inline_record zone n inline name) es).0
  unfolding admit_inline All inline_record
  inline_admitted inline name [] e v = (record { named = e; valid = v; welcome = inl refl }, tt)
  inline_admitted inline name (x ∷ xs) e v = tt

  inline_step-All :
      (inline : PrivateDnsRecordSpecInline) (found : Result Text)
      → fqdn inline.name n ≡ found
      → All (IsPublishable zone n) (inline_step zone n inline found).0
  unfolding inline_step All
  inline_step-All inline (err x) e = tt
  inline_step-All inline (ok name) e =
      inline_admitted inline name (validate_record (inline_record zone n inline name)) e refl

  inline_records-All :
      (inlines : List PrivateDnsRecordSpecInline)
      → All (IsPublishable zone n) (inline_records zone n inlines).0
  unfolding inline_records All
  inline_records-All [] = tt
  inline_records-All (inline ∷ inlines) =
      All-append (IsPublishable zone n) _ _ (inline_step-All inline (fqdn inline.name n) refl)
        (inline_records-All inlines)

  external_admitted :
      (candidate : PrivateDnsRecord) (name : Text) (es : List ValidationError)
      → namespace_allowed zone.spec.allowed_namespaces candidate.meta.namespace ≡ true
      → fqdn candidate.spec.name n ≡ ok name
      → validate_record (external_record zone n candidate name) ≡ es
      → All
          (IsPublishable zone n)
          (admit_external zone n (external_record zone n candidate name) es).0
  unfolding admit_external All external_record
  external_admitted candidate name [] w e v = (
    record {
      named = e;
      valid = v;
      welcome = inr (allowed-IsWelcome zone.spec.allowed_namespaces candidate.meta.namespace w);
    },
    tt,
  )
  external_admitted candidate name (x ∷ xs) w e v = tt

  named_step-All :
      (candidate : PrivateDnsRecord) (found : Result Text)
      → namespace_allowed zone.spec.allowed_namespaces candidate.meta.namespace ≡ true
      → fqdn candidate.spec.name n ≡ found
      → All (IsPublishable zone n) (named_step zone n candidate found).0
  unfolding named_step All
  named_step-All candidate (err x) w e = tt
  named_step-All candidate (ok name) w e =
      external_admitted candidate name (validate_record (external_record zone n candidate name)) w e
        refl

  external_step-All :
      (candidate : PrivateDnsRecord) → All (IsPublishable zone n) (external_step zone n candidate).0
  unfolding external_step All
  external_step-All candidate =
      elim (Bool-cases (namespace_allowed zone.spec.allowed_namespaces candidate.meta.namespace)) [
        | inl w ↦ rw w (named_step-All candidate (fqdn candidate.spec.name n) w refl)
        | inr w ↦ rw w tt
      ]

  external_records-All :
      (candidates : List PrivateDnsRecord) (outcomes : Map RecordOutcome)
      → All (IsPublishable zone n) (external_records zone n candidates outcomes).0
  unfolding external_records All
  external_records-All [] outcomes = tt
  external_records-All (candidate ∷ candidates) outcomes =
      elim (Bool-cases (candidate.spec.zone_ref.name == zone.meta.name)) [
        | inl e ↦ rw e (
            All-append (IsPublishable zone n) _ _ (external_step-All candidate)
              (external_records-All candidates _))
        | inr e ↦ rw e (external_records-All candidates outcomes)
      ]

  -- Every record that recordsForZone keeps is valid on its own, stands at the name that FQDN gives
  -- for it in the zone, and is an inline record of the zone or comes from a namespace that may
  -- publish.
  pub records_for_zone-IsPublishable :
      (external : List PrivateDnsRecord) (outcomes : Map RecordOutcome)
      → All (IsPublishable zone n) (records_for_zone zone n external outcomes).kept
  records_for_zone-IsPublishable external outcomes =
      subst (All (IsPublishable zone n))
        (sym (records_for_zone-peaceful zone n external outcomes).0)
        (All-keep (IsPublishable zone n) _ (admitted zone n external outcomes) (
          All-append (IsPublishable zone n) _ _ (inline_records-All zone.spec.records)
            (external_records-All external outcomes)))
