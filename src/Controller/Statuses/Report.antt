-- ===== src/Controller/Statuses/Report.antt =====
-- The shapes of a zone's result, and the conditions that are written for it.
use private_dns_operator.Prelude.{
  ◌≡◌, refl, ap, ap₂, ◌∙◌, Bool, true, false, List, [], ◌∷◌, ◌++◌, is_empty, all, all-append, eqb,
  arith,
}
use private_dns_operator.Text.{Text, ◌==◌}
use private_dns_operator.Text.Set.{contains}
use private_dns_operator.Types.{Condition, PrivateDnsZone}
use private_dns_operator.Coredns.ConfigMap.Files.{distinct}
use private_dns_operator.Controller.Conditions.{
  template_rendered, zone_file_rendered, corefile_patched, volume_mounted, reload_triggered,
  last_known_good_applied, records_excluded, ready, types_of,
}
use private_dns_operator.Controller.Conditions.Merge.{IsDesired}
use private_dns_operator.Controller.Results.{ZoneResult}
use private_dns_operator.Controller.Statuses.{
  excluded_conditions, applied_conditions, desired_conditions,
}

abbrev pub timeless : List Condition → Bool
timeless cs = all (λ c. eqb c.last_transition_time 0) cs

-- The shapes of a zone's result.
pub data IsReport (result : ZoneResult) : Type 0 where
  not_ready :
      result.rendered ≡ false
      → types_of result.conditions ≡ ready ∷ []
      → timeless result.conditions ≡ true
      → IsReport result
  held :
      result.rendered ≡ false
      → types_of result.conditions ≡ ready ∷ last_known_good_applied ∷ []
      → timeless result.conditions ≡ true
      → IsReport result
  templated :
      result.rendered ≡ true
      → types_of result.conditions ≡ template_rendered ∷ []
      → timeless result.conditions ≡ true
      → IsReport result
  filed :
      result.rendered ≡ true
      → types_of result.conditions ≡ zone_file_rendered ∷ []
      → timeless result.conditions ≡ true
      → IsReport result

-- The types that the status writer adds to those of a result.
abbrev added : Bool → Bool → List Text
added false all_published = []
added true true = corefile_patched ∷ volume_mounted ∷ reload_triggered ∷ ready ∷ []
added true false =
    records_excluded ∷ corefile_patched ∷ volume_mounted ∷ reload_triggered ∷ ready ∷ []

types_of-append : (cs ds : List Condition) → types_of (cs ++ ds) ≡ types_of cs ++ types_of ds
unfolding types_of
types_of-append [] ds = refl
types_of-append (c ∷ cs) ds = ap (λ (ts : List Text). c.condition_type ∷ ts) (types_of-append cs ds)

either :
    (ts : List Text) (rendered empty : Bool)
    → distinct (ts ++ added rendered true) ≡ true
    → distinct (ts ++ added rendered false) ≡ true
    → distinct (ts ++ added rendered empty) ≡ true
either ts rendered true full part = full
either ts rendered false full part = part

module _ (zone : PrivateDnsZone) (reloadable : Bool) where
  extra : ZoneResult → List Condition
  extra result =
      excluded_conditions zone result ++ applied_conditions zone reloadable result.rendered

  types_of-extra :
      (result : ZoneResult) (rendered empty : Bool)
      → result.rendered ≡ rendered
      → is_empty result.excluded ≡ empty
      → (types_of (extra result) ≡ added rendered empty) × (timeless (extra result) ≡ true)
  unfolding extra excluded_conditions applied_conditions types_of all
  types_of-extra result false empty e q = rw (e) (refl, refl)
  types_of-extra result true true e q = rw (e, q) (refl, refl)
  types_of-extra result true false e q = rw (e, q) (refl, refl)

  distinct_types :
      (result : ZoneResult) (rendered : Bool) (ts : List Text)
      → result.rendered ≡ rendered
      → types_of result.conditions ≡ ts
      → timeless result.conditions ≡ true
      → distinct (ts ++ added rendered true) ≡ true
      → distinct (ts ++ added rendered false) ≡ true
      → IsDesired (desired_conditions zone result reloadable)
  unfolding desired_conditions extra
  distinct_types result rendered ts e q fresh full part =
      let (types, times) = types_of-extra result rendered (is_empty result.excluded) e refl in
      record {
        one_each =
            ap distinct
              (types_of-append result.conditions (extra result) ∙ ap₂ (λ xs ys. xs ++ ys) q types)
            ∙ either ts rendered (is_empty result.excluded) full part;
        no_time =
            all-append (λ (c : Condition). eqb c.last_transition_time 0) result.conditions
              (extra result)
            ∙ ground arith;
      }

  pub desired_conditions-IsDesired :
      (result : ZoneResult)
      → IsReport result
      → IsDesired (desired_conditions zone result reloadable)
  unfolding distinct contains ◌==◌
  desired_conditions-IsDesired result (not_ready e q t) =
      distinct_types result false _ e q t refl refl
  desired_conditions-IsDesired result (held e q t) = distinct_types result false _ e q t refl refl
  desired_conditions-IsDesired result (templated e q t) =
      distinct_types result true _ e q t refl refl
  desired_conditions-IsDesired result (filed e q t) = distinct_types result true _ e q t refl refl
