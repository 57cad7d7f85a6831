-- ===== src/Controller/Commit/Serving.antt =====
-- The ConfigMap and the volume serve at every stage of a commit.
use private_dns_operator.Prelude.{
  ◌≡◌, ◌∙◌, true, false, not, ◌&&◌, ◌||◌, List, arith, is_empty, inl, inr, Bool-cases,
}
use private_dns_operator.Text.{Text, sort_texts}
use private_dns_operator.Text.Eq.{eq_refl}
use private_dns_operator.Text.Set.{contains, contains-cons}
use private_dns_operator.Text.Map.{Map, has}
use private_dns_operator.Kube.{ConfigMap, KeyToPath}
use private_dns_operator.Coredns.ConfigMap.{corefile_key}
use private_dns_operator.Coredns.Deployment.Items.{has_item}
use private_dns_operator.Controller.Commit.Stages.{
  Stage, before, expanded, mounted, switched, contracted, retired, stage_config_map, stage_items,
}
use private_dns_operator.Controller.Commit.Plan.{
  corefile_of, Serves, IsPlan, not_empty, ensured_empty, ensured_keys, has-cm1, has-cm3, has-cm5,
  corefile-cm1, corefile-cm3, corefile-cm5, key_sets, new_read, mu, fin, cm1, cm3, cm5, desired,
  all_keys,
}

module _ {names : Text → List Text} {cm : ConfigMap} {items : List KeyToPath} {corefile : Text}
    {zone_files : Map Text} {previous : List Text}
    (plan : IsPlan names cm items corefile zone_files previous) where
  module _ (explicit : is_empty items ≡ false) where
    corefile_mounted : has_item items corefile_key ≡ true
    corefile_mounted = ground (
      arith,
      plan.serves.is_read corefile_key,
      contains-cons corefile_key (names (corefile_of cm)) corefile_key,
      eq_refl corefile_key,
    )

    mu-keys :
        (k : Text)
        → has_item (mu plan) k ≡ (contains previous k || has k zone_files || has_item items k)
    mu-keys k =
        ground (arith, ensured_keys (all_keys plan) previous items k explicit, key_sets plan k)

    mu-explicit : is_empty (mu plan) ≡ false
    mu-explicit =
        not_empty (mu plan) corefile_key (ground (arith, mu-keys corefile_key, corefile_mounted))

    pub fin-keys :
        (k : Text)
        → has_item (fin plan) k
          ≡ (has k zone_files || (has_item items k && not (contains previous k)))
    fin-keys k = ground (
      arith,
      ensured_keys (desired plan) previous (mu plan) k mu-explicit,
      key_sets plan k,
      mu-keys k,
    )

    pub fin-explicit : is_empty (fin plan) ≡ false
    fin-explicit =
        not_empty (fin plan) corefile_key
          (ground (arith, fin-keys corefile_key, corefile_mounted, plan.not_claimed))

    explicit_before : Serves names cm items
    explicit_before = plan.serves

    explicit_expanded : Serves names (cm1 plan) items
    explicit_expanded = record {
      exists_in_map = λ k h. ground (arith, has-cm1 plan k, plan.serves.exists_in_map k);
      is_read =
          λ k h. ground (arith, plan.serves.is_read k (rw (← (corefile-cm1 plan)) h), explicit);
    }

    explicit_mounted : Serves names (cm1 plan) (mu plan)
    explicit_mounted = record {
      exists_in_map = λ k h.
          ground (arith, mu-keys k, has-cm1 plan k, plan.claimed k, plan.serves.exists_in_map k);
      is_read = λ k h. ground (
        arith,
        plan.serves.is_read k (rw (← (corefile-cm1 plan)) h),
        explicit,
        mu-explicit,
        mu-keys k,
      );
    }

    explicit_switched : Serves names (cm3 plan) (mu plan)
    explicit_switched = record {
      exists_in_map = λ k h.
          ground (arith, mu-keys k, has-cm3 plan k, plan.claimed k, plan.serves.exists_in_map k);
      is_read = λ k h.
          ground (
            arith,
            new_read plan k (rw (corefile-cm3 plan) at h),
            explicit,
            mu-explicit,
            mu-keys k,
          );
    }

    explicit_contracted : Serves names (cm3 plan) (fin plan)
    explicit_contracted = record {
      exists_in_map =
          λ k h. ground (arith, fin-keys k, has-cm3 plan k, plan.serves.exists_in_map k);
      is_read = λ k h. ground (
        arith,
        new_read plan k (rw (corefile-cm3 plan) at h),
        explicit,
        fin-explicit,
        fin-keys k,
      );
    }

    explicit_retired : Serves names (cm5 plan) (fin plan)
    explicit_retired = record {
      exists_in_map = λ k h.
          ground (arith, fin-keys k, has-cm5 plan k, key_sets plan k, plan.serves.exists_in_map k);
      is_read = λ k h. ground (
        arith,
        new_read plan k (rw (corefile-cm5 plan) at h),
        explicit,
        fin-explicit,
        fin-keys k,
      );
    }

  -- a volume without explicit items
  module _ (whole : is_empty items ≡ true) where
    mu-items : (mu plan) ≡ items
    mu-items = ensured_empty (sort_texts (all_keys plan)) previous items whole

    pub fin-items : (fin plan) ≡ items
    fin-items =
        ensured_empty (sort_texts (desired plan)) previous (mu plan) (rw mu-items whole) ∙ mu-items

    pub no_item : (k : Text) → has_item items k ≡ false
    no_item k = ground (arith, not_empty items k)

    whole_expanded : Serves names (cm1 plan) items
    whole_expanded = record {
      exists_in_map = λ k h. ground (arith, no_item k);
      is_read = λ k h.
          ground
            (arith, has-cm1 plan k, plan.serves.is_read k (rw (← (corefile-cm1 plan)) h), whole);
    }

    whole_switched : Serves names (cm3 plan) items
    whole_switched = record {
      exists_in_map = λ k h. ground (arith, no_item k);
      is_read = λ k h.
          ground (arith, has-cm3 plan k, new_read plan k (rw (corefile-cm3 plan) at h), whole);
    }

    whole_retired : Serves names (cm5 plan) items
    whole_retired = record {
      exists_in_map = λ k h. ground (arith, no_item k);
      is_read = λ k h. ground (
        arith,
        has-cm5 plan k,
        key_sets plan k,
        new_read plan k (rw (corefile-cm5 plan) at h),
        whole,
      );
    }

  explicit_stage :
      is_empty items ≡ false
      → (s : Stage)
      → Serves names
          (stage_config_map cm corefile zone_files previous items s)
          (stage_items cm corefile zone_files previous items s)
  unfolding stage_config_map stage_items
  explicit_stage e before = plan.serves
  explicit_stage e expanded = explicit_expanded e
  explicit_stage e mounted = explicit_mounted e
  explicit_stage e switched = explicit_switched e
  explicit_stage e contracted = explicit_contracted e
  explicit_stage e retired = explicit_retired e

  whole_stage :
      is_empty items ≡ true
      → (s : Stage)
      → Serves names
          (stage_config_map cm corefile zone_files previous items s)
          (stage_items cm corefile zone_files previous items s)
  unfolding stage_config_map stage_items
  whole_stage e before = plan.serves
  whole_stage e expanded = whole_expanded e
  whole_stage e mounted = rw (mu-items e) (whole_expanded e)
  whole_stage e switched = rw (mu-items e) (whole_switched e)
  whole_stage e contracted = rw (fin-items e) (whole_switched e)
  whole_stage e retired = rw (fin-items e) (whole_retired e)

  pub stage-Serves :
      (s : Stage)
      → Serves names
          (stage_config_map cm corefile zone_files previous items s)
          (stage_items cm corefile zone_files previous items s)
  stage-Serves s = elim (Bool-cases (is_empty items)) [
    | inl whole ↦ whole_stage whole s
    | inr explicit ↦ explicit_stage explicit s
  ]
