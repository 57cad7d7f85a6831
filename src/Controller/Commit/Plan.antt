-- ===== src/Controller/Commit/Plan.antt =====
-- What a commit starts from, and the keys of the ConfigMap at each of its stages.
use private_dns_operator.Prelude.{
  ◌≡◌, ◌≢◌, refl, ap, ◌∙◌, Bool, true, false, not, ◌&&◌, ◌||◌, List, [], ◌∷◌, if◌then◌else◌, arith,
  is_empty,
}
use private_dns_operator.Text.{Text, sort_texts}
use private_dns_operator.Text.Eq.{eq_iff, eq_refl}
use private_dns_operator.Text.Set.{contains, contains-cons}
use private_dns_operator.Text.Map.{Map, lookup, has}
use private_dns_operator.Kube.{ConfigMap, KeyToPath}
use private_dns_operator.Coredns.ConfigMap.{
  corefile_key, value_or_empty, set_zone_files, set_corefile, remove_zone_files,
}
use private_dns_operator.Coredns.ConfigMap.Files.{
  has-set_zone_files, lookup-set_zone_files_other, has-remove_zone_files, lookup-remove_zone_files,
  has-set_corefile, lookup-set_corefile, cm_data-set_managed_zone_keys,
}
use private_dns_operator.Coredns.Deployment.{item_keys}
use private_dns_operator.Coredns.Deployment.Items.{has_item, has_item-ensure_items}
use private_dns_operator.Coredns.Deployment.Volumes.{ensured}
use private_dns_operator.Controller.Keys.{
  map_keys, subtract_keys, union_keys, contains-map_keys, contains-subtract_keys,
  contains-union_keys, contains-sort_texts,
}
use private_dns_operator.Controller.Commit.{expand, retire}

-- The Corefile of a ConfigMap.
abbrev pub corefile_of : ConfigMap → Text
corefile_of cm = value_or_empty (lookup corefile_key cm.cm_data)

-- A volume without explicit items shows every key of the ConfigMap.
abbrev pub is_mounted : ConfigMap → List KeyToPath → Text → Bool
is_mounted cm items k = if is_empty items then has k cm.cm_data else has_item items k

-- The invariants that configmap.go states: what the volume names exists, and what CoreDNS reads is
-- mounted. `names` are the files that CoreDNS finds in a Corefile.
pub record Serves (names : Text → List Text) (cm : ConfigMap) (items : List KeyToPath)
    : Type 0 where
  pub exists_in_map : (k : Text) → has_item items k ≡ true → has k cm.cm_data ≡ true
  pub is_read :
      (k : Text)
      → contains (corefile_key ∷ names (corefile_of cm)) k ≡ true
      → is_mounted cm items k ≡ true

-- What a commit starts from.
pub record IsPlan (names : Text → List Text) (cm : ConfigMap) (items : List KeyToPath)
    (corefile : Text) (zone_files : Map Text) (previous : List Text) : Type 0 where
  pub serves : Serves names cm items
  pub some_corefile : corefile ≢ []
  pub no_zone_file : has corefile_key zone_files ≡ false
  pub not_claimed : contains previous corefile_key ≡ false
  pub claimed : (k : Text) → contains previous k ≡ true → has k cm.cm_data ≡ true
  pub new_names :
      (k : Text)
      → contains (names corefile) k ≡ true
      → (has k zone_files || (is_mounted cm items k && not (contains previous k))) ≡ true

pub not_empty :
    (items : List KeyToPath) (k : Text) → has_item items k ≡ true → is_empty items ≡ false
unfolding item_keys contains
not_empty [] k h = cc
not_empty (x ∷ items) k h = refl

pub ensured_empty :
    (wanted previous : List Text) (xs : List KeyToPath)
    → is_empty xs ≡ true
    → (ensured wanted previous xs).0 ≡ xs
unfolding ensured
ensured_empty wanted previous xs h = ground arith

pub ensured_keys :
    (wanted previous : List Text) (xs : List KeyToPath) (k : Text)
    → is_empty xs ≡ false
    → has_item (ensured (sort_texts wanted) previous xs).0 k
      ≡ (contains wanted k || (has_item xs k && not (contains previous k)))
unfolding ensured
ensured_keys wanted previous xs k h =
    ground
      (arith, has_item-ensure_items (sort_texts wanted) previous xs k, contains-sort_texts wanted k)

module _ {names : Text → List Text} {cm : ConfigMap} {items : List KeyToPath} {corefile : Text}
    {zone_files : Map Text} {previous : List Text}
    (plan : IsPlan names cm items corefile zone_files previous) where
  abbrev pub desired : List Text
  desired = map_keys zone_files

  abbrev pub stale : List Text
  stale = subtract_keys previous desired

  abbrev pub all_keys : List Text
  all_keys = union_keys previous desired

  abbrev pub cm1 : ConfigMap
  cm1 = (expand cm zone_files all_keys).0

  abbrev pub cm3 : ConfigMap
  cm3 = (set_corefile cm1 corefile).0

  abbrev pub cm5 : ConfigMap
  cm5 = (retire cm3 stale desired).0

  pub has-cm1 : (k : Text) → has k cm1.cm_data ≡ (has k zone_files || has k cm.cm_data)
  unfolding expand
  has-cm1 k =
      rw (cm_data-set_managed_zone_keys (set_zone_files cm zone_files).0 all_keys)
        (has-set_zone_files cm zone_files k)

  pub corefile-cm1 : corefile_of cm1 ≡ corefile_of cm
  unfolding expand
  corefile-cm1 =
      rw (cm_data-set_managed_zone_keys (set_zone_files cm zone_files).0 all_keys) (
        ap value_or_empty
          (lookup-set_zone_files_other cm zone_files corefile_key plan.no_zone_file))

  pub has_corefile : has corefile_key cm.cm_data ≡ true
  has_corefile = ground (
    arith,
    plan.serves.is_read corefile_key,
    plan.serves.exists_in_map corefile_key,
    contains-cons corefile_key (names (corefile_of cm)) corefile_key,
    eq_refl corefile_key,
  )

  pub has-cm3 : (k : Text) → has k cm3.cm_data ≡ (has k zone_files || has k cm.cm_data)
  has-cm3 k =
      has-set_corefile cm1 corefile k (rw has-cm1 (ground (arith, has_corefile))) ∙ has-cm1 k

  pub corefile-cm3 : corefile_of cm3 ≡ corefile
  unfolding value_or_empty
  corefile-cm3 = ground (
    arith,
    lookup-set_corefile cm1 corefile corefile_key plan.some_corefile,
    eq_refl corefile_key,
  )

  pub has-cm5 :
      (k : Text)
      → has k cm5.cm_data ≡ (not (contains stale k) && (has k zone_files || has k cm.cm_data))
  unfolding retire
  has-cm5 k = rw (
    cm_data-set_managed_zone_keys (remove_zone_files cm3 stale).0 desired,
    has-remove_zone_files cm3 stale k,
    has-cm3 k,
  )

  pub corefile-cm5 : corefile_of cm5 ≡ corefile
  unfolding retire
  corefile-cm5 =
      rw
        (
          cm_data-set_managed_zone_keys (remove_zone_files cm3 stale).0 desired,
          lookup-remove_zone_files cm3 stale corefile_key,
          contains-subtract_keys previous desired corefile_key,
          plan.not_claimed,
        )
        (ground (arith, corefile-cm3))

  abbrev pub mu : List KeyToPath
  mu = (ensured (sort_texts all_keys) previous items).0

  abbrev pub fin : List KeyToPath
  fin = (ensured (sort_texts desired) previous mu).0

  -- the sets of keys in terms of the plan
  pub key_sets :
      (k : Text)
      → (contains desired k ≡ has k zone_files)
        × (contains all_keys k ≡ (contains previous k || has k zone_files))
        × (contains stale k ≡ (not (has k zone_files) && contains previous k))
  key_sets k = ground (
    arith,
    contains-map_keys zone_files k,
    contains-union_keys previous desired k,
    contains-subtract_keys previous desired k,
  )

  -- what the new Corefile names is a new zone file, or is mounted and was never claimed
  pub new_read :
      (k : Text)
      → contains (corefile_key ∷ names corefile) k ≡ true
      → (has k zone_files || (is_mounted cm items k && not (contains previous k))) ≡ true
  new_read k h = ground (
    arith,
    contains-cons corefile_key (names corefile) k,
    contains-cons corefile_key (names (corefile_of cm)) k,
    plan.new_names k,
    plan.serves.is_read k,
    plan.not_claimed,
    eq_iff corefile_key k,
    λ (e : corefile_key ≡ k). ap (contains previous) e,
  )
