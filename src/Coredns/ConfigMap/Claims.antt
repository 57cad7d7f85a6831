-- ===== src/Coredns/ConfigMap/Claims.antt =====
-- The managed-zone-keys annotation: what SetManagedZoneKeys records, ManagedZoneKeys reads back.
use private_dns_operator.Prelude.{
  ◌≡◌, refl, ◌∙◌, Bool, true, false, not, ◌&&◌, List, [], ◌∷◌, arith, if◌then◌else◌, is_empty, all,
  all-sort_by,
}
use private_dns_operator.Text.{Text, ◌==◌, text_lt, sort_texts}
use private_dns_operator.Text.Eq.{eq_iff, eq_refl}
use private_dns_operator.Text.Set.{contains, contains-sort_by}
use private_dns_operator.Coredns.ConfigMap.{set_corefile}
use private_dns_operator.Coredns.ConfigMap.Files.{annotations-set_corefile}
use private_dns_operator.Text.Map.{lookup, lookup-insert}
use private_dns_operator.Text.Split.{split, join, lacks, split-join}
use private_dns_operator.Text.Trim.{trim_space}
use private_dns_operator.Kube.{ConfigMap}
use private_dns_operator.Coredns.ConfigMap.{
  managed_zone_keys_annotation, value_or_empty, set_managed_zone_keys, claimed_keys,
  managed_zone_keys,
}

-- A key that the annotation can hold: not empty, without a comma, and without white space around it.
unfoldable pub is_key : Text → Bool
unfolding lacks
is_key k = not (is_empty k) && (lacks b',' k && (trim_space k == k))

-- the annotation after SetManagedZoneKeys
annotation :
    (cm : ConfigMap) (ks : List Text)
    → value_or_empty
        (lookup managed_zone_keys_annotation (set_managed_zone_keys cm ks).0.annotations)
      ≡ join (sort_texts ks) b','
unfolding set_managed_zone_keys value_or_empty
annotation cm ks = ground (
  arith,
  eq_iff (value_or_empty (lookup managed_zone_keys_annotation cm.annotations))
      (join (sort_texts ks) b','),
  lookup-insert managed_zone_keys_annotation managed_zone_keys_annotation
      (join (sort_texts ks) b',') cm.annotations,
  eq_refl managed_zone_keys_annotation,
)

claimed_keys-all : (ks : List Text) → all is_key ks ≡ true → claimed_keys ks ≡ ks
unfolding claimed_keys all is_key
claimed_keys-all [] h = refl
claimed_keys-all (k ∷ ks) h =
    let e : trim_space k ≡ k = (eq_iff (trim_space k) k).0 (ground arith) in
    rw (e, claimed_keys-all ks (ground arith)) (ground arith)

all-lacks : (ks : List Text) → all is_key ks ≡ true → all (lacks b',') ks ≡ true
unfolding all is_key
all-lacks [] h = refl
all-lacks (k ∷ ks) h = ground (arith, all-lacks ks)

join-empty : (k : Text) (ks : List Text) → is_key k ≡ true → is_empty (join (k ∷ ks) b',') ≡ false
unfolding join is_key
join-empty [] ks h = ground arith
join-empty (c ∷ k) [] h = refl
join-empty (c ∷ k) (q ∷ ks) h = refl

-- What ManagedZoneKeys makes of a value that SetManagedZoneKeys wrote.
read_back :
    (ks : List Text)
    → all is_key ks ≡ true
    → (if is_empty (join ks b',') then [] else claimed_keys (split (join ks b',') b',')) ≡ ks
read_back [] h = unfold join in refl
read_back (k ∷ ks) h =
    rw (join-empty k ks (unfold all in ground arith), split-join b',' k ks (all-lacks (k ∷ ks) h))
      (claimed_keys-all (k ∷ ks) h)

-- ManagedZoneKeys returns the keys that SetManagedZoneKeys was given, in sorted order, where no
-- key is empty, has a comma or has white space around it.
pub managed_zone_keys-set_managed_zone_keys :
    (cm : ConfigMap) (ks : List Text)
    → all is_key ks ≡ true
    → managed_zone_keys (set_managed_zone_keys cm ks).0 ≡ sort_texts ks
unfolding managed_zone_keys sort_texts
managed_zone_keys-set_managed_zone_keys cm ks h =
    rw (annotation cm ks) (read_back (sort_texts ks) (all-sort_by is_key text_lt ks ∙ h))

-- The set of claimed keys is the one that was recorded.
pub contains-managed_zone_keys :
    (cm : ConfigMap) (ks : List Text) (k : Text)
    → all is_key ks ≡ true
    → contains (managed_zone_keys (set_managed_zone_keys cm ks).0) k ≡ contains ks k
contains-managed_zone_keys cm ks k h =
    rw (managed_zone_keys-set_managed_zone_keys cm ks h)
      (unfold sort_texts in contains-sort_by text_lt ks k)

-- Only the annotations matter to the claims.
pub managed_zone_keys-set_corefile :
    (cm : ConfigMap) (corefile : Text)
    → managed_zone_keys (set_corefile cm corefile).0 ≡ managed_zone_keys cm
unfolding managed_zone_keys
managed_zone_keys-set_corefile cm corefile = rw (annotations-set_corefile cm corefile)
