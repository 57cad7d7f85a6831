-- ===== src/Coredns/ConfigMap/Files.antt =====
-- What the steps of internal/coredns/configmap.go do to the keys of a ConfigMap.
use private_dns_operator.Prelude.{
  ◌≡◌, ◌≢◌, refl, ap, sym, Bool, true, false, not, ◌&&◌, ◌||◌, List, [], ◌∷◌, if◌then◌else◌, Option,
  none, some, arith,
}
use private_dns_operator.Text.{Text, ◌==◌}
use private_dns_operator.Text.Eq.{eq_iff}
use private_dns_operator.Text.Set.{contains}
use private_dns_operator.Text.Map.{
  Map, lookup, insert, remove, has, keys, lookup-insert, lookup-remove, has-insert, has-cons,
  contains-keys,
}
use private_dns_operator.Kube.{ConfigMap}
use private_dns_operator.Coredns.ConfigMap.{
  corefile_key, holds, value_or_empty, set_zone_files_loop, set_zone_files, set_corefile,
  remove_zone_files_loop, remove_zone_files, set_managed_zone_keys,
}

-- No key occurs twice.
unfoldable pub distinct : List Text → Bool
distinct [] = true
distinct (k ∷ ks) = not (contains ks k) && distinct ks

pub holds→lookup : (o : Option Text) (v : Text) → holds o v ≡ true → o ≡ some v
unfolding holds
holds→lookup none v h = cc
holds→lookup (some w) v h = ap some ((eq_iff w v).0 h)

-- What one round of SetZoneFiles leaves.
abbrev put_file : Text → Text → Map Text → Map Text
put_file k v c = if not (holds (lookup k c) v) then insert k v c else c

lookup-put_file :
    (k v : Text) (c : Map Text) (j : Text)
    → lookup j (put_file k v c) ≡ (if k == j then some v else lookup j c)
lookup-put_file k v c j = ground (
  arith,
  lookup-insert k j v c,
  holds→lookup (lookup k c) v,
  eq_iff k j,
  λ (e : k ≡ j). ap (λ (t : Text). lookup t c) e,
)

has-put_file :
    (k v : Text) (c : Map Text) (j : Text) → has j (put_file k v c) ≡ ((k == j) || has j c)
unfolding has
has-put_file k v c j = ground (arith, lookup-put_file k v c j)

has-loop :
    (fs c : Map Text) (ch : Bool) (j : Text)
    → has j (set_zone_files_loop fs c ch).0 ≡ (has j fs || has j c)
unfolding set_zone_files_loop
has-loop [] c ch j = unfold has lookup in refl
has-loop ((k, v) ∷ fs) c ch j =
    rw (has-loop fs, has-put_file k v c j, has-cons k j v fs) (ground arith)

-- The keys afterwards are those before and those of the zone files.
pub has-set_zone_files :
    (cm : ConfigMap) (fs : Map Text) (j : Text)
    → has j (set_zone_files cm fs).0.cm_data ≡ (has j fs || has j cm.cm_data)
unfolding set_zone_files
has-set_zone_files cm fs j = has-loop fs cm.cm_data false j

lookup-loop :
    (fs c : Map Text) (ch : Bool) (j : Text)
    → distinct (keys fs) ≡ true
    → lookup j (set_zone_files_loop fs c ch).0 ≡ (if has j fs then lookup j fs else lookup j c)
unfolding set_zone_files_loop distinct keys
lookup-loop [] c ch j h = unfold has lookup in refl
lookup-loop ((k, v) ∷ fs) c ch j h =
    rw (lookup-loop fs _ _ j (ground arith), lookup-put_file k v c j, has-cons k j v fs)
      (unfold lookup in
        ground
          (arith, eq_iff k j, contains-keys k fs, λ (e : k ≡ j). ap (λ (t : Text). has t fs) e))

-- After SetZoneFiles with distinct keys, a key that was given has the content that was given, and
-- any other key the content that it had.
pub lookup-set_zone_files :
    (cm : ConfigMap) (fs : Map Text) (j : Text)
    → distinct (keys fs) ≡ true
    → lookup j (set_zone_files cm fs).0.cm_data
      ≡ (if has j fs then lookup j fs else lookup j cm.cm_data)
unfolding set_zone_files
lookup-set_zone_files cm fs j h = lookup-loop fs cm.cm_data false j h

loop_changed :
    (fs c : Map Text) (ch : Bool)
    → (set_zone_files_loop fs c ch).1 ≡ false
    → (ch ≡ false) × ((set_zone_files_loop fs c ch).0 ≡ c)
unfolding set_zone_files_loop
loop_changed [] c ch h = (h, refl)
loop_changed ((k, v) ∷ fs) c ch h =
    ground (arith, loop_changed fs (put_file k v c) (not (holds (lookup k c) v) || ch))

lookup-loop_other :
    (fs c : Map Text) (ch : Bool) (j : Text)
    → has j fs ≡ false
    → lookup j (set_zone_files_loop fs c ch).0 ≡ lookup j c
unfolding set_zone_files_loop
lookup-loop_other [] c ch j h = refl
lookup-loop_other ((k, v) ∷ fs) c ch j h =
    let apart = has-cons k j v fs in
    rw (lookup-loop_other fs _ _ j (ground arith), lookup-put_file k v c j) (ground arith)

-- A key that is no zone file keeps its value.
pub lookup-set_zone_files_other :
    (cm : ConfigMap) (fs : Map Text) (j : Text)
    → has j fs ≡ false
    → lookup j (set_zone_files cm fs).0.cm_data ≡ lookup j cm.cm_data
unfolding set_zone_files
lookup-set_zone_files_other cm fs j h = lookup-loop_other fs cm.cm_data false j h

-- A call that reports no change has made none.
pub set_zone_files_unchanged :
    (cm : ConfigMap) (fs : Map Text)
    → (set_zone_files cm fs).1 ≡ false
    → (set_zone_files cm fs).0 ≡ cm
unfolding set_zone_files
set_zone_files_unchanged cm fs h =
    ap (λ c. record cm { cm_data = c }) (loop_changed fs cm.cm_data false h).1

-- What one round of RemoveZoneFiles leaves.
abbrev drop_file : Text → Map Text → Map Text
drop_file k c = if has k c then remove k c else c

lookup-drop_file :
    (k j : Text) (c : Map Text) → lookup j (drop_file k c) ≡ (if k == j then none else lookup j c)
unfolding has
lookup-drop_file k j c =
    ground (arith, lookup-remove k j c, eq_iff k j, λ (e : k ≡ j). ap (λ (t : Text). lookup t c) e)

lookup-remove_loop :
    (ks : List Text) (c : Map Text) (ch : Bool) (j : Text)
    → lookup j (remove_zone_files_loop ks c ch).0 ≡ (if contains ks j then none else lookup j c)
unfolding remove_zone_files_loop contains
lookup-remove_loop [] c ch j = refl
lookup-remove_loop (k ∷ ks) c ch j =
    rw (lookup-remove_loop ks, lookup-drop_file k j c) (ground arith)

-- After RemoveZoneFiles, a key that was given is missing, and any other key has the content that
-- it had.
pub lookup-remove_zone_files :
    (cm : ConfigMap) (ks : List Text) (j : Text)
    → lookup j (remove_zone_files cm ks).0.cm_data
      ≡ (if contains ks j then none else lookup j cm.cm_data)
unfolding remove_zone_files
lookup-remove_zone_files cm ks j = lookup-remove_loop ks cm.cm_data false j

pub has-remove_zone_files :
    (cm : ConfigMap) (ks : List Text) (j : Text)
    → has j (remove_zone_files cm ks).0.cm_data ≡ (not (contains ks j) && has j cm.cm_data)
unfolding has
has-remove_zone_files cm ks j = ground (arith, lookup-remove_zone_files cm ks j)

remove_loop_changed :
    (ks : List Text) (c : Map Text) (ch : Bool)
    → (remove_zone_files_loop ks c ch).1 ≡ false
    → (ch ≡ false) × ((remove_zone_files_loop ks c ch).0 ≡ c)
unfolding remove_zone_files_loop
remove_loop_changed [] c ch h = (h, refl)
remove_loop_changed (k ∷ ks) c ch h =
    ground (arith, remove_loop_changed ks (drop_file k c) (has k c || ch))

pub remove_zone_files_unchanged :
    (cm : ConfigMap) (ks : List Text)
    → (remove_zone_files cm ks).1 ≡ false
    → (remove_zone_files cm ks).0 ≡ cm
unfolding remove_zone_files
remove_zone_files_unchanged cm ks h =
    ap (λ c. record cm { cm_data = c }) (remove_loop_changed ks cm.cm_data false h).1

value_or_empty→lookup :
    (o : Option Text) (v : Text) → v ≢ [] → (value_or_empty o == v) ≡ true → o ≡ some v
unfolding value_or_empty
value_or_empty→lookup none v n h = absurd (n (sym ((eq_iff [] v).0 h)))
value_or_empty→lookup (some w) v n h = ap some ((eq_iff w v).0 h)

-- SetCorefile writes the Corefile and nothing else.
pub lookup-set_corefile :
    (cm : ConfigMap) (corefile j : Text)
    → corefile ≢ []
    → lookup j (set_corefile cm corefile).0.cm_data
      ≡ (if corefile_key == j then some corefile else lookup j cm.cm_data)
unfolding set_corefile
lookup-set_corefile cm corefile j h = ground (
  arith,
  lookup-insert corefile_key j corefile cm.cm_data,
  value_or_empty→lookup (lookup corefile_key cm.cm_data) corefile h,
  eq_iff corefile_key j,
  λ (e : corefile_key ≡ j). ap (λ (t : Text). lookup t cm.cm_data) e,
)

pub has-set_corefile :
    (cm : ConfigMap) (corefile j : Text)
    → has corefile_key cm.cm_data ≡ true
    → has j (set_corefile cm corefile).0.cm_data ≡ has j cm.cm_data
unfolding set_corefile
has-set_corefile cm corefile j h = ground (
  arith,
  has-insert corefile_key j corefile cm.cm_data,
  eq_iff corefile_key j,
  λ (e : corefile_key ≡ j). ap (λ (t : Text). has t cm.cm_data) e,
)

pub set_corefile_unchanged :
    (cm : ConfigMap) (corefile : Text)
    → (set_corefile cm corefile).1 ≡ false
    → (set_corefile cm corefile).0 ≡ cm
unfolding set_corefile
set_corefile_unchanged cm corefile h = ground arith

pub cm_data-set_managed_zone_keys :
    (cm : ConfigMap) (ks : List Text) → (set_managed_zone_keys cm ks).0.cm_data ≡ cm.cm_data
unfolding set_managed_zone_keys
cm_data-set_managed_zone_keys cm ks = ground arith

pub set_managed_zone_keys_unchanged :
    (cm : ConfigMap) (ks : List Text)
    → (set_managed_zone_keys cm ks).1 ≡ false
    → (set_managed_zone_keys cm ks).0 ≡ cm
unfolding set_managed_zone_keys
set_managed_zone_keys_unchanged cm ks h = ground arith

pub annotations-set_corefile :
    (cm : ConfigMap) (corefile : Text) → (set_corefile cm corefile).0.annotations ≡ cm.annotations
unfolding set_corefile
annotations-set_corefile cm corefile = ground arith
