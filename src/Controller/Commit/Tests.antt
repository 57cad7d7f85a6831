-- ===== src/Controller/Commit/Tests.antt =====
-- A commit that replaces one zone file by another, run by run, and the theorems at that commit.
use private_dns_operator.Prelude.{
  ◌≡◌, ◌≢◌, refl, true, false, List, all, [], ◌∷◌, if◌then◌else◌, some, arith,
}
use private_dns_operator.Text.{Text, ◌==◌, codes, sort_texts}
use private_dns_operator.Text.Eq.{eq_iff}
use private_dns_operator.Text.Set.{contains}
use private_dns_operator.Text.Map.{Map, lookup, has, keys}
use private_dns_operator.Kube.{ConfigMap, Deployment, KeyToPath, not_found, ok}
use private_dns_operator.Kube.Api.{
  Cluster, get, update_deployment, update_config_map, World, Fault, fine, refused,
}
use private_dns_operator.Coredns.ConfigMap.{
  set_managed_zone_keys, set_zone_files, set_corefile, remove_zone_files, corefile_key,
  value_or_empty, managed_zone_keys_annotation, managed_zone_keys,
}
use private_dns_operator.Coredns.Deployment.{ensure_zone_volume_items, item_keys, is_target}
use private_dns_operator.Controller.Commit.{Reconciler, commit_core_dns}
use private_dns_operator.Text.Split.{lacks, split, join}
use private_dns_operator.Text.Trim.{trim_space}
use private_dns_operator.Coredns.ConfigMap.Files.{distinct}
use private_dns_operator.Coredns.ConfigMap.Claims.{is_key}
use private_dns_operator.Controller.Keys.{map_keys, union_keys}
use private_dns_operator.Controller.Commit.Steps.{deployment_items}
use private_dns_operator.Controller.Commit.Plan.{IsPlan, corefile_of}
use private_dns_operator.Controller.Commit.Ownership.{
  HasConfigMap, NoOrphan, IsForeign, commit_core_dns-NoOrphan, commit_core_dns-foreign,
}
use private_dns_operator.Controller.Commit.Outcome.{IsCommitted, commit_core_dns-IsCommitted}
use private_dns_operator.Controller.Commit.Restart.{AsksRestart, commit_core_dns-AsksRestart}
use private_dns_operator.Controller.Commit.Steady.{IsIdle, IsSteady, commit_core_dns-IsIdle}
use private_dns_operator.Controller.Commit.Safety.{IsServing, commit_core_dns-IsServing}

abbrev reconciler : Reconciler
reconciler = record {
  core_dns_namespace = codes "kube-system";
  core_dns_config_map = codes "coredns";
  core_dns_deployment = codes "coredns";
}

abbrev old_file : Text
old_file = codes "a.db"

abbrev new_file : Text
new_file = codes "b.db"

abbrev old_corefile : Text
old_corefile = codes "file a"

abbrev new_corefile : Text
new_corefile = codes "file b"

-- CoreDNS reads the one file that the Corefile names.
abbrev files_named : Text → List Text
files_named corefile = if corefile == old_corefile then old_file ∷ [] else new_file ∷ []

abbrev config_map : ConfigMap
config_map = record {
  cm_data = (corefile_key, old_corefile) ∷ (old_file, codes "x") ∷ [];
  annotations = (managed_zone_keys_annotation, old_file) ∷ [];
}

abbrev items : List KeyToPath
items =
    record { key = corefile_key; path = corefile_key }
    ∷ record { key = old_file; path = old_file }
    ∷ []

abbrev deployment : Deployment
deployment = record {
  name = codes "coredns";
  volumes = record { config_map = some (record { name = codes "coredns"; items = items }) } ∷ [];
  annotations = [];
}

abbrev zone_files : Map Text
zone_files = (new_file, codes "y") ∷ []

abbrev world : List Fault → World
world faults = record {
  cluster = record {
    config_map = some config_map;
    deployment = some deployment;
    zones = [];
    records = [];
  };
  faults = faults;
  writes = [];
}

plan : IsPlan files_named config_map items new_corefile zone_files (old_file ∷ [])
unfolding has lookup contains item_keys value_or_empty ◌==◌
plan = record {
  serves = record { exists_in_map = λ k h. ground arith; is_read = λ k h. ground arith };
  some_corefile = λ e. cc;
  no_zone_file = refl;
  not_claimed = refl;
  claimed = λ k h. ground arith;
  new_names = λ k h. ground arith;
}

mounts_items : deployment_items (codes "coredns") (some deployment) ≡ some items
unfolding deployment_items is_target ◌==◌
mounts_items = refl

-- The third call is the read of step 4 in a run where the first write was made and the rest refused.
commit_core_dns-IsServing_example :
    IsServing files_named
      (codes "coredns")
      (commit_core_dns reconciler config_map new_corefile zone_files
        (old_file ∷ [])
        true
        []
        (world (fine ∷ fine ∷ refused not_found ∷ []))).1.cluster
commit_core_dns-IsServing_example =
    commit_core_dns-IsServing files_named reconciler config_map items new_corefile zone_files
      (old_file ∷ []) true [] (world (fine ∷ fine ∷ refused not_found ∷ [])) plan refl mounts_items

new_files-distinct : distinct (keys zone_files) ≡ true
unfolding distinct keys contains
new_files-distinct = refl

new_files-no_corefile : has corefile_key zone_files ≡ false
unfolding has lookup ◌==◌
new_files-no_corefile = refl

-- A file that the operator has nothing to do with.
abbrev other_file : Text
other_file = codes "hosts"

other-IsForeign : IsForeign zone_files (old_file ∷ []) other_file
unfolding has lookup contains ◌==◌
other-IsForeign = record { no_file = refl; no_claim = refl; no_corefile = refl }

-- The annotation claims the old file.
claims_old_file : managed_zone_keys config_map ≡ old_file ∷ []
unfolding managed_zone_keys lookup value_or_empty ◌==◌ split trim_space
claims_old_file = refl

old_keys-is_key : all is_key (managed_zone_keys config_map) ≡ true
unfolding all is_key trim_space lacks ◌==◌
old_keys-is_key = rw claims_old_file refl

new_keys-is_key : all is_key (map_keys zone_files) ≡ true
unfolding all is_key trim_space lacks map_keys ◌==◌
new_keys-is_key = refl

plan_of_claims :
    IsPlan files_named config_map items new_corefile zone_files (managed_zone_keys config_map)
plan_of_claims = rw claims_old_file plan

-- The ConfigMap after step 3.
abbrev switched_config_map : ConfigMap
switched_config_map = record {
  cm_data = (corefile_key, new_corefile) ∷ (old_file, codes "x") ∷ (new_file, codes "y") ∷ [];
  annotations = (managed_zone_keys_annotation, codes "a.db,b.db") ∷ [];
}

is_outdated : corefile_of config_map ≢ new_corefile
unfolding lookup value_or_empty ◌==◌
is_outdated h = let same : false ≡ true = (eq_iff (corefile_of config_map) new_corefile).1 h in cc

-- An undisturbed run.
commit_core_dns-IsCommitted_example :
    IsCommitted (codes "coredns") new_corefile zone_files (old_file ∷ []) (
      commit_core_dns reconciler config_map new_corefile zone_files
        (old_file ∷ [])
        true
        []
        (world []))
commit_core_dns-IsCommitted_example =
    commit_core_dns-IsCommitted files_named reconciler config_map items new_corefile zone_files
      (old_file ∷ []) true [] (world []) plan new_files-distinct refl mounts_items refl

commit_core_dns-NoOrphan_example :
    HasConfigMap
      (NoOrphan config_map)
      (commit_core_dns reconciler config_map new_corefile zone_files
        (managed_zone_keys config_map)
        true
        []
        (world (fine ∷ fine ∷ refused not_found ∷ []))).1.cluster
commit_core_dns-NoOrphan_example =
    commit_core_dns-NoOrphan reconciler config_map items new_corefile zone_files true []
      (world (fine ∷ fine ∷ refused not_found ∷ [])) refl mounts_items files_named plan_of_claims
      old_keys-is_key new_keys-is_key

commit_core_dns-foreign_example :
    HasConfigMap
      (λ now. lookup other_file now.cm_data ≡ lookup other_file config_map.cm_data)
      (commit_core_dns reconciler config_map new_corefile zone_files
        (old_file ∷ [])
        true
        []
        (world (fine ∷ fine ∷ refused not_found ∷ []))).1.cluster
commit_core_dns-foreign_example =
    commit_core_dns-foreign reconciler config_map items new_corefile zone_files true []
      (world (fine ∷ fine ∷ refused not_found ∷ [])) refl mounts_items (old_file ∷ []) other_file
      (λ e. cc) other-IsForeign

-- A CoreDNS without the reload plugin is given a new Corefile.
commit_core_dns-AsksRestart_example :
    ((commit_core_dns reconciler config_map new_corefile zone_files
        (old_file ∷ [])
        false
        (codes "1")
        (world [])).0
      ≡ ok tt)
    × AsksRestart
        (codes "1")
        (commit_core_dns reconciler config_map new_corefile zone_files
          (old_file ∷ [])
          false
          (codes "1")
          (world [])).1.cluster
commit_core_dns-AsksRestart_example =
    commit_core_dns-AsksRestart reconciler config_map items new_corefile zone_files (old_file ∷ [])
      (codes "1") (world []) is_outdated new_files-no_corefile refl mounts_items refl

-- The retry after a commit that stopped between the switch of the Corefile and the restart asks for
-- none.
retry_unstamped :
    (dep : Deployment) × ((commit_core_dns reconciler switched_config_map new_corefile zone_files
        (new_file ∷ old_file ∷ [])
        false
        (codes "1")
        (world [])).1.cluster.deployment
      ≡ some dep)
    × (dep.annotations ≡ [])
unfolding commit_core_dns set_managed_zone_keys ◌==◌ lookup set_zone_files join sort_texts
    union_keys contains map_keys get ensure_zone_volume_items update_deployment set_corefile
    remove_zone_files update_config_map
retry_unstamped = (_, refl, refl)

-- What a commit of the new file and Corefile leaves.
abbrev steady_config_map : ConfigMap
steady_config_map = record {
  cm_data = (corefile_key, new_corefile) ∷ (new_file, codes "y") ∷ [];
  annotations = (managed_zone_keys_annotation, new_file) ∷ [];
}

abbrev steady_items : List KeyToPath
steady_items =
    record { key = corefile_key; path = corefile_key }
    ∷ record { key = new_file; path = new_file }
    ∷ []

abbrev steady_cluster : Cluster
steady_cluster = record {
  config_map = some steady_config_map;
  deployment = some (record {
    name = codes "coredns";
    volumes =
        record { config_map = some (record { name = codes "coredns"; items = steady_items }) } ∷ [];
    annotations = [];
  });
  zones = [];
  records = [];
}

abbrev steady_world : World
steady_world = record { cluster = steady_cluster; faults = []; writes = [] }

config_map-IsSteady : IsSteady new_corefile zone_files steady_config_map steady_items
unfolding lookup value_or_empty has contains item_keys map_keys join ◌==◌
config_map-IsSteady = record {
  carried = record {
    new_corefile = refl;
    filled = λ k h. ground arith;
    mounted = λ k h. ground arith;
    removed = λ k h n. ground arith;
  };
  claims = refl;
}

mounts_steady : deployment_items (codes "coredns") steady_cluster.deployment ≡ some steady_items
unfolding deployment_items is_target ◌==◌
mounts_steady = refl

commit_core_dns-IsIdle_example : IsIdle steady_cluster [] (
    commit_core_dns reconciler steady_config_map new_corefile zone_files
      (map_keys zone_files)
      false
      (codes "1")
      steady_world)
commit_core_dns-IsIdle_example =
    commit_core_dns-IsIdle reconciler steady_config_map steady_items new_corefile zone_files false
      (codes "1") steady_world new_files-distinct config_map-IsSteady mounts_steady
