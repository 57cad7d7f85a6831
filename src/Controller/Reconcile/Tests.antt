-- ===== src/Controller/Reconcile/Tests.antt =====
-- A cluster with a live zone, a zone that is being deleted, and a record of the live one.
use private_dns_operator.Prelude.{◌≡◌, ◌≢◌, refl, Bool, true, false, List, [], ◌∷◌, some, none}
use private_dns_operator.Text.{Text, ◌==◌, codes}
use private_dns_operator.Text.Set.{contains}
use private_dns_operator.Text.Map.{lookup}
use private_dns_operator.Types.{PrivateDnsZone, PrivateDnsRecord, a, unset, PrivateDnsZoneStatus}
use private_dns_operator.Kube.{ConfigMap, Deployment, KeyToPath, message, not_found, ok, err}
use private_dns_operator.Kube.Api.{
  World, Fault, fine, refused, next_fault, later_faults, read_result, object_or_not_found,
}
use private_dns_operator.Kube.Machinery.Concrete.{machinery, machinery-laws}
use private_dns_operator.Dns.Record.{Record}
use private_dns_operator.Coredns.ConfigMap.{corefile_key, value_or_empty}
use private_dns_operator.Coredns.ConfigMap.Files.{distinct}
use private_dns_operator.Coredns.Corefile.{remove_managed_block}
use private_dns_operator.Coredns.Deployment.{is_target}
use private_dns_operator.Controller.Commit.{Reconciler}
use private_dns_operator.Controller.Commit.Plan.{corefile_of}
use private_dns_operator.Controller.Commit.Steps.{At, deployment_items}
use private_dns_operator.Controller.Statuses.Settled.{settled_zones, settled_records}
use private_dns_operator.Controller.Reconcile.{
  Clock, private_dns_zone_finalizer, report, render_pass, reconcile,
}
use private_dns_operator.Controller.Reconcile.Entry.{target_of}
use private_dns_operator.Controller.Reconcile.Held.{zone_names}
use private_dns_operator.Controller.Reconcile.Orderly.{IsOrderly}
use private_dns_operator.Controller.Reconcile.Release.{reconcile-IsOrderly}
use private_dns_operator.Controller.Reconcile.Completion.{IsComplete, reconcile-IsComplete}
use private_dns_operator.Controller.Reconcile.Target.{
  IsIdleError, corefile_in, reconcile-IsIdleError,
}
use private_dns_operator.Controller.Reconcile.Settled.{report_idle}

abbrev reconciler : Reconciler
reconciler = record {
  core_dns_namespace = codes "kube-system";
  core_dns_config_map = codes "coredns";
  core_dns_deployment = codes "coredns";
}

abbrev clock : Clock
clock = record { today = λ _. record { year = 2026; month = 7; day = 1 }; stamp = λ _ _. 5 }

abbrev tomorrow : Clock
tomorrow = record { today = λ _. record { year = 2026; month = 7; day = 2 }; stamp = λ _ _. 6 }

abbrev digest : Text → Text
digest t = codes "0123456789012345678901234567890123456789"

abbrev order : List Record → List Record
order rs = rs

abbrev no_status : PrivateDnsZoneStatus
no_status = record {
  observed_generation = 0;
  conditions = [];
  records = 0;
  serial = [];
  zone_file_key = [];
  last_applied_hash = [];
}

abbrev zone : Text → Bool → List Text → PrivateDnsZone
zone name deleting finalizers = record {
  meta = record {
    name = name;
    namespace = [];
    generation = 1;
    deleting = deleting;
    finalizers = finalizers;
  };
  spec = record {
    zone = name;
    ttl = none;
    unresolved_record_policy = unset;
    allowed_namespaces = record { match_names = [] };
    records = [];
  };
  status = no_status;
}

abbrev zones : List PrivateDnsZone
zones = zone (codes "lab") false [] ∷ zone (codes "old") true (private_dns_zone_finalizer ∷ []) ∷ []

abbrev records : List PrivateDnsRecord
records =
    record {
      meta = record {
        name = codes "web";
        namespace = codes "team";
        generation = 1;
        deleting = false;
        finalizers = [];
      };
      spec = record {
        zone_ref = record { name = codes "lab" };
        name = codes "web";
        record_type = a;
        ttl = none;
        values = codes "10.0.0.1" ∷ [];
      };
      status = record { observed_generation = 0; conditions = []; fqdn = [] };
    }
    ∷ []

abbrev corefile : Text
corefile = codes ".:53 {\n    reload\n}\n"

abbrev config_map : ConfigMap
config_map = record { cm_data = (corefile_key, corefile) ∷ []; annotations = [] }

abbrev items : List KeyToPath
items = record { key = corefile_key; path = corefile_key } ∷ []

abbrev deployment : Deployment
deployment = record {
  name = codes "coredns";
  volumes = record { config_map = some (record { name = codes "coredns"; items = items }) } ∷ [];
  annotations = [];
}

abbrev world : List Fault → World
world faults = record {
  cluster = record {
    config_map = some config_map;
    deployment = some deployment;
    zones = zones;
    records = records;
  };
  faults = faults;
  writes = [];
}

mounts_items : deployment_items (codes "coredns") (some deployment) ≡ some items
unfolding deployment_items is_target ◌==◌
mounts_items = refl

At-start : At (codes "coredns") config_map items (world []).cluster
At-start = record { config_map = refl; mounted = items; found = mounts_items; same = λ k. refl }

has_corefile : corefile_of config_map ≡ corefile
unfolding lookup value_or_empty ◌==◌
has_corefile = refl

some_corefile : corefile_of config_map ≢ []
some_corefile e = let filled = has_corefile in cc

own_names : distinct (zone_names zones) ≡ true
unfolding distinct contains ◌==◌
own_names = refl

-- The eighth call, the write of the Corefile, is refused.
abbrev cut_off : List Fault
cut_off = fine ∷ fine ∷ fine ∷ fine ∷ fine ∷ fine ∷ fine ∷ refused (message (codes "conflict")) ∷ []

is_read : target_of (world cut_off) ≢ err not_found
unfolding target_of next_fault later_faults read_result object_or_not_found
is_read e = cc

reconcile-IsOrderly_example :
    IsOrderly digest order machinery clock reconciler zones records config_map items
      (reconcile digest order machinery clock reconciler (world cut_off))
reconcile-IsOrderly_example =
    reconcile-IsOrderly digest order machinery clock reconciler config_map items (world cut_off)
      At-start some_corefile own_names is_read

no_block : remove_managed_block (corefile_of config_map) ≡ ok corefile
unfolding remove_managed_block
no_block = rw has_corefile refl

reconcile-IsComplete_example :
    IsComplete digest order machinery clock reconciler config_map items
      (world [])
      (reconcile digest order machinery clock reconciler (world []))
reconcile-IsComplete_example =
    reconcile-IsComplete digest order machinery clock reconciler config_map items (world [])
      corefile At-start some_corefile own_names no_block refl

-- A cluster without the ConfigMap.
abbrev bare_world : List Fault → World
bare_world faults = record {
  cluster = record { config_map = none; deployment = none; zones = zones; records = records };
  faults = faults;
  writes = [];
}

no_corefile : corefile_in none ≡ []
unfolding corefile_in
no_corefile = refl

reconcile-IsIdleError_example :
    IsIdleError
      (bare_world []).cluster
      (reconcile digest order machinery clock reconciler (bare_world []))
reconcile-IsIdleError_example =
    reconcile-IsIdleError digest order machinery clock reconciler (bare_world []) no_corefile

report_idle_example :
    report machinery tomorrow
      (settled_zones machinery clock.stamp true
        (render_pass digest order clock zones records config_map corefile).results
        zones)
      (settled_records machinery clock.stamp
        (render_pass digest order clock zones records config_map corefile).outcomes
        records)
      (
        (render_pass digest order clock zones records config_map corefile).results,
        (render_pass digest order clock zones records config_map corefile).outcomes,
      )
      true
      (world [])
    ≡ (ok tt, world [])
report_idle_example =
    report_idle digest order machinery machinery-laws clock tomorrow zones records config_map
      corefile true (world [])
