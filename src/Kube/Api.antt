-- ===== src/Kube/Api.antt =====
-- Calls of the Kubernetes API as state passing. The environment decides how each call ends: it
-- succeeds, it is refused and nothing is written (a conflict, a missing permission), or its answer
-- is lost after the write took place. A process that dies before a call is a run in which this call
-- and hence everything after it is refused, so a statement over all faults covers a stop anywhere.
pub mod Keeps
use private_dns_operator.Prelude.{
  Bool, ◌&&◌, Option, none, some, List, [], ◌∷◌, ◌++◌, if◌then◌else◌,
}
use private_dns_operator.Text.{Text, ◌==◌}
use private_dns_operator.Types.{
  PrivateDnsZone, PrivateDnsZoneStatus, PrivateDnsRecord, PrivateDnsRecordStatus,
}
use private_dns_operator.Kube.{ConfigMap, Deployment, Error, not_found, message, Result, ok, err}

pub data Fault : Type 0 where
  fine : Fault
  refused : Error → Fault
  lost : Error → Fault

-- What the API server holds: the CoreDNS target, and the custom resources in the order in which
-- they are listed.
pub record Cluster : Type 0 where
  pub config_map : Option ConfigMap
  pub deployment : Option Deployment
  pub zones : List PrivateDnsZone
  pub records : List PrivateDnsRecord

pub data Write : Type 0 where
  wrote_config_map : Write
  wrote_deployment : Write
  wrote_zone : Text → Write
  patched_zone_status : Text → Write
  patched_record_status : Text → Text → Write

pub record World : Type 0 where
  pub cluster : Cluster
  pub faults : List Fault
  pub writes : List Write

abbrev pub Api : Type 0 → Type 0
Api A = World → Result A × World

infixl 5 ◌>>=◌ ◌>>◌
abbrev pub ◌>>=◌ : {A B : Type 0} → Api A → (A → Api B) → Api B
◌>>=◌ m f w = let (r, w') = m w in elim r [ ok a ↦ f a w' | err e ↦ (err e, w') ]

abbrev pub ◌>>◌ : {A B : Type 0} → Api A → Api B → Api B
m >> k = m >>= λ _. k

abbrev pub pure : {A : Type 0} → A → Api A
pure a w = (ok a, w)

abbrev pub fail : {A : Type 0} → Error → Api A
fail e w = (err e, w)

unfoldable pub next_fault : List Fault → Fault
next_fault [] = fine
next_fault (f ∷ fs) = f

unfoldable pub later_faults : List Fault → List Fault
later_faults [] = []
later_faults (f ∷ fs) = fs

unfoldable pub object_or_not_found : {A : Type 0} → Option A → Result A
object_or_not_found none = err not_found
object_or_not_found (some a) = ok a

unfoldable pub read_result : {A : Type 0} → Fault → Option A → Result A
unfolding object_or_not_found
read_result fine o = object_or_not_found o
read_result (refused e) o = err e
read_result (lost e) o = err e

-- `r.Get`
unfoldable pub get : {A : Type 0} → (Cluster → Option A) → Api A
unfolding next_fault later_faults read_result
get field w = (
  read_result (next_fault w.faults) (field w.cluster),
  record w { faults = later_faults w.faults },
)

-- The result of `r.Update`, and whether the object was written.
unfoldable pub written : Fault → Write → Cluster → World → Result (Unit {0}) × World
unfolding later_faults
written fine x c w =
    (ok tt, record { cluster = c; faults = later_faults w.faults; writes = w.writes ++ x ∷ [] })
written (refused e) x c w = (err e, record w { faults = later_faults w.faults })
written (lost e) x c w =
    (err e, record { cluster = c; faults = later_faults w.faults; writes = w.writes ++ x ∷ [] })

-- `r.Update` of the ConfigMap
unfoldable pub update_config_map : ConfigMap → Api (Unit {0})
unfolding next_fault later_faults written
update_config_map cm w =
    written (next_fault w.faults) wrote_config_map (record w.cluster { config_map = some cm }) w

-- `r.Update` of the Deployment
unfoldable pub update_deployment : Deployment → Api (Unit {0})
unfolding next_fault later_faults written
update_deployment dep w =
    written (next_fault w.faults) wrote_deployment (record w.cluster { deployment = some dep }) w

-- `r.List`
unfoldable pub list : {A : Type 0} → (Cluster → List A) → Api (List A)
unfolding next_fault later_faults read_result
list field w = (
  read_result (next_fault w.faults) (some (field w.cluster)),
  record w { faults = later_faults w.faults },
)

-- The objects after a change of one of them, if it is there.
unfoldable pub store : {A : Type 0} → (A → Bool) → (A → A) → List A → Option (List A)
store is_it change [] = none
store is_it change (x ∷ xs) =
    let rest = store is_it change xs in
    if is_it x then some (change x ∷ xs) else elim rest [ none ↦ none | some ys ↦ some (x ∷ ys) ]

-- A write to one of several objects: it is an error if the object is not there.
unfoldable pub stored : Fault → Write → Option Cluster → World → Result (Unit {0}) × World
unfolding read_result written later_faults
stored f x none w = (read_result f none, record w { faults = later_faults w.faults })
stored f x (some c) w = written f x c w

unfoldable pub with_zones : Cluster → Option (List PrivateDnsZone) → Option Cluster
with_zones c none = none
with_zones c (some zs) = some (record c { zones = zs })

unfoldable pub with_records : Cluster → Option (List PrivateDnsRecord) → Option Cluster
with_records c none = none
with_records c (some rs) = some (record c { records = rs })

-- `r.Update` of a zone, which leaves the status subresource as it is. A zone that is being deleted
-- stays in the list when its last finalizer goes.
unfoldable pub update_zone : PrivateDnsZone → Api (Unit {0})
unfolding stored with_zones store next_fault
update_zone zone w =
    stored (next_fault w.faults) (wrote_zone zone.meta.name)
      (with_zones w.cluster (
        store (λ z. z.meta.name == zone.meta.name) (λ z. record zone { status = z.status })
          w.cluster.zones))
      w

-- `r.Status().Patch` of a zone
unfoldable pub patch_zone_status : Text → PrivateDnsZoneStatus → Api (Unit {0})
unfolding stored with_zones store next_fault
patch_zone_status name status w =
    stored (next_fault w.faults) (patched_zone_status name)
      (with_zones w.cluster
        (store (λ z. z.meta.name == name) (λ z. record z { status = status }) w.cluster.zones))
      w

-- `r.Status().Patch` of a record
unfoldable pub patch_record_status : Text → Text → PrivateDnsRecordStatus → Api (Unit {0})
unfolding stored with_records store next_fault
patch_record_status namespace name status w =
    stored (next_fault w.faults) (patched_record_status namespace name)
      (with_records w.cluster (
        store (λ r. (r.meta.namespace == namespace) && (r.meta.name == name))
          (λ r. record r { status = status }) w.cluster.records))
      w

-- A call whose error is not returned.
unfoldable pub attempt : {A : Type 0} → Api A → Api (Result A)
attempt m w = let (r, w') = m w in (ok r, w')

-- `err != nil && !apierrors.IsNotFound(err)`
unfoldable pub absent_or_ok : Result (Unit {0}) → Result (Unit {0})
absent_or_ok (ok a) = ok a
absent_or_ok (err not_found) = ok tt
absent_or_ok (err (message m)) = err (message m)

unfoldable pub ignore_not_found : Api (Unit {0}) → Api (Unit {0})
unfolding absent_or_ok
ignore_not_found m w = let (r, w') = m w in (absent_or_ok r, w')
