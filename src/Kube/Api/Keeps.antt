-- ===== src/Kube/Api/Keeps.antt =====
-- What a run keeps whatever calls fail, and runs that never return a value.
use private_dns_operator.Prelude.{◌≡◌, refl, List, Option, none, some}
use private_dns_operator.Types.{PrivateDnsZone, PrivateDnsRecord}
use private_dns_operator.Kube.{Result, ok, err}
use private_dns_operator.Kube.Api.{
  Cluster, World, Write, Fault, fine, refused, lost, Api, ◌>>=◌, ◌>>◌, get, list, written, stored,
  with_zones, with_records, attempt, ignore_not_found,
}

module _ (P : Cluster → Type 0) where
  -- It holds after the run.
  abbrev pub Kept : {A : Type 0} → Result A × World → Type 0
  Kept (r, w) = P w.cluster

  abbrev pub Keeps : {A : Type 0} → Api A → Type 0
  Keeps m = (w : World) → P w.cluster → Kept (m w)

  pub Keeps-bind :
      {A B : Type 0} (m : Api A) (f : A → Api B)
      → Keeps m
      → ((a : A) → Keeps (f a))
      → Keeps (m >>= f)
  Keeps-bind {A} {B} m f first rest w h = go (m w) (first w h)
    where
      go :
          (r : Result A × World)
          → Kept r
          → Kept {A = B} (let (x, w') = r in elim x [ ok a ↦ f a w' | err e ↦ (err e, w') ])
      go (ok a, w') h' = rest a w' h'
      go (err e, w') h' = h'

  pub Keeps-then : {A B : Type 0} (m : Api A) (k : Api B) → Keeps m → Keeps k → Keeps (m >> k)
  Keeps-then m k first rest = Keeps-bind m (λ _. k) first (λ _. rest)

  pub written-keeps :
      (f : Fault) (x : Write) (c : Cluster) (w : World) → P c → P w.cluster → Kept (written f x c w)
  unfolding written
  written-keeps fine x c w new old = new
  written-keeps (refused e) x c w new old = old
  written-keeps (lost e) x c w new old = new

  pub get-Keeps : {A : Type 0} (field : Cluster → Option A) → Keeps (get field)
  unfolding get
  get-Keeps field w h = h

  pub list-Keeps : {A : Type 0} (field : Cluster → List A) → Keeps (list field)
  unfolding list
  list-Keeps field w h = h

  pub attempt-Keeps : {A : Type 0} (m : Api A) → Keeps m → Keeps (attempt m)
  unfolding attempt
  attempt-Keeps m keeps w h = keeps w h

  pub ignore_not_found-Keeps : (m : Api (Unit {0})) → Keeps m → Keeps (ignore_not_found m)
  unfolding ignore_not_found
  ignore_not_found-Keeps m keeps w h = keeps w h

-- Runs that end with an error.
abbrev pub IsErr : {A : Type 0} → Result A × World → Type 0
IsErr (ok a, w) = ⊥
IsErr (err e, w) = Unit {0}

abbrev pub Fails : {A : Type 0} → Api A → Type 0
Fails m = (w : World) → IsErr (m w)

pub Fails-bind :
    {A B : Type 0} (m : Api A) (f : A → Api B) → ((a : A) → Fails (f a)) → Fails (m >>= f)
Fails-bind {A} {B} m f rest w = go (m w)
  where
    go :
        (r : Result A × World)
        → IsErr {A = B} (let (x, w') = r in elim x [ ok a ↦ f a w' | err e ↦ (err e, w') ])
    go (ok a, w') = rest a w'
    go (err e, w') = tt

module _ (P : Cluster → Type 0) where
  pub zones-keeps :
      (f : Fault) (x : Write) (o : Option (List PrivateDnsZone)) (w : World)
      → ((zs : List PrivateDnsZone) → o ≡ some zs → P (record w.cluster { zones = zs }))
      → P w.cluster
      → Kept P (stored f x (with_zones w.cluster o) w)
  unfolding stored with_zones
  zones-keeps f x none w new old = old
  zones-keeps f x (some zs) w new old = written-keeps P f x _ w (new zs refl) old

  pub records-keeps :
      (f : Fault) (x : Write) (o : Option (List PrivateDnsRecord)) (w : World)
      → ((rs : List PrivateDnsRecord) → P (record w.cluster { records = rs }))
      → P w.cluster
      → Kept P (stored f x (with_records w.cluster o) w)
  unfolding stored with_records
  records-keeps f x none w new old = old
  records-keeps f x (some rs) w new old = written-keeps P f x _ w (new rs) old
