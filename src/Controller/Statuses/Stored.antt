-- ===== src/Controller/Statuses/Stored.antt =====
-- What `writeZoneStatuses` leaves in the cluster where no call fails.
use private_dns_operator.Prelude.{
  ℕ, ◌≡◌, refl, ap, subst, sym, ◌∙◌, Bool, true, false, not, ◌||◌, List, [], ◌∷◌, ◌++◌, map,
  append_assoc, if◌then◌else◌, Option, none, some, all, arith,
}
use private_dns_operator.Text.{Text, ◌==◌}
use private_dns_operator.Text.Eq.{eq_iff, eq_refl}
use private_dns_operator.Text.Set.{contains}
use private_dns_operator.Text.Map.{Map, lookup}
use private_dns_operator.Types.{PrivateDnsZone, PrivateDnsZoneStatus}
use private_dns_operator.Kube.{Result, ok, err}
use private_dns_operator.Kube.Api.{
  World, Api, pure, store, stored, written, with_zones, next_fault, later_faults, absent_or_ok,
  ignore_not_found, patch_zone_status,
}
use private_dns_operator.Kube.Machinery.{Machinery, MachineryLaws}
use private_dns_operator.Coredns.ConfigMap.Files.{distinct}
use private_dns_operator.Controller.Results.{ZoneResult}
use private_dns_operator.Controller.Statuses.{zone_status, write_zone_status, write_zone_statuses}
use private_dns_operator.Controller.Statuses.Settled.{settled_zone, settled_zones, settled_name}

abbrev pub names : List PrivateDnsZone → List Text
names zs = map (λ z. z.meta.name) zs

-- The run returns, meets no fault and leaves these zones.
abbrev pub Leaves : List PrivateDnsZone → Result (Unit {0}) × World → Type 0
Leaves zs (ok a, w) = (w.faults ≡ []) × (w.cluster.zones ≡ zs)
Leaves zs (err e, w) = ⊥

Leaves-then :
    (zs ys : List PrivateDnsZone) (m : Result (Unit {0}) × World) (k : Api (Unit {0}))
    → Leaves ys m
    → ((w : World) → w.faults ≡ [] → w.cluster.zones ≡ ys → Leaves zs (k w))
    → Leaves zs (let (r, w') = m in elim r [ ok a ↦ k w' | err e ↦ (err e, w') ])
Leaves-then zs ys (ok a, w) k (q, e) rest = rest w q e
Leaves-then zs ys (err x, w) k h rest = absurd h

put_status :
    (done zs : List PrivateDnsZone) (zone : PrivateDnsZone) (status : PrivateDnsZoneStatus)
    → contains (names done) zone.meta.name ≡ false
    → store
        (λ z. z.meta.name == zone.meta.name)
        (λ z. record z { status = status })
        (done ++ zone ∷ zs)
      ≡ some (done ++ record zone { status = status } ∷ zs)
unfolding store contains
put_status [] zs zone status h = ground (arith, eq_refl zone.meta.name)
put_status (d ∷ done) zs zone status h = ground (arith, put_status done zs zone status)

patch-Leaves :
    (done zs : List PrivateDnsZone) (zone : PrivateDnsZone) (status : PrivateDnsZoneStatus)
    (w : World)
    → contains (names done) zone.meta.name ≡ false
    → w.faults ≡ []
    → w.cluster.zones ≡ done ++ zone ∷ zs
    → Leaves
        (done ++ record zone { status = status } ∷ zs)
        (ignore_not_found (patch_zone_status zone.meta.name status) w)
unfolding ignore_not_found patch_zone_status stored written with_zones next_fault later_faults
    absent_or_ok
patch-Leaves done zs zone status w h q e = rw (q, e, put_status done zs zone status h) (refl, refl)

choose-Leaves :
    (done zs : List PrivateDnsZone) (zone new : PrivateDnsZone) (skip same : Bool)
    (call : Api (Unit {0})) (w : World)
    → Leaves (done ++ zone ∷ zs) (ok tt, w)
    → (same ≡ true → zone ≡ new)
    → Leaves (done ++ new ∷ zs) (call w)
    → Leaves
        (done ++ (if skip then zone else new) ∷ zs)
        ((if skip then pure tt else if same then pure tt else call) w)
choose-Leaves done zs zone new true same call w old equal fresh = old
choose-Leaves done zs zone new false true call w old equal fresh = rw (← equal refl) old
choose-Leaves done zs zone new false false call w old equal fresh = fresh

contains_last :
    (done : List PrivateDnsZone) (new : PrivateDnsZone) (k : Text)
    → contains (names (done ++ new ∷ [])) k ≡ (contains (names done) k || (new.meta.name == k))
unfolding contains
contains_last [] new k = ground arith
contains_last (d ∷ done) new k = ground (arith, contains_last done new k)

-- The names of the zones that are still to be written do not occur among those that are done.
later_fresh :
    (done zs : List PrivateDnsZone) (zone new : PrivateDnsZone)
    → new.meta.name ≡ zone.meta.name
    → contains (names zs) zone.meta.name ≡ false
    → all (λ z. not (contains (names done) z.meta.name)) zs ≡ true
    → all (λ z. not (contains (names (done ++ new ∷ [])) z.meta.name)) zs ≡ true
unfolding all contains
later_fresh done [] zone new e fresh h = refl
later_fresh done (z ∷ zs) zone new e fresh h = ground (
  arith,
  later_fresh done zs zone new e,
  contains_last done new z.meta.name,
  ap (λ n. n == z.meta.name) e,
  eq_iff zone.meta.name z.meta.name,
  eq_iff z.meta.name zone.meta.name,
)

module _ (m : Machinery) (laws : MachineryLaws m) (clock : Text → Text → ℕ)
    (results : Map ZoneResult) (reloadable : Bool) where
  write-Leaves :
      (done zs : List PrivateDnsZone) (zone : PrivateDnsZone) (o : Option ZoneResult) (w : World)
      → contains (names done) zone.meta.name ≡ false
      → w.faults ≡ []
      → w.cluster.zones ≡ done ++ zone ∷ zs
      → Leaves
          (done ++ settled_zone m clock reloadable zone o ∷ zs)
          (write_zone_status m clock reloadable zone o w)
  unfolding write_zone_status settled_zone
  write-Leaves done zs zone none w h q e = (q, e)
  write-Leaves done zs zone (some result) w h q e =
      let status = zone_status m clock reloadable zone result in
      choose-Leaves done zs zone (record zone { status = status }) zone.meta.deleting
        (m.equal_zone_status zone.status status)
        (ignore_not_found (patch_zone_status zone.meta.name status)) w (q, e)
        (λ same.
          ap (λ s. record zone { status = s }) (laws.zone_status_equal zone.status status same))
        (patch-Leaves done zs zone status w h q e)

  loop-Leaves :
      (done zones : List PrivateDnsZone) (w : World)
      → all (λ z. not (contains (names done) z.meta.name)) zones ≡ true
      → distinct (names zones) ≡ true
      → w.faults ≡ []
      → w.cluster.zones ≡ done ++ zones
      → Leaves
          (done ++ settled_zones m clock reloadable results zones)
          (write_zone_statuses m clock zones results reloadable w)
  unfolding write_zone_statuses all distinct
  loop-Leaves done [] w h d q e = (q, e)
  loop-Leaves done (zone ∷ zones) w h d q e =
      let o = lookup zone.meta.name results in
      let new = settled_zone m clock reloadable zone o in
      let rest = settled_zones m clock reloadable results zones in
      Leaves-then (done ++ new ∷ rest) (done ++ new ∷ zones)
        (write_zone_status m clock reloadable zone o w)
        (write_zone_statuses m clock zones results reloadable)
        (write-Leaves done zones zone o w (ground arith) q e)
        λ w' q' e'.
          subst (λ zs. Leaves zs (write_zone_statuses m clock zones results reloadable w'))
            (append_assoc done (new ∷ []) rest)
            (loop-Leaves (done ++ new ∷ []) zones w'
              (later_fresh done zones zone new (settled_name m clock reloadable zone o)
                (ground arith) (ground arith))
              (ground arith) q' (e' ∙ sym (append_assoc done (new ∷ []) zones)))

  none_done :
      (zones : List PrivateDnsZone) → all (λ z. not (contains (names []) z.meta.name)) zones ≡ true
  unfolding all contains
  none_done [] = refl
  none_done (z ∷ zs) = none_done zs

  -- Where no call fails and the zones have names of their own, writeZoneStatuses returns and
  -- leaves in the cluster each zone with the status for its result, whether it had to be written
  -- or not, and a zone that is being deleted or has no result as it was. Assumed is that statuses
  -- that compare equal are equal.
  pub write_zone_statuses-Leaves :
      (w : World)
      → distinct (names w.cluster.zones) ≡ true
      → w.faults ≡ []
      → Leaves
          (settled_zones m clock reloadable results w.cluster.zones)
          (write_zone_statuses m clock w.cluster.zones results reloadable w)
  write_zone_statuses-Leaves w d q =
      loop-Leaves [] w.cluster.zones w (none_done w.cluster.zones) d q refl
