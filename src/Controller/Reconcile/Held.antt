-- ===== src/Controller/Reconcile/Held.antt =====
-- The finalizers of zones that are being deleted, while live zones are claimed and statuses written.
use private_dns_operator.Prelude.{
  ◌≡◌, refl, ◌∙◌, Bool, true, false, not, ◌&&◌, ◌||◌, List, [], ◌∷◌, ◌++◌, map, if◌then◌else◌, some,
  any, all, arith, Bool-cases, Option-cases, inl, inr,
}
use private_dns_operator.Text.{Text, ◌==◌}
use private_dns_operator.Text.Eq.{eq_iff, eq_refl}
use private_dns_operator.Text.Set.{contains}
use private_dns_operator.Types.{PrivateDnsZone, PrivateDnsZoneStatus}
use private_dns_operator.Kube.{Result, ok, err}
use private_dns_operator.Kube.Api.{Cluster, World, Api, ◌>>=◌, pure, store, update_zone}
use private_dns_operator.Kube.Api.Keeps.{Kept, zones-keeps}
use private_dns_operator.Coredns.ConfigMap.Files.{distinct}
use private_dns_operator.Controller.Reconcile.{
  private_dns_zone_finalizer, has_finalizer, with_finalizers, claim_zone, claim_zones,
}

-- A zone of this name that is being deleted and has the finalizer.
unfoldable pub is_terminating : Text → PrivateDnsZone → Bool
unfolding has_finalizer
is_terminating name z = (z.meta.name == name) && (z.meta.deleting && has_finalizer z)

abbrev pub zone_names : List PrivateDnsZone → List Text
zone_names zs = map (λ z. z.meta.name) zs

-- The same zones are held by the finalizer.
abbrev pub Holds : List PrivateDnsZone → Cluster → Type 0
Holds zs c = (name : Text) → any (is_terminating name) c.zones ≡ any (is_terminating name) zs

stored_status :
    (p : PrivateDnsZone → Bool) (name : Text) (status : PrivateDnsZoneStatus)
    (zs ys : List PrivateDnsZone)
    → ((z : PrivateDnsZone) → p (record z { status = status }) ≡ p z)
    → store (λ z. z.meta.name == name) (λ z. record z { status = status }) zs ≡ some ys
    → any p ys ≡ any p zs
unfolding store any
stored_status p name status [] ys same h = cc
stored_status p name status (z ∷ zs) ys same h =
    let rest =
      store (λ (x : PrivateDnsZone). x.meta.name == name) (λ x. record x { status = status }) zs in
    elim (Option-cases rest) [
      | inl e ↦ ground (arith, e, same z)
      | inr (xs, e) ↦ ground (arith, e, same z, stored_status p name status zs xs same e)
    ]

pub patched-Holds :
    (listed : List PrivateDnsZone) (c : Cluster) (name : Text) (status : PrivateDnsZoneStatus)
    (zs : List PrivateDnsZone)
    → store (λ z. z.meta.name == name) (λ z. record z { status = status }) c.zones ≡ some zs
    → Holds listed c
    → Holds listed (record c { zones = zs })
unfolding is_terminating
patched-Holds listed c name status zs h holds k =
    stored_status (is_terminating k) name status c.zones zs (λ z. refl) h ∙ holds k

stored_live :
    (zone : PrivateDnsZone) (k : Text) (zs ys : List PrivateDnsZone)
    → zone.meta.deleting ≡ false
    → any (is_terminating zone.meta.name) zs ≡ false
    → store (λ z. z.meta.name == zone.meta.name) (λ z. record zone { status = z.status }) zs
      ≡ some ys
    → any (is_terminating k) ys ≡ any (is_terminating k) zs
unfolding store any is_terminating
stored_live zone k [] ys live free h = cc
stored_live zone k (z ∷ zs) ys live free h =
    let rest =
      store (λ (x : PrivateDnsZone). x.meta.name == zone.meta.name)
        (λ x. record zone { status = x.status }) zs in
    elim (Option-cases rest) [
      | inl e ↦ ground (arith, e, eq_iff z.meta.name zone.meta.name, eq_iff z.meta.name k)
      | inr (xs, e) ↦ ground (
        arith,
        e,
        eq_iff z.meta.name zone.meta.name,
        eq_iff z.meta.name k,
        eq_iff zone.meta.name k,
        stored_live zone k zs xs live (ground arith) e,
      )
    ]

-- A live zone shares its name with none that is held.
unfoldable pub apart : List PrivateDnsZone → PrivateDnsZone → Bool
unfolding is_terminating any
apart zs z = z.meta.deleting || not (any (is_terminating z.meta.name) zs)

unnamed :
    (name : Text) (zs : List PrivateDnsZone)
    → contains (zone_names zs) name ≡ false
    → any (is_terminating name) zs ≡ false
unfolding contains any is_terminating
unnamed name [] h = refl
unnamed name (z ∷ zs) h = ground (arith, unnamed name zs)

apart_more :
    (z : PrivateDnsZone) (zs xs : List PrivateDnsZone)
    → contains (zone_names xs) z.meta.name ≡ false
    → all (apart zs) xs ≡ true
    → all (apart (z ∷ zs)) xs ≡ true
unfolding contains all apart any is_terminating
apart_more z zs [] fresh h = refl
apart_more z zs (x ∷ xs) fresh h =
    ground (arith, apart_more z zs xs, eq_iff z.meta.name x.meta.name, eq_refl x.meta.name)

pub distinct-apart :
    (zs : List PrivateDnsZone) → distinct (zone_names zs) ≡ true → all (apart zs) zs ≡ true
unfolding distinct all apart any is_terminating
distinct-apart [] h = refl
distinct-apart (z ∷ zs) h =
    ground (arith, distinct-apart zs, apart_more z zs zs, unnamed z.meta.name zs)

-- A zone after the claim.
unfoldable pub as_claimed : PrivateDnsZone → PrivateDnsZone
unfolding has_finalizer with_finalizers
as_claimed zone =
    if zone.meta.deleting || has_finalizer zone
    then zone
    else with_finalizers zone (zone.meta.finalizers ++ private_dns_zone_finalizer ∷ [])

-- A run that keeps a property, with the value that it returns if it returns one.
abbrev pub Returns : {A : Type 0} → (Cluster → Type 0) → A → Result A × World → Type 0
Returns P a (ok b, w) = (b ≡ a) × P w.cluster
Returns P a (err e, w) = P w.cluster

pub Returns-bind :
    {A B : Type 0} (P : Cluster → Type 0) (a : A) (b : B) (m : Result A × World) (f : A → Api B)
    → Returns P a m
    → ((w : World) → P w.cluster → Returns P b (f a w))
    → Returns P b (let (r, w') = m in elim r [ ok x ↦ f x w' | err e ↦ (err e, w') ])
Returns-bind P a b (ok x, w) f (e, h) rest = rw e (rest w h)
Returns-bind P a b (err e, w) f h rest = h

Returns-unit : (P : Cluster → Type 0) (r : Result (Unit {0}) × World) → Kept P r → Returns P tt r
Returns-unit P (ok tt, w) h = (refl, h)
Returns-unit P (err e, w) h = h

module _ (P : Cluster → Type 0) (listed : List PrivateDnsZone)
    (holds : (c : Cluster) → P c → Holds listed c)
    (closed : (c : Cluster) (zs : List PrivateDnsZone)
      → P c
      → Holds listed (record c { zones = zs })
      → P (record c { zones = zs })) where
  update_claimed :
      (zone : PrivateDnsZone) (w : World)
      → (zone.meta.deleting || has_finalizer zone) ≡ false
      → apart listed zone ≡ true
      → P w.cluster
      → Kept P (
          update_zone
            (with_finalizers zone (zone.meta.finalizers ++ private_dns_zone_finalizer ∷ []))
            w)
  unfolding update_zone with_finalizers apart
  update_claimed zone w live free h =
      zones-keeps P _ _ _ w
        (λ zs e. closed w.cluster zs h λ k.
          stored_live
            (with_finalizers zone (zone.meta.finalizers ++ private_dns_zone_finalizer ∷ [])) k
            w.cluster.zones zs (ground arith) (holds w.cluster h zone.meta.name ∙ ground arith) e
          ∙ holds w.cluster h k)
        h

  claim_zone-Returns :
      (zone : PrivateDnsZone) (w : World)
      → apart listed zone ≡ true
      → P w.cluster
      → Returns P (as_claimed zone) (claim_zone zone w)
  unfolding claim_zone as_claimed
  claim_zone-Returns zone w free h =
      let claimed =
        with_finalizers zone (zone.meta.finalizers ++ private_dns_zone_finalizer ∷ []) in
      elim (Bool-cases (zone.meta.deleting || has_finalizer zone)) [
        | inl e ↦ rw e (refl, h)
        | inr e ↦ rw e (
            Returns-bind P tt claimed (update_zone claimed w) (λ _. pure claimed)
              (Returns-unit P _ (update_claimed zone w e free h)) (λ w' k. (refl, k)))
      ]

  pub claim_zones-Returns :
      (zones : List PrivateDnsZone) (w : World)
      → all (apart listed) zones ≡ true
      → P w.cluster
      → Returns P (map as_claimed zones) (claim_zones zones w)
  unfolding claim_zones all
  claim_zones-Returns [] w free h = (refl, h)
  claim_zones-Returns (zone ∷ zones) w free h =
      Returns-bind P (as_claimed zone) (map as_claimed (zone ∷ zones)) (claim_zone zone w)
        (λ claimed. claim_zones zones >>= λ rest. pure (claimed ∷ rest))
        (claim_zone-Returns zone w (ground arith) h)
        λ w1 h1.
          Returns-bind P (map as_claimed zones) (map as_claimed (zone ∷ zones))
            (claim_zones zones w1) (λ rest. pure (as_claimed zone ∷ rest))
            (claim_zones-Returns zones w1 (ground arith) h1) λ w2 h2. (refl, h2)
