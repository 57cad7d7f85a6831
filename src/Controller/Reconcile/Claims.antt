-- ===== src/Controller/Reconcile/Claims.antt =====
-- The claim of live zones where no call fails.
use private_dns_operator.Prelude.{
  ◌≡◌, refl, ◌∙◌, Bool, true, ◌||◌, List, [], ◌∷◌, ◌++◌, map, Option, some, any, all, arith,
  Bool-cases, inl, inr,
}
use private_dns_operator.Text.{Text, ◌==◌}
use private_dns_operator.Text.Eq.{eq_iff, eq_refl}
use private_dns_operator.Types.{PrivateDnsZone}
use private_dns_operator.Kube.{Result, ok, err}
use private_dns_operator.Kube.Api.{
  Cluster, World, Api, ◌>>=◌, pure, stored, with_zones, written, store, next_fault, later_faults,
  update_zone,
}
use private_dns_operator.Controller.Reconcile.{
  has_finalizer, claim_zone, claim_zones, with_finalizers, private_dns_zone_finalizer,
}
use private_dns_operator.Controller.Reconcile.Held.{as_claimed}

-- The zones with a name, and what a claim leaves of them.
abbrev pub named : Text → List PrivateDnsZone → Bool
named name zs = any (λ z. z.meta.name == name) zs

abbrev update_in : PrivateDnsZone → List PrivateDnsZone → Option (List PrivateDnsZone)
update_in zone zs =
    store (λ z. z.meta.name == zone.meta.name) (λ z. record zone { status = z.status }) zs

store_named :
    (zone : PrivateDnsZone) (zs : List PrivateDnsZone)
    → named zone.meta.name zs ≡ true
    → (ys : List PrivateDnsZone) × (update_in zone zs ≡ some ys)
      × ((k : Text) → named k ys ≡ named k zs)
unfolding store any
store_named zone [] h = cc
store_named zone (z ∷ zs) h = elim (Bool-cases (z.meta.name == zone.meta.name)) [
  | inl e ↦ (
    record zone { status = z.status } ∷ zs,
    rw e refl,
    λ k. ground (arith, eq_iff z.meta.name zone.meta.name),
  )
  | inr e ↦
      (let (ys, found, same) = store_named zone zs (ground arith) in
        (z ∷ ys, rw (e, found) refl, λ k. ground (arith, same k)))
]

-- A run that returns this value and meets no fault.
abbrev pub Gives : {A : Type 0} → (Cluster → Type 0) → A → Result A × World → Type 0
Gives P a (ok b, w) = (b ≡ a) × (w.faults ≡ []) × P w.cluster
Gives P a (err e, w) = ⊥

pub Gives-bind :
    {A B : Type 0} (P : Cluster → Type 0) (a : A) (b : B) (m : Result A × World) (f : A → Api B)
    → Gives P a m
    → ((w : World) → w.faults ≡ [] → P w.cluster → Gives P b (f a w))
    → Gives P b (let (r, w') = m in elim r [ ok x ↦ f x w' | err e ↦ (err e, w') ])
Gives-bind P a b (ok x, w) f (e, q, h) rest = rw e (rest w q h)
Gives-bind P a b (err e, w) f h rest = absurd h

module _ (P : Cluster → Type 0) (listed : List PrivateDnsZone)
    (present : (c : Cluster) → P c → (k : Text) → named k c.zones ≡ named k listed)
    (closed : (c : Cluster) (zs : List PrivateDnsZone)
      → P c
      → ((k : Text) → named k zs ≡ named k listed)
      → P (record c { zones = zs })) where
  update_zone-Gives :
      (zone : PrivateDnsZone) (w : World)
      → named zone.meta.name listed ≡ true
      → w.faults ≡ []
      → P w.cluster
      → Gives P tt (update_zone zone w)
  unfolding update_zone next_fault later_faults stored with_zones written
  update_zone-Gives zone w there q h =
      let (ys, found, same) =
        store_named zone w.cluster.zones (present w.cluster h zone.meta.name ∙ there) in
      rw (q, found) (refl, refl, closed w.cluster ys h (λ k. same k ∙ present w.cluster h k))

  claim_zone-Gives :
      (zone : PrivateDnsZone) (w : World)
      → named zone.meta.name listed ≡ true
      → w.faults ≡ []
      → P w.cluster
      → Gives P (as_claimed zone) (claim_zone zone w)
  unfolding claim_zone as_claimed with_finalizers
  claim_zone-Gives zone w there q h =
      let claimed =
        with_finalizers zone (zone.meta.finalizers ++ private_dns_zone_finalizer ∷ []) in
      elim (Bool-cases (zone.meta.deleting || has_finalizer zone)) [
        | inl e ↦ rw e (refl, q, h)
        | inr e ↦ rw e (
            Gives-bind P tt claimed (update_zone claimed w) (λ _. pure claimed)
              (update_zone-Gives claimed w there q h) (λ w' q' k. (refl, q', k)))
      ]

  pub claim_zones-Gives :
      (zones : List PrivateDnsZone) (w : World)
      → all (λ z. named z.meta.name listed) zones ≡ true
      → w.faults ≡ []
      → P w.cluster
      → Gives P (map as_claimed zones) (claim_zones zones w)
  unfolding claim_zones all
  claim_zones-Gives [] w there q h = (refl, q, h)
  claim_zones-Gives (zone ∷ zones) w there q h =
      Gives-bind P (as_claimed zone) (map as_claimed (zone ∷ zones)) (claim_zone zone w)
        (λ claimed. claim_zones zones >>= λ rest. pure (claimed ∷ rest))
        (claim_zone-Gives zone w (ground arith) q h)
        λ w1 q1 h1.
          Gives-bind P (map as_claimed zones) (map as_claimed (zone ∷ zones)) (claim_zones zones w1)
            (λ rest. pure (as_claimed zone ∷ rest))
            (claim_zones-Gives zones w1 (ground arith) q1 h1) λ w2 q2 h2. (refl, q2, h2)

-- Every zone of a list is named in it.
all_named :
    (x : PrivateDnsZone) (zs xs : List PrivateDnsZone)
    → all (λ z. named z.meta.name zs) xs ≡ true
    → all (λ z. named z.meta.name (x ∷ zs)) xs ≡ true
unfolding all any
all_named x zs [] h = refl
all_named x zs (y ∷ ys) h = ground (arith, all_named x zs ys)

pub named-all : (zs : List PrivateDnsZone) → all (λ z. named z.meta.name zs) zs ≡ true
unfolding all any
named-all [] = refl
named-all (z ∷ zs) = ground (arith, eq_refl z.meta.name, all_named z zs zs (named-all zs))
