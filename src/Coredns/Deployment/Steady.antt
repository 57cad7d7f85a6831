-- ===== src/Coredns/Deployment/Steady.antt =====
-- `EnsureZoneVolumeItems` of internal/coredns/deployment.go on a volume that has the items it wants.
use private_dns_operator.Prelude.{
  ◌≡◌, refl, ap, ◌∙◌, Bool, true, false, ◌||◌, List, [], ◌∷◌, arith, keep, is_empty,
}
use private_dns_operator.Text.{Text}
use private_dns_operator.Text.Eq.{eq_refl}
use private_dns_operator.Text.Set.{contains}
use private_dns_operator.Kube.{KeyToPath}
use private_dns_operator.Coredns.Deployment.{
  item_keys, add_items, stale_keys, drop_items, ensure_items,
}
use private_dns_operator.Coredns.Deployment.Items.{has_item}
use private_dns_operator.Coredns.Deployment.Volumes.{ensured}

add_items_same :
    (existing desired : List Text) (items : List KeyToPath)
    → ((k : Text) → contains desired k ≡ true → contains existing k ≡ true)
    → add_items existing desired items false ≡ (items, false)
unfolding add_items contains
add_items_same existing [] items h = refl
add_items_same existing (d ∷ desired) items h =
    let there : contains existing d ≡ true = h d (ground (arith, eq_refl d)) in
    rw there (add_items_same existing desired items (λ k m. h k (ground arith)))

stale_keys-none :
    (desired previous : List Text)
    → ((k : Text) → contains previous k ≡ true → contains desired k ≡ true)
    → stale_keys desired previous ≡ []
unfolding stale_keys keep contains
stale_keys-none desired [] h = refl
stale_keys-none desired (p ∷ previous) h =
    ground (arith, h p, eq_refl p, stale_keys-none desired previous (λ k m. h k (ground arith)))

drop_items_none : (items : List KeyToPath) → drop_items [] items false ≡ (items, false)
unfolding drop_items contains
drop_items_none [] = refl
drop_items_none (x ∷ items) = rw (drop_items_none items) refl

drop_items-none :
    (stale : List Text) (items : List KeyToPath)
    → stale ≡ []
    → (drop_items stale items false).1 ≡ false
drop_items-none stale items e =
    ap (λ (ks : List Text). (drop_items ks items false).1) e
    ∙ ap (λ (r : List KeyToPath × Bool). r.1) (drop_items_none items)

-- Where every wanted key has an item or the volume has no explicit ones, and all previous keys are
-- wanted, the call reports no change.
pub ensured_same :
    (desired previous : List Text) (items : List KeyToPath)
    → ((k : Text) → contains desired k ≡ true → (is_empty items || has_item items k) ≡ true)
    → ((k : Text) → contains previous k ≡ true → contains desired k ≡ true)
    → (ensured desired previous items).1 ≡ false
unfolding ensured ensure_items
ensured_same desired previous [] h p = refl
ensured_same desired previous (x ∷ items) h p =
    rw (add_items_same (item_keys (x ∷ items)) desired (x ∷ items) h) (
      drop_items-none (stale_keys desired previous) (x ∷ items)
        (stale_keys-none desired previous p))
