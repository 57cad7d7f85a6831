-- ===== src/Coredns/Deployment/Items.antt =====
-- What EnsureZoneVolumeItems does to the explicit items of a volume, as sets of keys.
use private_dns_operator.Prelude.{
  ◌≡◌, refl, ap, ◌∙◌, Bool, false, not, ◌&&◌, ◌||◌, List, [], ◌∷◌, ◌++◌, if◌then◌else◌, arith,
  insert_by, sort_by,
}
use private_dns_operator.Text.{Text, ◌==◌}
use private_dns_operator.Text.Eq.{eq_iff}
use private_dns_operator.Text.Set.{contains, contains-keep}
use private_dns_operator.Kube.{KeyToPath}
use private_dns_operator.Coredns.Deployment.{
  item_keys, add_items, stale_keys, drop_items, item_lt, ensure_items,
}

-- The items as a set of keys.
abbrev pub has_item : List KeyToPath → Text → Bool
has_item items k = contains (item_keys items) k

has_item-append :
    (xs : List KeyToPath) (y : KeyToPath) (k : Text)
    → has_item (xs ++ y ∷ []) k ≡ (has_item xs k || (y.key == k))
unfolding item_keys contains
has_item-append [] y k = ground arith
has_item-append (x ∷ xs) y k = ground (arith, has_item-append xs y k)

has_item-insert_by :
    (x : KeyToPath) (xs : List KeyToPath) (k : Text)
    → has_item (insert_by item_lt x xs) k ≡ ((x.key == k) || has_item xs k)
unfolding item_keys contains insert_by
has_item-insert_by x [] k = ground arith
has_item-insert_by x (y ∷ ys) k = ground (arith, has_item-insert_by x ys k)

pub has_item-sort_by :
    (xs : List KeyToPath) (k : Text) → has_item (sort_by item_lt xs) k ≡ has_item xs k
unfolding item_keys contains sort_by
has_item-sort_by [] k = refl
has_item-sort_by (x ∷ xs) k =
    ground (arith, has_item-insert_by x (sort_by item_lt xs) k, has_item-sort_by xs k)

has_item-add_items :
    (existing desired : List Text) (items : List KeyToPath) (ch : Bool) (k : Text)
    → has_item (add_items existing desired items ch).0 k
      ≡ (has_item items k || (contains desired k && not (contains existing k)))
unfolding add_items contains
has_item-add_items existing [] items ch k = ground arith
has_item-add_items existing (d ∷ desired) items ch k = rw (has_item-add_items existing desired) (
    ground (
      arith,
      has_item-append items (record { key = d; path = d }) k,
      eq_iff d k,
      λ (e : d ≡ k). ap (contains existing) e,
    ))

has_item-drop_items :
    (stale : List Text) (items : List KeyToPath) (ch : Bool) (k : Text)
    → has_item (drop_items stale items ch).0 k ≡ (has_item items k && not (contains stale k))
unfolding drop_items contains item_keys
has_item-drop_items stale [] ch k = refl
has_item-drop_items stale (x ∷ items) ch k = ground (
  arith,
  has_item-drop_items stale items (contains stale x.key || ch) k,
  eq_iff x.key k,
  λ (e : x.key ≡ k). ap (contains stale) e,
)

contains-stale_keys :
    (desired previous : List Text) (k : Text)
    → contains (stale_keys desired previous) k ≡ (not (contains desired k) && contains previous k)
unfolding stale_keys
contains-stale_keys desired previous k =
    contains-keep (λ key. not (contains desired key)) previous k

-- The mounted keys afterwards: the desired ones, and those before that were never claimed.
pub has_item-ensure_items :
    (desired previous : List Text) (items : List KeyToPath) (k : Text)
    → has_item (ensure_items desired previous items).0 k
      ≡ (contains desired k || (has_item items k && not (contains previous k)))
unfolding ensure_items
has_item-ensure_items desired previous items k =
    let added = (add_items (item_keys items) desired items false).0 in
    rw
      (
        has_item-sort_by (drop_items (stale_keys desired previous) added _).0 k,
        has_item-drop_items (stale_keys desired previous) added _ k,
        has_item-add_items (item_keys items) desired items false k,
        contains-stale_keys desired previous k,
      )
      (ground arith)

add_items_changed :
    (existing desired : List Text) (items : List KeyToPath) (ch : Bool)
    → (add_items existing desired items ch).1 ≡ false
    → (ch ≡ false) × ((add_items existing desired items ch).0 ≡ items)
unfolding add_items
add_items_changed existing [] items ch h = (h, refl)
add_items_changed existing (d ∷ desired) items ch h = ground (
  arith,
  add_items_changed existing desired
      (if not (contains existing d) then items ++ record { key = d; path = d } ∷ [] else items)
      (not (contains existing d) || ch),
)

drop_items_changed :
    (stale : List Text) (items : List KeyToPath) (ch : Bool)
    → (drop_items stale items ch).1 ≡ false
    → (ch ≡ false) × ((drop_items stale items ch).0 ≡ items)
unfolding drop_items
drop_items_changed stale [] ch h = (h, refl)
drop_items_changed stale (x ∷ items) ch h =
    let ih = drop_items_changed stale items (contains stale x.key || ch) h in
    ground (arith, ih, ap (λ (r : List KeyToPath). x ∷ r) ih.1)

-- A call that reports no change has at most sorted the items.
pub ensure_items_unchanged :
    (desired previous : List Text) (items : List KeyToPath)
    → (ensure_items desired previous items).1 ≡ false
    → (ensure_items desired previous items).0 ≡ sort_by item_lt items
unfolding ensure_items
ensure_items_unchanged desired previous items h =
    let (appended, filtered) = drop_items_changed (stale_keys desired previous) _ _ h in
    let (_, added) = add_items_changed (item_keys items) desired items false appended in
    ap (sort_by item_lt) (filtered ∙ added)
