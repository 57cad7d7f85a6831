-- ===== src/Controller/Reconcile/Entry.antt =====
-- The reads with which `Reconcile` begins.
use private_dns_operator.Prelude.{◌≡◌, refl, List, some}
use private_dns_operator.Text.{Text}
use private_dns_operator.Kube.{ConfigMap, Error, Result, ok, err}
use private_dns_operator.Kube.Api.{
  Cluster, World, Fault, fine, refused, lost, Api, ◌>>=◌, list, get, attempt, next_fault,
  later_faults, read_result, object_or_not_found,
}
use private_dns_operator.Kube.Machinery.{Machinery}
use private_dns_operator.Dns.Record.{Record}
use private_dns_operator.Controller.Commit.{Reconciler}
use private_dns_operator.Controller.Reconcile.{Clock, with_target, reconcile}

abbrev pub spend : World → World
spend w = record w { faults = later_faults w.faults }

-- A property of the run after a read, if it holds where the read succeeds and where it fails.
list-cases :
    {A B : Type 0} (Q : Result B × World → Type 0) (field : Cluster → List A) (f : List A → Api B)
    (w : World)
    → Q (f (field w.cluster) (spend w))
    → ((e : Error) → Q (err e, spend w))
    → Q ((list field >>= f) w)
unfolding list read_result object_or_not_found
list-cases {A} {B} Q field f w good bad = go (next_fault w.faults)
  where
    go :
        (x : Fault)
        → Q (elim (read_result x (some (field w.cluster))) [
          | ok a ↦ f a (spend w)
          | err e ↦ (err e, spend w)
        ])
    go fine = good
    go (refused e) = bad e
    go (lost e) = bad e

-- What the third call of a run, the read of the ConfigMap, answers.
unfoldable pub target_of : World → Result ConfigMap
unfolding next_fault later_faults read_result
target_of w = read_result (next_fault (later_faults (later_faults w.faults))) w.cluster.config_map

module _ (sha1_hex : Text → Text) (order : List Record → List Record) (m : Machinery)
    (clock : Clock) (r : Reconciler) where
  pub reconcile-cases :
      (Q : Result (Unit {0}) × World → Type 0) (w : World)
      → Q (
          with_target sha1_hex order m clock r w.cluster.zones w.cluster.records
            (target_of w)
            (spend (spend (spend w))))
      → ((e : Error) (w' : World) → w'.cluster ≡ w.cluster → Q (err e, w'))
      → Q (reconcile sha1_hex order m clock r w)
  unfolding reconcile target_of attempt get
  reconcile-cases Q w good bad =
      let target = attempt (get (λ c. c.config_map)) in
      let records = list (λ c. c.records) in
      list-cases Q (λ c. c.zones)
        (λ zs. records >>= λ rs. target >>= λ t. with_target sha1_hex order m clock r zs rs t) w
        (list-cases Q (λ c. c.records)
          (λ rs. target >>= λ t. with_target sha1_hex order m clock r w.cluster.zones rs t)
          (spend w) good (λ e. bad e (spend (spend w)) refl))
        (λ e. bad e (spend w) refl)
