-- ===== src/Controller/Outcomes.antt =====
-- The outcomes of record objects before and after their zone is rendered: `newRecordOutcomes` and
-- `markZoneRecordsNotReady` of internal/controller/privatednszone_controller.go.
mod Tests
use private_dns_operator.Prelude.{
  ◌≡◌, refl, ap, ◌∙◌, Bool, true, false, not, ◌&&◌, ◌||◌, List, [], ◌∷◌, ◌++◌, if◌then◌else◌,
  Option, none, some, any, arith, Bool-cases, inl, inr,
}
use private_dns_operator.Text.{Text, ◌==◌, codes}
use private_dns_operator.Text.Eq.{eq_iff}
use private_dns_operator.Text.Map.{Map, lookup, insert, lookup-insert}
use private_dns_operator.Text.Quote.{quote}
use private_dns_operator.Types.{PrivateDnsRecord}
use private_dns_operator.Controller.Records.{
  Reason, accepted_reason, namespace_not_allowed, invalid_record, conflicting_records,
  zone_not_found, zone_not_ready, RecordOutcome, rejection, record_key,
}

abbrev pub key_of : PrivateDnsRecord → Text
key_of r = record_key r.meta.namespace r.meta.name

unfoldable pub absent_zone : PrivateDnsRecord → RecordOutcome
unfolding rejection quote
absent_zone r =
    rejection zone_not_found
      (codes "no PrivateDNSZone named " ++ (quote r.spec.zone_ref.name ++ codes " is available"))

-- newRecordOutcomes
unfoldable pub new_record_outcomes : List PrivateDnsRecord → Map RecordOutcome → Map RecordOutcome
unfolding absent_zone record_key insert
new_record_outcomes [] outcomes = outcomes
new_record_outcomes (r ∷ rs) outcomes =
    new_record_outcomes rs (insert (key_of r) (absent_zone r) outcomes)

unfoldable pub is_zone_not_found : Reason → Bool
is_zone_not_found zone_not_found = true
is_zone_not_found _ = false

-- The outcome may be replaced: there is none, or it is no rejection of its own.
unfoldable pub is_open : Option RecordOutcome → Bool
unfolding is_zone_not_found
is_open none = true
is_open (some outcome) = outcome.accepted || is_zone_not_found outcome.reason

-- Reasons for a rejection that a record keeps when its zone is not ready.
unfoldable pub is_own_reason : Reason → Bool
is_own_reason namespace_not_allowed = true
is_own_reason invalid_record = true
is_own_reason conflicting_records = true
is_own_reason zone_not_ready = true
is_own_reason accepted_reason = true
is_own_reason zone_not_found = false

-- The record is rejected for such a reason.
unfoldable pub stands_rejected : Option RecordOutcome → Bool
unfolding is_own_reason
stands_rejected none = false
stands_rejected (some outcome) = if outcome.accepted then false else is_own_reason outcome.reason

is_own_reason_lem : (reason : Reason) → is_zone_not_found reason ≡ not (is_own_reason reason)
unfolding is_zone_not_found is_own_reason
is_own_reason_lem namespace_not_allowed = refl
is_own_reason_lem invalid_record = refl
is_own_reason_lem conflicting_records = refl
is_own_reason_lem zone_not_ready = refl
is_own_reason_lem accepted_reason = refl
is_own_reason_lem zone_not_found = refl

is_open-rejected :
    (outcome : Option RecordOutcome) → is_open outcome ≡ not (stands_rejected outcome)
unfolding is_open stands_rejected
is_open-rejected none = refl
is_open-rejected (some outcome) = ground (arith, is_own_reason_lem outcome.reason)

module _ (zone_name text : Text) where
  unfoldable pub not_ready : RecordOutcome
  unfolding rejection quote
  not_ready =
      rejection zone_not_ready
        (codes "zone " ++ (quote zone_name ++ (codes " is not ready: " ++ text)))

  -- markZoneRecordsNotReady
  unfoldable pub mark_zone_records_not_ready :
      List PrivateDnsRecord → Map RecordOutcome → Map RecordOutcome
  unfolding not_ready is_open record_key insert lookup
  mark_zone_records_not_ready [] outcomes = outcomes
  mark_zone_records_not_ready (r ∷ rs) outcomes =
      let replaced = (r.spec.zone_ref.name == zone_name) && is_open (lookup (key_of r) outcomes) in
      mark_zone_records_not_ready rs
        (if replaced then insert (key_of r) not_ready outcomes else outcomes)

  -- A record of the zone that has this key.
  abbrev pub is_record : Text → PrivateDnsRecord → Bool
  is_record key r = (r.spec.zone_ref.name == zone_name) && (key_of r == key)

  -- Marked, if the outcome is open and the key is that of a record of the zone.
  abbrev marked : Bool → Option RecordOutcome → Option RecordOutcome
  marked here outcome = if here && is_open outcome then some not_ready else outcome

  not_ready-closed : is_open (some not_ready) ≡ false
  unfolding not_ready is_open
  not_ready-closed = refl

  marked_again : (a b : Bool) (o : Option RecordOutcome) → marked b (marked a o) ≡ marked (a || b) o
  marked_again a b o = ground (arith, not_ready-closed)

  step :
      (r : PrivateDnsRecord) (outcomes : Map RecordOutcome) (key : Text)
      → lookup key (
          if (r.spec.zone_ref.name == zone_name) && is_open (lookup (key_of r) outcomes)
          then insert (key_of r) not_ready outcomes
          else outcomes)
        ≡ marked (is_record key r) (lookup key outcomes)
  step r outcomes key = ground (
    arith,
    lookup-insert (key_of r) key not_ready outcomes,
    eq_iff (key_of r) key,
    λ (e : key_of r ≡ key). ap (λ k. is_open (lookup k outcomes)) e,
  )

  lookup-marked :
      (rs : List PrivateDnsRecord) (outcomes : Map RecordOutcome) (key : Text)
      → lookup key (mark_zone_records_not_ready rs outcomes)
        ≡ marked (any (is_record key) rs) (lookup key outcomes)
  unfolding mark_zone_records_not_ready any
  lookup-marked [] outcomes key = refl
  lookup-marked (r ∷ rs) outcomes key =
      lookup-marked rs _ key
      ∙ ap (marked (any (is_record key) rs)) (step r outcomes key)
      ∙ marked_again (is_record key r) (any (is_record key) rs) (lookup key outcomes)

  -- The outcome of a record that waits for its zone.
  abbrev pub waiting : RecordOutcome
  waiting = record {
    fqdn = [];
    accepted = false;
    reason = zone_not_ready;
    message = codes "zone " ++ (quote zone_name ++ (codes " is not ready: " ++ text));
  }

  not_ready-waiting : not_ready ≡ waiting
  unfolding not_ready rejection
  not_ready-waiting = refl

  marked_lem :
      (here : Bool) (outcome : Option RecordOutcome)
      → marked here outcome
        ≡ (if here && not (stands_rejected outcome) then some waiting else outcome)
  marked_lem here outcome = rw (is_open-rejected outcome, not_ready-waiting) refl

  -- markZoneRecordsNotReady gives the outcome of a zone that is not ready to exactly the records
  -- of the zone that have no outcome yet, are accepted, or are only rejected because their zone is
  -- not found, and leaves every other outcome as it is: a record that its namespace, its values, a
  -- conflict or another zone that is not ready has rejected keeps the reason.
  pub lookup-mark_zone_records_not_ready :
      (rs : List PrivateDnsRecord) (outcomes : Map RecordOutcome) (key : Text)
      → lookup key (mark_zone_records_not_ready rs outcomes) ≡ (
          if any (is_record key) rs && not (stands_rejected (lookup key outcomes))
          then some waiting
          else lookup key outcomes)
  lookup-mark_zone_records_not_ready rs outcomes key =
      lookup-marked rs outcomes key ∙ marked_lem (any (is_record key) rs) (lookup key outcomes)
