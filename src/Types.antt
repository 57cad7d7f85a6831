-- ===== src/Types.antt =====
-- api/v1alpha1: the custom resources. An int32 or int64 is an integer; a pointer is an `Option`.
use private_dns_operator.Prelude.{ℕ, Bool, Option, List}
use private_dns_operator.Prelude.Int.{ℤ}
use private_dns_operator.Text.{Text, codes}

-- metav1.ObjectMeta, as far as it is used: `deleting` says that DeletionTimestamp is set.
pub record ObjectMeta : Type 0 where
  pub name : Text
  pub namespace : Text
  pub generation : ℕ
  pub deleting : Bool
  pub finalizers : List Text

-- metav1.ConditionStatus
pub data ConditionStatus : Type 0 where
  condition_true condition_false condition_unknown : ConditionStatus

-- metav1.Condition: the time is a number.
pub record Condition : Type 0 where
  pub condition_type : Text
  pub status : ConditionStatus
  pub reason : Text
  pub message : Text
  pub observed_generation : ℕ
  pub last_transition_time : ℕ

-- The strings of this type: `other` is any string but the six constants.
pub data DnsRecordType : Type 0 where
  a aaaa cname txt mx srv : DnsRecordType
  other : Text → DnsRecordType

unfoldable pub type_text : DnsRecordType → Text
type_text a = codes "A"
type_text aaaa = codes "AAAA"
type_text cname = codes "CNAME"
type_text txt = codes "TXT"
type_text mx = codes "MX"
type_text srv = codes "SRV"
type_text (other t) = t

-- `unset` is the empty string, and `other_policy` any string but that and the two constants.
pub data UnresolvedRecordPolicy : Type 0 where
  unset nxdomain forward : UnresolvedRecordPolicy
  other_policy : Text → UnresolvedRecordPolicy

pub record ZoneReference : Type 0 where
  pub name : Text

pub record PrivateDnsRecordSpec : Type 0 where
  pub zone_ref : ZoneReference
  pub name : Text
  pub record_type : DnsRecordType
  pub ttl : Option ℤ
  pub values : List Text

pub record PrivateDnsRecordStatus : Type 0 where
  pub observed_generation : ℕ
  pub conditions : List Condition
  pub fqdn : Text

pub record PrivateDnsRecord : Type 0 where
  pub meta : ObjectMeta
  pub spec : PrivateDnsRecordSpec
  pub status : PrivateDnsRecordStatus

pub record NamespaceSelector : Type 0 where
  pub match_names : List Text

pub record PrivateDnsRecordSpecInline : Type 0 where
  pub name : Text
  pub record_type : DnsRecordType
  pub ttl : Option ℤ
  pub values : List Text

pub record PrivateDnsZoneSpec : Type 0 where
  pub zone : Text
  pub ttl : Option ℤ
  pub unresolved_record_policy : UnresolvedRecordPolicy
  pub allowed_namespaces : NamespaceSelector
  pub records : List PrivateDnsRecordSpecInline

pub record PrivateDnsZoneStatus : Type 0 where
  pub observed_generation : ℕ
  pub conditions : List Condition
  pub records : ℕ
  pub serial : Text
  pub zone_file_key : Text
  pub last_applied_hash : Text

pub record PrivateDnsZone : Type 0 where
  pub meta : ObjectMeta
  pub spec : PrivateDnsZoneSpec
  pub status : PrivateDnsZoneStatus
