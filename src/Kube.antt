-- ===== src/Kube.antt =====
-- The part of the Kubernetes API that the operator uses: the objects with the fields that it reads
-- or writes, errors, and calls that may fail. A Go map that is nil reads as the empty map.
pub mod Api
pub mod Machinery
use private_dns_operator.Prelude.{Bool, Option, none, some, List}
use private_dns_operator.Text.{Text}
use private_dns_operator.Text.Map.{Map}

-- corev1.ConfigMap: `cm_data` is the field Data.
pub record ConfigMap : Type 0 where
  pub cm_data : Map Text
  pub annotations : Map Text

-- corev1.KeyToPath
pub record KeyToPath : Type 0 where
  pub key : Text
  pub path : Text

-- corev1.ConfigMapVolumeSource
pub record ConfigMapVolumeSource : Type 0 where
  pub name : Text
  pub items : List KeyToPath

-- corev1.Volume
pub record Volume : Type 0 where
  pub config_map : Option ConfigMapVolumeSource

-- appsv1.Deployment: the volumes and the annotations of the pod template.
pub record Deployment : Type 0 where
  pub name : Text
  pub volumes : List Volume
  pub annotations : Map Text

-- An error of an API call or of the operator. apierrors.IsNotFound tells the first from the rest.
pub data Error : Type 0 where
  not_found : Error
  message : Text → Error

pub data Result {ℓ} (A : Type ℓ) : Type ℓ where
  ok : A → Result A
  err : Error → Result A
