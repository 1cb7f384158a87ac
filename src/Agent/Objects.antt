-- ===== src/Agent/Objects.antt =====
-- The fields of the Kubernetes objects that cluster-agent/src/kubernetes reads. An object without a
-- status, or with one that has no address, has no address; so with the parts of a specification.
use qubit.Base.{ℕ, Text, Option}
use qubit.Base.Map.{Map}

pub record ObjectMeta : Type 0 where
  pub name : Option Text
  pub namespace : Option Text
  pub labels : Option (Map Text Text)

pub record PodStatus : Type 0 where
  pub pod_ip : Option Text

pub record Pod : Type 0 where
  pub metadata : ObjectMeta
  pub status : Option PodStatus

pub record ServiceSpec : Type 0 where
  pub selector : Option (Map Text Text)
  pub type_name : Option Text
  pub cluster_ip : Option Text

pub record Service : Type 0 where
  pub metadata : ObjectMeta
  pub spec : Option ServiceSpec

pub record ConfigMap : Type 0 where
  pub metadata : ObjectMeta
  -- the entries of `data`
  pub entries : Option (Map Text Text)

pub record ObjectReference : Type 0 where
  pub kind : Option Text
  pub name : Option Text
  pub namespace : Option Text

-- `count` is an `i32`, by its bit pattern.
pub record Event : Type 0 where
  pub metadata : ObjectMeta
  pub reason : Option Text
  pub message : Option Text
  pub type_name : Option Text
  pub count : Option ℕ
  pub involved_object : ObjectReference
