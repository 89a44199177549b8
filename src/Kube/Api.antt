-- ===== src/Kube/Api.antt =====
-- api/v1/source_types.go, projection_types.go, clusterprojection_types.go: the custom resources,
-- with the part of their metadata and status that the reconcilers read and write.
use projection.Prelude.{ℕ, ◌-◌, ◌%◌, ◌^◌, Option, List, String, ltb, if◌then◌else◌}
use projection.Prelude.Dict.{Dict}

-- `negsuc n` is -(n + 1).
pub data ℤ : Type 0 where
  pos : ℕ → ℤ
  negsuc : ℕ → ℤ

-- `int32(n)` of a count: the low 32 bits, read with a sign.
unfoldable pub int32 : ℕ → ℤ
int32 n = let low = n % 2 ^ 32 in if ltb low (2 ^ 31) then pos low else negsuc (2 ^ 32 - 1 - low)

pub record SourceRef : Type 0 where
  pub group : String
  pub version : String
  pub kind : String
  pub namespace : String
  pub name : String

pub record Overlay : Type 0 where
  pub labels : Dict String
  pub annotations : Dict String

-- The fields of `metav1.ObjectMeta` that the operator reads. `deletion_timestamp` is `none` when it
-- is zero.
pub record ObjectMeta : Type 0 where
  pub namespace : String
  pub name : String
  pub uid : String
  pub finalizers : List String
  pub deletion_timestamp : Option ℕ

pub data ConditionStatus : Type 0 where
  condition_true condition_false condition_unknown : ConditionStatus

pub record Condition : Type 0 where
  pub condition_type : String
  pub status : ConditionStatus
  pub reason : String
  pub message : String

pub record ProjectionDestination : Type 0 where
  pub name : String

pub record ProjectionSpec : Type 0 where
  pub source : SourceRef
  pub destination : ProjectionDestination
  pub overlay : Overlay

pub record ProjectionStatus : Type 0 where
  pub conditions : List Condition
  pub destination_name : String

pub record Projection : Type 0 where
  pub meta : ObjectMeta
  pub spec : ProjectionSpec
  pub status : ProjectionStatus

-- `metav1.LabelSelector`; what it selects is a parameter of the model.
pub record LabelSelector : Type 0 where
  pub match_labels : Dict String
  pub match_expressions : List (String × String × List String)

pub record ClusterProjectionDestination : Type 0 where
  pub namespaces : List String
  pub namespace_selector : Option LabelSelector
  pub name : String

pub record ClusterProjectionSpec : Type 0 where
  pub source : SourceRef
  pub destination : ClusterProjectionDestination
  pub overlay : Overlay

pub record ClusterProjectionStatus : Type 0 where
  pub conditions : List Condition
  pub destination_name : String
  pub namespaces_written : ℤ
  pub namespaces_failed : ℤ

pub record ClusterProjection : Type 0 where
  pub meta : ObjectMeta
  pub spec : ClusterProjectionSpec
  pub status : ClusterProjectionStatus
