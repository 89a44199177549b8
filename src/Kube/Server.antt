-- ===== src/Kube/Server.antt =====
-- What the reconcilers call and the repository does not contain: the apiserver behind the typed and
-- the dynamic client, the RESTMapper, label selectors, and helpers of controller-runtime and
-- apimachinery. Each is a field; a reply may be an error at any call.
use projection.Prelude.{Bool, Option, List, String}
use projection.Prelude.Dict.{Dict}
use projection.Kube.Value.{Fields}
use projection.Kube.Object.{GroupVersionKind}
use projection.Kube.Api.{Projection, ClusterProjection, Condition, LabelSelector}

-- An `error`: what `apierrors.IsNotFound` says of it, and its text.
pub record Error : Type 0 where
  pub is_not_found : Bool
  pub message : String

pub data Reply {ℓ} (A : Type ℓ) : Type ℓ where
  ok : A → Reply A
  err : Error → Reply A

-- `schema.GroupVersionResource`
pub record GroupVersionResource : Type 0 where
  pub group : String
  pub version : String
  pub resource : String

-- The parts of a `meta.RESTMapping` that are read. `is_namespaced` says that the scope's name is
-- `RESTScopeNameNamespace`.
pub record RestMapping : Type 0 where
  pub resource : GroupVersionResource
  pub version : String
  pub is_namespaced : Bool

-- `RESTMapper.RESTMapping` of a group and a kind, with a version or with none.
abbrev pub RestMapper : Type 0
RestMapper = String → String → Option String → Reply RestMapping

-- The parts of a `corev1.Namespace` that are read.
pub record Namespace : Type 0 where
  pub name : String
  pub labels : Dict String
  pub is_terminating : Bool

-- `metav1.LabelSelectorAsSelector`, and `Empty` and `Matches` of its result.
pub record Selectors : Type 1 where
  pub Selector : Type 0
  pub as_selector : LabelSelector → Reply Selector
  pub is_empty : Selector → Bool
  pub matches : Selector → Dict String → Bool

-- `controllerutil.ContainsFinalizer`, `AddFinalizer`, `RemoveFinalizer` and
-- `apimeta.SetStatusCondition`, on the lists that they change.
pub record Helpers : Type 0 where
  pub contains_finalizer : List String → String → Bool
  pub add_finalizer : List String → String → List String
  pub remove_finalizer : List String → String → List String
  pub set_status_condition : List Condition → Condition → List Condition

-- The apiserver. A call may change the state in any way: other clients write too.
pub record Server : Type 1 where
  pub State : Type 0
  pub selectors : Selectors
  pub get : GroupVersionKind → String → String → State → Reply Fields × State
  pub create : Fields → State → Reply Fields × State
  pub update : Fields → State → Reply Fields × State
  pub get_resource : GroupVersionResource → String → String → State → Reply Fields × State
  pub list_resource : GroupVersionResource → String → State → Reply (List Fields) × State
  pub delete_resource : GroupVersionResource → String → String → State → Reply (Unit {0}) × State
  pub get_projection : String → String → State → Reply Projection × State
  pub update_projection : Projection → State → Reply Projection × State
  pub update_projection_status : Projection → State → Reply Projection × State
  pub list_projections : String → String → State → Reply (List Projection) × State
  pub get_cluster_projection : String → State → Reply ClusterProjection × State
  pub update_cluster_projection : ClusterProjection → State → Reply ClusterProjection × State
  pub update_cluster_projection_status : ClusterProjection → State → Reply ClusterProjection × State
  -- By an index and its value, or all of them.
  pub list_cluster_projections :
      Option (String × String) → State → Reply (List ClusterProjection) × State
  pub list_namespaces : selectors.Selector → State → Reply (List Namespace) × State
  -- `Controller.Watch` on the objects of a kind.
  pub watch : GroupVersionKind → State → Reply (Unit {0}) × State
