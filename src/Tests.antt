-- ===== src/Tests.antt =====
-- The objects that the examples run on, over the apiserver of Tests/Apiserver.
mod Apiserver
pub mod Examples
pub mod ClusterExamples
pub mod PoolExamples
pub mod TargetExamples
pub mod EventExamples
pub mod ManagerExamples
pub mod WriteExamples
pub mod CopyExamples
pub mod LockExamples
pub use Apiserver.*
use projection.Kube.World.{World}
use projection.Conditions.{Settings}
use projection.Reconcile.Calls.{ServesObjects}
use projection.Finalizer.{Deps}
use projection.Kube.Model.{accessors}
use projection.Kube.Object.{GroupVersionKind, name_field, namespace_field, metadata, HasMetadata}
use projection.Kube.Value.{end, obj, str, get_field, field, Fields}
use projection.Kube.Api.{
  pos, SourceRef, Projection, Overlay, ClusterProjection, LabelSelector, Condition,
}
use projection.Prelude.{
  ap, subst, Bool-cases, inr, inl, Option-cases, ◌&&◌, refl, none, eq_iff, ◌==◌, some, not, [], ◌≡◌,
  ◌∷◌, select, if◌then◌else◌, eq_refl, Bool, true, false, contains, arith, String, Option, List,
}
use projection.Conditions.Agreement.{condition_at, IsDocumented}
use projection.Kube.Server.{
  RestMapper, GroupVersionResource, err, ok, Reply, Server, Selectors, Helpers, Error,
}

abbrev pub config_maps : GroupVersionResource
config_maps = record { group = ""; version = "v1"; resource = "configmaps" }

abbrev pub mapper : RestMapper
mapper _ _ _ = ok (record { resource = config_maps; version = "v1"; is_namespaced = true })

abbrev pub deps : Deps
deps = record { accessors = accessors; helpers = helpers; mapper = mapper }

abbrev pub settings : Settings
settings = record {
  source_mode = "allowlist";
  requeue_interval = pos 30;
  selector_write_concurrency = pos 2;
  has_controller = true;
}

-- A config map with a label, an annotation, a server's field and some data.
abbrev pub source_metadata : Fields
source_metadata = field "name" (str "app-config") (
    field "namespace" (str "platform") (
      field "uid" (str "u-1") (
        field "labels" (obj (field "team" (str "a") end))
          (field "annotations" (obj (field "projection.sh/projectable" (str "true") end)) end))))

abbrev pub source_object : Fields
source_object = field "apiVersion" (str "v1") (
    field "kind" (str "ConfigMap") (
      field "metadata" (obj source_metadata)
        (field "data" (obj (field "key" (str "value") end)) (field "status" (obj end) end))))

pub source_object-HasMetadata : HasMetadata source_object
unfolding metadata get_field
source_object-HasMetadata = (source_metadata, refl)

abbrev pub source_ref : SourceRef
source_ref = record {
  group = "";
  version = "v1";
  kind = "ConfigMap";
  namespace = "platform";
  name = "app-config";
}

abbrev pub overlay : Overlay
overlay = record { labels = ("team", "b") ∷ []; annotations = ("note", "copy") ∷ [] }

abbrev pub mirror_projection : Projection
mirror_projection = record {
  meta = record {
    namespace = "tenant";
    name = "mirror";
    uid = "u-2";
    finalizers = "projection.sh/finalizer" ∷ [];
    deletion_timestamp = none;
  };
  spec = record { source = source_ref; destination = record { name = "" }; overlay = overlay };
  status = record { conditions = []; destination_name = "" };
}

abbrev pub dying_projection : Projection
dying_projection = record mirror_projection {
  meta = record mirror_projection.meta { deletion_timestamp = some 7 };
}

abbrev pub cluster_projection : ClusterProjection
cluster_projection = record {
  meta = record {
    namespace = "";
    name = "fleet";
    uid = "u-3";
    finalizers = "projection.sh/cluster-finalizer" ∷ [];
    deletion_timestamp = none;
  };
  spec = record {
    source = source_ref;
    destination = record {
      namespaces = "tenant-b" ∷ ("tenant-a" ∷ []);
      namespace_selector = none;
      name = "shared-config";
    };
    overlay = overlay;
  };
  status = record {
    conditions = [];
    destination_name = "";
    namespaces_written = pos 0;
    namespaces_failed = pos 0;
  };
}

-- The world before any call, over a store.
abbrev pub world_of : Store → World server
world_of s = record {
  server = s;
  calls = [];
  events = some [];
  outcomes = [];
  latencies = [];
  watched = [];
  watched_dests = [];
  watched_gvks = 0;
  watched_dest_gvks = 0;
}

abbrev pub fresh : World server
fresh = world_of (record { objects = source_object ∷ []; is_down = false })

-- A copy that the cluster projection owns.
abbrev pub owned_object : Fields
owned_object = field "apiVersion" (str "v1") (
    field "kind" (str "ConfigMap") (
      field "metadata"
        (obj (
          field "name" (str "shared-config") (
            field "namespace" (str "tenant-b") (
              field "annotations"
                (obj (field "projection.sh/owned-by-cluster-projection" (str "fleet") end)) end))))
        end))

abbrev pub projected : World server
projected = world_of (record { objects = owned_object ∷ (source_object ∷ []); is_down = false })

-- A copy that the projection owns.
abbrev pub mirrored_object : Fields
mirrored_object = field "apiVersion" (str "v1") (
    field "kind" (str "ConfigMap") (
      field "metadata"
        (obj (
          field "name" (str "app-config") (
            field "namespace" (str "tenant") (
              field "annotations"
                (obj (field "projection.sh/owned-by-projection" (str "tenant/mirror") end)) end))))
        end))

abbrev pub mirrored : World server
mirrored = world_of (record { objects = mirrored_object ∷ (source_object ∷ []); is_down = false })

-- The same source, whose owner has opted out.
abbrev pub vetoed_object : Fields
vetoed_object = field "apiVersion" (str "v1") (
    field "kind" (str "ConfigMap") (
      field "metadata"
        (obj (
          field "name" (str "app-config") (
            field "namespace" (str "platform") (
              field "annotations" (obj (field "projection.sh/projectable" (str "false") end))
                end))))
        end))

abbrev pub dying_cluster_projection : ClusterProjection
dying_cluster_projection = record cluster_projection {
  meta = record cluster_projection.meta { deletion_timestamp = some 7 };
}

abbrev pub config_map_kind : GroupVersionKind
config_map_kind = record { group = ""; version = "v1"; kind = "ConfigMap" }
