-- ===== src/Tests/TargetExamples.antt =====
-- The theorems on whole cluster reconciles and their targets, at the concrete apiserver.
use projection.Tests.Apiserver.{missing}
use projection.Cluster.Whole.{reconcile-OfRequest, OfRequest, KeepsClusterIdentity}
use projection.Watches.{cluster_projection_request}
use projection.Kube.Api.{ClusterProjection, LabelSelector}
use projection.Kube.World.{World}
use projection.Kube.Server.{err, Reply, ok, Server, Namespace}
use projection.Cluster.NamespaceEvents.{map_namespace-targets, targets_of, ListsNamespaces}
use projection.Prelude.Dict.{index, Dict}
use projection.Source.{resolve_gvr}
use projection.Kube.Model.{accessors-IsLawful, accessors}
use projection.Prelude.{
  eq_iff, ◌∙◌, sym, ap, inl, arith, inr, if◌then◌else◌, Bool-cases, ◌==◌, contains, some, Bool,
  select, map, false, String, List, refl, ◌≡◌, [], ◌∷◌,
}
use projection.Cluster.Reaches.{read_world, reconcile_finalized-Reaches, Reaches, ListsAt}
use projection.Cluster.{map_namespace, resolve_target_namespaces}
use projection.Kube.Calls.{Grows}
use projection.Cluster.Reconcile.{reconcile, reconcile_finalized}
use projection.Tests.{
  source_object, mapper, server, cluster_projection, deps, settings, fresh, helpers-IsDocumented,
  server-ServesObjects,
}
use projection.Cluster.Retries.{reconcile_finalized-Ends_cluster, Ends, IsMirroredAll}
use mathlib.Core.List.Perm

reconcile_finalized-Ends_cluster_example :
    Ends settings
      (IsMirroredAll deps settings (2 ∷ (1 ∷ [])) cluster_projection fresh)
      (reconcile_finalized deps settings (2 ∷ (1 ∷ [])) cluster_projection fresh)
reconcile_finalized-Ends_cluster_example =
    reconcile_finalized-Ends_cluster deps helpers-IsDocumented settings (2 ∷ (1 ∷ []))
      cluster_projection fresh

reconcile_finalized-Reaches_example :
    Grows
      (Reaches server accessors cluster_projection
        (read_world settings cluster_projection
          (resolve_gvr mapper cluster_projection.spec.source)
          fresh)
        (ListsAt deps settings
          (2 ∷ (1 ∷ []))
          cluster_projection
          (resolve_gvr mapper cluster_projection.spec.source)
          fresh))
      []
      (reconcile_finalized deps settings (2 ∷ (1 ∷ [])) cluster_projection fresh).1.calls
reconcile_finalized-Reaches_example =
    reconcile_finalized-Reaches deps accessors-IsLawful settings (2 ∷ (1 ∷ [])) cluster_projection
      fresh server-ServesObjects

-- Namespaces with and without the label that its selectors ask for.
abbrev tenant_namespace : Namespace
tenant_namespace = record { name = "tenant-a"; labels = ("team", "a") ∷ []; is_terminating = false }

abbrev held_namespaces : List Namespace
held_namespaces =
    tenant_namespace ∷ (record { name = "platform"; labels = []; is_terminating = false } ∷ [])

abbrev has_team : Dict String → Bool
has_team labels = index (some labels) "team" == "a"

abbrev selecting_projection : ClusterProjection
selecting_projection = record cluster_projection {
  spec = record cluster_projection.spec {
    destination = record {
      namespaces = [];
      namespace_selector =
          some (record { match_labels = ("team", "a") ∷ []; match_expressions = [] });
      name = "";
    };
  };
}

abbrev both_projections : List ClusterProjection
both_projections = cluster_projection ∷ (selecting_projection ∷ [])

abbrev peopled_server : Server
peopled_server = record server {
  selectors = record {
    Selector = LabelSelector;
    as_selector = ok;
    is_empty = λ _. false;
    matches = λ _ labels. has_team labels;
  };
  list_namespaces = λ _ s. (ok (select (λ n. has_team n.labels) held_namespaces), s);
  list_cluster_projections = λ _ s. (ok both_projections, s);
}

peopled-ListsNamespaces : ListsNamespaces peopled_server
peopled-ListsNamespaces = record {
  stored = λ _. held_namespaces;
  listed = λ sel state. (select (λ n. has_team n.labels) held_namespaces, refl, Perm.refl _);
}

abbrev peopled : World peopled_server
peopled = record {
  server = record { objects = []; is_down = false };
  calls = [];
  events = some [];
  outcomes = [];
  latencies = [];
  watched = [];
  watched_dests = [];
  watched_gvks = 0;
  watched_dest_gvks = 0;
}

map_namespace-targets_example :
    (map_namespace "tenant-a" (("team", "a") ∷ []) peopled).0
    ≡ map cluster_projection_request (
        select
          (λ cp. contains (targets_of (resolve_target_namespaces cp peopled).0) "tenant-a")
          both_projections)
unfolding peopled-ListsNamespaces
map_namespace-targets_example =
    map_namespace-targets peopled-ListsNamespaces tenant_namespace peopled refl refl
      both_projections refl

-- An apiserver that holds one cluster projection, and its source.
abbrev read_fleet : String → Reply ClusterProjection
read_fleet name = if name == "fleet" then ok cluster_projection else err missing

abbrev fleet_server : Server
fleet_server = record server { get_cluster_projection = λ name s. (read_fleet name, s) }

abbrev in_fleet : World fleet_server
in_fleet = record {
  server = record { objects = source_object ∷ []; is_down = false };
  calls = [];
  events = some [];
  outcomes = [];
  latencies = [];
  watched = [];
  watched_dests = [];
  watched_gvks = 0;
  watched_dest_gvks = 0;
}

abbrev projection_or : ClusterProjection → Reply ClusterProjection → ClusterProjection
projection_or p (ok q) = q
projection_or p (err e) = p

fleet-KeepsClusterIdentity : KeepsClusterIdentity fleet_server
fleet-KeepsClusterIdentity = record {
  got = λ name state p found. elim (Bool-cases (name == "fleet")) [
    | inr other ↦ absurd (ground (arith, found, other))
    | inl same ↦
        ap (λ r. (projection_or p r).meta.name) (sym (rw same at found))
        ∙ sym ((eq_iff name "fleet").0 same)
  ];
  updated = λ q state p found. ap (λ r. (projection_or p r).meta.name) (sym found);
}

reconcile-OfRequest_example :
    Grows
      (OfRequest {S = fleet_server} deps settings (2 ∷ (1 ∷ [])) "fleet" in_fleet)
      []
      (reconcile deps settings (2 ∷ (1 ∷ [])) "fleet" in_fleet).1.calls
reconcile-OfRequest_example =
    reconcile-OfRequest deps accessors-IsLawful settings (2 ∷ (1 ∷ [])) server-ServesObjects
      fleet-KeepsClusterIdentity "fleet" in_fleet
