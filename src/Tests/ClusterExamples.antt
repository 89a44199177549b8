-- ===== src/Tests/ClusterExamples.antt =====
-- The theorems on cluster projections at the concrete apiserver and objects.
use projection.Cleanup.Attempts.{cluster_attempt}
use projection.Source.{opted_out_message}
use projection.Kube.World.{cluster_projection_status_call}
use projection.Cluster.Policy.{calls-reconcile_fetched_opted_out_cluster}
use projection.Cluster.Reconcile.{reconcile_fetched, reconcile_targets}
use projection.Kube.Object.{annotations_field}
use projection.Cluster.Targets.{resolve_target_namespaces-IsTargets, IsTargets}
use projection.Prelude.Text.{sort_strings}
use projection.Cluster.{resolve_target_namespaces}
use projection.Cluster.Safety.{reconcile_targets-ConfinedTo, ConfinedTo}
use projection.Kube.Model.{accessors-IsLawful, accessors}
use projection.Cleanup.Calls.{deletion}
use projection.Kube.Value.{Fields}
use projection.Destination.Stamp.{cluster_projection_stamp}
use projection.Tests.{
  vetoed_object, owned_object, projected, source_object-HasMetadata, helpers-IsDocumented, settings,
  server, overlay, source_object, fresh, helpers, config_maps, cluster_projection, deps,
}
use projection.Conditions.{all_cluster_ready, cluster_destination_failed, cluster_source_failed}
use projection.Destination.Mirror.{build_cluster_destination-IsMirror, IsMirror}
use projection.Cleanup.Safety.{
  calls-delete_all_cluster_owned_destinations, calls-cleanup_stale_cluster_destinations, swept,
}
use projection.Cleanup.{cleanup_stale_cluster_destinations, delete_all_cluster_owned_destinations}
use projection.Destination.{
  owned_by_cluster_uid_selector, is_owned_by_cluster, build_cluster_destination,
  cluster_destination_name,
}
use projection.Prelude.{
  ℕ, ◌≢◌, none, false, ◌⊎◌, ◌↔◌, ◌≤◌, some, ◌+◌, arith, select, refl, map, true, reverse_onto, ◌∷◌,
  [], ◌≡◌, String, List,
}
use projection.Kube.Calls.{Grows}
use projection.Conditions.Agreement.{cluster_reports-Agree, Agree}

build_cluster_destination-IsMirror_example :
    IsMirror accessors
      (cluster_projection_stamp cluster_projection)
      source_object
      overlay
      "tenant-b"
      "shared-config"
      (build_cluster_destination accessors source_object cluster_projection "tenant-b")
unfolding cluster_destination_name
build_cluster_destination-IsMirror_example =
    build_cluster_destination-IsMirror accessors accessors-IsLawful source_object "tenant-b"
      cluster_projection source_object-HasMetadata

calls-cleanup_stale_cluster_destinations_example :
    (cleanup_stale_cluster_destinations accessors cluster_projection config_maps
      ("tenant-a" ∷ [])
      projected).1.calls
    ≡ reverse_onto
        (swept accessors cluster_projection config_maps projected
          ("tenant-a" ∷ [])
          (server.list_resource config_maps
            (owned_by_cluster_uid_selector cluster_projection)
            projected.server).0)
        []
calls-cleanup_stale_cluster_destinations_example =
    calls-cleanup_stale_cluster_destinations accessors cluster_projection config_maps projected
      ("tenant-a" ∷ [])

calls-delete_all_cluster_owned_destinations_example :
    (delete_all_cluster_owned_destinations accessors cluster_projection config_maps
      projected).1.calls
    ≡ reverse_onto
        (map (deletion accessors config_maps) (
          select
            (λ o. is_owned_by_cluster accessors o cluster_projection)
            (owned_object ∷ (source_object ∷ []))))
        []
calls-delete_all_cluster_owned_destinations_example =
    calls-delete_all_cluster_owned_destinations accessors cluster_projection config_maps projected
      (owned_object ∷ (source_object ∷ [])) refl

cluster_reports-Agree_example :
    Agree
      (cluster_source_failed helpers "SourceNotFound" "gone" cluster_projection).status.conditions
    × Agree
        (cluster_destination_failed helpers "v1" "SourceNotFound" "gone"
          cluster_projection).status.conditions
    × Agree (all_cluster_ready helpers "v1" cluster_projection).status.conditions
cluster_reports-Agree_example =
    cluster_reports-Agree helpers helpers-IsDocumented cluster_projection "v1" "SourceNotFound"
      "gone"

-- The second target's worker goes first.
abbrev late_first : List ℕ
late_first = 0 ∷ (0 ∷ (2 ∷ (1 ∷ (2 ∷ []))))

reconcile_targets-ConfinedTo_example :
    Grows
      (ConfinedTo accessors cluster_projection ("tenant-a" ∷ ("tenant-b" ∷ [])))
      []
      (reconcile_targets deps settings late_first cluster_projection config_maps "v1" source_object
        ("tenant-a" ∷ ("tenant-b" ∷ []))
        projected).1.calls
reconcile_targets-ConfinedTo_example =
    reconcile_targets-ConfinedTo deps accessors-IsLawful settings late_first cluster_projection
      config_maps "v1" source_object ("tenant-a" ∷ ("tenant-b" ∷ [])) projected
      source_object-HasMetadata

resolve_target_namespaces-IsTargets_example :
    IsTargets server cluster_projection fresh ("tenant-a" ∷ ("tenant-b" ∷ []))
unfolding resolve_target_namespaces sort_strings
resolve_target_namespaces-IsTargets_example =
    resolve_target_namespaces-IsTargets cluster_projection fresh ("tenant-a" ∷ ("tenant-b" ∷ []))
      refl

calls-reconcile_fetched_opted_out_cluster_example :
    let (reply, state) =
      server.list_resource config_maps
        (owned_by_cluster_uid_selector cluster_projection)
        projected.server in
    (reconcile_fetched deps settings late_first cluster_projection config_maps "v1" vetoed_object
      projected).1.calls
    ≡ cluster_projection_status_call (
        cluster_source_failed helpers "SourceOptedOut"
          (opted_out_message accessors vetoed_object)
          cluster_projection)
      ∷ reverse_onto
          (cluster_attempt server accessors config_maps cluster_projection state reply).0
          []
unfolding accessors projection.Kube.Object.metadata_field projection.Kube.Object.metadata
    projection.Kube.Value.get_field projection.Prelude.Dict.lookup
calls-reconcile_fetched_opted_out_cluster_example =
    calls-reconcile_fetched_opted_out_cluster deps settings late_first cluster_projection
      vetoed_object projected config_maps "v1" refl
