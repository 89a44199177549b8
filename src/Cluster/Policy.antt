-- ===== src/Cluster/Policy.antt =====
-- What a cluster reconcile does about a source whose owner has opted out:
-- internal/controller/cluster_projection_controller.go.
use projection.Cleanup.Attempts.{cluster_attempt-delete_all, cluster_attempt}
use projection.Destination.{owned_by_cluster_uid_selector}
use projection.Source.Policy.{check_projectable-opted_out}
use projection.Kube.Object.{annotations_field}
use projection.Source.{opted_out_message, annotation}
use projection.Cluster.Reconcile.{reconcile_fetched}
use projection.Kube.Value.{Fields}
use projection.Kube.World.{count_outcome, emit, cluster_projection_status_call, World, Call}
use projection.Prelude.{ap, reverse_onto, ◌∷◌, ℕ, some, ◌≡◌, String, List}
use projection.Conditions.{cluster_source_failed, fail_cluster_source, Settings}
use projection.Kube.Api.{ClusterProjection}
use projection.Kube.Server.{GroupVersionResource, Server}
use projection.Finalizer.{Deps}

module _ {S : Server} (d : Deps) (r : Settings) (schedule : List ℕ) (cp : ClusterProjection)
    (source : Fields) (w : World S) where
  -- Where the source's annotation is "false", in every mode and whatever the apiserver replies, a
  -- cluster reconcile that has fetched the source lists by the label of the cluster projection's UID and
  -- attempts the delete of each listed object that carries its annotation, in the order of the list
  -- and whatever errors come between; nothing else is deleted. Whatever that comes to, the next and last
  -- write is the status that reports the veto as `SourceOptedOut`.
  pub calls-reconcile_fetched_opted_out_cluster :
      (gvr : GroupVersionResource) (resolved_version : String)
      → annotation (d.accessors.get_map annotations_field source) ≡ some "false"
      → let (reply, state) = S.list_resource gvr (owned_by_cluster_uid_selector cp) w.server in
        (reconcile_fetched d r schedule cp gvr resolved_version source w).1.calls
        ≡ cluster_projection_status_call (
            cluster_source_failed d.helpers "SourceOptedOut"
              (opted_out_message d.accessors source)
              cp)
          ∷ reverse_onto (cluster_attempt S d.accessors gvr cp state reply).0 w.calls
  unfolding reconcile_fetched fail_cluster_source emit count_outcome
  calls-reconcile_fetched_opted_out_cluster gvr resolved_version vetoed =
      let msg = opted_out_message d.accessors source in
      rw (check_projectable-opted_out d.accessors source r.source_mode vetoed, reconcile_fetched)
        (ap
          (λ (cs : List Call).
            cluster_projection_status_call (cluster_source_failed d.helpers "SourceOptedOut" msg cp)
            ∷ cs)
          (cluster_attempt-delete_all d.accessors cp w gvr).0)
