-- ===== src/Cluster/Reconcile.antt =====
-- `ClusterProjectionReconciler.Reconcile` of internal/controller/cluster_projection_controller.go,
-- with `handleClusterSourceFetchError`. The logger's lines are left out. `schedule` says in
-- which order the workers of `fanOut` take their turns.
use projection.Prelude.{ℕ, suc, zero, Bool, true, false, not, some, List, String, if◌then◌else◌}
use projection.Kube.Value.{Fields}
use projection.Kube.Api.{pos, int32, ClusterProjection}
use projection.Kube.Server.{Server, Error, ok, err, GroupVersionResource}
use projection.Kube.World.{World, read}
use projection.Source.{resolve_gvr, check_projectable}
use projection.Cleanup.{delete_all_cluster_owned_destinations, cleanup_stale_cluster_destinations}
use projection.Finalizer.{Deps, handle_cluster_deletion, ensure_cluster_finalizer}
use projection.Conditions.{
  Settings, Completion, fail_cluster_source, fail_cluster_destination,
  fail_cluster_destination_counts, mark_all_cluster_ready,
}
use projection.Watches.{ensure_source_watch, ensure_dest_watch}
use projection.Cluster.{resolve_target_namespaces, summarize_failures}
use projection.Cluster.FanOut.{Tally}
use projection.Cluster.FanOut.Schedule.{fan_out}
use projection.Reconcile.{ignore_not_found, missing_source, watch_gvk}

abbrev pub is_zero : ℕ → Bool
is_zero zero = true
is_zero (suc n) = false

module _ {S : Server} (d : Deps) (r : Settings) (schedule : List ℕ) where
  unfoldable pub handle_cluster_source_fetch_error :
      ClusterProjection → GroupVersionResource → Error → World S → Completion × World S
  handle_cluster_source_fetch_error cp gvr e w =
      let (_, w') = delete_all_cluster_owned_destinations d.accessors cp gvr w in
      let (reason, msg) = missing_source cp.status.destination_name cp.spec.source in
      if not e.is_not_found
      then fail_cluster_source d r cp "SourceFetchFailed" "Get" e.message w
      else fail_cluster_source d r cp reason "Get" msg w'

  -- After the fan-out and the sweep: the rollup of the counts.
  unfoldable pub report_fan_out :
      ClusterProjection → String → Tally → World S → Completion × World S
  report_fan_out cp resolved_version t w =
      let (failed, w') = mark_all_cluster_ready d r cp resolved_version (int32 t.written) w in
      if not (is_zero t.failed)
      then fail_cluster_destination_counts d r cp resolved_version "DestinationWriteFailed"
          (summarize_failures t.failed t.failure_msgs) (int32 t.written) (int32 t.failed) w
      else ((pos 0, failed), w')

  -- From the resolved targets on. A sweep or a watch that fails is logged.
  unfoldable pub reconcile_targets :
      ClusterProjection
      → GroupVersionResource
      → String
      → Fields
      → List String
      → World S
      → Completion × World S
  reconcile_targets cp gvr resolved_version source targets w =
      let (t, w') = fan_out d.accessors cp source schedule r.selector_write_concurrency targets w in
      let (_, w'') = cleanup_stale_cluster_destinations d.accessors cp gvr targets w' in
      let (_, w‴) = ensure_dest_watch r (watch_gvk gvr resolved_version cp.spec.source) w'' in
      report_fan_out cp resolved_version t w‴

  -- From the policy check on. A cleanup that fails is logged.
  unfoldable pub reconcile_fetched :
      ClusterProjection → GroupVersionResource → String → Fields → World S → Completion × World S
  reconcile_fetched cp gvr resolved_version source w =
      let (reason, msg, projectable) = check_projectable d.accessors source r.source_mode in
      let (_, w') = delete_all_cluster_owned_destinations d.accessors cp gvr w in
      let (reply, w'') = resolve_target_namespaces cp w in
      if not projectable then fail_cluster_source d r cp reason "Validate" msg w' else elim reply [
        | err e ↦
            fail_cluster_destination d r cp resolved_version "TargetResolutionFailed" e.message w''
        | ok targets ↦ reconcile_targets cp gvr resolved_version source targets w''
      ]

  -- From the resolved kind on. A watch that cannot be registered is logged.
  unfoldable pub reconcile_resolved :
      ClusterProjection → GroupVersionResource → String → World S → Completion × World S
  reconcile_resolved cp gvr resolved_version w =
      let src = cp.spec.source in
      let (_, w') = ensure_source_watch r (watch_gvk gvr resolved_version src) w in
      let (reply, w'') = read (S.get_resource gvr src.namespace src.name) w' in
      elim reply [
        | err e ↦ handle_cluster_source_fetch_error cp gvr e w''
        | ok source ↦ reconcile_fetched cp gvr resolved_version source w''
      ]

  -- From `resolveGVR` on.
  unfoldable pub reconcile_finalized : ClusterProjection → World S → Completion × World S
  reconcile_finalized cp w = elim (resolve_gvr d.mapper cp.spec.source) [
    | err e ↦ fail_cluster_source d r cp "SourceResolutionFailed" "Resolve" e.message w
    | ok (gvr, resolved_version) ↦ reconcile_resolved cp gvr resolved_version w
  ]

  -- From `ensureClusterFinalizer` on.
  unfoldable pub reconcile_alive : ClusterProjection → World S → Completion × World S
  reconcile_alive cp w =
      let (reply, w') = ensure_cluster_finalizer d cp w in
      elim reply [ err e ↦ ((pos 0, some e), w') | ok cp' ↦ reconcile_finalized cp' w' ]

  unfoldable pub reconcile_found : ClusterProjection → World S → Completion × World S
  reconcile_found cp w =
      let ((handled, failed), w') = handle_cluster_deletion d cp w in
      if handled then ((pos 0, failed), w') else reconcile_alive cp w'

  unfoldable pub reconcile : String → World S → Completion × World S
  reconcile name w =
      let (reply, w') = read (S.get_cluster_projection name) w in
      elim reply [ err e ↦ ((pos 0, ignore_not_found e), w') | ok cp ↦ reconcile_found cp w' ]
