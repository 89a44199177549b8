-- ===== src/Cluster/Reaches.antt =====
-- What a cluster reconcile may write from the resolution of its source on, on every branch of
-- internal/controller/cluster_projection_controller.go.
mod Stages
pub use Stages.*
use projection.Source.{resolve_gvr, check_projectable}
use projection.Cluster.Reconcile.{
  handle_cluster_source_fetch_error, reconcile_fetched, reconcile_resolved, reconcile_finalized,
  is_zero, report_fan_out, reconcile_targets,
}
use projection.Reconcile.Calls.{calls-ensure_source_watch, ServesObjects, calls-ensure_dest_watch}
use projection.Reconcile.{watch_gvk}
use projection.Watches.{ensure_source_watch, ensure_dest_watch}
use mathlib.Core.List.{Perm}
use projection.Cluster.FanOut.Schedule.{fan_out}
use projection.Cleanup.{cleanup_stale_cluster_destinations, delete_all_cluster_owned_destinations}
use projection.Kube.Calls.{Reply-cases, Grows-none, Grows-trans, Grows-map, Grows}
use projection.Conditions.{fail_cluster_source, Settings}
use projection.Destination.Write.Safety.{Permitted}
use projection.Destination.Write.{cluster_projection_tier, Tier}
use projection.Finalizer.{Deps}
use projection.Prelude.Dict.{index}
use projection.Cleanup.Calls.{deletion}
use projection.Kube.Value.{Fields}
use projection.Destination.{
  cluster_owner_key, owned_by_cluster_annotation, cluster_destination_name,
}
use projection.Cluster.Targets.{resolve_target_namespaces-IsTargets, IsTargets}
use projection.Conditions.ClusterCalls.{
  Reports-fail_cluster_destination, Reports-fail_cluster_destination_counts,
  Reports-mark_all_cluster_ready, Reports-fail_cluster_source, Reports,
}
use projection.Cleanup.Safety.{
  cleanup_stale_cluster_destinations-DeletesStale, delete_all_cluster_owned_destinations-DeletesOwn,
  DeletesStale, DeletesOwn,
}
use projection.Cluster.{selected_namespaces, resolve_selector, resolve_target_namespaces}
use projection.Prelude.{
  ℕ, contains-perm, inr, inl, Bool-cases, ◌∙◌, ap, refl, true, arith, ◌≡◌, sym, contains, subst,
  ◌⊎◌, List, String,
}
use projection.Kube.World.{
  cluster_projection_call, projection_status_call, projection_call, cluster_projection_status_call,
  delete_call, update_call, create_call, World, Call,
}
use projection.Kube.Api.{int32, ClusterProjection}
use projection.Kube.Object.{
  HasMetadata, IsLawful, annotations_field, name_field, namespace_field, Accessors,
}
use projection.Kube.Server.{ok, err, Error, Reply, GroupVersionResource, Server}

-- The world in which a cluster reconcile resolves its targets: the source's watch is registered, and
-- the source is read.
module _ {S : Server} (r : Settings) (cp : ClusterProjection) where
  abbrev pub read_world : Reply (GroupVersionResource × String) → World S → World S
  read_world (err e) w = w
  read_world (ok (gvr, version)) w =
      let src = cp.spec.source in
      let w' = (ensure_source_watch r (watch_gvk gvr version src) w).1 in
      record w' { server = (S.get_resource gvr src.namespace src.name w'.server).1 }

-- The states in which a cluster reconcile lists its destinations: where the source has been read, and,
-- with that source and the targets that were resolved after it, where the fan-out has ended.
module _ {S : Server} (d : Deps) (r : Settings) (schedule : List ℕ) (cp : ClusterProjection) where
  abbrev pub ListsAt : Reply (GroupVersionResource × String) → World S → S.State → Type 0
  ListsAt (err e) w state = ⊥
  ListsAt (ok (gvr, version)) w state =
      let src = cp.spec.source in
      let w' = (ensure_source_watch r (watch_gvk gvr version src) w).1 in
      let (resolved, w'') = resolve_target_namespaces cp (read_world r cp (ok (gvr, version)) w) in
      (state ≡ (read_world r cp (ok (gvr, version)) w).server)
      ⊎ ((source : Fields) × ((S.get_resource gvr src.namespace src.name w'.server).0 ≡ ok source)
          × ((targets : List String) × (resolved ≡ ok targets)
              × (state
                  ≡ (fan_out d.accessors cp source schedule r.selector_write_concurrency targets
                      w'').1.server)))

module _ {S : Server} (d : Deps) (law : IsLawful d.accessors) (r : Settings) (schedule : List ℕ)
    (cp : ClusterProjection) where
  Reaches-reconcile_resolved :
      ServesObjects S
      → (gvr : GroupVersionResource) (version : String) (w : World S)
      → Grows
          (Reaches S d.accessors cp
            (read_world r cp (ok (gvr, version)) w)
            (ListsAt d r schedule cp (ok (gvr, version)) w))
          w.calls
          (reconcile_resolved d r schedule cp gvr version w).1.calls
  unfolding reconcile_resolved
  Reaches-reconcile_resolved serves gvr version w =
      let src = cp.spec.source in
      let u = read_world r cp (ok (gvr, version)) w in
      let w' = (ensure_source_watch r (watch_gvk gvr version src) w).1 in
      let lists = ListsAt d r schedule cp (ok (gvr, version)) w in
      let watched =
        Grows-none (Reaches S d.accessors cp u lists) _ _ (calls-ensure_source_watch d r _ w) in
      elim (Reply-cases (S.get_resource gvr src.namespace src.name w'.server).0) [
        | inl (e, failed) ↦
            rw (failed, reconcile_resolved)
              (Grows-trans _ w.calls w'.calls _ watched (
                Reaches-handle_cluster_source_fetch_error d law r schedule cp u lists gvr e _
                  (inl refl)))
        | inr (source, found) ↦
            rw (found, reconcile_resolved)
              (Grows-trans _ w.calls w'.calls _ watched (
                Reaches-reconcile_fetched d law r schedule cp u lists gvr version source _
                  (serves gvr src.namespace src.name w'.server source found) refl (inl refl)
                  (λ targets resolved. inr (source, found, (targets, resolved, refl)))))
      ]

  -- From the resolution of the source on, for an apiserver that returns objects with metadata and under
  -- every schedule of the workers, a cluster reconcile creates and updates objects in namespaces that
  -- the spec lists or that the apiserver returned for its selector once the source was read, under the
  -- destination's name only. It deletes only objects that carry its annotation and that the apiserver
  -- returned to a list by the label of its UID, where the source had been read or the fan-out had
  -- ended. It sends no other write than these and updates of its own status, which leave its metadata and
  -- spec alone.
  pub reconcile_finalized-Reaches :
      (w : World S)
      → ServesObjects S
      → Grows
          (Reaches S d.accessors cp
            (read_world r cp (resolve_gvr d.mapper cp.spec.source) w)
            (ListsAt d r schedule cp (resolve_gvr d.mapper cp.spec.source) w))
          w.calls
          (reconcile_finalized d r schedule cp w).1.calls
  unfolding reconcile_finalized
  reconcile_finalized-Reaches w serves = elim (Reply-cases (resolve_gvr d.mapper cp.spec.source)) [
    | inl (e, failed) ↦
        rw (failed, reconcile_finalized)
          (Reaches-fail_cluster_source d law r schedule cp w (ListsAt d r schedule cp (err e) w)
            "SourceResolutionFailed" "Resolve" e.message w)
    | inr ((gvr, version), found) ↦
        rw (found, reconcile_finalized) (Reaches-reconcile_resolved serves gvr version w)
  ]
