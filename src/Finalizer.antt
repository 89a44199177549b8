-- ===== src/Finalizer.antt =====
-- internal/controller/finalizer.go: the deletion path of a projection, and its finalizer.
pub mod Deletion
pub mod ClusterDeletion
use projection.Prelude.{Bool, true, false, Option, none, some, List, String, if◌then◌else◌}
use projection.Kube.Api.{Projection, ClusterProjection}
use projection.Kube.Object.{Accessors}
use projection.Kube.Server.{Server, Error, Reply, ok, err, RestMapper, Helpers}
use projection.Kube.World.{World, projection_call, cluster_projection_call, write}
use projection.Cleanup.{delete_destination, delete_cluster_destination}

abbrev pub finalizer_name : String
finalizer_name = "projection.sh/finalizer"

abbrev pub cluster_finalizer_name : String
cluster_finalizer_name = "projection.sh/cluster-finalizer"

-- The dependencies that both reconcilers share (`ControllerDeps`, deps.go), but for the clients.
pub record Deps : Type 0 where
  pub accessors : Accessors
  pub helpers : Helpers
  pub mapper : RestMapper

-- `proj` with other finalizers.
abbrev pub with_finalizers : Projection → List String → Projection
with_finalizers proj finalizers = record proj {
  meta = record proj.meta { finalizers = finalizers };
}

abbrev pub with_cluster_finalizers : ClusterProjection → List String → ClusterProjection
with_cluster_finalizers cp finalizers = record cp {
  meta = record cp.meta { finalizers = finalizers };
}

-- The error that a reply leaves in `err`.
abbrev pub error_of {ℓ} : {A : Type ℓ} → Reply A → Option Error
error_of (ok _) = none
error_of (err e) = some e

module _ {S : Server} (d : Deps) where
  open d.helpers use {contains_finalizer, add_finalizer, remove_finalizer}

  unfoldable pub remove_projection_finalizer : Projection → World S → Option Error × World S
  remove_projection_finalizer proj w =
      let released = with_finalizers proj (remove_finalizer proj.meta.finalizers finalizer_name) in
      let (reply, w') = write (projection_call released) (S.update_projection released) w in
      (error_of reply, w')

  -- Whether the caller stops here, and the error.
  unfoldable pub handle_deletion : Projection → World S → (Bool × Option Error) × World S
  unfolding remove_projection_finalizer
  handle_deletion proj w =
      let (failed, w') = delete_destination d.accessors d.mapper proj w in
      let (rejected, w'') = remove_projection_finalizer proj w' in
      elim proj.meta.deletion_timestamp [
        | none ↦ ((false, none), w)
        | some _ ↦
            if contains_finalizer proj.meta.finalizers finalizer_name
            then elim failed [ some e ↦ ((true, some e), w') | none ↦ ((true, rejected), w'') ]
            else ((true, none), w)
      ]

  -- The projection as the apiserver returned it, or as it was.
  unfoldable pub ensure_finalizer : Projection → World S → Reply Projection × World S
  ensure_finalizer proj w =
      let added = with_finalizers proj (add_finalizer proj.meta.finalizers finalizer_name) in
      if contains_finalizer proj.meta.finalizers finalizer_name
      then (ok proj, w)
      else write (projection_call added) (S.update_projection added) w

  unfoldable pub remove_cluster_finalizer : ClusterProjection → World S → Option Error × World S
  remove_cluster_finalizer cp w =
      let released =
        with_cluster_finalizers cp (remove_finalizer cp.meta.finalizers cluster_finalizer_name) in
      let (reply, w') =
        write (cluster_projection_call released) (S.update_cluster_projection released) w in
      (error_of reply, w')

  unfoldable pub handle_cluster_deletion :
      ClusterProjection → World S → (Bool × Option Error) × World S
  unfolding remove_cluster_finalizer
  handle_cluster_deletion cp w =
      let (failed, w') = delete_cluster_destination d.accessors d.mapper cp w in
      let (rejected, w'') = remove_cluster_finalizer cp w' in
      elim cp.meta.deletion_timestamp [
        | none ↦ ((false, none), w)
        | some _ ↦
            if contains_finalizer cp.meta.finalizers cluster_finalizer_name
            then elim failed [ some e ↦ ((true, some e), w') | none ↦ ((true, rejected), w'') ]
            else ((true, none), w)
      ]

  unfoldable pub ensure_cluster_finalizer :
      ClusterProjection → World S → Reply ClusterProjection × World S
  ensure_cluster_finalizer cp w =
      let added =
        with_cluster_finalizers cp (add_finalizer cp.meta.finalizers cluster_finalizer_name) in
      if contains_finalizer cp.meta.finalizers cluster_finalizer_name
      then (ok cp, w)
      else write (cluster_projection_call added) (S.update_cluster_projection added) w
