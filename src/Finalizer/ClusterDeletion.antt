-- ===== src/Finalizer/ClusterDeletion.antt =====
-- The deletion path of a cluster projection in internal/controller/finalizer.go.
use projection.Source.{resolve_gvr}
use projection.Kube.Calls.{Grows-map, Grows-none, Reply-cases, Grows}
use projection.Cleanup.Safety.{delete_all_cluster_owned_destinations-DeletesOwn, DeletesOwn}
use projection.Cleanup.{delete_cluster_destination}
use projection.Prelude.{
  ◌∷◌, reverse_onto, none, Bool, List, false, inr, arith, true, some, inl, ◌≡◌, Option,
}
use projection.Kube.World.{cluster_projection_call, World, Call}
use projection.Kube.Api.{ClusterProjection}
use projection.Kube.Server.{Error, GroupVersionResource, Server}
use projection.Finalizer.{error_of, with_cluster_finalizers, cluster_finalizer_name, Deps}

module _ {S : Server} (d : Deps) (cp : ClusterProjection) (w : World S) where
  -- The cleanup deletes objects that carry the annotation, and nothing else.
  pub delete_cluster_destination-DeletesOwn :
      Grows
        (λ c. (gvr : GroupVersionResource) × DeletesOwn S d.accessors gvr cp w.server c)
        w.calls
        (delete_cluster_destination d.accessors d.mapper cp w).1.calls
  unfolding delete_cluster_destination
  delete_cluster_destination-DeletesOwn = elim (Reply-cases (resolve_gvr d.mapper cp.spec.source)) [
    | inl (e, failed) ↦ Grows-none _ _ _ (ground (arith, failed))
    | inr ((gvr, version), found) ↦
        rw (found, delete_cluster_destination)
          (Grows-map _ _ (λ c h. (gvr, h)) _ _
            (delete_all_cluster_owned_destinations-DeletesOwn d.accessors cp gvr w))
  ]

  -- How the deletion path ends, by the error that the replies to the cleanup decide: with one, only the
  -- cleanup's deletes are written and the error is returned; without one, an update follows that
  -- drops the finalizer and changes nothing else of the cluster projection, and its error is returned.
  abbrev pub IsClusterTornDown :
      Bool → Option Error → List Call → (Bool × Option Error) × World S → Type 0
  IsClusterTornDown false failed deletes end = end ≡ ((true, none), w)
  IsClusterTornDown true (some e) deletes (end, w') =
      (end ≡ (true, some e)) × (w'.calls ≡ reverse_onto deletes w.calls)
  IsClusterTornDown true none deletes (end, w') =
      (p : ClusterProjection) × (d.helpers.contains_finalizer p.meta.finalizers
          cluster_finalizer_name
        ≡ false)
      × (p ≡ with_cluster_finalizers cp p.meta.finalizers)
      × (end ≡ (
        true,
        error_of
            (S.update_cluster_projection p
              (delete_cluster_destination d.accessors d.mapper cp w).1.server).0,
      ))
      × (w'.calls ≡ cluster_projection_call p ∷ reverse_onto deletes w.calls)
