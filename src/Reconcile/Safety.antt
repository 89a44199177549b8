-- ===== src/Reconcile/Safety.antt =====
-- What a reconcile of a living projection may write, on every branch of
-- internal/controller/projection_controller.go and whatever the apiserver replies.
use projection.Reconcile.Stages.{Grows-reconcile_finalized}
use projection.Reconcile.{reconcile_finalized}
use projection.Kube.Calls.{Grows}
use projection.Prelude.{refl, All-map, ◌≡◌}
use projection.Destination.Write.Safety.{write_destination-Permitted, Permitted}
use projection.Kube.Value.{Fields}
use projection.Reconcile.Calls.{ServesObjects, Covers}
use projection.Destination.Write.{projection_tier, Tier}
use projection.Kube.World.{
  cluster_projection_status_call, cluster_projection_call, projection_status_call, projection_call,
  delete_call, update_call, World, create_call, Call,
}
use projection.Kube.Api.{Projection}
use projection.Finalizer.{Deps}
use projection.Conditions.{all_ready, Settings, destination_failed, source_failed}
use projection.Destination.{destination_coords}
use projection.Kube.Server.{Reply, Server}
use projection.Kube.Object.{name_field, namespace_field, IsLawful, Accessors}

-- Creates and updates stay in the projection's namespace and use its destination's name; a status
-- update sends the projection's own metadata and spec; nothing else is written but deletes.
abbrev pub Confined : Accessors → Projection → Call → Type 0
Confined a proj (create_call o) =
    (a.get_text namespace_field o ≡ proj.meta.namespace)
    × (a.get_text name_field o ≡ (destination_coords proj).1)
Confined a proj (update_call o) =
    (a.get_text namespace_field o ≡ proj.meta.namespace)
    × (a.get_text name_field o ≡ (destination_coords proj).1)
Confined a proj (delete_call gvr namespace name) = Unit
Confined a proj (projection_status_call p) = (p.meta ≡ proj.meta) × (p.spec ≡ proj.spec)
Confined a proj (projection_call p) = ⊥
Confined a proj (cluster_projection_call p) = ⊥
Confined a proj (cluster_projection_status_call p) = ⊥

Permitted-Confined :
    (a : Accessors) (proj : Projection) (tier : Tier) (reply : Reply Fields) (c : Call)
    → Permitted a tier (destination_coords proj).0 (destination_coords proj).1 reply c
    → Confined a proj c
unfolding destination_coords
Permitted-Confined a proj tier reply (create_call o) (ns, n, _) = (ns, n)
Permitted-Confined a proj tier reply (update_call o) (ns, n, _) = (ns, n)
Permitted-Confined a proj tier reply (delete_call gvr namespace name) bad = absurd bad
Permitted-Confined a proj tier reply (projection_call p) bad = absurd bad
Permitted-Confined a proj tier reply (projection_status_call p) bad = absurd bad
Permitted-Confined a proj tier reply (cluster_projection_call p) bad = absurd bad
Permitted-Confined a proj tier reply (cluster_projection_status_call p) bad = absurd bad

Covers-Confined :
    {S : Server} (d : Deps) (law : IsLawful d.accessors) (proj : Projection)
    → Covers S d proj (Confined d.accessors proj)
unfolding source_failed destination_failed all_ready
Covers-Confined d law proj = record {
  writes = λ source w has.
      let (new, e, _, all) = write_destination-Permitted d.accessors law source w proj has in
      (
        new,
        e,
        All-map _ _ (Permitted-Confined d.accessors proj (projection_tier d.accessors proj) _) new
            all,
      );
  deletes = λ gvr namespace name. tt;
  source_failures = λ reason msg. (refl, refl);
  destination_failures = λ version reason msg. (refl, refl);
  successes = λ version. (refl, refl);
}

-- From the resolution of the source on, a reconcile creates and updates no object outside the
-- projection's own namespace, nor under another name than its destination's, and sends no other
-- write than these, deletes and updates of the projection's own status, which leave its metadata and
-- spec alone.
pub reconcile_finalized-Confined :
    {S : Server} (d : Deps) (r : Settings) (law : IsLawful d.accessors) (proj : Projection)
    (w : World S)
    → ServesObjects S
    → Grows (Confined d.accessors proj) w.calls (reconcile_finalized d r proj w).1.calls
reconcile_finalized-Confined d r law proj w serves =
    Grows-reconcile_finalized d r proj (Confined d.accessors proj) serves
      (Covers-Confined d law proj) w
