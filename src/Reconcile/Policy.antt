-- ===== src/Reconcile/Policy.antt =====
-- What a reconcile does about a source whose owner has opted out:
-- internal/controller/projection_controller.go.
use projection.Cleanup.Attempts.{attempts-delete_destination, attempts}
use projection.Reconcile.Calls.{calls-fail_source}
use projection.Source.Policy.{check_projectable-opted_out}
use projection.Kube.Object.{annotations_field}
use projection.Source.{resolve_gvr, opted_out_message, annotation}
use projection.Cleanup.{delete_destination}
use projection.Reconcile.{reconcile_fetched}
use projection.Prelude.{List, ap, ◌∙◌, reverse_onto, ◌∷◌, some, String, ◌≡◌}
use projection.Kube.Value.{Fields}
use projection.Kube.World.{projection_status_call, World, Call}
use projection.Conditions.{source_failed, Settings}
use projection.Kube.Api.{Projection}
use projection.Kube.Server.{GroupVersionResource, Server}
use projection.Finalizer.{Deps}

module _ {S : Server} (d : Deps) (r : Settings) (proj : Projection) (source : Fields)
    (w : World S) where
  -- Where the source's annotation is "false", in every mode and whatever the apiserver replies, a
  -- reconcile that has fetched the source attempts the delete of the object at the destination's
  -- coordinates, where its kind is known to the API, the read finds the object and the projection owns
  -- it, and nothing else is deleted. Whatever that comes to, the next and last write is the status that
  -- reports the veto as `SourceOptedOut`.
  pub calls-reconcile_fetched_opted_out :
      (gvr : GroupVersionResource) (resolved_version : String)
      → annotation (d.accessors.get_map annotations_field source) ≡ some "false"
      → let deletes =
          (attempts S d.accessors proj (resolve_gvr d.mapper proj.spec.source) w.server).0 in
        (reconcile_fetched d r proj gvr resolved_version source w).1.calls
        ≡ projection_status_call
            (source_failed d.helpers "SourceOptedOut" (opted_out_message d.accessors source) proj)
          ∷ reverse_onto deletes w.calls
  unfolding reconcile_fetched
  calls-reconcile_fetched_opted_out gvr resolved_version vetoed =
      let msg = opted_out_message d.accessors source in
      let cleaned = (delete_destination d.accessors d.mapper proj w).1 in
      rw (check_projectable-opted_out d.accessors source r.source_mode vetoed, reconcile_fetched)
        (calls-fail_source d r proj "SourceOptedOut" "Validate" msg cleaned
          ∙ ap
              (λ (cs : List Call).
                projection_status_call (source_failed d.helpers "SourceOptedOut" msg proj) ∷ cs)
              (attempts-delete_destination d.accessors proj w d.mapper).0)
