-- ===== src/Reconcile/Stages.antt =====
-- The stages of `Reconcile` of internal/controller/projection_controller.go issue no write but those
-- that a predicate covers.
use projection.Cleanup.Calls.{calls-delete_each}
use projection.Source.{check_projectable, resolve_gvr}
use projection.Destination.{is_owned_by, destination_coords, owned_by_uid_selector}
use projection.Watches.{ensure_source_watch, ensure_dest_watch}
use projection.Cleanup.Safety.{delete_one_destination-DeletesOwned}
use projection.Destination.Write.{write_destination}
use projection.Kube.Object.{HasMetadata}
use projection.Kube.Calls.{Grows-reverse, Grows-one, Grows-none, Grows-trans, Reply-cases, Grows}
use projection.Kube.Value.{Fields}
use projection.Reconcile.{
  reconcile_resolved, reconcile_finalized, reconcile_fetched, watch_gvk, reconcile_projectable,
  handle_source_fetch_error,
}
use projection.Cleanup.{delete_one_destination, delete_destination, delete_all_owned_destinations}
use projection.Prelude.{
  ◌∷◌, All-map-select, ap, ◌∙◌, none, sym, ◌==◌, subst, refl, arith, inr, All-map, inl, Bool-cases,
  List, String,
}
use projection.Reconcile.Calls.{
  calls-ensure_source_watch, calls-ensure_dest_watch, calls-mark_all_ready, calls-fail_destination,
  calls-fail_source, Covers, ServesObjects,
}
use projection.Kube.World.{projection_status_call, World, Call}
use projection.Kube.Api.{Projection}
use projection.Conditions.{all_ready, fail_source, Settings}
use projection.Finalizer.{Deps}
use projection.Kube.Server.{Error, GroupVersionResource, Server}

module _ {S : Server} (d : Deps) (r : Settings) (proj : Projection) (P : Call → Type 0)
    (serves : ServesObjects S) (covers : Covers S d proj P) where
  Grows-delete_one :
      (gvr : GroupVersionResource) (namespace name : String) (w : World S)
      → Grows P w.calls (delete_one_destination d.accessors proj gvr namespace name w).1.calls
  Grows-delete_one gvr namespace name w =
      let (new, e, _, all) =
        delete_one_destination-DeletesOwned d.accessors proj w gvr namespace name in
      (
        new,
        e,
        All-map _ P
            (λ c (is_delete, _). subst P (sym is_delete) (covers.deletes gvr namespace name)) new
            all,
      )

  pub Grows-delete_destination :
      (w : World S) → Grows P w.calls (delete_destination d.accessors d.mapper proj w).1.calls
  unfolding delete_destination
  Grows-delete_destination w = elim (Reply-cases (resolve_gvr d.mapper proj.spec.source)) [
    | inl (e, failed) ↦ Grows-none P _ _ (ground (arith, failed))
    | inr ((gvr, version), found) ↦
        rw (found, delete_destination)
          (Grows-delete_one gvr (destination_coords proj).0 (destination_coords proj).1 w)
  ]

  Grows-delete_all :
      (gvr : GroupVersionResource) (w : World S)
      → Grows P w.calls (delete_all_owned_destinations d.accessors proj gvr w).1.calls
  unfolding delete_all_owned_destinations
  Grows-delete_all gvr w =
      elim (Reply-cases (S.list_resource gvr (owned_by_uid_selector proj) w.server).0) [
        | inl (e, failed) ↦ Grows-none P _ _ (ground (arith, failed))
        | inr (owned, found) ↦
            rw
              (
                found,
                delete_all_owned_destinations,
                calls-delete_each d.accessors _ gvr (λ o. is_owned_by d.accessors o proj) owned none
                    _,
              )
              (Grows-reverse P _ w.calls (
                All-map-select P _ (λ o. is_owned_by d.accessors o proj) owned
                  (λ o _ _. covers.deletes gvr _ _)))
      ]

  Grows-fail_source :
      (reason action msg : String) (before : List Call) (w : World S)
      → Grows P before w.calls
      → Grows P before (fail_source d r proj reason action msg w).1.calls
  Grows-fail_source reason action msg before w h = Grows-trans P before w.calls _ h (
      Grows-one P w.calls _ _ (covers.source_failures reason msg)
        (calls-fail_source d r proj reason action msg w))

  Grows-handle_source_fetch_error :
      (gvr : GroupVersionResource) (e : Error) (w : World S)
      → Grows P w.calls (handle_source_fetch_error d r proj gvr e w).1.calls
  unfolding handle_source_fetch_error
  Grows-handle_source_fetch_error gvr e w = elim (Bool-cases e.is_not_found) [
    | inl missing ↦
        rw (missing, handle_source_fetch_error)
          (Grows-fail_source _ "Get" _ w.calls _ (Grows-delete_all gvr w))
    | inr other ↦
        rw (other, handle_source_fetch_error)
          (Grows-fail_source "SourceFetchFailed" "Get" e.message w.calls w (Grows-none P _ _ refl))
  ]

  Grows-reconcile_projectable :
      (gvr : GroupVersionResource) (version : String) (source : Fields) (w : World S)
      → HasMetadata source
      → Grows P w.calls (reconcile_projectable d r proj gvr version source w).1.calls
  unfolding reconcile_projectable
  Grows-reconcile_projectable gvr version source w has =
      let ((reason, msg), w') = write_destination d.accessors proj source w in
      let watched = ensure_dest_watch r (watch_gvk gvr version proj.spec.source) w' in
      let written = covers.writes source w has in
      elim (Bool-cases (reason == "")) [
        | inr failed ↦
            rw (failed, reconcile_projectable)
              (Grows-trans P w.calls w'.calls _ written (
                Grows-one P w'.calls _ _ (covers.destination_failures version reason msg)
                  (calls-fail_destination d r proj version reason msg w')))
        | inl success ↦
            rw (success, reconcile_projectable)
              (Grows-trans P w.calls w'.calls _ written (
                Grows-one P w'.calls _ _ (covers.successes version) (
                  calls-mark_all_ready d r proj version watched.1
                  ∙ ap
                      (λ (cs : List Call).
                        projection_status_call (all_ready d.helpers version proj) ∷ cs)
                      (calls-ensure_dest_watch d r (watch_gvk gvr version proj.spec.source) w'))))
      ]

  Grows-reconcile_fetched :
      (gvr : GroupVersionResource) (version : String) (source : Fields) (w : World S)
      → HasMetadata source
      → Grows P w.calls (reconcile_fetched d r proj gvr version source w).1.calls
  unfolding reconcile_fetched
  Grows-reconcile_fetched gvr version source w has =
      let (reason, msg, projectable) = check_projectable d.accessors source r.source_mode in
      elim (Bool-cases projectable) [
        | inl allowed ↦
            rw (allowed, reconcile_fetched) (Grows-reconcile_projectable gvr version source w has)
        | inr refused ↦
            rw (refused, reconcile_fetched)
              (Grows-fail_source reason "Validate" msg w.calls _ (Grows-delete_destination w))
      ]

  Grows-reconcile_resolved :
      (gvr : GroupVersionResource) (version : String) (w : World S)
      → Grows P w.calls (reconcile_resolved d r proj gvr version w).1.calls
  unfolding reconcile_resolved
  Grows-reconcile_resolved gvr version w =
      let src = proj.spec.source in
      let w' = (ensure_source_watch r (watch_gvk gvr version src) w).1 in
      let seen : World S = record w' {
        server = (S.get_resource gvr src.namespace src.name w'.server).1;
      } in
      let kept = calls-ensure_source_watch d r (watch_gvk gvr version src) w in
      elim (Reply-cases (S.get_resource gvr src.namespace src.name w'.server).0) [
        | inl (e, failed) ↦
            rw (failed, reconcile_resolved)
              (Grows-trans P w.calls w'.calls _ (Grows-none P _ _ kept)
                (Grows-handle_source_fetch_error gvr e seen))
        | inr (source, found) ↦
            rw (found, reconcile_resolved)
              (Grows-trans P w.calls w'.calls _ (Grows-none P _ _ kept) (
                Grows-reconcile_fetched gvr version source seen
                  (serves gvr src.namespace src.name w'.server source found)))
      ]

  -- Every write of a reconcile, from the resolution of the source on, is covered.
  pub Grows-reconcile_finalized :
      (w : World S) → Grows P w.calls (reconcile_finalized d r proj w).1.calls
  unfolding reconcile_finalized
  Grows-reconcile_finalized w = elim (Reply-cases (resolve_gvr d.mapper proj.spec.source)) [
    | inl (e, failed) ↦
        rw (failed, reconcile_finalized)
          (Grows-fail_source "SourceResolutionFailed" "Resolve" e.message w.calls w
            (Grows-none P _ _ refl))
    | inr ((gvr, version), found) ↦
        rw (found, reconcile_finalized) (Grows-reconcile_resolved gvr version w)
  ]
