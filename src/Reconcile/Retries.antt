-- ===== src/Reconcile/Retries.antt =====
-- How a reconcile of a living projection ends: internal/controller/projection_controller.go. A watch
-- that cannot be registered is only logged, and does not change the end.
use projection.Destination.Write.{write_destination}
use projection.Watches.{ensure_dest_watch, ensure_source_watch}
use projection.Kube.Value.{Fields}
use projection.Source.{check_projectable, resolve_gvr}
use projection.Reconcile.{
  watch_gvk, reconcile_resolved, reconcile_projectable, reconcile_finalized, reconcile_fetched,
  handle_source_fetch_error,
}
use projection.Kube.Calls.{Reply-cases}
use projection.Prelude.{
  true, eq_iff, ◌==◌, Bool-cases, refl, ◌∷◌, inr, inl, some, none, ◌≡◌, ◌⊎◌, String, List,
}
use projection.Kube.World.{projection_status_call, Call, emit, count_outcome, World}
use projection.Kube.Api.{condition_false, pos, Projection}
use projection.Conditions.{
  condition_ready, all_ready, set_condition_on, source_failed, destination_failed, mark_all_ready,
  fail_source, fail_destination, Completion, Settings,
}
use projection.Conditions.Agreement.{status_at, IsDocumented}
use projection.Finalizer.{Deps}
use projection.Kube.Server.{ok, GroupVersionResource, Error, Server}

-- Nothing failed that the status speaks of, of a reconcile that resolved its kind in the world `w`: the
-- source was read, the policy allows it, and `writeDestination` returned no reason.
module _ {S : Server} (d : Deps) (r : Settings) (proj : Projection) (w : World S) where
  abbrev pub IsMirrored : String → Type 0
  IsMirrored version =
      let src = proj.spec.source in
      (gvr : GroupVersionResource) × (resolve_gvr d.mapper src ≡ ok (gvr, version))
      × (let w' = (ensure_source_watch r (watch_gvk gvr version src) w).1 in
          let (reply, state) = S.get_resource gvr src.namespace src.name w'.server in
          (source : Fields) × (reply ≡ ok source)
          × ((check_projectable d.accessors source r.source_mode).2 ≡ true)
          × ((write_destination d.accessors proj source (record w' { server = state })).0.0 ≡ ""))

module _ {S : Server} (d : Deps) (r : Settings) (proj : Projection)
    (Succeeds : String → Type 0) where
  -- Done, after a success, with the ready report as the last write.
  abbrev pub IsDone : Completion × World S → Type 0
  IsDone (completion, w) =
      (version : String) × (before : List Call) × Succeeds version
      × (completion ≡ (pos 0, none))
      × (w.calls ≡ projection_status_call (all_ready d.helpers version proj) ∷ before)

  -- To be tried again after the interval, with a report that is not ready as the last write.
  abbrev pub IsRequeued : Completion × World S → Type 0
  IsRequeued (completion, w) =
      (p : Projection) × (before : List Call) × (completion ≡ (r.requeue_interval, none))
      × (w.calls ≡ projection_status_call p ∷ before)
      × (status_at condition_ready p.status.conditions ≡ some condition_false)

  -- To be tried again by the queue, which backs off on an error.
  abbrev pub IsReturned : Completion × World S → Type 0
  IsReturned (completion, w) = (e : Error) × (completion ≡ (pos 0, some e))

  abbrev pub Ends : Completion × World S → Type 0
  Ends end = IsDone end ⊎ (IsRequeued end ⊎ IsReturned end)

module _ {S : Server} (d : Deps) (doc : IsDocumented d.helpers) (r : Settings) (proj : Projection)
    (Succeeds : String → Type 0) where
  Ends-fail_source :
      (reason action msg : String) (w : World S)
      → Ends d r proj Succeeds (fail_source d r proj reason action msg w)
  unfolding fail_source emit count_outcome source_failed set_condition_on
  Ends-fail_source reason action msg w =
      elim (Reply-cases
        (S.update_projection_status (source_failed d.helpers reason msg proj) w.server).0) [
          | inl (e, refused) ↦ inr (inr (e, rw refused))
          | inr (p, stored) ↦ inr (
              inl (
                source_failed d.helpers reason msg proj,
                w.calls,
                rw stored,
                refl,
                rw doc.condition_at-set,
              ))
        ]

  Ends-fail_destination :
      (version reason msg : String) (w : World S)
      → Ends d r proj Succeeds (fail_destination d r proj version reason msg w)
  unfolding fail_destination count_outcome destination_failed set_condition_on
  Ends-fail_destination version reason msg w =
      elim (Reply-cases
        (S.update_projection_status (destination_failed d.helpers version reason msg proj)
          w.server).0) [
            | inl (e, refused) ↦ inr (inr (e, rw refused))
            | inr (p, stored) ↦ inr (
                inl (
                  destination_failed d.helpers version reason msg proj,
                  w.calls,
                  rw stored,
                  refl,
                  rw doc.condition_at-set,
                ))
          ]

  Ends-mark_all_ready :
      (version : String) (w : World S)
      → Succeeds version
      → Ends d r proj Succeeds
          ((pos 0, (mark_all_ready d r proj version w).0), (mark_all_ready d r proj version w).1)
  unfolding mark_all_ready count_outcome
  Ends-mark_all_ready version w good =
      elim (Reply-cases
        (S.update_projection_status (all_ready d.helpers version proj) w.server).0) [
          | inl (e, refused) ↦ inr (inr (e, rw (refused, mark_all_ready) refl))
          | inr (p, stored) ↦ inl (
            version,
            w.calls,
            good,
            rw (stored, mark_all_ready) refl,
            rw (stored, mark_all_ready) refl,
          )
        ]

  Ends-handle_source_fetch_error :
      (gvr : GroupVersionResource) (e : Error) (w : World S)
      → Ends d r proj Succeeds (handle_source_fetch_error d r proj gvr e w)
  unfolding handle_source_fetch_error
  Ends-handle_source_fetch_error gvr e w = elim (Bool-cases e.is_not_found) [
    | inl gone ↦ rw (gone, handle_source_fetch_error) (Ends-fail_source _ "Get" _ _)
    | inr other ↦
        rw (other, handle_source_fetch_error)
          (Ends-fail_source "SourceFetchFailed" "Get" e.message w)
  ]

  Ends-reconcile_projectable :
      (gvr : GroupVersionResource) (version : String) (source : Fields) (w : World S)
      → ((write_destination d.accessors proj source w).0.0 ≡ "" → Succeeds version)
      → Ends d r proj Succeeds (reconcile_projectable d r proj gvr version source w)
  unfolding reconcile_projectable
  Ends-reconcile_projectable gvr version source w good =
      let ((reason, msg), w') = write_destination d.accessors proj source w in
      let (_, w'') = ensure_dest_watch r (watch_gvk gvr version proj.spec.source) w' in
      elim (Bool-cases (reason == "")) [
        | inl written ↦
            rw (written, reconcile_projectable)
              (Ends-mark_all_ready version w'' (good ((eq_iff reason "").0 written)))
        | inr failed ↦
            rw (failed, reconcile_projectable) (Ends-fail_destination version reason msg w')
      ]

  Ends-reconcile_fetched :
      (gvr : GroupVersionResource) (version : String) (source : Fields) (w : World S)
      → ((check_projectable d.accessors source r.source_mode).2 ≡ true
          → (write_destination d.accessors proj source w).0.0 ≡ ""
          → Succeeds version)
      → Ends d r proj Succeeds (reconcile_fetched d r proj gvr version source w)
  unfolding reconcile_fetched
  Ends-reconcile_fetched gvr version source w good =
      let (reason, msg, projectable) = check_projectable d.accessors source r.source_mode in
      elim (Bool-cases projectable) [
        | inl allowed ↦
            rw (allowed, reconcile_fetched)
              (Ends-reconcile_projectable gvr version source w (good allowed))
        | inr refused ↦ rw (refused, reconcile_fetched) (Ends-fail_source reason "Validate" msg _)
      ]

  Ends-reconcile_finalized :
      (w : World S)
      → ((gvr : GroupVersionResource) (version : String)
          → resolve_gvr d.mapper proj.spec.source ≡ ok (gvr, version)
          → Ends d r proj Succeeds (reconcile_resolved d r proj gvr version w))
      → Ends d r proj Succeeds (reconcile_finalized d r proj w)
  unfolding reconcile_finalized
  Ends-reconcile_finalized w go = elim (Reply-cases (resolve_gvr d.mapper proj.spec.source)) [
    | inl (e, failed) ↦
        rw (failed, reconcile_finalized)
          (Ends-fail_source "SourceResolutionFailed" "Resolve" e.message w)
    | inr ((gvr, version), found) ↦ rw (found, reconcile_finalized) (go gvr version found)
  ]

module _ {S : Server} (d : Deps) (doc : IsDocumented d.helpers) (r : Settings) (proj : Projection)
    (w : World S) where
  Ends-reconcile_resolved :
      (gvr : GroupVersionResource) (version : String)
      → resolve_gvr d.mapper proj.spec.source ≡ ok (gvr, version)
      → Ends d r proj (IsMirrored d r proj w) (reconcile_resolved d r proj gvr version w)
  unfolding reconcile_resolved
  Ends-reconcile_resolved gvr version resolved =
      let src = proj.spec.source in
      let good = IsMirrored d r proj w in
      let (_, w') = ensure_source_watch r (watch_gvk gvr version src) w in
      elim (Reply-cases (S.get_resource gvr src.namespace src.name w'.server).0) [
        | inl (e, failed) ↦
            rw (failed, reconcile_resolved)
              (Ends-handle_source_fetch_error d doc r proj good gvr e _)
        | inr (source, found) ↦
            rw (found, reconcile_resolved)
              (Ends-reconcile_fetched d doc r proj good gvr version source _
                (λ allowed written. (gvr, resolved, (source, found, allowed, written))))
      ]

  -- From the resolution of the source on, a reconcile ends in one of three ways, whatever the apiserver
  -- replies: with no error and no requeue, and then the kind was resolved, the source was read, the
  -- policy allows it, `writeDestination` returned no reason, and the last write is the status that reports
  -- the projection ready; with the requeue interval, and then the last write is a status whose `Ready`
  -- is false; or with an error.
  pub reconcile_finalized-Ends :
      Ends d r proj (IsMirrored d r proj w) (reconcile_finalized d r proj w)
  reconcile_finalized-Ends =
      Ends-reconcile_finalized d doc r proj (IsMirrored d r proj w) w Ends-reconcile_resolved
