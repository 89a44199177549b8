-- ===== src/Reconcile/Calls.antt =====
-- The writes of a reconcile of internal/controller/projection_controller.go, followed through its
-- stages, for any predicate that the writes of each stage satisfy.
use projection.Destination.Write.{write_destination}
use projection.Kube.Calls.{Grows}
use projection.Kube.Object.{HasMetadata, GroupVersionKind}
use projection.Watches.{ensure_source_watch, ensure_dest_watch}
use projection.Kube.Value.{Fields}
use projection.Kube.World.{delete_call, projection_status_call, emit, count_outcome, World, Call}
use projection.Prelude.{refl, ◌∷◌, arith, ◌≡◌, String}
use projection.Conditions.{
  source_failed, destination_failed, all_ready, mark_all_ready, fail_source, fail_destination,
  Settings,
}
use projection.Kube.Api.{Projection}
use projection.Finalizer.{Deps}
use projection.Kube.Server.{ok, GroupVersionResource, Server}

-- An object that the apiserver returns has metadata.
abbrev pub ServesObjects : Server → Type 0
ServesObjects S =
    (gvr : GroupVersionResource) (namespace name : String) (state : S.State) (o : Fields)
    → (S.get_resource gvr namespace name state).0 ≡ ok o
    → HasMetadata o

module _ {S : Server} (d : Deps) (r : Settings) where
  pub calls-ensure_source_watch :
      (gvk : GroupVersionKind) (w : World S) → (ensure_source_watch r gvk w).1.calls ≡ w.calls
  unfolding ensure_source_watch
  calls-ensure_source_watch gvk w = ground arith

  pub calls-ensure_dest_watch :
      (gvk : GroupVersionKind) (w : World S) → (ensure_dest_watch r gvk w).1.calls ≡ w.calls
  unfolding ensure_dest_watch
  calls-ensure_dest_watch gvk w = ground arith

  pub calls-fail_source :
      (proj : Projection) (reason action msg : String) (w : World S)
      → (fail_source d r proj reason action msg w).1.calls
        ≡ projection_status_call (source_failed d.helpers reason msg proj) ∷ w.calls
  unfolding fail_source emit count_outcome
  calls-fail_source proj reason action msg w = refl

  pub calls-fail_destination :
      (proj : Projection) (resolved_version reason msg : String) (w : World S)
      → (fail_destination d r proj resolved_version reason msg w).1.calls
        ≡ projection_status_call (destination_failed d.helpers resolved_version reason msg proj)
          ∷ w.calls
  unfolding fail_destination count_outcome
  calls-fail_destination proj resolved_version reason msg w = refl

  pub calls-mark_all_ready :
      (proj : Projection) (resolved_version : String) (w : World S)
      → (mark_all_ready d r proj resolved_version w).1.calls
        ≡ projection_status_call (all_ready d.helpers resolved_version proj) ∷ w.calls
  unfolding mark_all_ready count_outcome
  calls-mark_all_ready proj resolved_version w = ground arith

-- What a predicate must hold of, for every write of the stages to satisfy it.
pub record Covers (S : Server) (d : Deps) (proj : Projection) (P : Call → Type 0) : Type 0 where
  pub writes :
      (source : Fields) (w : World S)
      → HasMetadata source
      → Grows P w.calls (write_destination d.accessors proj source w).1.calls
  pub deletes :
      (gvr : GroupVersionResource) (namespace name : String) → P (delete_call gvr namespace name)
  pub source_failures :
      (reason msg : String) → P (projection_status_call (source_failed d.helpers reason msg proj))
  pub destination_failures :
      (resolved_version reason msg : String)
      → P (projection_status_call (destination_failed d.helpers resolved_version reason msg proj))
  pub successes :
      (resolved_version : String)
      → P (projection_status_call (all_ready d.helpers resolved_version proj))
