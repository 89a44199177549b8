-- ===== src/Cluster/Reaches/Stages.antt =====
-- What the stages of a cluster reconcile may write, from the fetched source on.
use projection.Cluster.FanOut.Schedule.{fan_out}
use projection.Source.{check_projectable}
use projection.Cluster.Reconcile.{
  handle_cluster_source_fetch_error, reconcile_fetched, is_zero, report_fan_out, reconcile_targets,
}
use projection.Reconcile.Calls.{calls-ensure_dest_watch}
use projection.Cluster.Safety.{Grows-fan_out}
use projection.Reconcile.{watch_gvk}
use projection.Watches.{ensure_dest_watch}
use projection.Cluster.FanOut.{Tally}
use projection.Cleanup.{cleanup_stale_cluster_destinations, delete_all_cluster_owned_destinations}
use projection.Kube.Calls.{Reply-cases, Grows-none, Grows-trans, Grows-map, Grows}
use projection.Conditions.{fail_cluster_source, Settings}
use projection.Destination.Write.Safety.{Permitted}
use projection.Destination.Write.{cluster_projection_tier, Tier}
use projection.Finalizer.{Deps}
use projection.Kube.Value.{Fields}
use projection.Destination.{cluster_destination_name}
use projection.Cluster.Targets.{resolve_target_namespaces-IsTargets, IsTargets}
use projection.Conditions.ClusterCalls.{
  Reports-fail_cluster_destination, Reports-fail_cluster_destination_counts,
  Reports-mark_all_cluster_ready, Reports-fail_cluster_source, Reports,
}
use projection.Cleanup.Safety.{
  cleanup_stale_cluster_destinations-DeletesStale, delete_all_cluster_owned_destinations-DeletesOwn,
  DeletesStale, DeletesOwn,
}
use projection.Cluster.{selected_namespaces, resolve_selector, resolve_target_namespaces}
use projection.Prelude.{
  ℕ, inr, inl, Bool-cases, ◌∙◌, ap, refl, true, arith, ◌≡◌, sym, contains, subst, List, String,
}
use projection.Kube.World.{
  cluster_projection_call, projection_status_call, projection_call, cluster_projection_status_call,
  delete_call, update_call, create_call, World, Call,
}
use projection.Kube.Api.{int32, ClusterProjection}
use projection.Kube.Object.{HasMetadata, IsLawful, name_field, namespace_field, Accessors}
use projection.Kube.Server.{ok, Error, Reply, GroupVersionResource, Server}

-- A namespace that the spec lists, or that the apiserver returns for its selector in the world.
abbrev pub IsTargeted : (S : Server) → ClusterProjection → World S → String → Type 0
IsTargeted S cp u namespace =
    (targets : List String) × IsTargets S cp u targets × (contains targets namespace ≡ true)

-- Creates and updates go to targeted namespaces and use the destination's name; deletes are of objects
-- that carry the cluster projection's annotation and that the apiserver listed in one of the states
-- of `ListsAt`; a status update sends the cluster projection's own metadata and spec.
abbrev pub Reaches :
    (S : Server) → Accessors → ClusterProjection → World S → (S.State → Type 0) → Call → Type 0
Reaches S a cp u ListsAt (create_call o) =
    IsTargeted S cp u (a.get_text namespace_field o)
    × (a.get_text name_field o ≡ cluster_destination_name cp)
Reaches S a cp u ListsAt (update_call o) =
    IsTargeted S cp u (a.get_text namespace_field o)
    × (a.get_text name_field o ≡ cluster_destination_name cp)
Reaches S a cp u ListsAt (delete_call gvr namespace name) =
    (state : S.State) × ListsAt state × DeletesOwn S a gvr cp state (delete_call gvr namespace name)
Reaches S a cp u ListsAt (cluster_projection_status_call p) =
    (p.meta ≡ cp.meta) × (p.spec ≡ cp.spec)
Reaches S a cp u ListsAt (projection_call p) = ⊥
Reaches S a cp u ListsAt (projection_status_call p) = ⊥
Reaches S a cp u ListsAt (cluster_projection_call p) = ⊥

module _ (S : Server) (a : Accessors) (cp : ClusterProjection) (u : World S)
    (ListsAt : S.State → Type 0) where
  pub Reaches-DeletesOwn :
      (gvr : GroupVersionResource) (state : S.State)
      → ListsAt state
      → (c : Call) → DeletesOwn S a gvr cp state c
      → Reaches S a cp u ListsAt c
  Reaches-DeletesOwn gvr state at c (o, is_delete, ours) =
      subst (Reaches S a cp u ListsAt) (sym is_delete) (state, at, (o, refl, ours))

  pub Reaches-DeletesStale :
      (gvr : GroupVersionResource) (state : S.State) (targets : List String)
      → ListsAt state
      → (c : Call) → DeletesStale S a gvr cp state targets c
      → Reaches S a cp u ListsAt c
  Reaches-DeletesStale gvr state targets at c (o, is_delete, ours, _) =
      Reaches-DeletesOwn gvr state at c (o, is_delete, ours)

  pub Reaches-Reports : (c : Call) → Reports cp c → Reaches S a cp u ListsAt c
  Reaches-Reports c (p, is_status, meta, spec) =
      subst (Reaches S a cp u ListsAt) (sym is_status) (meta, spec)

  pub Reaches-Permitted :
      (targets : List String)
      → IsTargets S cp u targets
      → (tier : Tier) (namespace : String) (reply : Reply Fields) (c : Call)
      → contains targets namespace ≡ true
      → Permitted a tier namespace (cluster_destination_name cp) reply c
      → Reaches S a cp u ListsAt c
  Reaches-Permitted targets chosen tier namespace reply (create_call o) t (ns, n, _) =
      ((targets, chosen, ap (contains targets) ns ∙ t), n)
  Reaches-Permitted targets chosen tier namespace reply (update_call o) t (ns, n, _) =
      ((targets, chosen, ap (contains targets) ns ∙ t), n)
  Reaches-Permitted targets chosen tier namespace reply (delete_call gvr ns name) t bad = absurd bad
  Reaches-Permitted targets chosen tier namespace reply (projection_call p) t bad = absurd bad
  Reaches-Permitted targets chosen tier namespace reply (projection_status_call p) t bad =
      absurd bad
  Reaches-Permitted targets chosen tier namespace reply (cluster_projection_call p) t bad =
      absurd bad
  Reaches-Permitted targets chosen tier namespace reply (cluster_projection_status_call p) t bad =
      absurd bad

calls-resolve_target_namespaces :
    {S : Server} (cp : ClusterProjection) (w : World S)
    → (resolve_target_namespaces cp w).1.calls ≡ w.calls
unfolding resolve_target_namespaces resolve_selector selected_namespaces
calls-resolve_target_namespaces cp w = ground arith

module _ {S : Server} (d : Deps) (law : IsLawful d.accessors) (r : Settings) (schedule : List ℕ)
    (cp : ClusterProjection) (u : World S) (ListsAt : S.State → Type 0) where
  abbrev Written : World S → World S → Type 0
  Written w v = Grows (Reaches S d.accessors cp u ListsAt) w.calls v.calls

  pub Reaches-fail_cluster_source :
      (reason action msg : String) (w : World S)
      → Written w (fail_cluster_source d r cp reason action msg w).1
  Reaches-fail_cluster_source reason action msg w =
      Grows-map _ _ (Reaches-Reports S d.accessors cp u ListsAt) _ _
        (Reports-fail_cluster_source d r cp w reason action msg)

  pub Reaches-delete_all :
      (gvr : GroupVersionResource) (w : World S)
      → ListsAt w.server
      → Written w (delete_all_cluster_owned_destinations d.accessors cp gvr w).1
  Reaches-delete_all gvr w at =
      Grows-map _ _ (Reaches-DeletesOwn S d.accessors cp u ListsAt gvr w.server at) _ _
        (delete_all_cluster_owned_destinations-DeletesOwn d.accessors cp gvr w)

  pub Reaches-report_fan_out :
      (version : String) (t : Tally) (w : World S)
      → Written w (report_fan_out d r schedule cp version t w).1
  unfolding report_fan_out
  Reaches-report_fan_out version t w = elim (Bool-cases (is_zero t.failed)) [
    | inl none_failed ↦
        rw (none_failed, report_fan_out)
          (Grows-map _ _ (Reaches-Reports S d.accessors cp u ListsAt) _ _
            (Reports-mark_all_cluster_ready d r cp w version (int32 t.written)))
    | inr some_failed ↦
        rw (some_failed, report_fan_out)
          (Grows-map _ _ (Reaches-Reports S d.accessors cp u ListsAt) _ _ (
            Reports-fail_cluster_destination_counts d r cp w version "DestinationWriteFailed" _ _
              _))
  ]

  pub Reaches-reconcile_targets :
      (gvr : GroupVersionResource) (version : String) (source : Fields) (targets : List String)
      (w : World S)
      → HasMetadata source
      → IsTargets S cp u targets
      → ListsAt
          (fan_out d.accessors cp source schedule r.selector_write_concurrency targets w).1.server
      → Written w (reconcile_targets d r schedule cp gvr version source targets w).1
  unfolding reconcile_targets
  Reaches-reconcile_targets gvr version source targets w has chosen at =
      let (t, w1) = fan_out d.accessors cp source schedule r.selector_write_concurrency targets w in
      let (_, w2) = cleanup_stale_cluster_destinations d.accessors cp gvr targets w1 in
      let (_, w3) = ensure_dest_watch r (watch_gvk gvr version cp.spec.source) w2 in
      Grows-trans _ w.calls w1.calls _
        (Grows-fan_out d.accessors law cp source targets has _
          (λ ns reply c here h.
            Reaches-Permitted S d.accessors cp u ListsAt targets chosen
              (cluster_projection_tier d.accessors cp) ns reply c here h)
          schedule r.selector_write_concurrency w)
        (Grows-trans _ w1.calls w2.calls _
          (Grows-map _ _ (Reaches-DeletesStale S d.accessors cp u ListsAt gvr w1.server targets at)
            _ _ (cleanup_stale_cluster_destinations-DeletesStale d.accessors cp gvr w1 targets))
          (Grows-trans _ w2.calls w3.calls _ (Grows-none _ _ _ (calls-ensure_dest_watch d r _ w2))
            (Reaches-report_fan_out version t w3)))

  pub Reaches-handle_cluster_source_fetch_error :
      (gvr : GroupVersionResource) (e : Error) (w : World S)
      → ListsAt w.server
      → Written w (handle_cluster_source_fetch_error d r schedule cp gvr e w).1
  unfolding handle_cluster_source_fetch_error
  Reaches-handle_cluster_source_fetch_error gvr e w at = elim (Bool-cases e.is_not_found) [
    | inl gone ↦
        rw (gone, handle_cluster_source_fetch_error)
          (Grows-trans _ w.calls _ _ (Reaches-delete_all gvr w at)
            (Reaches-fail_cluster_source _ "Get" _ _))
    | inr other ↦
        rw (other, handle_cluster_source_fetch_error)
          (Reaches-fail_cluster_source "SourceFetchFailed" "Get" e.message w)
  ]

  pub Reaches-reconcile_fetched :
      (gvr : GroupVersionResource) (version : String) (source : Fields) (w : World S)
      → HasMetadata source
      → w ≡ u
      → ListsAt w.server
      → ((targets : List String)
          → (resolve_target_namespaces cp w).0 ≡ ok targets
          → ListsAt
              (fan_out d.accessors cp source schedule r.selector_write_concurrency targets
                (resolve_target_namespaces cp w).1).1.server)
      → Written w (reconcile_fetched d r schedule cp gvr version source w).1
  unfolding reconcile_fetched
  Reaches-reconcile_fetched gvr version source w has here at swept_at =
      let (reason, msg, projectable) = check_projectable d.accessors source r.source_mode in
      let resolved =
        Grows-none (Reaches S d.accessors cp u ListsAt) _ _
          (calls-resolve_target_namespaces cp w) in
      elim (Bool-cases projectable) [
        | inr refused ↦
            rw (refused, reconcile_fetched)
              (Grows-trans _ w.calls _ _ (Reaches-delete_all gvr w at)
                (Reaches-fail_cluster_source reason "Validate" msg _))
        | inl allowed ↦ elim (Reply-cases (resolve_target_namespaces cp w).0) [
          | inl (e, failed) ↦
              rw (allowed, failed, reconcile_fetched)
                (Grows-trans _ w.calls _ _ resolved (
                  Grows-map _ _ (Reaches-Reports S d.accessors cp u ListsAt) _ _ (
                    Reports-fail_cluster_destination d r cp _ version "TargetResolutionFailed"
                      e.message)))
          | inr (targets, found) ↦
              rw (allowed, found, reconcile_fetched)
                (Grows-trans _ w.calls _ _ resolved (
                  Reaches-reconcile_targets gvr version source targets _ has
                    (subst (λ v. IsTargets S cp v targets) here
                      (resolve_target_namespaces-IsTargets cp w targets found))
                    (swept_at targets found)))
        ]
      ]
