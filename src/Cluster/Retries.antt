-- ===== src/Cluster/Retries.antt =====
-- How a reconcile of a living cluster projection ends:
-- internal/controller/cluster_projection_controller.go. A sweep that fails and a watch that cannot be
-- registered are only logged, and do not change the end.

use projection.Cluster.FanOut.Schedule.{fan_out}
use projection.Cluster.{resolve_target_namespaces}
use projection.Reconcile.{watch_gvk}
use projection.Source.{check_projectable, resolve_gvr}
use projection.Watches.{ensure_source_watch}
use projection.Kube.Value.{Fields}
use projection.Cluster.FanOut.{Tally}
use projection.Kube.Calls.{Reply-cases}
use projection.Kube.World.{cluster_projection_status_call, emit, count_outcome, Call, World}
use projection.Prelude.{
  zero, arith, suc, true, ℕ, refl, ◌∷◌, inr, some, inl, none, Bool-cases, ◌≡◌, ◌⊎◌, String, List,
}
use projection.Kube.Api.{condition_true, int32, condition_false, pos, ℤ, ClusterProjection}
use projection.Conditions.Agreement.{status_at, IsDocumented}
use projection.Conditions.{
  with_destination_name, with_counts, condition_ready, cluster_source_failed, all_cluster_ready,
  set_condition_on, report_cluster_failure, mark_all_cluster_ready, fail_cluster_source,
  fail_cluster_destination_counts, fail_cluster_destination, cluster_destination_failed, Completion,
  Settings,
}
use projection.Finalizer.{Deps}
use projection.Kube.Server.{ok, Helpers, GroupVersionResource, Error, Server}
use projection.Cluster.Reconcile.{
  is_zero, handle_cluster_source_fetch_error, report_fan_out, reconcile_targets, reconcile_fetched,
  reconcile_resolved, reconcile_finalized,
}

-- Nothing failed that the status speaks of, of a cluster reconcile that resolved its kind in the world
-- `w`: the source was read, the policy allows it, the targets were resolved, the fan-out counts no failure,
-- and `written` is its count of the others.
module _ {S : Server} (d : Deps) (r : Settings) (schedule : List ℕ) (cp : ClusterProjection)
    (w : World S) where
  abbrev pub IsMirroredAll : ℤ → Type 0
  IsMirroredAll written =
      let src = cp.spec.source in
      (gvr : GroupVersionResource) × (version : String) × (resolve_gvr d.mapper src
        ≡ ok (gvr, version))
      × (let w' = (ensure_source_watch r (watch_gvk gvr version src) w).1 in
          let (reply, state) = S.get_resource gvr src.namespace src.name w'.server in
          let (resolved, w'') = resolve_target_namespaces cp (record w' { server = state }) in
          (source : Fields) × (reply ≡ ok source)
          × ((check_projectable d.accessors source r.source_mode).2 ≡ true)
          × ((targets : List String) × (resolved ≡ ok targets)
              × (let t =
                    (fan_out d.accessors cp source schedule r.selector_write_concurrency targets
                      w'').0 in
                  (t.failed ≡ 0) × (written ≡ int32 t.written))))

module _ {S : Server} (r : Settings) (Succeeds : ℤ → Type 0) where
  -- Done, after a success, with a ready report and no failed namespace as the last write.
  abbrev pub IsDone : Completion × World S → Type 0
  IsDone (completion, w) =
      (p : ClusterProjection) × (before : List Call) × (completion ≡ (pos 0, none))
      × (w.calls ≡ cluster_projection_status_call p ∷ before)
      × (status_at condition_ready p.status.conditions ≡ some condition_true)
      × (p.status.namespaces_failed ≡ pos 0)
      × Succeeds p.status.namespaces_written

  -- To be tried again after the interval, with a report that is not ready as the last write.
  abbrev pub IsRequeued : Completion × World S → Type 0
  IsRequeued (completion, w) =
      (p : ClusterProjection) × (before : List Call) × (completion ≡ (r.requeue_interval, none))
      × (w.calls ≡ cluster_projection_status_call p ∷ before)
      × (status_at condition_ready p.status.conditions ≡ some condition_false)

  -- To be tried again by the queue, which backs off on an error.
  abbrev pub IsReturned : Completion × World S → Type 0
  IsReturned (completion, w) = (e : Error) × (completion ≡ (pos 0, some e))

  abbrev pub Ends : Completion × World S → Type 0
  Ends end = IsDone end ⊎ (IsRequeued end ⊎ IsReturned end)

is_zero-eq : (n : ℕ) → is_zero n ≡ true → n ≡ 0
is_zero-eq zero h = refl
is_zero-eq (suc n) h = absurd (ground arith)

ready_false :
    (h : Helpers)
    → IsDocumented h
    → (cp : ClusterProjection) (version reason msg : String)
    → status_at condition_ready
        (cluster_destination_failed h version reason msg cp).status.conditions
      ≡ some condition_false
unfolding cluster_destination_failed set_condition_on
ready_false h doc cp version reason msg = rw doc.condition_at-set

module _ {S : Server} (d : Deps) (doc : IsDocumented d.helpers) (r : Settings)
    (cp : ClusterProjection) (Succeeds : ℤ → Type 0) where
  Ends-fail_cluster_source :
      (reason action msg : String) (w : World S)
      → Ends r Succeeds (fail_cluster_source d r cp reason action msg w)
  unfolding fail_cluster_source emit count_outcome cluster_source_failed set_condition_on
  Ends-fail_cluster_source reason action msg w =
      let p = cluster_source_failed d.helpers reason msg cp in
      elim (Reply-cases (S.update_cluster_projection_status p w.server).0) [
        | inl (e, refused) ↦ inr (inr (e, rw refused))
        | inr (_, stored) ↦ inr (inl (p, w.calls, rw stored, refl, rw doc.condition_at-set))
      ]

  Ends-report_cluster_failure :
      (p : ClusterProjection) (w : World S)
      → status_at condition_ready p.status.conditions ≡ some condition_false
      → Ends r Succeeds (report_cluster_failure d r p w)
  unfolding report_cluster_failure count_outcome
  Ends-report_cluster_failure p w h =
      elim (Reply-cases (S.update_cluster_projection_status p w.server).0) [
        | inl (e, refused) ↦ inr (inr (e, rw (refused, report_cluster_failure) refl))
        | inr (_, stored) ↦
            inr (inl (p, w.calls, rw (stored, report_cluster_failure) refl, refl, h))
      ]

  Ends-fail_cluster_destination :
      (version reason msg : String) (w : World S)
      → Ends r Succeeds (fail_cluster_destination d r cp version reason msg w)
  unfolding fail_cluster_destination
  Ends-fail_cluster_destination version reason msg w =
      Ends-report_cluster_failure _ w (ready_false d.helpers doc cp version reason msg)

  Ends-fail_cluster_destination_counts :
      (version reason msg : String) (written failed : ℤ) (w : World S)
      → Ends r Succeeds (fail_cluster_destination_counts d r cp version reason msg written failed w)
  unfolding fail_cluster_destination_counts
  Ends-fail_cluster_destination_counts version reason msg written failed w =
      Ends-report_cluster_failure _ w (ready_false d.helpers doc cp version reason msg)

  Ends-mark_all_cluster_ready :
      (version : String) (written : ℤ) (w : World S)
      → Succeeds written
      → Ends r Succeeds (
        (pos 0, (mark_all_cluster_ready d r cp version written w).0),
        (mark_all_cluster_ready d r cp version written w).1,
      )
  unfolding mark_all_cluster_ready count_outcome all_cluster_ready set_condition_on
  Ends-mark_all_cluster_ready version written w good =
      let p =
        with_counts (with_destination_name (all_cluster_ready d.helpers version cp)) written
          (pos 0) in
      elim (Reply-cases (S.update_cluster_projection_status p w.server).0) [
        | inl (e, refused) ↦ inr (inr (e, rw (refused, mark_all_cluster_ready) refl))
        | inr (_, stored) ↦ inl (
          p,
          w.calls,
          rw (stored, mark_all_cluster_ready) refl,
          rw (stored, mark_all_cluster_ready) refl,
          rw doc.condition_at-set,
          refl,
          good,
        )
      ]

module _ {S : Server} (d : Deps) (doc : IsDocumented d.helpers) (r : Settings) (schedule : List ℕ)
    (cp : ClusterProjection) (Succeeds : ℤ → Type 0) where
  Ends-handle_cluster_source_fetch_error :
      (gvr : GroupVersionResource) (e : Error) (w : World S)
      → Ends r Succeeds (handle_cluster_source_fetch_error d r schedule cp gvr e w)
  unfolding handle_cluster_source_fetch_error
  Ends-handle_cluster_source_fetch_error gvr e w = elim (Bool-cases e.is_not_found) [
    | inl gone ↦
        rw (gone, handle_cluster_source_fetch_error)
          (Ends-fail_cluster_source d doc r cp Succeeds _ "Get" _ _)
    | inr other ↦
        rw (other, handle_cluster_source_fetch_error)
          (Ends-fail_cluster_source d doc r cp Succeeds "SourceFetchFailed" "Get" e.message w)
  ]

  Ends-report_fan_out :
      (version : String) (t : Tally) (w : World S)
      → (t.failed ≡ 0 → Succeeds (int32 t.written))
      → Ends r Succeeds (report_fan_out d r schedule cp version t w)
  unfolding report_fan_out
  Ends-report_fan_out version t w good = elim (Bool-cases (is_zero t.failed)) [
    | inl none_failed ↦
        rw (none_failed, report_fan_out)
          (Ends-mark_all_cluster_ready d doc r cp Succeeds version (int32 t.written) w
            (good (is_zero-eq t.failed none_failed)))
    | inr some_failed ↦
        rw (some_failed, report_fan_out)
          (Ends-fail_cluster_destination_counts d doc r cp Succeeds version "DestinationWriteFailed"
            _ _ _ w)
  ]

  Ends-reconcile_fetched :
      (gvr : GroupVersionResource) (version : String) (source : Fields) (w : World S)
      → ((check_projectable d.accessors source r.source_mode).2 ≡ true
          → (targets : List String) → (resolve_target_namespaces cp w).0 ≡ ok targets
          → let t =
              (fan_out d.accessors cp source schedule r.selector_write_concurrency targets
                (resolve_target_namespaces cp w).1).0 in
            t.failed ≡ 0 → Succeeds (int32 t.written))
      → Ends r Succeeds (reconcile_fetched d r schedule cp gvr version source w)
  unfolding reconcile_fetched reconcile_targets
  Ends-reconcile_fetched gvr version source w good =
      let (reason, msg, projectable) = check_projectable d.accessors source r.source_mode in
      elim (Bool-cases projectable) [
        | inr refused ↦
            rw (refused, reconcile_fetched)
              (Ends-fail_cluster_source d doc r cp Succeeds reason "Validate" msg _)
        | inl allowed ↦ elim (Reply-cases (resolve_target_namespaces cp w).0) [
          | inl (e, failed) ↦
              rw (allowed, failed, reconcile_fetched)
                (Ends-fail_cluster_destination d doc r cp Succeeds version "TargetResolutionFailed"
                  e.message _)
          | inr (targets, found) ↦
              rw (allowed, found, reconcile_fetched)
                (Ends-report_fan_out version _ _ (good allowed targets found))
        ]
      ]

  Ends-reconcile_finalized :
      (w : World S)
      → ((gvr : GroupVersionResource) (version : String)
          → resolve_gvr d.mapper cp.spec.source ≡ ok (gvr, version)
          → Ends r Succeeds (reconcile_resolved d r schedule cp gvr version w))
      → Ends r Succeeds (reconcile_finalized d r schedule cp w)
  unfolding reconcile_finalized
  Ends-reconcile_finalized w go = elim (Reply-cases (resolve_gvr d.mapper cp.spec.source)) [
    | inl (e, failed) ↦
        rw (failed, reconcile_finalized)
          (Ends-fail_cluster_source d doc r cp Succeeds "SourceResolutionFailed" "Resolve" e.message
            w)
    | inr ((gvr, version), found) ↦ rw (found, reconcile_finalized) (go gvr version found)
  ]

module _ {S : Server} (d : Deps) (doc : IsDocumented d.helpers) (r : Settings) (schedule : List ℕ)
    (cp : ClusterProjection) (w : World S) where
  Ends-reconcile_resolved :
      (gvr : GroupVersionResource) (version : String)
      → resolve_gvr d.mapper cp.spec.source ≡ ok (gvr, version)
      → Ends r (IsMirroredAll d r schedule cp w) (reconcile_resolved d r schedule cp gvr version w)
  unfolding reconcile_resolved
  Ends-reconcile_resolved gvr version resolved =
      let src = cp.spec.source in
      let good = IsMirroredAll d r schedule cp w in
      let (_, w') = ensure_source_watch r (watch_gvk gvr version src) w in
      elim (Reply-cases (S.get_resource gvr src.namespace src.name w'.server).0) [
        | inl (e, failed) ↦
            rw (failed, reconcile_resolved)
              (Ends-handle_cluster_source_fetch_error d doc r schedule cp good gvr e _)
        | inr (source, found) ↦
            rw (found, reconcile_resolved)
              (Ends-reconcile_fetched d doc r schedule cp good gvr version source _
                (λ allowed targets chosen clean. (
                  gvr,
                  version,
                  resolved,
                  (source, found, allowed, (targets, chosen, (clean, refl))),
                )))
      ]

  -- From the resolution of the source on, a cluster reconcile ends in one of three ways, whatever the
  -- apiserver replies and under every schedule of the workers: with no error and no requeue, and then the
  -- kind was resolved, the source was read, the policy allows it, the targets were resolved, the
  -- fan-out counts no failed namespace, and the last write is a status that is ready, counts no failed
  -- namespace and has the fan-out's count of those written; with the requeue interval, and then the last
  -- write is a status whose `Ready` is false; or with an error.
  pub reconcile_finalized-Ends_cluster :
      Ends r (IsMirroredAll d r schedule cp w) (reconcile_finalized d r schedule cp w)
  reconcile_finalized-Ends_cluster =
      Ends-reconcile_finalized d doc r schedule cp (IsMirroredAll d r schedule cp w) w
        Ends-reconcile_resolved
