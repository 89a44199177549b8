-- ===== src/Cluster/Safety.antt =====
-- What a cluster reconcile may write once its targets are resolved:
-- internal/controller/cluster_projection_controller.go.
use projection.Cluster.FanOut.Writes.{Grows-EachOnce, fan_out_writes_each_once}
use projection.Cluster.FanOut.Turns.{fan_out-IsRun}
use projection.Cluster.FanOut.Schedule.{fan_out}
use projection.Cluster.{summarize_failures}
use projection.Cluster.Reconcile.{is_zero, report_fan_out, reconcile_targets}
use projection.Conditions.ClusterCalls.{
  Reports-fail_cluster_destination_counts, Reports-mark_all_cluster_ready, Reports,
}
use projection.Reconcile.Calls.{calls-ensure_dest_watch}
use projection.Reconcile.{watch_gvk}
use projection.Watches.{ensure_dest_watch}
use projection.Conditions.{Settings}
use projection.Finalizer.{Deps}
use projection.Cleanup.Safety.{cleanup_stale_cluster_destinations-DeletesStale}
use projection.Destination.{cluster_destination_name}
use projection.Destination.Write.Safety.{Permitted}
use projection.Cleanup.{cleanup_stale_cluster_destinations}
use projection.Kube.Calls.{Grows-trans, Grows-none, Grows-map, Grows}
use projection.Cluster.FanOut.{worker_count, Tally}
use projection.Destination.Write.{cluster_projection_tier, Tier}
use projection.Kube.World.{
  cluster_projection_call, projection_status_call, cluster_projection_status_call, projection_call,
  delete_call, update_call, World, create_call, Call,
}
use projection.Prelude.{
  ℕ, inr, inl, Bool-cases, contains-perm, false, ◌∙◌, sym, ap, subst, true, ◌≡◌, contains, String,
  List,
}
use projection.Kube.Value.{Fields}
use projection.Kube.Api.{ℤ, int32, ClusterProjection}
use projection.Kube.Server.{Reply, GroupVersionResource, Server}
use projection.Kube.Object.{name_field, namespace_field, HasMetadata, IsLawful, Accessors}

-- Creates and updates stay in the targets and use the destination's name, deletes stay outside the
-- targets, and a status update sends the cluster projection's own metadata and spec.
abbrev pub ConfinedTo : Accessors → ClusterProjection → List String → Call → Type 0
ConfinedTo a cp targets (create_call o) =
    (contains targets (a.get_text namespace_field o) ≡ true)
    × (a.get_text name_field o ≡ cluster_destination_name cp)
ConfinedTo a cp targets (update_call o) =
    (contains targets (a.get_text namespace_field o) ≡ true)
    × (a.get_text name_field o ≡ cluster_destination_name cp)
ConfinedTo a cp targets (delete_call gvr namespace name) = contains targets namespace ≡ false
ConfinedTo a cp targets (cluster_projection_status_call p) = (p.meta ≡ cp.meta) × (p.spec ≡ cp.spec)
ConfinedTo a cp targets (projection_call p) = ⊥
ConfinedTo a cp targets (projection_status_call p) = ⊥
ConfinedTo a cp targets (cluster_projection_call p) = ⊥

Permitted-ConfinedTo :
    (a : Accessors) (cp : ClusterProjection) (targets : List String) (tier : Tier)
    (namespace : String) (reply : Reply Fields) (c : Call)
    → contains targets namespace ≡ true
    → Permitted a tier namespace (cluster_destination_name cp) reply c
    → ConfinedTo a cp targets c
Permitted-ConfinedTo a cp targets tier namespace reply (create_call o) t (ns, n, _) =
    (ap (contains targets) ns ∙ t, n)
Permitted-ConfinedTo a cp targets tier namespace reply (update_call o) t (ns, n, _) =
    (ap (contains targets) ns ∙ t, n)
Permitted-ConfinedTo a cp targets tier namespace reply (delete_call gvr ns name) t bad = absurd bad
Permitted-ConfinedTo a cp targets tier namespace reply (projection_call p) t bad = absurd bad
Permitted-ConfinedTo a cp targets tier namespace reply (projection_status_call p) t bad = absurd bad
Permitted-ConfinedTo a cp targets tier namespace reply (cluster_projection_call p) t bad =
    absurd bad
Permitted-ConfinedTo a cp targets tier namespace reply (cluster_projection_status_call p) t bad =
    absurd bad

module _ {S : Server} (a : Accessors) (law : IsLawful a) (cp : ClusterProjection) (source : Fields)
    (targets : List String) (has : HasMetadata source) where
  -- For any predicate that the writes of each target satisfy.
  pub Grows-fan_out :
      (P : Call → Type 0)
      → ((namespace : String) (reply : Reply Fields) (c : Call)
          → contains targets namespace ≡ true
          → Permitted a
              (cluster_projection_tier a cp)
              namespace
              (cluster_destination_name cp)
              reply
              c
          → P c)
      → (schedule : List ℕ) (concurrency : ℤ) (w : World S)
      → Grows P w.calls (fan_out a cp source schedule concurrency targets w).1.calls
  Grows-fan_out P permitted schedule concurrency w =
      let (p, r, waits, runs, result) = fan_out-IsRun a cp source schedule concurrency targets w in
      let (order, split, sent, _) =
        fan_out_writes_each_once a law cp source has (worker_count concurrency targets) targets w r
          waits runs in
      subst (λ (r : Tally × World S). Grows P w.calls r.1.calls) (sym result)
        (Grows-EachOnce S a cp source P order w.calls p.world.calls
          (λ ns c found (reply, _, allowed).
            permitted ns reply c (sym (contains-perm ns split) ∙ found) allowed)
          sent)

  ConfinedTo-sweep :
      (gvr : GroupVersionResource) (w : World S)
      → Grows
          (ConfinedTo a cp targets)
          w.calls
          (cleanup_stale_cluster_destinations a cp gvr targets w).1.calls
  ConfinedTo-sweep gvr w =
      Grows-map _ _
        (λ c (o, is_delete, _, outside). subst (ConfinedTo a cp targets) (sym is_delete) outside) _
        _ (cleanup_stale_cluster_destinations-DeletesStale a cp gvr w targets)

module _ {S : Server} (d : Deps) (law : IsLawful d.accessors) (r : Settings) (schedule : List ℕ)
    (cp : ClusterProjection) where
  calls-report_fan_out :
      (resolved_version : String) (targets : List String) (t : Tally) (w : World S)
      → Grows
          (ConfinedTo d.accessors cp targets)
          w.calls
          (report_fan_out d r schedule cp resolved_version t w).1.calls
  unfolding report_fan_out
  calls-report_fan_out resolved_version targets t w =
      let reported = λ (c : Call) (h : Reports cp c).
        subst (ConfinedTo d.accessors cp targets) (sym h.1) (h.2, h.3) in
      elim (Bool-cases (is_zero t.failed)) [
        | inl none_failed ↦
            rw (none_failed, report_fan_out)
              (Grows-map _ _ reported _ _
                (Reports-mark_all_cluster_ready d r cp w resolved_version (int32 t.written)))
        | inr some_failed ↦
            rw (some_failed, report_fan_out)
              (Grows-map _ _ reported _ _ (
                Reports-fail_cluster_destination_counts d r cp w resolved_version
                  "DestinationWriteFailed" (summarize_failures t.failed t.failure_msgs)
                  (int32 t.written) (int32 t.failed)))
      ]

  -- From the resolved targets on, for a source that has metadata and under every schedule of the workers,
  -- a cluster reconcile creates and updates objects in the targets only and under the
  -- destination's name, deletes outside the targets only, and sends no other write than these and
  -- updates of its own status, which leave its metadata and spec alone.
  pub reconcile_targets-ConfinedTo :
      (gvr : GroupVersionResource) (resolved_version : String) (source : Fields)
      (targets : List String) (w : World S)
      → HasMetadata source
      → Grows
          (ConfinedTo d.accessors cp targets)
          w.calls
          (reconcile_targets d r schedule cp gvr resolved_version source targets w).1.calls
  unfolding reconcile_targets
  reconcile_targets-ConfinedTo gvr resolved_version source targets w has =
      let (t, w1) = fan_out d.accessors cp source schedule r.selector_write_concurrency targets w in
      let (_, w2) = cleanup_stale_cluster_destinations d.accessors cp gvr targets w1 in
      let (_, w3) = ensure_dest_watch r (watch_gvk gvr resolved_version cp.spec.source) w2 in
      Grows-trans _ w.calls w1.calls _
        (Grows-fan_out d.accessors law cp source targets has _
          (λ ns reply c here h.
            Permitted-ConfinedTo d.accessors cp targets (cluster_projection_tier d.accessors cp) ns
              reply c here h)
          schedule r.selector_write_concurrency w)
        (Grows-trans _ w1.calls w2.calls _
          (ConfinedTo-sweep d.accessors law cp source targets has gvr w1)
          (Grows-trans _ w2.calls w3.calls _ (Grows-none _ _ _ (calls-ensure_dest_watch d r _ w2))
            (calls-report_fan_out resolved_version targets t w3)))
