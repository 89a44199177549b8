-- ===== src/Conditions/ClusterCalls.antt =====
-- The one write of each report of the cluster reconciler.
use projection.Kube.Calls.{Grows-one, Grows}
use projection.Prelude.{arith, refl, String, ◌≡◌}
use projection.Conditions.{
  cluster_source_failed, fail_cluster_source, fail_cluster_destination, with_destination_name,
  with_counts, cluster_destination_failed, all_cluster_ready, report_cluster_failure,
  mark_all_cluster_ready, fail_cluster_destination_counts, Settings,
}
use projection.Finalizer.{Deps}
use projection.Kube.World.{emit, count_outcome, cluster_projection_status_call, World, Call}
use projection.Kube.Server.{Server}
use projection.Kube.Api.{pos, ℤ, ClusterProjection}

-- An update of the cluster projection's own status.
abbrev pub Reports : ClusterProjection → Call → Type 0
Reports cp c =
    (p : ClusterProjection) × (c ≡ cluster_projection_status_call p)
    × (p.meta ≡ cp.meta)
    × (p.spec ≡ cp.spec)

module _ {S : Server} (d : Deps) (r : Settings) (cp : ClusterProjection) (w : World S) where
  pub Reports-fail_cluster_destination_counts :
      (resolved_version reason msg : String) (written failed : ℤ)
      → Grows
          (Reports cp)
          w.calls
          (fail_cluster_destination_counts d r cp resolved_version reason msg written failed
            w).1.calls
  unfolding fail_cluster_destination_counts report_cluster_failure count_outcome
      cluster_destination_failed
  Reports-fail_cluster_destination_counts resolved_version reason msg written failed =
      Grows-one _ _ _ _ (_, refl, refl, refl) refl

  pub Reports-mark_all_cluster_ready :
      (resolved_version : String) (written : ℤ)
      → Grows
          (Reports cp)
          w.calls
          (mark_all_cluster_ready d r cp resolved_version written w).1.calls
  unfolding mark_all_cluster_ready count_outcome all_cluster_ready
  Reports-mark_all_cluster_ready resolved_version written =
      Grows-one _ _ _
        (cluster_projection_status_call (
          with_counts (with_destination_name (all_cluster_ready d.helpers resolved_version cp))
            written (pos 0)))
        (_, refl, refl, refl) (ground arith)

module _ {S : Server} (d : Deps) (r : Settings) (cp : ClusterProjection) (w : World S) where
  pub Reports-fail_cluster_destination :
      (resolved_version reason msg : String)
      → Grows
          (Reports cp)
          w.calls
          (fail_cluster_destination d r cp resolved_version reason msg w).1.calls
  unfolding fail_cluster_destination report_cluster_failure count_outcome cluster_destination_failed
  Reports-fail_cluster_destination resolved_version reason msg =
      Grows-one _ _ _ _ (_, refl, refl, refl) refl

  pub Reports-fail_cluster_source :
      (reason action msg : String)
      → Grows (Reports cp) w.calls (fail_cluster_source d r cp reason action msg w).1.calls
  unfolding fail_cluster_source count_outcome emit cluster_source_failed
  Reports-fail_cluster_source reason action msg = Grows-one _ _ _ _ (_, refl, refl, refl) refl
