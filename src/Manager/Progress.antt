-- ===== src/Manager/Progress.antt =====
-- That the process of cmd/main.go comes up where nothing that it asks for fails.
use projection.Watches.{source_index, uid_index}
use projection.Conditions.{Settings}
use projection.Kube.Server.{ok}
use projection.Prelude.{[], none, some, Option, ◌∷◌, List, true, false, ◌≡◌}
use projection.Manager.{
  projections, cluster_projections, register_index, build_controller, start_manager,
  add_readyz_check, add_healthz_check, new_dynamic_client, new_manager, running, SetupRequest,
  RuntimeConfig, Process, Runtime,
}
use projection.Manager.Setup.{
  concurrency_or_default, or_default, cluster_projection_reconciler, projection_reconciler,
  manager_options, M,
}

-- Whatever is asked for, the answer is yes.
unfoldable pub IsAccepting : Runtime → Type 0
IsAccepting R = (request : SetupRequest) (w : R.State) → (R.perform request w).0 ≡ ok tt

abbrev View : Type 0
View = List SetupRequest × Option Settings × Option Settings

module _ {R : Runtime} where
  -- The process but for controller-runtime and the recorder.
  abbrev view : Process R → View
  view p = (p.requests, p.projection_settings, p.cluster_settings)

  -- It runs, and does so much to the process.
  record Runs (m : M R (Unit {0})) (f : View → View) : Type 0 where
    run : (p : Process R) → ((m p).0 ≡ running tt) × (view (m p).1 ≡ f (view p))

-- The settings of the reconcilers after their set-up, with a controller.
abbrev pub projection_configured : RuntimeConfig → Settings
projection_configured c = record (projection_reconciler c) {
  requeue_interval = or_default c.requeue_interval;
  has_controller = true;
}

abbrev pub cluster_configured : RuntimeConfig → Settings
cluster_configured c = record (cluster_projection_reconciler c) {
  requeue_interval = or_default c.requeue_interval;
  selector_write_concurrency = concurrency_or_default c.selector_write_concurrency;
  has_controller = true;
}

-- All that a start-up asks for, the last first.
abbrev pub start_up : RuntimeConfig → List SetupRequest
start_up c =
    start_manager
    ∷ (add_readyz_check
        ∷ (add_healthz_check
            ∷ (build_controller cluster_projections (some "clusterprojection") true
                ∷ (register_index cluster_projections uid_index
                    ∷ (register_index cluster_projections source_index
                        ∷ (build_controller projections none false
                            ∷ (register_index projections uid_index
                                ∷ (register_index projections source_index
                                    ∷ (new_dynamic_client
                                        ∷ (new_manager (manager_options c) ∷ []))))))))))
