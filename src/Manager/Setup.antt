-- ===== src/Manager/Setup.antt =====
-- `SetupWithManager` of internal/controller/projection_controller.go and
-- cluster_projection_controller.go, and `main` of cmd/main.go.
use projection.Source.{source_mode_allowlist, source_mode_permissive}
use projection.Conditions.{Settings}
use projection.Watches.{uid_index, source_index}
use projection.Kube.Server.{err, ok, Reply}
use projection.Kube.Api.{negsuc, pos, ℤ}
use projection.Prelude.{
  ◌||◌, ◌*◌, zero, [], suc, not, none, ◌∷◌, ◌==◌, true, some, if◌then◌else◌, false, Option, Bool,
  String,
}
use projection.Manager.{
  start_manager, register_index, SetupRequest, second, build_controller, add_readyz_check,
  add_healthz_check, projections, cluster_projections, new_dynamic_client, exited, Run, running,
  new_manager, Process, ManagerOptions, RuntimeConfig, Runtime,
}

module _ (R : Runtime) where
  abbrev pub M : Type 0 → Type 0
  M A = Process R → Run A × Process R

unfoldable pub answer : String → Reply (Unit {0}) → Run (Unit {0})
answer line (ok _) = running tt
answer line (err e) = exited line

module _ {R : Runtime} where
  infixl 5 ◌>>=◌ ◌>>◌
  abbrev pub ◌>>=◌ : {A B : Type 0} → M R A → (A → M R B) → M R B
  ◌>>=◌ m f p =
      let (run, p') = m p in elim run [ running a ↦ f a p' | exited line ↦ (exited line, p') ]

  abbrev pub ◌>>◌ : {A B : Type 0} → M R A → M R B → M R B
  m >> k = m >>= λ _. k

  -- A request; where it fails, the log line and the exit.
  unfoldable pub ask : String → SetupRequest → M R (Unit {0})
  unfolding answer
  ask line request p =
      let (reply, runtime) = R.perform request p.runtime in
      (answer line reply, record p { runtime = runtime; requests = request ∷ p.requests })

  abbrev pub change : (Process R → Process R) → M R (Unit {0})
  change f p = (running tt, f p)

  abbrev pub exit_if : Bool → String → M R (Unit {0})
  exit_if b line p = (if b then exited line else running tt, p)

abbrev pub or_default : ℤ → ℤ
or_default (pos zero) = pos (30 * second)
or_default n = n

abbrev pub concurrency_or_default : ℤ → ℤ
concurrency_or_default (pos zero) = pos 16
concurrency_or_default (negsuc n) = pos 16
concurrency_or_default (pos (suc n)) = pos (suc n)

abbrev pub recorder_or : String → Option String → Option String
recorder_or name none = some name
recorder_or name (some old) = some old

module _ {R : Runtime} where
  -- The end of `SetupWithManager`, after `Build`.
  abbrev pub finish_projection : Settings → Process R → Process R
  finish_projection r p = record p {
    recorder = some "projection-controller";
    projection_settings =
        some (record r { requeue_interval = or_default r.requeue_interval; has_controller = true });
  }

  -- The recorder is set only if there is none.
  abbrev pub finish_cluster_projection : Settings → Process R → Process R
  finish_cluster_projection r p = record p {
    recorder = recorder_or "cluster-projection-controller" p.recorder;
    cluster_settings = some (record r {
      requeue_interval = or_default r.requeue_interval;
      selector_write_concurrency = concurrency_or_default r.selector_write_concurrency;
      has_controller = true;
    });
  }

  -- Of `ProjectionReconciler`.
  unfoldable pub setup_projection : Settings → M R (Unit {0})
  unfolding ask
  setup_projection r = do
    let line : String = "unable to create controller Projection"
    ask line (register_index projections source_index)
    ask line (register_index projections uid_index)
    ask line (build_controller projections none false)
    change (finish_projection r)

  -- Of `ClusterProjectionReconciler`.
  unfoldable pub setup_cluster_projection : Settings → M R (Unit {0})
  unfolding ask
  setup_cluster_projection r = do
    let line : String = "unable to create controller ClusterProjection"
    ask line (register_index cluster_projections source_index)
    ask line (register_index cluster_projections uid_index)
    ask line (build_controller cluster_projections (some "clusterprojection") true)
    change (finish_cluster_projection r)

abbrev pub manager_options : RuntimeConfig → ManagerOptions
manager_options c = record {
  bind_address = c.metrics_addr;
  secure_serving = c.secure_metrics;
  next_protos = if c.enable_http2 then none else some ("http/1.1" ∷ []);
  has_filter_provider = c.secure_metrics;
  health_probe_bind_address = c.probe_addr;
  leader_election = c.enable_leader_election;
  leader_election_id = "92777bdc.projection.sh";
  lease_duration = c.leader_election_lease_duration;
}

-- The `switch` on the flag.
abbrev pub is_source_mode : String → Bool
is_source_mode mode = mode == source_mode_permissive || mode == source_mode_allowlist

-- `n <= 0`
abbrev pub is_not_positive : ℤ → Bool
is_not_positive (pos zero) = true
is_not_positive (pos (suc n)) = false
is_not_positive (negsuc n) = true

-- The fields that `main` sets; the other settings are the fields' zero values.
abbrev pub projection_reconciler : RuntimeConfig → Settings
projection_reconciler c = record {
  source_mode = c.source_mode_flag;
  requeue_interval = c.requeue_interval;
  selector_write_concurrency = pos 0;
  has_controller = false;
}

abbrev pub cluster_projection_reconciler : RuntimeConfig → Settings
cluster_projection_reconciler c = record {
  source_mode = c.source_mode_flag;
  requeue_interval = c.requeue_interval;
  selector_write_concurrency = c.selector_write_concurrency;
  has_controller = false;
}

abbrev pub invalid_mode : String
invalid_mode = "invalid --source-mode; must be \"permissive\" or \"allowlist\""

abbrev pub invalid_concurrency : String
invalid_concurrency = "invalid --selector-write-concurrency; must be > 0"

-- The checks of the two flags.
unfoldable pub check_flags : {R : Runtime} → RuntimeConfig → M R (Unit {0})
check_flags c = do
  exit_if (not (is_source_mode c.source_mode_flag)) invalid_mode
  exit_if (is_not_positive c.selector_write_concurrency) invalid_concurrency

-- From the reconcilers' set-up on. The end of `Start` ends the process.
unfoldable pub serve : {R : Runtime} → RuntimeConfig → M R (Unit {0})
unfolding ask setup_projection setup_cluster_projection
serve c = do
  setup_projection (projection_reconciler c)
  setup_cluster_projection (cluster_projection_reconciler c)
  ask "unable to set up health check" add_healthz_check
  ask "unable to set up ready check" add_readyz_check
  ask "problem running manager" start_manager

-- After the flags are parsed.
unfoldable pub main : {R : Runtime} → RuntimeConfig → M R (Unit {0})
unfolding ask check_flags serve
main c = do
  ask "unable to start manager" (new_manager (manager_options c))
  ask "unable to create dynamic client" new_dynamic_client
  check_flags c
  serve c
