-- ===== src/Tests/ManagerExamples.antt =====
-- The theorems on the start-up of the process, where every request is granted.
use projection.Manager.Startup.{IsReady, main-IsReady}
use projection.Manager.Steps.{is_start, has_start}
use projection.Kube.Server.{ok}
use projection.Kube.Api.{pos}
use projection.Prelude.{refl, suc, none, ℕ, []}
use projection.Manager.{default_config, RuntimeConfig, Runtime, Process}
use projection.Manager.Setup.{
  setup_cluster_projection, setup_projection, serve, check_flags, answer, ask, main,
}

abbrev granting : Runtime
granting = record { State = ℕ; perform = λ request n. (ok tt, suc n) }

abbrev new_process : Process granting
new_process = record {
  runtime = 0;
  requests = [];
  recorder = none;
  projection_settings = none;
  cluster_settings = none;
}

abbrev hasty_config : RuntimeConfig
hasty_config = record default_config { source_mode_flag = "permissive"; requeue_interval = pos 0 }

-- An interval of 0, for which the reconcilers take the default.
main-IsReady_example : IsReady hasty_config (main hasty_config new_process).1
unfolding main ask answer check_flags serve setup_projection setup_cluster_projection has_start
    is_start
main-IsReady_example = main-IsReady hasty_config new_process refl refl
