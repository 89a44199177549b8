-- ===== src/Manager.antt =====
-- The manager of cmd/main.go: its flags, and what the start-up asks of controller-runtime.
pub mod Setup
pub mod Steps
pub mod Startup
pub mod Progress
use projection.Kube.Api.{ℤ, pos}
use projection.Conditions.{Settings}
use projection.Kube.Server.{Reply}
use projection.Prelude.{
  none, [], ◌∷◌, ◌==◌, ◌*◌, some, if◌then◌else◌, ◌^◌, false, Option, Bool, ℕ, true, String, List,
}

-- `runtimeConfig`. A `time.Duration` counts nanoseconds.
pub record RuntimeConfig : Type 0 where
  pub metrics_addr : String
  pub probe_addr : String
  pub secure_metrics : Bool
  pub enable_http2 : Bool
  pub enable_leader_election : Bool
  pub source_mode_flag : String
  pub requeue_interval : ℤ
  pub leader_election_lease_duration : ℤ
  pub selector_write_concurrency : ℤ

abbrev pub second : ℕ
second = 10 ^ 9

-- What `bindFlags` returns before the flags are parsed: the defaults.
abbrev pub default_config : RuntimeConfig
default_config = record {
  metrics_addr = "0";
  probe_addr = ":8081";
  secure_metrics = true;
  enable_http2 = false;
  enable_leader_election = false;
  source_mode_flag = "allowlist";
  requeue_interval = pos (30 * second);
  leader_election_lease_duration = pos (15 * second);
  selector_write_concurrency = pos 16;
}

-- A flag's value, as the package `flag` reads it by the flag's type.
pub data FlagValue : Type 0 where
  text_value : String → FlagValue
  bool_value : Bool → FlagValue
  duration_value int_value : ℤ → FlagValue

-- The variable that `bindFlags` gives to a flag's name; `none` is a flag that is not there.
unfoldable pub set_flag : String → FlagValue → RuntimeConfig → Option RuntimeConfig
set_flag name (text_value v) c =
    if name == "metrics-bind-address"
    then some (record c { metrics_addr = v })
    else if name == "health-probe-bind-address"
    then some (record c { probe_addr = v })
    else if name == "source-mode"
    then some (record c { source_mode_flag = v })
    else none
set_flag name (bool_value v) c =
    if name == "leader-elect"
    then some (record c { enable_leader_election = v })
    else if name == "metrics-secure"
    then some (record c { secure_metrics = v })
    else if name == "enable-http2"
    then some (record c { enable_http2 = v })
    else none
set_flag name (duration_value v) c =
    if name == "requeue-interval"
    then some (record c { requeue_interval = v })
    else if name == "leader-election-lease-duration"
    then some (record c { leader_election_lease_duration = v })
    else none
set_flag name (int_value v) c =
    if name == "selector-write-concurrency"
    then some (record c { selector_write_concurrency = v })
    else none

-- `ctrl.Options` with its `metricsserver.Options`: what the program sets.
pub record ManagerOptions : Type 0 where
  pub bind_address : String
  pub secure_serving : Bool
  pub next_protos : Option (List String)
  pub has_filter_provider : Bool
  pub health_probe_bind_address : String
  pub leader_election : Bool
  pub leader_election_id : String
  pub lease_duration : ℤ

-- The kind of a custom resource.
pub data Resource : Type 0 where
  projections cluster_projections : Resource

-- What the start-up asks for, each of which may fail. `build_controller` is given the controller's name,
-- if it sets one, and whether it watches namespaces.
pub data SetupRequest : Type 0 where
  new_manager : ManagerOptions → SetupRequest
  new_dynamic_client : SetupRequest
  register_index : Resource → String → SetupRequest
  build_controller : Resource → Option String → Bool → SetupRequest
  add_healthz_check add_readyz_check start_manager : SetupRequest

-- controller-runtime, as far as the start-up calls it.
pub record Runtime : Type 1 where
  pub State : Type 0
  pub perform : SetupRequest → State → Reply (Unit {0}) × State

-- The process: what it asked for (newest first), the recorder of the one `ControllerDeps` that both
-- reconcilers embed, and the reconcilers once they are set up.
pub record Process (R : Runtime) : Type 0 where
  pub runtime : R.State
  pub requests : List SetupRequest
  pub recorder : Option String
  pub projection_settings : Option Settings
  pub cluster_settings : Option Settings

-- `os.Exit(1)` after a line of the log, or on.
pub data Run {ℓ} (A : Type ℓ) : Type ℓ where
  running : A → Run A
  exited : String → Run A
