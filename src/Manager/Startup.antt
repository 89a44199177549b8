-- ===== src/Manager/Startup.antt =====
-- What holds of the process of cmd/main.go once its manager is started.
use projection.Manager.Steps.{
  exit_if-Takes, setup-Takes, chain-Takes, chain, ask-Takes, is_start, has_start, Takes, IsBefore,
  Facts,
}
use projection.Manager.Setup.{
  invalid_concurrency, invalid_mode, serve, check_flags, exit_if, recorder_or,
  concurrency_or_default, finish_projection, finish_cluster_projection, ◌>>◌, ask, main,
  setup_projection, setup_cluster_projection, is_source_mode, is_not_positive,
  projection_reconciler, cluster_projection_reconciler, manager_options, or_default, M,
}
use projection.Manager.{
  new_dynamic_client, new_manager, Process, Runtime, Run, RuntimeConfig, exited, start_manager,
}
use projection.Kube.Api.{negsuc, pos, ℤ}
use projection.Conditions.{Settings}
use projection.Prelude.{
  inr, eq_iff, inl, ◌==◌, Bool-cases, not, sym, arith, ◌∙◌, refl, ap, ℕ, ◌≡◌, ◌⊎◌, ◌≢◌, some, true,
  false, suc, zero, String,
}

-- What a reconciler holds of the flags after its set-up.
pub record IsConfigured (c : RuntimeConfig) (s : Settings) : Type 0 where
  pub mode : s.source_mode ≡ c.source_mode_flag
  pub interval : s.requeue_interval ≢ pos 0
  pub controller : s.has_controller ≡ true

pub record IsReady {R : Runtime} (c : RuntimeConfig) (q : Process R) : Type 0 where
  pub mode : (c.source_mode_flag ≡ "permissive") ⊎ (c.source_mode_flag ≡ "allowlist")
  pub positive : (n : ℕ) × c.selector_write_concurrency ≡ pos (suc n)
  pub projection : (s : Settings) × (q.projection_settings ≡ some s) × IsConfigured c s
  pub cluster :
      (s : Settings) × (q.cluster_settings ≡ some s)
      × IsConfigured c s
      × (s.selector_write_concurrency ≡ c.selector_write_concurrency)
  pub recorder : q.recorder ≡ some "projection-controller"

or_default-nonzero : (n : ℤ) → or_default n ≢ pos 0
or_default-nonzero (pos zero) = λ e. grind arith
or_default-nonzero (pos (suc n)) = λ e. grind arith
or_default-nonzero (negsuc n) = λ e. grind arith

source_mode-either :
    (mode : String)
    → not (is_source_mode mode) ≡ false
    → (mode ≡ "permissive") ⊎ (mode ≡ "allowlist")
source_mode-either mode valid = elim (Bool-cases (mode == "permissive")) [
  | inl same ↦ inl ((eq_iff mode "permissive").0 same)
  | inr other ↦ inr ((eq_iff mode "allowlist").0 (grind arith))
]

positive-suc : (n : ℤ) → is_not_positive n ≡ false → (k : ℕ) × (n ≡ pos (suc k))
positive-suc (pos zero) e = grind arith
positive-suc (pos (suc k)) e = (k, refl)
positive-suc (negsuc n) e = grind arith

-- Once the namespaced reconciler is set up.
First : RuntimeConfig → Facts
First c recorder projection _ =
    (recorder ≡ some "projection-controller")
    × ((s : Settings) × (projection ≡ some s) × IsConfigured c s)

-- Once both are.
Both : RuntimeConfig → Facts
Both c recorder projection cluster =
    First c recorder projection cluster
    × ((s : Settings) × (cluster ≡ some s)
        × IsConfigured c s
        × (s.selector_write_concurrency ≡ c.selector_write_concurrency))

Nothing : Facts
Nothing _ _ _ = Unit {0}

IsChecked : RuntimeConfig → Facts
IsChecked c _ _ _ =
    (is_not_positive c.selector_write_concurrency ≡ false)
    × ((not (is_source_mode c.source_mode_flag) ≡ false) × Unit {0})

module _ {R : Runtime} where
  finish_projection-First :
      (c : RuntimeConfig) (p : Process R)
      → IsBefore Nothing p
      → IsBefore (First c) (finish_projection (projection_reconciler c) p)
  unfolding First
  finish_projection-First c p before = record {
    waits = before.waits;
    facts = (
      refl,
      (
        _,
        refl,
        record { mode = refl; interval = or_default-nonzero c.requeue_interval; controller = refl },
      ),
    );
  }

  finish_cluster_projection-Both :
      (c : RuntimeConfig) (n : ℕ)
      → c.selector_write_concurrency ≡ pos (suc n)
      → (p : Process R) → IsBefore (First c) p
      → IsBefore (Both c) (finish_cluster_projection (cluster_projection_reconciler c) p)
  unfolding First Both
  finish_cluster_projection-Both c n positive p before = record {
    waits = before.waits;
    facts = (
      (ap (recorder_or "cluster-projection-controller") before.facts.0, before.facts.1),
      (
        _,
        refl,
        record { mode = refl; interval = or_default-nonzero c.requeue_interval; controller = refl },
        ap concurrency_or_default positive ∙ sym positive,
      ),
    );
  }

  setup_projection-Takes :
      (c : RuntimeConfig)
      → Takes {R = R} Nothing (setup_projection (projection_reconciler c)) (First c)
  unfolding setup_projection is_start
  setup_projection-Takes c = setup-Takes _ _ _ _ _ _ _ refl refl refl (finish_projection-First c)

  setup_cluster_projection-Takes :
      (c : RuntimeConfig) (n : ℕ)
      → c.selector_write_concurrency ≡ pos (suc n)
      → Takes {R = R}
          (First c)
          (setup_cluster_projection (cluster_projection_reconciler c))
          (Both c)
  unfolding setup_cluster_projection is_start
  setup_cluster_projection-Takes c n positive =
      setup-Takes _ _ _ _ _ _ _ refl refl refl (finish_cluster_projection-Both c n positive)

  unfoldable Ready : RuntimeConfig → Run (Unit {0}) × Process R → Type 0
  Ready c (run, q) = has_start q.requests ≡ true → IsReady c q

  exited-Ready :
      (c : RuntimeConfig) (line : String) (q : Process R)
      → has_start q.requests ≡ false
      → Ready c (exited line, q)
  unfolding Ready
  exited-Ready c line q waits started = grind arith

  start-Ready :
      (c : RuntimeConfig) (n : ℕ)
      → (c.source_mode_flag ≡ "permissive") ⊎ (c.source_mode_flag ≡ "allowlist")
      → c.selector_write_concurrency ≡ pos (suc n)
      → (line : String) (q : Process R) → IsBefore (Both c) q
      → Ready c (ask line start_manager q)
  unfolding Ready ask Both First
  start-Ready c n mode positive line q before started = record {
    mode = mode;
    positive = (n, positive);
    projection = before.facts.0.1;
    cluster = before.facts.1;
    recorder = before.facts.0.0;
  }

  then :
      (c : RuntimeConfig) (F G : Facts) (m k : M R (Unit {0}))
      → Takes F m G
      → ((q : Process R) → IsBefore G q → Ready c (k q))
      → (q : Process R) → IsBefore F q
      → Ready c ((m >> k) q)
  then c = chain (Ready c) (exited-Ready c)

  -- What main does once the flags have passed its checks.
  serve-Ready :
      (c : RuntimeConfig)
      → (c.source_mode_flag ≡ "permissive") ⊎ (c.source_mode_flag ≡ "allowlist")
      → (k : ℕ) × (c.selector_write_concurrency ≡ pos (suc k))
      → (q : Process R) → IsBefore Nothing q
      → Ready c (serve c q)
  unfolding is_start serve
  serve-Ready c mode (n, positive) = then c Nothing (First c) _ _ (setup_projection-Takes c) (
      then c (First c) (Both c) _ _ (setup_cluster_projection-Takes c n positive) (
        then c (Both c) (Both c) _ _ (ask-Takes _ _ (Both c) refl) (
          then c (Both c) (Both c) _ _ (ask-Takes _ _ (Both c) refl)
            (start-Ready c n mode positive _))))

  check_flags-Takes : (c : RuntimeConfig) → Takes {R = R} Nothing (check_flags c) (IsChecked c)
  unfolding check_flags IsChecked Nothing
  check_flags-Takes c =
      chain-Takes Nothing _ _ (exit_if (not (is_source_mode c.source_mode_flag)) invalid_mode)
        (exit_if (is_not_positive c.selector_write_concurrency) invalid_concurrency)
        (exit_if-Takes Nothing _ _) (exit_if-Takes _ _ _)

  -- From a process that has not started the manager, main starts it only if the flag is one of the two
  -- modes and the concurrency is positive, and then each reconciler has a controller, the flag's mode and
  -- a requeue interval that is not 0, the cluster reconciler the flag's concurrency; and the one recorder,
  -- which both reconcilers emit by, is that of "projection-controller".
  pub main-IsReady :
      (c : RuntimeConfig) (p : Process R)
      → has_start p.requests ≡ false
      → has_start (main c p).1.requests ≡ true
      → IsReady c (main c p).1
  unfolding main Ready is_start Nothing IsChecked
  main-IsReady c p waits =
      then c Nothing Nothing (ask _ (new_manager (manager_options c)))
        (ask "unable to create dynamic client" new_dynamic_client >> (check_flags c >> serve c))
        (ask-Takes _ (new_manager _) Nothing refl)
        (then c Nothing Nothing (ask _ new_dynamic_client) (check_flags c >> serve c)
          (ask-Takes _ new_dynamic_client Nothing refl)
          (then c Nothing (IsChecked c) (check_flags c) (serve c) (check_flags-Takes c) λ q checked.
            serve-Ready c (source_mode-either _ checked.facts.1.0) (positive-suc _ checked.facts.0)
              q record { waits = checked.waits; facts = tt }))
        p record { waits = waits; facts = tt }
