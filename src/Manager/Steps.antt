-- ===== src/Manager/Steps.antt =====
-- A logic for the start-up of cmd/main.go: what holds between two steps, as long as the manager is
-- not started.
use projection.Manager.Setup.{exit_if, ◌>>◌, change, answer, ask, M}
use projection.Manager.{SetupRequest, Process, Runtime, Run, running, exited, start_manager}
use projection.Kube.Server.{ok, err, Reply}
use projection.Conditions.{Settings}
use projection.Prelude.{◌∙◌, refl, ap, ◌∷◌, [], ◌||◌, ◌≡◌, Option, Bool, true, false, List, String}

unfoldable pub is_start : SetupRequest → Bool
is_start start_manager = true
is_start _ = false

-- Among what was asked for is the start of the manager.
unfoldable pub has_start : List SetupRequest → Bool
unfolding is_start
has_start [] = false
has_start (request ∷ requests) = is_start request || has_start requests

abbrev pub Facts : Type 1
Facts = Option String → Option Settings → Option Settings → Type 0

module _ {R : Runtime} where
  -- The manager is not started, and the facts hold of what the process holds.
  pub record IsBefore (F : Facts) (q : Process R) : Type 0 where
    pub waits : has_start q.requests ≡ false
    pub facts : F q.recorder q.projection_settings q.cluster_settings

  -- A result after which the process goes on with the facts, or has exited with no manager started.
  unfoldable pub Leaves : Facts → Run (Unit {0}) × Process R → Type 0
  Leaves F (running _, q) = IsBefore F q
  Leaves F (exited _, q) = has_start q.requests ≡ false

  abbrev pub Takes : Facts → M R (Unit {0}) → Facts → Type 0
  Takes F m G = (p : Process R) → IsBefore F p → Leaves G (m p)

  answer-Leaves :
      (line : String) (F : Facts) (reply : Reply (Unit {0})) (q : Process R)
      → IsBefore F q
      → Leaves F (answer line reply, q)
  unfolding answer Leaves
  answer-Leaves line F (ok _) q before = before
  answer-Leaves line F (err _) q before = before.waits

  pub ask-Takes :
      (line : String) (request : SetupRequest) (F : Facts)
      → is_start request ≡ false
      → Takes F (ask line request) F
  unfolding ask has_start
  ask-Takes line request F waits p before = answer-Leaves line F _ _ record {
    waits = ap (λ b. b || has_start p.requests) waits ∙ before.waits;
    facts = before.facts;
  }

  change-Takes :
      (f : Process R → Process R) (F G : Facts)
      → ((p : Process R) → IsBefore F p → IsBefore G (f p))
      → Takes F (change f) G
  unfolding Leaves
  change-Takes f F G after p before = after p before

  -- Steps in turn, up to any conclusion that an exit with no manager started satisfies.
  module _ (Φ : Run (Unit {0}) × Process R → Type 0)
      (exits : (line : String) (q : Process R)
        → has_start q.requests ≡ false
        → Φ (exited line, q)) where
    next :
        {G : Facts} {k : M R (Unit {0})} (p : Process R) (result : Run (Unit {0}) × Process R)
        → Leaves G result
        → ((q : Process R) → IsBefore G q → Φ (k q))
        → Φ (((λ _. result) >> k) p)
    unfolding Leaves
    next p (running tt, q) after goes = goes q after
    next p (exited line, q) after goes = exits line q after

    -- `m` and then `k`.
    pub chain :
        (F G : Facts) (m k : M R (Unit {0}))
        → Takes F m G
        → ((q : Process R) → IsBefore G q → Φ (k q))
        → (p : Process R) → IsBefore F p
        → Φ ((m >> k) p)
    chain F G m k takes goes p before = next p (m p) (takes p before) goes

  pub chain-Takes :
      (F G H : Facts) (m k : M R (Unit {0})) → Takes F m G → Takes G k H → Takes F (m >> k) H
  unfolding Leaves
  chain-Takes F G H m k = chain (Leaves H) (λ _ _ waits. waits) F G m k

  -- Three requests that may fail, and then a change.
  pub setup-Takes :
      (F G : Facts) (line : String) (first second third : SetupRequest) (f : Process R → Process R)
      → is_start first ≡ false
      → is_start second ≡ false
      → is_start third ≡ false
      → ((p : Process R) → IsBefore F p → IsBefore G (f p))
      → Takes F (ask line first >> (ask line second >> (ask line third >> change f))) G
  setup-Takes F G line first second third f a b c after =
      chain-Takes F F G (ask line first) _ (ask-Takes line first F a) (
        chain-Takes F F G (ask line second) _ (ask-Takes line second F b) (
          chain-Takes F F G (ask line third) _ (ask-Takes line third F c)
            (change-Takes f F G after)))

  pub exit_if-Takes :
      (F : Facts) (b : Bool) (line : String)
      → Takes F (exit_if b line) (λ r p c. (b ≡ false) × F r p c)
  unfolding Leaves
  exit_if-Takes F true line p before = before.waits
  exit_if-Takes F false line p before = record {
    waits = before.waits;
    facts = (refl, before.facts);
  }
