-- ===== src/Cluster/FanOut/Progress.antt =====
-- The pool of workers of `fanOut` never stops short, and ends.
use projection.Kube.World.{World}
use projection.Kube.Value.{Fields}
use projection.Prelude.{
  ◌*◌, ◌++◌, refl, inr, inl, ◌∷◌, zero, ◌⊎◌, suc, arith, [], ◌≡◌, ◌+◌, length, ◌≤◌, ℕ, String, List,
}
use projection.Kube.Api.{negsuc, pos, ClusterProjection, ℤ}
use projection.Kube.Object.{Accessors}
use projection.Cluster.FanOut.{
  get_target, writing, requests_left, reading, read_job, pending, Worker, start_pool, Tally,
  end_job, take_job, here, next, Step, Reach, Pool, worker_count,
}
use projection.Kube.Server.{Server}

-- The configured limit, with the default for a count that is not positive.
abbrev pub limit_of : ℤ → ℕ
limit_of (pos zero) = 16
limit_of (pos (suc n)) = suc n
limit_of (negsuc n) = 16

-- Where there are targets, there is at least one worker, and there are no more than targets and no more
-- than the limit, which is 16 for a configured count that is not positive.
pub worker_count-bounds :
    (concurrency : ℤ) (targets : List String)
    → 1 ≤ length targets
    → (1 ≤ worker_count concurrency targets)
      × (worker_count concurrency targets ≤ length targets)
      × (worker_count concurrency targets ≤ limit_of concurrency)
unfolding worker_count
worker_count-bounds (pos zero) targets h = ground (arith, h)
worker_count-bounds (pos (suc n)) targets h = ground (arith, h)
worker_count-bounds (negsuc n) targets h = ground (arith, h)

requests_left-append :
    (before after : List Worker)
    → requests_left (before ++ after) ≡ requests_left before + requests_left after
requests_left-append [] after = omega arith
requests_left-append (reading _ ∷ before) after = omega (arith, requests_left-append before after)
requests_left-append (writing _ _ ∷ before) after = omega (arith, requests_left-append before after)

module _ {S : Server} (a : Accessors) (cp : ClusterProjection) (source : Fields) (workers : ℕ) where
  abbrev pub steps : {p q : Pool S} → Reach a cp source workers p q → ℕ
  steps here = 0
  steps (next r s) = suc (steps r)

  pub Step-pending : {p q : Pool S} → Step a cp source workers p q → pending p ≡ suc (pending q)
  Step-pending (take_job ns waiting running t w free) = omega arith
  Step-pending (read_job waiting before ns after t w) = omega (
    arith,
    requests_left-append before (reading ns ∷ after),
    requests_left-append before (writing ns (get_target a cp source ns w).0 ∷ after),
  )
  Step-pending (end_job waiting before ns reply after t w) = omega (
    arith,
    requests_left-append before (writing ns reply ∷ after),
    requests_left-append before after,
  )

  Reach-pending :
      {p q : Pool S} (r : Reach a cp source workers p q) → steps r + pending q ≡ pending p
  Reach-pending here = omega arith
  Reach-pending (next r s) = omega (arith, Reach-pending r, Step-pending s)

  can-Step :
      (waiting : List String) (running : List Worker) (t : Tally) (w : World S)
      → 1 ≤ workers
      → let p : Pool S = record { waiting = waiting; running = running; tally = t; world = w } in
        ((waiting ≡ []) × (running ≡ [])) ⊎ ((q : Pool S) × Step a cp source workers p q)
  can-Step [] [] t w h = inl (refl, refl)
  can-Step (ns ∷ waiting) [] t w h = inr (_, take_job ns waiting [] t w (omega (arith, h)))
  can-Step waiting (reading ns ∷ after) t w h = inr (_, read_job waiting [] ns after t w)
  can-Step waiting (writing ns reply ∷ after) t w h = inr (_, end_job waiting [] ns reply after t w)

  -- With at least one worker, a run of the pool takes at most three steps for each target, and
  -- wherever it stands, it has finished (no job waits and no worker is busy) or it can take another
  -- step.
  pub fan_out_ends :
      (targets : List String) (w : World S) {p : Pool S}
      (r : Reach a cp source workers (start_pool targets w) p)
      → 1 ≤ workers
      → (steps r ≤ 3 * length targets)
        × (((p.waiting ≡ []) × (p.running ≡ [])) ⊎ ((q : Pool S) × Step a cp source workers p q))
  fan_out_ends targets w {p} r h =
      (omega (arith, Reach-pending r), can-Step p.waiting p.running p.tally p.world h)
