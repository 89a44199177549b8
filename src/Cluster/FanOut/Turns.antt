-- ===== src/Cluster/FanOut/Turns.antt =====
use projection.Cluster.FanOut.Progress.{worker_count-bounds, Step-pending}
use mathlib.Core.List.{append_assoc}
-- A run of the pool by a schedule is a run of the step relation that has finished.
use projection.Kube.World.{World}
use projection.Cluster.FanOut.Schedule.{
  first_turn, fan_out, drain, turn, take, run_pool, request, advance,
}
use projection.Cluster.FanOut.{
  start_pool, worker_count, pending, requests_left, end_job, writing, take_job, read_job, reading,
  Tally, Worker, Step, next, here, Reach, Pool,
}
use projection.Prelude.{
  true, ap, ◌≤◌, refl, arith, length, ltb, ◌++◌, Bool-cases, inr, sym, ◌∷◌, zero, subst, ◌⊎◌, inl,
  [], String, ◌≡◌, suc, List, ℕ,
}
use projection.Kube.Value.{Fields}
use projection.Kube.Api.{ℤ, ClusterProjection}
use projection.Kube.Object.{Accessors}
use projection.Kube.Server.{Server}

requests_left-zero : (running : List Worker) → requests_left running ≡ 0 → running ≡ []
requests_left-zero [] h = refl
requests_left-zero (reading _ ∷ _) h = absurd (omega (arith, h))
requests_left-zero (writing _ _ ∷ _) h = absurd (omega (arith, h))

length-zero : (waiting : List String) → length waiting ≡ 0 → waiting ≡ []
length-zero [] h = refl
length-zero (_ ∷ _) h = absurd (omega (arith, h))

module _ {S : Server} (a : Accessors) (cp : ClusterProjection) (source : Fields) (workers : ℕ) where
  Moves : Pool S → Pool S → Type 0
  Moves p q = (q ≡ p) ⊎ Step a cp source workers p q

  request-Step :
      (waiting : List String) (before : List Worker) (x : Worker) (after : List Worker) (t : Tally)
      (w : World S)
      → Step a cp source workers
          (record { waiting = waiting; running = before ++ (x ∷ after); tally = t; world = w })
          (request a cp source workers waiting before x after t w)
  unfolding request
  request-Step waiting before (reading ns) after t w = read_job waiting before ns after t w
  request-Step waiting before (writing ns reply) after t w =
      end_job waiting before ns reply after t w

  advance-Moves :
      (i : ℕ) (waiting : List String) (before after : List Worker) (t : Tally) (w : World S)
      → Moves
          (record { waiting = waiting; running = before ++ after; tally = t; world = w })
          (advance a cp source workers i waiting before after t w)
  unfolding advance Moves
  advance-Moves i waiting before [] t w = inl refl
  advance-Moves zero waiting before (x ∷ after) t w = inr (request-Step waiting before x after t w)
  advance-Moves (suc i) waiting before (x ∷ after) t w =
      subst
        (λ (running : List Worker).
          Moves (record { waiting = waiting; running = running; tally = t; world = w })
            (advance a cp source workers i waiting (before ++ (x ∷ [])) after t w))
        (append_assoc before (x ∷ []) after)
        (advance-Moves i waiting (before ++ (x ∷ [])) after t w)

  take-Moves :
      (waiting : List String) (running : List Worker) (t : Tally) (w : World S)
      → Moves
          (record { waiting = waiting; running = running; tally = t; world = w })
          (take a cp source workers waiting running t w)
  unfolding take Moves
  take-Moves [] running t w = inl refl
  take-Moves (ns ∷ waiting) running t w = elim (Bool-cases (ltb (length running) workers)) [
    | inl free ↦ rw free (inr (take_job ns waiting running t w (ground (arith, free))))
    | inr full ↦ rw full (inl refl)
  ]

  turn-Moves : (i : ℕ) (p : Pool S) → Moves p (turn a cp source workers i p)
  unfolding turn
  turn-Moves zero p = take-Moves p.waiting p.running p.tally p.world
  turn-Moves (suc i) p = advance-Moves i p.waiting [] p.running p.tally p.world

  Reach-trans :
      {p q r : Pool S}
      → Reach a cp source workers p q
      → Reach a cp source workers q r
      → Reach a cp source workers p r
  Reach-trans f here = f
  Reach-trans f (next g s) = next (Reach-trans f g) s

  Reach-turn : (i : ℕ) (p : Pool S) → Reach a cp source workers p (turn a cp source workers i p)
  unfolding Moves
  Reach-turn i p = elim (turn-Moves i p) [
    | inl e ↦ subst (Reach a cp source workers p) (sym e) here
    | inr s ↦ next here s
  ]

  Reach-run_pool :
      (schedule : List ℕ) (p : Pool S)
      → Reach a cp source workers p (run_pool a cp source workers schedule p)
  unfolding run_pool
  Reach-run_pool [] p = here
  Reach-run_pool (i ∷ schedule) p =
      Reach-trans (Reach-turn i p) (Reach-run_pool schedule (turn a cp source workers i p))

  first_turn-Step :
      (waiting : List String) (running : List Worker) (t : Tally) (w : World S)
      → 1 ≤ workers
      → let p : Pool S = record { waiting = waiting; running = running; tally = t; world = w } in
        ((waiting ≡ []) × (running ≡ []))
        ⊎ Step a cp source workers p (turn a cp source workers (first_turn running) p)
  unfolding turn take advance
  first_turn-Step [] [] t w h = inl (refl, refl)
  first_turn-Step (ns ∷ waiting) [] t w h =
      let free : ltb 0 workers ≡ true = ground (arith, h) in
      rw free (inr (take_job ns waiting [] t w (omega (arith, h))))
  first_turn-Step waiting (x ∷ after) t w h = inr (request-Step waiting [] x after t w)

  Ended : Pool S → Pool S → Type 0
  Ended p q = Reach a cp source workers p q × (q.waiting ≡ []) × (q.running ≡ [])

  -- As many turns as steps are left are enough.
  drain-Ended :
      (fuel : ℕ) (p : Pool S)
      → 1 ≤ workers
      → pending p ≡ fuel
      → Ended p (drain a cp source workers fuel p)
  unfolding drain Ended
  drain-Ended zero p h left = (
    here,
    length-zero p.waiting (omega (arith, left)),
    requests_left-zero p.running (omega (arith, left)),
  )
  drain-Ended (suc fuel) p h left = elim (first_turn-Step p.waiting p.running p.tally p.world h) [
    | inl (waits, runs) ↦
        let none_waits = ap (λ (l : List String). length l) waits in
        let none_runs = ap requests_left runs in absurd (omega (arith, left, none_waits, none_runs))
    | inr s ↦
        let (r, waits, runs) =
          drain-Ended fuel (turn a cp source workers (first_turn p.running) p) h
            (omega (arith, left, Step-pending a cp source workers s)) in
        (Reach-trans (next here s) r, waits, runs)
  ]

module _ {S : Server} (a : Accessors) (cp : ClusterProjection) (source : Fields) where
  -- Under every schedule, `fanOut` returns: what it returns is the tally and the world of a pool that
  -- a run of at most the allowed number of workers reached from the targets, with no job waiting and
  -- no worker busy.
  pub fan_out-IsRun :
      (schedule : List ℕ) (concurrency : ℤ) (targets : List String) (w : World S)
      → (p : Pool S) × Reach a cp source (worker_count concurrency targets) (start_pool targets w) p
        × (p.waiting ≡ [])
        × (p.running ≡ [])
        × (fan_out a cp source schedule concurrency targets w ≡ (p.tally, p.world))
  unfolding fan_out Ended
  fan_out-IsRun schedule concurrency [] w = (start_pool [] w, here, refl, refl, refl)
  fan_out-IsRun schedule concurrency (ns ∷ rest) w =
      let targets = ns ∷ rest in
      let workers = worker_count concurrency targets in
      let p = run_pool a cp source workers schedule (start_pool targets w) in
      let (r, waits, runs) =
        drain-Ended a cp source workers (pending p) p
          (worker_count-bounds concurrency targets (omega arith)).0 refl in
      (
        drain a cp source workers (pending p) p,
        Reach-trans a cp source workers
            (Reach-run_pool a cp source workers schedule (start_pool targets w)) r,
        waits,
        runs,
        refl,
      )
