-- ===== src/Cluster/FanOut/Complete.antt =====
-- Every run of the pool of workers is that of some schedule.

use projection.Cluster.FanOut.Turns.{fan_out-IsRun}
use projection.Kube.World.{World}
use projection.Prelude.{
  sym, ◌↔◌, suc, true, ltb, arith, ◌∙◌, refl, ◌∷◌, length, ap, ◌++◌, [], String, List, ◌≡◌, ℕ,
}
use projection.Cluster.FanOut.Schedule.{request, take, turn, run_pool, advance, fan_out, drain}
use projection.Cluster.FanOut.{
  writing, end_job, reading, read_job, here, take_job, start_pool, requests_left, Step,
  worker_count, pending, next, Worker, Reach, Tally, Pool,
}
use projection.Kube.Value.{Fields}
use projection.Kube.Api.{ℤ, ClusterProjection}
use projection.Kube.Object.{Accessors}
use projection.Kube.Server.{Server}
use mathlib.Core.List.{append_assoc, append-nil}

module _ {S : Server} (a : Accessors) (cp : ClusterProjection) (source : Fields) (workers : ℕ) where
  -- The turn of the worker that stands behind `before`.
  advance-at :
      (waiting : List String) (pre before : List Worker) (x : Worker) (after : List Worker)
      (t : Tally) (w : World S)
      → advance a cp source workers (length before) waiting pre (before ++ (x ∷ after)) t w
        ≡ request a cp source workers waiting (pre ++ before) x after t w
  unfolding advance
  advance-at waiting pre [] x after t w = rw (append-nil pre)
  advance-at waiting pre (y ∷ before) x after t w =
      advance-at waiting (pre ++ (y ∷ [])) before x after t w
      ∙ ap (λ (l : List Worker). request a cp source workers waiting l x after t w)
          (append_assoc pre (y ∷ []) before)

  Step-IsTurn :
      {p q : Pool S} → Step a cp source workers p q → (i : ℕ) × (turn a cp source workers i p ≡ q)
  unfolding turn take request
  Step-IsTurn (take_job ns waiting running t w free) =
      let room : ltb (length running) workers ≡ true = ground (arith, free) in (0, rw room)
  Step-IsTurn (read_job waiting before ns after t w) =
      (suc (length before), advance-at waiting [] before (reading ns) after t w)
  Step-IsTurn (end_job waiting before ns reply after t w) =
      (suc (length before), advance-at waiting [] before (writing ns reply) after t w)

  run_pool-append :
      (xs ys : List ℕ) (p : Pool S)
      → run_pool a cp source workers (xs ++ ys) p
        ≡ run_pool a cp source workers ys (run_pool a cp source workers xs p)
  unfolding run_pool
  run_pool-append [] ys p = refl
  run_pool-append (i ∷ xs) ys p = run_pool-append xs ys (turn a cp source workers i p)

  Reach-IsSchedule :
      {p q : Pool S}
      → Reach a cp source workers p q
      → (schedule : List ℕ) × (run_pool a cp source workers schedule p ≡ q)
  unfolding run_pool
  Reach-IsSchedule here = ([], refl)
  Reach-IsSchedule {p = p} (next r s) =
      let (schedule, e) = Reach-IsSchedule r in
      let (i, f) = Step-IsTurn s in
      (
        schedule ++ (i ∷ []),
        run_pool-append schedule (i ∷ []) p ∙ ap (turn a cp source workers i) e ∙ f,
      )

module _ {S : Server} (a : Accessors) (cp : ClusterProjection) (source : Fields) where
  -- A pool that has finished stays as it is.
  result_of : Pool S → Tally × World S
  result_of p = (p.tally, p.world)

  drain-finished :
      (workers : ℕ) (p : Pool S)
      → p.waiting ≡ []
      → p.running ≡ []
      → drain a cp source workers (pending p) p ≡ p
  unfolding drain
  drain-finished workers p waits runs =
      let none_waits = ap (λ (l : List String). length l) waits in
      let none_runs = ap requests_left runs in
      let none_left : pending p ≡ 0 = omega (arith, none_waits, none_runs) in
      ap (λ (n : ℕ). drain a cp source workers n p) none_left

  -- The schedule of a run that has finished.
  Reach-IsFanOut :
      (concurrency : ℤ) (ns : String) (rest : List String) (w : World S) {p : Pool S}
      → Reach a cp source (worker_count concurrency (ns ∷ rest)) (start_pool (ns ∷ rest) w) p
      → p.waiting ≡ []
      → p.running ≡ []
      → (schedule : List ℕ) × (fan_out a cp source schedule concurrency (ns ∷ rest) w
          ≡ (p.tally, p.world))
  unfolding fan_out result_of
  Reach-IsFanOut concurrency ns rest w {p} r waits runs =
      let workers = worker_count concurrency (ns ∷ rest) in
      let (schedule, e) = Reach-IsSchedule a cp source workers r in
      (
        schedule,
        ap (λ (q : Pool S). result_of (drain a cp source workers (pending q) q)) e
            ∙ ap result_of (drain-finished workers p waits runs),
      )

  -- For targets that are not empty, the results that `fanOut` has under the schedules are those of the
  -- step relation: a tally and a world are returned under some schedule if and only if some run of the
  -- pool, with the workers that the limit allows, ends with them, no job waiting and no worker busy.
  pub fan_out-results :
      (concurrency : ℤ) (ns : String) (rest : List String) (w : World S) (result : Tally × World S)
      → ((schedule : List ℕ) × (fan_out a cp source schedule concurrency (ns ∷ rest) w ≡ result))
        ↔ ((p : Pool S) × Reach a cp source
              (worker_count concurrency (ns ∷ rest))
              (start_pool (ns ∷ rest) w)
              p
            × (p.waiting ≡ [])
            × (p.running ≡ [])
            × ((p.tally, p.world) ≡ result))
  fan_out-results concurrency ns rest w result = (
    λ (schedule, returned).
        let (p, r, waits, runs, same) =
          fan_out-IsRun a cp source schedule concurrency (ns ∷ rest) w in
        (p, r, waits, runs, sym same ∙ returned),
    λ (p, r, waits, runs, same).
        let (schedule, returned) = Reach-IsFanOut concurrency ns rest w r waits runs in
        (schedule, returned ∙ same),
  )
