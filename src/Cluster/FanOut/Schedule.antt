-- ===== src/Cluster/FanOut/Schedule.antt =====
-- The pool of workers of `fanOut` run by a schedule, which says whose turn it is.
use projection.Kube.World.{World}
use projection.Kube.Value.{Fields}
use projection.Kube.Api.{ℤ, ClusterProjection}
use projection.Cluster.FanOut.{
  add_result, pending, after_get_target, writing, start_pool, worker_count, get_target, reading,
  no_results, Tally, Pool, Worker,
}
use projection.Kube.Object.{Accessors}
use projection.Kube.Server.{Server}
use projection.Prelude.{length, ltb, ◌++◌, zero, if◌then◌else◌, [], ◌∷◌, suc, String, ℕ, List}

module _ {S : Server} (a : Accessors) (cp : ClusterProjection) (source : Fields) (workers : ℕ) where
  -- The next request of a busy worker.
  unfoldable pub request :
      List String → List Worker → Worker → List Worker → Tally → World S → Pool S
  request waiting before (reading ns) after t w =
      let (reply, w') = get_target a cp source ns w in
      record {
        waiting = waiting;
        running = before ++ (writing ns reply ∷ after);
        tally = t;
        world = w';
      }
  request waiting before (writing ns reply) after t w =
      let (failure, w') = after_get_target a cp source ns reply w in
      record {
        waiting = waiting;
        running = before ++ after;
        tally = add_result ns failure t;
        world = w';
      }

  -- The request of the worker with that index in `after`, if there is one.
  unfoldable pub advance : ℕ → List String → List Worker → List Worker → Tally → World S → Pool S
  advance i waiting before [] t w = record {
    waiting = waiting;
    running = before ++ [];
    tally = t;
    world = w;
  }
  advance zero waiting before (x ∷ after) t w = request waiting before x after t w
  advance (suc i) waiting before (x ∷ after) t w = advance i waiting (before ++ (x ∷ [])) after t w

  unfoldable pub take : List String → List Worker → Tally → World S → Pool S
  take [] running t w = record { waiting = []; running = running; tally = t; world = w }
  take (ns ∷ waiting) running t w =
      if ltb (length running) workers
      then record { waiting = waiting; running = reading ns ∷ running; tally = t; world = w }
      else record { waiting = ns ∷ waiting; running = running; tally = t; world = w }

  -- Turn zero is an idle worker's, which takes a job; the others are those of the busy workers.
  unfoldable pub turn : ℕ → Pool S → Pool S
  turn zero p = take p.waiting p.running p.tally p.world
  turn (suc i) p = advance i p.waiting [] p.running p.tally p.world

  unfoldable pub run_pool : List ℕ → Pool S → Pool S
  run_pool [] p = p
  run_pool (i ∷ schedule) p = run_pool schedule (turn i p)

abbrev pub first_turn : List Worker → ℕ
first_turn [] = 0
first_turn (_ ∷ _) = 1

module _ {S : Server} (a : Accessors) (cp : ClusterProjection) (source : Fields) where
  -- The loop over the results waits for every job: once the schedule is over, the workers go on in
  -- a fixed order.
  unfoldable pub drain : ℕ → ℕ → Pool S → Pool S
  drain workers zero p = p
  drain workers (suc fuel) p =
      drain workers fuel (turn a cp source workers (first_turn p.running) p)

  -- `schedule` stands for the interleaving: who has the next turn.
  unfoldable pub fan_out : List ℕ → ℤ → List String → World S → Tally × World S
  fan_out schedule concurrency [] w = (no_results, w)
  fan_out schedule concurrency (ns ∷ rest) w =
      let workers = worker_count concurrency (ns ∷ rest) in
      let p = run_pool a cp source workers schedule (start_pool (ns ∷ rest) w) in
      let q = drain workers (pending p) p in (q.tally, q.world)
