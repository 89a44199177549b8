-- ===== src/Cluster/FanOut.antt =====
-- `fanOut` of internal/controller/cluster_projection_controller.go: the pool of workers as a step
-- relation, and the tally that the results add up to. A worker's read of its destination and what it
-- sends after it are two steps, between which the other workers go on; the interleaving is free. The
-- relation is run by a schedule of turns.
pub mod Complete
pub mod Order
pub mod Progress
pub mod Schedule
pub mod Split
pub mod Turns
pub mod Writes
use projection.Destination.{build_cluster_destination}
use projection.Prelude.{
  ◌≡◌, arith, ◌+◌, ◌*◌, ℕ, suc, zero, ◌<◌, List, [], ◌∷◌, ◌++◌, String, ◌<>◌, ◌==◌, length,
  if◌then◌else◌, ltb,
}
use projection.Prelude.Dict.{Dict, insert}
use projection.Kube.Api.{ℤ, pos, negsuc, ClusterProjection}
use projection.Kube.Value.{Fields}
use projection.Kube.Object.{Accessors}
use projection.Kube.Server.{Reply, Server}
use projection.Kube.World.{World}
use projection.Destination.Write.{
  cluster_projection_tier, get_destination, after_get, Failure, write_cluster_destination,
}

-- What `fanOut` returns.
pub record Tally : Type 0 where
  pub written : ℕ
  pub failed : ℕ
  pub failure_msgs : Dict String

abbrev pub no_results : Tally
no_results = record { written = 0; failed = 0; failure_msgs = [] }

-- One round of the loop over the results.
unfoldable pub add_result : String → Failure → Tally → Tally
add_result ns (reason, msg) t =
    if reason == "" then record t { written = suc t.written } else record t {
      failed = suc t.failed;
      failure_msgs = insert ns (reason <> (": " <> msg)) t.failure_msgs;
    }

pub add_result-counts :
    (ns : String) (f : Failure) (t : Tally)
    → (add_result ns f t).written + (add_result ns f t).failed ≡ suc (t.written + t.failed)
unfolding add_result
add_result-counts ns f t = ground arith

-- The number of workers. A count that is not positive stands for 16.
unfoldable pub worker_count : ℤ → List String → ℕ
worker_count (pos zero) targets = if ltb (length targets) 16 then length targets else 16
worker_count (negsuc n) targets = if ltb (length targets) 16 then length targets else 16
worker_count (pos (suc n)) targets = if ltb (length targets) (suc n) then length targets else suc n

module _ {S : Server} (a : Accessors) (cp : ClusterProjection) (source : Fields) where
  -- The writes of the namespaces one after the other, and the tally of their results.
  unfoldable pub write_each : List String → Tally → World S → Tally × World S
  write_each [] t w = (t, w)
  write_each (ns ∷ rest) t w =
      let (failure, w') = write_cluster_destination a cp source ns w in
      write_each rest (add_result ns failure t) w'

  -- The two parts of `write_cluster_destination`.
  abbrev pub get_target : String → World S → Reply Fields × World S
  get_target ns w =
      get_destination a (cluster_projection_tier a cp) source
        (build_cluster_destination a source cp ns) w

  abbrev pub after_get_target : String → Reply Fields → World S → Failure × World S
  after_get_target ns reply w =
      after_get a (cluster_projection_tier a cp) source (build_cluster_destination a source cp ns)
        reply w

-- A busy worker: it has taken a namespace, or it holds the reply to its read there.
pub data Worker : Type 0 where
  reading : String → Worker
  writing : String → Reply Fields → Worker

-- `waiting` is the channel of jobs, `running` are the busy workers, and the tally holds the results
-- that have arrived.
pub record Pool (S : Server) : Type 0 where
  pub waiting : List String
  pub running : List Worker
  pub tally : Tally
  pub world : World S

module _ {S : Server} (a : Accessors) (cp : ClusterProjection) (source : Fields) (workers : ℕ) where
  -- An idle worker takes the next job, a busy one reads its destination, or one that has read it
  -- sends what follows and its result.
  pub data Step : Pool S → Pool S → Type 0 where
    take_job :
        (ns : String) (waiting : List String) (running : List Worker) (t : Tally) (w : World S)
        → length running < workers
        → Step
            (record { waiting = ns ∷ waiting; running = running; tally = t; world = w })
            (record { waiting = waiting; running = reading ns ∷ running; tally = t; world = w })
    read_job :
        (waiting : List String) (before : List Worker) (ns : String) (after : List Worker)
        (t : Tally) (w : World S)
        → Step
            (record {
              waiting = waiting;
              running = before ++ (reading ns ∷ after);
              tally = t;
              world = w;
            })
            (record {
              waiting = waiting;
              running = before ++ (writing ns (get_target a cp source ns w).0 ∷ after);
              tally = t;
              world = (get_target a cp source ns w).1;
            })
    end_job :
        (waiting : List String) (before : List Worker) (ns : String) (reply : Reply Fields)
        (after : List Worker) (t : Tally) (w : World S)
        → Step
            (record {
              waiting = waiting;
              running = before ++ (writing ns reply ∷ after);
              tally = t;
              world = w;
            })
            (record {
              waiting = waiting;
              running = before ++ after;
              tally = add_result ns (after_get_target a cp source ns reply w).0 t;
              world = (after_get_target a cp source ns reply w).1;
            })

  pub data Reach (p : Pool S) : Pool S → Type 0 where
    here : Reach p p
    next : {q r : Pool S} → Reach p q → Step q r → Reach p r

abbrev pub requests_left : List Worker → ℕ
requests_left [] = 0
requests_left (reading _ ∷ workers) = suc (suc (requests_left workers))
requests_left (writing _ _ ∷ workers) = suc (requests_left workers)

-- A waiting target takes three more steps.
abbrev pub pending : {S : Server} → Pool S → ℕ
pending p = 3 * length p.waiting + requests_left p.running

abbrev pub start_pool : {S : Server} → List String → World S → Pool S
start_pool targets w = record { waiting = targets; running = []; tally = no_results; world = w }
