-- ===== src/Tests/PoolExamples.antt =====
-- The theorems on the pool of workers and on the deletion of a cluster projection.
use projection.Cluster.FanOut.Complete.{fan_out-results}
use projection.Tests.Apiserver.{server-IsIsolated}
use projection.Cluster.FanOut.Order.{fan_out_is_some_order}
use projection.Cluster.FanOut.Writes.{fan_out_writes_each_once, EachOnce}
use mathlib.Core.List.{Perm}
use projection.Cluster.FanOut.Schedule.{fan_out}
use projection.Kube.World.{World}
use projection.Kube.Value.{Fields}
use projection.Kube.Server.{Reply}
use projection.Prelude.Counting.{count, IsDistinct}
use projection.Destination.Write.{Failure}
use projection.Cluster.FanOut.Progress.{worker_count-bounds, fan_out_ends}
use projection.Kube.Api.{pos}
use projection.Cluster.FanOut.{
  end_job, writing, read_job, write_each, reading, take_job, get_target, after_get_target,
  no_results, next, add_result, Tally, Reach, Step, worker_count, start_pool, Pool, here,
}
use projection.Tests.{source_object-HasMetadata, server, source_object, fresh, cluster_projection}
use projection.Kube.Model.{accessors-IsLawful, accessors}
use projection.Prelude.{
  ◌↔◌, ℕ, inr, sym, subst, inl, ◌==◌, Bool-cases, ◌+◌, eq_iff, String, List, ◌⊎◌, ◌≤◌, arith, refl,
  ◌∷◌, [], ◌≡◌,
}

abbrev two_targets : List String
two_targets = "tenant-a" ∷ ("tenant-b" ∷ [])

abbrev both_waiting : Pool server
both_waiting = start_pool two_targets fresh

fan_out_ends_example :
    (0 ≤ 6)
    × ((((both_waiting.waiting ≡ []) × (both_waiting.running ≡ [])))
        ⊎ ((q : Pool server) × Step accessors cluster_projection source_object 2 both_waiting q))
fan_out_ends_example =
    fan_out_ends accessors cluster_projection source_object 2 two_targets fresh here (omega arith)

-- Both workers read before either writes, and the one that took its job last ends first.
abbrev read_b : Reply Fields × World server
read_b = get_target accessors cluster_projection source_object "tenant-b" fresh

abbrev read_a : Reply Fields × World server
read_a = get_target accessors cluster_projection source_object "tenant-a" read_b.1

abbrev written_b : Failure × World server
written_b = after_get_target accessors cluster_projection source_object "tenant-b" read_b.0 read_a.1

abbrev tally_b : Tally
tally_b = add_result "tenant-b" written_b.0 no_results

abbrev written_a : Failure × World server
written_a =
    after_get_target accessors cluster_projection source_object "tenant-a" read_a.0 written_b.1

abbrev both_written : Pool server
both_written = record {
  waiting = [];
  running = [];
  tally = add_result "tenant-a" written_a.0 tally_b;
  world = written_a.1;
}

abbrev both_result : Tally × World server
both_result = (both_written.tally, both_written.world)

interleaved : Reach accessors cluster_projection source_object 2 both_waiting both_written
interleaved =
    next
      (next
        (next
          (next
            (next
              (next here (take_job "tenant-a" ("tenant-b" ∷ []) [] no_results fresh (omega arith)))
              (take_job "tenant-b" [] (reading "tenant-a" ∷ []) no_results fresh (omega arith)))
            (read_job [] [] "tenant-b" (reading "tenant-a" ∷ []) no_results fresh))
          (read_job [] (writing "tenant-b" read_b.0 ∷ []) "tenant-a" [] no_results read_b.1))
        (end_job [] [] "tenant-b" read_b.0 (writing "tenant-a" read_a.0 ∷ []) no_results read_a.1))
      (end_job [] [] "tenant-a" read_a.0 [] tally_b written_b.1)

fan_out_writes_each_once_example :
    (order : List String) × Perm order two_targets
    × EachOnce server accessors cluster_projection source_object order [] both_written.world.calls
    × (both_written.tally.written + both_written.tally.failed ≡ 2)
fan_out_writes_each_once_example =
    fan_out_writes_each_once accessors accessors-IsLawful cluster_projection source_object
      source_object-HasMetadata 2 two_targets fresh interleaved refl refl

two_targets-IsDistinct : IsDistinct two_targets
two_targets-IsDistinct k = elim (Bool-cases (k == "tenant-a")) [
  | inl same ↦
      subst (λ (s : String). count s two_targets ≤ 1) (sym ((eq_iff k "tenant-a").0 same))
        (omega arith)
  | inr other ↦ ground (arith, other)
]

fan_out_is_some_order_example :
    (order : List String) × Perm order two_targets
    × (write_each accessors cluster_projection source_object order no_results fresh ≡ both_result)
fan_out_is_some_order_example =
    fan_out_is_some_order accessors accessors-IsLawful cluster_projection source_object
      source_object-HasMetadata (server-IsIsolated _ _) 2 two_targets two_targets-IsDistinct fresh
      interleaved refl refl

fan_out-results_example :
    ((schedule : List ℕ) × (fan_out accessors cluster_projection source_object schedule
          (pos 2)
          two_targets
          fresh
        ≡ both_result))
    ↔ ((p : Pool server) × Reach accessors cluster_projection source_object
          (worker_count (pos 2) two_targets)
          both_waiting
          p
        × (p.waiting ≡ [])
        × (p.running ≡ [])
        × ((p.tally, p.world) ≡ both_result))
fan_out-results_example =
    fan_out-results accessors cluster_projection source_object (pos 2) "tenant-a" ("tenant-b" ∷ [])
      fresh both_result

worker_count-bounds_example :
    (1 ≤ worker_count (pos 2) ("tenant-a" ∷ []))
    × (worker_count (pos 2) ("tenant-a" ∷ []) ≤ 1)
    × (worker_count (pos 2) ("tenant-a" ∷ []) ≤ 2)
worker_count-bounds_example = worker_count-bounds (pos 2) ("tenant-a" ∷ []) (omega arith)
