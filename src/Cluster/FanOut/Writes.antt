-- ===== src/Cluster/FanOut/Writes.antt =====
-- What the workers of `fanOut` send, however their requests interleave.
use mathlib.Core.List.Perm
use mathlib.Core.List.{Perm}
use projection.Cluster.FanOut.Split.{Split-end, Split-read, Split-finished, Split-take, Split}
use projection.Destination.Write.{get_destination, cluster_projection_tier}
use projection.Destination.{cluster_destination_name}
use projection.Destination.Write.Safety.{after_get_target-Permitted, get_target-reply, Permitted}
use projection.Kube.Calls.{Grows-trans, Grows-none, Grows, Issues}
use projection.Cluster.FanOut.{
  add_result-counts, after_get_target, end_job, get_target, here, read_job, next, take_job,
  start_pool, Step, Reach, Pool, writing, reading, Worker,
}
use projection.Prelude.{
  refl, length-append, All-append, length-perm, All-split, ◌≤◌, length, eq_refl, arith, ◌+◌,
  All-map, All, subst, [], ◌∷◌, ◌++◌, true, ◌≡◌, ℕ, contains, String, List,
}
use projection.Kube.World.{World, Call}
use projection.Kube.Value.{Fields}
use projection.Kube.Api.{ClusterProjection}
use projection.Kube.Object.{HasMetadata, IsLawful, Accessors}
use projection.Kube.Server.{Reply, Server}

module _ (S : Server) (a : Accessors) (cp : ClusterProjection) (source : Fields) where
  -- A reply that the apiserver gave, at some state, to a read of the namespace's destination.
  abbrev pub Answered : String → Reply Fields → Type 0
  Answered ns reply =
      (s : S.State) × (reply
        ≡ (S.get (a.group_version_kind source) ns (cluster_destination_name cp) s).0)

  -- A write that the test after such a reply lets through.
  abbrev pub WriteIn : String → Call → Type 0
  WriteIn ns c =
      (reply : Reply Fields) × Answered ns reply
      × Permitted a (cluster_projection_tier a cp) ns (cluster_destination_name cp) reply c

  -- In the order of the list, at most one write for each of its namespaces.
  abbrev pub EachOnce : List String → List Call → List Call → Type 0
  EachOnce [] before after = after ≡ before
  EachOnce (ns ∷ order) before after =
      (between : List Call) × Issues (WriteIn ns) 1 before between × EachOnce order between after

  EachOnce-snoc :
      (order : List String) (ns : String) (before between after : List Call)
      → EachOnce order before between
      → Issues (WriteIn ns) 1 between after
      → EachOnce (order ++ (ns ∷ [])) before after
  EachOnce-snoc [] ns before between after e issued =
      (after, subst (λ (cs : List Call). Issues (WriteIn ns) 1 cs after) e issued, refl)
  EachOnce-snoc (n ∷ order) ns before between after (first, issued, rest) more =
      (first, issued, EachOnce-snoc order ns first between after rest more)

  -- What holds of every permitted write in the namespaces holds of all that is sent.
  pub Grows-EachOnce :
      (P : Call → Type 0) (order : List String) (before after : List Call)
      → ((ns : String) (c : Call) → contains order ns ≡ true → WriteIn ns c → P c)
      → EachOnce order before after
      → Grows P before after
  Grows-EachOnce P [] before after h e = Grows-none P before after e
  Grows-EachOnce P (ns ∷ order) before after h (between, (new, e, _, all), rest) =
      Grows-trans P before between after
        (new, e, All-map (WriteIn ns) P (λ c w. h ns c (rw (eq_refl ns)) w) new all)
        (Grows-EachOnce P order between after (λ k c found w. h k c (ground (arith, found)) w) rest)

  IsAnswered : Worker → Type 0
  IsAnswered (reading ns) = Unit {0}
  IsAnswered (writing ns reply) = Answered ns reply

module _ {S : Server} (a : Accessors) (law : IsLawful a) (cp : ClusterProjection) (source : Fields)
    (has : HasMetadata source) (workers : ℕ) (targets : List String) (w : World S) where
  -- Each target is done, with a worker, or waiting; what was sent is what those that are done sent;
  -- and what a worker holds is a reply to a read of its own destination.
  record IsWritten (p : Pool S) : Type 0 where
    done : List String
    split : Split targets done p.running p.waiting
    sent : EachOnce S a cp source done w.calls p.world.calls
    answered : All (IsAnswered S a cp source) p.running
    counted : p.tally.written + p.tally.failed ≡ length done
    capped : length p.running ≤ workers

  Step-IsWritten : {p q : Pool S} → Step a cp source workers p q → IsWritten p → IsWritten q
  unfolding IsAnswered get_destination
  Step-IsWritten (take_job ns waiting running t v free) h = record {
    done = h.done;
    split = Split-take targets h.done ns running waiting h.split;
    sent = h.sent;
    answered = (tt, h.answered);
    counted = h.counted;
    capped = omega (arith, free);
  }
  Step-IsWritten (read_job waiting before ns after t v) h =
      let (ahead, (_, behind)) =
        All-split (IsAnswered S a cp source) before (reading ns ∷ after) h.answered in
      let reply = (get_target a cp source ns v).0 in
      record {
        done = h.done;
        split = Split-read targets h.done before ns reply after waiting h.split;
        sent = h.sent;
        answered =
            All-append (IsAnswered S a cp source) before (writing ns reply ∷ after) ahead
              ((v.server, get_target-reply a law cp source ns has v), behind);
        counted = h.counted;
        capped = omega (
          arith,
          length-append before (writing ns reply ∷ after),
          length-append before (reading ns ∷ after),
          h.capped,
        );
      }
  Step-IsWritten (end_job waiting before ns reply after t v) h =
      let (ahead, (answer, behind)) =
        All-split (IsAnswered S a cp source) before (writing ns reply ∷ after) h.answered in
      let (new, e, few, all) = after_get_target-Permitted a law cp source ns has v reply in
      let (failure, v') = after_get_target a cp source ns reply v in
      record {
        done = h.done ++ (ns ∷ []);
        split = Split-end targets h.done before ns reply after waiting h.split;
        sent =
            EachOnce-snoc S a cp source h.done ns w.calls v.calls _ h.sent
              (new, e, few, All-map _ _ (λ c permitted. (reply, answer, permitted)) new all);
        answered = All-append (IsAnswered S a cp source) before after ahead behind;
        counted =
            omega
              (arith, add_result-counts ns failure t, h.counted, length-append h.done (ns ∷ []));
        capped = omega (
          arith,
          length-append before (writing ns reply ∷ after),
          length-append before after,
          h.capped,
        );
      }

  Reach-IsWritten : {p : Pool S} → Reach a cp source workers (start_pool targets w) p → IsWritten p
  Reach-IsWritten here = record {
    done = [];
    split = Perm.refl targets;
    sent = refl;
    answered = tt;
    counted = omega arith;
    capped = omega arith;
  }
  Reach-IsWritten (next r s) = Step-IsWritten s (Reach-IsWritten r)

  -- However the requests of the workers interleave, and whatever the apiserver and its other clients
  -- do meanwhile, for a source that has metadata: when no job waits and no worker is busy, every
  -- target has been handled exactly once, in some order, and counts once, as written or as failed;
  -- each has sent at most one write, which stays in its own namespace, under the destination's name,
  -- and which a reply of the apiserver to a read there permits: a create where nothing was found, an
  -- update, at the version that was read, of an object that the cluster projection owns.
  pub fan_out_writes_each_once :
      {p : Pool S}
      → Reach a cp source workers (start_pool targets w) p
      → p.waiting ≡ []
      → p.running ≡ []
      → (order : List String) × Perm order targets
        × EachOnce S a cp source order w.calls p.world.calls
        × (p.tally.written + p.tally.failed ≡ length targets)
  fan_out_writes_each_once r waits runs =
      let h = Reach-IsWritten r in
      let split = Split-finished targets h.done waits runs h.split in
      (h.done, split, h.sent, omega (arith, h.counted, length-perm split))
