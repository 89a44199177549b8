-- ===== src/Cluster/FanOut/Order.antt =====
-- While nobody else writes, the pool of workers of `fanOut` ends as some order of the targets, written
-- one after the other.
use projection.Destination.Write.Safety.{get_target-reply}
use projection.Destination.{cluster_destination_name}
use projection.Cluster.FanOut.Split.{
  namespaces_of-append, Split-end, Split-read, namespaces_of, Split-take, Split-finished, Split,
}
use projection.Destination.Write.Isolation.{
  write_cluster_destination-parts, get_target_keeps, get-after_get_target, IsIsolated,
}
use projection.Prelude.Counting.{count-perm, count-append, count, IsDistinct}
use projection.Destination.Write.{Failure}
use projection.Kube.World.{World}
use projection.Cluster.FanOut.{
  get_target, after_get_target, read_job, writing, reading, Worker, here, end_job, take_job, next,
  no_results, Step, Reach, start_pool, Pool, Tally, add_result, write_each,
}
use projection.Kube.Value.{Fields}
use projection.Kube.Api.{ClusterProjection}
use projection.Kube.Object.{HasMetadata, IsLawful, Accessors}
use projection.Kube.Server.{Reply, Server}
use projection.Prelude.{
  All-append, eq_refl, All-split, All, sym, suc, subst, ap, ◌∙◌, ◌≤◌, refl, arith, ◌≡◌, ◌+◌, String,
  ℕ, [], ◌∷◌, ◌++◌, List,
}
use mathlib.Core.List.Perm
use mathlib.Core.List.{Perm}

module _ {S : Server} (a : Accessors) (cp : ClusterProjection) (source : Fields) where
  write_each-append :
      (xs ys : List String) (t : Tally) (w : World S)
      → write_each a cp source (xs ++ ys) t w
        ≡ (let (t', w') = write_each a cp source xs t w in write_each a cp source ys t' w')
  unfolding write_each
  write_each-append [] ys t w = refl
  write_each-append (x ∷ xs) ys t w = write_each-append xs ys _ _

-- In a list that splits the targets, no other worker has the namespace.
count-others :
    (targets done : List String) (before : List Worker) (ns : String) (reply : Reply Fields)
    (after : List Worker) (waiting : List String)
    → IsDistinct targets
    → Split targets done (before ++ (writing ns reply ∷ after)) waiting
    → (count ns (namespaces_of before) ≡ 0) × (count ns (namespaces_of after) ≡ 0)
count-others targets done before ns reply after waiting distinct split =
    let b = namespaces_of before in
    let c = namespaces_of after in
    let running = namespaces_of (before ++ (writing ns reply ∷ after)) in
    let once : count ns (ns ∷ c) ≡ suc (count ns c) = ground (arith, eq_refl ns) in
    let total : count ns running ≡ count ns b + count ns (ns ∷ c) =
      ap (count ns) (namespaces_of-append before (writing ns reply ∷ after))
      ∙ count-append ns b (ns ∷ c) in
    let few : count ns running ≤ 1 = omega (
      arith,
      distinct ns,
      count-perm ns split,
      count-append ns done (running ++ waiting),
      count-append ns running waiting,
    ) in
    (omega (arith, few, total, once), omega (arith, few, total, once))

module _ {S : Server} (a : Accessors) (law : IsLawful a) (cp : ClusterProjection) (source : Fields)
    (has : HasMetadata source)
    (isolated : IsIsolated S a (a.group_version_kind source) (cluster_destination_name cp)) where
  reply_at : String → S.State → Reply Fields
  reply_at ns s = (S.get (a.group_version_kind source) ns (cluster_destination_name cp) s).0

  -- What a worker holds is still what the apiserver would reply.
  IsCurrent : S.State → Worker → Type 0
  IsCurrent s (reading ns) = Unit {0}
  IsCurrent s (writing ns reply) = reply_at ns s ≡ reply

  -- It stays so when another namespace is written.
  All-IsCurrent :
      (ns : String) (reply : Reply Fields) (v : World S) (xs : List Worker)
      → count ns (namespaces_of xs) ≡ 0
      → All (IsCurrent v.server) xs
      → All (IsCurrent (after_get_target a cp source ns reply v).1.server) xs
  unfolding IsCurrent reply_at
  All-IsCurrent ns reply v [] none_there all = tt
  All-IsCurrent ns reply v (reading k ∷ xs) none_there (_, all) =
      (tt, All-IsCurrent ns reply v xs (ground (arith, none_there)) all)
  All-IsCurrent ns reply v (writing k held ∷ xs) none_there (now, all) = (
    get-after_get_target a law cp source has isolated ns k reply v (ground (arith, none_there))
        ∙ now,
    All-IsCurrent ns reply v xs (ground (arith, none_there)) all,
  )

  module _ (workers : ℕ) (targets : List String) (distinct : IsDistinct targets) (w : World S) where
    -- What has been written so far is an order of the targets that are done, each at once.
    record IsPartial (p : Pool S) : Type 0 where
      done : List String
      split : Split targets done p.running p.waiting
      result : write_each a cp source done no_results w ≡ (p.tally, p.world)
      current : All (IsCurrent p.world.server) p.running

    Step-IsPartial : {p q : Pool S} → Step a cp source workers p q → IsPartial p → IsPartial q
    unfolding IsCurrent reply_at write_each
    Step-IsPartial (take_job ns waiting running t v free) h = record {
      done = h.done;
      split = Split-take targets h.done ns running waiting h.split;
      result = h.result;
      current = (tt, h.current);
    }
    Step-IsPartial (read_job waiting before ns after t v) h =
        let (ahead, (_, behind)) =
          All-split (IsCurrent v.server) before (reading ns ∷ after) h.current in
        let reply = (get_target a cp source ns v).0 in
        let same = get_target_keeps a law cp source has isolated ns v in
        record {
          done = h.done;
          split = Split-read targets h.done before ns reply after waiting h.split;
          result = h.result ∙ ap (λ (u : World S). (t, u)) (sym same);
          current =
              subst
                (λ (u : World S). All (IsCurrent u.server) (before ++ (writing ns reply ∷ after)))
                (sym same)
                (All-append (IsCurrent v.server) before (writing ns reply ∷ after) ahead
                  (sym (get_target-reply a law cp source ns has v), behind));
        }
    Step-IsPartial (end_job waiting before ns reply after t v) h =
        let (ahead, (now, behind)) =
          All-split (IsCurrent v.server) before (writing ns reply ∷ after) h.current in
        let (none_ahead, none_behind) =
          count-others targets h.done before ns reply after waiting distinct h.split in
        let later = (after_get_target a cp source ns reply v).1 in
        record {
          done = h.done ++ (ns ∷ []);
          split = Split-end targets h.done before ns reply after waiting h.split;
          result =
              write_each-append a cp source h.done (ns ∷ []) no_results w
              ∙ ap (λ (r : Tally × World S). write_each a cp source (ns ∷ []) r.0 r.1) h.result
              ∙ ap (λ (r : Failure × World S). (add_result ns r.0 t, r.1))
                  (write_cluster_destination-parts a law cp source has isolated ns reply v now);
          current =
              All-append (IsCurrent later.server) before after
                (All-IsCurrent ns reply v before none_ahead ahead)
                (All-IsCurrent ns reply v after none_behind behind);
        }

    Reach-IsPartial :
        {p : Pool S} → Reach a cp source workers (start_pool targets w) p → IsPartial p
    unfolding write_each
    Reach-IsPartial here = record {
      done = [];
      split = Perm.refl targets;
      result = refl;
      current = tt;
    }
    Reach-IsPartial (next r s) = Step-IsPartial s (Reach-IsPartial r)

    -- While nobody else writes the destinations, for distinct targets and a source that has metadata:
    -- however the requests of the workers interleave, when no job waits and no worker is busy, the
    -- run of the pool amounted to writing every target, each exactly once, one after the other in
    -- some order. The world and the tally are those of that order.
    pub fan_out_is_some_order :
        {p : Pool S}
        → Reach a cp source workers (start_pool targets w) p
        → p.waiting ≡ []
        → p.running ≡ []
        → (order : List String) × Perm order targets
          × (write_each a cp source order no_results w ≡ (p.tally, p.world))
    fan_out_is_some_order r waits runs =
        let h = Reach-IsPartial r in
        (h.done, Split-finished targets h.done waits runs h.split, h.result)
