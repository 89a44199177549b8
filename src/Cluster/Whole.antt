-- ===== src/Cluster/Whole.antt =====
-- A whole reconcile of internal/controller/cluster_projection_controller.go, from the request on.
use projection.Finalizer.ClusterDeletion.{delete_cluster_destination-DeletesOwn}
use projection.Cleanup.{delete_cluster_destination}
use projection.Source.{resolve_gvr}
use projection.Cluster.Reconcile.{reconcile_found, reconcile_alive, reconcile}
use projection.Kube.Calls.{Grows-trans, Grows-one, Grows-none, Reply-cases, Grows-map, Grows}
use projection.Reconcile.Calls.{ServesObjects}
use projection.Cleanup.Safety.{DeletesOwn}
use projection.Cluster.Reaches.{reconcile_finalized-Reaches, read_world, Reaches, ListsAt}
use projection.Conditions.{Settings}
use projection.Kube.Api.{ClusterProjection}
use projection.Kube.World.{cluster_projection_call, World, Call}
use projection.Prelude.{
  some, Option-cases, Bool-cases, refl, inr, ◌∷◌, arith, true, inl, false, none, ap, ◌∙◌, ◌⊎◌, ℕ,
  List, ◌≡◌, String,
}
use projection.Finalizer.{
  with_cluster_finalizers, cluster_finalizer_name, handle_cluster_deletion,
  ensure_cluster_finalizer, remove_cluster_finalizer, Deps,
}
use projection.Kube.Object.{IsLawful}
use projection.Kube.Server.{GroupVersionResource, ok, Server}

-- What the apiserver returns for a cluster projection has the name that was asked for.
pub record KeepsClusterIdentity (S : Server) : Type 0 where
  pub got :
      (name : String) (state : S.State) (p : ClusterProjection)
      → (S.get_cluster_projection name state).0 ≡ ok p
      → p.meta.name ≡ name
  pub updated :
      (q : ClusterProjection) (state : S.State) (p : ClusterProjection)
      → (S.update_cluster_projection q state).0 ≡ ok p
      → p.meta.name ≡ q.meta.name

-- The writes of a cluster reconcile of the cluster projection that the apiserver returned, to a request
-- that began in the world `w`.
module _ {S : Server} (d : Deps) (r : Settings) (schedule : List ℕ) (name : String)
    (cp : ClusterProjection) (w : World S) where
  -- Where it is being deleted: deletes of the objects that carry its annotation, as the apiserver lists
  -- them.
  abbrev pub IsTeardown : Call → Type 0
  IsTeardown c =
      (t : ℕ) × (cp.meta.deletion_timestamp ≡ some t)
      × ((gvr : GroupVersionResource) × DeletesOwn S d.accessors gvr cp w.server c)

  -- An update of the finalizers, which keeps the name and the spec.
  abbrev pub IsFinalizerUpdate : Call → Type 0
  IsFinalizerUpdate c =
      (q : ClusterProjection) × (c ≡ cluster_projection_call q)
      × (q.meta.name ≡ name)
      × (q.spec ≡ cp.spec)

  -- A write of the reconcile of `p`, as the apiserver returned it once its finalizer was there.
  abbrev pub IsMirroring : Call → Type 0
  IsMirroring c =
      let (ensured, w') = ensure_cluster_finalizer d cp w in
      (p : ClusterProjection) × (ensured ≡ ok p)
      × (p.meta.name ≡ name)
      × Reaches S d.accessors p (read_world r p (resolve_gvr d.mapper p.spec.source) w')
          (ListsAt d r schedule p (resolve_gvr d.mapper p.spec.source) w') c

  abbrev pub OfServed : Call → Type 0
  OfServed c = IsTeardown c ⊎ (IsFinalizerUpdate c ⊎ IsMirroring c)

-- A write that serves the request: for the cluster projection that the first read returned.
abbrev pub OfRequest : {S : Server} → Deps → Settings → List ℕ → String → World S → Call → Type 0
OfRequest {S} d r schedule name w c =
    let (reply, state) = S.get_cluster_projection name w.server in
    (cp : ClusterProjection) × (reply ≡ ok cp)
    × (cp.meta.name ≡ name)
    × OfServed d r schedule name cp (record w { server = state }) c

module _ {S : Server} (d : Deps) (law : IsLawful d.accessors) (r : Settings) (schedule : List ℕ)
    (serves : ServesObjects S) (keeps : KeepsClusterIdentity S) (name : String) where
  ensure_cluster_finalizer_missing :
      (cp : ClusterProjection) (w : World S)
      → d.helpers.contains_finalizer cp.meta.finalizers cluster_finalizer_name ≡ false
      → let added =
          with_cluster_finalizers cp
            (d.helpers.add_finalizer cp.meta.finalizers cluster_finalizer_name) in
        ensure_cluster_finalizer d cp w ≡ (
          (S.update_cluster_projection added w.server).0,
          record w {
            server = (S.update_cluster_projection added w.server).1;
            calls = cluster_projection_call added ∷ w.calls;
          },
        )
  unfolding ensure_cluster_finalizer
  ensure_cluster_finalizer_missing cp w missing = rw missing refl

  ensure_cluster_finalizer_held :
      (cp : ClusterProjection) (w : World S)
      → d.helpers.contains_finalizer cp.meta.finalizers cluster_finalizer_name ≡ true
      → ensure_cluster_finalizer d cp w ≡ (ok cp, w)
  unfolding ensure_cluster_finalizer
  ensure_cluster_finalizer_held cp w held = ground (arith, held)

  abbrev Written : ClusterProjection → World S → World S → Type 0
  Written cp w v = Grows (OfServed d r schedule name cp w) w.calls v.calls

  OfServed-alive :
      (cp : ClusterProjection) (w : World S)
      → cp.meta.name ≡ name
      → Written cp w (reconcile_alive d r schedule cp w).1
  unfolding reconcile_alive
  OfServed-alive cp w named =
      let added =
        with_cluster_finalizers cp
          (d.helpers.add_finalizer cp.meta.finalizers cluster_finalizer_name) in
      let reply = S.update_cluster_projection added w.server in
      let w1 = record w { server = reply.1; calls = cluster_projection_call added ∷ w.calls } in
      let one =
        Grows-one (OfServed d r schedule name cp w) w.calls w1.calls (cluster_projection_call added)
          (inr (inl (added, refl, named, refl))) refl in
      elim (Bool-cases (d.helpers.contains_finalizer cp.meta.finalizers cluster_finalizer_name)) [
        | inl held ↦
            let present = ensure_cluster_finalizer_held cp w held in
            rw (present, reconcile_alive, present)
              (Grows-map _ _ (λ c h. inr (inr (cp, ap (λ e. e.0) present, named, rw present h))) _ _
                (reconcile_finalized-Reaches d law r schedule cp w serves))
        | inr missing ↦
            let absent = ensure_cluster_finalizer_missing cp w missing in
            elim (Reply-cases reply.0) [
              | inl (e, failed) ↦ rw (absent, reconcile_alive, failed, absent) one
              | inr (p, stored) ↦
                  rw (absent, reconcile_alive, stored, absent)
                    (Grows-trans _ w.calls w1.calls _ one (
                      Grows-map _ _
                        (λ c h. inr (
                          inr (
                            p,
                            ap (λ e. e.0) absent ∙ stored,
                            keeps.updated added w.server p stored ∙ named,
                            rw absent h,
                          )))
                        _ _ (reconcile_finalized-Reaches d law r schedule p w1 serves)))
            ]
      ]

  handle_cluster_deletion_living :
      (cp : ClusterProjection) (w : World S)
      → cp.meta.deletion_timestamp ≡ none
      → handle_cluster_deletion d cp w ≡ ((false, none), w)
  unfolding handle_cluster_deletion
  handle_cluster_deletion_living cp w living = ground (arith, living)

  OfServed-found :
      (cp : ClusterProjection) (w : World S)
      → cp.meta.name ≡ name
      → Written cp w (reconcile_found d r schedule cp w).1
  unfolding reconcile_found handle_cluster_deletion remove_cluster_finalizer
  OfServed-found cp w named =
      let cleanup = delete_cluster_destination d.accessors d.mapper cp w in
      let released =
        with_cluster_finalizers cp
          (d.helpers.remove_finalizer cp.meta.finalizers cluster_finalizer_name) in
      elim (Option-cases cp.meta.deletion_timestamp) [
        | inl living ↦
            rw (handle_cluster_deletion_living cp w living, reconcile_found)
              (OfServed-alive cp w named)
        | inr (t, dying) ↦
            let cleaned =
              Grows-map _ _ (λ c own. inl (t, dying, own)) _ _
                (delete_cluster_destination-DeletesOwn d cp w) in
            elim (Bool-cases
              (d.helpers.contains_finalizer cp.meta.finalizers cluster_finalizer_name)) [
                | inr free ↦ Grows-none _ _ _ (ground (arith, dying, free))
                | inl held ↦ elim (Option-cases cleanup.0) [
                  | inr (e, failed) ↦
                      Grows-trans _ w.calls cleanup.1.calls _ cleaned
                        (Grows-none _ _ _ (ground (arith, dying, held, failed)))
                  | inl clean ↦ Grows-trans _ w.calls cleanup.1.calls _ cleaned (
                      Grows-one _ _ _ (cluster_projection_call released)
                        (inr (inl (released, refl, named, refl)))
                        (ground (arith, dying, held, clean)))
                ]
              ]
      ]

  -- A cluster reconcile of a request, from its first read on and on every branch, under every schedule
  -- of the workers, for an apiserver that returns objects with metadata, and cluster projections under
  -- the name that they were asked for. Each of its writes is for the cluster projection that the first
  -- read returned, which has the request's name, and is one of these: where that is being deleted, the
  -- delete of an object that the apiserver listed by the label of its UID and that carries its
  -- annotation; an update of its finalizers that keeps its name and spec; or a write of the reconcile
  -- of the cluster projection as it was returned once it had its finalizer. Such a write creates or updates
  -- an object in a namespace that the spec targets once the source was read, under the destination's
  -- name, deletes an object that carries the annotation and that the apiserver listed after that read
  -- or after the fan-out, or updates the status.
  pub reconcile-OfRequest :
      (w : World S)
      → Grows (OfRequest d r schedule name w) w.calls (reconcile d r schedule name w).1.calls
  unfolding reconcile
  reconcile-OfRequest w = elim (Reply-cases (S.get_cluster_projection name w.server).0) [
    | inl (e, failed) ↦ rw (failed, reconcile) (Grows-none _ _ _ refl)
    | inr (cp, found) ↦
        let w1 = record w { server = (S.get_cluster_projection name w.server).1 } in
        let named = keeps.got name w.server cp found in
        rw (found, reconcile)
          (Grows-map _ _ (λ c h. (cp, found, named, h)) _ _ (OfServed-found cp w1 named))
  ]
