-- ===== src/Reconcile/Whole.antt =====
-- A whole reconcile of internal/controller/projection_controller.go, from the request on.
use projection.Cleanup.Safety.{delete_destination-DeletesDestination}
use projection.Cleanup.{delete_destination}
use mathlib.Core.Path.{subst₂}
use projection.Kube.Calls.{Grows-trans, Grows-one, Grows-none, Reply-cases, Grows-map, Grows}
use projection.Reconcile.{reconcile_finalized, reconcile_found, reconcile_alive, reconcile}
use projection.Reconcile.Calls.{ServesObjects}
use projection.Conditions.{Settings}
use projection.Reconcile.Safety.{reconcile_finalized-Confined, Confined}
use projection.Kube.World.{
  cluster_projection_status_call, cluster_projection_call, projection_status_call, projection_call,
  delete_call, World, update_call, create_call, Call,
}
use projection.Prelude.{
  false, true, none, arith, Option-cases, Bool-cases, sym, ◌∷◌, subst, refl, inr, inl, ap, ◌≡◌,
  String,
}
use projection.Kube.Api.{ObjectMeta, Projection}
use projection.Finalizer.{
  finalizer_name, with_finalizers, remove_projection_finalizer, handle_deletion, ensure_finalizer,
  Deps,
}
use projection.Kube.Server.{ok, Server}
use projection.Kube.Object.{namespace_field, IsLawful, Accessors}

-- What the apiserver returns for a projection is that projection: its namespace and name do not change.
pub record KeepsIdentity (S : Server) : Type 0 where
  pub got :
      (namespace name : String) (state : S.State) (p : Projection)
      → (S.get_projection namespace name state).0 ≡ ok p
      → (p.meta.namespace ≡ namespace) × (p.meta.name ≡ name)
  pub updated :
      (q : Projection) (state : S.State) (p : Projection)
      → (S.update_projection q state).0 ≡ ok p
      → (p.meta.namespace ≡ q.meta.namespace) × (p.meta.name ≡ q.meta.name)

-- Creates and updates stay in the namespace, and the projection that is written is the one with the name.
abbrev pub InNamespace : Accessors → String → String → Call → Type 0
InNamespace a namespace name (create_call o) = a.get_text namespace_field o ≡ namespace
InNamespace a namespace name (update_call o) = a.get_text namespace_field o ≡ namespace
InNamespace a namespace name (delete_call gvr ns n) = Unit
InNamespace a namespace name (projection_call p) =
    (p.meta.namespace ≡ namespace) × (p.meta.name ≡ name)
InNamespace a namespace name (projection_status_call p) =
    (p.meta.namespace ≡ namespace) × (p.meta.name ≡ name)
InNamespace a namespace name (cluster_projection_call p) = ⊥
InNamespace a namespace name (cluster_projection_status_call p) = ⊥

InNamespace-Confined :
    (a : Accessors) (proj : Projection) (c : Call)
    → Confined a proj c
    → InNamespace a proj.meta.namespace proj.meta.name c
InNamespace-Confined a proj (create_call o) (ns, _) = ns
InNamespace-Confined a proj (update_call o) (ns, _) = ns
InNamespace-Confined a proj (delete_call gvr ns n) h = tt
InNamespace-Confined a proj (projection_call p) bad = absurd bad
InNamespace-Confined a proj (projection_status_call p) (meta, _) =
    (ap (λ (m : ObjectMeta). m.namespace) meta, ap (λ (m : ObjectMeta). m.name) meta)
InNamespace-Confined a proj (cluster_projection_call p) bad = absurd bad
InNamespace-Confined a proj (cluster_projection_status_call p) bad = absurd bad

module _ {S : Server} (d : Deps) (law : IsLawful d.accessors) (r : Settings)
    (serves : ServesObjects S) (keeps : KeepsIdentity S) where
  abbrev Written : String → String → World S → World S → Type 0
  Written namespace name w v = Grows (InNamespace d.accessors namespace name) w.calls v.calls

  InNamespace-finalized :
      (proj : Projection) (w : World S)
      → Written proj.meta.namespace proj.meta.name w (reconcile_finalized d r proj w).1
  InNamespace-finalized proj w =
      Grows-map _ _ (InNamespace-Confined d.accessors proj) _ _
        (reconcile_finalized-Confined d r law proj w serves)

  ensure_finalizer_held :
      (proj : Projection) (w : World S)
      → d.helpers.contains_finalizer proj.meta.finalizers finalizer_name ≡ true
      → ensure_finalizer d proj w ≡ (ok proj, w)
  unfolding ensure_finalizer
  ensure_finalizer_held proj w held = ground (arith, held)

  ensure_finalizer_missing :
      (proj : Projection) (w : World S)
      → d.helpers.contains_finalizer proj.meta.finalizers finalizer_name ≡ false
      → let added =
          with_finalizers proj (d.helpers.add_finalizer proj.meta.finalizers finalizer_name) in
        ensure_finalizer d proj w ≡ (
          (S.update_projection added w.server).0,
          record w {
            server = (S.update_projection added w.server).1;
            calls = projection_call added ∷ w.calls;
          },
        )
  unfolding ensure_finalizer
  ensure_finalizer_missing proj w missing = rw missing refl

  handle_deletion_living :
      (proj : Projection) (w : World S)
      → proj.meta.deletion_timestamp ≡ none
      → handle_deletion d proj w ≡ ((false, none), w)
  unfolding handle_deletion
  handle_deletion_living proj w living = ground (arith, living)

  InNamespace-alive :
      (proj : Projection) (w : World S)
      → Written proj.meta.namespace proj.meta.name w (reconcile_alive d r proj w).1
  unfolding reconcile_alive
  InNamespace-alive proj w =
      let added =
        with_finalizers proj (d.helpers.add_finalizer proj.meta.finalizers finalizer_name) in
      let reply = S.update_projection added w.server in
      let w1 = record w { server = reply.1; calls = projection_call added ∷ w.calls } in
      let one =
        Grows-one (InNamespace d.accessors proj.meta.namespace proj.meta.name) w.calls w1.calls
          (projection_call added) (refl, refl) refl in
      elim (Bool-cases (d.helpers.contains_finalizer proj.meta.finalizers finalizer_name)) [
        | inl held ↦
            rw
              (
                ensure_finalizer_held proj w held,
                reconcile_alive,
                ensure_finalizer_held proj w held,
              )
              (InNamespace-finalized proj w)
        | inr missing ↦
            let absent = ensure_finalizer_missing proj w missing in
            elim (Reply-cases reply.0) [
              | inl (e, failed) ↦ rw (absent, reconcile_alive, failed, absent) one
              | inr (p, stored) ↦
                  let (ns, n) = keeps.updated added w.server p stored in
                  rw (absent, reconcile_alive, stored, absent)
                    (Grows-trans _ w.calls w1.calls _ one (
                      subst₂ (λ (x y : String). Written x y w1 (reconcile_finalized d r p w1).1) ns
                        n (InNamespace-finalized p w1)))
            ]
      ]

  InNamespace-found :
      (proj : Projection) (w : World S)
      → Written proj.meta.namespace proj.meta.name w (reconcile_found d r proj w).1
  unfolding reconcile_found handle_deletion remove_projection_finalizer
  InNamespace-found proj w =
      let cleanup = delete_destination d.accessors d.mapper proj w in
      let cleaned =
        Grows-map _ (InNamespace d.accessors proj.meta.namespace proj.meta.name)
          (λ c (gvr, is_delete).
            subst (InNamespace d.accessors proj.meta.namespace proj.meta.name) (sym is_delete) tt)
          _ _ (delete_destination-DeletesDestination d.accessors d.mapper proj w) in
      elim (Option-cases proj.meta.deletion_timestamp) [
        | inl living ↦
            rw (handle_deletion_living proj w living, reconcile_found) (InNamespace-alive proj w)
        | inr (t, dying) ↦
            elim (Bool-cases (d.helpers.contains_finalizer proj.meta.finalizers finalizer_name)) [
              | inr free ↦ Grows-none _ _ _ (ground (arith, dying, free))
              | inl held ↦ elim (Option-cases cleanup.0) [
                | inr (e, failed) ↦
                    Grows-trans _ w.calls cleanup.1.calls _ cleaned
                      (Grows-none _ _ _ (ground (arith, dying, held, failed)))
                | inl clean ↦ Grows-trans _ w.calls cleanup.1.calls _ cleaned (
                    Grows-one _ _ _
                      (projection_call (
                        with_finalizers proj
                          (d.helpers.remove_finalizer proj.meta.finalizers finalizer_name)))
                      (refl, refl) (ground (arith, dying, held, clean)))
              ]
            ]
      ]

  -- A reconcile of a request, from its first read on and on every branch, creates and updates no
  -- object outside the request's namespace, and the only projection that it writes is the one that the
  -- request names: for an apiserver that returns objects with metadata, and projections under the
  -- namespace and the name that they were asked for.
  pub reconcile-InNamespace :
      (namespace name : String) (w : World S)
      → Grows
          (InNamespace d.accessors namespace name)
          w.calls
          (reconcile d r namespace name w).1.calls
  unfolding reconcile
  reconcile-InNamespace namespace name w =
      elim (Reply-cases (S.get_projection namespace name w.server).0) [
        | inl (e, failed) ↦ rw (failed, reconcile) (Grows-none _ _ _ refl)
        | inr (proj, found) ↦
            let (ns, n) = keeps.got namespace name w.server proj found in
            let w1 = record w { server = (S.get_projection namespace name w.server).1 } in
            rw (found, reconcile)
              (subst₂ (λ (x y : String). Written x y w1 (reconcile_found d r proj w1).1) ns n
                (InNamespace-found proj w1))
      ]
