-- ===== src/Cleanup/Attempts.antt =====
-- What a cleanup of internal/controller/cleanup.go comes to: the deletes that it attempts and the
-- error that it returns, as the apiserver's replies decide them.
use mathlib.Core.Path.{fun_ext}
use projection.Cleanup.Safety.{calls-delete_all_cluster_owned_destinations, is_stale-none}
use projection.Cleanup.Calls.{deletion}
use projection.Kube.Calls.{Reply-cases}
use projection.Destination.{
  is_owned_by_cluster, owned_by_cluster_uid_selector, is_owned_by, destination_coords,
}
use projection.Source.{resolve_gvr}
use projection.Kube.Value.{Fields}
use projection.Cleanup.{
  delete_cluster_owned_destinations, is_stale, delete_cluster_destination,
  delete_all_cluster_owned_destinations, listing_owned, delete_step, delete_one_destination,
  delete_destination, delete_candidate, delete_each,
}
use projection.Kube.World.{delete_call, cluster_projection_ref, emit, Call, World}
use projection.Kube.Api.{Projection, ClusterProjection}
use projection.Prelude.{
  ap, ◌∙◌, map, inr, refl, inl, Bool-cases, select, arith, some, reverse_onto, ◌≡◌, if◌then◌else◌,
  [], Bool, ◌∷◌, none, String, List, Option,
}
use projection.Kube.Object.{name_field, namespace_field, Accessors}
use projection.Kube.Server.{err, RestMapper, ok, GroupVersionResource, Error, Server, Reply}

-- The error of a reply to a read or a delete, where nothing found is no error.
abbrev pub refusal {ℓ} : {A : Type ℓ} → Reply A → Option Error
refusal (ok x) = none
refusal (err e) = if e.is_not_found then none else some e

module _ (S : Server) (a : Accessors) (proj : Projection) where
  -- After the read at the coordinates, in the state that it left.
  abbrev pub attempt :
      GroupVersionResource → String → String → S.State → Reply Fields → List Call × Option Error
  attempt gvr namespace name state (err e) = ([], refusal {A = Fields} (err e))
  attempt gvr namespace name state (ok existing) =
      if is_owned_by a existing proj
      then (
        delete_call gvr namespace name ∷ [],
        refusal (S.delete_resource gvr namespace name state).0,
      )
      else ([], none)

  -- At the coordinates of the projection's destination, where its kind is known to the API.
  abbrev pub attempts : Reply (GroupVersionResource × String) → S.State → List Call × Option Error
  attempts (err e) state = ([], none)
  attempts (ok (gvr, version)) state =
      let (namespace, name) = destination_coords proj in
      let (reply, state') = S.get_resource gvr namespace name state in
      attempt gvr namespace name state' reply

module _ {S : Server} (a : Accessors) (proj : Projection) (w : World S) where
  attempt-delete_one_destination :
      (gvr : GroupVersionResource) (namespace name : String)
      → let (reply, state) = S.get_resource gvr namespace name w.server in
        let (calls, failed) = attempt S a proj gvr namespace name state reply in
        ((delete_one_destination a proj gvr namespace name w).1.calls ≡ reverse_onto calls w.calls)
        × ((delete_one_destination a proj gvr namespace name w).0 ≡ failed)
  unfolding delete_one_destination emit
  attempt-delete_one_destination gvr namespace name =
      let (reply, state) = S.get_resource gvr namespace name w.server in
      elim (Reply-cases reply) [
        | inl (e, failed) ↦ (ground (arith, failed), ground (arith, failed))
        | inr (existing, found) ↦ elim (Bool-cases (is_owned_by a existing proj)) [
          | inr foreign ↦ (ground (arith, found, foreign), ground (arith, found, foreign))
          | inl ours ↦ elim (Reply-cases (S.delete_resource gvr namespace name state).0) [
            | inl (e, failed) ↦
                (ground (arith, found, ours, failed), ground (arith, found, ours, failed))
            | inr (x, deleted) ↦
                (ground (arith, found, ours, deleted), ground (arith, found, ours, deleted))
          ]
        ]
      ]

  pub attempts-delete_destination :
      (mapper : RestMapper)
      → let (calls, failed) = attempts S a proj (resolve_gvr mapper proj.spec.source) w.server in
        ((delete_destination a mapper proj w).1.calls ≡ reverse_onto calls w.calls)
        × ((delete_destination a mapper proj w).0 ≡ failed)
  unfolding delete_destination
  attempts-delete_destination mapper = elim (Reply-cases (resolve_gvr mapper proj.spec.source)) [
    | inl (e, failed) ↦ rw (failed, delete_destination) (refl, refl)
    | inr ((gvr, version), found) ↦
        rw (found, delete_destination)
          (attempt-delete_one_destination gvr (destination_coords proj).0
            (destination_coords proj).1)
  ]

module _ (S : Server) (a : Accessors) (gvr : GroupVersionResource) where
  -- The first error of the deletes of objects, each in the state that the one before it left.
  abbrev pub delete_error : List Fields → S.State → Option Error
  delete_error [] state = none
  delete_error (o ∷ os) state =
      let (reply, state') =
        S.delete_resource gvr (a.get_text namespace_field o) (a.get_text name_field o) state in
      elim (refusal reply) [ some e ↦ some e | none ↦ delete_error os state' ]

  -- After the list, in the state that it left.
  abbrev pub cluster_attempt :
      ClusterProjection → S.State → Reply (List Fields) → List Call × Option Error
  cluster_attempt cp state (err e) = ([], some (listing_owned e))
  cluster_attempt cp state (ok owned) =
      let ours = select (λ o. is_owned_by_cluster a o cp) owned in
      (map (deletion a gvr) ours, delete_error ours state)

-- Of the objects that the apiserver lists by the label of the cluster projection's UID, where their
-- kind is known to the API.
module _ (S : Server) (a : Accessors) (cp : ClusterProjection) where
  abbrev pub cluster_attempts :
      Reply (GroupVersionResource × String) → S.State → List Call × Option Error
  cluster_attempts (err e) state = ([], none)
  cluster_attempts (ok (gvr, version)) state =
      let (reply, state') = S.list_resource gvr (owned_by_cluster_uid_selector cp) state in
      cluster_attempt S a gvr cp state' reply

module _ {S : Server} (a : Accessors) (cp : ClusterProjection) (gvr : GroupVersionResource) where
  first_error-delete_each :
      (wanted : Fields → Bool) (os : List Fields) (e : Error) (w : World S)
      → (delete_each a (cluster_projection_ref cp.meta.name) gvr wanted os (some e) w).0 ≡ some e
  unfolding delete_each delete_candidate delete_step
  first_error-delete_each wanted [] e w = refl
  first_error-delete_each wanted (o ∷ os) e w =
      let next = delete_candidate a (cluster_projection_ref cp.meta.name) gvr wanted o (some e) w in
      ground (arith, first_error-delete_each wanted os e next.1)

  delete_error-delete_each :
      (wanted : Fields → Bool) (os : List Fields) (w : World S)
      → (delete_each a (cluster_projection_ref cp.meta.name) gvr wanted os none w).0
        ≡ delete_error S a gvr (select wanted os) w.server
  unfolding delete_each delete_candidate delete_step emit
  delete_error-delete_each wanted [] w = refl
  delete_error-delete_each wanted (o ∷ os) w =
      let next = delete_candidate a (cluster_projection_ref cp.meta.name) gvr wanted o none w in
      elim (Bool-cases (wanted o)) [
        | inr kept ↦ ground (arith, kept, delete_error-delete_each wanted os next.1)
        | inl chosen ↦
            elim (Reply-cases
              (S.delete_resource gvr (a.get_text namespace_field o) (a.get_text name_field o)
                w.server).0) [
                  | inr (x, deleted) ↦
                      ground (arith, chosen, deleted, delete_error-delete_each wanted os next.1)
                  | inl (e, failed) ↦ elim (Bool-cases e.is_not_found) [
                    | inl gone ↦
                        ground
                          (arith, chosen, failed, gone, delete_error-delete_each wanted os next.1)
                    | inr refused ↦
                        ground (
                          arith,
                          chosen,
                          failed,
                          refused,
                          first_error-delete_each wanted os e next.1,
                        )
                  ]
                ]
      ]

module _ {S : Server} (a : Accessors) (cp : ClusterProjection) (w : World S) where
  pub cluster_attempt-delete_all :
      (gvr : GroupVersionResource)
      → let (reply, state) = S.list_resource gvr (owned_by_cluster_uid_selector cp) w.server in
        let (calls, failed) = cluster_attempt S a gvr cp state reply in
        ((delete_all_cluster_owned_destinations a cp gvr w).1.calls ≡ reverse_onto calls w.calls)
        × ((delete_all_cluster_owned_destinations a cp gvr w).0 ≡ failed)
  unfolding delete_all_cluster_owned_destinations delete_cluster_owned_destinations
  cluster_attempt-delete_all gvr =
      let (reply, state) = S.list_resource gvr (owned_by_cluster_uid_selector cp) w.server in
      elim (Reply-cases reply) [
        | inl (e, failed) ↦ (
          rw (failed, delete_cluster_owned_destinations) refl,
          rw (failed, delete_cluster_owned_destinations) refl,
        )
        | inr (owned, found) ↦ (
          rw found (calls-delete_all_cluster_owned_destinations a cp gvr w owned found),
          rw (found, delete_cluster_owned_destinations)
              (delete_error-delete_each a cp gvr (is_stale a cp none) owned
                  (record w { server = state })
                ∙ ap (λ (p : Fields → Bool). delete_error S a gvr (select p owned) state)
                    (fun_ext (is_stale-none a cp gvr w))),
        )
      ]

  pub attempts-delete_cluster_destination :
      (mapper : RestMapper)
      → let (calls, failed) =
          cluster_attempts S a cp (resolve_gvr mapper cp.spec.source) w.server in
        ((delete_cluster_destination a mapper cp w).1.calls ≡ reverse_onto calls w.calls)
        × ((delete_cluster_destination a mapper cp w).0 ≡ failed)
  unfolding delete_cluster_destination
  attempts-delete_cluster_destination mapper =
      elim (Reply-cases (resolve_gvr mapper cp.spec.source)) [
        | inl (e, failed) ↦ rw (failed, delete_cluster_destination) (refl, refl)
        | inr ((gvr, version), found) ↦
            rw (found, delete_cluster_destination) (cluster_attempt-delete_all gvr)
      ]
