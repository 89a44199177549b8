-- ===== src/Cleanup/Safety.antt =====
-- What the cleanup of internal/controller/cleanup.go may delete, and what it must.
use mathlib.Core.List.{Mem}
use projection.Source.{resolve_gvr}
use mathlib.Core.Path.{fun_ext}
use projection.Prelude.Dict.{index}
use projection.Cleanup.Calls.{
  events-delete_each, deleted_event, more_events, calls-delete_each, deletion,
}
use projection.Destination.{
  destination_coords, is_owned_by, cluster_owner_key, owned_by_cluster_annotation,
  owned_by_cluster_uid_selector, is_owned_by_cluster,
}
use projection.Kube.Calls.{
  Issues-one, Issues-none, Issues, Grows-reverse, Grows-none, Reply-cases, Grows,
}
use projection.Cleanup.{
  delete_destination, delete_one_destination, is_stale, delete_cluster_owned_destinations,
  delete_all_cluster_owned_destinations, cleanup_stale_cluster_destinations,
}
use projection.Kube.Value.{Fields}
use projection.Prelude.{
  not, ◌&&◌, [], All-map, Bool-cases, Bool, ap, false, All-map-select, refl, contains, ◌∙◌, inr,
  select, map, inl, eq_iff, reverse_onto, arith, true, some, none, ◌≡◌, String, Option, List,
}
use projection.Kube.World.{delete_call, emit, cluster_projection_ref, World, Call}
use projection.Kube.Api.{Projection, ClusterProjection}
use projection.Kube.Server.{err, RestMapper, ok, Reply, GroupVersionResource, Server}
use projection.Kube.Object.{namespace_field, annotations_field, Accessors}

module _ (S : Server) (a : Accessors) (gvr : GroupVersionResource) (cp : ClusterProjection)
    (state : S.State) where
  -- The object is in the apiserver's reply, in that state, to a list by the label of the cluster
  -- projection's UID, and carries the cluster projection's annotation.
  abbrev pub IsListed : Fields → Type 0
  IsListed o =
      ((owned : List Fields) × ((S.list_resource gvr (owned_by_cluster_uid_selector cp) state).0
          ≡ ok owned)
        × Mem o owned)
      × (index (a.get_map annotations_field o) owned_by_cluster_annotation ≡ cluster_owner_key cp)

  -- The delete of such an object.
  abbrev pub DeletesOwn : Call → Type 0
  DeletesOwn c = (o : Fields) × (c ≡ deletion a gvr o) × IsListed o

  -- The same, where the object's namespace is no target.
  abbrev pub DeletesStale : List String → Call → Type 0
  DeletesStale targets c =
      (o : Fields) × (c ≡ deletion a gvr o)
      × IsListed o
      × (contains targets (a.get_text namespace_field o) ≡ false)

module _ {S : Server} (a : Accessors) (cp : ClusterProjection) (gvr : GroupVersionResource)
    (w : World S) where
  abbrev listed : Reply (List Fields)
  listed = (S.list_resource gvr (owned_by_cluster_uid_selector cp) w.server).0

  calls-listed :
      (keep : Option (List String)) (owned : List Fields)
      → listed ≡ ok owned
      → (delete_cluster_owned_destinations a cp gvr keep w).1.calls
        ≡ reverse_onto (map (deletion a gvr) (select (is_stale a cp keep) owned)) w.calls
  unfolding delete_cluster_owned_destinations
  calls-listed keep owned found =
      rw (found, delete_cluster_owned_destinations)
        (calls-delete_each a (cluster_projection_ref cp.meta.name) gvr (is_stale a cp keep) owned
          none _)

  events-listed :
      (keep : Option (List String)) (owned : List Fields)
      → listed ≡ ok owned
      → (delete_cluster_owned_destinations a cp gvr keep w).0 ≡ none
      → (delete_cluster_owned_destinations a cp gvr keep w).1.events
        ≡ more_events
            (map
              (deleted_event a (cluster_projection_ref cp.meta.name))
              (select (is_stale a cp keep) owned))
            w.events
  unfolding delete_cluster_owned_destinations
  events-listed keep owned found h =
      rw (found, delete_cluster_owned_destinations)
        (events-delete_each a (cluster_projection_ref cp.meta.name) gvr (is_stale a cp keep) owned
          none _ (rw (found, delete_cluster_owned_destinations) at h))

  module _ (P : Call → Type 0) (keep : Option (List String)) where
    Grows-delete :
        ((owned : List Fields)
          → listed ≡ ok owned
          → (o : Fields) → Mem o owned
          → is_stale a cp keep o ≡ true
          → P (deletion a gvr o))
        → Grows P w.calls (delete_cluster_owned_destinations a cp gvr keep w).1.calls
    unfolding delete_cluster_owned_destinations
    Grows-delete h = elim (Reply-cases listed) [
      | inl (e, failed) ↦ Grows-none P _ _ (ground (arith, failed))
      | inr (owned, found) ↦ rw (calls-listed keep owned found) (
          Grows-reverse P _ w.calls (All-map-select P _ (is_stale a cp keep) owned (h owned found)))
    ]

  pub cleanup_stale_cluster_destinations-DeletesStale :
      (current_targets : List String)
      → Grows
          (DeletesStale S a gvr cp w.server current_targets)
          w.calls
          (cleanup_stale_cluster_destinations a cp gvr current_targets w).1.calls
  unfolding cleanup_stale_cluster_destinations
  cleanup_stale_cluster_destinations-DeletesStale current_targets =
      Grows-delete _ (some current_targets) λ owned found o there stale. (
        o,
        refl,
        (
          (owned, found, there),
          ground (
            arith,
            stale,
            eq_iff (index (a.get_map annotations_field o) owned_by_cluster_annotation)
                (cluster_owner_key cp),
          ),
        ),
        ground (arith, stale),
      )

  -- The calls of a sweep of the list's reply: where the list succeeds, the deletes of the objects that
  -- carry the annotation outside the targets; where it fails, none.
  abbrev pub swept : List String → Reply (List Fields) → List Call
  swept current_targets (err e) = []
  swept current_targets (ok owned) = map (deletion a gvr) (
      select
        (λ o.
          is_owned_by_cluster a o cp
          && not (contains current_targets (a.get_text namespace_field o)))
        owned)

  -- The sweep lists by the label of the cluster projection's UID, and attempts the delete of exactly
  -- those objects of the reply that carry the cluster projection's annotation and lie in a namespace
  -- that is no current target, each once, in the order of the list and whatever errors come between.
  -- Where the list fails, nothing is written.
  pub calls-cleanup_stale_cluster_destinations :
      (current_targets : List String)
      → (cleanup_stale_cluster_destinations a cp gvr current_targets w).1.calls
        ≡ reverse_onto
            (swept current_targets
              (S.list_resource gvr (owned_by_cluster_uid_selector cp) w.server).0)
            w.calls
  unfolding cleanup_stale_cluster_destinations delete_cluster_owned_destinations is_owned_by_cluster
  calls-cleanup_stale_cluster_destinations current_targets = elim (Reply-cases listed) [
    | inl (e, failed) ↦ rw (failed, delete_cluster_owned_destinations) refl
    | inr (owned, found) ↦ rw found (calls-listed (some current_targets) owned found)
  ]

  pub delete_all_cluster_owned_destinations-DeletesOwn :
      Grows
        (DeletesOwn S a gvr cp w.server)
        w.calls
        (delete_all_cluster_owned_destinations a cp gvr w).1.calls
  unfolding delete_all_cluster_owned_destinations
  delete_all_cluster_owned_destinations-DeletesOwn =
      Grows-delete _ none λ owned found o there stale. (
        o,
        refl,
        (
          (owned, found, there),
          ground (
            arith,
            stale,
            eq_iff (index (a.get_map annotations_field o) owned_by_cluster_annotation)
                (cluster_owner_key cp),
          ),
        ),
      )

  pub is_stale-none : (o : Fields) → is_stale a cp none o ≡ is_owned_by_cluster a o cp
  unfolding is_owned_by_cluster
  is_stale-none o = ground arith

  -- The finalizer's cleanup attempts every listed object that carries the cluster projection's
  -- annotation, each once, in the order of the list and whatever errors come between.
  pub calls-delete_all_cluster_owned_destinations :
      (owned : List Fields)
      → listed ≡ ok owned
      → (delete_all_cluster_owned_destinations a cp gvr w).1.calls
        ≡ reverse_onto
            (map (deletion a gvr) (select (λ o. is_owned_by_cluster a o cp) owned))
            w.calls
  unfolding delete_all_cluster_owned_destinations
  calls-delete_all_cluster_owned_destinations owned found =
      calls-listed none owned found
      ∙ ap (λ (p : Fields → Bool). reverse_onto (map (deletion a gvr) (select p owned)) w.calls)
          (fun_ext is_stale-none)

  -- Where that cleanup returns no error, each of those objects has its `DestinationDeleted` event.
  events-delete_all_cluster_owned_destinations :
      (owned : List Fields)
      → listed ≡ ok owned
      → (delete_all_cluster_owned_destinations a cp gvr w).0 ≡ none
      → (delete_all_cluster_owned_destinations a cp gvr w).1.events
        ≡ more_events
            (map
              (deleted_event a (cluster_projection_ref cp.meta.name))
              (select (λ o. is_owned_by_cluster a o cp) owned))
            w.events
  unfolding delete_all_cluster_owned_destinations
  events-delete_all_cluster_owned_destinations owned found h =
      events-listed none owned found h
      ∙ ap
          (λ (p : Fields → Bool).
            more_events
              (map (deleted_event a (cluster_projection_ref cp.meta.name)) (select p owned))
              w.events)
          (fun_ext is_stale-none)

module _ {S : Server} (a : Accessors) (proj : Projection) (w : World S) where
  -- `deleteOneDestination` deletes at most once, at the coordinates that it was given, and only after
  -- a read that found an object there which the projection owns.
  pub delete_one_destination-DeletesOwned :
      (gvr : GroupVersionResource) (namespace name : String)
      → Issues
          (λ c.
            (c ≡ delete_call gvr namespace name)
            × ((existing : Fields) × ((S.get_resource gvr namespace name w.server).0 ≡ ok existing)
                × (is_owned_by a existing proj ≡ true)))
          1
          w.calls
          (delete_one_destination a proj gvr namespace name w).1.calls
  unfolding delete_one_destination emit
  delete_one_destination-DeletesOwned gvr namespace name =
      elim (Reply-cases (S.get_resource gvr namespace name w.server).0) [
        | inl (e, failed) ↦ Issues-none _ w.calls _ 1 (ground (arith, failed))
        | inr (existing, found) ↦ elim (Bool-cases (is_owned_by a existing proj)) [
          | inr foreign ↦ Issues-none _ w.calls _ 1 (ground (arith, found, foreign))
          | inl ours ↦
              Issues-one _ w.calls _ (delete_call gvr namespace name)
                (refl, (existing, found, ours)) (ground (arith, found, ours))
        ]
      ]

-- A delete at the coordinates of the projection's destination.
abbrev pub DeletesDestination : Projection → Call → Type 0
DeletesDestination proj c =
    (gvr : GroupVersionResource) × (c
      ≡ delete_call gvr (destination_coords proj).0 (destination_coords proj).1)

pub delete_destination-DeletesDestination :
    {S : Server} (a : Accessors) (mapper : RestMapper) (proj : Projection) (w : World S)
    → Grows (DeletesDestination proj) w.calls (delete_destination a mapper proj w).1.calls
unfolding delete_destination
delete_destination-DeletesDestination a mapper proj w =
    elim (Reply-cases (resolve_gvr mapper proj.spec.source)) [
      | inl (e, failed) ↦ Grows-none _ _ _ (ground (arith, failed))
      | inr ((gvr, version), found) ↦
          let (new, e, _, all) =
            delete_one_destination-DeletesOwned a proj w gvr (destination_coords proj).0
              (destination_coords proj).1 in
          rw (found, delete_destination)
            (new, e, All-map _ _ (λ c (is_delete, _). (gvr, is_delete)) new all)
    ]
