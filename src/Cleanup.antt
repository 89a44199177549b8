-- ===== src/Cleanup.antt =====
-- internal/controller/cleanup.go: deleting the destinations that a projection owns.
pub mod Attempts
pub mod Calls
pub mod Safety
use projection.Prelude.{
  Bool, true, ◌&&◌, not, Option, none, some, List, [], ◌∷◌, String, ◌<>◌, ◌==◌, contains,
  if◌then◌else◌,
}
use projection.Prelude.Dict.{index}
use projection.Kube.Value.{Fields}
use projection.Kube.Object.{Accessors, annotations_field, name_field, namespace_field}
use projection.Kube.Api.{Projection, ClusterProjection}
use projection.Kube.Server.{Server, Error, ok, err, GroupVersionResource, RestMapper}
use projection.Kube.World.{
  World, Regarding, projection_ref, cluster_projection_ref, event_normal, delete_call, emit, read,
  write,
}
use projection.Source.{resolve_gvr}
use projection.Destination.{
  owned_by_cluster_annotation, destination_coords, cluster_owner_key, owned_by_uid_selector,
  owned_by_cluster_uid_selector, is_owned_by,
}
use projection.Destination.Write.{coordinates}

-- `fmt.Errorf("listing owned destinations: %w", err)`
pub listing_owned : Error → Error
listing_owned e = record {
  is_not_found = e.is_not_found;
  message = "listing owned destinations: " <> e.message;
}

-- `if firstErr == nil { firstErr = err }`
abbrev pub first_error : Option Error → Error → Option Error
first_error none e = some e
first_error (some first) e = some first

module _ {S : Server} (a : Accessors) (regarding : Regarding) (gvr : GroupVersionResource) where
  delete_step : String → String → Option Error → World S → Option Error × World S
  delete_step namespace name first w =
      let (reply, w') =
        write (delete_call gvr namespace name) (S.delete_resource gvr namespace name) w in
      let deleted =
        emit regarding event_normal "DestinationDeleted" "Delete" (coordinates namespace name) w' in
      elim reply [
        | ok _ ↦ (first, deleted)
        | err e ↦ if e.is_not_found then (first, deleted) else (first_error first e, w')
      ]

  -- One round of the loop: an object that `wanted` refuses is passed over.
  delete_candidate : (Fields → Bool) → Fields → Option Error → World S → Option Error × World S
  delete_candidate wanted o first w =
      if wanted o
      then delete_step (a.get_text namespace_field o) (a.get_text name_field o) first w
      else (first, w)

  unfoldable pub delete_each :
      (Fields → Bool) → List Fields → Option Error → World S → Option Error × World S
  unfolding delete_candidate delete_step
  delete_each wanted [] first w = (first, w)
  delete_each wanted (o ∷ os) first w =
      let (first', w') = delete_candidate wanted o first w in delete_each wanted os first' w'

-- `keep == nil`, or the namespace is not in `keep`.
abbrev pub prunes : Option (List String) → String → Bool
prunes none namespace = true
prunes (some keep) namespace = not (contains keep namespace)

abbrev pub is_stale : Accessors → ClusterProjection → Option (List String) → Fields → Bool
is_stale a cp keep o =
    (index (a.get_map annotations_field o) owned_by_cluster_annotation == cluster_owner_key cp)
    && prunes keep (a.get_text namespace_field o)

module _ {S : Server} (a : Accessors) where
  unfoldable pub delete_one_destination :
      Projection → GroupVersionResource → String → String → World S → Option Error × World S
  delete_one_destination proj gvr namespace name w =
      let regarding = projection_ref proj.meta.namespace proj.meta.name in
      let (reply, w') = read (S.get_resource gvr namespace name) w in
      let (reply', w'') =
        write (delete_call gvr namespace name) (S.delete_resource gvr namespace name) w' in
      elim reply [
        | err e ↦ if e.is_not_found then (none, w') else (some e, w')
        | ok existing ↦
            if not (is_owned_by a existing proj)
            then (
              none,
              emit regarding event_normal "DestinationLeftAlone" "Delete"
                  (coordinates namespace name <> " (not owned)") w',
            )
            else elim reply' [
              | err e ↦ if e.is_not_found then (none, w'') else (some e, w'')
              | ok _ ↦ (
                none,
                emit regarding event_normal "DestinationDeleted" "Delete"
                    (coordinates namespace name) w'',
              )
            ]
      ]

  unfoldable pub delete_destination : RestMapper → Projection → World S → Option Error × World S
  delete_destination mapper proj w = elim (resolve_gvr mapper proj.spec.source) [
    | err _ ↦ (none, w)
    | ok (gvr, _) ↦
        delete_one_destination proj gvr (destination_coords proj).0 (destination_coords proj).1 w
  ]

  unfoldable pub delete_all_owned_destinations :
      Projection → GroupVersionResource → World S → Option Error × World S
  delete_all_owned_destinations proj gvr w =
      let (reply, w') = read (S.list_resource gvr (owned_by_uid_selector proj)) w in
      elim reply [
        | err e ↦ (some (listing_owned e), w')
        | ok owned ↦
            delete_each a (projection_ref proj.meta.namespace proj.meta.name) gvr
              (λ o. is_owned_by a o proj) owned none w'
      ]

  unfoldable pub delete_cluster_owned_destinations :
      ClusterProjection
      → GroupVersionResource
      → Option (List String)
      → World S
      → Option Error × World S
  delete_cluster_owned_destinations cp gvr keep w =
      let (reply, w') = read (S.list_resource gvr (owned_by_cluster_uid_selector cp)) w in
      elim reply [
        | err e ↦ (some (listing_owned e), w')
        | ok owned ↦
            delete_each a (cluster_projection_ref cp.meta.name) gvr (is_stale a cp keep) owned none
              w'
      ]

  unfoldable pub delete_all_cluster_owned_destinations :
      ClusterProjection → GroupVersionResource → World S → Option Error × World S
  delete_all_cluster_owned_destinations cp gvr w = delete_cluster_owned_destinations cp gvr none w

  unfoldable pub cleanup_stale_cluster_destinations :
      ClusterProjection → GroupVersionResource → List String → World S → Option Error × World S
  cleanup_stale_cluster_destinations cp gvr current_targets w =
      delete_cluster_owned_destinations cp gvr (some current_targets) w

  unfoldable pub delete_cluster_destination :
      RestMapper → ClusterProjection → World S → Option Error × World S
  delete_cluster_destination mapper cp w = elim (resolve_gvr mapper cp.spec.source) [
    | err _ ↦ (none, w)
    | ok (gvr, _) ↦ delete_all_cluster_owned_destinations cp gvr w
  ]
