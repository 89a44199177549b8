-- ===== src/Destination/Write.antt =====
-- internal/controller/destination.go: `writeDestination` and `writeClusterDestination`. The two have
-- one body, over what differs between the tiers.
pub mod Sent
pub mod Safety
pub mod Drift
pub mod Isolation
use projection.Prelude.{Bool, true, false, not, String, ◌<>◌, if◌then◌else◌}
use projection.Kube.Value.{Fields}
use projection.Kube.Object.{Accessors, name_field, namespace_field, resource_version_field}
use projection.Kube.Api.{SourceRef, Projection, ClusterProjection}
use projection.Kube.Server.{Server, Error, Reply, ok, err}
use projection.Kube.World.{
  World, Regarding, projection_ref, cluster_projection_ref, event_normal, event_warning,
  create_call, update_call, Kind, kind_projection, kind_cluster_projection, emit, observe_latency,
  read, write,
}
use projection.Destination.{
  destination_coords, build_destination, build_cluster_destination, is_owned_by,
  is_owned_by_cluster, preserve_api_server_allocated_fields, needs_update,
}

-- What differs between the two: the object of the events, the metric's label, the name of the
-- owner's type, the test of ownership, and whether a failure's event names the destination.
pub record Tier : Type 0 where
  pub regarding : Regarding
  pub kind : Kind
  pub type_name : String
  pub owns : Fields → Bool
  pub names_destination : Bool
  pub source : SourceRef

abbrev pub Failure : Type 0
Failure = String × String

abbrev pub no_failure : Failure
no_failure = ("", "")

abbrev pub coordinates : String → String → String
coordinates namespace name = namespace <> ("/" <> name)

abbrev failure_note : Tier → String → String → String → String
failure_note tier namespace name message =
    if tier.names_destination then coordinates namespace name <> (": " <> message) else message

module _ (a : Accessors) (tier : Tier) where
  -- `projected GVK ns/name to ns/name`, and the same for an update.
  abbrev written_note : String → Fields → Fields → String
  written_note verb source dst =
      verb
      <> (" "
          <> (a.describe (a.group_version_kind source)
              <> (" "
                  <> (coordinates tier.source.namespace tier.source.name
                      <> (" to "
                          <> coordinates (a.get_text namespace_field dst)
                              (a.get_text name_field dst))))))

module _ {S : Server} (a : Accessors) (tier : Tier) where
  abbrev warn : String → String → String → World S → Failure × World S
  warn reason action message w =
      ((reason, message), emit tier.regarding event_warning reason action message w)

  -- A refused request: the event, and the reason with the error's text.
  abbrev refused : String → String → String → String → Error → World S → Failure × World S
  refused reason action namespace name e w = (
    (reason, e.message),
    emit tier.regarding event_warning reason action (failure_note tier namespace name e.message) w,
  )

  -- The object was not there.
  create_destination : Fields → Fields → World S → Failure × World S
  create_destination source dst w =
      let (reply, w') = write (create_call dst) (S.create dst) w in
      elim reply [
        | err e ↦
            refused "DestinationCreateFailed" "Create" (a.get_text namespace_field dst)
              (a.get_text name_field dst) e w'
        | ok created ↦ (
          no_failure,
          emit tier.regarding event_normal "Projected" "Create"
              (written_note a tier "projected" source created) (observe_latency tier.kind w'),
        )
      ]

  -- It is there and ours, and differs from what is wanted.
  update_destination : Fields → Fields → World S → Failure × World S
  update_destination source dst w =
      let (reply, w') = write (update_call dst) (S.update dst) w in
      elim reply [
        | err e ↦
            refused "DestinationUpdateFailed" "Update" (a.get_text namespace_field dst)
              (a.get_text name_field dst) e w'
        | ok updated ↦ (
          no_failure,
          emit tier.regarding event_normal "Updated" "Update"
              (written_note a tier "updated" source updated) w',
        )
      ]

  -- It is there. `dst` is what is wanted, before the apiserver's own fields are carried over.
  reconcile_existing : Fields → Fields → Fields → World S → Failure × World S
  reconcile_existing source dst existing w =
      let namespace = a.get_text namespace_field dst in
      let name = a.get_text name_field dst in
      let dst' = preserve_api_server_allocated_fields a existing dst in
      if not (tier.owns existing)
      then warn "DestinationConflict" "Validate"
          ("destination "
            <> (coordinates namespace name
                <> (" exists and is not owned by this " <> tier.type_name)))
          w
      else if not (needs_update a existing dst')
      then (no_failure, w)
      else update_destination source
          (a.set_text resource_version_field (a.get_text resource_version_field existing) dst') w

  -- The read of the destination.
  unfoldable pub get_destination : Fields → Fields → World S → Reply Fields × World S
  get_destination source dst w =
      let namespace = a.get_text namespace_field dst in
      let name = a.get_text name_field dst in
      read (S.get (a.group_version_kind source) namespace name) w

  -- What follows the read.
  pub after_get : Fields → Fields → Reply Fields → World S → Failure × World S
  unfolding create_destination reconcile_existing
  after_get source dst (ok existing) w = reconcile_existing source dst existing w
  after_get source dst (err e) w =
      if e.is_not_found
      then create_destination source dst w
      else refused "DestinationFetchFailed" "Get" (a.get_text namespace_field dst)
          (a.get_text name_field dst) e w

  pub write_owned : Fields → Fields → World S → Failure × World S
  unfolding create_destination update_destination reconcile_existing after_get get_destination
  write_owned source dst w =
      let (reply, w') = get_destination source dst w in after_get source dst reply w'

abbrev pub projection_tier : Accessors → Projection → Tier
projection_tier a proj = record {
  regarding = projection_ref proj.meta.namespace proj.meta.name;
  kind = kind_projection;
  type_name = "Projection";
  owns = λ o. is_owned_by a o proj;
  names_destination = false;
  source = proj.spec.source;
}

abbrev pub cluster_projection_tier : Accessors → ClusterProjection → Tier
cluster_projection_tier a cp = record {
  regarding = cluster_projection_ref cp.meta.name;
  kind = kind_cluster_projection;
  type_name = "ClusterProjection";
  owns = λ o. is_owned_by_cluster a o cp;
  names_destination = true;
  source = cp.spec.source;
}

module _ {S : Server} (a : Accessors) where
  -- Reason and message of a failure; the reason is empty on success.
  pub write_destination : Projection → Fields → World S → Failure × World S
  write_destination proj source w =
      write_owned a (projection_tier a proj) source
        (build_destination a source proj (destination_coords proj).0) w

  pub write_cluster_destination : ClusterProjection → Fields → String → World S → Failure × World S
  write_cluster_destination cp source target_namespace w =
      write_owned a (cluster_projection_tier a cp) source
        (build_cluster_destination a source cp target_namespace) w
