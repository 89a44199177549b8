-- ===== src/Tests/Examples.antt =====
-- The theorems on projections at the concrete apiserver and objects.
use projection.Tests.Apiserver.{server}
use projection.Cleanup.Attempts.{attempts}
use projection.Kube.World.{delete_call, projection_status_call, World}
use projection.Source.Policy.{check_projectable-policy}
use projection.Kube.Object.{annotations_field}
use projection.Destination.Drift.{needs_update-HasNoDrift, HasNoDrift}
use projection.Reconcile.Policy.{calls-reconcile_fetched_opted_out}
use projection.Kube.Model.{accessors-IsLawful, accessors}
use projection.Reconcile.{reconcile_fetched, reconcile_finalized}
use projection.Kube.Server.{err}
use projection.Kube.Value.{Fields}
use projection.Source.{
  opted_out_message, source_mode_allowlist, annotation, check_projectable, resolve_gvr,
}
use projection.Destination.Write.{write_destination, projection_tier}
use projection.Destination.Stamp.{projection_stamp}
use projection.Tests.{
  mirrored, vetoed_object, mapper, source_object-HasMetadata, server-ServesObjects,
  helpers-IsDocumented, settings, overlay, missing, source_object, fresh, mirror_projection,
  helpers, dying_projection, config_maps, deps,
}
use projection.Conditions.{all_ready, destination_failed, source_failed}
use projection.Destination.Write.Safety.{write_destination-Permitted, Permitted}
use projection.Destination.Mirror.{build_destination-IsMirror, IsMirror}
use projection.Reconcile.Safety.{reconcile_finalized-Confined, Confined}
use projection.Destination.{
  owner_key, is_owned_by, needs_update, build_destination, destination_coords,
}
use projection.Prelude.{
  ◌≢◌, none, false, ◌⊎◌, ◌↔◌, ◌≤◌, some, ◌+◌, arith, select, refl, map, true, reverse_onto, ◌∷◌, [],
  ◌≡◌, String, List,
}
use projection.Kube.Calls.{Issues, Grows}
use projection.Conditions.Agreement.{reports-Agree, Agree}

write_destination-Permitted_example :
    Issues
      (Permitted accessors
        (projection_tier accessors mirror_projection)
        "tenant"
        "app-config"
        (err missing))
      1
      []
      (write_destination accessors mirror_projection source_object fresh).1.calls
unfolding destination_coords projection.Kube.Object.metadata projection.Kube.Value.get_field
    accessors projection.Kube.Object.metadata_field
write_destination-Permitted_example =
    write_destination-Permitted accessors accessors-IsLawful source_object fresh mirror_projection
      source_object-HasMetadata

reconcile_finalized-Confined_example :
    Grows
      (Confined accessors mirror_projection)
      []
      (reconcile_finalized deps settings mirror_projection fresh).1.calls
reconcile_finalized-Confined_example =
    reconcile_finalized-Confined deps settings accessors-IsLawful mirror_projection fresh
      server-ServesObjects

build_destination-IsMirror_example :
    IsMirror accessors
      (projection_stamp mirror_projection)
      source_object
      overlay
      "tenant"
      "app-config"
      (build_destination accessors source_object mirror_projection "tenant")
unfolding destination_coords
build_destination-IsMirror_example =
    build_destination-IsMirror accessors accessors-IsLawful source_object "tenant" mirror_projection
      source_object-HasMetadata

reports-Agree_example :
    Agree (source_failed helpers "SourceNotFound" "gone" mirror_projection).status.conditions
    × Agree
        (destination_failed helpers "v1" "SourceNotFound" "gone"
          mirror_projection).status.conditions
    × Agree (all_ready helpers "v1" mirror_projection).status.conditions
reports-Agree_example =
    reports-Agree helpers helpers-IsDocumented mirror_projection "v1" "SourceNotFound" "gone"

calls-reconcile_fetched_opted_out_example :
    let deletes =
      (attempts server accessors mirror_projection
        (resolve_gvr mapper mirror_projection.spec.source)
        mirrored.server).0 in
    (reconcile_fetched deps settings mirror_projection config_maps "v1" vetoed_object
      mirrored).1.calls
    ≡ projection_status_call (
        source_failed helpers "SourceOptedOut"
          (opted_out_message accessors vetoed_object)
          mirror_projection)
      ∷ reverse_onto deletes []
unfolding accessors projection.Kube.Object.metadata_field projection.Kube.Object.metadata
    projection.Kube.Value.get_field projection.Prelude.Dict.lookup
calls-reconcile_fetched_opted_out_example =
    calls-reconcile_fetched_opted_out deps settings mirror_projection vetoed_object mirrored
      config_maps "v1" refl

check_projectable-policy_example :
    ((check_projectable accessors source_object settings.source_mode).2 ≡ true) ↔ (
      (annotation (accessors.get_map annotations_field source_object) ≢ some "false")
      × (((settings.source_mode ≢ "") × (settings.source_mode ≢ source_mode_allowlist))
          ⊎ (annotation (accessors.get_map annotations_field source_object) ≡ some "true")))
check_projectable-policy_example =
    check_projectable-policy accessors source_object settings.source_mode

needs_update-HasNoDrift_example :
    (needs_update accessors source_object vetoed_object ≡ false)
    ↔ HasNoDrift accessors source_object vetoed_object
needs_update-HasNoDrift_example = needs_update-HasNoDrift accessors source_object vetoed_object

-- There the cleanup attempts the delete.
attempts_mirrored :
    (attempts server accessors dying_projection
      (resolve_gvr mapper dying_projection.spec.source)
      mirrored.server).0
    ≡ delete_call config_maps "tenant" "app-config" ∷ []
unfolding resolve_gvr is_owned_by owner_key accessors destination_coords
    projection.Kube.Object.metadata projection.Kube.Value.get_field
    projection.Kube.Object.metadata_field projection.Prelude.Dict.index
attempts_mirrored = refl
