-- ===== src/Tests/WriteExamples.antt =====
-- The theorems on repeated writes, at the concrete apiserver.
use projection.Prelude.{◌⊎◌, ◌∷◌, false, [], ◌≡◌, refl}
use projection.Kube.World.{update_call, create_call, World}
use projection.Kube.Api.{Projection}
use projection.Destination.Drift.{needs_update-HasNoDrift, HasNoDrift}
use projection.Destination.{
  preserve_api_server_allocated_fields, is_owned_by, build_destination, build_destination_core,
  stripped, strip_metadata, remove_nested_fields, dropped_spec_fields_by_gvk, owner_key,
  needs_update, destination_coords, differs,
}
use projection.Destination.Write.Drift.{write_destination-settles, write_owned-HasNoDrift}
use projection.Destination.Write.{no_failure, write_destination, write_owned, projection_tier}
use projection.Kube.Model.{accessors, accessors-IsLawful}
use projection.Kube.Object.{resource_version_field, metadata, metadata_field, HasMetadata}
use projection.Kube.Diff.{deep_equal, maps_equal, dict_within}
use projection.Kube.Value.{
  field, obj, str, end, Fields, get_field, set_field, delete_field, delete_fields,
}
use projection.Prelude.Dict.{index, insert, merge, lookup, erase, erase_all}
use projection.Tests.{server, mirror_projection, missing, world_of}

abbrev plain_object : Fields
plain_object =
    field "apiVersion" (str "v1")
      (field "kind" (str "Secret") (field "metadata" (obj (field "name" (str "token") end)) end))

abbrev plain_projection : Projection
plain_projection = record mirror_projection {
  spec = record mirror_projection.spec {
    source = record mirror_projection.spec.source { kind = "Secret"; name = "token" };
    overlay = record { labels = []; annotations = [] };
  };
}

plain_object-HasMetadata : HasMetadata plain_object
unfolding metadata get_field
plain_object-HasMetadata = (field "name" (str "token") end, refl)

abbrev start : World server
start = world_of (record { objects = []; is_down = false })

abbrev copy : Fields
copy = field "apiVersion" (str "v1") (
    field "kind" (str "Secret") (
      field "metadata"
        (obj (
          field "name" (str "token") (
            field "annotations"
              (obj (field "projection.sh/owned-by-projection" (str "tenant/mirror") end))
              (field "labels" (obj (field "projection.sh/owned-by-projection-uid" (str "u-2") end))
                (field "namespace" (str "tenant") end)))))
        end))

copy-built : build_destination accessors plain_object plain_projection "tenant" ≡ copy
unfolding build_destination build_destination_core stripped strip_metadata remove_nested_fields
    dropped_spec_fields_by_gvk owner_key accessors metadata metadata_field get_field set_field
    delete_field delete_fields insert merge lookup erase erase_all
copy-built = refl

copy-HasNoDrift : HasNoDrift accessors copy copy
unfolding needs_update accessors metadata metadata_field get_field maps_equal dict_within lookup
    differs deep_equal
copy-HasNoDrift = (needs_update-HasNoDrift accessors copy copy).0 refl

abbrev once : World server
once = (write_destination accessors plain_projection plain_object start).1

write_destination-settles_example :
    (once.calls
      ≡ create_call (build_destination accessors plain_object plain_projection "tenant") ∷ [])
    × ((write_destination accessors plain_projection plain_object once).0 ≡ no_failure
        × ((write_destination accessors plain_projection plain_object once).1.calls ≡ once.calls))
unfolding destination_coords build_destination build_destination_core stripped strip_metadata
    remove_nested_fields dropped_spec_fields_by_gvk owner_key accessors metadata metadata_field
    get_field set_field delete_field delete_fields insert merge lookup erase erase_all
write_destination-settles_example =
    write_destination-settles accessors plain_projection plain_object start accessors-IsLawful
      missing copy copy plain_object-HasMetadata refl refl refl refl refl copy-HasNoDrift refl

abbrev stocked : World server
stocked = world_of (record { objects = copy ∷ []; is_down = false })

abbrev wanted : Fields
wanted = preserve_api_server_allocated_fields accessors copy copy

write_owned-HasNoDrift_example :
    (HasNoDrift accessors copy wanted
      × (write_owned accessors
            (projection_tier accessors plain_projection)
            plain_object
            copy
            stocked
          ≡ (no_failure, stocked)))
    ⊎ ((¬ HasNoDrift accessors copy wanted)
        × ((write_owned accessors
              (projection_tier accessors plain_projection)
              plain_object
              copy
              stocked).1.calls
            ≡ update_call (
                accessors.set_text resource_version_field
                  (accessors.get_text resource_version_field copy)
                  wanted)
              ∷ []))
unfolding accessors metadata metadata_field get_field is_owned_by index lookup owner_key
write_owned-HasNoDrift_example =
    write_owned-HasNoDrift accessors (projection_tier accessors plain_projection) plain_object copy
      stocked copy refl refl
