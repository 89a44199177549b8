-- ===== src/Destination/Build.antt =====
-- What `buildDestination` and `buildClusterDestination` of internal/controller/destination.go keep,
-- drop and stamp.
use projection.Kube.Api.{Overlay}
use projection.Destination.Stamp.{merged_labels, merged_annotations, Stamp}
use projection.Destination.Strip.{get_field-delete_fields, metadata-stripped}
use projection.Destination.{or_empty, last_applied, stripped, dropped_metadata_fields}
use projection.Kube.Value.{Fields}
use projection.Prelude.Dict.{erase_all, dict_laws, or_else, merge, insert, lookup, Dict}
use projection.Prelude.{
  eq_iff, some, arith, ◌==◌, none, if◌then◌else◌, false, true, ◌≡◌, contains, String,
}
use projection.Kube.Object.{
  annotations_field, labels_field, MapField, HasMetadata, IsLawful, metadata_field, Accessors,
}

-- The stripped metadata, read at a key.
pub metadata_field-stripped :
    (a : Accessors) (law : IsLawful a) (source : Fields) (k : String)
    → HasMetadata source
    → metadata_field k (stripped a source)
      ≡ (if contains dropped_metadata_fields k then none else metadata_field k source)
unfolding metadata_field
metadata_field-stripped a law source k (m, found) = rw (
  metadata-stripped a law source m found,
  found,
  get_field-delete_fields k dropped_metadata_fields m,
)

get_map-stripped :
    (a : Accessors) (law : IsLawful a) (source : Fields) (i : MapField)
    → HasMetadata source
    → a.get_map i (stripped a source) ≡ a.get_map i source
get_map-stripped a law source labels_field has =
    law.get_map_local labels_field _ _ (metadata_field-stripped a law source "labels" has)
get_map-stripped a law source annotations_field has =
    law.get_map_local annotations_field _ _ (metadata_field-stripped a law source "annotations" has)

-- A key that is dropped from the metadata differs from one that is kept.
pub written_key :
    (w k : String)
    → contains dropped_metadata_fields k ≡ true
    → contains dropped_metadata_fields w ≡ false
    → (w == k) ≡ false
written_key w k dropped kept = ground (arith, eq_iff w k)

-- The values at one key of an inserted merge, written out.
lookup-insert-merge :
    (j k v : String) (over under : Dict String)
    → lookup j (insert k v (merge over under))
      ≡ (if k == j then some v else or_else (lookup j over) (lookup j under))
lookup-insert-merge j k v over under = simp dict_laws

-- The annotations of the stamped object, key by key.
pub annotation_at :
    (a : Accessors) (law : IsLawful a) (st : Stamp) (source : Fields) (overlay : Overlay)
    → HasMetadata source
    → (k : String)
    → lookup k (insert st.annotation st.owner (merged_annotations a source overlay)) ≡ (
        if st.annotation == k
        then some st.owner
        else or_else (lookup k overlay.annotations) (
            if last_applied == k
            then none
            else lookup k (or_empty (a.get_map annotations_field source))))
unfolding erase_all
annotation_at a law st source overlay has k =
    simp (dict_laws, get_map-stripped a law source annotations_field has)

pub label_at :
    (a : Accessors) (law : IsLawful a) (st : Stamp) (source : Fields) (overlay : Overlay)
    → HasMetadata source
    → (k : String)
    → lookup k (insert st.label st.uid (merged_labels a source overlay)) ≡ (
        if st.label == k
        then some st.uid
        else or_else
            (lookup k overlay.labels)
            (lookup k (or_empty (a.get_map labels_field source))))
label_at a law st source overlay has k =
    simp (dict_laws, get_map-stripped a law source labels_field has)
