-- ===== src/Destination/Mirror.antt =====
-- The specification of a destination object, and that both builders of
-- internal/controller/destination.go meet it.
use projection.Destination.Strip.{spec-stripped, get_field-stripped}
use projection.Destination.Build.{metadata_field-stripped, label_at, written_key, annotation_at}
use projection.Destination.{
  dropped_spec_fields_by_gvk, remove_nested_fields, build_destination, build_cluster_destination,
  destination_coords, cluster_destination_name, last_applied, dropped_metadata_fields, or_empty,
}
use projection.Kube.Api.{Projection, ClusterProjection, Overlay}
use projection.Destination.Stamp.{
  build_destination-stamped, build_cluster_destination-stamped, projection_stamp,
  cluster_projection_stamp, get_field-stamped, labels-stamped, metadata_field-stamped,
  annotations-stamped, namespace-stamped, stamped, name-stamped, Stamp,
}
use projection.Prelude.Dict.{or_else, Dict, lookup}
use projection.Prelude.{
  inr, inl, Bool-cases, All-of_contains, All, ◌∙◌, refl, arith, true, some, none, ◌||◌, ◌==◌,
  contains, if◌then◌else◌, ◌≡◌, Option, String,
}
use projection.Kube.Value.{get_field-delete_field, get_field, delete_field, Fields}
use projection.Kube.Object.{
  labels_field, metadata_field, annotations_field, namespace_field, name_field, HasMetadata,
  IsLawful, Accessors,
}

abbrev pub value_at : String → Option (Dict String) → Option String
value_at k none = none
value_at k (some m) = lookup k m

-- An object without three of its fields.
abbrev pub body : Fields → Fields
body o = delete_field "status" (delete_field "spec" (delete_field "metadata" o))

-- `dst` is the copy of `source` that the owner of the stamp keeps at a namespace and a name.
pub record IsMirror (a : Accessors) (st : Stamp) (source : Fields) (overlay : Overlay)
    (namespace name : String) (dst : Fields) : Type 0 where
  pub named : a.get_text name_field dst ≡ name
  pub placed : a.get_text namespace_field dst ≡ namespace
  -- The stamp wins over the overlay, and the overlay over the source.
  pub annotated :
      (k : String)
      → value_at k (a.get_map annotations_field dst) ≡ (
          if st.annotation == k
          then some st.owner
          else or_else
              (lookup k overlay.annotations)
              (if last_applied == k then none else value_at k (a.get_map annotations_field source)))
  pub labelled :
      (k : String)
      → value_at k (a.get_map labels_field dst) ≡ (
          if st.label == k
          then some st.uid
          else or_else (lookup k overlay.labels) (value_at k (a.get_map labels_field source)))
  pub dropped : All (λ k. metadata_field k dst ≡ none) dropped_metadata_fields
  pub no_status : get_field "status" dst ≡ none
  pub carried : (k : String) → get_field k (body dst) ≡ get_field k (body source)
  -- The spec is the source's, without the paths that the table drops for its kind.
  pub specified :
      get_field "spec" dst
      ≡ get_field "spec"
          (remove_nested_fields a (dropped_spec_fields_by_gvk (a.group_version_kind source)) source)

lookup-or_empty : (k : String) (m : Option (Dict String)) → lookup k (or_empty m) ≡ value_at k m
unfolding lookup
lookup-or_empty k none = refl
lookup-or_empty k (some m) = refl

get_field-body :
    (k : String) (o : Fields)
    → get_field k (body o)
      ≡ (if "status" == k || ("spec" == k || "metadata" == k) then none else get_field k o)
get_field-body k o = ground (
  arith,
  get_field-delete_field k "status" (delete_field "spec" (delete_field "metadata" o)),
  get_field-delete_field k "spec" (delete_field "metadata" o),
  get_field-delete_field k "metadata" o,
)

module _ (a : Accessors) (law : IsLawful a) (st : Stamp) (source : Fields) (overlay : Overlay)
    (namespace name : String) (has : HasMetadata source) where
  abbrev result : Fields
  result = stamped a law st source overlay namespace name

  dropped-stamped :
      (k : String) → contains dropped_metadata_fields k ≡ true → metadata_field k result ≡ none
  dropped-stamped k d =
      metadata_field-stamped a law st source overlay namespace name has k
        (written_key "name" k d refl) (written_key "namespace" k d refl)
        (written_key "labels" k d refl) (written_key "annotations" k d refl)
      ∙ metadata_field-stripped a law source k has
      ∙ rw d

  carried-stamped : (k : String) → get_field k (body result) ≡ get_field k (body source)
  carried-stamped k = elim (Bool-cases ("status" == k || ("spec" == k || "metadata" == k))) [
    | inl gone ↦ rw (get_field-body k result, get_field-body k source, gone)
    | inr kept ↦
        rw (get_field-body k result, get_field-body k source, kept)
          (get_field-stamped a law st source overlay namespace name has k (ground (arith, kept))
            ∙ get_field-stripped a law k source (ground (arith, kept)) (ground (arith, kept))
            ∙ ground (arith, kept))
  ]

  pub stamped-IsMirror : IsMirror a st source overlay namespace name result
  stamped-IsMirror = record {
    named = name-stamped a law st source overlay namespace name has;
    placed = namespace-stamped a law st source overlay namespace name has;
    annotated = λ k.
        rw (annotations-stamped a law st source overlay namespace name has)
          (annotation_at a law st source overlay has k ∙ rw lookup-or_empty);
    labelled = λ k.
        rw (labels-stamped a law st source overlay namespace name has)
          (label_at a law st source overlay has k ∙ rw lookup-or_empty);
    dropped = All-of_contains _ dropped_metadata_fields dropped-stamped;
    no_status =
        get_field-stamped a law st source overlay namespace name has "status" refl
        ∙ get_field-stripped a law "status" source refl refl;
    carried = carried-stamped;
    specified =
        get_field-stamped a law st source overlay namespace name has "spec" refl
        ∙ spec-stripped a law source;
  }

module _ (a : Accessors) (law : IsLawful a) (source : Fields) (namespace : String) where
  -- What `buildDestination` returns, for a source that has metadata, mirrors the source for the
  -- projection: it has the destination's name in the namespace asked for, the source's annotations and
  -- labels under the overlay's and, on top, the projection's stamp, none of the dropped metadata, no
  -- status, the source's spec without the paths that the table drops for its kind, and every other
  -- field as it was.
  pub build_destination-IsMirror :
      (proj : Projection)
      → HasMetadata source
      → IsMirror a
          (projection_stamp proj)
          source
          proj.spec.overlay
          namespace
          (destination_coords proj).1
          (build_destination a source proj namespace)
  build_destination-IsMirror proj has = rw (build_destination-stamped a law source proj namespace) (
      stamped-IsMirror a law (projection_stamp proj) source proj.spec.overlay namespace
        (destination_coords proj).1 has)

  -- What `buildClusterDestination` returns, for a source that has metadata, mirrors the source for the
  -- cluster projection in the same sense, under the stamp of the cluster tier.
  pub build_cluster_destination-IsMirror :
      (cp : ClusterProjection)
      → HasMetadata source
      → IsMirror a
          (cluster_projection_stamp cp)
          source
          cp.spec.overlay
          namespace
          (cluster_destination_name cp)
          (build_cluster_destination a source cp namespace)
  build_cluster_destination-IsMirror cp has =
      rw (build_cluster_destination-stamped a law source cp namespace) (
        stamped-IsMirror a law (cluster_projection_stamp cp) source cp.spec.overlay namespace
          (cluster_destination_name cp) has)
