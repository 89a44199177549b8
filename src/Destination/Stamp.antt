-- ===== src/Destination/Stamp.antt =====
-- The stamps, the coordinates and the merged maps on top of the stripped object, for the builders of
-- internal/controller/destination.go.
-- What an owner stamps on its destinations: a key and a value among the annotations, and a key and a
-- value among the labels.
use projection.Destination.{
  destination_coords, cluster_destination_name, build_destination_core, build_destination,
  build_cluster_destination, owned_by_uid_label, owned_by_cluster_uid_label, owner_key,
  cluster_owner_key, owned_by_cluster_annotation, owned_by_annotation, dropped_annotations,
  stripped, or_empty,
}
use projection.Destination.Strip.{stripped-HasMetadata}
use projection.Prelude.Dict.{erase_all, merge, insert, Dict}
use projection.Kube.Api.{Projection, ClusterProjection, Overlay}
use projection.Kube.Value.{get_field, Fields}
use projection.Prelude.{refl, false, ◌==◌, ◌∙◌, some, ◌≡◌, String}
use projection.Kube.Object.{
  metadata_field, namespace_field, name_field, labels_field, annotations_field, HasMetadata,
  IsLawful, Accessors,
}

pub record Stamp : Type 0 where
  pub annotation : String
  pub owner : String
  pub label : String
  pub uid : String

abbrev pub projection_stamp : Projection → Stamp
projection_stamp proj = record {
  annotation = owned_by_annotation;
  owner = owner_key proj;
  label = owned_by_uid_label;
  uid = proj.meta.uid;
}

abbrev pub cluster_projection_stamp : ClusterProjection → Stamp
cluster_projection_stamp cp = record {
  annotation = owned_by_cluster_annotation;
  owner = cluster_owner_key cp;
  label = owned_by_cluster_uid_label;
  uid = cp.meta.uid;
}

-- The annotations of a destination: the source's, but for the dropped one, under the overlay's.
abbrev pub merged_annotations : Accessors → Fields → Overlay → Dict String
merged_annotations a source overlay =
    merge overlay.annotations
      (erase_all dropped_annotations (or_empty (a.get_map annotations_field (stripped a source))))

abbrev pub merged_labels : Accessors → Fields → Overlay → Dict String
merged_labels a source overlay =
    merge overlay.labels (or_empty (a.get_map labels_field (stripped a source)))

module _ (a : Accessors) (law : IsLawful a) (st : Stamp) (source : Fields) (overlay : Overlay) where
  annotated : Fields
  annotated =
      a.set_map annotations_field
        (insert st.annotation st.owner (merged_annotations a source overlay)) (stripped a source)

  labelled : Fields
  labelled =
      a.set_map labels_field (insert st.label st.uid (merged_labels a source overlay)) annotated

  module _ (namespace name : String) where
    placed : Fields
    placed = a.set_text namespace_field namespace labelled

    -- The object that both builders end in.
    pub stamped : Fields
    unfolding placed labelled annotated
    stamped = a.set_text name_field name placed

    module _ (has : HasMetadata source) where
      annotated-HasMetadata : HasMetadata annotated
      unfolding annotated
      annotated-HasMetadata =
          law.set_map-HasMetadata annotations_field _ _ (stripped-HasMetadata a law source has)

      labelled-HasMetadata : HasMetadata labelled
      unfolding labelled
      labelled-HasMetadata = law.set_map-HasMetadata labels_field _ _ annotated-HasMetadata

      placed-HasMetadata : HasMetadata placed
      unfolding placed
      placed-HasMetadata = law.set_text-HasMetadata namespace_field _ _ labelled-HasMetadata

      pub stamped-HasMetadata : HasMetadata stamped
      unfolding stamped
      stamped-HasMetadata = law.set_text-HasMetadata name_field _ _ placed-HasMetadata

      pub name-stamped : a.get_text name_field stamped ≡ name
      unfolding stamped
      name-stamped = law.get_text-set_text name_field name_field name placed placed-HasMetadata

      pub namespace-stamped : a.get_text namespace_field stamped ≡ namespace
      unfolding stamped
      namespace-stamped =
          law.get_text-set_text namespace_field name_field name placed placed-HasMetadata
          ∙ law.get_text-set_text namespace_field namespace_field namespace labelled
              labelled-HasMetadata

      pub labels-stamped :
          a.get_map labels_field stamped
          ≡ some (insert st.label st.uid (merged_labels a source overlay))
      unfolding stamped
      labels-stamped =
          law.get_map-set_text labels_field name_field name placed placed-HasMetadata
          ∙ law.get_map-set_text labels_field namespace_field namespace labelled
              labelled-HasMetadata
          ∙ law.get_map-set_map labels_field labels_field _ annotated annotated-HasMetadata

      pub annotations-stamped :
          a.get_map annotations_field stamped
          ≡ some (insert st.annotation st.owner (merged_annotations a source overlay))
      unfolding stamped
      annotations-stamped =
          law.get_map-set_text annotations_field name_field name placed placed-HasMetadata
          ∙ law.get_map-set_text annotations_field namespace_field namespace labelled
              labelled-HasMetadata
          ∙ law.get_map-set_map annotations_field labels_field _ annotated annotated-HasMetadata
          ∙ law.get_map-set_map annotations_field annotations_field _ (stripped a source)
              (stripped-HasMetadata a law source has)

      -- Fields beside the metadata are those of the stripped object.
      pub get_field-stamped :
          (k : String)
          → ("metadata" == k) ≡ false
          → get_field k stamped ≡ get_field k (stripped a source)
      unfolding stamped
      get_field-stamped k h =
          law.get_field-set_text k name_field name placed h
          ∙ law.get_field-set_text k namespace_field namespace labelled h
          ∙ law.get_field-set_map k labels_field _ annotated h
          ∙ law.get_field-set_map k annotations_field _ (stripped a source) h

      -- So are the fields of the metadata that are not written.
      pub metadata_field-stamped :
          (k : String)
          → ("name" == k) ≡ false
          → ("namespace" == k) ≡ false
          → ("labels" == k) ≡ false
          → ("annotations" == k) ≡ false
          → metadata_field k stamped ≡ metadata_field k (stripped a source)
      unfolding stamped placed labelled annotated
      metadata_field-stamped k n ns l an =
          law.metadata_field-set_text k name_field name placed placed-HasMetadata n
          ∙ law.metadata_field-set_text k namespace_field namespace labelled labelled-HasMetadata ns
          ∙ law.metadata_field-set_map k labels_field _ annotated annotated-HasMetadata l
          ∙ law.metadata_field-set_map k annotations_field _ (stripped a source)
              (stripped-HasMetadata a law source has) an

-- The two builders end in such an object.
pub build_destination-stamped :
    (a : Accessors) (law : IsLawful a) (source : Fields) (proj : Projection) (namespace : String)
    → build_destination a source proj namespace
      ≡ stamped a law
          (projection_stamp proj)
          source
          proj.spec.overlay
          namespace
          (destination_coords proj).1
unfolding build_destination stamped build_destination_core destination_coords
build_destination-stamped a law source proj namespace = refl

pub build_cluster_destination-stamped :
    (a : Accessors) (law : IsLawful a) (source : Fields) (cp : ClusterProjection)
    (namespace : String)
    → build_cluster_destination a source cp namespace
      ≡ stamped a law
          (cluster_projection_stamp cp)
          source
          cp.spec.overlay
          namespace
          (cluster_destination_name cp)
unfolding build_cluster_destination stamped build_destination_core
build_cluster_destination-stamped a law source cp namespace = refl
