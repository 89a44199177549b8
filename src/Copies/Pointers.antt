-- ===== src/Copies/Pointers.antt =====
-- `DeepCopy` of every type copies all that its pointer leads to.
use projection.Prelude.{refl}
use projection.Kube.Api.{SourceRef, ProjectionDestination}
use projection.Copies.Objects.{
  copy_status-IsDeep, copy_projection_list-IsDeep, copy_projection-IsDeep,
  copy_cluster_status-IsDeep, copy_cluster_spec-IsDeep, copy_cluster_projection_list-IsDeep,
  copy_cluster_projection-IsDeep, projection_list_shape, cluster_projection_list_shape,
}
use projection.Heap.Refs.{copy_ref-IsDeep, behind}
use projection.Copies.Deep.{
  copy_spec-IsDeep, copy_overlay-IsDeep, copy_cluster_destination-IsDeep, status_shape, spec_shape,
  projection_shape, overlay_shape, cluster_status_shape, cluster_spec_shape,
  cluster_projection_shape, cluster_destination_shape, IsDocumented,
}
use projection.Heap.Shape.{flat-IsCopy, flat_as, IsDeep}
use projection.Copies.New.{
  deep_copy_status, deep_copy_projection_list, deep_copy_projection, deep_copy_cluster_status,
  deep_copy_cluster_spec, deep_copy_cluster_projection_list, deep_copy_cluster_projection,
  deep_copy_cluster_destination, deep_copy_spec, deep_copy_source, deep_copy_overlay,
  deep_copy_destination,
}
use projection.Copies.Into.{
  copy_status, copy_spec, copy_projection_list, copy_projection, copy_overlay, copy_cluster_status,
  copy_cluster_spec, copy_cluster_projection_list, copy_cluster_projection,
  copy_cluster_destination, copy_source, copy_destination, Library,
}
use projection.Copies.{
  status_cell, spec_cell, source_cell, projection_cell, overlay_cell, list_cell, destination_cell,
  cluster_status_cell, cluster_spec_cell, cluster_projection_cell, cluster_destination_cell,
  as_source_cell, as_destination_cell, as_status_cell, as_spec_cell, as_projection_cell,
  as_overlay_cell, as_list_cell, as_cluster_status_cell, as_cluster_spec_cell,
  as_cluster_projection_cell, as_cluster_destination_cell, LibraryTypes,
}

module _ {T : LibraryTypes} where
  deep_copy_source-IsDeep :
      IsDeep (behind (flat_as (λ (o : SourceRef). o)) as_source_cell) (deep_copy_source {T = T})
  unfolding deep_copy_source copy_source
  deep_copy_source-IsDeep =
      copy_ref-IsDeep (flat_as (λ (o : SourceRef). o)) as_source_cell source_cell copy_source
        (λ o. refl) (λ h o w. flat-IsCopy (λ (o : SourceRef). o) h o o refl)

  deep_copy_destination-IsDeep :
      IsDeep
        (behind (flat_as (λ (o : ProjectionDestination). o)) as_destination_cell)
        (deep_copy_destination {T = T})
  unfolding deep_copy_destination copy_destination
  deep_copy_destination-IsDeep =
      copy_ref-IsDeep (flat_as (λ (o : ProjectionDestination). o)) as_destination_cell
        destination_cell copy_destination (λ o. refl)
        (λ h o w. flat-IsCopy (λ (o : ProjectionDestination). o) h o o refl)

  deep_copy_overlay-IsDeep :
      IsDeep (behind overlay_shape as_overlay_cell) (deep_copy_overlay {T = T})
  unfolding deep_copy_overlay
  deep_copy_overlay-IsDeep =
      copy_ref-IsDeep overlay_shape as_overlay_cell overlay_cell copy_overlay (λ o. refl)
        copy_overlay-IsDeep

  deep_copy_spec-IsDeep : IsDeep (behind spec_shape as_spec_cell) (deep_copy_spec {T = T})
  unfolding deep_copy_spec
  deep_copy_spec-IsDeep =
      copy_ref-IsDeep spec_shape as_spec_cell spec_cell copy_spec (λ o. refl) copy_spec-IsDeep

module _ {T : LibraryTypes} {lib : Library T} (doc : IsDocumented T lib) where
  deep_copy_cluster_destination-IsDeep :
      IsDeep
        (behind (cluster_destination_shape doc) as_cluster_destination_cell)
        (deep_copy_cluster_destination lib)
  unfolding deep_copy_cluster_destination
  deep_copy_cluster_destination-IsDeep =
      copy_ref-IsDeep (cluster_destination_shape doc) as_cluster_destination_cell
        cluster_destination_cell (copy_cluster_destination lib) (λ o. refl)
        (copy_cluster_destination-IsDeep doc)

  deep_copy_cluster_spec-IsDeep :
      IsDeep (behind (cluster_spec_shape doc) as_cluster_spec_cell) (deep_copy_cluster_spec lib)
  unfolding deep_copy_cluster_spec
  deep_copy_cluster_spec-IsDeep =
      copy_ref-IsDeep (cluster_spec_shape doc) as_cluster_spec_cell cluster_spec_cell
        (copy_cluster_spec lib) (λ o. refl) (copy_cluster_spec-IsDeep doc)

  deep_copy_status-IsDeep : IsDeep (behind (status_shape doc) as_status_cell) (deep_copy_status lib)
  unfolding deep_copy_status
  deep_copy_status-IsDeep =
      copy_ref-IsDeep (status_shape doc) as_status_cell status_cell (copy_status lib) (λ o. refl)
        (copy_status-IsDeep doc)

  deep_copy_cluster_status-IsDeep :
      IsDeep
        (behind (cluster_status_shape doc) as_cluster_status_cell)
        (deep_copy_cluster_status lib)
  unfolding deep_copy_cluster_status
  deep_copy_cluster_status-IsDeep =
      copy_ref-IsDeep (cluster_status_shape doc) as_cluster_status_cell cluster_status_cell
        (copy_cluster_status lib) (λ o. refl) (copy_cluster_status-IsDeep doc)

  pub deep_copy_projection-IsDeep :
      IsDeep (behind (projection_shape doc) as_projection_cell) (deep_copy_projection lib)
  unfolding deep_copy_projection
  deep_copy_projection-IsDeep =
      copy_ref-IsDeep (projection_shape doc) as_projection_cell projection_cell
        (copy_projection lib) (λ o. refl) (copy_projection-IsDeep doc)

  deep_copy_cluster_projection-IsDeep :
      IsDeep
        (behind (cluster_projection_shape doc) as_cluster_projection_cell)
        (deep_copy_cluster_projection lib)
  unfolding deep_copy_cluster_projection
  deep_copy_cluster_projection-IsDeep =
      copy_ref-IsDeep (cluster_projection_shape doc) as_cluster_projection_cell
        cluster_projection_cell (copy_cluster_projection lib) (λ o. refl)
        (copy_cluster_projection-IsDeep doc)

  deep_copy_projection_list-IsDeep :
      IsDeep (behind (projection_list_shape doc) as_list_cell) (deep_copy_projection_list lib)
  unfolding deep_copy_projection_list
  deep_copy_projection_list-IsDeep =
      copy_ref-IsDeep (projection_list_shape doc) as_list_cell list_cell (copy_projection_list lib)
        (λ o. refl) (copy_projection_list-IsDeep doc)

  pub deep_copy_cluster_projection_list-IsDeep :
      IsDeep
        (behind (cluster_projection_list_shape doc) as_list_cell)
        (deep_copy_cluster_projection_list lib)
  unfolding deep_copy_cluster_projection_list
  deep_copy_cluster_projection_list-IsDeep =
      copy_ref-IsDeep (cluster_projection_list_shape doc) as_list_cell list_cell
        (copy_cluster_projection_list lib) (λ o. refl) (copy_cluster_projection_list-IsDeep doc)
