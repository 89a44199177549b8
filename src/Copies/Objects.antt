-- ===== src/Copies/Objects.antt =====
-- The deep copies of whole objects and of their lists, and that a copy and its original do not share.
use projection.Prelude.{refl}
use projection.Heap.{copy_each, Heap, copy_ref, Ref}
use projection.Heap.Refs.{copy_each-IsDeep, copy_ref-IsDeep, each, behind}
use projection.Heap.Shape.{
  IsCopy-on, IsCopy-then, ◌⊗◌, IsCopy-kept, IsCopy, on, flat_as, Shape, IsDeep,
}
use projection.Copies.Deep.{
  copy_overlay-IsDeep, counts_of, copy_cluster_destination-IsDeep, overlay_shape, copy_spec-IsDeep,
  cluster_destination_shape, spec_shape, status_shape, projection_shape, conditions_shape,
  cluster_status_shape, cluster_spec_shape, cluster_projection_shape, IsDocumented,
}
use projection.Copies.Into.{
  copy_overlay, copy_spec, copy_cluster_destination, copy_status, copy_projection_list,
  copy_projection, copy_cluster_status, copy_cluster_spec, copy_cluster_projection_list,
  copy_cluster_projection, Library,
}
use projection.Copies.{
  ProjectionStatusStruct, ClusterStatusStruct, projections, cluster_projections, as_conditions,
  ClusterSpecStruct, conditions, as_projections, as_cluster_projections, ProjectionStruct,
  ListStruct, ClusterProjectionStruct, Cell, LibraryTypes,
}

module _ {T : LibraryTypes} {lib : Library T} (doc : IsDocumented T lib) where
  copy_conditions-IsDeep :
      IsDeep
        (conditions_shape doc)
        (copy_ref conditions as_conditions (copy_each lib.copy_condition))
  copy_conditions-IsDeep =
      copy_ref-IsDeep (each doc.condition_shape) as_conditions conditions
        (copy_each lib.copy_condition) (λ cs. refl)
        (copy_each-IsDeep doc.condition_shape lib.copy_condition doc.copy_condition-IsDeep)

  pub copy_status-IsDeep : IsDeep (status_shape doc) (copy_status lib)
  unfolding copy_status
  copy_status-IsDeep h o (_, w) =
      let (cs, h') =
        copy_ref conditions as_conditions (copy_each lib.copy_condition) o.conditions h in
      let out : ProjectionStatusStruct = record o { conditions = cs } in
      let conditions_of = λ (o : ProjectionStatusStruct). o.conditions in
      IsCopy-kept (λ (o : ProjectionStatusStruct). o.destination_name)
        (on conditions_of (conditions_shape doc)) h h' o out refl w
        (IsCopy-on conditions_of (conditions_shape doc) h h' o out
          (copy_conditions-IsDeep h o.conditions w))

  pub copy_cluster_status-IsDeep : IsDeep (cluster_status_shape doc) (copy_cluster_status lib)
  unfolding copy_cluster_status
  copy_cluster_status-IsDeep h o (_, w) =
      let (cs, h') =
        copy_ref conditions as_conditions (copy_each lib.copy_condition) o.conditions h in
      let out : ClusterStatusStruct = record o { conditions = cs } in
      let conditions_of = λ (o : ClusterStatusStruct). o.conditions in
      IsCopy-kept counts_of (on conditions_of (conditions_shape doc)) h h' o out refl w (
        IsCopy-on conditions_of (conditions_shape doc) h h' o out
          (copy_conditions-IsDeep h o.conditions w))

  pub copy_cluster_spec-IsDeep : IsDeep (cluster_spec_shape doc) (copy_cluster_spec lib)
  unfolding copy_cluster_spec
  copy_cluster_spec-IsDeep h o (_, (in_destination, in_overlay)) =
      let (destination, h') = copy_cluster_destination lib o.destination h in
      let (overlay, h'') = copy_overlay o.overlay h' in
      let out : ClusterSpecStruct = record o { destination = destination; overlay = overlay } in
      let destination_of = λ (o : ClusterSpecStruct). o.destination in
      let overlay_of = λ (o : ClusterSpecStruct). o.overlay in
      IsCopy-kept (λ (o : ClusterSpecStruct). o.source)
        (on destination_of (cluster_destination_shape doc) ⊗ on overlay_of overlay_shape) h h'' o
        out refl (in_destination, in_overlay)
        (IsCopy-then destination_of (cluster_destination_shape doc) (on overlay_of overlay_shape) h
          h' h'' o out (copy_cluster_destination-IsDeep doc h o.destination in_destination)
          in_overlay
          (λ w.
            IsCopy-on overlay_of overlay_shape h' h'' o out (copy_overlay-IsDeep h' o.overlay w)))

  pub copy_projection-IsDeep : IsDeep (projection_shape doc) (copy_projection lib)
  unfolding copy_projection
  copy_projection-IsDeep h o (_, (in_meta, (in_spec, in_status))) =
      let (meta, h') = lib.copy_meta o.meta h in
      let (spec, h'') = copy_spec o.spec h' in
      let (status, h‴) = copy_status lib o.status h'' in
      let out : ProjectionStruct T = record o { meta = meta; spec = spec; status = status } in
      let meta_of = λ (o : ProjectionStruct T). o.meta in
      let spec_of = λ (o : ProjectionStruct T). o.spec in
      let status_of = λ (o : ProjectionStruct T). o.status in
      let status_part = on status_of (status_shape doc) in
      let spec_part = on spec_of spec_shape in
      IsCopy-kept (λ (o : ProjectionStruct T). o.type_meta)
        (on meta_of doc.meta_shape ⊗ (spec_part ⊗ status_part)) h h‴ o out refl
        (in_meta, (in_spec, in_status))
        (IsCopy-then meta_of doc.meta_shape (spec_part ⊗ status_part) h h' h‴ o out
          (doc.copy_meta-IsDeep h o.meta in_meta) (in_spec, in_status)
          (λ (v, w).
            IsCopy-then spec_of spec_shape status_part h' h'' h‴ o out
              (copy_spec-IsDeep h' o.spec v) w
              (λ u.
                IsCopy-on status_of (status_shape doc) h'' h‴ o out
                  (copy_status-IsDeep h'' o.status u))))

  pub copy_cluster_projection-IsDeep :
      IsDeep (cluster_projection_shape doc) (copy_cluster_projection lib)
  unfolding copy_cluster_projection
  copy_cluster_projection-IsDeep h o (_, (in_meta, (in_spec, in_status))) =
      let (meta, h') = lib.copy_meta o.meta h in
      let (spec, h'') = copy_cluster_spec lib o.spec h' in
      let (status, h‴) = copy_cluster_status lib o.status h'' in
      let out : ClusterProjectionStruct T = record o {
        meta = meta;
        spec = spec;
        status = status;
      } in
      let meta_of = λ (o : ClusterProjectionStruct T). o.meta in
      let spec_of = λ (o : ClusterProjectionStruct T). o.spec in
      let status_of = λ (o : ClusterProjectionStruct T). o.status in
      let status_part = on status_of (cluster_status_shape doc) in
      let spec_part = on spec_of (cluster_spec_shape doc) in
      IsCopy-kept (λ (o : ClusterProjectionStruct T). o.type_meta)
        (on meta_of doc.meta_shape ⊗ (spec_part ⊗ status_part)) h h‴ o out refl
        (in_meta, (in_spec, in_status))
        (IsCopy-then meta_of doc.meta_shape (spec_part ⊗ status_part) h h' h‴ o out
          (doc.copy_meta-IsDeep h o.meta in_meta) (in_spec, in_status)
          (λ (v, w).
            IsCopy-then spec_of (cluster_spec_shape doc) status_part h' h'' h‴ o out
              (copy_cluster_spec-IsDeep h' o.spec v) w
              (λ u.
                IsCopy-on status_of (cluster_status_shape doc) h'' h‴ o out
                  (copy_cluster_status-IsDeep h'' o.status u))))

  abbrev list_shape : Shape (Cell T) Ref → Shape (Cell T) (ListStruct T)
  list_shape items =
      flat_as (λ (o : ListStruct T). o.type_meta)
      ⊗ (on (λ (o : ListStruct T). o.list_meta) doc.list_meta_shape
          ⊗ on (λ (o : ListStruct T). o.items) items)

  abbrev pub projection_list_shape : Shape (Cell T) (ListStruct T)
  projection_list_shape = list_shape (behind (each (projection_shape doc)) as_projections)

  abbrev pub cluster_projection_list_shape : Shape (Cell T) (ListStruct T)
  cluster_projection_list_shape =
      list_shape (behind (each (cluster_projection_shape doc)) as_cluster_projections)

  -- A list whose items are copied by `copy`.
  IsCopy-list :
      (items : Shape (Cell T) Ref) (copy : Ref → Heap (Cell T) → Ref × Heap (Cell T))
      → IsDeep items copy
      → (h : Heap (Cell T)) (o : ListStruct T) → (list_shape items).Within 0 h.next h o
      → (let (list_meta, h') = lib.copy_list_meta o.list_meta h in
          let (r, h'') = copy o.items h' in
          IsCopy (list_shape items) h o h'' (record o { list_meta = list_meta; items = r }))
  IsCopy-list items copy deep h o (_, (in_meta, in_items)) =
      let (list_meta, h') = lib.copy_list_meta o.list_meta h in
      let (r, h'') = copy o.items h' in
      let out : ListStruct T = record o { list_meta = list_meta; items = r } in
      let meta_of = λ (o : ListStruct T). o.list_meta in
      let items_of = λ (o : ListStruct T). o.items in
      IsCopy-kept (λ (o : ListStruct T). o.type_meta)
        (on meta_of doc.list_meta_shape ⊗ on items_of items) h h'' o out refl (in_meta, in_items)
        (IsCopy-then meta_of doc.list_meta_shape (on items_of items) h h' h'' o out
          (doc.copy_list_meta-IsDeep h o.list_meta in_meta) in_items
          (λ w. IsCopy-on items_of items h' h'' o out (deep h' o.items w)))

  pub copy_projection_list-IsDeep : IsDeep projection_list_shape (copy_projection_list lib)
  unfolding copy_projection_list
  copy_projection_list-IsDeep =
      IsCopy-list (behind (each (projection_shape doc)) as_projections) _ (
        copy_ref-IsDeep (each (projection_shape doc)) as_projections projections
          (copy_each (copy_projection lib)) (λ xs. refl)
          (copy_each-IsDeep (projection_shape doc) (copy_projection lib) copy_projection-IsDeep))

  pub copy_cluster_projection_list-IsDeep :
      IsDeep cluster_projection_list_shape (copy_cluster_projection_list lib)
  unfolding copy_cluster_projection_list
  copy_cluster_projection_list-IsDeep =
      IsCopy-list (behind (each (cluster_projection_shape doc)) as_cluster_projections) _ (
        copy_ref-IsDeep (each (cluster_projection_shape doc)) as_cluster_projections
          cluster_projections (copy_each (copy_cluster_projection lib)) (λ xs. refl)
          (copy_each-IsDeep (cluster_projection_shape doc) (copy_cluster_projection lib)
            copy_cluster_projection-IsDeep))
