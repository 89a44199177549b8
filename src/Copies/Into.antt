-- ===== src/Copies/Into.antt =====
-- `DeepCopyInto` of every type: the struct that is written to `out`. `in` and `out` are different
-- structs, as in every call.
use projection.Prelude.{[], String}
use projection.Kube.Api.{SourceRef, ProjectionDestination}
use projection.Heap.{copy_flat, copy_each, copy_ref, Heap}
use projection.Prelude.Dict.{merge, Dict}
use projection.Copies.{
  as_selector, selector, as_texts, as_text_map, as_projections, as_conditions,
  as_cluster_projections, texts, text_map, projections, conditions, cluster_projections, Cell,
  ProjectionStruct, ProjectionStatusStruct, ProjectionSpecStruct, OverlayStruct, ListStruct,
  ClusterStatusStruct, ClusterSpecStruct, ClusterProjectionStruct, ClusterDestinationStruct,
  LibraryTypes,
}

-- `DeepCopyInto` of the types of apimachinery.
pub record Library (T : LibraryTypes) : Type 0 where
  pub copy_meta : T.ObjectMeta → Heap (Cell T) → T.ObjectMeta × Heap (Cell T)
  pub copy_list_meta : T.ListMeta → Heap (Cell T) → T.ListMeta × Heap (Cell T)
  pub copy_selector : T.LabelSelector → Heap (Cell T) → T.LabelSelector × Heap (Cell T)
  pub copy_condition : T.Condition → Heap (Cell T) → T.Condition × Heap (Cell T)

module _ {T : LibraryTypes} where
  -- `for key, val := range *in { (*out)[key] = val }`, from an empty map.
  unfoldable pub copy_entries : Dict String → Heap (Cell T) → Dict String × Heap (Cell T)
  copy_entries m h = (merge m [], h)

  unfoldable pub copy_source : SourceRef → Heap (Cell T) → SourceRef × Heap (Cell T)
  copy_source o h = (o, h)

  unfoldable pub copy_destination :
      ProjectionDestination → Heap (Cell T) → ProjectionDestination × Heap (Cell T)
  copy_destination o h = (o, h)

  unfoldable pub copy_overlay : OverlayStruct → Heap (Cell T) → OverlayStruct × Heap (Cell T)
  copy_overlay o h =
      let (labels, h') = copy_ref text_map as_text_map copy_entries o.labels h in
      let (annotations, h'') = copy_ref text_map as_text_map copy_entries o.annotations h' in
      (record o { labels = labels; annotations = annotations }, h'')

  unfoldable pub copy_spec :
      ProjectionSpecStruct → Heap (Cell T) → ProjectionSpecStruct × Heap (Cell T)
  copy_spec o h =
      let (overlay, h') = copy_overlay o.overlay h in (record o { overlay = overlay }, h')

module _ {T : LibraryTypes} (lib : Library T) where
  unfoldable pub copy_cluster_destination :
      ClusterDestinationStruct → Heap (Cell T) → ClusterDestinationStruct × Heap (Cell T)
  copy_cluster_destination o h =
      let (namespaces, h') = copy_ref texts as_texts copy_flat o.namespaces h in
      let (sel, h'') = copy_ref selector as_selector lib.copy_selector o.namespace_selector h' in
      (record o { namespaces = namespaces; namespace_selector = sel }, h'')

  unfoldable pub copy_cluster_spec :
      ClusterSpecStruct → Heap (Cell T) → ClusterSpecStruct × Heap (Cell T)
  copy_cluster_spec o h =
      let (destination, h') = copy_cluster_destination o.destination h in
      let (overlay, h'') = copy_overlay o.overlay h' in
      (record o { destination = destination; overlay = overlay }, h'')

  unfoldable pub copy_status :
      ProjectionStatusStruct → Heap (Cell T) → ProjectionStatusStruct × Heap (Cell T)
  copy_status o h =
      let (cs, h') =
        copy_ref conditions as_conditions (copy_each lib.copy_condition) o.conditions h in
      (record o { conditions = cs }, h')

  unfoldable pub copy_cluster_status :
      ClusterStatusStruct → Heap (Cell T) → ClusterStatusStruct × Heap (Cell T)
  copy_cluster_status o h =
      let (cs, h') =
        copy_ref conditions as_conditions (copy_each lib.copy_condition) o.conditions h in
      (record o { conditions = cs }, h')

  unfoldable pub copy_projection :
      ProjectionStruct T → Heap (Cell T) → ProjectionStruct T × Heap (Cell T)
  copy_projection o h =
      let (meta, h') = lib.copy_meta o.meta h in
      let (spec, h'') = copy_spec o.spec h' in
      let (status, h‴) = copy_status o.status h'' in
      (record o { meta = meta; spec = spec; status = status }, h‴)

  unfoldable pub copy_cluster_projection :
      ClusterProjectionStruct T → Heap (Cell T) → ClusterProjectionStruct T × Heap (Cell T)
  copy_cluster_projection o h =
      let (meta, h') = lib.copy_meta o.meta h in
      let (spec, h'') = copy_cluster_spec o.spec h' in
      let (status, h‴) = copy_cluster_status o.status h'' in
      (record o { meta = meta; spec = spec; status = status }, h‴)

  unfoldable pub copy_projection_list : ListStruct T → Heap (Cell T) → ListStruct T × Heap (Cell T)
  copy_projection_list o h =
      let (list_meta, h') = lib.copy_list_meta o.list_meta h in
      let (items, h'') =
        copy_ref projections as_projections (copy_each copy_projection) o.items h' in
      (record o { list_meta = list_meta; items = items }, h'')

  unfoldable pub copy_cluster_projection_list :
      ListStruct T → Heap (Cell T) → ListStruct T × Heap (Cell T)
  copy_cluster_projection_list o h =
      let (list_meta, h') = lib.copy_list_meta o.list_meta h in
      let (items, h'') =
        copy_ref cluster_projections as_cluster_projections (copy_each copy_cluster_projection)
          o.items h' in
      (record o { list_meta = list_meta; items = items }, h'')
