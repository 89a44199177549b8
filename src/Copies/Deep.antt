-- ===== src/Copies/Deep.antt =====
-- `DeepCopyInto` of every type copies all that its references lead to.
use projection.Kube.Api.{ℤ}
use mathlib.Core.Path.{fun_ext}
use projection.Prelude.{◌∙◌, some, none, List, ◌≡◌, Option, [], refl, String}
use projection.Prelude.Dict.{lookup-merge, or_else, merge, lookup, Dict}
use projection.Heap.Refs.{each, copy_ref-IsDeep, behind}
use projection.Heap.{copy_flat, copy_ref, Ref}
use projection.Heap.Shape.{
  flat-IsCopy, IsCopy-then, IsCopy-on, ◌⊗◌, IsCopy-kept, on, flat_as, IsDeep, Shape,
}
use projection.Copies.Into.{
  copy_cluster_destination, copy_spec, copy_overlay, copy_entries, Library,
}
use projection.Copies.{
  selector, as_selector, as_texts, texts, as_conditions, ProjectionStruct, ProjectionStatusStruct,
  ClusterStatusStruct, ClusterSpecStruct, ClusterProjectionStruct, ClusterDestinationStruct,
  as_text_map, text_map, ProjectionSpecStruct, OverlayStruct, Cell, LibraryTypes,
}

-- Of the types of apimachinery: what they read as, and that their `DeepCopyInto` copies it.
pub record IsDocumented (T : LibraryTypes) (lib : Library T) : Type 1 where
  pub meta_shape : Shape (Cell T) T.ObjectMeta
  pub list_meta_shape : Shape (Cell T) T.ListMeta
  pub selector_shape : Shape (Cell T) T.LabelSelector
  pub condition_shape : Shape (Cell T) T.Condition
  pub copy_meta-IsDeep : IsDeep meta_shape lib.copy_meta
  pub copy_list_meta-IsDeep : IsDeep list_meta_shape lib.copy_list_meta
  pub copy_selector-IsDeep : IsDeep selector_shape lib.copy_selector
  pub copy_condition-IsDeep : IsDeep condition_shape lib.copy_condition

-- A map reads as what it holds at each key.
abbrev pub held_at : Dict String → String → Option String
held_at m k = lookup k m

or_else-none : (found : Option String) → or_else found none ≡ found
or_else-none none = refl
or_else-none (some v) = refl

held_at-merge : (m : Dict String) → held_at (merge m []) ≡ held_at m
unfolding lookup
held_at-merge m = fun_ext (λ k. lookup-merge k m [] ∙ or_else-none (lookup k m))

abbrev pub counts_of : ClusterStatusStruct → String × (ℤ × ℤ)
counts_of o = (o.destination_name, (o.namespaces_written, o.namespaces_failed))

module _ {T : LibraryTypes} where
  abbrev pub map_shape : Shape (Cell T) Ref
  map_shape = behind (flat_as held_at) as_text_map

  abbrev pub overlay_shape : Shape (Cell T) OverlayStruct
  overlay_shape =
      on (λ (o : OverlayStruct). o.labels) map_shape
      ⊗ on (λ (o : OverlayStruct). o.annotations) map_shape

  abbrev pub spec_shape : Shape (Cell T) ProjectionSpecStruct
  spec_shape =
      flat_as (λ (o : ProjectionSpecStruct). o.source)
      ⊗ (flat_as (λ (o : ProjectionSpecStruct). o.destination)
          ⊗ on (λ (o : ProjectionSpecStruct). o.overlay) overlay_shape)

  copy_map-IsDeep : IsDeep map_shape (copy_ref text_map as_text_map copy_entries)
  unfolding copy_entries
  copy_map-IsDeep =
      copy_ref-IsDeep (flat_as held_at) as_text_map text_map copy_entries (λ m. refl)
        (λ h m w. flat-IsCopy held_at h m (merge m []) (held_at-merge m))

  pub copy_overlay-IsDeep : IsDeep overlay_shape copy_overlay
  unfolding copy_overlay
  copy_overlay-IsDeep h o (in_labels, in_annotations) =
      let (labels, h') = copy_ref text_map as_text_map copy_entries o.labels h in
      let (annotations, h'') = copy_ref text_map as_text_map copy_entries o.annotations h' in
      let out : OverlayStruct = record { labels = labels; annotations = annotations } in
      IsCopy-then (λ (o : OverlayStruct). o.labels) map_shape
        (on (λ (o : OverlayStruct). o.annotations) map_shape) h h' h'' o out
        (copy_map-IsDeep h o.labels in_labels) in_annotations
        (λ w.
          IsCopy-on (λ (o : OverlayStruct). o.annotations) map_shape h' h'' o out
            (copy_map-IsDeep h' o.annotations w))

  pub copy_spec-IsDeep : IsDeep spec_shape copy_spec
  unfolding copy_spec
  copy_spec-IsDeep h o (_, (_, w)) =
      let (overlay, h') = copy_overlay o.overlay h in
      let out : ProjectionSpecStruct = record o { overlay = overlay } in
      let destination = λ (o : ProjectionSpecStruct). o.destination in
      let rest = on (λ (o : ProjectionSpecStruct). o.overlay) overlay_shape in
      IsCopy-kept (λ (o : ProjectionSpecStruct). o.source) (flat_as destination ⊗ rest) h h' o out
        refl (tt, w)
        (IsCopy-kept destination rest h h' o out refl w (
          IsCopy-on (λ (o : ProjectionSpecStruct). o.overlay) overlay_shape h h' o out
            (copy_overlay-IsDeep h o.overlay w)))

module _ {T : LibraryTypes} {lib : Library T} (doc : IsDocumented T lib) where
  abbrev pub conditions_shape : Shape (Cell T) Ref
  conditions_shape = behind (each doc.condition_shape) as_conditions

  abbrev pub cluster_destination_shape : Shape (Cell T) ClusterDestinationStruct
  cluster_destination_shape =
      flat_as (λ (o : ClusterDestinationStruct). o.name)
      ⊗ (on (λ (o : ClusterDestinationStruct). o.namespaces)
            (behind (flat_as (λ (xs : List String). xs)) as_texts)
          ⊗ on (λ (o : ClusterDestinationStruct). o.namespace_selector)
              (behind doc.selector_shape as_selector))

  abbrev pub cluster_spec_shape : Shape (Cell T) ClusterSpecStruct
  cluster_spec_shape =
      flat_as (λ (o : ClusterSpecStruct). o.source)
      ⊗ (on (λ (o : ClusterSpecStruct). o.destination) cluster_destination_shape
          ⊗ on (λ (o : ClusterSpecStruct). o.overlay) overlay_shape)

  abbrev pub status_shape : Shape (Cell T) ProjectionStatusStruct
  status_shape =
      flat_as (λ (o : ProjectionStatusStruct). o.destination_name)
      ⊗ on (λ (o : ProjectionStatusStruct). o.conditions) conditions_shape

  abbrev pub cluster_status_shape : Shape (Cell T) ClusterStatusStruct
  cluster_status_shape =
      flat_as counts_of ⊗ on (λ (o : ClusterStatusStruct). o.conditions) conditions_shape

  abbrev pub projection_shape : Shape (Cell T) (ProjectionStruct T)
  projection_shape =
      flat_as (λ (o : ProjectionStruct T). o.type_meta)
      ⊗ (on (λ (o : ProjectionStruct T). o.meta) doc.meta_shape
          ⊗ (on (λ (o : ProjectionStruct T). o.spec) spec_shape
              ⊗ on (λ (o : ProjectionStruct T). o.status) status_shape))

  abbrev pub cluster_projection_shape : Shape (Cell T) (ClusterProjectionStruct T)
  cluster_projection_shape =
      flat_as (λ (o : ClusterProjectionStruct T). o.type_meta)
      ⊗ (on (λ (o : ClusterProjectionStruct T). o.meta) doc.meta_shape
          ⊗ (on (λ (o : ClusterProjectionStruct T). o.spec) cluster_spec_shape
              ⊗ on (λ (o : ClusterProjectionStruct T). o.status) cluster_status_shape))

  pub copy_cluster_destination-IsDeep :
      IsDeep cluster_destination_shape (copy_cluster_destination lib)
  unfolding copy_cluster_destination
  copy_cluster_destination-IsDeep h o (_, (in_namespaces, in_selector)) =
      let (namespaces, h') = copy_ref texts as_texts copy_flat o.namespaces h in
      let (sel, h'') = copy_ref selector as_selector lib.copy_selector o.namespace_selector h' in
      let out : ClusterDestinationStruct = record o {
        namespaces = namespaces;
        namespace_selector = sel;
      } in
      let list = flat_as (λ (xs : List String). xs) in
      let namespaces_of = λ (o : ClusterDestinationStruct). o.namespaces in
      let selector_of = λ (o : ClusterDestinationStruct). o.namespace_selector in
      let rest = on selector_of (behind doc.selector_shape as_selector) in
      IsCopy-kept (λ (o : ClusterDestinationStruct). o.name)
        (on namespaces_of (behind list as_texts) ⊗ rest) h h'' o out refl
        (in_namespaces, in_selector)
        (IsCopy-then namespaces_of (behind list as_texts) rest h h' h'' o out
          (copy_ref-IsDeep list as_texts texts copy_flat (λ xs. refl)
            (λ h xs w. flat-IsCopy (λ (xs : List String). xs) h xs xs refl) h o.namespaces
            in_namespaces)
          in_selector
          (λ w. IsCopy-on selector_of (behind doc.selector_shape as_selector) h' h'' o out (
            copy_ref-IsDeep doc.selector_shape as_selector selector lib.copy_selector (λ s. refl)
              doc.copy_selector-IsDeep h' o.namespace_selector w)))
