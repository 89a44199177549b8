-- ===== src/Copies.antt =====
-- api/v1/zz_generated.deepcopy.go: the deep copies of the custom resources. A struct is its fields, a
-- slice, a map or a pointer is a reference to a cell. `*out = *in` copies the fields, and each
-- reference is then set to a copy of what is behind it.
pub mod Into
pub mod New
pub mod Deep
pub mod Objects
pub mod Pointers
pub mod Separate
use projection.Heap.{Ref}
use projection.Kube.Api.{ℤ, pos, SourceRef, ProjectionDestination}
use projection.Prelude.{[], String, none, List}
use projection.Prelude.Dict.{Dict}

-- Types of apimachinery: `metav1.TypeMeta`, `ObjectMeta`, `ListMeta`, `LabelSelector` and `Condition`,
-- and what the library itself puts into memory.
pub record LibraryTypes : Type 1 where
  pub TypeMeta : Type 0
  pub ObjectMeta : Type 0
  pub ListMeta : Type 0
  pub LabelSelector : Type 0
  pub Condition : Type 0
  pub Inner : Type 0
  -- The zero values of Go.
  pub zero_type_meta : TypeMeta
  pub zero_meta : ObjectMeta
  pub zero_list_meta : ListMeta
  pub zero_selector : LabelSelector

-- The structs, with references in place of slices, maps and pointers.
pub record OverlayStruct : Type 0 where
  pub labels : Ref
  pub annotations : Ref

pub record ProjectionSpecStruct : Type 0 where
  pub source : SourceRef
  pub destination : ProjectionDestination
  pub overlay : OverlayStruct

pub record ProjectionStatusStruct : Type 0 where
  pub conditions : Ref
  pub destination_name : String

pub record ClusterDestinationStruct : Type 0 where
  pub namespaces : Ref
  pub namespace_selector : Ref
  pub name : String

pub record ClusterSpecStruct : Type 0 where
  pub source : SourceRef
  pub destination : ClusterDestinationStruct
  pub overlay : OverlayStruct

pub record ClusterStatusStruct : Type 0 where
  pub conditions : Ref
  pub destination_name : String
  pub namespaces_written : ℤ
  pub namespaces_failed : ℤ

pub record ProjectionStruct (T : LibraryTypes) : Type 0 where
  pub type_meta : T.TypeMeta
  pub meta : T.ObjectMeta
  pub spec : ProjectionSpecStruct
  pub status : ProjectionStatusStruct

pub record ClusterProjectionStruct (T : LibraryTypes) : Type 0 where
  pub type_meta : T.TypeMeta
  pub meta : T.ObjectMeta
  pub spec : ClusterSpecStruct
  pub status : ClusterStatusStruct

-- `ProjectionList` and `ClusterProjectionList`.
pub record ListStruct (T : LibraryTypes) : Type 0 where
  pub type_meta : T.TypeMeta
  pub list_meta : T.ListMeta
  pub items : Ref

abbrev pub zero_source : SourceRef
zero_source = record { group = ""; version = ""; kind = ""; namespace = ""; name = "" }

abbrev pub zero_spec : ProjectionSpecStruct
zero_spec = record {
  source = zero_source;
  destination = record { name = "" };
  overlay = record { labels = none; annotations = none };
}

abbrev pub zero_status : ProjectionStatusStruct
zero_status = record { conditions = none; destination_name = "" }

abbrev pub zero_cluster_destination : ClusterDestinationStruct
zero_cluster_destination = record { namespaces = none; namespace_selector = none; name = "" }

abbrev pub zero_cluster_spec : ClusterSpecStruct
zero_cluster_spec = record {
  source = zero_source;
  destination = zero_cluster_destination;
  overlay = record { labels = none; annotations = none };
}

abbrev pub zero_cluster_status : ClusterStatusStruct
zero_cluster_status = record {
  conditions = none;
  destination_name = "";
  namespaces_written = pos 0;
  namespaces_failed = pos 0;
}

-- What an address holds.
pub data Cell (T : LibraryTypes) : Type 0 where
  texts : List String → Cell T
  text_map : Dict String → Cell T
  selector : T.LabelSelector → Cell T
  conditions : List T.Condition → Cell T
  projections : List (ProjectionStruct T) → Cell T
  cluster_projections : List (ClusterProjectionStruct T) → Cell T
  source_cell : SourceRef → Cell T
  destination_cell : ProjectionDestination → Cell T
  overlay_cell : OverlayStruct → Cell T
  spec_cell : ProjectionSpecStruct → Cell T
  status_cell : ProjectionStatusStruct → Cell T
  cluster_destination_cell : ClusterDestinationStruct → Cell T
  cluster_spec_cell : ClusterSpecStruct → Cell T
  cluster_status_cell : ClusterStatusStruct → Cell T
  projection_cell : ProjectionStruct T → Cell T
  cluster_projection_cell : ClusterProjectionStruct T → Cell T
  list_cell : ListStruct T → Cell T
  inner : T.Inner → Cell T

-- A cell read at its type. A reference of a Go type never leads to a cell of another one, which would
-- read as the zero value here.
module _ {T : LibraryTypes} where
  abbrev pub as_texts : Cell T → List String
  as_texts (texts x) = x
  as_texts _ = []

  abbrev pub as_text_map : Cell T → Dict String
  as_text_map (text_map x) = x
  as_text_map _ = []

  abbrev pub as_selector : Cell T → T.LabelSelector
  as_selector (selector x) = x
  as_selector _ = T.zero_selector

  abbrev pub as_conditions : Cell T → List T.Condition
  as_conditions (conditions x) = x
  as_conditions _ = []

  abbrev pub as_projections : Cell T → List (ProjectionStruct T)
  as_projections (projections x) = x
  as_projections _ = []

  abbrev pub as_cluster_projections : Cell T → List (ClusterProjectionStruct T)
  as_cluster_projections (cluster_projections x) = x
  as_cluster_projections _ = []

  abbrev pub as_source_cell : Cell T → SourceRef
  as_source_cell (source_cell x) = x
  as_source_cell _ = zero_source

  abbrev pub as_destination_cell : Cell T → ProjectionDestination
  as_destination_cell (destination_cell x) = x
  as_destination_cell _ = record { name = "" }

  abbrev pub as_overlay_cell : Cell T → OverlayStruct
  as_overlay_cell (overlay_cell x) = x
  as_overlay_cell _ = record { labels = none; annotations = none }

  abbrev pub as_spec_cell : Cell T → ProjectionSpecStruct
  as_spec_cell (spec_cell x) = x
  as_spec_cell _ = zero_spec

  abbrev pub as_status_cell : Cell T → ProjectionStatusStruct
  as_status_cell (status_cell x) = x
  as_status_cell _ = zero_status

  abbrev pub as_cluster_destination_cell : Cell T → ClusterDestinationStruct
  as_cluster_destination_cell (cluster_destination_cell x) = x
  as_cluster_destination_cell _ = zero_cluster_destination

  abbrev pub as_cluster_spec_cell : Cell T → ClusterSpecStruct
  as_cluster_spec_cell (cluster_spec_cell x) = x
  as_cluster_spec_cell _ = zero_cluster_spec

  abbrev pub as_cluster_status_cell : Cell T → ClusterStatusStruct
  as_cluster_status_cell (cluster_status_cell x) = x
  as_cluster_status_cell _ = zero_cluster_status

  abbrev pub as_projection_cell : Cell T → ProjectionStruct T
  as_projection_cell (projection_cell x) = x
  as_projection_cell _ = record {
    type_meta = T.zero_type_meta;
    meta = T.zero_meta;
    spec = zero_spec;
    status = zero_status;
  }

  abbrev pub as_cluster_projection_cell : Cell T → ClusterProjectionStruct T
  as_cluster_projection_cell (cluster_projection_cell x) = x
  as_cluster_projection_cell _ = record {
    type_meta = T.zero_type_meta;
    meta = T.zero_meta;
    spec = zero_cluster_spec;
    status = zero_cluster_status;
  }

  abbrev pub as_list_cell : Cell T → ListStruct T
  as_list_cell (list_cell x) = x
  as_list_cell _ = record {
    type_meta = T.zero_type_meta;
    list_meta = T.zero_list_meta;
    items = none;
  }
