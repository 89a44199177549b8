-- ===== src/Destination.antt =====
-- internal/controller/destination.go: the ownership stamps, the transform from a source to its
-- destination, and the comparison that spares an update. Writing is in Destination/Write.antt.
pub mod Write
pub mod Strip
pub mod Drift
pub mod Owner
pub mod Stamp
pub mod Build
pub mod Mirror
use projection.Prelude.{
  Bool, true, false, ◌&&◌, ◌||◌, not, Option, none, some, List, [], ◌∷◌, String, ◌<>◌, ◌==◌,
  if◌then◌else◌,
}
use projection.Prelude.Dict.{Dict, insert, erase_all, merge, index}
use projection.Kube.Value.{
  Value, null, obj, Fields, end, field, get_field, set_field, delete_field, delete_fields,
}
use projection.Kube.Diff.{deep_equal, maps_equal}
use projection.Kube.Object.{
  Accessors, GroupVersionKind, annotations_field, labels_field, name_field, namespace_field,
  metadata,
}
use projection.Kube.Api.{Overlay, Projection, ClusterProjection}

abbrev pub owned_by_annotation : String
owned_by_annotation = "projection.sh/owned-by-projection"

abbrev pub owned_by_uid_label : String
owned_by_uid_label = "projection.sh/owned-by-projection-uid"

abbrev pub owned_by_cluster_annotation : String
owned_by_cluster_annotation = "projection.sh/owned-by-cluster-projection"

abbrev pub owned_by_cluster_uid_label : String
owned_by_cluster_uid_label = "projection.sh/owned-by-cluster-projection-uid"

abbrev pub dropped_metadata_fields : List String
dropped_metadata_fields =
    "resourceVersion" ∷ "uid" ∷ "generation" ∷ "creationTimestamp" ∷ "deletionTimestamp"
    ∷ "deletionGracePeriodSeconds" ∷ "managedFields" ∷ "selfLink" ∷ "generateName"
    ∷ "ownerReferences" ∷ "finalizers" ∷ []

abbrev pub last_applied : String
last_applied = "kubectl.kubernetes.io/last-applied-configuration"

abbrev pub dropped_annotations : List String
dropped_annotations = last_applied ∷ []

abbrev is_kind : String → String → String → GroupVersionKind → Bool
is_kind group version kind gvk = gvk.group == group && gvk.version == version && gvk.kind == kind

abbrev job_label : String → List String
job_label label = "spec" ∷ "template" ∷ "metadata" ∷ "labels" ∷ label ∷ []

-- A kind that is not listed has no path to drop.
unfoldable pub dropped_spec_fields_by_gvk : GroupVersionKind → List (List String)
dropped_spec_fields_by_gvk gvk =
    if is_kind "" "v1" "Service" gvk
    then ("spec" ∷ "clusterIP" ∷ [])
      ∷ ("spec" ∷ "clusterIPs" ∷ [])
      ∷ ("spec" ∷ "ipFamilies" ∷ [])
      ∷ ("spec" ∷ "ipFamilyPolicy" ∷ [])
      ∷ []
    else if is_kind "" "v1" "PersistentVolumeClaim" gvk
    then ("spec" ∷ "volumeName" ∷ []) ∷ []
    else if is_kind "" "v1" "Pod" gvk
    then ("spec" ∷ "nodeName" ∷ []) ∷ []
    else if is_kind "batch" "v1" "Job" gvk
    then job_label "batch.kubernetes.io/controller-uid"
      ∷ job_label "batch.kubernetes.io/job-name"
      ∷ job_label "controller-uid"
      ∷ ("spec" ∷ "selector" ∷ [])
      ∷ []
    else []

-- Namespace and name.
unfoldable pub destination_coords : Projection → String × String
destination_coords proj = (
  proj.meta.namespace,
  if proj.spec.destination.name == "" then proj.spec.source.name else proj.spec.destination.name,
)

unfoldable pub cluster_destination_name : ClusterProjection → String
cluster_destination_name cp =
    if not (cp.spec.destination.name == "") then cp.spec.destination.name else cp.spec.source.name

unfoldable pub owner_key : Projection → String
owner_key proj = proj.meta.namespace <> ("/" <> proj.meta.name)

unfoldable pub cluster_owner_key : ClusterProjection → String
cluster_owner_key cp = cp.meta.name

unfoldable pub owned_by_uid_selector : Projection → String
owned_by_uid_selector proj = owned_by_uid_label <> ("=" <> proj.meta.uid)

unfoldable pub owned_by_cluster_uid_selector : ClusterProjection → String
owned_by_cluster_uid_selector cp = owned_by_cluster_uid_label <> ("=" <> cp.meta.uid)

-- `metadata, ok := dst.Object["metadata"].(map[string]interface{})`, and the deletes if it is one.
unfoldable pub strip_metadata : Fields → Fields
strip_metadata o = elim (metadata o) [
  | none ↦ o
  | some m ↦ set_field "metadata" (obj (delete_fields dropped_metadata_fields m)) o
]

abbrev pub or_empty : Option (Dict String) → Dict String
or_empty none = []
or_empty (some m) = m

-- `dst.Object[k]`, where a missing key reads as a nil `interface{}`.
abbrev pub index_field : String → Fields → Value
index_field k o = elim (get_field k o) [ none ↦ null | some v ↦ v ]

abbrev pub keys_of : Fields → List String
keys_of end = []
keys_of (field k v m) = k ∷ keys_of m

-- One of the keys, other than `metadata` and `status`, has different values.
unfoldable pub differs : List String → Fields → Fields → Bool
differs [] existing desired = false
differs (k ∷ ks) existing desired =
    let rest = differs ks existing desired in
    if k == "metadata" || k == "status"
    then rest
    else if not (deep_equal (index_field k existing) (index_field k desired))
    then true
    else rest

module _ (a : Accessors) where
  unfoldable pub is_owned_by : Fields → Projection → Bool
  is_owned_by o proj = index (a.get_map annotations_field o) owned_by_annotation == owner_key proj

  unfoldable pub is_owned_by_cluster : Fields → ClusterProjection → Bool
  is_owned_by_cluster o cp =
      index (a.get_map annotations_field o) owned_by_cluster_annotation == cluster_owner_key cp

  -- `for _, path := range paths { unstructured.RemoveNestedField(dst.Object, path...) }`
  unfoldable pub remove_nested_fields : List (List String) → Fields → Fields
  remove_nested_fields [] o = o
  remove_nested_fields (path ∷ paths) o = remove_nested_fields paths (a.remove_nested_field path o)

  unfoldable pub stripped : Fields → Fields
  stripped source = delete_field "status" (
      remove_nested_fields (dropped_spec_fields_by_gvk (a.group_version_kind source))
        (strip_metadata source))

  -- The object, and the merged labels and annotations.
  unfoldable pub build_destination_core : Fields → Overlay → Fields × Dict String × Dict String
  build_destination_core source overlay =
      let dst = stripped source in
      let annotations =
        merge overlay.annotations
          (erase_all dropped_annotations (or_empty (a.get_map annotations_field dst))) in
      let lbls = merge overlay.labels (or_empty (a.get_map labels_field dst)) in
      (dst, lbls, annotations)

  -- The stamps and the coordinates go on top of the shared transform.
  unfoldable pub build_destination : Fields → Projection → String → Fields
  build_destination source proj target_namespace =
      let (dst, lbls, annotations) = build_destination_core source proj.spec.overlay in
      let dst' =
        a.set_map annotations_field (insert owned_by_annotation (owner_key proj) annotations) dst in
      let dst'' = a.set_map labels_field (insert owned_by_uid_label proj.meta.uid lbls) dst' in
      let name =
        if proj.spec.destination.name == ""
        then proj.spec.source.name
        else proj.spec.destination.name in
      a.set_text name_field name (a.set_text namespace_field target_namespace dst'')

  unfoldable pub build_cluster_destination : Fields → ClusterProjection → String → Fields
  build_cluster_destination source cp target_namespace =
      let (dst, lbls, annotations) = build_destination_core source cp.spec.overlay in
      let dst' =
        a.set_map annotations_field
          (insert owned_by_cluster_annotation (cluster_owner_key cp) annotations) dst in
      let dst'' =
        a.set_map labels_field (insert owned_by_cluster_uid_label cp.meta.uid lbls) dst' in
      a.set_text name_field (cluster_destination_name cp)
        (a.set_text namespace_field target_namespace dst'')

  -- The loop over the paths that the apiserver owns.
  unfoldable pub preserve_paths : List (List String) → Fields → Fields → Fields
  preserve_paths [] existing desired = desired
  preserve_paths (path ∷ paths) existing desired =
      preserve_paths paths existing (elim (a.nested_field_copy existing path) [
        | none ↦ desired
        | some val ↦ a.set_nested_field val path desired
      ])

  unfoldable pub preserve_api_server_allocated_fields : Fields → Fields → Fields
  preserve_api_server_allocated_fields existing desired =
      preserve_paths (dropped_spec_fields_by_gvk (a.group_version_kind desired)) existing desired

  -- The keys of both objects, each object's in turn; a key may come twice.
  unfoldable pub needs_update : Fields → Fields → Bool
  needs_update existing desired =
      if not (maps_equal (a.get_map labels_field existing) (a.get_map labels_field desired))
      then true
      else if not
          (maps_equal (a.get_map annotations_field existing) (a.get_map annotations_field desired))
      then true
      else differs (keys_of existing) existing desired || differs (keys_of desired) existing desired
