-- ===== src/Source.antt =====
-- internal/controller/source.go: where the source of a projection is, and whether it may be
-- projected.
pub mod Policy
pub mod Key
use projection.Prelude.{
  Bool, true, false, ◌&&◌, not, Option, none, some, String, ◌<>◌, ◌==◌, if◌then◌else◌,
}
use projection.Prelude.Dict.{Dict, lookup}
use projection.Kube.Value.{Fields}
use projection.Kube.Object.{Accessors, annotations_field, name_field, namespace_field}
use projection.Kube.Api.{SourceRef}
use projection.Kube.Server.{Error, Reply, ok, err, GroupVersionResource, RestMapping, RestMapper}

abbrev pub projectable_annotation : String
projectable_annotation = "projection.sh/projectable"

-- `SourceMode` is a string in the source; `""` stands for a reconciler built without one.
abbrev pub source_mode_permissive : String
source_mode_permissive = "permissive"

abbrev pub source_mode_allowlist : String
source_mode_allowlist = "allowlist"

unfoldable pub source_key : SourceRef → String
source_key s = s.group <> ("/" <> (s.kind <> ("/" <> (s.namespace <> ("/" <> s.name)))))

unfoldable pub format_gv : SourceRef → String
format_gv src =
    let v = if src.version == "" then "*" else src.version in
    if src.group == "" then v else src.group <> ("/" <> v)

-- `fmt.Errorf("resolving …: %w", err)`: the wrapped error still answers `IsNotFound`.
pub resolving : SourceRef → Error → Error
resolving src e = record {
  is_not_found = e.is_not_found;
  message = "resolving " <> (format_gv src <> ("/" <> (src.kind <> (": " <> e.message))));
}

pub cluster_scoped : SourceRef → Error
cluster_scoped src = record {
  is_not_found = false;
  message =
      format_gv src
      <> ("/" <> (src.kind <> " is cluster-scoped; projection only mirrors namespaced resources"));
}

abbrev resolve_mapping : SourceRef → Reply RestMapping → Reply (GroupVersionResource × String)
resolve_mapping src (err e) = err (resolving src e)
resolve_mapping src (ok mapping) =
    if mapping.is_namespaced
    then ok (mapping.resource, mapping.version)
    else err (cluster_scoped src)

unfoldable pub resolve_gvr : RestMapper → SourceRef → Reply (GroupVersionResource × String)
resolve_gvr mapper src =
    resolve_mapping src
      (mapper src.group src.kind (if src.version == "" then none else some src.version))

-- `val, hasAnnotation := source.GetAnnotations()[projectableAnnotation]`
abbrev pub annotation : Option (Dict String) → Option String
annotation none = none
annotation (some m) = lookup projectable_annotation m

-- `val != "true"`, where a missing annotation reads as the empty text.
abbrev is_text : String → Option String → Bool
is_text s none = false
is_text s (some v) = v == s

module _ (a : Accessors) where
  pub opted_out_message : Fields → String
  opted_out_message source =
      "source "
      <> (a.get_text namespace_field source
          <> ("/"
              <> (a.get_text name_field source
                  <> (" has "
                      <> (projectable_annotation
                          <> "=\"false\"; owner has opted out of projection")))))

  pub not_projectable_message : Fields → String
  not_projectable_message source =
      "source-mode=allowlist requires annotation "
      <> (projectable_annotation
          <> ("=\"true\" on source "
              <> (a.get_text namespace_field source <> ("/" <> a.get_text name_field source))))

  -- Reason, message, and whether the source may be projected.
  unfoldable pub check_projectable : Fields → String → String × String × Bool
  check_projectable source mode =
      let val = annotation (a.get_map annotations_field source) in
      let mode' = if mode == "" then source_mode_allowlist else mode in
      if is_text "false" val
      then ("SourceOptedOut", opted_out_message source, false)
      else if (mode' == source_mode_allowlist) && not (is_text "true" val)
      then ("SourceNotProjectable", not_projectable_message source, false)
      else ("", "", true)
