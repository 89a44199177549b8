-- ===== src/Reconcile.antt =====
-- internal/controller/projection_controller.go: `ProjectionReconciler.Reconcile`, with
-- `handleSourceFetchError` of source.go. The logger's lines are left out.
pub mod Calls
pub mod Stages
pub mod Safety
pub mod Policy
pub mod Retries
pub mod Whole
use projection.Prelude.{not, Option, none, some, String, ◌<>◌, ◌==◌, if◌then◌else◌}
use projection.Kube.Value.{Fields}
use projection.Kube.Object.{GroupVersionKind}
use projection.Kube.Api.{pos, SourceRef, Projection}
use projection.Kube.Server.{Server, Error, ok, err, GroupVersionResource}
use projection.Kube.World.{World, read}
use projection.Source.{resolve_gvr, check_projectable}
use projection.Destination.Write.{write_destination, coordinates}
use projection.Cleanup.{delete_destination, delete_all_owned_destinations}
use projection.Finalizer.{Deps, handle_deletion, ensure_finalizer}
use projection.Conditions.{Settings, Completion, fail_source, fail_destination, mark_all_ready}
use projection.Watches.{ensure_source_watch, ensure_dest_watch}

-- `client.IgnoreNotFound`
abbrev pub ignore_not_found : Error → Option Error
ignore_not_found e = if e.is_not_found then none else some e

abbrev pub source_coordinates : SourceRef → String
source_coordinates src = coordinates src.namespace src.name

-- The kind to watch: the resolved version, not the one that the spec names.
abbrev pub watch_gvk : GroupVersionResource → String → SourceRef → GroupVersionKind
watch_gvk gvr resolved_version src = record {
  group = gvr.group;
  version = resolved_version;
  kind = src.kind;
}

-- Reason and message of a source that is gone, told apart by the status' `destinationName`.
abbrev pub missing_source : String → SourceRef → String × String
missing_source destination_name src =
    if not (destination_name == "")
    then ("SourceDeleted", "source " <> (source_coordinates src <> " has been deleted"))
    else ("SourceNotFound", "source " <> (source_coordinates src <> " not found"))

module _ {S : Server} (d : Deps) (r : Settings) where
  unfoldable pub handle_source_fetch_error :
      Projection → GroupVersionResource → Error → World S → Completion × World S
  handle_source_fetch_error proj gvr e w =
      let (_, w') = delete_all_owned_destinations d.accessors proj gvr w in
      let (reason, msg) = missing_source proj.status.destination_name proj.spec.source in
      if not e.is_not_found
      then fail_source d r proj "SourceFetchFailed" "Get" e.message w
      else fail_source d r proj reason "Get" msg w'

  -- From `writeDestination` on.
  unfoldable pub reconcile_projectable :
      Projection → GroupVersionResource → String → Fields → World S → Completion × World S
  reconcile_projectable proj gvr resolved_version source w =
      let ((reason, msg), w') = write_destination d.accessors proj source w in
      let (_, w'') = ensure_dest_watch r (watch_gvk gvr resolved_version proj.spec.source) w' in
      let (failed, w‴) = mark_all_ready d r proj resolved_version w'' in
      if not (reason == "")
      then fail_destination d r proj resolved_version reason msg w'
      else ((pos 0, failed), w‴)

  -- From the policy check on. A cleanup that fails is logged.
  unfoldable pub reconcile_fetched :
      Projection → GroupVersionResource → String → Fields → World S → Completion × World S
  reconcile_fetched proj gvr resolved_version source w =
      let (reason, msg, projectable) = check_projectable d.accessors source r.source_mode in
      let (_, w') = delete_destination d.accessors d.mapper proj w in
      if not projectable
      then fail_source d r proj reason "Validate" msg w'
      else reconcile_projectable proj gvr resolved_version source w

  -- From the resolved kind on. A watch that cannot be registered is logged.
  unfoldable pub reconcile_resolved :
      Projection → GroupVersionResource → String → World S → Completion × World S
  reconcile_resolved proj gvr resolved_version w =
      let src = proj.spec.source in
      let (_, w') = ensure_source_watch r (watch_gvk gvr resolved_version src) w in
      let (reply, w'') = read (S.get_resource gvr src.namespace src.name) w' in
      elim reply [
        | err e ↦ handle_source_fetch_error proj gvr e w''
        | ok source ↦ reconcile_fetched proj gvr resolved_version source w''
      ]

  -- From `resolveGVR` on.
  unfoldable pub reconcile_finalized : Projection → World S → Completion × World S
  reconcile_finalized proj w = elim (resolve_gvr d.mapper proj.spec.source) [
    | err e ↦ fail_source d r proj "SourceResolutionFailed" "Resolve" e.message w
    | ok (gvr, resolved_version) ↦ reconcile_resolved proj gvr resolved_version w
  ]

  -- From `ensureFinalizer` on.
  unfoldable pub reconcile_alive : Projection → World S → Completion × World S
  reconcile_alive proj w =
      let (reply, w') = ensure_finalizer d proj w in
      elim reply [ err e ↦ ((pos 0, some e), w') | ok proj' ↦ reconcile_finalized proj' w' ]

  unfoldable pub reconcile_found : Projection → World S → Completion × World S
  reconcile_found proj w =
      let ((handled, failed), w') = handle_deletion d proj w in
      if handled then ((pos 0, failed), w') else reconcile_alive proj w'

  unfoldable pub reconcile : String → String → World S → Completion × World S
  reconcile namespace name w =
      let (reply, w') = read (S.get_projection namespace name) w in
      elim reply [ err e ↦ ((pos 0, ignore_not_found e), w') | ok proj ↦ reconcile_found proj w' ]
