-- ===== src/Conditions.antt =====
-- internal/controller/conditions.go, and its cluster siblings in cluster_projection_controller.go:
-- how a reconcile that ends reports on the status.
pub mod Agreement
pub mod ClusterCalls
use projection.Prelude.{
  ℕ, Bool, ◌||◌, not, Option, none, some, List, String, ◌<>◌, ◌==◌, if◌then◌else◌,
}
use projection.Kube.Api.{
  ℤ, pos, SourceRef, Condition, ConditionStatus, condition_true, condition_false, condition_unknown,
  Projection, ClusterProjection,
}
use projection.Kube.Server.{Server, Error, Reply, ok, err, Helpers}
use projection.Kube.World.{
  World, projection_ref, cluster_projection_ref, event_warning, projection_status_call,
  cluster_projection_status_call, kind_projection, kind_cluster_projection, Outcome, result_success,
  result_conflict, result_source_error, result_destination_error, emit, count_outcome, write,
}
use projection.Destination.{destination_coords, cluster_destination_name}
use projection.Finalizer.{Deps}

abbrev pub condition_ready : String
condition_ready = "Ready"

abbrev pub condition_source_resolved : String
condition_source_resolved = "SourceResolved"

abbrev pub condition_destination_written : String
condition_destination_written = "DestinationWritten"

abbrev pub not_attempted : String
not_attempted = "destination write not attempted because source resolution failed"

unfoldable pub resolved_version_message : SourceRef → String → String
resolved_version_message src resolved_version =
    if not (src.version == "") || resolved_version == ""
    then ""
    else "resolved "
      <> (src.group <> ("/" <> (src.kind <> (" to preferred version " <> resolved_version))))

-- The settings of a reconciler. `has_controller` says that neither `Controller` nor `Cache` is nil.
pub record Settings : Type 0 where
  pub source_mode : String
  pub requeue_interval : ℤ
  pub selector_write_concurrency : ℤ
  pub has_controller : Bool

-- `ctrl.Result`'s `RequeueAfter`, and the error.
abbrev pub Completion : Type 0
Completion = ℤ × Option Error

-- After the status update: an error is returned, or the reconcile is tried again later.
abbrev after_status {ℓ} : {A : Type ℓ} → ℤ → Reply A → Completion
after_status requeue (ok _) = (requeue, none)
after_status requeue (err e) = (pos 0, some e)

module _ (h : Helpers) where
  unfoldable pub set_condition_on :
      List Condition → String → ConditionStatus → String → String → List Condition
  set_condition_on conditions condition_type status reason message =
      h.set_status_condition conditions (record {
        condition_type = condition_type;
        status = status;
        reason = reason;
        message = message;
      })

  abbrev pub set_condition : Projection → String → ConditionStatus → String → String → Projection
  set_condition proj condition_type status reason message = record proj {
    status = record proj.status {
      conditions = set_condition_on proj.status.conditions condition_type status reason message;
    };
  }

  abbrev pub set_cluster_condition :
      ClusterProjection → String → ConditionStatus → String → String → ClusterProjection
  set_cluster_condition cp condition_type status reason message = record cp {
    status = record cp.status {
      conditions = set_condition_on cp.status.conditions condition_type status reason message;
    };
  }

  -- The three conditions of a source that was not resolved.
  unfoldable pub source_failed : String → String → Projection → Projection
  source_failed reason msg proj =
      set_condition
        (set_condition (set_condition proj condition_source_resolved condition_false reason msg)
          condition_destination_written condition_unknown "SourceNotResolved" not_attempted)
        condition_ready condition_false reason msg

  unfoldable pub destination_failed : String → String → String → Projection → Projection
  destination_failed resolved_version reason msg proj =
      set_condition
        (set_condition
          (set_condition proj condition_source_resolved condition_true "Resolved"
            (resolved_version_message proj.spec.source resolved_version))
          condition_destination_written condition_false reason msg)
        condition_ready condition_false reason msg

  unfoldable pub all_ready : String → Projection → Projection
  all_ready resolved_version proj =
      let ready =
        set_condition
          (set_condition
            (set_condition proj condition_source_resolved condition_true "Resolved"
              (resolved_version_message proj.spec.source resolved_version))
            condition_destination_written condition_true "Projected" "")
          condition_ready condition_true "Projected" "" in
      record ready {
        status = record ready.status { destination_name = (destination_coords proj).1 };
      }

  unfoldable pub cluster_source_failed : String → String → ClusterProjection → ClusterProjection
  cluster_source_failed reason msg cp =
      set_cluster_condition
        (set_cluster_condition
          (set_cluster_condition cp condition_source_resolved condition_false reason msg)
          condition_destination_written condition_unknown "SourceNotResolved" not_attempted)
        condition_ready condition_false reason msg

  unfoldable pub cluster_destination_failed :
      String → String → String → ClusterProjection → ClusterProjection
  cluster_destination_failed resolved_version reason msg cp =
      set_cluster_condition
        (set_cluster_condition
          (set_cluster_condition cp condition_source_resolved condition_true "Resolved"
            (resolved_version_message cp.spec.source resolved_version))
          condition_destination_written condition_false reason msg)
        condition_ready condition_false reason msg

  unfoldable pub all_cluster_ready : String → ClusterProjection → ClusterProjection
  all_cluster_ready resolved_version cp =
      set_cluster_condition
        (set_cluster_condition
          (set_cluster_condition cp condition_source_resolved condition_true "Resolved"
            (resolved_version_message cp.spec.source resolved_version))
          condition_destination_written condition_true "Projected" "")
        condition_ready condition_true "Projected" ""

abbrev pub with_counts : ClusterProjection → ℤ → ℤ → ClusterProjection
with_counts cp written failed = record cp {
  status = record cp.status { namespaces_written = written; namespaces_failed = failed };
}

abbrev pub with_destination_name : ClusterProjection → ClusterProjection
with_destination_name cp = record cp {
  status = record cp.status { destination_name = cluster_destination_name cp };
}

abbrev outcome_of_reason : String → Outcome
outcome_of_reason reason =
    if reason == "DestinationConflict" then result_conflict else result_destination_error

module _ {S : Server} (d : Deps) (r : Settings) where
  unfoldable pub fail_source :
      Projection → String → String → String → World S → Completion × World S
  fail_source proj reason action msg w =
      let proj' = source_failed d.helpers reason msg proj in
      let (reply, w') = write (projection_status_call proj') (S.update_projection_status proj') (
        count_outcome kind_projection result_source_error (
          emit (projection_ref proj.meta.namespace proj.meta.name) event_warning reason action msg
            w)) in
      (after_status r.requeue_interval reply, w')

  unfoldable pub fail_destination :
      Projection → String → String → String → World S → Completion × World S
  fail_destination proj resolved_version reason msg w =
      let proj' = destination_failed d.helpers resolved_version reason msg proj in
      let (reply, w') =
        write (projection_status_call proj') (S.update_projection_status proj')
          (count_outcome kind_projection (outcome_of_reason reason) w) in
      (after_status r.requeue_interval reply, w')

  unfoldable pub mark_all_ready : Projection → String → World S → Option Error × World S
  mark_all_ready proj resolved_version w =
      let proj' = all_ready d.helpers resolved_version proj in
      let (reply, w') = write (projection_status_call proj') (S.update_projection_status proj') w in
      elim reply [
        | err e ↦ (some e, w')
        | ok _ ↦ (none, count_outcome kind_projection result_success w')
      ]

  unfoldable pub fail_cluster_source :
      ClusterProjection → String → String → String → World S → Completion × World S
  fail_cluster_source cp reason action msg w =
      let cp' = cluster_source_failed d.helpers reason msg cp in
      let (reply, w') =
        write (cluster_projection_status_call cp') (S.update_cluster_projection_status cp') (
          count_outcome kind_cluster_projection result_source_error
            (emit (cluster_projection_ref cp.meta.name) event_warning reason action msg w)) in
      (after_status r.requeue_interval reply, w')

  -- The end of the two functions below: the status is sent, and the reconcile is tried again.
  unfoldable pub report_cluster_failure : ClusterProjection → World S → Completion × World S
  report_cluster_failure cp w =
      let (reply, w') =
        write (cluster_projection_status_call cp) (S.update_cluster_projection_status cp)
          (count_outcome kind_cluster_projection result_destination_error w) in
      (after_status r.requeue_interval reply, w')

  unfoldable pub fail_cluster_destination :
      ClusterProjection → String → String → String → World S → Completion × World S
  unfolding report_cluster_failure
  fail_cluster_destination cp resolved_version reason msg w =
      report_cluster_failure
        (with_counts (cluster_destination_failed d.helpers resolved_version reason msg cp) (pos 0)
          (pos 0))
        w

  unfoldable pub fail_cluster_destination_counts :
      ClusterProjection → String → String → String → ℤ → ℤ → World S → Completion × World S
  unfolding report_cluster_failure
  fail_cluster_destination_counts cp resolved_version reason msg written failed w =
      report_cluster_failure
        (with_counts
          (with_destination_name
            (cluster_destination_failed d.helpers resolved_version reason msg cp))
          written failed)
        w

  unfoldable pub mark_all_cluster_ready :
      ClusterProjection → String → ℤ → World S → Option Error × World S
  mark_all_cluster_ready cp resolved_version written w =
      let cp' =
        with_counts (with_destination_name (all_cluster_ready d.helpers resolved_version cp))
          written (pos 0) in
      let (reply, w') =
        write (cluster_projection_status_call cp') (S.update_cluster_projection_status cp') w in
      elim reply [
        | err e ↦ (some e, w')
        | ok _ ↦ (none, count_outcome kind_cluster_projection result_success w')
      ]
