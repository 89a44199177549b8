-- ===== src/Conditions/Agreement.antt =====
-- The three conditions that internal/controller/conditions.go and its cluster siblings set agree.
use mathlib.Core.Path.{subst₃}
use projection.Kube.Api.{
  condition_true, condition_unknown, condition_false, Projection, ClusterProjection,
  ConditionStatus, Condition,
}
use projection.Conditions.{
  set_condition_on, condition_destination_written, condition_source_resolved, condition_ready,
  all_ready, all_cluster_ready, destination_failed, cluster_destination_failed, source_failed,
  cluster_source_failed,
}
use projection.Prelude.{
  sym, refl, inl, inr, false, true, [], ◌==◌, ◌⊎◌, ◌∷◌, if◌then◌else◌, ◌≡◌, some, none, String,
  Option, List,
}
use projection.Kube.Server.{Helpers}

-- `apimeta.FindStatusCondition`: the first condition of a type.
abbrev pub condition_at : String → List Condition → Option Condition
condition_at t [] = none
condition_at t (c ∷ cs) = if c.condition_type == t then some c else condition_at t cs

abbrev pub status_of : Option Condition → Option ConditionStatus
status_of none = none
status_of (some c) = some c.status

abbrev pub status_at : String → List Condition → Option ConditionStatus
status_at t cs = status_of (condition_at t cs)

-- What the libraries document of the helpers that the operator calls.
pub record IsDocumented (h : Helpers) : Type 0 where
  pub condition_at-set :
      (t : String) (cs : List Condition) (c : Condition)
      → condition_at t (h.set_status_condition cs c)
        ≡ (if c.condition_type == t then some c else condition_at t cs)
  pub contains-add :
      (fs : List String) (f : String) → h.contains_finalizer (h.add_finalizer fs f) f ≡ true
  pub contains-remove :
      (fs : List String) (f : String) → h.contains_finalizer (h.remove_finalizer fs f) f ≡ false

-- What `Ready` must say, from `SourceResolved` and `DestinationWritten`.
abbrev pub expected : Option ConditionStatus → Option ConditionStatus → Option ConditionStatus
expected (some condition_true) (some condition_true) = some condition_true
expected _ _ = some condition_false

-- `DestinationWritten` is unknown just where the source is not resolved.
abbrev pub Attempted : Option ConditionStatus → Option ConditionStatus → Type 0
Attempted (some condition_true) written =
    (written ≡ some condition_true) ⊎ (written ≡ some condition_false)
Attempted _ written = written ≡ some condition_unknown

abbrev pub Agree : List Condition → Type 0
Agree cs =
    (status_at condition_ready cs
      ≡ expected (status_at condition_source_resolved cs)
          (status_at condition_destination_written cs))
    × Attempted (status_at condition_source_resolved cs)
        (status_at condition_destination_written cs)

-- The conditions after the three are set in turn.
abbrev three : Helpers → Condition → Condition → Condition → List Condition → List Condition
three h resolved written ready cs =
    h.set_status_condition (h.set_status_condition (h.set_status_condition cs resolved) written)
      ready

abbrev condition : String → ConditionStatus → String → String → Condition
condition condition_type status reason message = record {
  condition_type = condition_type;
  status = status;
  reason = reason;
  message = message;
}

module _ (h : Helpers) (law : IsDocumented h) (cs : List Condition) (a b c : ConditionStatus)
    (ra ma rb mb rc mc : String) where
  abbrev after_three : List Condition
  after_three =
      three h (condition condition_source_resolved a ra ma)
        (condition condition_destination_written b rb mb) (condition condition_ready c rc mc) cs

  statuses :
      (status_at condition_source_resolved after_three ≡ some a)
      × (status_at condition_destination_written after_three ≡ some b)
      × (status_at condition_ready after_three ≡ some c)
  statuses = (
    rw (law.condition_at-set) (rw (law.condition_at-set) (rw law.condition_at-set)),
    rw (law.condition_at-set) (rw law.condition_at-set),
    rw law.condition_at-set,
  )

  -- The three agree where their statuses do.
  Agree-of_statuses :
      some c ≡ expected (some a) (some b) → Attempted (some a) (some b) → Agree after_three
  Agree-of_statuses e f =
      let (resolved, written, ready) = statuses in
      subst₃ (λ (r w d : Option ConditionStatus). (d ≡ expected r w) × Attempted r w) (sym resolved)
        (sym written) (sym ready) (e, f)

-- Whatever the conditions were, those of the three reports of the namespaced reconciler agree: `Ready`
-- is true just where the source is resolved and the destination is written, and false otherwise, and
-- the write is unknown just where the source is not resolved.
pub reports-Agree :
    (h : Helpers)
    → IsDocumented h
    → (proj : Projection) (resolved_version reason msg : String)
    → Agree (source_failed h reason msg proj).status.conditions
      × Agree (destination_failed h resolved_version reason msg proj).status.conditions
      × Agree (all_ready h resolved_version proj).status.conditions
unfolding source_failed destination_failed all_ready set_condition_on
reports-Agree h law proj resolved_version reason msg = (
  Agree-of_statuses h law proj.status.conditions condition_false condition_unknown condition_false _
      _ _ _ _ _ refl refl,
  Agree-of_statuses h law proj.status.conditions condition_true condition_false condition_false _ _
      _ _ _ _ refl (inr refl),
  Agree-of_statuses h law proj.status.conditions condition_true condition_true condition_true _ _ _
      _ _ _ refl (inl refl),
)

-- The same of the reports of the cluster reconciler.
pub cluster_reports-Agree :
    (h : Helpers)
    → IsDocumented h
    → (cp : ClusterProjection) (resolved_version reason msg : String)
    → Agree (cluster_source_failed h reason msg cp).status.conditions
      × Agree (cluster_destination_failed h resolved_version reason msg cp).status.conditions
      × Agree (all_cluster_ready h resolved_version cp).status.conditions
unfolding cluster_source_failed cluster_destination_failed all_cluster_ready set_condition_on
cluster_reports-Agree h law cp resolved_version reason msg = (
  Agree-of_statuses h law cp.status.conditions condition_false condition_unknown condition_false _ _
      _ _ _ _ refl refl,
  Agree-of_statuses h law cp.status.conditions condition_true condition_false condition_false _ _ _
      _ _ _ refl (inr refl),
  Agree-of_statuses h law cp.status.conditions condition_true condition_true condition_true _ _ _ _
      _ _ refl (inl refl),
)
