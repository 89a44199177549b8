-- ===== src/Kube/World.antt =====
-- What a reconcile reads and changes: the apiserver, and beside it the record of what the operator
-- did: the calls that write, the Kubernetes Events (internal/controller/deps.go) and the metrics
-- (internal/controller/metrics.go).
use projection.Prelude.{ℕ, Option, none, some, List, ◌∷◌, String}
use projection.Kube.Value.{Fields}
use projection.Kube.Object.{GroupVersionKind}
use projection.Kube.Api.{Projection, ClusterProjection}
use projection.Kube.Server.{Server, Reply, GroupVersionResource}

-- The object that an Event is about.
pub data Regarding : Type 0 where
  projection_ref : String → String → Regarding
  cluster_projection_ref : String → Regarding

pub data EventType : Type 0 where
  event_normal event_warning : EventType

pub record Event : Type 0 where
  pub regarding : Regarding
  pub event_type : EventType
  pub reason : String
  pub action : String
  pub note : String

-- A call that writes, with what it sends.
pub data Call : Type 0 where
  create_call update_call : Fields → Call
  delete_call : GroupVersionResource → String → String → Call
  projection_call projection_status_call : Projection → Call
  cluster_projection_call cluster_projection_status_call : ClusterProjection → Call

-- Values of the `result` label of `projection_reconcile_total`.
pub data Outcome : Type 0 where
  result_success result_conflict result_source_error result_destination_error : Outcome

-- Values of the `kind` label.
pub data Kind : Type 0 where
  kind_projection kind_cluster_projection : Kind

-- Newest first. `events` is `none` when the recorder is nil. `outcomes` are the increments of
-- `reconcileTotal`, `latencies` the observations of `e2eSeconds` under the event `create`.
-- `watched` and `watched_dests` are the maps of the reconciler that runs, the two numbers are the
-- process's gauges, which both reconcilers increment.
pub record World (S : Server) : Type 0 where
  pub server : S.State
  pub calls : List Call
  pub events : Option (List Event)
  pub outcomes : List (Kind × Outcome)
  pub latencies : List Kind
  pub watched : List GroupVersionKind
  pub watched_dests : List GroupVersionKind
  pub watched_gvks : ℕ
  pub watched_dest_gvks : ℕ

abbrev push : Event → Option (List Event) → Option (List Event)
push e none = none
push e (some events) = some (e ∷ events)

module _ {S : Server} where
  -- `emit`
  unfoldable pub emit : Regarding → EventType → String → String → String → World S → World S
  emit regarding event_type reason action note w = record w {
    events =
        push
          (record {
            regarding = regarding;
            event_type = event_type;
            reason = reason;
            action = action;
            note = note;
          })
          w.events;
  }

  unfoldable pub count_outcome : Kind → Outcome → World S → World S
  count_outcome kind outcome w = record w { outcomes = (kind, outcome) ∷ w.outcomes }

  unfoldable pub observe_latency : Kind → World S → World S
  observe_latency kind w = record w { latencies = kind ∷ w.latencies }

  -- A call that reads: only the state of the apiserver moves on.
  abbrev pub read : {A : Type 0} → (S.State → Reply A × S.State) → World S → Reply A × World S
  read request w = let (reply, server) = request w.server in (reply, record w { server = server })

  -- A call that writes is recorded with what it sends, whether or not it succeeds.
  abbrev pub write :
      {A : Type 0} → Call → (S.State → Reply A × S.State) → World S → Reply A × World S
  write call request w =
      let (reply, server) = request w.server in
      (reply, record w { server = server; calls = call ∷ w.calls })
