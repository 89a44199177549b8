-- ===== src/Lib.antt =====
-- Verification of the projection operator, which mirrors a Kubernetes object into other places.
--
-- A `Projection` names a source object and copies it into the projection's own namespace; a
-- `ClusterProjection` copies it into many namespaces, listed or selected by labels. Each custom
-- resource has a reconciler. A reconcile resolves the source's kind, fetches the source, asks the
-- source's policy, writes the destinations, sweeps what is stale, and reports in the status'
-- conditions, in Events and in metrics. Finalizers clean the destinations up; watches enqueue
-- reconciles.
--
-- Files, and the Go files they model:
--   Kube/Api: api/v1/source_types.go, projection_types.go and clusterprojection_types.go
--   Kube/Value, Kube/Diff: the tree of an unstructured object, Go's map operations on it, and the
--     deep equality of two such trees
--   Kube/Object, Kube/Server: what the repository calls and does not contain, as interfaces: the
--     accessors of unstructured objects, the apiserver and its clients, the RESTMapper, label
--     selectors, finalizer and condition helpers
--   Kube/World: internal/controller/metrics.go and the Events of internal/controller/deps.go; the
--     state of a reconcile, with a record of every call that writes
--   Source: internal/controller/source.go
--   Destination, Destination/Write: internal/controller/destination.go
--   Cleanup: internal/controller/cleanup.go
--   Finalizer: internal/controller/finalizer.go
--   Conditions: internal/controller/conditions.go, and the reports of the cluster reconciler
--   Watches, Watches/Locked: internal/controller/watches.go, and the index and event functions of
--     both reconcilers
--   Reconcile: Reconcile of internal/controller/projection_controller.go, in stages
--   Cluster, Cluster/FanOut and its Schedule, Cluster/Reconcile:
--     internal/controller/cluster_projection_controller.go
--   Manager, Manager/Setup: cmd/main.go, and SetupWithManager of both reconcilers
--   Heap, Copies and its Into and New: api/v1/zz_generated.deepcopy.go
--   Tests and its children: a concrete apiserver, with which the theorems' hypotheses hold
-- A Go function keeps its name in snake case. The other children of these modules hold the proofs,
-- in files named for what they are about: Source/Policy and Key, Destination/Strip, Stamp, Build,
-- Mirror, Drift and Owner, Destination/Write/Sent, Safety, Isolation and Drift, Cleanup/Calls, Safety
-- and Attempts,
-- Finalizer/Deletion and ClusterDeletion, Conditions/Agreement and ClusterCalls, Watches/Registered
-- and Events, Watches/Locked/Order and Progress, Reconcile/Calls, Stages, Safety, Policy, Retries
-- and Whole, Cluster/Safety, Policy, Targets, Namespaces, NamespaceEvents, Failures, Retries, Whole
-- and Reaches with its Stages, Cluster/FanOut/Split, Progress, Turns, Complete, Writes and Order,
-- Manager/Steps, Startup and Progress, Heap/Shape and Refs, Copies/Deep, Objects, Pointers and
-- Separate.
-- Prelude and its children hold what the components share: tests and lists, association lists,
-- counting, the order on texts, and texts that slashes join.
--
-- Both reconcilers embed one set of dependencies. An event reaches a reconcile by the indexes: the
-- functions that SetupWithManager registers are those that the handlers of the watches ask by.
--
-- A function that changes state takes a world and returns one. The apiserver is a record of
-- functions on a state of its own, each of which may fail at any call and change the state in any
-- way, so that other clients are covered; a call that writes is recorded with what it sends, whether
-- or not it succeeds. Go mutates the object that it was given when it updates a status or a
-- finalizer; here the changed object is passed on. A branch that Go does not take is named before the
-- test in some functions, and its world is then not used. Maps are association lists, and what Go
-- reads in the order of a map does not depend on it. Numbers are natural numbers; the counts of the
-- status are cut to 32 bits with a sign, as Go does. Recursion is structural; the end of the fan-out
-- alone takes fuel.
--
-- The pool of workers of the fan-out is a step relation: an idle worker takes a job, a busy one reads
-- its destination, or one that has read it sends what follows, with its event and its result. So the
-- requests of the workers interleave freely. A schedule runs the relation: a list of turns, the first
-- of them that of an idle worker and the others those of the busy ones. Once the schedule is over, the
-- workers go on in a fixed order, as the loop over the results waits for them; the fuel of that is the
-- number of steps that are left, three for a waiting target, and it is exact.
--
-- The registration of a watch is one step of a reconcile. Watches/Locked takes it apart for callers
-- that register at the same time: the look-up, the call of the controller and the entry in the map are
-- steps of the one caller that holds the mutex.
--
-- The start-up asks controller-runtime for what it needs, and each request may fail; an error ends the
-- process. A duration counts nanoseconds, as a number with a sign.
--
-- The deep copies work on a memory of cells: slices, maps and pointers are addresses of it. The deep
-- copies of apimachinery's types are parameters. The reconcilers' parts do not use this memory: their
-- objects are values.
--
-- Not modelled: the scheme's registration, the parsing of a command line (the package flag) and the
-- options of the logger, logs and the latency line of the bench, the observed durations, and the
-- harness under test/.
pub mod Prelude
pub mod Kube
pub mod Source
pub mod Destination
pub mod Cleanup
pub mod Finalizer
pub mod Heap
pub mod Copies
pub mod Conditions
pub mod Watches
pub mod Reconcile
pub mod Cluster
pub mod Manager
pub mod Tests
