-- ===== src/Watches.antt =====
-- internal/controller/watches.go, and the watch helpers of the two reconcilers: one watch for each
-- kind of source and of destination, and the requests that an event gives rise to. Each `ensure`
-- runs under a mutex from its test to its end, so it is one step.
pub mod Registered
pub mod Locked
pub mod Events
use projection.Prelude.{
  suc, Bool, true, false, ◌&&◌, ◌||◌, not, Option, none, some, List, [], ◌∷◌, map, String, ◌==◌,
  if◌then◌else◌,
}
use projection.Prelude.Dict.{lookup, index}
use projection.Kube.Value.{Fields}
use projection.Kube.Object.{Accessors, GroupVersionKind, labels_field, name_field, namespace_field}
use projection.Kube.Api.{Projection, ClusterProjection}
use projection.Kube.Server.{Server, Error, Reply, ok, err}
use projection.Kube.World.{World, read}
use projection.Source.{source_key}
use projection.Conditions.{Settings}

abbrev pub source_index : String
source_index = "spec.sourceKey"

abbrev pub uid_index : String
uid_index = "metadata.uid"

unfoldable pub same_kind : GroupVersionKind → GroupVersionKind → Bool
same_kind a b = a.group == b.group && a.version == b.version && a.kind == b.kind

-- `watched[gvk]`
unfoldable pub is_watched : List GroupVersionKind → GroupVersionKind → Bool
unfolding same_kind
is_watched [] gvk = false
is_watched (x ∷ xs) gvk = same_kind x gvk || is_watched xs gvk

-- `reconcile.Request`: a namespace, empty for a cluster-scoped object, and a name.
abbrev pub Request : Type 0
Request = String × String

module _ {S : Server} (r : Settings) where
  -- The error is `none` where the watch is there already or there is no controller to ask.
  unfoldable pub ensure_source_watch : GroupVersionKind → World S → Option Error × World S
  ensure_source_watch gvk w =
      let (reply, w') = read (S.watch gvk) w in
      if not r.has_controller
      then (none, w)
      else if is_watched w.watched gvk
      then (none, w)
      else elim reply [
        | err e ↦ (some e, w')
        | ok _ ↦
            (none, record w' { watched = gvk ∷ w'.watched; watched_gvks = suc w'.watched_gvks })
      ]

  unfoldable pub ensure_dest_watch : GroupVersionKind → World S → Option Error × World S
  ensure_dest_watch gvk w =
      let (reply, w') = read (S.watch gvk) w in
      if not r.has_controller
      then (none, w)
      else if is_watched w.watched_dests gvk
      then (none, w)
      else elim reply [
        | err e ↦ (some e, w')
        | ok _ ↦ (
          none,
          record w' {
            watched_dests = gvk ∷ w'.watched_dests;
            watched_dest_gvks = suc w'.watched_dest_gvks;
          },
        )
      ]

abbrev pub projection_request : Projection → Request
projection_request p = (p.meta.namespace, p.meta.name)

abbrev pub cluster_projection_request : ClusterProjection → Request
cluster_projection_request cp = ("", cp.meta.name)

-- A list that fails is logged, and no request is made.
abbrev requests_of {ℓ} : {A : Type ℓ} → (A → Request) → Reply (List A) → List Request
requests_of request (err e) = []
requests_of request (ok items) = map request items

-- The key of the source that an event is about. The version of the event's object is left out.
unfoldable pub event_source_key : Accessors → Fields → String
event_source_key a o = source_key (record {
  group = (a.group_version_kind o).group;
  version = "";
  kind = (a.group_version_kind o).kind;
  namespace = a.get_text namespace_field o;
  name = a.get_text name_field o;
})

-- What the field indexers return for a projection under `source_index` and `uid_index`.
abbrev pub source_index_values : Projection → List String
source_index_values p = source_key p.spec.source ∷ []

abbrev pub uid_index_values : Projection → List String
uid_index_values p = p.meta.uid ∷ []

abbrev pub cluster_source_index_values : ClusterProjection → List String
cluster_source_index_values cp = source_key cp.spec.source ∷ []

abbrev pub cluster_uid_index_values : ClusterProjection → List String
cluster_uid_index_values cp = cp.meta.uid ∷ []

-- The predicate of a destination watch: the object carries the label's key.
unfoldable pub has_label : Accessors → String → Fields → Bool
has_label a label o = elim (a.get_map labels_field o) [
  | none ↦ false
  | some m ↦ elim (lookup label m) [ none ↦ false | some _ ↦ true ]
]

module _ {S : Server} (a : Accessors) where
  unfoldable pub map_source : Fields → World S → List Request × World S
  map_source o w =
      let (reply, w') = read (S.list_projections source_index (event_source_key a o)) w in
      (requests_of projection_request reply, w')

  unfoldable pub cluster_map_source : Fields → World S → List Request × World S
  cluster_map_source o w =
      let (reply, w') =
        read (S.list_cluster_projections (some (source_index, event_source_key a o))) w in
      (requests_of cluster_projection_request reply, w')

module _ {S : Server} where
  unfoldable pub enqueue_by_uid : String → World S → List Request × World S
  enqueue_by_uid uid w =
      let (reply, w') = read (S.list_projections uid_index uid) w in
      if uid == "" then ([], w) else (requests_of projection_request reply, w')

  unfoldable pub cluster_enqueue_by_uid : String → World S → List Request × World S
  cluster_enqueue_by_uid uid w =
      let (reply, w') = read (S.list_cluster_projections (some (uid_index, uid))) w in
      if uid == "" then ([], w) else (requests_of cluster_projection_request reply, w')

  -- A destination event behind the predicate, in the handler of `ensureDestWatch`.
  unfoldable pub destination_event :
      Accessors
      → String
      → (String → World S → List Request × World S)
      → Fields
      → World S
      → List Request × World S
  destination_event a label enqueue o w =
      let uid = index (a.get_map labels_field o) label in
      if not (has_label a label o) then ([], w) else if uid == "" then ([], w) else enqueue uid w
