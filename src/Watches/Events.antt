-- ===== src/Watches/Events.antt =====
-- Which reconciles an event enqueues: the handlers of internal/controller/watches.go and
-- projection_controller.go, over an apiserver whose field indexers are up to date.
use mathlib.Core.Path.{fun_ext}
use mathlib.Core.List.Perm
use mathlib.Core.List.{Perm}
use projection.Destination.Mirror.{value_at, build_destination-IsMirror}
use projection.Destination.{build_destination, owned_by_uid_label}
use projection.Source.{source_key}
use projection.Prelude.Dict.{lookup, Dict, index}
use projection.Source.Key.{source_key-eq_iff, IsPlain}
use projection.Kube.Api.{SourceRef, Projection}
use projection.Kube.World.{World}
use projection.Prelude.{
  subst, refl, none, false, Option, some, ◌≢◌, All-map, select_congr, eq_iff, arith, map, select,
  All, ◌&&◌, ◌≡◌, ◌==◌, contains, String, Bool, List,
}
use projection.Kube.Value.{Fields}
use projection.Watches.{
  Request, enqueue_by_uid, has_label, destination_event, uid_index_values, projection_request,
  uid_index, source_index_values, source_index, map_source, event_source_key,
}
use projection.Kube.Server.{ok, Server}
use projection.Kube.Object.{
  labels_field, HasMetadata, IsLawful, name_field, namespace_field, Accessors,
}

-- The projections that the apiserver holds, and what its indexers answer: a list by an index, where it
-- succeeds, returns those of them that have the value under the index, in some order.
pub record IsIndexed (S : Server) : Type 0 where
  pub stored : S.State → List Projection
  pub by_source :
      (key : String) (state : S.State) (items : List Projection)
      → (S.list_projections source_index key state).0 ≡ ok items
      → Perm items (select (λ p. contains (source_index_values p) key) (stored state))
  pub by_uid :
      (uid : String) (state : S.State) (items : List Projection)
      → (S.list_projections uid_index uid state).0 ≡ ok items
      → Perm items (select (λ p. contains (uid_index_values p) uid) (stored state))

-- The projection's source is the object, in whatever version.
abbrev pub refers_to : Accessors → Fields → Projection → Bool
refers_to a o p =
    p.spec.source.group == (a.group_version_kind o).group
    && (p.spec.source.kind == (a.group_version_kind o).kind
        && (p.spec.source.namespace == a.get_text namespace_field o
            && p.spec.source.name == a.get_text name_field o))

-- The object as a reference with no version.
abbrev pub reference_to : Accessors → Fields → SourceRef
reference_to a o = record {
  group = (a.group_version_kind o).group;
  version = "";
  kind = (a.group_version_kind o).kind;
  namespace = a.get_text namespace_field o;
  name = a.get_text name_field o;
}

refers_to_iff :
    (a : Accessors) (o : Fields) (p : Projection)
    → IsPlain (reference_to a o)
    → IsPlain p.spec.source
    → contains (source_index_values p) (event_source_key a o) ≡ refers_to a o p
unfolding event_source_key
refers_to_iff a o p plain plain' = ground (
  arith,
  source_key-eq_iff p.spec.source (reference_to a o) plain' plain,
  eq_iff (source_key p.spec.source) (source_key (reference_to a o)),
  eq_iff p.spec.source.group (a.group_version_kind o).group,
  eq_iff p.spec.source.kind (a.group_version_kind o).kind,
  eq_iff p.spec.source.namespace (a.get_text namespace_field o),
  eq_iff p.spec.source.name (a.get_text name_field o),
)

value_at-some :
    (k u : String) (m : Option (Dict String))
    → value_at k m ≡ some u
    → (dict : Dict String) × (m ≡ some dict) × (lookup k dict ≡ some u)
value_at-some k u none e = absurd (ground (arith, e))
value_at-some k u (some dict) e = (dict, refl, e)

some_uid : (uid : String) → uid ≢ "" → (uid == "") ≡ false
some_uid uid named = ground (arith, eq_iff uid "", named)

destination_event-labelled :
    {S : Server} (a : Accessors) (label uid : String)
    (enqueue : String → World S → List Request × World S) (o : Fields) (w : World S)
    → uid ≢ ""
    → value_at label (a.get_map labels_field o) ≡ some uid
    → destination_event a label enqueue o w ≡ enqueue uid w
unfolding destination_event has_label index
destination_event-labelled a label uid enqueue o w named labelled =
    let (dict, there, found) = value_at-some label uid (a.get_map labels_field o) labelled in
    rw (there, destination_event, has_label, index, found, some_uid uid named) refl

module _ {S : Server} (a : Accessors) (indexed : IsIndexed S) (w : World S) where
  -- An event on a source enqueues the stored projections whose source it is, in any version, each
  -- once and no other, in some order, where the list by the index succeeds, and groups, kinds and
  -- namespaces hold no slash.
  pub map_source-refers_to :
      (o : Fields) (items : List Projection)
      → (S.list_projections source_index (event_source_key a o) w.server).0 ≡ ok items
      → IsPlain (reference_to a o)
      → All (λ p. IsPlain p.spec.source) (indexed.stored w.server)
      → Perm
          (map_source a o w).0
          (map projection_request (select (refers_to a o) (indexed.stored w.server)))
  unfolding map_source
  map_source-refers_to o items listed plain all =
      let held = indexed.stored w.server in
      rw listed (
        Perm.map projection_request (
          subst (Perm items)
            (select_congr _ (refers_to a o) held
              (All-map _ _ (λ p plain'. refers_to_iff a o p plain plain') held all))
            (indexed.by_source (event_source_key a o) w.server items listed)))

  -- An event on an object that `buildDestination` returned, for a source that has metadata and a
  -- projection with a uid, passes the predicate of the destination watch and enqueues the stored
  -- projections with that uid, each once and no other, in some order, where the list by the index
  -- succeeds.
  pub destination_event-uid :
      (law : IsLawful a) (source : Fields) (namespace : String) (proj : Projection)
      (items : List Projection)
      → HasMetadata source
      → proj.meta.uid ≢ ""
      → (S.list_projections uid_index proj.meta.uid w.server).0 ≡ ok items
      → Perm
          (destination_event a owned_by_uid_label enqueue_by_uid
            (build_destination a source proj namespace)
            w).0
          (map projection_request
            (select (λ p. p.meta.uid == proj.meta.uid) (indexed.stored w.server)))
  unfolding enqueue_by_uid
  destination_event-uid law source namespace proj items has named listed =
      let dst = build_destination a source proj namespace in
      let mirror = build_destination-IsMirror a law source namespace proj has in
      rw
        (
          destination_event-labelled {S = S} a owned_by_uid_label proj.meta.uid enqueue_by_uid dst w
              named (mirror.labelled owned_by_uid_label),
          enqueue_by_uid,
          some_uid proj.meta.uid named,
          listed,
        )
        (Perm.map projection_request (
          subst (λ (f : Projection → Bool). Perm items (select f (indexed.stored w.server)))
            (fun_ext (λ p. ground arith)) (indexed.by_uid proj.meta.uid w.server items listed)))
