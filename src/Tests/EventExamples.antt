-- ===== src/Tests/EventExamples.antt =====
-- The theorems on keys, owners, events and whole reconciles, at an apiserver that holds a projection.
use mathlib.Core.List.Perm
use mathlib.Core.List.{Perm}
use projection.Destination.Owner.{is_owned_by_unique}
use projection.Kube.Model.{accessors-IsLawful, accessors}
use projection.Prelude.Dict.{index}
use projection.Kube.Object.{metadata, metadata_field}
use projection.Reconcile.Whole.{KeepsIdentity, reconcile-InNamespace, InNamespace}
use projection.Destination.{build_destination, owner_key, owned_by_uid_label, is_owned_by}
use projection.Prelude.Slash.{HasNoSlash}
use projection.Kube.Calls.{Grows}
use projection.Kube.Value.{end, str, get_field, obj, field, Fields}
use projection.Kube.Api.{SourceRef, Projection}
use projection.Source.{source_key}
use projection.Kube.World.{World}
use projection.Kube.Server.{err, ok, Reply, Server}
use projection.Prelude.{
  subst, true, eq_iff, ◌∙◌, inl, inr, arith, Bool-cases, refl, map, ◌&&◌, sym, some, ◌==◌, false,
  contains, ap, select, if◌then◌else◌, [], ◌≡◌, ◌∷◌, String, List,
}
use projection.Watches.Events.{map_source-refers_to, refers_to, destination_event-uid, IsIndexed}
use projection.Tests.{
  server, source_ref, mirror_projection, source_object, missing, deps, settings,
  source_object-HasMetadata, server-ServesObjects, helpers-IsDocumented, fresh,
}
use projection.Watches.{
  projection_request, map_source, enqueue_by_uid, destination_event, uid_index_values,
  source_index_values, source_index, uid_index,
}
use projection.Reconcile.{reconcile, reconcile_finalized}
use projection.Reconcile.Retries.{reconcile_finalized-Ends, Ends, IsMirrored}

-- It holds the one projection, under both indexes.
abbrev values_of : String → Projection → List String
values_of index p = if index == source_index then source_index_values p else uid_index_values p

abbrev read_projection : String → String → Reply Projection
read_projection namespace name =
    if namespace == "tenant" && name == "mirror" then ok mirror_projection else err missing

abbrev held_under : String → String → List Projection
held_under index value = select (λ p. contains (values_of index p) value) (mirror_projection ∷ [])

abbrev stocked_server : Server
stocked_server = record server {
  get_projection = λ namespace name s. (read_projection namespace name, s);
  list_projections = λ index value s. (ok (held_under index value), s);
}

abbrev stocked : World stocked_server
stocked = record {
  server = record { objects = source_object ∷ []; is_down = false };
  calls = [];
  events = some [];
  outcomes = [];
  latencies = [];
  watched = [];
  watched_dests = [];
  watched_gvks = 0;
  watched_dest_gvks = 0;
}

abbrev projection_or : Projection → Reply Projection → Projection
projection_or p (ok q) = q
projection_or p (err e) = p

abbrev items_or : List Projection → Reply (List Projection) → List Projection
items_or ps (ok qs) = qs
items_or ps (err e) = ps

stocked-IsIndexed : IsIndexed stocked_server
stocked-IsIndexed = record {
  stored = λ _. mirror_projection ∷ [];
  by_source = λ key state items listed.
      subst (λ (ps : List Projection). Perm ps (held_under source_index key))
        (ap (items_or []) listed) (Perm.refl _);
  by_uid = λ uid state items listed.
      subst (λ (ps : List Projection). Perm ps (held_under uid_index uid)) (ap (items_or []) listed)
        (Perm.refl _);
}

plain_kind : HasNoSlash "ConfigMap"
plain_kind = (refl, (refl, (refl, (refl, (refl, (refl, (refl, (refl, (refl, tt)))))))))

plain_namespace : HasNoSlash "platform"
plain_namespace = (refl, (refl, (refl, (refl, (refl, (refl, (refl, (refl, tt))))))))

plain_tenant : HasNoSlash "tenant"
plain_tenant = (refl, (refl, (refl, (refl, (refl, (refl, tt))))))

abbrev newer_ref : SourceRef
newer_ref = record source_ref { version = "v2" }

-- Its name and namespace, of the one that a read found.
read_projection-identity :
    (namespace name : String) (p : Projection)
    → read_projection namespace name ≡ ok p
    → (p.meta.namespace ≡ namespace) × (p.meta.name ≡ name)
read_projection-identity namespace name p found = elim (Bool-cases (namespace == "tenant")) [
  | inr elsewhere ↦ absurd (ground (arith, found, elsewhere))
  | inl here ↦ elim (Bool-cases (name == "mirror")) [
    | inr other ↦ absurd (ground (arith, found, other))
    | inl same ↦
        let it : mirror_projection ≡ p =
          ap (projection_or mirror_projection) (rw (here, same) at found) in
        (
          ap (λ (q : Projection). q.meta.namespace) (sym it)
              ∙ sym ((eq_iff namespace "tenant").0 here),
          ap (λ (q : Projection). q.meta.name) (sym it) ∙ sym ((eq_iff name "mirror").0 same),
        )
  ]
]

stocked-KeepsIdentity : KeepsIdentity stocked_server
stocked-KeepsIdentity = record {
  got = λ namespace name state p found. read_projection-identity namespace name p found;
  updated = λ q state p found. (
    ap (λ r. (projection_or p r).meta.namespace) (sym found),
    ap (λ r. (projection_or p r).meta.name) (sym found),
  );
}

abbrev renewed_projection : Projection
renewed_projection = record mirror_projection {
  meta = record mirror_projection.meta { uid = "u-9" };
}

abbrev copied_object : Fields
copied_object =
    field "metadata"
      (obj (
        field "annotations"
          (obj (field "projection.sh/owned-by-projection" (str "tenant/mirror") end)) end))
      end

-- A projection and the one that was created anew under its name.
is_owned_by_unique_example :
    (mirror_projection.meta.namespace ≡ renewed_projection.meta.namespace)
    × (mirror_projection.meta.name ≡ renewed_projection.meta.name)
unfolding is_owned_by owner_key accessors index metadata_field metadata get_field
is_owned_by_unique_example =
    is_owned_by_unique accessors copied_object mirror_projection renewed_projection plain_tenant
      plain_tenant refl refl

map_source-refers_to_example :
    Perm
      (map_source accessors source_object stocked).0
      (map projection_request (select (refers_to accessors source_object) (mirror_projection ∷ [])))
unfolding accessors metadata metadata_field get_field source_key stocked-IsIndexed
    projection.Watches.event_source_key
map_source-refers_to_example =
    map_source-refers_to accessors stocked-IsIndexed stocked source_object (mirror_projection ∷ [])
      refl (tt, plain_kind, plain_namespace) ((tt, plain_kind, plain_namespace), tt)

destination_event-uid_example :
    Perm
      (destination_event accessors owned_by_uid_label enqueue_by_uid
        (build_destination accessors source_object mirror_projection "tenant")
        stocked).0
      (map projection_request (select (λ p. p.meta.uid == "u-2") (mirror_projection ∷ [])))
unfolding stocked-IsIndexed
destination_event-uid_example =
    destination_event-uid accessors stocked-IsIndexed stocked accessors-IsLawful source_object
      "tenant" mirror_projection (mirror_projection ∷ []) source_object-HasMetadata
      (λ e. let d : false ≡ true = ap (λ (x : String). x == "") e in grind arith) refl

reconcile-InNamespace_example :
    Grows
      (InNamespace accessors "tenant" "mirror")
      []
      (reconcile deps settings "tenant" "mirror" stocked).1.calls
reconcile-InNamespace_example =
    reconcile-InNamespace deps accessors-IsLawful settings server-ServesObjects
      stocked-KeepsIdentity "tenant" "mirror" stocked

reconcile_finalized-Ends_example :
    Ends deps settings mirror_projection
      (IsMirrored deps settings mirror_projection fresh)
      (reconcile_finalized deps settings mirror_projection fresh)
reconcile_finalized-Ends_example =
    reconcile_finalized-Ends deps helpers-IsDocumented settings mirror_projection fresh
