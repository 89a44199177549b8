-- ===== src/Destination/Write/Safety.antt =====
-- What a write of a destination may send to the apiserver, on every branch.
use projection.Destination.Write.Sent.{sent, sent-texts, carried_over}
use projection.Destination.Stamp.{
  stamped-HasMetadata, cluster_projection_stamp, name-stamped, build_cluster_destination-stamped,
  namespace-stamped, stamped, projection_stamp, build_destination-stamped, Stamp,
}
use mathlib.Core.Path.{subst₂}
use projection.Kube.Api.{Overlay, ClusterProjection, Projection}
use projection.Kube.Calls.{Issues-none, Issues-one, Issues}
use projection.Kube.World.{
  observe_latency, emit, cluster_projection_status_call, cluster_projection_call,
  projection_status_call, projection_call, delete_call, update_call, create_call, Call, World,
}
use projection.Destination.{
  build_cluster_destination, cluster_destination_name, destination_coords, needs_update,
}
use projection.Prelude.{arith, Bool-cases, ◌∷◌, refl, inr, true, inl, ◌≡◌, String}
use projection.Kube.Value.{Fields}
use projection.Destination.Write.{
  get_destination, reconcile_existing, after_get, cluster_projection_tier,
  write_cluster_destination, projection_tier, write_destination, update_destination,
  create_destination, write_owned, Tier,
}
use projection.Kube.Server.{ok, err, Error, Reply, Server}
use projection.Kube.Object.{
  resource_version_field, namespace_field, name_field, HasMetadata, IsLawful, Accessors,
}

-- What the test of a request finds: the reply to the read, and the object that was sent.
abbrev pub Permitted : Accessors → Tier → String → String → Reply Fields → Call → Type 0
Permitted a tier namespace name reply (create_call o) =
    (a.get_text namespace_field o ≡ namespace)
    × (a.get_text name_field o ≡ name)
    × ((e : Error) × (reply ≡ err e) × (e.is_not_found ≡ true))
Permitted a tier namespace name reply (update_call o) =
    (a.get_text namespace_field o ≡ namespace)
    × (a.get_text name_field o ≡ name)
    × ((existing : Fields) × (reply ≡ ok existing)
        × (tier.owns existing ≡ true)
        × (a.get_text resource_version_field o ≡ a.get_text resource_version_field existing))
Permitted a tier namespace name reply (delete_call gvr ns n) = ⊥
Permitted a tier namespace name reply (projection_call p) = ⊥
Permitted a tier namespace name reply (projection_status_call p) = ⊥
Permitted a tier namespace name reply (cluster_projection_call p) = ⊥
Permitted a tier namespace name reply (cluster_projection_status_call p) = ⊥

module _ {S : Server} (a : Accessors) (tier : Tier) (source : Fields) where
  calls-create_destination :
      (dst : Fields) (v : World S)
      → (create_destination a tier source dst v).1.calls ≡ create_call dst ∷ v.calls
  unfolding create_destination emit observe_latency
  calls-create_destination dst v = ground arith

  calls-update_destination :
      (o : Fields) (v : World S)
      → (update_destination a tier source o v).1.calls ≡ update_call o ∷ v.calls
  unfolding update_destination emit
  calls-update_destination o v = ground arith

module _ {S : Server} (a : Accessors) (law : IsLawful a) (tier : Tier) (source dst : Fields)
    (has : HasMetadata dst) where
  -- After any read, whatever has happened to the apiserver since.
  after_get-Permitted :
      (reply : Reply Fields) (w : World S)
      → Issues
          (Permitted a tier (a.get_text namespace_field dst) (a.get_text name_field dst) reply)
          1
          w.calls
          (after_get a tier source dst reply w).1.calls
  unfolding after_get reconcile_existing emit
  after_get-Permitted (err e) w = elim (Bool-cases e.is_not_found) [
    | inl missing ↦
        Issues-one _ w.calls _ (create_call dst) (refl, refl, (e, refl, missing))
          (ground (arith, missing, calls-create_destination a tier source dst w))
    | inr other ↦ Issues-none _ w.calls _ 1 (ground (arith, other))
  ]
  after_get-Permitted (ok existing) w = elim (Bool-cases (tier.owns existing)) [
    | inr foreign ↦ Issues-none _ w.calls _ 1 (ground (arith, foreign))
    | inl ours ↦ elim (Bool-cases (needs_update a existing (carried_over a law dst has existing))) [
      | inr same ↦ Issues-none _ w.calls _ 1 (ground (arith, ours, same))
      | inl changed ↦
          let (in_namespace, with_name, at_version) = sent-texts a law dst has existing in
          Issues-one _ w.calls _ (update_call (sent a law dst has existing))
            (in_namespace, with_name, (existing, refl, ours, at_version))
            (ground (
              arith,
              ours,
              changed,
              calls-update_destination a tier source (sent a law dst has existing) w,
            ))
    ]
  ]

module _ {S : Server} (a : Accessors) (law : IsLawful a) (tier : Tier) (st : Stamp)
    (source : Fields) (overlay : Overlay) (namespace name : String) (has : HasMetadata source) where
  -- The object's coordinates are those that the stamping was given.
  after_get-stamped-Permitted :
      (reply : Reply Fields) (w : World S)
      → Issues
          (Permitted a tier namespace name reply)
          1
          w.calls
          (after_get a tier source (stamped a law st source overlay namespace name) reply w).1.calls
  after_get-stamped-Permitted reply w =
      let dst = stamped a law st source overlay namespace name in
      subst₂
        (λ at_namespace at_name.
          Issues (Permitted a tier at_namespace at_name reply) 1 w.calls
            (after_get a tier source dst reply w).1.calls)
        (namespace-stamped a law st source overlay namespace name has)
        (name-stamped a law st source overlay namespace name has)
        (after_get-Permitted a law tier source dst
          (stamped-HasMetadata a law st source overlay namespace name has) reply w)

  write_stamped-Permitted :
      (w : World S)
      → Issues
          (Permitted a tier namespace name
            (S.get (a.group_version_kind source) namespace name w.server).0)
          1
          w.calls
          (write_owned a tier source (stamped a law st source overlay namespace name) w).1.calls
  unfolding write_owned
  write_stamped-Permitted w =
      rw
        (
          namespace-stamped a law st source overlay namespace name has,
          name-stamped a law st source overlay namespace name has,
        )
        (after_get-stamped-Permitted _ _)

module _ {S : Server} (a : Accessors) (law : IsLawful a) (cp : ClusterProjection) (source : Fields)
    (namespace : String) (has : HasMetadata source) (w : World S) where
  pub get_target-reply :
      (get_destination a
        (cluster_projection_tier a cp)
        source
        (build_cluster_destination a source cp namespace)
        w).0
      ≡ (S.get (a.group_version_kind source) namespace (cluster_destination_name cp) w.server).0
  unfolding get_destination
  get_target-reply =
      let st = cluster_projection_stamp cp in
      rw (build_cluster_destination-stamped a law source cp namespace) (
        rw (
          namespace-stamped a law st source cp.spec.overlay namespace (cluster_destination_name cp)
              has,
          name-stamped a law st source cp.spec.overlay namespace (cluster_destination_name cp) has,
        ))

  -- What a worker sends after its read.
  pub after_get_target-Permitted :
      (reply : Reply Fields)
      → Issues
          (Permitted a (cluster_projection_tier a cp) namespace (cluster_destination_name cp) reply)
          1
          w.calls
          (after_get a
            (cluster_projection_tier a cp)
            source
            (build_cluster_destination a source cp namespace)
            reply
            w).1.calls
  after_get_target-Permitted reply =
      rw (build_cluster_destination-stamped a law source cp namespace) (
        after_get-stamped-Permitted a law (cluster_projection_tier a cp)
          (cluster_projection_stamp cp) source cp.spec.overlay namespace
          (cluster_destination_name cp) has reply w)

module _ {S : Server} (a : Accessors) (law : IsLawful a) (source : Fields) (w : World S) where
  -- `writeDestination` issues at most one write, on every branch and whatever the apiserver replies,
  -- for a source that has metadata. A create names the projection's own namespace and destination
  -- name, and follows a read that found nothing there. An update names the same, follows a read that
  -- found an object which the projection owns, and carries that object's resource version.
  pub write_destination-Permitted :
      (proj : Projection)
      → HasMetadata source
      → Issues
          (Permitted a
            (projection_tier a proj)
            (destination_coords proj).0
            (destination_coords proj).1
            (S.get
              (a.group_version_kind source)
              (destination_coords proj).0
              (destination_coords proj).1
              w.server).0)
          1
          w.calls
          (write_destination a proj source w).1.calls
  unfolding write_destination
  write_destination-Permitted proj has =
      rw (build_destination-stamped a law source proj (destination_coords proj).0) (
        write_stamped-Permitted a law (projection_tier a proj) (projection_stamp proj) source
          proj.spec.overlay (destination_coords proj).0 (destination_coords proj).1 has w)

  -- `writeClusterDestination` issues at most one write in the same way: in the namespace that it was
  -- given, under the cluster projection's destination name, and an update only of an object that the
  -- cluster projection owns, at its resource version.
  write_cluster_destination-Permitted :
      (cp : ClusterProjection) (namespace : String)
      → HasMetadata source
      → Issues
          (Permitted a
            (cluster_projection_tier a cp)
            namespace
            (cluster_destination_name cp)
            (S.get
              (a.group_version_kind source)
              namespace
              (cluster_destination_name cp)
              w.server).0)
          1
          w.calls
          (write_cluster_destination a cp source namespace w).1.calls
  unfolding write_cluster_destination
  write_cluster_destination-Permitted cp namespace has =
      rw (build_cluster_destination-stamped a law source cp namespace) (
        write_stamped-Permitted a law (cluster_projection_tier a cp) (cluster_projection_stamp cp)
          source cp.spec.overlay namespace (cluster_destination_name cp) has w)
