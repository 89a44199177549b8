-- ===== src/Destination/Write/Isolation.antt =====
-- What the write of one destination leaves as it was: the destinations of other namespaces.
use projection.Destination.Write.Safety.{get_target-reply}
use projection.Destination.Write.Sent.{sent-texts, sent, carried_over}
use projection.Destination.Stamp.{
  name-stamped, build_cluster_destination-stamped, stamped-HasMetadata, namespace-stamped, stamped,
  cluster_projection_stamp,
}
use projection.Kube.World.{observe_latency, World, emit}
use projection.Destination.{needs_update, build_cluster_destination, cluster_destination_name}
use projection.Kube.Value.{Fields}
use projection.Kube.Api.{ClusterProjection}
use projection.Destination.Write.{
  write_owned, write_cluster_destination, cluster_projection_tier, reconcile_existing,
  get_destination, after_get, update_destination, create_destination, Tier,
}
use projection.Prelude.{
  refl, ◌∙◌, ap, subst, inr, inl, Bool-cases, arith, false, ◌==◌, ◌⊎◌, ◌≡◌, String,
}
use projection.Kube.Object.{namespace_field, HasMetadata, IsLawful, GroupVersionKind, Accessors}
use projection.Kube.Server.{ok, err, Reply, Server}

-- Of the apiserver, while nobody else writes the objects of one kind and name: a read changes nothing,
-- and creating or updating an object changes no reply to a read in another namespace.
pub record IsIsolated (S : Server) (a : Accessors) (gvk : GroupVersionKind) (name : String)
    : Type 0 where
  pub get_keeps : (ns : String) (s : S.State) → (S.get gvk ns name s).1 ≡ s
  pub get-create :
      (ns : String) (o : Fields) (s : S.State)
      → (a.get_text namespace_field o == ns) ≡ false
      → (S.get gvk ns name (S.create o s).1).0 ≡ (S.get gvk ns name s).0
  pub get-update :
      (ns : String) (o : Fields) (s : S.State)
      → (a.get_text namespace_field o == ns) ≡ false
      → (S.get gvk ns name (S.update o s).1).0 ≡ (S.get gvk ns name s).0

module _ (S : Server) (a : Accessors) where
  -- At most one object was created or updated, in the namespace.
  abbrev Touches : String → S.State → S.State → Type 0
  Touches ns before after =
      (after ≡ before)
      ⊎ ((o : Fields) × (a.get_text namespace_field o ≡ ns)
          × ((after ≡ (S.create o before).1) ⊎ (after ≡ (S.update o before).1)))

module _ {S : Server} (a : Accessors) (tier : Tier) (source : Fields) where
  server-create_destination :
      (dst : Fields) (v : World S)
      → (create_destination a tier source dst v).1.server ≡ (S.create dst v.server).1
  unfolding create_destination emit observe_latency
  server-create_destination dst v = ground arith

  server-update_destination :
      (o : Fields) (v : World S)
      → (update_destination a tier source o v).1.server ≡ (S.update o v.server).1
  unfolding update_destination emit
  server-update_destination o v = ground arith

module _ {S : Server} (a : Accessors) (law : IsLawful a) (tier : Tier) (source dst : Fields)
    (has : HasMetadata dst) where
  after_get-Touches :
      (reply : Reply Fields) (w : World S)
      → Touches S a
          (a.get_text namespace_field dst)
          w.server
          (after_get a tier source dst reply w).1.server
  unfolding after_get reconcile_existing emit
  after_get-Touches (err e) w = elim (Bool-cases e.is_not_found) [
    | inl missing ↦
        rw (missing, after_get)
          (inr (dst, refl, inl (server-create_destination a tier source dst w)))
    | inr other ↦ inl (ground (arith, other))
  ]
  after_get-Touches (ok existing) w = elim (Bool-cases (tier.owns existing)) [
    | inr foreign ↦ inl (ground (arith, foreign))
    | inl ours ↦ elim (Bool-cases (needs_update a existing (carried_over a law dst has existing))) [
      | inr same ↦ inl (ground (arith, ours, same))
      | inl changed ↦
          let o = sent a law dst has existing in
          inr (
            o,
            (sent-texts a law dst has existing).0,
            inr (ground (arith, ours, changed, server-update_destination a tier source o w)),
          )
    ]
  ]

module _ {S : Server} (a : Accessors) (law : IsLawful a) (cp : ClusterProjection) (source : Fields)
    (has : HasMetadata source)
    (isolated : IsIsolated S a (a.group_version_kind source) (cluster_destination_name cp)) where
  -- What a worker sends in one namespace changes no reply to a read in another.
  pub get-after_get_target :
      (ns k : String) (reply : Reply Fields) (w : World S)
      → (ns == k) ≡ false
      → (S.get
          (a.group_version_kind source)
          k
          (cluster_destination_name cp)
          (after_get a
            (cluster_projection_tier a cp)
            source
            (build_cluster_destination a source cp ns)
            reply
            w).1.server).0
        ≡ (S.get (a.group_version_kind source) k (cluster_destination_name cp) w.server).0
  get-after_get_target ns k reply w other =
      let name = cluster_destination_name cp in
      let reply_at = λ (s : S.State). (S.get (a.group_version_kind source) k name s).0 in
      let st = cluster_projection_stamp cp in
      let touched =
        subst
          (λ (at : String).
            Touches S a at w.server
              (after_get a (cluster_projection_tier a cp) source
                (stamped a law st source cp.spec.overlay ns name) reply w).1.server)
          (namespace-stamped a law st source cp.spec.overlay ns name has)
          (after_get-Touches a law (cluster_projection_tier a cp) source
            (stamped a law st source cp.spec.overlay ns name)
            (stamped-HasMetadata a law st source cp.spec.overlay ns name has) reply w) in
      rw (build_cluster_destination-stamped a law source cp ns) (elim touched [
        | inl same ↦ ap reply_at same
        | inr (o, at, inl created) ↦
            ap reply_at created ∙ isolated.get-create k o w.server (rw at other)
        | inr (o, at, inr updated) ↦
            ap reply_at updated ∙ isolated.get-update k o w.server (rw at other)
      ])

  -- The read of a worker changes nothing.
  pub get_target_keeps :
      (ns : String) (w : World S)
      → (get_destination a
          (cluster_projection_tier a cp)
          source
          (build_cluster_destination a source cp ns)
          w).1
        ≡ w
  unfolding get_destination
  get_target_keeps ns w =
      let name = cluster_destination_name cp in
      let st = cluster_projection_stamp cp in
      rw (build_cluster_destination-stamped a law source cp ns) (
        rw
          (
            namespace-stamped a law st source cp.spec.overlay ns name has,
            name-stamped a law st source cp.spec.overlay ns name has,
          )
          (ap (λ (s : S.State). record w { server = s }) (isolated.get_keeps ns w.server)))

  -- A write whose reply is still that of the apiserver is the write done at once.
  pub write_cluster_destination-parts :
      (ns : String) (reply : Reply Fields) (w : World S)
      → (S.get (a.group_version_kind source) ns (cluster_destination_name cp) w.server).0 ≡ reply
      → write_cluster_destination a cp source ns w
        ≡ after_get a
            (cluster_projection_tier a cp)
            source
            (build_cluster_destination a source cp ns)
            reply
            w
  unfolding write_cluster_destination write_owned
  write_cluster_destination-parts ns reply w current =
      rw (get_target_keeps ns w, get_target-reply a law cp source ns has w, current)
