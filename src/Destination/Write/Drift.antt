-- ===== src/Destination/Write/Drift.antt =====
-- When a write of a destination leaves an object alone that is there already.
use projection.Prelude.Dict.{Dict, index}
use projection.Destination.Mirror.{value_at, build_destination-IsMirror}
use projection.Kube.Api.{Projection}
use projection.Prelude.{
  none, some, sym, subst, String, ◌∙◌, Option, eq_iff, ap, [], ◌⊎◌, refl, inr, inl, Bool-cases,
  arith, ◌∷◌, true, ◌≡◌,
}
use projection.Kube.World.{observe_latency, create_call, update_call, emit, World}
use projection.Kube.Value.{Fields}
use projection.Kube.Object.{
  annotations_field, HasMetadata, IsLawful, resource_version_field, name_field, namespace_field,
  Accessors,
}
use projection.Kube.Server.{err, Error, ok, Reply, Server}
use projection.Destination.Drift.{needs_update-HasNoDrift, HasNoDrift}
use projection.Destination.Write.{
  projection_tier, create_destination, write_destination, update_destination, write_owned,
  reconcile_existing, Tier, no_failure,
}
use projection.Destination.{
  owned_by_annotation, owner_key, preserve_paths, is_owned_by, dropped_spec_fields_by_gvk,
  destination_coords, build_destination, needs_update, preserve_api_server_allocated_fields,
}

module _ {S : Server} (a : Accessors) (tier : Tier) (source dst : Fields) (w : World S) where
  -- The read of the object that is there.
  abbrev got : Reply Fields × S.State
  got =
      S.get (a.group_version_kind source) (a.get_text namespace_field dst)
        (a.get_text name_field dst) w.server

  -- What is wanted, with the fields that the apiserver allocated.
  abbrev wanted : Fields → Fields
  wanted existing = preserve_api_server_allocated_fields a existing dst

  calls-update_destination :
      (o : Fields) (v : World S)
      → (update_destination a tier source o v).1.calls ≡ update_call o ∷ v.calls
  unfolding update_destination emit
  calls-update_destination o v = ground arith

  -- Where a read finds an object that the tier owns, one of two holds: nothing of what is wanted has
  -- drifted, the apiserver's own fields carried over, and the write succeeds with no call that writes;
  -- or something has, and the write makes one such call, the update to what is wanted at the resource
  -- version that was read.
  pub write_owned-HasNoDrift :
      (existing : Fields)
      → got.0 ≡ ok existing
      → tier.owns existing ≡ true
      → (HasNoDrift a existing (wanted existing)
          × (write_owned a tier source dst w ≡ (no_failure, record w { server = got.1 })))
        ⊎ ((¬ HasNoDrift a existing (wanted existing))
            × ((write_owned a tier source dst w).1.calls
                ≡ update_call (
                    a.set_text resource_version_field
                      (a.get_text resource_version_field existing)
                      (wanted existing))
                  ∷ w.calls))
  unfolding write_owned reconcile_existing
  write_owned-HasNoDrift existing found ours =
      let (still, drifted) = needs_update-HasNoDrift a existing (wanted existing) in
      elim (Bool-cases (needs_update a existing (wanted existing))) [
        | inr none_needed ↦ inl (still none_needed, rw (found, write_owned, ours, none_needed) refl)
        | inl needed ↦ inr (
          λ same. absurd (ground (arith, needed, drifted same)),
          rw (found, write_owned, ours, needed) (calls-update_destination _ _),
        )
      ]

index-value_at : (m : Option (Dict String)) (k v : String) → value_at k m ≡ some v → index m k ≡ v
unfolding index
index-value_at none k v found = absurd (ground (arith, found))
index-value_at (some m) k v found = rw (index, found) refl

module _ {S : Server} (a : Accessors) (proj : Projection) (source : Fields) (w : World S) where
  abbrev built : Fields
  built = build_destination a source proj (destination_coords proj).0

  abbrev fetched : S.State → Reply Fields × S.State
  fetched =
      S.get (a.group_version_kind source) (a.get_text namespace_field built)
        (a.get_text name_field built)

  abbrev created : Reply Fields × S.State
  created = S.create built (fetched w.server).1

  -- The first write: one create, which leaves the apiserver's state as the create did.
  after_create :
      (e : Error) (o : Fields)
      → (fetched w.server).0 ≡ err e
      → e.is_not_found ≡ true
      → created.0 ≡ ok o
      → let w1 = (write_destination a proj source w).1 in
        (w1.calls ≡ create_call built ∷ w.calls) × (w1.server ≡ created.1)
  unfolding write_destination write_owned create_destination emit observe_latency
  after_create e o absent missing done =
      (ground (arith, absent, missing, done), ground (arith, absent, missing, done))

  wanted-plain :
      (stored : Fields)
      → dropped_spec_fields_by_gvk (a.group_version_kind built) ≡ []
      → preserve_api_server_allocated_fields a stored built ≡ built
  unfolding preserve_api_server_allocated_fields preserve_paths
  wanted-plain stored plain = rw (plain, preserve_paths) refl

  built-owned :
      (law : IsLawful a) (stored : Fields)
      → HasMetadata source
      → a.get_map annotations_field stored ≡ a.get_map annotations_field built
      → is_owned_by a stored proj ≡ true
  unfolding is_owned_by
  built-owned law stored has annotations =
      let mirror = build_destination-IsMirror a law source (destination_coords proj).0 proj has in
      (eq_iff _ (owner_key proj)).1 (
        ap (λ m. index m owned_by_annotation) annotations
        ∙ index-value_at (a.get_map annotations_field built) owned_by_annotation (owner_key proj)
            (mirror.annotated owned_by_annotation))

  -- A destination that was not there is created, and where the next read returns it with the annotations
  -- that it was created with and no drift, and the apiserver allocates no field of its kind, the next write
  -- succeeds and makes no call that writes.
  pub write_destination-settles :
      (law : IsLawful a) (e : Error) (o stored : Fields)
      → HasMetadata source
      → (fetched w.server).0 ≡ err e
      → e.is_not_found ≡ true
      → created.0 ≡ ok o
      → (fetched created.1).0 ≡ ok stored
      → a.get_map annotations_field stored ≡ a.get_map annotations_field built
      → HasNoDrift a stored built
      → dropped_spec_fields_by_gvk (a.group_version_kind built) ≡ []
      → let w1 = (write_destination a proj source w).1 in
        let (failure, w2) = write_destination a proj source w1 in
        (w1.calls ≡ create_call built ∷ w.calls) × ((failure ≡ no_failure) × (w2.calls ≡ w1.calls))
  unfolding write_destination
  write_destination-settles law e o stored has absent missing done back annotations still plain =
      let (first, state) = after_create e o absent missing done in
      let w1 : World S = (write_destination a proj source w).1 in
      let read_back = ap (λ (t : S.State). (fetched t).0) state ∙ back in
      let same = wanted-plain stored plain in
      elim (write_owned-HasNoDrift a (projection_tier a proj) source built w1 stored read_back
        (built-owned law stored has annotations)) [
          | inl (_, done_nothing) ↦
              (first, (ap (λ r. r.0) done_nothing, ap (λ r. r.1.calls) done_nothing))
          | inr (drifted, _) ↦
              absurd (drifted (subst (λ (d : Fields). HasNoDrift a stored d) (sym same) still))
        ]
