-- ===== src/Destination/Write/Sent.antt =====
-- What a write of a destination sends to the apiserver.
use projection.Destination.Strip.{table-IsSpecPath, IsSpecPath}
use projection.Destination.{preserve_paths, preserve_api_server_allocated_fields}
use projection.Prelude.{
  [], ◌∙◌, Option-cases, ◌∷◌, refl, inr, inl, Option, All, false, ap, ◌≡◌, ◌==◌, List, String,
}
use projection.Kube.Value.{get_field, Fields}
use projection.Kube.Object.{
  resource_version_field, text_key, field_of, as_object, namespace_field, name_field, HasMetadata,
  metadata, TextField, metadata_field, IsLawful, Accessors,
}

module _ (a : Accessors) (law : IsLawful a) where
  get_field-preserve_paths :
      (k : String) (paths : List (List String)) (existing desired : Fields)
      → ("spec" == k) ≡ false
      → All IsSpecPath paths
      → get_field k (preserve_paths a paths existing desired) ≡ get_field k desired
  unfolding preserve_paths
  get_field-preserve_paths k [] existing desired h all = refl
  get_field-preserve_paths k ([] ∷ paths) existing desired h (bad, all) = absurd bad
  get_field-preserve_paths k ((s ∷ path) ∷ paths) existing desired h (e, all) =
      elim (Option-cases (a.nested_field_copy existing (s ∷ path))) [
        | inl missing ↦
            rw (missing, preserve_paths) (get_field-preserve_paths k paths existing desired h all)
        | inr (val, found) ↦
            rw (found, preserve_paths)
              (get_field-preserve_paths k paths existing (a.set_nested_field val (s ∷ path) desired)
                  h all
                ∙ law.get_field-set_nested_field k s val path desired (rw e h))
      ]

  metadata-preserve :
      (existing desired : Fields)
      → metadata (preserve_api_server_allocated_fields a existing desired) ≡ metadata desired
  unfolding preserve_api_server_allocated_fields metadata
  metadata-preserve existing desired = ap as_object (
      get_field-preserve_paths "metadata" _ existing desired refl
        (table-IsSpecPath (a.group_version_kind desired)))

  get_text-preserve :
      (i : TextField) (existing desired : Fields)
      → a.get_text i (preserve_api_server_allocated_fields a existing desired)
        ≡ a.get_text i desired
  unfolding metadata_field
  get_text-preserve i existing desired =
      law.get_text_local i _ _
        (ap (λ (m : Option Fields). field_of m (text_key i)) (metadata-preserve existing desired))

module _ (a : Accessors) (law : IsLawful a) (dst : Fields) (has : HasMetadata dst) where
  -- What an update sends.
  abbrev pub carried_over : Fields → Fields
  carried_over existing = preserve_api_server_allocated_fields a existing dst

  abbrev pub sent : Fields → Fields
  sent existing =
      a.set_text resource_version_field (a.get_text resource_version_field existing)
        (carried_over existing)

  pub sent-texts :
      (existing : Fields)
      → (a.get_text namespace_field (sent existing) ≡ a.get_text namespace_field dst)
        × (a.get_text name_field (sent existing) ≡ a.get_text name_field dst)
        × (a.get_text resource_version_field (sent existing)
            ≡ a.get_text resource_version_field existing)
  sent-texts existing =
      let kept : HasMetadata (carried_over existing) =
        (has.0, metadata-preserve a law existing dst ∙ has.1) in
      (
        law.get_text-set_text namespace_field resource_version_field _ _ kept
            ∙ get_text-preserve a law namespace_field existing dst,
        law.get_text-set_text name_field resource_version_field _ _ kept
            ∙ get_text-preserve a law name_field existing dst,
        law.get_text-set_text resource_version_field resource_version_field _ _ kept,
      )
