-- ===== src/Destination/Strip.antt =====
-- What the transform of internal/controller/destination.go strips from a source, and what it leaves.
use projection.Prelude.{
  sym, subst, ◌≡◌, refl, ◌∙◌, false, none, some, List, [], ◌∷◌, String, ◌==◌, arith, All, inl, inr,
  Option-cases, if◌then◌else◌, contains,
}
use projection.Kube.Value.{
  obj, Fields, get_field, delete_field, delete_fields, get_field-delete_field, get_field-set_field,
}
use projection.Kube.Object.{HasMetadata, Accessors, IsLawful, GroupVersionKind, metadata}
use projection.Destination.{
  dropped_metadata_fields, dropped_spec_fields_by_gvk, strip_metadata, stripped,
  remove_nested_fields,
}

-- A path that begins at `spec`.
abbrev pub IsSpecPath : List String → Type 0
IsSpecPath [] = ⊥
IsSpecPath (h ∷ rest) = h ≡ "spec"

-- Every path of the table does.
pub table-IsSpecPath : (gvk : GroupVersionKind) → All IsSpecPath (dropped_spec_fields_by_gvk gvk)
unfolding dropped_spec_fields_by_gvk
table-IsSpecPath gvk = ground arith

pub get_field-delete_fields :
    (j : String) (ks : List String) (m : Fields)
    → get_field j (delete_fields ks m) ≡ (if contains ks j then none else get_field j m)
unfolding delete_fields
get_field-delete_fields j [] m = refl
get_field-delete_fields j (k ∷ ks) m =
    ground (arith, get_field-delete_fields j ks (delete_field k m), get_field-delete_field j k m)

-- Stripping the metadata leaves the fields beside it.
pub get_field-strip_metadata :
    (k : String) (o : Fields)
    → ("metadata" == k) ≡ false
    → get_field k (strip_metadata o) ≡ get_field k o
unfolding strip_metadata
get_field-strip_metadata k o h = elim (Option-cases (metadata o)) [
  | inl missing ↦ rw (missing, strip_metadata)
  | inr (m, found) ↦
      rw (found, strip_metadata)
        (get_field-set_field k "metadata" (obj (delete_fields dropped_metadata_fields m)) o ∙ rw h)
]

module _ (a : Accessors) (law : IsLawful a) where
  pub get_field-remove_nested_fields :
      (k : String) (paths : List (List String)) (o : Fields)
      → ("spec" == k) ≡ false
      → All IsSpecPath paths
      → get_field k (remove_nested_fields a paths o) ≡ get_field k o
  unfolding remove_nested_fields
  get_field-remove_nested_fields k [] o h all = refl
  get_field-remove_nested_fields k ([] ∷ paths) o h (bad, all) = absurd bad
  get_field-remove_nested_fields k ((s ∷ path) ∷ paths) o h (e, all) =
      get_field-remove_nested_fields k paths (a.remove_nested_field (s ∷ path) o) h all
      ∙ law.get_field-remove_nested_field k s path o (rw e h)

  -- What is left of the spec depends on the spec alone.
  remove_nested_fields_local :
      (paths : List (List String)) (o p : Fields)
      → All IsSpecPath paths
      → get_field "spec" o ≡ get_field "spec" p
      → get_field "spec" (remove_nested_fields a paths o)
        ≡ get_field "spec" (remove_nested_fields a paths p)
  unfolding remove_nested_fields
  remove_nested_fields_local [] o p all same = same
  remove_nested_fields_local ([] ∷ paths) o p (bad, all) same = absurd bad
  remove_nested_fields_local ((s ∷ path) ∷ paths) o p (e, all) same =
      remove_nested_fields_local paths (a.remove_nested_field (s ∷ path) o)
        (a.remove_nested_field (s ∷ path) p) all
        (subst
          (λ (h : String).
            get_field h (a.remove_nested_field (s ∷ path) o)
            ≡ get_field h (a.remove_nested_field (s ∷ path) p))
          e
          (law.remove_nested_field_local s path o p
            (subst (λ (h : String). get_field h o ≡ get_field h p) (sym e) same)))

  -- The spec of a stripped object is the source's, without the dropped paths.
  pub spec-stripped :
      (source : Fields)
      → get_field "spec" (stripped a source)
        ≡ get_field "spec" (
            remove_nested_fields a
              (dropped_spec_fields_by_gvk (a.group_version_kind source))
              source)
  unfolding stripped
  spec-stripped source =
      get_field-delete_field "spec" "status" _
      ∙ remove_nested_fields_local _ (strip_metadata source) source
          (table-IsSpecPath (a.group_version_kind source))
          (get_field-strip_metadata "spec" source refl)

  -- What the strip does to the fields at the top, apart from the metadata.
  pub get_field-stripped :
      (k : String) (source : Fields)
      → ("metadata" == k) ≡ false
      → ("spec" == k) ≡ false
      → get_field k (stripped a source) ≡ (if "status" == k then none else get_field k source)
  unfolding stripped
  get_field-stripped k source not_metadata not_spec = rw (
    get_field-delete_field k "status",
    get_field-remove_nested_fields k _ (strip_metadata source) not_spec
        (table-IsSpecPath (a.group_version_kind source)),
    get_field-strip_metadata k source not_metadata,
  )

  -- The metadata of a stripped object is that of the source, without the dropped fields.
  pub metadata-stripped :
      (source m : Fields)
      → metadata source ≡ some m
      → metadata (stripped a source) ≡ some (delete_fields dropped_metadata_fields m)
  unfolding stripped strip_metadata metadata
  metadata-stripped source m found =
      rw
        (
          get_field-delete_field "metadata" "status",
          get_field-remove_nested_fields "metadata" _ (strip_metadata source) refl
              (table-IsSpecPath (a.group_version_kind source)),
        )
        (rw (found, strip_metadata) (rw get_field-set_field))

  pub stripped-HasMetadata :
      (source : Fields) → HasMetadata source → HasMetadata (stripped a source)
  stripped-HasMetadata source (m, found) =
      (delete_fields dropped_metadata_fields m, metadata-stripped source m found)
