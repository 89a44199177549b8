-- ===== src/Tests/CopyExamples.antt =====
-- The theorems on deep copies, at a memory with a projection and a list of cluster projections.
use projection.Copies.Separate.{
  deep_copy_projection_object_separates, deep_copy_cluster_projection_list_object_separates,
  to_projection, to_cluster_projection_list,
}
use projection.Kube.Api.{pos}
use projection.Tests.{source_ref}
use projection.Heap.Shape.{flat-IsCopy, flat_as}
use projection.Copies.Objects.{cluster_projection_list_shape}
use projection.Heap.Refs.{store-other, copy_ref-IsDeep, behind}
use projection.Copies.New.{
  Object, deep_copy_projection_object, deep_copy_cluster_projection_list_object,
}
use projection.Prelude.{
  Option, arith, ◌≡◌, refl, ◌∷◌, ◌=ℕ=◌, none, [], some, if◌then◌else◌, ℕ, String, List,
}
use projection.Copies.Into.{Library}
use projection.Copies.Deep.{projection_shape, IsDocumented}
use projection.Heap.{copy_flat, store, copy_ref, Ref, Heap}
use projection.Copies.{
  projection_cell, list_cell, cluster_projections, conditions, as_projection_cell, as_list_cell,
  texts, text_map, inner, ProjectionStruct, OverlayStruct, LibraryTypes, ClusterProjectionStruct,
  Cell,
}

-- The library's types, with references in the metadata only: the slice of the finalizers.
abbrev library_types : LibraryTypes
library_types = record {
  TypeMeta = String;
  ObjectMeta = Ref;
  ListMeta = String;
  LabelSelector = String;
  Condition = String;
  Inner = List String;
  zero_type_meta = "";
  zero_meta = none;
  zero_list_meta = "";
  zero_selector = "";
}

abbrev as_inner : Cell library_types → List String
as_inner (inner xs) = xs
as_inner _ = []

abbrev library : Library library_types
library = record {
  copy_meta = copy_ref inner as_inner copy_flat;
  copy_list_meta = copy_flat;
  copy_selector = copy_flat;
  copy_condition = copy_flat;
}

abbrev kept_texts : List String → List String
kept_texts xs = xs

abbrev kept_text : String → String
kept_text s = s

library-IsDocumented : IsDocumented library_types library
library-IsDocumented = record {
  meta_shape = behind (flat_as kept_texts) as_inner;
  list_meta_shape = flat_as kept_text;
  selector_shape = flat_as kept_text;
  condition_shape = flat_as kept_text;
  copy_meta-IsDeep =
      copy_ref-IsDeep (flat_as kept_texts) as_inner inner copy_flat (λ xs. refl)
        (λ h xs w. flat-IsCopy kept_texts h xs xs refl);
  copy_list_meta-IsDeep = λ h s w. flat-IsCopy kept_text h s s refl;
  copy_selector-IsDeep = λ h s w. flat-IsCopy kept_text h s s refl;
  copy_condition-IsDeep = λ h s w. flat-IsCopy kept_text h s s refl;
}

abbrev labelled : OverlayStruct
labelled = record { labels = some 1; annotations = none }

abbrev stored_projection : ProjectionStruct library_types
stored_projection = record {
  type_meta = "Projection";
  meta = some 0;
  spec = record { source = source_ref; destination = record { name = "copy" }; overlay = labelled };
  status = record { conditions = some 3; destination_name = "copy" };
}

abbrev stored_cluster_projection : ClusterProjectionStruct library_types
stored_cluster_projection = record {
  type_meta = "ClusterProjection";
  meta = some 0;
  spec = record {
    source = source_ref;
    destination = record { namespaces = some 2; namespace_selector = none; name = "copy" };
    overlay = labelled;
  };
  status = record {
    conditions = none;
    destination_name = "";
    namespaces_written = pos 0;
    namespaces_failed = pos 0;
  };
}

abbrev cell_at : ℕ → Cell library_types
cell_at n =
    if n =ℕ= 0
    then inner ("projection.sh/finalizer" ∷ [])
    else if n =ℕ= 1
    then text_map (("team", "a") ∷ [])
    else if n =ℕ= 2
    then texts ("tenant-a" ∷ ("tenant-b" ∷ []))
    else if n =ℕ= 3
    then conditions ("Ready" ∷ [])
    else if n =ℕ= 4
    then cluster_projections (stored_cluster_projection ∷ [])
    else if n =ℕ= 5
    then list_cell (record { type_meta = "List"; list_meta = ""; items = some 4 })
    else projection_cell stored_projection

abbrev memory : Heap (Cell library_types)
memory = record { next = 7; cells = cell_at }

-- Behind the old addresses and behind the new ones, something else is written.
abbrev old_overwritten : Heap (Cell library_types) → Heap (Cell library_types)
old_overwritten h = store 1 (text_map []) h

abbrev new_overwritten : Heap (Cell library_types) → Heap (Cell library_types)
new_overwritten h = store 8 (texts []) h

abbrev copied_projection : Option Object × Heap (Cell library_types)
copied_projection = deep_copy_projection_object library (some 6) memory

deep_copy_projection_object_separates_example :
    let seen = behind (projection_shape library-IsDocumented) as_projection_cell in
    (seen.read (old_overwritten copied_projection.1) (to_projection copied_projection.0)
      ≡ seen.read memory (some 6))
    × (seen.read (new_overwritten copied_projection.1) (some 6) ≡ seen.read memory (some 6))
unfolding library-IsDocumented
deep_copy_projection_object_separates_example =
    deep_copy_projection_object_separates library-IsDocumented memory
      (old_overwritten copied_projection.1) (new_overwritten copied_projection.1) (some 6)
      (
        omega arith,
        omega arith,
        (
          tt,
          (
            (omega arith, omega arith, tt),
            (
              (tt, (tt, ((omega arith, omega arith, tt), tt))),
              (tt, (omega arith, omega arith, (tt, tt))),
            ),
          ),
        ),
      )
      (λ k low high. store-other 1 k (text_map []) copied_projection.1 (λ e. omega (arith, e, low)))
      (λ k low high. store-other 8 k (texts []) copied_projection.1 (λ e. omega (arith, e, high)))

abbrev copied_cluster_projection_list : Option Object × Heap (Cell library_types)
copied_cluster_projection_list = deep_copy_cluster_projection_list_object library (some 5) memory

deep_copy_cluster_projection_list_object_separates_example :
    let seen = behind (cluster_projection_list_shape library-IsDocumented) as_list_cell in
    (seen.read
        (old_overwritten copied_cluster_projection_list.1)
        (to_cluster_projection_list copied_cluster_projection_list.0)
      ≡ seen.read memory (some 5))
    × (seen.read (new_overwritten copied_cluster_projection_list.1) (some 5)
        ≡ seen.read memory (some 5))
unfolding library-IsDocumented
deep_copy_cluster_projection_list_object_separates_example =
    deep_copy_cluster_projection_list_object_separates library-IsDocumented memory
      (old_overwritten copied_cluster_projection_list.1)
      (new_overwritten copied_cluster_projection_list.1) (some 5)
      (
        omega arith,
        omega arith,
        (
          tt,
          (
            tt,
            (
              omega arith,
              omega arith,
              (
                (
                  tt,
                  (
                    (omega arith, omega arith, tt),
                    (
                      (
                        tt,
                        (
                          (tt, ((omega arith, omega arith, tt), tt)),
                          ((omega arith, omega arith, tt), tt),
                        ),
                      ),
                      (tt, tt),
                    ),
                  ),
                ),
                tt,
              ),
            ),
          ),
        ),
      )
      (λ k low high.
        store-other 1 k (text_map []) copied_cluster_projection_list.1 (λ e. omega (arith, e, low)))
      (λ k low high.
        store-other 8 k (texts []) copied_cluster_projection_list.1 (λ e. omega (arith, e, high)))
