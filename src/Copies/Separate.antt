-- ===== src/Copies/Separate.antt =====
-- A copy that `DeepCopyObject` makes shares nothing with its original.
use projection.Copies.Pointers.{
  deep_copy_projection-IsDeep, deep_copy_cluster_projection_list-IsDeep,
}
use projection.Copies.Objects.{cluster_projection_list_shape}
use projection.Heap.Refs.{IsCopy-separates, behind}
use projection.Heap.{Agree, Heap, Ref}
use projection.Copies.Deep.{projection_shape, IsDocumented}
use projection.Copies.New.{
  projection_object, deep_copy_projection, deep_copy_cluster_projection_list,
  cluster_projection_list_object, deep_copy_projection_object,
  deep_copy_cluster_projection_list_object, Object,
}
use projection.Copies.Into.{Library}
use projection.Prelude.{◌∙◌, ap, refl, ◌≡◌, none, some, Option}
use projection.Copies.{as_projection_cell, as_list_cell, Cell, LibraryTypes}

-- The type assertions.
abbrev pub to_projection : Option Object → Ref
to_projection (some (projection_object n)) = some n
to_projection _ = none

abbrev pub to_cluster_projection_list : Option Object → Ref
to_cluster_projection_list (some (cluster_projection_list_object n)) = some n
to_cluster_projection_list _ = none

to_projection-object :
    (c : Ref) → to_projection (elim c [ none ↦ none | some n ↦ some (projection_object n) ]) ≡ c
to_projection-object none = refl
to_projection-object (some n) = refl

to_cluster_projection_list-object :
    (c : Ref)
    → to_cluster_projection_list
        (elim c [ none ↦ none | some n ↦ some (cluster_projection_list_object n) ])
      ≡ c
to_cluster_projection_list-object none = refl
to_cluster_projection_list-object (some n) = refl

module _ {T : LibraryTypes} {lib : Library T} (doc : IsDocumented T lib) where
  -- A copy that `DeepCopyObject` of `Projection` makes, of an object all of whose references
  -- are in use and for a library whose own deep copies are such: the copy is nil just where the object
  -- is. It reads as the object did, field by field and behind every reference, and goes on to do so
  -- whatever is then written to the addresses that were in use before. The object reads as it did,
  -- whatever is written to the addresses of the copy.
  pub deep_copy_projection_object_separates :
      (h old_changed new_changed : Heap (Cell T)) (r : Ref)
      → (behind (projection_shape doc) as_projection_cell).Within 0 h.next h r
      → Agree h.next
          (deep_copy_projection_object lib r h).1.next
          old_changed
          (deep_copy_projection_object lib r h).1
      → Agree 0 h.next new_changed (deep_copy_projection_object lib r h).1
      → ((behind (projection_shape doc) as_projection_cell).read old_changed
            (to_projection (deep_copy_projection_object lib r h).0)
          ≡ (behind (projection_shape doc) as_projection_cell).read h r)
        × ((behind (projection_shape doc) as_projection_cell).read new_changed r
            ≡ (behind (projection_shape doc) as_projection_cell).read h r)
  unfolding deep_copy_projection_object
  deep_copy_projection_object_separates h old_changed new_changed r within old new =
      let (c, h') = deep_copy_projection lib r h in
      let copied = deep_copy_projection-IsDeep doc h r within in
      let (reads, original) =
        IsCopy-separates (behind (projection_shape doc) as_projection_cell) h h' old_changed
          new_changed r c copied within old new in
      (
        ap (λ (r : Ref). (behind (projection_shape doc) as_projection_cell).read old_changed r)
              (to_projection-object c)
            ∙ reads,
        original,
      )

  -- A copy that `DeepCopyObject` of `ClusterProjectionList` makes, of an object all of whose references
  -- are in use and for a library whose own deep copies are such: the copy is nil just where the object
  -- is. It reads as the object did, field by field and behind every reference, and goes on to do so
  -- whatever is then written to the addresses that were in use before. The object reads as it did,
  -- whatever is written to the addresses of the copy.
  pub deep_copy_cluster_projection_list_object_separates :
      (h old_changed new_changed : Heap (Cell T)) (r : Ref)
      → (behind (cluster_projection_list_shape doc) as_list_cell).Within 0 h.next h r
      → Agree h.next
          (deep_copy_cluster_projection_list_object lib r h).1.next
          old_changed
          (deep_copy_cluster_projection_list_object lib r h).1
      → Agree 0 h.next new_changed (deep_copy_cluster_projection_list_object lib r h).1
      → ((behind (cluster_projection_list_shape doc) as_list_cell).read old_changed
            (to_cluster_projection_list (deep_copy_cluster_projection_list_object lib r h).0)
          ≡ (behind (cluster_projection_list_shape doc) as_list_cell).read h r)
        × ((behind (cluster_projection_list_shape doc) as_list_cell).read new_changed r
            ≡ (behind (cluster_projection_list_shape doc) as_list_cell).read h r)
  unfolding deep_copy_cluster_projection_list_object
  deep_copy_cluster_projection_list_object_separates h old_changed new_changed r within old new =
      let (c, h') = deep_copy_cluster_projection_list lib r h in
      let copied = deep_copy_cluster_projection_list-IsDeep doc h r within in
      let (reads, original) =
        IsCopy-separates (behind (cluster_projection_list_shape doc) as_list_cell) h h' old_changed
          new_changed r c copied within old new in
      (
        ap
              (λ (r : Ref).
                (behind (cluster_projection_list_shape doc) as_list_cell).read old_changed r)
              (to_cluster_projection_list-object c)
            ∙ reads,
        original,
      )
