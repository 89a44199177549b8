-- ===== src/Copies/New.antt =====
-- `DeepCopy` of every type, which takes and returns a pointer, and `DeepCopyObject` of the four that are
-- objects.
use mathlib.Core.Option.{none, some}
use projection.Heap.{copy_ref, Heap, Ref}
use projection.Copies.Into.{
  copy_status, copy_spec, copy_source, copy_projection_list, copy_projection, copy_overlay,
  copy_destination, copy_cluster_status, copy_cluster_spec, copy_cluster_projection_list,
  copy_cluster_projection, copy_cluster_destination, Library,
}
use projection.Prelude.{Option, ℕ}
use projection.Copies.{
  as_status_cell, as_spec_cell, as_source_cell, as_projection_cell, as_overlay_cell, as_list_cell,
  as_destination_cell, as_cluster_status_cell, as_cluster_spec_cell, as_cluster_projection_cell,
  as_cluster_destination_cell, status_cell, spec_cell, source_cell, projection_cell, overlay_cell,
  list_cell, destination_cell, cluster_status_cell, cluster_spec_cell, cluster_projection_cell,
  cluster_destination_cell, Cell, LibraryTypes,
}

-- `runtime.Object`, with the type behind the interface.
pub data Object : Type 0 where
  projection_object cluster_projection_object : ℕ → Object
  projection_list_object cluster_projection_list_object : ℕ → Object

module _ {T : LibraryTypes} where
  unfoldable pub deep_copy_source : Ref → Heap (Cell T) → Ref × Heap (Cell T)
  deep_copy_source = copy_ref source_cell as_source_cell copy_source

  unfoldable pub deep_copy_destination : Ref → Heap (Cell T) → Ref × Heap (Cell T)
  deep_copy_destination = copy_ref destination_cell as_destination_cell copy_destination

  unfoldable pub deep_copy_overlay : Ref → Heap (Cell T) → Ref × Heap (Cell T)
  deep_copy_overlay = copy_ref overlay_cell as_overlay_cell copy_overlay

  unfoldable pub deep_copy_spec : Ref → Heap (Cell T) → Ref × Heap (Cell T)
  deep_copy_spec = copy_ref spec_cell as_spec_cell copy_spec

module _ {T : LibraryTypes} (lib : Library T) where
  unfoldable pub deep_copy_cluster_destination : Ref → Heap (Cell T) → Ref × Heap (Cell T)
  deep_copy_cluster_destination =
      copy_ref cluster_destination_cell as_cluster_destination_cell (copy_cluster_destination lib)

  unfoldable pub deep_copy_cluster_spec : Ref → Heap (Cell T) → Ref × Heap (Cell T)
  deep_copy_cluster_spec = copy_ref cluster_spec_cell as_cluster_spec_cell (copy_cluster_spec lib)

  unfoldable pub deep_copy_status : Ref → Heap (Cell T) → Ref × Heap (Cell T)
  deep_copy_status = copy_ref status_cell as_status_cell (copy_status lib)

  unfoldable pub deep_copy_cluster_status : Ref → Heap (Cell T) → Ref × Heap (Cell T)
  deep_copy_cluster_status =
      copy_ref cluster_status_cell as_cluster_status_cell (copy_cluster_status lib)

  unfoldable pub deep_copy_projection : Ref → Heap (Cell T) → Ref × Heap (Cell T)
  deep_copy_projection = copy_ref projection_cell as_projection_cell (copy_projection lib)

  unfoldable pub deep_copy_cluster_projection : Ref → Heap (Cell T) → Ref × Heap (Cell T)
  deep_copy_cluster_projection =
      copy_ref cluster_projection_cell as_cluster_projection_cell (copy_cluster_projection lib)

  unfoldable pub deep_copy_projection_list : Ref → Heap (Cell T) → Ref × Heap (Cell T)
  deep_copy_projection_list = copy_ref list_cell as_list_cell (copy_projection_list lib)

  unfoldable pub deep_copy_cluster_projection_list : Ref → Heap (Cell T) → Ref × Heap (Cell T)
  deep_copy_cluster_projection_list =
      copy_ref list_cell as_list_cell (copy_cluster_projection_list lib)

  -- A nil pointer becomes a nil interface.
  unfoldable pub deep_copy_projection_object : Ref → Heap (Cell T) → Option Object × Heap (Cell T)
  deep_copy_projection_object r h =
      let (c, h') = deep_copy_projection r h in
      (elim c [ none ↦ none | some n ↦ some (projection_object n) ], h')

  unfoldable pub deep_copy_cluster_projection_object :
      Ref → Heap (Cell T) → Option Object × Heap (Cell T)
  deep_copy_cluster_projection_object r h =
      let (c, h') = deep_copy_cluster_projection r h in
      (elim c [ none ↦ none | some n ↦ some (cluster_projection_object n) ], h')

  unfoldable pub deep_copy_projection_list_object :
      Ref → Heap (Cell T) → Option Object × Heap (Cell T)
  deep_copy_projection_list_object r h =
      let (c, h') = deep_copy_projection_list r h in
      (elim c [ none ↦ none | some n ↦ some (projection_list_object n) ], h')

  unfoldable pub deep_copy_cluster_projection_list_object :
      Ref → Heap (Cell T) → Option Object × Heap (Cell T)
  deep_copy_cluster_projection_list_object r h =
      let (c, h') = deep_copy_cluster_projection_list r h in
      (elim c [ none ↦ none | some n ↦ some (cluster_projection_list_object n) ], h')
