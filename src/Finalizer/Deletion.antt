-- ===== src/Finalizer/Deletion.antt =====
-- The deletion path of internal/controller/finalizer.go: what is written, and when the finalizer goes.
use projection.Cleanup.{delete_destination}
use projection.Prelude.{◌∷◌, reverse_onto, none, Bool, List, false, true, some, ◌≡◌, Option}
use projection.Kube.World.{projection_call, World, Call}
use projection.Kube.Api.{Projection}
use projection.Kube.Server.{Error, Server}
use projection.Finalizer.{error_of, with_finalizers, finalizer_name, Deps}

-- How the deletion path ends, by the error that the replies to the cleanup decide: with one, only the
-- cleanup's deletes are written and the error is returned; without one, an update follows that
-- drops the finalizer and changes nothing else of the projection, and its error is returned.
module _ {S : Server} (d : Deps) (proj : Projection) (w : World S) where
  abbrev pub IsTornDown : Bool → Option Error → List Call → (Bool × Option Error) × World S → Type 0
  IsTornDown false failed deletes end = end ≡ ((true, none), w)
  IsTornDown true (some e) deletes (end, w') =
      (end ≡ (true, some e)) × (w'.calls ≡ reverse_onto deletes w.calls)
  IsTornDown true none deletes (end, w') =
      (p : Projection) × (d.helpers.contains_finalizer p.meta.finalizers finalizer_name ≡ false)
      × (p ≡ with_finalizers proj p.meta.finalizers)
      × (end ≡ (
        true,
        error_of
            (S.update_projection p (delete_destination d.accessors d.mapper proj w).1.server).0,
      ))
      × (w'.calls ≡ projection_call p ∷ reverse_onto deletes w.calls)
