-- ===== src/Watches/Registered.antt =====
-- The registered watches of internal/controller/watches.go, and the process's gauges of
-- internal/controller/metrics.go, which both reconcilers increment.
use projection.Kube.Calls.{Reply-cases}
use projection.Kube.World.{World}
use projection.Conditions.{Settings}
use projection.Kube.Object.{GroupVersionKind}
use projection.Watches.{ensure_source_watch, same_kind, is_watched}
use projection.Kube.Server.{Server}
use projection.Prelude.{
  ◌+◌, inr, arith, inl, Bool-cases, none, eq_refl, [], true, length, false, ◌≡◌, ◌∷◌, List,
}

-- No kind is registered twice.
abbrev pub Distinct : List GroupVersionKind → Type 0
Distinct [] = Unit
Distinct (x ∷ xs) = (is_watched xs x ≡ false) × Distinct xs

module _ {S : Server} where
  -- The maps of the two reconcilers, and the gauges that they share and that count both.
  abbrev pub IsTracked : World S → World S → Type 0
  IsTracked w other =
      ((w.watched_gvks ≡ length w.watched + length other.watched)
        × Distinct w.watched
        × Distinct other.watched)
      × ((w.watched_dest_gvks ≡ length w.watched_dests + length other.watched_dests)
          × Distinct w.watched_dests
          × Distinct other.watched_dests)
      × (other.watched_gvks ≡ w.watched_gvks)
      × (other.watched_dest_gvks ≡ w.watched_dest_gvks)

  -- The other reconciler's world after a step of the first, which may have moved the gauges.
  abbrev pub beside : World S → World S → World S
  beside w other = record other {
    watched_gvks = w.watched_gvks;
    watched_dest_gvks = w.watched_dest_gvks;
  }

is_watched_self :
    (gvk : GroupVersionKind) (xs : List GroupVersionKind) → is_watched (gvk ∷ xs) gvk ≡ true
unfolding is_watched same_kind
is_watched_self gvk xs = rw (eq_refl gvk.group, eq_refl gvk.version, eq_refl gvk.kind)

module _ {S : Server} (r : Settings) (gvk : GroupVersionKind) (w : World S) where
  -- Where there is a controller and the registration returned no error, the kind is registered, and to
  -- register it again asks the controller nothing and changes nothing.
  ensure_source_watch-once :
      r.has_controller ≡ true
      → (ensure_source_watch r gvk w).0 ≡ none
      → let after = (ensure_source_watch r gvk w).1 in
        (is_watched after.watched gvk ≡ true) × (ensure_source_watch r gvk after ≡ (none, after))
  unfolding ensure_source_watch
  ensure_source_watch-once on fine = elim (Bool-cases (is_watched w.watched gvk)) [
    | inl there ↦ (ground (arith, on, there), ground (arith, on, there))
    | inr new ↦ elim (Reply-cases (S.watch gvk w.server).0) [
      | inl (e, failed) ↦ absurd (ground (arith, on, new, failed, fine))
      | inr (done, ok_reply) ↦ (
        ground (arith, on, new, ok_reply, is_watched_self gvk w.watched),
        ground (arith, on, new, ok_reply, is_watched_self gvk w.watched),
      )
    ]
  ]
