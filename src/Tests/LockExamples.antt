-- ===== src/Tests/LockExamples.antt =====
-- The theorem on concurrent registrations of watches: two callers ask for one kind.
use projection.Watches.Locked.Order.{ensure_watches_serialize}
use mathlib.Core.List.{Perm}
use projection.Watches.{same_kind, is_watched}
use projection.Tests.{settings, fresh, config_map_kind}
use projection.Tests.Apiserver.{server}
use projection.Kube.Object.{GroupVersionKind}
use projection.Watches.Locked.Progress.{steps}
use projection.Kube.World.{World}
use projection.Prelude.{refl, ◌⊎◌, ◌≡◌, ◌∷◌, none, ◌≤◌, [], List}
use projection.Watches.Locked.{
  entering, asking, looking_up, go_on, lock, start_callers, ensure_each, step_holder,
  source_registry, after_step, Callers, next, start, Step, Reach,
}

abbrev same_kinds : List GroupVersionKind
same_kinds = config_map_kind ∷ (config_map_kind ∷ [])

-- The kind is registered, and its gauge has counted it.
abbrev registered : World server
registered = record fresh { watched = config_map_kind ∷ []; watched_gvks = 1 }

abbrev both_returned : Callers server
both_returned = record {
  waiting = [];
  holder = none;
  returned = (config_map_kind, none) ∷ ((config_map_kind, none) ∷ []);
  world = registered;
}

two_calls : Reach source_registry (start_callers same_kinds fresh) both_returned
unfolding after_step step_holder is_watched same_kind
two_calls =
    let first = (config_map_kind, none) ∷ [] in
    next
      (next
        (next
          (next
            (next (next start (lock [] config_map_kind (config_map_kind ∷ []) [] fresh))
              (go_on (config_map_kind ∷ []) (looking_up config_map_kind) [] fresh))
            (go_on (config_map_kind ∷ []) (asking config_map_kind) [] fresh))
          (go_on (config_map_kind ∷ []) (entering config_map_kind) [] fresh))
        (lock [] config_map_kind [] first registered))
      (go_on [] (looking_up config_map_kind) first registered)

ensure_watches_serialize_example :
    (steps source_registry two_calls ≤ 8)
    × (((order : List GroupVersionKind) × Perm order same_kinds
          × (ensure_each settings source_registry order [] fresh
              ≡ (both_returned.returned, both_returned.world)))
        ⊎ ((q : Callers server) × Step source_registry both_returned q))
ensure_watches_serialize_example =
    ensure_watches_serialize settings refl source_registry same_kinds fresh two_calls
