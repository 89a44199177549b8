-- ===== src/Cleanup/Calls.antt =====
-- Which deletes the cleanup of internal/controller/cleanup.go issues, and what it reports.
use projection.Cleanup.{delete_step, delete_each, delete_candidate}
use projection.Destination.Write.{coordinates}
use projection.Kube.Value.{Fields}
use projection.Kube.World.{emit, World, delete_call, event_normal, Call, Regarding, Event}
use projection.Kube.Server.{Error, GroupVersionResource, Server}
use projection.Prelude.{
  refl, [], arith, ◌∷◌, select, map, if◌then◌else◌, ◌≡◌, none, reverse_onto, some, Bool, Option,
  List,
}
use projection.Kube.Object.{name_field, namespace_field, Accessors}

-- The delete of a listed object.
abbrev pub deletion : Accessors → GroupVersionResource → Fields → Call
deletion a gvr o = delete_call gvr (a.get_text namespace_field o) (a.get_text name_field o)

abbrev pub deleted_event : Accessors → Regarding → Fields → Event
deleted_event a regarding o = record {
  regarding = regarding;
  event_type = event_normal;
  reason = "DestinationDeleted";
  action = "Delete";
  note = coordinates (a.get_text namespace_field o) (a.get_text name_field o);
}

-- The events after more of them, which a nil recorder drops.
abbrev pub more_events : List Event → Option (List Event) → Option (List Event)
more_events new none = none
more_events new (some events) = some (reverse_onto new events)

module _ {S : Server} (a : Accessors) (regarding : Regarding) (gvr : GroupVersionResource)
    (wanted : Fields → Bool) where
  calls-delete_candidate :
      (o : Fields) (first : Option Error) (w : World S)
      → (delete_candidate a regarding gvr wanted o first w).1.calls
        ≡ (if wanted o then deletion a gvr o ∷ w.calls else w.calls)
  unfolding delete_candidate delete_step emit
  calls-delete_candidate o first w = ground arith

  pub calls-delete_each :
      (os : List Fields) (first : Option Error) (w : World S)
      → (delete_each a regarding gvr wanted os first w).1.calls
        ≡ reverse_onto (map (deletion a gvr) (select wanted os)) w.calls
  unfolding delete_each
  calls-delete_each [] first w = refl
  calls-delete_each (o ∷ os) first w =
      let next = delete_candidate a regarding gvr wanted o first w in
      ground (arith, calls-delete_candidate o first w, calls-delete_each os next.0 next.1)

  delete_candidate-none :
      (o : Fields) (first : Option Error) (w : World S)
      → (delete_candidate a regarding gvr wanted o first w).0 ≡ none
      → first ≡ none
  unfolding delete_candidate delete_step
  delete_candidate-none o none w h = refl
  delete_candidate-none o (some e) w h = ground arith

  -- An error that was met is not lost.
  delete_each-none :
      (os : List Fields) (first : Option Error) (w : World S)
      → (delete_each a regarding gvr wanted os first w).0 ≡ none
      → first ≡ none
  unfolding delete_each
  delete_each-none [] first w h = h
  delete_each-none (o ∷ os) first w h =
      let next = delete_candidate a regarding gvr wanted o first w in
      delete_candidate-none o first w (delete_each-none os next.0 next.1 h)

  events-delete_candidate :
      (o : Fields) (first : Option Error) (w : World S)
      → (delete_candidate a regarding gvr wanted o first w).0 ≡ none
      → (delete_candidate a regarding gvr wanted o first w).1.events
        ≡ (if wanted o then more_events (deleted_event a regarding o ∷ []) w.events else w.events)
  unfolding delete_candidate delete_step emit
  events-delete_candidate o none w h = ground arith
  events-delete_candidate o (some e) w h = ground arith

  pub events-delete_each :
      (os : List Fields) (first : Option Error) (w : World S)
      → (delete_each a regarding gvr wanted os first w).0 ≡ none
      → (delete_each a regarding gvr wanted os first w).1.events
        ≡ more_events (map (deleted_event a regarding) (select wanted os)) w.events
  unfolding delete_each
  events-delete_each [] first w h = ground arith
  events-delete_each (o ∷ os) first w h =
      let next = delete_candidate a regarding gvr wanted o first w in
      let kept = delete_each-none os next.0 next.1 h in
      ground (arith, events-delete_candidate o first w kept, events-delete_each os next.0 next.1 h)
