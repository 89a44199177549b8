-- ===== src/Watches/Locked.antt =====
-- The registrations of watches as the reconciles of a controller make them at the same time, each
-- under the mutex of its map: internal/controller/watches.go. The look-up, the call of the controller
-- and the entry in the map are three steps.
pub mod Order
pub mod Progress
use projection.Kube.World.{read, World}
use projection.Watches.{is_watched, ensure_dest_watch, ensure_source_watch}
use projection.Conditions.{Settings}
use projection.Prelude.{inr, some, ◌++◌, inl, if◌then◌else◌, suc, [], ◌⊎◌, ◌∷◌, none, Option, List}
use projection.Kube.Server.{ok, err, Error, Server}
use projection.Kube.Object.{GroupVersionKind}

-- The two maps of a reconciler, each with its mutex: `watched` and `watchedDests`.
pub data Registry : Type 0 where
  source_registry dest_registry : Registry

-- The caller that holds the mutex: it is about to look the kind up, to ask the controller, or to enter
-- the kind in the map.
pub data Holding : Type 0 where
  looking_up asking entering : GroupVersionKind → Holding

-- The callers that have not taken the mutex, the one that holds it, and what the others returned, in
-- the order of their returns.
pub record Callers (S : Server) : Type 0 where
  pub waiting : List GroupVersionKind
  pub holder : Option Holding
  pub returned : List (GroupVersionKind × Option Error)
  pub world : World S

module _ {S : Server} where
  abbrev pub held_kinds : Registry → World S → List GroupVersionKind
  held_kinds source_registry w = w.watched
  held_kinds dest_registry w = w.watched_dests

  -- `watched[gvk] = true`, and the gauge.
  abbrev pub enter_kind : Registry → GroupVersionKind → World S → World S
  enter_kind source_registry gvk w = record w {
    watched = gvk ∷ w.watched;
    watched_gvks = suc w.watched_gvks;
  }
  enter_kind dest_registry gvk w = record w {
    watched_dests = gvk ∷ w.watched_dests;
    watched_dest_gvks = suc w.watched_dest_gvks;
  }

  -- The next step of the holder: it holds the mutex on, or returns, which releases it.
  unfoldable pub step_holder :
      Registry → Holding → World S → (Holding ⊎ (GroupVersionKind × Option Error)) × World S
  step_holder m (looking_up gvk) w =
      (if is_watched (held_kinds m w) gvk then inr (gvk, none) else inl (asking gvk), w)
  step_holder m (asking gvk) w =
      let (reply, w') = read (S.watch gvk) w in
      (elim reply [ err e ↦ inr (gvk, some e) | ok _ ↦ inl (entering gvk) ], w')
  step_holder m (entering gvk) w = (inr (gvk, none), enter_kind m gvk w)

  -- What the callers look like after it.
  unfoldable pub after_step :
      List GroupVersionKind
      → List (GroupVersionKind × Option Error)
      → (Holding ⊎ (GroupVersionKind × Option Error)) × World S
      → Callers S
  after_step waiting returned (inl h, w) = record {
    waiting = waiting;
    holder = some h;
    returned = returned;
    world = w;
  }
  after_step waiting returned (inr result, w) = record {
    waiting = waiting;
    holder = none;
    returned = returned ++ (result ∷ []);
    world = w;
  }

  pub data Step (m : Registry) : Callers S → Callers S → Type 0 where
    lock :
        (before : List GroupVersionKind) (gvk : GroupVersionKind) (after : List GroupVersionKind)
        (returned : List (GroupVersionKind × Option Error)) (w : World S)
        → Step m
            (record {
              waiting = before ++ (gvk ∷ after);
              holder = none;
              returned = returned;
              world = w;
            })
            (record {
              waiting = before ++ after;
              holder = some (looking_up gvk);
              returned = returned;
              world = w;
            })
    go_on :
        (waiting : List GroupVersionKind) (h : Holding)
        (returned : List (GroupVersionKind × Option Error)) (w : World S)
        → Step m
            (record { waiting = waiting; holder = some h; returned = returned; world = w })
            (after_step waiting returned (step_holder m h w))

  pub data Reach (m : Registry) (p : Callers S) : Callers S → Type 0 where
    start : Reach m p p
    next : {q r : Callers S} → Reach m p q → Step m q r → Reach m p r

  abbrev pub start_callers : List GroupVersionKind → World S → Callers S
  start_callers gvks w = record { waiting = gvks; holder = none; returned = []; world = w }

  abbrev pub ensure_watch :
      Settings → Registry → GroupVersionKind → World S → Option Error × World S
  ensure_watch r source_registry = ensure_source_watch r
  ensure_watch r dest_registry = ensure_dest_watch r

  -- The calls one after the other.
  unfoldable pub ensure_each :
      Settings
      → Registry
      → List GroupVersionKind
      → List (GroupVersionKind × Option Error)
      → World S
      → List (GroupVersionKind × Option Error) × World S
  ensure_each r m [] returned w = (returned, w)
  ensure_each r m (gvk ∷ rest) returned w =
      let (e, w') = ensure_watch r m gvk w in ensure_each r m rest (returned ++ ((gvk, e) ∷ [])) w'
