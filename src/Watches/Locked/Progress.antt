-- ===== src/Watches/Locked/Progress.antt =====
-- Concurrent registrations of watches never block for good, and end.
use projection.Kube.Calls.{Reply-cases}
use projection.Watches.{is_watched}
use projection.Kube.World.{World}
use projection.Kube.Object.{GroupVersionKind}
use projection.Kube.Server.{Error, Server}
use projection.Prelude.{
  refl, inr, ◌⊎◌, inl, none, ◌∷◌, [], ◌≡◌, length-append, Bool-cases, length, arith, ◌≤◌, ◌*◌, some,
  ◌+◌, ℕ, suc, List, Option,
}
use projection.Watches.Locked.{
  held_kinds, go_on, entering, start_callers, asking, looking_up, lock, step_holder, after_step,
  Registry, Holding, Callers, next, start, Step, Reach,
}

abbrev steps_left : Option Holding → ℕ
steps_left none = 0
steps_left (some (looking_up gvk)) = 3
steps_left (some (asking gvk)) = 2
steps_left (some (entering gvk)) = 1

-- A caller takes four steps at most.
abbrev pub steps_to_go : {S : Server} → Callers S → ℕ
steps_to_go p = 4 * length p.waiting + steps_left p.holder

module _ {S : Server} (m : Registry) where
  abbrev pub steps : {p q : Callers S} → Reach m p q → ℕ
  steps start = 0
  steps (next s t) = suc (steps s)

  go_on-shorter :
      (waiting : List GroupVersionKind) (h : Holding)
      (returned : List (GroupVersionKind × Option Error)) (w : World S)
      → suc (steps_to_go (after_step waiting returned (step_holder m h w)))
        ≤ 4 * length waiting + steps_left (some h)
  unfolding after_step step_holder
  go_on-shorter waiting (looking_up gvk) returned w =
      elim (Bool-cases (is_watched (held_kinds m w) gvk)) [
        | inl there ↦ rw there (omega arith)
        | inr new ↦ rw new (omega arith)
      ]
  go_on-shorter waiting (asking gvk) returned w = elim (Reply-cases (S.watch gvk w.server).0) [
    | inl (e, failed) ↦ rw failed (omega arith)
    | inr (a, replied) ↦ rw replied (omega arith)
  ]
  go_on-shorter waiting (entering gvk) returned w = omega arith

  Step-shorter : {p q : Callers S} → Step m p q → suc (steps_to_go q) ≤ steps_to_go p
  Step-shorter (lock before gvk after returned w) =
      omega (arith, length-append before after, length-append before (gvk ∷ after))
  Step-shorter (go_on waiting h returned w) = go_on-shorter waiting h returned w

  Reach-shorter : {p q : Callers S} (s : Reach m p q) → steps s + steps_to_go q ≤ steps_to_go p
  Reach-shorter start = omega arith
  Reach-shorter (next s t) = omega (arith, Reach-shorter s, Step-shorter t)

  can-Step :
      (waiting : List GroupVersionKind) (holder : Option Holding)
      (returned : List (GroupVersionKind × Option Error)) (w : World S)
      → let p : Callers S = record {
        waiting = waiting;
        holder = holder;
        returned = returned;
        world = w;
      } in
        ((waiting ≡ []) × (holder ≡ none)) ⊎ ((q : Callers S) × Step m p q)
  can-Step [] none returned w = inl (refl, refl)
  can-Step (gvk ∷ waiting) none returned w = inr (_, lock [] gvk waiting returned w)
  can-Step waiting (some h) returned w = inr (_, go_on waiting h returned w)

  -- A run takes at most four steps for each caller, and wherever it stands, all have returned or
  -- there is another step.
  pub ensure_watches_end :
      (gvks : List GroupVersionKind) (w : World S) {p : Callers S}
      (s : Reach m (start_callers gvks w) p)
      → (steps s ≤ 4 * length gvks)
        × (((p.waiting ≡ []) × (p.holder ≡ none)) ⊎ ((q : Callers S) × Step m p q))
  ensure_watches_end gvks w {p} s =
      (omega (arith, Reach-shorter s), can-Step p.waiting p.holder p.returned p.world)
