-- ===== src/Watches/Locked/Order.antt =====
-- The mutex makes each registration of a watch one step.

use projection.Watches.Locked.Progress.{ensure_watches_end, steps}
use projection.Kube.World.{read, World}
use projection.Watches.Locked.{
  dest_registry, source_registry, next, start, go_on, start_callers, lock, Step, Reach, step_holder,
  after_step, Callers, enter_kind, held_kinds, ensure_watch, ensure_each, entering, Registry,
  asking, looking_up, Holding,
}
use projection.Kube.Calls.{Reply-cases}
use mathlib.Core.Path.{subst₂}
use projection.Watches.{ensure_dest_watch, ensure_source_watch, is_watched}
use projection.Conditions.{Settings}
use projection.Kube.Object.{GroupVersionKind}
use projection.Kube.Server.{ok, err, Error, Server}
use projection.Prelude.{
  length, ◌*◌, ◌≤◌, ◌∙◌, ap, sym, subst, inr, inl, Bool-cases, ◌⊎◌, if◌then◌else◌, refl, ◌++◌, none,
  ◌∷◌, true, some, ◌≡◌, [], List, Option,
}
use mathlib.Core.List.Perm
use mathlib.Core.List.{Perm, perm_middle, append_assoc, append-nil}

abbrev kind_of : Holding → GroupVersionKind
kind_of (looking_up gvk) = gvk
kind_of (asking gvk) = gvk
kind_of (entering gvk) = gvk

abbrev holders : Option Holding → List GroupVersionKind
holders none = []
holders (some h) = kind_of h ∷ []

module _ {S : Server} (r : Settings) (on : r.has_controller ≡ true) where
  -- What the holder returns if it goes on alone.
  finish : Registry → Holding → World S → Option Error × World S
  finish m (looking_up gvk) w = ensure_watch r m gvk w
  finish m (asking gvk) w =
      let (reply, w') = read (S.watch gvk) w in
      elim reply [ err e ↦ (some e, w') | ok _ ↦ (none, enter_kind m gvk w') ]
  finish m (entering gvk) w = (none, enter_kind m gvk w)

  -- Under the mutex, a registration starts with the look-up.
  ensure_watch-look_up :
      (m : Registry) (gvk : GroupVersionKind) (w : World S)
      → ensure_watch r m gvk w
        ≡ (if is_watched (held_kinds m w) gvk then (none, w) else finish m (asking gvk) w)
  unfolding finish ensure_source_watch ensure_dest_watch
  ensure_watch-look_up source_registry gvk w = rw on refl
  ensure_watch-look_up dest_registry gvk w = rw on refl

module _ {S : Server} (r : Settings) (on : r.has_controller ≡ true) (m : Registry) where
  ensure_each-append :
      (xs ys : List GroupVersionKind) (returned : List (GroupVersionKind × Option Error))
      (w : World S)
      → ensure_each r m (xs ++ ys) returned w ≡ (
          let (some_returned, w') = ensure_each r m xs returned w in
          ensure_each r m ys some_returned w')
  unfolding ensure_each
  ensure_each-append [] ys returned w = refl
  ensure_each-append (x ∷ xs) ys returned w = ensure_each-append xs ys _ _

  -- The holder returns with the result of the whole registration, or goes on to it.
  Continues : Holding → World S → (Holding ⊎ (GroupVersionKind × Option Error)) × World S → Type 0
  Continues h w (inl h', w') = (kind_of h' ≡ kind_of h) × (finish r on m h' w' ≡ finish r on m h w)
  Continues h w (inr (gvk, e), w') = (gvk ≡ kind_of h) × ((e, w') ≡ finish r on m h w)

  step_holder-Continues : (h : Holding) (w : World S) → Continues h w (step_holder m h w)
  unfolding step_holder finish Continues
  step_holder-Continues (looking_up gvk) w = elim (Bool-cases (is_watched (held_kinds m w) gvk)) [
    | inl there ↦ rw (there, step_holder) (refl, sym (ensure_watch-look_up r on m gvk w ∙ rw there))
    | inr new ↦ rw (new, step_holder) (refl, sym (ensure_watch-look_up r on m gvk w ∙ rw new))
  ]
  step_holder-Continues (asking gvk) w = elim (Reply-cases (S.watch gvk w.server).0) [
    | inl (e, failed) ↦ rw (failed, step_holder, finish, failed) (refl, refl)
    | inr (a, replied) ↦ rw (replied, step_holder, finish, replied) (refl, refl)
  ]
  step_holder-Continues (entering gvk) w = (refl, refl)

  Resumes : Option Holding → World S → World S → Type 0
  Resumes none at w = at ≡ w
  Resumes (some h) at w = finish r on m h w ≡ ensure_watch r m (kind_of h) at

  module _ (gvks : List GroupVersionKind) (w : World S) where
    -- The calls that have returned were made one after the other, and the holder goes on to the
    -- result of its call made after them.
    record IsOrdered (p : Callers S) : Type 0 where
      done : List GroupVersionKind
      split : Perm (done ++ (holders p.holder ++ p.waiting)) gvks
      at : World S
      before : ensure_each r m done [] w ≡ (p.returned, at)
      current : Resumes p.holder at p.world

    after_step-IsOrdered :
        (waiting : List GroupVersionKind) (h : Holding)
        (returned : List (GroupVersionKind × Option Error)) (v : World S)
        (o : (Holding ⊎ (GroupVersionKind × Option Error)) × World S)
        → Continues h v o
        → IsOrdered (record { waiting = waiting; holder = some h; returned = returned; world = v })
        → IsOrdered (after_step waiting returned o)
    unfolding after_step Continues Resumes ensure_each
    after_step-IsOrdered waiting h returned v (inl h', v') (same, goes_on) i = record {
      done = i.done;
      split =
          subst (λ (k : GroupVersionKind). Perm (i.done ++ (k ∷ waiting)) gvks) (sym same) i.split;
      at = i.at;
      before = i.before;
      current =
          goes_on ∙ i.current ∙ ap (λ (k : GroupVersionKind). ensure_watch r m k i.at) (sym same);
    }
    after_step-IsOrdered waiting h returned v (inr (gvk, e), v') (same, ended) i = record {
      done = i.done ++ (kind_of h ∷ []);
      split = rw (append_assoc i.done (kind_of h ∷ []) waiting) i.split;
      at = v';
      before =
          ensure_each-append i.done (kind_of h ∷ []) [] w
          ∙ ap
              (λ (s : List (GroupVersionKind × Option Error) × World S).
                ensure_each r m (kind_of h ∷ []) s.0 s.1)
              i.before
          ∙ ap (λ (s : Option Error × World S). (returned ++ ((kind_of h, s.0) ∷ []), s.1))
              (sym (ended ∙ i.current))
          ∙ ap (λ (k : GroupVersionKind). (returned ++ ((k, e) ∷ []), v')) (sym same);
      current = refl;
    }

    Step-IsOrdered : {p q : Callers S} → Step m p q → IsOrdered p → IsOrdered q
    unfolding Resumes finish
    Step-IsOrdered (lock before gvk after returned v) i = record {
      done = i.done;
      split = Perm.trans (Perm.append_left i.done (Perm.symm (perm_middle before after))) i.split;
      at = i.at;
      before = i.before;
      current = ap (ensure_watch r m gvk) (sym i.current);
    }
    Step-IsOrdered (go_on waiting h returned v) i =
        after_step-IsOrdered waiting h returned v (step_holder m h v) (step_holder-Continues h v) i

    Reach-IsOrdered : {p : Callers S} → Reach m (start_callers gvks w) p → IsOrdered p
    unfolding ensure_each Resumes
    Reach-IsOrdered start = record {
      done = [];
      split = Perm.refl gvks;
      at = w;
      before = refl;
      current = refl;
    }
    Reach-IsOrdered (next s t) = Step-IsOrdered t (Reach-IsOrdered s)

    -- The calls that have returned, all of them.
    ensure_watches_are_some_order :
        {p : Callers S}
        → Reach m (start_callers gvks w) p
        → p.waiting ≡ []
        → p.holder ≡ none
        → (order : List GroupVersionKind) × Perm order gvks
          × (ensure_each r m order [] w ≡ (p.returned, p.world))
    unfolding Resumes
    ensure_watches_are_some_order {p = p} s waits free =
        let i = Reach-IsOrdered s in
        let split =
          subst (λ (l : List GroupVersionKind). Perm l gvks) (append-nil i.done)
            (subst₂
              (λ (x : Option Holding) (l : List GroupVersionKind).
                Perm (i.done ++ (holders x ++ l)) gvks)
              free waits i.split) in
        let same = subst (λ (x : Option Holding). Resumes x i.at p.world) free i.current in
        (i.done, split, i.before ∙ ap (λ (v : World S). (p.returned, v)) same)

    -- Where there is a controller: reconciles that register watches at the same time, each under the
    -- mutex of its map, take at most four steps each, and wherever they stand, some caller can take
    -- another step, or all have returned. Then what they returned and the world are those of the calls
    -- made one after the other, in some order.
    pub ensure_watches_serialize :
        {p : Callers S} (s : Reach m (start_callers gvks w) p)
        → (steps m s ≤ 4 * length gvks)
          × (((order : List GroupVersionKind) × Perm order gvks
                × (ensure_each r m order [] w ≡ (p.returned, p.world)))
              ⊎ ((q : Callers S) × Step m p q))
    ensure_watches_serialize s =
        let (few, ended_or_not) = ensure_watches_end m gvks w s in
        (
          few,
          elim ended_or_not [
            | inl (waits, free) ↦ inl (ensure_watches_are_some_order s waits free)
            | inr more ↦ inr more
          ],
        )
