-- ===== src/Heap/Refs.antt =====
-- Copies behind references, and of the elements of a slice.
use projection.Prelude.{
  refl, [], ◌∷◌, ◌∙◌, sym, suc, All-map, ◌<◌, subst, none, arith, ap, All, ◌≤◌, ◌≢◌, ◌≡◌, some, map,
  Option, ℕ, List,
}
use projection.Heap.{reserve, Agree, copy_ref, copy_each, Ref, Heap, store}
use projection.Heap.Shape.{IsCopy, IsCopy-pair, Within_later, IsDeep, Shape}
use mathlib.Core.Path.{ap₂}

module _ {C : Type 0} where
  store-same : (n : ℕ) (c : C) (h : Heap C) → (store n c h).cells n ≡ c
  unfolding store
  store-same n c h = ground arith

  pub store-other : (n k : ℕ) (c : C) (h : Heap C) → k ≢ n → (store n c h).cells k ≡ h.cells k
  unfolding store
  store-other n k c h apart = ground (arith, apart)

  -- A copy keeps what it reads as while its own addresses are left alone, and so does its original.
  pub IsCopy-separates :
      {A : Type 0} (s : Shape C A) (h h' old_changed new_changed : Heap C) (a a' : A)
      → IsCopy s h a h' a'
      → s.Within 0 h.next h a
      → Agree h.next h'.next old_changed h'
      → Agree 0 h.next new_changed h'
      → (s.read old_changed a' ≡ s.read h a) × (s.read new_changed a ≡ s.read h a)
  IsCopy-separates s h h' old_changed new_changed a a' copied within old new = (
    s.read_local h.next h'.next old_changed h' a' old copied.apart ∙ copied.same,
    s.read_local 0 h.next new_changed h a (λ n low high. new n low high ∙ copied.keeps n low high)
        within,
  )

  module _ {A : Type 0} (s : Shape C A) (get : C → A) where
    abbrev pub read_ref : Heap C → Ref → Option s.Seen
    read_ref h none = none
    read_ref h (some n) = some (s.read h (get (h.cells n)))

    abbrev pub WithinRef : ℕ → ℕ → Heap C → Ref → Type 0
    WithinRef lo hi h none = Unit {0}
    WithinRef lo hi h (some n) = (lo ≤ n) × (n < hi) × s.Within lo hi h (get (h.cells n))

    pub read_ref_local :
        (lo hi : ℕ) (g h : Heap C) (r : Ref)
        → Agree lo hi g h
        → WithinRef lo hi h r
        → read_ref g r ≡ read_ref h r
    read_ref_local lo hi g h none agree w = refl
    read_ref_local lo hi g h (some n) agree (low, high, w) =
        ap (λ (c : C). some (s.read g (get c))) (agree n low high)
        ∙ ap some (s.read_local lo hi g h (get (h.cells n)) agree w)

    pub WithinRef-local :
        (lo hi : ℕ) (g h : Heap C) (r : Ref)
        → Agree lo hi g h
        → WithinRef lo hi h r
        → WithinRef lo hi g r
    WithinRef-local lo hi g h none agree w = tt
    WithinRef-local lo hi g h (some n) agree (low, high, w) = (
      low,
      high,
      subst (λ (c : C). s.Within lo hi g (get c)) (sym (agree n low high))
          (s.Within_local lo hi g h (get (h.cells n)) agree w),
    )

    pub WithinRef-wider :
        (lo hi lo' hi' : ℕ) (h : Heap C) (r : Ref)
        → lo' ≤ lo
        → hi ≤ hi'
        → WithinRef lo hi h r
        → WithinRef lo' hi' h r
    WithinRef-wider lo hi lo' hi' h none below above w = tt
    WithinRef-wider lo hi lo' hi' h (some n) below above (low, high, w) = (
      omega (arith, low, below),
      omega (arith, high, above),
      s.Within_wider lo hi lo' hi' h (get (h.cells n)) below above w,
    )

    -- What is behind a reference: nothing, or what the cell holds.
    abbrev pub behind : Shape C Ref
    behind = record {
      Seen = Option s.Seen;
      read = read_ref;
      Within = WithinRef;
      read_local = read_ref_local;
      Within_local = WithinRef-local;
      Within_wider = WithinRef-wider;
    }

    pub copy_ref-IsDeep :
        (put : A → C) (copy : A → Heap C → A × Heap C)
        → ((a : A) → get (put a) ≡ a)
        → IsDeep s copy
        → IsDeep behind (copy_ref put get copy)
    unfolding copy_ref reserve store
    copy_ref-IsDeep put copy get-put deep h none w = record {
      grows = omega arith;
      keeps = λ n low high. refl;
      same = refl;
      apart = tt;
    }
    copy_ref-IsDeep put copy get-put deep h (some n) (low, high, w) =
        let taken : Heap C = record h { next = suc h.next } in
        let x = get (h.cells n) in
        let (out, copied) = copy x taken in
        let done = deep taken x (
          s.Within_wider 0 h.next 0 taken.next taken x (omega arith) (omega arith)
            (s.Within_local 0 h.next taken h x (λ k lo hi. refl) w)) in
        let after = store h.next (put out) copied in
        let held : get (after.cells h.next) ≡ out =
          ap get (store-same h.next (put out) copied) ∙ get-put out in
        let unchanged : Agree taken.next copied.next after copied =
          λ k lo hi. store-other h.next k (put out) copied (λ e. omega (arith, e, lo)) in
        record {
          grows = omega (arith, done.grows);
          keeps = λ k lo hi.
              store-other h.next k (put out) copied (λ e. omega (arith, e, hi))
              ∙ done.keeps k lo (omega (arith, hi));
          same = ap some (
              ap (s.read after) held
              ∙ s.read_local taken.next copied.next after copied out unchanged done.apart
              ∙ done.same
              ∙ s.read_local 0 h.next taken h x (λ k lo hi. refl) w);
          apart = (
            omega arith,
            omega (arith, done.grows),
            subst (s.Within h.next copied.next after) (sym held) (
                s.Within_wider taken.next copied.next h.next copied.next after out (omega arith)
                  (omega arith)
                  (s.Within_local taken.next copied.next after copied out unchanged done.apart)),
          );
        }

  module _ {A : Type 0} (s : Shape C A) where
    pub read_each_local :
        (lo hi : ℕ) (g h : Heap C) (xs : List A)
        → Agree lo hi g h
        → All (s.Within lo hi h) xs
        → map (s.read g) xs ≡ map (s.read h) xs
    read_each_local lo hi g h [] agree w = refl
    read_each_local lo hi g h (x ∷ xs) agree (v, w) =
        ap₂ (λ (y : s.Seen) (ys : List s.Seen). y ∷ ys) (s.read_local lo hi g h x agree v)
          (read_each_local lo hi g h xs agree w)

    -- The elements of a slice.
    abbrev pub each : Shape C (List A)
    each = record {
      Seen = List s.Seen;
      read = λ h xs. map (s.read h) xs;
      Within = λ lo hi h xs. All (s.Within lo hi h) xs;
      read_local = read_each_local;
      Within_local = λ lo hi g h xs agree.
          All-map (s.Within lo hi h) (s.Within lo hi g) (λ x. s.Within_local lo hi g h x agree) xs;
      Within_wider = λ lo hi lo' hi' h xs below above.
          All-map (s.Within lo hi h) (s.Within lo' hi' h)
            (λ x. s.Within_wider lo hi lo' hi' h x below above) xs;
    }

    pub copy_each-IsDeep :
        (copy : A → Heap C → A × Heap C) → IsDeep s copy → IsDeep each (copy_each copy)
    unfolding copy_each
    copy_each-IsDeep copy deep h [] w = record {
      grows = omega arith;
      keeps = λ n low high. refl;
      same = refl;
      apart = tt;
    }
    copy_each-IsDeep copy deep h (x ∷ xs) (v, w) =
        let (y, h1) = copy x h in
        let (ys, h2) = copy_each copy xs h1 in
        let first = deep h x v in
        let rest = copy_each-IsDeep copy deep h1 xs (Within_later s each h h1 x y xs first w) in
        let both = IsCopy-pair s each h h1 h2 x y xs ys first rest w in
        record {
          grows = both.grows;
          keeps = both.keeps;
          same = ap (λ (p : s.Seen × List s.Seen). p.0 ∷ p.1) both.same;
          apart = both.apart;
        }
