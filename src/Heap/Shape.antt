-- ===== src/Heap/Shape.antt =====
-- What a value reads as in a heap, and where the references stand that it reads by.
use projection.Prelude.{refl, ◌∙◌, ◌≤◌, ◌≡◌, ℕ, arith}
use mathlib.Core.Path.{ap₂}
use projection.Heap.{Agree, Heap}

module _ (C : Type 0) where
  -- For the values of a Go type: what is seen when all its references are followed, and that they lie
  -- from the first address to before the second. What is seen depends on the cells there only.
  pub record Shape (A : Type 0) : Type 1 where
    pub Seen : Type 0
    pub read : Heap C → A → Seen
    pub Within : ℕ → ℕ → Heap C → A → Type 0
    pub read_local :
        (lo hi : ℕ) (g h : Heap C) (a : A)
        → Agree lo hi g h
        → Within lo hi h a
        → read g a ≡ read h a
    pub Within_local :
        (lo hi : ℕ) (g h : Heap C) (a : A) → Agree lo hi g h → Within lo hi h a → Within lo hi g a
    pub Within_wider :
        (lo hi lo' hi' : ℕ) (h : Heap C) (a : A)
        → lo' ≤ lo
        → hi ≤ hi'
        → Within lo hi h a
        → Within lo' hi' h a

module _ {C : Type 0} where
  -- No references, seen by a function of the value.
  abbrev pub flat_as : {A B : Type 0} → (A → B) → Shape C A
  flat_as {B = B} f = record {
    Seen = B;
    read = λ _ a. f a;
    Within = λ _ _ _ _. Unit {0};
    read_local = λ lo hi g h a agree w. refl;
    Within_local = λ lo hi g h a agree w. tt;
    Within_wider = λ lo hi lo' hi' h a below above w. tt;
  }

  -- A field.
  abbrev pub on : {A B : Type 0} → (A → B) → Shape C B → Shape C A
  on field s = record {
    Seen = s.Seen;
    read = λ h a. s.read h (field a);
    Within = λ lo hi h a. s.Within lo hi h (field a);
    read_local = λ lo hi g h a. s.read_local lo hi g h (field a);
    Within_local = λ lo hi g h a. s.Within_local lo hi g h (field a);
    Within_wider = λ lo hi lo' hi' h a. s.Within_wider lo hi lo' hi' h (field a);
  }

  infixr 30 ◌⊗◌
  -- Two parts of a struct.
  abbrev pub ◌⊗◌ : {A : Type 0} → Shape C A → Shape C A → Shape C A
  s ⊗ t = record {
    Seen = s.Seen × t.Seen;
    read = λ h a. (s.read h a, t.read h a);
    Within = λ lo hi h a. s.Within lo hi h a × t.Within lo hi h a;
    read_local = λ lo hi g h a agree (v, w).
        ap₂ (λ (x : s.Seen) (y : t.Seen). (x, y)) (s.read_local lo hi g h a agree v)
          (t.read_local lo hi g h a agree w);
    Within_local = λ lo hi g h a agree (v, w).
        (s.Within_local lo hi g h a agree v, t.Within_local lo hi g h a agree w);
    Within_wider = λ lo hi lo' hi' h a below above (v, w). (
      s.Within_wider lo hi lo' hi' h a below above v,
      t.Within_wider lo hi lo' hi' h a below above w,
    );
  }

  -- From one heap to a later one: nothing that was there has changed, the second value reads there as
  -- the first did, and all its references are new.
  pub record IsCopy {A : Type 0} (s : Shape C A) (h : Heap C) (a : A) (h' : Heap C) (a' : A)
      : Type 0 where
    pub grows : h.next ≤ h'.next
    pub keeps : Agree 0 h.next h' h
    pub same : s.read h' a' ≡ s.read h a
    pub apart : s.Within h.next h'.next h' a'

  -- Of a function that copies: where all references of what it copies are in use.
  abbrev pub IsDeep : {A : Type 0} → Shape C A → (A → Heap C → A × Heap C) → Type 0
  IsDeep s copy =
      (h : Heap C) (a : _) → s.Within 0 h.next h a → IsCopy s h a (copy a h).1 (copy a h).0

  -- Two values copied, one after the other.
  pub IsCopy-pair :
      {A B : Type 0} (s : Shape C A) (t : Shape C B) (h h1 h2 : Heap C) (a a' : A) (b b' : B)
      → IsCopy s h a h1 a'
      → IsCopy t h1 b h2 b'
      → t.Within 0 h.next h b
      → IsCopy (on (λ (p : A × B). p.0) s ⊗ on (λ (p : A × B). p.1) t) h (a, b) h2 (a', b')
  IsCopy-pair s t h h1 h2 a a' b b' first second within =
      let unchanged : Agree h.next h1.next h2 h1 =
        λ n low high. second.keeps n (omega arith) high in
      record {
        grows = omega (arith, first.grows, second.grows);
        keeps = λ n low high.
            second.keeps n low (omega (arith, high, first.grows)) ∙ first.keeps n low high;
        same =
            ap₂ (λ (x : s.Seen) (y : t.Seen). (x, y))
              (s.read_local h.next h1.next h2 h1 a' unchanged first.apart ∙ first.same)
              (second.same ∙ t.read_local 0 h.next h1 h b first.keeps within);
        apart = (
          s.Within_wider h.next h1.next h.next h2.next h2 a' (omega arith) second.grows
              (s.Within_local h.next h1.next h2 h1 a' unchanged first.apart),
          t.Within_wider h1.next h2.next h.next h2.next h2 b' first.grows (omega arith)
              second.apart,
        );
      }

  -- Two parts of a struct copied, one after the other.
  IsCopy-both :
      {A : Type 0} (s t : Shape C A) (h h1 h2 : Heap C) (a a' : A)
      → IsCopy s h a h1 a'
      → IsCopy t h1 a h2 a'
      → t.Within 0 h.next h a
      → IsCopy (s ⊗ t) h a h2 a'
  IsCopy-both s t h h1 h2 a a' first second within =
      let both = IsCopy-pair s t h h1 h2 a a' a a' first second within in
      record { grows = both.grows; keeps = both.keeps; same = both.same; apart = both.apart }

  -- A field copied.
  pub IsCopy-on :
      {A B : Type 0} (field : A → B) (s : Shape C B) (h h' : Heap C) (a a' : A)
      → IsCopy s h (field a) h' (field a')
      → IsCopy (on field s) h a h' a'
  IsCopy-on field s h h' a a' copied = record {
    grows = copied.grows;
    keeps = copied.keeps;
    same = copied.same;
    apart = copied.apart;
  }

  -- What is within an earlier heap is within the later one.
  pub Within_later :
      {A B : Type 0} (s : Shape C A) (t : Shape C B) (h h1 : Heap C) (a a' : A) (b : B)
      → IsCopy s h a h1 a'
      → t.Within 0 h.next h b
      → t.Within 0 h1.next h1 b
  Within_later s t h h1 a a' b first within =
      t.Within_wider 0 h.next 0 h1.next h1 b (omega arith) first.grows
        (t.Within_local 0 h.next h1 h b first.keeps within)

  pub flat-IsCopy :
      {A B : Type 0}
      → (f : A → B) (h : Heap C) (a a' : A) → f a' ≡ f a
      → IsCopy (flat_as f) h a h a'
  flat-IsCopy f h a a' e = record {
    grows = omega arith;
    keeps = λ n low high. refl;
    same = e;
    apart = tt;
  }

  -- A struct whose first part is a field that was copied.
  pub IsCopy-then :
      {A B : Type 0} (field : A → B) (s : Shape C B) (t : Shape C A) (h h1 h2 : Heap C) (a a' : A)
      → IsCopy s h (field a) h1 (field a')
      → t.Within 0 h.next h a
      → (t.Within 0 h1.next h1 a → IsCopy t h1 a h2 a')
      → IsCopy (on field s ⊗ t) h a h2 a'
  IsCopy-then field s t h h1 h2 a a' first within rest =
      IsCopy-both (on field s) t h h1 h2 a a' (IsCopy-on field s h h1 a a' first)
        (rest (Within_later s t h h1 (field a) (field a') a first within)) within

  -- A struct whose first part has no references and was kept.
  pub IsCopy-kept :
      {A B : Type 0} (f : A → B) (t : Shape C A) (h h1 : Heap C) (a a' : A)
      → f a' ≡ f a
      → t.Within 0 h.next h a
      → IsCopy t h a h1 a'
      → IsCopy (flat_as f ⊗ t) h a h1 a'
  IsCopy-kept f t h h1 a a' e within rest =
      IsCopy-both (flat_as f) t h h h1 a a' (flat-IsCopy f h a a' e) rest within
