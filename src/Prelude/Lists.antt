-- ===== src/Prelude/Lists.antt =====
-- Lists: a predicate on every element, membership as a test, and a filter by a Boolean.
use mathlib.Core.List.{Mem, mem-cons_self, mem-cons_of_mem}
use mathlib.Core.Nat
use mathlib.Core.List.Perm
use mathlib.Core.List.{Perm, map, List, [], ◌∷◌, ◌++◌}
use Prim.Native.Nat.{ℕ, suc, ◌+◌, ◌≤◌}
use Prim.Native.String.{String}
use mathlib.Core.Path.{◌≡◌, refl, sym, ap, ◌∙◌}
use mathlib.Core.Bool.{Bool-set, Bool, true, false, ◌||◌}
use mathlib.Core.Logic.{inl, inr}
use native.Mathlib.Omega.{arith}
use text.Mathlib.Text.{◌==◌}
use text.Mathlib.TextPositions.{eq_refl}
use projection.Prelude.Tests.{Bool-cases, if◌then◌else◌}

module _ {ℓ} {A : Type ℓ} where
  abbrev pub length : List A → ℕ
  length [] = 0
  length (x ∷ xs) = suc (length xs)

  abbrev pub All {κ} : (A → Type κ) → List A → Type κ
  All P [] = Unit
  All P (x ∷ xs) = P x × All P xs

  abbrev pub select : (A → Bool) → List A → List A
  select p [] = []
  select p (x ∷ xs) = let rest = select p xs in if p x then x ∷ rest else rest

  pub length-append : (xs ys : List A) → length (xs ++ ys) ≡ length xs + length ys
  length-append [] ys = omega arith
  length-append (x ∷ xs) ys = omega (arith, length-append xs ys)

  pub length-select-le : (p : A → Bool) (xs : List A) → length (select p xs) ≤ length xs
  length-select-le p [] = omega arith
  length-select-le p (x ∷ xs) = ground (arith, length-select-le p xs)

  pub All-append {κ} : (P : A → Type κ) (xs ys : List A) → All P xs → All P ys → All P (xs ++ ys)
  All-append P [] ys h k = k
  All-append P (x ∷ xs) ys (p, h) k = (p, All-append P xs ys h k)

  pub All-split {κ} : (P : A → Type κ) (xs ys : List A) → All P (xs ++ ys) → All P xs × All P ys
  All-split P [] ys h = (tt, h)
  All-split P (x ∷ xs) ys (p, h) = let (before, after) = All-split P xs ys h in ((p, before), after)

  pub All-if {κ} :
      (P : A → Type κ) (b : Bool) (xs ys : List A)
      → All P xs
      → All P ys
      → All P (if b then xs else ys)
  All-if P true xs ys h k = h
  All-if P false xs ys h k = k

  -- The elements of the first list, each put before those of the second in turn.
  abbrev pub reverse_onto : List A → List A → List A
  reverse_onto [] ys = ys
  reverse_onto (x ∷ xs) ys = reverse_onto xs (x ∷ ys)

  pub All-map {κ μ} :
      (P : A → Type κ) (Q : A → Type μ)
      → ((x : A) → P x → Q x)
      → (xs : List A) → All P xs
      → All Q xs
  All-map P Q f [] h = tt
  All-map P Q f (x ∷ xs) (p, h) = (f x p, All-map P Q f xs h)

-- `slices.Contains`, and the loops in the source that look a text up.
abbrev pub contains : List String → String → Bool
contains [] k = false
contains (x ∷ xs) k = x == k || contains xs k

pub All-of_contains {ℓ} :
    (P : String → Type ℓ) (xs : List String)
    → ((k : String) → contains xs k ≡ true → P k)
    → All P xs
All-of_contains P [] h = tt
All-of_contains P (x ∷ xs) h =
    (h x (rw (eq_refl x)), All-of_contains P xs (λ k c. h k (ground (arith, c))))

module _ {ℓ κ} {A : Type ℓ} {B : Type κ} where
  -- What holds of every element that the test keeps holds of the images of those kept.
  pub All-map-select {μ} :
      (P : B → Type μ) (f : A → B) (p : A → Bool) (xs : List A)
      → ((x : A) → Mem x xs → p x ≡ true → P (f x))
      → All P (map f (select p xs))
  All-map-select P f p [] h = tt
  All-map-select P f p (x ∷ xs) h =
      let rest = All-map-select P f p xs (λ y there. h y (mem-cons_of_mem x there)) in
      elim (Bool-cases (p x)) [
        | inl kept ↦ rw (kept, select) (h x mem-cons_self kept, rest)
        | inr dropped ↦ rw (dropped, select) rest
      ]

-- The library's length counts in its own numbers.
to_native : mathlib.Core.Nat.ℕ → ℕ
to_native mathlib.Core.Nat.zero = 0
to_native (mathlib.Core.Nat.suc n) = suc (to_native n)

length-native {ℓ} : {A : Type ℓ} (xs : List A) → length xs ≡ to_native (mathlib.Core.List.length xs)
unfolding to_native
length-native [] = refl
length-native (x ∷ xs) = ap suc (length-native xs)

pub length-perm {ℓ} : {A : Type ℓ} {xs ys : List A} → Perm xs ys → length xs ≡ length ys
length-perm {xs = xs} {ys = ys} p =
    length-native xs ∙ ap to_native (Perm.length-eq p) ∙ sym (length-native ys)

contains-foldr :
    (k : String) (xs : List String)
    → contains xs k ≡ mathlib.Core.List.foldr (λ x (b : Bool). x == k || b) false xs
contains-foldr k [] = refl
contains-foldr k (x ∷ xs) = ap (λ (b : Bool). x == k || b) (contains-foldr k xs)

pub or_left_comm : (a b c : Bool) → (a || (b || c)) ≡ (b || (a || c))
or_left_comm a b c = ground arith

pub contains-perm : (k : String) {xs ys : List String} → Perm xs ys → contains xs k ≡ contains ys k
contains-perm k {xs} {ys} p =
    contains-foldr k xs
    ∙ Perm.foldr-eq Bool-set (λ x (b : Bool). x == k || b)
        (λ x y b. or_left_comm (x == k) (y == k) b) p false
    ∙ sym (contains-foldr k ys)

-- A filter looks at the list's own elements only.
pub select_congr {ℓ} :
    {A : Type ℓ} (p q : A → Bool) (xs : List A)
    → All (λ x. p x ≡ q x) xs
    → select p xs ≡ select q xs
select_congr p q [] h = refl
select_congr p q (x ∷ xs) (e, h) = rw (e, select_congr p q xs h)
